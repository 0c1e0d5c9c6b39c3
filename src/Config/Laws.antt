-- ===== src/Config/Laws.antt =====
-- What `k3_cfg_load` (include/k3/k3_cfg.h) promises of a configuration that it accepts.
use kimi_k3_for_me.Prelude.{
  ℕ, zero, suc, ◌-◌, ◌≤◌, ◌<◌, ◌≡◌, ◌⊎◌, inl, inr, refl, Bool, true, false, List, [], ◌∷◌, Option,
  some, length, arith, Bool-cases, subst, All, count, count-le, count-le_suc, count-zero,
}
use kimi_k3_for_me.Prelude.Int.{ℤ, pos, negsuc, ltb_ℤ, ◌+ℤ◌}
use kimi_k3_for_me.Header.Rest.{branch}
use kimi_k3_for_me.Config.Fields.{layer_map-IsMap, fields-IsRead}
use kimi_k3_for_me.Config.Document.{IsMap, IsRead}
use kimi_k3_for_me.Config.{
  Key, Cfg, Layers, absent, refused, listed, Json, Source, required, is_positive, are_layers,
  has_layer, number, missing, layer_map, source, fields, is_sane, load_config, is_mla,
}

-- An entry of the layer map of a model with `n` layers.
abbrev pub IsLayer : ℕ → ℤ → Type 0
IsLayer n l = (m : ℕ) × (l ≡ pos m) × (1 ≤ m) × (m ≤ n)

module _ {J N F : Type 0} (api : Json J N F) where
  pub record IsConfig (fa_max : ℕ) (root : J) (c : Cfg F) : Type 0 where
    pub read : IsRead api root c
    pub layers : ℕ
    pub n_layers : c.n_layers ≡ pos layers
    pub room : length c.full_attn ≤ fa_max
    pub fewer : length c.full_attn < layers
    pub map : All (IsLayer layers) c.full_attn
    pub kda : (i : ℕ) × (i < layers) × (is_mla c (pos i) ≡ false)
    pub topk : (ltb_ℤ (pos 64) c.topk ≡ false) × (ltb_ℤ c.n_experts c.topk ≡ false)
    pub positive :
        (ltb_ℤ (pos 0) c.hidden ≡ true)
        × (ltb_ℤ (pos 0) c.vocab ≡ true)
        × (ltb_ℤ (pos 0) c.attn_res_block ≡ true)
        × (ltb_ℤ (pos 0) c.conv_k ≡ true)

  missing-present :
      (s : Source J) (ks : List (Key × Option Key))
      → missing api s ks ≡ []
      → All (λ p. (n : N) × (number api s p.0 p.1 ≡ some n)) ks
  unfolding missing
  missing-present s [] h = tt
  missing-present s ((k, a) ∷ ks) h = elim (branch (number api s k a) _ _ _ h) [
    | inl (n, e, r) ↦ ((n, e), missing-present s ks r)
    | inr (e, r) ↦ absurd cc
  ]

-- Fewer than `n` indices that pass leave one that fails.
count-fails : (n : ℕ) (p : ℕ → Bool) → count n p < n → (i : ℕ) × (i < n) × (p i ≡ false)
count-fails zero p h = absurd (omega arith)
count-fails (suc n) p h = elim (Bool-cases (p n)) [
  | inr fails ↦ (n, omega arith, fails)
  | inl passes ↦ let (i, lt, e) = count-fails n p (ground arith) in (i, omega arith, e)
]

count-has_layer : (n : ℕ) (ls : List ℤ) → count n (λ i. has_layer (pos i +ℤ pos 1) ls) ≤ length ls
unfolding has_layer
count-has_layer n [] = omega (arith, count-zero n (λ i. false) (λ i. refl))
count-has_layer n (pos m ∷ ls) = ground (
  arith,
  count-has_layer n ls,
  count-le_suc n (λ i. has_layer (pos i +ℤ pos 1) (pos m ∷ ls)) (λ i. has_layer (pos i +ℤ pos 1) ls)
      (m - 1) (λ i lt h. ground (arith, h)),
)
count-has_layer n (negsuc m ∷ ls) = omega (
  arith,
  count-has_layer n ls,
  count-le n (λ i. has_layer (pos i +ℤ pos 1) (negsuc m ∷ ls)) (λ i. has_layer (pos i +ℤ pos 1) ls)
      (λ i lt h. h),
)

-- Some layer is not in a map that is shorter than the model.
some-kda :
    {F : Type 0} (n : ℕ) (c : Cfg F)
    → length c.full_attn < n
    → (i : ℕ) × (i < n) × (is_mla c (pos i) ≡ false)
unfolding is_mla
some-kda n c h =
    count-fails n (λ i. has_layer (pos i +ℤ pos 1) c.full_attn)
      (omega (arith, count-has_layer n c.full_attn))

are_layers-IsLayer : (n : ℕ) (ls : List ℤ) → are_layers (pos n) ls ≡ true → All (IsLayer n) ls
are_layers-IsLayer n [] h = tt
are_layers-IsLayer n (pos m ∷ ls) h =
    ((m, refl, ground (arith, h), ground (arith, h)), are_layers-IsLayer n ls (ground (arith, h)))
are_layers-IsLayer n (negsuc m ∷ ls) h = absurd (ground (arith, h))

positive-pos : (x : ℤ) → is_positive x ≡ true → (n : ℕ) × (x ≡ pos n) × (1 ≤ n)
positive-pos (pos n) h = (n, refl, ground (arith, h))
positive-pos (negsuc n) h = absurd cc

Layers-cases : (x : Layers) → ((ls : List ℤ) × (x ≡ listed ls)) ⊎ ((x ≡ absent) ⊎ (x ≡ refused))
Layers-cases absent = inr (inl refl)
Layers-cases refused = inr (inr refl)
Layers-cases (listed ls) = inl (ls, refl)

List-cases : {A : Type 0} (xs : List A) → (xs ≡ []) ⊎ ((x : A) × (ys : List A) × (xs ≡ x ∷ ys))
List-cases [] = inl refl
List-cases (x ∷ ys) = inr (x, ys, refl)

module _ {J N F : Type 0} (api : Json J N F) where
  accepted :
      (fa_max : ℕ) (root : J) (fa : List ℤ)
      → IsMap api root fa × (length fa ≤ fa_max)
      → All (λ p. (n : N) × (number api (source api root) p.0 p.1 ≡ some n)) required
      → is_sane api (fields api (source api root) fa) ≡ true
      → IsConfig api fa_max root (fields api (source api root) fa)
  unfolding is_sane fields
  accepted fa_max root fa (map, room) present sane =
      let c = fields api (source api root) fa in
      let (n, e, some_layer) = positive-pos c.n_layers (ground (arith, sane)) in
      let fewer : length fa < n = ground (arith, sane, e) in
      let in_map : are_layers c.n_layers fa ≡ true = ground (arith, sane) in
      record {
        read = fields-IsRead api root fa map present;
        layers = n;
        n_layers = e;
        room = room;
        fewer = fewer;
        map = are_layers-IsLayer n fa (subst (λ x. are_layers x fa ≡ true) e in_map);
        kda = some-kda n c fewer;
        topk = (ground (arith, sane), ground (arith, sane));
        positive = (
          ground (arith, sane),
          ground (arith, sane),
          ground (arith, sane),
          ground (arith, sane),
        );
      }

  -- In a configuration that is accepted each number is the one that the document has under the field's
  -- names, in the first object with one of them; none is a default. A flag is the document's, or true
  -- where it has none, and the layer map is the document's array of numbers. The map fits the buffer and
  -- names layers of the model, but not all of them; the experts of a token are no more than there are,
  -- and at most 64; and the sizes that divide or count are positive.
  pub load_config-IsConfig :
      (fa_max : ℕ) (root : J) (c : Cfg F)
      → load_config api fa_max root ≡ some c
      → IsConfig api fa_max root c
  unfolding load_config
  load_config-IsConfig fa_max root c h =
      elim (Layers-cases (layer_map api (source api root) fa_max)) [
        | inl (fa, e) ↦ elim (List-cases (missing api (source api root) required)) [
          | inr (k, ks, e') ↦ absurd (ground (arith, e, e', h))
          | inl e' ↦ elim (Bool-cases (is_sane api (fields api (source api root) fa))) [
            | inr bad ↦ absurd (ground (arith, e, e', bad, h))
            | inl sane ↦
                let same : some (fields api (source api root) fa) ≡ some c =
                  ground (arith, e, e', sane, h) in
                let here : fields api (source api root) fa ≡ c = cc (same) in
                subst (IsConfig api fa_max root) here (
                  accepted fa_max root fa (layer_map-IsMap api root fa_max fa e)
                    (missing-present api (source api root) required e') sane)
          ]
        ]
        | inr (inl e) ↦ absurd (ground (arith, e, h))
        | inr (inr e) ↦ absurd (ground (arith, e, h))
      ]
