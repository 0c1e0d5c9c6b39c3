-- ===== src/Cache/Profile/Laws.antt =====
-- What `k3_cache_load_profile` (src/cache/k3_cache.c) marks.
use native.Mathlib.Nat.{mul-le-mul_right, suc-mul}
use kimi_k3_for_me.Prelude.{
  ℕ, ◌+◌, ◌*◌, ◌<◌, ◌≤◌, ◌≡◌, ◌≢◌, inl, inr, refl, Bool, true, false, not, ◌&&◌, List, [], ◌∷◌,
  Option, none, some, ltb, min, arith, Option-cases, Bool-cases, count, count-zero, count-lt,
  count-le_suc, subst, sym, ap, ◌∙◌, if◌then◌else◌, ℕ_discrete,
}
use kimi_k3_for_me.Prelude.Arrays.{update, update_self, update_ne}
use kimi_k3_for_me.Load.Geometry.{ExpertRef}
use kimi_k3_for_me.Cache.State.{Cache}
use kimi_k3_for_me.Cache.Profile.{
  Geometry, Rows, refuses, present, accept, row_of, row, read_rows, no_rows, read_profile, header,
  profile_fields, has_newline,
}

pub key-lt : (l e n m : ℕ) → l < n → e < m → l * m + e < n * m
key-lt l e n m hl he = omega (arith, mul-le-mul_right m hl, suc-mul l m)

module _ (f : ℕ → ℕ → Option ExpertRef) (g : Geometry) (want : ℕ) where
  -- A key is that of an expert of the checkpoint.
  pub record IsKnown (k : ℕ) : Type 0 where
    pub layer : ℕ
    pub expert : ℕ
    pub inside : (layer < g.n_layers) × (expert < g.n_experts)
    pub is : k ≡ layer * g.n_experts + expert
    pub found : f layer expert ≢ none

  -- The rows read so far marked one expert each, up to `want`.
  pub record IsMarking (m : Rows) : Type 0 where
    pub seen : (k : ℕ) → m.selected k ≡ true → m.seen k ≡ true
    pub known : (k : ℕ) → m.selected k ≡ true → IsKnown k
    pub size : count (g.n_layers * g.n_experts) m.selected ≡ min m.rows want

  -- A row that is marked.
  mark-IsMarking :
      (m : Rows) (l e n : ℕ)
      → refuses (some f) g want m l e n ≡ false
      → f l e ≢ none
      → m.rows < want
      → IsMarking m
      → IsMarking (record {
        seen = update m.seen (l * g.n_experts + e) true;
        selected = update m.selected (l * g.n_experts + e) true;
        prev_key = some (l * g.n_experts + e);
        prev_count = n;
        rows = m.rows + 1;
      })
  unfolding refuses
  mark-IsMarking m l e n ok there more w =
      let hl : l < g.n_layers = ground arith in
      let he : e < g.n_experts = ground arith in
      let below = key-lt l e g.n_layers g.n_experts hl he in
      let unseen : m.seen (l * g.n_experts + e) ≡ false = ground arith in
      record {
        seen = λ k h. elim (ℕ_discrete (l * g.n_experts + e) k) [
          | yes q ↦
              ap (update m.seen (l * g.n_experts + e) true) (sym q)
              ∙ update_self m.seen (l * g.n_experts + e) true
          | no q ↦ update_ne m.seen true q ∙ w.seen k (sym (update_ne m.selected true q) ∙ h)
        ];
        known = λ k h. elim (ℕ_discrete (l * g.n_experts + e) k) [
          | yes q ↦ record { layer = l; expert = e; inside = (hl, he); is = sym q; found = there }
          | no q ↦ w.known k (sym (update_ne m.selected true q) ∙ h)
        ];
        size = one_more (l * g.n_experts + e) below unseen;
      }
    where
      one_more :
          (key : ℕ)
          → key < g.n_layers * g.n_experts
          → m.seen key ≡ false
          → count (g.n_layers * g.n_experts) (update m.selected key true) ≡ min (m.rows + 1) want
      one_more key below unseen =
          let size = w.size in
          let at_least =
            count-lt (g.n_layers * g.n_experts) m.selected (update m.selected key true) key
              (λ i lt h. ground arith) below
              (elim (Bool-cases (m.selected key)) [
                | inl h ↦ absurd cc (sym (w.seen key h) ∙ unseen)
                | inr h ↦ h
              ])
              (update_self m.selected key true) in
          let at_most =
            count-le_suc (g.n_layers * g.n_experts) (update m.selected key true) m.selected key
              (λ i lt h. elim (ℕ_discrete key i) [
                | yes q ↦ inr (sym q)
                | no q ↦ inl (sym (update_ne m.selected true q) ∙ h)
              ]) in
          ground arith

  -- A row behind the first `want`.
  pass-IsMarking :
      (m : Rows) (key n : ℕ)
      → want ≤ m.rows
      → IsMarking m
      → IsMarking (record {
        seen = update m.seen key true;
        selected = m.selected;
        prev_key = some key;
        prev_count = n;
        rows = m.rows + 1;
      })
  pass-IsMarking m key n enough w = record {
    seen = λ k h. let s = w.seen k h in ground arith;
    known = w.known;
    size = let s = w.size in omega arith;
  }

  accept-IsMarking :
      (m : Rows) (l e n : ℕ)
      → refuses (some f) g want m l e n ≡ false
      → (ltb m.rows want && not (present (some f) g want l e)) ≡ false
      → IsMarking m
      → IsMarking (accept (some f) g want m l e n)
  accept-IsMarking m l e n ok there w = elim (Bool-cases (ltb m.rows want)) [
    | inl more ↦
        let known : f l e ≢ none = λ q. absurd cc (lost q more) in
        subst
          (λ b. IsMarking (record {
            seen = update m.seen (l * g.n_experts + e) true;
            selected = if b then update m.selected (l * g.n_experts + e) true else m.selected;
            prev_key = some (l * g.n_experts + e);
            prev_count = n;
            rows = m.rows + 1;
          }))
          (sym more) (mark-IsMarking m l e n ok known (ground arith) w)
    | inr past ↦
        subst
          (λ b. IsMarking (record {
            seen = update m.seen (l * g.n_experts + e) true;
            selected = if b then update m.selected (l * g.n_experts + e) true else m.selected;
            prev_key = some (l * g.n_experts + e);
            prev_count = n;
            rows = m.rows + 1;
          }))
          (sym past) (pass-IsMarking m (l * g.n_experts + e) n (ground arith) w)
  ]
    where
      lost : f l e ≡ none → ltb m.rows want ≡ true → true ≡ false
      lost q more = sym (rw (q, more) refl) ∙ there

  row_of-accept :
      (m : Rows) (l e n : ℕ)
      → refuses (some f) g want m l e n ≡ false
      → (ltb m.rows want && not (present (some f) g want l e)) ≡ false
      → row_of (some f) g want m (l ∷ e ∷ n ∷ []) ≡ some (accept (some f) g want m l e n)
  row_of-accept m l e n ok there = rw (ok, there) refl

  row_of-IsMarking :
      (m d : Rows) (vs : List ℕ) → row_of (some f) g want m vs ≡ some d → IsMarking m → IsMarking d
  row_of-IsMarking m d [] h w = absurd cc
  row_of-IsMarking m d (l ∷ []) h w = absurd cc
  row_of-IsMarking m d (l ∷ e ∷ []) h w = absurd cc
  row_of-IsMarking m d (l ∷ e ∷ n ∷ x ∷ vs) h w = absurd cc
  row_of-IsMarking m d (l ∷ e ∷ n ∷ []) h w = elim (Bool-cases (refuses (some f) g want m l e n)) [
    | inl bad ↦ absurd ground arith
    | inr ok ↦ elim (Bool-cases (ltb m.rows want && not (present (some f) g want l e))) [
      | inl bad ↦ absurd ground arith
      | inr there ↦
          subst IsMarking (cc (sym (row_of-accept m l e n ok there) ∙ h))
            (accept-IsMarking m l e n ok there w)
    ]
  ]

  row-IsMarking :
      (m d : Rows) (line : List ℕ) → row (some f) g want m line ≡ some d → IsMarking m → IsMarking d
  unfolding row
  row-IsMarking m d line h w = elim (Bool-cases (has_newline line)) [
    | inr bad ↦ absurd ground arith
    | inl whole ↦ elim (Option-cases (profile_fields line 3)) [
      | inl bad ↦ absurd ground arith
      | inr (vs, e) ↦ row_of-IsMarking m d vs (ground arith) w
    ]
  ]

  pub read_rows-IsMarking :
      (m d : Rows) (lines : List (List ℕ))
      → read_rows (some f) g want m lines ≡ some d
      → IsMarking m
      → IsMarking d
  unfolding read_rows
  read_rows-IsMarking m d [] h w = subst IsMarking (cc (h)) w
  read_rows-IsMarking m d (line ∷ lines) h w = elim (Option-cases (row (some f) g want m line)) [
    | inl bad ↦ absurd ground arith
    | inr (x, e) ↦ read_rows-IsMarking x d lines (ground arith) (row-IsMarking m x line e w)
  ]

  pub no_rows-IsMarking : IsMarking no_rows
  no_rows-IsMarking = record {
    seen = λ k (h : false ≡ true). absurd cc;
    known = λ k (h : false ≡ true). absurd cc;
    size = omega (arith, count-zero (g.n_layers * g.n_experts) no_rows.selected (λ k. refl));
  }

-- The geometry of a cache.
abbrev pub geometry : {B : Type 0} → Cache B → Geometry
geometry c = record { n_layers = c.n_layers; n_experts = c.n_experts; topk = c.topk }

pub read_profile-IsMarking :
    (f : ℕ → ℕ → Option ExpertRef) (o : Geometry) (want : ℕ) (lines : List (List ℕ)) (broken : Bool)
    (marks : ℕ → Bool)
    → read_profile (some (o, f)) lines broken want ≡ some marks
    → (d : Rows) × (d.selected ≡ marks) × (want ≤ d.rows) × IsMarking f o want d
unfolding read_profile
read_profile-IsMarking f o want [] broken marks h = absurd cc
read_profile-IsMarking f o want (line ∷ lines) broken marks h = elim (Option-cases (header line)) [
  | inl bad ↦ absurd ground arith
  | inr (g, e) ↦ elim (Option-cases (read_rows (some f) g want no_rows lines)) [
    | inl bad ↦ absurd ground arith
    | inr (d, r) ↦
        let layers : g.n_layers ≡ o.n_layers = ground arith in
        let experts : g.n_experts ≡ o.n_experts = ground arith in
        let top : g.topk ≡ o.topk = ground arith in
        let same : g ≡ o =
          λ i. record { n_layers = layers i; n_experts = experts i; topk = top i } in
        (
          d,
          ground arith,
          ground arith,
          subst (λ x. IsMarking f x want d) same
              (read_rows-IsMarking f g want no_rows d lines r (no_rows-IsMarking f g want)),
        )
  ]
]
