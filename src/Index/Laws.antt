-- ===== src/Index/Laws.antt =====
-- The name index (src/io/k3_st.c): what a lookup finds.
use kimi_k3_for_me.Prelude.{
  ℕ, zero, suc, ◌+◌, ◌<◌, ◌≡◌, ◌⊎◌, inl, inr, refl, true, false, List, [], ◌∷◌, Option, none, some,
  arith, Option-cases, Bool-cases, subst, sym, ap, dec_lt, ℕ_discrete, ◌∙◌,
}
use kimi_k3_for_me.Prelude.Arrays.{update, update_self, update_ne}
use kimi_k3_for_me.Index.{
  Seek, at_free, at_entry, lost, seek, probe_name, enter, fill, same, wrap, fnv1a,
}

pub same→eq : (a b : List ℕ) → same a b ≡ true → a ≡ b
unfolding same
same→eq [] [] h = refl
same→eq [] (d ∷ t) h = absurd cc
same→eq (c ∷ s) [] h = absurd cc
same→eq (c ∷ s) (d ∷ t) h = ground (arith, same→eq s t (ground arith))

pub same_refl : (a : List ℕ) → same a a ≡ true
unfolding same
same_refl [] = refl
same_refl (c ∷ s) = ground (arith, same_refl s)

pub Seek-cases :
    (x : Seek) → ((k : ℕ) × (x ≡ at_free k)) ⊎ (((i : ℕ) × (x ≡ at_entry i)) ⊎ (x ≡ lost))
Seek-cases (at_free k) = inl (k, refl)
Seek-cases (at_entry i) = inr (inl (i, refl))
Seek-cases lost = inr (inr refl)

module _ (name : ℕ → List ℕ) (nb : ℕ) where
  pub seek-next :
      (b : ℕ → Option ℕ) (key : List ℕ) (n j x : ℕ)
      → b j ≡ some x
      → same (name x) key ≡ false
      → seek name nb b key (suc n) j ≡ seek name nb b key n (wrap name nb (j + 1))
  unfolding seek
  seek-next b key n j x e s = ground arith

  pub seek-hit :
      (b : ℕ → Option ℕ) (key : List ℕ) (n j x : ℕ)
      → b j ≡ some x
      → same (name x) key ≡ true
      → seek name nb b key (suc n) j ≡ at_entry x
  unfolding seek
  seek-hit b key n j x e s = ground arith

  pub seek-stop :
      (b : ℕ → Option ℕ) (key : List ℕ) (n j : ℕ)
      → b j ≡ none
      → seek name nb b key (suc n) j ≡ at_free j
  unfolding seek
  seek-stop b key n j e = ground arith

  -- An entry that stays while a free bucket is filled.
  entry-update :
      (b : ℕ → Option ℕ) (j k m x : ℕ) → b k ≡ none → b j ≡ some x → update b k (some m) j ≡ some x
  entry-update b j k m x f e = update_ne b (some m) (λ q. cc (ap b q)) ∙ e

  -- A probe that found an entry still finds it once a free bucket was filled.
  seek-entry :
      (b : ℕ → Option ℕ) (key : List ℕ) (n j k i m : ℕ)
      → b k ≡ none
      → seek name nb b key n j ≡ at_entry i
      → seek name nb (update b k (some m)) key n j ≡ at_entry i
  unfolding seek
  seek-entry b key zero j k i m f h = absurd cc
  seek-entry b key (suc n) j k i m f h = elim (Option-cases (b j)) [
    | inl e ↦ absurd cc (seek-stop b key n j e)
    | inr (x, e) ↦
        let d = update b k (some m) in
        let stay = entry-update b j k m x f e in
        elim (Bool-cases (same (name x) key)) [
          | inl s ↦ seek-hit d key n j x stay s ∙ (sym (seek-hit b key n j x e s) ∙ h)
          | inr s ↦
              seek-next d key n j x stay s
              ∙ seek-entry b key n (wrap name nb (j + 1)) k i m f
                  (sym (seek-next b key n j x e s) ∙ h)
        ]
  ]

  -- A probe for a name that was entered where it ended finds it there.
  seek-enter :
      (b : ℕ → Option ℕ) (n j k m : ℕ)
      → seek name nb b (name m) n j ≡ at_free k
      → (b k ≡ none) × (seek name nb (update b k (some m)) (name m) n j ≡ at_entry m)
  unfolding seek
  seek-enter b zero j k m h = absurd cc
  seek-enter b (suc n) j k m h = elim (Option-cases (b j)) [
    | inl e ↦
        let here : j ≡ k = cc (sym (seek-stop b (name m) n j e) ∙ h) in
        (
          sym (ap b here) ∙ e,
          seek-hit (update b k (some m)) (name m) n j m
              (ap (update b k (some m)) here ∙ update_self b k (some m)) (same_refl (name m)),
        )
    | inr (x, e) ↦ elim (Bool-cases (same (name x) (name m))) [
      | inl s ↦ absurd cc (seek-hit b (name m) n j x e s)
      | inr s ↦
          let (f, r) =
            seek-enter b n (wrap name nb (j + 1)) k m (sym (seek-next b (name m) n j x e s) ∙ h) in
          (f, seek-next (update b k (some m)) (name m) n j x (entry-update b j k m x f e) s ∙ r)
    ]
  ]

  -- What a probe finds is an entry of the table with the name.
  seek-same :
      (b : ℕ → Option ℕ) (key : List ℕ) (n j i : ℕ)
      → seek name nb b key n j ≡ at_entry i
      → ((k : ℕ) × (b k ≡ some i)) × (name i ≡ key)
  unfolding seek
  seek-same b key zero j i h = absurd cc
  seek-same b key (suc n) j i h = elim (Option-cases (b j)) [
    | inl e ↦ absurd cc (seek-stop b key n j e)
    | inr (x, e) ↦ elim (Bool-cases (same (name x) key)) [
      | inl s ↦
          let found : x ≡ i = cc (sym (seek-hit b key n j x e s) ∙ h) in
          ((j, e ∙ ap some found), sym (ap name found) ∙ same→eq (name x) key s)
      | inr s ↦ seek-same b key n (wrap name nb (j + 1)) i (sym (seek-next b key n j x e s) ∙ h)
    ]
  ]

  pub probe_name-same :
      (b : ℕ → Option ℕ) (key : List ℕ) (i : ℕ)
      → probe_name name nb b key ≡ at_entry i
      → ((k : ℕ) × (b k ≡ some i)) × (name i ≡ key)
  unfolding probe_name
  probe_name-same b key i h = seek-same b key nb (wrap name nb (fnv1a key)) i h

  -- The table after `n` names were entered: each is found, and each bucket holds one of them.
  pub record IsIndexed (b : ℕ → Option ℕ) (n : ℕ) : Type 0 where
    pub found : (i : ℕ) → i < n → probe_name name nb b (name i) ≡ at_entry i
    pub range : (j i : ℕ) → b j ≡ some i → i < n

  pub enter-at_free :
      (b : ℕ → Option ℕ) (n k : ℕ)
      → probe_name name nb b (name n) ≡ at_free k
      → enter name nb b n ≡ some (update b k (some n))
  unfolding enter
  enter-at_free b n k e = rw (e, enter) refl

  -- A name that the table has is refused, and so is one that finds no bucket.
  pub enter-at_entry :
      (b : ℕ → Option ℕ) (n : ℕ)
      → ((i : ℕ) × (probe_name name nb b (name n) ≡ at_entry i))
        ⊎ (probe_name name nb b (name n) ≡ lost)
      → enter name nb b n ≡ none
  unfolding enter
  enter-at_entry b n (inl (i, e)) = rw (e, enter) refl
  enter-at_entry b n (inr e) = rw (e, enter) refl

  pub update-IsIndexed :
      (b : ℕ → Option ℕ) (n k : ℕ)
      → IsIndexed b n
      → probe_name name nb b (name n) ≡ at_free k
      → IsIndexed (update b k (some n)) (suc n)
  unfolding probe_name
  update-IsIndexed b n k w e =
      let (f, r) = seek-enter b nb (wrap name nb (fnv1a (name n))) k n e in
      record {
        found = λ i lt. elim (dec_lt i n) [
          | yes below ↦
              seek-entry b (name i) nb (wrap name nb (fnv1a (name i))) k i n f (w.found i below)
          | no last ↦
              let here : n ≡ i = omega arith in
              subst
                (λ x.
                  seek name nb (update b k (some n)) (name x) nb (wrap name nb (fnv1a (name x)))
                  ≡ at_entry x)
                here r
        ];
        range = λ j i h. elim (ℕ_discrete k j) [
          | yes q ↦
              let here : n ≡ i =
                cc (sym (update_self b k (some n)) ∙ (ap (update b k (some n)) q ∙ h)) in
              omega arith
          | no q ↦ let old = w.range j i (sym (update_ne b (some n) q) ∙ h) in omega arith
        ];
      }

  enter-IsIndexed :
      (b : ℕ → Option ℕ) (n : ℕ) (d : ℕ → Option ℕ)
      → IsIndexed b n
      → enter name nb b n ≡ some d
      → IsIndexed d (suc n)
  enter-IsIndexed b n d w h = elim (Seek-cases (probe_name name nb b (name n))) [
    | inl (k, e) ↦
        let q : update b k (some n) ≡ d = cc (sym (enter-at_free b n k e) ∙ h) in
        subst (λ x. IsIndexed x (suc n)) q (update-IsIndexed b n k w e)
    | inr o ↦ absurd cc (enter-at_entry b n o)
  ]

  empty-IsIndexed : IsIndexed (λ _. none) 0
  empty-IsIndexed = record {
    found = λ i lt. absurd (omega arith);
    range = λ j i (q : none ≡ some i). absurd cc;
  }

  pub fill-IsIndexed : (n : ℕ) (b : ℕ → Option ℕ) → fill name nb n ≡ some b → IsIndexed b n
  unfolding fill
  fill-IsIndexed zero b h = subst (λ x. IsIndexed x 0) (cc (h)) empty-IsIndexed
  fill-IsIndexed (suc n) b h = elim (Option-cases (fill name nb n)) [
    | inl e ↦ absurd ground arith
    | inr (d, e) ↦ enter-IsIndexed d n b (fill-IsIndexed n d e) (ground arith)
  ]
