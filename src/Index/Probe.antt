-- ===== src/Index/Probe.antt =====
-- Why every probe of the name index ends (src/io/k3_st.c): half of the buckets stay free.
use native.Mathlib.Nat.{mod-lt, mod-eq_of_lt, mod_self, one-le-pow, pow-suc}
use kimi_k3_for_me.Prelude.{
  ℕ, zero, suc, ◌+◌, ◌*◌, ◌^◌, ◌<◌, ◌≤◌, ◌≡◌, ◌≢◌, ◌⊎◌, inl, inr, refl, Bool, true, false, List,
  Option, none, some, arith, Option-cases, Bool-cases, subst, sym, ap, ◌∙◌, dec_lt, ℕ_discrete,
  count, count-le_suc, ltb,
}
use kimi_k3_for_me.Prelude.Arrays.{update, update_ne}
use kimi_k3_for_me.Prelude.Bits.{bit_and_mask}
use kimi_k3_for_me.Index.{
  lost, seek, probe_name, enter, fill, same, wrap, fnv1a, grow, bucket_count,
}
use kimi_k3_for_me.Index.Laws.{
  seek-next, seek-hit, seek-stop, Seek-cases, enter-at_free, enter-at_entry,
}

abbrev pub is_taken : (ℕ → Option ℕ) → ℕ → Bool
is_taken b j = elim (b j) [ none ↦ false | some i ↦ true ]

count-all : (n : ℕ) (p : ℕ → Bool) → ((i : ℕ) → i < n → p i ≡ true) → count n p ≡ n
count-all zero p h = refl
count-all (suc n) p h = ground (arith, count-all n p (λ i lt. h i (omega arith)), h n (omega arith))

module _ (name : ℕ → List ℕ) (k : ℕ) where
  wrap-lt : (h : ℕ) → wrap name (2 ^ k) h < 2 ^ k
  wrap-lt h = rw (bit_and_mask k h) (mod-lt h (omega (arith, one-le-pow k 2)))

  wrap-small : (h : ℕ) → h < 2 ^ k → wrap name (2 ^ k) h ≡ h
  wrap-small h lt = bit_and_mask k h ∙ mod-eq_of_lt lt

  wrap-top : wrap name (2 ^ k) (2 ^ k) ≡ 0
  wrap-top = bit_and_mask k (2 ^ k) ∙ mod_self (2 ^ k)

  -- A probe of `n` rounds from bucket `j` that found nothing saw only taken buckets.
  seek-lost :
      (b : ℕ → Option ℕ) (key : List ℕ) (n j x : ℕ)
      → j < 2 ^ k
      → seek name (2 ^ k) b key n j ≡ lost
      → x < 2 ^ k
      → ((j ≤ x) × (x < j + n)) ⊎ (x + 2 ^ k < j + n)
      → is_taken b x ≡ true
  seek-lost b key zero j x hj h hx (inl (lo, hi)) = absurd omega arith
  seek-lost b key zero j x hj h hx (inr p) = absurd omega arith
  seek-lost b key (suc n) j x hj h hx w = elim (Option-cases (b j)) [
    | inl e ↦ absurd cc (seek-stop name (2 ^ k) b key n j e)
    | inr (i, e) ↦ elim (Bool-cases (same (name i) key)) [
      | inl s ↦ absurd cc (seek-hit name (2 ^ k) b key n j i e s)
      | inr s ↦ elim (ℕ_discrete j x) [
        | yes q ↦ subst (λ y. is_taken b y ≡ true) q (rw (e, is_taken) refl)
        | no q ↦
            let next = sym (seek-next name (2 ^ k) b key n j i e s) ∙ h in
            let rest = seek-lost b key n (wrap name (2 ^ k) (j + 1)) x (wrap-lt (j + 1)) next hx in
            elim (dec_lt (j + 1) (2 ^ k)) [
              | yes inside ↦ rest (rw (wrap-small (j + 1) inside) (ground arith))
              | no last ↦
                  let top : 2 ^ k ≡ j + 1 = omega arith in
                  let start : wrap name (2 ^ k) (j + 1) ≡ 0 =
                    subst (λ y. wrap name (2 ^ k) y ≡ 0) top wrap-top in
                  rest (rw start (ground arith))
            ]
      ]
    ]
  ]

  -- A table with room ends every probe.
  pub probe_name-lost :
      (b : ℕ → Option ℕ) (key : List ℕ)
      → count (2 ^ k) (is_taken b) < 2 ^ k
      → probe_name name (2 ^ k) b key ≢ lost
  unfolding probe_name
  probe_name-lost b key room h =
      let start = wrap-lt (fnv1a key) in
      omega (
        arith,
        count-all (2 ^ k) (is_taken b) (λ x lt.
            seek-lost b key (2 ^ k) (wrap name (2 ^ k) (fnv1a key)) x start h lt (ground arith)),
      )

count-none : (n : ℕ) → count n (is_taken (λ _. none)) ≡ 0
count-none zero = refl
count-none (suc n) = omega (arith, count-none n)

taken-update :
    (b : ℕ → Option ℕ) (j i x : ℕ)
    → is_taken (update b j (some i)) x ≡ true
    → (is_taken b x ≡ true) ⊎ (x ≡ j)
taken-update b j i x h = elim (ℕ_discrete j x) [
  | yes q ↦ inr (sym q)
  | no q ↦ inl (
      subst (λ (o : Option ℕ). elim o [ none ↦ false | some y ↦ true ] ≡ true)
        (update_ne b (some i) q) h)
]

module _ (name : ℕ → List ℕ) (nb : ℕ) where
  enter-count :
      (b d : ℕ → Option ℕ) (n : ℕ)
      → enter name nb b n ≡ some d
      → count nb (is_taken d) ≤ count nb (is_taken b) + 1
  enter-count b d n h = elim (Seek-cases (probe_name name nb b (name n))) [
    | inl (j, e) ↦
        let q : update b j (some n) ≡ d = cc (sym (enter-at_free name nb b n j e) ∙ h) in
        subst (λ x. count nb (is_taken x) ≤ count nb (is_taken b) + 1) q
          (ground (
            arith,
            count-le_suc nb (is_taken (update b j (some n))) (is_taken b) j
                (λ x lt. taken-update b j n x),
          ))
    | inr o ↦ absurd cc (sym (enter-at_entry name nb b n o) ∙ h)
  ]

  -- Every name that is entered takes one bucket at most.
  pub fill-count : (n : ℕ) (b : ℕ → Option ℕ) → fill name nb n ≡ some b → count nb (is_taken b) ≤ n
  unfolding fill
  fill-count zero b h =
      let q : ◌≡◌ {A = ℕ → Option ℕ} (λ _. none) b = cc (h) in
      subst (λ x. count nb (is_taken x) ≤ 0) q (omega (arith, count-none nb))
  fill-count (suc n) b h = elim (Option-cases (fill name nb n)) [
    | inl e ↦ absurd ground arith
    | inr (d, e) ↦
        let before = fill-count n d e in
        let one_more = enter-count d b n (ground arith) in omega arith
  ]

pow-two : (k : ℕ) → 2 ^ suc k ≡ 2 * 2 ^ k
pow-two k = omega (arith, pow-suc 2 k)

grow-twice : (n nt nb : ℕ) → ltb nb (nt * 2) ≡ true → grow (suc n) nt nb ≡ grow n nt (2 * nb)
unfolding grow
grow-twice n nt nb h = rw (h, grow) refl

grow-enough : (n nt nb : ℕ) → ltb nb (nt * 2) ≡ false → grow (suc n) nt nb ≡ nb
unfolding grow
grow-enough n nt nb h = rw (h, grow) refl

-- `nb` is still a power of two after the loop that doubles it, and not below twice the tensors.
grow-IsPower :
    (n nt k : ℕ) → nt * 2 ≤ 2 ^ (k + n) → (l : ℕ) × (grow n nt (2 ^ k) ≡ 2 ^ l) × (nt * 2 ≤ 2 ^ l)
unfolding grow
grow-IsPower zero nt k h = (k, refl, subst (λ (e : ℕ). nt * 2 ≤ 2 ^ e) (omega arith) h)
grow-IsPower (suc n) nt k h = elim (Bool-cases (ltb (2 ^ k) (nt * 2))) [
  | inl less ↦
      let (l, e, le) =
        grow-IsPower n nt (suc k) (subst (λ (x : ℕ). nt * 2 ≤ 2 ^ x) (omega arith) h) in
      (l, grow-twice n nt (2 ^ k) less ∙ (ap (grow n nt) (sym (pow-two k)) ∙ e), le)
  | inr enough ↦ (k, grow-enough n nt (2 ^ k) enough, ground arith)
]

lt-pow : (n : ℕ) → n < 2 ^ n
lt-pow zero = omega arith
lt-pow (suc n) = omega (arith, lt-pow n, pow-suc 2 n)

pub bucket_count-IsPower :
    (nt : ℕ) → (l : ℕ) × (bucket_count nt ≡ 2 ^ l) × (nt * 2 ≤ 2 ^ l) × (1 ≤ 2 ^ l)
unfolding bucket_count
bucket_count-IsPower nt =
    let room : nt * 2 ≤ 2 ^ suc (9 + nt) = omega (arith, lt-pow (9 + nt), pow-suc 2 (9 + nt)) in
    let (l, e, le) = grow-IsPower nt nt 10 (subst (λ (x : ℕ). nt * 2 ≤ 2 ^ x) (omega arith) room) in
    (l, e, le, omega (arith, one-le-pow l 2))
