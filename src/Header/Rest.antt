-- ===== src/Header/Rest.antt =====
-- The scanner of src/io/k3_st.c moves on: what each of its functions leaves is shorter than what it got.
use kimi_k3_for_me.Prelude.{
  ℕ, zero, suc, ◌+◌, ◌-◌, ◌*◌, ◌%◌, ◌^◌, ◌≤◌, ◌<◌, ◌≡◌, ◌⊎◌, inl, inr, Bool, true, false, ◌||◌,
  List, [], ◌∷◌, Option, none, some, leb, ◌==◌, if◌then◌else◌, length, arith, refl, sym,
}
use kimi_k3_for_me.Prelude.Int.{ℤ}
use kimi_k3_for_me.Cache.Profile.{digits, is_digit, starts_with}
use kimi_k3_for_me.Index.{same}
use kimi_k3_for_me.Header.{
  ws, heads, lit, Place, at_char, behind, at_hex, str_body, str_, signed, i64_, Within, plain,
  quoted, escaped, skip_string, skip_nested, skip_plain, skip_from, skip_value, hex,
}

pub length-ws : (s : List ℕ) → length (ws s) ≤ length s
unfolding ws
length-ws [] = omega arith
length-ws (c ∷ s) = ground (arith, length-ws s)

-- The step behind a result that is there.
pub chain {ℓ κ} :
    {A : Type ℓ} {B : Type κ} (x : Option A) (k : A → Option B) (b : B)
    → (elim x [ none ↦ none | some a ↦ k a ]) ≡ some b
    → (a : A) × (x ≡ some a) × (k a ≡ some b)
chain none k b h = absurd cc
chain (some a) k b h = (a, refl, h)

pub branch {ℓ κ} :
    {A : Type ℓ} {B : Type κ} (x : Option A) (k : A → B) (y b : B)
    → (elim x [ none ↦ y | some a ↦ k a ]) ≡ b
    → ((a : A) × (x ≡ some a) × (k a ≡ b)) ⊎ ((x ≡ none) × (y ≡ b))
branch none k y b h = inr (refl, h)
branch (some a) k y b h = inl (a, refl, h)

heads-some : (c : ℕ) (s t : List ℕ) → heads c s ≡ some t → length t < length s
heads-some c [] t h = absurd cc
heads-some c (d ∷ s) t h = ground arith

pub lit-some : (c : ℕ) (s t : List ℕ) → lit c s ≡ some t → length t < length s
unfolding lit
lit-some c s t h = omega (arith, heads-some c (ws s) t h, length-ws s)

-- A choice that was made.
pub picked {ℓ} :
    {A : Type ℓ} (b : Bool) (x y z : A)
    → (elim b [ true ↦ x | false ↦ y ]) ≡ z
    → ((b ≡ true) × (x ≡ z)) ⊎ ((b ≡ false) × (y ≡ z))
picked true x y z h = inl (refl, h)
picked false x y z h = inr (refl, h)

pub picked_if {ℓ} :
    {A : Type ℓ} (b : Bool) (x y z : A)
    → (if b then x else y) ≡ z
    → ((b ≡ true) × (x ≡ z)) ⊎ ((b ≡ false) × (y ≡ z))
picked_if true x y z h = inl (refl, h)
picked_if false x y z h = inr (refl, h)

str_body-some :
    (s : List ℕ) (x : Place) (out t : List ℕ) → str_body x s ≡ some (out, t) → length t < length s
unfolding str_body
str_body-some [] x out t h = absurd cc
str_body-some (c ∷ s) at_char out t h = elim (picked (c == 34) _ _ _ h) [
  | inl (e, q) ↦ ground (arith, q)
  | inr (e, q) ↦ elim (picked (c == 92) _ _ _ q) [
    | inl (e', q') ↦ omega (arith, str_body-some s behind out t q')
    | inr (e', q') ↦
        let (p, r, same) = chain (str_body at_char s) _ (out, t) q' in
        let left : p.1 ≡ t = cc (same) in
        rw (sym left) (omega (arith, str_body-some s at_char p.0 p.1 r))
  ]
]
str_body-some (c ∷ s) behind out t h = elim (picked (c == 117) _ _ _ h) [
  | inl (e, q) ↦ omega (arith, str_body-some s (at_hex 3 0) out t q)
  | inr (e, q) ↦
      let (p, r, same) = chain (str_body at_char s) _ (out, t) q in
      let left : p.1 ≡ t = cc (same) in
      rw (sym left) (omega (arith, str_body-some s at_char p.0 p.1 r))
]
str_body-some (c ∷ s) (at_hex zero v) out t h =
    let (p, r, same) = chain (str_body at_char s) _ (out, t) h in
    let left : p.1 ≡ t = cc (same) in
    rw (sym left) (omega (arith, str_body-some s at_char p.0 p.1 r))
str_body-some (c ∷ s) (at_hex (suc n) v) out t h =
    omega (arith, str_body-some s (at_hex n ((v * 16 + hex c) % 2 ^ 32)) out t h)

pub str_-some : (cap : ℕ) (s out t : List ℕ) → str_ cap s ≡ some (out, t) → length t < length s
unfolding str_
str_-some cap s out t h =
    let (u, e, q) = chain (lit 34 s) _ (out, t) h in
    let (p, r, q') = chain (str_body at_char u) _ (out, t) q in
    let left : p.1 ≡ t = ground (arith, q') in
    rw (sym left) (omega (arith, lit-some 34 s u e, str_body-some u at_char p.0 p.1 r))

length-signed : (s : List ℕ) → length (signed s).1 ≤ length s
length-signed [] = omega arith
length-signed (c ∷ s) = ground arith

length-digits : (s : List ℕ) (v : ℕ) → length (digits v s).1 ≤ length s
unfolding digits
length-digits [] v = omega arith
length-digits (c ∷ s) v = ground (arith, length-digits s (v * 10 + (c - 48)))

-- A digit at the start is read.
digits-some : (s : List ℕ) → starts_with is_digit s ≡ true → length (digits 0 s).1 < length s
unfolding digits
digits-some [] h = absurd cc
digits-some (c ∷ s) h = rw (h) (omega (arith, length-digits s (0 * 10 + (c - 48))))

pub i64_-some : (s t : List ℕ) (d : ℤ) → i64_ s ≡ some (d, t) → length t < length s
unfolding i64_
i64_-some s t d h = elim (picked_if (starts_with is_digit (signed (ws s)).1) _ _ _ h) [
  | inl (e, q) ↦
      let left : (digits 0 (signed (ws s)).1).1 ≡ t = cc (q) in
      rw (sym left)
        (omega (arith, digits-some (signed (ws s)).1 e, length-signed (ws s), length-ws s))
  | inr (e, q) ↦ absurd cc
]

skip_string-some :
    (s : List ℕ) (x : Within) (t : List ℕ) → skip_string x s ≡ some t → length t < length s
unfolding skip_string
skip_string-some [] x t h = absurd cc
skip_string-some (c ∷ s) plain t h = absurd cc
skip_string-some (c ∷ s) quoted t h = elim (picked (c == 34) _ _ _ h) [
  | inl (e, q) ↦ ground (arith, q)
  | inr (e, q) ↦ elim (picked (c == 92) _ _ _ q) [
    | inl (e', q') ↦ omega (arith, skip_string-some s escaped t q')
    | inr (e', q') ↦ omega (arith, skip_string-some s quoted t q')
  ]
]
skip_string-some (c ∷ s) escaped t h = omega (arith, skip_string-some s quoted t h)

skip_nested-some :
    (s : List ℕ) (x : Within) (depth : ℕ) (t : List ℕ)
    → skip_nested x depth s ≡ some t
    → length t < length s
unfolding skip_nested
skip_nested-some [] x d t h = absurd cc
skip_nested-some (c ∷ s) plain d t h = elim (picked (c == 34) _ _ _ h) [
  | inl (e, q) ↦ omega (arith, skip_nested-some s quoted d t q)
  | inr (e, q) ↦ elim (picked (c == 123 || c == 91) _ _ _ q) [
    | inl (e', q') ↦ omega (arith, skip_nested-some s plain (d + 1) t q')
    | inr (e', q') ↦ elim (picked (c == 125 || c == 93) _ _ _ q') [
      | inl (e2, q2) ↦ elim (picked (leb d 1) _ _ _ q2) [
        | inl (e3, q3) ↦ ground (arith, q3)
        | inr (e3, q3) ↦ omega (arith, skip_nested-some s plain (d - 1) t q3)
      ]
      | inr (e2, q2) ↦ omega (arith, skip_nested-some s plain d t q2)
    ]
  ]
]
skip_nested-some (c ∷ s) quoted d t h = elim (picked (c == 34) _ _ _ h) [
  | inl (e, q) ↦ omega (arith, skip_nested-some s plain d t q)
  | inr (e, q) ↦ elim (picked (c == 92) _ _ _ q) [
    | inl (e', q') ↦ omega (arith, skip_nested-some s escaped d t q')
    | inr (e', q') ↦ omega (arith, skip_nested-some s quoted d t q')
  ]
]
skip_nested-some (c ∷ s) escaped d t h = omega (arith, skip_nested-some s quoted d t h)

length-skip_plain : (s : List ℕ) → length (skip_plain s) ≤ length s
unfolding skip_plain
length-skip_plain [] = omega arith
length-skip_plain (c ∷ s) = ground (arith, length-skip_plain s)

-- A value may be empty.
pub skip_value-some : (s t : List ℕ) → skip_value s ≡ some t → length t ≤ length s
unfolding skip_value
skip_value-some s t h = omega (arith, length-ws s, from (ws s) t h)
  where
    from : (s t : List ℕ) → skip_from s ≡ some t → length t ≤ length s
    from [] t h = absurd cc
    from (c ∷ s) t h = elim (picked (c == 34) _ _ _ h) [
      | inl (e, q) ↦ omega (arith, skip_string-some s quoted t q)
      | inr (e, q) ↦ elim (picked (c == 123 || c == 91) _ _ _ q) [
        | inl (e', q') ↦ omega (arith, skip_nested-some s plain 1 t q')
        | inr (e', q') ↦ ground (arith, q', length-skip_plain (c ∷ s))
      ]
    ]
