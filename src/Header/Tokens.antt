-- ===== src/Header/Tokens.antt =====
-- The scanner of src/io/k3_st.c on the pieces of a header as it is written.
use kimi_k3_for_me.Prelude.{
  ℕ, ◌^◌, zero, suc, ◌+◌, ◌-◌, ◌*◌, ◌/◌, ◌%◌, ◌≤◌, ◌<◌, ◌≡◌, inl, inr, refl, sym, ap, ◌∙◌, true,
  false, ◌||◌, List, [], ◌∷◌, ◌++◌, none, some, ltb, leb, ◌==◌, length, arith, Bool-cases, subst,
  All,
}
use kimi_k3_for_me.Prelude.Int64.{int64, int64-pos}
use kimi_k3_for_me.Prelude.Int.{pos}
use kimi_k3_for_me.Cache.Profile.{digits, is_digit, starts_with}
use kimi_k3_for_me.Header.{ws, lit, at_char, str_body, str_, i64_}
use kimi_k3_for_me.Header.Entry.{c_string}
use kimi_k3_for_me.Header.Print.{IsPlain, print_to, print_number, quote}

-- The value of digits behind those with value `v`.
value : ℕ → List ℕ → ℕ
value v [] = v
value v (c ∷ s) = value (v * 10 + (c - 48)) s

value-append : (xs : List ℕ) (v d : ℕ) → value v (xs ++ (d ∷ [])) ≡ value v xs * 10 + (d - 48)
unfolding value
value-append [] v d = refl
value-append (c ∷ xs) v d = value-append xs (v * 10 + (c - 48)) d

abbrev AreDigits : List ℕ → Type 0
AreDigits = All (λ c. is_digit c ≡ true)

AreDigits-append :
    (xs : List ℕ) (d : ℕ) → AreDigits xs → is_digit d ≡ true → AreDigits (xs ++ (d ∷ []))
AreDigits-append [] d h e = (e, tt)
AreDigits-append (c ∷ xs) d h e = (h.0, AreDigits-append xs d h.1 e)

digits-append :
    (xs rest : List ℕ) (v : ℕ)
    → AreDigits xs
    → starts_with is_digit rest ≡ false
    → digits v (xs ++ rest) ≡ (value v xs, rest)
unfolding digits value
digits-append [] [] v h e = refl
digits-append [] (c ∷ rest) v h e = rw (e) refl
digits-append (c ∷ xs) rest v h e = rw (h.0) (digits-append xs rest (v * 10 + (c - 48)) h.1 e)

print_to-AreDigits : (k n : ℕ) → AreDigits (print_to k n)
print_to-AreDigits zero n = tt
print_to-AreDigits (suc k) n = elim (Bool-cases (ltb n 10)) [
  | inl small ↦ rw (small, print_to) (ground arith, tt)
  | inr large ↦
      rw (large, print_to)
        (AreDigits-append (print_to k (n / 10)) (48 + n % 10) (print_to-AreDigits k (n / 10))
          (let low : n % 10 < 10 = omega arith in ground arith))
]

value-print_to : (k n : ℕ) → n < k → value 0 (print_to k n) ≡ n
unfolding value
value-print_to zero n h = absurd (omega arith)
value-print_to (suc k) n h = elim (Bool-cases (ltb n 10)) [
  | inl small ↦ rw (small, print_to) (omega arith)
  | inr large ↦
      rw (large, print_to)
        (let big : 10 ≤ n = ground arith in
          omega (
            arith,
            value-append (print_to k (n / 10)) 0 (48 + n % 10),
            value-print_to k (n / 10) (omega arith),
          ))
]

print_to-nonempty : (k n : ℕ) → (c : ℕ) × (xs : List ℕ) × (print_to (suc k) n ≡ c ∷ xs)
print_to-nonempty k n = elim (Bool-cases (ltb n 10)) [
  | inl small ↦ (48 + n, [], rw (small, print_to) refl)
  | inr large ↦
      let (c, xs, e) = append-nonempty (print_to k (n / 10)) (48 + n % 10) in
      (c, xs, rw (large, print_to) e)
]
  where
    append-nonempty : (xs : List ℕ) (d : ℕ) → (c : ℕ) × (ys : List ℕ) × (xs ++ (d ∷ []) ≡ c ∷ ys)
    append-nonempty [] d = (d, [], refl)
    append-nonempty (x ∷ xs) d = (x, xs ++ (d ∷ []), refl)

i64_-digits :
    (c : ℕ) (xs rest : List ℕ)
    → AreDigits (c ∷ xs)
    → starts_with is_digit rest ≡ false
    → i64_ (c ∷ (xs ++ rest)) ≡ some (int64 (pos (value 0 (c ∷ xs))), rest)
unfolding i64_ ws value
i64_-digits c xs rest h e =
    let blank : leb c 32 ≡ false = ground (arith, h.0) in
    let minus : (c == 45 || c == 43) ≡ false = ground (arith, h.0) in
    rw (blank, minus, h.0, digits-append xs rest (0 * 10 + (c - 48)) h.1 e, i64_, ws) refl

-- What is left of a number starts with no digit.
pub i64_-print_number :
    (n : ℕ) (rest : List ℕ)
    → n < 2 ^ 63
    → starts_with is_digit rest ≡ false
    → i64_ (print_number n ++ rest) ≡ some (pos n, rest)
i64_-print_number n rest small e =
    let (c, xs, p) = print_to-nonempty n n in
    let all = subst AreDigits p (print_to-AreDigits (suc n) n) in
    let known = ap (value 0) (sym p) ∙ value-print_to (suc n) n (omega arith) in
    ap (λ s. i64_ (s ++ rest)) p
    ∙ i64_-digits c xs rest all e
    ∙ ap (λ m. some (int64 (pos m), rest)) known
    ∙ ap (λ x. some (x, rest)) (int64-pos n small)

str_body-plain :
    (name rest : List ℕ) → IsPlain name → str_body at_char (name ++ (34 ∷ rest)) ≡ some (name, rest)
unfolding str_body
str_body-plain [] rest h = refl
str_body-plain (c ∷ name) rest (h, hs) =
    let no_quote : (c == 34) ≡ false = ground (arith, h) in
    let no_escape : (c == 92) ≡ false = ground (arith, h) in
    rw (no_quote, no_escape, str_body-plain name rest hs, str_body) refl

-- A name in quotes.
pub str_-quote :
    (cap : ℕ) (name rest : List ℕ)
    → IsPlain name
    → length name < cap
    → str_ cap (quote name rest) ≡ some (name, rest)
unfolding str_ lit ws
str_-quote cap name rest h short =
    let fits : ltb cap (length name + 1) ≡ false = ground arith in
    rw (str_body-plain name rest h, fits, str_) refl

pub c_string-plain : (name : List ℕ) → IsPlain name → c_string name ≡ name
unfolding c_string
c_string-plain [] h = refl
c_string-plain (c ∷ name) (h, hs) =
    let no_end : (c == 0) ≡ false = ground (arith, h) in
    rw (no_end, c_string-plain name hs, c_string) refl

-- A number is no punctuation.
pub lit-print_number :
    (m n : ℕ) (rest : List ℕ) → is_digit m ≡ false → lit m (print_number n ++ rest) ≡ none
unfolding lit ws
lit-print_number m n rest e =
    let (c, xs, p) = print_to-nonempty n n in
    let all = subst AreDigits p (print_to-AreDigits (suc n) n) in
    let blank : leb c 32 ≡ false = ground (arith, all.0) in
    let other : (c == m) ≡ false = ground (arith, all.0, e) in
    ap (λ s. lit m (s ++ rest)) p ∙ rw (blank, other, lit, ws) refl
