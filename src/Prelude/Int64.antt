-- ===== src/Prelude/Int64.antt =====
-- `int64_t` as the machine computes it.
use Prim.Native.Nat.{ℕ, ◌+◌, ◌-◌, ◌%◌, ◌^◌, ◌≤◌, ◌<◌}
use mathlib.Core.Path.{◌≡◌, sym, ap, ◌∙◌}
use mathlib.Core.Logic.{inl, inr}
use mathlib.Core.Bool.{Bool, true, false}
use native.Mathlib.Omega.{arith}
use kimi_k3_for_me.Prelude.{ltb, if◌then◌else◌, Bool-cases}
use kimi_k3_for_me.Prelude.Int.{ℤ, pos, negsuc, minus, ◌+ℤ◌}

-- An `int64_t`, by the bits that are kept: arithmetic that leaves its range wraps around.
abbrev pub bits : ℤ → ℕ
bits (pos n) = n % 2 ^ 64
bits (negsuc n) = 2 ^ 64 - 1 - n % 2 ^ 64

abbrev pub of_bits : ℕ → ℤ
of_bits m = if ltb m (2 ^ 63) then pos m else negsuc (2 ^ 64 - 1 - m)

abbrev pub int64 : ℤ → ℤ
int64 x = of_bits (bits x)

pub int64-pos : (n : ℕ) → n < 2 ^ 63 → int64 (pos n) ≡ pos n
int64-pos n h =
    let m : n % 2 ^ 64 ≡ n = omega (arith, h) in
    let low : ltb n (2 ^ 63) ≡ true = ground (arith, h) in
    ap of_bits m ∙ ap (λ (b : Bool). if b then pos n else negsuc (2 ^ 64 - 1 - n)) low

-- A positive result is its bits.
pub of_bits-pos : (m o : ℕ) → of_bits m ≡ pos o → (m ≡ o) × (o < 2 ^ 63)
of_bits-pos m o h = elim (Bool-cases (ltb m (2 ^ 63))) [
  | inl low ↦
      let same : pos m ≡ pos o =
        sym (ap (λ (b : Bool). if b then pos m else negsuc (2 ^ 64 - 1 - m)) low) ∙ h in
      let here : m ≡ o = cc (same) in (here, ground (arith, low, here))
  | inr high ↦
      absurd cc (sym (ap (λ (b : Bool). if b then pos m else negsuc (2 ^ 64 - 1 - m)) high) ∙ h)
]

bits-minus : (a b : ℕ) → bits (minus a b) ≡ (a % 2 ^ 64 + (2 ^ 64 - b % 2 ^ 64)) % 2 ^ 64
bits-minus a b = elim (Bool-cases (ltb a b)) [
  | inl less ↦
      ap (λ (t : Bool). bits (if t then negsuc (b - a - 1) else pos (a - b))) less
      ∙ omega (arith, lt a b less)
  | inr not_less ↦
      ap (λ (t : Bool). bits (if t then negsuc (b - a - 1) else pos (a - b))) not_less
      ∙ omega (arith, ge a b not_less)
]
  where
    lt : (a b : ℕ) → ltb a b ≡ true → a < b
    lt a b h = ground (arith, h)

    ge : (a b : ℕ) → ltb a b ≡ false → b ≤ a
    ge a b h = ground (arith, h)

pub bits-add : (x y : ℤ) → bits (x +ℤ y) ≡ (bits x + bits y) % 2 ^ 64
bits-add (pos a) (pos b) = omega arith
bits-add (pos a) (negsuc b) = bits-minus a (b + 1) ∙ omega arith
bits-add (negsuc a) (pos b) = bits-minus b (a + 1) ∙ omega arith
bits-add (negsuc a) (negsuc b) = omega arith
