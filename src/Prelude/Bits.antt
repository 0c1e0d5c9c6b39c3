-- ===== src/Prelude/Bits.antt =====
-- `x & (2 ^ k - 1)` as a remainder.
use Prim.Native.Nat.{
  ℕ, zero, suc, ◌+◌, ◌-◌, ◌*◌, ◌/◌, ◌%◌, ◌^◌, ◌≤◌, ◌<◌, min, digits, bit_and, bit_and-bitwise,
}
use mathlib.Core.Path.{◌≡◌, refl, ap}
use native.Mathlib.Nat.{pow-suc, one-le-pow}
use native.Mathlib.Omega.{arith}

abbrev low : ℕ → ℕ
low b = 0

-- The count of digits to go does not matter once it is large enough.
digits_extra : (n m a b : ℕ) → a ≤ n → a ≤ m → digits low min n a b ≡ digits low min m a b
digits_extra zero zero a b p q = refl
digits_extra zero (suc m) zero b p q = refl
digits_extra zero (suc m) (suc a) b p q = absurd (omega arith)
digits_extra (suc n) zero zero b p q = refl
digits_extra (suc n) zero (suc a) b p q = absurd (omega arith)
digits_extra (suc n) (suc m) zero b p q = refl
digits_extra (suc n) (suc m) (suc a) b p q =
    rw (digits_extra n m (suc a / 2) (b / 2) (omega arith) (omega arith))

bit_and-halve : (a b : ℕ) → bit_and a b ≡ bit_and (a / 2) (b / 2) * 2 + min (a % 2) (b % 2)
bit_and-halve zero b = simp bit_and-bitwise (omega arith)
bit_and-halve (suc a) b =
    simp bit_and-bitwise
      (omega (arith, digits_extra a (suc a / 2) (suc a / 2) (b / 2) (omega arith) (omega arith)))

bit_and-zero : (n a : ℕ) → a ≤ n → bit_and a 0 ≡ 0
bit_and-zero zero zero h = refl
bit_and-zero zero (suc a) h = absurd (omega arith)
bit_and-zero (suc n) a h = omega (arith, bit_and-halve a 0, bit_and-zero n (a / 2) (omega arith))

bit_and-split : (k q r : ℕ) → r < 2 ^ k → bit_and (q * 2 ^ k + r) (2 ^ k - 1) ≡ r
bit_and-split zero q r h = rw (bit_and-zero (q * 1 + r) (q * 1 + r) (omega arith)) (omega arith)
bit_and-split (suc k) q r h = ground (
  arith,
  bit_and-halve (q * 2 ^ suc k + r) (2 ^ suc k - 1),
  ap (λ (t : ℕ). q * t) (pow-suc 2 k),
  pow-suc 2 k,
  one-le-pow k 2,
  bit_and-split k q (r / 2) (omega (arith, pow-suc 2 k)),
)

pub bit_and_mask : (k a : ℕ) → bit_and a (2 ^ k - 1) ≡ a % 2 ^ k
bit_and_mask k a = ground (arith, one-le-pow k 2, bit_and-split k (a / 2 ^ k) (a % 2 ^ k))
