-- ===== src/Prelude/Counts.antt =====
-- How many indices below a bound pass a test.
use Prim.Native.Nat.{ℕ, zero, suc, ◌+◌, ◌≤◌, ◌<◌}
use mathlib.Core.Path.{◌≡◌, refl}
use mathlib.Core.Logic.{◌⊎◌}
use mathlib.Core.Bool.{Bool, true, false}
use native.Mathlib.Omega.{arith}
use native.Mathlib.Decide.{dec_lt}
use kimi_k3_for_me.Prelude.Tests.{ltb, if◌then◌else◌}

abbrev pub count : ℕ → (ℕ → Bool) → ℕ
count zero p = 0
count (suc n) p = count n p + (if p n then 1 else 0)

pub count-le :
    (n : ℕ) (p q : ℕ → Bool) → ((i : ℕ) → i < n → p i ≡ true → q i ≡ true) → count n p ≤ count n q
count-le zero p q h = omega arith
count-le (suc n) p q h =
    ground (arith, count-le n p q (λ i lt. h i (omega arith)), h n (omega arith))

-- One index more.
pub count-lt :
    (n : ℕ) (p q : ℕ → Bool) (k : ℕ)
    → ((i : ℕ) → i < n → p i ≡ true → q i ≡ true)
    → k < n
    → p k ≡ false
    → q k ≡ true
    → count n p + 1 ≤ count n q
count-lt zero p q k h lt pk qk = elim lt [ ]
count-lt (suc n) p q k h lt pk qk = elim (dec_lt k n) [
  | yes below ↦
      ground (arith, count-lt n p q k (λ i l. h i (omega arith)) below pk qk, h n (omega arith))
  | no last ↦
      let same : k ≡ n = omega arith in
      ground (arith, count-le n p q (λ i l. h i (omega arith)), same)
]

-- At most one index more.
pub count-le_suc :
    (n : ℕ) (p q : ℕ → Bool) (s : ℕ)
    → ((i : ℕ) → i < n → p i ≡ true → (q i ≡ true) ⊎ (i ≡ s))
    → count n p ≤ count n q + (if ltb s n then 1 else 0)
count-le_suc zero p q s h = omega arith
count-le_suc (suc n) p q s h =
    ground (arith, count-le_suc n p q s (λ i lt. h i (omega arith)), h n (omega arith))

pub count-or :
    (n : ℕ) (p q : ℕ → Bool)
    → ((i : ℕ) → i < n → (p i ≡ true) ⊎ (q i ≡ true))
    → n ≤ count n p + count n q
count-or zero p q h = omega arith
count-or (suc n) p q h =
    ground (arith, count-or n p q (λ i lt. h i (omega arith)), h n (omega arith))

pub count-zero : (n : ℕ) (p : ℕ → Bool) → ((i : ℕ) → p i ≡ false) → count n p ≡ 0
count-zero zero p h = refl
count-zero (suc n) p h = ground (arith, count-zero n p h, h n)
