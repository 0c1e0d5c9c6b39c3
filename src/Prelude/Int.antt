-- ===== src/Prelude/Int.antt =====
-- `int` and `int64_t` values of either sign. `negsuc n` is -(n + 1).
use Prim.Native.Nat.{ℕ, zero, suc, ◌+◌, ◌-◌, ◌*◌}
use mathlib.Core.Path.{◌≡◌}
use mathlib.Core.Bool.{Bool, true, false}
use native.Mathlib.Omega.{arith}
use kimi_k3_for_me.Prelude.{◌==◌, ltb, if◌then◌else◌}

pub data ℤ : Type 0 where
  pos : ℕ → ℤ
  negsuc : ℕ → ℤ

abbrev pub pos_part : ℤ → ℕ
pos_part (pos n) = n
pos_part (negsuc n) = 0

-- `i == n`.
abbrev pub eq_pos : ℤ → ℕ → Bool
eq_pos (pos m) n = m == n
eq_pos (negsuc m) n = false

-- `a - b`.
abbrev pub minus : ℕ → ℕ → ℤ
minus a b = if ltb a b then negsuc (b - a - 1) else pos (a - b)

pub pos_part-minus : (a b : ℕ) → pos_part (minus a b) ≡ a - b
pos_part-minus a b = ground arith

abbrev pub negative : ℕ → ℤ
negative zero = pos 0
negative (suc n) = negsuc n

-- `a + b`.
infixl 20 ◌+ℤ◌
abbrev pub ◌+ℤ◌ : ℤ → ℤ → ℤ
pos a +ℤ pos b = pos (a + b)
pos a +ℤ negsuc b = minus a (b + 1)
negsuc a +ℤ pos b = minus b (a + 1)
negsuc a +ℤ negsuc b = negsuc (a + b + 1)

-- `a - b`.
infixl 20 ◌-ℤ◌
abbrev pub ◌-ℤ◌ : ℤ → ℤ → ℤ
a -ℤ pos zero = a
a -ℤ pos (suc b) = a +ℤ negsuc b
a -ℤ negsuc b = a +ℤ pos (b + 1)

-- `a * b`.
infixl 30 ◌*ℤ◌
abbrev pub ◌*ℤ◌ : ℤ → ℤ → ℤ
pos a *ℤ pos b = pos (a * b)
pos a *ℤ negsuc b = negative (a * (b + 1))
negsuc a *ℤ pos b = negative ((a + 1) * b)
negsuc a *ℤ negsuc b = pos ((a + 1) * (b + 1))

-- `a == b`.
abbrev pub eq_ℤ : ℤ → ℤ → Bool
eq_ℤ (pos a) (pos b) = a == b
eq_ℤ (negsuc a) (negsuc b) = a == b
eq_ℤ (pos a) (negsuc b) = false
eq_ℤ (negsuc a) (pos b) = false

-- `a < b`.
abbrev pub ltb_ℤ : ℤ → ℤ → Bool
ltb_ℤ (pos a) (pos b) = ltb a b
ltb_ℤ (pos a) (negsuc b) = false
ltb_ℤ (negsuc a) (pos b) = true
ltb_ℤ (negsuc a) (negsuc b) = ltb b a

pub eq_ℤ→eq : (a b : ℤ) → eq_ℤ a b ≡ true → a ≡ b
eq_ℤ→eq (pos a) (pos b) h = ground arith
eq_ℤ→eq (negsuc a) (negsuc b) h = ground arith
eq_ℤ→eq (pos a) (negsuc b) h = absurd cc
eq_ℤ→eq (negsuc a) (pos b) h = absurd cc

-- A span that starts at `base + a` and reaches from `a` to `b` ends at `base + b`.
pub span-end : (base : ℕ) (a b : ℤ) → (pos base +ℤ a) +ℤ (b -ℤ a) ≡ pos base +ℤ b
span-end base (pos zero) (pos b) = ground arith
span-end base (pos zero) (negsuc b) = ground arith
span-end base (pos (suc a)) (pos b) = ground arith
span-end base (pos (suc a)) (negsuc b) = ground arith
span-end base (negsuc a) (pos b) = ground arith
span-end base (negsuc a) (negsuc b) = ground arith
