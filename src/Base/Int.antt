-- ===== src/Base/Int.antt =====
-- Signed integers over the native numbers: i32 compression levels, i64 days and seconds.
use Prim.Native.Nat.{ℕ, suc, ◌+◌, ◌-◌, ◌*◌, ◌/◌, ◌≤◌}
use mathlib.Core.Bool.{Bool}
use cryo.Base.Tests.{leb, if◌then◌else◌}

-- `negsuc n` is -(n + 1).
pub data ℤ : Type 0 where
  pos : ℕ → ℤ
  negsuc : ℕ → ℤ

abbrev pub pos_part : ℤ → ℕ
pos_part (pos n) = n
pos_part (negsuc n) = 0

abbrev pub neg_part : ℤ → ℕ
neg_part (pos n) = 0
neg_part (negsuc n) = suc n

abbrev pub leb_ℤ : ℤ → ℤ → Bool
leb_ℤ a b = leb (pos_part a + neg_part b) (pos_part b + neg_part a)

infix 50 ◌≤ℤ◌
abbrev pub ◌≤ℤ◌ : ℤ → ℤ → Type 0
a ≤ℤ b = pos_part a + neg_part b ≤ pos_part b + neg_part a

-- `a - b` of natural numbers.
abbrev pub of_diff : ℕ → ℕ → ℤ
of_diff a b = if leb b a then pos (a - b) else negsuc (b - a - 1)

infixl 60 ◌+ℤ◌ ◌-ℤ◌
abbrev pub ◌+ℤ◌ : ℤ → ℤ → ℤ
a +ℤ b = of_diff (pos_part a + pos_part b) (neg_part a + neg_part b)

abbrev pub ◌-ℤ◌ : ℤ → ℤ → ℤ
a -ℤ b = of_diff (pos_part a + neg_part b) (neg_part a + pos_part b)

-- `z * k` and `z / k` for a natural number `k`; a quotient is cut off towards 0.
abbrev pub times : ℕ → ℤ → ℤ
times k z = of_diff (k * pos_part z) (k * neg_part z)

abbrev pub quot : ℤ → ℕ → ℤ
quot z k = of_diff (pos_part z / k) (neg_part z / k)
