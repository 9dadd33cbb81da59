-- ===== src/Common/Int.antt =====
-- Signed integers over the native numbers, under the library's names, and their two's complement.
use Prim.Native.Nat.{ℕ, suc, ◌+◌, ◌-◌, ◌/◌, ◌%◌, ◌≤◌, ◌<◌}
use mathlib.Core.Bool.{Bool}
use ecpps.Common.Tests.{ltb, leb, if◌then◌else◌}

-- `negsuc n` is -(n + 1).
pub data ℤ : Type 0 where
  pos : ℕ → ℤ
  negsuc : ℕ → ℤ

abbrev pub pos_part : ℤ → ℕ
pos_part (pos n) = n
pos_part (negsuc n) = 0

abbrev pub neg_part : ℤ → ℕ
neg_part (pos n) = 0
neg_part (negsuc n) = suc n

infix 50 ◌≤ℤ◌
abbrev pub ◌≤ℤ◌ : ℤ → ℤ → Type 0
a ≤ℤ b = pos_part a + neg_part b ≤ pos_part b + neg_part a

abbrev pub leb_ℤ : ℤ → ℤ → Bool
leb_ℤ a b = leb (pos_part a + neg_part b) (pos_part b + neg_part a)

-- The two's complement pattern of an integer, modulo `m` (2 ^ w for a w-bit word).
abbrev pub to_bits : ℕ → ℤ → ℕ
to_bits m (pos n) = n % m
to_bits m (negsuc n) = m - 1 - n % m

-- The integer that a pattern below `m` stands for in a signed word.
abbrev pub of_bits : ℕ → ℕ → ℤ
of_bits m v = if ltb v (m / 2) then pos v else negsuc (m - 1 - v)

-- The values of a signed word of modulus `m`.
abbrev pub InRange : ℕ → ℤ → Type 0
InRange m (pos n) = n < m / 2
InRange m (negsuc n) = n < m / 2
