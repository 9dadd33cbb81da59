-- ===== src/Common/Bits.antt =====
-- Masks and fields of a byte as arithmetic.
use Prim.Native.Nat.{
  ℕ, zero, suc, ◌+◌, ◌*◌, ◌/◌, ◌%◌, ◌^◌, ◌≤◌, ◌-◌, ◌<◌, min, bit_and, bit_or, digits,
  bit_and-bitwise,
}
use mathlib.Core.Path.{◌≡◌, refl, ◌∙◌}
use mathlib.Core.Bool.{Bool, true, false}
use native.Mathlib.Numerals.{unary_clauses}
use native.Mathlib.Omega.{arith}
use ecpps.Common.Tests.{◌==◌, if◌then◌else◌}

-- The number whose lowest k digits are ones, and the lowest k digits of a number.
abbrev ones : ℕ → ℕ
ones zero = 0
ones (suc k) = 1 + ones k * 2

abbrev low : ℕ → ℕ → ℕ
low zero a = 0
low (suc k) a = a % 2 + low k (a / 2) * 2

low-zero : (k : ℕ) → low k 0 ≡ 0
low-zero zero = refl
low-zero (suc k) = omega (arith, low-zero k)

digits-ones : (steps k a : ℕ) → a ≤ steps → digits (λ _. 0) min steps a (ones k) ≡ low k a
digits-ones zero k zero h = omega (arith, low-zero k)
digits-ones zero k (suc a) h = absurd (omega arith)
digits-ones (suc n) k zero h = omega (arith, low-zero k)
digits-ones (suc n) zero (suc a) h = omega (arith, digits-ones n zero (suc a / 2) (omega arith))
digits-ones (suc n) (suc k) (suc a) h =
    let halved : ones (suc k) / 2 ≡ ones k = omega arith in
    rw halved (omega (arith, digits-ones n k (suc a / 2) (omega arith)))

-- A mask of ones keeps the lowest digits.
bit_and-ones : (k a : ℕ) → bit_and a (ones k) ≡ low k a
bit_and-ones k a = bit_and-bitwise a (ones k) ∙ digits-ones a k a (omega arith)

pub bit_and_seven : (a : ℕ) → bit_and a 7 ≡ a % 8
bit_and_seven a = omega (arith, bit_and-ones 3 a)

pub bit_and_255 : (a : ℕ) → bit_and a 255 ≡ a % 256
bit_and_255 a =
    let nibble : (x : ℕ) → low 4 x ≡ x % 16 = λ x. omega arith in
    omega (arith, bit_and-ones 8 a, nibble a, nibble (a / 16))

-- Two functions of a byte are the same where they are on every byte.
module _ (f g : ℕ → ℕ) where
  same_upto : ℕ → Bool
  same_upto zero = true
  same_upto (suc n) = if f n == g n then same_upto n else false

  same_at : (n i : ℕ) → same_upto n ≡ true → i < n → f i ≡ g i
  unfolding same_upto
  same_at zero i run h = absurd (omega arith)
  same_at (suc n) i run h = ground (arith, same_at n i)

-- A ModRM or SIB byte, put together by `|`, is the sum of its three fields.
fields_sum : (x : ℕ) → x < 256 → bit_or (bit_or (x / 64 * 64) (x / 8 % 8 * 8)) (x % 8) ≡ x
unfolding same_upto
fields_sum x =
    same_at (λ y. bit_or (bit_or (y / 64 * 64) (y / 8 % 8 * 8)) (y % 8)) (λ y. y) 256 x refl

pub bit_or_fields :
    (a b c : ℕ) → a < 4 → b < 8 → c < 8 → bit_or (bit_or (a * 64) (b * 8)) c ≡ a * 64 + b * 8 + c
bit_or_fields a b c ha hb hc =
    let byte = a * 64 + b * 8 + c in
    let mode : byte / 64 * 64 ≡ a * 64 = omega arith in
    let reg : byte / 8 % 8 * 8 ≡ b * 8 = omega arith in
    let rm : byte % 8 ≡ c = omega arith in rw (mode, reg, rm) at (fields_sum byte (omega arith))

-- The mask of k ones above j zeros, and the digits of a number in these places.
abbrev mask : ℕ → ℕ → ℕ
mask zero k = ones k
mask (suc j) k = mask j k * 2

abbrev keep : ℕ → ℕ → ℕ → ℕ
keep zero k a = low k a
keep (suc j) k a = keep j k (a / 2) * 2

keep-zero : (j k : ℕ) → keep j k 0 ≡ 0
keep-zero zero k = low-zero k
keep-zero (suc j) k = omega (arith, keep-zero j k)

digits-mask : (j steps k a : ℕ) → a ≤ steps → digits (λ _. 0) min steps a (mask j k) ≡ keep j k a
digits-mask zero steps k a h = digits-ones steps k a h
digits-mask (suc j) zero k zero h = omega (arith, keep-zero j k)
digits-mask (suc j) zero k (suc a) h = absurd (omega arith)
digits-mask (suc j) (suc n) k zero h = omega (arith, keep-zero j k)
digits-mask (suc j) (suc n) k (suc a) h =
    let halved : mask (suc j) k / 2 ≡ mask j k = omega arith in
    rw halved (omega (arith, digits-mask j n k (suc a / 2) (omega arith)))

low-all : (k a : ℕ) → a < 2 ^ k → low k a ≡ a
low-all zero a h = omega arith
low-all (suc k) a h =
    let double : 2 ^ suc k ≡ 2 ^ k * 2 = simp unary_clauses (omega arith) in
    omega (arith, low-all k (a / 2) (omega (arith, double)))

-- The mask of Align at 16, on 64 bits.
pub bit_and-mask : (a : ℕ) → a < 2 ^ 64 → bit_and a (2 ^ 64 - 1 - (16 - 1)) ≡ a / 16 * 16
bit_and-mask a h =
    let high = a / 2 / 2 / 2 / 2 in
    let all : low 60 high ≡ high = low-all 60 high (omega arith) in
    let shifted : low 60 high * 2 * 2 * 2 * 2 ≡ a / 16 * 16 = rw all (omega arith) in
    bit_and-bitwise a (mask 4 60) ∙ digits-mask 4 a 60 a (omega arith) ∙ shifted
