-- ===== src/Opcodes/Immediates.antt =====
-- What PutImm writes is read back: the low bytes of the two's complement, in little-endian order.
use ecpps.Common.{ℕ, ◌%◌, ◌^◌, ◌<◌, ◌≡◌, refl, ap, some, List, [], ◌∷◌, ◌++◌, arith, bit_and, true}
use ecpps.Common.Bits.{bit_and_255}
use ecpps.Common.Int.{ℤ, pos, negsuc, to_bits, of_bits, InRange}
use ecpps.Opcodes.Operands.{Width, w8, w16, w32, w64}
use ecpps.Opcodes.Emit.{put, put_imm, fits_i8, imm_fits, imm_normalise, imm_size}
use ecpps.Opcodes.Decoder.Operand.{little_endian, signed, unsigned}

pub put_lem : (v : ℕ) → put v ≡ v % 256 ∷ []
unfolding put
put_lem v = ap (λ b. b ∷ []) (bit_and_255 v)

masked_byte : (v : ℕ) → put (bit_and v 0xFF) ≡ v % 256 ∷ []
masked_byte v = rw (put_lem, bit_and_255) (ap (λ b. b ∷ []) (omega arith))

-- The bytes of `put_imm`, as a number.
little_endian-put_imm_one :
    (z : ℤ) (rest : List ℕ)
    → little_endian 1 (put_imm z 1 ++ rest) ≡ some (to_bits (2 ^ 64) z % 256, rest)
unfolding put_imm little_endian
little_endian-put_imm_one z rest = simp bit_and_255 (ap (λ (v : ℕ). some (v, rest)) (omega arith))

little_endian-put_imm_two :
    (z : ℤ) (rest : List ℕ)
    → little_endian 2 (put_imm z 2 ++ rest) ≡ some (to_bits (2 ^ 64) z % 2 ^ 16, rest)
unfolding put_imm little_endian
little_endian-put_imm_two z rest = simp bit_and_255 (ap (λ (v : ℕ). some (v, rest)) (omega arith))

little_endian-put_imm_four :
    (z : ℤ) (rest : List ℕ)
    → little_endian 4 (put_imm z 4 ++ rest) ≡ some (to_bits (2 ^ 64) z % 2 ^ 32, rest)
unfolding put_imm little_endian
little_endian-put_imm_four z rest = simp bit_and_255 (ap (λ (v : ℕ). some (v, rest)) (omega arith))

of_bits-to_bits_one : (z : ℤ) → InRange (2 ^ 8) z → of_bits (2 ^ 8) (to_bits (2 ^ 64) z % 256) ≡ z
of_bits-to_bits_one (pos n) h = ground arith
of_bits-to_bits_one (negsuc n) h = ground arith

of_bits-to_bits_two :
    (z : ℤ) → InRange (2 ^ 16) z → of_bits (2 ^ 16) (to_bits (2 ^ 64) z % 2 ^ 16) ≡ z
of_bits-to_bits_two (pos n) h = ground arith
of_bits-to_bits_two (negsuc n) h = ground arith

pub of_bits-to_bits_four :
    (z : ℤ) → InRange (2 ^ 32) z → of_bits (2 ^ 32) (to_bits (2 ^ 64) z % 2 ^ 32) ≡ z
of_bits-to_bits_four (pos n) h = ground arith
of_bits-to_bits_four (negsuc n) h = ground arith

module _ (z : ℤ) (rest : List ℕ) where
  pub signed-put_imm_one : InRange (2 ^ 8) z → signed 1 (put_imm z 1 ++ rest) ≡ some (z, rest)
  unfolding signed
  signed-put_imm_one h = rw (little_endian-put_imm_one z rest, of_bits-to_bits_one z h)

  pub signed-put_imm_two : InRange (2 ^ 16) z → signed 2 (put_imm z 2 ++ rest) ≡ some (z, rest)
  unfolding signed
  signed-put_imm_two h = rw (little_endian-put_imm_two z rest, of_bits-to_bits_two z h)

  pub signed-put_imm_four : InRange (2 ^ 32) z → signed 4 (put_imm z 4 ++ rest) ≡ some (z, rest)
  unfolding signed
  signed-put_imm_four h = rw (little_endian-put_imm_four z rest, of_bits-to_bits_four z h)

-- A byte without a sign, as the shift counts and the ports are.
pub unsigned-put :
    (v : ℕ) (rest : List ℕ) → v < 256 → unsigned 1 (put v ++ rest) ≡ some (pos v, rest)
unfolding unsigned little_endian
unsigned-put v rest h = rw put_lem (ap (λ (n : ℕ). some (pos n, rest)) (omega arith))

pub unsigned-put_imm_two :
    (v : ℕ) (rest : List ℕ)
    → v < 2 ^ 16
    → unsigned 2 (put_imm (pos v) 2 ++ rest) ≡ some (pos v, rest)
unfolding unsigned
unsigned-put_imm_two v rest h =
    rw (little_endian-put_imm_two (pos v) rest) (ap (λ (n : ℕ). some (pos n, rest)) (omega arith))

pub fits_i8-InRange : (z : ℤ) → fits_i8 z ≡ true → InRange (2 ^ 8) z
unfolding fits_i8
fits_i8-InRange (pos n) h = ground arith
fits_i8-InRange (negsuc n) h = ground arith

pub of_bits-InRange_one : (v : ℕ) → v < 2 ^ 8 → InRange (2 ^ 8) (of_bits (2 ^ 8) v)
of_bits-InRange_one v h = ground arith

pub of_bits-InRange_two : (v : ℕ) → v < 2 ^ 16 → InRange (2 ^ 16) (of_bits (2 ^ 16) v)
of_bits-InRange_two v h = ground arith

pub of_bits-InRange_four : (v : ℕ) → v < 2 ^ 32 → InRange (2 ^ 32) (of_bits (2 ^ 32) v)
of_bits-InRange_four v h = ground arith

to_bits-lt : (m : ℕ) (z : ℤ) → 0 < m → to_bits m z < m
to_bits-lt m (pos n) h = omega arith
to_bits-lt m (negsuc n) h = omega arith

imm_fits_wide-InRange : (z : ℤ) → imm_fits w64 z ≡ true → InRange (2 ^ 32) z
unfolding imm_fits
imm_fits_wide-InRange (pos n) h = ground arith
imm_fits_wide-InRange (negsuc n) h = ground arith

-- The modulus of a word of a width.
abbrev pub modulus : Width → ℕ
modulus w8 = 2 ^ 8
modulus w16 = 2 ^ 16
modulus w32 = 2 ^ 32
modulus w64 = 2 ^ 64

-- The immediate that is written is the given one, modulo the operand's width.
pub to_bits-imm_normalise :
    (size : Width) (z : ℤ)
    → to_bits (modulus size) (imm_normalise size z) ≡ to_bits (modulus size) z
unfolding imm_normalise
to_bits-imm_normalise w8 z = ground (arith, to_bits-lt (2 ^ 8) z (omega arith))
to_bits-imm_normalise w16 z = ground (arith, to_bits-lt (2 ^ 16) z (omega arith))
to_bits-imm_normalise w32 z = ground (arith, to_bits-lt (2 ^ 32) z (omega arith))
to_bits-imm_normalise w64 z = refl

-- What passes ImmFits is read back from the bytes of its size.
pub signed-put_imm_size :
    (size : Width) (z : ℤ) (rest : List ℕ)
    → imm_fits size z ≡ true
    → signed (imm_size size) (put_imm (imm_normalise size z) (imm_size size) ++ rest)
      ≡ some (imm_normalise size z, rest)
unfolding imm_normalise
signed-put_imm_size w8 z rest h =
    signed-put_imm_one _ rest (of_bits-InRange_one _ (to_bits-lt (2 ^ 8) z (omega arith)))
signed-put_imm_size w16 z rest h =
    signed-put_imm_two _ rest (of_bits-InRange_two _ (to_bits-lt (2 ^ 16) z (omega arith)))
signed-put_imm_size w32 z rest h =
    signed-put_imm_four _ rest (of_bits-InRange_four _ (to_bits-lt (2 ^ 32) z (omega arith)))
signed-put_imm_size w64 z rest h = signed-put_imm_four z rest (imm_fits_wide-InRange z h)
