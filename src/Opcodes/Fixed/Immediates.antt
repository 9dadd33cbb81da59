-- ===== src/Opcodes/Fixed/Immediates.antt =====
-- The immediates that Emit, Imm16 and Imm32 write are read back by the decoder.
use ecpps.Common.{ℕ, ◌%◌, ◌^◌, ◌≤◌, ◌≡◌, ap, some, List, ◌++◌, arith}
use ecpps.Common.Int.{ℤ, to_bits, of_bits}
use ecpps.Opcodes.Operands.{Width, w8, w16, w32, w64}
use ecpps.Opcodes.Decoder.Operand.{signed, read_imm, signed_byte, operand_sized}
use ecpps.Opcodes.Immediates.{
  signed-put_imm_one, signed-put_imm_two, signed-put_imm_four, of_bits-InRange_one,
  of_bits-InRange_two, of_bits-InRange_four,
}
use ecpps.Opcodes.Fixed.Emit.{u32, emit, imm16, imm32}
use ecpps.Opcodes.Fixed.Shapes.{imm8_lem, imm16_lem, imm32_lem}
use ecpps.Opcodes.Fixed.MoveForms.{store_imm}

-- The number that the bytes of a width stand for: at most four bytes, with a sign.
abbrev pub imm_value : Width → ℕ → ℤ
imm_value w8 v = of_bits (2 ^ 8) (v % 2 ^ 8)
imm_value w16 v = of_bits (2 ^ 16) (v % 2 ^ 16)
imm_value w32 v = of_bits (2 ^ 32) (v % 2 ^ 32)
imm_value w64 v = of_bits (2 ^ 32) (v % 2 ^ 32)

bits_one : (v : ℕ) → to_bits (2 ^ 8) (of_bits (2 ^ 8) (v % 2 ^ 8)) ≡ v % 2 ^ 8
bits_one v = ground arith

bits_two : (v : ℕ) → to_bits (2 ^ 16) (of_bits (2 ^ 16) (v % 2 ^ 16)) ≡ v % 2 ^ 16
bits_two v = ground arith

bits_four : (v : ℕ) → to_bits (2 ^ 32) (of_bits (2 ^ 32) (v % 2 ^ 32)) ≡ v % 2 ^ 32
bits_four v = ground arith

pub signed_one :
    (v : ℕ) (rest : List ℕ) → signed 1 (emit v ++ rest) ≡ some (of_bits (2 ^ 8) (v % 2 ^ 8), rest)
signed_one v rest =
    rw (imm8_lem v _ (bits_one v)) (signed-put_imm_one _ rest (of_bits-InRange_one _ (omega arith)))

pub signed_two :
    (v : ℕ) (rest : List ℕ)
    → signed 2 (imm16 v ++ rest) ≡ some (of_bits (2 ^ 16) (v % 2 ^ 16), rest)
signed_two v rest =
    rw (imm16_lem v _ (bits_two v))
      (signed-put_imm_two _ rest (of_bits-InRange_two _ (omega arith)))

pub signed_four :
    (v : ℕ) (rest : List ℕ)
    → signed 4 (imm32 v ++ rest) ≡ some (of_bits (2 ^ 32) (v % 2 ^ 32), rest)
signed_four v rest =
    rw (imm32_lem v _ (bits_four v))
      (signed-put_imm_four _ rest (of_bits-InRange_four _ (omega arith)))

pub read_imm-store_imm :
    (size : Width) (v : ℕ) (rest : List ℕ)
    → read_imm operand_sized size (store_imm size v ++ rest) ≡ some (imm_value size v, rest)
unfolding read_imm
read_imm-store_imm w8 v rest = signed_one v rest
read_imm-store_imm w16 v rest = signed_two v rest
read_imm-store_imm w32 v rest = signed_four v rest
read_imm-store_imm w64 v rest =
    let same : u32 v % 2 ^ 32 ≡ v % 2 ^ 32 = omega arith in rw same at (signed_four (u32 v) rest)

small_value : (size : Width) (v : ℕ) → v ≤ 0x7F → of_bits (2 ^ 8) (v % 2 ^ 8) ≡ imm_value size v
small_value w8 v h = ground arith
small_value w16 v h = ground arith
small_value w32 v h = ground arith
small_value w64 v h = ground arith

pub read_imm-short :
    (size : Width) (v : ℕ) (rest : List ℕ)
    → v ≤ 0x7F
    → read_imm signed_byte size (emit v ++ rest) ≡ some (imm_value size v, rest)
unfolding read_imm
read_imm-short size v rest h =
    rw (signed_one v rest) (ap (λ z. some (z, rest)) (small_value size v h))

-- The four bytes do not depend on the cast to 32 bits.
pub imm32-u32 : (v : ℕ) → imm32 (u32 v) ≡ imm32 v
imm32-u32 v =
    let same : to_bits (2 ^ 32) (of_bits (2 ^ 32) (v % 2 ^ 32)) ≡ u32 v % 2 ^ 32 =
      rw (bits_four v) (omega arith) in
    rw (imm32_lem (u32 v) _ same, imm32_lem v _ (bits_four v))
