-- ===== src/Opcodes/Fixed/MoveImmediates.antt =====
-- Moves of an immediate by the generators of one width, by width, are decoded as themselves.
use ecpps.Common.{
  ℕ, ◌%◌, ◌^◌, ◌<◌, ◌≡◌, refl, ap, some, List, [], ◌∷◌, ◌++◌, append_assoc, arith, true, false, inl,
  inr, leb, ltb, Bool-cases, bit_and, bit_or, sym,
}
use ecpps.Common.Int.{ℤ, of_bits}
use ecpps.Opcodes.Operands.{Width, w8, w16, w32, w64, by_width, mem_base}
use ecpps.Opcodes.Emit.{is_byte, requires_byte_rex}
use ecpps.Opcodes.Immediates.{modulus}
use ecpps.Opcodes.Decoder.{decode}
use ecpps.Opcodes.Decoder.Operand.{gpr, signed, little_endian, read_imm, full_sized, operand_sized}
use ecpps.Opcodes.Decoder.Forms.{opcode_register}
use ecpps.Opcodes.Decoder.Instructions.{Insn}
use ecpps.Opcodes.ReadInsn.{decode-emit_reg, decode-emit_mem}
use ecpps.Opcodes.ReadOperand.{IsEncodable, address}
use ecpps.Opcodes.Decodes.Moves.{store_imm_form}
use ecpps.Opcodes.Fixed.Emit.{u8, u32, i32, emit, mod_rm, imm16, imm32, imm64}
use ecpps.Opcodes.Fixed.Forms.{emits, prefixed, prefixed-append, reg_imm_form}
use ecpps.Opcodes.Fixed.Immediates.{
  imm32-u32, imm_value, read_imm-store_imm, signed_one, signed_two, signed_four,
}
use ecpps.Opcodes.Fixed.MoveForms.{store_imm, mov_imm_to_mem_lem}
use ecpps.Opcodes.Fixed.AluImmediates.{decode-imm}
use ecpps.Opcodes.Fixed.OpcodeRegister.{IsRow, decode-opcode_register, IsRow-b0, IsRow-b8}
use ecpps.Opcodes.Fixed.Moves.{
  generate_mov_imm_to_reg8, generate_mov_imm_to_reg16, generate_mov_imm_to_reg32,
  generate_mov_imm_to_reg64, generate_mov_imm_to_mem8, generate_mov_imm_to_mem16,
  generate_mov_imm_to_mem32, generate_mov_imm_to_mem64,
}

-- The immediate of a move to a register, which 64 bits have in full.
abbrev full_imm : Width → ℕ → List ℕ
full_imm w8 imm = emit imm
full_imm w16 imm = imm16 imm
full_imm w32 imm = imm32 imm
full_imm w64 imm = imm64 imm

abbrev pub full_value : Width → ℕ → ℤ
full_value size v = of_bits (modulus size) (v % modulus size)

signed_eight :
    (v : ℕ) (rest : List ℕ)
    → signed 8 (imm64 v ++ rest) ≡ some (of_bits (2 ^ 64) (v % 2 ^ 64), rest)
unfolding signed imm64 imm32 emit little_endian
signed_eight v rest = ap (λ (n : ℕ). some (of_bits (2 ^ 64) n, rest)) (omega arith)

read_imm-full_imm :
    (size : Width) (v : ℕ) (rest : List ℕ)
    → read_imm full_sized size (full_imm size v ++ rest) ≡ some (full_value size v, rest)
unfolding read_imm
read_imm-full_imm w8 v rest = signed_one v rest
read_imm-full_imm w16 v rest = signed_two v rest
read_imm-full_imm w32 v rest = signed_four v rest
read_imm-full_imm w64 v rest = signed_eight v rest

module _ (size : Width) (base reg v : ℕ) (rest : List ℕ) (reg-lt : reg < 16)
    (aligned : base % 8 ≡ 0) (byte : base < 0xC0)
    (row : (y : ℕ)
      → y < 8
      → IsRow base
          (opcode_register (is_byte size) full_sized (λ w r i. some (Insn.move_imm w r i)))
          y) where
  short_move :
      decode (
        prefixed size
          (requires_byte_rex reg)
          false
          (leb 8 reg)
          (emit (bit_or base (bit_and reg 7)) ++ full_imm size v)
        ++ rest)
      ≡ some (Insn.move_imm size (gpr reg) (full_value size v), rest)
  short_move =
      let opcode = emit (bit_or base (bit_and reg 7)) in
      rw
        (
          sym (
              prefixed-append size (requires_byte_rex reg) false (leb 8 reg)
                (opcode ++ full_imm size v) rest),
          append_assoc opcode (full_imm size v) rest,
          decode-opcode_register size base reg (requires_byte_rex reg) reg-lt aligned byte row
              (λ h. h) (full_imm size v ++ rest),
          read_imm-full_imm size v rest,
        )
        refl

small_wide : (v : ℕ) → leb v 0x7FFFFFFF ≡ true → imm_value w64 v ≡ full_value w64 v
small_wide v h = ground arith

-- opcode 0xC7, of which the processor extends the four bytes.
module _ (reg v : ℕ) (rest : List ℕ) (reg-lt : reg < 16) where
  extended_move :
      decode (
        prefixed w64
          (requires_byte_rex reg)
          false
          (leb 8 reg)
          (emits (0xC7 ∷ []) (mod_rm 3 0 (u8 (bit_and reg 7)) ++ imm32 (u32 v)))
        ++ rest)
      ≡ some (Insn.move_imm w64 (gpr reg) (imm_value w64 v), rest)
  extended_move = rw (reg_imm_form false w64 (0xC7 ∷ []) 0 reg false (imm32 (u32 v))) (
      decode-imm operand_sized w64 _ (imm32 (u32 v)) rest (Insn.move_imm w64 (gpr reg)) _
        (λ r.
          decode-emit_reg w64 (0xC7 ∷ []) 0 false r (omega arith) reg false reg-lt
            (store_imm_form w64))
        (read_imm-store_imm w64 v rest))

  pub decode-mov_imm_to_reg :
      (size : Width)
      → decode (
          by_width generate_mov_imm_to_reg8 generate_mov_imm_to_reg16 generate_mov_imm_to_reg32
            generate_mov_imm_to_reg64 size reg v
          ++ rest)
        ≡ some (Insn.move_imm size (gpr reg) (full_value size v), rest)
  unfolding generate_mov_imm_to_reg8 generate_mov_imm_to_reg16 generate_mov_imm_to_reg32
      generate_mov_imm_to_reg64
  decode-mov_imm_to_reg w8 = short_move w8 0xB0 reg v rest reg-lt refl (omega arith) IsRow-b0
  decode-mov_imm_to_reg w16 = short_move w16 0xB8 reg v rest reg-lt refl (omega arith) IsRow-b8
  decode-mov_imm_to_reg w32 =
      rw (imm32-u32 v) (short_move w32 0xB8 reg v rest reg-lt refl (omega arith) IsRow-b8)
  decode-mov_imm_to_reg w64 = elim (Bool-cases (leb v 0x7FFFFFFF)) [
    | inl s ↦ rw s (rw (small_wide v s) at extended_move)
    | inr s ↦ rw s (short_move w64 0xB8 reg v rest reg-lt refl (omega arith) IsRow-b8)
  ]

-- A store of an immediate; at 64 bits one of at most 32, of which the processor extends the sign.
pub decode-mov_imm_to_mem :
    (size : Width) (base offset v : ℕ) (rest : List ℕ)
    → base < 16
    → IsEncodable (mem_base base (i32 offset))
    → ltb 0xFFFFFFFF v ≡ false
    → decode (
        by_width generate_mov_imm_to_mem8 generate_mov_imm_to_mem16 generate_mov_imm_to_mem32
          generate_mov_imm_to_mem64 size base offset v
        ++ rest)
      ≡ some (Insn.move_imm size (address (mem_base base (i32 offset))) (imm_value size v), rest)
decode-mov_imm_to_mem size base offset v rest h e small =
    rw (mov_imm_to_mem_lem size base offset v h small) (
      decode-imm operand_sized size _ (store_imm size v) rest
        (Insn.move_imm size (address (mem_base base (i32 offset)))) _
        (λ r.
          decode-emit_mem size _ 0 false r (omega arith) _ (is_byte size) e (store_imm_form size))
        (read_imm-store_imm size v rest))
