-- ===== src/Opcodes/Fixed/AddImmediates.antt =====
-- The additions and subtractions of an immediate of one width, by width, are decoded as themselves.
use ecpps.Common.{
  ℕ, ◌<◌, ◌≡◌, refl, some, List, [], ◌∷◌, ◌++◌, append_assoc, ◌∙◌, arith, Bool, true, false, inl,
  inr, leb, ◌==◌, Bool-cases, not, ◌&&◌, bit_and,
}
use ecpps.Common.Bits.{bit_and_seven}
use ecpps.Common.Int.{ℤ}
use ecpps.Opcodes.Operands.{Width, w8, w16, w32, w64, by_width, mem_base, AluOp, alu_value}
use ecpps.Opcodes.Emit.{put, is_byte, requires_byte_rex}
use ecpps.Opcodes.Decoder.{decode}
use ecpps.Opcodes.Decoder.Instructions.{Insn}
use ecpps.Opcodes.Decoder.Operand.{gpr, operand_sized}
use ecpps.Opcodes.ReadOperand.{IsEncodable, address}
use ecpps.Opcodes.Decodes.AluForms.{
  alu_reg_byte, alu_mem_byte, accumulator_step, accumulator_byte_step,
}
use ecpps.Opcodes.Fixed.Emit.{i32, u8, emit, rex, rex_byte, mod_rm, mod_rm_memory}
use ecpps.Opcodes.Fixed.Shapes.{emit-put, rex-rex_byte}
use ecpps.Opcodes.Fixed.Forms.{emits, prefixed, prefixed-put_rex, reg_imm_form, mem_imm_form}
use ecpps.Opcodes.Fixed.MoveForms.{store_imm}
use ecpps.Opcodes.Fixed.Immediates.{imm_value, read_imm-store_imm, imm32-u32}
use ecpps.Opcodes.Fixed.AluImmediates.{decode-imm, wide_reg, wide_mem}
use ecpps.Opcodes.Fixed.Additions.{
  generate_add_imm_to_reg8, generate_add_imm_to_reg16, generate_add_imm_to_reg32,
  generate_add_imm_to_reg64, generate_add_imm_to_mem8, generate_add_imm_to_mem16,
  generate_add_imm_to_mem32, generate_add_imm_to_mem64,
}
use ecpps.Opcodes.Fixed.Subtractions.{
  generate_sub_imm_to_reg8, generate_sub_imm_to_reg16, generate_sub_imm_to_reg32,
  generate_sub_imm_to_reg64, generate_sub_imm_to_mem8, generate_sub_imm_to_mem16,
  generate_sub_imm_to_mem32, generate_sub_imm_to_mem64,
}

abbrev on_accumulator : ℕ → ℕ → Bool
on_accumulator reg v = (not (leb 8 reg) && (bit_and reg 7 == 0)) && leb 0x7F v

on_accumulator-zero : (reg v : ℕ) → on_accumulator reg v ≡ true → reg ≡ 0
on_accumulator-zero reg v h = let low = bit_and_seven reg in ground arith

-- 05, which has no ModRM byte.
add_accumulator :
    (size : Width) (v : ℕ) (rest : List ℕ)
    → is_byte size ≡ false
    → decode (prefixed size false false false (emit 0x05 ++ store_imm size v) ++ rest)
      ≡ some (Insn.alu_imm AluOp.add size (gpr 0) (imm_value size v), rest)
add_accumulator size v rest wide =
    rw (prefixed-put_rex, wide, append_assoc, append_assoc, append_assoc, emit-put)
      (rw (accumulator_step AluOp.add size _ wide, read_imm-store_imm size v rest) refl)

-- 04, for al.
add_accumulator_byte :
    (v : ℕ) (rest : List ℕ)
    → decode ((rex_byte false false false (requires_byte_rex 0) ++ (emit 0x04 ++ emit v)) ++ rest)
      ≡ some (Insn.alu_imm AluOp.add w8 (gpr 0) (imm_value w8 v), rest)
unfolding rex_byte requires_byte_rex
add_accumulator_byte v rest =
    rw (emit-put 0x04, append_assoc (put 0x04) (emit v) rest)
      (accumulator_byte_step AluOp.add (emit v ++ rest) ∙ rw (read_imm-store_imm w8 v rest) refl)

abbrev on_accumulator_byte : ℕ → Bool
on_accumulator_byte reg = not (leb 8 reg) && (bit_and reg 7 == 0)

on_accumulator_byte-zero : (reg : ℕ) → on_accumulator_byte reg ≡ true → reg ≡ 0
on_accumulator_byte-zero reg h = let low = bit_and_seven reg in ground arith

byte_reg :
    (op : AluOp) (reg v : ℕ) (rest : List ℕ)
    → reg < 16
    → decode (
        prefixed w8 (requires_byte_rex reg) (leb 8 (alu_value op)) (leb 8 reg) (
          emits
            (0x80 ∷ [])
            (mod_rm 3 (u8 (bit_and (alu_value op) 7)) (u8 (bit_and reg 7)) ++ emit v))
        ++ rest)
      ≡ some (Insn.alu_imm op w8 (gpr reg) (imm_value w8 v), rest)
byte_reg op reg v rest h = rw (reg_imm_form false w8 (0x80 ∷ []) (alu_value op) reg true (emit v)) (
    decode-imm operand_sized w8 _ (emit v) rest (Insn.alu_imm op w8 (gpr reg)) _
      (λ r. alu_reg_byte op reg r h) (read_imm-store_imm w8 v rest))

-- The generators of the memory forms write Rex, not RexByte, for a byte.
byte_mem :
    (op : AluOp) (v : ℕ) (rest : List ℕ) (b : ℕ) (d : ℤ)
    → b < 16
    → IsEncodable (mem_base b d)
    → decode (
        (rex false (leb 8 (alu_value op)) false (leb 8 b)
          ++ (emit 0x80
              ++ (mod_rm_memory (u8 (bit_and (alu_value op) 7)) (u8 (bit_and b 7)) d ++ emit v)))
        ++ rest)
      ≡ some (Insn.alu_imm op w8 (address (mem_base b d)) (imm_value w8 v), rest)
byte_mem op v rest b d h e =
    rw (rex-rex_byte, mem_imm_form false w8 (0x80 ∷ []) (alu_value op) b d (emit v) h)
      (decode-imm operand_sized w8 _ (emit v) rest (Insn.alu_imm op w8 (address (mem_base b d))) _
        (λ r. alu_mem_byte op _ r e) (read_imm-store_imm w8 v rest))

module _ (reg v : ℕ) (rest : List ℕ) (reg-lt : reg < 16) where
  pub decode-add_imm_to_reg :
      (size : Width)
      → (v == 0) ≡ false
      → decode (
          by_width generate_add_imm_to_reg8 generate_add_imm_to_reg16 generate_add_imm_to_reg32
            generate_add_imm_to_reg64 size reg v
          ++ rest)
        ≡ some (Insn.alu_imm AluOp.add size (gpr reg) (imm_value size v), rest)
  unfolding generate_add_imm_to_reg8 generate_add_imm_to_reg16 generate_add_imm_to_reg32
      generate_add_imm_to_reg64
  decode-add_imm_to_reg w8 nz = elim (Bool-cases (on_accumulator_byte reg)) [
    | inl a ↦ rw (nz, a, on_accumulator_byte-zero reg a) (add_accumulator_byte v rest)
    | inr a ↦ rw (nz, a) (byte_reg AluOp.add reg v rest reg-lt)
  ]
  decode-add_imm_to_reg w16 nz = elim (Bool-cases (on_accumulator reg v)) [
    | inl a ↦ rw (nz, a, on_accumulator-zero reg v a) (add_accumulator w16 v rest refl)
    | inr a ↦ rw (nz, a) (wide_reg AluOp.add w16 v rest refl reg reg-lt)
  ]
  decode-add_imm_to_reg w32 nz = elim (Bool-cases (on_accumulator reg v)) [
    | inl a ↦ rw (nz, a, on_accumulator-zero reg v a) (add_accumulator w32 v rest refl)
    | inr a ↦ rw (nz, a) (wide_reg AluOp.add w32 v rest refl reg reg-lt)
  ]
  decode-add_imm_to_reg w64 nz = elim (Bool-cases (on_accumulator reg v)) [
    | inl a ↦ rw (nz, a, on_accumulator-zero reg v a) (add_accumulator w64 v rest refl)
    | inr a ↦ rw (nz, a) (wide_reg AluOp.add w64 v rest refl reg reg-lt)
  ]

  pub decode-sub_imm_to_reg :
      (size : Width)
      → leb v 0xFFFFFFFF ≡ true
      → decode (
          by_width generate_sub_imm_to_reg8 generate_sub_imm_to_reg16 generate_sub_imm_to_reg32
            generate_sub_imm_to_reg64 size reg v
          ++ rest)
        ≡ some (Insn.alu_imm AluOp.sub size (gpr reg) (imm_value size v), rest)
  unfolding generate_sub_imm_to_reg8 generate_sub_imm_to_reg16 generate_sub_imm_to_reg32
      generate_sub_imm_to_reg64
  decode-sub_imm_to_reg w8 h = byte_reg AluOp.sub reg v rest reg-lt
  decode-sub_imm_to_reg w16 h = wide_reg AluOp.sub w16 v rest refl reg reg-lt
  decode-sub_imm_to_reg w32 h = wide_reg AluOp.sub w32 v rest refl reg reg-lt
  decode-sub_imm_to_reg w64 h = rw h (wide_reg AluOp.sub w64 v rest refl reg reg-lt)

module _ (base offset v : ℕ) (rest : List ℕ) (base-lt : base < 16)
    (e : IsEncodable (mem_base base (i32 offset))) where
  pub decode-add_imm_to_mem :
      (size : Width)
      → (v == 0) ≡ false
      → decode (
          by_width generate_add_imm_to_mem8 generate_add_imm_to_mem16 generate_add_imm_to_mem32
            generate_add_imm_to_mem64 size base offset v
          ++ rest)
        ≡ some (
          Insn.alu_imm AluOp.add size (address (mem_base base (i32 offset))) (imm_value size v),
          rest,
        )
  unfolding generate_add_imm_to_mem8 generate_add_imm_to_mem16 generate_add_imm_to_mem32
      generate_add_imm_to_mem64
  decode-add_imm_to_mem w8 nz = byte_mem AluOp.add v rest base _ base-lt e
  decode-add_imm_to_mem w16 nz = wide_mem AluOp.add w16 v rest refl base _ base-lt e
  decode-add_imm_to_mem w32 nz = rw nz (wide_mem AluOp.add w32 v rest refl base _ base-lt e)
  decode-add_imm_to_mem w64 nz =
      rw nz (rw (imm32-u32 v) at (wide_mem AluOp.add w64 v rest refl base _ base-lt e))

  pub decode-sub_imm_to_mem :
      (size : Width)
      → decode (
          by_width generate_sub_imm_to_mem8 generate_sub_imm_to_mem16 generate_sub_imm_to_mem32
            generate_sub_imm_to_mem64 size base offset v
          ++ rest)
        ≡ some (
          Insn.alu_imm AluOp.sub size (address (mem_base base (i32 offset))) (imm_value size v),
          rest,
        )
  unfolding generate_sub_imm_to_mem8 generate_sub_imm_to_mem16 generate_sub_imm_to_mem32
      generate_sub_imm_to_mem64
  decode-sub_imm_to_mem w8 = byte_mem AluOp.sub v rest base _ base-lt e
  decode-sub_imm_to_mem w16 = wide_mem AluOp.sub w16 v rest refl base _ base-lt e
  decode-sub_imm_to_mem w32 = wide_mem AluOp.sub w32 v rest refl base _ base-lt e
  decode-sub_imm_to_mem w64 =
      rw (imm32-u32 v) at (wide_mem AluOp.sub w64 v rest refl base _ base-lt e)
