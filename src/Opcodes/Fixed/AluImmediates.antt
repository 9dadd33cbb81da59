-- ===== src/Opcodes/Fixed/AluImmediates.antt =====
-- Additions and subtractions of an immediate by the generators of one width are decoded.
use ecpps.Common.{
  ℕ, ◌≤◌, ◌<◌, ◌≡◌, refl, some, List, [], ◌∷◌, ◌++◌, append_assoc, arith, true, false, inl, inr,
  leb, Bool-cases, if◌then◌else◌, bit_and,
}
use ecpps.Common.Int.{ℤ}
use ecpps.Opcodes.Operands.{Width, mem_base, AluOp, alu_value}
use ecpps.Opcodes.Emit.{is_byte, requires_byte_rex}
use ecpps.Opcodes.Decoder.{decode}
use ecpps.Opcodes.Decoder.Instructions.{Insn}
use ecpps.Opcodes.Decoder.Operand.{gpr, read_imm, signed_byte, operand_sized, ImmKind}
use ecpps.Opcodes.ReadInsn.{finish}
use ecpps.Opcodes.ReadOperand.{IsEncodable, address}
use ecpps.Opcodes.Decodes.AluForms.{alu_reg_short, alu_reg_full, alu_mem_short, alu_mem_full}
use ecpps.Opcodes.Fixed.Emit.{u8, emit, mod_rm, mod_rm_memory}
use ecpps.Opcodes.Fixed.Forms.{emits, prefixed, reg_imm_form, mem_imm_form}
use ecpps.Opcodes.Fixed.MoveForms.{store_imm}
use ecpps.Opcodes.Fixed.Immediates.{imm_value, read_imm-store_imm, read_imm-short}

-- What was shown of an opcode with operands `e` carries over to `e` and an immediate.
pub decode-imm :
    (k : ImmKind) (size : Width) (e t rest : List ℕ) (insn : ℤ → Insn) (z : ℤ)
    → ((r : List ℕ) → decode (e ++ r) ≡ finish k size r (λ i. some (insn i)))
    → read_imm k size (t ++ rest) ≡ some (z, rest)
    → decode ((e ++ t) ++ rest) ≡ some (insn z, rest)
decode-imm k size e t rest insn z h s = rw (append_assoc, h (t ++ rest), s) refl

-- 83 with a byte, 81 with an immediate of the width.
module _ (op : AluOp) (size : Width) (v : ℕ) (rest : List ℕ) (wide : is_byte size ≡ false) where
  pub wide_reg :
      (reg : ℕ)
      → reg < 16
      → decode (
          prefixed size (requires_byte_rex reg) (leb 8 (alu_value op)) (leb 8 reg) (
            if leb v 0x7F
            then emits
                (0x83 ∷ [])
                (mod_rm 3 (u8 (bit_and (alu_value op) 7)) (u8 (bit_and reg 7)) ++ emit v)
            else emits
                (0x81 ∷ [])
                (mod_rm 3 (u8 (bit_and (alu_value op) 7)) (u8 (bit_and reg 7)) ++ store_imm size v))
          ++ rest)
        ≡ some (Insn.alu_imm op size (gpr reg) (imm_value size v), rest)
  wide_reg reg h = elim (Bool-cases (leb v 0x7F)) [
    | inl s ↦
        let small : v ≤ 0x7F = ground arith in
        rw (s, reg_imm_form false size (0x83 ∷ []) (alu_value op) reg true (emit v), wide)
          (decode-imm signed_byte size _ (emit v) rest (Insn.alu_imm op size (gpr reg)) _
            (λ r. alu_reg_short op size wide r reg h) (read_imm-short size v rest small))
    | inr s ↦
        rw (s, reg_imm_form false size (0x81 ∷ []) (alu_value op) reg true (store_imm size v), wide)
          (decode-imm operand_sized size _ (store_imm size v) rest (Insn.alu_imm op size (gpr reg))
            _ (λ r. alu_reg_full op size wide r reg h) (read_imm-store_imm size v rest))
  ]

  pub wide_mem :
      (b : ℕ) (d : ℤ)
      → b < 16
      → IsEncodable (mem_base b d)
      → decode (
          prefixed size false (leb 8 (alu_value op)) (leb 8 b) (
            if leb v 0x7F
            then emits
                (0x83 ∷ [])
                (mod_rm_memory (u8 (bit_and (alu_value op) 7)) (u8 (bit_and b 7)) d ++ emit v)
            else emits (0x81 ∷ []) (
                mod_rm_memory (u8 (bit_and (alu_value op) 7)) (u8 (bit_and b 7)) d
                ++ store_imm size v))
          ++ rest)
        ≡ some (Insn.alu_imm op size (address (mem_base b d)) (imm_value size v), rest)
  wide_mem b d h e = elim (Bool-cases (leb v 0x7F)) [
    | inl s ↦
        let small : v ≤ 0x7F = ground arith in
        rw (s, mem_imm_form false size (0x83 ∷ []) (alu_value op) b d (emit v) h, wide)
          (decode-imm signed_byte size _ (emit v) rest
            (Insn.alu_imm op size (address (mem_base b d))) _
            (λ r. alu_mem_short op size wide r _ e) (read_imm-short size v rest small))
    | inr s ↦
        rw (s, mem_imm_form false size (0x81 ∷ []) (alu_value op) b d (store_imm size v) h, wide)
          (decode-imm operand_sized size _ (store_imm size v) rest
            (Insn.alu_imm op size (address (mem_base b d))) _ (λ r. alu_mem_full op size wide r _ e)
            (read_imm-store_imm size v rest))
  ]
