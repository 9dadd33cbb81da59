-- ===== src/Opcodes/Fixed/Equivalence.antt =====
-- The generators of one width against those that take a width.
use ecpps.Common.{ℕ, ◌<◌, ◌≡◌}
use ecpps.Common.Int.{ℤ}
use ecpps.Opcodes.Operands.{Width, by_width, mem_base, AluOp, UnaryOp, ShiftOp}
use ecpps.Opcodes.Generators.Arithmetic.{
  generate_alu_reg_reg, generate_alu_reg_mem, generate_alu_mem_reg, generate_unary_reg,
  generate_unary_mem,
}
use ecpps.Opcodes.Generators.Moves.{generate_mov_store, generate_mov_load}
use ecpps.Opcodes.Generators.Shifts.{generate_shift_reg_imm, generate_shift_mem_imm}
use ecpps.Opcodes.Fixed.Emit.{u32, i32}
use ecpps.Opcodes.Fixed.Additions.{
  generate_add_reg_to_reg8, generate_add_reg_to_reg16, generate_add_reg_to_reg32,
  generate_add_reg_to_reg64, generate_add_reg_to_mem8, generate_add_reg_to_mem16,
  generate_add_reg_to_mem32, generate_add_reg_to_mem64, generate_add_mem_to_reg8,
  generate_add_mem_to_reg16, generate_add_mem_to_reg32, generate_add_mem_to_reg64,
}
use ecpps.Opcodes.Fixed.Subtractions.{
  generate_sub_reg_to_reg8, generate_sub_reg_to_reg16, generate_sub_reg_to_reg32,
  generate_sub_reg_to_reg64, generate_sub_reg_to_mem8, generate_sub_reg_to_mem16,
  generate_sub_reg_to_mem32, generate_sub_reg_to_mem64, generate_sub_mem_to_reg8,
  generate_sub_mem_to_reg16, generate_sub_mem_to_reg32, generate_sub_mem_to_reg64,
}
use ecpps.Opcodes.Fixed.Divisions.{
  generate_xor_reg8, generate_xor_reg16, generate_xor_reg32, generate_xor_reg64,
  generate_unsigned_div8, generate_unsigned_div16, generate_unsigned_div32, generate_unsigned_div64,
  generate_signed_div8, generate_signed_div16, generate_signed_div32, generate_signed_div64,
  generate_neg_reg8, generate_neg_reg16, generate_neg_reg32, generate_neg_reg64,
  generate_unsigned_div_mem8, generate_unsigned_div_mem16, generate_unsigned_div_mem32,
  generate_unsigned_div_mem64, generate_signed_div_mem8, generate_signed_div_mem16,
  generate_signed_div_mem32, generate_signed_div_mem64,
}
use ecpps.Opcodes.Fixed.Moves.{
  generate_mov_reg_to_mem8, generate_mov_reg_to_mem16, generate_mov_reg_to_mem32,
  generate_mov_reg_to_mem64, generate_mov_mem_to_reg8, generate_mov_mem_to_reg16,
  generate_mov_mem_to_reg32, generate_mov_mem_to_reg64,
}
use ecpps.Opcodes.Fixed.Multiplications.{
  generate_unsigned_mul_reg_to_reg8, generate_unsigned_mul_reg_to_reg16,
  generate_unsigned_mul_reg_to_reg32, generate_unsigned_mul_reg_to_reg64,
  generate_unsigned_mul_reg_to_mem8, generate_unsigned_mul_reg_to_mem16,
  generate_unsigned_mul_reg_to_mem32, generate_unsigned_mul_reg_to_mem64,
}
use ecpps.Opcodes.Fixed.Shifts.{
  generate_sal_reg8, generate_sal_reg16, generate_sal_reg32, generate_sal_reg64, generate_sar_reg8,
  generate_sar_reg16, generate_sar_reg32, generate_sar_reg64, generate_sal_mem8, generate_sal_mem16,
  generate_sal_mem32, generate_sal_mem64, generate_sar_mem8, generate_sar_mem16, generate_sar_mem32,
  generate_sar_mem64,
}
use ecpps.Opcodes.Fixed.SignedShifts.{
  generate_signed_sar_imm_to_reg8, generate_signed_sar_imm_to_reg16,
  generate_signed_sar_imm_to_reg32, generate_signed_sar_imm_to_reg64,
  generate_signed_shr_imm_to_reg8, generate_signed_shr_imm_to_reg16,
  generate_signed_shr_imm_to_reg32, generate_signed_shr_imm_to_reg64,
  generate_signed_shr_imm_to_mem8, generate_signed_shr_imm_to_mem16,
  generate_signed_shr_imm_to_mem32, generate_signed_shr_imm_to_mem64,
}
use ecpps.Opcodes.Fixed.AluForms.{
  add_reg_to_reg_lem, add_reg_to_mem_lem, add_mem_to_reg_lem, sub_reg_to_reg_lem,
  sub_reg_to_mem_lem, sub_mem_to_reg_lem, xor_reg_lem,
}
use ecpps.Opcodes.Fixed.MoveForms.{mov_reg_to_mem_lem, mov_mem_to_reg_lem}
use ecpps.Opcodes.Fixed.UnaryForms.{
  unsigned_mul_reg_to_reg_lem, unsigned_mul_reg_to_mem_lem, unsigned_div_lem, signed_div_lem,
  neg_reg_lem, unsigned_div_mem_lem, signed_div_mem_lem,
}
use ecpps.Opcodes.Fixed.ShiftForms.{
  sal_reg_lem, sar_reg_lem, signed_sar_imm_to_reg_lem, signed_shr_imm_to_reg_lem, sal_mem_lem,
  sar_mem_lem, signed_shr_imm_to_mem_lem,
}

module _ (size : Width) (a b offset : ℕ) where
  -- The generators of one width write what those that take a width do: addition, subtraction and
  -- exclusive or of registers, and the first two and the moves with an address.
  abbrev pub AgreesOnTwo : Type 0
  AgreesOnTwo =
      (by_width generate_add_reg_to_reg8 generate_add_reg_to_reg16 generate_add_reg_to_reg32
          generate_add_reg_to_reg64 size a b
        ≡ generate_alu_reg_reg AluOp.add size a b)
      × (by_width generate_add_reg_to_mem8 generate_add_reg_to_mem16 generate_add_reg_to_mem32
            generate_add_reg_to_mem64 size b offset a
          ≡ generate_alu_reg_mem AluOp.add size (mem_base b (i32 offset)) a)
      × (by_width generate_add_mem_to_reg8 generate_add_mem_to_reg16 generate_add_mem_to_reg32
            generate_add_mem_to_reg64 size a offset b
          ≡ generate_alu_mem_reg AluOp.add size a (mem_base b (i32 offset)))
      × (by_width generate_sub_reg_to_reg8 generate_sub_reg_to_reg16 generate_sub_reg_to_reg32
            generate_sub_reg_to_reg64 size a b
          ≡ generate_alu_reg_reg AluOp.sub size a b)
      × (by_width generate_sub_reg_to_mem8 generate_sub_reg_to_mem16 generate_sub_reg_to_mem32
            generate_sub_reg_to_mem64 size b offset a
          ≡ generate_alu_reg_mem AluOp.sub size (mem_base b (i32 offset)) a)
      × (by_width generate_sub_mem_to_reg8 generate_sub_mem_to_reg16 generate_sub_mem_to_reg32
            generate_sub_mem_to_reg64 size a offset b
          ≡ generate_alu_mem_reg AluOp.sub size a (mem_base b (i32 offset)))
      × (by_width generate_xor_reg8 generate_xor_reg16 generate_xor_reg32 generate_xor_reg64 size a
            b
          ≡ generate_alu_reg_reg AluOp.xor size a b)
      × (by_width generate_mov_reg_to_mem8 generate_mov_reg_to_mem16 generate_mov_reg_to_mem32
            generate_mov_reg_to_mem64 size b offset a
          ≡ generate_mov_store size (mem_base b (i32 (u32 offset))) a)
      × (by_width generate_mov_mem_to_reg8 generate_mov_mem_to_reg16 generate_mov_mem_to_reg32
            generate_mov_mem_to_reg64 size a offset b
          ≡ generate_mov_load size a (mem_base b (i32 (u32 offset))))

module _ (size : Width) (a b offset v : ℕ) (d : ℤ) where
  -- The same of multiplication, division, negation, and the shifts by a count.
  abbrev pub AgreesOnOne : Type 0
  AgreesOnOne =
      (by_width generate_unsigned_mul_reg_to_reg8 generate_unsigned_mul_reg_to_reg16
          generate_unsigned_mul_reg_to_reg32 generate_unsigned_mul_reg_to_reg64 size b a
        ≡ generate_unary_reg UnaryOp.mul size a)
      × (by_width generate_unsigned_mul_reg_to_mem8 generate_unsigned_mul_reg_to_mem16
            generate_unsigned_mul_reg_to_mem32 generate_unsigned_mul_reg_to_mem64 size b offset a
          ≡ generate_unary_mem UnaryOp.mul size (mem_base b (i32 offset)))
      × (by_width generate_unsigned_div8 generate_unsigned_div16 generate_unsigned_div32
            generate_unsigned_div64 size a
          ≡ generate_unary_reg UnaryOp.div size a)
      × (by_width generate_signed_div8 generate_signed_div16 generate_signed_div32
            generate_signed_div64 size a
          ≡ generate_unary_reg UnaryOp.idiv size a)
      × (by_width generate_neg_reg8 generate_neg_reg16 generate_neg_reg32 generate_neg_reg64 size a
          ≡ generate_unary_reg UnaryOp.neg size a)
      × (by_width generate_unsigned_div_mem8 generate_unsigned_div_mem16 generate_unsigned_div_mem32
            generate_unsigned_div_mem64 size b d
          ≡ generate_unary_mem UnaryOp.div size (mem_base b d))
      × (by_width generate_signed_div_mem8 generate_signed_div_mem16 generate_signed_div_mem32
            generate_signed_div_mem64 size b d
          ≡ generate_unary_mem UnaryOp.idiv size (mem_base b d))
      × (by_width generate_sal_reg8 generate_sal_reg16 generate_sal_reg32 generate_sal_reg64 size a
            v
          ≡ generate_shift_reg_imm ShiftOp.shl size a v)
      × (by_width generate_sar_reg8 generate_sar_reg16 generate_sar_reg32 generate_sar_reg64 size a
            v
          ≡ generate_shift_reg_imm ShiftOp.sar size a v)
      × (by_width generate_signed_sar_imm_to_reg8 generate_signed_sar_imm_to_reg16
            generate_signed_sar_imm_to_reg32 generate_signed_sar_imm_to_reg64 size a v
          ≡ generate_shift_reg_imm ShiftOp.sar size a v)
      × (by_width generate_signed_shr_imm_to_reg8 generate_signed_shr_imm_to_reg16
            generate_signed_shr_imm_to_reg32 generate_signed_shr_imm_to_reg64 size a v
          ≡ generate_shift_reg_imm ShiftOp.shr size a v)
      × (by_width generate_sal_mem8 generate_sal_mem16 generate_sal_mem32 generate_sal_mem64 size b
            offset v
          ≡ generate_shift_mem_imm ShiftOp.shl size (mem_base b (i32 offset)) v)
      × (by_width generate_sar_mem8 generate_sar_mem16 generate_sar_mem32 generate_sar_mem64 size b
            offset v
          ≡ generate_shift_mem_imm ShiftOp.sar size (mem_base b (i32 offset)) v)
      × (by_width generate_signed_shr_imm_to_mem8 generate_signed_shr_imm_to_mem16
            generate_signed_shr_imm_to_mem32 generate_signed_shr_imm_to_mem64 size b offset v
          ≡ generate_shift_mem_imm ShiftOp.shr size (mem_base b (i32 offset)) v)

-- With a general register for the base of the address, the generators of one width for ADD and SUB of
-- registers and memory, XOR of registers, and MOV between a register and memory, taken by width, write
-- the same bytes as the generator that takes the width.
pub generate_add-AgreesOnTwo :
    (size : Width) (a b offset : ℕ) → b < 16 → AgreesOnTwo size a b offset
generate_add-AgreesOnTwo size a b offset h = (
  add_reg_to_reg_lem size a b,
  add_reg_to_mem_lem size b offset a h,
  add_mem_to_reg_lem size a offset b h,
  sub_reg_to_reg_lem size a b,
  sub_reg_to_mem_lem size b offset a h,
  sub_mem_to_reg_lem size a offset b h,
  xor_reg_lem size a b,
  mov_reg_to_mem_lem size b offset a h,
  mov_mem_to_reg_lem size a offset b h,
)

-- So does each generator of one width of MUL, DIV, IDIV, NEG, and of SHL, SHR and SAR by a count.
pub generate_neg-AgreesOnOne :
    (size : Width) (a b offset v : ℕ) (d : ℤ) → b < 16 → AgreesOnOne size a b offset v d
generate_neg-AgreesOnOne size a b offset v d h = (
  unsigned_mul_reg_to_reg_lem size b a,
  unsigned_mul_reg_to_mem_lem size b offset a h,
  unsigned_div_lem size a,
  signed_div_lem size a,
  neg_reg_lem size a,
  unsigned_div_mem_lem size b d h,
  signed_div_mem_lem size b d h,
  sal_reg_lem size a v,
  sar_reg_lem size a v,
  signed_sar_imm_to_reg_lem size a v,
  signed_shr_imm_to_reg_lem size a v,
  sal_mem_lem size b offset v h,
  sar_mem_lem size b offset v h,
  signed_shr_imm_to_mem_lem size b offset v h,
)
