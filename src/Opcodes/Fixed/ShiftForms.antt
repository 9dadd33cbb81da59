-- ===== src/Opcodes/Fixed/ShiftForms.antt =====
-- The shifts of one width by a count, taken together by width.
use ecpps.Common.{ℕ, ◌<◌, ◌≡◌, true, false, [], ◌∷◌, ◌==◌, Bool-cases, inl, inr, append-nil}
use ecpps.Opcodes.Operands.{Width, w8, w16, w32, w64, by_width, mem_base, ShiftOp}
use ecpps.Opcodes.Generators.Shifts.{generate_shift_reg_imm, generate_shift_mem_imm}
use ecpps.Opcodes.Fixed.Emit.{i32}
use ecpps.Opcodes.Fixed.Shapes.{rex-rex_byte, emit-put, emit-put_masked}
use ecpps.Opcodes.Fixed.Forms.{reg_form, mem_form, reg_imm_form, mem_imm_form}
use ecpps.Opcodes.Fixed.SignedShifts.{
  generate_signed_sar_imm_to_reg8, generate_signed_sar_imm_to_reg16,
  generate_signed_sar_imm_to_reg32, generate_signed_sar_imm_to_reg64,
  generate_signed_shr_imm_to_reg8, generate_signed_shr_imm_to_reg16,
  generate_signed_shr_imm_to_reg32, generate_signed_shr_imm_to_reg64,
  generate_signed_shr_imm_to_mem8, generate_signed_shr_imm_to_mem16,
  generate_signed_shr_imm_to_mem32, generate_signed_shr_imm_to_mem64,
}
use ecpps.Opcodes.Fixed.Shifts.{
  generate_sal_reg8, generate_sal_reg16, generate_sal_reg32, generate_sal_reg64, generate_sar_reg8,
  generate_sar_reg16, generate_sar_reg32, generate_sar_reg64, generate_sal_mem8, generate_sal_mem16,
  generate_sal_mem32, generate_sal_mem64, generate_sar_mem8, generate_sar_mem16, generate_sar_mem32,
  generate_sar_mem64,
}

pub signed_sar_imm_to_reg_lem :
    (size : Width) (reg imm : ℕ)
    → by_width generate_signed_sar_imm_to_reg8 generate_signed_sar_imm_to_reg16
        generate_signed_sar_imm_to_reg32 generate_signed_sar_imm_to_reg64 size reg imm
      ≡ generate_shift_reg_imm ShiftOp.sar size reg imm
unfolding generate_signed_sar_imm_to_reg8 generate_signed_sar_imm_to_reg16
    generate_signed_sar_imm_to_reg32 generate_signed_sar_imm_to_reg64 generate_shift_reg_imm
signed_sar_imm_to_reg_lem w8 reg imm = elim (Bool-cases (imm == 1)) [
  | inl once ↦ rw (once) (reg_form false w8 (0xD0 ∷ []) 7 reg true)
  | inr more ↦ rw (more, emit-put_masked imm) (reg_imm_form false w8 (0xC0 ∷ []) 7 reg true _)
]
signed_sar_imm_to_reg_lem w16 reg imm = elim (Bool-cases (imm == 1)) [
  | inl once ↦ rw (once) (reg_form false w16 (0xD1 ∷ []) 7 reg true)
  | inr more ↦ rw (more, emit-put_masked imm) (reg_imm_form false w16 (0xC1 ∷ []) 7 reg true _)
]
signed_sar_imm_to_reg_lem w32 reg imm = elim (Bool-cases (imm == 1)) [
  | inl once ↦ rw (once) (reg_form false w32 (0xD1 ∷ []) 7 reg true)
  | inr more ↦ rw (more, emit-put_masked imm) (reg_imm_form false w32 (0xC1 ∷ []) 7 reg true _)
]
signed_sar_imm_to_reg_lem w64 reg imm = elim (Bool-cases (imm == 1)) [
  | inl once ↦ rw (once) (reg_form false w64 (0xD1 ∷ []) 7 reg true)
  | inr more ↦ rw (more, emit-put_masked imm) (reg_imm_form false w64 (0xC1 ∷ []) 7 reg true _)
]

pub signed_shr_imm_to_reg_lem :
    (size : Width) (reg imm : ℕ)
    → by_width generate_signed_shr_imm_to_reg8 generate_signed_shr_imm_to_reg16
        generate_signed_shr_imm_to_reg32 generate_signed_shr_imm_to_reg64 size reg imm
      ≡ generate_shift_reg_imm ShiftOp.shr size reg imm
unfolding generate_signed_shr_imm_to_reg8 generate_signed_shr_imm_to_reg16
    generate_signed_shr_imm_to_reg32 generate_signed_shr_imm_to_reg64 generate_shift_reg_imm
signed_shr_imm_to_reg_lem w8 reg imm = elim (Bool-cases (imm == 1)) [
  | inl once ↦ rw (once) (reg_form false w8 (0xD0 ∷ []) 5 reg true)
  | inr more ↦ rw (more, emit-put_masked imm) (reg_imm_form false w8 (0xC0 ∷ []) 5 reg true _)
]
signed_shr_imm_to_reg_lem w16 reg imm = elim (Bool-cases (imm == 1)) [
  | inl once ↦ rw (once) (reg_form false w16 (0xD1 ∷ []) 5 reg true)
  | inr more ↦ rw (more, emit-put_masked imm) (reg_imm_form false w16 (0xC1 ∷ []) 5 reg true _)
]
signed_shr_imm_to_reg_lem w32 reg imm = elim (Bool-cases (imm == 1)) [
  | inl once ↦ rw (once) (reg_form false w32 (0xD1 ∷ []) 5 reg true)
  | inr more ↦ rw (more, emit-put_masked imm) (reg_imm_form false w32 (0xC1 ∷ []) 5 reg true _)
]
signed_shr_imm_to_reg_lem w64 reg imm = elim (Bool-cases (imm == 1)) [
  | inl once ↦ rw (once) (reg_form false w64 (0xD1 ∷ []) 5 reg true)
  | inr more ↦ rw (more, emit-put_masked imm) (reg_imm_form false w64 (0xC1 ∷ []) 5 reg true _)
]

pub sal_reg_lem :
    (size : Width) (reg imm : ℕ)
    → by_width generate_sal_reg8 generate_sal_reg16 generate_sal_reg32 generate_sal_reg64 size reg
        imm
      ≡ generate_shift_reg_imm ShiftOp.shl size reg imm
unfolding generate_sal_reg8 generate_sal_reg16 generate_sal_reg32 generate_sal_reg64
    generate_shift_reg_imm
sal_reg_lem w8 reg imm = elim (Bool-cases (imm == 1)) [
  | inl once ↦ rw (once) (reg_form false w8 (0xD0 ∷ []) 4 reg true)
  | inr more ↦ rw (more, emit-put imm) (reg_imm_form false w8 (0xC0 ∷ []) 4 reg true _)
]
sal_reg_lem w16 reg imm = elim (Bool-cases (imm == 1)) [
  | inl once ↦ rw (once) (reg_form false w16 (0xD1 ∷ []) 4 reg true)
  | inr more ↦ rw (more, emit-put imm) (reg_imm_form false w16 (0xC1 ∷ []) 4 reg true _)
]
sal_reg_lem w32 reg imm = elim (Bool-cases (imm == 1)) [
  | inl once ↦ rw (once) (reg_form false w32 (0xD1 ∷ []) 4 reg true)
  | inr more ↦ rw (more, emit-put imm) (reg_imm_form false w32 (0xC1 ∷ []) 4 reg true _)
]
sal_reg_lem w64 reg imm = elim (Bool-cases (imm == 1)) [
  | inl once ↦ rw (once) (reg_form false w64 (0xD1 ∷ []) 4 reg true)
  | inr more ↦ rw (more, emit-put imm) (reg_imm_form false w64 (0xC1 ∷ []) 4 reg true _)
]

pub sar_reg_lem :
    (size : Width) (reg imm : ℕ)
    → by_width generate_sar_reg8 generate_sar_reg16 generate_sar_reg32 generate_sar_reg64 size reg
        imm
      ≡ generate_shift_reg_imm ShiftOp.sar size reg imm
unfolding generate_sar_reg8 generate_sar_reg16 generate_sar_reg32 generate_sar_reg64
    generate_shift_reg_imm
sar_reg_lem w8 reg imm = elim (Bool-cases (imm == 1)) [
  | inl once ↦ rw (once) (reg_form false w8 (0xD0 ∷ []) 7 reg true)
  | inr more ↦ rw (more, emit-put imm) (reg_imm_form false w8 (0xC0 ∷ []) 7 reg true _)
]
sar_reg_lem w16 reg imm = elim (Bool-cases (imm == 1)) [
  | inl once ↦ rw (once) (reg_form false w16 (0xD1 ∷ []) 7 reg true)
  | inr more ↦ rw (more, emit-put imm) (reg_imm_form false w16 (0xC1 ∷ []) 7 reg true _)
]
sar_reg_lem w32 reg imm = elim (Bool-cases (imm == 1)) [
  | inl once ↦ rw (once) (reg_form false w32 (0xD1 ∷ []) 7 reg true)
  | inr more ↦ rw (more, emit-put imm) (reg_imm_form false w32 (0xC1 ∷ []) 7 reg true _)
]
sar_reg_lem w64 reg imm = elim (Bool-cases (imm == 1)) [
  | inl once ↦ rw (once) (reg_form false w64 (0xD1 ∷ []) 7 reg true)
  | inr more ↦ rw (more, emit-put imm) (reg_imm_form false w64 (0xC1 ∷ []) 7 reg true _)
]

pub signed_shr_imm_to_mem_lem :
    (size : Width) (base offset imm : ℕ)
    → base < 16
    → by_width generate_signed_shr_imm_to_mem8 generate_signed_shr_imm_to_mem16
        generate_signed_shr_imm_to_mem32 generate_signed_shr_imm_to_mem64 size base offset imm
      ≡ generate_shift_mem_imm ShiftOp.shr size (mem_base base (i32 offset)) imm
unfolding generate_signed_shr_imm_to_mem8 generate_signed_shr_imm_to_mem16
    generate_signed_shr_imm_to_mem32 generate_signed_shr_imm_to_mem64 generate_shift_mem_imm
signed_shr_imm_to_mem_lem w8 base offset imm h = elim (Bool-cases (imm == 1)) [
  | inl once ↦ rw (once) (mem_form false w8 (0xD0 ∷ []) 5 base _ h)
  | inr more ↦ rw (more, emit-put imm) (mem_imm_form false w8 (0xC0 ∷ []) 5 base _ _ h)
]
signed_shr_imm_to_mem_lem w16 base offset imm h = elim (Bool-cases (imm == 1)) [
  | inl once ↦ rw (once) (mem_form false w16 (0xD1 ∷ []) 5 base _ h)
  | inr more ↦ rw (more, emit-put_masked imm) (mem_imm_form false w16 (0xC1 ∷ []) 5 base _ _ h)
]
signed_shr_imm_to_mem_lem w32 base offset imm h = elim (Bool-cases (imm == 1)) [
  | inl once ↦ rw (once) (mem_form false w32 (0xD1 ∷ []) 5 base _ h)
  | inr more ↦ rw (more, emit-put_masked imm) (mem_imm_form false w32 (0xC1 ∷ []) 5 base _ _ h)
]
signed_shr_imm_to_mem_lem w64 base offset imm h = elim (Bool-cases (imm == 1)) [
  | inl once ↦ rw (once) (mem_form false w64 (0xD1 ∷ []) 5 base _ h)
  | inr more ↦ rw (more, emit-put_masked imm) (mem_imm_form false w64 (0xC1 ∷ []) 5 base _ _ h)
]

pub sal_mem_lem :
    (size : Width) (base offset imm : ℕ)
    → base < 16
    → by_width generate_sal_mem8 generate_sal_mem16 generate_sal_mem32 generate_sal_mem64 size base
        offset imm
      ≡ generate_shift_mem_imm ShiftOp.shl size (mem_base base (i32 offset)) imm
unfolding generate_sal_mem8 generate_sal_mem16 generate_sal_mem32 generate_sal_mem64
    generate_shift_mem_imm
sal_mem_lem w8 base offset imm h = elim (Bool-cases (imm == 1)) [
  | inl once ↦ rw (rex-rex_byte, once) (rw append-nil (mem_form false w8 (0xD0 ∷ []) 4 base _ h))
  | inr more ↦
      rw (rex-rex_byte, more, emit-put imm) (mem_imm_form false w8 (0xC0 ∷ []) 4 base _ _ h)
]
sal_mem_lem w16 base offset imm h = elim (Bool-cases (imm == 1)) [
  | inl once ↦ rw (once) (rw append-nil (mem_form false w16 (0xD1 ∷ []) 4 base _ h))
  | inr more ↦ rw (more, emit-put imm) (mem_imm_form false w16 (0xC1 ∷ []) 4 base _ _ h)
]
sal_mem_lem w32 base offset imm h = elim (Bool-cases (imm == 1)) [
  | inl once ↦ rw (once) (rw append-nil (mem_form false w32 (0xD1 ∷ []) 4 base _ h))
  | inr more ↦ rw (more, emit-put imm) (mem_imm_form false w32 (0xC1 ∷ []) 4 base _ _ h)
]
sal_mem_lem w64 base offset imm h = elim (Bool-cases (imm == 1)) [
  | inl once ↦ rw (once) (rw append-nil (mem_form false w64 (0xD1 ∷ []) 4 base _ h))
  | inr more ↦ rw (more, emit-put imm) (mem_imm_form false w64 (0xC1 ∷ []) 4 base _ _ h)
]

pub sar_mem_lem :
    (size : Width) (base offset imm : ℕ)
    → base < 16
    → by_width generate_sar_mem8 generate_sar_mem16 generate_sar_mem32 generate_sar_mem64 size base
        offset imm
      ≡ generate_shift_mem_imm ShiftOp.sar size (mem_base base (i32 offset)) imm
unfolding generate_sar_mem8 generate_sar_mem16 generate_sar_mem32 generate_sar_mem64
    generate_shift_mem_imm
sar_mem_lem w8 base offset imm h = elim (Bool-cases (imm == 1)) [
  | inl once ↦ rw (rex-rex_byte, once) (rw append-nil (mem_form false w8 (0xD0 ∷ []) 7 base _ h))
  | inr more ↦
      rw (rex-rex_byte, more, emit-put imm) (mem_imm_form false w8 (0xC0 ∷ []) 7 base _ _ h)
]
sar_mem_lem w16 base offset imm h = elim (Bool-cases (imm == 1)) [
  | inl once ↦ rw (once) (rw append-nil (mem_form false w16 (0xD1 ∷ []) 7 base _ h))
  | inr more ↦ rw (more, emit-put imm) (mem_imm_form false w16 (0xC1 ∷ []) 7 base _ _ h)
]
sar_mem_lem w32 base offset imm h = elim (Bool-cases (imm == 1)) [
  | inl once ↦ rw (once) (rw append-nil (mem_form false w32 (0xD1 ∷ []) 7 base _ h))
  | inr more ↦ rw (more, emit-put imm) (mem_imm_form false w32 (0xC1 ∷ []) 7 base _ _ h)
]
sar_mem_lem w64 base offset imm h = elim (Bool-cases (imm == 1)) [
  | inl once ↦ rw (once) (rw append-nil (mem_form false w64 (0xD1 ∷ []) 7 base _ h))
  | inr more ↦ rw (more, emit-put imm) (mem_imm_form false w64 (0xC1 ∷ []) 7 base _ _ h)
]
