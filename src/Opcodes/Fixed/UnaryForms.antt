-- ===== src/Opcodes/Fixed/UnaryForms.antt =====
-- The multiplications, divisions and negations of one width, taken together by width.
use ecpps.Common.{ℕ, ◌<◌, ◌≡◌, true, false, [], ◌∷◌}
use ecpps.Common.Int.{ℤ}
use ecpps.Opcodes.Operands.{Width, w8, w16, w32, w64, by_width, mem_base, UnaryOp}
use ecpps.Opcodes.Generators.Arithmetic.{
  generate_unary_reg, generate_unary_mem, generate_imul_reg_reg, generate_imul_reg_mem,
}
use ecpps.Opcodes.Fixed.Emit.{i32}
use ecpps.Opcodes.Fixed.Shapes.{rex-rex_byte}
use ecpps.Opcodes.Fixed.Forms.{reg_form, mem_form}
use ecpps.Opcodes.Emit.{is_byte}
use ecpps.Opcodes.Fixed.Multiplications.{
  generate_unsigned_mul_reg_to_reg8, generate_unsigned_mul_reg_to_reg16,
  generate_unsigned_mul_reg_to_reg32, generate_unsigned_mul_reg_to_reg64,
  generate_unsigned_mul_reg_to_mem8, generate_unsigned_mul_reg_to_mem16,
  generate_unsigned_mul_reg_to_mem32, generate_unsigned_mul_reg_to_mem64,
  generate_signed_mul_reg_to_reg8, generate_signed_mul_reg_to_reg16,
  generate_signed_mul_reg_to_reg32, generate_signed_mul_reg_to_reg64,
  generate_signed_mul_mem_to_reg8, generate_signed_mul_mem_to_reg16,
  generate_signed_mul_mem_to_reg32, generate_signed_mul_mem_to_reg64,
}
use ecpps.Opcodes.Fixed.Divisions.{
  generate_unsigned_div8, generate_unsigned_div16, generate_unsigned_div32, generate_unsigned_div64,
  generate_signed_div8, generate_signed_div16, generate_signed_div32, generate_signed_div64,
  generate_neg_reg8, generate_neg_reg16, generate_neg_reg32, generate_neg_reg64,
  generate_unsigned_div_mem8, generate_unsigned_div_mem16, generate_unsigned_div_mem32,
  generate_unsigned_div_mem64, generate_signed_div_mem8, generate_signed_div_mem16,
  generate_signed_div_mem32, generate_signed_div_mem64,
}

pub unsigned_mul_reg_to_reg_lem :
    (size : Width) (destination reg : ℕ)
    → by_width generate_unsigned_mul_reg_to_reg8 generate_unsigned_mul_reg_to_reg16
        generate_unsigned_mul_reg_to_reg32 generate_unsigned_mul_reg_to_reg64 size destination reg
      ≡ generate_unary_reg UnaryOp.mul size reg
unfolding generate_unsigned_mul_reg_to_reg8 generate_unsigned_mul_reg_to_reg16
    generate_unsigned_mul_reg_to_reg32 generate_unsigned_mul_reg_to_reg64 generate_unary_reg
unsigned_mul_reg_to_reg_lem w8 destination reg = reg_form false w8 (0xF6 ∷ []) 4 reg true
unsigned_mul_reg_to_reg_lem w16 destination reg = reg_form false w16 (0xF7 ∷ []) 4 reg true
unsigned_mul_reg_to_reg_lem w32 destination reg = reg_form false w32 (0xF7 ∷ []) 4 reg true
unsigned_mul_reg_to_reg_lem w64 destination reg = reg_form false w64 (0xF7 ∷ []) 4 reg true

pub unsigned_div_lem :
    (size : Width) (reg : ℕ)
    → by_width generate_unsigned_div8 generate_unsigned_div16 generate_unsigned_div32
        generate_unsigned_div64 size reg
      ≡ generate_unary_reg UnaryOp.div size reg
unfolding generate_unsigned_div8 generate_unsigned_div16 generate_unsigned_div32
    generate_unsigned_div64 generate_unary_reg
unsigned_div_lem w8 reg = reg_form false w8 (0xF6 ∷ []) 6 reg true
unsigned_div_lem w16 reg = reg_form false w16 (0xF7 ∷ []) 6 reg true
unsigned_div_lem w32 reg = reg_form false w32 (0xF7 ∷ []) 6 reg true
unsigned_div_lem w64 reg = reg_form false w64 (0xF7 ∷ []) 6 reg true

pub signed_div_lem :
    (size : Width) (reg : ℕ)
    → by_width generate_signed_div8 generate_signed_div16 generate_signed_div32
        generate_signed_div64 size reg
      ≡ generate_unary_reg UnaryOp.idiv size reg
unfolding generate_signed_div8 generate_signed_div16 generate_signed_div32 generate_signed_div64
    generate_unary_reg
signed_div_lem w8 reg = reg_form false w8 (0xF6 ∷ []) 7 reg true
signed_div_lem w16 reg = reg_form false w16 (0xF7 ∷ []) 7 reg true
signed_div_lem w32 reg = reg_form false w32 (0xF7 ∷ []) 7 reg true
signed_div_lem w64 reg = reg_form false w64 (0xF7 ∷ []) 7 reg true

pub neg_reg_lem :
    (size : Width) (reg : ℕ)
    → by_width generate_neg_reg8 generate_neg_reg16 generate_neg_reg32 generate_neg_reg64 size reg
      ≡ generate_unary_reg UnaryOp.neg size reg
unfolding generate_neg_reg8 generate_neg_reg16 generate_neg_reg32 generate_neg_reg64
    generate_unary_reg
neg_reg_lem w8 reg = reg_form false w8 (0xF6 ∷ []) 3 reg true
neg_reg_lem w16 reg = reg_form false w16 (0xF7 ∷ []) 3 reg true
neg_reg_lem w32 reg = reg_form false w32 (0xF7 ∷ []) 3 reg true
neg_reg_lem w64 reg = reg_form false w64 (0xF7 ∷ []) 3 reg true

pub unsigned_div_mem_lem :
    (size : Width) (base : ℕ) (d : ℤ)
    → base < 16
    → by_width generate_unsigned_div_mem8 generate_unsigned_div_mem16 generate_unsigned_div_mem32
        generate_unsigned_div_mem64 size base d
      ≡ generate_unary_mem UnaryOp.div size (mem_base base d)
unfolding generate_unsigned_div_mem8 generate_unsigned_div_mem16 generate_unsigned_div_mem32
    generate_unsigned_div_mem64 generate_unary_mem
unsigned_div_mem_lem w8 base d h = rw rex-rex_byte (mem_form false w8 (0xF6 ∷ []) 6 base d h)
unsigned_div_mem_lem w16 base d h = mem_form false w16 (0xF7 ∷ []) 6 base d h
unsigned_div_mem_lem w32 base d h = mem_form false w32 (0xF7 ∷ []) 6 base d h
unsigned_div_mem_lem w64 base d h = mem_form false w64 (0xF7 ∷ []) 6 base d h

pub signed_div_mem_lem :
    (size : Width) (base : ℕ) (d : ℤ)
    → base < 16
    → by_width generate_signed_div_mem8 generate_signed_div_mem16 generate_signed_div_mem32
        generate_signed_div_mem64 size base d
      ≡ generate_unary_mem UnaryOp.idiv size (mem_base base d)
unfolding generate_signed_div_mem8 generate_signed_div_mem16 generate_signed_div_mem32
    generate_signed_div_mem64 generate_unary_mem
signed_div_mem_lem w8 base d h = rw rex-rex_byte (mem_form false w8 (0xF6 ∷ []) 7 base d h)
signed_div_mem_lem w16 base d h = mem_form false w16 (0xF7 ∷ []) 7 base d h
signed_div_mem_lem w32 base d h = mem_form false w32 (0xF7 ∷ []) 7 base d h
signed_div_mem_lem w64 base d h = mem_form false w64 (0xF7 ∷ []) 7 base d h

pub unsigned_mul_reg_to_mem_lem :
    (size : Width) (base offset source : ℕ)
    → base < 16
    → by_width generate_unsigned_mul_reg_to_mem8 generate_unsigned_mul_reg_to_mem16
        generate_unsigned_mul_reg_to_mem32 generate_unsigned_mul_reg_to_mem64 size base offset
        source
      ≡ generate_unary_mem UnaryOp.mul size (mem_base base (i32 offset))
unfolding generate_unsigned_mul_reg_to_mem8 generate_unsigned_mul_reg_to_mem16
    generate_unsigned_mul_reg_to_mem32 generate_unsigned_mul_reg_to_mem64 generate_unary_mem
unsigned_mul_reg_to_mem_lem w8 base offset source h =
    rw rex-rex_byte (mem_form false w8 (0xF6 ∷ []) 4 base _ h)
unsigned_mul_reg_to_mem_lem w16 base offset source h = mem_form false w16 (0xF7 ∷ []) 4 base _ h
unsigned_mul_reg_to_mem_lem w32 base offset source h = mem_form false w32 (0xF7 ∷ []) 4 base _ h
unsigned_mul_reg_to_mem_lem w64 base offset source h = mem_form false w64 (0xF7 ∷ []) 4 base _ h

pub signed_mul_reg_to_reg_lem :
    (size : Width) (destination source : ℕ)
    → is_byte size ≡ false
    → by_width generate_signed_mul_reg_to_reg8 generate_signed_mul_reg_to_reg16
        generate_signed_mul_reg_to_reg32 generate_signed_mul_reg_to_reg64 size destination source
      ≡ generate_imul_reg_reg size destination source
unfolding generate_signed_mul_reg_to_reg8 generate_signed_mul_reg_to_reg16
    generate_signed_mul_reg_to_reg32 generate_signed_mul_reg_to_reg64 generate_imul_reg_reg
signed_mul_reg_to_reg_lem w8 destination source wide = cc
signed_mul_reg_to_reg_lem w16 destination source wide =
    reg_form false w16 (0x0F ∷ 0xAF ∷ []) destination source false
signed_mul_reg_to_reg_lem w32 destination source wide =
    reg_form false w32 (0x0F ∷ 0xAF ∷ []) destination source false
signed_mul_reg_to_reg_lem w64 destination source wide =
    reg_form false w64 (0x0F ∷ 0xAF ∷ []) destination source false

pub signed_mul_mem_to_reg_lem :
    (size : Width) (destination offset base : ℕ)
    → base < 16
    → is_byte size ≡ false
    → by_width generate_signed_mul_mem_to_reg8 generate_signed_mul_mem_to_reg16
        generate_signed_mul_mem_to_reg32 generate_signed_mul_mem_to_reg64 size destination offset
        base
      ≡ generate_imul_reg_mem size destination (mem_base base (i32 offset))
unfolding generate_signed_mul_mem_to_reg8 generate_signed_mul_mem_to_reg16
    generate_signed_mul_mem_to_reg32 generate_signed_mul_mem_to_reg64 generate_imul_reg_mem
signed_mul_mem_to_reg_lem w8 destination offset base h wide = cc
signed_mul_mem_to_reg_lem w16 destination offset base h wide =
    mem_form false w16 (0x0F ∷ 0xAF ∷ []) destination base _ h
signed_mul_mem_to_reg_lem w32 destination offset base h wide =
    mem_form false w32 (0x0F ∷ 0xAF ∷ []) destination base _ h
signed_mul_mem_to_reg_lem w64 destination offset base h wide =
    mem_form false w64 (0x0F ∷ 0xAF ∷ []) destination base _ h
