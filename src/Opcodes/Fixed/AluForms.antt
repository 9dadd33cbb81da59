-- ===== src/Opcodes/Fixed/AluForms.antt =====
-- The generators of one width, taken together by width, are the generators that take a width:
-- addition, subtraction and exclusive or on registers and memory.
use ecpps.Common.{ℕ, ◌<◌, ◌≡◌, true, [], ◌∷◌}
use ecpps.Opcodes.Operands.{Width, w8, w16, w32, w64, by_width, mem_base, AluOp}
use ecpps.Opcodes.Generators.Arithmetic.{
  generate_alu_reg_reg, generate_alu_reg_mem, generate_alu_mem_reg,
}
use ecpps.Opcodes.Fixed.Emit.{i32}
use ecpps.Opcodes.Fixed.Forms.{reg_form, mem_form}
use ecpps.Opcodes.Fixed.Additions.{
  generate_add_reg_to_reg8, generate_add_reg_to_reg16, generate_add_reg_to_reg32,
  generate_add_reg_to_reg64, generate_add_reg_to_mem8, generate_add_reg_to_mem16,
  generate_add_reg_to_mem32, generate_add_reg_to_mem64, generate_add_mem_to_reg8,
  generate_add_mem_to_reg16, generate_add_mem_to_reg32, generate_add_mem_to_reg64,
}
use ecpps.Opcodes.Fixed.Subtractions.{
  generate_sub_reg_to_reg8, generate_sub_reg_to_reg16, generate_sub_reg_to_reg32,
  generate_sub_reg_to_reg64, generate_sub_reg_to_mem8, generate_sub_reg_to_mem16,
  generate_sub_reg_to_mem32, generate_sub_reg_to_mem64, generate_sub_mem_to_reg8,
  generate_sub_mem_to_reg16, generate_sub_mem_to_reg32, generate_sub_mem_to_reg64,
}
use ecpps.Opcodes.Fixed.Divisions.{
  generate_xor_reg8, generate_xor_reg16, generate_xor_reg32, generate_xor_reg64,
}

pub add_reg_to_reg_lem :
    (size : Width) (destination source : ℕ)
    → by_width generate_add_reg_to_reg8 generate_add_reg_to_reg16 generate_add_reg_to_reg32
        generate_add_reg_to_reg64 size destination source
      ≡ generate_alu_reg_reg AluOp.add size destination source
unfolding generate_add_reg_to_reg8 generate_add_reg_to_reg16 generate_add_reg_to_reg32
    generate_add_reg_to_reg64 generate_alu_reg_reg
add_reg_to_reg_lem w8 destination source = reg_form true w8 (0x0 ∷ []) source destination true
add_reg_to_reg_lem w16 destination source = reg_form true w16 (0x1 ∷ []) source destination true
add_reg_to_reg_lem w32 destination source = reg_form true w32 (0x1 ∷ []) source destination true
add_reg_to_reg_lem w64 destination source = reg_form true w64 (0x1 ∷ []) source destination true

pub add_reg_to_mem_lem :
    (size : Width) (base offset source : ℕ)
    → base < 16
    → by_width generate_add_reg_to_mem8 generate_add_reg_to_mem16 generate_add_reg_to_mem32
        generate_add_reg_to_mem64 size base offset source
      ≡ generate_alu_reg_mem AluOp.add size (mem_base base (i32 offset)) source
unfolding generate_add_reg_to_mem8 generate_add_reg_to_mem16 generate_add_reg_to_mem32
    generate_add_reg_to_mem64 generate_alu_reg_mem
add_reg_to_mem_lem w8 base offset source h = mem_form true w8 (0x0 ∷ []) source base _ h
add_reg_to_mem_lem w16 base offset source h = mem_form true w16 (0x1 ∷ []) source base _ h
add_reg_to_mem_lem w32 base offset source h = mem_form true w32 (0x1 ∷ []) source base _ h
add_reg_to_mem_lem w64 base offset source h = mem_form true w64 (0x1 ∷ []) source base _ h

pub add_mem_to_reg_lem :
    (size : Width) (destination offset base : ℕ)
    → base < 16
    → by_width generate_add_mem_to_reg8 generate_add_mem_to_reg16 generate_add_mem_to_reg32
        generate_add_mem_to_reg64 size destination offset base
      ≡ generate_alu_mem_reg AluOp.add size destination (mem_base base (i32 offset))
unfolding generate_add_mem_to_reg8 generate_add_mem_to_reg16 generate_add_mem_to_reg32
    generate_add_mem_to_reg64 generate_alu_mem_reg
add_mem_to_reg_lem w8 destination offset base h = mem_form true w8 (0x2 ∷ []) destination base _ h
add_mem_to_reg_lem w16 destination offset base h = mem_form true w16 (0x3 ∷ []) destination base _ h
add_mem_to_reg_lem w32 destination offset base h = mem_form true w32 (0x3 ∷ []) destination base _ h
add_mem_to_reg_lem w64 destination offset base h = mem_form true w64 (0x3 ∷ []) destination base _ h

pub sub_reg_to_reg_lem :
    (size : Width) (destination source : ℕ)
    → by_width generate_sub_reg_to_reg8 generate_sub_reg_to_reg16 generate_sub_reg_to_reg32
        generate_sub_reg_to_reg64 size destination source
      ≡ generate_alu_reg_reg AluOp.sub size destination source
unfolding generate_sub_reg_to_reg8 generate_sub_reg_to_reg16 generate_sub_reg_to_reg32
    generate_sub_reg_to_reg64 generate_alu_reg_reg
sub_reg_to_reg_lem w8 destination source = reg_form true w8 (0x28 ∷ []) source destination true
sub_reg_to_reg_lem w16 destination source = reg_form true w16 (0x29 ∷ []) source destination true
sub_reg_to_reg_lem w32 destination source = reg_form true w32 (0x29 ∷ []) source destination true
sub_reg_to_reg_lem w64 destination source = reg_form true w64 (0x29 ∷ []) source destination true

pub sub_reg_to_mem_lem :
    (size : Width) (base offset source : ℕ)
    → base < 16
    → by_width generate_sub_reg_to_mem8 generate_sub_reg_to_mem16 generate_sub_reg_to_mem32
        generate_sub_reg_to_mem64 size base offset source
      ≡ generate_alu_reg_mem AluOp.sub size (mem_base base (i32 offset)) source
unfolding generate_sub_reg_to_mem8 generate_sub_reg_to_mem16 generate_sub_reg_to_mem32
    generate_sub_reg_to_mem64 generate_alu_reg_mem
sub_reg_to_mem_lem w8 base offset source h = mem_form true w8 (0x28 ∷ []) source base _ h
sub_reg_to_mem_lem w16 base offset source h = mem_form true w16 (0x29 ∷ []) source base _ h
sub_reg_to_mem_lem w32 base offset source h = mem_form true w32 (0x29 ∷ []) source base _ h
sub_reg_to_mem_lem w64 base offset source h = mem_form true w64 (0x29 ∷ []) source base _ h

pub sub_mem_to_reg_lem :
    (size : Width) (destination offset base : ℕ)
    → base < 16
    → by_width generate_sub_mem_to_reg8 generate_sub_mem_to_reg16 generate_sub_mem_to_reg32
        generate_sub_mem_to_reg64 size destination offset base
      ≡ generate_alu_mem_reg AluOp.sub size destination (mem_base base (i32 offset))
unfolding generate_sub_mem_to_reg8 generate_sub_mem_to_reg16 generate_sub_mem_to_reg32
    generate_sub_mem_to_reg64 generate_alu_mem_reg
sub_mem_to_reg_lem w8 destination offset base h = mem_form true w8 (0x2a ∷ []) destination base _ h
sub_mem_to_reg_lem w16 destination offset base h =
    mem_form true w16 (0x2b ∷ []) destination base _ h
sub_mem_to_reg_lem w32 destination offset base h =
    mem_form true w32 (0x2b ∷ []) destination base _ h
sub_mem_to_reg_lem w64 destination offset base h =
    mem_form true w64 (0x2b ∷ []) destination base _ h

pub xor_reg_lem :
    (size : Width) (destination source : ℕ)
    → by_width generate_xor_reg8 generate_xor_reg16 generate_xor_reg32 generate_xor_reg64 size
        destination source
      ≡ generate_alu_reg_reg AluOp.xor size destination source
unfolding generate_xor_reg8 generate_xor_reg16 generate_xor_reg32 generate_xor_reg64
    generate_alu_reg_reg
xor_reg_lem w8 destination source = reg_form true w8 (0x30 ∷ []) source destination true
xor_reg_lem w16 destination source = reg_form true w16 (0x31 ∷ []) source destination true
xor_reg_lem w32 destination source = reg_form true w32 (0x31 ∷ []) source destination true
xor_reg_lem w64 destination source = reg_form true w64 (0x31 ∷ []) source destination true
