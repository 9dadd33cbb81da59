-- ===== src/Emitter/Emits/CopyForms.antt =====
-- MOV of the emitter between registers and memory, and the casts of its immediates.
use ecpps.Common.{ℕ, ◌%◌, ◌^◌, ◌<◌, ◌≡◌, refl, List, [], ◌∷◌, arith, ltb, false, if◌then◌else◌}
use ecpps.Common.Int.{ℤ, InRange, to_bits}
use ecpps.Opcodes.Operands.{Width, w8, w16, w32, w64, mem_base}
use ecpps.Opcodes.Emit.{is_byte, emit_reg}
use ecpps.Opcodes.Immediates.{modulus}
use ecpps.Opcodes.Generators.Moves.{generate_mov_store, generate_mov_load}
use ecpps.Opcodes.Fixed.MoveForms.{mov_reg_to_reg_lem, mov_reg_to_mem_lem, mov_mem_to_reg_lem}
use ecpps.Opcodes.Fixed.Immediates.{imm_value}
use ecpps.Opcodes.Fixed.MoveImmediates.{full_value}
use ecpps.Emitter.Operands.{RegisterIndex, register_number, Operand, Outcome, size_t}
use ecpps.Emitter.Meaning.{IsGeneral, i32-u32-size_t}
use ecpps.Emitter.Copy.{
  asm_copy_register_register, asm_copy_memory_register, asm_copy_register_memory, emit_mov,
}

pub cast_twice8 : (v : ℕ) → imm_value w8 (v % 2 ^ 8) ≡ full_value w8 v
cast_twice8 v = let same : v % 2 ^ 8 % 2 ^ 8 ≡ v % 2 ^ 8 = omega arith in rw same refl

pub cast_twice16 : (v : ℕ) → imm_value w16 (v % 2 ^ 16) ≡ full_value w16 v
cast_twice16 v = let same : v % 2 ^ 16 % 2 ^ 16 ≡ v % 2 ^ 16 = omega arith in rw same refl

pub cast_twice32 : (v : ℕ) → imm_value w32 (v % 2 ^ 32) ≡ full_value w32 v
cast_twice32 v = let same : v % 2 ^ 32 % 2 ^ 32 ≡ v % 2 ^ 32 = omega arith in rw same refl

pub low8 : (v : ℕ) → ltb 0xFFFFFFFF (v % 2 ^ 8) ≡ false
low8 v = ground arith

pub low16 : (v : ℕ) → ltb 0xFFFFFFFF (v % 2 ^ 16) ≡ false
low16 v = ground arith

pub low32 : (v : ℕ) → ltb 0xFFFFFFFF (v % 2 ^ 32) ≡ false
low32 v = ground arith

pub small : (v : ℕ) → v < 2 ^ 31 → ltb 0xFFFFFFFF v ≡ false
small v h = ground arith

pub small_full : (v : ℕ) → v < 2 ^ 31 → imm_value w64 v ≡ full_value w64 v
small_full v h = ground arith

pub full_value-modulo :
    (size : Width) (v : ℕ) → to_bits (modulus size) (full_value size v) ≡ v % modulus size
full_value-modulo w8 v = ground arith
full_value-modulo w16 v = ground arith
full_value-modulo w32 v = ground arith
full_value-modulo w64 v = ground arith

pub register_register :
    (size : Width) (a b : RegisterIndex)
    → asm_copy_register_register size a b
      ≡ emit_reg size
          ((if is_byte size then 0x88 else 0x89) ∷ [])
          (register_number b)
          (register_number a)
          (is_byte size)
          (is_byte size)
unfolding asm_copy_register_register
register_register w8 a b = mov_reg_to_reg_lem w8 _ _
register_register w16 a b = mov_reg_to_reg_lem w16 _ _
register_register w32 a b = mov_reg_to_reg_lem w32 _ _
register_register w64 a b = mov_reg_to_reg_lem w64 _ _

pub memory_register :
    (size : Width) (a b : RegisterIndex) (d : ℤ)
    → IsGeneral b
    → InRange (2 ^ 32) d
    → asm_copy_memory_register size b d a
      ≡ generate_mov_store size (mem_base (register_number b) d) (register_number a)
unfolding asm_copy_memory_register
memory_register w8 a b d h fits =
    rw (i32-u32-size_t d fits) at
      (mov_reg_to_mem_lem w8 (register_number b) (size_t d) (register_number a) h)
memory_register w16 a b d h fits =
    rw (i32-u32-size_t d fits) at
      (mov_reg_to_mem_lem w16 (register_number b) (size_t d) (register_number a) h)
memory_register w32 a b d h fits =
    rw (i32-u32-size_t d fits) at
      (mov_reg_to_mem_lem w32 (register_number b) (size_t d) (register_number a) h)
memory_register w64 a b d h fits =
    rw (i32-u32-size_t d fits) at
      (mov_reg_to_mem_lem w64 (register_number b) (size_t d) (register_number a) h)

pub register_memory :
    (size : Width) (a b : RegisterIndex) (d : ℤ)
    → IsGeneral b
    → InRange (2 ^ 32) d
    → asm_copy_register_memory size a b d
      ≡ generate_mov_load size (register_number a) (mem_base (register_number b) d)
unfolding asm_copy_register_memory
register_memory w8 a b d h fits =
    rw (i32-u32-size_t d fits) at
      (mov_mem_to_reg_lem w8 (register_number a) (size_t d) (register_number b) h)
register_memory w16 a b d h fits =
    rw (i32-u32-size_t d fits) at
      (mov_mem_to_reg_lem w16 (register_number a) (size_t d) (register_number b) h)
register_memory w32 a b d h fits =
    rw (i32-u32-size_t d fits) at
      (mov_mem_to_reg_lem w32 (register_number a) (size_t d) (register_number b) h)
register_memory w64 a b d h fits =
    rw (i32-u32-size_t d fits) at
      (mov_mem_to_reg_lem w64 (register_number a) (size_t d) (register_number b) h)

abbrev pub move_of : Width → Operand → Operand → Outcome (List ℕ)
move_of size target operand =
    emit_mov record { width = size; destination = target; source = operand }
