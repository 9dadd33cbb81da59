-- ===== src/Emitter/Emits/Addition.antt =====
-- ADD of the emitter writes the instruction asked for.
use ecpps.Common.{ℕ, ◌%◌, ◌^◌, ◌<◌, ◌≡◌, refl, List, ◌==◌, false}
use ecpps.Common.Int.{ℤ, InRange, to_bits}
use ecpps.Opcodes.Operands.{Width, w8, w16, w32, w64, mem_base, AluOp}
use ecpps.Opcodes.Decoder.Instructions.{Insn}
use ecpps.Opcodes.Decoder.Operand.{gpr}
use ecpps.Opcodes.ReadOperand.{address}
use ecpps.Opcodes.Decodes.Alu.{decode-alu}
use ecpps.Opcodes.Generators.Arithmetic.{
  generate_alu_reg_reg, generate_alu_reg_mem, generate_alu_mem_reg,
}
use ecpps.Opcodes.Fixed.AluForms.{add_reg_to_reg_lem, add_reg_to_mem_lem, add_mem_to_reg_lem}
use ecpps.Opcodes.Immediates.{modulus}
use ecpps.Opcodes.Fixed.Immediates.{imm_value}
use ecpps.Opcodes.Fixed.AddImmediates.{decode-add_imm_to_reg, decode-add_imm_to_mem}
use ecpps.Emitter.Operands.{RegisterIndex, register_number, register, memory, integer, size_t}
use ecpps.Emitter.Meaning.{
  Emits, IsGeneral, IsImmediate, imm_of, imm_value-modulo, encodable, imm32_sign_extended-fits,
  mem_base-IsEncodable, i32-size_t,
}
use ecpps.Emitter.Addition.{
  asm_add_register_register, asm_add_memory_register, asm_add_register_memory,
  asm_add_register_integer, asm_add_memory_integer, asm_add_register, asm_add_memory, emit_add,
}

register_register :
    (size : Width) (a b : RegisterIndex)
    → asm_add_register_register size a b
      ≡ generate_alu_reg_reg AluOp.add size (register_number a) (register_number b)
unfolding asm_add_register_register
register_register w8 a b = add_reg_to_reg_lem w8 _ _
register_register w16 a b = add_reg_to_reg_lem w16 _ _
register_register w32 a b = add_reg_to_reg_lem w32 _ _
register_register w64 a b = add_reg_to_reg_lem w64 _ _

memory_register :
    (size : Width) (a b : RegisterIndex) (d : ℤ)
    → IsGeneral b
    → InRange (2 ^ 32) d
    → asm_add_memory_register size b d a
      ≡ generate_alu_reg_mem AluOp.add size (mem_base (register_number b) d) (register_number a)
unfolding asm_add_memory_register
memory_register w8 a b d h fits =
    rw (i32-size_t d fits) at
      (add_reg_to_mem_lem w8 (register_number b) (size_t d) (register_number a) h)
memory_register w16 a b d h fits =
    rw (i32-size_t d fits) at
      (add_reg_to_mem_lem w16 (register_number b) (size_t d) (register_number a) h)
memory_register w32 a b d h fits =
    rw (i32-size_t d fits) at
      (add_reg_to_mem_lem w32 (register_number b) (size_t d) (register_number a) h)
memory_register w64 a b d h fits =
    rw (i32-size_t d fits) at
      (add_reg_to_mem_lem w64 (register_number b) (size_t d) (register_number a) h)

register_memory :
    (size : Width) (a b : RegisterIndex) (d : ℤ)
    → IsGeneral b
    → InRange (2 ^ 32) d
    → asm_add_register_memory size a b d
      ≡ generate_alu_mem_reg AluOp.add size (register_number a) (mem_base (register_number b) d)
unfolding asm_add_register_memory
register_memory w8 a b d h fits =
    rw (i32-size_t d fits) at
      (add_mem_to_reg_lem w8 (register_number a) (size_t d) (register_number b) h)
register_memory w16 a b d h fits =
    rw (i32-size_t d fits) at
      (add_mem_to_reg_lem w16 (register_number a) (size_t d) (register_number b) h)
register_memory w32 a b d h fits =
    rw (i32-size_t d fits) at
      (add_mem_to_reg_lem w32 (register_number a) (size_t d) (register_number b) h)
register_memory w64 a b d h fits =
    rw (i32-size_t d fits) at
      (add_mem_to_reg_lem w64 (register_number a) (size_t d) (register_number b) h)

module _ (a b : RegisterIndex) (d : ℤ) (rest : List ℕ) (a-general : IsGeneral a)
    (b-general : IsGeneral b) (d-fits : InRange (2 ^ 32) d) where
  -- ADD of a register and a register or an address, either way round.
  pub emit_add-plain :
      (size : Width)
      → Emits
          (emit_add record { width = size; modified_destination = register a; source = register b })
          (Insn.alu AluOp.add size (gpr (register_number a)) (gpr (register_number b)))
          rest
        × Emits
            (emit_add
              record { width = size; modified_destination = memory b d; source = register a })
            (Insn.alu AluOp.add size
              (address (mem_base (register_number b) d))
              (gpr (register_number a)))
            rest
        × Emits
            (emit_add
              record { width = size; modified_destination = register a; source = memory b d })
            (Insn.alu AluOp.add size
              (gpr (register_number a))
              (address (mem_base (register_number b) d)))
            rest
  unfolding emit_add asm_add_register asm_add_memory
  emit_add-plain size =
      let v = mem_base-IsEncodable _ d b-general d-fits in
      let (p, _, _) =
        decode-alu AluOp.add size _ _ (mem_base (register_number b) d) rest a-general b-general v in
      let (_, _, r) =
        decode-alu AluOp.add size _ _ (mem_base (register_number b) d) rest a-general b-general v in
      let (_, q, _) =
        decode-alu AluOp.add size _ _ (mem_base (register_number b) d) rest b-general a-general v in
      (
        (_, refl, rw (register_register size a b) p),
        (_, refl, rw (memory_register size a b d b-general d-fits) q),
        (_, refl, rw (register_memory size a b d b-general d-fits) r),
      )

  register_integer :
      (size : Width) (v : ℕ)
      → IsImmediate size v
      → (imm_of size v == 0) ≡ false
      → Emits
          (asm_add_register_integer size a v)
          (Insn.alu_imm AluOp.add size (gpr (register_number a)) (imm_value size (imm_of size v)))
          rest
  unfolding asm_add_register_integer
  register_integer w8 v fits nz =
      (_, refl, decode-add_imm_to_reg (register_number a) (imm_of w8 v) rest a-general w8 nz)
  register_integer w16 v fits nz =
      (_, refl, decode-add_imm_to_reg (register_number a) (imm_of w16 v) rest a-general w16 nz)
  register_integer w32 v fits nz =
      (_, refl, decode-add_imm_to_reg (register_number a) (imm_of w32 v) rest a-general w32 nz)
  register_integer w64 v fits nz = (
    _,
    rw (imm32_sign_extended-fits v fits) refl,
    decode-add_imm_to_reg (register_number a) (imm_of w64 v) rest a-general w64 nz,
  )

  memory_integer :
      (size : Width) (v : ℕ)
      → IsImmediate size v
      → (imm_of size v == 0) ≡ false
      → Emits
          (asm_add_memory_integer size b d v)
          (Insn.alu_imm AluOp.add size
            (address (mem_base (register_number b) d))
            (imm_value size (imm_of size v)))
          rest
  unfolding asm_add_memory_integer
  memory_integer w8 v fits nz = (
    _,
    refl,
    rw (i32-size_t d d-fits) at (
        decode-add_imm_to_mem (register_number b) (size_t d) (imm_of w8 v) rest b-general
          (encodable d b-general d-fits) w8 nz),
  )
  memory_integer w16 v fits nz = (
    _,
    refl,
    rw (i32-size_t d d-fits) at (
        decode-add_imm_to_mem (register_number b) (size_t d) (imm_of w16 v) rest b-general
          (encodable d b-general d-fits) w16 nz),
  )
  memory_integer w32 v fits nz = (
    _,
    refl,
    rw (i32-size_t d d-fits) at (
        decode-add_imm_to_mem (register_number b) (size_t d) (imm_of w32 v) rest b-general
          (encodable d b-general d-fits) w32 nz),
  )
  memory_integer w64 v fits nz = (
    _,
    rw (imm32_sign_extended-fits v fits) refl,
    rw (i32-size_t d d-fits) at (
        decode-add_imm_to_mem (register_number b) (size_t d) (imm_of w64 v) rest b-general
          (encodable d b-general d-fits) w64 nz),
  )

  -- ADD of an immediate that its width has (at 64 bits: one that 32 bits have with a sign), and that is not zero.
  pub emit_add-immediate :
      (size : Width) (v : ℕ)
      → v < 2 ^ 64
      → IsImmediate size v
      → (imm_of size v == 0) ≡ false
      → Emits
          (emit_add record { width = size; modified_destination = register a; source = integer v })
          (Insn.alu_imm AluOp.add size (gpr (register_number a)) (imm_value size (imm_of size v)))
          rest
        × Emits
            (emit_add
              record { width = size; modified_destination = memory b d; source = integer v })
            (Insn.alu_imm AluOp.add size
              (address (mem_base (register_number b) d))
              (imm_value size (imm_of size v)))
            rest
        × (to_bits (modulus size) (imm_value size (imm_of size v)) ≡ v % modulus size)
  unfolding emit_add asm_add_register asm_add_memory
  emit_add-immediate size v v-lt fits nz = (
    register_integer size v fits nz,
    memory_integer size v fits nz,
    imm_value-modulo size v v-lt fits,
  )
