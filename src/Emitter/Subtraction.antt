-- ===== src/Emitter/Subtraction.antt =====
-- CodeGeneration/Emitters/x86_64/operations/arithmetics.cpp: SUB.
use ecpps.Common.{ℕ, ◌%◌, ◌^◌, List}
use ecpps.Common.Int.{ℤ}
use ecpps.Opcodes.Operands.{Width, w8, w16, w32, w64}
use ecpps.Emitter.Operands.{
  RegisterIndex, register_number, Operand, register, memory, integer, stack, string_address,
  Outcome, returned, thrown, and_then, size_t, SubInstruction, unresolved_stack, invalid_sub_source,
  imm32_sign_extended,
}
use ecpps.Opcodes.Fixed.Subtractions.{
  generate_sub_reg_to_reg8, generate_sub_reg_to_reg16, generate_sub_reg_to_reg32,
  generate_sub_reg_to_reg64, generate_sub_reg_to_mem8, generate_sub_reg_to_mem16,
  generate_sub_reg_to_mem32, generate_sub_reg_to_mem64, generate_sub_mem_to_reg8,
  generate_sub_mem_to_reg16, generate_sub_mem_to_reg32, generate_sub_mem_to_reg64,
  generate_sub_imm_to_reg8, generate_sub_imm_to_reg16, generate_sub_imm_to_reg32,
  generate_sub_imm_to_reg64, generate_sub_imm_to_mem8, generate_sub_imm_to_mem16,
  generate_sub_imm_to_mem32, generate_sub_imm_to_mem64,
}

unfoldable pub asm_sub_register_register : Width → RegisterIndex → RegisterIndex → List ℕ
asm_sub_register_register w8 target source =
    generate_sub_reg_to_reg8 (register_number target) (register_number source)
asm_sub_register_register w16 target source =
    generate_sub_reg_to_reg16 (register_number target) (register_number source)
asm_sub_register_register w32 target source =
    generate_sub_reg_to_reg32 (register_number target) (register_number source)
asm_sub_register_register w64 target source =
    generate_sub_reg_to_reg64 (register_number target) (register_number source)

unfoldable pub asm_sub_memory_register : Width → RegisterIndex → ℤ → RegisterIndex → List ℕ
asm_sub_memory_register w8 relative_to offset source =
    generate_sub_reg_to_mem8 (register_number relative_to) (size_t offset) (register_number source)
asm_sub_memory_register w16 relative_to offset source =
    generate_sub_reg_to_mem16 (register_number relative_to) (size_t offset) (register_number source)
asm_sub_memory_register w32 relative_to offset source =
    generate_sub_reg_to_mem32 (register_number relative_to) (size_t offset) (register_number source)
asm_sub_memory_register w64 relative_to offset source =
    generate_sub_reg_to_mem64 (register_number relative_to) (size_t offset) (register_number source)

unfoldable pub asm_sub_register_memory : Width → RegisterIndex → RegisterIndex → ℤ → List ℕ
asm_sub_register_memory w8 target relative_to offset =
    generate_sub_mem_to_reg8 (register_number target) (size_t offset) (register_number relative_to)
asm_sub_register_memory w16 target relative_to offset =
    generate_sub_mem_to_reg16 (register_number target) (size_t offset) (register_number relative_to)
asm_sub_register_memory w32 target relative_to offset =
    generate_sub_mem_to_reg32 (register_number target) (size_t offset) (register_number relative_to)
asm_sub_register_memory w64 target relative_to offset =
    generate_sub_mem_to_reg64 (register_number target) (size_t offset) (register_number relative_to)

unfoldable pub asm_sub_register_integer : Width → RegisterIndex → ℕ → Outcome (List ℕ)
asm_sub_register_integer w8 target source =
    returned (generate_sub_imm_to_reg8 (register_number target) (source % 2 ^ 8))
asm_sub_register_integer w16 target source =
    returned (generate_sub_imm_to_reg16 (register_number target) (source % 2 ^ 16))
asm_sub_register_integer w32 target source =
    returned (generate_sub_imm_to_reg32 (register_number target) (source % 2 ^ 32))
asm_sub_register_integer w64 target source =
    and_then (imm32_sign_extended source)
      (λ imm. returned (generate_sub_imm_to_reg64 (register_number target) imm))

unfoldable pub asm_sub_memory_integer : Width → RegisterIndex → ℤ → ℕ → Outcome (List ℕ)
asm_sub_memory_integer w8 relative_to offset source =
    returned
      (generate_sub_imm_to_mem8 (register_number relative_to) (size_t offset) (source % 2 ^ 8))
asm_sub_memory_integer w16 relative_to offset source =
    returned
      (generate_sub_imm_to_mem16 (register_number relative_to) (size_t offset) (source % 2 ^ 16))
asm_sub_memory_integer w32 relative_to offset source =
    returned
      (generate_sub_imm_to_mem32 (register_number relative_to) (size_t offset) (source % 2 ^ 32))
asm_sub_memory_integer w64 relative_to offset source =
    and_then (imm32_sign_extended source) (λ imm.
      returned (generate_sub_imm_to_mem64 (register_number relative_to) (size_t offset) imm))

unfoldable pub asm_sub_register : Width → RegisterIndex → Operand → Outcome (List ℕ)
asm_sub_register width target (register reg) = returned (asm_sub_register_register width target reg)
asm_sub_register width target (integer value) = asm_sub_register_integer width target value
asm_sub_register width target (memory base offset) =
    returned (asm_sub_register_memory width target base offset)
asm_sub_register width target (stack offset) = thrown unresolved_stack
asm_sub_register width target (string_address index offset) = thrown invalid_sub_source

unfoldable pub asm_sub_memory : Width → RegisterIndex → ℤ → Operand → Outcome (List ℕ)
asm_sub_memory width base offset (register reg) =
    returned (asm_sub_memory_register width base offset reg)
asm_sub_memory width base offset (integer value) = asm_sub_memory_integer width base offset value
asm_sub_memory width base offset (stack slot) = thrown unresolved_stack
asm_sub_memory width base offset (memory other at) = thrown invalid_sub_source
asm_sub_memory width base offset (string_address index at) = thrown invalid_sub_source

unfoldable pub emit_sub : SubInstruction → Outcome (List ℕ)
emit_sub instruction = elim instruction.modified_destination [
  | register reg ↦ asm_sub_register instruction.width reg instruction.source
  | memory base offset ↦ asm_sub_memory instruction.width base offset instruction.source
  | stack offset ↦ thrown unresolved_stack
  | integer value ↦ thrown invalid_sub_source
  | string_address index offset ↦ thrown invalid_sub_source
]
