-- ===== src/Emitter/BitwiseAnd.antt =====
-- CodeGeneration/Emitters/x86_64/operations/bitwiseMath.cpp: AND.
use ecpps.Common.{ℕ, List}
use ecpps.Common.Int.{ℤ}
use ecpps.Opcodes.Operands.{Width, mem_base, AluOp}
use ecpps.Emitter.Operands.{
  RegisterIndex, register_number, Operand, register, memory, integer, stack, string_address,
  Outcome, returned, thrown, size_t, i64, BinaryAndInstruction, unresolved_stack,
  invalid_add_source, invalid_or_source,
}
use ecpps.Opcodes.Generators.Arithmetic.{
  generate_alu_reg_reg, generate_alu_reg_mem, generate_alu_mem_reg, generate_alu_imm_reg,
  generate_alu_imm_mem,
}
use ecpps.Opcodes.Fixed.Emit.{i32}

unfoldable pub asm_binary_and_register_register : Width → RegisterIndex → RegisterIndex → List ℕ
asm_binary_and_register_register width target source =
    generate_alu_reg_reg AluOp.and width (register_number target) (register_number source)

unfoldable pub asm_binary_and_memory_register : Width → RegisterIndex → ℤ → RegisterIndex → List ℕ
asm_binary_and_memory_register width relative_to offset source =
    generate_alu_reg_mem AluOp.and width (mem_base (register_number relative_to) offset)
      (register_number source)

unfoldable pub asm_binary_and_register_memory : Width → RegisterIndex → RegisterIndex → ℤ → List ℕ
asm_binary_and_register_memory width target relative_to offset =
    generate_alu_mem_reg AluOp.and width (register_number target)
      (mem_base (register_number relative_to) (i32 (size_t offset)))

unfoldable pub asm_binary_and_register_integer : Width → RegisterIndex → ℕ → Outcome (List ℕ)
asm_binary_and_register_integer width target source =
    returned (generate_alu_imm_reg AluOp.and width (register_number target) (i64 source))

unfoldable pub asm_binary_and_memory_integer : Width → RegisterIndex → ℤ → ℕ → Outcome (List ℕ)
asm_binary_and_memory_integer width relative_to offset source = returned (
    generate_alu_imm_mem AluOp.and width (mem_base (register_number relative_to) offset)
      (i64 source))

unfoldable pub asm_binary_and_register : Width → RegisterIndex → Operand → Outcome (List ℕ)
asm_binary_and_register width target (register reg) =
    returned (asm_binary_and_register_register width target reg)
asm_binary_and_register width target (integer value) =
    asm_binary_and_register_integer width target value
asm_binary_and_register width target (memory base offset) =
    returned (asm_binary_and_register_memory width target base offset)
asm_binary_and_register width target (stack offset) = thrown unresolved_stack
asm_binary_and_register width target (string_address index offset) = thrown invalid_add_source

unfoldable pub asm_binary_and_memory : Width → RegisterIndex → ℤ → Operand → Outcome (List ℕ)
asm_binary_and_memory width base offset (register reg) =
    returned (asm_binary_and_memory_register width base offset reg)
asm_binary_and_memory width base offset (integer value) =
    asm_binary_and_memory_integer width base offset value
asm_binary_and_memory width base offset (stack slot) = thrown unresolved_stack
asm_binary_and_memory width base offset (memory other at) = thrown invalid_or_source
asm_binary_and_memory width base offset (string_address index at) = thrown invalid_or_source

unfoldable pub emit_binary_and : BinaryAndInstruction → Outcome (List ℕ)
emit_binary_and instruction = elim instruction.modified_destination [
  | register reg ↦ asm_binary_and_register instruction.width reg instruction.source
  | memory base offset ↦ asm_binary_and_memory instruction.width base offset instruction.source
  | stack offset ↦ thrown unresolved_stack
  | integer value ↦ thrown invalid_add_source
  | string_address index offset ↦ thrown invalid_add_source
]
