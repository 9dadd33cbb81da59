-- ===== src/Emitter/Shifts.antt =====
-- CodeGeneration/Emitters/x86_64/operations/shifts.cpp.
use ecpps.Common.{ℕ, ◌%◌, ◌^◌, List, ◌==◌, if◌then◌else◌}
use ecpps.Common.Int.{ℤ}
use ecpps.Opcodes.Operands.{Width, mem_base, ShiftOp}
use ecpps.Emitter.Operands.{
  RegisterIndex, register_number, Operand, register, memory, integer, stack, string_address,
  Outcome, returned, thrown, ShiftInstruction, rcx, unresolved_stack, assertion_failed,
  invalid_shift_source, invalid_shift_destination,
}
use ecpps.Opcodes.Generators.Shifts.{
  generate_shift_reg_imm, generate_shift_reg_cl, generate_shift_mem_imm, generate_shift_mem_cl,
}

-- The count in a register is cl, which the assertion demands.
unfoldable pub asm_shift_register : ShiftOp → Width → RegisterIndex → Operand → Outcome (List ℕ)
asm_shift_register op width target (integer imm) =
    returned (generate_shift_reg_imm op width (register_number target) (imm % 2 ^ 8))
asm_shift_register op width target (register count) =
    if register_number count == register_number rcx
    then returned (generate_shift_reg_cl op width (register_number target))
    else thrown assertion_failed
asm_shift_register op width target (stack offset) = thrown unresolved_stack
asm_shift_register op width target (memory base offset) = thrown invalid_shift_source
asm_shift_register op width target (string_address index offset) = thrown invalid_shift_source

unfoldable pub asm_shift_memory : ShiftOp → Width → RegisterIndex → ℤ → Operand → Outcome (List ℕ)
asm_shift_memory op width base offset (integer imm) =
    returned
      (generate_shift_mem_imm op width (mem_base (register_number base) offset) (imm % 2 ^ 8))
asm_shift_memory op width base offset (register count) =
    if register_number count == register_number rcx
    then returned (generate_shift_mem_cl op width (mem_base (register_number base) offset))
    else thrown assertion_failed
asm_shift_memory op width base offset (stack slot) = thrown unresolved_stack
asm_shift_memory op width base offset (memory other at) = thrown invalid_shift_source
asm_shift_memory op width base offset (string_address index at) = thrown invalid_shift_source

unfoldable pub emit_shift : ShiftOp → ShiftInstruction → Outcome (List ℕ)
emit_shift op instruction = elim instruction.modified_destination [
  | register reg ↦ asm_shift_register op instruction.width reg instruction.source
  | memory base offset ↦ asm_shift_memory op instruction.width base offset instruction.source
  | stack offset ↦ thrown unresolved_stack
  | integer value ↦ thrown invalid_shift_destination
  | string_address index offset ↦ thrown invalid_shift_destination
]

unfoldable pub emit_left_shift : ShiftInstruction → Outcome (List ℕ)
emit_left_shift instruction = emit_shift ShiftOp.shl instruction

unfoldable pub emit_right_shift : ShiftInstruction → Outcome (List ℕ)
emit_right_shift instruction = emit_shift ShiftOp.shr instruction
