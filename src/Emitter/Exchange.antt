-- ===== src/Emitter/Exchange.antt =====
-- CodeGeneration/Emitters/x86_64/operations/: xchg.cpp, cmp.cpp and stack.cpp.
use ecpps.Common.{ℕ, List, Bool, true, false, not, ◌&&◌, leb, if◌then◌else◌}
use ecpps.Common.Int.{ℤ, pos}
use ecpps.Opcodes.Operands.{Width, mem_base, AluOp}
use ecpps.Emitter.Operands.{
  RegisterIndex, register_number, Operand, register, memory, integer, stack, string_address,
  Outcome, returned, thrown, XchgInstruction, CmpInstruction, PushInstruction, PopInstruction,
  unresolved_stack, invalid_xchg_source, invalid_xchg_destination, xchg_memory_memory,
  cmp_immediate_left, cmp_memory_memory, cmp_unsupported, assertion_failed,
}
use ecpps.Opcodes.Generators.Arithmetic.{
  generate_alu_reg_reg, generate_alu_reg_mem, generate_alu_mem_reg, generate_alu_imm_reg,
  generate_alu_imm_mem,
}
use ecpps.Opcodes.Generators.Moves.{generate_xchg_reg_reg, generate_xchg_mem_reg}
use ecpps.Opcodes.Fixed.Control.{generate_push_reg64, generate_pop_reg64}

unfoldable pub emit_xchg_register : Width → RegisterIndex → Operand → Outcome (List ℕ)
emit_xchg_register width destination (register other) =
    returned (generate_xchg_reg_reg width (register_number destination) (register_number other))
emit_xchg_register width destination (memory base offset) = returned (
    generate_xchg_mem_reg width (mem_base (register_number base) offset)
      (register_number destination))
emit_xchg_register width destination (stack offset) = thrown unresolved_stack
emit_xchg_register width destination (integer value) = thrown invalid_xchg_source
emit_xchg_register width destination (string_address index offset) = thrown invalid_xchg_source

unfoldable pub emit_xchg_memory : Width → RegisterIndex → ℤ → Operand → Outcome (List ℕ)
emit_xchg_memory width base offset (register other) =
    returned
      (generate_xchg_mem_reg width (mem_base (register_number base) offset) (register_number other))
emit_xchg_memory width base offset (stack slot) = thrown unresolved_stack
emit_xchg_memory width base offset (memory other at) = thrown xchg_memory_memory
emit_xchg_memory width base offset (integer value) = thrown xchg_memory_memory
emit_xchg_memory width base offset (string_address index at) = thrown xchg_memory_memory

unfoldable pub emit_xchg : XchgInstruction → Outcome (List ℕ)
emit_xchg instruction = elim instruction.modified_destination [
  | register reg ↦ emit_xchg_register instruction.width reg instruction.modified_source
  | memory base offset ↦ emit_xchg_memory instruction.width base offset instruction.modified_source
  | stack offset ↦ thrown unresolved_stack
  | integer value ↦ thrown invalid_xchg_destination
  | string_address index offset ↦ thrown invalid_xchg_destination
]

-- The three branches of EmitCmp, by the right operand.
unfoldable pub cmp_immediate : Width → Operand → ℕ → Outcome (List ℕ)
cmp_immediate width left value =
    if not (leb value 0x7FFFFFFF) then thrown assertion_failed else elim left [
      | register reg ↦
          returned (generate_alu_imm_reg AluOp.cmp width (register_number reg) (pos value))
      | memory base offset ↦ returned (
          generate_alu_imm_mem AluOp.cmp width (mem_base (register_number base) offset) (pos value))
      | integer other ↦ thrown cmp_immediate_left
      | stack slot ↦ thrown assertion_failed
      | string_address index at ↦ thrown assertion_failed
    ]

unfoldable pub cmp_register : Width → Operand → RegisterIndex → Outcome (List ℕ)
cmp_register width (register reg) right =
    returned (generate_alu_reg_reg AluOp.cmp width (register_number reg) (register_number right))
cmp_register width (memory base offset) right = returned (
    generate_alu_reg_mem AluOp.cmp width (mem_base (register_number base) offset)
      (register_number right))
cmp_register width (integer value) right = thrown cmp_immediate_left
cmp_register width (stack slot) right = thrown assertion_failed
cmp_register width (string_address index at) right = thrown assertion_failed

unfoldable pub cmp_memory : Width → Operand → RegisterIndex → ℤ → Outcome (List ℕ)
cmp_memory width (register reg) base offset = returned (
    generate_alu_mem_reg AluOp.cmp width (register_number reg)
      (mem_base (register_number base) offset))
cmp_memory width (memory other at) base offset = thrown cmp_memory_memory
cmp_memory width (integer value) base offset = thrown cmp_memory_memory
cmp_memory width (stack slot) base offset = thrown assertion_failed
cmp_memory width (string_address index at) base offset = thrown assertion_failed

-- The first two assertions reject a slot and a string on either side before anything else.
abbrev is_comparable : Operand → Bool
is_comparable (stack slot) = false
is_comparable (string_address index offset) = false
is_comparable _ = true

unfoldable pub emit_cmp : CmpInstruction → Outcome (List ℕ)
emit_cmp instruction =
    if not (is_comparable instruction.left && is_comparable instruction.right)
    then thrown assertion_failed
    else elim instruction.right [
      | integer value ↦ cmp_immediate instruction.width instruction.left value
      | register right ↦ cmp_register instruction.width instruction.left right
      | memory base offset ↦ cmp_memory instruction.width instruction.left base offset
      | stack slot ↦ thrown cmp_unsupported
      | string_address index at ↦ thrown cmp_unsupported
    ]

unfoldable pub emit_push : PushInstruction → Outcome (List ℕ)
emit_push instruction = returned (generate_push_reg64 (register_number instruction.reg))

unfoldable pub emit_pop : PopInstruction → Outcome (List ℕ)
emit_pop instruction = returned (generate_pop_reg64 (register_number instruction.reg))
