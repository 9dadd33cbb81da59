-- ===== src/Emitter/SignExtend.antt =====
-- CodeGeneration/Emitters/x86_64/operations/movsx.cpp.
use ecpps.Common.{ℕ, zero, suc, ◌%◌, ◌^◌, List}
use ecpps.Common.Int.{ℤ}
use ecpps.Opcodes.Operands.{Width, w8, w16, w32, w64, mem_base, ExtendKind}
use ecpps.Emitter.Operands.{
  RegisterIndex, register_number, Operand, register, memory, integer, stack, string_address,
  Outcome, returned, thrown, size_t, MovExtendInstruction, unfinished, unresolved_stack,
  invalid_movsx_source,
}
use ecpps.Opcodes.Generators.Moves.{generate_mov_extend_reg_to_reg, generate_mov_extend_mem_to_reg}
use ecpps.Opcodes.Fixed.Emit.{i32}
use ecpps.Opcodes.Fixed.Moves.{
  generate_mov_imm_to_reg8, generate_mov_imm_to_reg16, generate_mov_imm_to_reg32,
  generate_mov_imm_to_reg64, generate_mov_imm_to_mem8, generate_mov_imm_to_mem16,
  generate_mov_imm_to_mem32, generate_mov_imm_to_mem64,
}

unfoldable pub asm_movsx_register_register : Width → Width → RegisterIndex → RegisterIndex → List ℕ
asm_movsx_register_register target_width source_width target source =
    generate_mov_extend_reg_to_reg ExtendKind.sign target_width source_width
      (register_number target) (register_number source)

-- The source passes the offset for the base of MemBase, and the register for the displacement.
unfoldable pub asm_movsx_register_memory :
    Width → Width → RegisterIndex → RegisterIndex → ℤ → List ℕ
asm_movsx_register_memory target_width source_width target base offset =
    generate_mov_extend_mem_to_reg ExtendKind.sign target_width source_width
      (register_number target) (mem_base (size_t offset) (i32 (register_number base)))

unfoldable pub asm_movsx_register_integer : Width → RegisterIndex → ℕ → Outcome (List ℕ)
asm_movsx_register_integer w8 target source =
    returned (generate_mov_imm_to_reg8 (register_number target) (source % 2 ^ 8))
asm_movsx_register_integer w16 target source =
    returned (generate_mov_imm_to_reg16 (register_number target) (source % 2 ^ 16))
asm_movsx_register_integer w32 target source =
    returned (generate_mov_imm_to_reg32 (register_number target) (source % 2 ^ 32))
asm_movsx_register_integer w64 target source =
    returned (generate_mov_imm_to_reg64 (register_number target) source)

unfoldable pub asm_movsx_memory_integer : Width → RegisterIndex → ℤ → ℕ → Outcome (List ℕ)
asm_movsx_memory_integer w8 base offset source =
    returned (generate_mov_imm_to_mem8 (register_number base) (size_t offset) (source % 2 ^ 8))
asm_movsx_memory_integer w16 base offset source =
    returned (generate_mov_imm_to_mem16 (register_number base) (size_t offset) (source % 2 ^ 16))
asm_movsx_memory_integer w32 base offset source =
    returned (generate_mov_imm_to_mem32 (register_number base) (size_t offset) (source % 2 ^ 32))
asm_movsx_memory_integer w64 base offset source =
    returned (generate_mov_imm_to_mem64 (register_number base) (size_t offset) source)

unfoldable pub asm_movsx_register : Width → Width → RegisterIndex → Operand → Outcome (List ℕ)
asm_movsx_register target_width source_width target (register reg) =
    returned (asm_movsx_register_register target_width source_width target reg)
asm_movsx_register target_width source_width target (integer value) =
    asm_movsx_register_integer target_width target value
asm_movsx_register target_width source_width target (memory base offset) =
    returned (asm_movsx_register_memory target_width source_width target base offset)
asm_movsx_register target_width source_width target (stack offset) = thrown unresolved_stack
asm_movsx_register target_width source_width target (string_address index offset) =
    thrown invalid_movsx_source

-- Of the overloads only this one takes a memory target and a register, which becomes an Operand
-- again: the function calls itself, here as long as the fuel lasts.
unfoldable pub asm_movsx_memory : ℕ → Width → Width → RegisterIndex → ℤ → Operand → Outcome (List ℕ)
asm_movsx_memory zero target_width source_width base offset source = unfinished
asm_movsx_memory (suc fuel) target_width source_width base offset (register reg) =
    asm_movsx_memory fuel target_width source_width base offset (register reg)
asm_movsx_memory (suc fuel) target_width source_width base offset (integer value) =
    asm_movsx_memory_integer target_width base offset value
asm_movsx_memory (suc fuel) target_width source_width base offset (stack slot) =
    thrown unresolved_stack
asm_movsx_memory (suc fuel) target_width source_width base offset (memory other at) =
    thrown invalid_movsx_source
asm_movsx_memory (suc fuel) target_width source_width base offset (string_address index at) =
    thrown invalid_movsx_source

unfoldable pub emit_movsx : ℕ → MovExtendInstruction → Outcome (List ℕ)
emit_movsx fuel instruction = elim instruction.destination [
  | register reg ↦
      asm_movsx_register instruction.destination_width instruction.source_width reg
        instruction.source
  | memory base offset ↦
      asm_movsx_memory fuel instruction.destination_width instruction.source_width base offset
        instruction.source
  | stack offset ↦ thrown unresolved_stack
  | integer value ↦ thrown invalid_movsx_source
  | string_address index offset ↦ thrown invalid_movsx_source
]
