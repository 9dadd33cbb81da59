-- ===== src/Emitter/Tests.antt =====
-- The emitter and the generators of one width on concrete instructions.
use ecpps.Common.{ℕ, ◌≡◌, refl, List, [], ◌∷◌, arith, true}
use ecpps.Common.Int.{pos, negsuc}
use ecpps.Opcodes.Operands.{w8, w32, w64, AluOp, ShiftOp, ExtendKind, mem_base}
use ecpps.Opcodes.Emit.{imm_fits}
use ecpps.Opcodes.Decoder.Operand.{gpr}
use ecpps.Opcodes.ReadOperand.{address}
use ecpps.Opcodes.Decodes.Extend.{extension_insn}
use ecpps.Opcodes.Fixed.Equivalence.{
  AgreesOnTwo, AgreesOnOne, generate_add-AgreesOnTwo, generate_neg-AgreesOnOne,
}
use ecpps.Emitter.Operands.{RegisterIndex, register, memory}
use ecpps.Emitter.Meaning.{Emits, EmitsAlu}
use ecpps.Opcodes.Decoder.Instructions.{Insn}
use ecpps.Emitter.Operands.{ConditionCode}
use ecpps.Emitter.Routine.{JumpState, emit_jmp, emit_jcc}
use ecpps.Opcodes.Operands.{Width, Condition}
use ecpps.Opcodes.Immediates.{modulus}
use ecpps.Emitter.Conditions.{holds, flags_of_cmp, compares}
use ecpps.Common.{Bool, ◌^◌, ◌<◌}
use ecpps.Emitter.Jumps.{JumpReaches, emit_jmp-JumpReaches}
use ecpps.Emitter.Emits.Copy.{EmitsMove, emit_mov-EmitsMove}
use ecpps.Emitter.Emits.Arithmetic.{addition, subtraction, emit_add-EmitsAlu}
use ecpps.Emitter.Emits.Bitwise.{emit_or, emit_and, emit_xor, emit_bitwise-EmitsAlu}
use ecpps.Emitter.Emits.Operations.{EmitsShift, left_shift, right_shift, emit_shift-EmitsShift}
use ecpps.Emitter.Emits.Extend.{zero_extend, sign_extend, emit_movzx-extension}

abbrev tail : List ℕ
tail = 0xC3 ∷ []

generate_add-AgreesOnTwo_example : AgreesOnTwo w8 6 12 300
generate_add-AgreesOnTwo_example = generate_add-AgreesOnTwo w8 6 12 300 (omega arith)

generate_neg-AgreesOnOne_example : AgreesOnOne w8 5 13 300 7 (negsuc 7)
generate_neg-AgreesOnOne_example = generate_neg-AgreesOnOne w8 5 13 300 7 (negsuc 7) (omega arith)

emit_mov-EmitsMove_example :
    EmitsMove RegisterIndex.rsp RegisterIndex.r12 (negsuc 7) tail w64 (2 ^ 40) 300
emit_mov-EmitsMove_example =
    emit_mov-EmitsMove RegisterIndex.rsp RegisterIndex.r12 (negsuc 7) tail (omega arith)
      (omega arith) (omega arith) w64 (2 ^ 40) 300 (omega arith) (λ _. omega arith)

emit_add-EmitsAlu_example :
    EmitsAlu AluOp.add addition RegisterIndex.rax RegisterIndex.r13 (pos 0) tail w64 300
    × EmitsAlu AluOp.sub subtraction RegisterIndex.rax RegisterIndex.r13 (pos 0) tail w64 0
emit_add-EmitsAlu_example =
    emit_add-EmitsAlu RegisterIndex.rax RegisterIndex.r13 (pos 0) tail w64 300 0 (omega arith)
      (omega arith) (omega arith) (omega arith) (omega arith) (omega arith) (omega arith) refl

two_hundred_fits : imm_fits w8 (pos 200) ≡ true
two_hundred_fits = unfold imm_fits in refl

emit_bitwise-EmitsAlu_example :
    EmitsAlu AluOp.or emit_or RegisterIndex.rsi RegisterIndex.rbp (negsuc 300) tail w8 200
    × EmitsAlu AluOp.and emit_and RegisterIndex.rsi RegisterIndex.rbp (negsuc 300) tail w8 200
    × EmitsAlu AluOp.xor emit_xor RegisterIndex.rsi RegisterIndex.rbp (negsuc 300) tail w8 200
emit_bitwise-EmitsAlu_example =
    emit_bitwise-EmitsAlu RegisterIndex.rsi RegisterIndex.rbp (negsuc 300) tail w8 200 (omega arith)
      (omega arith) (omega arith) two_hundred_fits

emit_shift-EmitsShift_example :
    EmitsShift ShiftOp.shl left_shift RegisterIndex.rdi RegisterIndex.r9 (pos 40) tail w32 5
    × EmitsShift ShiftOp.shr right_shift RegisterIndex.rdi RegisterIndex.r9 (pos 40) tail w32 5
emit_shift-EmitsShift_example =
    emit_shift-EmitsShift RegisterIndex.rdi RegisterIndex.r9 (pos 40) tail w32 5 (omega arith)
      (omega arith) (omega arith)

emit_movzx-extension_example :
    Emits
      (zero_extend 1 w64 w8 (register RegisterIndex.rax) (register RegisterIndex.rsi))
      (extension_insn ExtendKind.zero w64 w8 (gpr 0) (gpr 6))
      tail
    × Emits
        (sign_extend 1 w64 w8 (register RegisterIndex.rax) (register RegisterIndex.rsi))
        (extension_insn ExtendKind.sign w64 w8 (gpr 0) (gpr 6))
        tail
    × Emits
        (zero_extend 1 w64 w8 (register RegisterIndex.rax) (memory RegisterIndex.rsi (pos 8)))
        (extension_insn ExtendKind.zero w64 w8 (gpr 0) (address (mem_base 8 (pos 6))))
        tail
    × Emits
        (sign_extend 1 w64 w8 (register RegisterIndex.rax) (memory RegisterIndex.rsi (pos 8)))
        (extension_insn ExtendKind.sign w64 w8 (gpr 0) (address (mem_base 8 (pos 6))))
        tail
emit_movzx-extension_example =
    emit_movzx-extension RegisterIndex.rax RegisterIndex.rsi tail (omega arith) (omega arith) 1 w64
      w8 refl 8 (omega arith)

abbrev no_operations : List ℕ
no_operations = 0x90 ∷ 0x90 ∷ []

abbrev start : JumpState
start = record { current_instruction_base = 2; jump_patches = []; label_offsets = [] }

abbrev labels : List (ℕ × ℕ)
labels = (0, 2) ∷ (1, 20) ∷ []

emit_jmp-JumpReaches_example :
    JumpReaches
      (emit_jmp start record { label_id = 1 })
      start
      labels
      1
      20
      no_operations
      tail
      Insn.jump
      5
    × ((c : Condition) × JumpReaches
          (emit_jcc start record { condition = ConditionCode.less; label_id = 1 })
          start
          labels
          1
          20
          no_operations
          tail
          (Insn.jump_if c)
          6
        × ((size : Width) (parity : Bool) (x y : ℕ)
            → x < modulus size
            → y < modulus size
            → holds c (flags_of_cmp (modulus size) parity x y)
              ≡ compares ConditionCode.less (modulus size) x y))
emit_jmp-JumpReaches_example =
    emit_jmp-JumpReaches start labels 1 20 no_operations tail refl refl ConditionCode.less
      (omega arith) (omega arith)
