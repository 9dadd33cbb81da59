-- ===== src/Emitter/Emits/Extend.antt =====
-- MOVZX, MOVSX, PUSH and POP of the emitter: what they write, and where MOVZX and MOVSX go wrong.
use ecpps.Common.{ℕ, zero, suc, ◌<◌, ◌≡◌, refl, List, append_assoc, arith, true, ltb}
use ecpps.Common.Int.{ℤ, pos}
use ecpps.Opcodes.Operands.{Width, w32, width_value, mem_base, ExtendKind}
use ecpps.Opcodes.Emit.{requires_byte_rex}
use ecpps.Opcodes.Decoder.Instructions.{Insn}
use ecpps.Opcodes.Decoder.Operand.{gpr, read_imm}
use ecpps.Opcodes.ReadOperand.{address}
use ecpps.Opcodes.Decodes.Extend.{decode-extend, extension_insn}
use ecpps.Opcodes.Fixed.Emit.{i32}
use ecpps.Opcodes.Fixed.Control.{generate_push_reg64, generate_pop_reg64}
use ecpps.Opcodes.Fixed.OpcodeRegister.{decode-opcode_register, IsRow-50, IsRow-58}
use ecpps.Emitter.Operands.{
  RegisterIndex, register_number, register, memory, unfinished, Operand, Outcome, size_t,
}
use ecpps.Emitter.Meaning.{Emits, IsGeneral, mem_base-IsEncodable}
use ecpps.Emitter.ZeroExtend.{
  asm_movzx_register_register, asm_movzx_register_memory, asm_movzx_register, asm_movzx_memory,
  emit_movzx,
}
use ecpps.Emitter.SignExtend.{
  asm_movsx_register_register, asm_movsx_register_memory, asm_movsx_register, asm_movsx_memory,
  emit_movsx,
}
use ecpps.Emitter.Exchange.{emit_push, emit_pop}

abbrev pub zero_extend : ℕ → Width → Width → Operand → Operand → Outcome (List ℕ)
zero_extend fuel to_width from_width target operand = emit_movzx fuel record {
  destination_width = to_width;
  source_width = from_width;
  destination = target;
  source = operand;
}

abbrev pub sign_extend : ℕ → Width → Width → Operand → Operand → Outcome (List ℕ)
sign_extend fuel to_width from_width target operand = emit_movsx fuel record {
  destination_width = to_width;
  source_width = from_width;
  destination = target;
  source = operand;
}

module _ (a b : RegisterIndex) (rest : List ℕ) (a-general : IsGeneral a) (b-general : IsGeneral b)
    (fuel : ℕ) (to_width from_width : Width)
    (wider : ltb (width_value from_width) (width_value to_width) ≡ true) where
  -- MOVZX and MOVSX of a general register to a wider one write the extension asked for. Of an address
  -- [b + n] with n below 16 they write the extension of [n + b]: the register whose number is the
  -- offset, and the number of the register for the offset.
  pub emit_movzx-extension :
      (n : ℕ)
      → n < 16
      → Emits
          (zero_extend fuel to_width from_width (register a) (register b))
          (extension_insn ExtendKind.zero to_width from_width
            (gpr (register_number a))
            (gpr (register_number b)))
          rest
        × Emits
            (sign_extend fuel to_width from_width (register a) (register b))
            (extension_insn ExtendKind.sign to_width from_width
              (gpr (register_number a))
              (gpr (register_number b)))
            rest
        × Emits
            (zero_extend fuel to_width from_width (register a) (memory b (pos n)))
            (extension_insn ExtendKind.zero to_width from_width
              (gpr (register_number a))
              (address (mem_base n (pos (register_number b)))))
            rest
        × Emits
            (sign_extend fuel to_width from_width (register a) (memory b (pos n)))
            (extension_insn ExtendKind.sign to_width from_width
              (gpr (register_number a))
              (address (mem_base n (pos (register_number b)))))
            rest
  unfolding emit_movzx asm_movzx_register asm_movzx_register_register asm_movzx_register_memory
      emit_movsx asm_movsx_register asm_movsx_register_register asm_movsx_register_memory
  emit_movzx-extension n n-lt =
      let e = mem_base-IsEncodable n (pos (register_number b)) n-lt (omega arith) in
      let base : size_t (pos n) ≡ n = omega arith in
      let offset : i32 (register_number b) ≡ pos (register_number b) = ground arith in
      let (z, z') =
        decode-extend (register_number a) (register_number b) _ rest a-general b-general e
          ExtendKind.zero to_width from_width wider in
      let (s, s') =
        decode-extend (register_number a) (register_number b) _ rest a-general b-general e
          ExtendKind.sign to_width from_width wider in
      ((_, refl, z), (_, refl, s), (_, refl, rw (base, offset) z'), (_, refl, rw (base, offset) s'))

-- MOVZX and MOVSX of a register to memory never end, whatever the fuel.
pub emit_movzx-unfinished :
    (a b : RegisterIndex) (d : ℤ) (to_width from_width : Width) (fuel : ℕ)
    → (zero_extend fuel to_width from_width (memory b d) (register a) ≡ unfinished)
      × (sign_extend fuel to_width from_width (memory b d) (register a) ≡ unfinished)
unfolding emit_movzx asm_movzx_memory emit_movsx asm_movsx_memory
emit_movzx-unfinished a b d to_width from_width zero = (refl, refl)
emit_movzx-unfinished a b d to_width from_width (suc fuel) =
    emit_movzx-unfinished a b d to_width from_width fuel

-- PUSH and POP of a general register write that instruction.
pub emit_push-pop :
    (a : RegisterIndex) (rest : List ℕ)
    → IsGeneral a
    → Emits (emit_push record { reg = a }) (Insn.push (gpr (register_number a))) rest
      × Emits (emit_pop record { reg = a }) (Insn.pop (gpr (register_number a))) rest
unfolding emit_push emit_pop generate_push_reg64 generate_pop_reg64 read_imm
emit_push-pop a rest h =
    let reg = register_number a in
    (
      (
        _,
        refl,
        rw (append_assoc) (
            decode-opcode_register w32 0x50 reg (requires_byte_rex reg) h refl (omega arith)
              IsRow-50 (λ x. x) rest),
      ),
      (
        _,
        refl,
        rw (append_assoc) (
            decode-opcode_register w32 0x58 reg (requires_byte_rex reg) h refl (omega arith)
              IsRow-58 (λ x. x) rest),
      ),
    )
