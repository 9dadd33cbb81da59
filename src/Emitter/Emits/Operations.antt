-- ===== src/Emitter/Emits/Operations.antt =====
-- The other operations of the emitter on one or two operands write the instruction asked for.
use ecpps.Common.{ℕ, ◌%◌, ◌^◌, ◌≡◌, refl, List, arith, leb, true}
use ecpps.Common.Int.{ℤ, pos, InRange, to_bits}
use ecpps.Opcodes.Operands.{Width, mem_base, AluOp, UnaryOp, ShiftOp}
use ecpps.Opcodes.Emit.{imm_fits}
use ecpps.Opcodes.Immediates.{modulus}
use ecpps.Opcodes.Decoder.Instructions.{Insn}
use ecpps.Opcodes.Decoder.Operand.{gpr}
use ecpps.Opcodes.ReadOperand.{address}
use ecpps.Opcodes.Decodes.Alu.{decode-alu}
use ecpps.Opcodes.Decodes.AluImmediate.{decode-alu_imm}
use ecpps.Opcodes.Decodes.Arithmetic.{decode-unary}
use ecpps.Opcodes.Decodes.Shifts.{decode-shift}
use ecpps.Opcodes.Decodes.Moves.{decode-exchange}
use ecpps.Emitter.Operands.{
  RegisterIndex, register_number, rcx, register, memory, integer, Outcome, Operand,
}
use ecpps.Emitter.Meaning.{Emits, IsGeneral, mem_base-IsEncodable}
use ecpps.Emitter.Unary.{
  asm_mul, asm_mul_register, asm_mul_memory, emit_mul, asm_div, asm_div_register, asm_div_memory,
  emit_div, asm_bitwise_not, asm_bitwise_not_register, asm_bitwise_not_memory, emit_bitwise_not,
  asm_bitwise_neg, asm_bitwise_neg_register, asm_bitwise_neg_memory, emit_arithmetic_negation,
}
use ecpps.Emitter.Shifts.{
  asm_shift_register, asm_shift_memory, emit_shift, emit_left_shift, emit_right_shift,
}
use ecpps.Emitter.Exchange.{
  emit_xchg, emit_xchg_register, emit_xchg_memory, emit_cmp, cmp_immediate, cmp_register,
  cmp_memory,
}

module _ (op : UnaryOp) (emit : Width → Operand → Outcome (List ℕ)) (a b : RegisterIndex) (d : ℤ)
    (rest : List ℕ) (size : Width) where
  -- An operation of one operand is written as that operation, of a register and of an address.
  abbrev pub EmitsUnary : Type 0
  EmitsUnary =
      Emits (emit size (register a)) (Insn.unary op size (gpr (register_number a))) rest
      × Emits (emit size (memory b d))
          (Insn.unary op size (address (mem_base (register_number b) d))) rest

module _ (op : ShiftOp) (emit : Width → Operand → Operand → Outcome (List ℕ)) (a b : RegisterIndex)
    (d : ℤ) (rest : List ℕ) (size : Width) (v : ℕ) where
  -- A shift is written as that shift, by the low byte of an immediate and by cl.
  abbrev pub EmitsShift : Type 0
  EmitsShift =
      Emits (emit size (register a) (integer v))
        (Insn.shift op size (gpr (register_number a)) (pos (v % 2 ^ 8))) rest
      × Emits (emit size (memory b d) (integer v))
          (Insn.shift op size (address (mem_base (register_number b) d)) (pos (v % 2 ^ 8))) rest
      × Emits (emit size (register a) (register rcx))
          (Insn.shift_cl op size (gpr (register_number a))) rest
      × Emits (emit size (memory b d) (register rcx))
          (Insn.shift_cl op size (address (mem_base (register_number b) d))) rest

abbrev pub left_shift : Width → Operand → Operand → Outcome (List ℕ)
left_shift size target count =
    emit_left_shift record { width = size; modified_destination = target; source = count }

abbrev pub right_shift : Width → Operand → Operand → Outcome (List ℕ)
right_shift size target count =
    emit_right_shift record { width = size; modified_destination = target; source = count }

abbrev pub exchange : Width → Operand → Operand → Outcome (List ℕ)
exchange size target other =
    emit_xchg record { width = size; modified_destination = target; modified_source = other }

abbrev pub compare : Width → Operand → Operand → Outcome (List ℕ)
compare size left right = emit_cmp record { width = size; left = left; right = right }

module _ (a b : RegisterIndex) (d : ℤ) (rest : List ℕ) (size : Width) (v : ℕ)
    (a-general : IsGeneral a) (b-general : IsGeneral b) (d-fits : InRange (2 ^ 32) d) where
  -- MUL, DIV, NOT and NEG write that operation, of a general register and of an address from one.
  pub emit_mul-EmitsUnary :
      EmitsUnary UnaryOp.mul (λ w o. emit_mul record { width = w; source = o }) a b d rest size
      × EmitsUnary UnaryOp.div (λ w o. emit_div record { width = w; source = o }) a b d rest size
      × EmitsUnary UnaryOp.not
          (λ w o. emit_bitwise_not record { width = w; modified_operand = o })
          a
          b
          d
          rest
          size
      × EmitsUnary UnaryOp.neg
          (λ w o. emit_arithmetic_negation record { width = w; modified_operand = o })
          a
          b
          d
          rest
          size
  unfolding emit_mul asm_mul asm_mul_register asm_mul_memory emit_div asm_div asm_div_register
      asm_div_memory emit_bitwise_not asm_bitwise_not asm_bitwise_not_register
      asm_bitwise_not_memory emit_arithmetic_negation asm_bitwise_neg asm_bitwise_neg_register
      asm_bitwise_neg_memory
  emit_mul-EmitsUnary =
      let e = mem_base-IsEncodable (register_number b) d b-general d-fits in
      let (m, m') = decode-unary size (register_number a) _ rest a-general e UnaryOp.mul in
      let (q, q') = decode-unary size (register_number a) _ rest a-general e UnaryOp.div in
      let (c, c') = decode-unary size (register_number a) _ rest a-general e UnaryOp.not in
      let (n, n') = decode-unary size (register_number a) _ rest a-general e UnaryOp.neg in
      (
        ((_, refl, m), (_, refl, m')),
        ((_, refl, q), (_, refl, q')),
        ((_, refl, c), (_, refl, c')),
        ((_, refl, n), (_, refl, n')),
      )

  -- Both shifts write that shift of a general register and of an address from one.
  pub emit_shift-EmitsShift :
      EmitsShift ShiftOp.shl left_shift a b d rest size v
      × EmitsShift ShiftOp.shr right_shift a b d rest size v
  unfolding emit_left_shift emit_right_shift emit_shift asm_shift_register asm_shift_memory
  emit_shift-EmitsShift =
      let e = mem_base-IsEncodable (register_number b) d b-general d-fits in
      let (l1, l2, l3, l4) =
        decode-shift ShiftOp.shl size (register_number a) _ a-general e (v % 2 ^ 8) rest
          (omega arith) in
      let (r1, r2, r3, r4) =
        decode-shift ShiftOp.shr size (register_number a) _ a-general e (v % 2 ^ 8) rest
          (omega arith) in
      (
        ((_, refl, l1), (_, refl, l2), (_, refl, l3), (_, refl, l4)),
        ((_, refl, r1), (_, refl, r2), (_, refl, r3), (_, refl, r4)),
      )

  -- XCHG and CMP of general registers and addresses write that instruction, with the operands in this
  -- order (an exchange has none), and CMP one of an immediate in 31 bits that ImmFits admits.
  pub emit_xchg-compare :
      leb v 0x7FFFFFFF ≡ true
      → imm_fits size (pos v) ≡ true
      → Emits
          (exchange size (register a) (register b))
          (Insn.exchange size (gpr (register_number a)) (gpr (register_number b)))
          rest
        × Emits
            (exchange size (register a) (memory b d))
            (Insn.exchange size
              (address (mem_base (register_number b) d))
              (gpr (register_number a)))
            rest
        × Emits
            (exchange size (memory b d) (register a))
            (Insn.exchange size
              (address (mem_base (register_number b) d))
              (gpr (register_number a)))
            rest
        × Emits
            (compare size (register a) (register b))
            (Insn.alu AluOp.cmp size (gpr (register_number a)) (gpr (register_number b)))
            rest
        × Emits
            (compare size (register a) (memory b d))
            (Insn.alu AluOp.cmp size
              (gpr (register_number a))
              (address (mem_base (register_number b) d)))
            rest
        × Emits
            (compare size (memory b d) (register a))
            (Insn.alu AluOp.cmp size
              (address (mem_base (register_number b) d))
              (gpr (register_number a)))
            rest
        × (i : ℤ) × Emits
            (compare size (register a) (integer v))
            (Insn.alu_imm AluOp.cmp size (gpr (register_number a)) i)
            rest
        × Emits
            (compare size (memory b d) (integer v))
            (Insn.alu_imm AluOp.cmp size (address (mem_base (register_number b) d)) i)
            rest
        × (to_bits (modulus size) i ≡ to_bits (modulus size) (pos v))
  unfolding emit_xchg emit_xchg_register emit_xchg_memory emit_cmp cmp_immediate cmp_register
      cmp_memory
  emit_xchg-compare small fits =
      let m = mem_base (register_number b) d in
      let e = mem_base-IsEncodable (register_number b) d b-general d-fits in
      let (x, _, _, _) =
        decode-exchange size (register_number a) (register_number b) m rest a-general b-general e in
      let (_, y, _, _) =
        decode-exchange size (register_number a) (register_number a) m rest a-general a-general e in
      let (p, _, r) =
        decode-alu AluOp.cmp size (register_number a) (register_number b) m rest a-general b-general
          e in
      let (_, q, _) =
        decode-alu AluOp.cmp size (register_number a) (register_number a) m rest a-general a-general
          e in
      let (i, u, w, z) =
        decode-alu_imm AluOp.cmp size (register_number a) m (pos v) rest a-general e fits in
      (
        (_, refl, x),
        (_, refl, y),
        (_, refl, y),
        (_, refl, p),
        (_, refl, r),
        (_, refl, q),
        i,
        (_, rw small refl, u),
        (_, rw small refl, w),
        z,
      )
