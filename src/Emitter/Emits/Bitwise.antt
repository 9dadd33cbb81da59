-- ===== src/Emitter/Emits/Bitwise.antt =====
-- OR, AND and XOR of the emitter write the instruction asked for, and what they do where it is none.
use ecpps.Common.{ℕ, ◌^◌, ◌≡◌, refl, List, [], true, false}
use ecpps.Common.Int.{ℤ, InRange}
use ecpps.Opcodes.Operands.{Width, mem_base, AluOp}
use ecpps.Opcodes.Emit.{imm_fits}
use ecpps.Opcodes.Decodes.Alu.{decode-alu}
use ecpps.Opcodes.Decodes.AluImmediate.{decode-alu_imm}
use ecpps.Opcodes.Generators.Arithmetic.{generate_alu_imm_reg, generate_alu_imm_mem}
use ecpps.Emitter.Operands.{
  Operand, Outcome, RegisterIndex, register_number, register, memory, integer, returned, i64,
}
use ecpps.Emitter.Meaning.{IsGeneral, EmitsAlu, mem_base-IsEncodable, i32-size_t}
use ecpps.Emitter.BitwiseOr.{
  asm_binary_or_register_register, asm_binary_or_memory_register, asm_binary_or_register_memory,
  asm_binary_or_register_integer, asm_binary_or_memory_integer, asm_binary_or_register,
  asm_binary_or_memory, emit_binary_or,
}
use ecpps.Emitter.BitwiseAnd.{
  asm_binary_and_register_register, asm_binary_and_memory_register, asm_binary_and_register_memory,
  asm_binary_and_register_integer, asm_binary_and_memory_integer, asm_binary_and_register,
  asm_binary_and_memory, emit_binary_and,
}
use ecpps.Emitter.BitwiseXor.{
  asm_binary_xor_register_register, asm_binary_xor_memory_register, asm_binary_xor_register_memory,
  asm_binary_xor_register_integer, asm_binary_xor_memory_integer, asm_binary_xor_register,
  asm_binary_xor_memory, emit_binary_xor,
}

abbrev pub emit_or : Width → Operand → Operand → Outcome (List ℕ)
emit_or size target operand =
    emit_binary_or record { width = size; modified_destination = target; source = operand }

abbrev pub emit_and : Width → Operand → Operand → Outcome (List ℕ)
emit_and size target operand =
    emit_binary_and record { width = size; modified_destination = target; source = operand }

abbrev pub emit_xor : Width → Operand → Operand → Outcome (List ℕ)
emit_xor size target operand =
    emit_binary_xor record { width = size; modified_destination = target; source = operand }

module _ (a b : RegisterIndex) (d : ℤ) (rest : List ℕ) (size : Width) (v : ℕ)
    (a-general : IsGeneral a) (b-general : IsGeneral b) (d-fits : InRange (2 ^ 32) d)
    (fits : imm_fits size (i64 v) ≡ true) where
  emit_or-EmitsAlu : EmitsAlu AluOp.or emit_or a b d rest size v
  unfolding emit_binary_or asm_binary_or_register asm_binary_or_memory
      asm_binary_or_register_register asm_binary_or_memory_register asm_binary_or_register_memory
      asm_binary_or_register_integer asm_binary_or_memory_integer
  emit_or-EmitsAlu =
      let m = mem_base (register_number b) d in
      let e = mem_base-IsEncodable _ d b-general d-fits in
      let (p, _, r) = decode-alu AluOp.or size _ _ m rest a-general b-general e in
      let (_, q, _) = decode-alu AluOp.or size _ _ m rest b-general a-general e in
      let (i, x, y, z) = decode-alu_imm AluOp.or size _ m (i64 v) rest a-general e fits in
      ((_, refl, p), (_, refl, q), (_, refl, r), i, (_, refl, x), (_, refl, y), z)

  emit_and-EmitsAlu : EmitsAlu AluOp.and emit_and a b d rest size v
  unfolding emit_binary_and asm_binary_and_register asm_binary_and_memory
      asm_binary_and_register_register asm_binary_and_memory_register asm_binary_and_register_memory
      asm_binary_and_register_integer asm_binary_and_memory_integer
  emit_and-EmitsAlu =
      let m = mem_base (register_number b) d in
      let e = mem_base-IsEncodable _ d b-general d-fits in
      let (p, _, r) = decode-alu AluOp.and size _ _ m rest a-general b-general e in
      let (_, q, _) = decode-alu AluOp.and size _ _ m rest b-general a-general e in
      let (i, x, y, z) = decode-alu_imm AluOp.and size _ m (i64 v) rest a-general e fits in
      (
        (_, refl, p),
        (_, refl, q),
        (_, refl, rw (i32-size_t d d-fits) r),
        i,
        (_, refl, x),
        (_, refl, y),
        z,
      )

  emit_xor-EmitsAlu : EmitsAlu AluOp.xor emit_xor a b d rest size v
  unfolding emit_binary_xor asm_binary_xor_register asm_binary_xor_memory
      asm_binary_xor_register_register asm_binary_xor_memory_register asm_binary_xor_register_memory
      asm_binary_xor_register_integer asm_binary_xor_memory_integer
  emit_xor-EmitsAlu =
      let m = mem_base (register_number b) d in
      let e = mem_base-IsEncodable _ d b-general d-fits in
      let (p, _, r) = decode-alu AluOp.xor size _ _ m rest a-general b-general e in
      let (_, q, _) = decode-alu AluOp.xor size _ _ m rest b-general a-general e in
      let (i, x, y, z) = decode-alu_imm AluOp.xor size _ m (i64 v) rest a-general e fits in
      (
        (_, refl, p),
        (_, refl, q),
        (_, refl, rw (i32-size_t d d-fits) r),
        i,
        (_, refl, x),
        (_, refl, y),
        z,
      )

  -- OR, AND and XOR of general registers, addresses from them and immediates that ImmFits admits
  -- write the operation asked for; the immediate is decoded as one that equals it modulo the width.
  pub emit_bitwise-EmitsAlu :
      EmitsAlu AluOp.or emit_or a b d rest size v
      × EmitsAlu AluOp.and emit_and a b d rest size v
      × EmitsAlu AluOp.xor emit_xor a b d rest size v
  emit_bitwise-EmitsAlu = (emit_or-EmitsAlu, emit_and-EmitsAlu, emit_xor-EmitsAlu)

-- An immediate that ImmFits does not admit: the three write no bytes, and throw nothing.
pub emit_binary_or-dropped :
    (a b : RegisterIndex) (d : ℤ) (size : Width) (v : ℕ)
    → imm_fits size (i64 v) ≡ false
    → (emit_binary_or record { width = size; modified_destination = register a; source = integer v }
        ≡ returned [])
      × (emit_binary_and
            record { width = size; modified_destination = register a; source = integer v }
          ≡ returned [])
      × (emit_binary_xor
            record { width = size; modified_destination = memory b d; source = integer v }
          ≡ returned [])
unfolding emit_binary_or asm_binary_or_register asm_binary_or_register_integer emit_binary_and
    asm_binary_and_register asm_binary_and_register_integer emit_binary_xor asm_binary_xor_memory
    asm_binary_xor_memory_integer generate_alu_imm_reg generate_alu_imm_mem
emit_binary_or-dropped a b d size v h = (rw h refl, rw h refl, rw h refl)
