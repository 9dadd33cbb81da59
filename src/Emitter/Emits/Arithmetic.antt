-- ===== src/Emitter/Emits/Arithmetic.antt =====
-- ADD and SUB of the emitter, in all their forms.
use ecpps.Common.{ℕ, ◌^◌, ◌<◌, ◌≡◌, ◌∙◌, sym, List, ◌==◌, false}
use ecpps.Common.Int.{ℤ, InRange}
use ecpps.Opcodes.Operands.{Width, AluOp}
use ecpps.Opcodes.Fixed.Immediates.{imm_value}
use ecpps.Emitter.Operands.{RegisterIndex, Operand, Outcome}
use ecpps.Emitter.Meaning.{EmitsAlu, IsGeneral, IsImmediate, imm_of, to_bits-i64}
use ecpps.Emitter.Addition.{emit_add}
use ecpps.Emitter.Subtraction.{emit_sub}
use ecpps.Emitter.Emits.Addition.{emit_add-plain, emit_add-immediate}
use ecpps.Emitter.Emits.Subtraction.{emit_sub-plain, emit_sub-immediate}

abbrev pub addition : Width → Operand → Operand → Outcome (List ℕ)
addition size target operand =
    emit_add record { width = size; modified_destination = target; source = operand }

abbrev pub subtraction : Width → Operand → Operand → Outcome (List ℕ)
subtraction size target operand =
    emit_sub record { width = size; modified_destination = target; source = operand }

module _ (a b : RegisterIndex) (d : ℤ) (rest : List ℕ) (size : Width) (u v : ℕ)
    (a-general : IsGeneral a) (b-general : IsGeneral b) (d-fits : InRange (2 ^ 32) d)
    (u-lt : u < 2 ^ 64) (u-fits : IsImmediate size u) (v-lt : v < 2 ^ 64)
    (fits : IsImmediate size v) where
  -- ADD with an immediate u that is not zero in the width, and SUB with any immediate v, of general
  -- registers, addresses from them and immediates (at 64 bits: such as 32 bits have with a sign) write
  -- the operation asked for.
  pub emit_add-EmitsAlu :
      (imm_of size u == 0) ≡ false
      → EmitsAlu AluOp.add addition a b d rest size u
        × EmitsAlu AluOp.sub subtraction a b d rest size v
  emit_add-EmitsAlu nz =
      let (p, q, r) = emit_add-plain a b d rest a-general b-general d-fits size in
      let (x, y, z) =
        emit_add-immediate a b d rest a-general b-general d-fits size u u-lt u-fits nz in
      let (p', q', r') = emit_sub-plain a b d rest a-general b-general d-fits size in
      let (x', y', z') =
        emit_sub-immediate a b d rest a-general b-general d-fits size v v-lt fits in
      let modulo = sym (to_bits-i64 size u u-lt) in
      let modulo' = sym (to_bits-i64 size v v-lt) in
      (
        (p, q, r, imm_value size (imm_of size u), x, y, z ∙ modulo),
        (p', q', r', imm_value size (imm_of size v), x', y', z' ∙ modulo'),
      )
