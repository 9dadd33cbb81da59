-- ===== src/Opcodes/Decodes/Shifts.antt =====
-- Shifts and bit operations: what their generators write is decoded as the instruction asked for.
use ecpps.Common.{
  ℕ, ◌%◌, ◌<◌, ◌≡◌, refl, ap, ◌∙◌, inl, inr, some, List, [], ◌∷◌, ◌++◌, arith, false, ◌==◌,
  if◌then◌else◌, Bool-cases, ◌>>=◌,
}
use ecpps.Common.Int.{pos}
use ecpps.Opcodes.Operands.{Width, w8, Memory, ShiftOp, shift_value}
use ecpps.Opcodes.Emit.{put_seq, is_byte, emit_reg, emit_mem}
use ecpps.Opcodes.Decoder.{decode}
use ecpps.Opcodes.Decoder.Instructions.{Insn}
use ecpps.Opcodes.Decoder.Operand.{gpr, read_imm, unsigned_byte}
use ecpps.Opcodes.Decoder.Table.{one_byte}
use ecpps.Opcodes.Decoder.Forms.{mod_rm, no_imms, always, shift_build}
use ecpps.Opcodes.ReadOperand.{IsEncodable, address}
use ecpps.Opcodes.ReadInsn.{Selects, one, finish, decode-emit_reg, decode-emit_mem}
use ecpps.Opcodes.ReadPrefixes.{is_plain}
use ecpps.Opcodes.ReadInsn.{decode-with_count}
use ecpps.Opcodes.Generators.Shifts.{
  generate_shift_reg_imm, generate_shift_reg_cl, generate_shift_mem_imm, generate_shift_mem_cl,
}

shift_one_form :
    (size : Width)
    → Selects ((if is_byte size then 0xD0 else 0xD1) ∷ []) (
        mod_rm
          (is_byte size)
          (is_byte size)
          false
          no_imms
          (λ w rm d r i. shift_build (λ op. Insn.shift op w rm (pos 1)) d))
unfolding put_seq one_byte is_plain
shift_one_form w8 = one _ refl refl refl
shift_one_form _ = one _ refl refl refl

shift_cl_form :
    (size : Width)
    → Selects ((if is_byte size then 0xD2 else 0xD3) ∷ []) (
        mod_rm
          (is_byte size)
          (is_byte size)
          false
          no_imms
          (λ w rm d r i. shift_build (λ op. Insn.shift_cl op w rm) d))
unfolding put_seq one_byte is_plain
shift_cl_form w8 = one _ refl refl refl
shift_cl_form _ = one _ refl refl refl

shift_count_form :
    (size : Width)
    → Selects ((if is_byte size then 0xC0 else 0xC1) ∷ []) (
        mod_rm
          (is_byte size)
          (is_byte size)
          false
          (always unsigned_byte)
          (λ w rm d r i. shift_build (λ op. Insn.shift op w rm i) d))
unfolding put_seq one_byte is_plain
shift_count_form w8 = one _ refl refl refl
shift_count_form _ = one _ refl refl refl

shift_value-lt : (op : ShiftOp) → shift_value op < 16
shift_value-lt ShiftOp.rol = omega arith
shift_value-lt _ = omega arith

-- The digit of each shift stands for that shift.
shift_digit :
    (build : ShiftOp → Insn) (op : ShiftOp)
    → shift_build build (shift_value op % 8) ≡ some (build op)
shift_digit build ShiftOp.rol = refl
shift_digit build _ = refl

module _ (op : ShiftOp) (size : Width) (reg : ℕ) (m : Memory) (reg-lt : reg < 16)
    (v : IsEncodable m) where
  shift_count_reg :
      (r : List ℕ)
      → decode (
          emit_reg size
            ((if is_byte size then 0xC0 else 0xC1) ∷ [])
            (shift_value op)
            reg
            false
            (is_byte size)
          ++ r)
        ≡ finish unsigned_byte size r (λ i. some (Insn.shift op size (gpr reg) i))
  shift_count_reg r =
      decode-emit_reg size _ (shift_value op) false r (shift_value-lt op) reg (is_byte size) reg-lt
        (shift_count_form size)
      ∙ (λ j.
          finish unsigned_byte size r (λ i. shift_digit (λ o. Insn.shift o size (gpr reg) i) op j))

  shift_count_mem :
      (r : List ℕ)
      → decode
          (emit_mem size ((if is_byte size then 0xC0 else 0xC1) ∷ []) (shift_value op) m false ++ r)
        ≡ finish unsigned_byte size r (λ i. some (Insn.shift op size (address m) i))
  shift_count_mem r =
      decode-emit_mem size _ (shift_value op) false r (shift_value-lt op) m (is_byte size) v
        (shift_count_form size)
      ∙ (λ j.
          finish unsigned_byte size r
            (λ i. shift_digit (λ o. Insn.shift o size (address m) i) op j))

  decode-shift_reg :
      (count : ℕ) (rest : List ℕ)
      → count < 256
      → decode (generate_shift_reg_imm op size reg count ++ rest)
        ≡ some (Insn.shift op size (gpr reg) (pos count), rest)
  unfolding generate_shift_reg_imm read_imm
  decode-shift_reg count rest h = elim (Bool-cases (count == 1)) [
    | inl a ↦
        let one' : count ≡ 1 = ground arith in
        rw one' (
          decode-emit_reg size _ (shift_value op) false rest (shift_value-lt op) reg (is_byte size)
            reg-lt (shift_one_form size)
          ∙ ap (λ o. o >>= (λ insn. some (insn, rest)))
              (shift_digit (λ o. Insn.shift o size (gpr reg) (pos 1)) op))
    | inr a ↦
        rw a (decode-with_count size _ (Insn.shift op size (gpr reg)) rest count shift_count_reg h)
  ]

  decode-shift_mem :
      (count : ℕ) (rest : List ℕ)
      → count < 256
      → decode (generate_shift_mem_imm op size m count ++ rest)
        ≡ some (Insn.shift op size (address m) (pos count), rest)
  unfolding generate_shift_mem_imm read_imm
  decode-shift_mem count rest h = elim (Bool-cases (count == 1)) [
    | inl a ↦
        let one' : count ≡ 1 = ground arith in
        rw one' (
          decode-emit_mem size _ (shift_value op) false rest (shift_value-lt op) m (is_byte size) v
            (shift_one_form size)
          ∙ ap (λ o. o >>= (λ insn. some (insn, rest)))
              (shift_digit (λ o. Insn.shift o size (address m) (pos 1)) op))
    | inr a ↦
        rw a
          (decode-with_count size _ (Insn.shift op size (address m)) rest count shift_count_mem h)
  ]

  -- The shifts and rotations are decoded as themselves, by any count in a byte (1 has an encoding
  -- of its own) and by cl, on a register and on memory.
  pub decode-shift :
      (count : ℕ) (rest : List ℕ)
      → count < 256
      → (decode (generate_shift_reg_imm op size reg count ++ rest)
          ≡ some (Insn.shift op size (gpr reg) (pos count), rest))
        × (decode (generate_shift_mem_imm op size m count ++ rest)
            ≡ some (Insn.shift op size (address m) (pos count), rest))
        × (decode (generate_shift_reg_cl op size reg ++ rest)
            ≡ some (Insn.shift_cl op size (gpr reg), rest))
        × (decode (generate_shift_mem_cl op size m ++ rest)
            ≡ some (Insn.shift_cl op size (address m), rest))
  unfolding generate_shift_reg_cl generate_shift_mem_cl read_imm
  decode-shift count rest h = (
    decode-shift_reg count rest h,
    decode-shift_mem count rest h,
    decode-emit_reg size _ (shift_value op) false rest (shift_value-lt op) reg (is_byte size) reg-lt
          (shift_cl_form size)
        ∙ ap (λ o. o >>= (λ insn. some (insn, rest)))
            (shift_digit (λ o. Insn.shift_cl o size (gpr reg)) op),
    decode-emit_mem size _ (shift_value op) false rest (shift_value-lt op) m (is_byte size) v
          (shift_cl_form size)
        ∙ ap (λ o. o >>= (λ insn. some (insn, rest)))
            (shift_digit (λ o. Insn.shift_cl o size (address m)) op),
  )
