-- ===== src/Opcodes/Decodes/Control.antt =====
-- Jumps, calls, the stack and string operations: what their generators write is decoded.
use ecpps.Common.{
  ℕ, ◌+◌, ◌^◌, ◌<◌, ◌≡◌, refl, inl, inr, Option, some, List, [], ◌∷◌, ◌++◌, append_assoc, arith,
  true, false, not, ◌&&◌, ◌==◌, Bool-cases, ◌>>=◌,
}
use ecpps.Common.Int.{ℤ, InRange}
use ecpps.Opcodes.Operands.{Width, w8, w32, Memory, Condition, condition_value, StringOp, RepPrefix}
use ecpps.Opcodes.Emit.{put, put_seq, put_imm, put_rex, fits_i8}
use ecpps.Opcodes.Decoder.{
  decode, run, read_prefixes, read_operand_size, read_rex, decode_opcode, decode_second,
}
use ecpps.Opcodes.Decoder.Instructions.{Insn}
use ecpps.Opcodes.Decoder.Operand.{gpr, read_imm, signed}
use ecpps.Opcodes.Decoder.Table.{one_byte, two_byte}
use ecpps.Opcodes.Decoder.Forms.{mod_rm, no_imms, group5, digit_zero}
use ecpps.Opcodes.Immediates.{signed-put_imm_one, signed-put_imm_four, fits_i8-InRange}
use ecpps.Opcodes.ReadOperand.{IsEncodable, address}
use ecpps.Opcodes.ReadInsn.{Selects, one, decode-emit_reg, decode-emit_mem, decode-opcode_plain}
use ecpps.Opcodes.ReadPrefixes.{is_plain, prefixes}
use ecpps.Opcodes.Generators.Control.{
  generate_jmp_rel8, generate_jmp_rel32, generate_jcc_rel8, generate_jcc_rel32, generate_call_rel32,
  generate_jmp_reg, generate_jmp_mem, generate_call_reg, generate_call_mem, generate_jrcxz,
  generate_loop, generate_push_imm, generate_push_mem, generate_pop_mem, generate_string_op,
}

-- An opcode of one byte with no ModRM byte and no prefix.
plain_step :
    (o : ℕ) (bs : List ℕ)
    → is_plain o && not (o == 0x0F) ≡ true
    → decode (o ∷ bs) ≡ run (one_byte o) o (prefixes w32 false false false false) bs
unfolding put_rex
plain_step o bs h = decode-opcode_plain w32 o bs h

group5_form : Selects (0xFF ∷ []) (mod_rm false false false no_imms (λ w rm d r i. group5 w rm d))
unfolding put_seq one_byte is_plain
group5_form = one _ refl refl refl

pop_form :
    Selects
      (0x8F ∷ [])
      (mod_rm false false false no_imms (λ w rm d r i. digit_zero d (Insn.pop rm)))
unfolding put_seq one_byte is_plain
pop_form = one _ refl refl refl

-- The indirect jumps and calls, and push and pop on memory, are decoded as themselves.
pub decode-indirect :
    (reg : ℕ) (m : Memory) (rest : List ℕ)
    → reg < 16
    → IsEncodable m
    → (decode (generate_jmp_reg reg ++ rest) ≡ some (Insn.jump_to (gpr reg), rest))
      × (decode (generate_jmp_mem m ++ rest) ≡ some (Insn.jump_to (address m), rest))
      × (decode (generate_call_reg reg ++ rest) ≡ some (Insn.call_to (gpr reg), rest))
      × (decode (generate_call_mem m ++ rest) ≡ some (Insn.call_to (address m), rest))
      × (decode (generate_push_mem m ++ rest) ≡ some (Insn.push (address m), rest))
      × (decode (generate_pop_mem m ++ rest) ≡ some (Insn.pop (address m), rest))
unfolding generate_jmp_reg generate_jmp_mem generate_call_reg generate_call_mem generate_push_mem
    generate_pop_mem read_imm
decode-indirect reg m rest reg-lt v = (
  decode-emit_reg w32 _ 4 false rest (omega arith) reg false reg-lt group5_form,
  decode-emit_mem w32 _ 4 false rest (omega arith) m false v group5_form,
  decode-emit_reg w32 _ 2 false rest (omega arith) reg false reg-lt group5_form,
  decode-emit_mem w32 _ 2 false rest (omega arith) m false v group5_form,
  decode-emit_mem w32 _ 6 false rest (omega arith) m false v group5_form,
  decode-emit_mem w32 _ 0 false rest (omega arith) m false v pop_form,
)

-- The build of an instruction with no operand but a signed immediate.
abbrev with_signed : ℕ → (ℤ → Insn) → List ℕ → Option (Insn × List ℕ)
with_signed n build bs = signed n bs >>= (λ (i, r). some (build i, r))

module _ (bs : List ℕ) where
  jump_short : decode (put 0xEB ++ bs) ≡ with_signed 1 Insn.jump bs
  unfolding put run one_byte is_plain read_imm
  jump_short = plain_step 0xEB bs refl

  jump_near : decode (put 0xE9 ++ bs) ≡ with_signed 4 Insn.jump bs
  unfolding put run one_byte is_plain read_imm
  jump_near = plain_step 0xE9 bs refl

  call_near : decode (put 0xE8 ++ bs) ≡ with_signed 4 Insn.call bs
  unfolding put run one_byte is_plain read_imm
  call_near = plain_step 0xE8 bs refl

  rcx_short : decode (put 0xE3 ++ bs) ≡ with_signed 1 Insn.jump_if_rcx_zero bs
  unfolding put run one_byte is_plain read_imm
  rcx_short = plain_step 0xE3 bs refl

  loop_short : decode (put 0xE2 ++ bs) ≡ with_signed 1 Insn.loop bs
  unfolding put run one_byte is_plain read_imm
  loop_short = plain_step 0xE2 bs refl

  push_short : decode (put 0x6A ++ bs) ≡ with_signed 1 Insn.push_imm bs
  unfolding put run one_byte is_plain read_imm
  push_short = plain_step 0x6A bs refl

  push_full : decode (put 0x68 ++ bs) ≡ with_signed 4 Insn.push_imm bs
  unfolding put run one_byte is_plain read_imm
  push_full = plain_step 0x68 bs refl

  condition_short :
      (cc : Condition)
      → decode (put (0x70 + condition_value cc) ++ bs) ≡ with_signed 1 (Insn.jump_if cc) bs
  unfolding put run one_byte is_plain read_imm
  condition_short Condition.overflow = plain_step 0x70 bs refl
  condition_short _ = plain_step _ bs refl

  condition_near :
      (cc : Condition)
      → decode (put_seq (0x0F ∷ (0x80 + condition_value cc) ∷ []) ++ bs)
        ≡ with_signed 4 (Insn.jump_if cc) bs
  unfolding put_seq run two_byte read_imm decode decode_opcode decode_second read_prefixes
      read_operand_size read_rex
  condition_near Condition.overflow = refl
  condition_near _ = refl

-- One immediate after an opcode.
module _ (e : List ℕ) (build : ℤ → Insn) (z : ℤ) (rest : List ℕ) where
  with_signed_one :
      ((bs : List ℕ) → decode (e ++ bs) ≡ with_signed 1 build bs)
      → InRange (2 ^ 8) z
      → decode ((e ++ put_imm z 1) ++ rest) ≡ some (build z, rest)
  with_signed_one h fits =
      rw (append_assoc, h (put_imm z 1 ++ rest), signed-put_imm_one z rest fits)

  with_signed_four :
      ((bs : List ℕ) → decode (e ++ bs) ≡ with_signed 4 build bs)
      → InRange (2 ^ 32) z
      → decode ((e ++ put_imm z 4) ++ rest) ≡ some (build z, rest)
  with_signed_four h fits =
      rw (append_assoc, h (put_imm z 4 ++ rest), signed-put_imm_four z rest fits)

-- The jumps over a distance in a byte are decoded as themselves, with the same distance.
pub decode-short_jump :
    (cc : Condition) (rel : ℤ) (rest : List ℕ)
    → InRange (2 ^ 8) rel
    → (decode (generate_jmp_rel8 rel ++ rest) ≡ some (Insn.jump rel, rest))
      × (decode (generate_jcc_rel8 cc rel ++ rest) ≡ some (Insn.jump_if cc rel, rest))
      × (decode (generate_jrcxz rel ++ rest) ≡ some (Insn.jump_if_rcx_zero rel, rest))
      × (decode (generate_loop rel ++ rest) ≡ some (Insn.loop rel, rest))
unfolding generate_jmp_rel8 generate_jcc_rel8 generate_jrcxz generate_loop
decode-short_jump cc rel rest h = (
  with_signed_one _ Insn.jump rel rest jump_short h,
  with_signed_one _ (Insn.jump_if cc) rel rest (λ bs. condition_short bs cc) h,
  with_signed_one _ Insn.jump_if_rcx_zero rel rest rcx_short h,
  with_signed_one _ Insn.loop rel rest loop_short h,
)

-- The jumps and calls over a distance in four bytes, and push of an immediate in its shorter
-- encoding, are decoded as themselves, with the same distance or immediate.
pub decode-near_jump :
    (cc : Condition) (rel : ℤ) (rest : List ℕ)
    → InRange (2 ^ 32) rel
    → (decode (generate_jmp_rel32 rel ++ rest) ≡ some (Insn.jump rel, rest))
      × (decode (generate_jcc_rel32 cc rel ++ rest) ≡ some (Insn.jump_if cc rel, rest))
      × (decode (generate_call_rel32 rel ++ rest) ≡ some (Insn.call rel, rest))
      × (decode (generate_push_imm rel ++ rest) ≡ some (Insn.push_imm rel, rest))
unfolding generate_jmp_rel32 generate_jcc_rel32 generate_call_rel32 generate_push_imm
decode-near_jump cc rel rest h = (
  with_signed_four _ Insn.jump rel rest jump_near h,
  with_signed_four _ (Insn.jump_if cc) rel rest (λ bs. condition_near bs cc) h,
  with_signed_four _ Insn.call rel rest call_near h,
  elim (Bool-cases (fits_i8 rel)) [
    | inl s ↦ rw s (with_signed_one _ Insn.push_imm rel rest push_short (fits_i8-InRange rel s))
    | inr s ↦ rw s (with_signed_four _ Insn.push_imm rel rest push_full h)
  ],
)

-- A string operation is decoded as itself, with its width and its repeat prefix.
pub decode-string_op :
    (op : StringOp) (size : Width) (prefix : RepPrefix) (rest : List ℕ)
    → decode (generate_string_op op size prefix ++ rest) ≡ some (Insn.string op size prefix, rest)
unfolding generate_string_op put_rex put run one_byte read_imm decode decode_opcode read_prefixes
    read_operand_size read_rex
decode-string_op StringOp.movs w8 RepPrefix.none rest = refl
decode-string_op _ w8 RepPrefix.none rest = refl
decode-string_op _ w8 _ rest = refl
decode-string_op _ _ RepPrefix.none rest = refl
decode-string_op _ _ _ rest = refl
