-- ===== src/Opcodes/Decodes/Arithmetic.antt =====
-- Tests, unary operations and signed multiplication: what their generators write is decoded.
use ecpps.Common.{
  ℕ, ◌<◌, ◌≡◌, refl, ap, ◌∙◌, inl, inr, Option, some, List, [], ◌∷◌, ◌++◌, append_assoc, arith,
  true, false, ◌==◌, if◌then◌else◌, Bool-cases, ◌>>=◌,
}
use ecpps.Common.Int.{ℤ, to_bits}
use ecpps.Opcodes.Operands.{Width, w8, w16, w32, w64, Memory, rax, UnaryOp}
use ecpps.Opcodes.Emit.{
  put, put_seq, put_rex, is_byte, is_w64, imm_fits, imm_normalise, operand_size_prefix,
}
use ecpps.Opcodes.Decoder.{decode, run}
use ecpps.Opcodes.Decoder.Instructions.{Insn}
use ecpps.Opcodes.Decoder.Operand.{Operand, gpr, read_imm, operand_sized}
use ecpps.Opcodes.Decoder.Table.{one_byte, two_byte}
use ecpps.Opcodes.Decoder.Forms.{mod_rm, no_imms, group3, group3_imm, group4, group5}
use ecpps.Opcodes.Immediates.{to_bits-imm_normalise, modulus}
use ecpps.Opcodes.ReadOperand.{IsEncodable, address}
use ecpps.Opcodes.ReadInsn.{
  Selects, one, two, finish, decode-emit_reg, decode-emit_mem, decode-opcode_plain,
  decode-with_sized, Selects-wide,
}
use ecpps.Opcodes.ReadPrefixes.{is_plain}
use ecpps.Opcodes.Generators.Arithmetic.{
  generate_test_reg_reg, generate_test_mem_reg, generate_test_imm_reg, generate_test_imm_mem,
  generate_unary_reg, generate_unary_mem, generate_imul_reg_reg, generate_imul_reg_mem, wide_bit,
}
use Prim.Native.Nat.{bit_or}

test_form :
    (size : Width)
    → Selects ((if is_byte size then 0x84 else 0x85) ∷ []) (
        mod_rm
          (is_byte size)
          (is_byte size)
          (is_byte size)
          no_imms
          (λ w rm d r i. some (Insn.test w rm r)))
unfolding put_seq one_byte is_plain
test_form w8 = one _ refl refl refl
test_form _ = one _ refl refl refl

group3_form :
    (size : Width)
    → Selects
        ((if is_byte size then 0xF6 else 0xF7) ∷ [])
        (mod_rm (is_byte size) (is_byte size) false group3_imm (λ w rm d r i. group3 w rm d i))
unfolding put_seq one_byte is_plain
group3_form w8 = one _ refl refl refl
group3_form _ = one _ refl refl refl

test_accumulator :
    (size : Width) (bs : List ℕ)
    → decode (
        operand_size_prefix size
        ++ (put_rex (is_w64 size) false false false false
            ++ (put (if is_byte size then 0xA8 else 0xA9) ++ bs)))
      ≡ finish operand_sized size bs (λ i. some (Insn.test_imm size (gpr 0) i))
unfolding put is_plain run one_byte
test_accumulator w8 bs = decode-opcode_plain w8 0xA8 bs refl
test_accumulator w16 bs = decode-opcode_plain w16 0xA9 bs refl
test_accumulator w32 bs = decode-opcode_plain w32 0xA9 bs refl
test_accumulator w64 bs = decode-opcode_plain w64 0xA9 bs refl

decode-test_imm_reg :
    (size : Width) (reg : ℕ) (z : ℤ) (rest : List ℕ)
    → reg < 16
    → imm_fits size z ≡ true
    → decode (generate_test_imm_reg size reg z ++ rest)
      ≡ some (Insn.test_imm size (gpr reg) (imm_normalise size z), rest)
unfolding generate_test_imm_reg
decode-test_imm_reg size reg z rest reg-lt h = elim (Bool-cases (reg == rax)) [
  | inl a ↦
      let zero' : reg ≡ 0 = ground arith in
      rw (h, zero')
        (decode-with_sized size _ (Insn.test_imm size (gpr 0)) rest z
          (λ r. rw (append_assoc, append_assoc) (test_accumulator size r)) h)
  | inr a ↦
      rw (h, a)
        (decode-with_sized size _ (Insn.test_imm size (gpr reg)) rest z
          (λ r.
            decode-emit_reg size _ 0 false r (omega arith) reg (is_byte size) reg-lt
              (group3_form size))
          h)
]

decode-test_imm_mem :
    (size : Width) (m : Memory) (z : ℤ) (rest : List ℕ)
    → IsEncodable m
    → imm_fits size z ≡ true
    → decode (generate_test_imm_mem size m z ++ rest)
      ≡ some (Insn.test_imm size (address m) (imm_normalise size z), rest)
unfolding generate_test_imm_mem
decode-test_imm_mem size m z rest v h = rw h (
    decode-with_sized size _ (Insn.test_imm size (address m)) rest z
      (λ r. decode-emit_mem size _ 0 false r (omega arith) m (is_byte size) v (group3_form size)) h)

-- A test is decoded as the test of its two operands; with an immediate that the width admits, as the
-- test with an immediate that equals the given one modulo the width.
pub decode-test :
    (size : Width) (a b : ℕ) (m : Memory) (z : ℤ) (rest : List ℕ)
    → a < 16
    → b < 16
    → IsEncodable m
    → imm_fits size z ≡ true
    → (i : ℤ) × (decode (generate_test_reg_reg size a b ++ rest)
        ≡ some (Insn.test size (gpr a) (gpr b), rest))
      × (decode (generate_test_mem_reg size m b ++ rest)
          ≡ some (Insn.test size (address m) (gpr b), rest))
      × (decode (generate_test_imm_reg size a z ++ rest)
          ≡ some (Insn.test_imm size (gpr a) i, rest))
      × (decode (generate_test_imm_mem size m z ++ rest)
          ≡ some (Insn.test_imm size (address m) i, rest))
      × (to_bits (modulus size) i ≡ to_bits (modulus size) z)
unfolding generate_test_reg_reg generate_test_mem_reg read_imm
decode-test size a b m z rest a-lt b-lt v h = (
  imm_normalise size z,
  decode-emit_reg size _ b (is_byte size) rest b-lt a (is_byte size) a-lt (test_form size),
  decode-emit_mem size _ b (is_byte size) rest b-lt m (is_byte size) v (test_form size),
  decode-test_imm_reg size a z rest a-lt h,
  decode-test_imm_mem size m z rest v h,
  to_bits-imm_normalise size z,
)

-- The opcodes of inc and dec: FE for bytes, FF for the other widths.
abbrev step_build : Width → Width → Operand → ℕ → Operand → ℤ → Option Insn
step_build w8 w rm d r i = group4 w rm d
step_build _ w rm d r i = group5 w rm d

step_form :
    (size : Width)
    → Selects
        (bit_or 0xFE (wide_bit size) ∷ [])
        (mod_rm (is_byte size) (is_byte size) false no_imms (step_build size))
unfolding put_seq one_byte is_plain
step_form w8 = one _ refl refl refl
step_form _ = one _ refl refl refl

step_build-inc :
    (size : Width) (rm r : Operand) (i : ℤ)
    → step_build size size rm 0 r i ≡ some (Insn.unary UnaryOp.inc size rm)
step_build-inc w8 rm r i = refl
step_build-inc _ rm r i = refl

step_build-dec :
    (size : Width) (rm r : Operand) (i : ℤ)
    → step_build size size rm 1 r i ≡ some (Insn.unary UnaryOp.dec size rm)
step_build-dec w8 rm r i = refl
step_build-dec _ rm r i = refl

other_form :
    (size : Width)
    → Selects
        (bit_or 0xF6 (wide_bit size) ∷ [])
        (mod_rm (is_byte size) (is_byte size) false group3_imm (λ w rm d r i. group3 w rm d i))
unfolding put_seq one_byte is_plain
other_form w8 = one _ refl refl refl
other_form _ = one _ refl refl refl

module _ (size : Width) (reg : ℕ) (m : Memory) (rest : List ℕ) (reg-lt : reg < 16)
    (v : IsEncodable m) where
  -- The eight unary operations are decoded as themselves, on a register and on memory.
  pub decode-unary :
      (op : UnaryOp)
      → (decode (generate_unary_reg op size reg ++ rest)
          ≡ some (Insn.unary op size (gpr reg), rest))
        × (decode (generate_unary_mem op size m ++ rest)
            ≡ some (Insn.unary op size (address m), rest))
  unfolding generate_unary_reg generate_unary_mem read_imm
  decode-unary UnaryOp.inc = (
    decode-emit_reg size _ 0 false rest (omega arith) reg (is_byte size) reg-lt (step_form size)
        ∙ ap (λ o. o >>= (λ insn. some (insn, rest))) (step_build-inc size (gpr reg) _ _),
    decode-emit_mem size _ 0 false rest (omega arith) m (is_byte size) v (step_form size)
        ∙ ap (λ o. o >>= (λ insn. some (insn, rest))) (step_build-inc size (address m) _ _),
  )
  decode-unary UnaryOp.dec = (
    decode-emit_reg size _ 1 false rest (omega arith) reg (is_byte size) reg-lt (step_form size)
        ∙ ap (λ o. o >>= (λ insn. some (insn, rest))) (step_build-dec size (gpr reg) _ _),
    decode-emit_mem size _ 1 false rest (omega arith) m (is_byte size) v (step_form size)
        ∙ ap (λ o. o >>= (λ insn. some (insn, rest))) (step_build-dec size (address m) _ _),
  )
  decode-unary _ = (
    decode-emit_reg size _ _ false rest (omega arith) reg (is_byte size) reg-lt (other_form size),
    decode-emit_mem size _ _ false rest (omega arith) m (is_byte size) v (other_form size),
  )

-- Signed multiplication is decoded as that of its operands, at every width but a byte.
pub decode-imul :
    (size : Width) (a b : ℕ) (m : Memory) (rest : List ℕ)
    → is_byte size ≡ false
    → a < 16
    → b < 16
    → IsEncodable m
    → (decode (generate_imul_reg_reg size a b ++ rest)
        ≡ some (Insn.multiply size (gpr a) (gpr b), rest))
      × (decode (generate_imul_reg_mem size a m ++ rest)
          ≡ some (Insn.multiply size (gpr a) (address m), rest))
unfolding generate_imul_reg_reg generate_imul_reg_mem read_imm
decode-imul size a b m rest wide a-lt b-lt v = rw wide (
  decode-emit_reg size _ a false rest a-lt b false b-lt (Selects-wide size wide imul_form),
  decode-emit_mem size _ a false rest a-lt m false v (Selects-wide size wide imul_form),
)
  where
    imul_form :
        Selects
          (0x0F ∷ 0xAF ∷ [])
          (mod_rm false false false no_imms (λ w rm d r i. some (Insn.multiply w r rm)))
    imul_form = unfold put_seq two_byte in two 0xAF refl refl
