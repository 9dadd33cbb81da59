-- ===== src/Opcodes/Decodes/AluImmediate.antt =====
-- Arithmetic with an immediate: what its generators write is decoded, in each of the encodings.
use ecpps.Common.{
  ℕ, ◌<◌, ◌≡◌, refl, ap, ◌∙◌, inl, inr, some, List, ◌++◌, append_assoc, arith, true, false, ◌==◌,
  Bool-cases, ◌>>=◌,
}
use ecpps.Common.Int.{ℤ, to_bits}
use ecpps.Opcodes.Operands.{Width, w8, w16, w32, w64, Memory, rax, AluOp}
use ecpps.Opcodes.Emit.{is_byte, imm_fits, imm_normalise, fits_i8}
use ecpps.Opcodes.Decoder.{decode}
use ecpps.Opcodes.Decoder.Instructions.{Insn}
use ecpps.Opcodes.Decoder.Operand.{gpr}
use ecpps.Opcodes.Immediates.{to_bits-imm_normalise, modulus}
use ecpps.Opcodes.ReadOperand.{IsEncodable, address}
use ecpps.Opcodes.ReadInsn.{read_imm-operand_sized, decode-with_short, decode-with_sized}
use ecpps.Opcodes.Generators.Arithmetic.{generate_alu_imm_reg, generate_alu_imm_mem}
use ecpps.Opcodes.Generators.Arithmetic.{alu_accumulator}
use ecpps.Opcodes.Decodes.AluForms.{
  accumulator_step, accumulator_byte_step, alu_reg_byte, alu_mem_byte, alu_reg_short, alu_reg_full,
  alu_mem_short, alu_mem_full,
}

accumulator_sized :
    (op : AluOp) (size : Width) (z : ℤ) (rest : List ℕ)
    → imm_fits size z ≡ true
    → is_byte size ≡ false
    → decode (alu_accumulator op size (imm_normalise size z) ++ rest)
      ≡ some (Insn.alu_imm op size (gpr 0) (imm_normalise size z), rest)
unfolding alu_accumulator
accumulator_sized op size z rest h wide =
    rw (append_assoc, append_assoc, append_assoc)
      (accumulator_step op size _ wide
        ∙ ap (λ o. o >>= (λ (i, r). some (Insn.alu_imm op size (gpr 0) i, r)))
            (read_imm-operand_sized size z rest h))

module _ (op : AluOp) (size : Width) (reg : ℕ) (z : ℤ) (rest : List ℕ) (reg-lt : reg < 16)
    (h : imm_fits size z ≡ true) where
  decode-alu_imm_wide :
      is_byte size ≡ false
      → decode (generate_alu_imm_reg op size reg z ++ rest)
        ≡ some (Insn.alu_imm op size (gpr reg) (imm_normalise size z), rest)
  unfolding generate_alu_imm_reg
  decode-alu_imm_wide wide = elim (Bool-cases (fits_i8 (imm_normalise size z))) [
    | inl s ↦
        rw (h, wide, s)
          (decode-with_short size _ (Insn.alu_imm op size (gpr reg)) rest _
            (λ r. alu_reg_short op size wide r reg reg-lt) s)
    | inr s ↦
        rw (h, wide, s)
          (elim (Bool-cases (reg == rax)) [
            | inl a ↦ rw a (
                let zero' : reg ≡ 0 = ground arith in
                rw zero' (accumulator_sized op size z rest h wide))
            | inr a ↦ rw a (
                decode-with_sized size _ (Insn.alu_imm op size (gpr reg)) rest z
                  (λ r. alu_reg_full op size wide r reg reg-lt) h)
          ])
  ]

decode-alu_imm_byte :
    (op : AluOp) (reg : ℕ) (z : ℤ) (rest : List ℕ)
    → reg < 16
    → imm_fits w8 z ≡ true
    → decode (generate_alu_imm_reg op w8 reg z ++ rest)
      ≡ some (Insn.alu_imm op w8 (gpr reg) (imm_normalise w8 z), rest)
unfolding generate_alu_imm_reg
decode-alu_imm_byte op reg z rest reg-lt h = elim (Bool-cases (reg == rax)) [
  | inl a ↦
      let zero' : reg ≡ 0 = ground arith in
      rw (h, zero')
        (decode-with_sized w8 _ (Insn.alu_imm op w8 (gpr 0)) rest z
          (λ r. accumulator_byte_step op r) h)
  | inr a ↦
      rw (h, a)
        (decode-with_sized w8 _ (Insn.alu_imm op w8 (gpr reg)) rest z
          (λ r. alu_reg_byte op reg r reg-lt) h)
]

decode-alu_imm_mem :
    (op : AluOp) (size : Width) (m : Memory) (z : ℤ) (rest : List ℕ)
    → IsEncodable m
    → imm_fits size z ≡ true
    → decode (generate_alu_imm_mem op size m z ++ rest)
      ≡ some (Insn.alu_imm op size (address m) (imm_normalise size z), rest)
unfolding generate_alu_imm_mem
decode-alu_imm_mem op size m z rest v h = elim (Bool-cases (is_byte size)) [
  | inl b ↦ byte_case size h b
  | inr wide ↦ elim (Bool-cases (fits_i8 (imm_normalise size z))) [
    | inl s ↦
        rw (h, wide, s)
          (decode-with_short size _ (Insn.alu_imm op size (address m)) rest _
            (λ r. alu_mem_short op size wide r m v) s)
    | inr s ↦
        rw (h, wide, s)
          (decode-with_sized size _ (Insn.alu_imm op size (address m)) rest z
            (λ r. alu_mem_full op size wide r m v) h)
  ]
]
  where
    byte_case :
        (size : Width)
        → imm_fits size z ≡ true
        → is_byte size ≡ true
        → decode (generate_alu_imm_mem op size m z ++ rest)
          ≡ some (Insn.alu_imm op size (address m) (imm_normalise size z), rest)
    byte_case w8 h b = rw h (
        decode-with_sized w8 _ (Insn.alu_imm op w8 (address m)) rest z (λ r. alu_mem_byte op m r v)
          h)
    byte_case w16 h b = cc
    byte_case w32 h b = cc
    byte_case w64 h b = cc

decode-alu_imm_reg :
    (op : AluOp) (size : Width) (reg : ℕ) (z : ℤ) (rest : List ℕ)
    → reg < 16
    → imm_fits size z ≡ true
    → decode (generate_alu_imm_reg op size reg z ++ rest)
      ≡ some (Insn.alu_imm op size (gpr reg) (imm_normalise size z), rest)
decode-alu_imm_reg op w8 reg z rest reg-lt h = decode-alu_imm_byte op reg z rest reg-lt h
decode-alu_imm_reg op w16 reg z rest reg-lt h = decode-alu_imm_wide op w16 reg z rest reg-lt h refl
decode-alu_imm_reg op w32 reg z rest reg-lt h = decode-alu_imm_wide op w32 reg z rest reg-lt h refl
decode-alu_imm_reg op w64 reg z rest reg-lt h = decode-alu_imm_wide op w64 reg z rest reg-lt h refl

-- Arithmetic with an immediate that the width admits is decoded as that operation on the register or
-- the address, whichever of the five encodings is chosen, and the immediate that is decoded equals
-- the given one modulo the width.
pub decode-alu_imm :
    (op : AluOp) (size : Width) (reg : ℕ) (m : Memory) (z : ℤ) (rest : List ℕ)
    → reg < 16
    → IsEncodable m
    → imm_fits size z ≡ true
    → (i : ℤ) × (decode (generate_alu_imm_reg op size reg z ++ rest)
        ≡ some (Insn.alu_imm op size (gpr reg) i, rest))
      × (decode (generate_alu_imm_mem op size m z ++ rest)
          ≡ some (Insn.alu_imm op size (address m) i, rest))
      × (to_bits (modulus size) i ≡ to_bits (modulus size) z)
decode-alu_imm op size reg m z rest reg-lt v h = (
  imm_normalise size z,
  decode-alu_imm_reg op size reg z rest reg-lt h,
  decode-alu_imm_mem op size m z rest v h,
  to_bits-imm_normalise size z,
)
