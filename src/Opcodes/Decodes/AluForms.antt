-- ===== src/Opcodes/Decodes/AluForms.antt =====
-- Each encoding of arithmetic with an immediate is decoded.
use ecpps.Common.{
  ℕ, ◌%◌, ◌<◌, ◌≡◌, refl, ap, ◌∙◌, Option, some, List, [], ◌∷◌, ◌++◌, arith, true, false,
}
use ecpps.Common.Int.{ℤ}
use ecpps.Opcodes.Operands.{Width, w8, Memory, AluOp, alu_value}
use ecpps.Opcodes.Emit.{
  put, put_seq, put_rex, is_byte, is_w64, emit_reg, emit_mem, operand_size_prefix,
}
use ecpps.Opcodes.Decoder.{decode, run}
use ecpps.Opcodes.Decoder.Instructions.{Insn}
use ecpps.Opcodes.Decoder.Operand.{Operand, gpr, signed_byte, operand_sized}
use ecpps.Opcodes.Decoder.Table.{one_byte}
use ecpps.Opcodes.Decoder.Forms.{mod_rm, always, alu_of}
use ecpps.Opcodes.ReadOperand.{IsEncodable, address}
use ecpps.Opcodes.ReadPrefixes.{is_plain}
use ecpps.Opcodes.ReadInsn.{
  Selects, one, finish, decode-emit_reg, decode-emit_mem, decode-opcode_plain, Selects-wide,
}
use Prim.Native.Nat.{bit_or}
use ecpps.Opcodes.Emit.{shl}

alu_digit : (op : AluOp) → alu_of (alu_value op % 8) ≡ op
alu_digit AluOp.add = refl
alu_digit _ = refl

alu_value-lt : (op : AluOp) → alu_value op < 16
alu_value-lt AluOp.add = omega arith
alu_value-lt _ = omega arith

abbrev alu_imm_build : Width → Operand → ℕ → Operand → ℤ → Option Insn
alu_imm_build w rm d r i = some (Insn.alu_imm (alu_of d) w rm i)

alu_imm_byte : Selects (0x80 ∷ []) (mod_rm true true false (always operand_sized) alu_imm_build)
unfolding put_seq one_byte is_plain
alu_imm_byte = one 0x80 refl refl refl

alu_imm_full : Selects (0x81 ∷ []) (mod_rm false false false (always operand_sized) alu_imm_build)
unfolding put_seq one_byte is_plain
alu_imm_full = one 0x81 refl refl refl

alu_imm_short : Selects (0x83 ∷ []) (mod_rm false false false (always signed_byte) alu_imm_build)
unfolding put_seq one_byte is_plain
alu_imm_short = one 0x83 refl refl refl

-- The form for the accumulator.
pub accumulator_step :
    (op : AluOp) (size : Width) (bs : List ℕ)
    → is_byte size ≡ false
    → decode (
        operand_size_prefix size
        ++ (put_rex (is_w64 size) false false false false
            ++ (put (bit_or (shl (alu_value op) 3) 5) ++ bs)))
      ≡ finish operand_sized size bs (λ i. some (Insn.alu_imm op size (gpr 0) i))
unfolding put is_plain run one_byte
accumulator_step AluOp.add w8 bs h = cc
accumulator_step _ w8 bs h = cc
accumulator_step AluOp.add size bs h = decode-opcode_plain size 0x05 bs refl
accumulator_step AluOp.or size bs h = decode-opcode_plain size 0x0D bs refl
accumulator_step AluOp.adc size bs h = decode-opcode_plain size 0x15 bs refl
accumulator_step AluOp.sbb size bs h = decode-opcode_plain size 0x1D bs refl
accumulator_step AluOp.and size bs h = decode-opcode_plain size 0x25 bs refl
accumulator_step AluOp.sub size bs h = decode-opcode_plain size 0x2D bs refl
accumulator_step AluOp.xor size bs h = decode-opcode_plain size 0x35 bs refl
accumulator_step AluOp.cmp size bs h = decode-opcode_plain size 0x3D bs refl

pub accumulator_byte_step :
    (op : AluOp) (bs : List ℕ)
    → decode (put (bit_or (shl (alu_value op) 3) 4) ++ bs)
      ≡ finish operand_sized w8 bs (λ i. some (Insn.alu_imm op w8 (gpr 0) i))
unfolding put is_plain run one_byte put_rex
accumulator_byte_step AluOp.add bs = decode-opcode_plain w8 0x04 bs refl
accumulator_byte_step AluOp.or bs = decode-opcode_plain w8 0x0C bs refl
accumulator_byte_step AluOp.adc bs = decode-opcode_plain w8 0x14 bs refl
accumulator_byte_step AluOp.sbb bs = decode-opcode_plain w8 0x1C bs refl
accumulator_byte_step AluOp.and bs = decode-opcode_plain w8 0x24 bs refl
accumulator_byte_step AluOp.sub bs = decode-opcode_plain w8 0x2C bs refl
accumulator_byte_step AluOp.xor bs = decode-opcode_plain w8 0x34 bs refl
accumulator_byte_step AluOp.cmp bs = decode-opcode_plain w8 0x3C bs refl

-- The register and memory forms: a short immediate at 83, a full one at 81, and 80 for bytes.
module _ (op : AluOp) (size : Width) (wide : is_byte size ≡ false) (r : List ℕ) where
  short_form :
      Selects (0x83 ∷ []) (mod_rm (is_byte size) false false (always signed_byte) alu_imm_build)
  short_form = Selects-wide size wide alu_imm_short

  full_form :
      Selects (0x81 ∷ []) (mod_rm (is_byte size) false false (always operand_sized) alu_imm_build)
  full_form = Selects-wide size wide alu_imm_full

  pub alu_reg_short :
      (reg : ℕ)
      → reg < 16
      → decode (emit_reg size (0x83 ∷ []) (alu_value op) reg false false ++ r)
        ≡ finish signed_byte size r (λ i. some (Insn.alu_imm op size (gpr reg) i))
  alu_reg_short reg h =
      decode-emit_reg size (0x83 ∷ []) (alu_value op) false r (alu_value-lt op) reg false h
        short_form
      ∙ ap (λ o. finish signed_byte size r (λ i. some (Insn.alu_imm o size (gpr reg) i)))
          (alu_digit op)

  pub alu_reg_full :
      (reg : ℕ)
      → reg < 16
      → decode (emit_reg size (0x81 ∷ []) (alu_value op) reg false false ++ r)
        ≡ finish operand_sized size r (λ i. some (Insn.alu_imm op size (gpr reg) i))
  alu_reg_full reg h =
      decode-emit_reg size (0x81 ∷ []) (alu_value op) false r (alu_value-lt op) reg false h
        full_form
      ∙ ap (λ o. finish operand_sized size r (λ i. some (Insn.alu_imm o size (gpr reg) i)))
          (alu_digit op)

  pub alu_mem_short :
      (m : Memory)
      → IsEncodable m
      → decode (emit_mem size (0x83 ∷ []) (alu_value op) m false ++ r)
        ≡ finish signed_byte size r (λ i. some (Insn.alu_imm op size (address m) i))
  alu_mem_short m v =
      decode-emit_mem size (0x83 ∷ []) (alu_value op) false r (alu_value-lt op) m false v short_form
      ∙ ap (λ o. finish signed_byte size r (λ i. some (Insn.alu_imm o size (address m) i)))
          (alu_digit op)

  pub alu_mem_full :
      (m : Memory)
      → IsEncodable m
      → decode (emit_mem size (0x81 ∷ []) (alu_value op) m false ++ r)
        ≡ finish operand_sized size r (λ i. some (Insn.alu_imm op size (address m) i))
  alu_mem_full m v =
      decode-emit_mem size (0x81 ∷ []) (alu_value op) false r (alu_value-lt op) m false v full_form
      ∙ ap (λ o. finish operand_sized size r (λ i. some (Insn.alu_imm o size (address m) i)))
          (alu_digit op)

pub alu_reg_byte :
    (op : AluOp) (reg : ℕ) (r : List ℕ)
    → reg < 16
    → decode (emit_reg w8 (0x80 ∷ []) (alu_value op) reg false true ++ r)
      ≡ finish operand_sized w8 r (λ i. some (Insn.alu_imm op w8 (gpr reg) i))
alu_reg_byte op reg r h =
    decode-emit_reg w8 (0x80 ∷ []) (alu_value op) false r (alu_value-lt op) reg true h alu_imm_byte
    ∙ ap (λ o. finish operand_sized w8 r (λ i. some (Insn.alu_imm o w8 (gpr reg) i))) (alu_digit op)

pub alu_mem_byte :
    (op : AluOp) (m : Memory) (r : List ℕ)
    → IsEncodable m
    → decode (emit_mem w8 (0x80 ∷ []) (alu_value op) m false ++ r)
      ≡ finish operand_sized w8 r (λ i. some (Insn.alu_imm op w8 (address m) i))
alu_mem_byte op m r v =
    decode-emit_mem w8 (0x80 ∷ []) (alu_value op) false r (alu_value-lt op) m true v alu_imm_byte
    ∙ ap (λ o. finish operand_sized w8 r (λ i. some (Insn.alu_imm o w8 (address m) i)))
        (alu_digit op)
