-- ===== src/Opcodes/Decodes/Alu.antt =====
-- The two-operand arithmetic: what its generators write is decoded.
use ecpps.Common.{ℕ, ◌<◌, ◌≡◌, refl, some, List, [], ◌∷◌, ◌++◌}
use ecpps.Opcodes.Operands.{Width, w8, Memory, AluOp, alu_value}
use ecpps.Opcodes.Emit.{put_seq, is_byte}
use ecpps.Opcodes.Decoder.{decode}
use ecpps.Opcodes.Decoder.Instructions.{Insn}
use ecpps.Opcodes.Decoder.Operand.{gpr, read_imm}
use ecpps.Opcodes.Decoder.Table.{one_byte}
use ecpps.Opcodes.Decoder.Forms.{mod_rm, no_imms}
use ecpps.Opcodes.ReadOperand.{IsEncodable, address}
use ecpps.Opcodes.ReadInsn.{Selects, one, decode-emit_reg, decode-emit_mem}
use ecpps.Opcodes.ReadPrefixes.{is_plain}
use ecpps.Opcodes.Generators.Arithmetic.{
  generate_alu_reg_reg, generate_alu_reg_mem, generate_alu_mem_reg, wide_bit,
}
use Prim.Native.Nat.{bit_or}
use ecpps.Opcodes.Emit.{shl}

alu_rm_r :
    (op : AluOp) (size : Width)
    → Selects (bit_or (shl (alu_value op) 3) (wide_bit size) ∷ []) (
        mod_rm
          (is_byte size)
          (is_byte size)
          (is_byte size)
          no_imms
          (λ w rm d r i. some (Insn.alu op w rm r)))
unfolding put_seq one_byte is_plain
alu_rm_r AluOp.add w8 = one _ refl refl refl
alu_rm_r _ w8 = one _ refl refl refl
alu_rm_r _ _ = one _ refl refl refl

alu_r_rm :
    (op : AluOp) (size : Width)
    → Selects (bit_or (bit_or (shl (alu_value op) 3) 2) (wide_bit size) ∷ []) (
        mod_rm
          (is_byte size)
          (is_byte size)
          (is_byte size)
          no_imms
          (λ w rm d r i. some (Insn.alu op w r rm)))
unfolding put_seq one_byte is_plain
alu_r_rm AluOp.add w8 = one _ refl refl refl
alu_r_rm _ w8 = one _ refl refl refl
alu_r_rm _ _ = one _ refl refl refl

module _ (op : AluOp) (size : Width) (a b : ℕ) (m : Memory) (rest : List ℕ) (a-lt : a < 16)
    (b-lt : b < 16) (v : IsEncodable m) where
  -- The two-operand arithmetic on registers and memory is decoded as itself: the operation, the
  -- width, the destination and the source are those asked for, and all bytes are read.
  pub decode-alu :
      (decode (generate_alu_reg_reg op size a b ++ rest)
        ≡ some (Insn.alu op size (gpr a) (gpr b), rest))
      × (decode (generate_alu_reg_mem op size m b ++ rest)
          ≡ some (Insn.alu op size (address m) (gpr b), rest))
      × (decode (generate_alu_mem_reg op size a m ++ rest)
          ≡ some (Insn.alu op size (gpr a) (address m), rest))
  unfolding generate_alu_reg_reg generate_alu_reg_mem generate_alu_mem_reg read_imm
  decode-alu = (
    decode-emit_reg size _ b (is_byte size) rest b-lt a (is_byte size) a-lt (alu_rm_r op size),
    decode-emit_mem size _ b (is_byte size) rest b-lt m (is_byte size) v (alu_rm_r op size),
    decode-emit_mem size _ a (is_byte size) rest a-lt m (is_byte size) v (alu_r_rm op size),
  )
