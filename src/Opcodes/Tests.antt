-- ===== src/Opcodes/Tests.antt =====
-- Runs of the encoder on concrete instructions, and its theorems at concrete operands.
use ecpps.Common.{ℕ, ◌%◌, ◌≡◌, refl, inl, inr, true, false, some, List, [], ◌∷◌, ◌++◌, arith}
use ecpps.Common.Int.{ℤ, pos, negsuc, to_bits}
use ecpps.Opcodes.Operands.{
  w8, w16, w32, w64, Memory, mem_indexed, AluOp, ShiftOp, UnaryOp, BitOp, ExtendKind, Condition,
}
use ecpps.Opcodes.Emit.{
  put_seq, put_imm, put_rex, put_mod_rm, put_mem_operand, put_sib, scale_bits, mem_ext_base,
  mem_ext_index, displacement_mode, put_displacement, fits_i8, imm_fits, requires_byte_rex,
  emit_reg, emit_mem,
}
use ecpps.Opcodes.Decoder.{decode}
use ecpps.Opcodes.Decoder.Operand.{gpr, read_rm}
use ecpps.Opcodes.Decoder.Instructions.{Insn}
use ecpps.Opcodes.Immediates.{modulus}
use ecpps.Opcodes.ReadOperand.{IsEncodable, address}
use ecpps.Opcodes.ReadMemory.{read_rm-put_mem_operand}
use ecpps.Opcodes.ReadPrefixes.{prefixes}
use ecpps.Opcodes.Generators.Arithmetic.{
  generate_alu_reg_reg, generate_alu_reg_mem, generate_alu_mem_reg, generate_alu_imm_reg,
  generate_alu_imm_mem, generate_test_reg_reg, generate_test_mem_reg, generate_test_imm_reg,
  generate_test_imm_mem, generate_unary_reg, generate_unary_mem, generate_imul_reg_reg,
  generate_imul_reg_mem,
}
use ecpps.Opcodes.Generators.Moves.{
  generate_mov_load, generate_mov_store, generate_mov_store_imm, generate_mov_extend_reg_to_reg,
  generate_mov_extend_mem_to_reg, generate_xchg_reg_reg, generate_xchg_mem_reg,
  generate_cmpxchg_mem_reg, generate_xadd_mem_reg, generate_cmov_reg_reg, generate_cmov_mem_reg,
  generate_setcc_reg, generate_setcc_mem, generate_lea,
}
use ecpps.Opcodes.Generators.Shifts.{
  generate_shift_reg_imm, generate_shift_reg_cl, generate_shift_mem_imm, generate_shift_mem_cl,
  generate_double_shift_reg_reg_imm, generate_double_shift_reg_reg_cl, generate_bit_test_reg_reg,
  generate_bit_test_reg_imm, generate_bit_test_mem_reg, generate_bit_test_mem_imm,
}
use ecpps.Opcodes.Generators.Control.{
  generate_jmp_rel8, generate_jmp_rel32, generate_jcc_rel8, generate_jcc_rel32, generate_call_rel32,
  generate_jmp_reg, generate_jmp_mem, generate_call_reg, generate_call_mem, generate_jrcxz,
  generate_loop, generate_push_imm, generate_push_mem, generate_pop_mem,
}
use ecpps.Opcodes.Decodes.Alu.{decode-alu}
use ecpps.Opcodes.Decodes.AluImmediate.{decode-alu_imm}
use ecpps.Opcodes.Decodes.Arithmetic.{decode-test, decode-unary, decode-imul}
use ecpps.Opcodes.Decodes.Moves.{decode-mov, decode-exchange, decode-conditional}
use ecpps.Opcodes.Decodes.Extend.{extension_insn, decode-extend}
use ecpps.Opcodes.Decodes.Shifts.{decode-shift}
use ecpps.Opcodes.Decodes.BitOperations.{decode-double_shift, decode-bit_test}
use ecpps.Opcodes.Decodes.Control.{decode-indirect, decode-short_jump, decode-near_jump}

-- add rax, rbx is 48 01 D8.
add_rax_rbx : generate_alu_reg_reg AluOp.add w64 0 3 ≡ 0x48 ∷ 0x01 ∷ 0xD8 ∷ []
unfolding generate_alu_reg_reg emit_reg put_rex put_seq put_mod_rm requires_byte_rex
add_rax_rbx = refl

-- mov sil, [r13 + r12 * 4 - 8] is 43 8A 74 A5 F8 with REX.R absent: 43 is REX.XB.
mov_sil :
    generate_mov_load w8 6 (mem_indexed 13 12 4 (negsuc 7)) ≡ 0x43 ∷ 0x8A ∷ 0x74 ∷ 0xA5 ∷ 0xF8 ∷ []
unfolding generate_mov_load emit_mem put_rex put_seq put_mem_operand put_mod_rm put_sib scale_bits
    mem_ext_base mem_ext_index displacement_mode put_displacement fits_i8 put_imm requires_byte_rex
mov_sil = refl

-- [r13 + r12 * 4 - 8]
abbrev operand : Memory
operand = mem_indexed 13 12 4 (negsuc 7)

operand-IsEncodable : IsEncodable operand
operand-IsEncodable = record {
  base_known = inl (omega arith);
  index_known = inl (omega arith);
  scale_known = inr (inr (inl refl));
  displacement_fits = omega arith;
}

abbrev tail : List ℕ
tail = 0xC3 ∷ []

minus_two_fits : imm_fits w16 (negsuc 1) ≡ true
unfolding imm_fits
minus_two_fits = refl

read_rm-put_mem_operand_example :
    read_rm (prefixes w64 true true true false) false (put_mem_operand 9 operand ++ tail)
    ≡ some (address operand, 9 % 8, tail)
read_rm-put_mem_operand_example =
    read_rm-put_mem_operand (prefixes w64 true true true false) false 9 operand tail
      operand-IsEncodable (unfold mem_ext_index in refl) (unfold mem_ext_base in refl)

decode-alu_example :
    (decode (generate_alu_reg_reg AluOp.sub w8 6 12 ++ tail)
      ≡ some (Insn.alu AluOp.sub w8 (gpr 6) (gpr 12), tail))
    × (decode (generate_alu_reg_mem AluOp.sub w8 operand 12 ++ tail)
        ≡ some (Insn.alu AluOp.sub w8 (address operand) (gpr 12), tail))
    × (decode (generate_alu_mem_reg AluOp.sub w8 6 operand ++ tail)
        ≡ some (Insn.alu AluOp.sub w8 (gpr 6) (address operand), tail))
decode-alu_example =
    decode-alu AluOp.sub w8 6 12 operand tail (omega arith) (omega arith) operand-IsEncodable

decode-alu_imm_example :
    (i : ℤ) × (decode (generate_alu_imm_reg AluOp.and w16 0 (negsuc 1) ++ tail)
      ≡ some (Insn.alu_imm AluOp.and w16 (gpr 0) i, tail))
    × (decode (generate_alu_imm_mem AluOp.and w16 operand (negsuc 1) ++ tail)
        ≡ some (Insn.alu_imm AluOp.and w16 (address operand) i, tail))
    × (to_bits (modulus w16) i ≡ to_bits (modulus w16) (negsuc 1))
decode-alu_imm_example =
    decode-alu_imm AluOp.and w16 0 operand (negsuc 1) tail (omega arith) operand-IsEncodable
      minus_two_fits

decode-test_example :
    (i : ℤ) × (decode (generate_test_reg_reg w16 0 7 ++ tail)
      ≡ some (Insn.test w16 (gpr 0) (gpr 7), tail))
    × (decode (generate_test_mem_reg w16 operand 7 ++ tail)
        ≡ some (Insn.test w16 (address operand) (gpr 7), tail))
    × (decode (generate_test_imm_reg w16 0 (negsuc 1) ++ tail)
        ≡ some (Insn.test_imm w16 (gpr 0) i, tail))
    × (decode (generate_test_imm_mem w16 operand (negsuc 1) ++ tail)
        ≡ some (Insn.test_imm w16 (address operand) i, tail))
    × (to_bits (modulus w16) i ≡ to_bits (modulus w16) (negsuc 1))
decode-test_example =
    decode-test w16 0 7 operand (negsuc 1) tail (omega arith) (omega arith) operand-IsEncodable
      minus_two_fits

decode-unary_example :
    (decode (generate_unary_reg UnaryOp.neg w8 5 ++ tail)
      ≡ some (Insn.unary UnaryOp.neg w8 (gpr 5), tail))
    × (decode (generate_unary_mem UnaryOp.neg w8 operand ++ tail)
        ≡ some (Insn.unary UnaryOp.neg w8 (address operand), tail))
decode-unary_example = decode-unary w8 5 operand tail (omega arith) operand-IsEncodable UnaryOp.neg

decode-imul_example :
    (decode (generate_imul_reg_reg w64 8 3 ++ tail)
      ≡ some (Insn.multiply w64 (gpr 8) (gpr 3), tail))
    × (decode (generate_imul_reg_mem w64 8 operand ++ tail)
        ≡ some (Insn.multiply w64 (gpr 8) (address operand), tail))
decode-imul_example =
    decode-imul w64 8 3 operand tail refl (omega arith) (omega arith) operand-IsEncodable

decode-mov_example :
    (i : ℤ) × (decode (generate_mov_load w16 7 operand ++ tail)
      ≡ some (Insn.move w16 (gpr 7) (address operand), tail))
    × (decode (generate_mov_store w16 operand 7 ++ tail)
        ≡ some (Insn.move w16 (address operand) (gpr 7), tail))
    × (decode (generate_mov_store_imm w16 operand (negsuc 1) ++ tail)
        ≡ some (Insn.move_imm w16 (address operand) i, tail))
    × (to_bits (modulus w16) i ≡ to_bits (modulus w16) (negsuc 1))
decode-mov_example =
    decode-mov w16 7 operand (negsuc 1) tail (omega arith) operand-IsEncodable minus_two_fits

decode-exchange_example :
    (decode (generate_xchg_reg_reg w8 4 9 ++ tail) ≡ some (Insn.exchange w8 (gpr 4) (gpr 9), tail))
    × (decode (generate_xchg_mem_reg w8 operand 9 ++ tail)
        ≡ some (Insn.exchange w8 (address operand) (gpr 9), tail))
    × (decode (generate_cmpxchg_mem_reg w8 operand 9 ++ tail)
        ≡ some (Insn.compare_exchange w8 (address operand) (gpr 9), tail))
    × (decode (generate_xadd_mem_reg w8 operand 9 ++ tail)
        ≡ some (Insn.exchange_add w8 (address operand) (gpr 9), tail))
decode-exchange_example =
    decode-exchange w8 4 9 operand tail (omega arith) (omega arith) operand-IsEncodable

decode-conditional_example :
    (decode (generate_cmov_reg_reg Condition.less w32 1 9 ++ tail)
      ≡ some (Insn.conditional_move Condition.less w32 (gpr 1) (gpr 9), tail))
    × (decode (generate_cmov_mem_reg Condition.less w32 1 operand ++ tail)
        ≡ some (Insn.conditional_move Condition.less w32 (gpr 1) (address operand), tail))
    × (decode (generate_setcc_reg Condition.less 1 ++ tail)
        ≡ some (Insn.set_condition Condition.less (gpr 1), tail))
    × (decode (generate_setcc_mem Condition.less operand ++ tail)
        ≡ some (Insn.set_condition Condition.less (address operand), tail))
    × (decode (generate_lea w32 1 operand ++ tail)
        ≡ some (Insn.load_address w32 (gpr 1) (address operand), tail))
decode-conditional_example =
    decode-conditional Condition.less w32 1 9 operand tail refl (omega arith) (omega arith)
      operand-IsEncodable

decode-extend_example :
    (decode (generate_mov_extend_reg_to_reg ExtendKind.sign w64 w8 2 6 ++ tail)
      ≡ some (extension_insn ExtendKind.sign w64 w8 (gpr 2) (gpr 6), tail))
    × (decode (generate_mov_extend_mem_to_reg ExtendKind.sign w64 w8 2 operand ++ tail)
        ≡ some (extension_insn ExtendKind.sign w64 w8 (gpr 2) (address operand), tail))
decode-extend_example =
    decode-extend 2 6 operand tail (omega arith) (omega arith) operand-IsEncodable ExtendKind.sign
      w64 w8 refl

decode-shift_example :
    (decode (generate_shift_reg_imm ShiftOp.sar w32 10 5 ++ tail)
      ≡ some (Insn.shift ShiftOp.sar w32 (gpr 10) (pos 5), tail))
    × (decode (generate_shift_mem_imm ShiftOp.sar w32 operand 5 ++ tail)
        ≡ some (Insn.shift ShiftOp.sar w32 (address operand) (pos 5), tail))
    × (decode (generate_shift_reg_cl ShiftOp.sar w32 10 ++ tail)
        ≡ some (Insn.shift_cl ShiftOp.sar w32 (gpr 10), tail))
    × (decode (generate_shift_mem_cl ShiftOp.sar w32 operand ++ tail)
        ≡ some (Insn.shift_cl ShiftOp.sar w32 (address operand), tail))
decode-shift_example =
    decode-shift ShiftOp.sar w32 10 operand (omega arith) operand-IsEncodable 5 tail (omega arith)

decode-double_shift_example :
    (decode (generate_double_shift_reg_reg_imm true w64 1 2 9 ++ tail)
      ≡ some (Insn.double_shift true w64 (gpr 1) (gpr 2) (pos 9), tail))
    × (decode (generate_double_shift_reg_reg_cl true w64 1 2 ++ tail)
        ≡ some (Insn.double_shift_cl true w64 (gpr 1) (gpr 2), tail))
decode-double_shift_example =
    decode-double_shift w64 1 2 operand refl (omega arith) (omega arith) operand-IsEncodable true 9
      tail (omega arith)

decode-bit_test_example :
    (decode (generate_bit_test_reg_reg BitOp.btr w64 1 2 ++ tail)
      ≡ some (Insn.bit_test BitOp.btr w64 (gpr 1) (gpr 2), tail))
    × (decode (generate_bit_test_mem_reg BitOp.btr w64 operand 2 ++ tail)
        ≡ some (Insn.bit_test BitOp.btr w64 (address operand) (gpr 2), tail))
    × (decode (generate_bit_test_reg_imm BitOp.btr w64 1 9 ++ tail)
        ≡ some (Insn.bit_test_imm BitOp.btr w64 (gpr 1) (pos 9), tail))
    × (decode (generate_bit_test_mem_imm BitOp.btr w64 operand 9 ++ tail)
        ≡ some (Insn.bit_test_imm BitOp.btr w64 (address operand) (pos 9), tail))
decode-bit_test_example =
    decode-bit_test w64 1 2 operand refl (omega arith) (omega arith) operand-IsEncodable BitOp.btr 9
      tail (omega arith)

decode-indirect_example :
    (decode (generate_jmp_reg 11 ++ tail) ≡ some (Insn.jump_to (gpr 11), tail))
    × (decode (generate_jmp_mem operand ++ tail) ≡ some (Insn.jump_to (address operand), tail))
    × (decode (generate_call_reg 11 ++ tail) ≡ some (Insn.call_to (gpr 11), tail))
    × (decode (generate_call_mem operand ++ tail) ≡ some (Insn.call_to (address operand), tail))
    × (decode (generate_push_mem operand ++ tail) ≡ some (Insn.push (address operand), tail))
    × (decode (generate_pop_mem operand ++ tail) ≡ some (Insn.pop (address operand), tail))
decode-indirect_example = decode-indirect 11 operand tail (omega arith) operand-IsEncodable

decode-short_jump_example :
    (decode (generate_jmp_rel8 (negsuc 127) ++ tail) ≡ some (Insn.jump (negsuc 127), tail))
    × (decode (generate_jcc_rel8 Condition.equal (negsuc 127) ++ tail)
        ≡ some (Insn.jump_if Condition.equal (negsuc 127), tail))
    × (decode (generate_jrcxz (negsuc 127) ++ tail)
        ≡ some (Insn.jump_if_rcx_zero (negsuc 127), tail))
    × (decode (generate_loop (negsuc 127) ++ tail) ≡ some (Insn.loop (negsuc 127), tail))
decode-short_jump_example = decode-short_jump Condition.equal (negsuc 127) tail (omega arith)

decode-near_jump_example :
    (decode (generate_jmp_rel32 (pos 300) ++ tail) ≡ some (Insn.jump (pos 300), tail))
    × (decode (generate_jcc_rel32 Condition.equal (pos 300) ++ tail)
        ≡ some (Insn.jump_if Condition.equal (pos 300), tail))
    × (decode (generate_call_rel32 (pos 300) ++ tail) ≡ some (Insn.call (pos 300), tail))
    × (decode (generate_push_imm (pos 300) ++ tail) ≡ some (Insn.push_imm (pos 300), tail))
decode-near_jump_example = decode-near_jump Condition.equal (pos 300) tail (omega arith)
