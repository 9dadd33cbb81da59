-- ===== src/Opcodes/Generators/Control.antt =====
-- The generators of jumps, calls, the stack and string operations, Opcodes.cpp lines 2641-2675,
-- 3108-3221 and 3269-3302.
use ecpps.Common.{ℕ, ◌+◌, false, List, [], ◌∷◌, ◌++◌, bit_or, if◌then◌else◌}
use ecpps.Common.Int.{ℤ, pos}
use ecpps.Opcodes.Operands.{
  Width, w32, Memory, Condition, condition_value, StringOp, string_value, RepPrefix,
}
use ecpps.Opcodes.Emit.{
  put, put_seq, put_imm, put_rex, is_byte, is_w64, fits_i8, operand_size_prefix, emit_reg, emit_mem,
}

unfoldable pub generate_ret_imm : ℕ → List ℕ
generate_ret_imm pop_bytes = put 0xC2 ++ put_imm (pos pop_bytes) 2

unfoldable pub generate_int : ℕ → List ℕ
generate_int vector = put_seq (0xCD ∷ vector ∷ [])

unfoldable pub generate_jmp_rel8 : ℤ → List ℕ
generate_jmp_rel8 rel = put 0xEB ++ put_imm rel 1

unfoldable pub generate_jmp_rel32 : ℤ → List ℕ
generate_jmp_rel32 rel = put 0xE9 ++ put_imm rel 4

unfoldable pub generate_jcc_rel8 : Condition → ℤ → List ℕ
generate_jcc_rel8 cc rel = put (0x70 + condition_value cc) ++ put_imm rel 1

unfoldable pub generate_jcc_rel32 : Condition → ℤ → List ℕ
generate_jcc_rel32 cc rel = put_seq (0x0F ∷ (0x80 + condition_value cc) ∷ []) ++ put_imm rel 4

unfoldable pub generate_call_rel32 : ℤ → List ℕ
generate_call_rel32 rel = put 0xE8 ++ put_imm rel 4

unfoldable pub generate_jmp_reg : ℕ → List ℕ
generate_jmp_reg reg = emit_reg w32 (0xFF ∷ []) 4 reg false false

unfoldable pub generate_jmp_mem : Memory → List ℕ
generate_jmp_mem target = emit_mem w32 (0xFF ∷ []) 4 target false

unfoldable pub generate_call_reg : ℕ → List ℕ
generate_call_reg reg = emit_reg w32 (0xFF ∷ []) 2 reg false false

unfoldable pub generate_call_mem : Memory → List ℕ
generate_call_mem target = emit_mem w32 (0xFF ∷ []) 2 target false

unfoldable pub generate_jrcxz : ℤ → List ℕ
generate_jrcxz rel = put 0xE3 ++ put_imm rel 1

unfoldable pub generate_loop : ℤ → List ℕ
generate_loop rel = put 0xE2 ++ put_imm rel 1

unfoldable pub generate_push_imm : ℤ → List ℕ
generate_push_imm imm = if fits_i8 imm then put 0x6A ++ put_imm imm 1 else put 0x68 ++ put_imm imm 4

unfoldable pub generate_push_mem : Memory → List ℕ
generate_push_mem mem = emit_mem w32 (0xFF ∷ []) 6 mem false

unfoldable pub generate_pop_mem : Memory → List ℕ
generate_pop_mem mem = emit_mem w32 (0x8F ∷ []) 0 mem false

abbrev pub rep_prefix : RepPrefix → List ℕ
rep_prefix RepPrefix.none = []
rep_prefix RepPrefix.rep = 0xF3 ∷ []
rep_prefix RepPrefix.repne = 0xF2 ∷ []

unfoldable pub generate_string_op : StringOp → Width → RepPrefix → List ℕ
generate_string_op op size prefix =
    rep_prefix prefix
    ++ (operand_size_prefix size
        ++ (put_rex (is_w64 size) false false false false
            ++ put (bit_or (string_value op) (if is_byte size then 0 else 1))))

unfoldable pub generate_in_imm8 : Width → ℕ → List ℕ
generate_in_imm8 size port =
    if is_w64 size
    then []
    else operand_size_prefix size ++ (put (if is_byte size then 0xE4 else 0xE5) ++ put port)

unfoldable pub generate_in_dx : Width → List ℕ
generate_in_dx size =
    if is_w64 size
    then []
    else operand_size_prefix size ++ put (if is_byte size then 0xEC else 0xED)

unfoldable pub generate_out_imm8 : Width → ℕ → List ℕ
generate_out_imm8 size port =
    if is_w64 size
    then []
    else operand_size_prefix size ++ (put (if is_byte size then 0xE6 else 0xE7) ++ put port)

unfoldable pub generate_out_dx : Width → List ℕ
generate_out_dx size =
    if is_w64 size
    then []
    else operand_size_prefix size ++ put (if is_byte size then 0xEE else 0xEF)
