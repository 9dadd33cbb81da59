-- ===== src/Opcodes/Generators/Arithmetic.antt =====
-- The generators of arithmetic and tests, Opcodes.cpp lines 2677-2803 and 2927-2983.
use ecpps.Common.{ℕ, true, false, not, ◌||◌, List, [], ◌∷◌, ◌++◌, bit_or, leb, ◌==◌, if◌then◌else◌}
use ecpps.Common.Int.{ℤ}
use ecpps.Opcodes.Operands.{Width, rax, Memory, AluOp, alu_value, UnaryOp, unary_value}
use ecpps.Opcodes.Emit.{
  shl, put, put_imm, put_rex, is_byte, is_w64, imm_size, fits_i8, imm_fits, imm_normalise,
  operand_size_prefix, emit_reg, emit_mem,
}

abbrev pub wide_bit : Width → ℕ
wide_bit size = if is_byte size then 0 else 1

unfoldable pub generate_alu_reg_reg : AluOp → Width → ℕ → ℕ → List ℕ
generate_alu_reg_reg op size destination source =
    let opc = bit_or (shl (alu_value op) 3) (wide_bit size) in
    emit_reg size (opc ∷ []) source destination (is_byte size) (is_byte size)

unfoldable pub generate_alu_reg_mem : AluOp → Width → Memory → ℕ → List ℕ
generate_alu_reg_mem op size destination source =
    let opc = bit_or (shl (alu_value op) 3) (wide_bit size) in
    emit_mem size (opc ∷ []) source destination (is_byte size)

unfoldable pub generate_alu_mem_reg : AluOp → Width → ℕ → Memory → List ℕ
generate_alu_mem_reg op size destination source =
    let opc = bit_or (bit_or (shl (alu_value op) 3) 2) (wide_bit size) in
    emit_mem size (opc ∷ []) destination source (is_byte size)

-- The accumulator form, which has no ModRM byte.
unfoldable pub alu_accumulator : AluOp → Width → ℤ → List ℕ
alu_accumulator op size imm =
    operand_size_prefix size
    ++ (put_rex (is_w64 size) false false false false
        ++ (put (bit_or (shl (alu_value op) 3) 5) ++ put_imm imm (imm_size size)))

unfoldable pub generate_alu_imm_reg : AluOp → Width → ℕ → ℤ → List ℕ
unfolding alu_accumulator
generate_alu_imm_reg op size reg imm0 =
    let imm = imm_normalise size imm0 in
    let ext = alu_value op in
    if not (imm_fits size imm0)
    then []
    else if is_byte size
    then if reg == rax
      then put (bit_or (shl ext 3) 4) ++ put_imm imm 1
      else emit_reg size (0x80 ∷ []) ext reg false true ++ put_imm imm 1
    else if fits_i8 imm
    then emit_reg size (0x83 ∷ []) ext reg false false ++ put_imm imm 1
    else if reg == rax
    then alu_accumulator op size imm
    else emit_reg size (0x81 ∷ []) ext reg false false ++ put_imm imm (imm_size size)

unfoldable pub generate_alu_imm_mem : AluOp → Width → Memory → ℤ → List ℕ
generate_alu_imm_mem op size destination imm0 =
    let imm = imm_normalise size imm0 in
    let ext = alu_value op in
    if not (imm_fits size imm0)
    then []
    else if is_byte size
    then emit_mem size (0x80 ∷ []) ext destination false ++ put_imm imm 1
    else if fits_i8 imm
    then emit_mem size (0x83 ∷ []) ext destination false ++ put_imm imm 1
    else emit_mem size (0x81 ∷ []) ext destination false ++ put_imm imm (imm_size size)

unfoldable pub generate_test_reg_reg : Width → ℕ → ℕ → List ℕ
generate_test_reg_reg size a b =
    emit_reg size ((if is_byte size then 0x84 else 0x85) ∷ []) b a (is_byte size) (is_byte size)

unfoldable pub generate_test_mem_reg : Width → Memory → ℕ → List ℕ
generate_test_mem_reg size a b =
    emit_mem size ((if is_byte size then 0x84 else 0x85) ∷ []) b a (is_byte size)

unfoldable pub generate_test_imm_reg : Width → ℕ → ℤ → List ℕ
generate_test_imm_reg size reg imm0 =
    let imm = imm_normalise size imm0 in
    if not (imm_fits size imm0)
    then []
    else (if reg == rax
        then operand_size_prefix size
          ++ (put_rex (is_w64 size) false false false false
              ++ put (if is_byte size then 0xA8 else 0xA9))
        else emit_reg size ((if is_byte size then 0xF6 else 0xF7) ∷ []) 0 reg false (is_byte size))
      ++ put_imm imm (imm_size size)

unfoldable pub generate_test_imm_mem : Width → Memory → ℤ → List ℕ
generate_test_imm_mem size mem imm0 =
    let imm = imm_normalise size imm0 in
    if not (imm_fits size imm0)
    then []
    else emit_mem size ((if is_byte size then 0xF6 else 0xF7) ∷ []) 0 mem false
      ++ put_imm imm (imm_size size)

-- (op <= UnaryOp::Dec ? 0xFE : 0xF6) | (IsByte(size) ? 0 : 1)
abbrev pub unary_opcode : UnaryOp → Width → ℕ
unary_opcode op size = bit_or (if leb (unary_value op) 1 then 0xFE else 0xF6) (wide_bit size)

unfoldable pub generate_unary_reg : UnaryOp → Width → ℕ → List ℕ
generate_unary_reg op size reg =
    emit_reg size (unary_opcode op size ∷ []) (unary_value op) reg false (is_byte size)

unfoldable pub generate_unary_mem : UnaryOp → Width → Memory → List ℕ
generate_unary_mem op size mem =
    emit_mem size (unary_opcode op size ∷ []) (unary_value op) mem false

unfoldable pub generate_imul_reg_reg : Width → ℕ → ℕ → List ℕ
generate_imul_reg_reg size destination source =
    if is_byte size then [] else emit_reg size (0x0F ∷ 0xAF ∷ []) destination source false false

unfoldable pub generate_imul_reg_mem : Width → ℕ → Memory → List ℕ
generate_imul_reg_mem size destination source =
    if is_byte size then [] else emit_mem size (0x0F ∷ 0xAF ∷ []) destination source false

unfoldable pub generate_imul_reg_reg_imm : Width → ℕ → ℕ → ℤ → List ℕ
generate_imul_reg_reg_imm size destination source imm0 =
    let imm = imm_normalise size imm0 in
    let small = fits_i8 imm in
    if is_byte size || not (imm_fits size imm0)
    then []
    else emit_reg size ((if small then 0x6B else 0x69) ∷ []) destination source false false
      ++ put_imm imm (if small then 1 else imm_size size)

unfoldable pub generate_imul_reg_mem_imm : Width → ℕ → Memory → ℤ → List ℕ
generate_imul_reg_mem_imm size destination source imm0 =
    let imm = imm_normalise size imm0 in
    let small = fits_i8 imm in
    if is_byte size || not (imm_fits size imm0)
    then []
    else emit_mem size ((if small then 0x6B else 0x69) ∷ []) destination source false
      ++ put_imm imm (if small then 1 else imm_size size)
