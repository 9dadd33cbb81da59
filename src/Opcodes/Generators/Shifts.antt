-- ===== src/Opcodes/Generators/Shifts.antt =====
-- The generators of shifts and bit operations, Opcodes.cpp lines 2984-3107.
use ecpps.Common.{
  ℕ, ◌+◌, ◌*◌, Bool, true, false, List, [], ◌∷◌, ◌++◌, bit_and, leb, ◌==◌, if◌then◌else◌,
}
use ecpps.Opcodes.Operands.{Width, w32, w64, Memory, ShiftOp, shift_value, BitOp, bit_value}
use ecpps.Opcodes.Emit.{put, put_rex, is_byte, is_w64, emit_reg, emit_mem}

unfoldable pub generate_shift_reg_imm : ShiftOp → Width → ℕ → ℕ → List ℕ
generate_shift_reg_imm op size reg count =
    let ext = shift_value op in
    if count == 1
    then emit_reg size ((if is_byte size then 0xD0 else 0xD1) ∷ []) ext reg false (is_byte size)
    else emit_reg size ((if is_byte size then 0xC0 else 0xC1) ∷ []) ext reg false (is_byte size)
      ++ put count

unfoldable pub generate_shift_reg_cl : ShiftOp → Width → ℕ → List ℕ
generate_shift_reg_cl op size reg =
    emit_reg size ((if is_byte size then 0xD2 else 0xD3) ∷ []) (shift_value op) reg false
      (is_byte size)

unfoldable pub generate_shift_mem_imm : ShiftOp → Width → Memory → ℕ → List ℕ
generate_shift_mem_imm op size mem count =
    let ext = shift_value op in
    if count == 1
    then emit_mem size ((if is_byte size then 0xD0 else 0xD1) ∷ []) ext mem false
    else emit_mem size ((if is_byte size then 0xC0 else 0xC1) ∷ []) ext mem false ++ put count

unfoldable pub generate_shift_mem_cl : ShiftOp → Width → Memory → List ℕ
generate_shift_mem_cl op size mem =
    emit_mem size ((if is_byte size then 0xD2 else 0xD3) ∷ []) (shift_value op) mem false

unfoldable pub generate_double_shift_reg_reg_imm : Bool → Width → ℕ → ℕ → ℕ → List ℕ
generate_double_shift_reg_reg_imm right size destination source count =
    if is_byte size
    then []
    else emit_reg size (0x0F ∷ (if right then 0xAC else 0xA4) ∷ []) source destination false false
      ++ put count

unfoldable pub generate_double_shift_reg_reg_cl : Bool → Width → ℕ → ℕ → List ℕ
generate_double_shift_reg_reg_cl right size destination source =
    if is_byte size
    then []
    else emit_reg size (0x0F ∷ (if right then 0xAD else 0xA5) ∷ []) source destination false false

unfoldable pub generate_bit_test_reg_reg : BitOp → Width → ℕ → ℕ → List ℕ
generate_bit_test_reg_reg op size base bit =
    if is_byte size
    then []
    else emit_reg size (0x0F ∷ (0xA3 + 8 * bit_value op) ∷ []) bit base false false

unfoldable pub generate_bit_test_reg_imm : BitOp → Width → ℕ → ℕ → List ℕ
generate_bit_test_reg_imm op size base bit =
    if is_byte size
    then []
    else emit_reg size (0x0F ∷ 0xBA ∷ []) (4 + bit_value op) base false false ++ put bit

unfoldable pub generate_bit_test_mem_reg : BitOp → Width → Memory → ℕ → List ℕ
generate_bit_test_mem_reg op size base bit =
    if is_byte size
    then []
    else emit_mem size (0x0F ∷ (0xA3 + 8 * bit_value op) ∷ []) bit base false

unfoldable pub generate_bit_test_mem_imm : BitOp → Width → Memory → ℕ → List ℕ
generate_bit_test_mem_imm op size base bit =
    if is_byte size
    then []
    else emit_mem size (0x0F ∷ 0xBA ∷ []) (4 + bit_value op) base false ++ put bit

unfoldable pub generate_bit_scan_reg_reg : Bool → Width → ℕ → ℕ → List ℕ
generate_bit_scan_reg_reg reverse size destination source =
    if is_byte size
    then []
    else emit_reg size (0x0F ∷ (if reverse then 0xBD else 0xBC) ∷ []) destination source false false

unfoldable pub generate_bit_scan_mem_reg : Bool → Width → ℕ → Memory → List ℕ
generate_bit_scan_mem_reg reverse size destination source =
    if is_byte size
    then []
    else emit_mem size (0x0F ∷ (if reverse then 0xBD else 0xBC) ∷ []) destination source false

-- size != W32 && size != W64
abbrev pub too_narrow : Width → Bool
too_narrow w32 = false
too_narrow w64 = false
too_narrow _ = true

unfoldable pub generate_bswap : Width → ℕ → List ℕ
generate_bswap size reg =
    if too_narrow size
    then []
    else put_rex (is_w64 size) false false (leb 8 reg) false
      ++ (put 0x0F ++ put (0xC8 + bit_and reg 7))
