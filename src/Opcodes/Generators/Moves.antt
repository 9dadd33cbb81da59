-- ===== src/Opcodes/Generators/Moves.antt =====
-- The generators of moves and exchanges, Opcodes.cpp lines 2600-2639 and 2805-2925.
use ecpps.Common.{ℕ, ◌+◌, Bool, true, false, not, ◌&&◌, List, [], ◌∷◌, ◌++◌, leb, if◌then◌else◌}
use ecpps.Common.Int.{ℤ}
use ecpps.Opcodes.Operands.{
  Width, w8, w16, w32, w64, width_value, Memory, ExtendKind, Condition, condition_value,
}
use ecpps.Opcodes.Emit.{
  put_seq, put_imm, put_rex, put_mod_rm, put_mem_operand, mem_ext_base, mem_ext_index, is_byte,
  is_w64, imm_size, imm_fits, imm_normalise, operand_size_prefix, requires_byte_rex, emit_reg,
  emit_mem,
}

unfoldable pub generate_mov_load : Width → ℕ → Memory → List ℕ
generate_mov_load size destination source =
    emit_mem size ((if is_byte size then 0x8A else 0x8B) ∷ []) destination source (is_byte size)

unfoldable pub generate_mov_store : Width → Memory → ℕ → List ℕ
generate_mov_store size destination source =
    emit_mem size ((if is_byte size then 0x88 else 0x89) ∷ []) source destination (is_byte size)

unfoldable pub generate_mov_store_imm : Width → Memory → ℤ → List ℕ
generate_mov_store_imm size destination imm0 =
    let imm = imm_normalise size imm0 in
    if not (imm_fits size imm0)
    then []
    else emit_mem size ((if is_byte size then 0xC6 else 0xC7) ∷ []) 0 destination false
      ++ put_imm imm (imm_size size)

pub record ExtendEncoding : Type 0 where
  pub valid : Bool
  pub bytes : List ℕ
  pub size : Width

-- ExtendEncoding e{}
abbrev pub invalid_encoding : ExtendEncoding
invalid_encoding = record { valid = false; bytes = []; size = w32 }

-- The switch over the width of the source.
abbrev pub extend_from : Bool → Width → Width → ExtendEncoding
extend_from sign destination w8 = record {
  valid = true;
  bytes = 0x0F ∷ (if sign then 0xBE else 0xB6) ∷ [];
  size = destination;
}
extend_from sign destination w16 = record {
  valid = true;
  bytes = 0x0F ∷ (if sign then 0xBF else 0xB7) ∷ [];
  size = destination;
}
extend_from sign destination w32 = record {
  valid = true;
  bytes = (if sign then 0x63 else 0x8B) ∷ [];
  size = if sign then destination else w32;
}
extend_from sign destination w64 = record { valid = false; bytes = []; size = destination }

abbrev pub is_sign : ExtendKind → Bool
is_sign ExtendKind.sign = true
is_sign ExtendKind.zero = false

-- The array `bytes` and its `length` are one list here.
unfoldable pub pick_extend : ExtendKind → Width → Width → ExtendEncoding
pick_extend kind destination source =
    if leb (width_value destination) (width_value source)
    then invalid_encoding
    else extend_from (is_sign kind) destination source

unfoldable pub put_extend_ops : ExtendEncoding → List ℕ
put_extend_ops e = put_seq e.bytes

unfoldable pub generate_mov_extend_reg_to_reg : ExtendKind → Width → Width → ℕ → ℕ → List ℕ
unfolding pick_extend put_extend_ops
generate_mov_extend_reg_to_reg kind destination_size source_size destination source =
    let e = pick_extend kind destination_size source_size in
    let force = is_byte source_size && requires_byte_rex source in
    if not e.valid
    then []
    else operand_size_prefix e.size
      ++ (put_rex (is_w64 e.size) (leb 8 destination) false (leb 8 source) force
          ++ (put_extend_ops e ++ put_mod_rm 3 destination source))

unfoldable pub generate_mov_extend_mem_to_reg : ExtendKind → Width → Width → ℕ → Memory → List ℕ
unfolding pick_extend put_extend_ops
generate_mov_extend_mem_to_reg kind destination_size source_size destination source =
    let e = pick_extend kind destination_size source_size in
    if not e.valid
    then []
    else operand_size_prefix e.size
      ++ (put_rex (is_w64 e.size) (leb 8 destination) (mem_ext_index source) (mem_ext_base source)
            false
          ++ (put_extend_ops e ++ put_mem_operand destination source))

unfoldable pub generate_xchg_reg_reg : Width → ℕ → ℕ → List ℕ
generate_xchg_reg_reg size a b =
    emit_reg size ((if is_byte size then 0x86 else 0x87) ∷ []) b a (is_byte size) (is_byte size)

unfoldable pub generate_xchg_mem_reg : Width → Memory → ℕ → List ℕ
generate_xchg_mem_reg size mem reg =
    emit_mem size ((if is_byte size then 0x86 else 0x87) ∷ []) reg mem (is_byte size)

unfoldable pub generate_cmpxchg_mem_reg : Width → Memory → ℕ → List ℕ
generate_cmpxchg_mem_reg size destination source =
    emit_mem size (0x0F ∷ (if is_byte size then 0xB0 else 0xB1) ∷ []) source destination
      (is_byte size)

unfoldable pub generate_xadd_mem_reg : Width → Memory → ℕ → List ℕ
generate_xadd_mem_reg size destination source =
    emit_mem size (0x0F ∷ (if is_byte size then 0xC0 else 0xC1) ∷ []) source destination
      (is_byte size)

unfoldable pub generate_cmov_reg_reg : Condition → Width → ℕ → ℕ → List ℕ
generate_cmov_reg_reg cc size destination source =
    if is_byte size
    then []
    else emit_reg size (0x0F ∷ (0x40 + condition_value cc) ∷ []) destination source false false

unfoldable pub generate_cmov_mem_reg : Condition → Width → ℕ → Memory → List ℕ
generate_cmov_mem_reg cc size destination source =
    if is_byte size
    then []
    else emit_mem size (0x0F ∷ (0x40 + condition_value cc) ∷ []) destination source false

unfoldable pub generate_setcc_reg : Condition → ℕ → List ℕ
generate_setcc_reg cc reg = emit_reg w8 (0x0F ∷ (0x90 + condition_value cc) ∷ []) 0 reg false true

unfoldable pub generate_setcc_mem : Condition → Memory → List ℕ
generate_setcc_mem cc mem = emit_mem w8 (0x0F ∷ (0x90 + condition_value cc) ∷ []) 0 mem false

unfoldable pub generate_lea : Width → ℕ → Memory → List ℕ
generate_lea size destination source =
    if is_byte size then [] else emit_mem size (0x8D ∷ []) destination source false
