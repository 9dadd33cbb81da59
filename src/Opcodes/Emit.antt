-- ===== src/Opcodes/Emit.antt =====
-- The byte writers of Opcodes.cpp, lines 2453-2639. A writer appends to `Bytes& out` and does
-- nothing else to it, so each is the list of the bytes that it appends.
use ecpps.Common.{
  ℕ, zero, suc, ◌+◌, ◌-◌, ◌*◌, ◌/◌, ◌^◌, Bool, true, false, ◌&&◌, ◌||◌, List, [], ◌∷◌, ◌++◌,
  bit_and, bit_or, leb, ◌==◌, if◌then◌else◌,
}
use ecpps.Common.Int.{ℤ, pos, negsuc, to_bits, of_bits, leb_ℤ}
use ecpps.Opcodes.Operands.{Width, w8, w16, w32, w64, Memory, rip, no_register}
use mathlib.Core.Bool.{not}

-- x << k
abbrev pub shl : ℕ → ℕ → ℕ
shl x k = x * 2 ^ k

-- Lines 43-46
unfoldable pub requires_byte_rex : ℕ → Bool
requires_byte_rex reg = leb 4 reg && leb reg 7

unfoldable pub put : ℕ → List ℕ
put value = bit_and value 0xFF ∷ []

unfoldable pub put_seq : List ℕ → List ℕ
unfolding put
put_seq [] = []
put_seq (b ∷ seq) = put b ++ put_seq seq

-- The loop of PutImm, with `n` rounds to go at `i`.
unfoldable pub put_imm_from : ℕ → ℕ → ℕ → List ℕ
unfolding put
put_imm_from bits i zero = []
put_imm_from bits i (suc n) = put (bit_and (bits / 2 ^ (8 * i)) 0xFF) ++ put_imm_from bits (i + 1) n

unfoldable pub put_imm : ℤ → ℕ → List ℕ
unfolding put_imm_from
put_imm value count = put_imm_from (to_bits (2 ^ 64) value) 0 count

unfoldable pub put_mod_rm : ℕ → ℕ → ℕ → List ℕ
put_mod_rm mode reg rm = put (bit_or (bit_or (shl mode 6) (shl (bit_and reg 7) 3)) (bit_and rm 7))

unfoldable pub put_rex : Bool → Bool → Bool → Bool → Bool → List ℕ
unfolding put
put_rex w r x b force =
    let rex1 = if w then bit_or 0x40 8 else 0x40 in
    let rex2 = if r then bit_or rex1 4 else rex1 in
    let rex3 = if x then bit_or rex2 2 else rex2 in
    let rex = if b then bit_or rex3 1 else rex3 in
    if not (rex == 0x40) || force then put rex else []

unfoldable pub scale_bits : ℕ → ℕ
scale_bits scale = if scale == 2 then 1 else if scale == 4 then 2 else if scale == 8 then 3 else 0

abbrev pub is_byte : Width → Bool
is_byte w8 = true
is_byte _ = false

abbrev pub imm_size : Width → ℕ
imm_size w8 = 1
imm_size w16 = 2
imm_size _ = 4

unfoldable pub fits_i8 : ℤ → Bool
fits_i8 v = leb_ℤ (negsuc 127) v && leb_ℤ v (pos 127)

unfoldable pub imm_fits : Width → ℤ → Bool
imm_fits w8 v = leb_ℤ (negsuc 127) v && leb_ℤ v (pos 255)
imm_fits w16 v = leb_ℤ (negsuc 32767) v && leb_ℤ v (pos 65535)
imm_fits w32 v = leb_ℤ (negsuc (2 ^ 31 - 1)) v && leb_ℤ v (pos (2 ^ 32 - 1))
imm_fits w64 v = leb_ℤ (negsuc (2 ^ 31 - 1)) v && leb_ℤ v (pos (2 ^ 31 - 1))

unfoldable pub imm_normalise : Width → ℤ → ℤ
imm_normalise w8 v = of_bits (2 ^ 8) (to_bits (2 ^ 8) v)
imm_normalise w16 v = of_bits (2 ^ 16) (to_bits (2 ^ 16) v)
imm_normalise w32 v = of_bits (2 ^ 32) (to_bits (2 ^ 32) v)
imm_normalise w64 v = v

unfoldable pub mem_ext_base : Memory → Bool
mem_ext_base m = not (m.base == no_register) && (not (m.base == rip) && leb 8 m.base)

unfoldable pub mem_ext_index : Memory → Bool
mem_ext_index m = not (m.index == no_register) && leb 8 m.index

-- The ModRM mode of PutMemOperand, and the displacement that it writes last.
unfoldable pub displacement_mode : ℕ → ℤ → ℕ
displacement_mode base displacement =
    if leb_ℤ displacement (pos 0) && leb_ℤ (pos 0) displacement && not (base == 5)
    then 0
    else if fits_i8 displacement
    then 1
    else 2

unfoldable pub put_displacement : ℕ → ℤ → List ℕ
put_displacement mode displacement =
    if mode == 1 then put_imm displacement 1 else if mode == 2 then put_imm displacement 4 else []

unfoldable pub put_sib : Memory → ℕ → List ℕ
put_sib m base =
    let idx = if m.index == no_register then 4 else bit_and m.index 7 in
    put (bit_or (bit_or (shl (scale_bits m.scale) 6) (shl idx 3)) base)

unfoldable pub put_mem_operand : ℕ → Memory → List ℕ
put_mem_operand reg_field m =
    let base = bit_and m.base 7 in
    let mode = displacement_mode base m.displacement in
    if m.base == rip
    then put_mod_rm 0 reg_field 5 ++ put_imm m.displacement 4
    else if m.base == no_register
    then put_mod_rm 0 reg_field 4 ++ (put_sib m 5 ++ put_imm m.displacement 4)
    else if not (m.index == no_register) || base == 4
    then put_mod_rm mode reg_field 4 ++ (put_sib m base ++ put_displacement mode m.displacement)
    else put_mod_rm mode reg_field base ++ put_displacement mode m.displacement

abbrev pub operand_size_prefix : Width → List ℕ
operand_size_prefix w16 = 0x66 ∷ []
operand_size_prefix _ = []

abbrev pub is_w64 : Width → Bool
is_w64 w64 = true
is_w64 _ = false

unfoldable pub emit_reg : Width → List ℕ → ℕ → ℕ → Bool → Bool → List ℕ
emit_reg size op reg rm reg_is_byte rm_is_byte =
    let force = reg_is_byte && requires_byte_rex reg || rm_is_byte && requires_byte_rex rm in
    operand_size_prefix size
    ++ (put_rex (is_w64 size) (leb 8 reg) false (leb 8 rm) force
        ++ (put_seq op ++ put_mod_rm 3 reg rm))

unfoldable pub emit_mem : Width → List ℕ → ℕ → Memory → Bool → List ℕ
emit_mem size op reg_field mem reg_is_byte =
    operand_size_prefix size
    ++ (put_rex (is_w64 size) (leb 8 reg_field) (mem_ext_index mem) (mem_ext_base mem)
          (reg_is_byte && requires_byte_rex reg_field)
        ++ (put_seq op ++ put_mem_operand reg_field mem))
