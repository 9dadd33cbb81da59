-- ===== src/Opcodes/Fixed/Emit.antt =====
-- The byte writers of Opcodes.cpp, lines 26-112, that the generators of one width use. A writer
-- pushes bytes and does nothing else, so each is the list of the bytes that it pushes.
use ecpps.Common.{
  ℕ, ◌+◌, ◌-◌, ◌*◌, ◌/◌, ◌%◌, ◌^◌, Bool, not, ◌&&◌, ◌||◌, List, [], ◌∷◌, ◌++◌, bit_and, bit_or, leb,
  ◌==◌, if◌then◌else◌,
}
use ecpps.Common.Int.{ℤ, pos, negsuc, to_bits, of_bits, leb_ℤ}

-- static_cast to std::uint8_t, std::uint32_t and std::int32_t, and the bits of a std::int32_t.
abbrev pub u8 : ℕ → ℕ
u8 x = x % 2 ^ 8

abbrev pub u32 : ℕ → ℕ
u32 x = x % 2 ^ 32

abbrev pub i32 : ℕ → ℤ
i32 x = of_bits (2 ^ 32) (x % 2 ^ 32)

abbrev pub i32_bits : ℤ → ℕ
i32_bits z = to_bits (2 ^ 32) z

-- `displacement -= 5`
abbrev pub minus_five : ℤ → ℤ
minus_five (pos n) = if leb 5 n then pos (n - 5) else negsuc (4 - n)
minus_five (negsuc n) = negsuc (n + 5)

unfoldable pub emit : ℕ → List ℕ
emit b = b % 2 ^ 8 ∷ []

unfoldable pub rex : Bool → Bool → Bool → Bool → List ℕ
rex w r x b =
    let rex1 = if w then bit_or 0x40 8 else 0x40 in
    let rex2 = if r then bit_or rex1 4 else rex1 in
    let rex3 = if x then bit_or rex2 2 else rex2 in
    let rex4 = if b then bit_or rex3 1 else rex3 in
    if not (rex4 == 0x40) || w then emit rex4 else []

unfoldable pub rex_byte : Bool → Bool → Bool → Bool → List ℕ
rex_byte r x b force =
    let rex1 = if r then bit_or 0x40 4 else 0x40 in
    let rex2 = if x then bit_or rex1 2 else rex1 in
    let rex3 = if b then bit_or rex2 1 else rex2 in
    if not (rex3 == 0x40) || force then emit rex3 else []

unfoldable pub mod_rm : ℕ → ℕ → ℕ → List ℕ
mod_rm mode reg rm =
    emit (bit_or (bit_or (bit_and mode 3 * 2 ^ 6) (bit_and reg 7 * 2 ^ 3)) (bit_and rm 7))

unfoldable pub sib : ℕ → ℕ → ℕ → List ℕ
sib scale index base =
    emit (bit_or (bit_or (bit_and scale 3 * 2 ^ 6) (bit_and index 7 * 2 ^ 3)) (bit_and base 7))

unfoldable pub imm16 : ℕ → List ℕ
imm16 v = emit (u8 v) ++ emit (u8 (v / 2 ^ 8))

unfoldable pub imm32 : ℕ → List ℕ
imm32 v =
    emit (u8 v) ++ (emit (u8 (v / 2 ^ 8)) ++ (emit (u8 (v / 2 ^ 16)) ++ emit (u8 (v / 2 ^ 24))))

unfoldable pub imm64 : ℕ → List ℕ
imm64 v = imm32 (u32 v) ++ imm32 (u32 (v / 2 ^ 32))

unfoldable pub disp_mod : ℕ → ℤ → ℕ
disp_mod base disp =
    if leb_ℤ disp (pos 0) && leb_ℤ (pos 0) disp && not (bit_and base 7 == 5)
    then 0
    else if leb_ℤ (negsuc 127) disp && leb_ℤ disp (pos 127)
    then 1
    else 2

-- The cast to std::int8_t and on to std::uint8_t keeps the low byte.
unfoldable pub emit_disp : ℕ → ℤ → List ℕ
emit_disp mode disp =
    if mode == 1
    then emit (to_bits (2 ^ 8) disp)
    else if mode == 2
    then imm32 (i32_bits disp)
    else []

unfoldable pub mod_rm_memory : ℕ → ℕ → ℤ → List ℕ
mod_rm_memory reg_field mem_reg disp =
    let mode = disp_mod mem_reg disp in
    if bit_and mem_reg 7 == 4
    then mod_rm mode (bit_and reg_field 7) 4 ++ (sib 0 4 (bit_and mem_reg 7) ++ emit_disp mode disp)
    else mod_rm mode (bit_and reg_field 7) (bit_and mem_reg 7) ++ emit_disp mode disp
