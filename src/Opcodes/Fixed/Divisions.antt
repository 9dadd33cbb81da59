-- ===== src/Opcodes/Fixed/Divisions.antt =====
-- The generators of one width: divisions, negations and exclusive or (Opcodes.cpp between lines 1602 and 2185).
use ecpps.Common.{ℕ, true, false, ◌||◌, List, ◌++◌, bit_and, leb}
use ecpps.Common.Int.{ℤ}
use ecpps.Opcodes.Emit.{requires_byte_rex}
use ecpps.Opcodes.Fixed.Emit.{u8, emit, rex, rex_byte, mod_rm, mod_rm_memory}

unfoldable pub generate_unsigned_div64 : ℕ → List ℕ
generate_unsigned_div64 reg =
    rex true false false (leb 8 reg) ++ (emit 0xF7 ++ mod_rm 3 6 (u8 (bit_and reg 7)))

unfoldable pub generate_unsigned_div32 : ℕ → List ℕ
generate_unsigned_div32 reg =
    rex false false false (leb 8 reg) ++ (emit 0xF7 ++ mod_rm 3 6 (u8 (bit_and reg 7)))

unfoldable pub generate_unsigned_div16 : ℕ → List ℕ
generate_unsigned_div16 reg =
    emit 0x66
    ++ (rex false false false (leb 8 reg) ++ (emit 0xF7 ++ mod_rm 3 6 (u8 (bit_and reg 7))))

unfoldable pub generate_unsigned_div8 : ℕ → List ℕ
generate_unsigned_div8 reg =
    rex_byte false false (leb 8 reg) (requires_byte_rex reg)
    ++ (emit 0xF6 ++ mod_rm 3 6 (u8 (bit_and reg 7)))

unfoldable pub generate_unsigned_div_mem64 : ℕ → ℤ → List ℕ
generate_unsigned_div_mem64 base_reg displacement =
    rex true false false (leb 8 base_reg)
    ++ (emit 0xF7 ++ mod_rm_memory 6 (u8 (bit_and base_reg 7)) displacement)

unfoldable pub generate_unsigned_div_mem32 : ℕ → ℤ → List ℕ
generate_unsigned_div_mem32 base_reg displacement =
    rex false false false (leb 8 base_reg)
    ++ (emit 0xF7 ++ mod_rm_memory 6 (u8 (bit_and base_reg 7)) displacement)

unfoldable pub generate_unsigned_div_mem16 : ℕ → ℤ → List ℕ
generate_unsigned_div_mem16 base_reg displacement =
    emit 0x66
    ++ (rex false false false (leb 8 base_reg)
        ++ (emit 0xF7 ++ mod_rm_memory 6 (u8 (bit_and base_reg 7)) displacement))

unfoldable pub generate_unsigned_div_mem8 : ℕ → ℤ → List ℕ
generate_unsigned_div_mem8 base_reg displacement =
    rex false false false (leb 8 base_reg)
    ++ (emit 0xF6 ++ mod_rm_memory 6 (u8 (bit_and base_reg 7)) displacement)

unfoldable pub generate_signed_div_mem64 : ℕ → ℤ → List ℕ
generate_signed_div_mem64 base_reg displacement =
    rex true false false (leb 8 base_reg)
    ++ (emit 0xF7 ++ mod_rm_memory 7 (u8 (bit_and base_reg 7)) displacement)

unfoldable pub generate_signed_div_mem32 : ℕ → ℤ → List ℕ
generate_signed_div_mem32 base_reg displacement =
    rex false false false (leb 8 base_reg)
    ++ (emit 0xF7 ++ mod_rm_memory 7 (u8 (bit_and base_reg 7)) displacement)

unfoldable pub generate_signed_div_mem16 : ℕ → ℤ → List ℕ
generate_signed_div_mem16 base_reg displacement =
    emit 0x66
    ++ (rex false false false (leb 8 base_reg)
        ++ (emit 0xF7 ++ mod_rm_memory 7 (u8 (bit_and base_reg 7)) displacement))

unfoldable pub generate_signed_div_mem8 : ℕ → ℤ → List ℕ
generate_signed_div_mem8 base_reg displacement =
    rex false false false (leb 8 base_reg)
    ++ (emit 0xF6 ++ mod_rm_memory 7 (u8 (bit_and base_reg 7)) displacement)

unfoldable pub generate_signed_div64 : ℕ → List ℕ
generate_signed_div64 reg =
    rex true false false (leb 8 reg) ++ (emit 0xF7 ++ mod_rm 3 7 (u8 (bit_and reg 7)))

unfoldable pub generate_signed_div32 : ℕ → List ℕ
generate_signed_div32 reg =
    rex false false false (leb 8 reg) ++ (emit 0xF7 ++ mod_rm 3 7 (u8 (bit_and reg 7)))

unfoldable pub generate_signed_div16 : ℕ → List ℕ
generate_signed_div16 reg =
    emit 0x66
    ++ (rex false false false (leb 8 reg) ++ (emit 0xF7 ++ mod_rm 3 7 (u8 (bit_and reg 7))))

unfoldable pub generate_signed_div8 : ℕ → List ℕ
generate_signed_div8 reg =
    rex_byte false false (leb 8 reg) (requires_byte_rex reg)
    ++ (emit 0xF6 ++ mod_rm 3 7 (u8 (bit_and reg 7)))

unfoldable pub generate_xor_reg8 : ℕ → ℕ → List ℕ
generate_xor_reg8 dest_reg src_reg =
    rex_byte (leb 8 src_reg) false (leb 8 dest_reg)
      ((requires_byte_rex src_reg) || (requires_byte_rex dest_reg))
    ++ (emit 0x30 ++ mod_rm 3 (u8 (bit_and src_reg 7)) (u8 (bit_and dest_reg 7)))

unfoldable pub generate_xor_reg16 : ℕ → ℕ → List ℕ
generate_xor_reg16 dest_reg src_reg =
    emit 0x66
    ++ (rex false (leb 8 src_reg) false (leb 8 dest_reg)
        ++ (emit 0x31 ++ mod_rm 3 (u8 (bit_and src_reg 7)) (u8 (bit_and dest_reg 7))))

unfoldable pub generate_xor_reg32 : ℕ → ℕ → List ℕ
generate_xor_reg32 dest_reg src_reg =
    rex false (leb 8 src_reg) false (leb 8 dest_reg)
    ++ (emit 0x31 ++ mod_rm 3 (u8 (bit_and src_reg 7)) (u8 (bit_and dest_reg 7)))

unfoldable pub generate_xor_reg64 : ℕ → ℕ → List ℕ
generate_xor_reg64 dest_reg src_reg =
    rex true (leb 8 src_reg) false (leb 8 dest_reg)
    ++ (emit 0x31 ++ mod_rm 3 (u8 (bit_and src_reg 7)) (u8 (bit_and dest_reg 7)))

unfoldable pub generate_neg_reg8 : ℕ → List ℕ
generate_neg_reg8 reg =
    rex_byte false false (leb 8 reg) (requires_byte_rex reg)
    ++ (emit 0xF6 ++ mod_rm 3 3 (u8 (bit_and reg 7)))

unfoldable pub generate_neg_reg16 : ℕ → List ℕ
generate_neg_reg16 reg =
    emit 0x66
    ++ (rex false false false (leb 8 reg) ++ (emit 0xF7 ++ mod_rm 3 3 (u8 (bit_and reg 7))))

unfoldable pub generate_neg_reg32 : ℕ → List ℕ
generate_neg_reg32 reg =
    rex false false false (leb 8 reg) ++ (emit 0xF7 ++ mod_rm 3 3 (u8 (bit_and reg 7)))

unfoldable pub generate_neg_reg64 : ℕ → List ℕ
generate_neg_reg64 reg =
    rex true false false (leb 8 reg) ++ (emit 0xF7 ++ mod_rm 3 3 (u8 (bit_and reg 7)))
