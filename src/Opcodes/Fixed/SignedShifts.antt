-- ===== src/Opcodes/Fixed/SignedShifts.antt =====
-- The generators of one width: GenerateSignedSar and GenerateSignedShr (Opcodes.cpp between lines 1853 and 2142).
use ecpps.Common.{ℕ, true, false, List, ◌++◌, bit_and, leb, ◌==◌, if◌then◌else◌}
use ecpps.Opcodes.Emit.{requires_byte_rex}
use ecpps.Opcodes.Fixed.Emit.{u8, i32, emit, rex, rex_byte, mod_rm, mod_rm_memory}

unfoldable pub generate_signed_sar_imm_to_reg64 : ℕ → ℕ → List ℕ
generate_signed_sar_imm_to_reg64 reg imm =
    rex true false false (leb 8 reg)
    ++ (if imm == 1
        then emit 0xD1 ++ mod_rm 3 7 (u8 (bit_and reg 7))
        else emit 0xC1 ++ (mod_rm 3 7 (u8 (bit_and reg 7)) ++ emit (u8 (bit_and imm 0xFF))))

unfoldable pub generate_signed_sar_imm_to_reg32 : ℕ → ℕ → List ℕ
generate_signed_sar_imm_to_reg32 reg imm =
    rex false false false (leb 8 reg)
    ++ (if imm == 1
        then emit 0xD1 ++ mod_rm 3 7 (u8 (bit_and reg 7))
        else emit 0xC1 ++ (mod_rm 3 7 (u8 (bit_and reg 7)) ++ emit (u8 (bit_and imm 0xFF))))

unfoldable pub generate_signed_sar_imm_to_reg16 : ℕ → ℕ → List ℕ
generate_signed_sar_imm_to_reg16 reg imm =
    emit 0x66
    ++ (rex false false false (leb 8 reg)
        ++ (if imm == 1
            then emit 0xD1 ++ mod_rm 3 7 (u8 (bit_and reg 7))
            else emit 0xC1 ++ (mod_rm 3 7 (u8 (bit_and reg 7)) ++ emit (u8 (bit_and imm 0xFF)))))

unfoldable pub generate_signed_sar_imm_to_reg8 : ℕ → ℕ → List ℕ
generate_signed_sar_imm_to_reg8 reg imm =
    rex_byte false false (leb 8 reg) (requires_byte_rex reg)
    ++ (if imm == 1
        then emit 0xD0 ++ mod_rm 3 7 (u8 (bit_and reg 7))
        else emit 0xC0 ++ (mod_rm 3 7 (u8 (bit_and reg 7)) ++ emit (u8 (bit_and imm 0xFF))))

unfoldable pub generate_signed_shr_imm_to_reg64 : ℕ → ℕ → List ℕ
generate_signed_shr_imm_to_reg64 reg imm =
    rex true false false (leb 8 reg)
    ++ (if imm == 1
        then emit 0xD1 ++ mod_rm 3 5 (u8 (bit_and reg 7))
        else emit 0xC1 ++ (mod_rm 3 5 (u8 (bit_and reg 7)) ++ emit (u8 (bit_and imm 0xFF))))

unfoldable pub generate_signed_shr_imm_to_reg32 : ℕ → ℕ → List ℕ
generate_signed_shr_imm_to_reg32 reg imm =
    rex false false false (leb 8 reg)
    ++ (if imm == 1
        then emit 0xD1 ++ mod_rm 3 5 (u8 (bit_and reg 7))
        else emit 0xC1 ++ (mod_rm 3 5 (u8 (bit_and reg 7)) ++ emit (u8 (bit_and imm 0xFF))))

unfoldable pub generate_signed_shr_imm_to_reg16 : ℕ → ℕ → List ℕ
generate_signed_shr_imm_to_reg16 reg imm =
    emit 0x66
    ++ (rex false false false (leb 8 reg)
        ++ (if imm == 1
            then emit 0xD1 ++ mod_rm 3 5 (u8 (bit_and reg 7))
            else emit 0xC1 ++ (mod_rm 3 5 (u8 (bit_and reg 7)) ++ emit (u8 (bit_and imm 0xFF)))))

unfoldable pub generate_signed_shr_imm_to_reg8 : ℕ → ℕ → List ℕ
generate_signed_shr_imm_to_reg8 reg imm =
    rex_byte false false (leb 8 reg) (requires_byte_rex reg)
    ++ (if imm == 1
        then emit 0xD0 ++ mod_rm 3 5 (u8 (bit_and reg 7))
        else emit 0xC0 ++ (mod_rm 3 5 (u8 (bit_and reg 7)) ++ emit (u8 (bit_and imm 0xFF))))

unfoldable pub generate_signed_shr_imm_to_mem64 : ℕ → ℕ → ℕ → List ℕ
generate_signed_shr_imm_to_mem64 reg offset imm =
    rex true false false (leb 8 reg)
    ++ (if imm == 1
        then emit 0xD1 ++ mod_rm_memory 5 (u8 (bit_and reg 7)) (i32 offset)
        else emit 0xC1
          ++ (mod_rm_memory 5 (u8 (bit_and reg 7)) (i32 offset) ++ emit (u8 (bit_and imm 0xFF))))

unfoldable pub generate_signed_shr_imm_to_mem32 : ℕ → ℕ → ℕ → List ℕ
generate_signed_shr_imm_to_mem32 reg offset imm =
    rex false false false (leb 8 reg)
    ++ (if imm == 1
        then emit 0xD1 ++ mod_rm_memory 5 (u8 (bit_and reg 7)) (i32 offset)
        else emit 0xC1
          ++ (mod_rm_memory 5 (u8 (bit_and reg 7)) (i32 offset) ++ emit (u8 (bit_and imm 0xFF))))

unfoldable pub generate_signed_shr_imm_to_mem16 : ℕ → ℕ → ℕ → List ℕ
generate_signed_shr_imm_to_mem16 reg offset imm =
    emit 0x66
    ++ (rex false false false (leb 8 reg)
        ++ (if imm == 1
            then emit 0xD1 ++ mod_rm_memory 5 (u8 (bit_and reg 7)) (i32 offset)
            else emit 0xC1
              ++ (mod_rm_memory 5 (u8 (bit_and reg 7)) (i32 offset)
                  ++ emit (u8 (bit_and imm 0xFF)))))

unfoldable pub generate_signed_shr_imm_to_mem8 : ℕ → ℕ → ℕ → List ℕ
generate_signed_shr_imm_to_mem8 reg offset imm =
    rex_byte false false (leb 8 reg) false
    ++ (if imm == 1
        then emit 0xD0 ++ mod_rm_memory 5 (u8 (bit_and reg 7)) (i32 offset)
        else emit 0xC0 ++ (mod_rm_memory 5 (u8 (bit_and reg 7)) (i32 offset) ++ emit imm))
