-- ===== src/Opcodes/Fixed/Shifts.antt =====
-- The generators of one width: GenerateSal and GenerateSar (Opcodes.cpp between lines 2187 and 2447).
use ecpps.Common.{ℕ, true, false, not, List, [], ◌++◌, bit_and, leb, ◌==◌, if◌then◌else◌}
use ecpps.Opcodes.Emit.{requires_byte_rex}
use ecpps.Opcodes.Fixed.Emit.{u8, i32, emit, rex, rex_byte, mod_rm, mod_rm_memory}

unfoldable pub generate_sal_reg64 : ℕ → ℕ → List ℕ
generate_sal_reg64 reg imm =
    rex true false false (leb 8 reg)
    ++ (if imm == 1
        then emit 0xD1 ++ mod_rm 3 4 (u8 (bit_and reg 7))
        else emit 0xC1 ++ (mod_rm 3 4 (u8 (bit_and reg 7)) ++ emit imm))

unfoldable pub generate_sal_reg32 : ℕ → ℕ → List ℕ
generate_sal_reg32 reg imm =
    rex false false false (leb 8 reg)
    ++ (if imm == 1
        then emit 0xD1 ++ mod_rm 3 4 (u8 (bit_and reg 7))
        else emit 0xC1 ++ (mod_rm 3 4 (u8 (bit_and reg 7)) ++ emit imm))

unfoldable pub generate_sal_reg16 : ℕ → ℕ → List ℕ
generate_sal_reg16 reg imm =
    emit 0x66
    ++ (rex false false false (leb 8 reg)
        ++ (if imm == 1
            then emit 0xD1 ++ mod_rm 3 4 (u8 (bit_and reg 7))
            else emit 0xC1 ++ (mod_rm 3 4 (u8 (bit_and reg 7)) ++ emit imm)))

unfoldable pub generate_sal_reg8 : ℕ → ℕ → List ℕ
generate_sal_reg8 reg imm =
    rex_byte false false (leb 8 reg) (requires_byte_rex reg)
    ++ (if imm == 1
        then emit 0xD0 ++ mod_rm 3 4 (u8 (bit_and reg 7))
        else emit 0xC0 ++ (mod_rm 3 4 (u8 (bit_and reg 7)) ++ emit imm))

unfoldable pub generate_sal_mem64 : ℕ → ℕ → ℕ → List ℕ
generate_sal_mem64 reg offset imm =
    rex true false false (leb 8 reg)
    ++ (emit (if imm == 1 then 0xD1 else 0xC1)
        ++ (mod_rm_memory 4 (u8 (bit_and reg 7)) (i32 offset)
            ++ (if not (imm == 1) then emit imm else [])))

unfoldable pub generate_sal_mem32 : ℕ → ℕ → ℕ → List ℕ
generate_sal_mem32 reg offset imm =
    rex false false false (leb 8 reg)
    ++ (emit (if imm == 1 then 0xD1 else 0xC1)
        ++ (mod_rm_memory 4 (u8 (bit_and reg 7)) (i32 offset)
            ++ (if not (imm == 1) then emit imm else [])))

unfoldable pub generate_sal_mem16 : ℕ → ℕ → ℕ → List ℕ
generate_sal_mem16 reg offset imm =
    emit 0x66
    ++ (rex false false false (leb 8 reg)
        ++ (emit (if imm == 1 then 0xD1 else 0xC1)
            ++ (mod_rm_memory 4 (u8 (bit_and reg 7)) (i32 offset)
                ++ (if not (imm == 1) then emit imm else []))))

unfoldable pub generate_sal_mem8 : ℕ → ℕ → ℕ → List ℕ
generate_sal_mem8 reg offset imm =
    rex false false false (leb 8 reg)
    ++ (emit (if imm == 1 then 0xD0 else 0xC0)
        ++ (mod_rm_memory 4 (u8 (bit_and reg 7)) (i32 offset)
            ++ (if not (imm == 1) then emit imm else [])))

unfoldable pub generate_sar_reg64 : ℕ → ℕ → List ℕ
generate_sar_reg64 reg imm =
    rex true false false (leb 8 reg)
    ++ (if imm == 1
        then emit 0xD1 ++ mod_rm 3 7 (u8 (bit_and reg 7))
        else emit 0xC1 ++ (mod_rm 3 7 (u8 (bit_and reg 7)) ++ emit imm))

unfoldable pub generate_sar_reg32 : ℕ → ℕ → List ℕ
generate_sar_reg32 reg imm =
    rex false false false (leb 8 reg)
    ++ (if imm == 1
        then emit 0xD1 ++ mod_rm 3 7 (u8 (bit_and reg 7))
        else emit 0xC1 ++ (mod_rm 3 7 (u8 (bit_and reg 7)) ++ emit imm))

unfoldable pub generate_sar_reg16 : ℕ → ℕ → List ℕ
generate_sar_reg16 reg imm =
    emit 0x66
    ++ (rex false false false (leb 8 reg)
        ++ (if imm == 1
            then emit 0xD1 ++ mod_rm 3 7 (u8 (bit_and reg 7))
            else emit 0xC1 ++ (mod_rm 3 7 (u8 (bit_and reg 7)) ++ emit imm)))

unfoldable pub generate_sar_reg8 : ℕ → ℕ → List ℕ
generate_sar_reg8 reg imm =
    rex_byte false false (leb 8 reg) (requires_byte_rex reg)
    ++ (if imm == 1
        then emit 0xD0 ++ mod_rm 3 7 (u8 (bit_and reg 7))
        else emit 0xC0 ++ (mod_rm 3 7 (u8 (bit_and reg 7)) ++ emit imm))

unfoldable pub generate_sar_mem64 : ℕ → ℕ → ℕ → List ℕ
generate_sar_mem64 reg offset imm =
    rex true false false (leb 8 reg)
    ++ (emit (if imm == 1 then 0xD1 else 0xC1)
        ++ (mod_rm_memory 7 (u8 (bit_and reg 7)) (i32 offset)
            ++ (if not (imm == 1) then emit imm else [])))

unfoldable pub generate_sar_mem32 : ℕ → ℕ → ℕ → List ℕ
generate_sar_mem32 reg offset imm =
    rex false false false (leb 8 reg)
    ++ (emit (if imm == 1 then 0xD1 else 0xC1)
        ++ (mod_rm_memory 7 (u8 (bit_and reg 7)) (i32 offset)
            ++ (if not (imm == 1) then emit imm else [])))

unfoldable pub generate_sar_mem16 : ℕ → ℕ → ℕ → List ℕ
generate_sar_mem16 reg offset imm =
    emit 0x66
    ++ (rex false false false (leb 8 reg)
        ++ (emit (if imm == 1 then 0xD1 else 0xC1)
            ++ (mod_rm_memory 7 (u8 (bit_and reg 7)) (i32 offset)
                ++ (if not (imm == 1) then emit imm else []))))

unfoldable pub generate_sar_mem8 : ℕ → ℕ → ℕ → List ℕ
generate_sar_mem8 reg offset imm =
    rex false false false (leb 8 reg)
    ++ (emit (if imm == 1 then 0xD0 else 0xC0)
        ++ (mod_rm_memory 7 (u8 (bit_and reg 7)) (i32 offset)
            ++ (if not (imm == 1) then emit imm else [])))
