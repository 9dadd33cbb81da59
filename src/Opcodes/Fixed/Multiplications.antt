-- ===== src/Opcodes/Fixed/Multiplications.antt =====
-- The generators of one width: multiplications (Opcodes.cpp between lines 1284 and 1600).
use ecpps.Common.{ℕ, true, false, List, [], ◌++◌, bit_and, leb}
use ecpps.Opcodes.Emit.{requires_byte_rex}
use ecpps.Opcodes.Fixed.Emit.{
  u8, u32, i32, emit, rex, rex_byte, mod_rm, imm16, imm32, mod_rm_memory,
}

unfoldable pub generate_unsigned_mul_reg_to_reg64 : ℕ → ℕ → List ℕ
generate_unsigned_mul_reg_to_reg64 destination source =
    rex true false false (leb 8 source) ++ (emit 0xF7 ++ mod_rm 3 4 (u8 (bit_and source 7)))

unfoldable pub generate_unsigned_mul_reg_to_reg32 : ℕ → ℕ → List ℕ
generate_unsigned_mul_reg_to_reg32 destination source =
    rex false false false (leb 8 source) ++ (emit 0xF7 ++ mod_rm 3 4 (u8 (bit_and source 7)))

unfoldable pub generate_unsigned_mul_reg_to_reg16 : ℕ → ℕ → List ℕ
generate_unsigned_mul_reg_to_reg16 destination source =
    emit 0x66
    ++ (rex false false false (leb 8 source) ++ (emit 0xF7 ++ mod_rm 3 4 (u8 (bit_and source 7))))

unfoldable pub generate_unsigned_mul_reg_to_reg8 : ℕ → ℕ → List ℕ
generate_unsigned_mul_reg_to_reg8 destination source =
    rex_byte false false (leb 8 source) (requires_byte_rex source)
    ++ (emit 0xF6 ++ mod_rm 3 4 (u8 (bit_and source 7)))

unfoldable pub generate_unsigned_mul_reg_to_mem64 : ℕ → ℕ → ℕ → List ℕ
generate_unsigned_mul_reg_to_mem64 destination destination_offset source_register =
    rex true false false (leb 8 destination)
    ++ (emit 0xF7 ++ mod_rm_memory 4 (u8 (bit_and destination 7)) (i32 destination_offset))

unfoldable pub generate_unsigned_mul_reg_to_mem32 : ℕ → ℕ → ℕ → List ℕ
generate_unsigned_mul_reg_to_mem32 destination destination_offset source_register =
    rex false false false (leb 8 destination)
    ++ (emit 0xF7 ++ mod_rm_memory 4 (u8 (bit_and destination 7)) (i32 destination_offset))

unfoldable pub generate_unsigned_mul_reg_to_mem16 : ℕ → ℕ → ℕ → List ℕ
generate_unsigned_mul_reg_to_mem16 destination destination_offset source_register =
    emit 0x66
    ++ (rex false false false (leb 8 destination)
        ++ (emit 0xF7 ++ mod_rm_memory 4 (u8 (bit_and destination 7)) (i32 destination_offset)))

unfoldable pub generate_unsigned_mul_reg_to_mem8 : ℕ → ℕ → ℕ → List ℕ
generate_unsigned_mul_reg_to_mem8 destination destination_offset source_register =
    rex false false false (leb 8 destination)
    ++ (emit 0xF6 ++ mod_rm_memory 4 (u8 (bit_and destination 7)) (i32 destination_offset))

unfoldable pub generate_signed_mul_imm_to_reg64 : ℕ → ℕ → List ℕ
generate_signed_mul_imm_to_reg64 reg imm =
    rex true (leb 8 reg) false (leb 8 reg)
    ++ (emit 0x69 ++ (mod_rm 3 (u8 (bit_and reg 7)) (u8 (bit_and reg 7)) ++ imm32 (u32 imm)))

unfoldable pub generate_signed_mul_imm_to_reg32 : ℕ → ℕ → List ℕ
generate_signed_mul_imm_to_reg32 reg imm =
    rex false (leb 8 reg) false (leb 8 reg)
    ++ (emit 0x69 ++ (mod_rm 3 (u8 (bit_and reg 7)) (u8 (bit_and reg 7)) ++ imm32 imm))

unfoldable pub generate_signed_mul_imm_to_reg16 : ℕ → ℕ → List ℕ
generate_signed_mul_imm_to_reg16 reg imm =
    emit 0x66
    ++ (rex false (leb 8 reg) false (leb 8 reg)
        ++ (emit 0x69 ++ (mod_rm 3 (u8 (bit_and reg 7)) (u8 (bit_and reg 7)) ++ imm16 imm)))

unfoldable pub generate_signed_mul_imm_to_reg8 : ℕ → ℕ → List ℕ
generate_signed_mul_imm_to_reg8 reg imm =
    rex false (leb 8 reg) false (leb 8 reg)
    ++ (emit 0x6B ++ (mod_rm 3 (u8 (bit_and reg 7)) (u8 (bit_and reg 7)) ++ emit imm))

unfoldable pub generate_signed_mul_imm_to_mem64 : ℕ → ℕ → ℕ → List ℕ
generate_signed_mul_imm_to_mem64 reg offset imm =
    rex true false false (leb 8 reg)
    ++ (emit 0x69
        ++ (mod_rm_memory (u8 (bit_and reg 7)) (u8 (bit_and reg 7)) (i32 offset) ++ imm32 imm))

unfoldable pub generate_signed_mul_imm_to_mem32 : ℕ → ℕ → ℕ → List ℕ
generate_signed_mul_imm_to_mem32 reg offset imm =
    rex false false false (leb 8 reg)
    ++ (emit 0x69
        ++ (mod_rm_memory (u8 (bit_and reg 7)) (u8 (bit_and reg 7)) (i32 offset) ++ imm32 imm))

unfoldable pub generate_signed_mul_imm_to_mem16 : ℕ → ℕ → ℕ → List ℕ
generate_signed_mul_imm_to_mem16 reg offset imm =
    emit 0x66
    ++ (rex false false false (leb 8 reg)
        ++ (emit 0x69
            ++ (mod_rm_memory (u8 (bit_and reg 7)) (u8 (bit_and reg 7)) (i32 offset) ++ imm16 imm)))

unfoldable pub generate_signed_mul_imm_to_mem8 : ℕ → ℕ → ℕ → List ℕ
generate_signed_mul_imm_to_mem8 reg offset imm =
    rex false false false (leb 8 reg)
    ++ (emit 0x6B
        ++ (mod_rm_memory (u8 (bit_and reg 7)) (u8 (bit_and reg 7)) (i32 offset) ++ emit imm))

unfoldable pub generate_signed_mul_reg_to_reg64 : ℕ → ℕ → List ℕ
generate_signed_mul_reg_to_reg64 destination source =
    rex true (leb 8 destination) false (leb 8 source)
    ++ (emit 0x0F ++ (emit 0xAF ++ mod_rm 3 (u8 (bit_and destination 7)) (u8 (bit_and source 7))))

unfoldable pub generate_signed_mul_reg_to_reg32 : ℕ → ℕ → List ℕ
generate_signed_mul_reg_to_reg32 destination source =
    rex false (leb 8 destination) false (leb 8 source)
    ++ (emit 0x0F ++ (emit 0xAF ++ mod_rm 3 (u8 (bit_and destination 7)) (u8 (bit_and source 7))))

unfoldable pub generate_signed_mul_reg_to_reg16 : ℕ → ℕ → List ℕ
generate_signed_mul_reg_to_reg16 destination source =
    emit 0x66
    ++ (rex false (leb 8 destination) false (leb 8 source)
        ++ (emit 0x0F
            ++ (emit 0xAF ++ mod_rm 3 (u8 (bit_and destination 7)) (u8 (bit_and source 7)))))

unfoldable pub generate_signed_mul_reg_to_reg8 : ℕ → ℕ → List ℕ
generate_signed_mul_reg_to_reg8 destination source =
    rex false (leb 8 destination) false (leb 8 source)
    ++ (emit 0x0F ++ (emit 0xAF ++ mod_rm 3 (u8 (bit_and destination 7)) (u8 (bit_and source 7))))

unfoldable pub generate_signed_mul_reg_to_mem64 : ℕ → ℕ → ℕ → List ℕ
generate_signed_mul_reg_to_mem64 destination destination_offset source_register =
    rex true (leb 8 source_register) false (leb 8 destination)
    ++ (emit 0x0F
        ++ (emit 0xAF
            ++ mod_rm_memory (u8 (bit_and source_register 7)) (u8 (bit_and destination 7))
                (i32 destination_offset)))

unfoldable pub generate_signed_mul_reg_to_mem32 : ℕ → ℕ → ℕ → List ℕ
generate_signed_mul_reg_to_mem32 destination destination_offset source_register =
    rex false (leb 8 source_register) false (leb 8 destination)
    ++ (emit 0x0F
        ++ (emit 0xAF
            ++ mod_rm_memory (u8 (bit_and source_register 7)) (u8 (bit_and destination 7))
                (i32 destination_offset)))

unfoldable pub generate_signed_mul_reg_to_mem16 : ℕ → ℕ → ℕ → List ℕ
generate_signed_mul_reg_to_mem16 destination destination_offset source_register =
    emit 0x66
    ++ (rex false (leb 8 source_register) false (leb 8 destination)
        ++ (emit 0x0F
            ++ (emit 0xAF
                ++ mod_rm_memory (u8 (bit_and source_register 7)) (u8 (bit_and destination 7))
                    (i32 destination_offset))))

unfoldable pub generate_signed_mul_reg_to_mem8 : ℕ → ℕ → ℕ → List ℕ
generate_signed_mul_reg_to_mem8 destination destination_offset source_register = []

unfoldable pub generate_signed_mul_mem_to_reg64 : ℕ → ℕ → ℕ → List ℕ
generate_signed_mul_mem_to_reg64 destination source_offset source_register =
    rex true (leb 8 destination) false (leb 8 source_register)
    ++ (emit 0x0F
        ++ (emit 0xAF
            ++ mod_rm_memory (u8 (bit_and destination 7)) (u8 (bit_and source_register 7))
                (i32 source_offset)))

unfoldable pub generate_signed_mul_mem_to_reg32 : ℕ → ℕ → ℕ → List ℕ
generate_signed_mul_mem_to_reg32 destination source_offset source_register =
    rex false (leb 8 destination) false (leb 8 source_register)
    ++ (emit 0x0F
        ++ (emit 0xAF
            ++ mod_rm_memory (u8 (bit_and destination 7)) (u8 (bit_and source_register 7))
                (i32 source_offset)))

unfoldable pub generate_signed_mul_mem_to_reg16 : ℕ → ℕ → ℕ → List ℕ
generate_signed_mul_mem_to_reg16 destination source_offset source_register =
    emit 0x66
    ++ (rex false (leb 8 destination) false (leb 8 source_register)
        ++ (emit 0x0F
            ++ (emit 0xAF
                ++ mod_rm_memory (u8 (bit_and destination 7)) (u8 (bit_and source_register 7))
                    (i32 source_offset))))

unfoldable pub generate_signed_mul_mem_to_reg8 : ℕ → ℕ → ℕ → List ℕ
generate_signed_mul_mem_to_reg8 destination source_offset source_register =
    rex false (leb 8 destination) false (leb 8 source_register)
    ++ (emit 0x0F
        ++ (emit 0xAF
            ++ mod_rm_memory (u8 (bit_and destination 7)) (u8 (bit_and source_register 7))
                (i32 source_offset)))
