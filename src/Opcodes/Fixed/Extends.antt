-- ===== src/Opcodes/Fixed/Extends.antt =====
-- The generators of one width: moves that extend by zeros (Opcodes.cpp between lines 494 and 668).
use ecpps.Common.{ℕ, true, false, List, ◌++◌, bit_and, leb}
use ecpps.Opcodes.Emit.{requires_byte_rex}
use ecpps.Opcodes.Fixed.Emit.{u8, i32, emit, rex, rex_byte, mod_rm, mod_rm_memory}

unfoldable pub generate_mov_zero_extend_mem8_to_reg64 : ℕ → ℕ → ℕ → List ℕ
generate_mov_zero_extend_mem8_to_reg64 destination_register source_offset source_register =
    rex true (leb 8 destination_register) false (leb 8 source_register)
    ++ (emit 0x0F
        ++ (emit 0xB6
            ++ mod_rm_memory (u8 (bit_and destination_register 7)) (u8 (bit_and source_register 7))
                (i32 source_offset)))

unfoldable pub generate_mov_zero_extend_mem8_to_reg32 : ℕ → ℕ → ℕ → List ℕ
generate_mov_zero_extend_mem8_to_reg32 destination_register source_offset source_register =
    rex false (leb 8 destination_register) false (leb 8 source_register)
    ++ (emit 0x0F
        ++ (emit 0xB6
            ++ mod_rm_memory (u8 (bit_and destination_register 7)) (u8 (bit_and source_register 7))
                (i32 source_offset)))

unfoldable pub generate_mov_zero_extend_mem8_to_reg16 : ℕ → ℕ → ℕ → List ℕ
generate_mov_zero_extend_mem8_to_reg16 destination_register source_offset source_register =
    emit 0x66
    ++ (rex false (leb 8 destination_register) false (leb 8 source_register)
        ++ (emit 0x0F
            ++ (emit 0xB6
                ++ mod_rm_memory (u8 (bit_and destination_register 7))
                    (u8 (bit_and source_register 7)) (i32 source_offset))))

unfoldable pub generate_mov_zero_extend_mem16_to_reg64 : ℕ → ℕ → ℕ → List ℕ
generate_mov_zero_extend_mem16_to_reg64 destination_register source_offset source_register =
    rex true (leb 8 destination_register) false (leb 8 source_register)
    ++ (emit 0x0F
        ++ (emit 0xB7
            ++ mod_rm_memory (u8 (bit_and destination_register 7)) (u8 (bit_and source_register 7))
                (i32 source_offset)))

unfoldable pub generate_mov_zero_extend_mem16_to_reg32 : ℕ → ℕ → ℕ → List ℕ
generate_mov_zero_extend_mem16_to_reg32 destination_register source_offset source_register =
    rex false (leb 8 destination_register) false (leb 8 source_register)
    ++ (emit 0x0F
        ++ (emit 0xB7
            ++ mod_rm_memory (u8 (bit_and destination_register 7)) (u8 (bit_and source_register 7))
                (i32 source_offset)))

unfoldable pub generate_mov_zero_extend_mem32_to_reg64 : ℕ → ℕ → ℕ → List ℕ
generate_mov_zero_extend_mem32_to_reg64 destination_register source_offset source_register =
    rex false (leb 8 destination_register) false (leb 8 source_register)
    ++ (emit 0x8B
        ++ mod_rm_memory (u8 (bit_and destination_register 7)) (u8 (bit_and source_register 7))
            (i32 source_offset))

unfoldable pub generate_mov_zero_extend_reg8_to_reg64 : ℕ → ℕ → List ℕ
generate_mov_zero_extend_reg8_to_reg64 destination_register source_register =
    rex true (leb 8 destination_register) false (leb 8 source_register)
    ++ (emit 0x0F
        ++ (emit 0xB6
            ++ mod_rm 3 (u8 (bit_and destination_register 7)) (u8 (bit_and source_register 7))))

unfoldable pub generate_mov_zero_extend_reg8_to_reg32 : ℕ → ℕ → List ℕ
generate_mov_zero_extend_reg8_to_reg32 destination_register source_register =
    rex_byte (leb 8 destination_register) false (leb 8 source_register)
      (requires_byte_rex source_register)
    ++ (emit 0x0F
        ++ (emit 0xB6
            ++ mod_rm 3 (u8 (bit_and destination_register 7)) (u8 (bit_and source_register 7))))

unfoldable pub generate_mov_zero_extend_reg8_to_reg16 : ℕ → ℕ → List ℕ
generate_mov_zero_extend_reg8_to_reg16 destination_register source_register =
    emit 0x66
    ++ (rex_byte (leb 8 destination_register) false (leb 8 source_register)
          (requires_byte_rex source_register)
        ++ (emit 0x0F
            ++ (emit 0xB6
                ++ mod_rm 3 (u8 (bit_and destination_register 7))
                    (u8 (bit_and source_register 7)))))

unfoldable pub generate_mov_zero_extend_reg16_to_reg64 : ℕ → ℕ → List ℕ
generate_mov_zero_extend_reg16_to_reg64 destination_register source_register =
    rex true (leb 8 destination_register) false (leb 8 source_register)
    ++ (emit 0x0F
        ++ (emit 0xB7
            ++ mod_rm 3 (u8 (bit_and destination_register 7)) (u8 (bit_and source_register 7))))

unfoldable pub generate_mov_zero_extend_reg16_to_reg32 : ℕ → ℕ → List ℕ
generate_mov_zero_extend_reg16_to_reg32 destination_register source_register =
    rex false (leb 8 destination_register) false (leb 8 source_register)
    ++ (emit 0x0F
        ++ (emit 0xB7
            ++ mod_rm 3 (u8 (bit_and destination_register 7)) (u8 (bit_and source_register 7))))

unfoldable pub generate_mov_zero_extend_reg32_to_reg64 : ℕ → ℕ → List ℕ
generate_mov_zero_extend_reg32_to_reg64 destination_register source_register =
    rex false (leb 8 destination_register) false (leb 8 source_register)
    ++ (emit 0x8B
        ++ mod_rm 3 (u8 (bit_and destination_register 7)) (u8 (bit_and source_register 7)))
