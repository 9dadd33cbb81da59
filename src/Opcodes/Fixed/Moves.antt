-- ===== src/Opcodes/Fixed/Moves.antt =====
-- The generators of one width: moves (Opcodes.cpp between lines 161 and 492).
use ecpps.Common.{
  ℕ, ◌+◌, ◌/◌, ◌%◌, ◌^◌, true, false, ◌||◌, List, ◌++◌, bit_and, bit_or, leb, ltb, if◌then◌else◌,
}
use ecpps.Opcodes.Emit.{requires_byte_rex}
use ecpps.Opcodes.Fixed.Emit.{
  u8, u32, i32, emit, rex, rex_byte, mod_rm, imm16, imm32, imm64, mod_rm_memory,
}

unfoldable pub generate_mov_imm_to_reg64 : ℕ → ℕ → List ℕ
generate_mov_imm_to_reg64 reg imm =
    rex true false false (leb 8 reg)
    ++ (if leb imm 0x7FFFFFFF
        then emit 0xC7 ++ (mod_rm 3 0 (u8 (bit_and reg 7)) ++ imm32 (u32 imm))
        else emit (bit_or 0xB8 (bit_and reg 7)) ++ imm64 imm)

unfoldable pub generate_mov_imm_to_reg32 : ℕ → ℕ → List ℕ
generate_mov_imm_to_reg32 reg imm =
    rex false false false (leb 8 reg) ++ (emit (bit_or 0xB8 (bit_and reg 7)) ++ imm32 (u32 imm))

unfoldable pub generate_mov_imm_to_reg16 : ℕ → ℕ → List ℕ
generate_mov_imm_to_reg16 reg imm =
    emit 0x66
    ++ (rex false false false (leb 8 reg) ++ (emit (bit_or 0xB8 (bit_and reg 7)) ++ imm16 imm))

unfoldable pub generate_mov_imm_to_reg8 : ℕ → ℕ → List ℕ
generate_mov_imm_to_reg8 reg imm =
    rex_byte false false (leb 8 reg) (requires_byte_rex reg)
    ++ (emit (bit_or 0xB0 (bit_and reg 7)) ++ emit imm)

unfoldable pub generate_mov_imm_to_mem32 : ℕ → ℕ → ℕ → List ℕ
generate_mov_imm_to_mem32 reg offset imm =
    rex false false false (leb 8 reg)
    ++ (emit 0xC7 ++ (mod_rm_memory 0 (u8 (bit_and reg 7)) (i32 offset) ++ imm32 imm))

unfoldable pub generate_mov_imm_to_mem64 : ℕ → ℕ → ℕ → List ℕ
generate_mov_imm_to_mem64 reg offset imm =
    if ltb 0xFFFFFFFF imm
    then generate_mov_imm_to_mem32 reg offset (u32 (bit_and imm 0xFFFFFFFF))
      ++ generate_mov_imm_to_mem32 reg ((offset + 4) % 2 ^ 64) (u32 (imm / 2 ^ 32))
    else rex true false false (leb 8 reg)
      ++ (emit 0xC7 ++ (mod_rm_memory 0 (u8 (bit_and reg 7)) (i32 offset) ++ imm32 (u32 imm)))

unfoldable pub generate_mov_imm_to_mem16 : ℕ → ℕ → ℕ → List ℕ
generate_mov_imm_to_mem16 reg offset imm =
    emit 0x66
    ++ (rex false false false (leb 8 reg)
        ++ (emit 0xC7 ++ (mod_rm_memory 0 (u8 (bit_and reg 7)) (i32 offset) ++ imm16 imm)))

unfoldable pub generate_mov_imm_to_mem8 : ℕ → ℕ → ℕ → List ℕ
generate_mov_imm_to_mem8 reg offset imm =
    rex false false false (leb 8 reg)
    ++ (emit 0xC6 ++ (mod_rm_memory 0 (u8 (bit_and reg 7)) (i32 offset) ++ emit imm))

unfoldable pub generate_mov_reg_to_reg64 : ℕ → ℕ → List ℕ
generate_mov_reg_to_reg64 destination source =
    rex true (leb 8 source) false (leb 8 destination)
    ++ (emit 0x89 ++ mod_rm 3 (u8 (bit_and source 7)) (u8 (bit_and destination 7)))

unfoldable pub generate_mov_reg_to_reg32 : ℕ → ℕ → List ℕ
generate_mov_reg_to_reg32 destination source =
    rex false (leb 8 source) false (leb 8 destination)
    ++ (emit 0x89 ++ mod_rm 3 (u8 (bit_and source 7)) (u8 (bit_and destination 7)))

unfoldable pub generate_mov_reg_to_reg16 : ℕ → ℕ → List ℕ
generate_mov_reg_to_reg16 destination source =
    emit 0x66
    ++ (rex false (leb 8 source) false (leb 8 destination)
        ++ (emit 0x89 ++ mod_rm 3 (u8 (bit_and source 7)) (u8 (bit_and destination 7))))

unfoldable pub generate_mov_reg_to_reg8 : ℕ → ℕ → List ℕ
generate_mov_reg_to_reg8 destination source =
    rex_byte (leb 8 source) false (leb 8 destination)
      ((requires_byte_rex source) || (requires_byte_rex destination))
    ++ (emit 0x88 ++ mod_rm 3 (u8 (bit_and source 7)) (u8 (bit_and destination 7)))

unfoldable pub generate_mov_reg_to_mem64 : ℕ → ℕ → ℕ → List ℕ
generate_mov_reg_to_mem64 destination destination_offset source_register =
    rex true (leb 8 source_register) false (leb 8 destination)
    ++ (emit 0x89
        ++ mod_rm_memory (u8 (bit_and source_register 7)) (u8 (bit_and destination 7))
            (i32 (u32 destination_offset)))

unfoldable pub generate_mov_reg_to_mem32 : ℕ → ℕ → ℕ → List ℕ
generate_mov_reg_to_mem32 destination destination_offset source_register =
    rex false (leb 8 source_register) false (leb 8 destination)
    ++ (emit 0x89
        ++ mod_rm_memory (u8 (bit_and source_register 7)) (u8 (bit_and destination 7))
            (i32 (u32 destination_offset)))

unfoldable pub generate_mov_reg_to_mem16 : ℕ → ℕ → ℕ → List ℕ
generate_mov_reg_to_mem16 destination destination_offset source_register =
    emit 0x66
    ++ (rex false (leb 8 source_register) false (leb 8 destination)
        ++ (emit 0x89
            ++ mod_rm_memory (u8 (bit_and source_register 7)) (u8 (bit_and destination 7))
                (i32 (u32 destination_offset))))

unfoldable pub generate_mov_reg_to_mem8 : ℕ → ℕ → ℕ → List ℕ
generate_mov_reg_to_mem8 destination destination_offset source_register =
    rex_byte (leb 8 source_register) false (leb 8 destination) (requires_byte_rex source_register)
    ++ (emit 0x88
        ++ mod_rm_memory (u8 (bit_and source_register 7)) (u8 (bit_and destination 7))
            (i32 (u32 destination_offset)))

unfoldable pub generate_mov_mem_to_reg64 : ℕ → ℕ → ℕ → List ℕ
generate_mov_mem_to_reg64 destination_register source_offset source_register =
    rex true (leb 8 destination_register) false (leb 8 source_register)
    ++ (emit 0x8B
        ++ mod_rm_memory (u8 (bit_and destination_register 7)) (u8 (bit_and source_register 7))
            (i32 (u32 source_offset)))

unfoldable pub generate_mov_mem_to_reg32 : ℕ → ℕ → ℕ → List ℕ
generate_mov_mem_to_reg32 destination_register source_offset source_register =
    rex false (leb 8 destination_register) false (leb 8 source_register)
    ++ (emit 0x8B
        ++ mod_rm_memory (u8 (bit_and destination_register 7)) (u8 (bit_and source_register 7))
            (i32 (u32 source_offset)))

unfoldable pub generate_mov_mem_to_reg16 : ℕ → ℕ → ℕ → List ℕ
generate_mov_mem_to_reg16 destination_register source_offset source_register =
    emit 0x66
    ++ (rex false (leb 8 destination_register) false (leb 8 source_register)
        ++ (emit 0x8B
            ++ mod_rm_memory (u8 (bit_and destination_register 7)) (u8 (bit_and source_register 7))
                (i32 (u32 source_offset))))

unfoldable pub generate_mov_mem_to_reg8 : ℕ → ℕ → ℕ → List ℕ
generate_mov_mem_to_reg8 destination_register source_offset source_register =
    rex_byte (leb 8 destination_register) false (leb 8 source_register)
      (requires_byte_rex destination_register)
    ++ (emit 0x8A
        ++ mod_rm_memory (u8 (bit_and destination_register 7)) (u8 (bit_and source_register 7))
            (i32 (u32 source_offset)))
