-- ===== src/Opcodes/Fixed/Additions.antt =====
-- The generators of one width: additions (Opcodes.cpp between lines 670 and 993).
use ecpps.Common.{
  ℕ, true, false, not, ◌&&◌, ◌||◌, List, [], ◌++◌, bit_and, leb, ◌==◌, if◌then◌else◌,
}
use ecpps.Opcodes.Emit.{requires_byte_rex}
use ecpps.Opcodes.Fixed.Emit.{
  u8, u32, i32, emit, rex, rex_byte, mod_rm, imm16, imm32, mod_rm_memory,
}

unfoldable pub generate_add_imm_to_reg64 : ℕ → ℕ → List ℕ
generate_add_imm_to_reg64 reg imm =
    if imm == 0
    then []
    else rex true false false (leb 8 reg)
      ++ (if ((not (leb 8 reg)) && ((bit_and reg 7) == 0)) && (leb 0x7F imm)
          then emit 0x05 ++ imm32 (u32 imm)
          else if leb imm 0x7F
          then emit 0x83 ++ (mod_rm 3 0 (u8 (bit_and reg 7)) ++ emit imm)
          else emit 0x81 ++ (mod_rm 3 0 (u8 (bit_and reg 7)) ++ imm32 (u32 imm)))

unfoldable pub generate_add_imm_to_reg32 : ℕ → ℕ → List ℕ
generate_add_imm_to_reg32 reg imm =
    if imm == 0
    then []
    else rex false false false (leb 8 reg)
      ++ (if ((not (leb 8 reg)) && ((bit_and reg 7) == 0)) && (leb 0x7F imm)
          then emit 0x05 ++ imm32 imm
          else if leb imm 0x7F
          then emit 0x83 ++ (mod_rm 3 0 (u8 (bit_and reg 7)) ++ emit imm)
          else emit 0x81 ++ (mod_rm 3 0 (u8 (bit_and reg 7)) ++ imm32 imm))

unfoldable pub generate_add_imm_to_reg16 : ℕ → ℕ → List ℕ
generate_add_imm_to_reg16 reg imm =
    if imm == 0
    then []
    else emit 0x66
      ++ (rex false false false (leb 8 reg)
          ++ (if ((not (leb 8 reg)) && ((bit_and reg 7) == 0)) && (leb 0x7F imm)
              then emit 0x05 ++ imm16 imm
              else if leb imm 0x7F
              then emit 0x83 ++ (mod_rm 3 0 (u8 (bit_and reg 7)) ++ emit imm)
              else emit 0x81 ++ (mod_rm 3 0 (u8 (bit_and reg 7)) ++ imm16 imm)))

unfoldable pub generate_add_imm_to_reg8 : ℕ → ℕ → List ℕ
generate_add_imm_to_reg8 reg imm =
    if imm == 0
    then []
    else rex_byte false false (leb 8 reg) (requires_byte_rex reg)
      ++ (if (not (leb 8 reg)) && ((bit_and reg 7) == 0)
          then emit 0x04 ++ emit imm
          else emit 0x80 ++ (mod_rm 3 0 (u8 (bit_and reg 7)) ++ emit imm))

unfoldable pub generate_add_imm_to_mem64 : ℕ → ℕ → ℕ → List ℕ
generate_add_imm_to_mem64 reg offset imm =
    if imm == 0
    then []
    else rex true false false (leb 8 reg)
      ++ (if leb imm 0x7F
          then emit 0x83 ++ (mod_rm_memory 0 (u8 (bit_and reg 7)) (i32 offset) ++ emit imm)
          else emit 0x81 ++ (mod_rm_memory 0 (u8 (bit_and reg 7)) (i32 offset) ++ imm32 imm))

unfoldable pub generate_add_imm_to_mem32 : ℕ → ℕ → ℕ → List ℕ
generate_add_imm_to_mem32 reg offset imm =
    if imm == 0
    then []
    else rex false false false (leb 8 reg)
      ++ (if leb imm 0x7F
          then emit 0x83 ++ (mod_rm_memory 0 (u8 (bit_and reg 7)) (i32 offset) ++ emit imm)
          else emit 0x81 ++ (mod_rm_memory 0 (u8 (bit_and reg 7)) (i32 offset) ++ imm32 imm))

unfoldable pub generate_add_imm_to_mem16 : ℕ → ℕ → ℕ → List ℕ
generate_add_imm_to_mem16 reg offset imm =
    emit 0x66
    ++ (rex false false false (leb 8 reg)
        ++ (if leb imm 0x7F
            then emit 0x83 ++ (mod_rm_memory 0 (u8 (bit_and reg 7)) (i32 offset) ++ emit imm)
            else emit 0x81 ++ (mod_rm_memory 0 (u8 (bit_and reg 7)) (i32 offset) ++ imm16 imm)))

unfoldable pub generate_add_imm_to_mem8 : ℕ → ℕ → ℕ → List ℕ
generate_add_imm_to_mem8 reg offset imm =
    rex false false false (leb 8 reg)
    ++ (emit 0x80 ++ (mod_rm_memory 0 (u8 (bit_and reg 7)) (i32 offset) ++ emit imm))

unfoldable pub generate_add_reg_to_reg64 : ℕ → ℕ → List ℕ
generate_add_reg_to_reg64 destination source =
    rex true (leb 8 source) false (leb 8 destination)
    ++ (emit 0x01 ++ mod_rm 3 (u8 (bit_and source 7)) (u8 (bit_and destination 7)))

unfoldable pub generate_add_reg_to_reg32 : ℕ → ℕ → List ℕ
generate_add_reg_to_reg32 destination source =
    rex false (leb 8 source) false (leb 8 destination)
    ++ (emit 0x01 ++ mod_rm 3 (u8 (bit_and source 7)) (u8 (bit_and destination 7)))

unfoldable pub generate_add_reg_to_reg16 : ℕ → ℕ → List ℕ
generate_add_reg_to_reg16 destination source =
    emit 0x66
    ++ (rex false (leb 8 source) false (leb 8 destination)
        ++ (emit 0x01 ++ mod_rm 3 (u8 (bit_and source 7)) (u8 (bit_and destination 7))))

unfoldable pub generate_add_reg_to_reg8 : ℕ → ℕ → List ℕ
generate_add_reg_to_reg8 destination source =
    rex_byte (leb 8 source) false (leb 8 destination)
      ((requires_byte_rex source) || (requires_byte_rex destination))
    ++ (emit 0x00 ++ mod_rm 3 (u8 (bit_and source 7)) (u8 (bit_and destination 7)))

unfoldable pub generate_add_mem_to_reg64 : ℕ → ℕ → ℕ → List ℕ
generate_add_mem_to_reg64 destination source_offset source_register =
    rex true (leb 8 destination) false (leb 8 source_register)
    ++ (emit 0x03
        ++ mod_rm_memory (u8 (bit_and destination 7)) (u8 (bit_and source_register 7))
            (i32 source_offset))

unfoldable pub generate_add_mem_to_reg32 : ℕ → ℕ → ℕ → List ℕ
generate_add_mem_to_reg32 destination source_offset source_register =
    rex false (leb 8 destination) false (leb 8 source_register)
    ++ (emit 0x03
        ++ mod_rm_memory (u8 (bit_and destination 7)) (u8 (bit_and source_register 7))
            (i32 source_offset))

unfoldable pub generate_add_mem_to_reg16 : ℕ → ℕ → ℕ → List ℕ
generate_add_mem_to_reg16 destination source_offset source_register =
    emit 0x66
    ++ (rex false (leb 8 destination) false (leb 8 source_register)
        ++ (emit 0x03
            ++ mod_rm_memory (u8 (bit_and destination 7)) (u8 (bit_and source_register 7))
                (i32 source_offset)))

unfoldable pub generate_add_mem_to_reg8 : ℕ → ℕ → ℕ → List ℕ
generate_add_mem_to_reg8 destination source_offset source_register =
    rex_byte (leb 8 destination) false (leb 8 source_register) (requires_byte_rex destination)
    ++ (emit 0x02
        ++ mod_rm_memory (u8 (bit_and destination 7)) (u8 (bit_and source_register 7))
            (i32 source_offset))

unfoldable pub generate_add_reg_to_mem64 : ℕ → ℕ → ℕ → List ℕ
generate_add_reg_to_mem64 destination destination_offset source_register =
    rex true (leb 8 source_register) false (leb 8 destination)
    ++ (emit 0x01
        ++ mod_rm_memory (u8 (bit_and source_register 7)) (u8 (bit_and destination 7))
            (i32 destination_offset))

unfoldable pub generate_add_reg_to_mem32 : ℕ → ℕ → ℕ → List ℕ
generate_add_reg_to_mem32 destination destination_offset source_register =
    rex false (leb 8 source_register) false (leb 8 destination)
    ++ (emit 0x01
        ++ mod_rm_memory (u8 (bit_and source_register 7)) (u8 (bit_and destination 7))
            (i32 destination_offset))

unfoldable pub generate_add_reg_to_mem16 : ℕ → ℕ → ℕ → List ℕ
generate_add_reg_to_mem16 destination destination_offset source_register =
    emit 0x66
    ++ (rex false (leb 8 source_register) false (leb 8 destination)
        ++ (emit 0x01
            ++ mod_rm_memory (u8 (bit_and source_register 7)) (u8 (bit_and destination 7))
                (i32 destination_offset)))

unfoldable pub generate_add_reg_to_mem8 : ℕ → ℕ → ℕ → List ℕ
generate_add_reg_to_mem8 destination destination_offset source_register =
    rex_byte (leb 8 source_register) false (leb 8 destination) (requires_byte_rex source_register)
    ++ (emit 0x00
        ++ mod_rm_memory (u8 (bit_and source_register 7)) (u8 (bit_and destination 7))
            (i32 destination_offset))
