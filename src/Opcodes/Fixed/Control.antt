-- ===== src/Opcodes/Fixed/Control.antt =====
-- The generators of one width: the stack, calls, addresses and the instructions of fixed bytes (Opcodes.cpp between lines 115 and 1851).
use ecpps.Common.{ℕ, true, false, List, ◌++◌, bit_and, bit_or, leb, ◌==◌, if◌then◌else◌}
use ecpps.Common.Int.{ℤ}
use ecpps.Opcodes.Operands.{rip}
use ecpps.Opcodes.Fixed.Emit.{
  u8, i32, i32_bits, minus_five, emit, rex, mod_rm, imm32, mod_rm_memory,
}

unfoldable pub generate_ud2 : List ℕ
generate_ud2 = emit 0xF ++ emit 0xB

unfoldable pub generate_cwd : List ℕ
generate_cwd = emit 0x99

unfoldable pub generate_cqo : List ℕ
generate_cqo = rex true false false false ++ emit 0x99

unfoldable pub generate_cdq : List ℕ
generate_cdq = emit 0x99

unfoldable pub generate_cbw : List ℕ
generate_cbw = emit 0x98

unfoldable pub generate_cwde : List ℕ
generate_cwde = emit 0x98

unfoldable pub generate_cdqe : List ℕ
generate_cdqe = rex true false false false ++ emit 0x98

unfoldable pub generate_push_reg64 : ℕ → List ℕ
generate_push_reg64 reg = rex false false false (leb 8 reg) ++ emit (bit_or 0x50 (bit_and reg 7))

unfoldable pub generate_pop_reg64 : ℕ → List ℕ
generate_pop_reg64 reg = rex false false false (leb 8 reg) ++ emit (bit_or 0x58 (bit_and reg 7))

unfoldable pub generate_indirect_call : ℤ → List ℕ
generate_indirect_call displacement = emit 0xE8 ++ imm32 (i32_bits (minus_five displacement))

unfoldable pub generate_indirect_call2 : ℤ → List ℕ
generate_indirect_call2 displacement = emit 0xFF ++ (emit 0x15 ++ imm32 (i32_bits displacement))

unfoldable pub generate_register_call : ℕ → List ℕ
generate_register_call reg = emit 0xFF ++ mod_rm 3 2 (u8 (bit_and reg 7))

unfoldable pub generate_lea_to_reg : ℕ → ℕ → ℕ → List ℕ
generate_lea_to_reg source_register source_displacement destination_register =
    if source_register == rip
    then rex true (leb 8 destination_register) false false
      ++ (emit 0x8D
          ++ (mod_rm 0 (u8 (bit_and destination_register 7)) 5
              ++ imm32 (i32_bits (i32 source_displacement))))
    else rex true (leb 8 destination_register) false (leb 8 source_register)
      ++ (emit 0x8D
          ++ mod_rm_memory (u8 (bit_and destination_register 7)) (u8 (bit_and source_register 7))
              (i32 source_displacement))
