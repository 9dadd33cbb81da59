-- ===== src/Opcodes/Fixed/OpcodeRegister.antt =====
-- A register in the low bits of an opcode: moves of an immediate, pushes and pops are decoded.
use ecpps.Common.{
  ℕ, zero, suc, ◌+◌, ◌%◌, ◌^◌, ◌<◌, ◌≡◌, refl, some, List, ◌++◌, arith, Bool, true, false, leb,
  ◌==◌, not, ◌&&◌, bit_and, bit_or, Option,
}
use ecpps.Common.Bits.{bit_and_seven}
use ecpps.Common.Int.{ℤ}
use ecpps.Opcodes.Operands.{Width}
use ecpps.Opcodes.Emit.{is_byte, requires_byte_rex}
use ecpps.Opcodes.Decoder.{decode, run}
use ecpps.Opcodes.Decoder.Table.{one_byte}
use ecpps.Opcodes.Decoder.Forms.{Form, opcode_register}
use ecpps.Opcodes.Decoder.Operand.{Operand, gpr, ImmKind, no_imm, full_sized}
use ecpps.Opcodes.Decoder.Instructions.{Insn}
use ecpps.Opcodes.ReadInsn.{finish, decode-opcode_short}
use ecpps.Opcodes.ReadPrefixes.{is_plain, register-forced, width_of-prefixes}
use ecpps.Opcodes.ReadOperand.{with_extension}
use ecpps.Opcodes.Fixed.Emit.{emit}
use ecpps.Opcodes.Fixed.Forms.{prefixed, prefixed-put_rex}

-- The opcodes from `base` on are the form `f`, with the low bits put in by `|`.
abbrev pub IsRow : ℕ → Form → ℕ → Type 0
IsRow base f y =
    (bit_or base y ≡ base + y)
    × (is_plain (base + y) && not (base + y == 0x0F) ≡ true)
    × (one_byte (base + y) ≡ f)

pub IsRow-b0 :
    (y : ℕ)
    → y < 8
    → IsRow 0xB0 (opcode_register true full_sized (λ w r i. some (Insn.move_imm w r i))) y
unfolding one_byte is_plain
IsRow-b0 zero h = (refl, refl, refl)
IsRow-b0 (suc zero) h = (refl, refl, refl)
IsRow-b0 (suc (suc zero)) h = (refl, refl, refl)
IsRow-b0 (suc (suc (suc zero))) h = (refl, refl, refl)
IsRow-b0 (suc (suc (suc (suc zero)))) h = (refl, refl, refl)
IsRow-b0 (suc (suc (suc (suc (suc zero))))) h = (refl, refl, refl)
IsRow-b0 (suc (suc (suc (suc (suc (suc zero)))))) h = (refl, refl, refl)
IsRow-b0 (suc (suc (suc (suc (suc (suc (suc zero))))))) h = (refl, refl, refl)
IsRow-b0 (suc (suc (suc (suc (suc (suc (suc (suc n)))))))) h = absurd (omega arith)

pub IsRow-b8 :
    (y : ℕ)
    → y < 8
    → IsRow 0xB8 (opcode_register false full_sized (λ w r i. some (Insn.move_imm w r i))) y
unfolding one_byte is_plain
IsRow-b8 zero h = (refl, refl, refl)
IsRow-b8 (suc zero) h = (refl, refl, refl)
IsRow-b8 (suc (suc zero)) h = (refl, refl, refl)
IsRow-b8 (suc (suc (suc zero))) h = (refl, refl, refl)
IsRow-b8 (suc (suc (suc (suc zero)))) h = (refl, refl, refl)
IsRow-b8 (suc (suc (suc (suc (suc zero))))) h = (refl, refl, refl)
IsRow-b8 (suc (suc (suc (suc (suc (suc zero)))))) h = (refl, refl, refl)
IsRow-b8 (suc (suc (suc (suc (suc (suc (suc zero))))))) h = (refl, refl, refl)
IsRow-b8 (suc (suc (suc (suc (suc (suc (suc (suc n)))))))) h = absurd (omega arith)

pub IsRow-50 :
    (y : ℕ) → y < 8 → IsRow 0x50 (opcode_register false no_imm (λ w r i. some (Insn.push r))) y
unfolding one_byte is_plain
IsRow-50 zero h = (refl, refl, refl)
IsRow-50 (suc zero) h = (refl, refl, refl)
IsRow-50 (suc (suc zero)) h = (refl, refl, refl)
IsRow-50 (suc (suc (suc zero))) h = (refl, refl, refl)
IsRow-50 (suc (suc (suc (suc zero)))) h = (refl, refl, refl)
IsRow-50 (suc (suc (suc (suc (suc zero))))) h = (refl, refl, refl)
IsRow-50 (suc (suc (suc (suc (suc (suc zero)))))) h = (refl, refl, refl)
IsRow-50 (suc (suc (suc (suc (suc (suc (suc zero))))))) h = (refl, refl, refl)
IsRow-50 (suc (suc (suc (suc (suc (suc (suc (suc n)))))))) h = absurd (omega arith)

pub IsRow-58 :
    (y : ℕ) → y < 8 → IsRow 0x58 (opcode_register false no_imm (λ w r i. some (Insn.pop r))) y
unfolding one_byte is_plain
IsRow-58 zero h = (refl, refl, refl)
IsRow-58 (suc zero) h = (refl, refl, refl)
IsRow-58 (suc (suc zero)) h = (refl, refl, refl)
IsRow-58 (suc (suc (suc zero))) h = (refl, refl, refl)
IsRow-58 (suc (suc (suc (suc zero)))) h = (refl, refl, refl)
IsRow-58 (suc (suc (suc (suc (suc zero))))) h = (refl, refl, refl)
IsRow-58 (suc (suc (suc (suc (suc (suc zero)))))) h = (refl, refl, refl)
IsRow-58 (suc (suc (suc (suc (suc (suc (suc zero))))))) h = (refl, refl, refl)
IsRow-58 (suc (suc (suc (suc (suc (suc (suc (suc n)))))))) h = absurd (omega arith)

module _ (size : Width) (base reg : ℕ) (force : Bool) {imm : ImmKind}
    {build : Width → Operand → ℤ → Option Insn} (reg-lt : reg < 16) (aligned : base % 8 ≡ 0)
    (byte : base < 0xC0)
    (row : (y : ℕ) → y < 8 → IsRow base (opcode_register (is_byte size) imm build) y)
    (forced : is_byte size && requires_byte_rex reg ≡ true → is_byte size && force ≡ true) where
  -- The register and its extension bit are read back, and the immediate comes next.
  pub decode-opcode_register :
      (bs : List ℕ)
      → decode (prefixed size force false (leb 8 reg) (emit (bit_or base (bit_and reg 7)) ++ bs))
        ≡ finish imm size bs (build size (gpr reg))
  unfolding emit
  decode-opcode_register bs =
      let (joined, plain, form) = row (reg % 8) (omega arith) in
      let fits : (base + reg % 8) % 2 ^ 8 ≡ base + reg % 8 = omega arith in
      let low : (base + reg % 8) % 8 ≡ reg % 8 = omega arith in
      rw
        (
          prefixed-put_rex,
          bit_and_seven,
          joined,
          fits,
          decode-opcode_short size (leb 8 reg) (is_byte size && force) _ bs plain,
          form,
        )
        (unfold run in
          rw
            (
              low,
              with_extension reg reg-lt,
              width_of-prefixes size false false (leb 8 reg) (is_byte size && force),
              register-forced size false false (leb 8 reg) (is_byte size && force) (is_byte size)
                  reg forced,
            )
            refl)
