-- ===== src/Opcodes/Decoder.antt =====
-- The specification of the encoder: a decoder of x86-64 machine code in the order in which a
-- processor reads it. It is written from the instruction format (legacy prefixes, REX, opcode,
-- ModRM, SIB, displacement, immediate), and uses nothing of the encoder but its operand types.
pub mod Operand
pub mod Instructions
pub mod Forms
pub mod Table
use ecpps.Common.{
  ℕ, ◌+◌, ◌/◌, ◌%◌, ◌≡◌, Bool, true, false, Option, none, some, List, [], ◌∷◌, ◌==◌, ◌>>=◌,
  if◌then◌else◌,
}
use ecpps.Common.Int.{ℤ}
use Instructions.{Insn}
use Operand.{Prefixes, register, extension, width_of, read_rm, read_imm, no_imm}
use Table.{one_byte, two_byte}
use Forms.{Form, invalid, mod_rm, plain, opcode_register}
use ecpps.Opcodes.Operands.{RepPrefix}

unfoldable pub run : Form → ℕ → Prefixes → List ℕ → Option (Insn × List ℕ)
run invalid o p bs = none
run (mod_rm byte rm_byte reg_byte imm build) o p bs = do
  (rm, digit, r1) ← read_rm p rm_byte bs
  (i, r2) ← read_imm (imm digit) (width_of p byte) r1
  insn ← build (width_of p byte) rm digit (register p reg_byte (digit + extension p.r)) i
  some (insn, r2)
run (plain byte imm build) o p bs = do
  (i, r) ← read_imm imm (width_of p byte) bs
  insn ← build p.rep (width_of p byte) i
  some (insn, r)
run (opcode_register byte imm build) o p bs = do
  (i, r) ← read_imm imm (width_of p byte) bs
  insn ← build (width_of p byte) (register p byte (o % 8 + extension p.b)) i
  some (insn, r)

unfoldable pub decode_second : Prefixes → List ℕ → Option (Insn × List ℕ)
decode_second p [] = none
decode_second p (o ∷ bs) = run (two_byte o) o p bs

unfoldable pub decode_opcode : Prefixes → List ℕ → Option (Insn × List ℕ)
decode_opcode p [] = none
decode_opcode p (o ∷ bs) = if o == 0x0F then decode_second p bs else run (one_byte o) o p bs

-- A REX prefix is a byte 0100WRXB, and stands right before the opcode.
unfoldable pub read_rex : RepPrefix → Bool → List ℕ → Prefixes × List ℕ
read_rex repeat size [] = (
  record {
    rep = repeat;
    operand_size = size;
    rex = false;
    w = false;
    r = false;
    x = false;
    b = false;
  },
  [],
)
read_rex repeat size (o ∷ bs) =
    if o / 16 == 4
    then (
      record {
        rep = repeat;
        operand_size = size;
        rex = true;
        w = o / 8 % 2 == 1;
        r = o / 4 % 2 == 1;
        x = o / 2 % 2 == 1;
        b = o % 2 == 1;
      },
      bs,
    )
    else (
      record {
        rep = repeat;
        operand_size = size;
        rex = false;
        w = false;
        r = false;
        x = false;
        b = false;
      },
      o ∷ bs,
    )

unfoldable pub read_operand_size : RepPrefix → List ℕ → Prefixes × List ℕ
read_operand_size repeat [] = read_rex repeat false []
read_operand_size repeat (o ∷ bs) =
    if o == 0x66 then read_rex repeat true bs else read_rex repeat false (o ∷ bs)

unfoldable pub read_prefixes : List ℕ → Prefixes × List ℕ
read_prefixes [] = read_operand_size RepPrefix.none []
read_prefixes (o ∷ bs) =
    if o == 0xF3
    then read_operand_size RepPrefix.rep bs
    else if o == 0xF2
    then read_operand_size RepPrefix.repne bs
    else read_operand_size RepPrefix.none (o ∷ bs)

-- One instruction, and the bytes that follow it.
unfoldable pub decode : List ℕ → Option (Insn × List ℕ)
decode bs = let (p, rest) = read_prefixes bs in decode_opcode p rest
