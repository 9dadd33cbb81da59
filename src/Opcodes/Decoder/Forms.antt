-- ===== src/Opcodes/Decoder/Forms.antt =====
-- What follows an opcode, and the groups of instructions that the opcode maps share.
use ecpps.Common.{ℕ, Bool, true, false, Option, none, some, ◌==◌, if◌then◌else◌}
use ecpps.Common.Int.{ℤ}
use ecpps.Opcodes.Operands.{Width, AluOp, ShiftOp, UnaryOp, BitOp, Condition, RepPrefix}
use ecpps.Opcodes.Decoder.Operand.{Operand, gpr, ImmKind, no_imm, operand_sized}
use ecpps.Opcodes.Decoder.Instructions.{Insn}

-- What follows an opcode, and the instruction that it makes: with a ModRM byte (whether the operand
-- width, the r/m register and the reg register are bytes, the immediate by the digit of the field
-- reg, and the instruction of a width, an r/m operand, a digit, a register and an immediate), with
-- an immediate alone, or with a register in the opcode and an immediate.
pub data Form : Type 0 where
  invalid : Form
  mod_rm :
      Bool → Bool → Bool → (ℕ → ImmKind) → (Width → Operand → ℕ → Operand → ℤ → Option Insn) → Form
  plain : Bool → ImmKind → (RepPrefix → Width → ℤ → Option Insn) → Form
  opcode_register : Bool → ImmKind → (Width → Operand → ℤ → Option Insn) → Form

abbrev pub alu_of : ℕ → AluOp
alu_of n =
    if n == 0
    then AluOp.add
    else if n == 1
    then AluOp.or
    else if n == 2
    then AluOp.adc
    else if n == 3
    then AluOp.sbb
    else if n == 4
    then AluOp.and
    else if n == 5
    then AluOp.sub
    else if n == 6
    then AluOp.xor
    else AluOp.cmp

-- Digit 6 is no shift of the manuals.
abbrev pub shift_of : ℕ → Option ShiftOp
shift_of n =
    if n == 0
    then some ShiftOp.rol
    else if n == 1
    then some ShiftOp.ror
    else if n == 2
    then some ShiftOp.rcl
    else if n == 3
    then some ShiftOp.rcr
    else if n == 4
    then some ShiftOp.shl
    else if n == 5
    then some ShiftOp.shr
    else if n == 7
    then some ShiftOp.sar
    else none

abbrev pub condition_of : ℕ → Condition
condition_of n =
    if n == 0
    then Condition.overflow
    else if n == 1
    then Condition.no_overflow
    else if n == 2
    then Condition.below
    else if n == 3
    then Condition.above_or_equal
    else if n == 4
    then Condition.equal
    else if n == 5
    then Condition.not_equal
    else if n == 6
    then Condition.below_or_equal
    else if n == 7
    then Condition.above
    else if n == 8
    then Condition.sign
    else if n == 9
    then Condition.no_sign
    else if n == 10
    then Condition.parity
    else if n == 11
    then Condition.no_parity
    else if n == 12
    then Condition.less
    else if n == 13
    then Condition.greater_or_equal
    else if n == 14
    then Condition.less_or_equal
    else Condition.greater

abbrev pub bit_of : ℕ → BitOp
bit_of n =
    if n == 0
    then BitOp.bt
    else if n == 1
    then BitOp.bts
    else if n == 2
    then BitOp.btr
    else BitOp.btc

abbrev pub no_imms : ℕ → ImmKind
no_imms _ = no_imm

abbrev pub always : ImmKind → ℕ → ImmKind
always k _ = k

-- Opcodes 00 to 3F: the low three bits choose the operands.
abbrev pub alu_form : AluOp → ℕ → Form
alu_form op low =
    if low == 0
    then mod_rm true true true no_imms (λ w rm d r i. some (Insn.alu op w rm r))
    else if low == 1
    then mod_rm false false false no_imms (λ w rm d r i. some (Insn.alu op w rm r))
    else if low == 2
    then mod_rm true true true no_imms (λ w rm d r i. some (Insn.alu op w r rm))
    else if low == 3
    then mod_rm false false false no_imms (λ w rm d r i. some (Insn.alu op w r rm))
    else if low == 4
    then plain true operand_sized (λ rep w i. some (Insn.alu_imm op w (gpr 0) i))
    else if low == 5
    then plain false operand_sized (λ rep w i. some (Insn.alu_imm op w (gpr 0) i))
    else invalid

abbrev pub shift_build : (ShiftOp → Insn) → ℕ → Option Insn
shift_build build d = elim (shift_of d) [ none ↦ none | some op ↦ some (build op) ]

-- F6 and F7: test with an immediate at digit 0, and the unary operations.
abbrev pub group3_imm : ℕ → ImmKind
group3_imm d = if d == 0 then operand_sized else no_imm

abbrev pub group3 : Width → Operand → ℕ → ℤ → Option Insn
group3 w rm d i =
    if d == 0
    then some (Insn.test_imm w rm i)
    else if d == 2
    then some (Insn.unary UnaryOp.not w rm)
    else if d == 3
    then some (Insn.unary UnaryOp.neg w rm)
    else if d == 4
    then some (Insn.unary UnaryOp.mul w rm)
    else if d == 5
    then some (Insn.unary UnaryOp.imul w rm)
    else if d == 6
    then some (Insn.unary UnaryOp.div w rm)
    else if d == 7
    then some (Insn.unary UnaryOp.idiv w rm)
    else none

-- FE and FF. The operand of a near call, jump or push is 64 bits wide, whatever the prefixes say.
abbrev pub group4 : Width → Operand → ℕ → Option Insn
group4 w rm d =
    if d == 0
    then some (Insn.unary UnaryOp.inc w rm)
    else if d == 1
    then some (Insn.unary UnaryOp.dec w rm)
    else none

abbrev pub group5 : Width → Operand → ℕ → Option Insn
group5 w rm d =
    if d == 2
    then some (Insn.call_to rm)
    else if d == 4
    then some (Insn.jump_to rm)
    else if d == 6
    then some (Insn.push rm)
    else group4 w rm d

abbrev pub digit_zero : ℕ → Insn → Option Insn
digit_zero d insn = if d == 0 then some insn else none
