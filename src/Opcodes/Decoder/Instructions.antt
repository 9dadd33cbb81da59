-- ===== src/Opcodes/Decoder/Instructions.antt =====
-- Instructions, as the processor understands them. Where there are two operands, the destination
-- comes first.
use ecpps.Common.{Bool}
use ecpps.Common.Int.{ℤ}
use ecpps.Opcodes.Operands.{
  Width, AluOp, ShiftOp, UnaryOp, BitOp, ExtendKind, Condition, StringOp, RepPrefix,
}
use ecpps.Opcodes.Decoder.Operand.{Operand}

pub data Insn : Type 0 where
  alu : AluOp → Width → Operand → Operand → Insn
  alu_imm : AluOp → Width → Operand → ℤ → Insn
  test : Width → Operand → Operand → Insn
  test_imm : Width → Operand → ℤ → Insn
  move : Width → Operand → Operand → Insn
  move_imm : Width → Operand → ℤ → Insn
  extend : ExtendKind → Width → Width → Operand → Operand → Insn
  exchange : Width → Operand → Operand → Insn
  compare_exchange : Width → Operand → Operand → Insn
  exchange_add : Width → Operand → Operand → Insn
  conditional_move : Condition → Width → Operand → Operand → Insn
  set_condition : Condition → Operand → Insn
  load_address : Width → Operand → Operand → Insn
  unary : UnaryOp → Width → Operand → Insn
  multiply : Width → Operand → Operand → Insn
  multiply_imm : Width → Operand → Operand → ℤ → Insn
  shift : ShiftOp → Width → Operand → ℤ → Insn
  shift_cl : ShiftOp → Width → Operand → Insn
  double_shift : Bool → Width → Operand → Operand → ℤ → Insn
  double_shift_cl : Bool → Width → Operand → Operand → Insn
  bit_test : BitOp → Width → Operand → Operand → Insn
  bit_test_imm : BitOp → Width → Operand → ℤ → Insn
  bit_scan : Bool → Width → Operand → Operand → Insn
  byte_swap : Width → Operand → Insn
  jump : ℤ → Insn
  jump_if : Condition → ℤ → Insn
  jump_if_rcx_zero : ℤ → Insn
  loop : ℤ → Insn
  call : ℤ → Insn
  jump_to : Operand → Insn
  call_to : Operand → Insn
  push : Operand → Insn
  push_imm : ℤ → Insn
  pop : Operand → Insn
  string : StringOp → Width → RepPrefix → Insn
  input_imm : Width → ℤ → Insn
  input_dx : Width → Insn
  output_imm : Width → ℤ → Insn
  output_dx : Width → Insn
  return_imm : ℤ → Insn
  interrupt : ℤ → Insn
