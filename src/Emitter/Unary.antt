-- ===== src/Emitter/Unary.antt =====
-- CodeGeneration/Emitters/x86_64/operations/: mul.cpp, div.cpp, arithmeticNegation.cpp, and NOT of bitwiseMath.cpp.
use ecpps.Common.{ℕ, List}
use ecpps.Common.Int.{ℤ}
use ecpps.Opcodes.Operands.{Width, mem_base, UnaryOp}
use ecpps.Emitter.Operands.{
  RegisterIndex, register_number, Operand, register, memory, integer, stack, string_address,
  Outcome, returned, thrown, MulInstruction, DivInstruction, BitwiseNotInstruction,
  ArithmeticNegationInstruction, unresolved_stack, invalid_mul_operand, invalid_div_operand,
  invalid_not_operand,
}
use ecpps.Opcodes.Generators.Arithmetic.{generate_unary_reg, generate_unary_mem}

unfoldable pub asm_mul_register : Width → RegisterIndex → List ℕ
asm_mul_register width operand = generate_unary_reg UnaryOp.mul width (register_number operand)

unfoldable pub asm_mul_memory : Width → RegisterIndex → ℤ → List ℕ
asm_mul_memory width relative_to offset =
    generate_unary_mem UnaryOp.mul width (mem_base (register_number relative_to) offset)

unfoldable pub asm_mul : Width → Operand → Outcome (List ℕ)
asm_mul width (register reg) = returned (asm_mul_register width reg)
asm_mul width (memory base offset) = returned (asm_mul_memory width base offset)
asm_mul width (stack offset) = thrown unresolved_stack
asm_mul width (integer value) = thrown invalid_mul_operand
asm_mul width (string_address index offset) = thrown invalid_mul_operand

unfoldable pub emit_mul : MulInstruction → Outcome (List ℕ)
emit_mul instruction = asm_mul instruction.width instruction.source

unfoldable pub asm_div_register : Width → RegisterIndex → List ℕ
asm_div_register width operand = generate_unary_reg UnaryOp.div width (register_number operand)

unfoldable pub asm_div_memory : Width → RegisterIndex → ℤ → List ℕ
asm_div_memory width relative_to offset =
    generate_unary_mem UnaryOp.div width (mem_base (register_number relative_to) offset)

unfoldable pub asm_div : Width → Operand → Outcome (List ℕ)
asm_div width (register reg) = returned (asm_div_register width reg)
asm_div width (memory base offset) = returned (asm_div_memory width base offset)
asm_div width (stack offset) = thrown unresolved_stack
asm_div width (integer value) = thrown invalid_div_operand
asm_div width (string_address index offset) = thrown invalid_div_operand

unfoldable pub emit_div : DivInstruction → Outcome (List ℕ)
emit_div instruction = asm_div instruction.width instruction.source

unfoldable pub asm_bitwise_not_register : Width → RegisterIndex → List ℕ
asm_bitwise_not_register width operand =
    generate_unary_reg UnaryOp.not width (register_number operand)

unfoldable pub asm_bitwise_not_memory : Width → RegisterIndex → ℤ → List ℕ
asm_bitwise_not_memory width relative_to offset =
    generate_unary_mem UnaryOp.not width (mem_base (register_number relative_to) offset)

unfoldable pub asm_bitwise_not : Width → Operand → Outcome (List ℕ)
asm_bitwise_not width (register reg) = returned (asm_bitwise_not_register width reg)
asm_bitwise_not width (memory base offset) = returned (asm_bitwise_not_memory width base offset)
asm_bitwise_not width (stack offset) = thrown unresolved_stack
asm_bitwise_not width (integer value) = thrown invalid_not_operand
asm_bitwise_not width (string_address index offset) = thrown invalid_not_operand

unfoldable pub emit_bitwise_not : BitwiseNotInstruction → Outcome (List ℕ)
emit_bitwise_not instruction = asm_bitwise_not instruction.width instruction.modified_operand

unfoldable pub asm_bitwise_neg_register : Width → RegisterIndex → List ℕ
asm_bitwise_neg_register width operand =
    generate_unary_reg UnaryOp.neg width (register_number operand)

unfoldable pub asm_bitwise_neg_memory : Width → RegisterIndex → ℤ → List ℕ
asm_bitwise_neg_memory width relative_to offset =
    generate_unary_mem UnaryOp.neg width (mem_base (register_number relative_to) offset)

unfoldable pub asm_bitwise_neg : Width → Operand → Outcome (List ℕ)
asm_bitwise_neg width (register reg) = returned (asm_bitwise_neg_register width reg)
asm_bitwise_neg width (memory base offset) = returned (asm_bitwise_neg_memory width base offset)
asm_bitwise_neg width (stack offset) = thrown unresolved_stack
asm_bitwise_neg width (integer value) = thrown invalid_not_operand
asm_bitwise_neg width (string_address index offset) = thrown invalid_not_operand

unfoldable pub emit_arithmetic_negation : ArithmeticNegationInstruction → Outcome (List ℕ)
emit_arithmetic_negation instruction =
    asm_bitwise_neg instruction.width instruction.modified_operand
