-- ===== src/Emitter/Operands.antt =====
-- The operands and instructions of the emitter: Machine/Encoders/Backends/x86_64/Core/encoder.h lines
-- 92-261, and the exceptions that CodeGeneration/Emitters/x86_64 throws. A description is its
-- instruction here, not the bytes of it, so its size is right by its type.
use ecpps.Common.{ℕ, ◌-◌, ◌%◌, ◌^◌, not, ◌||◌, if◌then◌else◌}
use ecpps.Common.Int.{ℤ, pos, negsuc, to_bits, of_bits, leb_ℤ}
use ecpps.Opcodes.Operands.{Width}

pub data RegisterIndex : Type 0 where
  rax rcx rdx rbx rsp rbp rsi rdi r8 r9 r10 r11 r12 r13 r14 r15 rip : RegisterIndex

-- std::to_underlying
abbrev pub register_number : RegisterIndex → ℕ
register_number rax = 0
register_number rcx = 1
register_number rdx = 2
register_number rbx = 3
register_number rsp = 4
register_number rbp = 5
register_number rsi = 6
register_number rdi = 7
register_number r8 = 8
register_number r9 = 9
register_number r10 = 10
register_number r11 = 11
register_number r12 = 12
register_number r13 = 13
register_number r14 = 14
register_number r15 = 15
register_number rip = 16

-- A register; an address from a register; a std::uint64_t; a slot of the frame, which Finalise
-- replaces; a string by its place in the table.
pub data Operand : Type 0 where
  register : RegisterIndex → Operand
  memory : RegisterIndex → ℤ → Operand
  integer : ℕ → Operand
  stack : ℕ → Operand
  string_address : ℕ → ℕ → Operand

pub data Exception : Type 0 where
  unresolved_stack : Exception
  does_not_fit : Exception
  invalid_mov_source invalid_add_source invalid_sub_source invalid_or_source : Exception
  invalid_shift_source invalid_shift_destination : Exception
  invalid_xchg_source invalid_xchg_destination xchg_memory_memory : Exception
  invalid_movzx_source invalid_movsx_source : Exception
  invalid_mul_operand invalid_div_operand invalid_not_operand : Exception
  cmp_immediate_left cmp_memory_memory cmp_unsupported : Exception
  unknown_string unknown_function : Exception
  assertion_failed : Exception

-- What a call ends with: its result, the exception that leaves it, or nothing while the fuel lasts.
pub data Outcome (A : Type 0) : Type 0 where
  returned : A → Outcome A
  thrown : Exception → Outcome A
  unfinished : Outcome A

abbrev pub and_then : {A B : Type 0} → Outcome A → (A → Outcome B) → Outcome B
and_then (returned a) next = next a
and_then (thrown e) next = thrown e
and_then unfinished next = unfinished

-- static_cast<std::size_t> of a std::int32_t, and static_cast<std::int64_t> of a std::uint64_t.
abbrev pub size_t : ℤ → ℕ
size_t offset = to_bits (2 ^ 64) offset

abbrev pub i64 : ℕ → ℤ
i64 value = of_bits (2 ^ 64) (value % 2 ^ 64)

-- Imm32SignExtended of operations/arithmetics.cpp.
unfoldable pub imm32_sign_extended : ℕ → Outcome ℕ
imm32_sign_extended value =
    let signed_value = i64 value in
    if not (leb_ℤ (negsuc (2 ^ 31 - 1)) signed_value) || not (leb_ℤ signed_value (pos (2 ^ 31 - 1)))
    then thrown does_not_fit
    else returned (value % 2 ^ 32)

-- ConditionCode of CodeGeneration/AbstractNodes.h.
pub data ConditionCode : Type 0 where
  equal not_equal less less_equal greater greater_equal below below_equal : ConditionCode
  above above_equal : ConditionCode

pub record MovInstruction : Type 0 where
  pub width : Width
  pub destination : Operand
  pub source : Operand

pub record AddInstruction : Type 0 where
  pub width : Width
  pub modified_destination : Operand
  pub source : Operand

pub record SubInstruction : Type 0 where
  pub width : Width
  pub modified_destination : Operand
  pub source : Operand

pub record ShiftInstruction : Type 0 where
  pub width : Width
  pub modified_destination : Operand
  pub source : Operand

pub record MovExtendInstruction : Type 0 where
  pub destination_width : Width
  pub source_width : Width
  pub destination : Operand
  pub source : Operand

pub record PushInstruction : Type 0 where
  pub reg : RegisterIndex

pub record PopInstruction : Type 0 where
  pub reg : RegisterIndex

pub record XchgInstruction : Type 0 where
  pub width : Width
  pub modified_destination : Operand
  pub modified_source : Operand

pub record BinaryOrInstruction : Type 0 where
  pub width : Width
  pub modified_destination : Operand
  pub source : Operand

pub record BinaryAndInstruction : Type 0 where
  pub width : Width
  pub modified_destination : Operand
  pub source : Operand

pub record LeaInstruction : Type 0 where
  pub width : Width
  pub destination : RegisterIndex
  pub address : Operand

pub record MulInstruction : Type 0 where
  pub width : Width
  pub source : Operand

pub record DivInstruction : Type 0 where
  pub width : Width
  pub source : Operand

pub record JmpInstruction : Type 0 where
  pub label_id : ℕ

pub record LabelInstruction : Type 0 where
  pub label_id : ℕ

pub record CmpInstruction : Type 0 where
  pub width : Width
  pub left : Operand
  pub right : Operand

pub record JccInstruction : Type 0 where
  pub condition : ConditionCode
  pub label_id : ℕ

pub record BinaryXorInstruction : Type 0 where
  pub width : Width
  pub modified_destination : Operand
  pub source : Operand

pub record BitwiseNotInstruction : Type 0 where
  pub width : Width
  pub modified_operand : Operand

pub record ArithmeticNegationInstruction : Type 0 where
  pub width : Width
  pub modified_operand : Operand

pub record CallInstruction : Type 0 where
  pub index_to_table : ℕ
