-- ===== src/Opcodes/Operands.antt =====
-- The operand types of the encoder (Opcodes.h lines 336-449, and Width of
-- Machine/Encoders/Backends/x86_64/Core/encoder.h). A register is its number, a std::size_t.
use ecpps.Common.{ℕ, ◌^◌, ◌-◌}
use ecpps.Common.Int.{ℤ}

pub data Width : Type 0 where
  w8 w16 w32 w64 : Width

-- The underlying value of the enumeration, which is the width in bits.
abbrev pub width_value : Width → ℕ
width_value w8 = 8
width_value w16 = 16
width_value w32 = 32
width_value w64 = 64

abbrev pub rax : ℕ
rax = 0

abbrev pub rip : ℕ
rip = 16

-- static_cast<std::size_t>(-1)
abbrev pub no_register : ℕ
no_register = 2 ^ 64 - 1

pub record Memory : Type 0 where
  pub base : ℕ
  pub index : ℕ
  pub scale : ℕ
  pub displacement : ℤ

abbrev pub mem_base : ℕ → ℤ → Memory
mem_base base d = record { base = base; index = no_register; scale = 1; displacement = d }

abbrev pub mem_indexed : ℕ → ℕ → ℕ → ℤ → Memory
mem_indexed base index scale d = record {
  base = base;
  index = index;
  scale = scale;
  displacement = d;
}

abbrev pub mem_rip : ℤ → Memory
mem_rip d = record { base = rip; index = no_register; scale = 1; displacement = d }

abbrev pub mem_absolute : ℤ → Memory
mem_absolute a = record { base = no_register; index = no_register; scale = 1; displacement = a }

-- What a switch over the width chooses.
abbrev pub by_width {ℓ} : {A : Type ℓ} → A → A → A → A → Width → A
by_width f8 f16 f32 f64 w8 = f8
by_width f8 f16 f32 f64 w16 = f16
by_width f8 f16 f32 f64 w32 = f32
by_width f8 f16 f32 f64 w64 = f64

pub data AluOp : Type 0 where
  add or adc sbb and sub xor cmp : AluOp

abbrev pub alu_value : AluOp → ℕ
alu_value add = 0
alu_value or = 1
alu_value adc = 2
alu_value sbb = 3
alu_value and = 4
alu_value sub = 5
alu_value xor = 6
alu_value cmp = 7

pub data ShiftOp : Type 0 where
  rol ror rcl rcr shl shr sar : ShiftOp

abbrev pub shift_value : ShiftOp → ℕ
shift_value rol = 0
shift_value ror = 1
shift_value rcl = 2
shift_value rcr = 3
shift_value shl = 4
shift_value shr = 5
shift_value sar = 7

pub data UnaryOp : Type 0 where
  inc dec not neg mul imul div idiv : UnaryOp

abbrev pub unary_value : UnaryOp → ℕ
unary_value inc = 0
unary_value dec = 1
unary_value not = 2
unary_value neg = 3
unary_value mul = 4
unary_value imul = 5
unary_value div = 6
unary_value idiv = 7

pub data BitOp : Type 0 where
  bt bts btr btc : BitOp

abbrev pub bit_value : BitOp → ℕ
bit_value bt = 0
bit_value bts = 1
bit_value btr = 2
bit_value btc = 3

pub data ExtendKind : Type 0 where
  zero sign : ExtendKind

pub data Condition : Type 0 where
  overflow no_overflow below above_or_equal equal not_equal below_or_equal above : Condition
  sign no_sign parity no_parity less greater_or_equal less_or_equal greater : Condition

abbrev pub condition_value : Condition → ℕ
condition_value overflow = 0
condition_value no_overflow = 1
condition_value below = 2
condition_value above_or_equal = 3
condition_value equal = 4
condition_value not_equal = 5
condition_value below_or_equal = 6
condition_value above = 7
condition_value Condition.sign = 8
condition_value no_sign = 9
condition_value parity = 10
condition_value no_parity = 11
condition_value less = 12
condition_value greater_or_equal = 13
condition_value less_or_equal = 14
condition_value greater = 15

pub data StringOp : Type 0 where
  movs cmps stos lods scas : StringOp

abbrev pub string_value : StringOp → ℕ
string_value movs = 0xA4
string_value cmps = 0xA6
string_value stos = 0xAA
string_value lods = 0xAC
string_value scas = 0xAE

pub data RepPrefix : Type 0 where
  none rep repne : RepPrefix
