-- ===== src/Emitter/Conditions.antt =====
-- The conditions of jumps: what the processor's conditions say of the flags that CMP sets, and what a
-- ConditionCode says of the numbers compared. EmitJcc goes from the second to the first.
use ecpps.Common.{
  ℕ, ◌+◌, ◌-◌, ◌/◌, ◌^◌, ◌<◌, ◌≡◌, refl, Bool, true, false, not, ◌&&◌, ◌||◌, leb, ltb, ◌==◌,
  if◌then◌else◌, arith,
}
use ecpps.Opcodes.Operands.{Width, w8, w16, w32, w64, Condition}
use ecpps.Opcodes.Immediates.{modulus}
use ecpps.Emitter.Operands.{ConditionCode}
use ecpps.Emitter.Routine.{condition}

pub record Flags : Type 0 where
  pub carry : Bool
  pub zero_flag : Bool
  pub sign_flag : Bool
  pub overflow_flag : Bool
  pub parity_flag : Bool

abbrev pub same : Bool → Bool → Bool
same true b = b
same false b = not b

-- The conditions in the processor's manual.
abbrev pub holds : Condition → Flags → Bool
holds Condition.overflow f = f.overflow_flag
holds Condition.no_overflow f = not f.overflow_flag
holds Condition.below f = f.carry
holds Condition.above_or_equal f = not f.carry
holds Condition.equal f = f.zero_flag
holds Condition.not_equal f = not f.zero_flag
holds Condition.below_or_equal f = f.carry || f.zero_flag
holds Condition.above f = not (f.carry || f.zero_flag)
holds Condition.sign f = f.sign_flag
holds Condition.no_sign f = not f.sign_flag
holds Condition.parity f = f.parity_flag
holds Condition.no_parity f = not f.parity_flag
holds Condition.less f = not (same f.sign_flag f.overflow_flag)
holds Condition.greater_or_equal f = same f.sign_flag f.overflow_flag
holds Condition.less_or_equal f = f.zero_flag || not (same f.sign_flag f.overflow_flag)
holds Condition.greater f = not f.zero_flag && same f.sign_flag f.overflow_flag

-- Words of modulus `m`: the sign bit, and the difference that wraps.
abbrev pub is_negative : ℕ → ℕ → Bool
is_negative m x = leb (m / 2) x

abbrev pub difference : ℕ → ℕ → ℕ → ℕ
difference m x y = if leb y x then x - y else x + m - y

-- What CMP of x and y leaves; the parity plays no part in what follows.
abbrev pub flags_of_cmp : ℕ → Bool → ℕ → ℕ → Flags
flags_of_cmp m parity x y = record {
  carry = ltb x y;
  zero_flag = difference m x y == 0;
  sign_flag = is_negative m (difference m x y);
  overflow_flag =
      not (same (is_negative m x) (is_negative m y))
      && not (same (is_negative m x) (is_negative m (difference m x y)));
  parity_flag = parity;
}

-- The order of two words as signed numbers.
abbrev pub signed_ltb : ℕ → ℕ → ℕ → Bool
signed_ltb m x y = if same (is_negative m x) (is_negative m y) then ltb x y else is_negative m x

abbrev pub compares : ConditionCode → ℕ → ℕ → ℕ → Bool
compares ConditionCode.equal m x y = x == y
compares ConditionCode.not_equal m x y = not (x == y)
compares ConditionCode.less m x y = signed_ltb m x y
compares ConditionCode.less_equal m x y = not (signed_ltb m y x)
compares ConditionCode.greater m x y = signed_ltb m y x
compares ConditionCode.greater_equal m x y = not (signed_ltb m x y)
compares ConditionCode.below m x y = ltb x y
compares ConditionCode.below_equal m x y = leb x y
compares ConditionCode.above m x y = ltb y x
compares ConditionCode.above_equal m x y = leb y x

flags_compare :
    (m half : ℕ) (parity : Bool) (cc : ConditionCode) (x y : ℕ)
    → m ≡ half + half
    → x < m
    → y < m
    → holds (condition cc) (flags_of_cmp m parity x y) ≡ compares cc m x y
flags_compare m half parity ConditionCode.equal x y h lx ly = ground arith
flags_compare m half parity ConditionCode.not_equal x y h lx ly = ground arith
flags_compare m half parity ConditionCode.less x y h lx ly = ground arith
flags_compare m half parity ConditionCode.less_equal x y h lx ly = ground arith
flags_compare m half parity ConditionCode.greater x y h lx ly = ground arith
flags_compare m half parity ConditionCode.greater_equal x y h lx ly = ground arith
flags_compare m half parity ConditionCode.below x y h lx ly = ground arith
flags_compare m half parity ConditionCode.below_equal x y h lx ly = ground arith
flags_compare m half parity ConditionCode.above x y h lx ly = ground arith
flags_compare m half parity ConditionCode.above_equal x y h lx ly = ground arith

-- After CMP of x and y, the processor's condition holds exactly where the comparison does.
pub condition-compares :
    (size : Width) (parity : Bool) (cc : ConditionCode) (x y : ℕ)
    → x < modulus size
    → y < modulus size
    → holds (condition cc) (flags_of_cmp (modulus size) parity x y) ≡ compares cc (modulus size) x y
condition-compares w8 parity cc x y lx ly = flags_compare _ (2 ^ 7) parity cc x y refl lx ly
condition-compares w16 parity cc x y lx ly = flags_compare _ (2 ^ 15) parity cc x y refl lx ly
condition-compares w32 parity cc x y lx ly = flags_compare _ (2 ^ 31) parity cc x y refl lx ly
condition-compares w64 parity cc x y lx ly = flags_compare _ (2 ^ 63) parity cc x y refl lx ly
