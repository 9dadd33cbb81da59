-- ===== src/Emitter/Meaning.antt =====
-- What it means that the emitter writes an instruction, and the addresses of its operands.
use ecpps.Common.{
  ◌-◌, leb, Bool-cases, true, false, not, ◌||◌, ℕ, ◌%◌, ◌^◌, ◌<◌, ◌≡◌, refl, inl, inr, some, List,
  ◌++◌, arith, ltb,
}
use ecpps.Common.Int.{ℤ, pos, negsuc, to_bits, InRange, leb_ℤ}
use ecpps.Opcodes.Operands.{Width, w8, w16, w32, w64, mem_base, AluOp}
use ecpps.Opcodes.Decoder.{decode}
use ecpps.Opcodes.Decoder.Instructions.{Insn}
use ecpps.Opcodes.Immediates.{of_bits-to_bits_four, modulus}
use ecpps.Opcodes.Fixed.Immediates.{imm_value}
use ecpps.Opcodes.ReadOperand.{IsEncodable, address}
use ecpps.Opcodes.Decoder.Operand.{gpr}
use ecpps.Opcodes.Fixed.Emit.{u32, i32}
use ecpps.Emitter.Operands.{
  RegisterIndex, register_number, Operand, register, memory, integer, Outcome, returned, size_t,
  i64, imm32_sign_extended,
}

-- The call returns bytes, and in front of any others the processor reads them as `insn`.
abbrev pub Emits : Outcome (List ℕ) → Insn → List ℕ → Type 0
Emits outcome insn rest =
    (bytes : List ℕ) × (outcome ≡ returned bytes) × (decode (bytes ++ rest) ≡ some (insn, rest))

-- Every register but rip.
abbrev pub IsGeneral : RegisterIndex → Type 0
IsGeneral reg = register_number reg < 16

pub mem_base-IsEncodable :
    (b : ℕ) (d : ℤ) → b < 16 → InRange (2 ^ 32) d → IsEncodable (mem_base b d)
mem_base-IsEncodable b d h r = record {
  base_known = inl h;
  index_known = inr refl;
  scale_known = inl refl;
  displacement_fits = r;
}

-- The casts to std::size_t and back keep an offset.
pub i32-size_t : (d : ℤ) → InRange (2 ^ 32) d → i32 (size_t d) ≡ d
i32-size_t d h = of_bits-to_bits_four d h

pub i32-u32-size_t : (d : ℤ) → InRange (2 ^ 32) d → i32 (u32 (size_t d)) ≡ d
i32-u32-size_t d h =
    let again : u32 (size_t d) % 2 ^ 32 ≡ size_t d % 2 ^ 32 = omega arith in
    rw again (of_bits-to_bits_four d h)

pub encodable :
    {b : ℕ} (d : ℤ) → b < 16 → InRange (2 ^ 32) d → IsEncodable (mem_base b (i32 (size_t d)))
encodable {b} d h r = rw (i32-size_t d r) (mem_base-IsEncodable b d h r)

-- What the cast to the width's unsigned type leaves of an immediate; at 64 bits it is 32 bits wide.
abbrev pub imm_of : Width → ℕ → ℕ
imm_of w8 v = v % 2 ^ 8
imm_of w16 v = v % 2 ^ 16
imm_of w32 v = v % 2 ^ 32
imm_of w64 v = v % 2 ^ 32

-- The immediates of 64-bit arithmetic: those that 32 bits have with a sign.
abbrev pub IsImmediate : Width → ℕ → Type 0
IsImmediate w64 v = InRange (2 ^ 32) (i64 v)
IsImmediate _ v = Unit

pub imm_of-low : (size : Width) (v : ℕ) → leb (imm_of size v) 0xFFFFFFFF ≡ true
imm_of-low w8 v = ground arith
imm_of-low w16 v = ground arith
imm_of-low w32 v = ground arith
imm_of-low w64 v = ground arith

InRange-tested :
    (z : ℤ)
    → InRange (2 ^ 32) z
    → not (leb_ℤ (negsuc (2 ^ 31 - 1)) z) || not (leb_ℤ z (pos (2 ^ 31 - 1))) ≡ false
InRange-tested (pos n) h = ground arith
InRange-tested (negsuc n) h = ground arith

pub imm32_sign_extended-fits :
    (v : ℕ) → InRange (2 ^ 32) (i64 v) → imm32_sign_extended v ≡ returned (v % 2 ^ 32)
unfolding imm32_sign_extended
imm32_sign_extended-fits v h = rw (InRange-tested (i64 v) h) refl

-- The immediate that is written stands for the given one, modulo the width.
pub imm_value-modulo :
    (size : Width) (v : ℕ)
    → v < 2 ^ 64
    → IsImmediate size v
    → to_bits (modulus size) (imm_value size (imm_of size v)) ≡ v % modulus size
imm_value-modulo w8 v v-lt fits = ground arith
imm_value-modulo w16 v v-lt fits = ground arith
imm_value-modulo w32 v v-lt fits = ground arith
imm_value-modulo w64 v v-lt fits = elim (Bool-cases (ltb v (2 ^ 63))) [
  | inl h ↦ ground arith
  | inr h ↦ ground arith
]

module _ (op : AluOp) (emit : Width → Operand → Operand → Outcome (List ℕ)) (a b : RegisterIndex)
    (d : ℤ) (rest : List ℕ) (size : Width) (v : ℕ) where
  -- An operation of a register and a register or an address, either way round, is written as that
  -- operation, and so is one of an immediate, as one that equals it modulo the width.
  abbrev pub EmitsAlu : Type 0
  EmitsAlu =
      Emits (emit size (register a) (register b))
        (Insn.alu op size (gpr (register_number a)) (gpr (register_number b))) rest
      × Emits (emit size (memory b d) (register a))
          (Insn.alu op size (address (mem_base (register_number b) d)) (gpr (register_number a)))
          rest
      × Emits (emit size (register a) (memory b d))
          (Insn.alu op size (gpr (register_number a)) (address (mem_base (register_number b) d)))
          rest
      × (i : ℤ) × Emits (emit size (register a) (integer v))
          (Insn.alu_imm op size (gpr (register_number a)) i) rest
      × Emits (emit size (memory b d) (integer v))
          (Insn.alu_imm op size (address (mem_base (register_number b) d)) i) rest
      × (to_bits (modulus size) i ≡ to_bits (modulus size) (i64 v))

pub to_bits-i64 :
    (size : Width) (v : ℕ) → v < 2 ^ 64 → to_bits (modulus size) (i64 v) ≡ v % modulus size
to_bits-i64 w8 v v-lt = elim (Bool-cases (ltb v (2 ^ 63))) [
  | inl h ↦ ground arith
  | inr h ↦ ground arith
]
to_bits-i64 w16 v v-lt = elim (Bool-cases (ltb v (2 ^ 63))) [
  | inl h ↦ ground arith
  | inr h ↦ ground arith
]
to_bits-i64 w32 v v-lt = elim (Bool-cases (ltb v (2 ^ 63))) [
  | inl h ↦ ground arith
  | inr h ↦ ground arith
]
to_bits-i64 w64 v v-lt = elim (Bool-cases (ltb v (2 ^ 63))) [
  | inl h ↦ ground arith
  | inr h ↦ ground arith
]
