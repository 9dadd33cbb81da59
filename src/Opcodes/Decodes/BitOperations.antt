-- ===== src/Opcodes/Decodes/BitOperations.antt =====
-- Bit operations: what their generators write is decoded as the instruction asked for.
use ecpps.Common.{
  ℕ, ◌+◌, ◌-◌, ◌*◌, ◌%◌, ◌<◌, ◌≡◌, refl, ◌∙◌, Option, none, some, List, [], ◌∷◌, ◌++◌, arith, Bool,
  true, false, ltb, if◌then◌else◌,
}
use ecpps.Common.Int.{ℤ, pos}
use ecpps.Opcodes.Operands.{Width, Memory, BitOp, bit_value}
use ecpps.Opcodes.Emit.{put_seq, is_byte, emit_reg, emit_mem}
use ecpps.Opcodes.Decoder.{decode}
use ecpps.Opcodes.Decoder.Instructions.{Insn}
use ecpps.Opcodes.Decoder.Operand.{Operand, gpr, read_imm, unsigned_byte}
use ecpps.Opcodes.Decoder.Table.{two_byte}
use ecpps.Opcodes.Decoder.Forms.{mod_rm, no_imms, always}
use ecpps.Opcodes.ReadOperand.{IsEncodable, address}
use ecpps.Opcodes.ReadInsn.{Selects, two, finish, decode-emit_reg, decode-emit_mem, Selects-wide}
use ecpps.Opcodes.ReadInsn.{decode-with_count}
use ecpps.Opcodes.Decoder.Forms.{bit_of}
use ecpps.Opcodes.Generators.Shifts.{
  generate_double_shift_reg_reg_imm, generate_double_shift_reg_reg_cl, generate_bit_test_reg_reg,
  generate_bit_test_reg_imm, generate_bit_test_mem_reg, generate_bit_test_mem_imm,
  generate_bit_scan_reg_reg, generate_bit_scan_mem_reg,
}

double_shift_form :
    (right : Bool)
    → Selects (0x0F ∷ (if right then 0xAC else 0xA4) ∷ []) (
        mod_rm false false false
          (always unsigned_byte)
          (λ w rm d r i. some (Insn.double_shift right w rm r i)))
unfolding put_seq two_byte
double_shift_form true = two _ refl refl
double_shift_form false = two _ refl refl

double_shift_cl_form :
    (right : Bool)
    → Selects
        (0x0F ∷ (if right then 0xAD else 0xA5) ∷ [])
        (mod_rm false false false no_imms (λ w rm d r i. some (Insn.double_shift_cl right w rm r)))
unfolding put_seq two_byte
double_shift_cl_form true = two _ refl refl
double_shift_cl_form false = two _ refl refl

bit_test_form :
    (op : BitOp)
    → Selects
        (0x0F ∷ (0xA3 + 8 * bit_value op) ∷ [])
        (mod_rm false false false no_imms (λ w rm d r i. some (Insn.bit_test op w rm r)))
unfolding put_seq two_byte
bit_test_form BitOp.bt = two _ refl refl
bit_test_form _ = two _ refl refl

bit_scan_form :
    (reverse : Bool)
    → Selects
        (0x0F ∷ (if reverse then 0xBD else 0xBC) ∷ [])
        (mod_rm false false false no_imms (λ w rm d r i. some (Insn.bit_scan reverse w r rm)))
unfolding put_seq two_byte
bit_scan_form true = two _ refl refl
bit_scan_form false = two _ refl refl

-- Group 8: digits 4 to 7.
abbrev group8 : Width → Operand → ℕ → Operand → ℤ → Option Insn
group8 w rm d r i = if ltb d 4 then none else some (Insn.bit_test_imm (bit_of (d - 4)) w rm i)

group8_form : Selects (0x0F ∷ 0xBA ∷ []) (mod_rm false false false (always unsigned_byte) group8)
unfolding put_seq two_byte
group8_form = two _ refl refl

group8_digit :
    (op : BitOp) (w : Width) (rm r : Operand) (i : ℤ)
    → group8 w rm ((4 + bit_value op) % 8) r i ≡ some (Insn.bit_test_imm op w rm i)
group8_digit BitOp.bt w rm r i = refl
group8_digit _ w rm r i = refl

bit_digit-lt : (op : BitOp) → 4 + bit_value op < 16
bit_digit-lt BitOp.bt = omega arith
bit_digit-lt _ = omega arith

module _ (size : Width) (a b : ℕ) (m : Memory) (wide : is_byte size ≡ false) (a-lt : a < 16)
    (b-lt : b < 16) (v : IsEncodable m) where
  -- The double shifts are decoded as themselves, by a count in a byte and by cl.
  pub decode-double_shift :
      (right : Bool) (count : ℕ) (rest : List ℕ)
      → count < 256
      → (decode (generate_double_shift_reg_reg_imm right size a b count ++ rest)
          ≡ some (Insn.double_shift right size (gpr a) (gpr b) (pos count), rest))
        × (decode (generate_double_shift_reg_reg_cl right size a b ++ rest)
            ≡ some (Insn.double_shift_cl right size (gpr a) (gpr b), rest))
  unfolding generate_double_shift_reg_reg_imm generate_double_shift_reg_reg_cl read_imm
  decode-double_shift right count rest h = rw wide (
    decode-with_count size _ (Insn.double_shift right size (gpr a) (gpr b)) rest count
        (λ r.
          decode-emit_reg size _ b false r b-lt a false a-lt
            (Selects-wide size wide (double_shift_form right)))
        h,
    decode-emit_reg size _ b false rest b-lt a false a-lt
        (Selects-wide size wide (double_shift_cl_form right)),
  )

  bit_test_imm_reg :
      (op : BitOp) (r : List ℕ)
      → decode (emit_reg size (0x0F ∷ 0xBA ∷ []) (4 + bit_value op) a false false ++ r)
        ≡ finish unsigned_byte size r (λ i. some (Insn.bit_test_imm op size (gpr a) i))
  bit_test_imm_reg op r =
      decode-emit_reg size _ (4 + bit_value op) false r (bit_digit-lt op) a false a-lt
        (Selects-wide size wide group8_form)
      ∙ (λ j.
          finish unsigned_byte size r
            (λ i. group8_digit op size (gpr a) (gpr (4 + bit_value op)) i j))

  bit_test_imm_mem :
      (op : BitOp) (r : List ℕ)
      → decode (emit_mem size (0x0F ∷ 0xBA ∷ []) (4 + bit_value op) m false ++ r)
        ≡ finish unsigned_byte size r (λ i. some (Insn.bit_test_imm op size (address m) i))
  bit_test_imm_mem op r =
      decode-emit_mem size _ (4 + bit_value op) false r (bit_digit-lt op) m false v
        (Selects-wide size wide group8_form)
      ∙ (λ j.
          finish unsigned_byte size r
            (λ i. group8_digit op size (address m) (gpr (4 + bit_value op)) i j))

  -- The four bit tests are decoded as themselves, with the bit in a register and in a byte, on a
  -- register and on memory.
  pub decode-bit_test :
      (op : BitOp) (bit : ℕ) (rest : List ℕ)
      → bit < 256
      → (decode (generate_bit_test_reg_reg op size a b ++ rest)
          ≡ some (Insn.bit_test op size (gpr a) (gpr b), rest))
        × (decode (generate_bit_test_mem_reg op size m b ++ rest)
            ≡ some (Insn.bit_test op size (address m) (gpr b), rest))
        × (decode (generate_bit_test_reg_imm op size a bit ++ rest)
            ≡ some (Insn.bit_test_imm op size (gpr a) (pos bit), rest))
        × (decode (generate_bit_test_mem_imm op size m bit ++ rest)
            ≡ some (Insn.bit_test_imm op size (address m) (pos bit), rest))
  unfolding generate_bit_test_reg_reg generate_bit_test_mem_reg generate_bit_test_reg_imm
      generate_bit_test_mem_imm read_imm
  decode-bit_test op bit rest h = rw wide (
    decode-emit_reg size _ b false rest b-lt a false a-lt
        (Selects-wide size wide (bit_test_form op)),
    decode-emit_mem size _ b false rest b-lt m false v (Selects-wide size wide (bit_test_form op)),
    decode-with_count size _ (Insn.bit_test_imm op size (gpr a)) rest bit (bit_test_imm_reg op) h,
    decode-with_count size _ (Insn.bit_test_imm op size (address m)) rest bit (bit_test_imm_mem op)
        h,
  )

  decode-bit_scan :
      (reverse : Bool) (rest : List ℕ)
      → (decode (generate_bit_scan_reg_reg reverse size a b ++ rest)
          ≡ some (Insn.bit_scan reverse size (gpr a) (gpr b), rest))
        × (decode (generate_bit_scan_mem_reg reverse size a m ++ rest)
            ≡ some (Insn.bit_scan reverse size (gpr a) (address m), rest))
  unfolding generate_bit_scan_reg_reg generate_bit_scan_mem_reg read_imm
  decode-bit_scan reverse rest = rw wide (
    decode-emit_reg size _ a false rest a-lt b false b-lt
        (Selects-wide size wide (bit_scan_form reverse)),
    decode-emit_mem size _ a false rest a-lt m false v
        (Selects-wide size wide (bit_scan_form reverse)),
  )
