-- ===== src/Opcodes/Decodes/Moves.antt =====
-- Moves and exchanges: what their generators write is decoded as the instruction asked for.
use ecpps.Common.{
  ℕ, ◌+◌, ◌<◌, ◌≡◌, refl, some, List, [], ◌∷◌, ◌++◌, arith, true, false, if◌then◌else◌,
}
use ecpps.Common.Int.{ℤ, to_bits}
use ecpps.Opcodes.Operands.{Width, w8, Memory, Condition, condition_value}
use ecpps.Opcodes.Emit.{put_seq, is_byte, imm_fits, imm_normalise}
use ecpps.Opcodes.Decoder.{decode}
use ecpps.Opcodes.Decoder.Instructions.{Insn}
use ecpps.Opcodes.Decoder.Operand.{gpr, read_imm, operand_sized}
use ecpps.Opcodes.Decoder.Table.{one_byte, two_byte}
use ecpps.Opcodes.Decoder.Forms.{mod_rm, no_imms, always, digit_zero}
use ecpps.Opcodes.Immediates.{to_bits-imm_normalise, modulus}
use ecpps.Opcodes.ReadOperand.{IsEncodable, address}
use ecpps.Opcodes.ReadInsn.{
  Selects, one, two, decode-emit_reg, decode-emit_mem, decode-with_sized, Selects-wide,
}
use ecpps.Opcodes.ReadPrefixes.{is_plain}
use ecpps.Opcodes.Generators.Moves.{
  generate_mov_load, generate_mov_store, generate_mov_store_imm, generate_xchg_reg_reg,
  generate_xchg_mem_reg, generate_cmpxchg_mem_reg, generate_xadd_mem_reg, generate_cmov_reg_reg,
  generate_cmov_mem_reg, generate_setcc_reg, generate_setcc_mem, generate_lea,
}

pub load_form :
    (size : Width)
    → Selects ((if is_byte size then 0x8A else 0x8B) ∷ []) (
        mod_rm
          (is_byte size)
          (is_byte size)
          (is_byte size)
          no_imms
          (λ w rm d r i. some (Insn.move w r rm)))
unfolding put_seq one_byte is_plain
load_form w8 = one _ refl refl refl
load_form _ = one _ refl refl refl

pub store_form :
    (size : Width)
    → Selects ((if is_byte size then 0x88 else 0x89) ∷ []) (
        mod_rm
          (is_byte size)
          (is_byte size)
          (is_byte size)
          no_imms
          (λ w rm d r i. some (Insn.move w rm r)))
unfolding put_seq one_byte is_plain
store_form w8 = one _ refl refl refl
store_form _ = one _ refl refl refl

pub store_imm_form :
    (size : Width)
    → Selects ((if is_byte size then 0xC6 else 0xC7) ∷ []) (
        mod_rm
          (is_byte size)
          (is_byte size)
          false
          (always operand_sized)
          (λ w rm d r i. digit_zero d (Insn.move_imm w rm i)))
unfolding put_seq one_byte is_plain
store_imm_form w8 = one _ refl refl refl
store_imm_form _ = one _ refl refl refl

exchange_form :
    (size : Width)
    → Selects ((if is_byte size then 0x86 else 0x87) ∷ []) (
        mod_rm
          (is_byte size)
          (is_byte size)
          (is_byte size)
          no_imms
          (λ w rm d r i. some (Insn.exchange w rm r)))
unfolding put_seq one_byte is_plain
exchange_form w8 = one _ refl refl refl
exchange_form _ = one _ refl refl refl

compare_exchange_form :
    (size : Width)
    → Selects (0x0F ∷ (if is_byte size then 0xB0 else 0xB1) ∷ []) (
        mod_rm
          (is_byte size)
          (is_byte size)
          (is_byte size)
          no_imms
          (λ w rm d r i. some (Insn.compare_exchange w rm r)))
unfolding put_seq two_byte
compare_exchange_form w8 = two _ refl refl
compare_exchange_form _ = two _ refl refl

exchange_add_form :
    (size : Width)
    → Selects (0x0F ∷ (if is_byte size then 0xC0 else 0xC1) ∷ []) (
        mod_rm
          (is_byte size)
          (is_byte size)
          (is_byte size)
          no_imms
          (λ w rm d r i. some (Insn.exchange_add w rm r)))
unfolding put_seq two_byte
exchange_add_form w8 = two _ refl refl
exchange_add_form _ = two _ refl refl

-- A load, a store and a store of an immediate that the width admits are decoded as the move that was
-- asked for; the immediate equals the given one modulo the width.
pub decode-mov :
    (size : Width) (reg : ℕ) (m : Memory) (z : ℤ) (rest : List ℕ)
    → reg < 16
    → IsEncodable m
    → imm_fits size z ≡ true
    → (i : ℤ) × (decode (generate_mov_load size reg m ++ rest)
        ≡ some (Insn.move size (gpr reg) (address m), rest))
      × (decode (generate_mov_store size m reg ++ rest)
          ≡ some (Insn.move size (address m) (gpr reg), rest))
      × (decode (generate_mov_store_imm size m z ++ rest)
          ≡ some (Insn.move_imm size (address m) i, rest))
      × (to_bits (modulus size) i ≡ to_bits (modulus size) z)
unfolding generate_mov_load generate_mov_store generate_mov_store_imm read_imm
decode-mov size reg m z rest reg-lt v h = (
  imm_normalise size z,
  decode-emit_mem size _ reg (is_byte size) rest reg-lt m (is_byte size) v (load_form size),
  decode-emit_mem size _ reg (is_byte size) rest reg-lt m (is_byte size) v (store_form size),
  rw h (
      decode-with_sized size _ (Insn.move_imm size (address m)) rest z
        (λ r.
          decode-emit_mem size _ 0 false r (omega arith) m (is_byte size) v (store_imm_form size))
        h),
  to_bits-imm_normalise size z,
)

-- The exchanges are decoded as themselves: xchg of two registers or of memory and a register,
-- cmpxchg and xadd on memory.
pub decode-exchange :
    (size : Width) (a b : ℕ) (m : Memory) (rest : List ℕ)
    → a < 16
    → b < 16
    → IsEncodable m
    → (decode (generate_xchg_reg_reg size a b ++ rest)
        ≡ some (Insn.exchange size (gpr a) (gpr b), rest))
      × (decode (generate_xchg_mem_reg size m b ++ rest)
          ≡ some (Insn.exchange size (address m) (gpr b), rest))
      × (decode (generate_cmpxchg_mem_reg size m b ++ rest)
          ≡ some (Insn.compare_exchange size (address m) (gpr b), rest))
      × (decode (generate_xadd_mem_reg size m b ++ rest)
          ≡ some (Insn.exchange_add size (address m) (gpr b), rest))
unfolding generate_xchg_reg_reg generate_xchg_mem_reg generate_cmpxchg_mem_reg generate_xadd_mem_reg
    read_imm
decode-exchange size a b m rest a-lt b-lt v = (
  decode-emit_reg size _ b (is_byte size) rest b-lt a (is_byte size) a-lt (exchange_form size),
  decode-emit_mem size _ b (is_byte size) rest b-lt m (is_byte size) v (exchange_form size),
  decode-emit_mem size _ b (is_byte size) rest b-lt m (is_byte size) v (compare_exchange_form size),
  decode-emit_mem size _ b (is_byte size) rest b-lt m (is_byte size) v (exchange_add_form size),
)

cmov_form :
    (cc : Condition)
    → Selects
        (0x0F ∷ (0x40 + condition_value cc) ∷ [])
        (mod_rm false false false no_imms (λ w rm d r i. some (Insn.conditional_move cc w r rm)))
unfolding put_seq two_byte
cmov_form Condition.overflow = two _ refl refl
cmov_form _ = two _ refl refl

setcc_form :
    (cc : Condition)
    → Selects
        (0x0F ∷ (0x90 + condition_value cc) ∷ [])
        (mod_rm true true false no_imms (λ w rm d r i. some (Insn.set_condition cc rm)))
unfolding put_seq two_byte
setcc_form Condition.overflow = two _ refl refl
setcc_form _ = two _ refl refl

lea_form :
    Selects
      (0x8D ∷ [])
      (mod_rm false false false no_imms (λ w rm d r i. some (Insn.load_address w r rm)))
unfolding put_seq one_byte is_plain
lea_form = one _ refl refl refl

-- Conditional moves and lea, at every width but a byte, and setcc are decoded as themselves, with
-- the condition that was asked for.
pub decode-conditional :
    (cc : Condition) (size : Width) (a b : ℕ) (m : Memory) (rest : List ℕ)
    → is_byte size ≡ false
    → a < 16
    → b < 16
    → IsEncodable m
    → (decode (generate_cmov_reg_reg cc size a b ++ rest)
        ≡ some (Insn.conditional_move cc size (gpr a) (gpr b), rest))
      × (decode (generate_cmov_mem_reg cc size a m ++ rest)
          ≡ some (Insn.conditional_move cc size (gpr a) (address m), rest))
      × (decode (generate_setcc_reg cc a ++ rest) ≡ some (Insn.set_condition cc (gpr a), rest))
      × (decode (generate_setcc_mem cc m ++ rest) ≡ some (Insn.set_condition cc (address m), rest))
      × (decode (generate_lea size a m ++ rest)
          ≡ some (Insn.load_address size (gpr a) (address m), rest))
unfolding generate_cmov_reg_reg generate_cmov_mem_reg generate_setcc_reg generate_setcc_mem
    generate_lea read_imm
decode-conditional cc size a b m rest wide a-lt b-lt v = rw wide (
  decode-emit_reg size _ a false rest a-lt b false b-lt (Selects-wide size wide (cmov_form cc)),
  decode-emit_mem size _ a false rest a-lt m false v (Selects-wide size wide (cmov_form cc)),
  decode-emit_reg w8 _ 0 false rest (omega arith) a true a-lt (setcc_form cc),
  decode-emit_mem w8 _ 0 false rest (omega arith) m true v (setcc_form cc),
  decode-emit_mem size _ a false rest a-lt m false v (Selects-wide size wide lea_form),
)
