-- ===== src/Opcodes/ReadOperand.antt =====
-- The operands that PutModRM and PutMemOperand write are read back.
use ecpps.Common.{
  ℕ, ◌+◌, ◌*◌, ◌/◌, ◌%◌, ◌^◌, ◌<◌, ◌≡◌, ◌≢◌, sym, ap, ◌⊎◌, inl, inr, Option, none, some, List, [],
  ◌∷◌, ◌++◌, arith, bit_or, Bool, true, false, not, ◌&&◌, leb, ◌==◌, if◌then◌else◌, Bool-cases,
  ◌>>=◌,
}
use ecpps.Common.Bits.{bit_and_seven, bit_or_fields}
use ecpps.Common.Int.{ℤ, pos, negsuc, InRange, leb_ℤ}
use ecpps.Opcodes.Operands.{Memory, rip, no_register}
use ecpps.Opcodes.Emit.{
  put, put_mod_rm, mem_ext_index, fits_i8, scale_bits, shl, put_sib, displacement_mode,
  put_displacement,
}
use ecpps.Opcodes.Decoder.Operand.{
  Operand, memory, rip_relative, Prefixes, register, extension, read_rm, read_sib,
  read_displacement, signed,
}
use ecpps.Opcodes.Immediates.{put_lem, signed-put_imm_one, signed-put_imm_four, fits_i8-InRange}

-- A ModRM or SIB byte in arithmetic.
fields_byte :
    (a b c : ℕ)
    → a < 4
    → b < 8
    → c < 8
    → put (bit_or (bit_or (shl a 6) (shl b 3)) c) ≡ (a * 64 + b * 8 + c) ∷ []
fields_byte a b c ha hb hc =
    rw (put_lem, bit_or_fields a b c ha hb hc) (ap (λ (v : ℕ). v ∷ []) (omega arith))

pub put_mod_rm_lem :
    (mode reg rm : ℕ) → mode < 4 → put_mod_rm mode reg rm ≡ (mode * 64 + reg % 8 * 8 + rm % 8) ∷ []
unfolding put_mod_rm
put_mod_rm_lem mode reg rm h =
    rw (bit_and_seven reg, bit_and_seven rm)
      (fields_byte mode (reg % 8) (rm % 8) h (omega arith) (omega arith))

-- The number of a register, from its low three bits and its extension bit.
pub with_extension : (n : ℕ) → n < 16 → n % 8 + extension (leb 8 n) ≡ n
with_extension n h = ground arith

pub read_rm-register :
    (p : Prefixes) (byte : Bool) (reg rm : ℕ) (rest : List ℕ)
    → rm < 16
    → p.b ≡ leb 8 rm
    → read_rm p byte (put_mod_rm 3 reg rm ++ rest) ≡ some (register p byte rm, reg % 8, rest)
unfolding read_rm
read_rm-register p byte reg rm rest h e =
    let digit : (3 * 64 + reg % 8 * 8 + rm % 8) / 8 % 8 ≡ reg % 8 = omega arith in
    let low : (3 * 64 + reg % 8 * 8 + rm % 8) % 8 ≡ rm % 8 = omega arith in
    let mode : (3 * 64 + reg % 8 * 8 + rm % 8) / 64 ≡ 3 = omega arith in
    rw (put_mod_rm_lem 3 reg rm (omega arith), digit, low, mode, e, with_extension rm h)

-- What a `Memory` stands for.
abbrev pub address_index : Memory → Option (ℕ × ℕ)
address_index m = if m.index == no_register then none else some (m.index, m.scale)

unfoldable pub address : Memory → Operand
address m =
    if m.base == rip
    then rip_relative m.displacement
    else memory (if m.base == no_register then none else some m.base) (address_index m)
        m.displacement

-- The addresses that the instruction format has: rsp (4) is no index, and an address relative to
-- rip has none.
pub record IsEncodable (m : Memory) : Type 0 where
  pub base_known :
      (m.base < 16) ⊎ ((m.base ≡ rip) × (m.index ≡ no_register) ⊎ (m.base ≡ no_register))
  pub index_known : (m.index < 16) × (m.index ≢ 4) ⊎ (m.index ≡ no_register)
  pub scale_known : (m.scale ≡ 1) ⊎ ((m.scale ≡ 2) ⊎ ((m.scale ≡ 4) ⊎ (m.scale ≡ 8)))
  pub displacement_fits : InRange (2 ^ 32) m.displacement

pub scale_bits-lt : (s : ℕ) → scale_bits s < 4
unfolding scale_bits
scale_bits-lt s = ground arith

-- The displacement is read back in the mode that is chosen for it.
pub displacement_mode-lt : (base : ℕ) (d : ℤ) → displacement_mode base d < 3
unfolding displacement_mode
displacement_mode-lt base d = ground arith

zero_of_test :
    (base : ℕ) (d : ℤ) → leb_ℤ d (pos 0) && leb_ℤ (pos 0) d && not (base == 5) ≡ true → d ≡ pos 0
zero_of_test base (pos n) h = ground arith
zero_of_test base (negsuc n) h = ground arith

pub read_displacement-put :
    (base : ℕ) (d : ℤ) (rest : List ℕ)
    → InRange (2 ^ 32) d
    → read_displacement
        (displacement_mode base d)
        (put_displacement (displacement_mode base d) d ++ rest)
      ≡ some (d, rest)
unfolding read_displacement displacement_mode put_displacement
read_displacement-put base d rest h =
    elim (Bool-cases (leb_ℤ d (pos 0) && leb_ℤ (pos 0) d && not (base == 5))) [
      | inl e ↦ rw e (ap (λ (z : ℤ). some (z, rest)) (sym (zero_of_test base d e)))
      | inr e ↦ rw e (elim (Bool-cases (fits_i8 d)) [
        | inl f ↦ rw f (signed-put_imm_one d rest (fits_i8-InRange d f))
        | inr f ↦ rw f (signed-put_imm_four d rest h)
      ])
    ]

-- Mode 0 is not chosen with rbp or r13 for the base.
pub displacement_mode-five : (d : ℤ) → (displacement_mode 5 d == 0) ≡ false
unfolding displacement_mode
displacement_mode-five (pos n) = ground arith
displacement_mode-five (negsuc n) = ground arith

pub sib_index : ℕ → ℕ → Option (ℕ × ℕ)
sib_index number factor = if number == 4 then none else some (number, 2 ^ factor)

pub pow-scale_bits : (s : ℕ) → (s ≡ 1) ⊎ ((s ≡ 2) ⊎ ((s ≡ 4) ⊎ (s ≡ 8))) → 2 ^ scale_bits s ≡ s
unfolding scale_bits
pow-scale_bits s (inl e) = rw e
pow-scale_bits s (inr (inl e)) = rw e
pow-scale_bits s (inr (inr (inl e))) = rw e
pow-scale_bits s (inr (inr (inr e))) = rw e

-- The index field of the SIB byte: 4 stands for none.
pub sib_field : ℕ → ℕ
sib_field index = if index == no_register then 4 else index % 8

pub sib_field-lt : (index : ℕ) → sib_field index < 8
unfolding sib_field
sib_field-lt index = ground arith

-- The index that is read from the SIB byte is the one of the operand.
pub index-put :
    (m : Memory)
    → (m.index < 16) × (m.index ≢ 4) ⊎ (m.index ≡ no_register)
    → 2 ^ scale_bits m.scale ≡ m.scale
    → sib_index (sib_field m.index + extension (mem_ext_index m)) (scale_bits m.scale)
      ≡ address_index m
unfolding sib_index sib_field mem_ext_index
index-put m (inl (h, ne)) e =
    let none' : (m.index == no_register) ≡ false = ground arith in
    let four : (m.index == 4) ≡ false = ground arith in
    rw (none', with_extension m.index h, four, e)
index-put m (inr none') e = rw none'

pub put_sib_lem :
    (m : Memory) (base : ℕ)
    → base < 8
    → put_sib m base ≡ (scale_bits m.scale * 64 + sib_field m.index * 8 + base) ∷ []
unfolding put_sib sib_field
put_sib_lem m base h = rw (bit_and_seven m.index) (
    unfold sib_field in
    fields_byte (scale_bits m.scale) (sib_field m.index) base (scale_bits-lt m.scale)
      (sib_field-lt m.index) h)

-- One step of `read_sib`, on the three fields of its byte.
pub read_sib_fields :
    (p : Prefixes) (mode digit a b c : ℕ) (bs : List ℕ)
    → a < 4
    → b < 8
    → c < 8
    → read_sib p mode digit ((a * 64 + b * 8 + c) ∷ bs) ≡ (
        let index = sib_index (b + extension p.x) a in
        if mode == 0 && c == 5
        then signed 4 bs >>= (λ (d, rest). some (memory none index d, digit, rest))
        else read_displacement mode bs
          >>= (λ (d, rest). some (memory (some (c + extension p.b)) index d, digit, rest)))
unfolding read_sib sib_index
read_sib_fields p mode digit a b c bs ha hb hc =
    let e1 : (a * 64 + b * 8 + c) / 8 % 8 ≡ b = omega arith in
    let e2 : (a * 64 + b * 8 + c) % 8 ≡ c = omega arith in
    let e3 : (a * 64 + b * 8 + c) / 64 ≡ a = omega arith in rw (e1, e2, e3)
