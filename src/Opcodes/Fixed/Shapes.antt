-- ===== src/Opcodes/Fixed/Shapes.antt =====
-- The writers of the generators of one width write what PutRex, PutModRM, PutMemOperand and PutImm do.
use ecpps.Common.{
  ℕ, ◌%◌, ◌^◌, ◌<◌, ◌≡◌, refl, sym, ◌∙◌, Bool, true, false, not, ◌&&◌, List, ◌∷◌, bit_and, leb,
  ◌==◌, arith, Bool-cases, inl, inr,
}
use ecpps.Common.Bits.{bit_and_seven, bit_and_255}
use ecpps.Common.Int.{ℤ, pos, negsuc, to_bits, leb_ℤ}
use ecpps.Opcodes.Operands.{mem_base, rip, no_register}
use ecpps.Opcodes.Emit.{
  put, put_rex, put_mod_rm, put_imm, put_mem_operand, put_displacement, put_sib, displacement_mode,
  fits_i8, mem_ext_base, mem_ext_index, scale_bits,
}
use ecpps.Opcodes.Immediates.{put_lem}
use ecpps.Opcodes.Fixed.Emit.{
  u8, emit, rex, rex_byte, mod_rm, sib, imm16, imm32, disp_mod, emit_disp, mod_rm_memory,
}

pub rex_lem : (w r x b : Bool) → rex w r x b ≡ put_rex w r x b false
unfolding rex put_rex emit
rex_lem true true true true = refl
rex_lem true true true false = refl
rex_lem true true false true = refl
rex_lem true true false false = refl
rex_lem true false true true = refl
rex_lem true false true false = refl
rex_lem true false false true = refl
rex_lem true false false false = refl
rex_lem false true true true = refl
rex_lem false true true false = refl
rex_lem false true false true = refl
rex_lem false true false false = refl
rex_lem false false true true = refl
rex_lem false false true false = refl
rex_lem false false false true = refl
rex_lem false false false false = refl

force_only :
    (force : Bool) → rex_byte false false false force ≡ put_rex false false false false force
unfolding rex_byte put_rex emit
force_only true = refl
force_only false = refl

pub rex_byte_lem : (r x b force : Bool) → rex_byte r x b force ≡ put_rex false r x b force
unfolding rex_byte put_rex emit
rex_byte_lem true true true force = refl
rex_byte_lem true true false force = refl
rex_byte_lem true false true force = refl
rex_byte_lem true false false force = refl
rex_byte_lem false true true force = refl
rex_byte_lem false true false force = refl
rex_byte_lem false false true force = refl
rex_byte_lem false false false force = force_only force

pub emit-put : (v : ℕ) → emit v ≡ put v
unfolding emit
emit-put v = sym (put_lem v)

masked : (a : ℕ) → bit_and (u8 (bit_and a 7)) 7 ≡ bit_and a 7
masked a = rw (bit_and_seven, bit_and_seven a) (omega arith)

mod_rm-put : (m a b : ℕ) → bit_and m 3 ≡ m → mod_rm m a b ≡ put_mod_rm m a b
unfolding mod_rm put_mod_rm
mod_rm-put m a b h = rw h (emit-put _)

put_mod_rm-masked :
    (m a b : ℕ) → put_mod_rm m (u8 (bit_and a 7)) (u8 (bit_and b 7)) ≡ put_mod_rm m a b
unfolding put_mod_rm
put_mod_rm-masked m a b = rw (masked a, masked b)

put_mod_rm-field : (m a c : ℕ) → put_mod_rm m (bit_and (u8 (bit_and a 7)) 7) c ≡ put_mod_rm m a c
unfolding put_mod_rm
put_mod_rm-field m a c =
    let same : bit_and (bit_and (u8 (bit_and a 7)) 7) 7 ≡ bit_and a 7 =
      rw (bit_and_seven, bit_and_seven, bit_and_seven) (omega arith) in
    rw same refl

-- The ModRM byte of two registers.
pub mod_rm_lem : (a b : ℕ) → mod_rm 3 (u8 (bit_and a 7)) (u8 (bit_and b 7)) ≡ put_mod_rm 3 a b
mod_rm_lem a b = mod_rm-put 3 _ _ refl ∙ put_mod_rm-masked 3 a b

pub to_bits-word : (z : ℤ) → to_bits (2 ^ 64) z % 2 ^ 32 ≡ to_bits (2 ^ 32) z
to_bits-word (pos n) = ground arith
to_bits-word (negsuc n) = ground arith

to_bits-byte : (z : ℤ) → to_bits (2 ^ 64) z % 2 ^ 8 ≡ to_bits (2 ^ 8) z
to_bits-byte (pos n) = ground arith
to_bits-byte (negsuc n) = ground arith

to_bits-half : (z : ℤ) → to_bits (2 ^ 64) z % 2 ^ 16 ≡ to_bits (2 ^ 16) z
to_bits-half (pos n) = ground arith
to_bits-half (negsuc n) = ground arith

pub byte_eq : {a b : ℕ} {x y : List ℕ} → a ≡ b → x ≡ y → Path (List ℕ) (a ∷ x) (b ∷ y)
byte_eq p q i = p i ∷ q i

-- The immediates: what Imm16 and Imm32 write of `v` is what PutImm writes of a number with the same low bits.
pub imm8_lem : (v : ℕ) (z : ℤ) → to_bits (2 ^ 8) z ≡ v % 2 ^ 8 → emit v ≡ put_imm z 1
unfolding emit put_imm
imm8_lem v z h = simp bit_and_255 (byte_eq (omega (arith, to_bits-byte z)) refl)

pub imm16_lem : (v : ℕ) (z : ℤ) → to_bits (2 ^ 16) z ≡ v % 2 ^ 16 → imm16 v ≡ put_imm z 2
unfolding emit imm16 put_imm
imm16_lem v z h =
    let h64 = to_bits-half z in
    simp bit_and_255 (byte_eq (omega arith) (byte_eq (omega arith) refl))

pub imm32_lem : (v : ℕ) (z : ℤ) → to_bits (2 ^ 32) z ≡ v % 2 ^ 32 → imm32 v ≡ put_imm z 4
unfolding emit imm32 put_imm
imm32_lem v z h =
    let h64 = to_bits-word z in
    simp bit_and_255 (
      byte_eq (omega arith)
        (byte_eq (omega arith) (byte_eq (omega arith) (byte_eq (omega arith) refl))))

-- The displacement and its mode.
disp_mod_lem : (b : ℕ) (d : ℤ) → disp_mod (u8 (bit_and b 7)) d ≡ displacement_mode (bit_and b 7) d
unfolding disp_mod displacement_mode fits_i8
disp_mod_lem b d = rw (masked b) refl

displacement_mode-mask : (b : ℕ) (d : ℤ) → bit_and (displacement_mode b d) 3 ≡ displacement_mode b d
unfolding displacement_mode
displacement_mode-mask b d =
    elim (Bool-cases (leb_ℤ d (pos 0) && leb_ℤ (pos 0) d && not (b == 5))) [
      | inl zero ↦ rw zero refl
      | inr nonzero ↦ elim (Bool-cases (fits_i8 d)) [
        | inl small ↦ rw (nonzero, small) refl
        | inr large ↦ rw (nonzero, large) refl
      ]
    ]

to_bits-lt : (z : ℤ) → to_bits (2 ^ 32) z ≡ to_bits (2 ^ 32) z % 2 ^ 32
to_bits-lt (pos n) = omega arith
to_bits-lt (negsuc n) = omega arith

to_bits-lt_byte : (z : ℤ) → to_bits (2 ^ 8) z ≡ to_bits (2 ^ 8) z % 2 ^ 8
to_bits-lt_byte (pos n) = omega arith
to_bits-lt_byte (negsuc n) = omega arith

emit_disp_lem : (mode : ℕ) (d : ℤ) → emit_disp mode d ≡ put_displacement mode d
unfolding emit_disp put_displacement
emit_disp_lem mode d = rw (imm8_lem _ d (to_bits-lt_byte d), imm32_lem _ d (to_bits-lt d)) refl

sib_lem :
    (b : ℕ) (d : ℤ) → bit_and b 7 ≡ 4 → sib 0 4 (bit_and b 7) ≡ put_sib (mem_base b d) (bit_and b 7)
unfolding sib put_sib scale_bits
sib_lem b d h = rw h (emit-put _)

not_special : (b : ℕ) → b < 16 → (b == rip) ≡ false
not_special b h = ground arith

not_absent : (b : ℕ) → b < 16 → (b == no_register) ≡ false
not_absent b h = ground arith

-- ModRMMemory writes what PutMemOperand does of an address that has a base only.
pub mod_rm_memory-masked :
    (a b : ℕ) (d : ℤ)
    → b < 16
    → mod_rm_memory (u8 (bit_and a 7)) (u8 (bit_and b 7)) d ≡ put_mem_operand a (mem_base b d)
unfolding mod_rm_memory put_mem_operand
mod_rm_memory-masked a b d b-lt =
    let mode = displacement_mode (bit_and b 7) d in
    rw (not_special b b-lt, not_absent b b-lt, disp_mod_lem b d, emit_disp_lem)
      (elim (Bool-cases (bit_and b 7 == 4)) [
        | inl four ↦
            let is_four : bit_and b 7 ≡ 4 = ground arith in
            rw
              (
                masked b,
                four,
                mod_rm-put mode _ 4 (displacement_mode-mask _ d),
                put_mod_rm-field,
                sib_lem b d is_four,
              )
              refl
        | inr other ↦
            rw (masked b, other, mod_rm-put mode _ _ (displacement_mode-mask _ d), put_mod_rm-field)
              refl
      ])

pub mem_ext_base-low : (b : ℕ) (d : ℤ) → b < 16 → mem_ext_base (mem_base b d) ≡ leb 8 b
unfolding mem_ext_base
mem_ext_base-low b d b-lt = rw (not_special b b-lt, not_absent b b-lt) refl

pub mem_ext_index-base : (b : ℕ) (d : ℤ) → mem_ext_index (mem_base b d) ≡ false
unfolding mem_ext_index
mem_ext_index-base b d = refl

-- Rex without W and RexByte without the force write the same.
pub rex-rex_byte : (r x b : Bool) → rex false r x b ≡ rex_byte r x b false
rex-rex_byte r x b = rex_lem false r x b ∙ sym (rex_byte_lem r x b false)

pub emit-put_masked : (v : ℕ) → emit (u8 (bit_and v 0xFF)) ≡ put v
unfolding emit put
emit-put_masked v = simp bit_and_255 (byte_eq (omega arith) refl)
