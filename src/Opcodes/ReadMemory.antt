-- ===== src/Opcodes/ReadMemory.antt =====
-- The memory operand that PutMemOperand writes is read back, for every addressing form.
use ecpps.Common.{
  ℕ, ◌+◌, ◌*◌, ◌/◌, ◌%◌, ◌^◌, ◌<◌, ◌≡◌, ◌≢◌, refl, ◌⊎◌, inl, inr, none, some, List, ◌++◌,
  append_assoc, arith, bit_and, Bool, true, false, not, ◌&&◌, ◌||◌, leb, ◌==◌, Bool-cases, ◌>>=◌,
}
use ecpps.Common.Bits.{bit_and_seven}
use ecpps.Common.Int.{ℤ, InRange}
use ecpps.Opcodes.Operands.{Memory, rip, no_register}
use ecpps.Opcodes.Emit.{
  put_imm, put_mod_rm, put_mem_operand, mem_ext_base, mem_ext_index, scale_bits, put_sib,
  displacement_mode, put_displacement,
}
use ecpps.Opcodes.Decoder.Operand.{
  memory, rip_relative, Prefixes, extension, read_rm, read_sib, read_displacement,
}
use ecpps.Opcodes.Immediates.{signed-put_imm_four}
use ecpps.Opcodes.ReadOperand.{
  IsEncodable, address, address_index, put_mod_rm_lem, put_sib_lem, read_sib_fields, index-put,
  pow-scale_bits, sib_field, sib_field-lt, sib_index, scale_bits-lt, with_extension,
  read_displacement-put, displacement_mode-lt, displacement_mode-five,
}

and-false : (b : Bool) → b && false ≡ false
and-false true = refl
and-false false = refl

mode_not_five : (c : ℕ) (d : ℤ) → displacement_mode c d == 0 && c == 5 ≡ false
mode_not_five c d = elim (Bool-cases (c == 5)) [
  | inl e ↦ let e' : c ≡ 5 = ground arith in rw (e', displacement_mode-five d)
  | inr e ↦ rw e (and-false (displacement_mode c d == 0))
]

no_sib :
    (index c : ℕ) → not (index == no_register) || c == 4 ≡ false → (index ≡ no_register) × (c ≢ 4)
no_sib index c h = ground arith

module _ (p : Prefixes) (byte : Bool) (digit : ℕ) (m : Memory) (rest : List ℕ) where
  -- One step of `read_rm`, for the modes that are no register.
  read_rm_sib :
      (mode : ℕ) (bs : List ℕ)
      → mode < 3
      → read_rm p byte (put_mod_rm mode digit 4 ++ bs) ≡ read_sib p mode (digit % 8) bs
  unfolding read_rm
  read_rm_sib mode bs h =
      let e1 : (mode * 64 + digit % 8 * 8 + 4) / 8 % 8 ≡ digit % 8 = omega arith in
      let e2 : (mode * 64 + digit % 8 * 8 + 4) % 8 ≡ 4 = omega arith in
      let e3 : (mode * 64 + digit % 8 * 8 + 4) / 64 ≡ mode = omega arith in
      let e4 : (mode == 3) ≡ false = ground arith in
      rw (put_mod_rm_lem mode digit 4 (omega arith), e1, e2, e3, e4)

  read_rm_based :
      (mode c : ℕ) (bs : List ℕ)
      → mode < 3
      → c < 8
      → c ≢ 4
      → mode == 0 && c == 5 ≡ false
      → read_rm p byte (put_mod_rm mode digit c ++ bs) ≡ (
          read_displacement mode bs
          >>= (λ (d, r). some (memory (some (c + extension p.b)) none d, digit % 8, r)))
  unfolding read_rm
  read_rm_based mode c bs h hc ne t =
      let e1 : (mode * 64 + digit % 8 * 8 + c) / 8 % 8 ≡ digit % 8 = omega arith in
      let e2 : (mode * 64 + digit % 8 * 8 + c) % 8 ≡ c = omega arith in
      let e3 : (mode * 64 + digit % 8 * 8 + c) / 64 ≡ mode = omega arith in
      let e4 : (mode == 3) ≡ false = ground arith in
      let e5 : (c == 4) ≡ false = ground arith in
      let e6 : c % 8 ≡ c = omega arith in
      rw (put_mod_rm_lem mode digit c (omega arith), e6, e1, e2, e3, e4, e5, t)

  read_rip :
      InRange (2 ^ 32) m.displacement
      → read_rm p byte (put_mod_rm 0 digit 5 ++ (put_imm m.displacement 4 ++ rest))
        ≡ some (rip_relative m.displacement, digit % 8, rest)
  unfolding read_rm
  read_rip h =
      let e1 : (0 * 64 + digit % 8 * 8 + 5) / 8 % 8 ≡ digit % 8 = omega arith in
      let e2 : (0 * 64 + digit % 8 * 8 + 5) % 8 ≡ 5 = omega arith in
      let e3 : (0 * 64 + digit % 8 * 8 + 5) / 64 ≡ 0 = omega arith in
      rw (
        put_mod_rm_lem 0 digit 5 (omega arith),
        e1,
        e2,
        e3,
        signed-put_imm_four m.displacement rest h,
      )

  -- With a SIB byte and no base.
  module _ (v : IsEncodable m) (ex : p.x ≡ mem_ext_index m) where
    index_read :
        sib_index (sib_field m.index + extension p.x) (scale_bits m.scale) ≡ address_index m
    index_read = rw ex (index-put m v.index_known (pow-scale_bits m.scale v.scale_known))

    read_absolute :
        read_rm p byte (put_mod_rm 0 digit 4 ++ (put_sib m 5 ++ (put_imm m.displacement 4 ++ rest)))
        ≡ some (memory none (address_index m) m.displacement, digit % 8, rest)
    read_absolute = rw (
      read_rm_sib 0 _ (omega arith),
      put_sib_lem m 5 (omega arith),
      read_sib_fields p 0 (digit % 8) (scale_bits m.scale) (sib_field m.index) 5
          (put_imm m.displacement 4 ++ rest) (scale_bits-lt m.scale) (sib_field-lt m.index)
          (omega arith),
      signed-put_imm_four m.displacement rest v.displacement_fits,
      index_read,
    )

    -- With a SIB byte and a base `c`, in its low three bits.
    read_sib_base :
        (c : ℕ)
        → c < 8
        → let mode = displacement_mode c m.displacement in
          read_rm p byte (
            put_mod_rm mode digit 4
            ++ (put_sib m c ++ (put_displacement mode m.displacement ++ rest)))
          ≡ some
              (memory (some (c + extension p.b)) (address_index m) m.displacement, digit % 8, rest)
    read_sib_base c hc =
        let mode = displacement_mode c m.displacement in
        rw (
          read_rm_sib mode _ (displacement_mode-lt c m.displacement),
          put_sib_lem m c hc,
          read_sib_fields p mode (digit % 8) (scale_bits m.scale) (sib_field m.index) c
              (put_displacement mode m.displacement ++ rest) (scale_bits-lt m.scale)
              (sib_field-lt m.index) hc,
          mode_not_five c m.displacement,
          read_displacement-put c m.displacement rest v.displacement_fits,
          index_read,
        )

    -- With neither a SIB byte nor an index.
    read_base :
        (c : ℕ)
        → c < 8
        → c ≢ 4
        → m.index ≡ no_register
        → let mode = displacement_mode c m.displacement in
          read_rm p byte (put_mod_rm mode digit c ++ (put_displacement mode m.displacement ++ rest))
          ≡ some
              (memory (some (c + extension p.b)) (address_index m) m.displacement, digit % 8, rest)
    read_base c hc ne e =
        let mode = displacement_mode c m.displacement in
        rw (
          read_rm_based mode c _ (displacement_mode-lt c m.displacement) hc ne
              (mode_not_five c m.displacement),
          read_displacement-put c m.displacement rest v.displacement_fits,
          e,
        )

    mem_ext_base_lem : m.base < 16 → mem_ext_base m ≡ leb 8 m.base
    unfolding mem_ext_base
    mem_ext_base_lem h =
        let e1 : (m.base == no_register) ≡ false = ground arith in
        let e2 : (m.base == rip) ≡ false = ground arith in rw (e1, e2)

    -- A general base register.
    read_general :
        m.base < 16
        → p.b ≡ mem_ext_base m
        → read_rm p byte (put_mem_operand digit m ++ rest) ≡ some (address m, digit % 8, rest)
    unfolding put_mem_operand address
    read_general h eb =
        let e1 : (m.base == no_register) ≡ false = ground arith in
        let e2 : (m.base == rip) ≡ false = ground arith in
        let base : bit_and m.base 7 + extension p.b ≡ m.base =
          rw (eb, mem_ext_base_lem h, bit_and_seven m.base) (with_extension m.base h) in
        let low : bit_and m.base 7 < 8 = rw (bit_and_seven m.base) (omega arith) in
        elim (Bool-cases (not (m.index == no_register) || bit_and m.base 7 == 4)) [
          | inl s ↦
              rw (e2, e1, s, append_assoc, append_assoc)
                (rw (read_sib_base (bit_and m.base 7) low, base))
          | inr s ↦
              let (none', ne) = no_sib m.index (bit_and m.base 7) s in
              rw (e2, e1, s, append_assoc) (rw (read_base (bit_and m.base 7) low ne none', base))
        ]

    read_rm-memory_lem :
        p.b ≡ mem_ext_base m
        → read_rm p byte (put_mem_operand digit m ++ rest) ≡ some (address m, digit % 8, rest)
    unfolding put_mem_operand address put_sib
    read_rm-memory_lem eb = by_base v.base_known
      where
        by_base :
            (m.base < 16) ⊎ ((m.base ≡ rip) × (m.index ≡ no_register) ⊎ (m.base ≡ no_register))
            → read_rm p byte (put_mem_operand digit m ++ rest) ≡ some (address m, digit % 8, rest)
        by_base (inl h) = read_general h eb
        by_base (inr (inl (e, _))) = rw (e, append_assoc) (read_rip v.displacement_fits)
        by_base (inr (inr e)) = rw (e, append_assoc, append_assoc) read_absolute

-- The operand that PutMemOperand writes for an encodable `Memory` is read back as the address that
-- it stands for, whatever follows, if the prefix carries its extension bits.
pub read_rm-put_mem_operand :
    (p : Prefixes) (byte : Bool) (digit : ℕ) (m : Memory) (rest : List ℕ)
    → IsEncodable m
    → p.x ≡ mem_ext_index m
    → p.b ≡ mem_ext_base m
    → read_rm p byte (put_mem_operand digit m ++ rest) ≡ some (address m, digit % 8, rest)
read_rm-put_mem_operand p byte digit m rest v ex eb = read_rm-memory_lem p byte digit m rest v ex eb
