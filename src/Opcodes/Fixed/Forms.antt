-- ===== src/Opcodes/Fixed/Forms.antt =====
-- The layouts that the generators of one width share, by width, against EmitReg and EmitMem.
use ecpps.Common.{
  ℕ, ◌<◌, ◌≡◌, refl, sym, ap, Bool, true, false, ◌&&◌, ◌||◌, List, [], ◌∷◌, ◌++◌, bit_and, leb,
  append_assoc,
}
use ecpps.Common.Int.{ℤ}
use ecpps.Opcodes.Operands.{Width, w8, w16, w32, w64, mem_base}
use ecpps.Opcodes.Emit.{
  put_seq, put_rex, emit_reg, emit_mem, requires_byte_rex, is_byte, is_w64, operand_size_prefix,
}
use ecpps.Opcodes.Fixed.Emit.{u8, emit, rex, rex_byte, mod_rm, mod_rm_memory}
use ecpps.Opcodes.Fixed.Shapes.{
  rex_lem, rex_byte_lem, emit-put, mod_rm_lem, mod_rm_memory-masked, mem_ext_base-low,
  mem_ext_index-base,
}

-- The opcode bytes, one Emit each.
abbrev pub emits : List ℕ → List ℕ → List ℕ
emits [] rest = rest
emits (o ∷ ops) rest = emit o ++ emits ops rest

-- The operand-size prefix and the REX prefix of a width.
abbrev pub prefixed : Width → Bool → Bool → Bool → List ℕ → List ℕ
prefixed w8 force r b rest = rex_byte r false b force ++ rest
prefixed w16 force r b rest = emit 0x66 ++ (rex false r false b ++ rest)
prefixed w32 force r b rest = rex false r false b ++ rest
prefixed w64 force r b rest = rex true r false b ++ rest

emits-put_seq : (ops rest : List ℕ) → emits ops rest ≡ put_seq ops ++ rest
unfolding put_seq
emits-put_seq [] rest = refl
emits-put_seq (o ∷ ops) rest = rw (emit-put o, emits-put_seq ops rest) refl

pub prefixed-put_rex :
    (size : Width) (force r b : Bool) (rest : List ℕ)
    → prefixed size force r b rest
      ≡ operand_size_prefix size
        ++ (put_rex (is_w64 size) r false b (is_byte size && force) ++ rest)
unfolding emit
prefixed-put_rex w8 force r b rest = rw (rex_byte_lem r false b force) refl
prefixed-put_rex w16 force r b rest = rw (rex_lem false r false b) refl
prefixed-put_rex w32 force r b rest = rw (rex_lem false r false b) refl
prefixed-put_rex w64 force r b rest = rw (rex_lem true r false b) refl

both_flags : (s f g p q : Bool) → s && (f && p || g && q) ≡ (s && f && p || s && g && q)
both_flags true f g p q = refl
both_flags false f g p q = refl

one_flag : (s f p : Bool) → s && (f && p) ≡ s && f && p
one_flag true f p = refl
one_flag false f p = refl

pub prefixed-append :
    (size : Width) (force r b : Bool) (x t : List ℕ)
    → prefixed size force r b (x ++ t) ≡ prefixed size force r b x ++ t
unfolding emit
prefixed-append w8 force r b x t = sym (append_assoc _ x t)
prefixed-append w16 force r b x t = ap (λ y. emit 0x66 ++ y) (sym (append_assoc _ x t))
prefixed-append w32 force r b x t = sym (append_assoc _ x t)
prefixed-append w64 force r b x t = sym (append_assoc _ x t)

emits-append : (ops x t : List ℕ) → emits ops (x ++ t) ≡ emits ops x ++ t
emits-append [] x t = refl
emits-append (o ∷ ops) x t = rw (emits-append ops x t, append_assoc) refl

module _ (f : Bool) (size : Width) (ops : List ℕ) (a b : ℕ) where
  -- Two registers, or an opcode digit and a register.
  pub reg_form :
      (g : Bool)
      → prefixed size
          (f && requires_byte_rex a || g && requires_byte_rex b)
          (leb 8 a)
          (leb 8 b)
          (emits ops (mod_rm 3 (u8 (bit_and a 7)) (u8 (bit_and b 7))))
        ≡ emit_reg size ops a b (is_byte size && f) (is_byte size && g)
  unfolding emit_reg
  reg_form g = rw (prefixed-put_rex, emits-put_seq, mod_rm_lem a b, both_flags) refl

  -- A register, or an opcode digit, and an address.
  pub mem_form :
      (d : ℤ)
      → b < 16
      → prefixed size
          (f && requires_byte_rex a)
          (leb 8 a)
          (leb 8 b)
          (emits ops (mod_rm_memory (u8 (bit_and a 7)) (u8 (bit_and b 7)) d))
        ≡ emit_mem size ops a (mem_base b d) (is_byte size && f)
  unfolding emit_mem
  mem_form d b-lt =
      rw
        (
          prefixed-put_rex,
          emits-put_seq,
          mod_rm_memory-masked a b d b-lt,
          mem_ext_base-low b d b-lt,
          mem_ext_index-base b d,
          one_flag,
        )
        refl

  -- The same with an immediate behind.
  pub reg_imm_form :
      (g : Bool) (t : List ℕ)
      → prefixed size
          (f && requires_byte_rex a || g && requires_byte_rex b)
          (leb 8 a)
          (leb 8 b)
          (emits ops (mod_rm 3 (u8 (bit_and a 7)) (u8 (bit_and b 7)) ++ t))
        ≡ emit_reg size ops a b (is_byte size && f) (is_byte size && g) ++ t
  reg_imm_form g t = rw (emits-append, prefixed-append, reg_form g) refl

  pub mem_imm_form :
      (d : ℤ) (t : List ℕ)
      → b < 16
      → prefixed size
          (f && requires_byte_rex a)
          (leb 8 a)
          (leb 8 b)
          (emits ops (mod_rm_memory (u8 (bit_and a 7)) (u8 (bit_and b 7)) d ++ t))
        ≡ emit_mem size ops a (mem_base b d) (is_byte size && f) ++ t
  mem_imm_form d t b-lt = rw (emits-append, prefixed-append, mem_form d b-lt) refl
