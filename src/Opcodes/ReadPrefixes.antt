-- ===== src/Opcodes/ReadPrefixes.antt =====
-- The prefixes that EmitReg and EmitMem write are read back, with the width and the byte registers.
use ecpps.Common.{
  ℕ, ◌/◌, ◌≡◌, refl, ◌∙◌, List, ◌∷◌, ◌++◌, arith, Bool, true, false, not, ◌&&◌, ◌||◌, ◌==◌,
}
use ecpps.Opcodes.Operands.{Width, w8, w16, w32, w64, RepPrefix}
use ecpps.Opcodes.Emit.{put_rex, is_byte, is_w64, operand_size_prefix, requires_byte_rex}
use ecpps.Opcodes.Decoder.Operand.{gpr, Prefixes, register, width_of}
use ecpps.Opcodes.Decoder.{read_prefixes, read_operand_size, read_rex}

-- An opcode that is no prefix.
pub record IsPlain (o : ℕ) : Type 0 where
  pub no_rex : (o / 16 == 4) ≡ false
  pub no_size : (o == 0x66) ≡ false
  pub no_rep : (o == 0xF3) ≡ false
  pub no_repne : (o == 0xF2) ≡ false

abbrev is_w16 : Width → Bool
is_w16 w16 = true
is_w16 _ = false

-- The prefixes that a width and the REX bits ask for.
abbrev pub prefixes : Width → Bool → Bool → Bool → Bool → Prefixes
prefixes size r x b force = record {
  rep = RepPrefix.none;
  operand_size = is_w16 size;
  rex = is_w64 size || (r || (x || (b || force)));
  w = is_w64 size;
  r = r;
  x = x;
  b = b;
}

read_rex-put :
    (size16 w r x b force : Bool) (o : ℕ) (rest : List ℕ)
    → IsPlain o
    → read_rex RepPrefix.none size16 (put_rex w r x b force ++ (o ∷ rest)) ≡ (
      record {
        rep = RepPrefix.none;
        operand_size = size16;
        rex = w || (r || (x || (b || force)));
        w = w;
        r = r;
        x = x;
        b = b;
      },
      o ∷ rest,
    )
unfolding read_rex put_rex
read_rex-put s false false false false false o rest h = rw h.no_rex
read_rex-put s w r x b force o rest h = ground arith

skip_operand_size :
    (w r x b force : Bool) (o : ℕ) (rest : List ℕ)
    → IsPlain o
    → read_prefixes (put_rex w r x b force ++ (o ∷ rest))
      ≡ read_rex RepPrefix.none false (put_rex w r x b force ++ (o ∷ rest))
unfolding read_prefixes read_operand_size put_rex
skip_operand_size false false false false false o rest h = rw (h.no_rep, h.no_repne, h.no_size)
skip_operand_size w r x b force o rest h = ground arith

pub read_prefixes-put :
    (size : Width) (r x b force : Bool) (o : ℕ) (rest : List ℕ)
    → IsPlain o
    → read_prefixes (operand_size_prefix size ++ (put_rex (is_w64 size) r x b force ++ (o ∷ rest)))
      ≡ (prefixes size r x b force, o ∷ rest)
read_prefixes-put w16 r x b force o rest h =
    unfold read_prefixes read_operand_size in read_rex-put true false r x b force o rest h
read_prefixes-put w8 r x b force o rest h =
    skip_operand_size false r x b force o rest h ∙ read_rex-put false false r x b force o rest h
read_prefixes-put w32 r x b force o rest h =
    skip_operand_size false r x b force o rest h ∙ read_rex-put false false r x b force o rest h
read_prefixes-put w64 r x b force o rest h =
    skip_operand_size true r x b force o rest h ∙ read_rex-put false true r x b force o rest h

-- The width that the opcode's low bit and the prefixes give is the one that was written.
pub width_of-prefixes :
    (size : Width) (r x b force : Bool) → width_of (prefixes size r x b force) (is_byte size) ≡ size
width_of-prefixes w8 r x b force = refl
width_of-prefixes w16 r x b force = refl
width_of-prefixes w32 r x b force = refl
width_of-prefixes w64 r x b force = refl

-- A byte register is read as itself, since EmitReg and EmitMem force a REX prefix for 4 to 7.
pub register-forced :
    (size : Width) (r x b force : Bool) (byte : Bool) (n : ℕ)
    → (byte && requires_byte_rex n ≡ true → force ≡ true)
    → register (prefixes size r x b force) byte n ≡ gpr n
unfolding register requires_byte_rex
register-forced size r x b force byte n h = ground arith

unfoldable pub is_plain : ℕ → Bool
is_plain o = not (o / 16 == 4) && (not (o == 0x66) && (not (o == 0xF3) && not (o == 0xF2)))

pub IsPlain-of : (o : ℕ) → is_plain o ≡ true → IsPlain o
unfolding is_plain
IsPlain-of o h = ground arith
