-- ===== src/Opcodes/ReadInsn.antt =====
-- An instruction that EmitReg or EmitMem writes is decoded by the form of its opcode.
use ecpps.Common.{
  ℕ, ◌%◌, ◌<◌, ◌≡◌, refl, Option, some, List, [], ◌∷◌, ◌++◌, append_assoc, arith, Bool, true, false,
  not, ◌&&◌, ◌||◌, leb, ◌==◌, ◌>>=◌,
}
use ecpps.Common.Int.{ℤ, pos}
use ecpps.Opcodes.Operands.{Width, w8, w16, w32, w64, Memory}
use ecpps.Opcodes.Emit.{
  put, put_seq, put_rex, mem_ext_base, mem_ext_index, is_byte, is_w64, operand_size_prefix,
  requires_byte_rex, emit_reg, emit_mem,
}
use ecpps.Opcodes.Decoder.Operand.{
  Operand, gpr, read_rm, read_imm, ImmKind, operand_sized, signed_byte, unsigned_byte,
}
use ecpps.Opcodes.Decoder.Instructions.{Insn}
use ecpps.Opcodes.Decoder.Table.{one_byte, two_byte}
use ecpps.Opcodes.Decoder.Forms.{Form, mod_rm}
use ecpps.Opcodes.Decoder.{run, decode, decode_opcode, decode_second}
use ecpps.Opcodes.Immediates.{
  unsigned-put, signed-put_imm_size, signed-put_imm_one, fits_i8-InRange,
}
use ecpps.Opcodes.Emit.{put_imm, imm_size, imm_fits, imm_normalise, fits_i8}
use ecpps.Opcodes.ReadOperand.{IsEncodable, address, read_rm-register, with_extension}
use ecpps.Opcodes.ReadMemory.{read_rm-put_mem_operand}
use ecpps.Opcodes.ReadPrefixes.{
  IsPlain, prefixes, read_prefixes-put, width_of-prefixes, register-forced, is_plain, IsPlain-of,
}

-- The opcode bytes `op` select the form `f`, in the map of one byte or of two.
pub data Selects (op : List ℕ) (f : Form) : Type 0 where
  one :
      (o : ℕ)
      → put_seq op ≡ o ∷ []
      → is_plain o && not (o == 0x0F) ≡ true
      → one_byte o ≡ f
      → Selects op f
  two : (o : ℕ) → put_seq op ≡ 0x0F ∷ o ∷ [] → two_byte o ≡ f → Selects op f

-- What is left to read after the operands: the immediate.
abbrev pub finish : ImmKind → Width → List ℕ → (ℤ → Option Insn) → Option (Insn × List ℕ)
finish k size bs build = read_imm k size bs >>= (λ (i, r). build i >>= (λ insn. some (insn, r)))

IsPlain-and : (o : ℕ) → is_plain o && not (o == 0x0F) ≡ true → IsPlain o × ((o == 0x0F) ≡ false)
unfolding is_plain
IsPlain-and o h = ground arith

module _ (size : Width) (r x b force : Bool) (op tail : List ℕ) where
  -- The prefixes and the opcode are read off, and the form says what follows.
  decode-opcode :
      {byte rm_byte reg_byte : Bool} {imm : ℕ → ImmKind}
      {build : Width → Operand → ℕ → Operand → ℤ → Option Insn}
      → Selects op (mod_rm byte rm_byte reg_byte imm build)
      → decode
          (operand_size_prefix size ++ (put_rex (is_w64 size) r x b force ++ (put_seq op ++ tail)))
        ≡ run (mod_rm byte rm_byte reg_byte imm build) 0 (prefixes size r x b force) tail
  unfolding decode decode_opcode decode_second run read_rm
  decode-opcode (one o e h f) =
      let (plain, escape) = IsPlain-and o h in
      rw (e, read_prefixes-put size r x b force o tail plain, escape, f)
  decode-opcode (two o e f) =
      rw (e, read_prefixes-put size r x b force 0x0F (o ∷ tail) (IsPlain-of 0x0F plain_escape), f)
    where
      plain_escape : is_plain 0x0F ≡ true
      plain_escape = unfold is_plain in refl

or_left : (a b : Bool) → a ≡ true → a || b ≡ true
or_left a b h = ground arith

or_right : (a b : Bool) → b ≡ true → a || b ≡ true
or_right a b h = ground arith

module _ (size : Width) (op : List ℕ) (reg : ℕ) (reg_is_byte : Bool) (rest : List ℕ)
    {imm : ℕ → ImmKind} {build : Width → Operand → ℕ → Operand → ℤ → Option Insn}
    (reg-lt : reg < 16) where
  -- A register operand is decoded as the register that EmitReg was given; so is the register of
  -- the field reg.
  pub decode-emit_reg :
      (rm : ℕ) (rm_is_byte : Bool)
      → rm < 16
      → Selects op (mod_rm (is_byte size) rm_is_byte reg_is_byte imm build)
      → decode (emit_reg size op reg rm reg_is_byte rm_is_byte ++ rest)
        ≡ finish (imm (reg % 8)) size rest (build size (gpr rm) (reg % 8) (gpr reg))
  unfolding emit_reg
  decode-emit_reg rm rm_is_byte rm-lt s =
      let force = reg_is_byte && requires_byte_rex reg || rm_is_byte && requires_byte_rex rm in
      let p = prefixes size (leb 8 reg) false (leb 8 rm) force in
      rw (append_assoc, append_assoc, append_assoc, decode-opcode size _ _ _ _ op _ s)
        (unfold run in
          rw (
            read_rm-register p rm_is_byte reg rm rest rm-lt refl,
            width_of-prefixes size (leb 8 reg) false (leb 8 rm) force,
            with_extension reg reg-lt,
            register-forced size (leb 8 reg) false (leb 8 rm) force reg_is_byte reg
                (or_left _ (rm_is_byte && requires_byte_rex rm)),
            register-forced size (leb 8 reg) false (leb 8 rm) force rm_is_byte rm
                (or_right (reg_is_byte && requires_byte_rex reg) _),
          ))

  -- A memory operand is decoded as the address that it stands for.
  pub decode-emit_mem :
      (m : Memory) (rm_byte : Bool)
      → IsEncodable m
      → Selects op (mod_rm (is_byte size) rm_byte reg_is_byte imm build)
      → decode (emit_mem size op reg m reg_is_byte ++ rest)
        ≡ finish (imm (reg % 8)) size rest (build size (address m) (reg % 8) (gpr reg))
  unfolding emit_mem
  decode-emit_mem m rm_byte v s =
      let force = reg_is_byte && requires_byte_rex reg in
      let p = prefixes size (leb 8 reg) (mem_ext_index m) (mem_ext_base m) force in
      rw (append_assoc, append_assoc, append_assoc, decode-opcode size _ _ _ _ op _ s)
        (unfold run in
          rw (
            read_rm-put_mem_operand p rm_byte reg m rest v refl refl,
            width_of-prefixes size (leb 8 reg) (mem_ext_index m) (mem_ext_base m) force,
            with_extension reg reg-lt,
            register-forced size (leb 8 reg) (mem_ext_index m) (mem_ext_base m) force reg_is_byte
                reg (λ h. h),
          ))

-- The same with no ModRM byte.
pub decode-opcode_short :
    (size : Width) (b force : Bool) (o : ℕ) (tail : List ℕ)
    → is_plain o && not (o == 0x0F) ≡ true
    → decode (operand_size_prefix size ++ (put_rex (is_w64 size) false false b force ++ (o ∷ tail)))
      ≡ run (one_byte o) o (prefixes size false false b force) tail
unfolding decode decode_opcode
decode-opcode_short size b force o tail h =
    let (plain, escape) = IsPlain-and o h in
    rw (read_prefixes-put size false false b force o tail plain, escape)

-- And with no REX bit but W.
pub decode-opcode_plain :
    (size : Width) (o : ℕ) (tail : List ℕ)
    → is_plain o && not (o == 0x0F) ≡ true
    → decode
        (operand_size_prefix size ++ (put_rex (is_w64 size) false false false false ++ (o ∷ tail)))
      ≡ run (one_byte o) o (prefixes size false false false false) tail
decode-opcode_plain size o tail h = decode-opcode_short size false false o tail h

-- An immediate of the operand's size is read back.
pub read_imm-operand_sized :
    (size : Width) (z : ℤ) (rest : List ℕ)
    → imm_fits size z ≡ true
    → read_imm operand_sized size (put_imm (imm_normalise size z) (imm_size size) ++ rest)
      ≡ some (imm_normalise size z, rest)
unfolding read_imm
read_imm-operand_sized w8 z rest h = signed-put_imm_size w8 z rest h
read_imm-operand_sized w16 z rest h = signed-put_imm_size w16 z rest h
read_imm-operand_sized w32 z rest h = signed-put_imm_size w32 z rest h
read_imm-operand_sized w64 z rest h = signed-put_imm_size w64 z rest h

pub read_imm-signed_byte :
    (size : Width) (z : ℤ) (rest : List ℕ)
    → fits_i8 z ≡ true
    → read_imm signed_byte size (put_imm z 1 ++ rest) ≡ some (z, rest)
unfolding read_imm
read_imm-signed_byte size z rest h = signed-put_imm_one z rest (fits_i8-InRange z h)

-- What was shown of an opcode with operands `e` carries over to `e` and an immediate.
module _ (size : Width) (e : List ℕ) (insn : ℤ → Insn) (rest : List ℕ) where
  pub decode-with_short :
      (z : ℤ)
      → ((r : List ℕ) → decode (e ++ r) ≡ finish signed_byte size r (λ i. some (insn i)))
      → fits_i8 z ≡ true
      → decode ((e ++ put_imm z 1) ++ rest) ≡ some (insn z, rest)
  decode-with_short z h s =
      rw (append_assoc, h (put_imm z 1 ++ rest), read_imm-signed_byte size z rest s)

  pub decode-with_sized :
      (z : ℤ)
      → ((r : List ℕ) → decode (e ++ r) ≡ finish operand_sized size r (λ i. some (insn i)))
      → imm_fits size z ≡ true
      → decode ((e ++ put_imm (imm_normalise size z) (imm_size size)) ++ rest)
        ≡ some (insn (imm_normalise size z), rest)
  decode-with_sized z h s = rw (
    append_assoc,
    h (put_imm (imm_normalise size z) (imm_size size) ++ rest),
    read_imm-operand_sized size z rest s,
  )

  pub decode-with_count :
      (n : ℕ)
      → ((r : List ℕ) → decode (e ++ r) ≡ finish unsigned_byte size r (λ i. some (insn i)))
      → n < 256
      → decode ((e ++ put n) ++ rest) ≡ some (insn (pos n), rest)
  unfolding read_imm
  decode-with_count n h s = rw (append_assoc, h (put n ++ rest), unsigned-put n rest s)

-- A form that is not for bytes, at a width that is none.
pub Selects-wide :
    (size : Width) {op : List ℕ} {rm_byte reg_byte : Bool} {imm : ℕ → ImmKind}
    {build : Width → Operand → ℕ → Operand → ℤ → Option Insn}
    → is_byte size ≡ false
    → Selects op (mod_rm false rm_byte reg_byte imm build)
    → Selects op (mod_rm (is_byte size) rm_byte reg_byte imm build)
Selects-wide size wide s = rw wide s
