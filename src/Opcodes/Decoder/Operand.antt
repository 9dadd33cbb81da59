-- ===== src/Opcodes/Decoder/Operand.antt =====
-- Operands and immediates as the processor reads them.
use ecpps.Common.{
  ℕ, zero, suc, ◌+◌, ◌-◌, ◌*◌, ◌/◌, ◌%◌, ◌^◌, Bool, true, false, not, ◌&&◌, Option, none, some,
  List, [], ◌∷◌, leb, ◌==◌, ◌>>=◌, if◌then◌else◌,
}
use ecpps.Common.Int.{ℤ, pos, of_bits}
use ecpps.Opcodes.Operands.{Width, w8, w16, w32, w64, RepPrefix}

-- A general register, one of ah ch dh bh, an address, or an address relative to the next
-- instruction. An index stands with its factor.
pub data Operand : Type 0 where
  gpr : ℕ → Operand
  high_byte : ℕ → Operand
  memory : Option ℕ → Option (ℕ × ℕ) → ℤ → Operand
  rip_relative : ℤ → Operand

pub record Prefixes : Type 0 where
  pub rep : RepPrefix
  pub operand_size : Bool
  pub rex : Bool
  pub w : Bool
  pub r : Bool
  pub x : Bool
  pub b : Bool

abbrev pub extension : Bool → ℕ
extension true = 8
extension false = 0

-- A byte opcode has its width; any other takes REX.W before the operand-size prefix.
abbrev pub width_of : Prefixes → Bool → Width
width_of p byte = if byte then w8 else if p.w then w64 else if p.operand_size then w16 else w32

-- With no REX prefix the byte registers 4 to 7 are ah, ch, dh and bh.
unfoldable pub register : Prefixes → Bool → ℕ → Operand
register p byte n = if byte && (not p.rex && (leb 4 n && leb n 7)) then high_byte (n - 4) else gpr n

-- `n` bytes, the lowest first.
unfoldable pub little_endian : ℕ → List ℕ → Option (ℕ × List ℕ)
little_endian zero bs = some (0, bs)
little_endian (suc n) [] = none
little_endian (suc n) (b ∷ bs) = do (v, rest) ← little_endian n bs; some (b + 256 * v, rest)

unfoldable pub signed : ℕ → List ℕ → Option (ℤ × List ℕ)
signed n bs = do (v, rest) ← little_endian n bs; some (of_bits (256 ^ n) v, rest)

unfoldable pub unsigned : ℕ → List ℕ → Option (ℤ × List ℕ)
unsigned n bs = do (v, rest) ← little_endian n bs; some (pos v, rest)

-- The displacement that a ModRM mode asks for.
unfoldable pub read_displacement : ℕ → List ℕ → Option (ℤ × List ℕ)
read_displacement mode bs =
    if mode == 0 then some (pos 0, bs) else if mode == 1 then signed 1 bs else signed 4 bs

unfoldable pub read_sib : Prefixes → ℕ → ℕ → List ℕ → Option (Operand × ℕ × List ℕ)
read_sib p mode digit [] = none
read_sib p mode digit (s ∷ bs) =
    let number = s / 8 % 8 + extension p.x in
    let index : Option (ℕ × ℕ) = if number == 4 then none else some (number, 2 ^ (s / 64)) in
    let with_base = do
      (d, rest) ← read_displacement mode bs
      some (memory (some (s % 8 + extension p.b)) index d, digit, rest)
    in let no_base = do (d, rest) ← signed 4 bs; some (memory none index d, digit, rest)
      in if mode == 0 && s % 8 == 5 then no_base else with_base

-- The operand of the field r/m, and the field reg with no extension.
unfoldable pub read_rm : Prefixes → Bool → List ℕ → Option (Operand × ℕ × List ℕ)
read_rm p byte [] = none
read_rm p byte (m ∷ bs) =
    let mode = m / 64 in
    let digit = m / 8 % 8 in
    let relative = do (d, rest) ← signed 4 bs; some (rip_relative d, digit, rest)
    in let based = do
      (d, rest) ← read_displacement mode bs
      some (memory (some (m % 8 + extension p.b)) none d, digit, rest)
      in if mode == 3
        then some (register p byte (m % 8 + extension p.b), digit, bs)
        else if m % 8 == 4
        then read_sib p mode digit bs
        else if mode == 0 && m % 8 == 5
        then relative
        else based

-- No immediate; a signed or an unsigned byte; two bytes; four bytes; the size of the operand, but
-- at most four bytes.
pub data ImmKind : Type 0 where
  no_imm signed_byte unsigned_byte two_bytes four_bytes operand_sized full_sized : ImmKind

abbrev imm_bytes : Width → ℕ
imm_bytes w8 = 1
imm_bytes w16 = 2
imm_bytes w32 = 4
imm_bytes w64 = 4

abbrev full_bytes : Width → ℕ
full_bytes w8 = 1
full_bytes w16 = 2
full_bytes w32 = 4
full_bytes w64 = 8

unfoldable pub read_imm : ImmKind → Width → List ℕ → Option (ℤ × List ℕ)
read_imm no_imm size bs = some (pos 0, bs)
read_imm signed_byte size bs = signed 1 bs
read_imm unsigned_byte size bs = unsigned 1 bs
read_imm two_bytes size bs = unsigned 2 bs
read_imm four_bytes size bs = signed 4 bs
read_imm operand_sized size bs = signed (imm_bytes size) bs
read_imm full_sized size bs = signed (full_bytes size) bs
