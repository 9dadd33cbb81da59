-- ===== src/Opcodes/Decodes/Extend.antt =====
-- Moves that extend: what their generators write is decoded as the extension asked for.
use ecpps.Common.{ℕ, ◌<◌, ◌≡◌, refl, Option, some, List, [], ◌∷◌, ◌++◌, true, false, ltb}
use ecpps.Common.Int.{ℤ}
use ecpps.Opcodes.Operands.{Width, w8, w16, w32, w64, Memory, ExtendKind}
use ecpps.Opcodes.Emit.{put_seq, emit_reg, emit_mem}
use ecpps.Opcodes.Decoder.{decode}
use ecpps.Opcodes.Decoder.Instructions.{Insn}
use ecpps.Opcodes.Decoder.Operand.{Operand, gpr, read_imm}
use ecpps.Opcodes.Decoder.Table.{one_byte, two_byte}
use ecpps.Opcodes.Decoder.Forms.{mod_rm, no_imms}
use ecpps.Opcodes.ReadOperand.{IsEncodable, address}
use ecpps.Opcodes.ReadInsn.{Selects, one, two, decode-emit_reg, decode-emit_mem}
use ecpps.Opcodes.ReadPrefixes.{is_plain}
use ecpps.Opcodes.Operands.{width_value}
use ecpps.Opcodes.Generators.Moves.{generate_mov_extend_reg_to_reg, generate_mov_extend_mem_to_reg}

-- The move that an extension is. A 32-bit move clears the upper half of its register, so the
-- extension of 32 bits by zeros is one.
unfoldable pub extension_insn : ExtendKind → Width → Width → Operand → Operand → Insn
extension_insn ExtendKind.zero destination w32 d s = Insn.move w32 d s
extension_insn kind destination source d s = Insn.extend kind destination source d s

abbrev extend_build : ExtendKind → Width → Width → Operand → ℕ → Operand → ℤ → Option Insn
extend_build kind source w rm d r i = some (Insn.extend kind w source r rm)

zero_byte_form :
    Selects (0x0F ∷ 0xB6 ∷ []) (mod_rm false true false no_imms (extend_build ExtendKind.zero w8))
unfolding put_seq two_byte
zero_byte_form = two _ refl refl

sign_byte_form :
    Selects (0x0F ∷ 0xBE ∷ []) (mod_rm false true false no_imms (extend_build ExtendKind.sign w8))
unfolding put_seq two_byte
sign_byte_form = two _ refl refl

zero_word_form :
    Selects (0x0F ∷ 0xB7 ∷ []) (mod_rm false false false no_imms (extend_build ExtendKind.zero w16))
unfolding put_seq two_byte
zero_word_form = two _ refl refl

sign_word_form :
    Selects (0x0F ∷ 0xBF ∷ []) (mod_rm false false false no_imms (extend_build ExtendKind.sign w16))
unfolding put_seq two_byte
sign_word_form = two _ refl refl

sign_double_form :
    Selects (0x63 ∷ []) (mod_rm false false false no_imms (extend_build ExtendKind.sign w32))
unfolding put_seq one_byte is_plain
sign_double_form = one _ refl refl refl

zero_double_form :
    Selects (0x8B ∷ []) (mod_rm false false false no_imms (λ w rm d r i. some (Insn.move w r rm)))
unfolding put_seq one_byte is_plain
zero_double_form = one _ refl refl refl

module _ (a b : ℕ) (m : Memory) (rest : List ℕ) (a-lt : a < 16) (b-lt : b < 16)
    (v : IsEncodable m) where
  -- An extension to a greater width is decoded as the extension, of a register and of memory, of
  -- the same kind and the same two widths.
  pub decode-extend :
      (kind : ExtendKind) (destination source : Width)
      → ltb (width_value source) (width_value destination) ≡ true
      → (decode (generate_mov_extend_reg_to_reg kind destination source a b ++ rest)
          ≡ some (extension_insn kind destination source (gpr a) (gpr b), rest))
        × (decode (generate_mov_extend_mem_to_reg kind destination source a m ++ rest)
            ≡ some (extension_insn kind destination source (gpr a) (address m), rest))
  unfolding generate_mov_extend_reg_to_reg generate_mov_extend_mem_to_reg emit_reg emit_mem
      extension_insn read_imm
  decode-extend ExtendKind.zero w16 w8 h = (
    decode-emit_reg w16 _ a false rest a-lt b true b-lt zero_byte_form,
    decode-emit_mem w16 _ a false rest a-lt m true v zero_byte_form,
  )
  decode-extend ExtendKind.zero w32 w8 h = (
    decode-emit_reg w32 _ a false rest a-lt b true b-lt zero_byte_form,
    decode-emit_mem w32 _ a false rest a-lt m true v zero_byte_form,
  )
  decode-extend ExtendKind.zero w64 w8 h = (
    decode-emit_reg w64 _ a false rest a-lt b true b-lt zero_byte_form,
    decode-emit_mem w64 _ a false rest a-lt m true v zero_byte_form,
  )
  decode-extend ExtendKind.sign w16 w8 h = (
    decode-emit_reg w16 _ a false rest a-lt b true b-lt sign_byte_form,
    decode-emit_mem w16 _ a false rest a-lt m true v sign_byte_form,
  )
  decode-extend ExtendKind.sign w32 w8 h = (
    decode-emit_reg w32 _ a false rest a-lt b true b-lt sign_byte_form,
    decode-emit_mem w32 _ a false rest a-lt m true v sign_byte_form,
  )
  decode-extend ExtendKind.sign w64 w8 h = (
    decode-emit_reg w64 _ a false rest a-lt b true b-lt sign_byte_form,
    decode-emit_mem w64 _ a false rest a-lt m true v sign_byte_form,
  )
  decode-extend ExtendKind.zero w32 w16 h = (
    decode-emit_reg w32 _ a false rest a-lt b false b-lt zero_word_form,
    decode-emit_mem w32 _ a false rest a-lt m false v zero_word_form,
  )
  decode-extend ExtendKind.zero w64 w16 h = (
    decode-emit_reg w64 _ a false rest a-lt b false b-lt zero_word_form,
    decode-emit_mem w64 _ a false rest a-lt m false v zero_word_form,
  )
  decode-extend ExtendKind.sign w32 w16 h = (
    decode-emit_reg w32 _ a false rest a-lt b false b-lt sign_word_form,
    decode-emit_mem w32 _ a false rest a-lt m false v sign_word_form,
  )
  decode-extend ExtendKind.sign w64 w16 h = (
    decode-emit_reg w64 _ a false rest a-lt b false b-lt sign_word_form,
    decode-emit_mem w64 _ a false rest a-lt m false v sign_word_form,
  )
  decode-extend ExtendKind.zero w64 w32 h = (
    decode-emit_reg w32 _ a false rest a-lt b false b-lt zero_double_form,
    decode-emit_mem w32 _ a false rest a-lt m false v zero_double_form,
  )
  decode-extend ExtendKind.sign w64 w32 h = (
    decode-emit_reg w64 _ a false rest a-lt b false b-lt sign_double_form,
    decode-emit_mem w64 _ a false rest a-lt m false v sign_double_form,
  )
  decode-extend ExtendKind.zero w8 w8 h = cc
  decode-extend ExtendKind.sign w8 w8 h = cc
  decode-extend _ _ _ h = cc
