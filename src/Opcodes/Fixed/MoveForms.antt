-- ===== src/Opcodes/Fixed/MoveForms.antt =====
-- The moves of one width, taken together by width.
use ecpps.Common.{ℕ, ◌<◌, ◌≡◌, ◌++◌, true, false, [], ◌∷◌, List, ltb, if◌then◌else◌}
use ecpps.Opcodes.Operands.{Width, w8, w16, w32, w64, by_width, mem_base}
use ecpps.Opcodes.Emit.{is_byte, emit_reg, emit_mem}
use ecpps.Opcodes.Generators.Moves.{generate_mov_load, generate_mov_store}
use ecpps.Opcodes.Fixed.Emit.{u32, i32, emit, imm16, imm32}
use ecpps.Opcodes.Fixed.Shapes.{rex-rex_byte}
use ecpps.Opcodes.Fixed.Forms.{reg_form, mem_form, mem_imm_form}
use ecpps.Opcodes.Fixed.Moves.{
  generate_mov_reg_to_reg8, generate_mov_reg_to_reg16, generate_mov_reg_to_reg32,
  generate_mov_reg_to_reg64, generate_mov_reg_to_mem8, generate_mov_reg_to_mem16,
  generate_mov_reg_to_mem32, generate_mov_reg_to_mem64, generate_mov_mem_to_reg8,
  generate_mov_mem_to_reg16, generate_mov_mem_to_reg32, generate_mov_mem_to_reg64,
  generate_mov_imm_to_mem8, generate_mov_imm_to_mem16, generate_mov_imm_to_mem32,
  generate_mov_imm_to_mem64,
}

pub mov_reg_to_reg_lem :
    (size : Width) (destination source : ℕ)
    → by_width generate_mov_reg_to_reg8 generate_mov_reg_to_reg16 generate_mov_reg_to_reg32
        generate_mov_reg_to_reg64 size destination source
      ≡ emit_reg size
          ((if is_byte size then 0x88 else 0x89) ∷ [])
          source
          destination
          (is_byte size)
          (is_byte size)
unfolding generate_mov_reg_to_reg8 generate_mov_reg_to_reg16 generate_mov_reg_to_reg32
    generate_mov_reg_to_reg64
mov_reg_to_reg_lem w8 destination source = reg_form true w8 (0x88 ∷ []) source destination true
mov_reg_to_reg_lem w16 destination source = reg_form true w16 (0x89 ∷ []) source destination true
mov_reg_to_reg_lem w32 destination source = reg_form true w32 (0x89 ∷ []) source destination true
mov_reg_to_reg_lem w64 destination source = reg_form true w64 (0x89 ∷ []) source destination true

pub mov_reg_to_mem_lem :
    (size : Width) (base offset source : ℕ)
    → base < 16
    → by_width generate_mov_reg_to_mem8 generate_mov_reg_to_mem16 generate_mov_reg_to_mem32
        generate_mov_reg_to_mem64 size base offset source
      ≡ generate_mov_store size (mem_base base (i32 (u32 offset))) source
unfolding generate_mov_reg_to_mem8 generate_mov_reg_to_mem16 generate_mov_reg_to_mem32
    generate_mov_reg_to_mem64 generate_mov_store
mov_reg_to_mem_lem w8 base offset source h = mem_form true w8 (0x88 ∷ []) source base _ h
mov_reg_to_mem_lem w16 base offset source h = mem_form true w16 (0x89 ∷ []) source base _ h
mov_reg_to_mem_lem w32 base offset source h = mem_form true w32 (0x89 ∷ []) source base _ h
mov_reg_to_mem_lem w64 base offset source h = mem_form true w64 (0x89 ∷ []) source base _ h

pub mov_mem_to_reg_lem :
    (size : Width) (destination offset base : ℕ)
    → base < 16
    → by_width generate_mov_mem_to_reg8 generate_mov_mem_to_reg16 generate_mov_mem_to_reg32
        generate_mov_mem_to_reg64 size destination offset base
      ≡ generate_mov_load size destination (mem_base base (i32 (u32 offset)))
unfolding generate_mov_mem_to_reg8 generate_mov_mem_to_reg16 generate_mov_mem_to_reg32
    generate_mov_mem_to_reg64 generate_mov_load
mov_mem_to_reg_lem w8 destination offset base h = mem_form true w8 (0x8A ∷ []) destination base _ h
mov_mem_to_reg_lem w16 destination offset base h =
    mem_form true w16 (0x8B ∷ []) destination base _ h
mov_mem_to_reg_lem w32 destination offset base h =
    mem_form true w32 (0x8B ∷ []) destination base _ h
mov_mem_to_reg_lem w64 destination offset base h =
    mem_form true w64 (0x8B ∷ []) destination base _ h

-- The immediate of a store, as the generators write it.
abbrev pub store_imm : Width → ℕ → List ℕ
store_imm w8 imm = emit imm
store_imm w16 imm = imm16 imm
store_imm w32 imm = imm32 imm
store_imm w64 imm = imm32 (u32 imm)

pub mov_imm_to_mem_lem :
    (size : Width) (base offset imm : ℕ)
    → base < 16
    → ltb 0xFFFFFFFF imm ≡ false
    → by_width generate_mov_imm_to_mem8 generate_mov_imm_to_mem16 generate_mov_imm_to_mem32
        generate_mov_imm_to_mem64 size base offset imm
      ≡ emit_mem size
          ((if is_byte size then 0xC6 else 0xC7) ∷ [])
          0
          (mem_base base (i32 offset))
          false
        ++ store_imm size imm
unfolding generate_mov_imm_to_mem8 generate_mov_imm_to_mem16 generate_mov_imm_to_mem32
    generate_mov_imm_to_mem64
mov_imm_to_mem_lem w8 base offset imm h small =
    rw rex-rex_byte (mem_imm_form false w8 (0xC6 ∷ []) 0 base _ _ h)
mov_imm_to_mem_lem w16 base offset imm h small = mem_imm_form false w16 (0xC7 ∷ []) 0 base _ _ h
mov_imm_to_mem_lem w32 base offset imm h small = mem_imm_form false w32 (0xC7 ∷ []) 0 base _ _ h
mov_imm_to_mem_lem w64 base offset imm h small =
    rw small (mem_imm_form false w64 (0xC7 ∷ []) 0 base _ _ h)
