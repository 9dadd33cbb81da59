-- ===== src/Emitter/Emits/Copy.antt =====
-- MOV of the emitter writes the instruction asked for.
use ecpps.Common.{ℕ, ◌%◌, ◌^◌, ◌<◌, ◌≡◌, refl, List}
use ecpps.Common.Int.{ℤ, InRange, to_bits}
use ecpps.Opcodes.Operands.{Width, w8, w16, w32, w64, mem_base}
use ecpps.Opcodes.Emit.{is_byte}
use ecpps.Opcodes.Immediates.{modulus}
use ecpps.Opcodes.Decoder.Instructions.{Insn}
use ecpps.Opcodes.Decoder.Operand.{gpr, read_imm}
use ecpps.Opcodes.ReadInsn.{decode-emit_reg, decode-emit_mem}
use ecpps.Opcodes.ReadOperand.{address}
use ecpps.Opcodes.Generators.Moves.{generate_mov_store, generate_mov_load}
use ecpps.Opcodes.Decodes.Moves.{store_form, load_form}
use ecpps.Opcodes.Fixed.MoveImmediates.{full_value, decode-mov_imm_to_reg, decode-mov_imm_to_mem}
use ecpps.Emitter.Operands.{RegisterIndex, register_number, register, memory, integer, size_t}
use ecpps.Emitter.Meaning.{Emits, IsGeneral, encodable, mem_base-IsEncodable, i32-size_t}
use ecpps.Emitter.Copy.{
  asm_copy_register_integer, asm_copy_memory_integer, asm_copy_register, asm_copy_memory, emit_mov,
}
use ecpps.Emitter.Emits.CopyForms.{
  cast_twice8, cast_twice16, cast_twice32, low8, low16, low32, small, small_full, full_value-modulo,
  register_register, memory_register, register_memory, move_of,
}

module _ (a b : RegisterIndex) (d : ℤ) (rest : List ℕ) (size : Width) (u v : ℕ) where
  -- A move of a register to a register or an address, of an address to a register, of the immediate
  -- u to a register and of the immediate v to an address is written as that move; the immediates are
  -- the given ones, modulo the width.
  abbrev pub EmitsMove : Type 0
  EmitsMove =
      Emits (move_of size (register a) (register b))
        (Insn.move size (gpr (register_number a)) (gpr (register_number b))) rest
      × Emits (move_of size (memory b d) (register a))
          (Insn.move size (address (mem_base (register_number b) d)) (gpr (register_number a))) rest
      × Emits (move_of size (register a) (memory b d))
          (Insn.move size (gpr (register_number a)) (address (mem_base (register_number b) d))) rest
      × Emits (move_of size (register a) (integer u))
          (Insn.move_imm size (gpr (register_number a)) (full_value size u)) rest
      × Emits (move_of size (memory b d) (integer v))
          (Insn.move_imm size (address (mem_base (register_number b) d)) (full_value size v)) rest
      × (to_bits (modulus size) (full_value size u) ≡ u % modulus size)
      × (to_bits (modulus size) (full_value size v) ≡ v % modulus size)

module _ (a b : RegisterIndex) (d : ℤ) (rest : List ℕ) (a-general : IsGeneral a)
    (b-general : IsGeneral b) (d-fits : InRange (2 ^ 32) d) where
  plain_moves :
      (size : Width)
      → Emits
          (move_of size (register a) (register b))
          (Insn.move size (gpr (register_number a)) (gpr (register_number b)))
          rest
        × Emits
            (move_of size (memory b d) (register a))
            (Insn.move size (address (mem_base (register_number b) d)) (gpr (register_number a)))
            rest
        × Emits
            (move_of size (register a) (memory b d))
            (Insn.move size (gpr (register_number a)) (address (mem_base (register_number b) d)))
            rest
  unfolding emit_mov asm_copy_register asm_copy_memory generate_mov_store generate_mov_load read_imm
  plain_moves size =
      let v = mem_base-IsEncodable _ d b-general d-fits in
      (
        (
          _,
          refl,
          rw (register_register size a b) (
              decode-emit_reg size _ (register_number b) (is_byte size) rest b-general
                (register_number a) (is_byte size) a-general (store_form size)),
        ),
        (
          _,
          refl,
          rw (memory_register size a b d b-general d-fits) (
              decode-emit_mem size _ (register_number a) (is_byte size) rest a-general _
                (is_byte size) v (store_form size)),
        ),
        (
          _,
          refl,
          rw (register_memory size a b d b-general d-fits) (
              decode-emit_mem size _ (register_number a) (is_byte size) rest a-general _
                (is_byte size) v (load_form size)),
        ),
      )

  register_integer :
      (size : Width) (v : ℕ)
      → v < 2 ^ 64
      → Emits
          (asm_copy_register_integer size a v)
          (Insn.move_imm size (gpr (register_number a)) (full_value size v))
          rest
  unfolding asm_copy_register_integer
  register_integer w8 v h = (
    _,
    refl,
    rw (cast_twice8 v) at (decode-mov_imm_to_reg (register_number a) (v % 2 ^ 8) rest a-general w8),
  )
  register_integer w16 v h = (
    _,
    refl,
    rw (cast_twice16 v) at
        (decode-mov_imm_to_reg (register_number a) (v % 2 ^ 16) rest a-general w16),
  )
  register_integer w32 v h = (
    _,
    refl,
    rw (cast_twice32 v) at
        (decode-mov_imm_to_reg (register_number a) (v % 2 ^ 32) rest a-general w32),
  )
  register_integer w64 v h =
      (_, refl, decode-mov_imm_to_reg (register_number a) v rest a-general w64)

  memory_integer :
      (size : Width) (v : ℕ)
      → (size ≡ w64 → v < 2 ^ 31)
      → Emits
          (asm_copy_memory_integer size b d v)
          (Insn.move_imm size (address (mem_base (register_number b) d)) (full_value size v))
          rest
  unfolding asm_copy_memory_integer
  memory_integer w8 v h = (
    _,
    refl,
    rw (i32-size_t d d-fits, cast_twice8 v) at
        (decode-mov_imm_to_mem w8 (register_number b) (size_t d) (v % 2 ^ 8) rest b-general
          (encodable d b-general d-fits) (low8 v)),
  )
  memory_integer w16 v h = (
    _,
    refl,
    rw (i32-size_t d d-fits, cast_twice16 v) at
        (decode-mov_imm_to_mem w16 (register_number b) (size_t d) (v % 2 ^ 16) rest b-general
          (encodable d b-general d-fits) (low16 v)),
  )
  memory_integer w32 v h = (
    _,
    refl,
    rw (i32-size_t d d-fits, cast_twice32 v) at
        (decode-mov_imm_to_mem w32 (register_number b) (size_t d) (v % 2 ^ 32) rest b-general
          (encodable d b-general d-fits) (low32 v)),
  )
  memory_integer w64 v h = (
    _,
    refl,
    rw (i32-size_t d d-fits, small_full v (h refl)) at
        (decode-mov_imm_to_mem w64 (register_number b) (size_t d) (v) rest b-general
          (encodable d b-general d-fits) (small v (h refl))),
  )

  -- MOV of general registers, addresses from them and immediates writes the move asked for, at every
  -- width: of any immediate u to a register, and of an immediate v to memory that is, at 64 bits, one
  -- below 2 ^ 31.
  pub emit_mov-EmitsMove :
      (size : Width) (u v : ℕ)
      → u < 2 ^ 64
      → (size ≡ w64 → v < 2 ^ 31)
      → EmitsMove a b d rest size u v
  unfolding emit_mov asm_copy_register asm_copy_memory
  emit_mov-EmitsMove size u v h small_store =
      let (p, q, r) = plain_moves size in
      (
        p,
        q,
        r,
        register_integer size u h,
        memory_integer size v small_store,
        full_value-modulo size u,
        full_value-modulo size v,
      )
