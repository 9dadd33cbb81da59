-- ===== src/Emitter/Jumps.antt =====
-- A jump that EmitJmp or EmitJcc writes with no distance reaches its label when it has been patched.
use ecpps.Common.{
  ℕ, zero, suc, ◌+◌, ◌-◌, ◌^◌, ◌≡◌, refl, ap, true, some, List, [], ◌∷◌, ◌++◌, length,
  length-append, leb, arith,
}
use ecpps.Common.Bits.{bit_and_255}
use ecpps.Common.Int.{ℤ, pos, InRange}
use ecpps.Opcodes.Operands.{Width, Condition}
use ecpps.Opcodes.Immediates.{modulus}
use ecpps.Emitter.Conditions.{holds, flags_of_cmp, compares, condition-compares}
use ecpps.Common.{◌<◌, Bool}
use ecpps.Opcodes.Emit.{put, put_seq, put_imm}
use ecpps.Opcodes.Decoder.{decode}
use ecpps.Opcodes.Decoder.Instructions.{Insn}
use ecpps.Opcodes.Decodes.Control.{decode-near_jump}
use ecpps.Opcodes.Fixed.Shapes.{byte_eq, to_bits-word}
use ecpps.Opcodes.Generators.Control.{generate_jmp_rel32, generate_jcc_rel32}
use ecpps.Emitter.Operands.{Outcome, returned, ConditionCode}
use ecpps.Emitter.Routine.{
  JumpPatch, JumpState, find, condition, emit_jmp, emit_jcc, overwrite, int32_bytes, minus,
  patch_at, patch_jump,
}

int32_bytes-put_imm : (z : ℤ) → put_imm z 4 ≡ int32_bytes z
unfolding put_imm
int32_bytes-put_imm z =
    let word = to_bits-word z in
    simp bit_and_255 (
      byte_eq (omega arith)
        (byte_eq (omega arith) (byte_eq (omega arith) (byte_eq (omega arith) refl))))

-- What stands before the place is left alone.
overwrite-append :
    (before xs ys : List ℕ) (k n : ℕ)
    → k ≡ length before + n
    → overwrite k xs (before ++ ys) ≡ before ++ overwrite n xs ys
overwrite-append [] xs ys k n h = let same : k ≡ n = omega arith in rw same refl
overwrite-append (b ∷ before) xs ys zero n h = absurd (omega arith)
overwrite-append (b ∷ before) xs ys (suc k) n h =
    ap (λ rest. b ∷ rest) (overwrite-append before xs ys k n (omega arith))

module _ (labels : List (ℕ × ℕ)) (patch : JumpPatch) (before bytes patched after : List ℕ)
    (target n : ℕ) (found : find labels patch.label_id ≡ some target)
    (here : patch.instruction_offset ≡ length before) (long : patch.length_of ≡ n + 4)
    (exact : length bytes ≡ n + 4) where
  patch_jump-overwrite :
      overwrite n (int32_bytes (minus target (length before + (n + 4)))) (bytes ++ after)
        ≡ patched ++ after
      → patch_jump labels patch (before ++ (bytes ++ after))
        ≡ returned (before ++ (patched ++ after))
  unfolding patch_jump patch_at
  patch_jump-overwrite same =
      let len = length-append before (bytes ++ after) in
      let len' = length-append bytes after in
      let inside : leb (length before + (n + 4)) (length (before ++ (bytes ++ after))) ≡ true =
        ground arith in
      let place : length before + (n + 4) - 4 ≡ length before + n = omega arith in
      rw
        (
          found,
          here,
          long,
          inside,
          place,
          overwrite-append before _ (bytes ++ after) _ n refl,
          same,
        )
        refl

length-generate_jmp_rel32 : (z : ℤ) → length (generate_jmp_rel32 z) ≡ 5
unfolding generate_jmp_rel32 put put_imm
length-generate_jmp_rel32 z = refl

length-generate_jcc_rel32 : (cc : Condition) (z : ℤ) → length (generate_jcc_rel32 cc z) ≡ 6
unfolding generate_jcc_rel32 put_seq put put_imm
length-generate_jcc_rel32 cc z = refl

overwrite-generate_jmp_rel32 :
    (z : ℤ) (after : List ℕ)
    → overwrite 1 (int32_bytes z) (generate_jmp_rel32 (pos 0) ++ after)
      ≡ generate_jmp_rel32 z ++ after
unfolding generate_jmp_rel32 put
overwrite-generate_jmp_rel32 z after = rw (int32_bytes-put_imm z, int32_bytes-put_imm (pos 0)) refl

overwrite-generate_jcc_rel32 :
    (cc : Condition) (z : ℤ) (after : List ℕ)
    → overwrite 2 (int32_bytes z) (generate_jcc_rel32 cc (pos 0) ++ after)
      ≡ generate_jcc_rel32 cc z ++ after
unfolding generate_jcc_rel32 put_seq put
overwrite-generate_jcc_rel32 cc z after =
    rw (int32_bytes-put_imm z, int32_bytes-put_imm (pos 0)) refl

module _ (outcome : Outcome (List ℕ × JumpState)) (s : JumpState) (labels : List (ℕ × ℕ))
    (label target : ℕ) (before after : List ℕ) (insn : ℤ → Insn) (n : ℕ) where
  -- The call returns a jump of n bytes and records one patch for it, and the patch changes these bytes
  -- only: behind what was emitted before, they are read as a jump whose distance, from the end of the
  -- jump, is that of the label.
  abbrev pub JumpReaches : Type 0
  JumpReaches =
      (bytes : List ℕ) × (patch : JumpPatch) × (patched : List ℕ) × (outcome
        ≡ returned (bytes, record s { jump_patches = s.jump_patches ++ (patch ∷ []) }))
      × (length bytes ≡ n)
      × (patch_jump labels patch (before ++ (bytes ++ after))
          ≡ returned (before ++ (patched ++ after)))
      × (decode (patched ++ after) ≡ some (insn (minus target (length before + n)), after))

module _ (s : JumpState) (labels : List (ℕ × ℕ)) (label target : ℕ) (before after : List ℕ)
    (found : find labels label ≡ some target)
    (here : s.current_instruction_base ≡ length before) where
  -- A jump and a conditional jump, emitted behind `before` and patched when the label stands at
  -- `target`, at a distance in 32 bits, reach the label; the rest of the code is unchanged. The
  -- processor's condition of the second is one that holds after CMP of two words exactly where the
  -- comparison asked for does.
  pub emit_jmp-JumpReaches :
      (cc : ConditionCode)
      → InRange (2 ^ 32) (minus target (length before + 5))
      → InRange (2 ^ 32) (minus target (length before + 6))
      → JumpReaches
          (emit_jmp s record { label_id = label })
          s
          labels
          label
          target
          before
          after
          Insn.jump
          5
        × ((c : Condition) × JumpReaches
              (emit_jcc s record { condition = cc; label_id = label })
              s
              labels
              label
              target
              before
              after
              (Insn.jump_if c)
              6
            × ((size : Width) (parity : Bool) (x y : ℕ)
                → x < modulus size
                → y < modulus size
                → holds c (flags_of_cmp (modulus size) parity x y)
                  ≡ compares cc (modulus size) x y))
  unfolding emit_jmp emit_jcc
  emit_jmp-JumpReaches cc near near' =
      let (j, _, _, _) =
        decode-near_jump (condition cc) (minus target (length before + 5)) after near in
      let (_, c, _, _) =
        decode-near_jump (condition cc) (minus target (length before + 6)) after near' in
      (
        (
          generate_jmp_rel32 (pos 0),
          record {
            instruction_offset = s.current_instruction_base;
            length_of = 5;
            label_id = label;
          },
          generate_jmp_rel32 (minus target (length before + 5)),
          rw (length-generate_jmp_rel32 (pos 0)) refl,
          length-generate_jmp_rel32 (pos 0),
          patch_jump-overwrite labels _ before _ _ after target 1 found here refl
              (length-generate_jmp_rel32 (pos 0)) (overwrite-generate_jmp_rel32 _ after),
          j,
        ),
        (
          condition cc,
          (
            generate_jcc_rel32 (condition cc) (pos 0),
            record {
              instruction_offset = s.current_instruction_base;
              length_of = 6;
              label_id = label;
            },
            generate_jcc_rel32 (condition cc) (minus target (length before + 6)),
            rw (length-generate_jcc_rel32 (condition cc) (pos 0)) refl,
            length-generate_jcc_rel32 (condition cc) (pos 0),
            patch_jump-overwrite labels _ before _ _ after target 2 found here refl
                (length-generate_jcc_rel32 (condition cc) (pos 0))
                (overwrite-generate_jcc_rel32 (condition cc) _ after),
            c,
          ),
          λ size parity x y lx ly. condition-compares size parity cc x y lx ly,
        ),
      )
