-- ===== src/Emitter/Routine.antt =====
-- CodeGeneration/Emitters/x86_64/operations/jmp.cpp, and the loop over the jumps in
-- X8664Emitter::PatchCalls (x86_64.cpp): jumps are written with no distance and patched at the end.
use ecpps.Common.{
  ℕ, zero, suc, ◌+◌, ◌-◌, ◌%◌, ◌/◌, ◌^◌, Option, none, some, List, [], ◌∷◌, ◌++◌, length, leb, not,
  ◌==◌, if◌then◌else◌,
}
use ecpps.Common.Int.{ℤ, pos, negsuc, to_bits}
use ecpps.Opcodes.Operands.{Condition}
use ecpps.Opcodes.Generators.Control.{generate_jmp_rel32, generate_jcc_rel32}
use ecpps.Emitter.Operands.{
  Outcome, returned, thrown, and_then, assertion_failed, ConditionCode, JmpInstruction,
  LabelInstruction, JccInstruction,
}

pub record JumpPatch : Type 0 where
  pub instruction_offset : ℕ
  pub length_of : ℕ
  pub label_id : ℕ

-- The members of X8664Emitter that jumps and labels change; the map of the labels is a list of pairs.
pub record JumpState : Type 0 where
  pub current_instruction_base : ℕ
  pub jump_patches : List JumpPatch
  pub label_offsets : List (ℕ × ℕ)

abbrev pub find : List (ℕ × ℕ) → ℕ → Option ℕ
find [] key = none
find ((k, v) ∷ entries) key = if k == key then some v else find entries key

abbrev pub condition : ConditionCode → Condition
condition ConditionCode.equal = Condition.equal
condition ConditionCode.not_equal = Condition.not_equal
condition ConditionCode.less = Condition.less
condition ConditionCode.less_equal = Condition.less_or_equal
condition ConditionCode.greater = Condition.greater
condition ConditionCode.greater_equal = Condition.greater_or_equal
condition ConditionCode.below = Condition.below
condition ConditionCode.below_equal = Condition.below_or_equal
condition ConditionCode.above = Condition.above
condition ConditionCode.above_equal = Condition.above_or_equal

abbrev pub add_patch : JumpState → ℕ → ℕ → JumpState
add_patch s size label = record s {
  jump_patches =
      s.jump_patches
      ++ (record {
        instruction_offset = s.current_instruction_base;
        length_of = size;
        label_id = label;
      }
          ∷ []);
}

unfoldable pub emit_label : JumpState → LabelInstruction → Outcome (List ℕ × JumpState)
emit_label s label = elim (find s.label_offsets label.label_id) [
  | some offset ↦ thrown assertion_failed
  | none ↦ returned (
    [],
    record s { label_offsets = (label.label_id, s.current_instruction_base) ∷ s.label_offsets },
  )
]

unfoldable pub emit_jmp : JumpState → JmpInstruction → Outcome (List ℕ × JumpState)
emit_jmp s jmp =
    let bytes = generate_jmp_rel32 (pos 0) in
    returned (bytes, add_patch s (length bytes) jmp.label_id)

unfoldable pub emit_jcc : JumpState → JccInstruction → Outcome (List ℕ × JumpState)
emit_jcc s jcc =
    let bytes = generate_jcc_rel32 (condition jcc.condition) (pos 0) in
    returned (bytes, add_patch s (length bytes) jcc.label_id)

-- std::memcpy of bytes into the instructions, at a place inside them.
abbrev pub overwrite : ℕ → List ℕ → List ℕ → List ℕ
overwrite zero [] bytes = bytes
overwrite zero (x ∷ xs) [] = []
overwrite zero (x ∷ xs) (b ∷ bytes) = x ∷ overwrite zero xs bytes
overwrite (suc n) xs [] = []
overwrite (suc n) xs (b ∷ bytes) = b ∷ overwrite n xs bytes

-- The object representation of a std::int32_t.
abbrev pub int32_bytes : ℤ → List ℕ
int32_bytes z =
    let v = to_bits (2 ^ 32) z in
    v % 2 ^ 8 ∷ v / 2 ^ 8 % 2 ^ 8 ∷ v / 2 ^ 16 % 2 ^ 8 ∷ v / 2 ^ 24 % 2 ^ 8 ∷ []

-- a - b
abbrev pub minus : ℕ → ℕ → ℤ
minus a b = if leb b a then pos (a - b) else negsuc (b - a - 1)

-- What is found for the label, the end of the jump and the instructions.
unfoldable pub patch_at : Option ℕ → ℕ → List ℕ → Outcome (List ℕ)
patch_at none end instructions = thrown assertion_failed
patch_at (some label) end instructions =
    if not (leb end (length instructions))
    then thrown assertion_failed
    else returned (overwrite (end - 4) (int32_bytes (minus label end)) instructions)

-- One round of the loop over the patches.
unfoldable pub patch_jump : List (ℕ × ℕ) → JumpPatch → List ℕ → Outcome (List ℕ)
patch_jump labels patch instructions =
    patch_at (find labels patch.label_id) (patch.instruction_offset + patch.length_of) instructions

unfoldable pub patch_jumps : List (ℕ × ℕ) → List JumpPatch → List ℕ → Outcome (List ℕ)
patch_jumps labels [] instructions = returned instructions
patch_jumps labels (patch ∷ patches) instructions =
    and_then (patch_jump labels patch instructions) (λ patched. patch_jumps labels patches patched)
