-- ===== src/Abi.antt =====
-- compiler/ecpps/src/Machine/ABI.cpp: the layout of a class, ABI::LayoutClass. Sizes and offsets are
-- std::size_t, whose sums wrap at 2 ^ 64. A failed `runtime_assert` ends a debug build; it is `none`.
pub mod Struct
pub mod Union
pub mod Failure
mod Tests
use ecpps.Common.{
  ℕ, ◌+◌, ◌-◌, ◌*◌, ◌/◌, ◌%◌, ◌^◌, max, Bool, Option, none, some, List, [], ◌∷◌, ◌++◌, ◌==◌,
  if◌then◌else◌, ◌>>=◌,
}

-- std::size_t addition
abbrev pub add_size : ℕ → ℕ → ℕ
add_size a b = (a + b) % 2 ^ 64

-- `value + alignment - 1`, at an alignment that is not 0.
unfoldable pub align_up : ℕ → ℕ → ℕ
align_up value alignment = (add_size value alignment + 2 ^ 64 - 1) % 2 ^ 64 / alignment * alignment

pub record MemberLayoutInput : Type 0 where
  pub size : ℕ
  pub alignment : ℕ

pub record ClassLayoutResult : Type 0 where
  pub size : ℕ
  pub alignment : ℕ
  pub offsets : List ℕ

-- The loop's state: `result.alignment`, `offset` and `result.offsets`.
pub record LayoutState : Type 0 where
  pub alignment : ℕ
  pub offset : ℕ
  pub offsets : List ℕ

-- One round of the loop.
unfoldable pub layout_member : Bool → MemberLayoutInput → LayoutState → Option LayoutState
unfolding align_up
layout_member is_union m s =
    let alignment = max s.alignment m.alignment in
    let offset = align_up s.offset m.alignment in
    if m.alignment == 0
    then none
    else if is_union
    then some (record {
      alignment = alignment;
      offset = max s.offset m.size;
      offsets = s.offsets ++ (0 ∷ []);
    })
    else some (record {
      alignment = alignment;
      offset = add_size offset m.size;
      offsets = s.offsets ++ (offset ∷ []);
    })

unfoldable pub layout_members : Bool → List MemberLayoutInput → LayoutState → Option LayoutState
unfolding layout_member
layout_members is_union [] s = some s
layout_members is_union (m ∷ ms) s = do
  s' ← layout_member is_union m s
  layout_members is_union ms s'

abbrev pub start : LayoutState
start = record { alignment = 1; offset = 0; offsets = [] }

abbrev pub is_empty : List MemberLayoutInput → Bool
is_empty [] = Bool.true
is_empty (m ∷ ms) = Bool.false

unfoldable pub layout_class : Bool → List MemberLayoutInput → Option ClassLayoutResult
unfolding layout_members align_up
layout_class is_union members = do
  s ← layout_members is_union members start
  some (record {
    size = if is_empty members then 1 else align_up s.offset s.alignment;
    alignment = s.alignment;
    offsets = s.offsets;
  })
