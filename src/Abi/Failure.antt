-- ===== src/Abi/Failure.antt =====
-- When the layout fails.
use ecpps.Abi.{
  add_size, align_up, MemberLayoutInput, LayoutState, layout_members, layout_class, start,
}
use ecpps.Common.{
  max, ◌≡◌, Bool, true, false, none, List, [], ◌∷◌, ◌++◌, arith, ◌==◌, ◌||◌, ◌≢◌, ◌↔◌, Bool-cases,
  inl, inr,
}

abbrev pub has_zero : List MemberLayoutInput → Bool
has_zero [] = false
has_zero (m ∷ ms) = m.alignment == 0 || has_zero ms

layout_members-none :
    (is_union : Bool) (ms : List MemberLayoutInput) (s : LayoutState)
    → has_zero ms ≡ true
    → layout_members is_union ms s ≡ none
unfolding layout_members
layout_members-none is_union [] s h = cc
layout_members-none true (m ∷ ms) s h = ground (
  arith,
  layout_members-none true ms (record {
    alignment = max s.alignment m.alignment;
    offset = max s.offset m.size;
    offsets = s.offsets ++ (0 ∷ []);
  }),
)
layout_members-none false (m ∷ ms) s h = ground (
  arith,
  layout_members-none false ms (record {
    alignment = max s.alignment m.alignment;
    offset = add_size (align_up s.offset m.alignment) m.size;
    offsets = s.offsets ++ (align_up s.offset m.alignment ∷ []);
  }),
)

layout_members-some :
    (is_union : Bool) (ms : List MemberLayoutInput) (s : LayoutState)
    → has_zero ms ≡ false
    → layout_members is_union ms s ≢ none
unfolding layout_members
layout_members-some is_union [] s h = λ e. cc e
layout_members-some true (m ∷ ms) s h = ground (
  arith,
  layout_members-some true ms (record {
    alignment = max s.alignment m.alignment;
    offset = max s.offset m.size;
    offsets = s.offsets ++ (0 ∷ []);
  }),
)
layout_members-some false (m ∷ ms) s h = ground (
  arith,
  layout_members-some false ms (record {
    alignment = max s.alignment m.alignment;
    offset = add_size (align_up s.offset m.alignment) m.size;
    offsets = s.offsets ++ (align_up s.offset m.alignment ∷ []);
  }),
)

-- The layout fails exactly when a member has alignment 0, wherever it stands in the list, for a
-- union and for any other class.
pub layout_class-none :
    (is_union : Bool) (members : List MemberLayoutInput)
    → (layout_class is_union members ≡ none) ↔ (has_zero members ≡ true)
unfolding layout_class
layout_class-none is_union members = (fails, λ h. rw (layout_members-none is_union members start h))
  where
    fails : layout_class is_union members ≡ none → has_zero members ≡ true
    fails e = elim (Bool-cases (has_zero members)) [
      | inl h ↦ h
      | inr h ↦ absurd (layout_members-some is_union members start h (ground arith))
    ]
