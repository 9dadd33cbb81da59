-- ===== src/Abi/Union.antt =====
-- The layout of a union: every member at 0, and room for the largest.
use ecpps.Abi.{
  align_up, MemberLayoutInput, ClassLayoutResult, LayoutState, layout_members, layout_class, start,
}
use ecpps.Abi.Struct.{HasAlignments, greatest_alignment, align_up_lem}
use ecpps.Common.{
  ℕ, ◌+◌, ◌%◌, ◌^◌, ◌≤◌, ◌<◌, max, ◌≡◌, refl, sym, ◌∙◌, true, false, some, List, [], ◌∷◌, ◌++◌,
  append_assoc, append-nil, All, arith, ◌==◌, length,
}

abbrev pub greatest_size : List MemberLayoutInput → ℕ
greatest_size [] = 0
greatest_size (m ∷ ms) = max m.size (greatest_size ms)

record Laid (ms : List MemberLayoutInput) (a off : ℕ) (acc : List ℕ) (s : LayoutState)
    : Type 0 where
  os : List ℕ
  appended : s.offsets ≡ acc ++ os
  at_zero : All (λ o. o ≡ 0) os
  each : length os ≡ length ms
  largest : s.offset ≡ max off (greatest_size ms)
  greatest : s.alignment ≡ max a (greatest_alignment ms)

layout_union :
    (ms : List MemberLayoutInput) (s : LayoutState)
    → HasAlignments ms
    → (t : LayoutState) × (layout_members true ms s ≡ some t)
      × Laid ms s.alignment s.offset s.offsets t
unfolding layout_members
layout_union [] s h = (
  s,
  refl,
  record {
    os = [];
    appended = sym (append-nil s.offsets);
    at_zero = tt;
    each = refl;
    largest = omega arith;
    greatest = omega arith;
  },
)
layout_union (m ∷ ms) s (h, hs) =
    let s' : LayoutState = record {
      alignment = max s.alignment m.alignment;
      offset = max s.offset m.size;
      offsets = s.offsets ++ (0 ∷ []);
    } in
    let nonzero : (m.alignment == 0) ≡ false = ground arith in
    let (t, e, laid) = layout_union ms s' hs in
    (
      t,
      rw nonzero e,
      record {
        os = 0 ∷ laid.os;
        appended = laid.appended ∙ append_assoc s.offsets (0 ∷ []) laid.os;
        at_zero = (refl, laid.at_zero);
        each = omega (arith, laid.each);
        largest = omega (arith, laid.largest);
        greatest = omega (arith, laid.greatest);
      },
    )

-- A union with members, all of which have alignments, where the greatest size and the greatest
-- alignment add up to less than 2 ^ 64, is laid out with every member at 0; its alignment is the
-- greatest one of a member, and its size the first multiple of this from the greatest size on.
pub layout_class-union :
    (m : MemberLayoutInput) (ms : List MemberLayoutInput)
    → HasAlignments (m ∷ ms)
    → greatest_size (m ∷ ms) + greatest_alignment (m ∷ ms) < 2 ^ 64
    → (r : ClassLayoutResult) × (layout_class true (m ∷ ms) ≡ some r)
      × All (λ o. o ≡ 0) r.offsets
      × (length r.offsets ≡ length (m ∷ ms))
      × (r.alignment ≡ greatest_alignment (m ∷ ms))
      × (greatest_size (m ∷ ms) ≤ r.size)
      × (r.size < greatest_size (m ∷ ms) + r.alignment)
      × (r.size % r.alignment ≡ 0)
unfolding layout_class
layout_class-union m ms h fits =
    let (t, e, laid) = layout_union (m ∷ ms) start h in
    let positive : 0 < m.alignment = h.0 in
    let greatest : t.alignment ≡ greatest_alignment (m ∷ ms) =
      omega (arith, laid.greatest, positive) in
    let (lo, hi, aligned) =
      align_up_lem t.offset t.alignment (omega (arith, greatest, positive))
        (omega (arith, laid.largest, greatest)) in
    (
      record { size = align_up t.offset t.alignment; alignment = t.alignment; offsets = t.offsets },
      rw e,
      rw (laid.appended) laid.at_zero,
      rw (laid.appended) laid.each,
      greatest,
      omega (arith, lo, laid.largest),
      omega (arith, hi, laid.largest),
      aligned,
    )
