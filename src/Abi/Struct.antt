-- ===== src/Abi/Struct.antt =====
-- The layout of a class that is no union: aligned members in order, none over another.
use ecpps.Abi.{
  add_size, align_up, MemberLayoutInput, ClassLayoutResult, LayoutState, layout_member,
  layout_members, layout_class, start,
}
use ecpps.Common.{
  ℕ, ◌+◌, ◌-◌, ◌/◌, ◌%◌, ◌^◌, ◌≤◌, ◌<◌, max, ◌≡◌, refl, sym, ◌∙◌, false, some, List, [], ◌∷◌, ◌++◌,
  append_assoc, append-nil, All, arith, ◌==◌,
}
use native.Mathlib.Nat.{div-add-mod', mod-lt, mul-mod_left, mod-eq_of_lt}

-- A bound on the bytes that the members take, with the gaps before them.
abbrev pub room : List MemberLayoutInput → ℕ
room [] = 0
room (m ∷ ms) = m.size + m.alignment + room ms

abbrev pub greatest_alignment : List MemberLayoutInput → ℕ
greatest_alignment [] = 0
greatest_alignment (m ∷ ms) = max m.alignment (greatest_alignment ms)

abbrev pub HasAlignments : List MemberLayoutInput → Type 0
HasAlignments = All (λ m. 0 < m.alignment)

-- The members lie one behind the other from `from` to `to`, each at the first multiple of its
-- alignment that is not before the end of the member before it.
abbrev pub InOrder : ℕ → List MemberLayoutInput → List ℕ → ℕ → Type 0
InOrder from [] [] to = from ≡ to
InOrder from [] (o ∷ os) to = ⊥
InOrder from (m ∷ ms) [] to = ⊥
InOrder from (m ∷ ms) (o ∷ os) to =
    (from ≤ o) × (o < from + m.alignment) × (o % m.alignment ≡ 0) × InOrder (o + m.size) ms os to

-- Where nothing wraps, AlignUp gives the next multiple.
pub align_up_lem :
    (v a : ℕ)
    → 0 < a
    → v + a < 2 ^ 64
    → (v ≤ align_up v a) × (align_up v a < v + a) × (align_up v a % a ≡ 0)
unfolding align_up
align_up_lem v a h fits =
    let e : (add_size v a + 2 ^ 64 - 1) % 2 ^ 64 ≡ v + a - 1 = omega arith in
    let d = div-add-mod' (v + a - 1) a in
    let r = mod-lt (v + a - 1) {m = a} h in
    rw e (omega (arith, d, r), omega (arith, d, r), mul-mod_left ((v + a - 1) / a) a)

-- What the loop gives from the state (`a`, `off`, `acc`).
record Laid (ms : List MemberLayoutInput) (a off : ℕ) (acc : List ℕ) (s : LayoutState)
    : Type 0 where
  os : List ℕ
  appended : s.offsets ≡ acc ++ os
  ordered : InOrder off ms os s.offset
  end_bound : s.offset ≤ off + room ms
  greatest : s.alignment ≡ max a (greatest_alignment ms)

step_struct :
    (m : MemberLayoutInput) (s : LayoutState)
    → 0 < m.alignment
    → s.offset + m.size + m.alignment < 2 ^ 64
    → layout_member false m s
      ≡ some (record {
        alignment = max s.alignment m.alignment;
        offset = align_up s.offset m.alignment + m.size;
        offsets = s.offsets ++ (align_up s.offset m.alignment ∷ []);
      })
unfolding layout_member
step_struct m s h fits =
    let nonzero : (m.alignment == 0) ≡ false = ground arith in
    let (lo, hi, _) = align_up_lem s.offset m.alignment h (omega arith) in
    rw (
      nonzero,
      mod-eq_of_lt {n = align_up s.offset m.alignment + m.size} {m = 2 ^ 64} (omega arith),
    )

layout_struct :
    (ms : List MemberLayoutInput) (s : LayoutState)
    → HasAlignments ms
    → s.offset + room ms < 2 ^ 64
    → (t : LayoutState) × (layout_members false ms s ≡ some t)
      × Laid ms s.alignment s.offset s.offsets t
unfolding layout_members
layout_struct [] s h fits = (
  s,
  refl,
  record {
    os = [];
    appended = sym (append-nil s.offsets);
    ordered = refl;
    end_bound = omega arith;
    greatest = omega arith;
  },
)
layout_struct (m ∷ ms) s (h, hs) fits =
    let o = align_up s.offset m.alignment in
    let (lo, hi, aligned) = align_up_lem s.offset m.alignment h (omega arith) in
    let s' : LayoutState = record {
      alignment = max s.alignment m.alignment;
      offset = o + m.size;
      offsets = s.offsets ++ (o ∷ []);
    } in
    let (t, e, laid) = layout_struct ms s' hs (omega arith) in
    (
      t,
      rw (step_struct m s h (omega arith)) e,
      record {
        os = o ∷ laid.os;
        appended = laid.appended ∙ append_assoc s.offsets (o ∷ []) laid.os;
        ordered = (lo, hi, aligned, laid.ordered);
        end_bound = omega (arith, laid.end_bound);
        greatest = omega (arith, laid.greatest);
      },
    )

-- A class with members, all of which have alignments, where the sum of their sizes and alignments and
-- the greatest alignment is below 2 ^ 64, is laid out: each member stands at the first multiple of its
-- alignment behind the member before it; the alignment of the class is the greatest one of a member,
-- and its size is the first multiple of this that is not before the end of the last member. A class
-- with no members has size and alignment 1.
pub layout_class-InOrder :
    (m : MemberLayoutInput) (ms : List MemberLayoutInput)
    → HasAlignments (m ∷ ms)
    → room (m ∷ ms) + greatest_alignment (m ∷ ms) < 2 ^ 64
    → ((r : ClassLayoutResult) × (end : ℕ) × (layout_class false (m ∷ ms) ≡ some r)
        × InOrder 0 (m ∷ ms) r.offsets end
        × (r.alignment ≡ greatest_alignment (m ∷ ms))
        × (end ≤ r.size)
        × (r.size < end + r.alignment)
        × (r.size % r.alignment ≡ 0))
      × (layout_class false [] ≡ some (record { size = 1; alignment = 1; offsets = [] }))
unfolding layout_class layout_members
layout_class-InOrder m ms h fits =
    let (t, e, laid) = layout_struct (m ∷ ms) start h (omega arith) in
    let positive : 0 < m.alignment = h.0 in
    let greatest : t.alignment ≡ greatest_alignment (m ∷ ms) =
      omega (arith, laid.greatest, positive) in
    let (lo, hi, aligned) =
      align_up_lem t.offset t.alignment (omega (arith, greatest, positive))
        (omega (arith, laid.end_bound, greatest)) in
    (
      (
        record {
          size = align_up t.offset t.alignment;
          alignment = t.alignment;
          offsets = t.offsets;
        },
        t.offset,
        rw e,
        rw (laid.appended) (laid.ordered),
        greatest,
        lo,
        hi,
        aligned,
      ),
      refl,
    )
