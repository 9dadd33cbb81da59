-- ===== src/Abi/Tests.antt =====
-- The layout of concrete classes.
use ecpps.Common.{
  ℕ, ◌+◌, ◌<◌, ◌%◌, ◌≤◌, ◌≡◌, refl, ◌↔◌, true, false, none, some, List, [], ◌∷◌, All, length, arith,
}
use ecpps.Abi.{MemberLayoutInput, ClassLayoutResult, layout_class}
use ecpps.Abi.Struct.{InOrder, layout_class-InOrder}
use ecpps.Abi.Union.{layout_class-union}
use ecpps.Abi.Failure.{has_zero, layout_class-none}

-- char, long long, short
abbrev members : List MemberLayoutInput
members =
    record { size = 1; alignment = 1 }
    ∷ record { size = 8; alignment = 8 }
    ∷ record { size = 2; alignment = 2 }
    ∷ []

struct_layout :
    layout_class false members
    ≡ some (record { size = 24; alignment = 8; offsets = 0 ∷ 8 ∷ 16 ∷ [] })
unfolding layout_class
struct_layout = refl

layout_class-InOrder_example :
    ((r : ClassLayoutResult) × (end : ℕ) × (layout_class false members ≡ some r)
      × InOrder 0 members r.offsets end
      × (r.alignment ≡ 8)
      × (end ≤ r.size)
      × (r.size < end + r.alignment)
      × (r.size % r.alignment ≡ 0))
    × (layout_class false [] ≡ some (record { size = 1; alignment = 1; offsets = [] }))
layout_class-InOrder_example =
    layout_class-InOrder (record { size = 1; alignment = 1 })
      (record { size = 8; alignment = 8 } ∷ record { size = 2; alignment = 2 } ∷ []) (omega arith)
      (omega arith)

layout_class-union_example :
    (r : ClassLayoutResult) × (layout_class true members ≡ some r)
    × All (λ o. o ≡ 0) r.offsets
    × (length r.offsets ≡ 3)
    × (r.alignment ≡ 8)
    × (8 ≤ r.size)
    × (r.size < 8 + r.alignment)
    × (r.size % r.alignment ≡ 0)
layout_class-union_example =
    layout_class-union (record { size = 1; alignment = 1 })
      (record { size = 8; alignment = 8 } ∷ record { size = 2; alignment = 2 } ∷ []) (omega arith)
      (omega arith)

layout_class-none_example :
    (layout_class true (record { size = 4; alignment = 0 } ∷ members) ≡ none)
    ↔ (has_zero (record { size = 4; alignment = 0 } ∷ members) ≡ true)
layout_class-none_example = layout_class-none true (record { size = 4; alignment = 0 } ∷ members)
