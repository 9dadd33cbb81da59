-- ===== src/SboVector/Tests.antt =====
-- Runs of SBOVector.h at 32-bit sizes and elements of 4 bytes, two of them inline.
use ecpps.SboVector.{
  Parameters, max_size, inline_storage, heap, SboVector, filled, release_all, reserve, emplace_back,
  pop_back, back, at, copy_assign, move_assign,
}
use ecpps.SboVector.Block.{done, ok, length_error, construct_at, relocate_n}
use ecpps.SboVector.Init.{IsValid, Represents, filled-Represents, release_all-Represents}
use ecpps.SboVector.Access.{pop_back-Represents}
use ecpps.SboVector.Growth.{reserve-Represents, emplace_back-Represents}
use ecpps.SboVector.Assign.{assign-Represents}
use ecpps.Common.{
  ℕ, ◌*◌, ◌≤◌, ◌<◌, min, ◌≡◌, refl, some, none, List, [], ◌∷◌, length, get_elem?, arith,
}

abbrev small : Parameters
small = record { size_bits = 32; element_size = 4; inline_capacity = 2 }

abbrev two_elements : List ℕ
two_elements = 7 ∷ 9 ∷ []

small-IsValid : IsValid small
small-IsValid = (omega arith, omega arith)

-- A full vector on its inline storage, and one with a free slot on the heap.
abbrev two : SboVector ℕ
two = record { storage = inline_storage (some 7 ∷ some 9 ∷ []); size = 2; capacity = 2 }

abbrev three : SboVector ℕ
three = record { storage = heap (some 1 ∷ some 2 ∷ some 3 ∷ none ∷ []); size = 3; capacity = 4 }

two-Represents : Represents small two (7 ∷ 9 ∷ [])
two-Represents = record {
  room = 0;
  slots = refl;
  size_is = refl;
  full_at = omega arith;
  no_less = omega arith;
  no_more = omega arith;
}

three-Represents : Represents small three (1 ∷ 2 ∷ 3 ∷ [])
three-Represents = record {
  room = 1;
  slots = refl;
  size_is = refl;
  full_at = omega arith;
  no_less = omega arith;
  no_more = omega arith;
}

-- A push to the full inline vector moves it to a heap block of twice the capacity.
push_to_heap :
    emplace_back small two 5
    ≡ ok (record { storage = heap (some 7 ∷ some 9 ∷ some 5 ∷ none ∷ []); size = 3; capacity = 4 })
unfolding emplace_back construct_at relocate_n
push_to_heap = refl

filled-Represents_example :
    (3 ≤ max_size small
      → (v : SboVector ℕ) × (filled {A = ℕ} small 3 8 ≡ ok v) × Represents small v (8 ∷ 8 ∷ 8 ∷ []))
    × (max_size small < 3 → filled {A = ℕ} small 3 8 ≡ length_error)
filled-Represents_example = filled-Represents small small-IsValid 3 8

release_all-Represents_example :
    (w : SboVector ℕ) × (release_all small three ≡ done (4 ∷ []) w)
    × Represents small w []
    × (w.capacity ≡ 2)
release_all-Represents_example =
    release_all-Represents small small-IsValid three (1 ∷ 2 ∷ 3 ∷ []) three-Represents

pop_back-Represents_example :
    (back small three ≡ ok 3)
    × ((i y : ℕ) → get_elem? (1 ∷ 2 ∷ 3 ∷ []) i ≡ some y → at small three i ≡ ok y)
    × ((w : SboVector ℕ) × (pop_back small three ≡ ok w) × Represents small w (1 ∷ 2 ∷ []))
pop_back-Represents_example =
    pop_back-Represents small small-IsValid three (1 ∷ 2 ∷ []) 3 three-Represents

reserve-Represents_example :
    (9 ≤ max_size small
      → (w : SboVector ℕ) × (reserve small two 9 ≡ done [] w)
        × Represents small w (7 ∷ 9 ∷ [])
        × (9 ≤ w.capacity))
    × (max_size small < 9 → reserve small two 9 ≡ length_error)
reserve-Represents_example =
    reserve-Represents small small-IsValid two (7 ∷ 9 ∷ []) 9 two-Represents

emplace_back-Represents_example :
    (2 < max_size small
      → (w : SboVector ℕ) × (emplace_back small two 5 ≡ done [] w)
        × Represents small w (7 ∷ 9 ∷ 5 ∷ [])
        × (length two_elements ≡ 2 → min (2 * 2) (max_size small) ≤ w.capacity))
    × (length two_elements ≡ max_size small → emplace_back small two 5 ≡ length_error)
emplace_back-Represents_example =
    emplace_back-Represents small small-IsValid two (7 ∷ 9 ∷ []) 5 two-Represents

assign-Represents_example :
    ((w : SboVector ℕ) × (copy_assign small two three ≡ done [] w)
      × Represents small w (1 ∷ 2 ∷ 3 ∷ []))
    × ((w o : SboVector ℕ) × (move_assign small two three ≡ done [] (w, o))
        × Represents small w (1 ∷ 2 ∷ 3 ∷ [])
        × Represents small o [])
assign-Represents_example =
    assign-Represents small small-IsValid two three (7 ∷ 9 ∷ []) (1 ∷ 2 ∷ 3 ∷ []) two-Represents
      three-Represents
