-- ===== src/SboVector/Growth.antt =====
-- SBOVector.h: Reserve and EmplaceBack, in place and through a new block.
use ecpps.SboVector.{
  Parameters, max_size, to_size, heap, SboVector, is_inline, owned, data_of, store, free, grow_to,
  reserve, next_capacity, emplace_back, emplace_back_fast, emplace_back_slow,
}
use ecpps.SboVector.Block.{done, ok, length_error, allocate}
use ecpps.SboVector.Slots.{
  live, length-snoc, deallocate-allocate, allocate-add, live-snoc, construct_at-live,
  construct_at-raw, relocate_n-live,
}
use ecpps.Common.{
  ℕ, suc, ◌+◌, ◌-◌, ◌*◌, ◌≤◌, ◌<◌, ◌≡◌, min, refl, sym, ap, ◌∙◌, inl, inr, true, false, Bool-cases,
  none, some, List, [], ◌∷◌, ◌++◌, length, ltb, leb, ◌==◌, ==_iff, if◌then◌else◌, arith,
}
use ecpps.SboVector.Init.{
  IsValid, Represents, after-ok, to_size-fits, data_of-store, heap-Represents,
}

module _ {ℓ} {A : Type ℓ} (p : Parameters) (valid : IsValid p) where
  -- A block that elements have left is given back where it is on the heap.
  free-raw :
      (v : SboVector A) (n : ℕ) → n ≡ v.capacity → free p v (allocate n) ≡ done (owned p v) tt
  free-raw v n same = elim (Bool-cases (is_inline p v)) [
    | inl e ↦ rw e
    | inr e ↦ rw (e, same) (deallocate-allocate A v.capacity)
  ]

  grow_to-Represents :
      (v : SboVector A) (xs : List A) (n : ℕ)
      → Represents p v xs
      → v.capacity < n
      → n ≤ max_size p
      → (w : SboVector A) × (grow_to p v n ≡ done (owned p v) w)
        × Represents p w xs
        × (w.capacity ≡ n)
  unfolding grow_to
  grow_to-Represents v xs n r more fits =
      let k = n - length xs in
      let all : n ≡ length xs + k = omega (arith, r.full_at) in
      let block : allocate {A = A} n ≡ allocate (length xs) ++ allocate k =
        ap (λ m. allocate m) all ∙ allocate-add A (length xs) k in
      let w : SboVector A = record {
        storage = heap (live xs ++ allocate k);
        size = to_size p (length xs);
        capacity = to_size p n;
      } in
      let sized : to_size p (length xs) ≡ length xs =
        to_size-fits p _ valid (omega (arith, r.full_at)) in
      let moved = relocate_n-live xs r.room (allocate k) in
      (
        w,
        rw (r.slots, block, r.size_is, moved, free-raw v _ (r.full_at), sized)
            (after-ok (owned p v) _),
        heap-Represents p valid xs k (length xs) n refl all (omega (arith, r.no_less)) fits,
        to_size-fits p n valid fits,
      )

  -- After Reserve the vector holds the same elements and has the capacity asked for, and a heap block
  -- that it grew out of was given back, once; more than the greatest size is an error.
  pub reserve-Represents :
      (v : SboVector A) (xs : List A) (wanted : ℕ)
      → Represents p v xs
      → (wanted ≤ max_size p
          → (w : SboVector A) × (reserve p v wanted
              ≡ done (if leb wanted v.capacity then [] else owned p v) w)
            × Represents p w xs
            × (wanted ≤ w.capacity))
        × (max_size p < wanted → reserve p v wanted ≡ length_error)
  unfolding reserve
  reserve-Represents v xs wanted r = (
    λ fits. elim (Bool-cases (leb wanted v.capacity)) [
      | inl e ↦ (v, rw e, r, ground arith)
      | inr e ↦
          let no_error : ltb (max_size p) wanted ≡ false = ground arith in
          let (w, grown, holds, capacity) = grow_to-Represents v xs wanted r (ground arith) fits in
          (w, rw (e, no_error) grown, holds, omega (arith, capacity))
    ],
    λ over.
        let beyond : leb wanted v.capacity ≡ false = ground (arith, r.no_more) in
        let error : ltb (max_size p) wanted ≡ true = ground arith in rw (beyond, error),
  )

  -- The next capacity: twice as much, as far as the greatest size allows.
  next_capacity_lem :
      (v : SboVector A)
      → v.capacity < max_size p
      → (n : ℕ) × (next_capacity p v (v.capacity + 1) ≡ ok n)
        × (v.capacity < n)
        × (n ≤ max_size p)
        × (min (v.capacity * 2) (max_size p) ≤ n)
  unfolding next_capacity
  next_capacity_lem v h =
      let doubled =
        if ltb (max_size p - v.capacity) v.capacity then max_size p else v.capacity * 2 in
      let n = if ltb (v.capacity + 1) doubled then doubled else v.capacity + 1 in
      let no_error : ltb (max_size p) (v.capacity + 1) ≡ false = ground arith in
      (n, rw no_error, ground arith, ground arith, ground arith)

  emplace_full :
      (v : SboVector A) (xs : List A) (x : A) (n : ℕ)
      → Represents p v xs
      → v.size ≡ v.capacity
      → next_capacity p v (v.capacity + 1) ≡ ok n
      → v.capacity < n
      → n ≤ max_size p
      → (w : SboVector A) × (emplace_back_slow p v x ≡ done (owned p v) w)
        × Represents p w (xs ++ (x ∷ []))
        × (w.capacity ≡ n)
  unfolding emplace_back_slow
  emplace_full v xs x n r full next more most =
      let k = n - length xs - 1 in
      let all : n ≡ length xs + suc k = omega (arith, r.full_at) in
      let block : allocate {A = A} n ≡ allocate (length xs) ++ (none ∷ allocate k) =
        ap (λ m. allocate m) all ∙ allocate-add A (length xs) (suc k) in
      let placed = construct_at-raw (length xs) x (allocate k) in
      let moved = relocate_n-live xs r.room (some x ∷ allocate k) in
      let freed = free-raw v _ (r.full_at) in
      let here : v.capacity ≡ length xs = omega (arith, r.size_is) in
      let next_at : next_capacity p v (length xs + 1) ≡ ok n =
        ap (λ m. next_capacity p v (m + 1)) (sym here) ∙ next in
      let w : SboVector A = record {
        storage = heap (live (xs ++ (x ∷ [])) ++ allocate k);
        size = to_size p (length xs + 1);
        capacity = to_size p n;
      } in
      (
        w,
        rw (r.size_is, next_at, block, placed, r.slots, moved, freed, live-snoc xs x (allocate k))
            (after-ok (owned p v) _),
        heap-Represents p valid (xs ++ (x ∷ [])) k (length xs + 1) n
            (omega (arith, length-snoc xs x)) (omega (arith, length-snoc xs x))
            (omega (arith, r.no_less)) most,
        to_size-fits p n valid most,
      )

  emplace_room :
      (v : SboVector A) (xs : List A) (x : A)
      → Represents p v xs
      → ¬ (v.size ≡ v.capacity)
      → (w : SboVector A) × (emplace_back_fast p v x ≡ ok w)
        × Represents p w (xs ++ (x ∷ []))
        × (w.capacity ≡ v.capacity)
  emplace_room v xs x r not_full =
      let k = r.room - 1 in
      let some_room : r.room ≡ suc k = omega (arith, r.size_is, r.full_at, not_full) in
      let slots : data_of p v ≡ ok (live xs ++ (none ∷ allocate k)) =
        r.slots ∙ ap (λ m. ok (live xs ++ allocate m)) some_room in
      let snoc = length-snoc xs x in
      let sized : to_size p (length xs + 1) ≡ length xs + 1 =
        to_size-fits p _ valid (omega (arith, r.full_at, r.no_more)) in
      let w : SboVector A = record {
        storage = store p v (live (xs ++ (x ∷ [])) ++ allocate k);
        size = to_size p (length xs + 1);
        capacity = v.capacity;
      } in
      let holds : Represents p w (xs ++ (x ∷ [])) = record {
        room = k;
        slots = data_of-store p valid v _ (to_size p (length xs + 1));
        size_is = omega (arith, sized, snoc);
        full_at = omega (arith, r.full_at, snoc);
        no_less = r.no_less;
        no_more = r.no_more;
      } in
      let placed = construct_at-live xs x (allocate k) in
      (w, rw (slots, r.size_is, placed, live-snoc xs x (allocate k)), holds, refl)

  -- EmplaceBack, and Push with it, appends the element: the vector holds the old elements and then
  -- the new one. A full vector at least doubles its capacity, as far as the greatest size allows, and
  -- gives back, once, the heap block that it held; at the greatest size it is an error.
  pub emplace_back-Represents :
      (v : SboVector A) (xs : List A) (x : A)
      → Represents p v xs
      → (length xs < max_size p
          → (w : SboVector A) × (emplace_back p v x
              ≡ done (if v.size == v.capacity then owned p v else []) w)
            × Represents p w (xs ++ (x ∷ []))
            × (length xs ≡ v.capacity → min (v.capacity * 2) (max_size p) ≤ w.capacity))
        × (length xs ≡ max_size p → emplace_back p v x ≡ length_error)
  unfolding emplace_back emplace_back_slow next_capacity
  emplace_back-Represents v xs x r = (
    λ fits. elim (Bool-cases (v.size == v.capacity)) [
      | inl e ↦
          let full : v.size ≡ v.capacity = (==_iff _ _).0 e in
          let (n, next, more, most, twice) = next_capacity_lem v (omega (arith, r.size_is, fits)) in
          let (w, ran, holds, grown) = emplace_full v xs x n r full next more most in
          (w, rw e ran, holds, λ _. omega (arith, twice, grown))
      | inr e ↦
          let not_full : ¬ (v.size ≡ v.capacity) = ground arith in
          let (w, ran, holds, _) = emplace_room v xs x r not_full in
          (w, rw e ran, holds, λ h. absurd (not_full (r.size_is ∙ h)))
    ],
    λ top.
        let full : (v.size == v.capacity) ≡ true =
          ground (arith, r.size_is, r.full_at, r.no_more) in
        let error : ltb (max_size p) (v.size + 1) ≡ true = ground (arith, r.size_is) in
        rw (full, error),
  )
