-- ===== src/SboVector/Assign.antt =====
-- SBOVector.h: the moves and the two assignments.
use ecpps.SboVector.{
  Parameters, to_size, Storage, inline_storage, heap, SboVector, empty_vector, is_inline, owned,
  inline_ptr, heap_ptr, data_of, store, steal_from, move, move_assign, copy_assign, assign_in_place,
  assign_new_block,
}
use ecpps.SboVector.Block.{Block, done, ok, length_error, undefined, allocate, uninitialised_copy_n}
use ecpps.SboVector.Slots.{live, allocate-add, relocate_n-live, copy_n-live}
use ecpps.Common.{
  ◌+◌, ◌-◌, ◌≤◌, ◌<◌, ◌≡◌, refl, sym, ap, ◌∙◌, inl, inr, true, false, Bool-cases, List, [], ◌++◌,
  append-nil, length, leb, ==_iff, arith, if◌then◌else◌,
}
use ecpps.SboVector.Init.{
  IsValid, Represents, to_size-fits, inline_fits, data_of-store, heap-Represents, inline-Represents,
  released, after-ok, empty_vector-Represents, release_all-Represents, clear-Represents,
}

ok-injective {ℓ} : {A : Type ℓ} (a b : A) → ok a ≡ ok b → a ≡ b
ok-injective a b h = ap (λ o. elim o [ done blocks x ↦ x | length_error ↦ a | undefined ↦ a ]) h

module _ {ℓ} {A : Type ℓ} (p : Parameters) (valid : IsValid p) where
  inline_slots :
      (v : SboVector A) (xs : List A) (r : Represents p v xs)
      → is_inline p v ≡ true
      → inline_ptr p v.storage ≡ live xs ++ allocate r.room
  inline_slots v xs r e = ok-injective _ _ (rw e at (r.slots))

  -- What a vector is whose heap block was taken.
  left_behind :
      (s : Storage A) (b : Block A)
      → heap_ptr p s ≡ ok b
      → Represents p (record { storage = s; size = 0; capacity = to_size p p.inline_capacity }) []
  left_behind (inline_storage c) b h = absurd (ground arith)
  left_behind (heap c) b h = released p valid c

  -- StealFrom, to an empty vector on its inline storage.
  steal_from-Represents :
      (v other : SboVector A) (xs : List A)
      → Represents p v []
      → v.capacity ≡ p.inline_capacity
      → Represents p other xs
      → (w o : SboVector A) × (steal_from p v other ≡ ok (w, o))
        × Represents p w xs
        × Represents p o []
  unfolding steal_from
  steal_from-Represents v other xs empty at_inline r = elim (Bool-cases (is_inline p other)) [
    | inl e ↦
        let same : other.capacity ≡ p.inline_capacity = (==_iff _ _).0 e in
        let mine : is_inline p v ≡ true = (==_iff _ _).1 at_inline in
        let raw : inline_ptr p v.storage ≡ allocate (length xs) ++ allocate r.room =
          inline_slots v [] empty mine
          ∙ ap (λ m. allocate m) (omega (arith, empty.full_at, r.full_at))
          ∙ allocate-add A (length xs) r.room in
        let moved = relocate_n-live xs r.room (allocate r.room) in
        (
          _,
          _,
          rw (e, inline_slots other xs r e, raw, r.size_is, moved),
          inline-Represents p valid xs r.room (length xs) v.capacity refl (omega (arith, r.full_at))
              at_inline,
          inline-Represents p valid [] (length xs + r.room) 0 other.capacity refl
              (omega (arith, r.full_at)) same,
        )
    | inr e ↦
        let pointed : heap_ptr p other.storage ≡ ok (live xs ++ allocate r.room) =
          rw e at (r.slots) in
        let no_inline : is_inline p other ≡ false = e in
        let here = inline_fits p valid in
        let taken : Represents p
            (record {
              storage = heap (live xs ++ allocate r.room);
              size = other.size;
              capacity = other.capacity;
            })
            xs =
          record {
            room = r.room;
            slots = rw e;
            size_is = r.size_is;
            full_at = r.full_at;
            no_less = r.no_less;
            no_more = r.no_more;
          } in
        (_, _, rw (e, pointed), taken, left_behind other.storage _ pointed)
  ]

  -- The move constructor takes over the elements, and leaves the other vector empty.
  pub move-Represents :
      (other : SboVector A) (xs : List A)
      → Represents p other xs
      → (w o : SboVector A) × (move p other ≡ ok (w, o)) × Represents p w xs × Represents p o []
  unfolding move empty_vector
  move-Represents other xs r =
      steal_from-Represents (empty_vector p) other xs (empty_vector-Represents p valid)
        (inline_fits p valid) r

  copy_in_place :
      (v other : SboVector A) (xs ys : List A)
      → Represents p v xs
      → Represents p other ys
      → other.size ≤ v.capacity
      → (w : SboVector A) × (assign_in_place p v other ≡ ok w) × Represents p w ys
  copy_in_place v other xs ys r s fits =
      let (w, cleared, empty, same) = clear-Represents p valid v xs r in
      let k = v.capacity - length ys in
      let all : empty.room ≡ length ys + k = omega (arith, s.size_is, empty.full_at, same) in
      let slots : data_of p w ≡ ok (allocate (length ys) ++ allocate k) =
        empty.slots ∙ ap (λ m. ok (allocate m)) all ∙ ap ok (allocate-add A (length ys) k) in
      let copied = copy_n-live ys (allocate s.room) (allocate k) in
      let sized : to_size p (length ys) ≡ length ys =
        to_size-fits p _ valid (omega (arith, s.full_at, s.no_more)) in
      let holds : Represents p
          (record {
            storage = store p w (live ys ++ allocate k);
            size = to_size p (length ys);
            capacity = w.capacity;
          })
          ys =
        record {
          room = k;
          slots = data_of-store p valid w _ (to_size p (length ys));
          size_is = sized;
          full_at = omega (arith, s.size_is, same);
          no_less = empty.no_less;
          no_more = empty.no_more;
        } in
      (_, rw (cleared, s.slots, slots, s.size_is, copied), holds)

  copy_to_new_block :
      (v other : SboVector A) (xs ys : List A)
      → Represents p v xs
      → Represents p other ys
      → v.capacity < other.size
      → (w : SboVector A) × (assign_new_block p v other ≡ done (owned p v) w) × Represents p w ys
  copy_to_new_block v other xs ys r s over =
      let (w, released_v, _, _) = release_all-Represents p valid v xs r in
      let whole : allocate {A = A} (length ys) ≡ allocate (length ys) ++ [] = sym (append-nil _) in
      let copied : uninitialised_copy_n (live ys ++ allocate s.room) (allocate (length ys))
            (length ys)
          ≡ ok (live ys ++ []) =
        ap (λ b. uninitialised_copy_n (live ys ++ allocate s.room) b (length ys)) whole
        ∙ copy_n-live ys (allocate s.room) [] in
      (
        _,
        rw (s.slots, s.size_is, copied, released_v) (after-ok (owned p v) _),
        heap-Represents p valid ys 0 (length ys) (length ys) refl (omega arith)
            (omega (arith, r.no_less, s.size_is)) (omega (arith, s.full_at, s.no_more)),
      )

  -- Both assignments end with the elements of the other vector. The move assignment gives back the
  -- heap block that the target held, and leaves the other vector empty; the copy assignment gives it
  -- back where the elements do not fit into it, and gives nothing back where they do.
  pub assign-Represents :
      (v other : SboVector A) (xs ys : List A)
      → Represents p v xs
      → Represents p other ys
      → ((w : SboVector A) × (copy_assign p v other
            ≡ done (if leb other.size v.capacity then [] else owned p v) w)
          × Represents p w ys)
        × ((w o : SboVector A) × (move_assign p v other ≡ done (owned p v) (w, o))
            × Represents p w ys
            × Represents p o [])
  unfolding copy_assign move_assign
  assign-Represents v other xs ys r s = (
    elim (Bool-cases (leb other.size v.capacity)) [
      | inl e ↦
          let (w, ran, holds) = copy_in_place v other xs ys r s (ground arith) in
          (w, rw e ran, holds)
      | inr e ↦
          let (w, ran, holds) = copy_to_new_block v other xs ys r s (ground arith) in
          (w, rw e ran, holds)
    ],
    let (u, released_v, empty, here) = release_all-Represents p valid v xs r in
        let (w, o, ran, holds, left) = steal_from-Represents u other ys empty here s in
        (w, o, rw (released_v, ran) (after-ok (owned p v) _), holds, left),
  )
