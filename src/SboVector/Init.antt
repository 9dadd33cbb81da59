-- ===== src/SboVector/Init.antt =====
-- SBOVector.h: what a vector holds, and the constructors, the release and the reads.
use ecpps.SboVector.{
  Parameters, max_size, to_size, inline_storage, heap, SboVector, empty_vector, is_inline, owned,
  data_of, store, init_with, filled, copy, clear, release_all,
}
use ecpps.SboVector.Block.{
  Block, Outcome, done, ok, after, length_error, allocate, destroy_n, uninitialised_fill_n,
  uninitialised_copy_n,
}
use ecpps.SboVector.Slots.{
  live, replicate, length-replicate, deallocate-allocate, allocate-add, destroy_n-live, copy_n-live,
  fill_n-live,
}
use ecpps.Common.{
  ℕ, ◌+◌, ◌-◌, ◌≤◌, ◌<◌, ◌≡◌, refl, sym, ap, ◌∙◌, inl, inr, true, false, Bool-cases, List, [], ◌∷◌,
  ◌++◌, append-nil, length, ltb, ◌==◌, ==_iff, arith,
}
use native.Mathlib.Nat.{mod-eq_of_lt}

-- The static assertions of the class.
abbrev pub IsValid : Parameters → Type 0
IsValid p = (1 ≤ p.inline_capacity) × (p.inline_capacity < max_size p)

-- The vector holds the elements `xs` and `room` raw slots behind them.
pub record Represents {ℓ} {A : Type ℓ} (p : Parameters) (v : SboVector A) (xs : List A)
    : Type ℓ where
  pub room : ℕ
  pub slots : data_of p v ≡ ok (live xs ++ allocate room)
  pub size_is : v.size ≡ length xs
  pub full_at : length xs + room ≡ v.capacity
  pub no_less : p.inline_capacity ≤ v.capacity
  pub no_more : v.capacity ≤ max_size p

pub to_size-fits : (p : Parameters) (n : ℕ) → IsValid p → n ≤ max_size p → to_size p n ≡ n
to_size-fits p n ok_p h = mod-eq_of_lt (omega arith)

pub inline_fits : (p : Parameters) → IsValid p → to_size p p.inline_capacity ≡ p.inline_capacity
inline_fits p valid = to_size-fits p p.inline_capacity valid (omega arith)

pub after-ok {ℓ} : {A : Type ℓ} (blocks : List ℕ) (a : A) → after blocks (ok a) ≡ done blocks a
after-ok [] a = refl
after-ok (n ∷ blocks) a = rw (after-ok blocks a) refl

module _ {ℓ} {A : Type ℓ} (p : Parameters) (valid : IsValid p) where
  -- What Data gives after a write through it.
  pub data_of-store :
      (v : SboVector A) (b : Block A) (n : ℕ)
      → data_of p (record { storage = store p v b; size = n; capacity = v.capacity }) ≡ ok b
  data_of-store v b n = elim (Bool-cases (is_inline p v)) [ inl e ↦ rw e | inr e ↦ rw e ]

  pub heap-Represents :
      (xs : List A) (room size capacity : ℕ)
      → size ≡ length xs
      → capacity ≡ length xs + room
      → p.inline_capacity < capacity
      → capacity ≤ max_size p
      → Represents p
          (record {
            storage = heap (live xs ++ allocate room);
            size = to_size p size;
            capacity = to_size p capacity;
          })
          xs
  heap-Represents xs room size capacity len all lo hi =
      let same = to_size-fits p capacity valid hi in
      let no_inline : (to_size p capacity == p.inline_capacity) ≡ false = ground (arith, same) in
      record {
        room = room;
        slots = rw no_inline;
        size_is = omega (arith, to_size-fits p size valid (omega arith));
        full_at = omega (arith, same);
        no_less = omega (arith, same);
        no_more = omega (arith, same);
      }

  pub inline-Represents :
      (xs : List A) (room size capacity : ℕ)
      → size ≡ length xs
      → capacity ≡ length xs + room
      → capacity ≡ p.inline_capacity
      → Represents p
          (record {
            storage = inline_storage (live xs ++ allocate room);
            size = size;
            capacity = capacity;
          })
          xs
  inline-Represents xs room size capacity len all here = record {
    room = room;
    slots = rw ((==_iff capacity p.inline_capacity).1 here);
    size_is = len;
    full_at = sym all;
    no_less = omega arith;
    no_more = omega arith;
  }

  pub empty_vector-Represents : Represents p (empty_vector {A = A} p) []
  unfolding empty_vector
  empty_vector-Represents =
      inline-Represents [] p.inline_capacity 0 _ refl (omega (arith, inline_fits p valid))
        (inline_fits p valid)

  -- InitWith on a fresh vector, with a `fill` that writes the elements `xs` in front.
  init_with-Represents :
      (xs : List A) (count : ℕ) (fill : Block A → Outcome (Block A))
      → length xs ≡ count
      → count ≤ max_size p
      → ((rest : Block A) → fill (allocate count ++ rest) ≡ ok (live xs ++ rest))
      → (v : SboVector A) × (init_with p (empty_vector p) count fill ≡ ok v) × Represents p v xs
  unfolding init_with empty_vector
  init_with-Represents xs count fill len fits filled_in =
      let no_error : ltb (max_size p) count ≡ false = ground arith in
      elim (Bool-cases (ltb p.inline_capacity count)) [
        | inl e ↦
            let whole : fill (allocate count) ≡ ok (live xs ++ []) =
              ap fill (sym (append-nil _)) ∙ filled_in [] in
            let over : p.inline_capacity < count = ground arith in
            (
              _,
              rw (no_error, e, whole),
              heap-Represents xs 0 count count (sym len) (omega arith) over fits,
            )
        | inr e ↦
            let room = p.inline_capacity - count in
            let under : p.inline_capacity ≡ count + room = ground arith in
            let part : fill (allocate p.inline_capacity) ≡ ok (live xs ++ allocate room) =
              ap (λ n. fill (allocate n)) under
              ∙ ap fill (allocate-add A count room)
              ∙ filled_in _ in
            let size = to_size-fits p count valid fits in
            (
              _,
              rw (no_error, e, part),
              inline-Represents xs room (to_size p count) _ (size ∙ sym len)
                  (omega (arith, inline_fits p valid)) (inline_fits p valid),
            )
      ]

  -- SBOVector(count, value) holds `count` copies of the value, inside itself or in a heap block; more
  -- than the greatest size is an error.
  pub filled-Represents :
      (count : ℕ) (value : A)
      → (count ≤ max_size p
          → (v : SboVector A) × (filled p count value ≡ ok v)
            × Represents p v (replicate count value))
        × (max_size p < count → filled p count value ≡ length_error)
  unfolding filled init_with
  filled-Represents count value = (
    λ fits.
        init_with-Represents (replicate count value) count
          (λ to. uninitialised_fill_n to count value) (length-replicate count value) fits
          (fill_n-live count value),
    λ over. let error : ltb (max_size p) count ≡ true = ground arith in rw error,
  )

  -- The copy constructor gives a vector of its own with the same elements.
  pub copy-Represents :
      (other : SboVector A) (xs : List A)
      → Represents p other xs
      → (v : SboVector A) × (copy p other ≡ ok v) × Represents p v xs
  unfolding copy
  copy-Represents other xs r =
      let (v, made, holds) =
        init_with-Represents xs (length xs)
          (λ to. uninitialised_copy_n (live xs ++ allocate r.room) to (length xs)) refl
          (omega (arith, r.full_at, r.no_more)) (copy_n-live xs (allocate r.room)) in
      (v, rw (r.slots, r.size_is) made, holds)

  -- A vector back on its inline storage, whatever its pointer was.
  pub released :
      (b : Block A)
      → Represents p
          (record { storage = heap b; size = 0; capacity = to_size p p.inline_capacity })
          []
  released b =
      let here = inline_fits p valid in
      record {
        room = p.inline_capacity;
        slots = rw ((==_iff _ p.inline_capacity).1 here);
        size_is = refl;
        full_at = omega (arith, here);
        no_less = omega (arith, here);
        no_more = omega (arith, here);
      }

  -- The destructor and ReleaseAll destroy each element and give back the heap block, once, with its
  -- own size and no element left in it, or nothing from the inline storage; the vector is empty.
  pub release_all-Represents :
      (v : SboVector A) (xs : List A)
      → Represents p v xs
      → (w : SboVector A) × (release_all p v ≡ done (owned p v) w)
        × Represents p w []
        × (w.capacity ≡ p.inline_capacity)
  unfolding release_all
  release_all-Represents v xs r =
      let destroyed : destroy_n (live xs ++ allocate r.room) v.size ≡ ok (allocate v.capacity) =
        rw (r.size_is) (destroy_n-live xs r.room ∙ ap (λ n. ok (allocate n)) r.full_at) in
      elim (Bool-cases (is_inline p v)) [
        | inl e ↦
            let here = inline_fits p valid in
            let same : v.capacity ≡ p.inline_capacity = (==_iff _ _).0 e in
            (
              _,
              rw (r.slots, destroyed, e),
              inline-Represents [] v.capacity 0 _ refl (omega (arith, here)) here,
              here,
            )
        | inr e ↦
            let given_back = deallocate-allocate A v.capacity in
            let w : SboVector A = record {
              storage = heap (allocate v.capacity);
              size = 0;
              capacity = to_size p p.inline_capacity;
            } in
            (
              w,
              rw (r.slots, destroyed, e, given_back),
              released (allocate v.capacity),
              inline_fits p valid,
            )
      ]

  pub clear-Represents :
      (v : SboVector A) (xs : List A)
      → Represents p v xs
      → (w : SboVector A) × (clear p v ≡ ok w) × Represents p w [] × (w.capacity ≡ v.capacity)
  unfolding clear
  clear-Represents v xs r =
      let destroyed : destroy_n (live xs ++ allocate r.room) v.size ≡ ok (allocate v.capacity) =
        rw (r.size_is) (destroy_n-live xs r.room ∙ ap (λ n. ok (allocate n)) r.full_at) in
      let holds : Represents p
          (record { storage = store p v (allocate v.capacity); size = 0; capacity = v.capacity })
          [] =
        record {
          room = v.capacity;
          slots = data_of-store v (allocate v.capacity) 0;
          size_is = refl;
          full_at = omega arith;
          no_less = r.no_less;
          no_more = r.no_more;
        } in
      (_, rw (r.slots, destroyed), holds, refl)
