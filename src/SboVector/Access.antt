-- ===== src/SboVector/Access.antt =====
-- SBOVector.h: the reads at the back and at an index, and PopBack.
use ecpps.SboVector.{Parameters, max_size, to_size, SboVector, store, at, back, pop_back}
use ecpps.SboVector.Block.{ok, allocate}
use ecpps.SboVector.Slots.{live, length-snoc, live-snoc, destroy_at-live, read-live, read-live_at}
use ecpps.Common.{
  ℕ, suc, ◌+◌, ◌-◌, ◌^◌, ◌<◌, ◌≡◌, ◌∙◌, some, get_elem?, List, [], ◌∷◌, ◌++◌, length, arith,
}
use ecpps.SboVector.Init.{IsValid, Represents, data_of-store}
use native.Mathlib.Nat.{mod-eq_of_lt, add-mod_right}

-- `--_size` of a vector that is not empty
before_last :
    (p : Parameters) (n : ℕ)
    → IsValid p
    → n < max_size p
    → to_size p (suc n + 2 ^ p.size_bits - 1) ≡ n
before_last p n valid h =
    let e : suc n + 2 ^ p.size_bits - 1 ≡ n + 2 ^ p.size_bits = omega arith in
    rw e (add-mod_right n (2 ^ p.size_bits) ∙ mod-eq_of_lt (omega arith))

module _ {ℓ} {A : Type ℓ} (p : Parameters) (valid : IsValid p) where
  -- PopBack destroys the last element, the one that Back gives, and leaves the others; operator[]
  -- gives the element at each index below the size.
  pub pop_back-Represents :
      (v : SboVector A) (xs : List A) (x : A)
      → Represents p v (xs ++ (x ∷ []))
      → (back p v ≡ ok x)
        × ((i : ℕ) (y : A) → get_elem? (xs ++ (x ∷ [])) i ≡ some y → at p v i ≡ ok y)
        × ((w : SboVector A) × (pop_back p v ≡ ok w) × Represents p w xs)
  unfolding back pop_back at
  pop_back-Represents v xs x r =
      let len = length-snoc xs x in
      let last : to_size p (v.size + 2 ^ p.size_bits - 1) ≡ length xs =
        rw (r.size_is, len)
          (before_last p (length xs) valid (omega (arith, r.full_at, r.no_more))) in
      let holds : Represents p
          (record {
            storage = store p v (live xs ++ allocate (suc r.room));
            size = to_size p (v.size + 2 ^ p.size_bits - 1);
            capacity = v.capacity;
          })
          xs =
        record {
          room = suc r.room;
          slots = data_of-store p valid v _ (to_size p (v.size + 2 ^ p.size_bits - 1));
          size_is = last;
          full_at = omega (arith, r.full_at);
          no_less = r.no_less;
          no_more = r.no_more;
        } in
      (
        rw (r.slots, last, live-snoc xs x (allocate r.room)) (read-live xs x (allocate r.room)),
        λ i y h. rw (r.slots) (read-live_at (xs ++ (x ∷ [])) i y (allocate r.room) h),
        (
          _,
          rw (
            r.slots,
            last,
            live-snoc xs x (allocate r.room),
            destroy_at-live xs x (allocate r.room),
          ),
          holds,
        ),
      )
