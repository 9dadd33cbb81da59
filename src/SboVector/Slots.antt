-- ===== src/SboVector/Slots.antt =====
-- The loops of SBOVector.h over a block that holds the elements `xs` and is raw behind them.
use ecpps.SboVector.Block.{
  Block, done, ok, allocate, is_raw, deallocate, construct_at, destroy_at, read, destroy_n,
  copy_from, uninitialised_copy_n, fill_from, uninitialised_fill_n, relocate_n,
}
use mathlib.Core.Option.{some-injective, none-ne-some}
use ecpps.Common.{
  ℕ, zero, suc, ◌+◌, ◌≡◌, refl, sym, ap, ◌∙◌, ◌⊎◌, inl, inr, true, Option, none, some, List, [],
  ◌∷◌, ◌++◌, append-nil, append_assoc, length, length-append, get_elem?, set, ◌==◌, ==_iff, arith,
}

module _ {ℓ} (A : Type ℓ) where
  length-allocate : (n : ℕ) → length (allocate {A = A} n) ≡ n
  length-allocate zero = refl
  length-allocate (suc n) = ap suc (length-allocate n)

  is_raw-allocate : (n : ℕ) → is_raw (allocate {A = A} n) ≡ true
  is_raw-allocate zero = refl
  is_raw-allocate (suc n) = is_raw-allocate n

  pub deallocate-allocate : (n : ℕ) → deallocate (allocate {A = A} n) n ≡ done (n ∷ []) tt
  deallocate-allocate n =
      let same : (length (allocate {A = A} n) == n) ≡ true = (==_iff _ n).1 (length-allocate n) in
      rw (deallocate, same, is_raw-allocate n)

  pub allocate-add : (n m : ℕ) → allocate {A = A} (n + m) ≡ allocate n ++ allocate m
  allocate-add zero m = ap (λ k. allocate k) (omega arith)
  allocate-add (suc n) m =
      let next : suc n + m ≡ suc (n + m) = omega arith in
      ap (λ k. allocate k) next ∙ ap (◌∷◌ none) (allocate-add n m)

module _ {ℓ} {A : Type ℓ} where
  abbrev pub live : List A → Block A
  live [] = []
  live (x ∷ xs) = some x ∷ live xs

  abbrev pub replicate : ℕ → A → List A
  replicate zero x = []
  replicate (suc n) x = x ∷ replicate n x

  pub length-replicate : (n : ℕ) (x : A) → length (replicate n x) ≡ n
  length-replicate zero x = refl
  length-replicate (suc n) x = ap suc (length-replicate n x)

  pub length-snoc : (xs : List A) (x : A) → length (xs ++ (x ∷ [])) ≡ suc (length xs)
  length-snoc xs x = omega (arith, length-append xs (x ∷ []))

  -- The slot behind the elements `pre`.
  get_elem?-live :
      (pre : List A) (s : Option A) (rest : Block A)
      → get_elem? (live pre ++ (s ∷ rest)) (length pre) ≡ some s
  get_elem?-live [] s rest = refl
  get_elem?-live (x ∷ pre) s rest = get_elem?-live pre s rest

  set-live :
      (pre : List A) (s t : Option A) (rest : Block A)
      → set (live pre ++ (s ∷ rest)) (length pre) t ≡ live pre ++ (t ∷ rest)
  set-live [] s t rest = refl
  set-live (x ∷ pre) s t rest = ap (◌∷◌ (some x)) (set-live pre s t rest)

  live-append :
      (pre xs : List A) (rest : Block A) → live (pre ++ xs) ++ rest ≡ live pre ++ (live xs ++ rest)
  live-append [] xs rest = refl
  live-append (y ∷ pre) xs rest = ap (◌∷◌ (some y)) (live-append pre xs rest)

  pub live-snoc :
      (pre : List A) (x : A) (rest : Block A)
      → live (pre ++ (x ∷ [])) ++ rest ≡ live pre ++ (some x ∷ rest)
  live-snoc pre x rest = live-append pre (x ∷ []) rest

  pub construct_at-live :
      (pre : List A) (x : A) (rest : Block A)
      → construct_at (live pre ++ (none ∷ rest)) (length pre) x ≡ ok (live pre ++ (some x ∷ rest))
  unfolding construct_at
  construct_at-live pre x rest =
      rw (construct_at, get_elem?-live pre none rest, set-live pre none (some x) rest)

  raw_slot :
      (n : ℕ) (s : Option A) (rest : Block A) → get_elem? (allocate n ++ (s ∷ rest)) n ≡ some s
  raw_slot zero s rest = refl
  raw_slot (suc n) s rest = raw_slot n s rest

  set-raw :
      (n : ℕ) (s t : Option A) (rest : Block A)
      → set (allocate n ++ (s ∷ rest)) n t ≡ allocate n ++ (t ∷ rest)
  set-raw zero s t rest = refl
  set-raw (suc n) s t rest = ap (◌∷◌ none) (set-raw n s t rest)

  pub construct_at-raw :
      (n : ℕ) (x : A) (rest : Block A)
      → construct_at (allocate n ++ (none ∷ rest)) n x ≡ ok (allocate n ++ (some x ∷ rest))
  unfolding construct_at
  construct_at-raw n x rest = rw (construct_at, raw_slot n none rest, set-raw n none (some x) rest)

  pub destroy_at-live :
      (pre : List A) (x : A) (rest : Block A)
      → destroy_at (live pre ++ (some x ∷ rest)) (length pre) ≡ ok (live pre ++ (none ∷ rest))
  unfolding destroy_at
  destroy_at-live pre x rest =
      rw (destroy_at, get_elem?-live pre (some x) rest, set-live pre (some x) none rest)

  pub read-live :
      (pre : List A) (x : A) (rest : Block A)
      → read (live pre ++ (some x ∷ rest)) (length pre) ≡ ok x
  unfolding read
  read-live pre x rest = rw (read, get_elem?-live pre (some x) rest)

  snoc_cases : (xs : List A) → (xs ≡ []) ⊎ ((pre : List A) × (x : A) × (xs ≡ pre ++ (x ∷ [])))
  snoc_cases [] = inl refl
  snoc_cases (x ∷ xs) = elim (snoc_cases xs) [
    | inl e ↦ inr ([], x, ap (◌∷◌ x) e)
    | inr (pre, y, e) ↦ inr (x ∷ pre, y, ap (◌∷◌ x) e)
  ]

  destroy_each :
      (n : ℕ) (xs : List A) (k : ℕ)
      → length xs ≡ n
      → destroy_n (live xs ++ allocate k) n ≡ ok (allocate (n + k))
  unfolding destroy_n
  destroy_each zero [] k h = ap (λ m. ok (allocate m)) (omega arith)
  destroy_each zero (x ∷ xs) k h = absurd (omega arith)
  destroy_each (suc n) xs k h = elim (snoc_cases xs) [
    | inl e ↦ absurd (omega (arith, ap length e))
    | inr (pre, x, e) ↦
        let len : length pre ≡ n = omega (arith, ap length e, length-snoc pre x) in
        let last : destroy_at (live xs ++ allocate k) n ≡ ok (live pre ++ allocate (suc k)) =
          rw (e, live-snoc pre x (allocate k), sym len) (destroy_at-live pre x (allocate k)) in
        rw (last, destroy_each n pre (suc k) len) (ap (λ m. ok (allocate m)) (omega arith))
  ]

  -- DestroyN leaves a raw block.
  pub destroy_n-live :
      (xs : List A) (k : ℕ)
      → destroy_n (live xs ++ allocate k) (length xs) ≡ ok (allocate (length xs + k))
  destroy_n-live xs k = destroy_each (length xs) xs k refl

  -- The source is given by an equation, so that it stays the same from round to round.
  copy_each :
      (source : Block A) (pre xs : List A) (behind rest : Block A)
      → source ≡ live (pre ++ xs) ++ behind
      → copy_from source (live pre ++ (allocate (length xs) ++ rest)) (length pre) (length xs)
        ≡ ok (live (pre ++ xs) ++ rest)
  unfolding copy_from
  copy_each source pre [] behind rest e = rw (append-nil pre)
  copy_each source pre (x ∷ xs) behind rest e =
      let next = pre ++ (x ∷ []) in
      let split : pre ++ (x ∷ xs) ≡ next ++ xs = sym (append_assoc pre (x ∷ []) xs) in
      let got : read source (length pre) ≡ ok x =
        rw (e, live-append pre (x ∷ xs) behind) (read-live pre x _) in
      let put : construct_at (live pre ++ (none ∷ (allocate (length xs) ++ rest))) (length pre) x
          ≡ ok (live next ++ (allocate (length xs) ++ rest)) =
        rw (live-snoc pre x (allocate (length xs) ++ rest)) (construct_at-live pre x _) in
      let step : length pre + 1 ≡ length next = omega (arith, length-snoc pre x) in
      let moved_on : source ≡ live (next ++ xs) ++ behind =
        e ∙ ap (λ ys. live ys ++ behind) split in
      rw (got, put, split, step) (copy_each source next xs behind rest moved_on)

  -- UninitialisedCopyN writes the elements to the raw slots in front.
  pub copy_n-live :
      (xs : List A) (behind rest : Block A)
      → uninitialised_copy_n (live xs ++ behind) (allocate (length xs) ++ rest) (length xs)
        ≡ ok (live xs ++ rest)
  unfolding uninitialised_copy_n
  copy_n-live xs behind rest = copy_each (live xs ++ behind) [] xs behind rest refl

  fill_each :
      (pre : List A) (n : ℕ) (x : A) (rest : Block A)
      → fill_from (live pre ++ (allocate n ++ rest)) (length pre) n x
        ≡ ok (live (pre ++ replicate n x) ++ rest)
  unfolding fill_from
  fill_each pre zero x rest = rw (append-nil pre)
  fill_each pre (suc n) x rest =
      let next = pre ++ (x ∷ []) in
      let split : pre ++ (x ∷ replicate n x) ≡ next ++ replicate n x =
        sym (append_assoc pre (x ∷ []) (replicate n x)) in
      let put : construct_at (live pre ++ (none ∷ (allocate n ++ rest))) (length pre) x
          ≡ ok (live next ++ (allocate n ++ rest)) =
        rw (live-snoc pre x (allocate n ++ rest)) (construct_at-live pre x _) in
      let step : length pre + 1 ≡ length next = omega (arith, length-snoc pre x) in
      rw (put, split, step) (fill_each next n x rest)

  pub fill_n-live :
      (n : ℕ) (x : A) (rest : Block A)
      → uninitialised_fill_n (allocate n ++ rest) n x ≡ ok (live (replicate n x) ++ rest)
  unfolding uninitialised_fill_n
  fill_n-live n x rest = fill_each [] n x rest

  -- RelocateN leaves the block that it moves from raw.
  pub relocate_n-live :
      (xs : List A) (k : ℕ) (rest : Block A)
      → relocate_n (live xs ++ allocate k) (allocate (length xs) ++ rest) (length xs)
        ≡ ok (allocate (length xs + k), live xs ++ rest)
  unfolding relocate_n
  relocate_n-live xs k rest =
      rw (copy_each (live xs ++ allocate k) [] xs (allocate k) rest refl, destroy_n-live xs k)

  pub read-live_at :
      (xs : List A) (i : ℕ) (x : A) (rest : Block A)
      → get_elem? xs i ≡ some x
      → read (live xs ++ rest) i ≡ ok x
  unfolding read
  read-live_at [] i x rest h = absurd (none-ne-some x h)
  read-live_at (y ∷ xs) zero x rest h = ap ok (some-injective y x h)
  read-live_at (y ∷ xs) (suc i) x rest h = read-live_at xs i x rest h
