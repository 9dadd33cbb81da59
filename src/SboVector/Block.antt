-- ===== src/SboVector/Block.antt =====
-- compiler/utilitieslib/include/utilitieslib/SBOVector.h, sboDetail: the loops that construct, copy,
-- move and destroy elements in raw memory. A block is its slots, and a slot holds an element or is
-- raw. What C++ leaves undefined (a construction over a live element, a use of a raw slot, an index
-- out of the block) is `undefined`. Constructors of elements do not throw.
use ecpps.Common.{
  ℕ, zero, suc, ◌+◌, Bool, true, false, ◌&&◌, Option, none, some, List, [], ◌∷◌, length, get_elem?,
  set, ◌==◌,
}

-- The way an operation ends: `done` has the counts of the blocks that were given back on the way, and
-- `length_error` is the exception that sboDetail::Fail throws.
pub data Outcome {ℓ} (A : Type ℓ) : Type ℓ where
  done : List ℕ → A → Outcome A
  length_error : Outcome A
  undefined : Outcome A

-- With no block given back.
abbrev pub ok {ℓ} : {A : Type ℓ} → A → Outcome A
ok a = done [] a

abbrev given_back {ℓ} : {A : Type ℓ} → ℕ → Outcome A → Outcome A
given_back n (done blocks a) = done (n ∷ blocks) a
given_back n length_error = length_error
given_back n undefined = undefined

abbrev pub after {ℓ} : {A : Type ℓ} → List ℕ → Outcome A → Outcome A
after [] o = o
after (n ∷ blocks) o = given_back n (after blocks o)

infixl 5 ◌>>=◌
abbrev pub ◌>>=◌ {ℓ κ} : {A : Type ℓ} {B : Type κ} → Outcome A → (A → Outcome B) → Outcome B
done blocks a >>= f = after blocks (f a)
length_error >>= f = length_error
undefined >>= f = undefined

abbrev pub Block {ℓ} : Type ℓ → Type ℓ
Block A = List (Option A)

module _ {ℓ} {A : Type ℓ} where
  -- TAllocator::allocate
  abbrev pub allocate : ℕ → Block A
  allocate zero = []
  allocate (suc n) = none ∷ allocate n

  abbrev pub is_raw : Block A → Bool
  is_raw [] = true
  is_raw (none ∷ b) = is_raw b
  is_raw (some x ∷ b) = false

  -- TAllocator::deallocate, whose count must be the one allocated. Elements still live would leak.
  abbrev pub deallocate : Block A → ℕ → Outcome (Unit {0})
  deallocate b n = elim (length b == n && is_raw b) [ true ↦ done (n ∷ []) tt | false ↦ undefined ]

  unfoldable pub construct_at : Block A → ℕ → A → Outcome (Block A)
  construct_at b i x = elim (get_elem? b i) [
    | some none ↦ ok (set b i (some x))
    | some (some _) ↦ undefined
    | none ↦ undefined
  ]

  unfoldable pub destroy_at : Block A → ℕ → Outcome (Block A)
  destroy_at b i = elim (get_elem? b i) [
    | some (some _) ↦ ok (set b i none)
    | some none ↦ undefined
    | none ↦ undefined
  ]

  unfoldable pub read : Block A → ℕ → Outcome A
  read b i = elim (get_elem? b i) [
    | some (some x) ↦ ok x
    | some none ↦ undefined
    | none ↦ undefined
  ]

  -- DestroyN counts down.
  unfoldable pub destroy_n : Block A → ℕ → Outcome (Block A)
  unfolding destroy_at
  destroy_n b zero = ok b
  destroy_n b (suc n) = do b' ← destroy_at b n; destroy_n b' n

  -- The loop of UninitialisedCopyN, from slot `i` and with `n` rounds to go.
  unfoldable pub copy_from : Block A → Block A → ℕ → ℕ → Outcome (Block A)
  unfolding construct_at read
  copy_from source to i zero = ok to
  copy_from source to i (suc n) = do
    x ← read source i
    to' ← construct_at to i x
    copy_from source to' (i + 1) n

  unfoldable pub uninitialised_copy_n : Block A → Block A → ℕ → Outcome (Block A)
  unfolding copy_from
  uninitialised_copy_n source to count = copy_from source to 0 count

  unfoldable pub fill_from : Block A → ℕ → ℕ → A → Outcome (Block A)
  unfolding construct_at
  fill_from to i zero value = ok to
  fill_from to i (suc n) value = do to' ← construct_at to i value; fill_from to' (i + 1) n value

  -- UninitialisedValueN is the same with the value of a default construction.
  unfoldable pub uninitialised_fill_n : Block A → ℕ → A → Outcome (Block A)
  unfolding fill_from
  uninitialised_fill_n to count value = fill_from to 0 count value

  -- RelocateN: what it moves from it destroys. The pair is what is left at `source` and at `to`.
  unfoldable pub relocate_n : Block A → Block A → ℕ → Outcome (Block A × Block A)
  unfolding copy_from destroy_n
  relocate_n source to count = do
    to' ← copy_from source to 0 count
    source' ← destroy_n source count
    ok (source', to')
