-- ===== src/SboVector.antt =====
-- compiler/utilitieslib/include/utilitieslib/SBOVector.h: a vector that holds few elements in itself
-- and more of them in a heap block. The union `Storage` has one member alive: `inline_storage` or
-- `heap`. An access to the other one is `undefined`.
pub mod Block
pub mod Slots
pub mod Init
pub mod Access
pub mod Growth
pub mod Assign
mod Tests
use ecpps.Common.{
  ℕ, suc, ◌+◌, ◌-◌, ◌*◌, ◌/◌, ◌%◌, ◌^◌, min, Bool, List, [], ◌∷◌, length, ltb, leb, ◌==◌,
  if◌then◌else◌,
}
use Block.{
  Outcome, ok, length_error, undefined, ◌>>=◌, allocate, deallocate, construct_at, destroy_at, read,
  destroy_n, uninitialised_copy_n, uninitialised_fill_n, relocate_n,
}

-- The template's parameters: the width of TSize, sizeof(TElement) and TInlineCapacity.
pub record Parameters : Type 0 where
  pub size_bits : ℕ
  pub element_size : ℕ
  pub inline_capacity : ℕ

abbrev pub max_size : Parameters → ℕ
max_size p = min (2 ^ p.size_bits - 1) ((2 ^ 64 - 1) / p.element_size)

-- static_cast<TSize>
abbrev pub to_size : Parameters → ℕ → ℕ
to_size p n = n % 2 ^ p.size_bits

pub data Storage {ℓ} (A : Type ℓ) : Type ℓ where
  inline_storage : Block.Block A → Storage A
  heap : Block.Block A → Storage A

pub record SboVector {ℓ} (A : Type ℓ) : Type ℓ where
  pub storage : Storage A
  pub size : ℕ
  pub capacity : ℕ

module _ {ℓ} {A : Type ℓ} (p : Parameters) where
  -- The default constructor
  unfoldable pub empty_vector : SboVector A
  empty_vector = record {
    storage = inline_storage (allocate p.inline_capacity);
    size = 0;
    capacity = to_size p p.inline_capacity;
  }

  abbrev pub is_inline : SboVector A → Bool
  is_inline v = v.capacity == p.inline_capacity

  -- Where a heap pointer stood, the bytes hold no element.
  abbrev pub inline_ptr : Storage A → Block.Block A
  inline_ptr (inline_storage b) = b
  inline_ptr (heap b) = allocate p.inline_capacity

  abbrev pub heap_ptr : Storage A → Outcome (Block.Block A)
  heap_ptr (inline_storage b) = undefined
  heap_ptr (heap b) = ok b

  -- Data, for reading, and `store`, for what is written through it.
  abbrev pub data_of : SboVector A → Outcome (Block.Block A)
  data_of v = if is_inline v then ok (inline_ptr v.storage) else heap_ptr v.storage

  abbrev pub store : SboVector A → Block.Block A → Storage A
  store v b = if is_inline v then inline_storage b else heap b

  -- The count of the heap block that a vector holds.
  abbrev pub owned : SboVector A → List ℕ
  owned v = if is_inline v then [] else v.capacity ∷ []

  abbrev pub free : SboVector A → Block.Block A → Outcome (Unit {0})
  free v b = if is_inline v then ok tt else deallocate b v.capacity

  unfoldable pub at : SboVector A → ℕ → Outcome A
  at v index = do b ← data_of v; read b index

  unfoldable pub front : SboVector A → Outcome A
  front v = do b ← data_of v; read b 0

  -- `_size - 1` wraps where the vector is empty.
  unfoldable pub back : SboVector A → Outcome A
  back v = do b ← data_of v; read b (to_size p (v.size + 2 ^ p.size_bits - 1))

  unfoldable pub init_with :
      SboVector A → ℕ → (Block.Block A → Outcome (Block.Block A)) → Outcome (SboVector A)
  init_with v count fill =
      if ltb (max_size p) count
      then length_error
      else if ltb p.inline_capacity count
      then fill (allocate count) >>= (λ block.
        ok (record { storage = heap block; size = to_size p count; capacity = to_size p count }))
      else fill (inline_ptr v.storage) >>= (λ block.
        ok (record {
          storage = inline_storage block;
          size = to_size p count;
          capacity = v.capacity;
        }))

  -- SBOVector(count, value), and SBOVector(count) with the value of a default construction
  unfoldable pub filled : ℕ → A → Outcome (SboVector A)
  unfolding init_with empty_vector
  filled count value = init_with empty_vector count (λ to. uninitialised_fill_n to count value)

  -- SBOVector(const SBOVector&)
  unfoldable pub copy : SboVector A → Outcome (SboVector A)
  unfolding init_with empty_vector
  copy other = do
    source ← data_of other
    init_with empty_vector other.size (λ to. uninitialised_copy_n source to other.size)

  unfoldable pub clear : SboVector A → Outcome (SboVector A)
  clear v = do
    b ← data_of v
    b' ← destroy_n b v.size
    ok (record v { storage = store v b'; size = 0 })

  -- A heap block that was given back stays behind the pointer, and nothing reads it.
  unfoldable pub release_all : SboVector A → Outcome (SboVector A)
  release_all v = do
    b ← data_of v
    b' ← destroy_n b v.size
    _ ← free v b'
    ok (record { storage = store v b'; size = 0; capacity = to_size p p.inline_capacity })

  -- The pair is `*this` and `other`.
  unfoldable pub steal_from : SboVector A → SboVector A → Outcome (SboVector A × SboVector A)
  steal_from v other =
      if is_inline other
      then relocate_n (inline_ptr other.storage) (inline_ptr v.storage) other.size >>= (λ moved.
        ok (
          record v { storage = inline_storage (moved.1); size = other.size },
          record other { storage = inline_storage (moved.0); size = 0 },
        ))
      else heap_ptr other.storage >>= (λ block. ok (
        record { storage = heap block; size = other.size; capacity = other.capacity },
        record other { size = 0; capacity = to_size p p.inline_capacity },
      ))

  -- SBOVector(SBOVector&&)
  unfoldable pub move : SboVector A → Outcome (SboVector A × SboVector A)
  unfolding steal_from empty_vector
  move other = steal_from empty_vector other

  -- The two assignments, between different objects: from itself an object returns at once.
  abbrev pub assign_in_place : SboVector A → SboVector A → Outcome (SboVector A)
  assign_in_place v other = do
    v' ← clear v
    source ← data_of other
    to ← data_of v'
    block ← uninitialised_copy_n source to other.size
    ok (record v' { storage = store v' block; size = to_size p other.size })

  abbrev pub assign_new_block : SboVector A → SboVector A → Outcome (SboVector A)
  assign_new_block v other = do
    source ← data_of other
    block ← uninitialised_copy_n source (allocate other.size) other.size
    _ ← release_all v
    ok (record {
      storage = heap block;
      size = to_size p other.size;
      capacity = to_size p other.size;
    })

  unfoldable pub copy_assign : SboVector A → SboVector A → Outcome (SboVector A)
  unfolding clear release_all
  copy_assign v other =
      if leb other.size v.capacity then assign_in_place v other else assign_new_block v other

  unfoldable pub move_assign : SboVector A → SboVector A → Outcome (SboVector A × SboVector A)
  unfolding release_all steal_from
  move_assign v other = do v' ← release_all v; steal_from v' other

  unfoldable pub grow_to : SboVector A → ℕ → Outcome (SboVector A)
  grow_to v new_capacity = do
    b ← data_of v
    moved ← relocate_n b (allocate new_capacity) v.size
    _ ← free v (moved.0)
    ok (record v { storage = heap (moved.1); capacity = to_size p new_capacity })

  unfoldable pub reserve : SboVector A → ℕ → Outcome (SboVector A)
  unfolding grow_to
  reserve v wanted =
      if leb wanted v.capacity
      then ok v
      else if ltb (max_size p) wanted
      then length_error
      else grow_to v wanted

  unfoldable pub next_capacity : SboVector A → ℕ → Outcome ℕ
  next_capacity v required =
      let doubled =
        if ltb (max_size p - v.capacity) v.capacity then max_size p else v.capacity * 2 in
      if ltb (max_size p) required
      then length_error
      else ok (if ltb required doubled then doubled else required)

  -- The element is constructed in the new block before the others move.
  unfoldable pub emplace_back_slow : SboVector A → A → Outcome (SboVector A)
  unfolding next_capacity
  emplace_back_slow v x = do
    new_capacity ← next_capacity v (v.size + 1)
    block ← construct_at (allocate new_capacity) v.size x
    b ← data_of v
    moved ← relocate_n b block v.size
    _ ← free v (moved.0)
    ok (record {
      storage = heap (moved.1);
      size = to_size p (v.size + 1);
      capacity = to_size p new_capacity;
    })

  abbrev pub emplace_back_fast : SboVector A → A → Outcome (SboVector A)
  emplace_back_fast v x = do
    b ← data_of v
    b' ← construct_at b v.size x
    ok (record v { storage = store v b'; size = to_size p (v.size + 1) })

  unfoldable pub emplace_back : SboVector A → A → Outcome (SboVector A)
  unfolding emplace_back_slow
  emplace_back v x = if v.size == v.capacity then emplace_back_slow v x else emplace_back_fast v x

  unfoldable pub pop_back : SboVector A → Outcome (SboVector A)
  pop_back v = do
    b ← data_of v
    b' ← destroy_at b (to_size p (v.size + 2 ^ p.size_bits - 1))
    ok (record v { storage = store v b'; size = to_size p (v.size + 2 ^ p.size_bits - 1) })
