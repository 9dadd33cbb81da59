-- ===== src/BumpAllocator.antt =====
-- compiler/ecpps/src/Shared/BumpAllocator.cpp, with Align of SBOVector.h. An address is a number, and
-- pointer sums wrap at 2 ^ 64, as compiled. CommitMemory is a parameter, which says whether the
-- operating system makes the range accessible; where it does not, the assertion in CommitMemory ends
-- the run, `none`. The calls of CommitMemory are part of what Allocate gives. sizeof(std::max_align_t)
-- is taken to be 16.
pub mod Loop
pub mod Commit
mod Tests
use ecpps.Common.{
  ℕ, zero, suc, ltb, ◌+◌, ◌-◌, ◌%◌, ◌^◌, max, Bool, true, false, Option, none, some, bit_and, leb,
  ◌==◌, if◌then◌else◌, ◌>>=◌, List, [], ◌∷◌,
}

-- (number + alignment - 1) & ~(alignment - 1), on std::size_t
unfoldable pub align : ℕ → ℕ → ℕ
align number alignment =
    bit_and ((number + alignment + 2 ^ 64 - 1) % 2 ^ 64) (2 ^ 64 - 1 - (alignment - 1))

-- A pointer and a std::size_t
abbrev pub add_pointer : ℕ → ℕ → ℕ
add_pointer address n = (address + n) % 2 ^ 64

abbrev pub commit_step : ℕ
commit_step = 65536

-- `begin` is `none` after Release.
pub record BumpAllocator : Type 0 where
  pub begin : Option ℕ
  pub current_end : ℕ
  pub capacity : ℕ
  pub commit_end : ℕ

-- The size that the constructor reserves.
unfoldable pub reserved_size : ℕ → ℕ
reserved_size max_memory = max (if max_memory == 0 then 2 ^ 41 else max_memory) commit_step

-- The constructor, with the address that ReserveMemory gave.
unfoldable pub construct : ℕ → ℕ → BumpAllocator
unfolding reserved_size
construct address max_memory = record {
  begin = some address;
  current_end = address;
  capacity = add_pointer address (reserved_size max_memory);
  commit_end = address;
}

-- What ReleaseMemory is called with, and the allocator after Release.
unfoldable pub release : BumpAllocator → Option (ℕ × ℕ) × BumpAllocator
release s = elim (s.begin) [
  | none ↦ (none, s)
  | some address ↦
      (some (address, (s.capacity + 2 ^ 64 - address) % 2 ^ 64), record s { begin = none })
]

module _ (commit_memory : ℕ → ℕ → Bool) where
  -- The loop of Allocate, with at most `n` rounds, and the calls of CommitMemory that it makes, each
  -- with its address and count.
  unfoldable pub commit_loop : ℕ → BumpAllocator → Option (BumpAllocator × List (ℕ × ℕ))
  commit_loop zero s = none
  commit_loop (suc n) s = elim (leb s.commit_end s.current_end) [
    | true ↦ elim (commit_memory s.commit_end commit_step) [
      | true ↦
          commit_loop n (record s { commit_end = add_pointer s.commit_end commit_step })
          >>= (λ (t, calls). some (t, (s.commit_end, commit_step) ∷ calls))
      | false ↦ none
    ]
    | false ↦ some (s, [])
  ]

  -- The bump is kept where the allocation fails. `current_end + 2` rounds are enough.
  unfoldable pub allocate : BumpAllocator → ℕ → Option (Option ℕ × BumpAllocator × List (ℕ × ℕ))
  unfolding commit_loop align
  allocate s size =
      let s' : BumpAllocator = record s {
        current_end = add_pointer s.current_end (align size 16);
      } in
      if leb s.capacity s'.current_end
      then some (none, s', [])
      else commit_loop (suc (suc s'.current_end)) s'
        >>= (λ (t, calls). some (some s.current_end, t, calls))
