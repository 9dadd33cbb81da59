-- ===== src/BumpAllocator/Commit.antt =====
-- BumpAllocator.cpp: Allocate and the constructor, beside the memory that was committed.
use ecpps.BumpAllocator.{BumpAllocator, reserved_size, construct}
use ecpps.Common.{ℕ, ◌+◌, ◌/◌, ◌%◌, ◌^◌, ◌≤◌, ◌<◌, ◌≡◌, refl, arith, []}
use ecpps.BumpAllocator.Loop.{IsReserved}

-- A size that is a whole number of commit steps, or 0 for the default, makes such a reservation, as
-- large as that and one step at least, where ReserveMemory gave a range inside the address space: with
-- no call of CommitMemory made, no memory committed and none handed out.
pub construct-IsReserved :
    (base max_memory : ℕ)
    → max_memory % 65536 ≡ 0
    → base + reserved_size max_memory < 2 ^ 64
    → IsReserved base [] (construct base max_memory)
      × ((construct base max_memory).capacity ≡ base + reserved_size max_memory)
      × (65536 ≤ reserved_size max_memory)
      × (max_memory ≤ reserved_size max_memory)
      × ((construct base max_memory).commit_end ≡ base)
      × ((construct base max_memory).current_end ≡ base)
unfolding construct reserved_size
construct-IsReserved base max_memory whole fits =
    let at_least : 65536 ≤ reserved_size max_memory = ground arith in
    let multiple : reserved_size max_memory % 65536 ≡ 0 = ground arith in
    let sum : (base + reserved_size max_memory) % 2 ^ 64 ≡ base + reserved_size max_memory =
      omega (arith, fits) in
    (
      record {
        steps = reserved_size max_memory / 65536;
        committed = 0;
        ends = omega (arith, multiple, sum);
        in_space = omega (arith, sum, fits);
        commits = omega arith;
        covered = refl;
        below = omega (arith, sum);
        starts = omega arith;
      },
      sum,
      at_least,
      ground arith,
      refl,
      refl,
    )
