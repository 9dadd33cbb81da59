-- ===== src/BumpAllocator/Tests.antt =====
-- An allocation of 100 bytes from a reservation of 128 KiB.
use ecpps.BumpAllocator.{BumpAllocator, construct, reserved_size}
use ecpps.BumpAllocator.Loop.{IsReserved}
use ecpps.BumpAllocator.Commit.{construct-IsReserved}
use ecpps.Common.{[], ℕ, ◌+◌, ◌≤◌, ◌≡◌, refl, Bool, some, leb, arith}

abbrev system : ℕ → ℕ → Bool
system address count = leb (address + count) 135168

abbrev fresh : BumpAllocator
fresh = record { begin = some 4096; current_end = 4096; capacity = 135168; commit_end = 4096 }

construct-IsReserved_example :
    IsReserved 4096 [] (construct 4096 131072)
    × ((construct 4096 131072).capacity ≡ 4096 + reserved_size 131072)
    × (65536 ≤ reserved_size 131072)
    × (131072 ≤ reserved_size 131072)
    × ((construct 4096 131072).commit_end ≡ 4096)
    × ((construct 4096 131072).current_end ≡ 4096)
construct-IsReserved_example =
    construct-IsReserved 4096 131072 refl (unfold reserved_size in omega arith)
