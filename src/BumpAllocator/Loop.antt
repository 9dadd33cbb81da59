-- ===== src/BumpAllocator/Loop.antt =====
-- BumpAllocator.cpp: the loop of Allocate that commits memory, and the reservation that it keeps.
use ecpps.BumpAllocator.{align, commit_step, BumpAllocator, commit_loop}
use ecpps.Common.{
  ℕ, zero, suc, ◌+◌, ◌-◌, ◌*◌, ◌%◌, ◌^◌, ◌≤◌, ◌<◌, ◌≡◌, refl, inl, inr, Bool, true, false,
  Bool-cases, some, leb, leb→le, arith, sym, ap, List, [], ◌∷◌, ◌++◌, append_assoc, append-nil,
}
use ecpps.Common.Bits.{bit_and-mask}

-- Below 2 ^ 64 - 15 it is the next multiple of 16.
pub align_lem :
    (n : ℕ) → n + 15 < 2 ^ 64 → (n ≤ align n 16) × (align n 16 < n + 16) × (align n 16 % 16 ≡ 0)
unfolding align
align_lem n h =
    let sum : (n + 16 + 2 ^ 64 - 1) % 2 ^ 64 ≡ n + 15 = omega arith in
    let e = bit_and-mask (n + 15) h in rw (sum, e) (omega arith, omega arith, omega arith)

-- The calls (address, count) commit the memory from `from` to `to`, with no gap.
abbrev pub Commits : ℕ → List (ℕ × ℕ) → ℕ → Type 0
Commits from [] to = from ≡ to
Commits from ((address, count) ∷ calls) to = (address ≡ from) × Commits (from + count) calls to

Commits-snoc :
    (from : ℕ) (calls : List (ℕ × ℕ)) (to count : ℕ)
    → Commits from calls to
    → Commits from (calls ++ ((to, count) ∷ [])) (to + count)
Commits-snoc from [] to count same = (sym same, ap (λ n. n + count) same)
Commits-snoc from ((address, n) ∷ calls) to count (here, c) =
    (here, Commits-snoc (from + n) calls to count c)

-- The reservation is a number of steps from `base` to the capacity, inside the address space, and the
-- calls of CommitMemory have committed the first of them, up to `commit_end`.
pub record IsReserved (base : ℕ) (calls : List (ℕ × ℕ)) (s : BumpAllocator) : Type 0 where
  pub steps : ℕ
  pub committed : ℕ
  pub ends : s.capacity ≡ base + steps * 65536
  pub in_space : s.capacity < 2 ^ 64
  pub commits : s.commit_end ≡ base + committed * 65536
  pub covered : Commits base calls s.commit_end
  pub below : s.commit_end ≤ s.capacity
  pub starts : base ≤ s.current_end

module _ (commit_memory : ℕ → ℕ → Bool) where
  -- The system commits what lies inside the reservation.
  abbrev pub CommitsInside : ℕ → ℕ → Type 0
  CommitsInside base top =
      (address count : ℕ)
      → base ≤ address
      → address + count ≤ top
      → commit_memory address count ≡ true

  pub loop_done :
      (n : ℕ) (s : BumpAllocator)
      → leb s.commit_end s.current_end ≡ false
      → commit_loop commit_memory (suc n) s ≡ some (s, [])
  unfolding commit_loop
  loop_done n s e = rw (commit_loop, e)

  loop_step :
      (n : ℕ) (s t : BumpAllocator) (calls : List (ℕ × ℕ))
      → leb s.commit_end s.current_end ≡ true
      → commit_memory s.commit_end 65536 ≡ true
      → s.commit_end + 65536 < 2 ^ 64
      → commit_loop commit_memory n (record s { commit_end = s.commit_end + commit_step })
        ≡ some (t, calls)
      → commit_loop commit_memory (suc n) s ≡ some (t, (s.commit_end, 65536) ∷ calls)
  unfolding commit_loop
  loop_step n s t calls e granted fits ran =
      let sum : (s.commit_end + 65536) % 2 ^ 64 ≡ s.commit_end + 65536 = omega arith in
      rw (commit_loop, e, granted, sum, ran) refl

  -- What the loop gives: all the memory below the bump is committed.
  abbrev pub Committed : ℕ → List (ℕ × ℕ) → ℕ → BumpAllocator → Type 0
  Committed base calls n s =
      (t : BumpAllocator) × (new : List (ℕ × ℕ)) × (commit_loop commit_memory (suc n) s
        ≡ some (t, new))
      × IsReserved base (calls ++ new) t
      × (t.current_end ≡ s.current_end)
      × (t.current_end < t.commit_end)
      × (t.capacity ≡ s.capacity)

  loop_ends :
      (base : ℕ) (calls : List (ℕ × ℕ)) (n : ℕ) (s : BumpAllocator)
      → IsReserved base calls s
      → leb s.commit_end s.current_end ≡ false
      → Committed base calls n s
  loop_ends base calls n s r e =
      (s, [], loop_done n s e, rw (append-nil calls) r, refl, ground arith, refl)

  pub commit_loop_lem :
      (base : ℕ) (calls : List (ℕ × ℕ)) (n : ℕ) (s : BumpAllocator)
      → IsReserved base calls s
      → CommitsInside base s.capacity
      → s.current_end < s.capacity
      → s.current_end < s.commit_end + n
      → Committed base calls n s
  commit_loop_lem base calls zero s r inside room fuel = loop_ends base calls 0 s r (ground arith)
  commit_loop_lem base calls (suc n) s r inside room fuel =
      elim (Bool-cases (leb s.commit_end s.current_end)) [
        | inl e ↦
            let behind : s.commit_end ≤ s.current_end = leb→le _ _ e in
            let left : s.commit_end + 65536 ≤ s.capacity =
              omega (arith, r.ends, r.commits, room, behind) in
            let granted = inside s.commit_end 65536 (omega (arith, r.commits)) left in
            let s' : BumpAllocator = record s { commit_end = s.commit_end + commit_step } in
            let calls' = calls ++ ((s.commit_end, 65536) ∷ []) in
            let r' : IsReserved base calls' s' = record {
              steps = r.steps;
              committed = r.committed + 1;
              ends = r.ends;
              in_space = r.in_space;
              commits = omega (arith, r.commits);
              covered = Commits-snoc base calls s.commit_end 65536 r.covered;
              below = left;
              starts = r.starts;
            } in
            let (t, new, ran, kept, same, over, top) =
              commit_loop_lem base calls' n s' r' inside room (omega (arith, fuel)) in
            (
              t,
              (s.commit_end, 65536) ∷ new,
              loop_step (suc n) s t new e granted (omega (arith, left, r.in_space)) ran,
              rw (append_assoc calls ((s.commit_end, 65536) ∷ []) new) at kept,
              same,
              over,
              top,
            )
        | inr e ↦ loop_ends base calls (suc n) s r e
      ]
