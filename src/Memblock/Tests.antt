-- ===== src/Memblock/Tests.antt =====
-- Memory blocks run on a small heap, and the theorems for it.
use libdynd.Common.{
  ℕ, ◌+◌, ◌≤◌, ◌≡◌, refl, inr, arith, Bool, true, false, some, List, [], ◌∷◌, max, leb,
  if◌then◌else◌,
}
use libdynd.Common.Int.{pos, ◌+ℤ◌, ◌-ℤ◌}
use libdynd.Memblock.Pod.{
  State, range, bad_alloc, append_memory, make_pod_memory_block, allocate, resize, finalize, reset,
  destroy,
}
use libdynd.Memblock.Pod.Heap.{Chunk, chunk, Memory, free, free_all, memcpy, memset}
use libdynd.Memblock.Pod.Ranges.{Clear, IsMalloc, Separate}
use libdynd.Memblock.Pod.History.{Call, allocates, resizes, finalizes, step, run, run-Separate}
use libdynd.Memblock.Pod.Lifetime.{Event, happens, lifetime, lifetime-FreesAll, FreesAll}
use libdynd.Memblock.Pod.Lifetime
use libdynd.Memblock.Contents.{zeroinit_lem, Zeroed, Extended}
use libdynd.Memblock.Zeroinit

methods : Unit {0}
unfolding append_memory make_pod_memory_block allocate resize finalize reset destroy free free_all
    memcpy memset step run happens lifetime ◌+ℤ◌ ◌-ℤ◌
methods = tt

-- A heap that returns memory behind all chunks, and none of more than 100 bytes.
abbrev top : List Chunk → ℕ
top [] = 16
top (c ∷ cs) = max (c.start + c.size) (top cs)

abbrev malloc : List Chunk → ℕ → ℕ
malloc live n = if leb n 100 then top live else 0

top-Clear : (live : List Chunk) (p n : ℕ) → top live ≤ p → Clear live p n
top-Clear [] p n h = tt
top-Clear (c ∷ cs) p n h = (inr (omega arith), top-Clear cs p n (omega arith))

Clear-if :
    (b : Bool) (live : List Chunk) (p n : ℕ)
    → top live ≤ p
    → ((if b then p else 0) ≡ 0 → ⊥)
    → Clear live (if b then p else 0) n
Clear-if true live p n h k = top-Clear live p n h
Clear-if false live p n h k = absurd (k refl)

malloc-IsMalloc : IsMalloc malloc
malloc-IsMalloc live n h = Clear-if (leb n 100) live (top live) n (omega arith) h

abbrev zeros : Memory
zeros a = 0

-- A block of 32 bytes behind the chunk of another.
abbrev fresh : State
fresh = record {
  m_total_allocated_capacity = pos 32;
  m_memory_handles = 16 ∷ [];
  m_memory_begin = 16;
  m_memory_current = 16;
  m_memory_end = 48;
  live = chunk 16 32 ∷ chunk 4 8 ∷ [];
  memory = zeros;
}

made : make_pod_memory_block malloc 32 (chunk 4 8 ∷ []) zeros ≡ some fresh
unfolding methods
made = refl

abbrev calls : List Call
calls = allocates 5 1 ∷ allocates 10 8 ∷ resizes 40 ∷ allocates 200 8 ∷ resizes 7 ∷ finalizes ∷ []

history : (run malloc calls [] fresh).0 ≡ range 48 55 ∷ range 16 21 ∷ []
unfolding methods
history = refl

run-Separate_example : Separate (run malloc calls [] fresh).0
run-Separate_example =
    run-Separate malloc 32 (chunk 4 8 ∷ []) zeros fresh calls malloc-IsMalloc made
      (omega arith, (omega arith, (tt, (omega arith, (tt, (tt, tt))))))

abbrev events : List Event
events =
    Lifetime.allocates 40 8
    ∷ Lifetime.resizes 90 (range 48 88)
    ∷ Lifetime.resets
    ∷ Lifetime.allocates 3 1
    ∷ Lifetime.finalizes
    ∷ []

freed : lifetime malloc events fresh ≡ some (chunk 4 8 ∷ [])
unfolding methods
freed = refl

lifetime-FreesAll_example : FreesAll (chunk 4 8 ∷ []) (lifetime malloc events fresh)
lifetime-FreesAll_example = lifetime-FreesAll malloc 32 (chunk 4 8 ∷ []) zeros fresh events made

zeroinit_lem_example :
    Zeroed 20 (Zeroinit.allocate malloc 20 8 fresh)
    × Extended 20 (range 16 16) fresh (Zeroinit.resize malloc 20 (range 16 16) fresh)
zeroinit_lem_example = zeroinit_lem malloc 20 8 (range 16 16) fresh

-- What is left when an allocation of 200 bytes throws.
abbrev failed_block : State
failed_block = record fresh { m_total_allocated_capacity = pos 0; m_memory_begin = 0 }

fails : allocate malloc 200 8 fresh ≡ bad_alloc failed_block
unfolding methods
fails = refl

abbrev restarted_block : State
restarted_block = record failed_block { m_total_allocated_capacity = pos 48; m_memory_current = 0 }

restarts : reset failed_block ≡ some restarted_block
unfolding methods
restarts = refl
