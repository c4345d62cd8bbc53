-- ===== src/Memblock/Pod/History.antt =====
-- Whole histories of a block keep the memory that is in use apart.
use libdynd.Common.{
  ℕ, ◌<◌, ◌≡◌, inl, refl, arith, subst, Option, none, some, List, [], ◌∷◌, if◌then◌else◌,
}
use libdynd.Memblock.Pod.{
  State, Range, Outcome, returned, bad_alloc, runtime_error, make_pod_memory_block, no_chunks,
  allocate, resize, finalize,
}
use libdynd.Memblock.Pod.Separate.{IsSound-with_chunk}
use libdynd.Memblock.Pod.Heap.{Chunk, Memory}
use libdynd.Memblock.Pod.Ranges.{
  All, Separate, IsMalloc, IsPlaced, IsLatest, IsSound, IsValid, Keeps,
}
use libdynd.Memblock.Pod.Calls.{append_memory-cases, allocate-Keeps, resize-Keeps}

-- The calls of a client, which resizes the range that it got last.
pub data Call : Type 0 where
  allocates : (size alignment : ℕ) → Call
  resizes : (size : ℕ) → Call
  finalizes : Call

abbrev pub HasAlignment : Call → Type 0
HasAlignment (allocates size alignment) = 0 < alignment
HasAlignment (resizes size) = Unit
HasAlignment finalizes = Unit

-- The block and the ranges in use, the last one first.
abbrev pub Client : Type 0
Client = List Range × State

abbrev after : List Range → List Range → Outcome Range → Client
after given others (returned r s) = (r ∷ others, s)
after given others (bad_alloc s) = (given, s)
after given others (runtime_error s) = (given, s)

unfoldable pub step : (List Chunk → ℕ → ℕ) → Call → List Range → State → Client
step malloc (allocates size alignment) given s =
    after given given (allocate malloc size alignment s)
step malloc (resizes size) [] s = ([], s)
step malloc (resizes size) (r ∷ rs) s = after (r ∷ rs) rs (resize malloc size r s)
step malloc finalizes given s = (given, finalize s)

unfoldable pub run : (List Chunk → ℕ → ℕ) → List Call → List Range → State → Client
run malloc [] given s = (given, s)
run malloc (c ∷ cs) given s = let next = step malloc c given s in run malloc cs next.0 next.1

after-IsValid :
    (given others : List Range) (o : Outcome Range)
    → Keeps given others o
    → IsValid (after given others o).1 (after given others o).0
after-IsValid given others (returned r s) v = v
after-IsValid given others (bad_alloc s) v = v
after-IsValid given others (runtime_error s) v = v

finalize-IsPlaced :
    (s : State) (rs : List Range) → All (IsPlaced s) rs → All (IsPlaced (finalize s)) rs
unfolding finalize
finalize-IsPlaced s [] h = tt
finalize-IsPlaced s (r ∷ rs) h = (outside h.0, finalize-IsPlaced s rs h.1)
  where
    outside : IsPlaced s r → IsPlaced (finalize s) r
    outside k = ground arith

finalize-IsLatest : (s : State) (given : List Range) → IsLatest (finalize s) given
unfolding finalize
finalize-IsLatest s [] = tt
finalize-IsLatest s (r ∷ rs) = λ e. inl (omega arith)

finalize-IsValid : (s : State) (given : List Range) → IsValid s given → IsValid (finalize s) given
unfolding finalize
finalize-IsValid s given v = (
  record {
    ordered = omega arith;
    left_within = inl (omega arith);
    placed = finalize-IsPlaced s given v.0.placed;
    separate = v.0.separate;
  },
  finalize-IsLatest s given,
)

abbrev ValidClient : Client → Type 0
ValidClient c = IsValid c.1 c.0

step-IsValid :
    (malloc : List Chunk → ℕ → ℕ) (c : Call) (given : List Range) (s : State)
    → IsMalloc malloc
    → HasAlignment c
    → IsValid s given
    → ValidClient (step malloc c given s)
unfolding step
step-IsValid malloc (allocates size alignment) given s m h v =
    after-IsValid given given _ (allocate-Keeps malloc size alignment s given m h v)
step-IsValid malloc (resizes size) [] s m h v = v
step-IsValid malloc (resizes size) (r ∷ rs) s m h v =
    after-IsValid (r ∷ rs) rs _ (resize-Keeps malloc size s r rs m v)
step-IsValid malloc finalizes given s m h v = finalize-IsValid s given v

run-IsValid :
    (malloc : List Chunk → ℕ → ℕ) (cs : List Call) (given : List Range) (s : State)
    → IsMalloc malloc
    → All HasAlignment cs
    → IsValid s given
    → ValidClient (run malloc cs given s)
unfolding run
run-IsValid malloc [] given s m h v = v
run-IsValid malloc (c ∷ cs) given s m h v =
    run-IsValid malloc cs _ _ m h.1 (step-IsValid malloc c given s m h.0 v)

-- The state that the constructor makes, if it makes one.
abbrev NewValid : Option State → Type 0
NewValid none = Unit
NewValid (some s) = IsValid s []

empty-IsSound : (s : State) → s.m_memory_end ≡ s.m_memory_current → IsSound s []
empty-IsSound s e = record {
  ordered = omega arith;
  left_within = inl (omega arith);
  placed = tt;
  separate = tt;
}

make-NewValid :
    (malloc : List Chunk → ℕ → ℕ) (capacity : ℕ) (live : List Chunk) (memory : Memory)
    → IsMalloc malloc
    → NewValid (make_pod_memory_block malloc capacity live memory)
unfolding make_pod_memory_block
make-NewValid malloc capacity live memory m =
    append_memory-cases (λ made. NewValid (if made.0 then none else some made.1)) malloc _ _ m tt
      (λ total handles p clear. (
        IsSound-with_chunk (no_chunks live memory) p capacity clear total handles []
            (empty-IsSound (no_chunks live memory) refl),
        tt,
      ))

-- Whatever calls a client makes of a new block, allocations, resizes of the memory it got last and
-- finalizations, and whichever of them fail, no two ranges that are in use overlap, if `malloc`
-- returns NULL or memory that overlaps no chunk and each alignment is positive.
pub run-Separate :
    (malloc : List Chunk → ℕ → ℕ) (capacity : ℕ) (live : List Chunk) (memory : Memory) (s : State)
    (calls : List Call)
    → IsMalloc malloc
    → make_pod_memory_block malloc capacity live memory ≡ some s
    → All HasAlignment calls
    → Separate (run malloc calls [] s).0
run-Separate malloc capacity live memory s calls m e h =
    (run-IsValid malloc calls [] s m h
      (subst NewValid e (make-NewValid malloc capacity live memory m))).0.separate
