-- ===== src/Memblock/Contents.antt =====
-- What the memory of a block holds after a call.
use libdynd.Common.{
  by_test, subst, ℕ, ◌+◌, ◌-◌, ◌≤◌, ◌<◌, ◌≡◌, refl, ap, ◌∙◌, arith, Bool, true, false, not, Option,
  none, some, List, ltb, leb, ◌==◌, length,
}
use libdynd.Common.Int.{ℤ, pos_part}
use libdynd.Memblock.Pod.{
  State, Range, range, Outcome, returned, bad_alloc, runtime_error, append_memory, grown, align_up,
  allocate, resize, with_heap, rewound, reset, only_last, all_but_last,
}
use libdynd.Memblock.Pod.Heap.{Chunk, memcpy, memset, free_all}
use libdynd.Memblock.Zeroinit.{clear_allocated, clear_resized}
use libdynd.Memblock.Zeroinit

-- A range of `size` bytes is returned that holds the bytes of the old range as far as both go.
abbrev Copied : ℕ → Range → State → Outcome Range → Type 0
Copied size old s (returned r t) =
    (r.end ≡ r.begin + size)
    × ((k : ℕ)
        → k < size
        → k < old.end - old.begin
        → t.memory (r.begin + k) ≡ s.memory (old.begin + k))
Copied size old s (bad_alloc t) = Unit
Copied size old s (runtime_error t) = Unit

-- `append_memory` writes to no memory.
append_memory-memory :
    (malloc : List Chunk → ℕ → ℕ) (n : ℤ) (s : State)
    → (append_memory malloc n s).1.memory ≡ s.memory
unfolding append_memory
append_memory-memory malloc n s =
    by_test (λ (m : Bool × State). m.1.memory ≡ s.memory) (malloc s.live (pos_part n) == 0)
      (λ e. refl) (λ e. refl)

memcpy-at : (p q n k : ℕ) (m : ℕ → ℕ) → k < n → memcpy p q n m (p + k) ≡ m (q + k)
unfolding memcpy
memcpy-at p q n k m h = ground arith

resize-Copied :
    (malloc : List Chunk → ℕ → ℕ) (size : ℕ) (r : Range) (s : State)
    → Copied size r s (resize malloc size r s)
unfolding resize
resize-Copied malloc size r s =
    by_test (Copied size r s) (not (r.end == s.m_memory_current)) (λ e. tt)
      (λ e.
        by_test (Copied size r s) (leb (r.begin + size) s.m_memory_end) (λ k. (refl, λ j a b. refl))
          (λ k.
            by_test (Copied size r s) (append_memory malloc _ s).0 (λ l. tt)
              (λ l. (
                refl,
                λ j a b.
                    memcpy-at _ r.begin (r.end - r.begin) j _ b
                    ∙ ap (λ (m : ℕ → ℕ). m (r.begin + j)) (append_memory-memory malloc _ s),
              ))))

-- Whether a range of `size` bytes is returned that holds zeros.
abbrev pub Zeroed : ℕ → Outcome Range → Type 0
Zeroed size (returned r t) =
    (r.end ≡ r.begin + size) × ((k : ℕ) → k < size → t.memory (r.begin + k) ≡ 0)
Zeroed size (bad_alloc t) = Unit
Zeroed size (runtime_error t) = Unit

-- A range of `size` bytes is returned that begins with the bytes of the old range, and has zeros
-- behind them.
abbrev pub Extended : ℕ → Range → State → Outcome Range → Type 0
Extended size old s (returned r t) =
    (r.end ≡ r.begin + size)
    × ((k : ℕ)
        → k < size
        → k < old.end - old.begin
        → t.memory (r.begin + k) ≡ s.memory (old.begin + k))
    × ((k : ℕ) → k < size → old.end - old.begin ≤ k → t.memory (r.begin + k) ≡ 0)
Extended size old s (bad_alloc t) = Unit
Extended size old s (runtime_error t) = Unit

memset-in : (p n k : ℕ) (m : ℕ → ℕ) → k < n → memset p 0 n m (p + k) ≡ 0
unfolding memset
memset-in p n k m h = ground arith

memset-before : (p n a : ℕ) (m : ℕ → ℕ) → a < p → memset p 0 n m a ≡ m a
unfolding memset
memset-before p n a m h = ground arith

clear_resized-Extended :
    (size : ℕ) (old : Range) (s : State) (o : Outcome Range)
    → Copied size old s o
    → Extended size old s (clear_resized old o)
clear_resized-Extended size old s (returned r t) c = (
  c.0,
  (λ k h l. memset-before _ _ (r.begin + k) t.memory (omega arith) ∙ c.1 k h l),
  (λ k h l.
      subst
        (λ a.
          memset (r.begin + (old.end - old.begin)) 0 (r.end - (r.begin + (old.end - old.begin)))
            t.memory a
          ≡ 0)
        (omega arith)
        (memset-in (r.begin + (old.end - old.begin)) _ (k - (old.end - old.begin)) t.memory
          (omega (arith, c.0)))),
)
clear_resized-Extended size old s (bad_alloc t) c = tt
clear_resized-Extended size old s (runtime_error t) c = tt

-- A range of `size` bytes is returned.
abbrev Sized : ℕ → Outcome Range → Type 0
Sized size (returned r t) = r.end ≡ r.begin + size
Sized size (bad_alloc t) = Unit
Sized size (runtime_error t) = Unit

allocate-Sized :
    (malloc : List Chunk → ℕ → ℕ) (size alignment : ℕ) (s : State)
    → Sized size (allocate malloc size alignment s)
unfolding allocate
allocate-Sized malloc size alignment s =
    by_test (Sized size) (ltb s.m_memory_end (align_up s.m_memory_current alignment + size))
      (λ e. by_test (Sized size) (grown malloc size s).0 (λ k. tt) (λ k. refl)) (λ e. refl)

clear_allocated-Zeroed :
    (size : ℕ) (o : Outcome Range) → Sized size o → Zeroed size (clear_allocated o)
clear_allocated-Zeroed size (returned r t) e =
    (e, λ k h. memset-in r.begin (r.end - r.begin) k t.memory (omega (arith, e)))
clear_allocated-Zeroed size (bad_alloc t) e = tt
clear_allocated-Zeroed size (runtime_error t) e = tt

-- A zero-initialized block returns memory of the size asked for that holds zeros, and resizes memory
-- so that the bytes it held stay, wherever it moves, and those behind them are zeros.
pub zeroinit_lem :
    (malloc : List Chunk → ℕ → ℕ) (size alignment : ℕ) (r : Range) (s : State)
    → Zeroed size (Zeroinit.allocate malloc size alignment s)
      × Extended size r s (Zeroinit.resize malloc size r s)
unfolding Zeroinit.allocate Zeroinit.resize
zeroinit_lem malloc size alignment r s = (
  clear_allocated-Zeroed size (allocate malloc size alignment s)
      (allocate-Sized malloc size alignment s),
  clear_resized-Extended size r s (resize malloc size r s) (resize-Copied malloc size r s),
)

-- After an allocation that throws, the block has no begin.
abbrev LosesBegin : State → Outcome Range → Type 0
LosesBegin s (returned r t) = Unit
LosesBegin s (bad_alloc t) = (t.m_memory_begin ≡ 0) × (t.m_memory_end ≡ s.m_memory_end)
LosesBegin s (runtime_error t) = Unit

append_memory-fails :
    (malloc : List Chunk → ℕ → ℕ) (n : ℤ) (s : State)
    → (append_memory malloc n s).0 ≡ true
    → ((append_memory malloc n s).1.m_memory_begin ≡ 0)
      × ((append_memory malloc n s).1.m_memory_end ≡ s.m_memory_end)
unfolding append_memory
append_memory-fails malloc n s =
    by_test
      (λ (m : Bool × State).
        m.0 ≡ true → (m.1.m_memory_begin ≡ 0) × (m.1.m_memory_end ≡ s.m_memory_end))
      (malloc s.live (pos_part n) == 0) (λ e h. (refl, refl)) (λ e h. absurd (ground arith))

allocate-LosesBegin :
    (malloc : List Chunk → ℕ → ℕ) (size alignment : ℕ) (s : State)
    → LosesBegin s (allocate malloc size alignment s)
unfolding allocate
allocate-LosesBegin malloc size alignment s =
    by_test (LosesBegin s) (ltb s.m_memory_end (align_up s.m_memory_current alignment + size))
      (λ e.
        by_test (LosesBegin s) (grown malloc size s).0 (append_memory-fails malloc _ _) (λ k. tt))
      (λ e. tt)

-- The rest begins where the block begins.
abbrev Rewinds : State → Option State → Type 0
Rewinds s none = Unit
Rewinds s (some t) = (t.m_memory_current ≡ s.m_memory_begin) × (t.m_memory_end ≡ s.m_memory_end)

with_heap-Rewinds :
    (handles : List ℕ) (o : Option (List Chunk)) (s : State)
    → Rewinds s (with_heap handles o (rewound s))
with_heap-Rewinds handles none s = tt
with_heap-Rewinds handles (some live) s = (refl, refl)

reset-Rewinds : (s : State) → Rewinds s (reset s)
unfolding reset
reset-Rewinds s =
    by_test (Rewinds s) (ltb 1 (length s.m_memory_handles))
      (λ e.
        with_heap-Rewinds (only_last s.m_memory_handles)
          (free_all (all_but_last s.m_memory_handles) s.live) s)
      (λ e. (refl, refl))

-- The range that a call returns, if it returns.
abbrev pub given_by : Outcome Range → Option Range
given_by (returned r s) = some r
given_by (bad_alloc s) = none
given_by (runtime_error s) = none

allocate-at_null :
    (malloc : List Chunk → ℕ → ℕ) (size : ℕ) (s : State)
    → s.m_memory_current ≡ 0
    → size ≤ s.m_memory_end
    → given_by (allocate malloc size 1 s) ≡ some (range 0 size)
unfolding allocate
allocate-at_null malloc size s z fits = rw (z, no_growth) (ap (λ n. some (range 0 n)) (omega arith))
  where
    no_growth : ltb s.m_memory_end (0 + size) ≡ false
    no_growth = ground arith

-- A block that is reset after an allocation threw `bad_alloc` hands out memory at NULL, up to the
-- number that was the end of its memory.
pub allocate-reset_after_bad_alloc :
    (malloc : List Chunk → ℕ → ℕ) (size alignment size' : ℕ) (s failed restarted : State)
    → allocate malloc size alignment s ≡ bad_alloc failed
    → reset failed ≡ some restarted
    → size' ≤ s.m_memory_end
    → given_by (allocate malloc size' 1 restarted) ≡ some (range 0 size')
allocate-reset_after_bad_alloc malloc size alignment size' s failed restarted e k fits =
    allocate-at_null malloc size' restarted (rewinds.0 ∙ loses.0)
      (omega (arith, rewinds.1, loses.1))
  where
    loses : LosesBegin s (bad_alloc failed)
    loses = subst (LosesBegin s) e (allocate-LosesBegin malloc size alignment s)

    rewinds : Rewinds failed (some restarted)
    rewinds = subst (Rewinds failed) k (reset-Rewinds failed)
