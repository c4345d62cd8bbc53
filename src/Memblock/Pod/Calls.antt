-- ===== src/Memblock/Pod/Calls.antt =====
-- The calls of a block's allocator keep the memory that is in use apart.
use libdynd.Common.{
  ℕ, ◌+◌, ◌-◌, ◌≤◌, ◌<◌, ◌≡◌, inl, inr, arith, ==_iff, Bool, true, false, Bool-cases, List, ◌∷◌,
  ltb, leb, ◌==◌, if◌then◌else◌,
}
use libdynd.Common.Int.{ℤ, pos, pos_part, ◌-ℤ◌}
use libdynd.Memblock.Pod.{
  State, Range, range, Outcome, returned, bad_alloc, align_up, max_ℤ, append_memory, allocate,
  resize, minus,
}
use libdynd.Memblock.Pod.Separate.{
  align_up-le, IsSound-taken, IsLatest-taken, with_chunk, IsSound-with_chunk, IsValid-fields,
  IsSound-tail, IsValid-stretched,
}
use libdynd.Memblock.Pod.Heap.{Chunk, memcpy}
use libdynd.Memblock.Pod.Ranges.{Clear, IsMalloc, IsSound, IsValid, Keeps}

-- `append_memory` ends without memory, or with a chunk that overlaps no other.
pub append_memory-cases {ℓ} :
    (P : Bool × State → Type ℓ) (malloc : List Chunk → ℕ → ℕ) (n : ℤ) (s : State)
    → IsMalloc malloc
    → P (true, record s { m_memory_begin = 0 })
    → ((total : ℤ) (handles : List ℕ) (p : ℕ)
        → Clear s.live p (pos_part n)
        → P (false, with_chunk s p (pos_part n) total handles))
    → P (append_memory malloc n s)
unfolding append_memory
append_memory-cases P malloc n s is_malloc failed appended =
    elim (Bool-cases (malloc s.live (pos_part n) == 0)) as (λ x. P (append_memory malloc n s)) [
      | inl e ↦ rw e failed
      | inr e ↦ rw e (
          appended _ _ (malloc s.live (pos_part n))
            (is_malloc s.live (pos_part n) (λ z. ground arith)))
    ]

max_ℤ-le : (a : ℤ) (n : ℕ) → n ≤ pos_part (max_ℤ a (pos n))
max_ℤ-le a n = ground arith

-- Ranges that are in use stay apart from a range that is taken from a new chunk.
IsValid-with_chunk :
    (s : State) (p n size : ℕ) (total : ℤ) (handles : List ℕ) (given : List Range)
    → Clear s.live p n
    → IsSound s given
    → size ≤ n
    → IsValid
        (record (with_chunk s p n total handles) { m_memory_current = p + size })
        (range p (p + size) ∷ given)
IsValid-with_chunk s p n size total handles given clear sound fits = (
  IsSound-taken (with_chunk s p n total handles) p (p + size) given
      (IsSound-with_chunk s p n clear total handles given sound) (omega arith) (omega arith)
      (omega arith),
  IsLatest-taken (with_chunk s p n total handles) p (p + size) given
      (IsSound-with_chunk s p n clear total handles given sound) (omega arith),
)

-- The range at the start of the chunk that `append_memory` got.
abbrev handed : ℕ → Bool × State → Outcome Range
handed size more =
    if more.0
    then bad_alloc more.1
    else returned (range more.1.m_memory_begin (more.1.m_memory_begin + size))
        (record more.1 { m_memory_current = more.1.m_memory_begin + size })

-- The range that `allocate` returns overlaps no range in use, and its exceptions leave those as they
-- are.
pub allocate-Keeps :
    (malloc : List Chunk → ℕ → ℕ) (size alignment : ℕ) (s : State) (given : List Range)
    → IsMalloc malloc
    → 0 < alignment
    → IsValid s given
    → Keeps given given (allocate malloc size alignment s)
unfolding allocate
allocate-Keeps malloc size alignment s given is_malloc h v =
    elim (Bool-cases (ltb s.m_memory_end (align_up s.m_memory_current alignment + size)))
      as (λ x. Keeps given given (allocate malloc size alignment s)) [
        | inl e ↦ rw e (
            append_memory-cases (λ more. Keeps given given (handed size more)) malloc _ _ is_malloc
              (IsValid-fields s _ 0 s.memory given v)
              (λ total handles p clear.
                IsValid-with_chunk s p _ size total handles given clear v.0 (
                  max_ℤ-le (s.m_total_allocated_capacity -ℤ minus s.m_memory_end s.m_memory_current)
                    size)))
        | inr e ↦ rw e (
          IsSound-taken s (align_up s.m_memory_current alignment) _ given v.0
              (align_up-le s.m_memory_current alignment h) (omega arith) (fits e),
          IsLatest-taken s (align_up s.m_memory_current alignment) _ given v.0
              (align_up-le s.m_memory_current alignment h),
        )
      ]
  where
    fits :
        ltb s.m_memory_end (align_up s.m_memory_current alignment + size) ≡ false
        → align_up s.m_memory_current alignment + size ≤ s.m_memory_end
    fits e = ground arith

abbrev resized : Range → ℕ → Bool × State → Outcome Range
resized r size more =
    if more.0
    then bad_alloc more.1
    else returned (range more.1.m_memory_begin (more.1.m_memory_begin + size)) (record more.1 {
      memory = memcpy more.1.m_memory_begin r.begin (r.end - r.begin) more.1.memory;
      m_memory_current = more.1.m_memory_begin + size;
      m_total_allocated_capacity = more.1.m_total_allocated_capacity -ℤ minus r.end r.begin;
    })

-- The range that `resize` returns takes the place of the one that was handed out last and overlaps no
-- other; its exceptions leave the ranges in use as they are.
pub resize-Keeps :
    (malloc : List Chunk → ℕ → ℕ) (size : ℕ) (s : State) (r : Range) (rs : List Range)
    → IsMalloc malloc
    → IsValid s (r ∷ rs)
    → Keeps (r ∷ rs) rs (resize malloc size r s)
unfolding resize
resize-Keeps malloc size s r rs is_malloc v =
    elim (Bool-cases (r.end == s.m_memory_current))
      as (λ x. Keeps (r ∷ rs) rs (resize malloc size r s)) [
        | inr e ↦ rw e v
        | inl e ↦
            elim (Bool-cases (leb (r.begin + size) s.m_memory_end))
              as (λ x. Keeps (r ∷ rs) rs (resize malloc size r s)) [
                | inl k ↦
                    rw (e, k)
                      (IsValid-stretched s r (r.begin + size) ((==_iff _ _).0 e) rs (omega arith)
                        (fits k) v)
                | inr k ↦
                    rw (e, k)
                      (append_memory-cases (λ more. Keeps (r ∷ rs) rs (resized r size more)) malloc
                        _ s is_malloc
                        (IsValid-fields s s.m_total_allocated_capacity 0 s.memory (r ∷ rs) v)
                        (λ total handles p clear.
                          IsValid-with_chunk
                            (record s { memory = memcpy p r.begin (r.end - r.begin) s.memory }) p _
                            size _ handles rs clear
                            (IsSound-tail _ r rs
                              (IsValid-fields s s.m_total_allocated_capacity s.m_memory_begin _
                                (r ∷ rs) v).0)
                            (max_ℤ-le s.m_total_allocated_capacity size)))
              ]
      ]
  where
    fits : leb (r.begin + size) s.m_memory_end ≡ true → r.begin + size ≤ s.m_memory_end
    fits k = ground arith
