-- ===== src/Memblock/Pod.antt =====
-- `struct pod_memory_block` of src/dynd/memblock/pod_memory_block.cpp and the functions of its
-- allocator API, on an explicit heap. An address is a number, 0 is NULL, and sizes are not negative.
-- `malloc` is a parameter: the address for a size, or NULL, from the chunks that are allocated.
pub mod Heap
pub mod Separate
pub mod Ranges
pub mod Calls
pub mod History
pub mod Owned
pub mod Lifetime
use libdynd.Common.{
  ℕ, zero, suc, ◌+◌, ◌-◌, ◌%◌, Bool, true, false, not, ◌&&◌, Option, none, some, List, [], ◌∷◌,
  ◌++◌, length, ltb, leb, ◌==◌, max, if◌then◌else◌,
}
use libdynd.Common.Int.{ℤ, pos, ◌+ℤ◌, ◌-ℤ◌, ltb_ℤ, pos_part}
use Heap.{Chunk, chunk, Memory, memcpy, free_all}

-- The block, with the chunks that are allocated on the heap and what the memory holds.
pub record State : Type 0 where
  pub m_total_allocated_capacity : ℤ
  pub m_memory_handles : List ℕ
  pub m_memory_begin : ℕ
  pub m_memory_current : ℕ
  pub m_memory_end : ℕ
  pub live : List Chunk
  pub memory : Memory

-- The pointers to the begin and the end of memory that is handed out.
pub record Range : Type 0 where
  pub begin : ℕ
  pub end : ℕ

abbrev pub range : ℕ → ℕ → Range
range b e = record { begin = b; end = e }

-- A call returns, or throws one of the two exceptions, with the state that it leaves.
pub data Outcome {ℓ} (A : Type ℓ) : Type ℓ where
  returned : A → State → Outcome A
  bad_alloc : State → Outcome A
  runtime_error : State → Outcome A

-- `(p + alignment - 1) & ~(alignment - 1)`, of an alignment that is a power of 2.
abbrev pub align_up : ℕ → ℕ → ℕ
align_up p alignment = (p + alignment - 1) - (p + alignment - 1) % alignment

abbrev pub max_ℤ : ℤ → ℤ → ℤ
max_ℤ a b = if ltb_ℤ a b then b else a

-- The differences of pointers.
abbrev pub minus : ℕ → ℕ → ℤ
minus p q = pos p -ℤ pos q

-- The members as the constructor initializes them.
abbrev pub no_chunks : List Chunk → Memory → State
no_chunks live memory = record {
  m_total_allocated_capacity = pos 0;
  m_memory_handles = [];
  m_memory_begin = 0;
  m_memory_current = 0;
  m_memory_end = 0;
  live = live;
  memory = memory;
}

module _ (malloc : List Chunk → ℕ → ℕ) where
  -- The new state, and whether it throws `bad_alloc`.
  unfoldable pub append_memory : ℤ → State → Bool × State
  append_memory capacity_bytes s =
      let p = malloc s.live (pos_part capacity_bytes) in
      if p == 0 then (true, record s { m_memory_begin = 0 }) else (
        false,
        record s {
          m_total_allocated_capacity = s.m_total_allocated_capacity +ℤ capacity_bytes;
          m_memory_handles = s.m_memory_handles ++ (p ∷ []);
          m_memory_begin = p;
          m_memory_current = p;
          m_memory_end = p + pos_part capacity_bytes;
          live = chunk p (pos_part capacity_bytes) ∷ s.live;
        },
      )

  -- The constructor: `none` where it throws.
  unfoldable pub make_pod_memory_block : ℕ → List Chunk → Memory → Option State
  make_pod_memory_block initial_capacity_bytes live memory =
      let made = append_memory (pos initial_capacity_bytes) (no_chunks live memory) in
      if made.0 then none else some made.1

  -- The state when `allocate` asks for more memory, the tail of the chunk being given up.
  abbrev pub grown : ℕ → State → Bool × State
  grown size_bytes s =
      let total = s.m_total_allocated_capacity -ℤ minus s.m_memory_end s.m_memory_current in
      append_memory (max_ℤ total (pos size_bytes)) (record s { m_total_allocated_capacity = total })

  unfoldable pub allocate : ℕ → ℕ → State → Outcome Range
  allocate size_bytes alignment s =
      let begin = align_up s.m_memory_current alignment in
      let more = grown size_bytes s in
      if ltb s.m_memory_end (begin + size_bytes)
      then (if more.0
          then bad_alloc more.1
          else returned (range more.1.m_memory_begin (more.1.m_memory_begin + size_bytes))
              (record more.1 { m_memory_current = more.1.m_memory_begin + size_bytes }))
      else returned (range begin (begin + size_bytes))
          (record s { m_memory_current = begin + size_bytes })

  -- The bytes move with the range if it does not fit where it is.
  unfoldable pub resize : ℕ → Range → State → Outcome Range
  resize size_bytes r s =
      let more = append_memory (max_ℤ s.m_total_allocated_capacity (pos size_bytes)) s in
      if not (r.end == s.m_memory_current)
      then runtime_error s
      else if leb (r.begin + size_bytes) s.m_memory_end
      then returned (range r.begin (r.begin + size_bytes))
          (record s { m_memory_current = r.begin + size_bytes })
      else if more.0
      then bad_alloc more.1
      else returned (range more.1.m_memory_begin (more.1.m_memory_begin + size_bytes))
          (record more.1 {
            memory = memcpy more.1.m_memory_begin r.begin (r.end - r.begin) more.1.memory;
            m_memory_current = more.1.m_memory_begin + size_bytes;
            m_total_allocated_capacity = more.1.m_total_allocated_capacity -ℤ minus r.end r.begin;
          })

unfoldable pub finalize : State → State
finalize s = record s {
  m_total_allocated_capacity =
      if ltb s.m_memory_current s.m_memory_end
      then s.m_total_allocated_capacity -ℤ minus s.m_memory_end s.m_memory_current
      else s.m_total_allocated_capacity;
  m_memory_begin = 0;
  m_memory_current = 0;
  m_memory_end = 0;
}

-- The handles but the last, and the last alone.
abbrev pub all_but_last : List ℕ → List ℕ
all_but_last [] = []
all_but_last (h ∷ []) = []
all_but_last (h ∷ g ∷ hs) = h ∷ all_but_last (g ∷ hs)

abbrev pub only_last : List ℕ → List ℕ
only_last [] = []
only_last (h ∷ []) = h ∷ []
only_last (h ∷ g ∷ hs) = only_last (g ∷ hs)

abbrev pub with_heap : List ℕ → Option (List Chunk) → State → Option State
with_heap handles none s = none
with_heap handles (some live) s = some (record s { m_memory_handles = handles; live = live })

-- The chunk in use from its start.
abbrev pub rewound : State → State
rewound s = record s {
  m_memory_current = s.m_memory_begin;
  m_total_allocated_capacity = minus s.m_memory_end s.m_memory_begin;
}

-- `none` where an address is freed that is not allocated.
unfoldable pub reset : State → Option State
reset s =
    if ltb 1 (length s.m_memory_handles)
    then with_heap (only_last s.m_memory_handles)
        (free_all (all_but_last s.m_memory_handles) s.live) (rewound s)
    else some (rewound s)

-- The destructor, which frees every chunk: the chunks that are left, or `none` where an address is
-- freed that is not allocated.
unfoldable pub destroy : State → Option (List Chunk)
destroy s = free_all s.m_memory_handles s.live
