-- ===== src/Memblock/Pod/Ranges.antt =====
-- Ranges of memory: when they overlap, lie in chunks, and are in order in a block.
use libdynd.Common.{ℕ, ◌+◌, ◌≤◌, ◌≡◌, ◌≢◌, ◌⊎◌, List, [], ◌∷◌}
use libdynd.Memblock.Pod.{State, Range, range, Outcome, returned, bad_alloc, runtime_error}
use libdynd.Memblock.Pod.Heap.{Chunk}

-- No address lies in both.
abbrev pub Apart : Range → Range → Type 0
Apart a b = (a.end ≤ b.begin) ⊎ (b.end ≤ a.begin) ⊎ (a.end ≤ a.begin) ⊎ (b.end ≤ b.begin)

abbrev pub All {ℓ κ} : {A : Type ℓ} → (A → Type κ) → List A → Type κ
All P [] = Unit
All P (x ∷ xs) = P x × All P xs

abbrev pub Separate : List Range → Type 0
Separate [] = Unit
Separate (r ∷ rs) = All (Apart r) rs × Separate rs

-- One of the chunks holds the range.
abbrev pub Within : List Chunk → Range → Type 0
Within [] r = ⊥
Within (c ∷ cs) r = ((c.start ≤ r.begin) × (r.end ≤ c.start + c.size)) ⊎ Within cs r

-- Memory of `n` bytes at `p` overlaps no chunk.
abbrev pub Clear : List Chunk → ℕ → ℕ → Type 0
Clear [] p n = Unit
Clear (c ∷ cs) p n = ((p + n ≤ c.start) ⊎ (c.start + c.size ≤ p)) × Clear cs p n

-- What `malloc` promises: NULL, or memory that overlaps no chunk that is allocated.
abbrev pub IsMalloc : (List Chunk → ℕ → ℕ) → Type 0
IsMalloc malloc = (live : List Chunk) (n : ℕ) → malloc live n ≢ 0 → Clear live (malloc live n) n

-- The memory that the block has left to hand out.
abbrev pub unused : State → Range
unused s = range s.m_memory_current s.m_memory_end

-- A range is empty, or lies in a chunk, and apart from the memory that is left.
abbrev pub IsPlaced : State → Range → Type 0
IsPlaced s r =
    (r.end ≤ r.begin)
    ⊎ (Within s.live r × ((r.end ≤ s.m_memory_current) ⊎ (s.m_memory_end ≤ r.begin)))

-- If the range that was handed out last ends where the rest begins, one chunk holds both.
abbrev pub IsLatest : State → List Range → Type 0
IsLatest s [] = Unit
IsLatest s (r ∷ rs) =
    r.end ≡ s.m_memory_current
    → (s.m_memory_end ≤ r.begin) ⊎ Within s.live (range r.begin s.m_memory_end)

-- The block with the ranges that are in use: they do not overlap each other or what is left.
pub record IsSound (s : State) (given : List Range) : Type 0 where
  pub ordered : s.m_memory_current ≤ s.m_memory_end
  pub left_within : (s.m_memory_end ≤ s.m_memory_current) ⊎ Within s.live (unused s)
  pub placed : All (IsPlaced s) given
  pub separate : Separate given

-- The block, the ranges in use, and the one handed out last.
abbrev pub IsValid : State → List Range → Type 0
IsValid s given = IsSound s given × IsLatest s given

-- What a call leaves valid: the range that it returns joins the others.
abbrev pub Keeps : List Range → List Range → Outcome Range → Type 0
Keeps given others (returned r s) = IsValid s (r ∷ others)
Keeps given others (bad_alloc s) = IsValid s given
Keeps given others (runtime_error s) = IsValid s given
