-- ===== src/Memblock/Pod/Heap.antt =====
-- The heap below a memory block: chunks that are allocated, `free`, and the bytes in memory.
use libdynd.Common.{
  ℕ, ◌+◌, ◌-◌, ◌&&◌, Option, none, some, List, [], ◌∷◌, ltb, leb, ◌==◌, if◌then◌else◌,
}

pub record Chunk : Type 0 where
  pub start : ℕ
  pub size : ℕ

abbrev pub chunk : ℕ → ℕ → Chunk
chunk p n = record { start = p; size = n }

abbrev pub cons_chunk : Chunk → Option (List Chunk) → Option (List Chunk)
cons_chunk c none = none
cons_chunk c (some cs) = some (c ∷ cs)

-- `free` of an address that is not NULL: `none`, which is undefined in C, if no chunk starts there.
unfoldable pub free : ℕ → List Chunk → Option (List Chunk)
free p [] = none
free p (c ∷ cs) = let rest = free p cs in if c.start == p then some cs else cons_chunk c rest

abbrev pub and_then : Option (List Chunk) → (List Chunk → Option (List Chunk)) → Option (List Chunk)
and_then none f = none
and_then (some cs) f = f cs

-- The loop that frees handles from the first on.
unfoldable pub free_all : List ℕ → List Chunk → Option (List Chunk)
free_all [] live = some live
free_all (p ∷ ps) live = and_then (free p live) (free_all ps)

-- The byte at each address.
abbrev pub Memory : Type 0
Memory = ℕ → ℕ

unfoldable pub memcpy : ℕ → ℕ → ℕ → Memory → Memory
memcpy dst src n m a = if leb dst a && ltb a (dst + n) then m (src + (a - dst)) else m a

unfoldable pub memset : ℕ → ℕ → ℕ → Memory → Memory
memset dst v n m a = if leb dst a && ltb a (dst + n) then v else m a
