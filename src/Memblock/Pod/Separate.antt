-- ===== src/Memblock/Pod/Separate.antt =====
-- What a range that is taken, extended or taken from a new chunk leaves apart.
use libdynd.Common.{ℕ, ◌+◌, ◌-◌, ◌≤◌, ◌<◌, ◌≡◌, ◌⊎◌, inl, inr, arith, List, [], ◌∷◌}
use libdynd.Common.Int.{ℤ}
use native.Mathlib.Nat.{mod-lt}
use libdynd.Memblock.Pod.{State, Range, range, align_up}
use libdynd.Memblock.Pod.Heap.{Chunk, chunk, Memory}
use libdynd.Memblock.Pod.Ranges.{
  Apart, All, Within, Clear, unused, IsPlaced, IsLatest, IsSound, IsValid,
}

Within-Clear :
    (live : List Chunk) (p n : ℕ) (r : Range)
    → Within live r
    → Clear live p n
    → (r.end ≤ p) ⊎ (p + n ≤ r.begin) ⊎ (r.end ≤ r.begin)
Within-Clear [] p n r h k = elim h [ ]
Within-Clear (c ∷ cs) p n r (inl h) k = ground arith
Within-Clear (c ∷ cs) p n r (inr h) k = Within-Clear cs p n r h k.1

Within-part :
    (live : List Chunk) (r q : Range)
    → Within live r
    → r.begin ≤ q.begin
    → q.end ≤ r.end
    → Within live q
Within-part [] r q h lo hi = elim h [ ]
Within-part (c ∷ cs) r q (inl h) lo hi = inl (ground arith)
Within-part (c ∷ cs) r q (inr h) lo hi = inr (Within-part cs r q h lo hi)

pub align_up-le : (p a : ℕ) → 0 < a → p ≤ align_up p a
align_up-le p a h = omega (arith, mod-lt (p + a - 1) h)

-- A range taken from the memory that is left.
module _ (s : State) (b e : ℕ) where
  IsPlaced-taken :
      (r : Range)
      → s.m_memory_current ≤ b
      → b ≤ e
      → e ≤ s.m_memory_end
      → IsPlaced s r
      → IsPlaced (record s { m_memory_current = e }) r × Apart (range b e) r
  IsPlaced-taken r lo h hi p = ground arith

  All-taken :
      (rs : List Range)
      → s.m_memory_current ≤ b
      → b ≤ e
      → e ≤ s.m_memory_end
      → All (IsPlaced s) rs
      → All (IsPlaced (record s { m_memory_current = e })) rs × All (Apart (range b e)) rs
  All-taken [] lo h hi p = (tt, tt)
  All-taken (r ∷ rs) lo h hi p = (
    ((IsPlaced-taken r lo h hi p.0).0, (All-taken rs lo h hi p.1).0),
    ((IsPlaced-taken r lo h hi p.0).1, (All-taken rs lo h hi p.1).1),
  )

  pub IsSound-taken :
      (given : List Range)
      → IsSound s given
      → s.m_memory_current ≤ b
      → b ≤ e
      → e ≤ s.m_memory_end
      → IsSound (record s { m_memory_current = e }) (range b e ∷ given)
  IsSound-taken given sound lo h hi = record {
    ordered = hi;
    left_within = elim sound.left_within [
      | inl l ↦ inl (omega arith)
      | inr w ↦
          inr (Within-part s.live (unused s) (range e s.m_memory_end) w (omega arith) (omega arith))
    ];
    placed = (
      elim sound.left_within [
        | inl l ↦ inl (omega arith)
        | inr w ↦ inr (Within-part s.live (unused s) (range b e) w lo hi, inl (omega arith))
      ],
      (All-taken given lo h hi sound.placed).0,
    );
    separate = ((All-taken given lo h hi sound.placed).1, sound.separate);
  }

  pub IsLatest-taken :
      (given : List Range)
      → IsSound s given
      → s.m_memory_current ≤ b
      → IsLatest (record s { m_memory_current = e }) (range b e ∷ given)
  IsLatest-taken given sound lo = λ _. elim sound.left_within [
    | inl l ↦ inl (omega arith)
    | inr w ↦ inr (Within-part s.live (unused s) (range b s.m_memory_end) w lo (omega arith))
  ]

-- The block with a new chunk of `n` bytes at `p`.
abbrev pub with_chunk : State → ℕ → ℕ → ℤ → List ℕ → State
with_chunk s p n total handles = record s {
  m_total_allocated_capacity = total;
  m_memory_handles = handles;
  m_memory_begin = p;
  m_memory_current = p;
  m_memory_end = p + n;
  live = chunk p n ∷ s.live;
}

module _ (s : State) (p n : ℕ) (clear : Clear s.live p n) where
  All-with_chunk :
      (total : ℤ) (handles : List ℕ) (rs : List Range)
      → All (IsPlaced s) rs
      → All (IsPlaced (with_chunk s p n total handles)) rs
  All-with_chunk total handles [] h = tt
  All-with_chunk total handles (r ∷ rs) h = (moved h.0, All-with_chunk total handles rs h.1)
    where
      moved : IsPlaced s r → IsPlaced (with_chunk s p n total handles) r
      moved (inl e) = inl e
      moved (inr w) = elim (Within-Clear s.live p n r w.0 clear) [
        | inl b ↦ inr (inr w.0, inl b)
        | inr (inl a) ↦ inr (inr w.0, inr a)
        | inr (inr e) ↦ inl e
      ]

  -- No range is handed out of the chunk yet.
  pub IsSound-with_chunk :
      (total : ℤ) (handles : List ℕ) (given : List Range)
      → IsSound s given
      → IsSound (with_chunk s p n total handles) given
  IsSound-with_chunk total handles given sound = record {
    ordered = omega arith;
    left_within = inr (inl (omega arith, omega arith));
    placed = All-with_chunk total handles given sound.placed;
    separate = sound.separate;
  }

-- The other fields play no part.
pub IsValid-fields :
    (s : State) (total : ℤ) (b : ℕ) (m : Memory) (given : List Range)
    → IsValid s given
    → IsValid
        (record s { m_total_allocated_capacity = total; m_memory_begin = b; memory = m })
        given
IsValid-fields s total b m given v = (
  record {
    ordered = v.0.ordered;
    left_within = v.0.left_within;
    placed = v.0.placed;
    separate = v.0.separate;
  },
  v.1,
)

pub IsSound-tail : (s : State) (r : Range) (rs : List Range) → IsSound s (r ∷ rs) → IsSound s rs
IsSound-tail s r rs sound = record {
  ordered = sound.ordered;
  left_within = sound.left_within;
  placed = sound.placed.1;
  separate = sound.separate.1;
}

-- The range handed out last, cut or extended where it is.
module _ (s : State) (r : Range) (e : ℕ) (is_end : r.end ≡ s.m_memory_current) where
  All-stretched :
      (rs : List Range)
      → r.begin ≤ e
      → e ≤ s.m_memory_end
      → All (IsPlaced s) rs
      → All (Apart r) rs
      → All (IsPlaced (record s { m_memory_current = e })) rs × All (Apart (range r.begin e)) rs
  All-stretched [] lo hi p a = (tt, tt)
  All-stretched (q ∷ rs) lo hi p a = (
    (stretched p.0 a.0, (All-stretched rs lo hi p.1 a.1).0),
    (apart p.0 a.0, (All-stretched rs lo hi p.1 a.1).1),
  )
    where
      stretched : IsPlaced s q → Apart r q → IsPlaced (record s { m_memory_current = e }) q
      stretched h k = ground arith

      apart : IsPlaced s q → Apart r q → Apart (range r.begin e) q
      apart h k = ground arith

  whole :
      {rs : List Range}
      → r.begin ≤ e
      → e ≤ s.m_memory_end
      → IsValid s (r ∷ rs)
      → IsPlaced (record s { m_memory_current = e }) (range r.begin e)
  whole lo hi v = elim (v.1 is_end) [
    | inl l ↦ inl (omega arith)
    | inr w ↦ inr (Within-part s.live _ (range r.begin e) w (omega arith) hi, inl (omega arith))
  ]

  pub IsValid-stretched :
      (rs : List Range)
      → r.begin ≤ e
      → e ≤ s.m_memory_end
      → IsValid s (r ∷ rs)
      → IsValid (record s { m_memory_current = e }) (range r.begin e ∷ rs)
  IsValid-stretched rs lo hi v = (
    record {
      ordered = hi;
      left_within = elim (v.1 is_end) [
        | inl l ↦ inl (omega arith)
        | inr w ↦ inr (Within-part s.live _ (range e s.m_memory_end) w lo (omega arith))
      ];
      placed = (whole lo hi v, (All-stretched rs lo hi v.0.placed.1 v.0.separate.0).0);
      separate = ((All-stretched rs lo hi v.0.placed.1 v.0.separate.0).1, v.0.separate.1);
    },
    λ _. v.1 is_end,
  )
