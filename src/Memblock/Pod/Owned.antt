-- ===== src/Memblock/Pod/Owned.antt =====
-- A block frees what it allocates, each chunk once.
use libdynd.Common.{
  by_test, ℕ, ◌+◌, ◌≡◌, ◌≢◌, inl, inr, refl, ap, subst, arith, not, Bool-cases, ==_iff, Option,
  none, some, List, [], ◌∷◌, ◌++◌, length, ltb, leb, ◌==◌, if◌then◌else◌,
}
use libdynd.Common.Int.{ℤ, pos, pos_part}
use libdynd.Memblock.Pod.{
  State, Range, Outcome, returned, bad_alloc, runtime_error, append_memory, grown, align_up, max_ℤ,
  allocate, resize, all_but_last, only_last, with_heap, rewound, reset,
}
use libdynd.Memblock.Pod.Heap.{Chunk, cons_chunk, free, and_then, free_all}

-- How often a number stands in a list, and how many chunks start at an address.
abbrev pub times : List ℕ → ℕ → ℕ
times [] p = 0
times (h ∷ hs) p = (if h == p then 1 else 0) + times hs p

abbrev pub chunks_at : List Chunk → ℕ → ℕ
chunks_at [] p = 0
chunks_at (c ∷ cs) p = (if c.start == p then 1 else 0) + chunks_at cs p

times-append : (hs gs : List ℕ) (p : ℕ) → times (hs ++ gs) p ≡ times hs p + times gs p
times-append [] gs p = omega arith
times-append (h ∷ hs) gs p = omega (arith, times-append hs gs p)

-- The chunks on the heap are those of the handles, and others that the block does not touch.
abbrev pub Owns : List Chunk → List ℕ → List Chunk → Type 0
Owns live handles others = (p : ℕ) → chunks_at live p ≡ times handles p + chunks_at others p

-- `free` of an address at which a chunk starts takes one away.
Freed : List Chunk → ℕ → Option (List Chunk) → Type 0
Freed live p none = ⊥
Freed live p (some left) = (q : ℕ) → chunks_at live q ≡ (if p == q then 1 else 0) + chunks_at left q

Freed-cons :
    (c : Chunk) (live : List Chunk) (p : ℕ) (o : Option (List Chunk))
    → Freed live p o
    → Freed (c ∷ live) p (cons_chunk c o)
unfolding Freed
Freed-cons c live p none h = h
Freed-cons c live p (some left) h = λ q. omega (arith, h q)

free-Freed : (live : List Chunk) (p : ℕ) → chunks_at live p ≢ 0 → Freed live p (free p live)
unfolding free Freed
free-Freed [] p h = h refl
free-Freed (c ∷ cs) p h =
    elim (Bool-cases (c.start == p)) as (λ x. Freed (c ∷ cs) p (free p (c ∷ cs))) [
      | inl e ↦ rw e (λ q. ap (λ n. (if n == q then 1 else 0) + chunks_at cs q) ((==_iff _ _).0 e))
      | inr e ↦ rw e (Freed-cons c cs p (free p cs) (free-Freed cs p (λ z. h (rw e (omega arith)))))
    ]

-- What is left after handles are freed belongs to the other handles.
abbrev pub Left : List ℕ → List Chunk → Option (List Chunk) → Type 0
Left handles others none = ⊥
Left handles others (some left) = Owns left handles others

Left-and_then :
    (live : List Chunk) (p : ℕ) (hs gs : List ℕ) (others : List Chunk) (o : Option (List Chunk))
    → Freed live p o
    → Owns live (p ∷ hs ++ gs) others
    → ((left : List Chunk) → Owns left (hs ++ gs) others → Left gs others (free_all hs left))
    → Left gs others (and_then o (free_all hs))
unfolding Freed
Left-and_then live p hs gs others none h owns next = elim h [ ]
Left-and_then live p hs gs others (some left) h owns next =
    next left (λ q. omega (arith, h q, owns q))

pub free_all-Left :
    (hs gs : List ℕ) (live others : List Chunk)
    → Owns live (hs ++ gs) others
    → Left gs others (free_all hs live)
unfolding free_all
free_all-Left [] gs live others owns = owns
free_all-Left (p ∷ hs) gs live others owns =
    Left-and_then live p hs gs others (free p live) (free-Freed live p starts) owns
      (λ left. free_all-Left hs gs left others)
  where
    starts : chunks_at live p ≢ 0
    starts z = ground (arith, owns p)

-- The block of a state owns the chunks of its handles.
abbrev pub OwnsState : List Chunk → State → Type 0
OwnsState others s = Owns s.live s.m_memory_handles others

-- The state that a call leaves.
abbrev pub left_by : Outcome Range → State
left_by (returned a s) = s
left_by (bad_alloc s) = s
left_by (runtime_error s) = s

abbrev OwnsLeft : List Chunk → Outcome Range → Type 0
OwnsLeft others o = OwnsState others (left_by o)

module _ (malloc : List Chunk → ℕ → ℕ) (others : List Chunk) where
  pub append_memory-OwnsState :
      (n : ℤ) (s : State) → OwnsState others s → OwnsState others (append_memory malloc n s).1
  unfolding append_memory
  append_memory-OwnsState n s owns =
      elim (Bool-cases (malloc s.live (pos_part n) == 0))
        as (λ x. OwnsState others (append_memory malloc n s).1) [
          | inl e ↦ rw e owns
          | inr e ↦ rw e (λ q.
              omega (
                arith,
                owns q,
                times-append s.m_memory_handles (malloc s.live (pos_part n) ∷ []) q,
              ))
        ]

  pub allocate-OwnsState :
      (size alignment : ℕ) (s : State)
      → OwnsState others s
      → OwnsState others (left_by (allocate malloc size alignment s))
  unfolding allocate
  allocate-OwnsState size alignment s owns =
      by_test (OwnsLeft others) (ltb s.m_memory_end (align_up s.m_memory_current alignment + size))
        (λ e. by_test (OwnsLeft others) (grown malloc size s).0 (λ k. more) (λ k. more)) (λ e. owns)
    where
      more : OwnsState others (grown malloc size s).1
      more = append_memory-OwnsState _ _ owns

  pub resize-OwnsState :
      (size : ℕ) (r : Range) (s : State)
      → OwnsState others s
      → OwnsState others (left_by (resize malloc size r s))
  unfolding resize
  resize-OwnsState size r s owns =
      by_test (OwnsLeft others) (not (r.end == s.m_memory_current)) (λ e. owns)
        (λ e.
          by_test (OwnsLeft others) (leb (r.begin + size) s.m_memory_end) (λ k. owns)
            (λ k. by_test (OwnsLeft others) (append_memory malloc _ s).0 (λ l. more) (λ l. more)))
    where
      more :
          OwnsState others
            (append_memory malloc (max_ℤ s.m_total_allocated_capacity (pos size)) s).1
      more = append_memory-OwnsState _ _ owns

-- What a reset leaves, if it frees only chunks that are allocated.
abbrev pub OwnsReset : List Chunk → Option State → Type 0
OwnsReset others none = ⊥
OwnsReset others (some s) = OwnsState others s

last_split : (hs : List ℕ) → hs ≡ all_but_last hs ++ only_last hs
last_split [] = refl
last_split (h ∷ []) = refl
last_split (h ∷ g ∷ hs) = ap (λ l. h ∷ l) (last_split (g ∷ hs))

with_heap-OwnsReset :
    (others : List Chunk) (handles : List ℕ) (o : Option (List Chunk)) (s : State)
    → Left handles others o
    → OwnsReset others (with_heap handles o s)
with_heap-OwnsReset others handles none s h = h
with_heap-OwnsReset others handles (some left) s h = h

pub reset-OwnsReset :
    (others : List Chunk) (s : State) → OwnsState others s → OwnsReset others (reset s)
unfolding reset
reset-OwnsReset others s owns =
    by_test (OwnsReset others) (ltb 1 (length s.m_memory_handles))
      (λ e. with_heap-OwnsReset others (only_last s.m_memory_handles) _ (rewound s) (
        free_all-Left (all_but_last s.m_memory_handles) (only_last s.m_memory_handles) s.live others
          (subst (λ hs. Owns s.live hs others) (last_split s.m_memory_handles) owns)))
      (λ e. owns)
