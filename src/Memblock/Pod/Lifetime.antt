-- ===== src/Memblock/Pod/Lifetime.antt =====
-- A block from its constructor to its destructor.
use libdynd.Common.{
  by_test, append-nil, ℕ, ◌≡◌, refl, sym, subst, arith, Option, none, some, List, [], ◌∷◌,
}
use libdynd.Common.Int.{pos}
use libdynd.Memblock.Pod.{
  State, Range, append_memory, make_pod_memory_block, no_chunks, allocate, resize, finalize, reset,
  destroy,
}
use libdynd.Memblock.Pod.Heap.{Chunk, Memory}
use libdynd.Memblock.Pod.Owned.{
  chunks_at, Owns, Left, free_all-Left, OwnsState, left_by, OwnsReset, append_memory-OwnsState,
  allocate-OwnsState, resize-OwnsState, reset-OwnsReset,
}

-- The calls of the allocator, on any ranges.
pub data Event : Type 0 where
  allocates : (size alignment : ℕ) → Event
  resizes : (size : ℕ) (r : Range) → Event
  finalizes resets : Event

-- A call that throws leaves its state to the next one. `none` is undefined behaviour.
unfoldable pub happens : (List Chunk → ℕ → ℕ) → Event → State → Option State
happens malloc (allocates size alignment) s = some (left_by (allocate malloc size alignment s))
happens malloc (resizes size r) s = some (left_by (resize malloc size r s))
happens malloc finalizes s = some (finalize s)
happens malloc resets s = reset s

abbrev bind_state {ℓ} : {A : Type ℓ} → Option State → (State → Option A) → Option A
bind_state none f = none
bind_state (some s) f = f s

-- The calls in their order, and the destructor.
unfoldable pub lifetime : (List Chunk → ℕ → ℕ) → List Event → State → Option (List Chunk)
lifetime malloc [] s = destroy s
lifetime malloc (e ∷ es) s = bind_state (happens malloc e s) (lifetime malloc es)

happens-OwnsReset :
    (malloc : List Chunk → ℕ → ℕ) (others : List Chunk) (e : Event) (s : State)
    → OwnsState others s
    → OwnsReset others (happens malloc e s)
unfolding happens finalize
happens-OwnsReset malloc others (allocates size alignment) s owns =
    allocate-OwnsState malloc others size alignment s owns
happens-OwnsReset malloc others (resizes size r) s owns =
    resize-OwnsState malloc others size r s owns
happens-OwnsReset malloc others finalizes s owns = owns
happens-OwnsReset malloc others resets s owns = reset-OwnsReset others s owns

bind_state-Left :
    (others : List Chunk) (o : Option State) (f : State → Option (List Chunk))
    → OwnsReset others o
    → ((s : State) → OwnsState others s → Left [] others (f s))
    → Left [] others (bind_state o f)
bind_state-Left others none f h next = elim h [ ]
bind_state-Left others (some s) f h next = next s h

lifetime-Left :
    (malloc : List Chunk → ℕ → ℕ) (others : List Chunk) (es : List Event) (s : State)
    → OwnsState others s
    → Left [] others (lifetime malloc es s)
unfolding lifetime destroy
lifetime-Left malloc others [] s owns =
    free_all-Left s.m_memory_handles [] s.live others
      (subst (λ hs. Owns s.live hs others) (sym (append-nil s.m_memory_handles)) owns)
lifetime-Left malloc others (e ∷ es) s owns =
    bind_state-Left others (happens malloc e s) (lifetime malloc es)
      (happens-OwnsReset malloc others e s owns) (lifetime-Left malloc others es)

abbrev NewOwns : List Chunk → Option State → Type 0
NewOwns others none = Unit
NewOwns others (some s) = OwnsState others s

make-NewOwns :
    (malloc : List Chunk → ℕ → ℕ) (capacity : ℕ) (live : List Chunk) (memory : Memory)
    → NewOwns live (make_pod_memory_block malloc capacity live memory)
unfolding make_pod_memory_block
make-NewOwns malloc capacity live memory =
    by_test (NewOwns live) (append_memory malloc (pos capacity) (no_chunks live memory)).0 (λ e. tt)
      (λ e.
        append_memory-OwnsState malloc live (pos capacity) (no_chunks live memory)
          (λ p. omega arith))

abbrev pub FreesAll : List Chunk → Option (List Chunk) → Type 0
FreesAll live o =
    (left : List Chunk) × (o ≡ some left) × ((p : ℕ) → chunks_at left p ≡ chunks_at live p)

Left-FreesAll : (live : List Chunk) (o : Option (List Chunk)) → Left [] live o → FreesAll live o
Left-FreesAll live none h = elim h [ ]
Left-FreesAll live (some left) h = (left, refl, λ p. omega (arith, h p))

-- From its constructor to its destructor, whatever calls come in between and whichever of them fail, a
-- block frees no address that is not allocated, and in the end as many chunks start at every address
-- as before.
pub lifetime-FreesAll :
    (malloc : List Chunk → ℕ → ℕ) (capacity : ℕ) (live : List Chunk) (memory : Memory) (s : State)
    (events : List Event)
    → make_pod_memory_block malloc capacity live memory ≡ some s
    → FreesAll live (lifetime malloc events s)
lifetime-FreesAll malloc capacity live memory s events e = Left-FreesAll live _ (
    lifetime-Left malloc live events s
      (subst (NewOwns live) e (make-NewOwns malloc capacity live memory)))
