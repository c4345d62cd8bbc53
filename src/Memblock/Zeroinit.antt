-- ===== src/Memblock/Zeroinit.antt =====
-- `struct zeroinit_memory_block` of src/dynd/memblock/zeroinit_memory_block.cpp: its members, its
-- constructor, `finalize`, `reset` and its destructor have the statements of `pod_memory_block`, and
-- so have `allocate` and `resize`, but that these clear the memory that is new.
use libdynd.Common.{ℕ, ◌+◌, ◌-◌, List}
use libdynd.Memblock.Pod.{State, Range, Outcome, returned, bad_alloc, runtime_error}
use libdynd.Memblock.Pod
use libdynd.Memblock.Pod.Heap.{Chunk, memset}

-- `memset` of `n` bytes from `p` on.
abbrev pub cleared : ℕ → ℕ → State → State
cleared p n s = record s { memory = memset p 0 n s.memory }

abbrev pub clear_allocated : Outcome Range → Outcome Range
clear_allocated (returned r s) = returned r (cleared r.begin (r.end - r.begin) s)
clear_allocated (bad_alloc s) = bad_alloc s
clear_allocated (runtime_error s) = runtime_error s

unfoldable pub allocate : (List Chunk → ℕ → ℕ) → ℕ → ℕ → State → Outcome Range
allocate malloc size_bytes alignment s =
    clear_allocated (Pod.allocate malloc size_bytes alignment s)

-- From the end of the old range, which is moved with its begin, to the end of the new one.
abbrev pub clear_resized : Range → Outcome Range → Outcome Range
clear_resized old (returned r s) =
    let old_size_bytes = old.end - old.begin in
    returned r (cleared (r.begin + old_size_bytes) (r.end - (r.begin + old_size_bytes)) s)
clear_resized old (bad_alloc s) = bad_alloc s
clear_resized old (runtime_error s) = runtime_error s

unfoldable pub resize : (List Chunk → ℕ → ℕ) → ℕ → Range → State → Outcome Range
resize malloc size_bytes r s = clear_resized r (Pod.resize malloc size_bytes r s)
