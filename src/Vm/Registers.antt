-- ===== src/Vm/Registers.antt =====
-- The constructor of `class register_allocation`, of include/dynd/vm/register_allocation.hpp and
-- src/dynd/vm/register_allocation.cpp. The sizes and the alignments of types are parameters, an
-- alignment is a power of 2, and so is `malloc`, whose result 0 is the null pointer. The counts of
-- bytes and elements are taken not to be negative, the sizes of the types not all to be 0, by whose
-- sum the source divides, and the memory to fit the address space.
use native.Mathlib.Nat.{mod-eq_of_lt}
use libdynd.Common.{
  ℕ, zero, suc, ◌+◌, ◌-◌, ◌*◌, ◌/◌, ◌%◌, ◌<◌, ◌≡◌, refl, ap, ap₂, false, arith, List, [], ◌∷◌,
  length, ltb, ◌==◌, if◌then◌else◌, replicate,
}

-- The overload for an offset.
abbrev pub inc_to_alignment : ℕ → ℕ → ℕ
inc_to_alignment offset alignment = (offset + alignment - 1) - (offset + alignment - 1) % alignment

pub data Allocated : Type 0 where
  no_registers : Allocated
  bad_alloc : Allocated
  -- `m_allocated_memory`, and what is in `m_registers`.
  allocated : (memory : ℕ) (registers : List ℕ) → Allocated

-- "Turn it into an element count, clamped to [1, max_element_count"
abbrev pub clamped : ℕ → ℕ → ℕ
clamped element_count max_element_count =
    if element_count == 0
    then 1
    else if ltb max_element_count element_count
    then max_element_count
    else element_count

inc_to_alignment-zero : (a : ℕ) → 0 < a → inc_to_alignment 0 a ≡ 0
inc_to_alignment-zero zero h = absurd (omega arith)
inc_to_alignment-zero (suc a) h =
    let small : 0 + suc a - 1 < suc a = omega arith in omega (arith, mod-eq_of_lt small)

module _ {T : Type 0} (get_data_size get_data_alignment : T → ℕ) (malloc : ℕ → ℕ) where
  -- "Get the number of bytes per element across all the registers"
  unfoldable pub bytes_per_element : List T → ℕ
  bytes_per_element [] = 0
  bytes_per_element (tp ∷ regtypes) = get_data_size tp + bytes_per_element regtypes

  -- The loop behind "Create pointers to the individual register data".
  unfoldable pub register_pointers : ℕ → ℕ → List T → List ℕ
  register_pointers memory offset [] = []
  register_pointers memory offset (tp ∷ regtypes) =
      let aligned = inc_to_alignment offset (get_data_alignment tp) in
      (memory + aligned) ∷ register_pointers memory aligned regtypes

  abbrev pub memsize : List T → ℕ → ℕ → ℕ
  memsize regtypes max_element_count max_byte_count =
      let bytes = bytes_per_element regtypes in
      bytes * clamped (max_byte_count / bytes) max_element_count + 16 * length regtypes

  -- The pointers into the memory that `malloc` returned.
  unfoldable pub into_memory : List T → ℕ → Allocated
  into_memory regtypes memory =
      if memory == 0 then bad_alloc else allocated memory (register_pointers memory 0 regtypes)

  unfoldable pub register_allocation : List T → ℕ → ℕ → Allocated
  register_allocation [] max_element_count max_byte_count = no_registers
  register_allocation (tp ∷ regtypes) max_element_count max_byte_count =
      into_memory (tp ∷ regtypes)
        (malloc (memsize (tp ∷ regtypes) max_element_count max_byte_count))

  module _ (positive : (tp : T) → 0 < get_data_alignment tp) where
    register_pointers-replicate :
        (memory : ℕ) (regtypes : List T)
        → register_pointers memory 0 regtypes ≡ replicate (length regtypes) memory
    unfolding register_pointers
    register_pointers-replicate memory [] = refl
    register_pointers-replicate memory (tp ∷ regtypes) =
        rw (inc_to_alignment-zero (get_data_alignment tp) (positive tp))
          (ap₂ (λ p ps. p ∷ ps) (omega arith) (register_pointers-replicate memory regtypes))

-- Every register is put at the begin of the memory, where the memory is found and the alignments of
-- types are not 0: no register is moved behind the ones before it.
pub register_allocation-replicate :
    {T : Type 0} (get_data_size get_data_alignment : T → ℕ) (malloc : ℕ → ℕ) (tp : T)
    (regtypes : List T) (max_element_count max_byte_count memory : ℕ)
    → ((t : T) → 0 < get_data_alignment t)
    → malloc (
        memsize get_data_size get_data_alignment malloc
          (tp ∷ regtypes)
          max_element_count
          max_byte_count)
      ≡ memory
    → 0 < memory
    → register_allocation get_data_size get_data_alignment malloc
        (tp ∷ regtypes)
        max_element_count
        max_byte_count
      ≡ allocated memory (memory ∷ replicate (length regtypes) memory)
unfolding register_allocation into_memory
register_allocation-replicate size alignment malloc tp regtypes elements bytes memory positive e h =
    let found : (memory == 0) ≡ false = ground arith in
    rw (e, found)
      (ap (allocated memory)
        (register_pointers-replicate size alignment malloc positive memory (tp ∷ regtypes)))
