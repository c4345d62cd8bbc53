-- ===== src/Vm.antt =====
-- The programs of the element-wise virtual machine, of include/dynd/vm/elwise_program.hpp and
-- src/dynd/vm/elwise_program.cpp: their validation. A program is a list of `int`s, and the position
-- `i` in it stands beside what is left from there on; an exception is its kind, with the numbers in
-- its message.
pub mod Class
pub mod Instructions
pub mod Programs
pub mod Printed
pub mod Registers
mod Tests
use libdynd.Common.{
  ℕ, zero, suc, ◌+◌, Bool, true, false, ◌||◌, Option, none, some, List, [], ◌∷◌, length, get_elem?,
  take, drop, leb, ◌==◌, if◌then◌else◌, codes,
}
use libdynd.Common.Int.{ℤ, pos, negsuc, ltb_ℤ, leb_ℤ, eqb_ℤ}
use libdynd.Parse.{Bytes}

-- The name and the arity of each opcode.
abbrev pub opcode_info : List (Bytes × ℕ)
opcode_info =
    (codes "copy", 1)
    ∷ (codes "add", 2)
    ∷ (codes "subtract", 2)
    ∷ (codes "multiply", 2)
    ∷ (codes "divide", 2)
    ∷ []

pub data ProgramError : Type 0 where
  invalid_opcode : (opcode : ℤ) (position : ℕ) → ProgramError
  not_enough_arguments : (position : ℕ) → ProgramError
  register_out_of_bounds : (position argument : ℕ) → ProgramError
  read_only_input : (position : ℕ) → ProgramError
  no_output : ProgramError

-- `out_of_fuel` is no outcome of the source, whose loop ends with the program.
pub data Validated {ℓ} (A : Type ℓ) : Type ℓ where
  ok : A → Validated A
  runtime_error : ProgramError → Validated A
  out_of_fuel : Validated A

unfoldable pub and_then {ℓ κ} :
    {A : Type ℓ} {B : Type κ} → Validated A → (A → Validated B) → Validated B
and_then (ok a) next = next a
and_then (runtime_error e) next = runtime_error e
and_then out_of_fuel next = out_of_fuel

-- `opcode_info[opcode]`, where `opcode` is from 0 up to `opcode_count`.
abbrev pub info_at : ℤ → Option (Bytes × ℕ)
info_at (pos opcode) = get_elem? opcode_info opcode
info_at (negsuc n) = none

-- The tests of an opcode and of the number of its arguments, before what is done with its arity.
unfoldable pub check_opcode {ℓ} :
    {A : Type ℓ} → ℤ → ℕ → ℕ → Option (Bytes × ℕ) → (ℕ → Validated A) → Validated A
check_opcode opcode i behind none next = runtime_error (invalid_opcode opcode i)
check_opcode opcode i behind (some info) next =
    if leb behind info.1 then runtime_error (not_enough_arguments i) else next info.1

module _ (input_count reg_count : ℤ) where
  -- The test of an output register: whether it is the output of the program.
  unfoldable pub check_output : ℕ → ℤ → Validated Bool
  check_output i reg =
      if eqb_ℤ reg (pos 0)
      then ok true
      else if leb_ℤ reg input_count
      then runtime_error (read_only_input i)
      else ok false

  -- A round of the loop over the registers of an instruction.
  unfoldable pub check_register : ℕ → ℕ → ℤ → Validated Bool
  check_register i j reg =
      if ltb_ℤ reg (pos 0) || leb_ℤ reg_count reg
      then runtime_error (register_out_of_bounds i (j + 1))
      else if j == 0
      then check_output i reg
      else ok false

  -- The loop: whether one of the registers from the `j`-th on is the output that is written.
  unfoldable pub check_registers : ℕ → ℕ → List ℤ → Validated Bool
  check_registers i j [] = ok false
  check_registers i j (reg ∷ regs) =
      and_then (check_register i j reg)
        (λ wrote. and_then (check_registers i (suc j) regs) (λ more. ok (wrote || more)))

  -- The loop over the instructions.
  unfoldable pub validate_loop : ℕ → ℕ → Bool → ℕ → List ℤ → Validated ℕ
  validate_loop zero i wrote_to_output instruction_count program = out_of_fuel
  validate_loop (suc fuel) i wrote_to_output instruction_count [] =
      if wrote_to_output then ok instruction_count else runtime_error no_output
  validate_loop (suc fuel) i wrote_to_output instruction_count (opcode ∷ program) =
      check_opcode opcode i (length program) (info_at opcode) (λ arity.
        and_then (check_registers i 0 (take (suc arity) program)) (λ wrote.
          validate_loop fuel (i + 2 + arity) (wrote_to_output || wrote) (suc instruction_count)
            (drop (suc arity) program)))

  unfoldable pub validate_elwise_program : List ℤ → Validated ℕ
  validate_elwise_program program = validate_loop (suc (length program)) 0 false 0 program
