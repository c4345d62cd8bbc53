-- ===== src/Vm/Tests.antt =====
-- Runs on concrete programs, and the theorems at them.
use libdynd.Common.{
  ℕ, ◌+◌, ◌≡◌, ◌≢◌, ◌↔◌, refl, arith, Bool, false, none, some, List, [], ◌∷◌, codes, replicate,
  true, false, if◌then◌else◌,
}
use libdynd.Common.Int.{ℤ, pos, negsuc, ◌+ℤ◌, ◌-ℤ◌}
use libdynd.Parse.{Bytes}
use libdynd.Vm.{
  ok, runtime_error, out_of_fuel, and_then, check_opcode, check_output, check_register,
  check_registers, validate_loop, validate_elwise_program, not_enough_arguments,
  register_out_of_bounds, read_only_input,
}
use libdynd.Vm.Class.{
  ElwiseProgram, steal, set, construct, and_text, print_register, register_text, type_line,
  print_types, print_inputs, print_temporaries, print_arguments, print_instruction, print_round,
  print_instructions, debug_print,
}
use libdynd.Vm.Programs.{IsProgram, validate_elwise_program-IsProgram}
use libdynd.Vm.Printed.{IsValid, IsText, debug_print-IsText}
use libdynd.Vm.Registers.{
  allocated, bytes_per_element, register_pointers, into_memory, register_allocation,
}

methods : Unit {0}
unfolding and_then check_opcode check_output check_register check_registers validate_loop
    validate_elwise_program steal set construct and_text print_register register_text type_line
    print_types print_inputs print_temporaries print_arguments print_instruction print_round
    print_instructions debug_print bytes_per_element register_pointers into_memory
    register_allocation IsText ◌+ℤ◌ ◌-ℤ◌
methods = tt

-- "add r00, r01, r02" and "copy r03, r00", with two inputs.
abbrev sum_program : List ℤ
sum_program = pos 1 ∷ pos 0 ∷ pos 1 ∷ pos 2 ∷ pos 0 ∷ pos 3 ∷ pos 0 ∷ []

two_instructions : validate_elwise_program (pos 2) (pos 4) sum_program ≡ ok 2
unfolding methods
two_instructions = refl

writes_input :
    validate_elwise_program (pos 2) (pos 4) (pos 0 ∷ pos 1 ∷ pos 0 ∷ [])
    ≡ runtime_error (read_only_input 0)
unfolding methods
writes_input = refl

cut_off :
    validate_elwise_program (pos 2) (pos 4) (pos 4 ∷ pos 0 ∷ pos 1 ∷ [])
    ≡ runtime_error (not_enough_arguments 0)
unfolding methods
cut_off = refl

past_registers :
    validate_elwise_program (pos 2) (pos 4) (pos 0 ∷ pos 0 ∷ pos 4 ∷ [])
    ≡ runtime_error (register_out_of_bounds 0 2)
unfolding methods
past_registers = refl

-- The output is read, and there are fewer registers than inputs.
reads_output : validate_elwise_program (pos 5) (pos 1) (pos 0 ∷ pos 0 ∷ pos 0 ∷ []) ≡ ok 1
unfolding methods
reads_output = refl

-- The digits of an `int` from 0 to 9.
abbrev print_digit : ℤ → Bytes
print_digit (pos n) = (b'0' + n) ∷ []
print_digit (negsuc n) = []

-- A type printed as its code.
abbrev print_code : ℕ → Bytes
print_code c = c ∷ []

abbrev sum_object : ElwiseProgram ℕ
sum_object = record {
  m_regtypes = replicate 4 b'i';
  m_program = sum_program;
  m_input_count = pos 2;
  m_instruction_count = 2;
}

inputs_not_registers :
    debug_print print_digit print_code []
      (construct (pos 5) (b'i' ∷ []) (pos 0 ∷ pos 0 ∷ pos 0 ∷ [])).object
    ≡ none
unfolding methods
inputs_not_registers = refl

sum_line :
    print_instructions print_digit print_code [] 8 sum_program
    ≡ some (codes "  add          r00,  r01, r02\n  copy         r03,  r00\n")
unfolding methods
sum_line = refl

sum_object-IsValid : IsValid sum_object
unfolding methods
sum_object-IsValid = (validate_elwise_program-IsProgram (pos 2) (pos 4) sum_program 2).1.0 refl

validate_elwise_program-IsProgram_example :
    (validate_elwise_program (pos 2) (pos 4) sum_program ≢ out_of_fuel)
    × ((validate_elwise_program (pos 2) (pos 4) sum_program ≡ ok 2)
        ↔ IsProgram (pos 2) (pos 4) false 0 sum_program 2)
validate_elwise_program-IsProgram_example =
    validate_elwise_program-IsProgram (pos 2) (pos 4) sum_program 2

debug_print-IsText_example : IsText (debug_print print_digit print_code [] sum_object)
debug_print-IsText_example =
    debug_print-IsText print_digit print_code [] sum_object 2 sum_object-IsValid refl (omega arith)

-- Types of 8 and of 4 bytes.
abbrev size_of : Bool → ℕ
size_of b = if b then 8 else 4

-- The three registers have the same place.
one_place :
    register_allocation size_of size_of (λ n. 4096) (true ∷ false ∷ true ∷ []) 100 1000
    ≡ allocated 4096 (4096 ∷ 4096 ∷ 4096 ∷ [])
unfolding methods
one_place = refl
