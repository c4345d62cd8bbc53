-- ===== src/Vm/Class.antt =====
-- `class elwise_program` of include/dynd/vm/elwise_program.hpp and its `debug_print`, of
-- src/dynd/vm/elwise_program.cpp. `T` stands for the types of registers. What a stream prints for an
-- `int` and for a type are parameters; `none` stands for a read out of the bounds of a vector.
use libdynd.Common.{
  ℕ, zero, suc, ◌-◌, ◌==◌, Option, none, some, List, [], ◌∷◌, ◌++◌, length, get_elem?, drop,
  replicate, ltb, if◌then◌else◌, codes,
}
use libdynd.Common.Int.{ℤ, pos, negsuc, pos_part, ◌+ℤ◌, ◌-ℤ◌, eqb_ℤ, ltb_ℤ}
use libdynd.Parse.{Bytes}
use libdynd.Vm.{Validated, ok, info_at, validate_elwise_program}

pub record ElwiseProgram (T : Type 0) : Type 0 where
  pub m_regtypes : List T
  pub m_program : List ℤ
  pub m_input_count : ℤ
  pub m_instruction_count : ℕ

-- What a call leaves: the object, the two vectors that it was given, and how it ended.
pub record Stolen (T : Type 0) : Type 0 where
  pub object : ElwiseProgram T
  pub regtypes : List T
  pub program : List ℤ
  pub outcome : Validated ℕ

module _ {T : Type 0} where
  -- The default constructor.
  abbrev pub elwise_program : ElwiseProgram T
  elwise_program = record {
    m_regtypes = [];
    m_program = [];
    m_input_count = pos 0;
    m_instruction_count = 0;
  }

  -- The assignments behind the call of `validate_elwise_program`: two swaps and the counts.
  unfoldable pub steal : ElwiseProgram T → ℤ → List T → List ℤ → Validated ℕ → Stolen T
  steal s input_count regtypes program (ok count) = record {
    object = record {
      m_regtypes = regtypes;
      m_program = program;
      m_input_count = input_count;
      m_instruction_count = count;
    };
    regtypes = s.m_regtypes;
    program = s.m_program;
    outcome = ok count;
  }
  steal s input_count regtypes program v = record {
    object = s;
    regtypes = regtypes;
    program = program;
    outcome = v;
  }

  unfoldable pub set : ElwiseProgram T → ℤ → List T → List ℤ → Stolen T
  set s input_count regtypes program =
      steal s input_count regtypes program
        (validate_elwise_program input_count (pos (length regtypes)) program)

  -- The constructor that takes a program.
  unfoldable pub construct : ℤ → List T → List ℤ → Stolen T
  construct input_count regtypes program = set elwise_program input_count regtypes program

-- `v[i]`
abbrev pub at {ℓ} : {A : Type ℓ} → List A → ℤ → Option A
at v (pos i) = get_elem? v i
at v (negsuc i) = none

-- Texts that are printed one behind the other.
unfoldable pub and_text : Option Bytes → Option Bytes → Option Bytes
and_text none t = none
and_text (some s) none = none
and_text (some s) (some t) = some (s ++ t)

module _ {T : Type 0} (print_int : ℤ → Bytes) (print_type : T → Bytes) (indent : Bytes) where
  unfoldable pub print_register : ℤ → Bytes
  print_register reg =
      codes "r" ++ ((if ltb_ℤ reg (pos 10) then codes "0" else []) ++ print_int reg)

  -- The register from which nothing can be read is printed as nothing.
  unfoldable pub register_text : Option ℤ → Option Bytes
  register_text none = none
  register_text (some reg) = some (print_register reg)

  unfoldable pub type_line : Option T → Option Bytes
  type_line none = none
  type_line (some tp) = some (indent ++ (codes "  " ++ (print_type tp ++ codes "\n")))

  -- `count` rounds of a loop over the types of registers, from the `i`-th on.
  unfoldable pub print_types : List T → ℤ → ℕ → Option Bytes
  print_types regtypes i zero = some []
  print_types regtypes i (suc count) =
      and_text (type_line (at regtypes i)) (print_types regtypes (i +ℤ pos 1) count)

  unfoldable pub print_inputs : List T → ℤ → Option Bytes
  print_inputs regtypes input_count =
      if eqb_ℤ input_count (pos 0)
      then some (indent ++ codes "no input registers\n")
      else and_text
          (some
            (indent ++ (codes "input registers (1 to " ++ (print_int input_count ++ codes "):\n"))))
          (print_types regtypes (pos 1) (pos_part input_count))

  unfoldable pub print_temporaries : List T → ℤ → Option Bytes
  print_temporaries regtypes input_count =
      let first = input_count +ℤ pos 1 in
      let size = pos (length regtypes) in
      if eqb_ℤ first size
      then some (indent ++ codes "no temporary registers\n")
      else and_text
          (some (
            indent
            ++ (codes "temporary registers ("
                ++ (print_int first
                    ++ (codes " to " ++ (print_int (size -ℤ pos 1) ++ codes "):\n"))))))
          (print_types regtypes first (pos_part (size -ℤ first)))

  -- The loop over the input registers of an instruction, `left` of them.
  unfoldable pub print_arguments : ℕ → List ℤ → Option Bytes
  print_arguments zero regs = some []
  print_arguments (suc left) regs =
      and_text (register_text (at regs (pos 0))) (
        and_text (some (if left == 0 then [] else codes ", ")) (print_arguments left (drop 1 regs)))

  -- An instruction, of which `behind` stands behind the opcode.
  unfoldable pub print_instruction : Bytes × ℕ → List ℤ → Option Bytes
  print_instruction info behind =
      and_text
        (some (
          indent ++ (codes "  " ++ (info.0 ++ (codes " " ++ replicate (12 - length info.0) b' ')))))
        (and_text (register_text (at behind (pos 0))) (
          and_text (some (if ltb 0 info.1 then codes ",  " else []))
            (and_text (print_arguments info.1 (drop 1 behind)) (some (codes "\n")))))

  -- A round of the loop over the instructions, by what `opcode_info` has of the opcode.
  unfoldable pub print_round : Option (Bytes × ℕ) → List ℤ → (ℕ → Option Bytes) → Option Bytes
  print_round none behind next = none
  print_round (some info) behind next = and_text (print_instruction info behind) (next (suc info.1))

  unfoldable pub print_instructions : ℕ → List ℤ → Option Bytes
  print_instructions zero program = none
  print_instructions (suc fuel) [] = some []
  print_instructions (suc fuel) (opcode ∷ behind) =
      print_round (info_at opcode) behind (λ n. print_instructions fuel (drop n behind))

  unfoldable pub debug_print : ElwiseProgram T → Option Bytes
  debug_print s = and_text (some (indent ++ codes "output register (0):\n")) (
      and_text (type_line (at s.m_regtypes (pos 0))) (
        and_text (print_inputs s.m_regtypes s.m_input_count) (
          and_text (print_temporaries s.m_regtypes s.m_input_count) (
            and_text (some (indent ++ codes "program:\n"))
              (print_instructions (suc (length s.m_program)) s.m_program)))))
