-- ===== src/Vm/Printed.antt =====
-- A valid program is kept, and printed without a read out of bounds, by `class elwise_program` of
-- include/dynd/vm/elwise_program.hpp.
use libdynd.Common.{
  ℕ, zero, suc, ◌+◌, ◌≤◌, ◌<◌, ◌≡◌, sym, subst, arith, false, Option, none, some, List, [], ◌∷◌,
  ◌++◌, length, length-append, get_elem?, by_test,
}
use libdynd.Common.Int.{ℤ, pos, pos_part, ◌+ℤ◌, ◌-ℤ◌, eqb_ℤ}
use libdynd.Parse.{Bytes}
use libdynd.Vm.{ok, runtime_error, out_of_fuel}
use libdynd.Vm.Class.{
  ElwiseProgram, Stolen, and_text, register_text, type_line, print_types, print_inputs,
  print_temporaries, print_arguments, print_instruction, print_round, print_instructions,
  debug_print,
}
use libdynd.Vm.Instructions.{Instruction, encode_all, TakesArguments, AllInstructions, drop-length}
use libdynd.Vm.Programs.{IsProgram}

-- The program of an object is one, for its registers and inputs.
abbrev pub IsValid : {T : Type 0} → ElwiseProgram T → Type 0
IsValid s =
    IsProgram s.m_input_count (pos (length s.m_regtypes)) false 0 s.m_program s.m_instruction_count

-- What a call that ends leaves: the new program, or everything as it was.
abbrev pub Leaves : {T : Type 0} → ElwiseProgram T → ℤ → List T → List ℤ → Stolen T → Type 0
Leaves s input_count regtypes program call = elim call.outcome [
  | ok n ↦ IsValid call.object × (call.object.m_program ≡ program) × (call.program ≡ s.m_program)
  | runtime_error e ↦ (call.object ≡ s) × (call.regtypes ≡ regtypes) × (call.program ≡ program)
  | out_of_fuel ↦ ⊥
]

unfoldable pub IsText : Option Bytes → Type 0
IsText none = ⊥
IsText (some s) = Unit

IsText-and_text : (s t : Option Bytes) → IsText s → IsText t → IsText (and_text s t)
unfolding IsText and_text
IsText-and_text none t h k = h
IsText-and_text (some s) none h k = k
IsText-and_text (some s) (some t) h k = tt

IsText-some : (s : Bytes) → IsText (some s)
unfolding IsText
IsText-some s = tt

IsText-behind : (s : Bytes) (t : Option Bytes) → IsText t → IsText (and_text (some s) t)
IsText-behind s t h = IsText-and_text _ _ (IsText-some s) h

pos_suc : (k : ℕ) → pos k +ℤ pos 1 ≡ pos (suc k)
unfolding ◌+ℤ◌
pos_suc k = ground arith

-- What is left behind the inputs.
rest_le : (m n : ℕ) → m < n → suc m + pos_part (pos n -ℤ pos (suc m)) ≤ n
unfolding ◌-ℤ◌
rest_le m n h = ground arith

module _ {T : Type 0} (print_int : ℤ → Bytes) (print_type : T → Bytes) (indent : Bytes) where
  type_line-IsText :
      (v : List T) (k : ℕ)
      → k < length v
      → IsText (type_line print_int print_type indent (get_elem? v k))
  unfolding IsText type_line
  type_line-IsText [] k h = absurd (omega arith)
  type_line-IsText (x ∷ v) zero h = tt
  type_line-IsText (x ∷ v) (suc k) h = type_line-IsText v k (omega arith)

  print_types-IsText :
      (v : List T) (k count : ℕ)
      → k + count ≤ length v
      → IsText (print_types print_int print_type indent v (pos k) count)
  unfolding print_types
  print_types-IsText v k zero h = IsText-some []
  print_types-IsText v k (suc count) h =
      IsText-and_text _ _ (type_line-IsText v k (omega arith))
        (rw (pos_suc k) (print_types-IsText v (suc k) count (omega arith)))

  print_inputs-IsText :
      (v : List T) (m : ℕ)
      → m < length v
      → IsText (print_inputs print_int print_type indent v (pos m))
  unfolding print_inputs
  print_inputs-IsText v m h =
      by_test IsText (eqb_ℤ (pos m) (pos 0)) (λ e. IsText-some _)
        (λ e. IsText-behind _ _ (print_types-IsText v 1 m (omega arith)))

  print_temporaries-IsText :
      (v : List T) (m : ℕ)
      → m < length v
      → IsText (print_temporaries print_int print_type indent v (pos m))
  unfolding print_temporaries
  print_temporaries-IsText v m h =
      by_test IsText (eqb_ℤ (pos m +ℤ pos 1) (pos (length v))) (λ e. IsText-some _)
        (λ e.
          IsText-behind _ _
            (rw (pos_suc m) (print_types-IsText v (suc m) _ (rest_le m (length v) h))))

  register-IsText : (reg : ℤ) → IsText (register_text print_int print_type indent (some reg))
  unfolding register_text IsText
  register-IsText reg = tt

  print_arguments-IsText :
      (args rest : List ℤ)
      → IsText (print_arguments print_int print_type indent (length args) (args ++ rest))
  unfolding print_arguments
  print_arguments-IsText [] rest = IsText-some []
  print_arguments-IsText (a ∷ args) rest =
      IsText-and_text _ _ (register-IsText a) (IsText-behind _ _ (print_arguments-IsText args rest))

  print_instruction-IsText :
      (info : Bytes × ℕ) (out : ℤ) (args rest : List ℤ)
      → info.1 ≡ length args
      → IsText (print_instruction print_int print_type indent info (out ∷ (args ++ rest)))
  unfolding print_instruction
  print_instruction-IsText info out args rest h = IsText-behind _ _ (
      IsText-and_text _ _ (register-IsText out) (
        IsText-behind _ _ (
          IsText-and_text _ _
            (subst (λ n. IsText (print_arguments print_int print_type indent n (args ++ rest)))
              (sym h) (print_arguments-IsText args rest))
            (IsText-some _))))

  print_round-IsText :
      (info : Option (Bytes × ℕ)) (out : ℤ) (args rest : List ℤ) (next : ℕ → Option Bytes)
      → TakesArguments (length args) info
      → IsText (next (suc (length args)))
      → IsText (print_round print_int print_type indent info (out ∷ (args ++ rest)) next)
  unfolding print_round
  print_round-IsText none out args rest next h k = absurd h
  print_round-IsText (some info) out args rest next h k =
      IsText-and_text _ _ (print_instruction-IsText info out args rest h) (rw h k)

  print_instructions-IsText :
      (input_count reg_count : ℤ) (is : List Instruction) (fuel : ℕ)
      → AllInstructions input_count reg_count is
      → length (encode_all is) < fuel
      → IsText (print_instructions print_int print_type indent fuel (encode_all is))
  unfolding print_instructions
  print_instructions-IsText ic rc is zero h l = absurd (omega arith)
  print_instructions-IsText ic rc [] (suc fuel) h l = IsText-some []
  print_instructions-IsText ic rc (x ∷ is) (suc fuel) h l =
      print_round-IsText _ x.output x.arguments (encode_all is) _ h.0.takes (
        rw (drop-length x.arguments (encode_all is)) (
          print_instructions-IsText ic rc is fuel h.1
            (omega (arith, length-append x.arguments (encode_all is)))))

  print_instructions-program :
      (s : ElwiseProgram T)
      → IsValid s
      → IsText
          (print_instructions print_int print_type indent (suc (length s.m_program)) s.m_program)
  print_instructions-program s h =
      subst (λ p. IsText (print_instructions print_int print_type indent (suc (length p)) p))
        (sym h.encoded) (print_instructions-IsText _ _ h.instructions _ h.valid (omega arith))

-- A valid program with fewer inputs than registers is printed without a read out of the bounds of
-- its vectors or of the table of opcodes, whatever is printed for a number and a type.
pub debug_print-IsText :
    {T : Type 0} (print_int : ℤ → Bytes) (print_type : T → Bytes) (indent : Bytes)
    (s : ElwiseProgram T) (inputs : ℕ)
    → IsValid s
    → s.m_input_count ≡ pos inputs
    → inputs < length s.m_regtypes
    → IsText (debug_print print_int print_type indent s)
unfolding debug_print
debug_print-IsText print_int print_type indent s inputs h e l =
    let v = s.m_regtypes in
    IsText-behind _ _ (
      IsText-and_text _ _ (type_line-IsText print_int print_type indent v 0 (omega arith)) (
        IsText-and_text _ _ (rw e (print_inputs-IsText print_int print_type indent v inputs l)) (
          IsText-and_text _ _
            (rw e (print_temporaries-IsText print_int print_type indent v inputs l))
            (IsText-behind _ _ (print_instructions-program print_int print_type indent s h)))))
