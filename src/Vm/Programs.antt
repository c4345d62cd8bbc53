-- ===== src/Vm/Programs.antt =====
-- What a program is that `validate_elwise_program` of src/dynd/vm/elwise_program.cpp accepts.
use libdynd.Common.{
  ℕ, zero, suc, ◌+◌, ◌≤◌, ◌<◌, ◌≡◌, ◌≢◌, ◌↔◌, refl, ap, sym, ◌∙◌, subst, arith, Bool, true, false,
  ◌||◌, Option, none, some, List, [], ◌∷◌, ◌++◌, length, length-append, length-take, length-drop,
  take, drop, leb, by_test,
}
use libdynd.Common.Int.{ℤ, pos, negsuc, eqb_ℤ}
use libdynd.Parse.{Bytes}
use libdynd.Vm.{
  Validated, ok, runtime_error, out_of_fuel, and_then, info_at, check_opcode, validate_loop,
  validate_elwise_program,
}
use libdynd.Vm.Instructions.{
  Instruction, encode_all, TakesArguments, AllInstructions, writes_output, take-length, drop-length,
  take-drop, check_registers-IsInstruction, FirstOk, FirstOk-check_registers,
}

-- A list of instructions, of which one writes to the output unless `wrote`, counted from `start`.
pub record IsProgram (input_count reg_count : ℤ) (wrote : Bool) (start : ℕ) (program : List ℤ)
    (count : ℕ) : Type 0 where
  pub instructions : List Instruction
  pub encoded : program ≡ encode_all instructions
  pub valid : AllInstructions input_count reg_count instructions
  pub counted : count ≡ start + length instructions
  pub written : wrote || writes_output instructions ≡ true

or_assoc : (a b c : Bool) → a || b || c ≡ a || (b || c)
or_assoc a b c = ground arith

module _ (input_count reg_count : ℤ) where
  check_opcode-TakesArguments :
      (opcode : ℤ) (i n m : ℕ) (info : Option (Bytes × ℕ)) (next : ℕ → Validated ℕ)
      → TakesArguments n info
      → n < m
      → check_opcode opcode i m info next ≡ next n
  unfolding check_opcode
  check_opcode-TakesArguments opcode i n m none next h l = absurd h
  check_opcode-TakesArguments opcode i n m (some info) next h l =
      let enough : leb m info.1 ≡ false = ground (arith, h) in rw enough (ap next h)

  -- Every program is accepted that is one.
  validate_loop-encode_all :
      (is : List Instruction) (fuel i : ℕ) (wrote : Bool) (count : ℕ)
      → AllInstructions input_count reg_count is
      → length (encode_all is) < fuel
      → wrote || writes_output is ≡ true
      → validate_loop input_count reg_count fuel i wrote count (encode_all is)
        ≡ ok (count + length is)
  unfolding validate_loop and_then
  validate_loop-encode_all is zero i wrote count h l w = absurd (omega arith)
  validate_loop-encode_all [] (suc fuel) i wrote count h l w =
      let output : wrote ≡ true = ground (arith, w) in rw output (ap ok (omega arith))
  validate_loop-encode_all (x ∷ is) (suc fuel) i wrote count h l w =
      let more = encode_all is in
      let long = length-append x.arguments more in
      check_opcode-TakesArguments (pos x.opcode) i (length x.arguments) _ _ _ h.0.takes
        (omega (arith, long))
      ∙ rw
          (
            take-length x.arguments more,
            drop-length x.arguments more,
            check_registers-IsInstruction input_count reg_count i x h.0,
          )
          (validate_loop-encode_all is fuel _ _ (suc count) h.1 (omega (arith, long))
              (or_assoc wrote (eqb_ℤ x.output (pos 0)) (writes_output is) ∙ w)
            ∙ ap ok (omega arith))

  -- What the loop accepts is a program.
  Accepts : ℕ → Bool → List ℤ → Validated ℕ → Type 0
  Accepts count wrote program (ok n) = IsProgram input_count reg_count wrote count program n
  Accepts count wrote program (runtime_error e) = Unit
  Accepts count wrote program out_of_fuel = ⊥

  module _ (count : ℕ) (wrote : Bool) where
    -- An instruction before a program.
    IsProgram-cons :
        (opcode out : ℤ) (n m : ℕ) (rest : List ℤ) (w : Bool)
        → TakesArguments n (info_at opcode)
        → n ≤ length rest
        → FirstOk input_count reg_count out (take n rest) (ok w)
        → IsProgram input_count reg_count (wrote || w) (suc count) (drop n rest) m
        → IsProgram input_count reg_count wrote count (opcode ∷ out ∷ rest) m
    unfolding FirstOk
    IsProgram-cons (negsuc k) out n m rest w takes l f p = absurd takes
    IsProgram-cons (pos k) out n m rest w takes l f p = record {
      instructions = record { opcode = k; output = out; arguments = take n rest } ∷ p.instructions;
      encoded =
          ap (λ t. pos k ∷ out ∷ t) (sym (take-drop n rest) ∙ ap (λ t. take n rest ++ t) p.encoded);
      valid = (
        record {
          takes =
              subst (λ a. TakesArguments a (info_at (pos k))) (omega (arith, length-take n rest))
                takes;
          output = f.0;
          writable = f.1;
          arguments = f.2;
        },
        p.valid,
      );
      counted = omega (arith, p.counted);
      written =
          ap (λ b. wrote || (b || writes_output p.instructions)) (sym f.3)
          ∙ (sym (or_assoc wrote w (writes_output p.instructions)) ∙ p.written);
    }

    Accepts-cons :
        (opcode out : ℤ) (n : ℕ) (rest : List ℤ) (w : Bool) (v : Validated ℕ)
        → TakesArguments n (info_at opcode)
        → n ≤ length rest
        → FirstOk input_count reg_count out (take n rest) (ok w)
        → Accepts (suc count) (wrote || w) (drop n rest) v
        → Accepts count wrote (opcode ∷ out ∷ rest) v
    unfolding Accepts
    Accepts-cons opcode out n rest w (ok m) takes l f a =
        IsProgram-cons opcode out n m rest w takes l f a
    Accepts-cons opcode out n rest w (runtime_error e) takes l f a = tt
    Accepts-cons opcode out n rest w out_of_fuel takes l f a = absurd a

    Accepts-registers :
        (opcode out : ℤ) (n : ℕ) (rest : List ℤ) (q : Validated Bool) (loop : Bool → Validated ℕ)
        → TakesArguments n (info_at opcode)
        → n ≤ length rest
        → FirstOk input_count reg_count out (take n rest) q
        → ((w : Bool) → Accepts (suc count) (wrote || w) (drop n rest) (loop w))
        → Accepts count wrote (opcode ∷ out ∷ rest) (and_then q loop)
    unfolding Accepts and_then FirstOk
    Accepts-registers opcode out n rest (ok w) loop takes l f k =
        Accepts-cons opcode out n rest w _ takes l f (k w)
    Accepts-registers opcode out n rest (runtime_error e) loop takes l f k = tt
    Accepts-registers opcode out n rest out_of_fuel loop takes l f k = absurd f

    Accepts-opcode :
        (opcode : ℤ) (i : ℕ) (program : List ℤ) (info : Option (Bytes × ℕ)) (next : ℕ → Validated ℕ)
        → ((n : ℕ)
            → TakesArguments n info
            → n < length program
            → Accepts count wrote (opcode ∷ program) (next n))
        → Accepts count wrote (opcode ∷ program) (check_opcode opcode i (length program) info next)
    unfolding Accepts check_opcode
    Accepts-opcode opcode i program none next k = tt
    Accepts-opcode opcode i program (some info) next k =
        by_test (Accepts count wrote (opcode ∷ program)) (leb (length program) info.1) (λ e. tt)
          (λ e. k info.1 refl (ground arith))

  Accepts-loop :
      (fuel i : ℕ) (wrote : Bool) (count : ℕ) (program : List ℤ)
      → length program < fuel
      → Accepts count wrote program (validate_loop input_count reg_count fuel i wrote count program)
  unfolding Accepts validate_loop
  Accepts-loop zero i wrote count program l = absurd (omega arith)
  Accepts-loop (suc fuel) i true count [] l = record {
    instructions = [];
    encoded = refl;
    valid = tt;
    counted = omega arith;
    written = refl;
  }
  Accepts-loop (suc fuel) i false count [] l = tt
  Accepts-loop (suc fuel) i wrote count (opcode ∷ []) l =
      Accepts-opcode count wrote opcode i [] _ _ (λ n takes less. absurd (omega arith))
  Accepts-loop (suc fuel) i wrote count (opcode ∷ out ∷ rest) l =
      Accepts-opcode count wrote opcode i (out ∷ rest) _ _ (λ n takes less.
        Accepts-registers count wrote opcode out n rest _ _ takes (omega arith)
          (FirstOk-check_registers input_count reg_count i out (take n rest))
          (λ w.
            Accepts-loop fuel _ (wrote || w) (suc count) (drop n rest)
              (omega (arith, length-drop n rest))))

  Accepts-ok :
      (program : List ℤ) (v : Validated ℕ) (n : ℕ)
      → Accepts 0 false program v
      → v ≡ ok n
      → IsProgram input_count reg_count false 0 program n
  unfolding Accepts
  Accepts-ok program v n a e = subst (Accepts 0 false program) e a

  ne_out_of_fuel-Accepts :
      (program : List ℤ) (v : Validated ℕ) → Accepts 0 false program v → v ≢ out_of_fuel
  unfolding Accepts
  ne_out_of_fuel-Accepts program v a = λ e. subst (Accepts 0 false program) e a

  validate_elwise_program-encoded :
      (program : List ℤ) (n : ℕ)
      → IsProgram input_count reg_count false 0 program n
      → validate_elwise_program input_count reg_count program ≡ ok n
  unfolding validate_elwise_program
  validate_elwise_program-encoded program n p =
      let length_eq = ap length p.encoded in
      ap (validate_loop input_count reg_count (suc (length program)) 0 false 0) p.encoded
      ∙ (validate_loop-encode_all p.instructions _ 0 false 0 p.valid (omega (arith, length_eq))
            p.written
          ∙ ap ok (sym p.counted))

-- The loop ends, and it returns `n` exactly for the numbers of `n` instructions, each with an opcode
-- that there is, as many arguments as the opcode takes, registers that there are and an output that
-- is no input register, of which one at least writes to the output of the program.
pub validate_elwise_program-IsProgram :
    (input_count reg_count : ℤ) (program : List ℤ) (n : ℕ)
    → (validate_elwise_program input_count reg_count program ≢ out_of_fuel)
      × ((validate_elwise_program input_count reg_count program ≡ ok n)
          ↔ IsProgram input_count reg_count false 0 program n)
unfolding validate_elwise_program
validate_elwise_program-IsProgram input_count reg_count program n =
    let accepted =
      Accepts-loop input_count reg_count (suc (length program)) 0 false 0 program (omega arith) in
    (
      ne_out_of_fuel-Accepts input_count reg_count program _ accepted,
      (
        Accepts-ok input_count reg_count program _ n accepted,
        validate_elwise_program-encoded input_count reg_count program n,
      ),
    )
