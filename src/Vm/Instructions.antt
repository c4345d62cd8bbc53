-- ===== src/Vm/Instructions.antt =====
-- The instructions of a program, and the tests that `validate_elwise_program` of
-- src/dynd/vm/elwise_program.cpp makes of one.
use libdynd.Common.{
  ℕ, zero, suc, ◌≡◌, refl, ap, sym, arith, Bool, true, false, ◌||◌, Option, none, some, List, [],
  ◌∷◌, ◌++◌, length, take, drop, ◌==◌, Bool-cases, inl, inr,
}
use libdynd.Common.Int.{ℤ, pos, ltb_ℤ, leb_ℤ, eqb_ℤ, ◌≤ℤ◌, ◌<ℤ◌}
use libdynd.Parse.{Bytes}
use libdynd.Vm.{
  Validated, ok, runtime_error, out_of_fuel, and_then, info_at, check_output, check_register,
  check_registers,
}

pub record Instruction : Type 0 where
  pub opcode : ℕ
  pub output : ℤ
  pub arguments : List ℤ

-- The numbers that stand for an instruction, and for a list of them.
abbrev pub encode : Instruction → List ℤ
encode i = pos i.opcode ∷ i.output ∷ i.arguments

abbrev pub encode_all : List Instruction → List ℤ
encode_all [] = []
encode_all (i ∷ is) = encode i ++ encode_all is

-- The opcode is followed by as many arguments as it takes.
abbrev pub TakesArguments : ℕ → Option (Bytes × ℕ) → Type 0
TakesArguments n none = ⊥
TakesArguments n (some info) = info.1 ≡ n

module _ (input_count reg_count : ℤ) where
  abbrev pub IsRegister : ℤ → Type 0
  IsRegister reg = (pos 0 ≤ℤ reg) × (reg <ℤ reg_count)

  abbrev pub AllRegisters : List ℤ → Type 0
  AllRegisters [] = Unit
  AllRegisters (reg ∷ regs) = IsRegister reg × AllRegisters regs

  -- The output is the register 0 or no input.
  pub record IsInstruction (i : Instruction) : Type 0 where
    pub takes : TakesArguments (length i.arguments) (info_at (pos i.opcode))
    pub output : IsRegister i.output
    pub writable : eqb_ℤ i.output (pos 0) || ltb_ℤ input_count i.output ≡ true
    pub arguments : AllRegisters i.arguments

  abbrev pub AllInstructions : List Instruction → Type 0
  AllInstructions [] = Unit
  AllInstructions (i ∷ is) = IsInstruction i × AllInstructions is

abbrev pub writes_output : List Instruction → Bool
writes_output [] = false
writes_output (i ∷ is) = eqb_ℤ i.output (pos 0) || writes_output is

pub take-length : (xs ys : List ℤ) → take (length xs) (xs ++ ys) ≡ xs
take-length [] ys = refl
take-length (x ∷ xs) ys = ap (λ t. x ∷ t) (take-length xs ys)

pub drop-length : (xs ys : List ℤ) → drop (length xs) (xs ++ ys) ≡ ys
drop-length [] ys = refl
drop-length (x ∷ xs) ys = drop-length xs ys

pub take-drop : (n : ℕ) (xs : List ℤ) → take n xs ++ drop n xs ≡ xs
take-drop zero xs = refl
take-drop (suc n) [] = refl
take-drop (suc n) (x ∷ xs) = ap (λ t. x ∷ t) (take-drop n xs)

suc-ne_zero : (j : ℕ) → (suc j == 0) ≡ false
suc-ne_zero j = ground arith

module _ (input_count reg_count : ℤ) where
  abbrev is_outside : ℤ → Bool
  is_outside reg = ltb_ℤ reg (pos 0) || leb_ℤ reg_count reg

  outside-IsRegister : (reg : ℤ) → IsRegister input_count reg_count reg → is_outside reg ≡ false
  outside-IsRegister reg h = ground arith

  IsRegister-outside : (reg : ℤ) → is_outside reg ≡ false → IsRegister input_count reg_count reg
  IsRegister-outside reg h = ground arith

  -- The registers behind the output are only tested for their bounds.
  check_registers-AllRegisters :
      (i j : ℕ) (regs : List ℤ)
      → AllRegisters input_count reg_count regs
      → check_registers input_count reg_count i (suc j) regs ≡ ok false
  unfolding check_registers check_register and_then
  check_registers-AllRegisters i j [] h = refl
  check_registers-AllRegisters i j (reg ∷ regs) h =
      rw
        (outside-IsRegister reg h.0, suc-ne_zero j, check_registers-AllRegisters i (suc j) regs h.1)
        refl

  AllOk : List ℤ → Validated Bool → Type 0
  AllOk regs (ok wrote) = AllRegisters input_count reg_count regs × (wrote ≡ false)
  AllOk regs (runtime_error e) = Unit
  AllOk regs out_of_fuel = ⊥

  AllOk-cons :
      (reg : ℤ) (regs : List ℤ) (q : Validated Bool)
      → IsRegister input_count reg_count reg
      → AllOk regs q
      → AllOk (reg ∷ regs) (and_then q (λ more. ok (false || more)))
  unfolding AllOk and_then
  AllOk-cons reg regs (ok wrote) h k = ((h, k.0), k.1)
  AllOk-cons reg regs (runtime_error e) h k = tt
  AllOk-cons reg regs out_of_fuel h k = absurd k

  AllOk-check_registers :
      (i j : ℕ) (regs : List ℤ) → AllOk regs (check_registers input_count reg_count i (suc j) regs)
  unfolding AllOk check_registers check_register and_then
  AllOk-check_registers i j [] = (tt, refl)
  AllOk-check_registers i j (reg ∷ regs) = elim (Bool-cases (is_outside reg)) [
    | inl e ↦ rw e tt
    | inr e ↦
        rw (e, suc-ne_zero j)
          (AllOk-cons reg regs _ (IsRegister-outside reg e) (AllOk-check_registers i (suc j) regs))
  ]

  -- The registers of an instruction, the output first.
  pub check_registers-IsInstruction :
      (i : ℕ) (x : Instruction)
      → IsInstruction input_count reg_count x
      → check_registers input_count reg_count i 0 (x.output ∷ x.arguments)
        ≡ ok (eqb_ℤ x.output (pos 0))
  unfolding check_registers check_register check_output and_then
  check_registers-IsInstruction i x h =
      let out = x.output in
      let rest = check_registers-AllRegisters i 0 x.arguments h.arguments in
      elim (Bool-cases (eqb_ℤ out (pos 0))) [
        | inl e ↦ rw (outside-IsRegister out h.output, e, rest) refl
        | inr e ↦
            let free : leb_ℤ out input_count ≡ false = ground (arith, h.writable, e) in
            rw (outside-IsRegister out h.output, e, free, rest) refl
      ]

  unfoldable pub FirstOk : ℤ → List ℤ → Validated Bool → Type 0
  FirstOk out regs (ok wrote) =
      IsRegister input_count reg_count out
      × (eqb_ℤ out (pos 0) || ltb_ℤ input_count out ≡ true)
      × AllRegisters input_count reg_count regs
      × (wrote ≡ eqb_ℤ out (pos 0))
  FirstOk out regs (runtime_error e) = Unit
  FirstOk out regs out_of_fuel = ⊥

  FirstOk-cons :
      (out : ℤ) (regs : List ℤ) (q : Validated Bool)
      → IsRegister input_count reg_count out
      → (eqb_ℤ out (pos 0) || ltb_ℤ input_count out ≡ true)
      → AllOk regs q
      → (b : Bool) → b ≡ eqb_ℤ out (pos 0)
      → FirstOk out regs (and_then q (λ more. ok (b || more)))
  unfolding AllOk FirstOk and_then
  FirstOk-cons out regs (ok wrote) h w k b e = (h, w, k.0, ground (arith, k.1, e))
  FirstOk-cons out regs (runtime_error x) h w k b e = tt
  FirstOk-cons out regs out_of_fuel h w k b e = absurd k

  pub FirstOk-check_registers :
      (i : ℕ) (out : ℤ) (regs : List ℤ)
      → FirstOk out regs (check_registers input_count reg_count i 0 (out ∷ regs))
  unfolding FirstOk check_registers check_register check_output and_then
  FirstOk-check_registers i out regs =
      let rest = AllOk-check_registers i 0 regs in
      elim (Bool-cases (is_outside out)) [
        | inl o ↦ rw o tt
        | inr o ↦ elim (Bool-cases (eqb_ℤ out (pos 0))) [
          | inl e ↦
              rw (o, e)
                (FirstOk-cons out regs _ (IsRegister-outside out o) (rw e refl) rest true (sym e))
          | inr e ↦ elim (Bool-cases (leb_ℤ out input_count)) [
            | inl l ↦ rw (o, e, l) tt
            | inr l ↦
                rw (o, e, l)
                  (FirstOk-cons out regs _ (IsRegister-outside out o) (ground (arith, l)) rest false
                    (sym e))
          ]
        ]
      ]
