-- ===== src/Parse/IntegerLaws.antt =====
-- What the conversion of a text to an integer gives.
use libdynd.Common.{
  ℕ, zero, suc, ◌+◌, ◌*◌, ◌%◌, ◌≤◌, ◌<◌, ◌≡◌, refl, arith, Bool, true, false, ◌&&◌, ◌||◌, [], ◌∷◌,
  ◌++◌, ltb, ◌==◌,
}
use native.Mathlib.Nat.{mod-eq_of_lt}
use libdynd.Common.Int.{ℤ, pos, neg_ℤ, InRange, narrow, int64_half}
use libdynd.Parse.{Bytes, is_digit}
use libdynd.Parse.Integers.{
  digit_value, ParsedUint, skip_plus, parse_exponent, apply_exponent, finish_exponent,
  finish_decimals, checked_digits, checked_string_to_uint, multiply_by_tens, unchecked_exponent,
  unchecked_digits, unchecked_string_to_uint, uint64_modulus, checked_string_to_uint64, is_overflow,
  converted, signed_result, checked_string_to_intptr,
}

module _ (modulus : ℕ) where
  value-apply_exponent :
      (n result prev_result : ℕ) (overflow : Bool)
      → (apply_exponent modulus n result prev_result overflow).value
        ≡ multiply_by_tens modulus n result
  unfolding apply_exponent multiply_by_tens
  value-apply_exponent zero result prev overflow = refl
  value-apply_exponent (suc n) result prev overflow = value-apply_exponent n _ _ _

  value-finish_exponent :
      (s : Bytes) (result : ℕ) (overflow : Bool)
      → (finish_exponent modulus s result overflow).value ≡ unchecked_exponent modulus s result
  unfolding finish_exponent unchecked_exponent
  value-finish_exponent [] result overflow = refl
  value-finish_exponent (c ∷ s) result overflow =
      ground (arith, value-apply_exponent (parse_exponent (c ∷ s)).0 result result overflow)

  value-finish_decimals :
      (s : Bytes) (result : ℕ) (overflow : Bool)
      → (finish_decimals modulus s result overflow).value ≡ result
  unfolding finish_decimals
  value-finish_decimals s result overflow = refl

  value-checked_digits :
      (s : Bytes) (result prev_result : ℕ) (overflow : Bool)
      → (checked_digits modulus s result prev_result overflow).value
        ≡ unchecked_digits modulus s result
  unfolding checked_digits unchecked_digits
  value-checked_digits [] result prev overflow = refl
  value-checked_digits (c ∷ s) result prev overflow = ground (
    arith,
    value-checked_digits s ((result * 10 + digit_value c) % modulus)
        ((result * 10 + digit_value c) % modulus)
        (overflow || ltb ((result * 10 + digit_value c) % modulus) prev),
    value-finish_decimals s result overflow,
    value-finish_exponent (skip_plus s) result overflow,
  )

-- The checked and the unchecked conversion give the same value for every text, also for one that
-- the checked conversion flags.
pub checked_string_to_uint-unchecked_string_to_uint :
    (modulus : ℕ) (s : Bytes)
    → (checked_string_to_uint modulus s).value ≡ unchecked_string_to_uint modulus s
unfolding checked_string_to_uint unchecked_string_to_uint unchecked_digits
checked_string_to_uint-unchecked_string_to_uint modulus [] = refl
checked_string_to_uint-unchecked_string_to_uint modulus (c ∷ s) =
    value-checked_digits modulus (c ∷ s) 0 0 false

-- The number that a text of digits stands for after the digits of `n`.
abbrev pub decimal : ℕ → Bytes → ℕ
decimal n [] = n
decimal n (c ∷ s) = decimal (n * 10 + digit_value c) s

abbrev pub all_digits : Bytes → Bool
all_digits [] = true
all_digits (c ∷ s) = is_digit c && all_digits s

decimal-le : (n : ℕ) (s : Bytes) → n ≤ decimal n s
decimal-le n [] = omega arith
decimal-le n (c ∷ s) = omega (arith, decimal-le (n * 10 + digit_value c) s)

checked_digits-decimal :
    (modulus : ℕ) (s : Bytes) (result prev_result : ℕ)
    → all_digits s ≡ true
    → decimal result s < modulus
    → prev_result ≤ result
    → checked_digits modulus s result prev_result false
      ≡ record { value = decimal result s; overflow = false; badparse = false }
unfolding checked_digits
checked_digits-decimal modulus [] result prev h fits le = refl
checked_digits-decimal modulus (c ∷ s) result prev h fits le =
    rw (left, exact, no_flag) (checked_digits-decimal modulus s next next right fits (omega arith))
  where
    next : ℕ
    next = result * 10 + digit_value c

    left : is_digit c ≡ true
    left = ground arith

    right : all_digits s ≡ true
    right = ground arith

    exact : (result * 10 + digit_value c) % modulus ≡ next
    exact = mod-eq_of_lt (omega (arith, decimal-le next s))

    no_flag : ltb next prev ≡ false
    no_flag = ground arith

-- A text of digits is converted to the number it stands for, with no flag, if the type holds that
-- number.
pub checked_string_to_uint-decimal :
    (modulus c : ℕ) (s : Bytes)
    → all_digits (c ∷ s) ≡ true
    → decimal 0 (c ∷ s) < modulus
    → checked_string_to_uint modulus (c ∷ s)
      ≡ record { value = decimal 0 (c ∷ s); overflow = false; badparse = false }
unfolding checked_string_to_uint
checked_string_to_uint-decimal modulus c s h fits =
    checked_digits-decimal modulus (c ∷ s) 0 0 h fits (omega arith)

narrow-int64 : (n : ℕ) → n < int64_half → narrow int64_half (pos n) ≡ pos n
unfolding narrow
narrow-int64 n h = ground arith

-- The negation that wraps around is exact up to the least integer.
narrow-neg :
    (n : ℕ) → n ≤ int64_half → narrow int64_half (neg_ℤ (narrow int64_half (pos n))) ≡ neg_ℤ (pos n)
unfolding narrow
narrow-neg n h = ground arith

abbrev exact_value : ℕ → ParsedUint
exact_value n = record { value = n; overflow = false; badparse = false }

signed_result-pos :
    (n : ℕ) → n < int64_half → signed_result (exact_value n) false ≡ converted (pos n)
unfolding signed_result is_overflow
signed_result-pos n h = ground (arith, narrow-int64 n h)

signed_result-neg :
    (n : ℕ) → n ≤ int64_half → signed_result (exact_value n) true ≡ converted (neg_ℤ (pos n))
unfolding signed_result is_overflow
signed_result-neg n h = ground (arith, narrow-neg n h)

checked_string_to_uint64-decimal :
    (c : ℕ) (s : Bytes)
    → all_digits (c ∷ s) ≡ true
    → decimal 0 (c ∷ s) ≤ int64_half
    → checked_string_to_uint64 (c ∷ s) ≡ exact_value (decimal 0 (c ∷ s))
unfolding checked_string_to_uint64
checked_string_to_uint64-decimal c s h fits =
    checked_string_to_uint-decimal uint64_modulus c s h (omega arith)

checked_string_to_intptr-decimal :
    (c : ℕ) (s : Bytes)
    → all_digits (c ∷ s) ≡ true
    → decimal 0 (c ∷ s) < int64_half
    → checked_string_to_intptr (c ∷ s) ≡ converted (pos (decimal 0 (c ∷ s)))
unfolding checked_string_to_intptr
checked_string_to_intptr-decimal c s h fits =
    rw (no_sign, checked_string_to_uint64-decimal c s h (omega arith))
      (signed_result-pos (decimal 0 (c ∷ s)) fits)
  where
    no_sign : (c == b'-') ≡ false
    no_sign = ground arith

checked_string_to_intptr-neg :
    (c : ℕ) (s : Bytes)
    → all_digits (c ∷ s) ≡ true
    → decimal 0 (c ∷ s) ≤ int64_half
    → checked_string_to_intptr (b'-' ∷ c ∷ s) ≡ converted (neg_ℤ (pos (decimal 0 (c ∷ s))))
unfolding checked_string_to_intptr
checked_string_to_intptr-neg c s h fits =
    rw (checked_string_to_uint64-decimal c s h fits) (signed_result-neg (decimal 0 (c ∷ s)) fits)

-- A minus sign, or none.
abbrev pub minus_sign : Bool → Bytes
minus_sign true = b'-' ∷ []
minus_sign false = []

abbrev pub signed : Bool → ℕ → ℤ
signed true n = neg_ℤ (pos n)
signed false n = pos n

-- A text of digits, with a minus sign or without, is converted to the integer it stands for, if that
-- is one of the values of an `intptr_t`.
pub checked_string_to_intptr-signed :
    (negative : Bool) (c : ℕ) (s : Bytes)
    → all_digits (c ∷ s) ≡ true
    → InRange int64_half (signed negative (decimal 0 (c ∷ s)))
    → checked_string_to_intptr (minus_sign negative ++ (c ∷ s))
      ≡ converted (signed negative (decimal 0 (c ∷ s)))
checked_string_to_intptr-signed true c s h range = checked_string_to_intptr-neg c s h (ground arith)
checked_string_to_intptr-signed false c s h range =
    checked_string_to_intptr-decimal c s h (omega arith)
