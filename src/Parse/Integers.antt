-- ===== src/Parse/Integers.antt =====
-- The conversion of a text to an integer, of src/dynd/parser_util.cpp. The type `T` of the result is
-- the number `modulus` of its values: 2^64 for `uint64_t` and 2^128 for `uint128`.
use libdynd.Common.{
  ℕ, zero, suc, ◌+◌, ◌-◌, ◌*◌, ◌%◌, Bool, true, false, not, ◌&&◌, ◌||◌, [], ◌∷◌, leb, ltb, ◌==◌,
  if◌then◌else◌,
}
use libdynd.Common.Int.{ℤ, pos, neg_ℤ, narrow, int64_half}
use libdynd.Parse.{Bytes, is_digit}

abbrev pub digit_value : ℕ → ℕ
digit_value c = c - b'0'

-- The result with the two flags.
pub record ParsedUint : Type 0 where
  pub value : ℕ
  pub overflow : Bool
  pub badparse : Bool

unfoldable pub skip_zeros : Bytes → Bytes
skip_zeros [] = []
skip_zeros (c ∷ s) = if c == b'0' then skip_zeros s else c ∷ s

-- A digit that follows `exponent`, if there is one.
unfoldable pub exponent_digit : ℕ → Bytes → ℕ × Bytes
exponent_digit exponent [] = (exponent, [])
exponent_digit exponent (c ∷ s) =
    if is_digit c then (10 * exponent + digit_value c, s) else (exponent, c ∷ s)

unfoldable pub skip_plus : Bytes → Bytes
skip_plus [] = []
skip_plus (c ∷ s) = if c == b'+' then s else c ∷ s

-- The exponent of at most two digits after leading zeros, with what is left.
unfoldable pub parse_exponent : Bytes → ℕ × Bytes
parse_exponent s = let first = exponent_digit 0 (skip_zeros s) in exponent_digit first.0 first.1

-- `begin == end`.
abbrev pub is_empty : Bytes → Bool
is_empty [] = true
is_empty (c ∷ s) = false

abbrev pub is_exponent_mark : ℕ → Bool
is_exponent_mark c = (c == b'e') || (c == b'E')

module _ (modulus : ℕ) where
  -- The loop over the exponent, with the flag for an overflow.
  unfoldable pub apply_exponent : ℕ → ℕ → ℕ → Bool → ParsedUint
  apply_exponent zero result prev_result overflow = record {
    value = result;
    overflow = overflow;
    badparse = false;
  }
  apply_exponent (suc n) result prev_result overflow =
      let next = (result * 10) % modulus in
      apply_exponent n next next (overflow || ltb next prev_result)

  -- What follows an `e`.
  unfoldable pub finish_exponent : Bytes → ℕ → Bool → ParsedUint
  finish_exponent [] result overflow = record {
    value = result;
    overflow = overflow;
    badparse = true;
  }
  finish_exponent (c ∷ s) result overflow =
      let parsed = parse_exponent (c ∷ s) in
      if is_empty parsed.1
      then apply_exponent parsed.0 result result overflow
      else record { value = result; overflow = overflow; badparse = true }

  -- What follows a `.`.
  unfoldable pub finish_decimals : Bytes → ℕ → Bool → ParsedUint
  finish_decimals s result overflow = record {
    value = result;
    overflow = overflow;
    badparse = not (is_empty (skip_zeros s));
  }

  -- The loop over the digits.
  unfoldable pub checked_digits : Bytes → ℕ → ℕ → Bool → ParsedUint
  checked_digits [] result prev_result overflow = record {
    value = result;
    overflow = overflow;
    badparse = false;
  }
  checked_digits (c ∷ s) result prev_result overflow =
      let next = (result * 10 + digit_value c) % modulus in
      let rest = checked_digits s next next (overflow || ltb next prev_result) in
      if is_digit c
      then rest
      else if c == b'.'
      then finish_decimals s result overflow
      else if is_exponent_mark c
      then finish_exponent (skip_plus s) result overflow
      else record { value = result; overflow = overflow; badparse = true }

  unfoldable pub checked_string_to_uint : Bytes → ParsedUint
  checked_string_to_uint [] = record { value = 0; overflow = false; badparse = true }
  checked_string_to_uint (c ∷ s) = checked_digits (c ∷ s) 0 0 false

  unfoldable pub multiply_by_tens : ℕ → ℕ → ℕ
  multiply_by_tens zero result = result
  multiply_by_tens (suc n) result = multiply_by_tens n ((result * 10) % modulus)

  unfoldable pub unchecked_exponent : Bytes → ℕ → ℕ
  unchecked_exponent [] result = result
  unchecked_exponent (c ∷ s) result =
      let parsed = parse_exponent (c ∷ s) in
      if is_empty parsed.1 then multiply_by_tens parsed.0 result else result

  unfoldable pub unchecked_digits : Bytes → ℕ → ℕ
  unchecked_digits [] result = result
  unchecked_digits (c ∷ s) result =
      let rest = unchecked_digits s ((result * 10 + digit_value c) % modulus) in
      if is_digit c
      then rest
      else if is_exponent_mark c
      then unchecked_exponent (skip_plus s) result
      else result

  unfoldable pub unchecked_string_to_uint : Bytes → ℕ
  unchecked_string_to_uint s = unchecked_digits s 0

abbrev pub uint64_modulus : ℕ
uint64_modulus = 18446744073709551616

unfoldable pub checked_string_to_uint64 : Bytes → ParsedUint
checked_string_to_uint64 s = checked_string_to_uint uint64_modulus s

-- `is_overflow` of a signed type of half range `half`: a bit above the value bits is set, unless the
-- integer is the least of the type.
unfoldable pub is_overflow : ℕ → ℕ → Bool → Bool
is_overflow half value negative = leb half value && not (negative && (value == half))

pub data IntptrResult : Type 0 where
  converted : ℤ → IntptrResult
  overflow_error : IntptrResult
  invalid_argument : IntptrResult

-- The value with its sign, or the exception of its flags.
unfoldable pub signed_result : ParsedUint → Bool → IntptrResult
signed_result parsed negative =
    if parsed.overflow || is_overflow int64_half parsed.value negative
    then overflow_error
    else if parsed.badparse
    then invalid_argument
    else if negative
    then converted (narrow int64_half (neg_ℤ (narrow int64_half (pos parsed.value))))
    else converted (narrow int64_half (pos parsed.value))

-- `intptr_t` has 64 bits.
unfoldable pub checked_string_to_intptr : Bytes → IntptrResult
checked_string_to_intptr [] = signed_result (checked_string_to_uint64 []) false
checked_string_to_intptr (c ∷ s) =
    if c == b'-'
    then signed_result (checked_string_to_uint64 s) true
    else signed_result (checked_string_to_uint64 (c ∷ s)) false
