-- ===== src/Parse/Tests.antt =====
-- Runs of the conversions of texts, and the theorems at concrete texts.
use libdynd.Parse.{Bytes}
use libdynd.Common.{true, [], ◌∷◌, ◌++◌, some, ℕ, false, ◌≡◌, refl, codes}
use libdynd.Common.Int.{pos, negsuc, narrow}
use libdynd.Parse.Integers.{
  skip_zeros, exponent_digit, skip_plus, parse_exponent, apply_exponent, finish_exponent,
  finish_decimals, checked_digits, checked_string_to_uint, checked_string_to_uint64,
  multiply_by_tens, unchecked_exponent, unchecked_digits, unchecked_string_to_uint, is_overflow,
  converted, overflow_error, invalid_argument, signed_result, checked_string_to_intptr,
  uint64_modulus,
}
use libdynd.Parse.IntegerLaws.{checked_string_to_uint-unchecked_string_to_uint}
use libdynd.Parse.Strings.{
  quoted, scan_string, parse_doublequote_string_no_ws, unescape_loop, unescape_string, name_rest,
  parse_name_no_ws, parse_alpha_name_no_ws, parse_error,
}

methods : Unit {0}
unfolding skip_zeros exponent_digit skip_plus parse_exponent apply_exponent finish_exponent
    finish_decimals checked_digits checked_string_to_uint checked_string_to_uint64 multiply_by_tens
    unchecked_exponent unchecked_digits unchecked_string_to_uint is_overflow signed_result
    checked_string_to_intptr narrow scan_string parse_doublequote_string_no_ws unescape_loop
    unescape_string name_rest parse_name_no_ws parse_alpha_name_no_ws
methods = tt

exponent : checked_string_to_intptr (codes "-12e+03") ≡ converted (negsuc 11999)
unfolding methods
exponent = refl

decimals : checked_string_to_intptr (codes "7.50") ≡ invalid_argument
unfolding methods
decimals = refl

too_large : checked_string_to_intptr (codes "9223372036854775808") ≡ overflow_error
unfolding methods
too_large = refl

-- The wrapped result is larger than the one before, so the overflow is not flagged.
missed_overflow :
    checked_string_to_uint64 (codes "30000000000000000000")
    ≡ record { value = 11553255926290448384; overflow = false; badparse = false }
unfolding methods
missed_overflow = refl

missed_overflow_signed :
    checked_string_to_intptr (codes "22000000000000000000") ≡ converted (pos 3553255926290448384)
unfolding methods
missed_overflow_signed = refl

checked_string_to_uint-unchecked_string_to_uint_example :
    (checked_string_to_uint uint64_modulus (codes "25e2x")).value
    ≡ unchecked_string_to_uint uint64_modulus (codes "25e2x")
checked_string_to_uint-unchecked_string_to_uint_example =
    checked_string_to_uint-unchecked_string_to_uint uint64_modulus (codes "25e2x")

-- The text `"a\u0041"b`, and what stands between its quotes.
abbrev escaped_text : Bytes
escaped_text = 34 ∷ b'a' ∷ 92 ∷ (codes "u0041" ++ (34 ∷ b'b' ∷ []))

escaped_scan :
    parse_doublequote_string_no_ws escaped_text
    ≡ quoted (b'a' ∷ 92 ∷ codes "u0041") (b'b' ∷ []) true
unfolding methods
escaped_scan = refl

-- `append_utf8_codepoint` for a code point of ASCII.
abbrev append_ascii : ℕ → Bytes → Bytes
append_ascii cp out = out ++ (cp ∷ [])

unescaped_text : unescape_string append_ascii (b'a' ∷ 92 ∷ codes "u0041") ≡ codes "aA"
unfolding methods
unescaped_text = refl

open_string : parse_doublequote_string_no_ws (34 ∷ codes "abc") ≡ parse_error
unfolding methods
open_string = refl

first_word : parse_alpha_name_no_ws (codes "int32 x") ≡ some (codes "int", codes "32 x")
unfolding methods
first_word = refl

plain_scan :
    parse_doublequote_string_no_ws (34 ∷ b'a' ∷ b'b' ∷ 34 ∷ codes " c")
    ≡ quoted (codes "ab") (codes " c") false
unfolding methods
plain_scan = refl

name_scan : parse_name_no_ws (codes "x_1+y") ≡ some (codes "x_1", codes "+y")
unfolding methods
name_scan = refl
