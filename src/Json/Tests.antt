-- ===== src/Json/Tests.antt =====
-- Runs on concrete texts and values, and the theorems at them.
use libdynd.Common.{
  ℕ, ◌+◌, ◌/◌, ◌%◌, ◌≤◌, ◌<◌, ◌≡◌, ◌≢◌, ◌++◌, refl, arith, true, false, none, some, [], ◌∷◌, codes,
  leb, ltb, if◌then◌else◌,
}
use libdynd.Common.Int.{pos, negsuc, ◌-ℤ◌, narrow}
use libdynd.Parse.{Bytes, skip_whitespace, parse_token_no_ws, parse_token}
use libdynd.Parse.Names.{every_byte}
use libdynd.Parse.Strings.{parse_doublequote_string_no_ws, scan_string}
use libdynd.Parse.Numbers.{
  digits_rest, skip_minus, json_integer, one_or_more_digits, json_fraction, skip_sign,
  json_exponent, parse_json_number_no_ws,
}
use libdynd.Json.Skip.{
  skipped, parse_error, out_of_fuel, and_skip, by_token, start_of, skip_name, skip_json_value,
  skip_start, skip_case, skip_elements, skip_members, validate_json,
}
use libdynd.Json.Position.{
  line_column, split_line, line_round, line_column_loop, get_error_line_column, shown_line,
  marker_blanks, print_json_parse_error_marker,
}
use libdynd.Json.Position.Lines.{Finds, get_error_line_column-Finds}
use libdynd.Json.Format.{
  hexadecimal_print_char, hexadecimal_print, print_escaped_unicode_codepoint, escaped_string,
  format_json_encoded_string, format_json, format_values, format_fields, format_field_values, Value,
  bool_value, number_value, string_value, text_value, not_available, struct_value, dim_value,
  no_values, value, no_fields, field,
}
use libdynd.Json.Fuel.{validate_json-ne-out_of_fuel}
use libdynd.Json.StringAppends.{utf8_text}
use libdynd.Json.StringRoundTrip.{Reads, format_json_encoded_string-Reads}
use libdynd.Json.RoundTrip.{is_formattable, validate_json-format_json}

methods : Unit {0}
unfolding skip_whitespace parse_token_no_ws parse_token parse_doublequote_string_no_ws scan_string
    digits_rest skip_minus json_integer one_or_more_digits json_fraction skip_sign json_exponent
    parse_json_number_no_ws and_skip by_token start_of skip_name skip_json_value skip_start
    skip_case skip_elements skip_members validate_json split_line line_round line_column_loop
    get_error_line_column shown_line marker_blanks print_json_parse_error_marker
    hexadecimal_print_char hexadecimal_print print_escaped_unicode_codepoint escaped_string
    format_json_encoded_string format_json format_values format_fields format_field_values
    is_formattable narrow ◌-ℤ◌
methods = tt

-- The UTF-8 of a code point from 128 on and below 2048, and the replacement character for others.
abbrev two_bytes : ℕ → Bytes
two_bytes cp = if ltb cp 2048 then (192 + cp / 64) ∷ (128 + cp % 64) ∷ [] else 239 ∷ 191 ∷ 189 ∷ []

two_bytes-high : (cp : ℕ) → 128 ≤ cp → every_byte (leb 128) (two_bytes cp) ≡ true
two_bytes-high cp h = ground arith

-- `append_utf8_codepoint` for the same code points.
abbrev append_two_bytes : ℕ → Bytes → Bytes
append_two_bytes cp out = out ++ (if ltb cp 128 then cp ∷ [] else two_bytes cp)

append_two_bytes-ascii :
    (cp : ℕ) (out : Bytes) → cp < 128 → append_two_bytes cp out ≡ out ++ (cp ∷ [])
append_two_bytes-ascii cp out h = ground arith

spaced : validate_json (codes " { \"a\" : [1, -2.5e+3 , true], \"b\":{}}\n") ≡ skipped []
unfolding methods
spaced = refl

trailing_comma : validate_json (codes "[1,]") ≡ parse_error
unfolding methods
trailing_comma = refl

leading_zero : validate_json (codes "01") ≡ parse_error
unfolding methods
leading_zero = refl

second_line :
    get_error_line_column (codes "[1,\n 2 3]") 7
    ≡ some (line_column (codes "[1,") (codes " 2 3]") (pos 2) (pos 4))
unfolding methods
second_line = refl

-- An error at the end of such a text throws `runtime_error`, not `invalid_argument`.
no_position : get_error_line_column (codes "[\n") 2 ≡ none
unfolding methods
no_position = refl

marked :
    print_json_parse_error_marker (line_column (codes "[1,") (codes " 2 3]") (pos 2) (pos 4))
    ≡ codes "[1,\n 2 3]\n   ^\n"
unfolding methods
marked = refl

-- The place of a long line is narrowed.
narrowed_column :
    line_round (λ d m r q. none) [] 1 [] 2147483648 none
    ≡ some (line_column [] [] (pos 1) (negsuc 2147483646))
unfolding methods
narrowed_column = refl

-- A quote, a slash, a control character and a letter with an accent.
abbrev escapes : Bytes
escapes = 34 ∷ b'/' ∷ 1 ∷ 233 ∷ []

escaped :
    format_json_encoded_string two_bytes escapes ≡ codes "\"\\\"\\/\\u0001" ++ (195 ∷ 169 ∷ 34 ∷ [])
unfolding methods
escaped = refl

abbrev record_value : Value
record_value = struct_value (
    field (codes "a")
      (dim_value (value (number_value (codes "-2.5e3")) (value not_available no_values)))
      (field (codes "b") (string_value escapes) no_fields))

as_list :
    format_json two_bytes true (
      struct_value (
        field (codes "a") (bool_value true) (field (codes "b") (text_value (codes "x")) no_fields)))
    ≡ codes "[true,\"x\"]"
unfolding methods
as_list = refl

validate_json-ne-out_of_fuel_example : validate_json (codes "[[[]]") ≢ out_of_fuel
validate_json-ne-out_of_fuel_example = validate_json-ne-out_of_fuel (codes "[[[]]")

get_error_line_column-Finds_example :
    Finds 1 7 9 (codes "[1,\n 2 3]") (get_error_line_column (codes "[1,\n 2 3]") 7)
get_error_line_column-Finds_example =
    get_error_line_column-Finds (codes "[1,\n 2 3]") 7 (omega arith) (omega arith)

format_json_encoded_string-Reads_example :
    Reads append_two_bytes
      (utf8_text two_bytes escapes)
      (codes ":1")
      (parse_doublequote_string_no_ws (format_json_encoded_string two_bytes escapes ++ codes ":1"))
format_json_encoded_string-Reads_example =
    format_json_encoded_string-Reads two_bytes append_two_bytes two_bytes-high
      append_two_bytes-ascii escapes (codes ":1")

validate_json-format_json_example :
    validate_json (format_json two_bytes false record_value) ≡ skipped []
unfolding methods
validate_json-format_json_example =
    validate_json-format_json two_bytes false record_value two_bytes-high refl
