-- ===== src/Json/Skip.antt =====
-- `skip_json_value` and `validate_json` of src/dynd/json_parser.cpp. A text that is skipped is given
-- back without the value at its start; the position that a `parse_error` carries is left out.
use libdynd.Common.{
  ℕ, zero, suc, ◌+◌, ◌*◌, ◌||◌, Option, none, some, [], ◌∷◌, length, ◌==◌, if◌then◌else◌, codes,
}
use libdynd.Parse.{Bytes, is_digit, skip_whitespace, parse_token}
use libdynd.Parse.Strings.{Quoted, no_quote, quoted, parse_doublequote_string_no_ws}
use libdynd.Parse.Strings
use libdynd.Parse.Numbers.{parse_json_number_no_ws}

-- `out_of_fuel` is no outcome of the source, which calls itself.
pub data Skipped : Type 0 where
  skipped : (rest : Bytes) → Skipped
  parse_error : Skipped
  out_of_fuel : Skipped

unfoldable pub and_skip : Skipped → (Bytes → Skipped) → Skipped
and_skip (skipped rest) next = next rest
and_skip parse_error next = parse_error
and_skip out_of_fuel next = out_of_fuel

-- What follows a token, or what is done without it.
unfoldable pub by_token : Option Bytes → (Bytes → Skipped) → Skipped → Skipped
by_token (some rest) next other = next rest
by_token none next other = other

-- A scan whose failure is thrown.
abbrev pub or_throw : Option Bytes → Skipped
or_throw (some rest) = skipped rest
or_throw none = parse_error

abbrev pub string_or_throw : Quoted → Skipped
string_or_throw (quoted body rest escaped) = skipped rest
string_or_throw no_quote = parse_error
string_or_throw Strings.parse_error = parse_error

-- The cases of the switch on the first character.
pub data Start : Type 0 where
  object_start array_start string_start true_start false_start null_start number_start no_start :
      Start

unfoldable pub start_of : ℕ → Start
start_of c =
    if c == b'{'
    then object_start
    else if c == b'['
    then array_start
    else if c == 34
    then string_start
    else if c == b't'
    then true_start
    else if c == b'f'
    then false_start
    else if c == b'n'
    then null_start
    else if (c == b'-') || is_digit c
    then number_start
    else no_start

-- The name of a field and the colon behind it.
unfoldable pub skip_name : Bytes → Skipped
skip_name s =
    and_skip (string_or_throw (parse_doublequote_string_no_ws (skip_whitespace s)))
      (λ r. or_throw (parse_token (codes ":") r))

unfoldable mutual
  pub skip_json_value : ℕ → Bytes → Skipped
  skip_json_value zero s = out_of_fuel
  skip_json_value (suc fuel) s = skip_start fuel (skip_whitespace s)

  -- What stands behind the white space.
  pub skip_start : ℕ → Bytes → Skipped
  skip_start zero s = out_of_fuel
  skip_start (suc fuel) [] = parse_error
  skip_start (suc fuel) (c ∷ s) = skip_case fuel (start_of c) (c ∷ s) s

  -- The switch: the text from the first character, and from behind it.
  pub skip_case : ℕ → Start → Bytes → Bytes → Skipped
  skip_case zero start text s = out_of_fuel
  skip_case (suc fuel) object_start text s =
      by_token (parse_token (codes "}") s) (λ rest. skipped rest) (skip_members fuel s)
  skip_case (suc fuel) array_start text s =
      by_token (parse_token (codes "]") s) (λ rest. skipped rest) (skip_elements fuel s)
  skip_case (suc fuel) string_start text s = string_or_throw (parse_doublequote_string_no_ws text)
  skip_case (suc fuel) true_start text s = or_throw (parse_token (codes "true") text)
  skip_case (suc fuel) false_start text s = or_throw (parse_token (codes "false") text)
  skip_case (suc fuel) null_start text s = or_throw (parse_token (codes "null") text)
  skip_case (suc fuel) number_start text s = or_throw (parse_json_number_no_ws text)
  skip_case (suc fuel) no_start text s = parse_error

  -- The loop over the elements of an array.
  pub skip_elements : ℕ → Bytes → Skipped
  skip_elements zero s = out_of_fuel
  skip_elements (suc fuel) s = and_skip (skip_json_value fuel s) (λ r.
      by_token (parse_token (codes ",") r) (λ next. skip_elements fuel next)
        (or_throw (parse_token (codes "]") r)))

  -- The loop over the fields of an object.
  pub skip_members : ℕ → Bytes → Skipped
  skip_members zero s = out_of_fuel
  skip_members (suc fuel) s = and_skip (and_skip (skip_name s) (λ v. skip_json_value fuel v)) (λ r.
      by_token (parse_token (codes ",") r) (λ next. skip_members fuel next)
        (or_throw (parse_token (codes "}") r)))

-- `begin != end`
abbrev pub no_more : Bytes → Skipped
no_more [] = skipped []
no_more (c ∷ s) = parse_error

-- `validate_json` before it turns a `parse_error` into a message.
unfoldable pub validate_json : Bytes → Skipped
validate_json s =
    and_skip (skip_json_value (4 * length s + 2) s) (λ rest. no_more (skip_whitespace rest))
