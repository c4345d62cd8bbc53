-- ===== src/Parse/Numbers.antt =====
-- The scan of a JSON number, `parse_json_number_no_ws` of src/dynd/parser_util.cpp: each part gives
-- back the bytes behind it, so the number is what stands before the last of them.
use libdynd.Common.{◌&&◌, ◌||◌, Option, none, some, [], ◌∷◌, leb, ◌==◌, if◌then◌else◌}
use libdynd.Parse.{Bytes, is_digit}

abbrev pub and_rest : Option Bytes → (Bytes → Option Bytes) → Option Bytes
and_rest none part = none
and_rest (some s) part = part s

-- `while (begin < end && ('0' <= *begin && *begin <= '9'))`
unfoldable pub digits_rest : Bytes → Bytes
digits_rest [] = []
digits_rest (c ∷ s) = if is_digit c then digits_rest s else c ∷ s

-- "Optional minus sign"
unfoldable pub skip_minus : Bytes → Bytes
skip_minus [] = []
skip_minus (c ∷ s) = if c == b'-' then s else c ∷ s

-- "Either '0' or a non-zero digit followed by digits"
unfoldable pub json_integer : Bytes → Option Bytes
json_integer [] = none
json_integer (c ∷ s) =
    if c == b'0' then some s else if leb b'1' c && leb c b'9' then some (digits_rest s) else none

unfoldable pub one_or_more_digits : Bytes → Option Bytes
one_or_more_digits [] = none
one_or_more_digits (c ∷ s) = if is_digit c then some (digits_rest s) else none

-- "Optional decimal point, followed by one or more digits"
unfoldable pub json_fraction : Bytes → Option Bytes
json_fraction [] = some []
json_fraction (c ∷ s) = if c == b'.' then one_or_more_digits s else some (c ∷ s)

unfoldable pub skip_sign : Bytes → Bytes
skip_sign [] = []
skip_sign (c ∷ s) = if (c == b'+') || (c == b'-') then s else c ∷ s

-- "Optional exponent, followed by +/- and some digits"
unfoldable pub json_exponent : Bytes → Option Bytes
json_exponent [] = some []
json_exponent (c ∷ s) =
    if (c == b'e') || (c == b'E') then one_or_more_digits (skip_sign s) else some (c ∷ s)

unfoldable pub parse_json_number_no_ws : Bytes → Option Bytes
parse_json_number_no_ws s =
    and_rest (and_rest (json_integer (skip_minus s)) json_fraction) json_exponent
