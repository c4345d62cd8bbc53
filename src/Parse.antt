-- ===== src/Parse.antt =====
-- The scanning primitives of include/dynd/parser_util.hpp and src/dynd/parser_util.cpp. A pair of
-- pointers `begin`, `end` is the list of the bytes between them; a function that moves `begin` and
-- returns true gives back the bytes that are left, and `none` stands for false with `begin` as it
-- was. `isspace`, `isalpha` and `isdigit` are those of the C locale.
pub mod IntegerLaws
pub mod Integers
pub mod Names
pub mod Numbers
pub mod StringLaws
pub mod Strings
mod Tests
use libdynd.Common.{
  ℕ, ◌+◌, ◌-◌, ◌*◌, Bool, ◌&&◌, ◌||◌, Option, none, some, List, [], ◌∷◌, leb, ◌==◌, if◌then◌else◌,
}

abbrev pub Bytes : Type 0
Bytes = List ℕ

abbrev pub is_space : ℕ → Bool
is_space c = (c == 32) || (leb 9 c && leb c 13)

abbrev pub is_digit : ℕ → Bool
is_digit c = leb b'0' c && leb c b'9'

abbrev pub is_alpha : ℕ → Bool
is_alpha c = (leb b'a' c && leb c b'z') || (leb b'A' c && leb c b'Z')

unfoldable pub skip_whitespace : Bytes → Bytes
skip_whitespace [] = []
skip_whitespace (c ∷ s) = if is_space c then skip_whitespace s else c ∷ s

unfoldable pub skip_required_whitespace : Bytes → Option Bytes
skip_required_whitespace [] = none
skip_required_whitespace (c ∷ s) = if is_space c then some (skip_whitespace s) else none

-- `memcmp` of a literal with what comes next, and the move past it: the overload of
-- `parse_token_no_ws` for a text.
unfoldable pub parse_token_no_ws : Bytes → Bytes → Option Bytes
parse_token_no_ws [] s = some s
parse_token_no_ws (t ∷ ts) [] = none
parse_token_no_ws (t ∷ ts) (c ∷ s) = if t == c then parse_token_no_ws ts s else none

-- The overload of `parse_token` for a text.
unfoldable pub parse_token : Bytes → Bytes → Option Bytes
parse_token token s = parse_token_no_ws token (skip_whitespace s)

-- The overload of `parse_token_no_ws` for a character.
unfoldable pub parse_char_no_ws : ℕ → Bytes → Option Bytes
parse_char_no_ws token [] = none
parse_char_no_ws token (c ∷ s) = if c == token then some s else none

unfoldable pub parse_2digit_int_no_ws : Bytes → Option (ℕ × Bytes)
parse_2digit_int_no_ws [] = none
parse_2digit_int_no_ws (a ∷ []) = none
parse_2digit_int_no_ws (a ∷ b ∷ s) =
    if is_digit a && is_digit b then some ((a - b'0') * 10 + (b - b'0'), s) else none

unfoldable pub parse_1or2digit_int_no_ws : Bytes → Option (ℕ × Bytes)
parse_1or2digit_int_no_ws [] = none
parse_1or2digit_int_no_ws (a ∷ []) = if is_digit a then some (a - b'0', []) else none
parse_1or2digit_int_no_ws (a ∷ b ∷ s) =
    if is_digit a
    then (if is_digit b then some ((a - b'0') * 10 + (b - b'0'), s) else some (a - b'0', b ∷ s))
    else none

unfoldable pub parse_4digit_int_no_ws : Bytes → Option (ℕ × Bytes)
parse_4digit_int_no_ws (a ∷ b ∷ c ∷ d ∷ s) =
    if is_digit a && is_digit b && is_digit c && is_digit d
    then some ((((a - b'0') * 10 + (b - b'0')) * 10 + (c - b'0')) * 10 + (d - b'0'), s)
    else none
parse_4digit_int_no_ws s = none

unfoldable pub parse_6digit_int_no_ws : Bytes → Option (ℕ × Bytes)
parse_6digit_int_no_ws (a ∷ b ∷ c ∷ d ∷ e ∷ f ∷ s) =
    if is_digit a && is_digit b && is_digit c && is_digit d && is_digit e && is_digit f
    then some (
      (((((a - b'0') * 10 + (b - b'0')) * 10 + (c - b'0')) * 10 + (d - b'0')) * 10 + (e - b'0'))
            * 10
          + (f - b'0'),
      s,
    )
    else none
parse_6digit_int_no_ws s = none
