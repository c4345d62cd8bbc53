-- ===== src/Parse/Strings.antt =====
-- Quoted strings and their escapes, names and JSON numbers, of src/dynd/parser_util.cpp.
-- `append_utf8_codepoint`, which stands on a library for UTF-8, is a parameter.
use libdynd.Common.{
  ℕ, zero, suc, ◌+◌, ◌-◌, ◌*◌, ◌%◌, Bool, true, false, ◌&&◌, ◌||◌, Option, none, some, [], ◌∷◌,
  ◌++◌, leb, ◌==◌, if◌then◌else◌,
}
use libdynd.Parse.{Bytes, is_digit, is_alpha}

-- What the scan of a quoted string does: it returns false, throws a `parse_error`, or returns true
-- with the bytes between the quotes, those after them, and whether there was an escape.
pub data Quoted : Type 0 where
  no_quote : Quoted
  parse_error : Quoted
  quoted : (body rest : Bytes) (escaped : Bool) → Quoted

abbrev pub prepend : ℕ → Quoted → Quoted
prepend c (quoted body rest escaped) = quoted (c ∷ body) rest escaped
prepend c q = q

-- Where a loop over a string stands: between characters, behind a backslash, or before a number of
-- hexadecimal digits.
pub data Place : Type 0 where
  in_text : Place
  after_backslash : Place
  in_hex : (left : ℕ) → Place

abbrev pub is_hex_digit : ℕ → Bool
is_hex_digit d =
    (leb b'0' d && leb d b'9') || (leb b'A' d && leb d b'F') || (leb b'a' d && leb d b'f')

-- One of `"`, `\`, `/`, `b`, `f`, `n`, `r` and `t`.
abbrev pub is_simple_escape : ℕ → Bool
is_simple_escape c =
    (c == 34)
    || (c == 92)
    || (c == b'/')
    || (c == b'b')
    || (c == b'f')
    || (c == b'n')
    || (c == b'r')
    || (c == b't')

-- The place before the last `suc left` digits of an escape, once one of them is read.
abbrev pub hex_next : ℕ → Place
hex_next zero = in_text
hex_next (suc left) = in_hex left

-- The loop of the scan.
unfoldable pub scan_string : Place → Bool → Bytes → Quoted
scan_string place escaped [] = parse_error
scan_string in_text escaped (c ∷ s) =
    let escape = scan_string after_backslash true s in
    let more = scan_string in_text escaped s in
    if c == 92 then prepend c escape else if c == 34 then quoted [] s escaped else prepend c more
scan_string after_backslash escaped (c ∷ s) =
    let more = scan_string in_text escaped s in
    let short = scan_string (in_hex 3) escaped s in
    let long = scan_string (in_hex 7) escaped s in
    if is_simple_escape c
    then prepend c more
    else if c == b'u'
    then prepend c short
    else if c == b'U'
    then prepend c long
    else parse_error
scan_string (in_hex left) escaped (c ∷ s) =
    let more = scan_string (hex_next left) escaped s in
    if is_hex_digit c then prepend c more else parse_error

unfoldable pub parse_doublequote_string_no_ws : Bytes → Quoted
parse_doublequote_string_no_ws [] = no_quote
parse_doublequote_string_no_ws (c ∷ s) =
    let scanned = scan_string in_text false s in if c == 34 then scanned else no_quote

-- The code point with one more hexadecimal digit, in 32 bits; a byte that is no such digit makes it
-- a question mark.
abbrev pub hex_step : ℕ → ℕ → ℕ
hex_step cp d =
    if leb b'0' d && leb d b'9'
    then (cp * 16 + (d - b'0')) % 4294967296
    else if leb b'A' d && leb d b'F'
    then (cp * 16 + (d - b'A' + 10)) % 4294967296
    else if leb b'a' d && leb d b'f'
    then (cp * 16 + (d - b'a' + 10)) % 4294967296
    else b'?'

-- The byte that an escape other than `u` and `U` stands for.
abbrev pub simple_escape : ℕ → ℕ
simple_escape c =
    if (c == 34) || (c == 92) || (c == b'/')
    then c
    else if c == b'b'
    then 8
    else if c == b'f'
    then 12
    else if c == b'n'
    then 10
    else if c == b'r'
    then 13
    else if c == b't'
    then 9
    else b'?'

module _ (append_utf8_codepoint : ℕ → Bytes → Bytes) where
  -- The output once a digit of an escape is read: the code point is appended with the last.
  abbrev pub hex_output : ℕ → ℕ → Bytes → Bytes
  hex_output zero cp out = append_utf8_codepoint cp out
  hex_output (suc left) cp out = out

  -- The loop of `unescape_string`, with the code point being read and the output. An escape cut off
  -- by the end of the string appends nothing.
  unfoldable pub unescape_loop : Place → ℕ → Bytes → Bytes → Bytes
  unescape_loop place cp out [] = out
  unescape_loop in_text cp out (c ∷ s) =
      let escape = unescape_loop after_backslash 0 out s in
      let more = unescape_loop in_text 0 (out ++ (c ∷ [])) s in if c == 92 then escape else more
  unescape_loop after_backslash cp out (c ∷ s) =
      let short = unescape_loop (in_hex 3) 0 out s in
      let long = unescape_loop (in_hex 7) 0 out s in
      let more = unescape_loop in_text 0 (out ++ (simple_escape c ∷ [])) s in
      if c == b'u' then short else if c == b'U' then long else more
  unescape_loop (in_hex left) cp out (c ∷ s) =
      unescape_loop (hex_next left) (hex_step cp c) (hex_output left (hex_step cp c) out) s

  unfoldable pub unescape_string : Bytes → Bytes
  unescape_string s = unescape_loop in_text 0 [] s

-- The characters of a name after the first, with what is left.
unfoldable pub name_rest : (ℕ → Bool) → Bytes → Bytes × Bytes
name_rest test [] = ([], [])
name_rest test (c ∷ s) =
    let more = name_rest test s in if test c then (c ∷ more.0, more.1) else ([], c ∷ s)

abbrev pub is_name_start : ℕ → Bool
is_name_start c = is_alpha c || (c == b'_')

abbrev pub is_name_char : ℕ → Bool
is_name_char c = is_alpha c || is_digit c || (c == b'_')

unfoldable pub parse_name_no_ws : Bytes → Option (Bytes × Bytes)
parse_name_no_ws [] = none
parse_name_no_ws (c ∷ s) =
    let more = name_rest is_name_char s in
    if is_name_start c then some (c ∷ more.0, more.1) else none

unfoldable pub parse_alpha_name_no_ws : Bytes → Option (Bytes × Bytes)
parse_alpha_name_no_ws [] = none
parse_alpha_name_no_ws (c ∷ s) =
    let more = name_rest is_alpha s in if is_alpha c then some (c ∷ more.0, more.1) else none
