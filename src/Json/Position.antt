-- ===== src/Json/Position.antt =====
-- `get_error_line_column` and `print_json_parse_error_marker` of src/dynd/json_parser.cpp. A position
-- is its distance from the begin of the text. The lines are counted exactly and converted to `int`
-- where they are reported, which is what counting them in an `int` that wraps around gives.
pub mod Split
pub mod Lines
pub mod Marker
use libdynd.Common.{
  ℕ, zero, suc, ◌+◌, ◌-◌, Option, none, some, [], ◌∷◌, ◌++◌, length, take, drop, replicate, ltb,
  ◌==◌, if◌then◌else◌, codes,
}
use libdynd.Common.Int.{ℤ, pos, pos_part, ◌-ℤ◌, ltb_ℤ, narrow, int32_half}
use libdynd.Parse.{Bytes}

pub record LineColumn : Type 0 where
  pub line_prev : Bytes
  pub line_cur : Bytes
  pub line : ℤ
  pub column : ℤ

abbrev pub line_column : Bytes → Bytes → ℤ → ℤ → LineColumn
line_column prev cur line column = record {
  line_prev = prev;
  line_cur = cur;
  line = line;
  column = column;
}

abbrev newline : ℕ
newline = 10

abbrev pub pushed : ℕ → Option (Bytes × Bytes) → Option (Bytes × Bytes)
pushed c none = none
pushed c (some parts) = some (c ∷ parts.0, parts.1)

-- `memchr` for the end of the line: the line and what stands behind its end.
unfoldable pub split_line : Bytes → Option (Bytes × Bytes)
split_line [] = none
split_line (c ∷ s) = let more = split_line s in if c == newline then some ([], s) else pushed c more

-- What is reported of a line and a place in it, which is narrowed to an `int`.
abbrev report : Bytes → Bytes → ℕ → ℕ → LineColumn
report prev cur line column =
    line_column prev cur (narrow int32_half (pos line)) (narrow int32_half (pos column))

-- A round of the loop over the lines, by the end of the line; `loop` is the loop behind it.
unfoldable pub line_round :
    (Bytes → ℕ → Bytes → ℕ → Option LineColumn)
    → Bytes
    → ℕ
    → Bytes
    → ℕ
    → Option (Bytes × Bytes)
    → Option LineColumn
line_round loop cur line s position none = some (report cur s line (position + 1))
line_round loop cur line s position (some parts) =
    if ltb position (suc (length parts.0))
    then some (report cur parts.0 line (position + 1))
    else loop parts.0 (line + 1) parts.1 (position - suc (length parts.0))

-- The loop over the lines; `none` stands for the `runtime_error` behind it.
unfoldable pub line_column_loop : ℕ → Bytes → ℕ → Bytes → ℕ → Option LineColumn
line_column_loop zero cur line s position = none
line_column_loop (suc fuel) cur line [] position = none
line_column_loop (suc fuel) cur line (c ∷ s) position =
    line_round (line_column_loop fuel) cur line (c ∷ s) position (split_line (c ∷ s))

unfoldable pub get_error_line_column : Bytes → ℕ → Option LineColumn
get_error_line_column s position = line_column_loop (suc (length s)) [] 1 s position

-- The part of the line that is shown, and the blanks before the mark below it.
unfoldable pub shown_line : Bytes → ℤ → Bytes
shown_line line_cur column =
    if ltb (length line_cur) 200
    then line_cur
    else if ltb_ℤ column (pos 80)
    then take 80 line_cur ++ codes " ..."
    else codes " ... " ++ (take 80 (drop (pos_part column - 60 - 1) line_cur) ++ codes " ...")

unfoldable pub marker_blanks : Bytes → ℤ → ℕ
marker_blanks line_cur column =
    let before = pos_part (narrow int32_half (column -ℤ pos 1)) in
    if ltb (length line_cur) 200 then before else if ltb_ℤ column (pos 80) then before else 65

unfoldable pub print_json_parse_error_marker : LineColumn → Bytes
print_json_parse_error_marker p =
    (if ltb (length p.line_cur) 200
      then (if ltb_ℤ (pos 1) p.line then p.line_prev ++ (newline ∷ []) else [])
      else [])
    ++ (shown_line p.line_cur p.column
        ++ (newline ∷ (replicate (marker_blanks p.line_cur p.column) b' ' ++ codes "^\n")))
