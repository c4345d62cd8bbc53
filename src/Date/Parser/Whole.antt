-- ===== src/Date/Parser/Whole.antt =====
-- The entry points of src/dynd/types/date_parser.cpp: `parse_date` and `string_to_date`, with what
-- may follow a date, a midnight and a time zone. `rawtime` is the system's clock, for years of two
-- digits. A failure of `parse_date` leaves `begin` behind a weekday that it has read, and
-- `string_to_date` drops `begin` in that case.
use libdynd.Common.{ℕ, Bool, true, false, Option, none, some, [], ◌∷◌, ◌==◌, if◌then◌else◌, codes}
use libdynd.Common.Int.{ℤ, pos, eqb_ℤ}
use libdynd.Parse.{
  Bytes, skip_whitespace, skip_required_whitespace, parse_char_no_ws, parse_token_no_ws,
  parse_2digit_int_no_ws, parse_4digit_int_no_ws,
}
use libdynd.Date.{DateYmd, get_weekday}
use libdynd.Date.Parser.{
  Match, matched, no_match, invalid_argument, and_then, ◌or_else◌, first_of,
  parse_str_weekday_no_ws, parse_iso8601_dashes_date, parse_iso8601_nodashes_date,
}
use libdynd.Date.Parser.Formats.{
  DateParseOrder, is_mdy, is_dmy, skip_comma, parse_ymd_sep_date, parse_mdy_ambig_sep_date,
  parse_dmy_ambig_sep_date, parse_dmy_str_month_sep_date, parse_dmy_str_month_ws_date,
  parse_mdy_long_format_date,
}

-- What follows the sign of a time zone: ####, ##, ##:##, or nothing.
unfoldable pub skip_timezone_digits : Bytes → Bytes
skip_timezone_digits s = elim (parse_4digit_int_no_ws s) [
  | some hours_minutes ↦ hours_minutes.1
  | none ↦ elim (parse_2digit_int_no_ws s) [
    | none ↦ s
    | some hours ↦ elim (parse_char_no_ws b':' hours.1) [
      | none ↦ hours.1
      | some rest ↦ elim (parse_2digit_int_no_ws rest) [ none ↦ hours.1 | some minutes ↦ minutes.1 ]
    ]
  ]
]

unfoldable pub skip_timezone : Bytes → Bytes
skip_timezone s0 =
    let s = skip_whitespace s0 in
    elim (first_of (parse_char_no_ws b'Z' s) (parse_token_no_ws (codes "GMT") s)) [
      | some rest ↦ rest
      | none ↦ elim (first_of (parse_char_no_ws b'+' s) (parse_char_no_ws b'-' s)) [
        | some rest ↦ skip_timezone_digits rest
        | none ↦ s
      ]
    ]

unfoldable pub skip_decimal_zeros : Bytes → Bytes
skip_decimal_zeros [] = []
skip_decimal_zeros (c ∷ s) = if c == b'0' then skip_decimal_zeros s else c ∷ s

unfoldable pub skip_midnight_time : Bytes → Bytes
skip_midnight_time s = elim (parse_token_no_ws (codes "00") s) [
  | none ↦ s
  | some hour ↦ elim (parse_token_no_ws (codes ":00") hour) [
    | none ↦ skip_timezone hour
    | some minute ↦ elim (parse_token_no_ws (codes ":00") minute) [
      | none ↦ skip_timezone minute
      | some second ↦ elim (parse_token_no_ws (codes ".0") second) [
        | none ↦ skip_timezone second
        | some decimal ↦ skip_timezone (skip_decimal_zeros decimal)
      ]
    ]
  ]
]

-- A format that takes a separator, with each of '/', '-' and '.'.
unfoldable pub any_separator : (ℕ → Match (DateYmd × Bytes)) → Match (DateYmd × Bytes)
any_separator format = format b'/' or_else (format b'-' or_else format b'.')

-- The chain of the formats.
unfoldable pub parse_date_formats : ℤ → DateParseOrder → ℤ → Bytes → Match (DateYmd × Bytes)
parse_date_formats rawtime ambig century_window s =
    parse_iso8601_dashes_date s
    or_else (parse_iso8601_nodashes_date s
        or_else (any_separator (λ sep. parse_ymd_sep_date rawtime sep ambig century_window s)
            or_else (any_separator
                  (λ sep. parse_dmy_str_month_sep_date rawtime sep ambig century_window s)
                or_else (parse_dmy_str_month_ws_date rawtime ambig century_window s
                    or_else (parse_mdy_long_format_date rawtime century_window s
                        or_else ((if is_mdy ambig
                              then any_separator
                                  (λ sep. parse_mdy_ambig_sep_date rawtime sep century_window s)
                              else no_match)
                            or_else (if is_dmy ambig
                                then any_separator
                                    (λ sep. parse_dmy_ambig_sep_date rawtime sep century_window s)
                                else no_match)))))))

-- "If there was a weekday, validate it"
unfoldable pub check_weekday : ℕ → DateYmd × Bytes → Match (DateYmd × Bytes)
check_weekday weekday read =
    if eqb_ℤ (get_weekday read.0) (pos weekday) then matched read else no_match

-- The rest of `parse_date`, by the weekday that it found at the start of `s`.
unfoldable pub parse_date_behind :
    ℤ → DateParseOrder → ℤ → Bytes → Option (ℕ × Bytes) → Match (DateYmd × Bytes)
parse_date_behind rawtime ambig century_window s (some weekday) =
    and_then (parse_date_formats rawtime ambig century_window (skip_comma weekday.1))
      (λ read. check_weekday weekday.0 read)
parse_date_behind rawtime ambig century_window s none =
    parse_date_formats rawtime ambig century_window s

unfoldable pub parse_date : ℤ → DateParseOrder → ℤ → Bytes → Match (DateYmd × Bytes)
parse_date rawtime ambig century_window s =
    parse_date_behind rawtime ambig century_window s (parse_str_weekday_no_ws s)

-- "Either a "T" or whitespace may separate a date and a time"
unfoldable pub skip_time : Bytes → Bytes
skip_time s = elim (first_of (parse_char_no_ws b'T' s) (skip_required_whitespace s)) [
  | some rest ↦ skip_midnight_time rest
  | none ↦ s
]

-- `begin == end`
abbrev pub is_empty : Bytes → Bool
is_empty [] = true
is_empty (c ∷ s) = false

-- `nocheck` is the test `errmode == assign_error_nocheck`.
unfoldable pub string_to_date : ℤ → DateParseOrder → ℤ → Bool → Bytes → Match DateYmd
string_to_date rawtime ambig century_window nocheck s =
    and_then (parse_date rawtime ambig century_window (skip_whitespace s)) (λ read.
      if nocheck
      then matched read.0
      else if is_empty (skip_whitespace (skip_time read.1))
      then matched read.0
      else no_match)

-- `date_ymd::set_from_str`, which throws where the text is no date.
unfoldable pub set_from_str : ℤ → DateParseOrder → ℤ → Bool → Bytes → Match DateYmd
set_from_str rawtime ambig century_window nocheck s =
    string_to_date rawtime ambig century_window nocheck s or_else invalid_argument
