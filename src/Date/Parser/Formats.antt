-- ===== src/Date/Parser/Formats.antt =====
-- The formats of src/dynd/types/date_parser.cpp that are not ISO 8601: `rawtime` is the system's
-- clock, for years of two digits.
use libdynd.Common.{ℕ, Bool, true, false, not, ◌&&◌, ◌||◌, none, some, if◌then◌else◌}
use libdynd.Common.Int.{ℤ, pos, eqb_ℤ}
use libdynd.Parse.{
  Bytes, skip_whitespace, skip_required_whitespace, parse_char_no_ws, parse_1or2digit_int_no_ws,
  parse_2digit_int_no_ws, parse_4digit_int_no_ws,
}
use libdynd.Date.{DateYmd}
use libdynd.Date.Century.{resolve_2digit_year}
use libdynd.Date.Parser.{
  Match, matched, no_match, invalid_argument, ◌>>=◌, and_then, ◌or_else◌, no_digit_next,
  parse_str_month_no_ws, parse_str_month_punct_no_ws, parse_md, parse_md_str_month, validated,
}

pub data DateParseOrder : Type 0 where
  date_parse_no_ambig : DateParseOrder
  date_parse_ymd : DateParseOrder
  date_parse_mdy : DateParseOrder
  date_parse_dmy : DateParseOrder

abbrev pub is_ymd : DateParseOrder → Bool
is_ymd date_parse_ymd = true
is_ymd ambig = false

abbrev pub is_mdy : DateParseOrder → Bool
is_mdy date_parse_mdy = true
is_mdy ambig = false

abbrev pub is_dmy : DateParseOrder → Bool
is_dmy date_parse_dmy = true
is_dmy ambig = false

-- A year that was read from two digits, in its century.
unfoldable pub resolved : ℤ → ℤ → ℕ × Bytes → Match (ℤ × Bytes)
resolved rawtime century_window year =
    elim (resolve_2digit_year rawtime (pos year.0) century_window) [
      | some full ↦ matched (full, year.1)
      | none ↦ invalid_argument
    ]

-- The year at the end of a format: four digits, or two where `two_digits` holds, and no digit
-- behind them.
unfoldable pub parse_last_year : ℤ → ℤ → Bool → Bytes → Match (ℤ × Bytes)
parse_last_year rawtime century_window two_digits s = elim (parse_4digit_int_no_ws s) [
  | some read ↦ no_digit_next read >>= λ year. matched (pos year.0, year.1)
  | none ↦
      if two_digits
      then (parse_2digit_int_no_ws s >>= λ read.
          no_digit_next read >>= λ year. resolved rawtime century_window year)
      else no_match
]

-- The year at the start of a format: no test of what follows.
unfoldable pub parse_first_year : ℤ → ℤ → Bool → Bytes → Match (ℤ × Bytes)
parse_first_year rawtime century_window two_digits s = elim (parse_4digit_int_no_ws s) [
  | some year ↦ matched (pos year.0, year.1)
  | none ↦
      if two_digits
      then (parse_2digit_int_no_ws s >>= λ year. resolved rawtime century_window year)
      else no_match
]

-- `century_window != 0`
abbrev pub has_window : ℤ → Bool
has_window century_window = not (eqb_ℤ century_window (pos 0))

unfoldable pub parse_ymd_sep_date : ℤ → ℕ → DateParseOrder → ℤ → Bytes → Match (DateYmd × Bytes)
parse_ymd_sep_date rawtime sep ambig century_window s =
    and_then (parse_first_year rawtime century_window (has_window century_window && is_ymd ambig) s)
      (λ year.
        and_then (parse_md sep year.1 or_else parse_md_str_month sep year.1)
          (λ md. validated year.0 md.0 md.1.0 md.1.1))

unfoldable pub parse_mdy_ambig_sep_date : ℤ → ℕ → ℤ → Bytes → Match (DateYmd × Bytes)
parse_mdy_ambig_sep_date rawtime sep century_window s = parse_1or2digit_int_no_ws s >>= λ month.
    parse_char_no_ws sep month.1 >>= λ s1. parse_1or2digit_int_no_ws s1 >>= λ day.
    parse_char_no_ws sep day.1 >>= λ s2.
    and_then (parse_last_year rawtime century_window (has_window century_window) s2)
      (λ year. validated year.0 month.0 day.0 year.1)

unfoldable pub parse_dmy_ambig_sep_date : ℤ → ℕ → ℤ → Bytes → Match (DateYmd × Bytes)
parse_dmy_ambig_sep_date rawtime sep century_window s = parse_1or2digit_int_no_ws s >>= λ day.
    parse_char_no_ws sep day.1 >>= λ s1. parse_1or2digit_int_no_ws s1 >>= λ month.
    parse_char_no_ws sep month.1 >>= λ s2.
    and_then (parse_last_year rawtime century_window (has_window century_window) s2)
      (λ year. validated year.0 month.0 day.0 year.1)

-- `century_window && (ambig == date_parse_dmy || ambig == date_parse_mdy)`
abbrev pub year_at_end : DateParseOrder → ℤ → Bool
year_at_end ambig century_window = has_window century_window && (is_dmy ambig || is_mdy ambig)

unfoldable pub parse_dmy_str_month_sep_date :
    ℤ → ℕ → DateParseOrder → ℤ → Bytes → Match (DateYmd × Bytes)
parse_dmy_str_month_sep_date rawtime sep ambig century_window s =
    parse_1or2digit_int_no_ws s >>= λ day. parse_char_no_ws sep day.1 >>= λ s1.
    parse_str_month_no_ws s1 >>= λ month. parse_char_no_ws sep month.1 >>= λ s2.
    and_then (parse_last_year rawtime century_window (year_at_end ambig century_window) s2)
      (λ year. validated year.0 month.0 day.0 year.1)

unfoldable pub parse_dmy_str_month_ws_date :
    ℤ → DateParseOrder → ℤ → Bytes → Match (DateYmd × Bytes)
parse_dmy_str_month_ws_date rawtime ambig century_window s = parse_1or2digit_int_no_ws s >>= λ day.
    parse_str_month_no_ws (skip_whitespace day.1) >>= λ month.
    and_then
      (parse_last_year rawtime century_window (year_at_end ambig century_window)
        (skip_whitespace month.1))
      (λ year. validated year.0 month.0 day.0 year.1)

-- `parse_token(begin, end, ',')` and `skip_whitespace(begin, end)`, the result of the first ignored.
unfoldable pub skip_comma : Bytes → Bytes
skip_comma s = elim (parse_char_no_ws b',' (skip_whitespace s)) [
  | some rest ↦ skip_whitespace rest
  | none ↦ skip_whitespace s
]

unfoldable pub parse_mdy_long_format_date : ℤ → ℤ → Bytes → Match (DateYmd × Bytes)
parse_mdy_long_format_date rawtime century_window s = parse_str_month_punct_no_ws s >>= λ month.
    skip_required_whitespace month.1 >>= λ s1. parse_1or2digit_int_no_ws s1 >>= λ day.
    and_then (parse_last_year rawtime century_window (has_window century_window) (skip_comma day.1))
      (λ year. validated year.0 month.0 day.0 year.1)
