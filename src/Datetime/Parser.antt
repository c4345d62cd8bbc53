-- ===== src/Datetime/Parser.antt =====
-- The parser of datetimes, src/dynd/types/datetime_parser.cpp, on the parsers of dates and of times.
-- `rawtime` is the system's clock, for years of two digits. The time zone of a text is its bytes,
-- or `none`.
use libdynd.Common.{ℕ, Bool, true, false, ◌||◌, Option, none, some, if◌then◌else◌}
use libdynd.Common.Int.{ℤ, pos, eqb_ℤ, narrow, int8_half, int32_half}
use libdynd.Parse.{
  Bytes, skip_whitespace, skip_required_whitespace, parse_char_no_ws, parse_1or2digit_int_no_ws,
  parse_2digit_int_no_ws, parse_4digit_int_no_ws,
}
use libdynd.Date.{DateYmd, get_weekday}
use libdynd.Date.Parser.{
  Match, matched, no_match, invalid_argument, ◌>>=◌, and_then, ◌or_else◌, first_of, no_digit_next,
  validated, parse_str_month_no_ws, parse_str_weekday_no_ws, parse_iso8601_dashes_date,
}
use libdynd.Date.Parser.Formats.{DateParseOrder}
use libdynd.Date.Parser.Whole.{parse_date, is_empty}
use libdynd.Time.{TimeHmst, hmst}
use libdynd.Time
use libdynd.Time.Parser.{parse_ticks, parse_time_no_tz, parse_time}
use libdynd.Datetime.{DatetimeStruct}

abbrev pub datetime : DateYmd → TimeHmst → DatetimeStruct
datetime d t = record { ymd = d; hmst = t }

-- A datetime, the time zone, and the bytes left.
abbrev pub Parsed : Type 0
Parsed = DatetimeStruct × (Option Bytes × Bytes)

-- "Dec 19 " or "19 Dec ": the month, the day, and the bytes behind the white space.
unfoldable pub parse_postgres_month_day : Bytes → Match (ℕ × (ℕ × Bytes))
parse_postgres_month_day s = elim (parse_1or2digit_int_no_ws s) [
  | some day ↦ skip_required_whitespace day.1 >>= λ s1. parse_str_month_no_ws s1 >>= λ month.
      skip_required_whitespace month.1 >>= λ s2. matched (month.0, (day.0, s2))
  | none ↦ parse_str_month_no_ws s >>= λ month. skip_required_whitespace month.1 >>= λ s1.
      parse_1or2digit_int_no_ws s1 >>= λ day.
      skip_required_whitespace day.1 >>= λ s2. matched (month.0, (day.0, s2))
]

-- The weekday of a datetime that was read must be the one that the text has.
unfoldable pub check_datetime_weekday : ℕ → TimeHmst → DateYmd × Bytes → Match Parsed
check_datetime_weekday weekday time read =
    if eqb_ℤ (get_weekday read.0) (pos weekday)
    then matched (datetime read.0 time, (none, read.1))
    else no_match

-- Fri Dec 19 15:10:11 1997, Fri 19 Dec 15:10:11 1997
unfoldable pub parse_postgres_datetime : Bytes → Match Parsed
parse_postgres_datetime s = parse_str_weekday_no_ws s >>= λ weekday.
    skip_required_whitespace weekday.1 >>= λ s1. and_then (parse_postgres_month_day s1) (λ md.
      parse_time_no_tz md.1.1 >>= λ time. skip_required_whitespace time.1 >>= λ s2.
      parse_4digit_int_no_ws s2 >>= λ year.
      and_then (validated (pos year.0) md.0 md.1.0 year.1)
        (λ read. check_datetime_weekday weekday.0 time.0 read))

-- HH, MM and SS of a datetime without dashes: the fields, whether all three are there, and the bytes
-- left. `garbage` is what the variables `minute` and `second` hold where they are read before they
-- are written: `!done && ...` skips the reset to 0 of every field behind the first that is missing.
unfoldable pub parse_hms : ℤ × ℤ → Bytes → (ℤ × (ℤ × ℤ)) × (Bool × Bytes)
parse_hms garbage s = elim (parse_2digit_int_no_ws s) [
  | none ↦ ((pos 0, garbage), (false, s))
  | some hour ↦ elim (parse_2digit_int_no_ws hour.1) [
    | none ↦ ((pos hour.0, (pos 0, garbage.1)), (false, hour.1))
    | some minute ↦ elim (parse_2digit_int_no_ws minute.1) [
      | none ↦ ((pos hour.0, (pos minute.0, pos 0)), (false, minute.1))
      | some second ↦ ((pos hour.0, (pos minute.0, pos second.0)), (true, second.1))
    ]
  ]
]

-- ".SS*": the point is swallowed even where a field is missing before it.
unfoldable pub parse_hms_ticks : Bool → Bytes → ℕ × Bytes
parse_hms_ticks complete s = elim (parse_char_no_ws b'.' s) [
  | none ↦ (0, s)
  | some rest ↦ elim (parse_ticks rest) [
    | none ↦ (0, rest)
    | some ticks ↦ if complete then ticks else (0, rest)
  ]
]

-- The end of `parse_iso8601_nodashes_datetime`, behind the date.
unfoldable pub parse_hms_datetime : ℤ × ℤ → DateYmd × Bytes → Match Parsed
parse_hms_datetime garbage date =
    let hms = parse_hms garbage date.1 in
    let ticks = parse_hms_ticks hms.1.0 hms.1.1 in
    if Time.is_valid hms.0.0 hms.0.1.0 hms.0.1.1 (pos ticks.0)
    then matched (
      datetime date.0 (
          hmst (narrow int8_half hms.0.0) (narrow int8_half hms.0.1.0) (narrow int8_half hms.0.1.1)
            (narrow int32_half (pos ticks.0))),
      (none, ticks.1),
    )
    else no_match

-- 19971219151011
unfoldable pub parse_iso8601_nodashes_datetime : ℤ × ℤ → Bytes → Match Parsed
parse_iso8601_nodashes_datetime garbage s = parse_4digit_int_no_ws s >>= λ year.
    parse_2digit_int_no_ws year.1 >>= λ month. parse_2digit_int_no_ws month.1 >>= λ day.
    and_then (validated (pos year.0) month.0 day.0 day.1) (λ date. parse_hms_datetime garbage date)

abbrev pub zero_time : TimeHmst
zero_time = hmst (pos 0) (pos 0) (pos 0) (pos 0)

-- An ISO date with an hour of two digits alone.
unfoldable pub parse_dashes_date_hour : Bytes → Match Parsed
parse_dashes_date_hour s = and_then (parse_iso8601_dashes_date s) (λ date.
    first_of (parse_char_no_ws b'T' date.1) (skip_required_whitespace date.1) >>= λ s1.
    parse_2digit_int_no_ws s1 >>= λ read. no_digit_next read >>= λ hour.
    if Time.is_valid (pos hour.0) (pos 0) (pos 0) (pos 0)
    then matched (
      datetime date.0 (hmst (narrow int8_half (pos hour.0)) (pos 0) (pos 0) (pos 0)),
      (none, hour.1),
    )
    else no_match)

-- A time behind a date and its separator; `s` is the text from the start of the date.
unfoldable pub parse_time_behind : Bytes → DateYmd → Bytes → Match Parsed
parse_time_behind s date rest = elim (parse_time rest) [
  | some read ↦ matched (datetime date read.0, (read.1, read.2))
  | none ↦ parse_dashes_date_hour s
]

-- What stands behind a date: "T", ":" or white space and a time, or nothing.
unfoldable pub parse_behind_date : Bytes → DateYmd × Bytes → Match Parsed
parse_behind_date s date = elim (parse_char_no_ws b'T' (skip_whitespace date.1)) [
  | some rest ↦ parse_time_behind s date.0 (skip_whitespace rest)
  | none ↦ elim (parse_char_no_ws b':' date.1) [
    | some rest ↦ parse_time_behind s date.0 rest
    | none ↦ elim (skip_required_whitespace date.1) [
      | none ↦ matched (datetime date.0 zero_time, (none, date.1))
      | some rest ↦
          if is_empty rest
          then matched (datetime date.0 zero_time, (none, rest))
          else parse_time_behind s date.0 rest
    ]
  ]
]

unfoldable pub parse_date_time_datetime : ℤ → DateParseOrder → ℤ → Bytes → Match Parsed
parse_date_time_datetime rawtime ambig century_window s =
    and_then (parse_date rawtime ambig century_window s) (λ date. parse_behind_date s date)

unfoldable pub parse_datetime : ℤ → ℤ × ℤ → DateParseOrder → ℤ → Bytes → Match Parsed
parse_datetime rawtime garbage ambig century_window s =
    parse_date_time_datetime rawtime ambig century_window s
    or_else (parse_postgres_datetime s or_else parse_iso8601_nodashes_datetime garbage s)

-- `nocheck` is the test `errmode == assign_error_nocheck`.
unfoldable pub string_to_datetime :
    ℤ → ℤ × ℤ → DateParseOrder → ℤ → Bool → Bytes → Match (DatetimeStruct × Option Bytes)
string_to_datetime rawtime garbage ambig century_window nocheck s =
    and_then (parse_datetime rawtime garbage ambig century_window (skip_whitespace s)) (λ read.
      if is_empty (skip_whitespace read.1.1) || nocheck
      then matched (read.0, read.1.0)
      else no_match)

-- `datetime_struct::set_from_str`, which throws where the text is no datetime.
unfoldable pub set_from_str :
    ℤ → ℤ × ℤ → DateParseOrder → ℤ → Bool → Bytes → Match (DatetimeStruct × Option Bytes)
set_from_str rawtime garbage ambig century_window nocheck s =
    string_to_datetime rawtime garbage ambig century_window nocheck s or_else invalid_argument
