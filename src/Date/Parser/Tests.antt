-- ===== src/Date/Parser/Tests.antt =====
-- The parser of dates on concrete texts.
use libdynd.Common.{◌≡◌, refl, arith, true, false, codes}
use libdynd.Common.Int.{ℤ, pos, negsuc, ◌+ℤ◌, ◌-ℤ◌, ◌*ℤ◌, tdiv, tmod, narrow}
use libdynd.Parse.{
  Bytes, skip_whitespace, skip_required_whitespace, parse_token_no_ws, parse_char_no_ws,
  parse_1or2digit_int_no_ws, parse_2digit_int_no_ws, parse_4digit_int_no_ws, parse_6digit_int_no_ws,
}
use libdynd.Parse.Strings.{name_rest, parse_alpha_name_no_ws}
use libdynd.Time.Text.{two_digits}
use libdynd.Date.{
  DateYmd, ymd, is_leap_year, is_valid, year_days, to_days, get_weekday, split_4_years,
  split_100_years, split_400_years, set_month_day, cycle_year, cycle_days, from_year_0,
  set_from_days,
}
use libdynd.Date.Century.{
  resolve_2digit_year_fixed_window, current_date_days, resolve_2digit_year_sliding_window,
  resolve_2digit_year,
}
use libdynd.Date.Text.{year_digits, expanded_year_digits, month_day_text, year_text, to_str}
use libdynd.Date.TextRoundTrip.{string_to_date-to_str}
use libdynd.Date.Parser.{
  Match, matched, no_match, invalid_argument, ◌>>=◌, and_then, ◌or_else◌, same_name, find_name,
  parse_ci_alpha_str_named_value_no_ws, parse_str_month_no_ws, skip_period,
  parse_str_month_punct_no_ws, parse_str_weekday_no_ws, no_digit_next, parse_month_day, parse_md,
  parse_md_str_month, validated, parse_iso8601_year, parse_iso8601_dashes_date,
  parse_iso8601_nodashes_date,
}
use libdynd.Date.Parser.Formats.{
  date_parse_no_ambig, date_parse_ymd, date_parse_mdy, date_parse_dmy, resolved, parse_last_year,
  parse_first_year, parse_ymd_sep_date, parse_mdy_ambig_sep_date, parse_dmy_ambig_sep_date,
  parse_dmy_str_month_sep_date, parse_dmy_str_month_ws_date, skip_comma, parse_mdy_long_format_date,
}
use libdynd.Date.Parser.Whole.{
  skip_timezone_digits, skip_timezone, skip_decimal_zeros, skip_midnight_time, any_separator,
  parse_date_formats, check_weekday, parse_date_behind, parse_date, skip_time, string_to_date,
}
use libdynd.Date.Parser.Accepted.{IsNarrowed}
use libdynd.Date.Parser.Valid.{string_to_date-IsNarrowed}

-- The clock at the end of 2015.
abbrev clock : ℤ
clock = pos 1451520000

methods : Unit {0}
unfolding is_leap_year is_valid year_days to_days get_weekday split_4_years split_100_years
    split_400_years set_month_day cycle_year cycle_days from_year_0 set_from_days ◌+ℤ◌ ◌-ℤ◌ ◌*ℤ◌
    tdiv tmod narrow skip_whitespace skip_required_whitespace parse_token_no_ws parse_char_no_ws
    parse_1or2digit_int_no_ws parse_2digit_int_no_ws parse_4digit_int_no_ws parse_6digit_int_no_ws
    name_rest parse_alpha_name_no_ws two_digits year_digits expanded_year_digits month_day_text
    year_text to_str resolve_2digit_year_fixed_window current_date_days
    resolve_2digit_year_sliding_window resolve_2digit_year ◌>>=◌ and_then ◌or_else◌ same_name
    find_name parse_ci_alpha_str_named_value_no_ws parse_str_month_no_ws skip_period
    parse_str_month_punct_no_ws parse_str_weekday_no_ws no_digit_next parse_month_day parse_md
    parse_md_str_month validated parse_iso8601_year parse_iso8601_dashes_date
    parse_iso8601_nodashes_date resolved parse_last_year parse_first_year parse_ymd_sep_date
    parse_mdy_ambig_sep_date parse_dmy_ambig_sep_date parse_dmy_str_month_sep_date
    parse_dmy_str_month_ws_date skip_comma parse_mdy_long_format_date skip_timezone_digits
    skip_timezone skip_decimal_zeros skip_midnight_time any_separator parse_date_formats
    check_weekday parse_date_behind parse_date skip_time string_to_date
methods = tt

-- A text that is read with no century window, and with ambiguous dates refused.
abbrev plain : Bytes → Match DateYmd
plain s = string_to_date clock date_parse_no_ambig (pos 0) false s

midnight : plain (codes " 1979-03-22T00:00:00.000Z ") ≡ matched (ymd (pos 1979) (pos 3) (pos 22))
unfolding methods
midnight = refl

not_midnight : plain (codes "1979-03-22T01:00") ≡ no_match
unfolding methods
not_midnight = refl

no_dashes : plain (codes "19790322") ≡ matched (ymd (pos 1979) (pos 3) (pos 22))
unfolding methods
no_dashes = refl

long_format : plain (codes "Thu, Sept. 3, 1970") ≡ matched (ymd (pos 1970) (pos 9) (pos 3))
unfolding methods
long_format = refl

wrong_weekday : plain (codes "Fri, Sept. 3, 1970") ≡ no_match
unfolding methods
wrong_weekday = refl

month_first :
    string_to_date clock date_parse_mdy (pos 0) false (codes "03/04/2000")
    ≡ matched (ymd (pos 2000) (pos 3) (pos 4))
unfolding methods
month_first = refl

day_first :
    string_to_date clock date_parse_dmy (pos 0) false (codes "03/04/2000")
    ≡ matched (ymd (pos 2000) (pos 4) (pos 3))
unfolding methods
day_first = refl

-- A window that began 70 years before the clock's year, and one that begins in 1929.
sliding_window :
    string_to_date clock date_parse_ymd (pos 70) false (codes "45/Mar/22")
    ≡ matched (ymd (pos 1945) (pos 3) (pos 22))
unfolding methods
sliding_window = refl

fixed_window :
    string_to_date clock date_parse_ymd (pos 1929) false (codes "28-03-22")
    ≡ matched (ymd (pos 2028) (pos 3) (pos 22))
unfolding methods
fixed_window = refl

no_such_window :
    string_to_date clock date_parse_ymd (pos 100) false (codes "28-03-22") ≡ invalid_argument
unfolding methods
no_such_window = refl

-- The expanded year 65636 is a leap year, and the year 100 that it wraps around to is none: the date
-- that is read is not valid.
abbrev far_leap_day : Bytes
far_leap_day = codes "+065636-02-29"

read_far_leap_day : plain far_leap_day ≡ matched (ymd (pos 100) (pos 2) (pos 29))
unfolding methods
read_far_leap_day = refl

wrapped_leap_day : is_valid (pos 100) (pos 2) (pos 29) ≡ false
unfolding methods
wrapped_leap_day = refl

before_christ : to_str (negsuc 43) (pos 3) (pos 15) ≡ codes "-000044-03-15"
unfolding methods
before_christ = refl

ides_of_march_is_valid : is_valid (negsuc 43) (pos 3) (pos 15) ≡ true
unfolding methods
ides_of_march_is_valid = refl

string_to_date-to_str_example :
    string_to_date clock date_parse_dmy (pos 1929) false (to_str (negsuc 43) (pos 3) (pos 15))
    ≡ matched (ymd (negsuc 43) (pos 3) (pos 15))
string_to_date-to_str_example =
    string_to_date-to_str clock date_parse_dmy (pos 1929) false (negsuc 43) (pos 3) (pos 15)
      (omega arith) ides_of_march_is_valid

string_to_date-IsNarrowed_example : IsNarrowed (ymd (pos 100) (pos 2) (pos 29))
string_to_date-IsNarrowed_example =
    string_to_date-IsNarrowed clock date_parse_no_ambig (pos 0) false far_leap_day
      (ymd (pos 100) (pos 2) (pos 29)) read_far_leap_day
