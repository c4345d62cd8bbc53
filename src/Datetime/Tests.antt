-- ===== src/Datetime/Tests.antt =====
-- The functions on datetimes at concrete values.
use libdynd.Common.{◌≡◌, ◌≤◌, ◌<◌, ◌-◌, refl, sym, subst, arith, true, false, none, some, [], codes}
use libdynd.Common.Int.{
  ℤ, pos, negsuc, pos_part, neg_part, int64_half, ◌+ℤ◌, ◌-ℤ◌, ◌*ℤ◌, tdiv, tmod, narrow,
}
use libdynd.Parse.{
  skip_whitespace, skip_required_whitespace, parse_token, parse_token_no_ws, parse_char_no_ws,
  parse_1or2digit_int_no_ws, parse_2digit_int_no_ws, parse_4digit_int_no_ws, parse_6digit_int_no_ws,
}
use libdynd.Parse.Strings.{name_rest, parse_alpha_name_no_ws}
use libdynd.Date.{ymd, is_leap_year, year_days, to_days, get_weekday}
use libdynd.Date
use libdynd.Date.Ticks.{days_of_ticks}
use libdynd.Date.Text.{year_digits, month_day_text, year_text}
use libdynd.Date.Text as DateText
use libdynd.Date.Parser.{
  matched, no_match, ◌>>=◌, and_then, ◌or_else◌, same_name, find_name,
  parse_ci_alpha_str_named_value_no_ws, parse_str_month_no_ws, parse_str_weekday_no_ws,
  no_digit_next, parse_month_day, parse_md, validated, parse_iso8601_year,
  parse_iso8601_dashes_date,
}
use libdynd.Date.Parser.Formats.{date_parse_no_ambig}
use libdynd.Time.{hmst, ticks_per_day}
use libdynd.Time
use libdynd.Time.Text.{two_digits, tick_digits, fields_to_str}
use libdynd.Time.Text as TimeText
use libdynd.Time.Parser.{
  parse_any_token, parse_time_ampm, parse_separator, finish_time, tick_rounds, skip_digits,
  parse_ticks, parse_fraction, parse_seconds, parse_flex_time, parse_time_no_tz, parse_timezone,
  parse_zone, parse_offset, parse_offset_rest, parse_time,
}
use libdynd.Datetime.{DatetimeStruct, is_valid, to_ticks, to_str, set_from_ticks}
use libdynd.Datetime.Ticks.{exact_ticks, set_from_ticks-to_ticks_datetime}
use libdynd.Datetime.TextRoundTrip.{string_to_datetime-to_str}
use libdynd.Datetime.Parser.{
  datetime, parse_postgres_month_day, check_datetime_weekday, parse_postgres_datetime, parse_hms,
  parse_hms_ticks, parse_hms_datetime, parse_iso8601_nodashes_datetime, parse_dashes_date_hour,
  parse_time_behind, parse_behind_date, string_to_datetime,
}

methods : Unit {0}
unfolding is_leap_year year_days to_days get_weekday Date.is_valid year_digits month_day_text
    year_text DateText.to_str TimeText.to_str fields_to_str tick_digits two_digits days_of_ticks
    Time.is_valid Time.to_ticks is_valid to_ticks to_str ◌+ℤ◌ ◌-ℤ◌ ◌*ℤ◌ tdiv tmod narrow
    skip_whitespace skip_required_whitespace parse_char_no_ws parse_1or2digit_int_no_ws
    parse_2digit_int_no_ws parse_4digit_int_no_ws parse_6digit_int_no_ws name_rest
    parse_alpha_name_no_ws ◌>>=◌ and_then ◌or_else◌ same_name find_name
    parse_ci_alpha_str_named_value_no_ws parse_str_month_no_ws parse_str_weekday_no_ws no_digit_next
    parse_month_day parse_md validated parse_iso8601_year parse_iso8601_dashes_date parse_any_token
    parse_time_ampm parse_separator finish_time tick_rounds skip_digits parse_ticks parse_fraction
    parse_seconds parse_flex_time parse_time_no_tz parse_timezone parse_zone parse_offset
    parse_offset_rest parse_token parse_token_no_ws parse_time parse_postgres_month_day
    check_datetime_weekday parse_postgres_datetime parse_hms parse_hms_ticks parse_hms_datetime
    parse_iso8601_nodashes_datetime parse_dashes_date_hour parse_time_behind parse_behind_date
methods = tt

-- 19 December 1997, 15:10:11
abbrev december : DatetimeStruct
december = datetime (ymd (pos 1997) (pos 12) (pos 19)) (hmst (pos 15) (pos 10) (pos 11) (pos 0))

abbrev garbage : ℤ × ℤ
garbage = (pos 5, pos 7)

postgres :
    parse_postgres_datetime (codes "Fri Dec 19 15:10:11 1997") ≡ matched (december, (none, []))
unfolding methods
postgres = refl

postgres_day_first :
    parse_postgres_datetime (codes "Fri 19 Dec 15:10:11 1997") ≡ matched (december, (none, []))
unfolding methods
postgres_day_first = refl

wrong_weekday : parse_postgres_datetime (codes "Thu Dec 19 15:10:11 1997") ≡ no_match
unfolding methods
wrong_weekday = refl

no_dashes :
    parse_iso8601_nodashes_datetime garbage (codes "19971219151011")
    ≡ matched (december, (none, []))
unfolding methods
no_dashes = refl

-- Without the seconds in the text, the second is what its variable held before.
no_seconds :
    parse_iso8601_nodashes_datetime garbage (codes "1997121915")
    ≡ matched (
      datetime (ymd (pos 1997) (pos 12) (pos 19)) (hmst (pos 15) (pos 0) (pos 7) (pos 0)),
      (none, []),
    )
unfolding methods
no_seconds = refl

hour_alone :
    parse_dashes_date_hour (codes "1997-12-19T15")
    ≡ matched (
      datetime (ymd (pos 1997) (pos 12) (pos 19)) (hmst (pos 15) (pos 0) (pos 0) (pos 0)),
      (none, []),
    )
unfolding methods
hour_alone = refl

zone :
    parse_behind_date [] (ymd (pos 1997) (pos 12) (pos 19), codes " 15:10:11-05")
    ≡ matched (december, (some (codes "-05"), []))
unfolding methods
zone = refl

text : to_str december ≡ codes "1997-12-19T15:10:11"
unfolding methods
text = refl

december-is_valid : is_valid december ≡ true
unfolding methods
december-is_valid = refl

december_ticks : to_ticks december ≡ pos 8825442110000000
unfolding methods
december_ticks = refl

-- The ticks of the last year of the 16-bit field, 9718594272000000000, wrap around.
last_year_ticks :
    to_ticks (datetime (ymd (pos 32767) (pos 1) (pos 1)) (hmst (pos 0) (pos 0) (pos 0) (pos 0)))
    ≡ negsuc 8728149801709551615
unfolding methods
last_year_ticks = refl

-- Near the least `int64_t` the ticks of a day cannot be subtracted: the day becomes a late one.
overflowing_day : days_of_ticks (negsuc (int64_half - 2)) ≡ pos 10675198
unfolding methods
overflowing_day = refl

december-exact_ticks : exact_ticks december ≡ pos 8825442110000000
unfolding methods
december-exact_ticks = refl

set_from_ticks-to_ticks_datetime_example : set_from_ticks december (to_ticks december) ≡ december
set_from_ticks-to_ticks_datetime_example =
    set_from_ticks-to_ticks_datetime december december december-is_valid (omega arith) (omega arith)
      (subst (λ z. neg_part z ≤ int64_half - (ticks_per_day - 1)) (sym december-exact_ticks)
        (omega arith))
      (subst (λ z. pos_part z < int64_half) (sym december-exact_ticks) (omega arith))

string_to_datetime-to_str_example :
    string_to_datetime (pos 0) garbage date_parse_no_ambig (pos 70) false (to_str december)
    ≡ matched (december, none)
string_to_datetime-to_str_example =
    string_to_datetime-to_str (pos 0) garbage date_parse_no_ambig (pos 70) false december
      (omega arith) december-is_valid
