-- ===== src/Time/Tests.antt =====
-- Runs of the functions on times, and the theorems at concrete times.
use libdynd.Common.{true, ◌≡◌, refl, arith, some, none, codes}
use libdynd.Common.Int.{pos, ◌+ℤ◌, ◌*ℤ◌, tdiv, tmod, narrow}
use libdynd.Parse.{
  skip_whitespace, parse_token_no_ws, parse_token, parse_char_no_ws, parse_2digit_int_no_ws,
  parse_1or2digit_int_no_ws,
}
use libdynd.Time.{TimeHmst, hmst, is_valid, to_ticks, set_to_na, set_from_ticks}
use libdynd.Time.Ticks.{set_from_ticks-to_ticks, to_ticks-set_from_ticks}
use libdynd.Time.TextRoundTrip.{string_to_time-to_str}
use libdynd.Time.Text.{two_digits, tick_digits, fields_to_str, to_str}
use libdynd.Time.Parser.{
  parse_any_token, parse_time_ampm, parse_separator, finish_time, tick_rounds, skip_digits,
  parse_ticks, parse_fraction, parse_seconds, parse_flex_time, parse_time_no_tz, take_zone_name,
  parse_offset_minutes, parse_offset_rest, parse_offset, parse_zone, parse_timezone, parse_time,
  string_to_time,
}

methods : Unit {0}
unfolding skip_whitespace parse_token_no_ws parse_token parse_char_no_ws parse_2digit_int_no_ws
    parse_1or2digit_int_no_ws is_valid to_ticks set_to_na set_from_ticks two_digits tick_digits
    fields_to_str to_str parse_any_token parse_time_ampm parse_separator finish_time tick_rounds
    skip_digits parse_ticks parse_fraction parse_seconds parse_flex_time parse_time_no_tz
    take_zone_name parse_offset_minutes parse_offset_rest parse_offset parse_zone parse_timezone
    parse_time string_to_time ◌+ℤ◌ ◌*ℤ◌ tdiv tmod narrow
methods = tt

noon : string_to_time (codes "12:30 pm ") ≡ some (hmst (pos 12) (pos 30) (pos 0) (pos 0), none)
unfolding methods
noon = refl

midnight :
    string_to_time (codes "12:00:05.25 a.m.")
    ≡ some (hmst (pos 0) (pos 0) (pos 5) (pos 2500000), none)
unfolding methods
midnight = refl

zone :
    string_to_time (codes "7:05-05:30")
    ≡ some (hmst (pos 7) (pos 5) (pos 0) (pos 0), some (codes "-05:30"))
unfolding methods
zone = refl

bad_hour : string_to_time (codes "13:05 AM") ≡ none
unfolding methods
bad_hour = refl

short_text : to_str (pos 9) (pos 5) (pos 0) (pos 250) ≡ codes "09:05:00.000025"
unfolding methods
short_text = refl

string_to_time-to_str_example :
    string_to_time (to_str (pos 23) (pos 59) (pos 60) (pos 1020))
    ≡ some (hmst (pos 23) (pos 59) (pos 60) (pos 1020), none)
unfolding methods
string_to_time-to_str_example = string_to_time-to_str (pos 23) (pos 59) (pos 60) (pos 1020) refl

abbrev noon_time : TimeHmst
noon_time = hmst (pos 12) (pos 0) (pos 0) (pos 0)

set_from_ticks-to_ticks_example :
    set_from_ticks noon_time (to_ticks (pos 7) (pos 8) (pos 9) (pos 10))
    ≡ hmst (pos 7) (pos 8) (pos 9) (pos 10)
unfolding methods
set_from_ticks-to_ticks_example =
    set_from_ticks-to_ticks noon_time (pos 7) (pos 8) (pos 9) (pos 10) refl (omega arith)

to_ticks-set_from_ticks_example :
    (is_valid
        (set_from_ticks noon_time (pos 123456789)).hour
        (set_from_ticks noon_time (pos 123456789)).minute
        (set_from_ticks noon_time (pos 123456789)).second
        (set_from_ticks noon_time (pos 123456789)).tick
      ≡ true)
    × (to_ticks
          (set_from_ticks noon_time (pos 123456789)).hour
          (set_from_ticks noon_time (pos 123456789)).minute
          (set_from_ticks noon_time (pos 123456789)).second
          (set_from_ticks noon_time (pos 123456789)).tick
        ≡ pos 123456789)
to_ticks-set_from_ticks_example =
    to_ticks-set_from_ticks noon_time (pos 123456789) (omega arith) (omega arith)
