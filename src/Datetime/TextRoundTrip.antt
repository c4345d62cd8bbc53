-- ===== src/Datetime/TextRoundTrip.antt =====
-- Every valid datetime, its year within the 16-bit field, is read back from its text.
use libdynd.Common.{◌≡◌, refl, Bool, true, none, [], ◌∷◌, ◌++◌}
use libdynd.Common.Int.{ℤ, InRange, int16_half}
use libdynd.Parse.{Bytes, skip_whitespace, parse_char_no_ws}
use libdynd.Date.{ymd}
use libdynd.Date.Text as DateText
use libdynd.Date.TextRoundTrip.{ReadsBack, to_str-ReadsBack}
use libdynd.Date.Parser.{matched, and_then, ◌or_else◌}
use libdynd.Date.Parser.Formats.{DateParseOrder}
use libdynd.Time.{hmst}
use libdynd.Time
use libdynd.Time.Text as TimeText
use libdynd.Time.TextRoundTrip.{parse_time-to_str, skip_whitespace-to_str}
use libdynd.Datetime.{DatetimeStruct, is_valid, to_str}
use libdynd.Datetime.Ticks.{is_valid-parts}
use libdynd.Datetime.Parser.{
  datetime, parse_time_behind, parse_behind_date, parse_date_time_datetime, parse_datetime,
  string_to_datetime,
}

-- Behind the date stands a "T" and the text of the time.
parse_behind_date-to_str :
    (s : Bytes) (y m d hour minute second tick : ℤ)
    → Time.is_valid hour minute second tick ≡ true
    → parse_behind_date s (ymd y m d, b'T' ∷ TimeText.to_str hour minute second tick)
      ≡ matched (datetime (ymd y m d) (hmst hour minute second tick), (none, []))
unfolding parse_behind_date parse_time_behind skip_whitespace parse_char_no_ws
parse_behind_date-to_str s y m d hour minute second tick v =
    rw (skip_whitespace-to_str hour minute second tick v)
      (rw (parse_time-to_str hour minute second tick v, parse_time_behind) refl)

parse_datetime-text :
    (rawtime : ℤ) (garbage : ℤ × ℤ) (ambig : DateParseOrder)
    (window y m d hour minute second tick : ℤ)
    → Time.is_valid hour minute second tick ≡ true
    → ReadsBack y m d (b'T' ∷ TimeText.to_str hour minute second tick)
    → parse_datetime rawtime garbage ambig window
        (DateText.to_str y m d ++ (b'T' ∷ TimeText.to_str hour minute second tick))
      ≡ matched (datetime (ymd y m d) (hmst hour minute second tick), (none, []))
unfolding parse_datetime parse_date_time_datetime and_then ◌or_else◌
parse_datetime-text rawtime garbage ambig window y m d hour minute second tick v b =
    rw (b.reads rawtime ambig window)
      (rw (parse_behind_date-to_str _ y m d hour minute second tick v) refl)

string_to_datetime-text :
    (rawtime : ℤ) (garbage : ℤ × ℤ) (ambig : DateParseOrder) (window : ℤ) (nocheck : Bool)
    (y m d hour minute second tick : ℤ)
    → Time.is_valid hour minute second tick ≡ true
    → ReadsBack y m d (b'T' ∷ TimeText.to_str hour minute second tick)
    → string_to_datetime rawtime garbage ambig window nocheck
        (DateText.to_str y m d ++ (b'T' ∷ TimeText.to_str hour minute second tick))
      ≡ matched (datetime (ymd y m d) (hmst hour minute second tick), none)
unfolding string_to_datetime and_then skip_whitespace
string_to_datetime-text rawtime garbage ambig window nocheck y m d hour minute second tick v b =
    rw b.starts
      (rw (parse_datetime-text rawtime garbage ambig window y m d hour minute second tick v b) refl)

-- Every valid datetime whose year fits the 16-bit field, a leap second too, is read back from its
-- text, with no time zone, for any order of ambiguous dates, window of centuries and mode of errors.
pub string_to_datetime-to_str :
    (rawtime : ℤ) (garbage : ℤ × ℤ) (ambig : DateParseOrder) (century_window : ℤ) (nocheck : Bool)
    (dt : DatetimeStruct)
    → InRange int16_half dt.ymd.year
    → is_valid dt ≡ true
    → string_to_datetime rawtime garbage ambig century_window nocheck (to_str dt)
      ≡ matched (dt, none)
unfolding to_str
string_to_datetime-to_str rawtime garbage ambig century_window nocheck dt range v =
    let parts = is_valid-parts dt v in
    rw v (
      string_to_datetime-text rawtime garbage ambig century_window nocheck dt.ymd.year dt.ymd.month
        dt.ymd.day dt.hmst.hour dt.hmst.minute dt.hmst.second dt.hmst.tick parts.1
        (to_str-ReadsBack dt.ymd.year dt.ymd.month dt.ymd.day _ range parts.0 refl))
