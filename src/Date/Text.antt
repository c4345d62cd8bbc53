-- ===== src/Date/Text.antt =====
-- `date_ymd::to_str`, of src/dynd/types/date_util.cpp: the ISO 8601 text of a date.
use libdynd.Common.{ℕ, ◌+◌, ◌/◌, ◌%◌, ◌&&◌, [], ◌∷◌, ◌++◌, if◌then◌else◌}
use libdynd.Common.Int.{ℤ, pos, pos_part, neg_part, leb_ℤ}
use libdynd.Parse.{Bytes}
use libdynd.Time.Text.{two_digits}
use libdynd.Date.{is_valid}

-- The four digits of a year up to 9999.
unfoldable pub year_digits : ℕ → Bytes
year_digits year =
    (b'0' + year / 1000)
    ∷ (b'0' + (year / 100) % 10)
    ∷ (b'0' + (year / 10) % 10)
    ∷ (b'0' + year % 10)
    ∷ []

-- The six digits of an expanded year. The first is a `char`, which a year of 1000000 or more does
-- not keep a digit.
unfoldable pub expanded_year_digits : ℕ → Bytes
expanded_year_digits year =
    ((b'0' + year / 100000) % 256)
    ∷ (b'0' + (year / 10000) % 10)
    ∷ (b'0' + (year / 1000) % 10)
    ∷ (b'0' + (year / 100) % 10)
    ∷ (b'0' + (year / 10) % 10)
    ∷ (b'0' + year % 10)
    ∷ []

-- "-MM-DD"
unfoldable pub month_day_text : ℕ → ℕ → Bytes
month_day_text month day = b'-' ∷ (two_digits month ++ (b'-' ∷ two_digits day))

unfoldable pub year_text : ℤ → Bytes
year_text year =
    if leb_ℤ (pos 1) year && leb_ℤ year (pos 9999)
    then year_digits (pos_part year)
    else if leb_ℤ (pos 0) year
    then b'+' ∷ expanded_year_digits (pos_part year)
    else b'-' ∷ expanded_year_digits (neg_part year)

unfoldable pub to_str : ℤ → ℤ → ℤ → Bytes
to_str year month day =
    if is_valid year month day
    then year_text year ++ month_day_text (pos_part month) (pos_part day)
    else []
