-- ===== src/Date.antt =====
-- The calendar dates of include/dynd/types/date_util.hpp and src/dynd/types/date_util.cpp:
-- `struct date_ymd`, its validity test, and its conversions to and from a count of days. The
-- fields are small signed integers in the source, so they are ℤ here; `int` arithmetic is exact,
-- and the conversions into the fields wrap around (`narrow`).
pub mod Cycle
pub mod Days
pub mod Month
pub mod Split
pub mod RoundTrip
pub mod Years
pub mod Week
pub mod Text
pub mod Century
pub mod Parser
pub mod Ticks
pub mod TextRoundTrip
mod Tests
use libdynd.Common.{
  ℕ, ◌+◌, ◌-◌, ◌*◌, ◌/◌, ◌%◌, Bool, true, false, not, ◌&&◌, ◌||◌, List, [], ◌∷◌, ltb, leb,
  if◌then◌else◌, get_or, drop,
}
use libdynd.Common.Int.{
  ℤ, pos, negsuc, pos_part, ◌+ℤ◌, ◌-ℤ◌, ◌*ℤ◌, ltb_ℤ, leb_ℤ, eqb_ℤ, tdiv, tmod, narrow, int32_half,
  int8_half, int16_half, int32_half,
}

-- DYND_DATE_NA, the least `int32_t`.
abbrev pub date_na : ℤ
date_na = negsuc (int32_half - 1)

pub record DateYmd : Type 0 where
  pub year : ℤ
  pub month : ℤ
  pub day : ℤ

abbrev pub ymd : ℤ → ℤ → ℤ → DateYmd
ymd y m d = record { year = y; month = m; day = d }

-- The rows of the two static tables, for common and leap years.
abbrev pub month_lengths : Bool → List ℕ
month_lengths false = 31 ∷ 28 ∷ 31 ∷ 30 ∷ 31 ∷ 30 ∷ 31 ∷ 31 ∷ 30 ∷ 31 ∷ 30 ∷ 31 ∷ []
month_lengths true = 31 ∷ 29 ∷ 31 ∷ 30 ∷ 31 ∷ 30 ∷ 31 ∷ 31 ∷ 30 ∷ 31 ∷ 30 ∷ 31 ∷ []

abbrev pub month_starts : Bool → List ℕ
month_starts false = 0 ∷ 31 ∷ 59 ∷ 90 ∷ 120 ∷ 151 ∷ 181 ∷ 212 ∷ 243 ∷ 273 ∷ 304 ∷ 334 ∷ 365 ∷ []
month_starts true = 0 ∷ 31 ∷ 60 ∷ 91 ∷ 121 ∷ 152 ∷ 182 ∷ 213 ∷ 244 ∷ 274 ∷ 305 ∷ 335 ∷ 366 ∷ []

unfoldable pub is_leap_year : ℤ → Bool
is_leap_year year =
    eqb_ℤ (tmod year 4) (pos 0)
    && (not (eqb_ℤ (tmod year 100) (pos 0)) || eqb_ℤ (tmod year 400) (pos 0))

-- Indexing by `month - 1`, past the test that the month is at least 1.
abbrev pub month_index : ℤ → ℕ
month_index month = pos_part month - 1

unfoldable pub get_month_length : ℤ → ℤ → ℤ
get_month_length year month =
    if leb_ℤ (pos 1) month && leb_ℤ month (pos 12)
    then pos (get_or (month_lengths (is_leap_year year)) (month_index month) 0)
    else pos 0

unfoldable pub is_valid : ℤ → ℤ → ℤ → Bool
is_valid year month day =
    if ltb_ℤ month (pos 1) || ltb_ℤ (pos 12) month
    then false
    else if ltb_ℤ day (pos 1)
        || ltb_ℤ (pos (get_or (month_lengths (is_leap_year year)) (month_index month) 0)) day
    then false
    else true

unfoldable pub is_na : DateYmd → Bool
is_na t = eqb_ℤ t.month (negsuc 127)

-- The days from the start of 1970 to the start of the year, as `to_days` counts them.
unfoldable pub year_days : ℤ → ℤ
year_days year =
    let result = (year -ℤ pos 1970) *ℤ pos 365 in
    if leb_ℤ (pos 0) result
    then result
      +ℤ (tdiv (year -ℤ pos 1969) 4 -ℤ tdiv (year -ℤ pos 1901) 100 +ℤ tdiv (year -ℤ pos 1601) 400)
    else result
      +ℤ (tdiv (year -ℤ pos 1972) 4 -ℤ tdiv (year -ℤ pos 2000) 100 +ℤ tdiv (year -ℤ pos 2000) 400)

unfoldable pub to_days : ℤ → ℤ → ℤ → ℤ
to_days year month day =
    if is_valid year month day
    then year_days year
      +ℤ pos (get_or (month_starts (is_leap_year year)) (month_index month) 0)
      +ℤ (day -ℤ pos 1)
    else date_na

unfoldable pub get_weekday : DateYmd → ℤ
get_weekday t =
    let weekday = tmod (narrow int32_half (to_days t.year t.month t.day -ℤ pos 4)) 7 in
    if ltb_ℤ weekday (pos 0) then weekday +ℤ pos 7 else weekday

unfoldable pub get_day_of_year : DateYmd → ℤ
get_day_of_year t =
    if is_valid t.year t.month t.day
    then pos (get_or (month_starts (is_leap_year t.year)) (month_index t.month) 0) +ℤ t.day -ℤ pos 1
    else negsuc 0

-- The blocks of `set_from_days`, innermost first: each returns what it adds to `yearcalc`, and
-- the days that are left. The days are not negative there.
unfoldable pub split_4_years : ℕ → ℕ × ℕ
split_4_years days = if leb 366 days then ((days - 1) / 365, (days - 1) % 365) else (0, days)

unfoldable pub split_100_years : ℕ → ℕ × ℕ
split_100_years days =
    if leb 365 days
    then (
      4 * ((days + 1) / 1461) + (split_4_years ((days + 1) % 1461)).0,
      (split_4_years ((days + 1) % 1461)).1,
    )
    else (0, days)

unfoldable pub split_400_years : ℕ → ℕ × ℕ
split_400_years days =
    if leb 366 days
    then (
      100 * ((days - 1) / 36524) + (split_100_years ((days - 1) % 36524)).0,
      (split_100_years ((days - 1) % 36524)).1,
    )
    else (0, days)

-- `std::upper_bound`: how many entries stand before the first one above `days`.
abbrev pub upper_bound : List ℕ → ℕ → ℕ
upper_bound [] days = 0
upper_bound (x ∷ xs) days = if ltb days x then 0 else upper_bound xs days + 1

-- The search for the month, with the year and the days since its first day.
unfoldable pub set_month_day : ℤ → ℕ → DateYmd
set_month_day year days =
    let starts = month_starts (is_leap_year year) in
    let found = upper_bound (drop 1 starts) days + 1 in
    record {
      year = narrow int16_half year;
      month = narrow int8_half (pos found);
      day = narrow int8_half (pos days -ℤ pos (get_or starts (found - 1) 0) +ℤ pos 1);
    }

-- To a cycle of 400 years: what `yearcalc` begins with, and the days left.
unfoldable pub cycle_year : ℤ → ℤ
cycle_year days =
    if leb_ℤ (pos 0) days
    then pos 400 *ℤ tdiv days 146097
    else pos 400 *ℤ tdiv (days -ℤ pos 146096) 146097

unfoldable pub cycle_days : ℤ → ℤ
cycle_days days =
    let left = tmod days 146097 in
    if leb_ℤ (pos 0) days then left else if ltb_ℤ left (pos 0) then left +ℤ pos 146097 else left

-- `set_from_days` on a count relative to year 0.
unfoldable pub from_year_0 : ℤ → DateYmd
from_year_0 days =
    let left = split_400_years (pos_part (cycle_days days)) in
    set_month_day (cycle_year days +ℤ pos left.0) left.1

unfoldable pub set_from_days : ℤ → DateYmd
set_from_days days =
    if eqb_ℤ days date_na
    then ymd (pos 0) (negsuc 127) (pos 0)
    else from_year_0 (days +ℤ pos 719528)
