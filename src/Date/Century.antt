-- ===== src/Date/Century.antt =====
-- Years of two digits, of src/dynd/types/date_util.cpp: `resolve_2digit_year` and its two windows.
-- The system's clock is a parameter: `rawtime`, in seconds since 1970.
use libdynd.Common.{
  ℕ, ◌+◌, ◌%◌, ◌<◌, ◌≤◌, ◌≡◌, arith, ◌-◌, ◌*◌, ◌&&◌, Option, none, some, if◌then◌else◌,
}
use libdynd.Common.Int.{ℤ, pos, ◌+ℤ◌, ◌-ℤ◌, ◌*ℤ◌, leb_ℤ, tdiv, narrow, int32_half}
use libdynd.Date.{set_from_days}

unfoldable pub resolve_2digit_year_fixed_window : ℤ → ℤ → ℤ
resolve_2digit_year_fixed_window year year_start =
    let century_start = tdiv year_start 100 *ℤ pos 100 in
    if leb_ℤ (year_start -ℤ century_start) year
    then century_start +ℤ year
    else century_start +ℤ pos 100 +ℤ year

abbrev pub seconds_per_day : ℕ
seconds_per_day = 24 * 60 * 60

-- The days since 1970 that the clock shows.
unfoldable pub current_date_days : ℤ → ℤ
current_date_days rawtime = narrow int32_half (
    if leb_ℤ (pos 0) rawtime
    then tdiv rawtime seconds_per_day
    else tdiv (rawtime -ℤ pos (seconds_per_day - 1)) seconds_per_day)

unfoldable pub resolve_2digit_year_sliding_window : ℤ → ℤ → ℤ → ℤ
resolve_2digit_year_sliding_window rawtime year years_ago =
    let current_date = set_from_days (current_date_days rawtime) in
    resolve_2digit_year_fixed_window year (current_date.year -ℤ years_ago)

-- `none` stands for the exception `invalid_argument`.
unfoldable pub resolve_2digit_year : ℤ → ℤ → ℤ → Option ℤ
resolve_2digit_year rawtime year century_window =
    if leb_ℤ (pos 1) century_window && leb_ℤ century_window (pos 99)
    then some (resolve_2digit_year_sliding_window rawtime year century_window)
    else if leb_ℤ (pos 1000) century_window
    then some (resolve_2digit_year_fixed_window year century_window)
    else none

-- A year of two digits is read as the year of the window, the 100 years from its start on, that ends
-- in these digits.
pub resolve_2digit_year_fixed_window_lem :
    (year start r : ℕ)
    → year < 100
    → resolve_2digit_year_fixed_window (pos year) (pos start) ≡ pos r
    → (start ≤ r) × (r < start + 100) × (r % 100 ≡ year)
unfolding resolve_2digit_year_fixed_window tdiv ◌*ℤ◌ ◌-ℤ◌ ◌+ℤ◌
resolve_2digit_year_fixed_window_lem year start r small found = ground arith
