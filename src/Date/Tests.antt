-- ===== src/Date/Tests.antt =====
-- Runs of the date functions, and the theorems at concrete dates.
use libdynd.Common.{◌≡◌, refl, arith, true}
use libdynd.Common.Int.{pos, negsuc, ◌+ℤ◌, ◌-ℤ◌, ◌*ℤ◌, tdiv, tmod, narrow}
use libdynd.Date.{
  ymd, date_na, is_leap_year, is_valid, year_days, to_days, get_weekday, get_day_of_year,
  split_4_years, split_100_years, split_400_years, set_month_day, cycle_year, cycle_days,
  from_year_0, set_from_days,
}
use libdynd.Date.Week.{get_weekday-IsWeekday, IsWeekday}
use libdynd.Date.RoundTrip.{set_from_days-to_days, to_days-set_from_days, StandsFor}

methods : Unit {0}
unfolding is_leap_year is_valid year_days to_days get_weekday get_day_of_year split_4_years
    split_100_years split_400_years set_month_day cycle_year cycle_days from_year_0 set_from_days
    ◌+ℤ◌ ◌-ℤ◌ ◌*ℤ◌ tdiv tmod narrow
methods = tt

epoch : to_days (pos 1970) (pos 1) (pos 1) ≡ pos 0
unfolding methods
epoch = refl

before_epoch : to_days (pos 1969) (pos 12) (pos 31) ≡ negsuc 0
unfolding methods
before_epoch = refl

no_such_day : to_days (pos 2001) (pos 2) (pos 29) ≡ date_na
unfolding methods
no_such_day = refl

monday : get_weekday (ymd (pos 1970) (pos 1) (pos 5)) ≡ pos 0
unfolding methods
monday = refl

last_of_year : get_day_of_year (ymd (pos 2000) (pos 12) (pos 31)) ≡ pos 365
unfolding methods
last_of_year = refl

-- The 16-bit year wraps around just past the last day that it holds.
year_wraps : set_from_days (pos 11248738) ≡ ymd (negsuc 32767) (pos 1) (pos 1)
unfolding methods
year_wraps = refl

set_from_days-to_days_example :
    set_from_days (to_days (pos 2000) (pos 2) (pos 29)) ≡ ymd (pos 2000) (pos 2) (pos 29)
unfolding methods
set_from_days-to_days_example = set_from_days-to_days (pos 2000) (pos 2) (pos 29) (omega arith) refl

to_days-set_from_days_example : StandsFor (set_from_days (negsuc 1000000)) (negsuc 1000000)
to_days-set_from_days_example = to_days-set_from_days (negsuc 1000000) (omega arith) (omega arith)

april-is_valid : is_valid (pos 2015) (pos 4) (pos 1) ≡ true
unfolding methods
april-is_valid = refl

-- The day of a date that is invalid is the least `int`, and the difference to 4 wraps around.
invalid_weekday : get_weekday (ymd (pos 2015) (pos 0) (pos 1)) ≡ pos 5
unfolding methods
invalid_weekday = refl

get_weekday-IsWeekday_example :
    IsWeekday (to_days (pos 2015) (pos 4) (pos 1)) (get_weekday (ymd (pos 2015) (pos 4) (pos 1)))
get_weekday-IsWeekday_example =
    get_weekday-IsWeekday (ymd (pos 2015) (pos 4) (pos 1)) april-is_valid (omega arith)
