-- ===== src/Date/Ticks.antt =====
-- The dates of counts of ticks, of include/dynd/types/date_util.hpp.
use libdynd.Common.{◌-◌, if◌then◌else◌}
use libdynd.Common.Int.{ℤ, pos, negsuc, ◌-ℤ◌, leb_ℤ, tdiv, narrow, int32_half, int64_half}
use libdynd.Date.{DateYmd, set_from_days}
use libdynd.Time.{ticks_per_day}

-- The days of a count of ticks, which are rounded down.
unfoldable pub days_of_ticks : ℤ → ℤ
days_of_ticks ticks = narrow int32_half (
    if leb_ℤ (pos 0) ticks
    then tdiv ticks ticks_per_day
    else tdiv (narrow int64_half (ticks -ℤ pos (ticks_per_day - 1))) ticks_per_day)

-- `date_ymd::set_from_ticks`, which drops the time of day.
unfoldable pub set_from_ticks : ℤ → DateYmd
set_from_ticks ticks = set_from_days (days_of_ticks ticks)

-- Only the month is written: the other fields keep what they held.
unfoldable pub set_to_na : DateYmd → DateYmd
set_to_na self = record self { month = negsuc 127 }
