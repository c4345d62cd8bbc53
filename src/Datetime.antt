-- ===== src/Datetime.antt =====
-- Datetimes: `struct datetime_struct` of include/dynd/types/datetime_util.hpp and
-- src/dynd/types/datetime_util.cpp, a date beside a time of day, with its conversions to and from a
-- count of ticks, and to text. C++ leaves an overflow of an `int64_t`
-- undefined; the product and the sum of `to_ticks` wrap around here, as the machines do it.
pub mod Ticks
pub mod Parser
pub mod TextRoundTrip
mod Tests
use libdynd.Common.{ℕ, ◌-◌, Bool, ◌&&◌, [], ◌∷◌, ◌++◌, if◌then◌else◌}
use libdynd.Common.Int.{
  ℤ, pos, negsuc, ◌+ℤ◌, ◌-ℤ◌, ◌*ℤ◌, leb_ℤ, ltb_ℤ, eqb_ℤ, tdiv, tmod, narrow, int32_half, int64_half,
}
use libdynd.Parse.{Bytes}
use libdynd.Date.{DateYmd, set_from_days, to_days}
use libdynd.Date
use libdynd.Date.Text as DateText
use libdynd.Date.Ticks.{days_of_ticks}
use libdynd.Date.Ticks as DateTicks
use libdynd.Time.{TimeHmst, ticks_per_day}
use libdynd.Time
use libdynd.Time.Text as TimeText

-- DYND_DATETIME_NA, the least `int64_t`.
abbrev pub datetime_na : ℤ
datetime_na = negsuc (int64_half - 1)

pub record DatetimeStruct : Type 0 where
  pub ymd : DateYmd
  pub hmst : TimeHmst

unfoldable pub is_valid : DatetimeStruct → Bool
is_valid dt =
    Date.is_valid dt.ymd.year dt.ymd.month dt.ymd.day
    && Time.is_valid dt.hmst.hour dt.hmst.minute dt.hmst.second dt.hmst.tick

unfoldable pub to_ticks : DatetimeStruct → ℤ
to_ticks dt =
    if is_valid dt
    then narrow int64_half (
        narrow int64_half (to_days dt.ymd.year dt.ymd.month dt.ymd.day *ℤ pos ticks_per_day)
        +ℤ Time.to_ticks dt.hmst.hour dt.hmst.minute dt.hmst.second dt.hmst.tick)
    else datetime_na

unfoldable pub to_str : DatetimeStruct → Bytes
to_str dt =
    if is_valid dt
    then DateText.to_str dt.ymd.year dt.ymd.month dt.ymd.day
      ++ (b'T' ∷ TimeText.to_str dt.hmst.hour dt.hmst.minute dt.hmst.second dt.hmst.tick)
    else []

-- The ticks of the day.
unfoldable pub ticks_of_day : ℤ → ℤ
ticks_of_day ticks =
    let left = tmod ticks ticks_per_day in
    if leb_ℤ (pos 0) ticks
    then left
    else if ltb_ℤ left (pos 0)
    then left +ℤ pos ticks_per_day
    else left

-- Only the month is written: the other fields keep what they held.
unfoldable pub set_to_na : DatetimeStruct → DatetimeStruct
set_to_na self = record self { ymd = DateTicks.set_to_na self.ymd }

unfoldable pub set_from_ticks : DatetimeStruct → ℤ → DatetimeStruct
set_from_ticks self ticks = if eqb_ℤ ticks datetime_na then set_to_na self else record {
  ymd = set_from_days (days_of_ticks ticks);
  hmst = Time.set_from_ticks self.hmst (ticks_of_day ticks);
}
