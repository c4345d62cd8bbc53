-- ===== src/Time.antt =====
-- Times of day: `struct time_hmst` of include/dynd/types/time_util.hpp and
-- src/dynd/types/time_util.cpp, with its conversions to and from a count of ticks of 100
-- nanoseconds, and to text.
pub mod Ticks
pub mod Text
pub mod Parser
pub mod Fraction
pub mod TextRoundTrip
mod Tests
use libdynd.Common.{
  ℕ, zero, suc, ◌+◌, ◌-◌, ◌*◌, ◌/◌, ◌%◌, Bool, true, false, not, ◌&&◌, ◌||◌, Option, none, some,
  List, [], ◌∷◌, ◌++◌, ◌==◌, if◌then◌else◌,
}
use libdynd.Common.Int.{
  ℤ, pos, negsuc, pos_part, ◌+ℤ◌, ◌*ℤ◌, ltb_ℤ, leb_ℤ, eqb_ℤ, tdiv, tmod, narrow, int8_half,
  int32_half, int64_half,
}

abbrev pub ticks_per_second : ℕ
ticks_per_second = 10000000

abbrev pub ticks_per_minute : ℕ
ticks_per_minute = 600000000

abbrev pub ticks_per_hour : ℕ
ticks_per_hour = 36000000000

abbrev pub ticks_per_day : ℕ
ticks_per_day = 864000000000

-- DYND_TIME_NA, the least `int64_t`.
abbrev pub time_na : ℤ
time_na = negsuc (int64_half - 1)

pub record TimeHmst : Type 0 where
  pub hour : ℤ
  pub minute : ℤ
  pub second : ℤ
  pub tick : ℤ

abbrev pub hmst : ℤ → ℤ → ℤ → ℤ → TimeHmst
hmst h m s t = record { hour = h; minute = m; second = s; tick = t }

unfoldable pub is_valid : ℤ → ℤ → ℤ → ℤ → Bool
is_valid hour minute second tick =
    leb_ℤ (pos 0) hour
    && ltb_ℤ hour (pos 24)
    && leb_ℤ (pos 0) minute
    && ltb_ℤ minute (pos 60)
    && leb_ℤ (pos 0) second
    && leb_ℤ second (pos 60)
    && leb_ℤ (pos 0) tick
    && ltb_ℤ tick (pos ticks_per_second)

unfoldable pub is_na : TimeHmst → Bool
is_na t = eqb_ℤ t.hour (negsuc 127)

unfoldable pub to_ticks : ℤ → ℤ → ℤ → ℤ → ℤ
to_ticks hour minute second tick =
    if is_valid hour minute second tick
    then tick
      +ℤ second *ℤ pos ticks_per_second
      +ℤ minute *ℤ pos ticks_per_minute
      +ℤ hour *ℤ pos ticks_per_hour
    else time_na

-- Only the hour is written: the other fields keep what they held.
unfoldable pub set_to_na : TimeHmst → TimeHmst
set_to_na self = record self { hour = negsuc 127 }

unfoldable pub set_from_ticks : TimeHmst → ℤ → TimeHmst
set_from_ticks self ticks =
    if leb_ℤ (pos 0) ticks && ltb_ℤ ticks (pos ticks_per_day)
    then (let seconds = tdiv ticks ticks_per_second in
        let minutes = tdiv seconds 60 in
        hmst (narrow int8_half (tdiv minutes 60)) (narrow int8_half (tmod minutes 60))
          (narrow int8_half (tmod seconds 60)) (narrow int32_half (tmod ticks ticks_per_second)))
    else set_to_na self
