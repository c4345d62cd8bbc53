-- ===== src/Datetime/Ticks.antt =====
-- A datetime is set again from its count of ticks.
use libdynd.Common.{
  ap, ◌∙◌, ◌-◌, ◌≤◌, if◌then◌else◌, ℕ, ◌+◌, ◌*◌, ◌<◌, ◌≡◌, ◌≢◌, refl, subst, arith, true,
}
use libdynd.Common.Int.{
  ℤ, pos, negsuc, ◌+ℤ◌, ◌-ℤ◌, ◌*ℤ◌, ◌<ℤ◌, tdiv, tmod, narrow, InRange, int16_half, int32_half,
  int64_half, pos_part, neg_part, leb_ℤ, narrow-int64,
}
use libdynd.Date.{to_days}
use libdynd.Date
use libdynd.Date.RoundTrip.{set_from_days-to_days}
use libdynd.Time.{ticks_per_second, ticks_per_minute, ticks_per_hour, ticks_per_day}
use libdynd.Time
use libdynd.Time.Ticks as TimeTicks
use libdynd.Time.Ticks.{IsTime, is_valid-IsTime, to_ticks-pos}
use libdynd.Date.Ticks.{days_of_ticks}
use libdynd.Date.Ticks as DateTicks
use libdynd.Datetime.{DatetimeStruct, datetime_na, is_valid, to_ticks, ticks_of_day, set_from_ticks}

-- The ticks of a day and a time of it.
abbrev at : ℤ → ℕ → ℤ
at day n = day *ℤ pos ticks_per_day +ℤ pos n

-- The counts of ticks from which a day's can be subtracted, less one.
abbrev Counted : ℤ → Type 0
Counted z = (neg_part z ≤ int64_half - (ticks_per_day - 1)) × (pos_part z < int64_half)

days_of_ticks-exact :
    (z : ℤ)
    → Counted z
    → days_of_ticks z
      ≡ narrow int32_half (
          if leb_ℤ (pos 0) z
          then tdiv z ticks_per_day
          else tdiv (z -ℤ pos (ticks_per_day - 1)) ticks_per_day)
unfolding days_of_ticks ◌-ℤ◌
days_of_ticks-exact (pos n) h = ap (narrow int32_half) (ground arith)
days_of_ticks-exact (negsuc n) h =
    rw (narrow-int64 (negsuc n -ℤ pos (ticks_per_day - 1)) (unfold ◌-ℤ◌ in ground arith)) refl

rounded_day :
    (day : ℤ) (n : ℕ)
    → n < ticks_per_day
    → Counted (at day n)
    → narrow int32_half (
        if leb_ℤ (pos 0) (at day n)
        then tdiv (at day n) ticks_per_day
        else tdiv (at day n -ℤ pos (ticks_per_day - 1)) ticks_per_day)
      ≡ day
unfolding ◌+ℤ◌ ◌-ℤ◌ ◌*ℤ◌ tdiv narrow
rounded_day (pos d) n h range = ground arith
rounded_day (negsuc d) n h range = ground arith

days_of_ticks-at :
    (day : ℤ) (n : ℕ) → n < ticks_per_day → Counted (at day n) → days_of_ticks (at day n) ≡ day
days_of_ticks-at day n h range = days_of_ticks-exact (at day n) range ∙ rounded_day day n h range

product-InRange :
    (day : ℤ) (n : ℕ)
    → n < ticks_per_day
    → Counted (at day n)
    → InRange int64_half (day *ℤ pos ticks_per_day)
unfolding ◌+ℤ◌ ◌*ℤ◌
product-InRange (pos d) n h range = ground arith
product-InRange (negsuc d) n h range = ground arith

Counted-InRange : (z : ℤ) → Counted z → InRange int64_half z
Counted-InRange z h = (omega arith, omega arith)

Counted-known : (z : ℤ) → Counted z → z ≢ datetime_na
Counted-known z h e = ground arith

ticks_of_day-at : (day : ℤ) (n : ℕ) → n < ticks_per_day → ticks_of_day (at day n) ≡ pos n
unfolding ticks_of_day ◌+ℤ◌ ◌-ℤ◌ ◌*ℤ◌ tmod
ticks_of_day-at (pos d) n h = ground arith
ticks_of_day-at (negsuc d) n h = ground arith

set_from_ticks-known :
    (self : DatetimeStruct) (z : ℤ)
    → z ≢ datetime_na
    → set_from_ticks self z ≡ record {
      ymd = Date.set_from_days (days_of_ticks z);
      hmst = Time.set_from_ticks self.hmst (ticks_of_day z);
    }
unfolding set_from_ticks
set_from_ticks-known self z known = ground arith

pub is_valid-parts :
    (dt : DatetimeStruct)
    → is_valid dt ≡ true
    → (Date.is_valid dt.ymd.year dt.ymd.month dt.ymd.day ≡ true)
      × (Time.is_valid dt.hmst.hour dt.hmst.minute dt.hmst.second dt.hmst.tick ≡ true)
unfolding is_valid
is_valid-parts dt v = ground arith

-- The ticks of a valid time that is no leap second, as a number below a day's.
record IsCounted (hour minute second tick : ℤ) : Type 0 where
  count : ℕ
  count_eq : Time.to_ticks hour minute second tick ≡ pos count
  count_in : count < ticks_per_day

to_ticks-IsCounted :
    (hour minute second tick : ℤ)
    → Time.is_valid hour minute second tick ≡ true
    → second <ℤ pos 60
    → IsCounted hour minute second tick
to_ticks-IsCounted hour minute second tick v h =
    let p : IsTime hour minute second tick = is_valid-IsTime hour minute second tick v in
    let below : p.s < 60 = ground (arith, p.second_eq) in
    record {
      count = p.t + p.s * ticks_per_second + p.m * ticks_per_minute + p.h * ticks_per_hour;
      count_eq = cc (
        p.hour_eq,
        p.minute_eq,
        p.second_eq,
        p.tick_eq,
        to_ticks-pos p.h p.m p.s p.t p.h_in p.m_in p.s_in p.t_in,
      );
      count_in = omega (arith, below, p.h_in, p.m_in, p.t_in);
    }

to_ticks-at :
    (dt : DatetimeStruct) (n : ℕ)
    → is_valid dt ≡ true
    → Time.to_ticks dt.hmst.hour dt.hmst.minute dt.hmst.second dt.hmst.tick ≡ pos n
    → n < ticks_per_day
    → Counted (at (to_days dt.ymd.year dt.ymd.month dt.ymd.day) n)
    → to_ticks dt ≡ at (to_days dt.ymd.year dt.ymd.month dt.ymd.day) n
unfolding to_ticks
to_ticks-at dt n v e small fits =
    let day : ℤ = to_days dt.ymd.year dt.ymd.month dt.ymd.day in
    rw
      (
        v,
        e,
        narrow-int64 (day *ℤ pos ticks_per_day) (product-InRange day n small fits),
        narrow-int64 (at day n) (Counted-InRange (at day n) fits),
      )
      refl

-- The ticks of a datetime as an exact number.
abbrev pub exact_ticks : DatetimeStruct → ℤ
exact_ticks dt =
    to_days dt.ymd.year dt.ymd.month dt.ymd.day *ℤ pos ticks_per_day
    +ℤ Time.to_ticks dt.hmst.hour dt.hmst.minute dt.hmst.second dt.hmst.tick

-- What the ticks of such a datetime are, in numbers.
record IsTicks (dt : DatetimeStruct) : Type 0 where
  count : ℕ
  count_eq : Time.to_ticks dt.hmst.hour dt.hmst.minute dt.hmst.second dt.hmst.tick ≡ pos count
  count_in : count < ticks_per_day
  fits : Counted (at (to_days dt.ymd.year dt.ymd.month dt.ymd.day) count)
  ticks_eq : to_ticks dt ≡ at (to_days dt.ymd.year dt.ymd.month dt.ymd.day) count

to_ticks-IsTicks :
    (dt : DatetimeStruct)
    → is_valid dt ≡ true
    → dt.hmst.second <ℤ pos 60
    → Counted (exact_ticks dt)
    → IsTicks dt
to_ticks-IsTicks dt v below fits =
    let c =
      to_ticks-IsCounted dt.hmst.hour dt.hmst.minute dt.hmst.second dt.hmst.tick
        (is_valid-parts dt v).1 below in
    let day : ℤ = to_days dt.ymd.year dt.ymd.month dt.ymd.day in
    let at_fits : Counted (at day c.count) =
      subst (λ z. Counted (day *ℤ pos ticks_per_day +ℤ z)) c.count_eq fits in
    record {
      count = c.count;
      count_eq = c.count_eq;
      count_in = c.count_in;
      fits = at_fits;
      ticks_eq = to_ticks-at dt c.count v c.count_eq c.count_in at_fits;
    }

-- A valid datetime that is no leap second, its year within the 16-bit field, is set again from its
-- count of ticks, if the exact count is an `int64_t` from which the ticks of a day less one can be
-- subtracted.
pub set_from_ticks-to_ticks_datetime :
    (self dt : DatetimeStruct)
    → is_valid dt ≡ true
    → InRange int16_half dt.ymd.year
    → dt.hmst.second <ℤ pos 60
    → neg_part (exact_ticks dt) ≤ int64_half - (ticks_per_day - 1)
    → pos_part (exact_ticks dt) < int64_half
    → set_from_ticks self (to_ticks dt) ≡ dt
set_from_ticks-to_ticks_datetime self dt v range below low high =
    let parts = is_valid-parts dt v in
    let t : IsTicks dt = to_ticks-IsTicks dt v below (low, high) in
    let day : ℤ = to_days dt.ymd.year dt.ymd.month dt.ymd.day in
    cc (
      t.ticks_eq,
      set_from_ticks-known self (at day t.count) (Counted-known (at day t.count) t.fits),
      days_of_ticks-at day t.count t.count_in t.fits,
      ticks_of_day-at day t.count t.count_in,
      t.count_eq,
      set_from_days-to_days dt.ymd.year dt.ymd.month dt.ymd.day range parts.0,
      TimeTicks.set_from_ticks-to_ticks self.hmst dt.hmst.hour dt.hmst.minute dt.hmst.second
          dt.hmst.tick parts.1 below,
    )

-- The date that `date_ymd::set_from_ticks` takes from the ticks of such a datetime is the date of it.
pub set_from_ticks-date :
    (dt : DatetimeStruct)
    → is_valid dt ≡ true
    → InRange int16_half dt.ymd.year
    → dt.hmst.second <ℤ pos 60
    → neg_part (exact_ticks dt) ≤ int64_half - (ticks_per_day - 1)
    → pos_part (exact_ticks dt) < int64_half
    → DateTicks.set_from_ticks (to_ticks dt) ≡ dt.ymd
unfolding DateTicks.set_from_ticks
set_from_ticks-date dt v range below low high =
    let t : IsTicks dt = to_ticks-IsTicks dt v below (low, high) in
    cc (
      t.ticks_eq,
      days_of_ticks-at (to_days dt.ymd.year dt.ymd.month dt.ymd.day) t.count t.count_in t.fits,
      set_from_days-to_days dt.ymd.year dt.ymd.month dt.ymd.day range (is_valid-parts dt v).0,
    )
