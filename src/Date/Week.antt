-- ===== src/Date/Week.antt =====
-- `get_weekday` and `get_day_of_year`.
use libdynd.Common.{
  ap, sym, subst, Bool, true, ℕ, ◌+◌, ◌%◌, ◌/◌, ◌<◌, ◌-◌, ◌≡◌, ◌∙◌, arith, if◌then◌else◌,
}
use libdynd.Common.Int.{
  ℤ, pos, negsuc, ◌+ℤ◌, ◌-ℤ◌, ◌*ℤ◌, ltb_ℤ, tmod, int_laws, InRange, int16_half, int32_half,
  narrow-int32,
}
use libdynd.Date.{DateYmd, is_leap_year, is_valid, year_days, to_days, get_weekday}
use libdynd.Date.Days.{year_of, days_of, is_leap_year-year_of, year_days-year_of}
use libdynd.Date.Cycle.{is_leap, days_before, year_length, days_before-lt}
use libdynd.Date.Month.{start_of, start_of-fits}
use libdynd.Date.Split.{
  IsYear, split-IsYear, days_of-add, IsMonthDay, is_valid-IsMonthDay, to_days-IsMonthDay,
}

-- The weekday of a count of days, where 4 days after the start of 1970 is a Monday.
pub record IsWeekday (z w : ℤ) : Type 0 where
  pub weekday : ℕ
  pub weeks : ℤ
  pub weekday_eq : w ≡ pos weekday
  pub weekday_in : weekday < 7
  pub count : z ≡ weeks *ℤ pos 7 +ℤ pos (4 + weekday)

weekday_of : ℤ → ℤ
weekday_of u = let weekday = tmod u 7 in if ltb_ℤ weekday (pos 0) then weekday +ℤ pos 7 else weekday

Regroup : (u : ℤ) → ℕ → ℤ → Type 0
Regroup u w k = u +ℤ pos 4 ≡ k *ℤ pos 7 +ℤ pos (4 + w)

Regroup-pos : (a : ℕ) → Regroup (pos a) (a % 7) (pos (a / 7))
unfolding Regroup ◌+ℤ◌ ◌*ℤ◌
Regroup-pos a = ground arith

Regroup-negsuc : (a : ℕ) → Regroup (negsuc a) (6 - a % 7) (negsuc (a / 7))
unfolding Regroup ◌+ℤ◌ ◌*ℤ◌
Regroup-negsuc a = ground arith

weekday_of-IsWeekday : (z u : ℤ) → z ≡ u +ℤ pos 4 → IsWeekday z (weekday_of u)
unfolding weekday_of tmod Regroup
weekday_of-IsWeekday z (pos a) e = record {
  weekday = a % 7;
  weeks = pos (a / 7);
  weekday_eq = ground arith;
  weekday_in = omega arith;
  count = e ∙ Regroup-pos a;
}
weekday_of-IsWeekday z (negsuc a) e = record {
  weekday = 6 - a % 7;
  weeks = negsuc (a / 7);
  weekday_eq = unfold ◌+ℤ◌ in ground arith;
  weekday_in = omega arith;
  count = e ∙ Regroup-negsuc a;
}

days_of-bounds :
    (q : ℤ) (y n : ℕ)
    → y < 400
    → n < 146097
    → InRange int16_half (year_of q y)
    → InRange int32_half (days_of q n -ℤ pos 4)
unfolding ◌-ℤ◌
days_of-bounds (pos c) y n hy hn range = ground arith
days_of-bounds (negsuc c) y n hy hn range = ground arith

year_days-bounds :
    (year : ℤ) (k : ℕ)
    → InRange int16_half year
    → k < (if is_leap_year year then 366 else 365)
    → InRange int32_half (year_days year +ℤ pos k -ℤ pos 4)
year_days-bounds year k range fits =
    let s : IsYear year = split-IsYear year in
    let leap_eq : is_leap_year year ≡ is_leap s.place =
      ap is_leap_year s.whole ∙ is_leap_year-year_of s.cycle s.place s.small in
    let hk : k < year_length s.place = subst (λ b. k < (if b then 366 else 365)) leap_eq fits in
    let small : days_before s.place + k < 146097 = days_before-lt s.place k s.small hk in
    let count : year_days year +ℤ pos k ≡ days_of s.cycle (days_before s.place + k) =
      ap (λ y. y +ℤ pos k) (ap year_days s.whole ∙ year_days-year_of s.cycle s.place s.small)
      ∙ days_of-add s.cycle (days_before s.place) k small in
    subst (λ z. InRange int32_half (z -ℤ pos 4)) (sym count)
      (days_of-bounds s.cycle s.place (days_before s.place + k) s.small small
        (subst (InRange int16_half) s.whole range))

to_days-bounds :
    (year month day : ℤ)
    → is_valid year month day ≡ true
    → InRange int16_half year
    → InRange int32_half (to_days year month day -ℤ pos 4)
to_days-bounds year month day valid range =
    let v : IsMonthDay year month day = is_valid-IsMonthDay year month day valid in
    let leap : Bool = is_leap_year year in
    let k : ℕ = start_of leap v.month_from_0 + v.day_from_0 in
    let fits : k < (if leap then 366 else 365) =
      omega (arith, start_of-fits leap v.month_from_0 v.month_in, v.day_in) in
    let count : to_days year month day ≡ year_days year +ℤ pos k = cc (
      v.month_eq,
      v.day_eq,
      to_days-IsMonthDay year v.month_from_0 v.day_from_0 v.month_in v.day_in,
    ) in
    subst (λ z. InRange int32_half (z -ℤ pos 4)) (sym count) (year_days-bounds year k range fits)

-- For a valid date whose year the 16-bit field holds, the weekday lies in 0 to 6, and whole weeks
-- separate the date from that day of the week of Monday, 5 January 1970.
pub get_weekday-IsWeekday :
    (t : DateYmd)
    → is_valid t.year t.month t.day ≡ true
    → InRange int16_half t.year
    → IsWeekday (to_days t.year t.month t.day) (get_weekday t)
unfolding get_weekday weekday_of
get_weekday-IsWeekday t valid range =
    rw
      (narrow-int32 (to_days t.year t.month t.day -ℤ pos 4)
        (to_days-bounds t.year t.month t.day valid range))
      (weekday_of-IsWeekday _ (to_days t.year t.month t.day -ℤ pos 4) (back _))
  where
    back : (z : ℤ) → z ≡ z -ℤ pos 4 +ℤ pos 4
    back z = grind int_laws
