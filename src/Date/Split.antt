-- ===== src/Date/Split.antt =====
-- `to_days` and `set_from_days` on a count of days split into a cycle of 400 years, a year, a month
-- and a day.
use native.Mathlib.Numerals.{add-one}
use libdynd.Common.{
  ℕ, zero, suc, ◌+◌, ◌-◌, ◌*◌, ◌/◌, ◌%◌, ◌<◌, ◌≡◌, refl, ap, ◌∙◌, ◌≢◌, arith, Bool, true,
}
use libdynd.Common.Int.{
  ℤ, pos, negsuc, ◌+ℤ◌, ◌-ℤ◌, ◌*ℤ◌, tdiv, tmod, int_laws, InRange, int16_half, int8_half, narrow,
  narrow-int16, narrow-int8,
}
use libdynd.Date.{
  ymd, date_na, is_leap_year, is_valid, year_days, to_days, set_month_day, cycle_year, cycle_days,
  from_year_0, set_from_days, split_400_years,
}
use libdynd.Date.Cycle.{
  days_before, year_length, split_400_years_lem, days_before_inj, days_before-lt,
}
use libdynd.Date.Days.{year_of, days_of}
use libdynd.Date.Month.{start_of, length_of, month_at-start_of, length_of-le}

-- `n` days into the cycle `q`, counted from year 0.
abbrev pub cycle_of : ℤ → ℕ → ℤ
cycle_of (pos k) n = pos (146097 * k + n)
cycle_of (negsuc k) n = negsuc (146097 * k + (146096 - n))

pub record IsYear (z : ℤ) : Type 0 where
  pub cycle : ℤ
  pub place : ℕ
  pub small : place < 400
  pub whole : z ≡ year_of cycle place

pub split-IsYear : (z : ℤ) → IsYear z
split-IsYear (pos n) = record {
  cycle = pos (n / 400);
  place = n % 400;
  small = omega arith;
  whole = ap pos (omega arith);
}
split-IsYear (negsuc n) = record {
  cycle = negsuc (n / 400);
  place = 399 - n % 400;
  small = omega arith;
  whole = ap negsuc (omega arith);
}

pub record IsCount (z : ℤ) : Type 0 where
  pub cycle : ℤ
  pub place : ℕ
  pub small : place < 146097
  pub whole : z ≡ cycle_of cycle place

pub split-IsCount : (z : ℤ) → IsCount z
split-IsCount (pos n) = record {
  cycle = pos (n / 146097);
  place = n % 146097;
  small = omega arith;
  whole = ap pos (omega arith);
}
split-IsCount (negsuc n) = record {
  cycle = negsuc (n / 146097);
  place = 146096 - n % 146097;
  small = omega arith;
  whole = ap negsuc (omega arith);
}

pub days_of-shift : (q : ℤ) (n : ℕ) → n < 146097 → days_of q n +ℤ pos 719528 ≡ cycle_of q n
days_of-shift (pos k) n h = grind int_laws
days_of-shift (negsuc k) n h = grind int_laws

cycle_days-cycle_of : (q : ℤ) (n : ℕ) → n < 146097 → cycle_days (cycle_of q n) ≡ pos n
unfolding cycle_days tmod ◌+ℤ◌
cycle_days-cycle_of (pos k) n h = ground arith
cycle_days-cycle_of (negsuc k) n h = ground arith

cycle_year-cycle_of :
    (q : ℤ) (n y : ℕ) → n < 146097 → y < 400 → cycle_year (cycle_of q n) +ℤ pos y ≡ year_of q y
unfolding cycle_year tdiv ◌+ℤ◌ ◌*ℤ◌ ◌-ℤ◌
cycle_year-cycle_of (pos k) n y h hy = ground arith
cycle_year-cycle_of (negsuc k) n y h hy = ground arith

-- What `set_from_days` makes of the days before a day of a year.
pub from_year_0-cycle_of :
    (q : ℤ) (y k : ℕ)
    → y < 400
    → k < year_length y
    → from_year_0 (cycle_of q (days_before y + k)) ≡ set_month_day (year_of q y) k
unfolding from_year_0
from_year_0-cycle_of q y k hy hk =
    let n : ℕ = days_before y + k in
    let hn : n < 146097 = days_before-lt y k hy hk in
    let (small, day_in, sum) = split_400_years_lem n hn in
    let (year_eq, day_eq) =
      days_before_inj (split_400_years n).0 (split_400_years n).1 y k day_in hk sum in
    rw (cycle_days-cycle_of q n hn)
      (rw (cycle_year-cycle_of q n (split_400_years n).0 hn small) (rw (year_eq, day_eq) refl))

pub set_from_days-from_year_0 :
    (z : ℤ) → z ≢ date_na → set_from_days z ≡ from_year_0 (z +ℤ pos 719528)
unfolding set_from_days
set_from_days-from_year_0 z h = ground arith

pub set_from_days-days_of :
    (q : ℤ) (y k : ℕ)
    → y < 400
    → k < year_length y
    → days_of q (days_before y + k) ≢ date_na
    → set_from_days (days_of q (days_before y + k)) ≡ set_month_day (year_of q y) k
set_from_days-days_of q y k hy hk known =
    set_from_days-from_year_0 _ known
    ∙ ap from_year_0 (days_of-shift q (days_before y + k) (days_before-lt y k hy hk))
    ∙ from_year_0-cycle_of q y k hy hk

suc-sub-one : (n : ℕ) → suc n - 1 ≡ n
suc-sub-one n = omega arith

-- The month and the day of a valid date, from 0.
pub record IsMonthDay (year month day : ℤ) : Type 0 where
  pub month_from_0 : ℕ
  pub day_from_0 : ℕ
  pub month_eq : month ≡ pos (suc month_from_0)
  pub day_eq : day ≡ pos (suc day_from_0)
  pub month_in : month_from_0 < 12
  pub day_in : day_from_0 < length_of (is_leap_year year) month_from_0

pub is_valid-IsMonthDay :
    (year month day : ℤ) → is_valid year month day ≡ true → IsMonthDay year month day
unfolding is_valid
is_valid-IsMonthDay year (pos zero) day h = cc
is_valid-IsMonthDay year (negsuc m) day h = absurd (ground arith)
is_valid-IsMonthDay year (pos (suc m)) (pos zero) h = absurd (ground arith)
is_valid-IsMonthDay year (pos (suc m)) (negsuc d) h = absurd (ground arith)
is_valid-IsMonthDay year (pos (suc m)) (pos (suc d)) h = record {
  month_from_0 = m;
  day_from_0 = d;
  month_eq = refl;
  day_eq = refl;
  month_in = ground arith;
  day_in = ground (arith, suc-sub-one m);
}

pub IsMonthDay-is_valid :
    (year : ℤ) (i j : ℕ)
    → i < 12
    → j < length_of (is_leap_year year) i
    → is_valid year (pos (suc i)) (pos (suc j)) ≡ true
unfolding is_valid
IsMonthDay-is_valid year i j hi hj = ground (arith, suc-sub-one i)

pub to_days-IsMonthDay :
    (year : ℤ) (i j : ℕ)
    → i < 12
    → j < length_of (is_leap_year year) i
    → to_days year (pos (suc i)) (pos (suc j))
      ≡ year_days year +ℤ pos (start_of (is_leap_year year) i + j)
unfolding to_days
to_days-IsMonthDay year i j hi hj =
    rw (IsMonthDay-is_valid year i j hi hj, suc-sub-one i) (grind int_laws)

day_back : (a j : ℕ) → pos (a + j) -ℤ pos a +ℤ pos 1 ≡ pos (suc j)
day_back a j = grind int_laws

pub set_month_day-start_of :
    (year : ℤ) (i j : ℕ)
    → InRange int16_half year
    → i < 12
    → j < length_of (is_leap_year year) i
    → set_month_day year (start_of (is_leap_year year) i + j) ≡ ymd year (pos (suc i)) (pos (suc j))
unfolding set_month_day
set_month_day-start_of year i j h hi hj = rw (month_at-start_of (is_leap_year year) i j hi hj) (λ t.
    record {
      year = narrow-int16 year h t;
      month =
          (ap (λ m. narrow int8_half (pos m)) (add-one i) ∙ narrow-int8 (pos (suc i)) (omega arith))
            t;
      day =
          (ap (λ m. narrow int8_half (pos (start_of leap i + j) -ℤ pos (start_of leap m) +ℤ pos 1))
                (add_sub i)
              ∙ ap (narrow int8_half) (day_back (start_of leap i) j)
              ∙ narrow-int8 (pos (suc j)) (omega (arith, length_of-le leap i hi)))
            t;
    })
  where
    leap : Bool
    leap = is_leap_year year

    add_sub : (i : ℕ) → i + 1 - 1 ≡ i
    add_sub i = omega arith

pub IsYear-known :
    (year : ℤ) (q : ℤ) (y k : ℕ)
    → year ≡ year_of q y
    → y < 400
    → k < 366
    → InRange int16_half year
    → days_of q (days_before y + k) ≢ date_na
IsYear-known year (pos q) y k e hy hk h = ground arith
IsYear-known year (negsuc q) y k e hy hk h = ground arith

pub days_of-add : (q : ℤ) (n k : ℕ) → n + k < 146097 → days_of q n +ℤ pos k ≡ days_of q (n + k)
days_of-add (pos c) n k h = grind int_laws
days_of-add (negsuc c) n k h = grind int_laws
