-- ===== src/Date/RoundTrip.antt =====
-- `to_days` and `set_from_days` undo one another, over the years that the 16-bit field holds; and
-- what `to_days` counts.
use libdynd.Common.{
  ℕ, suc, ◌+◌, ◌-◌, ◌≤◌, ◌<◌, ◌≡◌, ◌≢◌, sym, ap, ◌∙◌, subst, arith, Bool, true, if◌then◌else◌,
}
use libdynd.Common.Int.{ℤ, pos, negsuc, ◌+ℤ◌, ◌≤ℤ◌, int_laws, InRange, int16_half}
use libdynd.Date.{
  DateYmd, ymd, date_na, is_leap_year, is_valid, year_days, to_days, set_month_day, set_from_days,
  split_400_years,
}
use libdynd.Date.Cycle.{is_leap, days_before, year_length, split_400_years_lem, days_before-lt}
use libdynd.Date.Days.{year_of, days_of, is_leap_year-year_of, year_days-year_of}
use libdynd.Date.Month.{month_at, start_of, length_of, month_at_bounds, start_of-fits}
use libdynd.Date.Split.{
  IsYear, split-IsYear, IsCount, split-IsCount, cycle_of, set_from_days-days_of, IsMonthDay,
  is_valid-IsMonthDay, IsMonthDay-is_valid, to_days-IsMonthDay, set_month_day-start_of,
  IsYear-known, days_of-add,
}

set_from_days-parts :
    (year : ℤ) (i j : ℕ)
    → InRange int16_half year
    → i < 12
    → j < length_of (is_leap_year year) i
    → set_from_days (to_days year (pos (suc i)) (pos (suc j)))
      ≡ ymd year (pos (suc i)) (pos (suc j))
set_from_days-parts year i j range hi hj =
    let s : IsYear year = split-IsYear year in
    let k : ℕ = start_of (is_leap_year year) i + j in
    let leap_eq : is_leap_year year ≡ is_leap s.place =
      ap is_leap_year s.whole ∙ is_leap_year-year_of s.cycle s.place s.small in
    let fits : k < (if is_leap_year year then 366 else 365) =
      omega (arith, start_of-fits (is_leap_year year) i hi) in
    let hk : k < year_length s.place = subst (λ b. k < (if b then 366 else 365)) leap_eq fits in
    let small : k < 366 = ground arith in
    ap set_from_days (
      to_days-IsMonthDay year i j hi hj
      ∙ ap (λ y. y +ℤ pos k) (ap year_days s.whole ∙ year_days-year_of s.cycle s.place s.small)
      ∙ days_of-add s.cycle (days_before s.place) k (days_before-lt s.place k s.small hk))
    ∙ set_from_days-days_of s.cycle s.place k s.small hk
        (IsYear-known year s.cycle s.place k s.whole s.small small range)
    ∙ ap (λ y. set_month_day y k) (sym s.whole)
    ∙ set_month_day-start_of year i j range hi hj

-- A valid date, its year within the 16-bit field, is set again from its count of days.
pub set_from_days-to_days :
    (year month day : ℤ)
    → InRange int16_half year
    → is_valid year month day ≡ true
    → set_from_days (to_days year month day) ≡ ymd year month day
set_from_days-to_days year month day range valid =
    let v : IsMonthDay year month day = is_valid-IsMonthDay year month day valid in
    cc (
      v.month_eq,
      v.day_eq,
      set_from_days-parts year v.month_from_0 v.day_from_0 range v.month_in v.day_in,
    )

-- The first and the last day whose year the 16-bit field holds.
abbrev pub first_day : ℤ
first_day = negsuc 12687793

abbrev pub last_day : ℤ
last_day = pos 11248737

-- A date that is valid, has a year that the field holds, and counts as `z` days.
pub record StandsFor (t : DateYmd) (z : ℤ) : Type 0 where
  pub valid : is_valid t.year t.month t.day ≡ true
  pub year_in : InRange int16_half t.year
  pub count : to_days t.year t.month t.day ≡ z

unshift : (z : ℤ) (q : ℤ) (n : ℕ) → n < 146097 → z +ℤ pos 719528 ≡ cycle_of q n → z ≡ days_of q n
unshift z (pos k) n h e = grind int_laws
unshift z (negsuc k) n h e = grind int_laws

known_day : (z : ℤ) → first_day ≤ℤ z → z ≢ date_na
known_day z h = ground arith

days_of-InRange :
    (q : ℤ) (y k : ℕ)
    → y < 400
    → k < year_length y
    → first_day ≤ℤ days_of q (days_before y + k)
    → days_of q (days_before y + k) ≤ℤ last_day
    → InRange int16_half (year_of q y)
days_of-InRange (pos c) y k hy hk lo hi = ground arith
days_of-InRange (negsuc c) y k hy hk lo hi = ground arith

set_month_day-StandsFor :
    (q : ℤ) (y k : ℕ)
    → y < 400
    → k < year_length y
    → InRange int16_half (year_of q y)
    → StandsFor (set_month_day (year_of q y) k) (days_of q (days_before y + k))
set_month_day-StandsFor q y k hy hk range =
    subst (λ t. StandsFor t (days_of q (days_before y + k))) (sym fields)
      (record {
        valid = IsMonthDay-is_valid year i j b.0 hj;
        year_in = range;
        count =
            to_days-IsMonthDay year i j b.0 hj
            ∙ ap (λ m. year_days year +ℤ pos m) back
            ∙ ap (λ d. d +ℤ pos k) (year_days-year_of q y hy)
            ∙ days_of-add q (days_before y) k (days_before-lt y k hy hk);
      })
  where
    year : ℤ
    year = year_of q y

    leap : Bool
    leap = is_leap_year year

    b :
        (month_at leap k < 12)
        × (start_of leap (month_at leap k) ≤ k)
        × (k < start_of leap (month_at leap k) + length_of leap (month_at leap k))
    b =
        month_at_bounds leap k
          (subst (λ l. k < (if l then 366 else 365)) (sym (is_leap_year-year_of q y hy)) hk)

    i : ℕ
    i = month_at leap k

    j : ℕ
    j = k - start_of leap i

    hj : j < length_of leap i
    hj = omega (arith, b.1, b.2)

    back : start_of leap i + j ≡ k
    back = omega (arith, b.1)

    fields : set_month_day year k ≡ ymd year (pos (suc i)) (pos (suc j))
    fields = ap (set_month_day year) (sym back) ∙ set_month_day-start_of year i j range b.0 hj

-- Every day count between `first_day` and `last_day` is set to a valid date that counts as many.
pub to_days-set_from_days : (z : ℤ) → first_day ≤ℤ z → z ≤ℤ last_day → StandsFor (set_from_days z) z
to_days-set_from_days z lo hi =
    subst (λ t. StandsFor t z) (sym set)
      (subst (StandsFor (set_month_day (year_of c.cycle y) k)) (sym z_eq) (
        set_month_day-StandsFor c.cycle y k s.0 s.1 (
          days_of-InRange c.cycle y k s.0 s.1 (subst (λ w. first_day ≤ℤ w) z_eq lo)
            (subst (λ w. w ≤ℤ last_day) z_eq hi))))
  where
    c : IsCount (z +ℤ pos 719528)
    c = split-IsCount (z +ℤ pos 719528)

    y : ℕ
    y = (split_400_years c.place).0

    k : ℕ
    k = (split_400_years c.place).1

    s : (y < 400) × (k < year_length y) × (days_before y + k ≡ c.place)
    s = split_400_years_lem c.place c.small

    z_eq : z ≡ days_of c.cycle (days_before y + k)
    z_eq = unshift z c.cycle c.place c.small c.whole ∙ ap (days_of c.cycle) (sym s.2)

    set : set_from_days z ≡ set_month_day (year_of c.cycle y) k
    set =
        ap set_from_days z_eq
        ∙ set_from_days-days_of c.cycle y k s.0 s.1 (subst (λ w. w ≢ date_na) z_eq (known_day z lo))
