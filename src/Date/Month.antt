-- ===== src/Date/Month.antt =====
-- The search for the month in `set_from_days`, against the two tables of the months.
use libdynd.Common.{
  ℕ, ◌+◌, ◌≤◌, ◌<◌, ◌≡◌, refl, arith, Bool, true, false, ◌&&◌, ◌==◌, ltb, leb, if◌then◌else◌,
  get_or, drop, accepts_up_to, accepts_up_to-at,
}
use libdynd.Date.{month_starts, month_lengths, upper_bound}

-- The row of the table that the search stops at.
abbrev pub month_at : Bool → ℕ → ℕ
month_at leap days = upper_bound (drop 1 (month_starts leap)) days

abbrev pub start_of : Bool → ℕ → ℕ
start_of leap i = get_or (month_starts leap) i 0

abbrev pub length_of : Bool → ℕ → ℕ
length_of leap i = get_or (month_lengths leap) i 0

abbrev finds_day : Bool → ℕ → ℕ → Bool
finds_day leap i d = month_at leap (start_of leap i + d) == i

abbrev finds_month : Bool → ℕ → Bool
finds_month leap i = accepts_up_to (finds_day leap i) (length_of leap i)

abbrev holds_day : Bool → ℕ → Bool
holds_day leap n =
    ltb (month_at leap n) 12
    && leb (start_of leap (month_at leap n)) n
    && ltb n (start_of leap (month_at leap n) + length_of leap (month_at leap n))

finds_months : (leap : Bool) → accepts_up_to (finds_month leap) 12 ≡ true
unfolding accepts_up_to
finds_months true = refl
finds_months false = refl

holds_days : (leap : Bool) → accepts_up_to (holds_day leap) (if leap then 366 else 365) ≡ true
unfolding accepts_up_to
holds_days true = refl
holds_days false = refl

-- A day of month `i` (from 0) is found in month `i`.
pub month_at-start_of :
    (leap : Bool) (i d : ℕ)
    → i < 12
    → d < length_of leap i
    → month_at leap (start_of leap i + d) ≡ i
month_at-start_of leap i d hi hd = ground (
  arith,
  accepts_up_to-at (finds_day leap i) (length_of leap i) d hd
      (accepts_up_to-at (finds_month leap) 12 i hi (finds_months leap)),
)

-- Every day of the year lies in the month that is found for it.
pub month_at_bounds :
    (leap : Bool) (n : ℕ)
    → n < (if leap then 366 else 365)
    → (month_at leap n < 12)
      × (start_of leap (month_at leap n) ≤ n)
      × (n < start_of leap (month_at leap n) + length_of leap (month_at leap n))
month_at_bounds leap n h = ground (arith, accepts_up_to-at (holds_day leap) _ n h (holds_days leap))

short_months : (leap : Bool) → accepts_up_to (λ i. leb (length_of leap i) 31) 12 ≡ true
unfolding accepts_up_to
short_months true = refl
short_months false = refl

pub length_of-le : (leap : Bool) (i : ℕ) → i < 12 → length_of leap i ≤ 31
length_of-le leap i h =
    ground (arith, accepts_up_to-at (λ m. leb (length_of leap m) 31) 12 i h (short_months leap))

-- A day of a month is a day of the year.
fitting_months :
    (leap : Bool)
    → accepts_up_to (λ i. leb (start_of leap i + length_of leap i) (if leap then 366 else 365)) 12
      ≡ true
unfolding accepts_up_to
fitting_months true = refl
fitting_months false = refl

pub start_of-fits :
    (leap : Bool) (i : ℕ)
    → i < 12
    → start_of leap i + length_of leap i ≤ (if leap then 366 else 365)
start_of-fits leap i h = ground (
  arith,
  accepts_up_to-at (λ m. leb (start_of leap m + length_of leap m) (if leap then 366 else 365)) 12 i
      h (fitting_months leap),
)
