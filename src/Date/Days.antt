-- ===== src/Date/Days.antt =====
-- `to_days` and `set_from_days` on a year split into cycles of 400 years.
use libdynd.Common.{ℕ, suc, ◌+◌, ◌-◌, ◌*◌, ◌/◌, ◌≤◌, ◌<◌, ◌≡◌, arith}
use libdynd.Common.Int.{
  ℤ, pos, negsuc, sub_ℕ, ◌-ℤ◌, tmod, int_laws, *ℤ-pos_parts, tdiv-sub_pos, tdiv-sub_neg,
  tdiv-sub_negsuc,
}
use libdynd.Date.{is_leap_year, year_days}
use libdynd.Date.Cycle.{is_leap, days_before}

-- The year `y` of the cycle `q`.
abbrev pub year_of : ℤ → ℕ → ℤ
year_of (pos k) y = pos (400 * k + y)
year_of (negsuc k) y = negsuc (400 * k + (399 - y))

-- The days from the start of 1970, for `n` days into the cycle `q`.
abbrev pub days_of : ℤ → ℕ → ℤ
days_of (pos k) n = sub_ℕ (146097 * k + n) 719528
days_of (negsuc k) n = negsuc (146097 * k + (146096 - n) + 719528)

pub is_leap_year-year_of : (q : ℤ) (y : ℕ) → y < 400 → is_leap_year (year_of q y) ≡ is_leap y
unfolding is_leap_year tmod
is_leap_year-year_of (pos k) y h = ground arith
is_leap_year-year_of (negsuc k) y h = ground arith

year_days-late :
    (n : ℕ)
    → 1970 ≤ n
    → year_days (pos n)
      ≡ pos ((n - 1970) * 365 + (n - 1969) / 4 + (n - 1601) / 400 - (n - 1901) / 100)
unfolding year_days
year_days-late n h = grind (
  int_laws,
  *ℤ-pos_parts (pos n -ℤ pos 1970) 365,
  tdiv-sub_pos n 1969 4,
  tdiv-sub_pos n 1901 100,
  tdiv-sub_pos n 1601 400,
)

year_days-early :
    (n : ℕ)
    → n < 1970
    → year_days (pos n)
      ≡ sub_ℕ ((2000 - n) / 100) ((1970 - n) * 365 + (1972 - n) / 4 + (2000 - n) / 400)
unfolding year_days
year_days-early n h = grind (
  int_laws,
  *ℤ-pos_parts (pos n -ℤ pos 1970) 365,
  tdiv-sub_neg n 1972 4,
  tdiv-sub_neg n 2000 100,
  tdiv-sub_neg n 2000 400,
)

year_days-negative :
    (n : ℕ)
    → year_days (negsuc n)
      ≡ sub_ℕ ((suc n + 2000) / 100) ((1971 + n) * 365 + (suc n + 1972) / 4 + (suc n + 2000) / 400)
unfolding year_days
year_days-negative n = grind (
  int_laws,
  *ℤ-pos_parts (negsuc n -ℤ pos 1970) 365,
  tdiv-sub_negsuc n 1972 4,
  tdiv-sub_negsuc n 2000 100,
  tdiv-sub_negsuc n 2000 400,
)

pub year_days-year_of :
    (q : ℤ) (y : ℕ) → y < 400 → year_days (year_of q y) ≡ days_of q (days_before y)
year_days-year_of (pos k) y h =
    ground (arith, year_days-late (400 * k + y), year_days-early (400 * k + y))
year_days-year_of (negsuc k) y h = ground (arith, year_days-negative (400 * k + (399 - y)))
