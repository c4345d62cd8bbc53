-- ===== src/Date/Cycle.antt =====
-- The 400-year cycle of `set_from_days`: the nested blocks split the days of a cycle into the year
-- and the days since its first day.
use native.Mathlib.Nat.{add-zero, le_trans, le-add_right}
use libdynd.Common.{
  ℕ, zero, suc, ◌+◌, ◌-◌, ◌*◌, ◌/◌, ◌%◌, ◌≤◌, ◌<◌, ◌≡◌, ◌≢◌, ◌⊎◌, inl, inr, sym, ap, ◌∙◌, subst,
  arith, Bool, not, ◌&&◌, ◌||◌, ◌==◌, if◌then◌else◌,
}
use libdynd.Date.{split_4_years, split_100_years, split_400_years}

abbrev pub is_leap : ℕ → Bool
is_leap y = (y % 4 == 0) && (not (y % 100 == 0) || (y % 400 == 0))

-- The days from the start of year 0 to the start of year `y`.
abbrev pub days_before : ℕ → ℕ
days_before y = 365 * y + (y + 3) / 4 + (y + 399) / 400 - (y + 99) / 100

abbrev pub year_length : ℕ → ℕ
year_length y = if is_leap y then 366 else 365

split_4_years_lem :
    (n : ℕ)
    → n < 1461
    → ((split_4_years n).0 < 4)
      × ((split_4_years n).1 < (if (split_4_years n).0 == 0 then 366 else 365))
      × (365 * (split_4_years n).0 + ((split_4_years n).0 + 3) / 4 + (split_4_years n).1 ≡ n)
unfolding split_4_years
split_4_years_lem n h = ground arith

-- `n` counts from the first day of a century that begins with a common year.
split_100_years_lem :
    (n : ℕ)
    → n < 36524
    → ((split_100_years n).0 < 100)
      × ((split_100_years n).1 < (
          if ((split_100_years n).0 % 4 == 0) && not ((split_100_years n).0 == 0)
          then 366
          else 365))
      × (365 * (split_100_years n).0 + ((split_100_years n).0 + 3) / 4 + (split_100_years n).1
          ≡ n + (if (split_100_years n).0 == 0 then 0 else 1))
unfolding split_100_years
split_100_years_lem n h = ground (arith, split_4_years_lem ((n + 1) % 1461))

-- The year lies in the cycle, the day lies in the year, and both stand for the days given.
pub split_400_years_lem :
    (n : ℕ)
    → n < 146097
    → ((split_400_years n).0 < 400)
      × ((split_400_years n).1 < year_length (split_400_years n).0)
      × (days_before (split_400_years n).0 + (split_400_years n).1 ≡ n)
unfolding split_400_years
split_400_years_lem n h = ground (arith, split_100_years_lem ((n - 1) % 36524))

pub days_before-suc : (y : ℕ) → days_before (y + 1) ≡ days_before y + year_length y
days_before-suc y = ground arith

days_before_later : (k y : ℕ) → days_before y + year_length y ≤ days_before (y + 1 + k)
days_before_later zero y = rw (add-zero (y + 1)) (omega (arith, days_before-suc y))
days_before_later (suc k) y =
    let e : y + 1 + suc k ≡ y + 1 + k + 1 = omega arith in
    rw e (omega (arith, days_before_later k y, days_before-suc (y + 1 + k)))

-- A later year begins after the last day of an earlier one.
pub days_before_mono : (y z : ℕ) → y < z → days_before y + year_length y ≤ days_before z
days_before_mono y z h =
    let e : z ≡ y + 1 + (z - (y + 1)) = omega arith in
    subst (λ w. days_before y + year_length y ≤ days_before w) (sym e)
      (days_before_later (z - (y + 1)) y)

days_before_lt : (y k z l : ℕ) → k < year_length y → y < z → days_before y + k < days_before z + l
days_before_lt y k z l hk h =
    let later : days_before y + year_length y ≤ days_before z = days_before_mono y z h in
    le_trans (add_lt (days_before y) k (year_length y) hk)
      (le_trans later (le-add_right (days_before z) l))
  where
    add_lt : (a b c : ℕ) → b < c → a + b < a + c
    add_lt a b c h = omega arith

-- The year and the day of a count of days are unique.
pub days_before_inj :
    (y k z l : ℕ)
    → k < year_length y
    → l < year_length z
    → days_before y + k ≡ days_before z + l
    → (y ≡ z) × (k ≡ l)
days_before_inj y k z l hk hl e = elim (compare_cases y z) [
  | inl (inl lt) ↦ absurd (ne_of_lt (days_before_lt y k z l hk lt) e)
  | inl (inr gt) ↦ absurd (ne_of_lt (days_before_lt z l y k hl gt) (sym e))
  | inr same ↦ (same, cancel (days_before y) k l (e ∙ ap (λ t. t + l) (ap days_before (sym same))))
]
  where
    compare_cases : (y z : ℕ) → ((y < z) ⊎ (z < y)) ⊎ (y ≡ z)
    compare_cases y z = grind arith

    ne_of_lt : {a b : ℕ} → a < b → a ≢ b
    ne_of_lt h = omega arith

    cancel : (a b c : ℕ) → a + b ≡ a + c → b ≡ c
    cancel a b c h = omega arith

-- The days of a year of the cycle lie in the cycle.
pub days_before-lt : (y k : ℕ) → y < 400 → k < year_length y → days_before y + k < 146097
days_before-lt y k h hk = ground arith
