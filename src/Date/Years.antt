-- ===== src/Date/Years.antt =====
-- The years in `to_days`, one after another.
use libdynd.Common.{
  ℕ, zero, suc, ◌+◌, ◌<◌, ◌≡◌, ◌⊎◌, inl, inr, refl, sym, ap, ap₂, ◌∙◌, subst, arith, if◌then◌else◌,
}
use libdynd.Common.Int.{ℤ, pos, negsuc, ◌+ℤ◌, int_laws}
use libdynd.Date.{is_leap_year, year_days}
use libdynd.Date.Cycle.{days_before, days_before-suc, year_length}
use libdynd.Date.Days.{year_of, days_of, is_leap_year-year_of, year_days-year_of}
use libdynd.Date.Split.{IsYear, split-IsYear, days_of-add}

year_fits : (y : ℕ) → y < 399 → days_before y + year_length y < 146097
year_fits y h = ground arith

year_of-suc : (q : ℤ) (y : ℕ) → y < 399 → year_of q y +ℤ pos 1 ≡ year_of q (y + 1)
year_of-suc (pos k) y h = grind int_laws
year_of-suc (negsuc k) y h = grind int_laws

year_of-last : (q : ℤ) → year_of q 399 +ℤ pos 1 ≡ year_of (q +ℤ pos 1) 0
unfolding ◌+ℤ◌
year_of-last (pos k) = ground arith
year_of-last (negsuc zero) = refl
year_of-last (negsuc (suc k)) = ground arith

days_of-last : (q : ℤ) → days_of q 145732 +ℤ pos 365 ≡ days_of (q +ℤ pos 1) 0
unfolding ◌+ℤ◌
days_of-last (pos k) = ground arith
days_of-last (negsuc zero) = refl
days_of-last (negsuc (suc k)) = ground arith

YearGrows : ℤ → Type 0
YearGrows z = year_days (z +ℤ pos 1) ≡ year_days z +ℤ pos (if is_leap_year z then 366 else 365)

year_of-YearGrows : (q : ℤ) (y : ℕ) → y < 400 → (y < 399) ⊎ (y ≡ 399) → YearGrows (year_of q y)
unfolding YearGrows
year_of-YearGrows q y h (inl lt) =
    ap year_days (year_of-suc q y lt)
    ∙ year_days-year_of q (y + 1) (omega arith)
    ∙ ap (days_of q) (days_before-suc y)
    ∙ sym (days_of-add q (days_before y) (year_length y) (year_fits y lt))
    ∙ ap₂ (λ d l. d +ℤ pos (if l then 366 else 365)) (sym (year_days-year_of q y h))
        (sym (is_leap_year-year_of q y h))
year_of-YearGrows q y h (inr e) =
    subst (λ n. YearGrows (year_of q n)) (sym e)
      (ap year_days (year_of-last q)
        ∙ year_days-year_of (q +ℤ pos 1) 0 (omega arith)
        ∙ sym (days_of-last q)
        ∙ ap₂ (λ d l. d +ℤ pos (if l then 366 else 365))
            (sym (year_days-year_of q 399 (omega arith)))
            (sym (is_leap_year-year_of q 399 (omega arith))))

-- From a year to the next `to_days` counts 366 days if `is_leap_year` says so, and 365 if not.
pub year_days-suc :
    (z : ℤ) → year_days (z +ℤ pos 1) ≡ year_days z +ℤ pos (if is_leap_year z then 366 else 365)
unfolding YearGrows
year_days-suc z =
    let s : IsYear z = split-IsYear z in
    subst YearGrows (sym s.whole) (year_of-YearGrows s.cycle s.place s.small (grind arith))
