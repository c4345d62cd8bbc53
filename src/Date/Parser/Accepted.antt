-- ===== src/Date/Parser/Accepted.antt =====
-- What the parser of dates accepts, whatever the format: each format ends in the same test.
use Prim.Native.Nat.{ℕ, ◌<◌}
use libdynd.Common.{◌≡◌, refl, arith, Bool, true, Option, none, some, by_test, if◌then◌else◌}
use libdynd.Common.Int.{ℤ, pos, narrow, narrow-int8, int8_half, int16_half}
use libdynd.Parse.{Bytes}
use libdynd.Date.{DateYmd, is_valid, is_leap_year}
use libdynd.Date.Month.{length_of-le}
use libdynd.Date.Split.{IsMonthDay, is_valid-IsMonthDay}
use libdynd.Date.Parser.Formats.{
  DateParseOrder, parse_ymd_sep_date, parse_mdy_ambig_sep_date, parse_dmy_ambig_sep_date,
  parse_dmy_str_month_sep_date, parse_dmy_str_month_ws_date, parse_mdy_long_format_date,
}
use libdynd.Date.Parser.{
  Match, matched, no_match, invalid_argument, ◌>>=◌, and_then, ◌or_else◌, validated,
  parse_iso8601_dashes_date, parse_iso8601_nodashes_date,
}

-- Whether what is matched, if anything is, has a property.
unfoldable pub All {ℓ κ} : {A : Type ℓ} → (A → Type κ) → Match A → Type κ
All P (matched a) = P a
All P no_match = Unit
All P invalid_argument = Unit

pub All-step {ℓ κ μ} :
    {A : Type ℓ} {B : Type κ} (P : B → Type μ) (x : Option A) (f : A → Match B)
    → ((a : A) → All P (f a))
    → All P (x >>= f)
unfolding All ◌>>=◌
All-step P none f h = tt
All-step P (some a) f h = h a

pub All-and_then {ℓ κ μ} :
    {A : Type ℓ} {B : Type κ} (P : B → Type μ) (x : Match A) (f : A → Match B)
    → ((a : A) → All P (f a))
    → All P (and_then x f)
unfolding All and_then
All-and_then P (matched a) f h = h a
All-and_then P no_match f h = tt
All-and_then P invalid_argument f h = tt

-- The same where what is matched first has a property.
pub All-and_then_of {ℓ κ μ ν} :
    {A : Type ℓ} {B : Type κ} (Q : A → Type ν) (P : B → Type μ) (x : Match A) (f : A → Match B)
    → All Q x
    → ((a : A) → Q a → All P (f a))
    → All P (and_then x f)
unfolding All and_then
All-and_then_of Q P (matched a) f q h = h a q
All-and_then_of Q P no_match f q h = tt
All-and_then_of Q P invalid_argument f q h = tt

pub All-or_else {ℓ κ} :
    {A : Type ℓ} (P : A → Type κ) (x y : Match A) → All P x → All P y → All P (x or_else y)
unfolding All ◌or_else◌
All-or_else P (matched a) y h k = h
All-or_else P no_match y h k = k
All-or_else P invalid_argument y h k = tt

pub All-if {ℓ κ} :
    {A : Type ℓ} (P : A → Type κ) (b : Bool) (x y : Match A)
    → All P x
    → All P y
    → All P (if b then x else y)
All-if P b x y h k = by_test (All P) b (λ e. h) (λ e. k)

pub All-matched {ℓ κ} : {A : Type ℓ} (P : A → Type κ) (a : A) → P a → All P (matched a)
unfolding All
All-matched P a h = h

pub All-no_match {ℓ κ} : {A : Type ℓ} (P : A → Type κ) → All P no_match
unfolding All
All-no_match P = tt

-- A date whose year is that of a valid date, narrowed to the 16-bit field.
pub record IsNarrowed (t : DateYmd) : Type 0 where
  pub full_year : ℤ
  pub valid : is_valid full_year t.month t.day ≡ true
  pub year_eq : t.year ≡ narrow int16_half full_year

abbrev pub Accepted : DateYmd × Bytes → Type 0
Accepted read = IsNarrowed read.0

-- A valid day of a month keeps both in a signed byte.
month_day-narrow :
    (year : ℤ) (m d : ℕ)
    → is_valid year (pos m) (pos d) ≡ true
    → (narrow int8_half (pos m) ≡ pos m) × (narrow int8_half (pos d) ≡ pos d)
month_day-narrow year m d v =
    let p : IsMonthDay year (pos m) (pos d) = is_valid-IsMonthDay year (pos m) (pos d) v in
    let short : p.day_from_0 < 31 =
      omega (arith, p.day_in, length_of-le (is_leap_year year) p.month_from_0 p.month_in) in
    (narrow-int8 (pos m) ground (arith, p.month_eq), narrow-int8 (pos d) ground (arith, p.day_eq))

validated-Accepted : (year : ℤ) (m d : ℕ) (s : Bytes) → All Accepted (validated year m d s)
unfolding validated All
validated-Accepted year m d s =
    by_test (λ (x : Match (DateYmd × Bytes)). All Accepted x) (is_valid year (pos m) (pos d))
      (λ v. record {
        full_year = year;
        valid = rw (month_day-narrow year m d v).0 (rw (month_day-narrow year m d v).1 v);
        year_eq = refl;
      })
      (λ v. tt)

pub parse_iso8601_dashes_date-Accepted : (s : Bytes) → All Accepted (parse_iso8601_dashes_date s)
unfolding parse_iso8601_dashes_date
parse_iso8601_dashes_date-Accepted s =
    All-step _ _ _ (λ year. All-and_then _ _ _ (λ md. validated-Accepted _ _ _ _))

pub parse_iso8601_nodashes_date-Accepted :
    (s : Bytes) → All Accepted (parse_iso8601_nodashes_date s)
unfolding parse_iso8601_nodashes_date
parse_iso8601_nodashes_date-Accepted s = All-step _ _ _ (λ year.
    All-step _ _ _
      (λ month. All-step _ _ _ (λ read. All-step _ _ _ (λ day. validated-Accepted _ _ _ _))))

pub parse_ymd_sep_date-Accepted :
    (rawtime : ℤ) (sep : ℕ) (ambig : DateParseOrder) (window : ℤ) (s : Bytes)
    → All Accepted (parse_ymd_sep_date rawtime sep ambig window s)
unfolding parse_ymd_sep_date
parse_ymd_sep_date-Accepted rawtime sep ambig window s =
    All-and_then _ _ _ (λ year. All-and_then _ _ _ (λ md. validated-Accepted _ _ _ _))

pub parse_mdy_ambig_sep_date-Accepted :
    (rawtime : ℤ) (sep : ℕ) (window : ℤ) (s : Bytes)
    → All Accepted (parse_mdy_ambig_sep_date rawtime sep window s)
unfolding parse_mdy_ambig_sep_date
parse_mdy_ambig_sep_date-Accepted rawtime sep window s = All-step _ _ _ (λ month.
    All-step _ _ _ (λ s1.
      All-step _ _ _
        (λ day. All-step _ _ _ (λ s2. All-and_then _ _ _ (λ year. validated-Accepted _ _ _ _)))))

pub parse_dmy_ambig_sep_date-Accepted :
    (rawtime : ℤ) (sep : ℕ) (window : ℤ) (s : Bytes)
    → All Accepted (parse_dmy_ambig_sep_date rawtime sep window s)
unfolding parse_dmy_ambig_sep_date
parse_dmy_ambig_sep_date-Accepted rawtime sep window s = All-step _ _ _ (λ day.
    All-step _ _ _ (λ s1.
      All-step _ _ _
        (λ month. All-step _ _ _ (λ s2. All-and_then _ _ _ (λ year. validated-Accepted _ _ _ _)))))

pub parse_dmy_str_month_sep_date-Accepted :
    (rawtime : ℤ) (sep : ℕ) (ambig : DateParseOrder) (window : ℤ) (s : Bytes)
    → All Accepted (parse_dmy_str_month_sep_date rawtime sep ambig window s)
unfolding parse_dmy_str_month_sep_date
parse_dmy_str_month_sep_date-Accepted rawtime sep ambig window s = All-step _ _ _ (λ day.
    All-step _ _ _ (λ s1.
      All-step _ _ _
        (λ month. All-step _ _ _ (λ s2. All-and_then _ _ _ (λ year. validated-Accepted _ _ _ _)))))

pub parse_dmy_str_month_ws_date-Accepted :
    (rawtime : ℤ) (ambig : DateParseOrder) (window : ℤ) (s : Bytes)
    → All Accepted (parse_dmy_str_month_ws_date rawtime ambig window s)
unfolding parse_dmy_str_month_ws_date
parse_dmy_str_month_ws_date-Accepted rawtime ambig window s =
    All-step _ _ _
      (λ day. All-step _ _ _ (λ month. All-and_then _ _ _ (λ year. validated-Accepted _ _ _ _)))

pub parse_mdy_long_format_date-Accepted :
    (rawtime window : ℤ) (s : Bytes) → All Accepted (parse_mdy_long_format_date rawtime window s)
unfolding parse_mdy_long_format_date
parse_mdy_long_format_date-Accepted rawtime window s = All-step _ _ _ (λ month.
    All-step _ _ _
      (λ s1. All-step _ _ _ (λ day. All-and_then _ _ _ (λ year. validated-Accepted _ _ _ _))))
