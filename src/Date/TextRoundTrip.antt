-- ===== src/Date/TextRoundTrip.antt =====
-- Every valid date, its year within the 16-bit field, is read back from its text.
use libdynd.Common.{
  ℕ, suc, by_test, leb, ◌&&◌, ◌+◌, ◌<◌, ◌≡◌, refl, sym, subst, append_assoc, append-nil, arith,
  Bool, true, false, none, some, [], ◌∷◌, ◌++◌,
}
use libdynd.Common.Int.{
  ℤ, pos, negsuc, pos_part, neg_part, InRange, int16_half, narrow-int16, narrow-int8,
}
use libdynd.Parse.{
  Bytes, skip_whitespace, skip_required_whitespace, parse_char_no_ws, parse_4digit_int_no_ws,
  parse_6digit_int_no_ws,
}
use libdynd.Parse.Strings.{parse_alpha_name_no_ws}
use libdynd.Time.Text.{two_digits}
use libdynd.Time.TextRoundTrip.{two_digits_hour}
use libdynd.Date.{ymd, is_leap_year, is_valid}
use libdynd.Date.Month.{length_of-le}
use libdynd.Date.Split.{IsMonthDay, is_valid-IsMonthDay}
use libdynd.Date.Text.{year_digits, expanded_year_digits, month_day_text, year_text, to_str}
use libdynd.Date.Parser.{
  at_digit, ◌>>=◌, and_then, ◌or_else◌, matched, parse_str_weekday_no_ws,
  parse_ci_alpha_str_named_value_no_ws, no_digit_next, parse_month_day, parse_md, validated,
  parse_iso8601_year, parse_iso8601_dashes_date,
}
use libdynd.Date.Parser.Formats.{DateParseOrder}
use libdynd.Date.Parser.Whole.{
  skip_time, parse_date_formats, parse_date_behind, parse_date, string_to_date,
}

-- The size of a year, which its text has the digits of.
abbrev size : ℤ → ℕ
size year = pos_part year + neg_part year

small : (year : ℤ) → InRange int16_half year → size year < 1000000
small (pos n) h = omega arith
small (negsuc n) h = omega arith

year_digits-read :
    (n : ℕ) (s : Bytes) → n < 10000 → parse_4digit_int_no_ws (year_digits n ++ s) ≡ some (n, s)
unfolding parse_4digit_int_no_ws year_digits
year_digits-read n s h = ground arith

expanded_year_digits-read :
    (n : ℕ) (s : Bytes)
    → n < 1000000
    → parse_6digit_int_no_ws (expanded_year_digits n ++ s) ≡ some (n, s)
unfolding parse_6digit_int_no_ws expanded_year_digits
expanded_year_digits-read n s h = ground arith

parse_md-month_day_text :
    (m d : ℕ) (r : Bytes)
    → m < 100
    → d < 100
    → at_digit r ≡ false
    → parse_md b'-' (month_day_text m d ++ r) ≡ matched (m, (d, r))
unfolding parse_md parse_month_day parse_char_no_ws month_day_text no_digit_next two_digits ◌>>=◌
parse_md-month_day_text m d r hm hd apart =
    rw (two_digits_hour m (b'-' ∷ (two_digits d ++ r)) hm)
      (rw (two_digits_hour d r hd) (rw apart refl))

parse_iso8601_year-year_digits :
    (n : ℕ) (s : Bytes) → n < 10000 → parse_iso8601_year (year_digits n ++ s) ≡ some (pos n, s)
unfolding parse_iso8601_year parse_char_no_ws year_digits
parse_iso8601_year-year_digits n s h = ground (arith, year_digits-read n s h)

parse_iso8601_year-expanded :
    (n : ℕ) (s : Bytes)
    → n < 1000000
    → parse_iso8601_year (b'+' ∷ (expanded_year_digits n ++ s)) ≡ some (pos n, s)
unfolding parse_iso8601_year parse_char_no_ws
parse_iso8601_year-expanded n s h = ground (arith, expanded_year_digits-read n s h)

parse_iso8601_year-negative :
    (n : ℕ) (s : Bytes)
    → suc n < 1000000
    → parse_iso8601_year (b'-' ∷ (expanded_year_digits (suc n) ++ s)) ≡ some (negsuc n, s)
unfolding parse_iso8601_year parse_char_no_ws
parse_iso8601_year-negative n s h = ground (arith, expanded_year_digits-read (suc n) s h)

parse_iso8601_year-year_text :
    (year : ℤ) (s : Bytes)
    → size year < 1000000
    → parse_iso8601_year (year_text year ++ s) ≡ some (year, s)
unfolding parse_iso8601_year year_text parse_char_no_ws
parse_iso8601_year-year_text (pos n) s h =
    by_test (λ (text : Bytes). parse_iso8601_year (text ++ s) ≡ some (pos n, s))
      (leb 1 (n + 0) && leb (n + 0) 9999) (λ e. parse_iso8601_year-year_digits n s (ground arith))
      (λ e.
        by_test (λ (text : Bytes). parse_iso8601_year (text ++ s) ≡ some (pos n, s)) (leb 0 (n + 0))
          (λ f. parse_iso8601_year-expanded n s (omega arith)) (λ f. absurd (ground arith)))
parse_iso8601_year-year_text (negsuc n) s h = ground (arith, parse_iso8601_year-negative n s)

-- The text of a year begins neither with a letter nor with white space.
parse_str_weekday_no_ws-year_text :
    (year : ℤ) (s : Bytes)
    → size year < 1000000
    → parse_str_weekday_no_ws (year_text year ++ s) ≡ none
unfolding parse_str_weekday_no_ws parse_ci_alpha_str_named_value_no_ws parse_alpha_name_no_ws
    year_text year_digits expanded_year_digits
parse_str_weekday_no_ws-year_text (pos n) s h = ground arith
parse_str_weekday_no_ws-year_text (negsuc n) s h = ground arith

skip_whitespace-year_text :
    (year : ℤ) (s : Bytes)
    → size year < 1000000
    → skip_whitespace (year_text year ++ s) ≡ year_text year ++ s
unfolding skip_whitespace year_text year_digits expanded_year_digits
skip_whitespace-year_text (pos n) s h = ground arith
skip_whitespace-year_text (negsuc n) s h = ground arith

validated-valid :
    (year : ℤ) (m d : ℕ) (s : Bytes)
    → InRange int16_half year
    → m < 128
    → d < 128
    → is_valid year (pos m) (pos d) ≡ true
    → validated year m d s ≡ matched (ymd year (pos m) (pos d), s)
unfolding validated
validated-valid year m d s range hm hd v = rw v (
    cc (
      narrow-int16 year range,
      narrow-int8 (pos m) (omega arith),
      narrow-int8 (pos d) (omega arith),
    ))

parse_iso8601_dashes_date-text :
    (year : ℤ) (m d : ℕ) (r : Bytes)
    → InRange int16_half year
    → m < 100
    → d < 100
    → at_digit r ≡ false
    → is_valid year (pos m) (pos d) ≡ true
    → parse_iso8601_dashes_date (year_text year ++ (month_day_text m d ++ r))
      ≡ matched (ymd year (pos m) (pos d), r)
unfolding parse_iso8601_dashes_date ◌>>=◌ and_then
parse_iso8601_dashes_date-text year m d r range hm hd apart v =
    rw (parse_iso8601_year-year_text year (month_day_text m d ++ r) (small year range)) (
      rw (parse_md-month_day_text m d r hm hd apart)
        (validated-valid year m d r range (omega arith) (omega arith) v))

parse_date-text :
    (rawtime : ℤ) (ambig : DateParseOrder) (window year : ℤ) (m d : ℕ) (r : Bytes)
    → InRange int16_half year
    → m < 100
    → d < 100
    → at_digit r ≡ false
    → is_valid year (pos m) (pos d) ≡ true
    → parse_date rawtime ambig window (year_text year ++ (month_day_text m d ++ r))
      ≡ matched (ymd year (pos m) (pos d), r)
unfolding parse_date parse_date_behind parse_date_formats ◌or_else◌
parse_date-text rawtime ambig window year m d r range hm hd apart v =
    rw (parse_str_weekday_no_ws-year_text year (month_day_text m d ++ r) (small year range))
      (rw (parse_iso8601_dashes_date-text year m d r range hm hd apart v) refl)

to_str-year_text :
    (year : ℤ) (m d : ℕ) (r : Bytes)
    → is_valid year (pos m) (pos d) ≡ true
    → to_str year (pos m) (pos d) ++ r ≡ year_text year ++ (month_day_text m d ++ r)
unfolding to_str
to_str-year_text year m d r v = rw v (append_assoc (year_text year) (month_day_text m d) r)

-- What the text of a valid date comes to, and what the parsers need of it.
pub record ReadsBack (year month day : ℤ) (r : Bytes) : Type 0 where
  pub starts : skip_whitespace (to_str year month day ++ r) ≡ to_str year month day ++ r
  pub reads :
      (rawtime : ℤ) (ambig : DateParseOrder) (window : ℤ)
      → parse_date rawtime ambig window (to_str year month day ++ r)
        ≡ matched (ymd year month day, r)

ReadsBack-fields :
    (year : ℤ) (m d : ℕ) (r : Bytes)
    → InRange int16_half year
    → m < 100
    → d < 100
    → at_digit r ≡ false
    → is_valid year (pos m) (pos d) ≡ true
    → ReadsBack year (pos m) (pos d) r
ReadsBack-fields year m d r range hm hd apart v =
    let e : to_str year (pos m) (pos d) ++ r ≡ year_text year ++ (month_day_text m d ++ r) =
      to_str-year_text year m d r v in
    record {
      starts = rw e (skip_whitespace-year_text year (month_day_text m d ++ r) (small year range));
      reads = λ rawtime ambig window.
          rw e (parse_date-text rawtime ambig window year m d r range hm hd apart v);
    }

-- The text of a valid date is read back, with anything behind it that does not begin with a digit.
pub to_str-ReadsBack :
    (year month day : ℤ) (r : Bytes)
    → InRange int16_half year
    → is_valid year month day ≡ true
    → at_digit r ≡ false
    → ReadsBack year month day r
to_str-ReadsBack year month day r range valid apart =
    let p : IsMonthDay year month day = is_valid-IsMonthDay year month day valid in
    let m : ℕ = suc p.month_from_0 in
    let d : ℕ = suc p.day_from_0 in
    let short : p.day_from_0 < 31 =
      omega (arith, p.day_in, length_of-le (is_leap_year year) p.month_from_0 p.month_in) in
    let v : is_valid year (pos m) (pos d) ≡ true = cc (p.month_eq, p.day_eq, valid) in
    subst (λ k. ReadsBack year k day r) (sym p.month_eq)
      (subst (λ k. ReadsBack year (pos m) k r) (sym p.day_eq)
        (ReadsBack-fields year m d r range (omega (arith, p.month_in)) (omega (arith, short)) apart
          v))

string_to_date-ReadsBack :
    (rawtime : ℤ) (ambig : DateParseOrder) (window : ℤ) (nocheck : Bool) (year month day : ℤ)
    → ReadsBack year month day []
    → string_to_date rawtime ambig window nocheck (to_str year month day)
      ≡ matched (ymd year month day)
unfolding string_to_date and_then skip_time parse_char_no_ws skip_required_whitespace
    skip_whitespace
string_to_date-ReadsBack rawtime ambig window nocheck year month day b =
    subst (λ s. string_to_date rawtime ambig window nocheck s ≡ matched (ymd year month day))
      (append-nil (to_str year month day))
      (rw b.starts (rw (b.reads rawtime ambig window) (ground arith)))

-- Every valid date whose year fits the 16-bit field is read back from its text, with any order of
-- ambiguous dates, any window of centuries and any mode of errors.
pub string_to_date-to_str :
    (rawtime : ℤ) (ambig : DateParseOrder) (century_window : ℤ) (nocheck : Bool)
    (year month day : ℤ)
    → InRange int16_half year
    → is_valid year month day ≡ true
    → string_to_date rawtime ambig century_window nocheck (to_str year month day)
      ≡ matched (ymd year month day)
string_to_date-to_str rawtime ambig century_window nocheck year month day range valid =
    string_to_date-ReadsBack rawtime ambig century_window nocheck year month day
      (to_str-ReadsBack year month day [] range valid refl)
