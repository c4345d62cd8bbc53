-- ===== src/Date/Parser.antt =====
-- The parser of dates, src/dynd/types/date_parser.cpp: the names of months and weekdays, the parts
-- that the formats share, and the two formats of ISO 8601. Formats has the others and Whole the
-- entry points. A parser that moves `begin` and returns true gives back the bytes that are left;
-- `saved_begin_state` puts `begin` back on every failure, which is `no_match`.
pub mod Formats
pub mod Whole
pub mod Accepted
pub mod Valid
mod Tests
use libdynd.Common.{
  ℕ, ◌+◌, ◌-◌, Bool, true, false, not, ◌&&◌, Option, none, some, List, [], ◌∷◌, leb, ltb, ◌==◌,
  if◌then◌else◌, codes,
}
use libdynd.Common.Int.{ℤ, pos, neg_ℤ, narrow, int8_half, int16_half}
use libdynd.Parse.{
  Bytes, is_digit, parse_char_no_ws, parse_1or2digit_int_no_ws, parse_2digit_int_no_ws,
  parse_4digit_int_no_ws, parse_6digit_int_no_ws,
}
use libdynd.Parse.Strings.{parse_alpha_name_no_ws}
use libdynd.Date.{DateYmd, is_valid}

-- What a parser comes to; `invalid_argument` is the exception of `resolve_2digit_year`.
pub data Match {ℓ} (A : Type ℓ) : Type ℓ where
  matched : A → Match A
  no_match : Match A
  invalid_argument : Match A

-- A step of a format: its failure is the failure of the format.
infixl 5 ◌>>=◌
unfoldable pub ◌>>=◌ {ℓ κ} : {A : Type ℓ} {B : Type κ} → Option A → (A → Match B) → Match B
none >>= f = no_match
some a >>= f = f a

unfoldable pub and_then {ℓ κ} : {A : Type ℓ} {B : Type κ} → Match A → (A → Match B) → Match B
and_then (matched a) f = f a
and_then no_match f = no_match
and_then invalid_argument f = invalid_argument

-- `||` of two formats.
infixr 4 ◌or_else◌
unfoldable pub ◌or_else◌ {ℓ} : {A : Type ℓ} → Match A → Match A → Match A
matched a or_else y = matched a
no_match or_else y = y
invalid_argument or_else y = invalid_argument

abbrev pub first_of {ℓ} : {A : Type ℓ} → Option A → Option A → Option A
first_of (some a) y = some a
first_of none y = y

-- `DYND_TOLOWER`, in the C locale.
abbrev pub tolower : ℕ → ℕ
tolower c = if leb b'A' c && leb c b'Z' then c + 32 else c

-- Whether a name of a table, which is in lower case, is the text in any case.
unfoldable pub same_name : Bytes → Bytes → Bool
same_name [] [] = true
same_name [] (c ∷ s) = false
same_name (n ∷ name) [] = false
same_name (n ∷ name) (c ∷ s) = (n == tolower c) && same_name name s

unfoldable pub find_name : List (Bytes × ℕ) → Bytes → Option ℕ
find_name [] text = none
find_name (row ∷ table) text = if same_name row.0 text then some row.1 else find_name table text

unfoldable pub parse_ci_alpha_str_named_value_no_ws : List (Bytes × ℕ) → Bytes → Option (ℕ × Bytes)
parse_ci_alpha_str_named_value_no_ws table s = elim (parse_alpha_name_no_ws s) [
  | none ↦ none
  | some read ↦ elim (find_name table read.0) [ none ↦ none | some value ↦ some (value, read.1) ]
]

abbrev pub named_month_table : List (Bytes × ℕ)
named_month_table =
    (codes "apr", 16)
    ∷ (codes "april", 4)
    ∷ (codes "aug", 20)
    ∷ (codes "august", 8)
    ∷ (codes "dec", 24)
    ∷ (codes "december", 12)
    ∷ (codes "feb", 14)
    ∷ (codes "february", 2)
    ∷ (codes "jan", 13)
    ∷ (codes "january", 1)
    ∷ (codes "jul", 19)
    ∷ (codes "july", 7)
    ∷ (codes "jun", 18)
    ∷ (codes "june", 6)
    ∷ (codes "mar", 15)
    ∷ (codes "march", 3)
    ∷ (codes "may", 5)
    ∷ (codes "nov", 23)
    ∷ (codes "november", 11)
    ∷ (codes "oct", 22)
    ∷ (codes "october", 10)
    ∷ (codes "sep", 21)
    ∷ (codes "sept", 21)
    ∷ (codes "september", 9)
    ∷ []

abbrev pub named_weekday_table : List (Bytes × ℕ)
named_weekday_table =
    (codes "fri", 4)
    ∷ (codes "friday", 4)
    ∷ (codes "mon", 0)
    ∷ (codes "monday", 0)
    ∷ (codes "sat", 5)
    ∷ (codes "saturday", 5)
    ∷ (codes "sun", 6)
    ∷ (codes "sunday", 6)
    ∷ (codes "thu", 3)
    ∷ (codes "thursday", 3)
    ∷ (codes "tue", 1)
    ∷ (codes "tuesday", 1)
    ∷ (codes "wed", 2)
    ∷ (codes "wednesday", 2)
    ∷ []

unfoldable pub parse_str_month_no_ws : Bytes → Option (ℕ × Bytes)
parse_str_month_no_ws s = elim (parse_ci_alpha_str_named_value_no_ws named_month_table s) [
  | none ↦ none
  | some read ↦ if ltb 12 read.0 then some (read.0 - 12, read.1) else some read
]

-- A period may follow an abbreviation.
unfoldable pub skip_period : Bytes → Bytes
skip_period s = elim (parse_char_no_ws b'.' s) [ none ↦ s | some rest ↦ rest ]

unfoldable pub parse_str_month_punct_no_ws : Bytes → Option (ℕ × Bytes)
parse_str_month_punct_no_ws s = elim (parse_ci_alpha_str_named_value_no_ws named_month_table s) [
  | none ↦ none
  | some read ↦ if ltb 12 read.0 then some (read.0 - 12, skip_period read.1) else some read
]

unfoldable pub parse_str_weekday_no_ws : Bytes → Option (ℕ × Bytes)
parse_str_weekday_no_ws s = parse_ci_alpha_str_named_value_no_ws named_weekday_table s

-- `begin < end && isdigit(begin[0])`
abbrev pub at_digit : Bytes → Bool
at_digit [] = false
at_digit (c ∷ s) = is_digit c

-- "Don't match if the next character is another digit"
unfoldable pub no_digit_next : ℕ × Bytes → Option (ℕ × Bytes)
no_digit_next read = if at_digit read.1 then none else some read

-- sMMsDD and sMMMsDD, by the parser of the month: the month, the day, and what is left.
unfoldable pub parse_month_day : (Bytes → Option (ℕ × Bytes)) → ℕ → Bytes → Match (ℕ × (ℕ × Bytes))
parse_month_day parse_month sep s = parse_char_no_ws sep s >>= λ s1. parse_month s1 >>= λ month.
    parse_char_no_ws sep month.1 >>= λ s2. parse_1or2digit_int_no_ws s2 >>= λ read.
    no_digit_next read >>= λ day. matched (month.0, (day.0, day.1))

unfoldable pub parse_md : ℕ → Bytes → Match (ℕ × (ℕ × Bytes))
parse_md sep s = parse_month_day parse_1or2digit_int_no_ws sep s

unfoldable pub parse_md_str_month : ℕ → Bytes → Match (ℕ × (ℕ × Bytes))
parse_md_str_month sep s = parse_month_day parse_str_month_no_ws sep s

-- "Validate and return the date", the end of every format.
unfoldable pub validated : ℤ → ℕ → ℕ → Bytes → Match (DateYmd × Bytes)
validated year month day s =
    if is_valid year (pos month) (pos day)
    then matched (
      record {
        year = narrow int16_half year;
        month = narrow int8_half (pos month);
        day = narrow int8_half (pos day);
      },
      s,
    )
    else no_match

-- The year of `parse_iso8601_dashes_date`: YYYY, +YYYYYY, or -YYYYYY.
unfoldable pub parse_iso8601_year : Bytes → Option (ℤ × Bytes)
parse_iso8601_year s = elim (parse_char_no_ws b'-' s) [
  | some rest ↦ elim (parse_6digit_int_no_ws rest) [
    | none ↦ none
    | some year ↦ some (neg_ℤ (pos year.0), year.1)
  ]
  | none ↦ elim (parse_char_no_ws b'+' s) [
    | some rest ↦ elim (parse_6digit_int_no_ws rest) [
      | none ↦ none
      | some year ↦ some (pos year.0, year.1)
    ]
    | none ↦ elim (parse_4digit_int_no_ws s) [ none ↦ none | some year ↦ some (pos year.0, year.1) ]
  ]
]

unfoldable pub parse_iso8601_dashes_date : Bytes → Match (DateYmd × Bytes)
parse_iso8601_dashes_date s = parse_iso8601_year s >>= λ year.
    and_then (parse_md b'-' year.1) (λ md. validated year.0 md.0 md.1.0 md.1.1)

-- YYYYMMDD
unfoldable pub parse_iso8601_nodashes_date : Bytes → Match (DateYmd × Bytes)
parse_iso8601_nodashes_date s = parse_4digit_int_no_ws s >>= λ year.
    parse_2digit_int_no_ws year.1 >>= λ month. parse_2digit_int_no_ws month.1 >>= λ read.
    no_digit_next read >>= λ day. validated (pos year.0) month.0 day.0 day.1
