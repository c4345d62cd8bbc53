-- ===== src/Date/Parser/Valid.antt =====
-- What `parse_date` and `string_to_date` accept: a date that is valid but for the width of its year.
use libdynd.Common.{ℕ, ◌≡◌, subst, Bool, Option, none, some, if◌then◌else◌}
use libdynd.Common.Int.{ℤ, pos, eqb_ℤ}
use libdynd.Parse.{Bytes, skip_whitespace}
use libdynd.Date.{DateYmd, get_weekday}
use libdynd.Date.Parser.{Match, matched, no_match}
use libdynd.Date.Parser.Formats.{DateParseOrder, skip_comma}
use libdynd.Date.Parser.Whole.{
  any_separator, parse_date_formats, check_weekday, parse_date_behind, parse_date, skip_time,
  is_empty, string_to_date,
}
use libdynd.Date.Parser.Accepted.{
  All, All-or_else, All-if, All-matched, All-no_match, All-and_then_of, IsNarrowed, Accepted,
  parse_iso8601_dashes_date-Accepted, parse_iso8601_nodashes_date-Accepted,
  parse_ymd_sep_date-Accepted, parse_mdy_ambig_sep_date-Accepted, parse_dmy_ambig_sep_date-Accepted,
  parse_dmy_str_month_sep_date-Accepted, parse_dmy_str_month_ws_date-Accepted,
  parse_mdy_long_format_date-Accepted,
}

any_separator-Accepted :
    (format : ℕ → Match (DateYmd × Bytes))
    → ((sep : ℕ) → All Accepted (format sep))
    → All Accepted (any_separator format)
unfolding any_separator
any_separator-Accepted format h = All-or_else _ _ _ (h _) (All-or_else _ _ _ (h _) (h _))

-- A format that is tried in one order of ambiguous dates only.
if_ambig-Accepted :
    (b : Bool) (format : ℕ → Match (DateYmd × Bytes))
    → ((sep : ℕ) → All Accepted (format sep))
    → All Accepted (if b then any_separator format else no_match)
if_ambig-Accepted b format h =
    All-if Accepted b _ _ (any_separator-Accepted format h) (All-no_match Accepted)

parse_date_formats-Accepted :
    (rawtime : ℤ) (ambig : DateParseOrder) (window : ℤ) (s : Bytes)
    → All Accepted (parse_date_formats rawtime ambig window s)
unfolding parse_date_formats
parse_date_formats-Accepted rawtime ambig window s =
    All-or_else _ _ _ (parse_iso8601_dashes_date-Accepted s) (
      All-or_else _ _ _ (parse_iso8601_nodashes_date-Accepted s) (
        All-or_else _ _ _
          (any_separator-Accepted _ (λ sep. parse_ymd_sep_date-Accepted rawtime sep ambig window s))
          (All-or_else _ _ _
            (any_separator-Accepted _
              (λ sep. parse_dmy_str_month_sep_date-Accepted rawtime sep ambig window s))
            (All-or_else _ _ _ (parse_dmy_str_month_ws_date-Accepted rawtime ambig window s) (
              All-or_else _ _ _ (parse_mdy_long_format_date-Accepted rawtime window s) (
                All-or_else _ _ _
                  (if_ambig-Accepted _ _
                    (λ sep. parse_mdy_ambig_sep_date-Accepted rawtime sep window s))
                  (if_ambig-Accepted _ _
                    (λ sep. parse_dmy_ambig_sep_date-Accepted rawtime sep window s))))))))

check_weekday-Accepted :
    (weekday : ℕ) (read : DateYmd × Bytes)
    → Accepted read
    → All Accepted (check_weekday weekday read)
unfolding check_weekday
check_weekday-Accepted weekday read h =
    All-if Accepted (eqb_ℤ (get_weekday read.0) (pos weekday)) _ _ (All-matched Accepted read h)
      (All-no_match Accepted)

parse_date_behind-Accepted :
    (rawtime : ℤ) (ambig : DateParseOrder) (window : ℤ) (s : Bytes) (weekday : Option (ℕ × Bytes))
    → All Accepted (parse_date_behind rawtime ambig window s weekday)
unfolding parse_date_behind
parse_date_behind-Accepted rawtime ambig window s (some weekday) =
    All-and_then_of Accepted _ _ _
      (parse_date_formats-Accepted rawtime ambig window (skip_comma weekday.1))
      (λ read h. check_weekday-Accepted weekday.0 read h)
parse_date_behind-Accepted rawtime ambig window s none =
    parse_date_formats-Accepted rawtime ambig window s

string_to_date-All :
    (rawtime : ℤ) (ambig : DateParseOrder) (window : ℤ) (nocheck : Bool) (s : Bytes)
    → All IsNarrowed (string_to_date rawtime ambig window nocheck s)
unfolding string_to_date parse_date
string_to_date-All rawtime ambig window nocheck s =
    All-and_then_of Accepted _ _ _
      (parse_date_behind-Accepted rawtime ambig window (skip_whitespace s) _)
      (λ read h. All-if IsNarrowed nocheck _ _ (All-matched IsNarrowed read.0 h) (
        All-if IsNarrowed (is_empty (skip_whitespace (skip_time read.1))) _ _
          (All-matched IsNarrowed read.0 h) (All-no_match IsNarrowed)))

-- A date that is read from a text, in whatever format, is a valid date, of which the year alone may
-- have wrapped around in its 16-bit field.
pub string_to_date-IsNarrowed :
    (rawtime : ℤ) (ambig : DateParseOrder) (century_window : ℤ) (nocheck : Bool) (s : Bytes)
    (date : DateYmd)
    → string_to_date rawtime ambig century_window nocheck s ≡ matched date
    → IsNarrowed date
string_to_date-IsNarrowed rawtime ambig century_window nocheck s date e =
    unfold All in
    subst (All IsNarrowed) e (string_to_date-All rawtime ambig century_window nocheck s)
