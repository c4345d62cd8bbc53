-- ===== src/Time/TextRoundTrip.antt =====
-- Every valid time is read back from its text.
use libdynd.Common.{
  ℕ, zero, suc, ◌≤◌, ◌<◌, ◌≡◌, ◌≢◌, refl, arith, true, none, some, [], ◌∷◌, ◌++◌, ◌==◌,
  if◌then◌else◌, ◌&&◌,
}
use libdynd.Common.Int.{ℤ, pos, narrow}
use libdynd.Parse.{
  Bytes, skip_whitespace, parse_token_no_ws, parse_token, parse_char_no_ws, parse_2digit_int_no_ws,
  parse_1or2digit_int_no_ws,
}
use libdynd.Time.{hmst, ticks_per_second, is_valid}
use libdynd.Time.Fraction.{fraction_text, parse_ticks-fraction_text}
use libdynd.Time.Text.{two_digits, fields_to_str, to_str}
use libdynd.Time.Ticks.{IsTime, is_valid-IsTime, IsTime-is_valid}
use libdynd.Time.Parser.{
  parse_any_token, parse_time_ampm, parse_separator, finish_time, parse_fraction, parse_seconds,
  parse_flex_time, parse_time_no_tz, parse_zone, parse_timezone, parse_time, string_to_time,
}

pub two_digits_hour :
    (n : ℕ) (s : Bytes) → n < 100 → parse_1or2digit_int_no_ws (two_digits n ++ s) ≡ some (n, s)
unfolding parse_1or2digit_int_no_ws two_digits
two_digits_hour n s h = ground arith

two_digits_part :
    (n : ℕ) (s : Bytes) → n < 100 → parse_2digit_int_no_ws (two_digits n ++ s) ≡ some (n, s)
unfolding parse_2digit_int_no_ws two_digits
two_digits_part n s h = ground arith

finish_time_end :
    (h m s t : ℕ)
    → h < 24
    → m < 60
    → s ≤ 60
    → t < ticks_per_second
    → finish_time h m s t [] ≡ some (hmst (pos h) (pos m) (pos s) (pos t), [])
unfolding finish_time parse_time_ampm parse_any_token parse_token parse_token_no_ws skip_whitespace
    narrow
finish_time_end h m s t hh hm hs ht = rw (IsTime-is_valid h m s t hh hm hs ht) (ground arith)

-- What stands behind the minutes.
tail_text : ℕ → ℕ → Bytes
unfolding fraction_text
tail_text second tick =
    if (second == 0) && (tick == 0)
    then []
    else b':' ∷ (two_digits second ++ (if tick == 0 then [] else b'.' ∷ fraction_text tick))

parse_fraction-end :
    (h m s : ℕ)
    → h < 24
    → m < 60
    → s ≤ 60
    → parse_fraction h m s [] ≡ some (hmst (pos h) (pos m) (pos s) (pos 0), [])
unfolding parse_fraction parse_separator parse_char_no_ws
parse_fraction-end h m s hh hm hs = finish_time_end h m s 0 hh hm hs (omega arith)

parse_fraction-text :
    (h m s t : ℕ)
    → h < 24
    → m < 60
    → s ≤ 60
    → t < ticks_per_second
    → t ≢ 0
    → parse_fraction h m s (b'.' ∷ fraction_text t)
      ≡ some (hmst (pos h) (pos m) (pos s) (pos t), [])
unfolding parse_fraction parse_separator parse_char_no_ws
parse_fraction-text h m s t hh hm hs ht ne =
    rw (parse_ticks-fraction_text t ne ht) (finish_time_end h m s t hh hm hs ht)

parse_seconds-colon :
    (h m s : ℕ) (r : Bytes)
    → s ≤ 60
    → parse_seconds h m (b':' ∷ (two_digits s ++ r)) ≡ parse_fraction h m s r
unfolding parse_seconds parse_separator parse_char_no_ws
parse_seconds-colon h m s r hs = rw (two_digits_part s r (omega arith))

parse_seconds-end :
    (h m : ℕ)
    → h < 24
    → m < 60
    → parse_seconds h m [] ≡ some (hmst (pos h) (pos m) (pos 0) (pos 0), [])
unfolding parse_seconds parse_separator parse_char_no_ws
parse_seconds-end h m hh hm = finish_time_end h m 0 0 hh hm (omega arith) (omega arith)

parse_seconds-tail_text :
    (h m s t : ℕ)
    → h < 24
    → m < 60
    → s ≤ 60
    → t < ticks_per_second
    → parse_seconds h m (tail_text s t) ≡ some (hmst (pos h) (pos m) (pos s) (pos t), [])
unfolding tail_text
parse_seconds-tail_text h m zero zero hh hm hs ht = parse_seconds-end h m hh hm
parse_seconds-tail_text h m (suc s) zero hh hm hs ht =
    ground (arith, parse_seconds-colon h m (suc s) [] hs, parse_fraction-end h m (suc s) hh hm hs)
parse_seconds-tail_text h m s (suc t) hh hm hs ht =
    let f : Bytes = b'.' ∷ fraction_text (suc t) in
    let ne : suc t ≢ 0 = omega arith in
    ground (arith, parse_seconds-colon h m s f hs, parse_fraction-text h m s (suc t) hh hm hs ht ne)

fields_to_str-tail_text :
    (h m s t : ℕ) → fields_to_str h m s t ≡ two_digits h ++ (b':' ∷ (two_digits m ++ tail_text s t))
unfolding fields_to_str tail_text fraction_text
fields_to_str-tail_text h m s t = refl

parse_flex_time-fields_to_str :
    (h m s t : ℕ)
    → h < 24
    → m < 60
    → s ≤ 60
    → t < ticks_per_second
    → parse_flex_time (fields_to_str h m s t) ≡ some (hmst (pos h) (pos m) (pos s) (pos t), [])
unfolding parse_flex_time parse_separator parse_char_no_ws
parse_flex_time-fields_to_str h m s t hh hm hs ht = rw (fields_to_str-tail_text h m s t) (
    rw (two_digits_hour h (b':' ∷ (two_digits m ++ tail_text s t)) (omega arith)) (
      rw (two_digits_part m (tail_text s t) (omega arith))
        (parse_seconds-tail_text h m s t hh hm hs ht)))

-- The text begins with a digit, so no white space is skipped.
skip_whitespace-two_digits :
    (n : ℕ) (s : Bytes) → n < 100 → skip_whitespace (two_digits n ++ s) ≡ two_digits n ++ s
unfolding skip_whitespace two_digits
skip_whitespace-two_digits n s h = ground arith

parse_time-fields_to_str :
    (h m s t : ℕ)
    → h < 24
    → m < 60
    → s ≤ 60
    → t < ticks_per_second
    → parse_time (fields_to_str h m s t) ≡ some (hmst (pos h) (pos m) (pos s) (pos t), none, [])
unfolding parse_time parse_time_no_tz parse_timezone skip_whitespace parse_zone
parse_time-fields_to_str h m s t hh hm hs ht =
    rw (parse_flex_time-fields_to_str h m s t hh hm hs ht)

skip_whitespace-fields_to_str :
    (h m s t : ℕ) → h < 24 → skip_whitespace (fields_to_str h m s t) ≡ fields_to_str h m s t
skip_whitespace-fields_to_str h m s t hh =
    rw (fields_to_str-tail_text h m s t)
      (skip_whitespace-two_digits h (b':' ∷ (two_digits m ++ tail_text s t)) (omega arith))

to_str-fields :
    (h m s t : ℕ)
    → h < 24
    → m < 60
    → s ≤ 60
    → t < ticks_per_second
    → to_str (pos h) (pos m) (pos s) (pos t) ≡ fields_to_str h m s t
unfolding to_str
to_str-fields h m s t hh hm hs ht = rw (IsTime-is_valid h m s t hh hm hs ht) refl

-- The text of a valid time is read as that time.
pub parse_time-to_str :
    (hour minute second tick : ℤ)
    → is_valid hour minute second tick ≡ true
    → parse_time (to_str hour minute second tick) ≡ some (hmst hour minute second tick, none, [])
parse_time-to_str hour minute second tick v =
    let p : IsTime hour minute second tick = is_valid-IsTime hour minute second tick v in
    cc (
      p.hour_eq,
      p.minute_eq,
      p.second_eq,
      p.tick_eq,
      to_str-fields p.h p.m p.s p.t p.h_in p.m_in p.s_in p.t_in,
      parse_time-fields_to_str p.h p.m p.s p.t p.h_in p.m_in p.s_in p.t_in,
    )

pub skip_whitespace-to_str :
    (hour minute second tick : ℤ)
    → is_valid hour minute second tick ≡ true
    → skip_whitespace (to_str hour minute second tick) ≡ to_str hour minute second tick
skip_whitespace-to_str hour minute second tick v =
    let p : IsTime hour minute second tick = is_valid-IsTime hour minute second tick v in
    cc (
      p.hour_eq,
      p.minute_eq,
      p.second_eq,
      p.tick_eq,
      to_str-fields p.h p.m p.s p.t p.h_in p.m_in p.s_in p.t_in,
      skip_whitespace-fields_to_str p.h p.m p.s p.t p.h_in,
    )

-- Every valid time, a leap second too, is read back from its text, with no time zone.
pub string_to_time-to_str :
    (hour minute second tick : ℤ)
    → is_valid hour minute second tick ≡ true
    → string_to_time (to_str hour minute second tick) ≡ some (hmst hour minute second tick, none)
unfolding string_to_time
string_to_time-to_str hour minute second tick v =
    rw (skip_whitespace-to_str hour minute second tick v)
      (rw (parse_time-to_str hour minute second tick v) (unfold skip_whitespace in refl))
