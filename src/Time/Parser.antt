-- ===== src/Time/Parser.antt =====
-- The parser of times, src/dynd/types/time_parser.cpp.
use libdynd.Common.{
  ℕ, zero, suc, ◌+◌, ◌-◌, ◌*◌, Bool, false, not, ◌&&◌, ◌||◌, Option, none, some, List, [], ◌∷◌,
  ◌++◌, ltb, ◌==◌, if◌then◌else◌, codes,
}
use libdynd.Common.Int.{ℤ, pos, negsuc, narrow, int8_half, int32_half}
use libdynd.Parse.{
  Bytes, is_digit, is_alpha, skip_whitespace, parse_token, parse_char_no_ws, parse_2digit_int_no_ws,
  parse_1or2digit_int_no_ws,
}
use libdynd.Time.{TimeHmst, hmst, is_valid}

infixl 5 ◌>>=◌
abbrev ◌>>=◌ {ℓ κ} : {A : Type ℓ} {B : Type κ} → Option A → (A → Option B) → Option B
none >>= f = none
some a >>= f = f a

abbrev or_else {ℓ} : {A : Type ℓ} → Option A → Option A → Option A
or_else (some a) b = some a
or_else none b = b

-- Tries the tokens in turn.
unfoldable pub parse_any_token : List Bytes → Bytes → Option Bytes
parse_any_token [] s = none
parse_any_token (t ∷ ts) s = or_else (parse_token t s) (parse_any_token ts s)

abbrev pub am_tokens : List Bytes
am_tokens = codes "AM" ∷ codes "am" ∷ codes "A.M." ∷ codes "a.m." ∷ codes "a" ∷ []

abbrev pub pm_tokens : List Bytes
pm_tokens = codes "PM" ∷ codes "pm" ∷ codes "P.M." ∷ codes "p.m." ∷ codes "p" ∷ []

-- The hour after an indicator: between 1 and 12 before it, or -1 to invalidate it.
abbrev am_hour : ℕ → ℤ
am_hour hour = if hour == 12 then pos 0 else pos hour

abbrev pm_hour : ℕ → ℤ
pm_hour hour = if ltb hour 12 then pos (hour + 12) else pos hour

-- The hour as it is left, and the bytes left: those after the indicator, or all of them where there
-- is no indicator or the hour does not fit it. Every caller ignores the result, and the hour that
-- it hands over comes from two digits.
unfoldable pub parse_time_ampm : Bytes → ℕ → ℤ × Bytes
parse_time_ampm s hour = elim (parse_any_token am_tokens (skip_whitespace s)) [
  | some rest ↦ if ltb hour 1 || ltb 12 hour then (negsuc 0, s) else (am_hour hour, rest)
  | none ↦ elim (parse_any_token pm_tokens (skip_whitespace s)) [
    | some rest ↦ if ltb hour 1 || ltb 12 hour then (negsuc 0, s) else (pm_hour hour, rest)
    | none ↦ (pos hour, s)
  ]
]

-- The separators '.' and ':'.
unfoldable pub parse_separator : Bytes → Option Bytes
parse_separator s = or_else (parse_char_no_ws b'.' s) (parse_char_no_ws b':' s)

-- What ends each of the three forms: the indicator, and the validity test.
unfoldable pub finish_time : ℕ → ℕ → ℕ → ℕ → Bytes → Option (TimeHmst × Bytes)
finish_time hour minute second tick s =
    let after = parse_time_ampm s hour in
    if is_valid after.0 (pos minute) (pos second) (pos tick)
    then some (
      hmst (narrow int8_half after.0) (narrow int8_half (pos minute))
          (narrow int8_half (pos second)) (narrow int32_half (pos tick)),
      after.1,
    )
    else none

-- The rounds `for (int i = 1; i < 7; ++i)` that are left, and the tick so far.
unfoldable pub tick_rounds : ℕ → ℕ → Bytes → ℕ × Bytes
tick_rounds zero tick s = (tick, s)
tick_rounds (suc left) tick [] = tick_rounds left (tick * 10) []
tick_rounds (suc left) tick (c ∷ s) =
    let digit = tick_rounds left (tick * 10 + (c - b'0')) s in
    let other = tick_rounds left (tick * 10) (c ∷ s) in if is_digit c then digit else other

unfoldable pub skip_digits : Bytes → Bytes
skip_digits [] = []
skip_digits (c ∷ s) = if is_digit c then skip_digits s else c ∷ s

unfoldable pub parse_ticks : Bytes → Option (ℕ × Bytes)
parse_ticks [] = none
parse_ticks (c ∷ s) =
    if is_digit c
    then (let read = tick_rounds 6 (c - b'0') s in some (read.0, skip_digits read.1))
    else none

-- The part behind the seconds.
unfoldable pub parse_fraction : ℕ → ℕ → ℕ → Bytes → Option (TimeHmst × Bytes)
parse_fraction hour minute second s = elim (parse_separator s) [
  | none ↦ finish_time hour minute second 0 s
  | some r ↦ parse_ticks r >>= λ read. finish_time hour minute second read.0 read.1
]

-- The part behind the minutes.
unfoldable pub parse_seconds : ℕ → ℕ → Bytes → Option (TimeHmst × Bytes)
parse_seconds hour minute s = elim (parse_separator s) [
  | none ↦ finish_time hour minute 0 0 s
  | some r ↦ parse_2digit_int_no_ws r >>= λ read. parse_fraction hour minute read.0 read.1
]

unfoldable pub parse_flex_time : Bytes → Option (TimeHmst × Bytes)
parse_flex_time s = parse_1or2digit_int_no_ws s >>= λ h.
    parse_separator h.1 >>= λ r. parse_2digit_int_no_ws r >>= λ m. parse_seconds h.0 m.0 m.1

unfoldable pub parse_time_no_tz : Bytes → Option (TimeHmst × Bytes)
parse_time_no_tz s = parse_flex_time s

-- The bytes of a name of a time zone, and what is left.
unfoldable pub take_zone_name : Bytes → Bytes × Bytes
take_zone_name [] = ([], [])
take_zone_name (c ∷ s) =
    let more = take_zone_name s in
    if is_alpha c || (c == b'/') then (c ∷ more.0, more.1) else ([], c ∷ s)

abbrev starts_with_digit : Bytes → Bool
starts_with_digit [] = false
starts_with_digit (c ∷ s) = is_digit c

-- The minutes of an offset behind its sign, hours and colon, which are the bytes `tz`.
unfoldable pub parse_offset_minutes : Bytes → Bytes → Option (Bytes × Bytes)
parse_offset_minutes tz [] = none
parse_offset_minutes tz (a ∷ []) = none
parse_offset_minutes tz (a ∷ b ∷ s) =
    if is_digit a && is_digit b && not (starts_with_digit s)
    then some (tz ++ (a ∷ b ∷ []), s)
    else none

-- What follows the hours of an offset.
unfoldable pub parse_offset_rest : Bytes → Bytes → Option (Bytes × Bytes)
parse_offset_rest tz [] = some (tz, [])
parse_offset_rest tz (c ∷ s) =
    if c == b':'
    then parse_offset_minutes (tz ++ (c ∷ [])) s
    else if is_digit c
    then parse_offset_minutes tz (c ∷ s)
    else some (tz, c ∷ s)

-- `+hh`, `+hhmm` or `+hh:mm`, behind the sign.
unfoldable pub parse_offset : ℕ → Bytes → Option (Bytes × Bytes)
parse_offset sign [] = none
parse_offset sign (a ∷ []) = none
parse_offset sign (a ∷ b ∷ s) =
    if is_digit a && is_digit b then parse_offset_rest (sign ∷ a ∷ b ∷ []) s else none

unfoldable pub parse_zone : Bytes → Option (Bytes × Bytes)
parse_zone [] = none
parse_zone (c ∷ s) =
    if (c == b'+') || (c == b'-')
    then parse_offset c s
    else if is_alpha c
    then (let name = take_zone_name s in some (c ∷ name.0, name.1))
    else none

unfoldable pub parse_timezone : Bytes → Option (Bytes × Bytes)
parse_timezone s = parse_zone (skip_whitespace s)

-- The time, the time zone's text where there is one, and the bytes left.
unfoldable pub parse_time : Bytes → Option (TimeHmst × Option Bytes × Bytes)
parse_time s = parse_time_no_tz s >>= λ t. elim (parse_timezone t.1) [
  | some zone ↦ some (t.0, some zone.0, zone.1)
  | none ↦ some (t.0, none, t.1)
]

-- A time with nothing but white space around it.
abbrev only_space {ℓ} : {A : Type ℓ} → A → Bytes → Option A
only_space a [] = some a
only_space a (c ∷ s) = none

unfoldable pub string_to_time : Bytes → Option (TimeHmst × Option Bytes)
string_to_time s =
    parse_time (skip_whitespace s) >>= λ t. only_space (t.0, t.1) (skip_whitespace t.2)
