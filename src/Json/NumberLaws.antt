-- ===== src/Json/NumberLaws.antt =====
-- The scan of a JSON number looks at what stands behind the number only where that may go on.
use libdynd.Common.{
  Bool, false, ◌||◌, ◌≡◌, refl, arith, subst, sym, ap, ℕ, Bool-cases, inl, inr, Option, none, some,
  [], ◌∷◌, ◌++◌, ◌==◌, leb, ◌&&◌,
}
use libdynd.Parse.{Bytes, is_digit}
use libdynd.Parse.Names.{starts_with}
use libdynd.Parse.Numbers.{
  and_rest, digits_rest, skip_minus, json_integer, one_or_more_digits, json_fraction, skip_sign,
  json_exponent, parse_json_number_no_ws,
}

-- A byte that a number may go on with.
abbrev pub goes_on : ℕ → Bool
goes_on c = is_digit c || (c == b'.') || (c == b'e') || (c == b'E')

-- A scan that succeeds does the same before `rest`, which it leaves.
abbrev Extends : Bytes → Option Bytes → Option Bytes → Type 0
Extends rest (some r) y = y ≡ some (r ++ rest)
Extends rest none y = Unit

module _ (rest : Bytes) (stop : starts_with goes_on rest ≡ false) where
  digits_rest-stop : (s : Bytes) → starts_with goes_on s ≡ false → digits_rest s ≡ s
  unfolding digits_rest
  digits_rest-stop [] h = refl
  digits_rest-stop (c ∷ s) h = ground (arith, h)

  digits_rest-append : (s : Bytes) → digits_rest (s ++ rest) ≡ digits_rest s ++ rest
  unfolding digits_rest
  digits_rest-append [] = digits_rest-stop rest stop
  digits_rest-append (c ∷ s) = elim (Bool-cases (is_digit c)) [
    | inl e ↦ rw e (digits_rest-append s)
    | inr e ↦ rw e refl
  ]

  Extends-one_or_more_digits :
      (s : Bytes) → Extends rest (one_or_more_digits s) (one_or_more_digits (s ++ rest))
  unfolding one_or_more_digits
  Extends-one_or_more_digits [] = tt
  Extends-one_or_more_digits (c ∷ s) = elim (Bool-cases (is_digit c)) [
    | inl e ↦ rw e (ap some (digits_rest-append s))
    | inr e ↦ rw e tt
  ]

  Extends-json_integer : (s : Bytes) → Extends rest (json_integer s) (json_integer (s ++ rest))
  unfolding json_integer
  Extends-json_integer [] = tt
  Extends-json_integer (c ∷ s) = elim (Bool-cases (c == b'0')) [
    | inl e ↦ rw e refl
    | inr e ↦ elim (Bool-cases (leb b'1' c && leb c b'9')) [
      | inl d ↦ rw (e, d) (ap some (digits_rest-append s))
      | inr d ↦ rw (e, d) tt
    ]
  ]

  Extends-skip_minus :
      (s : Bytes)
      → Extends rest (json_integer (skip_minus s)) (json_integer (skip_minus (s ++ rest)))
  unfolding skip_minus
  Extends-skip_minus [] = unfold json_integer in tt
  Extends-skip_minus (c ∷ s) = elim (Bool-cases (c == b'-')) [
    | inl e ↦ rw e (Extends-json_integer s)
    | inr e ↦ rw e (Extends-json_integer (c ∷ s))
  ]

  json_fraction-stop : (s : Bytes) → starts_with goes_on s ≡ false → json_fraction s ≡ some s
  unfolding json_fraction
  json_fraction-stop [] h = refl
  json_fraction-stop (c ∷ s) h = ground (arith, h)

  Extends-json_fraction : (s : Bytes) → Extends rest (json_fraction s) (json_fraction (s ++ rest))
  unfolding json_fraction
  Extends-json_fraction [] = json_fraction-stop rest stop
  Extends-json_fraction (c ∷ s) = elim (Bool-cases (c == b'.')) [
    | inl e ↦ rw e (Extends-one_or_more_digits s)
    | inr e ↦ rw e refl
  ]

  json_exponent-stop : (s : Bytes) → starts_with goes_on s ≡ false → json_exponent s ≡ some s
  unfolding json_exponent
  json_exponent-stop [] h = refl
  json_exponent-stop (c ∷ s) h = ground (arith, h)

  Extends-skip_sign :
      (s : Bytes)
      → Extends rest (one_or_more_digits (skip_sign s)) (one_or_more_digits (skip_sign (s ++ rest)))
  unfolding skip_sign
  Extends-skip_sign [] = unfold one_or_more_digits in tt
  Extends-skip_sign (c ∷ s) = elim (Bool-cases ((c == b'+') || (c == b'-'))) [
    | inl e ↦ rw e (Extends-one_or_more_digits s)
    | inr e ↦ rw e (Extends-one_or_more_digits (c ∷ s))
  ]

  Extends-json_exponent : (s : Bytes) → Extends rest (json_exponent s) (json_exponent (s ++ rest))
  unfolding json_exponent
  Extends-json_exponent [] = json_exponent-stop rest stop
  Extends-json_exponent (c ∷ s) = elim (Bool-cases ((c == b'e') || (c == b'E'))) [
    | inl e ↦ rw e (Extends-skip_sign s)
    | inr e ↦ rw e refl
  ]

  Extends-and_rest :
      (x y : Option Bytes) (part : Bytes → Option Bytes)
      → Extends rest x y
      → ((s : Bytes) → Extends rest (part s) (part (s ++ rest)))
      → Extends rest (and_rest x part) (and_rest y part)
  Extends-and_rest none y part h k = tt
  Extends-and_rest (some s) y part h k =
      subst (λ z. Extends rest (part s) (and_rest z part)) (sym h) (k s)

  Extends-parse_json_number_no_ws :
      (s : Bytes) → Extends rest (parse_json_number_no_ws s) (parse_json_number_no_ws (s ++ rest))
  unfolding parse_json_number_no_ws
  Extends-parse_json_number_no_ws s =
      Extends-and_rest _ _ _ (Extends-and_rest _ _ _ (Extends-skip_minus s) Extends-json_fraction)
        Extends-json_exponent

-- The scan of a text that is one number, before what no number goes on with, takes that text.
pub parse_json_number_no_ws-append :
    (s rest : Bytes)
    → parse_json_number_no_ws s ≡ some []
    → starts_with goes_on rest ≡ false
    → parse_json_number_no_ws (s ++ rest) ≡ some rest
parse_json_number_no_ws-append s rest h stop =
    subst (λ x. Extends rest x (parse_json_number_no_ws (s ++ rest))) h
      (Extends-parse_json_number_no_ws rest stop s)
