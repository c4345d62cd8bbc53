-- ===== src/Parse/Names.antt =====
-- The scan of a name takes the longest one.
use libdynd.Common.{
  by_test, ℕ, ◌≡◌, refl, ap, subst, arith, Bool, true, false, ◌&&◌, Option, none, some, [], ◌∷◌,
  ◌++◌,
}
use libdynd.Parse.{Bytes}
use libdynd.Parse.Strings.{name_rest, is_name_start, is_name_char, parse_name_no_ws}

abbrev pub every_byte : (ℕ → Bool) → Bytes → Bool
every_byte test [] = true
every_byte test (c ∷ s) = test c && every_byte test s

abbrev pub starts_with : (ℕ → Bool) → Bytes → Bool
starts_with test [] = false
starts_with test (c ∷ s) = test c

-- `run` holds all that passes the test up to `rest`.
abbrev pub IsLongest : (ℕ → Bool) → Bytes → Bytes → Bytes → Type 0
IsLongest test s run rest =
    (s ≡ run ++ rest) × (every_byte test run ≡ true) × (starts_with test rest ≡ false)

IsLongest-cons :
    (test : ℕ → Bool) (c : ℕ) (s run rest : Bytes)
    → test c ≡ true
    → IsLongest test s run rest
    → IsLongest test (c ∷ s) (c ∷ run) rest
IsLongest-cons test c s run rest h l = (ap (λ t. c ∷ t) l.0, rw h l.1, l.2)

abbrev LongestPair : (ℕ → Bool) → Bytes → Bytes × Bytes → Type 0
LongestPair test s p = IsLongest test s p.0 p.1

name_rest-LongestPair : (test : ℕ → Bool) (s : Bytes) → LongestPair test s (name_rest test s)
unfolding name_rest
name_rest-LongestPair test [] = (refl, refl, refl)
name_rest-LongestPair test (c ∷ s) =
    by_test (LongestPair test (c ∷ s)) (test c)
      (λ h. IsLongest-cons test c s _ _ h (name_rest-LongestPair test s)) (λ h. (refl, refl, h))

abbrev LongestName : Bytes → Option (Bytes × Bytes) → Type 0
LongestName s none = Unit
LongestName s (some p) = IsLongest is_name_char s p.0 p.1 × (starts_with is_name_start p.0 ≡ true)

start_in_name : (c : ℕ) → is_name_start c ≡ true → is_name_char c ≡ true
start_in_name c h = ground arith

parse_name_no_ws-LongestName : (s : Bytes) → LongestName s (parse_name_no_ws s)
unfolding parse_name_no_ws
parse_name_no_ws-LongestName [] = tt
parse_name_no_ws-LongestName (c ∷ s) =
    by_test (LongestName (c ∷ s)) (is_name_start c)
      (λ h. (
        IsLongest-cons is_name_char c s (name_rest is_name_char s).0 (name_rest is_name_char s).1
            (start_in_name c h) (name_rest-LongestPair is_name_char s),
        h,
      ))
      (λ h. tt)

-- A name that is read, with the rest that is left, makes up the text; it holds characters of names
-- only, the first no digit, and the rest does not begin with such a character.
pub parse_name_no_ws-IsLongest :
    (s name rest : Bytes)
    → parse_name_no_ws s ≡ some (name, rest)
    → IsLongest is_name_char s name rest × (starts_with is_name_start name ≡ true)
parse_name_no_ws-IsLongest s name rest h = subst (LongestName s) h (parse_name_no_ws-LongestName s)
