-- ===== src/Json/Lengths.antt =====
-- The scans that `skip_json_value` calls leave no more than they were given.
use libdynd.Common.{
  ℕ, suc, ◌+◌, ◌≤◌, arith, false, by_test, Option, none, some, [], ◌∷◌, length, length-append, ◌==◌,
  ◌||◌, codes, ap,
}
use libdynd.Parse.{Bytes, is_space, skip_whitespace, parse_token_no_ws, parse_token}
use libdynd.Parse.Strings.{Quoted, quoted, no_quote, in_text, parse_doublequote_string_no_ws}
use libdynd.Parse.Strings
use libdynd.Parse.StringLaws.{Spells, Spells-scan_string}
use libdynd.Parse.Numbers.{
  and_rest, digits_rest, skip_minus, json_integer, one_or_more_digits, json_fraction, skip_sign,
  json_exponent, parse_json_number_no_ws,
}
use libdynd.Json.Skip.{
  Skipped, skipped, parse_error, out_of_fuel, and_skip, by_token, or_throw, string_or_throw,
  skip_name,
}

-- A text that is left over is no longer than a bound, and fuel was enough.
unfoldable pub Within : ℕ → Skipped → Type 0
Within n (skipped rest) = length rest ≤ n
Within n parse_error = Unit
Within n out_of_fuel = ⊥

-- The same for a scan that may fail.
unfoldable pub Leaves : ℕ → Option Bytes → Type 0
Leaves n (some rest) = length rest ≤ n
Leaves n none = Unit

pub skip_whitespace_le : (s : Bytes) → length (skip_whitespace s) ≤ length s
unfolding skip_whitespace
skip_whitespace_le [] = omega arith
skip_whitespace_le (c ∷ s) =
    by_test (λ (r : Bytes). length r ≤ suc (length s)) (is_space c)
      (λ h. omega (arith, skip_whitespace_le s)) (λ h. omega arith)

Leaves-parse_token_no_ws :
    (token s : Bytes) (n : ℕ) → length s ≤ n + length token → Leaves n (parse_token_no_ws token s)
unfolding parse_token_no_ws Leaves
Leaves-parse_token_no_ws [] s n h = omega arith
Leaves-parse_token_no_ws (t ∷ ts) [] n h = tt
Leaves-parse_token_no_ws (t ∷ ts) (c ∷ s) n h =
    by_test (Leaves n) (t == c) (λ e. Leaves-parse_token_no_ws ts s n (omega arith)) (λ e. tt)

pub Leaves-parse_token :
    (token s : Bytes) (n : ℕ) → length s ≤ n + length token → Leaves n (parse_token token s)
unfolding parse_token
Leaves-parse_token token s n h =
    Leaves-parse_token_no_ws token (skip_whitespace s) n (omega (arith, skip_whitespace_le s))

digits_rest_le : (s : Bytes) → length (digits_rest s) ≤ length s
unfolding digits_rest
digits_rest_le [] = omega arith
digits_rest_le (c ∷ s) = ground (arith, digits_rest_le s)

skip_minus_le : (s : Bytes) → length (skip_minus s) ≤ length s
unfolding skip_minus
skip_minus_le [] = omega arith
skip_minus_le (c ∷ s) = ground arith

skip_sign_le : (s : Bytes) → length (skip_sign s) ≤ length s
unfolding skip_sign
skip_sign_le [] = omega arith
skip_sign_le (c ∷ s) = ground arith

Leaves-and_rest :
    (n : ℕ) (x : Option Bytes) (part : Bytes → Option Bytes)
    → Leaves n x
    → ((s : Bytes) → length s ≤ n → Leaves n (part s))
    → Leaves n (and_rest x part)
unfolding Leaves
Leaves-and_rest n none part h k = tt
Leaves-and_rest n (some s) part h k = k s h

Leaves-one_or_more_digits : (n : ℕ) (s : Bytes) → length s ≤ n → Leaves n (one_or_more_digits s)
unfolding one_or_more_digits Leaves
Leaves-one_or_more_digits n [] h = tt
Leaves-one_or_more_digits n (c ∷ s) h = ground (arith, digits_rest_le s)

Leaves-json_fraction : (n : ℕ) (s : Bytes) → length s ≤ n → Leaves n (json_fraction s)
unfolding json_fraction Leaves
Leaves-json_fraction n [] h = h
Leaves-json_fraction n (c ∷ s) h =
    by_test (Leaves n) (c == b'.') (λ e. Leaves-one_or_more_digits n s (omega arith)) (λ e. h)

Leaves-json_exponent : (n : ℕ) (s : Bytes) → length s ≤ n → Leaves n (json_exponent s)
unfolding json_exponent Leaves
Leaves-json_exponent n [] h = h
Leaves-json_exponent n (c ∷ s) h =
    by_test (Leaves n) ((c == b'e') || (c == b'E'))
      (λ e. Leaves-one_or_more_digits n (skip_sign s) (omega (arith, skip_sign_le s))) (λ e. h)

Leaves-json_integer : (n : ℕ) (s : Bytes) → length s ≤ n → Leaves n (json_integer s)
unfolding json_integer Leaves
Leaves-json_integer n [] h = tt
Leaves-json_integer n (c ∷ s) h = ground (arith, digits_rest_le s)

pub Leaves-parse_json_number_no_ws : (s : Bytes) → Leaves (length s) (parse_json_number_no_ws s)
unfolding parse_json_number_no_ws
Leaves-parse_json_number_no_ws s =
    let n = length s in
    Leaves-and_rest n _ _
      (Leaves-and_rest n _ _ (Leaves-json_integer n (skip_minus s) (skip_minus_le s))
        (λ r. Leaves-json_fraction n r))
      (λ r. Leaves-json_exponent n r)

pub Within-le : (n m : ℕ) (x : Skipped) → n ≤ m → Within n x → Within m x
unfolding Within
Within-le n m (skipped rest) h k = omega arith
Within-le n m parse_error h k = tt
Within-le n m out_of_fuel h k = k

pub Within-or_throw : (n : ℕ) (x : Option Bytes) → Leaves n x → Within n (or_throw x)
unfolding Within Leaves
Within-or_throw n (some rest) h = h
Within-or_throw n none h = tt

pub Within-and_skip :
    (n m : ℕ) (x : Skipped) (next : Bytes → Skipped)
    → Within n x
    → ((r : Bytes) → length r ≤ n → Within m (next r))
    → Within m (and_skip x next)
unfolding Within and_skip
Within-and_skip n m (skipped rest) next h k = k rest h
Within-and_skip n m parse_error next h k = tt
Within-and_skip n m out_of_fuel next h k = absurd h

pub Within-by_token :
    (n m : ℕ) (x : Option Bytes) (next : Bytes → Skipped) (other : Skipped)
    → Leaves n x
    → ((r : Bytes) → length r ≤ n → Within m (next r))
    → Within m other
    → Within m (by_token x next other)
unfolding Leaves by_token
Within-by_token n m (some rest) next other h k o = k rest h
Within-by_token n m none next other h k o = o

Within-Spells :
    (s : Bytes) (n : ℕ) (q : Quoted) → Spells s q → length s ≤ n → Within n (string_or_throw q)
unfolding Within
Within-Spells s n (quoted body rest escaped) e h =
    omega (arith, ap length e, length-append body (34 ∷ rest))
Within-Spells s n no_quote e h = tt
Within-Spells s n Strings.parse_error e h = tt

pub Within-string :
    (s : Bytes) (n : ℕ)
    → length s ≤ n
    → Within n (string_or_throw (parse_doublequote_string_no_ws s))
unfolding parse_doublequote_string_no_ws Within
Within-string [] n h = tt
Within-string (c ∷ s) n h =
    by_test (λ (q : Quoted). Within n (string_or_throw q)) (c == 34)
      (λ e. Within-Spells s n _ (Spells-scan_string in_text false s) (omega arith)) (λ e. tt)

pub Within-skip_name : (s : Bytes) (n : ℕ) → length s ≤ n → Within n (skip_name s)
unfolding skip_name
Within-skip_name s n h =
    Within-and_skip n n _ _
      (Within-string (skip_whitespace s) n (omega (arith, skip_whitespace_le s)))
      (λ r k. Within-or_throw n _ (Leaves-parse_token (codes ":") r n (omega arith)))
