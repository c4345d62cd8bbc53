-- ===== src/Json/Scalars.antt =====
-- What `format_json` of src/dynd/json_formatter.cpp writes for a value that holds no others is
-- skipped by `skip_json_value` of src/dynd/json_parser.cpp.
use libdynd.Common.{
  ℕ, zero, suc, ◌+◌, ◌*◌, ◌≤◌, ◌≡◌, refl, ap, ◌∙◌, arith, Bool, true, false, not, leb, ◌&&◌, ◌||◌,
  Bool-cases, inl, inr, Option, none, some, List, [], ◌∷◌, ◌++◌, length, ◌==◌, codes,
}
use libdynd.Parse.{Bytes, is_space, is_digit, skip_whitespace, parse_token_no_ws, parse_token}
use libdynd.Parse.Names.{starts_with}
use libdynd.Parse.Numbers.{parse_json_number_no_ws, json_integer, skip_minus}
use libdynd.Json.Format.{format_json_encoded_string}
use libdynd.Json.NumberLaws.{goes_on, parse_json_number_no_ws-append}
use libdynd.Json.StringRoundTrip.{string_or_throw-format}
use libdynd.Json.StringScans.{High}
use libdynd.Json.Skip.{
  skipped, number_start, or_throw, start_of, skip_json_value, skip_start, skip_case,
}

-- The whole text was taken.
abbrev pub all_taken : Option Bytes → Bool
all_taken none = false
all_taken (some []) = true
all_taken (some (c ∷ s)) = false

-- No value begins with a blank, with an end or with a comma.
abbrev pub begins_value : ℕ → Bool
begins_value c = not (is_space c) && not ((c == b']') || (c == b'}'))

-- A text that stands for a value is skipped, up to what no number goes on with.
pub record Skips (text : Bytes) : Type 0 where
  pub begins : starts_with begins_value text ≡ true
  pub skips :
      (f : ℕ) (rest : Bytes)
      → 4 * length text + 2 ≤ f
      → starts_with goes_on rest ≡ false
      → skip_json_value f (text ++ rest) ≡ skipped rest

pub skip_whitespace-begins :
    (c : ℕ) (s : Bytes) → begins_value c ≡ true → skip_whitespace (c ∷ s) ≡ c ∷ s
unfolding skip_whitespace
skip_whitespace-begins c s h = ground arith

-- Three calls in.
skip_json_value-skip_case :
    (c : ℕ) (s rest : Bytes)
    → begins_value c ≡ true
    → (n : ℕ) → ((f : ℕ) → n ≤ f → skip_case (suc f) (start_of c) (c ∷ s) s ≡ skipped rest)
    → (f : ℕ) → n + 3 ≤ f
    → skip_json_value f (c ∷ s) ≡ skipped rest
unfolding skip_json_value skip_start
skip_json_value-skip_case c s rest h n k zero e = absurd (omega arith)
skip_json_value-skip_case c s rest h n k (suc zero) e = absurd (omega arith)
skip_json_value-skip_case c s rest h n k (suc (suc zero)) e = absurd (omega arith)
skip_json_value-skip_case c s rest h n k (suc (suc (suc f))) e =
    ap (skip_start (suc (suc f))) (skip_whitespace-begins c s h) ∙ k f (omega arith)

-- Enough for a value: what its case does with it.
pub Skips-case :
    (c : ℕ) (s : Bytes)
    → begins_value c ≡ true
    → ((f : ℕ) (rest : Bytes)
        → 4 * length s + 3 ≤ f
        → starts_with goes_on rest ≡ false
        → skip_case (suc f) (start_of c) (c ∷ (s ++ rest)) (s ++ rest) ≡ skipped rest)
    → Skips (c ∷ s)
Skips-case c s h k = record {
  begins = h;
  skips = λ f rest enough stop.
      skip_json_value-skip_case c (s ++ rest) rest h (4 * length s + 3) (λ g e. k g rest e stop) f
        (omega arith);
}

pub Skips-true : Skips (codes "true")
unfolding skip_case parse_token skip_whitespace parse_token_no_ws start_of
Skips-true = Skips-case _ _ refl (λ f rest e stop. refl)

pub Skips-false : Skips (codes "false")
unfolding skip_case parse_token skip_whitespace parse_token_no_ws start_of
Skips-false = Skips-case _ _ refl (λ f rest e stop. refl)

pub Skips-null : Skips (codes "null")
unfolding skip_case parse_token skip_whitespace parse_token_no_ws start_of
Skips-null = Skips-case _ _ refl (λ f rest e stop. refl)

pub Skips-string :
    (utf8 : ℕ → Bytes) (high : High utf8) (s : List ℕ) → Skips (format_json_encoded_string utf8 s)
unfolding skip_case start_of format_json_encoded_string
Skips-string utf8 high s =
    Skips-case _ _ refl (λ f rest e stop. string_or_throw-format utf8 high s rest)

-- A number begins with a minus sign or a digit.
begins_number : ℕ → Bool
begins_number c = (c == b'-') || is_digit c

no_number : (c : ℕ) (s : Bytes) → begins_number c ≡ false → parse_json_number_no_ws (c ∷ s) ≡ none
unfolding begins_number parse_json_number_no_ws skip_minus json_integer
no_number c s h =
    let minus : (c == b'-') ≡ false = ground (arith, h) in
    let zero_digit : (c == b'0') ≡ false = ground (arith, h) in
    let digit : (leb b'1' c && leb c b'9') ≡ false = ground (arith, h) in
    rw (minus, zero_digit, digit) refl

begins_number-all_taken :
    (c : ℕ) (s : Bytes)
    → all_taken (parse_json_number_no_ws (c ∷ s)) ≡ true
    → begins_number c ≡ true
begins_number-all_taken c s h = elim (Bool-cases (begins_number c)) [
  | inl e ↦ e
  | inr e ↦ absurd (ground (arith, h, ap all_taken (no_number c s e)))
]

all_taken-some : (x : Option Bytes) → all_taken x ≡ true → x ≡ some []
all_taken-some (some []) h = refl
all_taken-some (some (c ∷ s)) h = absurd (ground arith)
all_taken-some none h = absurd (ground arith)

number-at : (c : ℕ) → begins_number c ≡ true → (begins_value c ≡ true) × (start_of c ≡ number_start)
unfolding begins_number start_of
number-at c h = ground arith

pub Skips-number : (text : Bytes) → all_taken (parse_json_number_no_ws text) ≡ true → Skips text
unfolding skip_case parse_json_number_no_ws skip_minus json_integer
Skips-number [] h = absurd (ground (arith, h))
Skips-number (c ∷ s) h =
    let at = number-at c (begins_number-all_taken c s h) in
    Skips-case c s at.0 (λ f rest e stop.
      rw at.1 (ap or_throw (parse_json_number_no_ws-append (c ∷ s) rest (all_taken-some _ h) stop)))
