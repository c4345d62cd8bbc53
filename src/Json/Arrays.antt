-- ===== src/Json/Arrays.antt =====
-- A formatted list is skipped by the loop over the elements of an array, of
-- src/dynd/json_parser.cpp.
use libdynd.Common.{
  ℕ, zero, suc, ◌+◌, ◌*◌, ◌≤◌, ◌≡◌, refl, ap, ◌∙◌, arith, Bool, true, false, ◌||◌, none, [], ◌∷◌,
  ◌++◌, append_assoc, append-nil, length, length-append, ◌==◌, codes,
}
use libdynd.Parse.{Bytes, skip_whitespace, parse_token_no_ws, parse_token}
use libdynd.Parse.Names.{starts_with}
use libdynd.Json.Format.{
  Value, Values, Fields, no_values, value, no_fields, field, comma_before, comma_before_field,
  format_json, format_values, format_field_values,
}
use libdynd.Json.NumberLaws.{goes_on}
use libdynd.Json.Skip.{
  Skipped, skipped, and_skip, by_token, or_throw, start_of, skip_case, skip_elements,
}
use libdynd.Json.Scalars.{begins_value, Skips, Skips-case, skip_whitespace-begins}

-- The values of the fields, without the names.
abbrev pub values_of : Fields → Values
values_of no_fields = no_values
values_of (field name v fs) = value v (values_of fs)

comma_before-values_of : (fs : Fields) → comma_before_field fs ≡ comma_before (values_of fs)
comma_before-values_of no_fields = refl
comma_before-values_of (field name v fs) = refl

module _ (utf8 : ℕ → Bytes) (sal : Bool) where
  pub format_field_values-values :
      (fs : Fields) → format_field_values utf8 sal fs ≡ format_values utf8 sal (values_of fs)
  unfolding format_field_values format_values
  format_field_values-values no_fields = refl
  format_field_values-values (field name v fs) =
      rw (comma_before-values_of fs, format_field_values-values fs) refl

  unfoldable pub AllSkip : Values → Type 0
  AllSkip no_values = Unit
  AllSkip (value v vs) = Skips (format_json utf8 sal v) × AllSkip vs

  -- An element of an array, and what the loop does behind it.
  skip_elements-step :
      (text tail : Bytes) (f : ℕ)
      → Skips text
      → 4 * length text + 2 ≤ f
      → starts_with goes_on tail ≡ false
      → skip_elements (suc f) (text ++ tail)
        ≡ by_token
            (parse_token (codes ",") tail)
            (λ next. skip_elements f next)
            (or_throw (parse_token (codes "]") tail))
  unfolding skip_elements and_skip
  skip_elements-step text tail f h enough stop = rw (h.skips f tail enough stop) refl

  skip_elements-format :
      (v : Value) (vs : Values) (rest : Bytes)
      → AllSkip (value v vs)
      → (f : ℕ) → 4 * length (format_values utf8 sal (value v vs)) + 3 ≤ f
      → skip_elements f (format_values utf8 sal (value v vs) ++ (b']' ∷ rest)) ≡ skipped rest
  unfolding AllSkip format_values by_token parse_token skip_whitespace parse_token_no_ws
  skip_elements-format v vs rest h zero enough = absurd (omega arith)
  skip_elements-format v no_values rest h (suc f) enough =
      let text = format_json utf8 sal v in
      ap (λ t. skip_elements (suc f) (t ++ (b']' ∷ rest))) (append-nil text)
      ∙ skip_elements-step text (b']' ∷ rest) f h.0 (omega (arith, length-append text [], enough))
          refl
  skip_elements-format v (value w vs) rest h (suc f) enough =
      let text = format_json utf8 sal v in
      let more = format_values utf8 sal (value w vs) in
      let long = length-append text (b',' ∷ more) in
      ap (skip_elements (suc f)) (append_assoc text (b',' ∷ more) (b']' ∷ rest))
      ∙ (skip_elements-step text (b',' ∷ (more ++ (b']' ∷ rest))) f h.0
            (omega (arith, long, enough)) refl
          ∙ skip_elements-format w vs rest h.1 f (omega (arith, long, enough)))

  -- A text that does not begin with an end or a blank is no end.
  parse_token-begins :
      (token : ℕ) (text rest : Bytes)
      → (token == b']') || (token == b'}') ≡ true
      → starts_with begins_value text ≡ true
      → parse_token (token ∷ []) (text ++ rest) ≡ none
  unfolding parse_token parse_token_no_ws
  parse_token-begins token [] rest e h = absurd (ground (arith, h))
  parse_token-begins token (c ∷ text) rest e h =
      let other : (token == c) ≡ false = ground (arith, e, h) in
      rw (skip_whitespace-begins c (text ++ rest) h, other) refl

  starts_with-append :
      (test : ℕ → Bool) (s t : Bytes) → starts_with test s ≡ true → starts_with test (s ++ t) ≡ true
  starts_with-append test [] t h = absurd (ground (arith, h))
  starts_with-append test (c ∷ s) t h = h

  -- What follows a bracket: the loop, as the text is not at the other bracket.
  pub by_token-loop :
      (token : ℕ) (text rest : Bytes) (loop : Bytes → Skipped)
      → (token == b']') || (token == b'}') ≡ true
      → starts_with begins_value text ≡ true
      → loop (text ++ (token ∷ rest)) ≡ skipped rest
      → let s = (text ++ (token ∷ [])) ++ rest in
        by_token (parse_token (token ∷ []) s) (λ r. skipped r) (loop s) ≡ skipped rest
  unfolding by_token
  by_token-loop token text rest loop e h k =
      rw (append_assoc text (token ∷ []) rest, parse_token-begins token text (token ∷ rest) e h) k

  pub Skips-array :
      (vs : Values) → AllSkip vs → Skips (b'[' ∷ (format_values utf8 sal vs ++ (b']' ∷ [])))
  unfolding AllSkip format_values by_token parse_token skip_whitespace parse_token_no_ws skip_case
      start_of
  Skips-array no_values h = Skips-case _ _ refl (λ f rest enough stop. refl)
  Skips-array (value v vs) h = Skips-case _ _ refl (λ f rest enough stop.
      by_token-loop b']' (format_values utf8 sal (value v vs)) rest (skip_elements f) refl
        (starts_with-append _ (format_json utf8 sal v) _ (Skips.begins h.0))
        (skip_elements-format v vs rest h f
          (omega (arith, length-append (format_values utf8 sal (value v vs)) (b']' ∷ []), enough))))
