-- ===== src/Json/Objects.antt =====
-- A formatted struct is skipped by the loop over the fields of an object, of
-- src/dynd/json_parser.cpp.
use libdynd.Common.{
  ℕ, zero, suc, ◌+◌, ◌*◌, ◌≤◌, ◌≡◌, refl, ap, ◌∙◌, arith, Bool, true, false, List, [], ◌∷◌, ◌++◌,
  append_assoc, length, length-append, codes,
}
use libdynd.Parse.{Bytes, skip_whitespace, parse_token_no_ws, parse_token}
use libdynd.Parse.Names.{starts_with}
use libdynd.Json.Format.{
  Value, Fields, no_fields, field, format_json_encoded_string, format_json, format_fields,
}
use libdynd.Json.NumberLaws.{goes_on}
use libdynd.Json.StringRoundTrip.{string_or_throw-format}
use libdynd.Json.StringScans.{High}
use libdynd.Json.Skip.{
  skipped, and_skip, by_token, or_throw, start_of, skip_case, skip_members, skip_name,
}
use libdynd.Json.Scalars.{begins_value, Skips, Skips-case}
use libdynd.Json.Arrays.{values_of, AllSkip, by_token-loop}

module _ (utf8 : ℕ → Bytes) (sal : Bool) where
  unfoldable pub AllFieldsSkip : Fields → Type 0
  AllFieldsSkip no_fields = Unit
  AllFieldsSkip (field name v fs) = Skips (format_json utf8 sal v) × AllFieldsSkip fs

  pub AllSkip-values_of : (fs : Fields) → AllFieldsSkip fs → AllSkip utf8 sal (values_of fs)
  unfolding AllSkip AllFieldsSkip
  AllSkip-values_of no_fields h = tt
  AllSkip-values_of (field name v fs) h = (h.0, AllSkip-values_of fs h.1)

  module _ (high : High utf8) where
    skip_whitespace-format :
        (name : List ℕ) (s : Bytes)
        → skip_whitespace (format_json_encoded_string utf8 name ++ s)
          ≡ format_json_encoded_string utf8 name ++ s
    unfolding format_json_encoded_string skip_whitespace
    skip_whitespace-format name s = refl

    skip_name-format :
        (name : List ℕ) (rest : Bytes)
        → skip_name (format_json_encoded_string utf8 name ++ (b':' ∷ rest)) ≡ skipped rest
    unfolding skip_name and_skip parse_token skip_whitespace parse_token_no_ws
    skip_name-format name rest =
        rw
          (
            skip_whitespace-format name (b':' ∷ rest),
            string_or_throw-format utf8 high name (b':' ∷ rest),
          )
          refl

    regroup :
        (name text more tail : Bytes)
        → (name ++ (b':' ∷ (text ++ more))) ++ tail ≡ name ++ (b':' ∷ (text ++ (more ++ tail)))
    regroup name text more tail =
        append_assoc name (b':' ∷ (text ++ more)) tail
        ∙ ap (λ t. name ++ (b':' ∷ t)) (append_assoc text more tail)

    length-regroup :
        (name text more : Bytes)
        → length (name ++ (b':' ∷ (text ++ more))) ≡ suc (length name + (length text + length more))
    length-regroup name text more =
        omega (arith, length-append name (b':' ∷ (text ++ more)), length-append text more)

    -- A field of an object, and what the loop does behind it.
    skip_members-step :
        (name : List ℕ) (text tail : Bytes) (f : ℕ)
        → Skips text
        → 4 * length text + 2 ≤ f
        → starts_with goes_on tail ≡ false
        → skip_members (suc f) (format_json_encoded_string utf8 name ++ (b':' ∷ (text ++ tail)))
          ≡ by_token
              (parse_token (codes ",") tail)
              (λ next. skip_members f next)
              (or_throw (parse_token (codes "}") tail))
    unfolding skip_members and_skip
    skip_members-step name text tail f h enough stop =
        rw (skip_name-format name (text ++ tail), h.skips f tail enough stop) refl

    skip_members-format :
        (name : List ℕ) (v : Value) (fs : Fields) (rest : Bytes)
        → AllFieldsSkip (field name v fs)
        → (f : ℕ) → 4 * length (format_fields utf8 sal (field name v fs)) + 3 ≤ f
        → skip_members f (format_fields utf8 sal (field name v fs) ++ (b'}' ∷ rest)) ≡ skipped rest
    unfolding AllFieldsSkip format_fields by_token parse_token skip_whitespace parse_token_no_ws
    skip_members-format name v fs rest h zero enough = absurd (omega arith)
    skip_members-format name v no_fields rest h (suc f) enough =
        let key = format_json_encoded_string utf8 name in
        let text = format_json utf8 sal v in
        ap (skip_members (suc f)) (regroup key text [] (b'}' ∷ rest))
        ∙ skip_members-step name text (b'}' ∷ rest) f h.0
            (omega (arith, length-regroup key text [], enough)) refl
    skip_members-format name v (field next w fs) rest h (suc f) enough =
        let key = format_json_encoded_string utf8 name in
        let text = format_json utf8 sal v in
        let more = format_fields utf8 sal (field next w fs) in
        let long = length-regroup key text (b',' ∷ more) in
        ap (skip_members (suc f)) (regroup key text (b',' ∷ more) (b'}' ∷ rest))
        ∙ (skip_members-step name text (b',' ∷ (more ++ (b'}' ∷ rest))) f h.0
              (omega (arith, long, enough)) refl
            ∙ skip_members-format next w fs rest h.1 f (omega (arith, long, enough)))

    begins-format_fields :
        (name : List ℕ) (v : Value) (fs : Fields)
        → starts_with begins_value (format_fields utf8 sal (field name v fs)) ≡ true
    unfolding format_fields format_json_encoded_string
    begins-format_fields name v fs = refl

    pub Skips-object :
        (fs : Fields) → AllFieldsSkip fs → Skips (b'{' ∷ (format_fields utf8 sal fs ++ (b'}' ∷ [])))
    unfolding format_fields by_token parse_token skip_whitespace parse_token_no_ws skip_case
        start_of
    Skips-object no_fields h = Skips-case _ _ refl (λ f rest enough stop. refl)
    Skips-object (field name v fs) h =
        let text = format_fields utf8 sal (field name v fs) in
        Skips-case _ _ refl (λ f rest enough stop.
          by_token-loop utf8 sal b'}' text rest (skip_members f) refl
            (begins-format_fields name v fs)
            (skip_members-format name v fs rest h f
              (omega (arith, length-append text (b'}' ∷ []), enough))))
