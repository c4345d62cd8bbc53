-- ===== src/Json/RoundTrip.antt =====
-- A value that is formatted is JSON that `validate_json` accepts.
use libdynd.Common.{
  ℕ, ◌+◌, ◌*◌, ◌≤◌, ◌≡◌, refl, arith, Bool, true, false, ◌&&◌, by_test, and_parts, leb, [],
  append-nil, length,
}
use libdynd.Parse.{Bytes, skip_whitespace}
use libdynd.Parse.Names.{every_byte}
use libdynd.Parse.Numbers.{parse_json_number_no_ws}
use libdynd.Json.Format.{
  Value, Values, Fields, bool_value, number_value, string_value, text_value, not_available,
  json_value, struct_value, dim_value, no_values, value, no_fields, field, format_json,
}
use libdynd.Json.StringScans.{High}
use libdynd.Json.Skip.{skipped, and_skip, validate_json}
use libdynd.Json.Scalars.{
  all_taken, Skips, Skips-true, Skips-false, Skips-null, Skips-string, Skips-number,
}
use libdynd.Json.Arrays.{AllSkip, Skips-array, values_of, format_field_values-values}
use libdynd.Json.Objects.{AllFieldsSkip, AllSkip-values_of, Skips-object}

-- The numbers are printed as JSON numbers, and no value of the JSON type is copied.
unfoldable mutual
  pub is_formattable : Value → Bool
  is_formattable (bool_value b) = true
  is_formattable (number_value text) = all_taken (parse_json_number_no_ws text)
  is_formattable (string_value s) = true
  is_formattable (text_value s) = true
  is_formattable not_available = true
  is_formattable (json_value text) = false
  is_formattable (struct_value fs) = fields_formattable fs
  is_formattable (dim_value vs) = values_formattable vs

  pub values_formattable : Values → Bool
  values_formattable no_values = true
  values_formattable (value v vs) = is_formattable v && values_formattable vs

  pub fields_formattable : Fields → Bool
  fields_formattable no_fields = true
  fields_formattable (field name v fs) = is_formattable v && fields_formattable fs

module _ (utf8 : ℕ → Bytes) (sal : Bool) (high : High utf8) where
  FormatSkips : Value → Type 0
  FormatSkips v = is_formattable v ≡ true → Skips (format_json utf8 sal v)

  ValuesSkip : Values → Type 0
  ValuesSkip vs = values_formattable vs ≡ true → AllSkip utf8 sal vs

  FieldsSkip : Fields → Type 0
  FieldsSkip fs = fields_formattable fs ≡ true → AllFieldsSkip utf8 sal fs

  Skips-struct :
      (fs : Fields) → AllFieldsSkip utf8 sal fs → Skips (format_json utf8 sal (struct_value fs))
  unfolding format_json
  Skips-struct fs h =
      by_test Skips sal
        (λ _.
          rw (format_field_values-values utf8 sal fs)
            (Skips-array utf8 sal (values_of fs) (AllSkip-values_of utf8 sal fs h)))
        (λ _. Skips-object utf8 sal high fs h)

  format_json-Skips : (v : Value) → FormatSkips v
  unfolding format_json is_formattable AllSkip AllFieldsSkip FormatSkips ValuesSkip FieldsSkip
  format_json-Skips v = elim v as FormatSkips ValuesSkip FieldsSkip [
    | bool_value true ↦ λ h. Skips-true
    | bool_value false ↦ λ h. Skips-false
    | number_value text ↦ λ h. Skips-number text h
    | string_value s ↦ λ h. Skips-string utf8 high s
    | text_value s ↦ λ h. Skips-string utf8 high s
    | not_available ↦ λ h. Skips-null
    | json_value text ↦ λ h. absurd (ground (arith, h))
    | struct_value (fs → ih) ↦ λ h. Skips-struct fs (ih h)
    | dim_value (vs → ih) ↦ λ h. Skips-array utf8 sal vs (ih h)
    | no_values ↦ λ h. tt
    | value (w → ih) (vs → ihs) ↦ λ h. let parts = and_parts _ _ h in (ih parts.0, ihs parts.1)
    | no_fields ↦ λ h. tt
    | field name (w → ih) (fs → ihs) ↦ λ h. let parts = and_parts _ _ h in (ih parts.0, ihs parts.1)
  ]

-- The bytes of a code point from 128 on are not below 128: then a value whose numbers are printed
-- as JSON numbers, and which holds no value of the JSON type, is formatted as a text that
-- `validate_json` accepts, with structs as objects and with structs as lists.
pub validate_json-format_json :
    (utf8 : ℕ → Bytes) (struct_as_list : Bool) (v : Value)
    → ((cp : ℕ) → 128 ≤ cp → every_byte (leb 128) (utf8 cp) ≡ true)
    → is_formattable v ≡ true
    → validate_json (format_json utf8 struct_as_list v) ≡ skipped []
unfolding High FormatSkips validate_json and_skip skip_whitespace
validate_json-format_json utf8 sal v high h =
    let text = format_json utf8 sal v in
    let whole =
      (format_json-Skips utf8 sal high v h).skips (4 * length text + 2) [] (omega arith) refl in
    rw (rw append-nil at whole) refl
