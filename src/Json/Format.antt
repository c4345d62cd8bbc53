-- ===== src/Json/Format.antt =====
-- The formatting of values as JSON, of src/dynd/json_formatter.cpp, with `hexadecimal_print` of
-- src/dynd/type.cpp. A function gives the text that it writes to the output. A value stands for
-- the data of an array that the switch on its type finds: a string is the code points that are
-- read from it. The bytes `utf8 cp` that the library for UTF-8 appends for a code point from 128 on
-- are a parameter. A type that cannot be formatted, which throws, has no value here.
use libdynd.Common.{
  ℕ, ◌/◌, ◌%◌, Bool, true, false, ◌||◌, List, [], ◌∷◌, ◌++◌, get_or, ltb, ◌==◌, if◌then◌else◌,
  codes,
}
use libdynd.Parse.{Bytes}

-- The overload for a `char`, and that for an `unsigned short`.
abbrev pub hex_digit : ℕ → ℕ
hex_digit d = get_or (codes "0123456789abcdef") d 0

unfoldable pub hexadecimal_print_char : ℕ → Bytes
hexadecimal_print_char v = hex_digit (v / 16) ∷ hex_digit (v % 16) ∷ []

unfoldable pub hexadecimal_print : ℕ → Bytes
unfolding hexadecimal_print_char
hexadecimal_print value =
    hexadecimal_print_char (value / 256 % 256) ++ hexadecimal_print_char (value % 256)

mutual
  pub data Value : Type 0 where
    bool_value : Bool → Value
    -- What `print_data` prints for a number.
    number_value : Bytes → Value
    string_value : List ℕ → Value
    -- What `print_data` prints for a date, a datetime or a type.
    text_value : Bytes → Value
    not_available : Value
    -- A value of the JSON type, which is copied.
    json_value : Bytes → Value
    struct_value : Fields → Value
    dim_value : Values → Value

  pub data Values : Type 0 where
    no_values : Values
    value : Value → Values → Values

  pub data Fields : Type 0 where
    no_fields : Fields
    field : (name : List ℕ) → Value → Fields → Fields

-- ',' where `i != size - 1`.
abbrev pub comma_before : Values → Bytes
comma_before no_values = []
comma_before (value v vs) = b',' ∷ []

abbrev pub comma_before_field : Fields → Bytes
comma_before_field no_fields = []
comma_before_field (field name v fs) = b',' ∷ []

module _ (utf8 : ℕ → Bytes) where
  unfoldable pub print_escaped_unicode_codepoint : ℕ → Bytes
  print_escaped_unicode_codepoint cp =
      if ltb cp 128
      then (if cp == 8
          then codes "\\b"
          else if cp == 12
          then codes "\\f"
          else if cp == 10
          then codes "\\n"
          else if cp == 13
          then codes "\\r"
          else if cp == 9
          then codes "\\t"
          else if cp == 92
          then codes "\\\\"
          else if cp == b'/'
          then codes "\\/"
          else if cp == 34
          then codes "\\\""
          else if ltb cp 32 || (cp == 127)
          then codes "\\u" ++ hexadecimal_print cp
          else cp ∷ [])
      else utf8 cp

  -- What stands between the quotes.
  unfoldable pub escaped_string : List ℕ → Bytes
  escaped_string [] = []
  escaped_string (cp ∷ s) = print_escaped_unicode_codepoint cp ++ escaped_string s

  unfoldable pub format_json_encoded_string : List ℕ → Bytes
  format_json_encoded_string s = 34 ∷ (escaped_string s ++ (34 ∷ []))

  -- The formats of a kind each are cases of `format_json`.
  module _ (struct_as_list : Bool) where
    unfoldable mutual
      pub format_json : Value → Bytes
      format_json (bool_value true) = codes "true"
      format_json (bool_value false) = codes "false"
      format_json (number_value text) = text
      format_json (string_value s) = format_json_encoded_string s
      format_json (text_value s) = format_json_encoded_string s
      format_json not_available = codes "null"
      format_json (json_value text) = text
      format_json (struct_value fs) =
          if struct_as_list
          then b'[' ∷ (format_field_values fs ++ (b']' ∷ []))
          else b'{' ∷ (format_fields fs ++ (b'}' ∷ []))
      format_json (dim_value vs) = b'[' ∷ (format_values vs ++ (b']' ∷ []))

      pub format_values : Values → Bytes
      format_values no_values = []
      format_values (value v vs) = format_json v ++ (comma_before vs ++ format_values vs)

      pub format_fields : Fields → Bytes
      format_fields no_fields = []
      format_fields (field name v fs) =
          format_json_encoded_string name
          ++ (b':' ∷ (format_json v ++ (comma_before_field fs ++ format_fields fs)))

      -- The fields of a struct as a list, without their names.
      pub format_field_values : Fields → Bytes
      format_field_values no_fields = []
      format_field_values (field name v fs) =
          format_json v ++ (comma_before_field fs ++ format_field_values fs)
