-- ===== src/Json/StringRoundTrip.antt =====
-- A string that is formatted is found by the scan of quoted strings, and unescaped to its UTF-8 text.
use libdynd.Common.{
  ℕ, ◌≤◌, ◌<◌, ◌≡◌, inl, inr, refl, ap, sym, ◌∙◌, subst, arith, true, false, List, [], ◌∷◌, ◌++◌,
  append_assoc, append-nil, leb, ltb, Bool-cases, ltb→lt,
}
use libdynd.Parse.{Bytes}
use libdynd.Parse.Names.{every_byte}
use libdynd.Parse.Strings.{
  Quoted, no_quote, parse_error, quoted, in_text, scan_string, parse_doublequote_string_no_ws,
  unescape_loop, unescape_string,
}
use libdynd.Json.Skip.{skipped, string_or_throw}
use libdynd.Json.Format.{
  print_escaped_unicode_codepoint, escaped_string, format_json_encoded_string,
}
use libdynd.Json.StringShapes.{Shape-print}
use libdynd.Json.StringScans.{Found, Scans, Scans-Shape, Scans-high, High}
use libdynd.Json.StringAppends.{
  Appends, AppendsAscii, Appends-Shape, Appends-high, utf8_bytes, utf8_text,
}

print-high :
    (utf8 : ℕ → Bytes) (cp : ℕ)
    → ltb cp 128 ≡ false
    → print_escaped_unicode_codepoint utf8 cp ≡ utf8 cp
unfolding print_escaped_unicode_codepoint
print-high utf8 cp e = rw e refl

module _ (utf8 : ℕ → Bytes) (high : High utf8) where
  high-at : (cp : ℕ) → ltb cp 128 ≡ false → every_byte (leb 128) (utf8 cp) ≡ true
  unfolding High
  high-at cp e = high cp (ground arith)

  Scans-print :
      (cp : ℕ) (body rest s : Bytes)
      → Scans body rest s
      → Scans
          (print_escaped_unicode_codepoint utf8 cp ++ body)
          rest
          (print_escaped_unicode_codepoint utf8 cp ++ s)
  Scans-print cp body rest s h = elim (Bool-cases (ltb cp 128)) [
    | inl e ↦ Scans-Shape body rest s h cp _ (Shape-print utf8 cp (ltb→lt cp 128 e))
    | inr e ↦ rw (print-high utf8 cp e) (Scans-high (utf8 cp) body rest s (high-at cp e) h)
  ]

  Scans-escaped_string :
      (s : List ℕ) (rest : Bytes)
      → Scans (escaped_string utf8 s) rest (escaped_string utf8 s ++ (34 ∷ rest))
  unfolding escaped_string Scans scan_string
  Scans-escaped_string [] rest = λ escaped. (refl, refl)
  Scans-escaped_string (cp ∷ s) rest =
      subst (Scans _ rest)
        (sym (
          append_assoc (print_escaped_unicode_codepoint utf8 cp) (escaped_string utf8 s)
            (34 ∷ rest)))
        (Scans-print cp (escaped_string utf8 s) rest _ (Scans-escaped_string s rest))

  -- The scan of a formatted string.
  Found-format_json_encoded_string :
      (s : List ℕ) (rest : Bytes)
      → Found
          (escaped_string utf8 s)
          rest
          (parse_doublequote_string_no_ws (format_json_encoded_string utf8 s ++ rest))
  unfolding parse_doublequote_string_no_ws format_json_encoded_string Scans
  Found-format_json_encoded_string s rest =
      rw (append_assoc (escaped_string utf8 s) (34 ∷ []) rest) (Scans-escaped_string s rest false)

  module _ (append : ℕ → Bytes → Bytes) (ascii : AppendsAscii append) where
    Appends-print :
        (cp : ℕ) (s text : Bytes)
        → Appends append s text
        → Appends append (print_escaped_unicode_codepoint utf8 cp ++ s) (utf8_bytes utf8 cp ++ text)
    Appends-print cp s text h = elim (Bool-cases (ltb cp 128)) [
      | inl e ↦
          let small = ltb→lt cp 128 e in
          rw e (Appends-Shape append s text h ascii cp _ small (Shape-print utf8 cp small))
      | inr e ↦ rw (e, print-high utf8 cp e) (Appends-high append (utf8 cp) s text (high-at cp e) h)
    ]

    Appends-escaped_string :
        (s : List ℕ) → Appends append (escaped_string utf8 s) (utf8_text utf8 s)
    unfolding escaped_string Appends unescape_loop
    Appends-escaped_string [] = λ out. sym (append-nil out)
    Appends-escaped_string (cp ∷ s) = Appends-print cp _ _ (Appends-escaped_string s)

-- What a scan found, once it is unescaped, and what is behind it.
abbrev pub Reads : (ℕ → Bytes → Bytes) → Bytes → Bytes → Quoted → Type 0
Reads append text rest (quoted body r escaped) = (unescape_string append body ≡ text) × (r ≡ rest)
Reads append text rest no_quote = ⊥
Reads append text rest parse_error = ⊥

Reads-Found :
    (append : ℕ → Bytes → Bytes) (body text rest : Bytes) (q : Quoted)
    → Appends append body text
    → Found body rest q
    → Reads append text rest q
unfolding Appends unescape_string
Reads-Found append body text rest (quoted b r escaped) h f =
    (ap (unescape_loop append in_text 0 []) f.0 ∙ h [], f.1)
Reads-Found append body text rest no_quote h f = absurd f
Reads-Found append body text rest parse_error h f = absurd f

-- The bytes of a code point from 128 on are not below 128, and a code point below 128 is appended
-- as its byte: then a string that is formatted, whatever stands behind it, is found by the scan of
-- quoted strings, which leaves what stands behind it, and unescaped to its UTF-8 text.
pub format_json_encoded_string-Reads :
    (utf8 : ℕ → Bytes) (append : ℕ → Bytes → Bytes)
    → ((cp : ℕ) → 128 ≤ cp → every_byte (leb 128) (utf8 cp) ≡ true)
    → ((cp : ℕ) (out : Bytes) → cp < 128 → append cp out ≡ out ++ (cp ∷ []))
    → (s : List ℕ) (rest : Bytes)
    → Reads append
        (utf8_text utf8 s)
        rest
        (parse_doublequote_string_no_ws (format_json_encoded_string utf8 s ++ rest))
unfolding High AppendsAscii
format_json_encoded_string-Reads utf8 append high ascii s rest =
    Reads-Found append _ _ rest _ (Appends-escaped_string utf8 high append ascii s)
      (Found-format_json_encoded_string utf8 high s rest)

skipped-Found :
    (body rest : Bytes) (q : Quoted) → Found body rest q → string_or_throw q ≡ skipped rest
skipped-Found body rest (quoted b r escaped) f = ap skipped f.1
skipped-Found body rest no_quote f = absurd f
skipped-Found body rest parse_error f = absurd f

pub string_or_throw-format :
    (utf8 : ℕ → Bytes) (high : High utf8) (s : List ℕ) (rest : Bytes)
    → string_or_throw (parse_doublequote_string_no_ws (format_json_encoded_string utf8 s ++ rest))
      ≡ skipped rest
string_or_throw-format utf8 high s rest =
    skipped-Found _ rest _ (Found-format_json_encoded_string utf8 high s rest)
