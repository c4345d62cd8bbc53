-- ===== src/Parse/StringLaws.antt =====
-- What the scan of a quoted string finds, and what it may leave out.
use libdynd.Common.{
  by_test, ℕ, ◌≡◌, ◌∙◌, refl, sym, ap, subst, arith, Bool, true, false, [], ◌∷◌, ◌++◌, ◌==◌, ==_iff,
  append-nil, append_assoc,
}
use libdynd.Parse.{Bytes}
use libdynd.Parse.Strings.{
  Quoted, no_quote, parse_error, quoted, prepend, Place, in_text, after_backslash, in_hex,
  is_hex_digit, is_simple_escape, hex_next, scan_string, parse_doublequote_string_no_ws,
  unescape_loop, unescape_string,
}

-- The text of a scan that succeeds is what it found, a quote, and what it left.
abbrev pub Spells : Bytes → Quoted → Type 0
Spells s (quoted body rest escaped) = s ≡ body ++ (34 ∷ rest)
Spells s no_quote = Unit
Spells s parse_error = Unit

Spells-prepend : (c : ℕ) (s : Bytes) (q : Quoted) → Spells s q → Spells (c ∷ s) (prepend c q)
Spells-prepend c s (quoted body rest escaped) h = ap (λ t. c ∷ t) h
Spells-prepend c s no_quote h = tt
Spells-prepend c s parse_error h = tt

pub Spells-scan_string :
    (place : Place) (escaped : Bool) (s : Bytes) → Spells s (scan_string place escaped s)
unfolding scan_string
Spells-scan_string in_text e [] = tt
Spells-scan_string after_backslash e [] = tt
Spells-scan_string (in_hex n) e [] = tt
Spells-scan_string in_text e (c ∷ s) =
    by_test (Spells (c ∷ s)) (c == 92)
      (λ h. Spells-prepend c s _ (Spells-scan_string after_backslash true s))
      (λ h.
        by_test (Spells (c ∷ s)) (c == 34) (λ k. ap (λ d. d ∷ s) ((==_iff c 34).0 k))
          (λ k. Spells-prepend c s _ (Spells-scan_string in_text e s)))
Spells-scan_string after_backslash e (c ∷ s) =
    by_test (Spells (c ∷ s)) (is_simple_escape c)
      (λ h. Spells-prepend c s _ (Spells-scan_string in_text e s))
      (λ h.
        by_test (Spells (c ∷ s)) (c == b'u')
          (λ k. Spells-prepend c s _ (Spells-scan_string (in_hex 3) e s))
          (λ k.
            by_test (Spells (c ∷ s)) (c == b'U')
              (λ l. Spells-prepend c s _ (Spells-scan_string (in_hex 7) e s)) (λ l. tt)))
Spells-scan_string (in_hex n) e (c ∷ s) =
    by_test (Spells (c ∷ s)) (is_hex_digit c)
      (λ h. Spells-prepend c s _ (Spells-scan_string (hex_next n) e s)) (λ h. tt)

-- A scan flags an escape, if it succeeds.
abbrev Flags : Quoted → Type 0
Flags (quoted body rest escaped) = escaped ≡ true
Flags no_quote = Unit
Flags parse_error = Unit

Flags-prepend : (c : ℕ) (q : Quoted) → Flags q → Flags (prepend c q)
Flags-prepend c (quoted body rest escaped) h = h
Flags-prepend c no_quote h = tt
Flags-prepend c parse_error h = tt

Flags-scan_string : (place : Place) (s : Bytes) → Flags (scan_string place true s)
unfolding scan_string
Flags-scan_string in_text [] = tt
Flags-scan_string after_backslash [] = tt
Flags-scan_string (in_hex n) [] = tt
Flags-scan_string in_text (c ∷ s) =
    by_test Flags (c == 92) (λ h. Flags-prepend c _ (Flags-scan_string after_backslash s))
      (λ h.
        by_test Flags (c == 34) (λ k. refl) (λ k. Flags-prepend c _ (Flags-scan_string in_text s)))
Flags-scan_string after_backslash (c ∷ s) =
    by_test Flags (is_simple_escape c) (λ h. Flags-prepend c _ (Flags-scan_string in_text s))
      (λ h.
        by_test Flags (c == b'u') (λ k. Flags-prepend c _ (Flags-scan_string (in_hex 3) s))
          (λ k.
            by_test Flags (c == b'U') (λ l. Flags-prepend c _ (Flags-scan_string (in_hex 7) s))
              (λ l. tt)))
Flags-scan_string (in_hex n) (c ∷ s) =
    by_test Flags (is_hex_digit c) (λ h. Flags-prepend c _ (Flags-scan_string (hex_next n) s))
      (λ h. tt)

module _ (append_utf8_codepoint : ℕ → Bytes → Bytes) where
  -- A string that is found with no escape is copied as it stands.
  abbrev pub Copies : Quoted → Type 0
  Copies (quoted body rest escaped) =
      escaped ≡ false
      → (out : Bytes) → unescape_loop append_utf8_codepoint in_text 0 out body ≡ out ++ body
  Copies no_quote = Unit
  Copies parse_error = Unit

  Copies-Flags : (q : Quoted) → Flags q → Copies q
  Copies-Flags (quoted body rest escaped) h = λ k. absurd (ground arith)
  Copies-Flags no_quote h = tt
  Copies-Flags parse_error h = tt

  Copies-prepend : (c : ℕ) (q : Quoted) → (c == 92) ≡ false → Copies q → Copies (prepend c q)
  unfolding unescape_loop
  Copies-prepend c (quoted body rest escaped) plain h =
      λ k out. rw plain (h k (out ++ (c ∷ [])) ∙ append_assoc out (c ∷ []) body)
  Copies-prepend c no_quote plain h = tt
  Copies-prepend c parse_error plain h = tt

  Copies-scan_string : (s : Bytes) → Copies (scan_string in_text false s)
  unfolding scan_string unescape_loop
  Copies-scan_string [] = tt
  Copies-scan_string (c ∷ s) =
      by_test Copies (c == 92)
        (λ h. Copies-Flags _ (Flags-prepend c _ (Flags-scan_string after_backslash s)))
        (λ h.
          by_test Copies (c == 34) (λ k e out. sym (append-nil out))
            (λ k. Copies-prepend c _ h (Copies-scan_string s)))

  Copies-parse : (s : Bytes) → Copies (parse_doublequote_string_no_ws s)
  unfolding parse_doublequote_string_no_ws
  Copies-parse [] = tt
  Copies-parse (c ∷ s) = by_test Copies (c == 34) (λ h. Copies-scan_string s) (λ h. tt)

abbrev QuoteSpells : Bytes → Quoted → Type 0
QuoteSpells s (quoted body rest escaped) = s ≡ 34 ∷ (body ++ (34 ∷ rest))
QuoteSpells s no_quote = Unit
QuoteSpells s parse_error = Unit

QuoteSpells-cons : (s : Bytes) (q : Quoted) → Spells s q → QuoteSpells (34 ∷ s) q
QuoteSpells-cons s (quoted body rest escaped) h = ap (λ t. 34 ∷ t) h
QuoteSpells-cons s no_quote h = tt
QuoteSpells-cons s parse_error h = tt

QuoteSpells-parse : (s : Bytes) → QuoteSpells s (parse_doublequote_string_no_ws s)
unfolding parse_doublequote_string_no_ws
QuoteSpells-parse [] = tt
QuoteSpells-parse (c ∷ s) =
    by_test (QuoteSpells (c ∷ s)) (c == 34)
      (λ h.
        subst (λ d. QuoteSpells (d ∷ s) (scan_string in_text false s)) (sym ((==_iff c 34).0 h))
          (QuoteSpells-cons s _ (Spells-scan_string in_text false s)))
      (λ h. tt)

-- A scan that succeeds splits the text into a quote, the body that it gives, a quote, and the rest
-- that it leaves.
pub parse_doublequote_string_no_ws-split :
    (s body rest : Bytes) (escaped : Bool)
    → parse_doublequote_string_no_ws s ≡ quoted body rest escaped
    → s ≡ 34 ∷ (body ++ (34 ∷ rest))
parse_doublequote_string_no_ws-split s body rest escaped h =
    subst (QuoteSpells s) h (QuoteSpells-parse s)

-- If the scan flags no escape, `unescape_string` leaves the body as it is, so the body may be used
-- without it.
pub unescape_string-unescaped :
    (append_utf8_codepoint : ℕ → Bytes → Bytes) (s body rest : Bytes)
    → parse_doublequote_string_no_ws s ≡ quoted body rest false
    → unescape_string append_utf8_codepoint body ≡ body
unfolding unescape_string
unescape_string-unescaped append s body rest h =
    subst (Copies append) h (Copies-parse append s) refl []
