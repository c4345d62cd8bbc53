-- ===== src/Json/StringScans.antt =====
-- The scan of quoted strings, of src/dynd/parser_util.cpp, on the parts of a formatted string.
use libdynd.Common.{
  ℕ, ◌≤◌, ◌≡◌, ap, arith, Bool, true, false, ◌&&◌, [], ◌∷◌, ◌++◌, leb, ◌==◌, if◌then◌else◌,
  and_parts,
}
use libdynd.Parse.{Bytes}
use libdynd.Parse.Names.{every_byte}
use libdynd.Parse.Strings.{
  Quoted, no_quote, parse_error, quoted, prepend, in_text, is_hex_digit, is_simple_escape,
  scan_string,
}
use libdynd.Json.StringShapes.{Shape, plain, simple, unicode}

-- What a scan found: what stands between the quotes, and what is behind them.
abbrev pub Found : Bytes → Bytes → Quoted → Type 0
Found body rest (quoted b r escaped) = (b ≡ body) × (r ≡ rest)
Found body rest no_quote = ⊥
Found body rest parse_error = ⊥

Found-prepend :
    (c : ℕ) (body rest : Bytes) (q : Quoted)
    → Found body rest q
    → Found (c ∷ body) rest (prepend c q)
Found-prepend c body rest (quoted b r escaped) h = (ap (λ t. c ∷ t) h.0, h.1)
Found-prepend c body rest no_quote h = absurd h
Found-prepend c body rest parse_error h = absurd h

Found-digit :
    (c : ℕ) (body rest : Bytes) (q : Quoted)
    → is_hex_digit c ≡ true
    → Found body rest q
    → Found (c ∷ body) rest (if is_hex_digit c then prepend c q else parse_error)
Found-digit c body rest q e h = rw e (Found-prepend c body rest q h)

-- A text from which the scan finds `body` and `rest`, whether or not it has met an escape.
unfoldable pub Scans : Bytes → Bytes → Bytes → Type 0
Scans body rest s = (escaped : Bool) → Found body rest (scan_string in_text escaped s)

module _ (body rest s : Bytes) (h : Scans body rest s) where
  Scans-plain : (c : ℕ) → (c == 92) ≡ false → (c == 34) ≡ false → Scans (c ∷ body) rest (c ∷ s)
  unfolding Scans scan_string
  Scans-plain c backslash quote escaped = rw (backslash, quote) (Found-prepend c _ _ _ (h escaped))

  Scans-simple : (x : ℕ) → is_simple_escape x ≡ true → Scans (92 ∷ x ∷ body) rest (92 ∷ x ∷ s)
  unfolding Scans scan_string
  Scans-simple x e escaped = rw e (Found-prepend 92 _ _ _ (Found-prepend x _ _ _ (h true)))

  Scans-unicode :
      (a b c d : ℕ)
      → is_hex_digit a && is_hex_digit b && is_hex_digit c && is_hex_digit d ≡ true
      → Scans (92 ∷ b'u' ∷ a ∷ b ∷ c ∷ d ∷ body) rest (92 ∷ b'u' ∷ a ∷ b ∷ c ∷ d ∷ s)
  unfolding Scans scan_string
  Scans-unicode a b c d e escaped =
      let abcd = and_parts _ (is_hex_digit d) e in
      let abc = and_parts _ (is_hex_digit c) abcd.0 in
      let ab = and_parts _ (is_hex_digit b) abc.0 in
      Found-prepend 92 _ _ _ (
        Found-prepend b'u' _ _ _ (
          Found-digit a _ _ _ ab.0 (
            Found-digit b _ _ _ ab.1
              (Found-digit c _ _ _ abc.1 (Found-digit d _ _ _ abcd.1 (h true))))))

  pub Scans-Shape : (cp : ℕ) (text : Bytes) → Shape cp text → Scans (text ++ body) rest (text ++ s)
  Scans-Shape cp _ (plain backslash quote) = Scans-plain cp backslash quote
  Scans-Shape cp _ (simple x e u v w) = Scans-simple x e
  Scans-Shape cp _ (unicode a b c d e v) = Scans-unicode a b c d e

-- The bytes of a code point from 128 on are not below 128.
unfoldable pub High : (ℕ → Bytes) → Type 0
High utf8 = (cp : ℕ) → 128 ≤ cp → every_byte (leb 128) (utf8 cp) ≡ true

pub Scans-high :
    (u body rest s : Bytes)
    → every_byte (leb 128) u ≡ true
    → Scans body rest s
    → Scans (u ++ body) rest (u ++ s)
Scans-high [] body rest s e h = h
Scans-high (c ∷ u) body rest s e h =
    let parts = and_parts (leb 128 c) _ e in
    Scans-plain _ rest _ (Scans-high u body rest s parts.1 h) c (ground (arith, parts.0))
      (ground (arith, parts.0))
