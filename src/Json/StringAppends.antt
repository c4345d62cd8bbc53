-- ===== src/Json/StringAppends.antt =====
-- `unescape_string` of src/dynd/parser_util.cpp on the parts of a formatted string.
use libdynd.Common.{
  ℕ, ◌<◌, ◌≡◌, refl, ap, ◌∙◌, subst, arith, true, false, List, [], ◌∷◌, ◌++◌, append_assoc, leb,
  ltb, ◌==◌, if◌then◌else◌, and_parts,
}
use libdynd.Parse.{Bytes}
use libdynd.Parse.Names.{every_byte}
use libdynd.Parse.Strings.{in_text, simple_escape, hex_step, unescape_loop}
use libdynd.Json.StringShapes.{Shape, plain, simple, unicode}

-- An output that the rest of a text is appended to.
unfoldable pub Appends : (ℕ → Bytes → Bytes) → Bytes → Bytes → Type 0
Appends append s text = (out : Bytes) → unescape_loop append in_text 0 out s ≡ out ++ text

-- The parameter appends a code point below 128 as it is.
unfoldable pub AppendsAscii : (ℕ → Bytes → Bytes) → Type 0
AppendsAscii append = (cp : ℕ) (out : Bytes) → cp < 128 → append cp out ≡ out ++ (cp ∷ [])

module _ (append : ℕ → Bytes → Bytes) where
  unescape_loop-in_text :
      (cp : ℕ) (out s : Bytes)
      → unescape_loop append in_text cp out s ≡ unescape_loop append in_text 0 out s
  unfolding unescape_loop
  unescape_loop-in_text cp out [] = refl
  unescape_loop-in_text cp out (c ∷ s) = refl

  module _ (s text : Bytes) (h : Appends append s text) where
    Appends-one :
        (c : ℕ) (out : Bytes)
        → unescape_loop append in_text 0 (out ++ (c ∷ [])) s ≡ out ++ (c ∷ text)
    unfolding Appends
    Appends-one c out = h (out ++ (c ∷ [])) ∙ append_assoc out (c ∷ []) text

    Appends-plain : (c : ℕ) → (c == 92) ≡ false → Appends append (c ∷ s) (c ∷ text)
    unfolding Appends unescape_loop
    Appends-plain c backslash out = rw backslash (Appends-one c out)

    Appends-simple :
        (x : ℕ)
        → (x == b'u') ≡ false
        → (x == b'U') ≡ false
        → Appends append (92 ∷ x ∷ s) (simple_escape x ∷ text)
    unfolding Appends unescape_loop
    Appends-simple x u v out = rw (u, v) (Appends-one (simple_escape x) out)

    Appends-unicode :
        (ascii : AppendsAscii append) (a b c d cp : ℕ)
        → hex_step (hex_step (hex_step (hex_step 0 a) b) c) d ≡ cp
        → cp < 128
        → Appends append (92 ∷ b'u' ∷ a ∷ b ∷ c ∷ d ∷ s) (cp ∷ text)
    unfolding Appends AppendsAscii unescape_loop
    Appends-unicode ascii a b c d cp e small out =
        unescape_loop-in_text _ _ s
        ∙ (ap (λ o. unescape_loop append in_text 0 o s)
              (ap (λ n. append n out) e ∙ ascii cp out small)
            ∙ Appends-one cp out)

    pub Appends-Shape :
        (ascii : AppendsAscii append) (cp : ℕ) (shape : Bytes)
        → cp < 128
        → Shape cp shape
        → Appends append (shape ++ s) (cp ∷ text)
    Appends-Shape ascii cp _ small (plain backslash quote) = Appends-plain cp backslash
    Appends-Shape ascii cp _ small (simple x e u v w) =
        subst (λ c. Appends append (92 ∷ x ∷ s) (c ∷ text)) w (Appends-simple x u v)
    Appends-Shape ascii cp _ small (unicode a b c d e v) = Appends-unicode ascii a b c d cp v small

  pub Appends-high :
      (u s text : Bytes)
      → every_byte (leb 128) u ≡ true
      → Appends append s text
      → Appends append (u ++ s) (u ++ text)
  Appends-high [] s text e h = h
  Appends-high (c ∷ u) s text e h =
      let parts = and_parts (leb 128 c) _ e in
      Appends-plain _ _ (Appends-high u s text parts.1 h) c (ground (arith, parts.0))

-- The UTF-8 bytes of a code point, and of a text.
abbrev pub utf8_bytes : (ℕ → Bytes) → ℕ → Bytes
utf8_bytes utf8 cp = if ltb cp 128 then cp ∷ [] else utf8 cp

abbrev pub utf8_text : (ℕ → Bytes) → List ℕ → Bytes
utf8_text utf8 [] = []
utf8_text utf8 (cp ∷ s) = utf8_bytes utf8 cp ++ utf8_text utf8 s
