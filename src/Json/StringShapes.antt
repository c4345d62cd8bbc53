-- ===== src/Json/StringShapes.antt =====
-- What `print_escaped_unicode_codepoint` of src/dynd/type.cpp prints for a code point below 128.
use libdynd.Common.{
  ℕ, ◌/◌, ◌%◌, ◌<◌, ◌≡◌, refl, arith, Bool, true, false, not, ◌&&◌, ◌||◌, [], ◌∷◌, ◌++◌, ltb, ◌==◌,
  ==_iff, if◌then◌else◌, by_test, and_parts, codes, accepts_up_to, accepts_up_to-at,
}
use libdynd.Parse.{Bytes}
use libdynd.Parse.Strings.{is_hex_digit, is_simple_escape, simple_escape, hex_step}
use libdynd.Json.Format.{
  hex_digit, hexadecimal_print_char, hexadecimal_print, print_escaped_unicode_codepoint,
}

-- What a code point below 128 is printed as: itself, an escape of one letter, or one of four digits.
pub data Shape (cp : ℕ) : Bytes → Type 0 where
  plain : (cp == 92) ≡ false → (cp == 34) ≡ false → Shape cp (cp ∷ [])
  simple :
      (x : ℕ)
      → is_simple_escape x ≡ true
      → (x == b'u') ≡ false
      → (x == b'U') ≡ false
      → simple_escape x ≡ cp
      → Shape cp (92 ∷ x ∷ [])
  unicode :
      (a b c d : ℕ)
      → is_hex_digit a && is_hex_digit b && is_hex_digit c && is_hex_digit d ≡ true
      → hex_step (hex_step (hex_step (hex_step 0 a) b) c) d ≡ cp
      → Shape cp (92 ∷ b'u' ∷ a ∷ b ∷ c ∷ d ∷ [])

-- Four digits are read as a number.
good_digits : ℕ → ℕ → ℕ → ℕ → ℕ → Bool
good_digits cp a b c d =
    (is_hex_digit a && is_hex_digit b && is_hex_digit c && is_hex_digit d)
    && (hex_step (hex_step (hex_step (hex_step 0 a) b) c) d == cp)

printed_digits : ℕ → Bool
printed_digits cp =
    good_digits cp (hex_digit (cp / 256 % 256 / 16)) (hex_digit (cp / 256 % 256 % 16))
      (hex_digit (cp % 256 / 16)) (hex_digit (cp % 256 % 16))

unicode_at :
    (cp a b c d : ℕ) → good_digits cp a b c d ≡ true → Shape cp (92 ∷ b'u' ∷ a ∷ b ∷ c ∷ d ∷ [])
unfolding good_digits
unicode_at cp a b c d h =
    let parts = and_parts _ _ h in unicode a b c d parts.0 ((==_iff _ cp).0 parts.1)

-- A test for a byte with an escape of one letter.
escape_or :
    (cp a x : ℕ) {other : Bytes}
    → is_simple_escape x && not ((x == b'u') || (x == b'U')) && (simple_escape x == a) ≡ true
    → (cp == a ≡ false → Shape cp other)
    → Shape cp (if cp == a then 92 ∷ x ∷ [] else other)
escape_or cp a x h other =
    by_test (Shape cp) (cp == a)
      (λ e.
        simple x (ground (arith, h)) (ground (arith, h)) (ground (arith, h)) (ground (arith, h, e)))
      (λ e. other e)

printed_digits-at : (cp : ℕ) → cp < 128 → printed_digits cp ≡ true
unfolding accepts_up_to printed_digits good_digits
printed_digits-at cp small = accepts_up_to-at printed_digits 128 cp small refl

module _ (utf8 : ℕ → Bytes) where
  Shape-hexadecimal_print : (cp : ℕ) → cp < 128 → Shape cp (codes "\\u" ++ hexadecimal_print cp)
  unfolding hexadecimal_print hexadecimal_print_char printed_digits
  Shape-hexadecimal_print cp small = unicode_at cp _ _ _ _ (printed_digits-at cp small)

  pub Shape-print : (cp : ℕ) → cp < 128 → Shape cp (print_escaped_unicode_codepoint utf8 cp)
  unfolding print_escaped_unicode_codepoint
  Shape-print cp small =
      by_test (Shape cp) (ltb cp 128)
        (λ _. escape_or cp 8 b'b' refl (λ _. escape_or cp 12 b'f' refl (λ _.
          escape_or cp 10 b'n' refl (λ _. escape_or cp 13 b'r' refl (λ _.
            escape_or cp 9 b't' refl (λ _. escape_or cp 92 92 refl (λ backslash.
              escape_or cp b'/' b'/' refl (λ _. escape_or cp 34 34 refl (λ quote.
                by_test (Shape cp) (ltb cp 32 || (cp == 127))
                  (λ _. Shape-hexadecimal_print cp small) (λ _. plain backslash quote))))))))))
        (λ h. absurd (ground arith))
