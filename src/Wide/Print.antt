-- ===== src/Wide/Print.antt =====
-- The text of a `uint128` is read back by `checked_string_to_uint128`.
use libdynd.Common.{
  ℕ, zero, suc, ◌+◌, ◌*◌, ◌^◌, ◌<◌, ◌≡◌, refl, sym, ap, ◌∙◌, arith, true, false, ◌==◌, ==_iff,
  if◌then◌else◌, [], ◌∷◌, Bool-cases, inl, inr,
}
use libdynd.Parse.{Bytes, is_digit}
use libdynd.Parse.Integers.{is_empty, checked_string_to_uint}
use libdynd.Parse.IntegerLaws.{decimal, all_digits, checked_string_to_uint-decimal}
use libdynd.Wide.Uint128.{Uint128, wide, from_uint64, eq_uint128, divrem, fill_digits, print}
use libdynd.Wide.Arith.{value, IsUint128, eq_value, value-divrem, divrem-IsUint128}

-- `out` is a text of digits that stands for the digits of `n` before those of `buffer`.
abbrev Prints : ℕ → Bytes → Bytes → Type 0
Prints n buffer out =
    (decimal 0 out ≡ decimal n buffer) × (all_digits out ≡ true) × (is_empty out ≡ false)

Prints-last :
    (n m d : ℕ) (buffer : Bytes)
    → n ≡ m * 10 + d
    → d < 10
    → m ≡ 0
    → all_digits buffer ≡ true
    → Prints n buffer ((d + b'0') ∷ buffer)
Prints-last n m d buffer e h z digits =
    (ap (λ k. decimal k buffer) (omega arith), ground arith, refl)

Prints-more :
    (n m d : ℕ) (buffer out : Bytes)
    → n ≡ m * 10 + d
    → Prints m ((d + b'0') ∷ buffer) out
    → Prints n buffer out
Prints-more n m d buffer out e p = (p.0 ∙ ap (λ k. decimal k buffer) (omega arith), p.1, p.2)

digit_is_digit : (d : ℕ) → d < 10 → is_digit (d + b'0') ≡ true
digit_is_digit d h = ground arith

zero_value : (q : Uint128) → IsUint128 q → eq_uint128 q (from_uint64 0) ≡ (value q == 0)
zero_value q h = eq_value q (from_uint64 0) h (omega arith, omega arith)

module _ (tmp : Uint128) (h : IsUint128 tmp) where
  parts : value tmp ≡ value (divrem tmp 10).0 * 10 + (divrem tmp 10).1
  parts = omega (
    arith,
    (value-divrem tmp 10 h (omega arith) (omega arith)).0,
    (value-divrem tmp 10 h (omega arith) (omega arith)).1,
  )

  digit_lt : (divrem tmp 10).1 < 10
  digit_lt = omega (arith, (value-divrem tmp 10 h (omega arith) (omega arith)).1)

  rest_IsUint128 : IsUint128 (divrem tmp 10).0
  rest_IsUint128 = divrem-IsUint128 tmp 10 h (omega arith) (omega arith)

  rest_zero : eq_uint128 (divrem tmp 10).0 (from_uint64 0) ≡ (value (divrem tmp 10).0 == 0)
  rest_zero = zero_value (divrem tmp 10).0 rest_IsUint128

  -- The digit behind the digits of the rest, where there is a rest, and alone where there is none.
  Prints-digit :
      (buffer out : Bytes)
      → all_digits buffer ≡ true
      → ((value (divrem tmp 10).0 == 0) ≡ false
          → Prints (value (divrem tmp 10).0) (((divrem tmp 10).1 + b'0') ∷ buffer) out)
      → Prints (value tmp) buffer (
          if eq_uint128 (divrem tmp 10).0 (from_uint64 0)
          then ((divrem tmp 10).1 + b'0') ∷ buffer
          else out)
  Prints-digit buffer out digits more = elim (Bool-cases (value (divrem tmp 10).0 == 0)) [
    | inl e ↦ rw (rest_zero ∙ e) (
        Prints-last (value tmp) (value (divrem tmp 10).0) (divrem tmp 10).1 buffer parts digit_lt
          ((==_iff _ 0).0 e) digits)
    | inr e ↦ rw (rest_zero ∙ e) (
        Prints-more (value tmp) (value (divrem tmp 10).0) (divrem tmp 10).1 buffer out parts
          (more e))
  ]

fill_digits-Prints :
    (room : ℕ) (tmp : Uint128) (buffer : Bytes)
    → IsUint128 tmp
    → value tmp < 10 ^ suc room
    → all_digits buffer ≡ true
    → Prints (value tmp) buffer (fill_digits (suc room) tmp buffer)
unfolding fill_digits
fill_digits-Prints zero tmp buffer h fits digits =
    Prints-digit tmp h buffer _ digits (λ e. absurd (none_left e))
  where
    none_left : ¬ ((value (divrem tmp 10).0 == 0) ≡ false)
    none_left e = ground (arith, parts tmp h)
fill_digits-Prints (suc room) tmp buffer h fits digits = Prints-digit tmp h buffer _ digits λ e.
    fill_digits-Prints room (divrem tmp 10).0 (((divrem tmp 10).1 + b'0') ∷ buffer)
      (rest_IsUint128 tmp h) smaller (written (digit_lt tmp h))
  where
    smaller : value (divrem tmp 10).0 < 10 ^ suc room
    smaller = omega (arith, parts tmp h)

    written : (divrem tmp 10).1 < 10 → all_digits (((divrem tmp 10).1 + b'0') ∷ buffer) ≡ true
    written l = ground arith

-- The text of a number is read back as that number, with no flag.
read_digits :
    (n : ℕ) (s : Bytes)
    → n < wide
    → Prints n [] s
    → checked_string_to_uint wide s ≡ record { value = n; overflow = false; badparse = false }
read_digits n [] fits p = absurd (ground arith)
read_digits n (c ∷ s) fits p =
    checked_string_to_uint-decimal wide c s p.1 (omega (arith, p.0))
    ∙ ap (λ k. record { value = k; overflow = false; badparse = false }) p.0

print-Prints : (a : Uint128) → IsUint128 a → Prints (value a) [] (print a)
unfolding print
print-Prints a h = elim (Bool-cases (value a == 0)) [
  | inl e ↦ rw (zero_value a h ∙ e) (sym ((==_iff _ 0).0 e), refl, refl)
  | inr e ↦ rw (zero_value a h ∙ e) (fill_digits-Prints 38 a [] h (omega arith) refl)
]

-- The text that is put out for a `uint128` is read back by `checked_string_to_uint128` as the same
-- number, with no flag: the 39 digits of the buffer are enough.
pub checked_string_to_uint-print :
    (a : Uint128)
    → IsUint128 a
    → checked_string_to_uint wide (print a)
      ≡ record { value = value a; overflow = false; badparse = false }
checked_string_to_uint-print a h = read_digits (value a) (print a) (omega arith) (print-Prints a h)
