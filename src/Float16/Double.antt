-- ===== src/Float16/Double.antt =====
-- A half is converted to a `double` and back, by src/dynd/float16.cpp.
use libdynd.Common.{
  ℕ, zero, suc, ◌+◌, ◌-◌, ◌*◌, ◌/◌, ◌%◌, ◌≤◌, ◌<◌, ◌≡◌, inl, inr, refl, ap, ◌∙◌, arith, Bool, true,
  false, ◌&&◌, leb, ◌==◌, accepts_up_to, accepts_up_to-at, and_parts, Bool-cases, subst,
}
use libdynd.Float16.Bits.{bits_are, half-bits_are}
use libdynd.Float16.{
  AssignErrorMode, half, rounded_double, subnormal_double, convert_double, double_to_halfbits,
  restore_double, normalized, assign_error_nocheck, assign_error_overflow, assign_error_fractional,
  assign_error_inexact, assign_error_default, halfbits_to_double,
}

returns : AssignErrorMode → ℕ → Bool
returns errmode h = bits_are (double_to_halfbits errmode (halfbits_to_double h)) h

-- A significand whose lower bits are 0 loses nothing.
rounded_double-exact : (m : ℕ) → m < 1024 → rounded_double (m * 4398046511104) ≡ m
rounded_double-exact m h = ground arith

convert_double-normal :
    (errmode : AssignErrorMode) (sgn magnitude e m : ℕ)
    → 0 < e
    → e < 31
    → m < 1024
    → sgn ≤ 32768
    → convert_double errmode sgn magnitude ((e + 1008) * 4503599627370496) (m * 4398046511104)
      ≡ half (sgn + (m + e * 1024))
unfolding convert_double
convert_double-normal errmode sgn magnitude e m low high small s =
    let below : leb 4679240012837945344 ((e + 1008) * 4503599627370496) ≡ false = ground arith in
    let above : leb ((e + 1008) * 4503599627370496) 4539628424389459968 ≡ false = ground arith in
    let shifted : ((e + 1008) * 4503599627370496 - 4539628424389459968) / 4398046511104 ≡ e * 1024 =
      omega arith in
    let inside : (m + e * 1024 == 31744) ≡ false = ground arith in
    rw (below, above, rounded_double-exact m small, shifted, inside) (ap half (omega arith))

convert_double-nan :
    (errmode : AssignErrorMode) (sgn magnitude m : ℕ)
    → m < 1024
    → convert_double errmode sgn magnitude 9218868437227405312 (m * 4398046511104)
      ≡ half (sgn + (m + 31744))
unfolding convert_double
convert_double-nan errmode sgn magnitude m small =
    let top : m * 4398046511104 / 4398046511104 ≡ m = omega arith in rw top (ap half (ground arith))

-- A double of a sign and a magnitude, and a half of a sign, an exponent and a significand.
double_to_halfbits-signed :
    (errmode : AssignErrorMode) (s g : ℕ)
    → g < 9223372036854775808
    → double_to_halfbits errmode (s * 9223372036854775808 + g)
      ≡ convert_double errmode
          (s * 32768)
          g
          (g / 4503599627370496 * 4503599627370496)
          (g % 4503599627370496)
unfolding double_to_halfbits
double_to_halfbits-signed errmode s g h =
    let sign : (s * 9223372036854775808 + g) / 9223372036854775808 ≡ s = omega arith in
    let magnitude : (s * 9223372036854775808 + g) % 9223372036854775808 ≡ g = omega arith in
    let significand : (s * 9223372036854775808 + g) % 4503599627370496 ≡ g % 4503599627370496 =
      omega arith in
    rw (sign, magnitude, significand) refl

halfbits_to_double-parts :
    (s e m : ℕ)
    → e < 32
    → m < 1024
    → halfbits_to_double (s * 32768 + (m + e * 1024))
      ≡ restore_double (s * 9223372036854775808) (m + e * 1024) (e * 1024) m
unfolding halfbits_to_double
halfbits_to_double-parts s e m high small =
    let sign : (s * 32768 + (m + e * 1024)) / 32768 ≡ s = omega arith in
    let magnitude : (s * 32768 + (m + e * 1024)) % 32768 ≡ m + e * 1024 = omega arith in
    let exponent : (m + e * 1024) / 1024 ≡ e = omega arith in
    let significand : (s * 32768 + (m + e * 1024)) % 1024 ≡ m = omega arith in
    rw (sign, magnitude, exponent, significand) refl

restore_double-normal :
    (d_sgn e m : ℕ)
    → 0 < e
    → e < 31
    → restore_double d_sgn (m + e * 1024) (e * 1024) m
      ≡ d_sgn + ((e + 1008) * 4503599627370496 + m * 4398046511104)
unfolding restore_double
restore_double-normal d_sgn e m low high =
    let some_exponent : (e * 1024 == 0) ≡ false = ground arith in
    let finite_exponent : (e * 1024 == 31744) ≡ false = ground arith in
    rw (some_exponent, finite_exponent) (omega arith)

-- A double of the exponent and the significand of a half.
double_parts :
    (errmode : AssignErrorMode) (s k m : ℕ)
    → k < 2048
    → m < 1024
    → double_to_halfbits errmode
        (s * 9223372036854775808 + (k * 4503599627370496 + m * 4398046511104))
      ≡ convert_double errmode
          (s * 32768)
          (k * 4503599627370496 + m * 4398046511104)
          (k * 4503599627370496)
          (m * 4398046511104)
double_parts errmode s k m high small =
    let exponent : (k * 4503599627370496 + m * 4398046511104) / 4503599627370496 ≡ k =
      omega arith in
    let significand : (k * 4503599627370496 + m * 4398046511104) % 4503599627370496
        ≡ m * 4398046511104 =
      omega arith in
    double_to_halfbits-signed errmode s (k * 4503599627370496 + m * 4398046511104) (omega arith)
    ∙ rw (exponent, significand) refl

Returns : AssignErrorMode → ℕ → Type 0
Returns errmode h = double_to_halfbits errmode (halfbits_to_double h) ≡ half h

Returns-normal :
    (errmode : AssignErrorMode) (s e m : ℕ)
    → s < 2
    → 0 < e
    → e < 31
    → m < 1024
    → Returns errmode (s * 32768 + (m + e * 1024))
unfolding Returns
Returns-normal errmode s e m sign low high small =
    ap (double_to_halfbits errmode) (
      halfbits_to_double-parts s e m (omega arith) small
      ∙ restore_double-normal (s * 9223372036854775808) e m low high)
    ∙ (double_parts errmode s (e + 1008) m (omega arith) small
        ∙ convert_double-normal errmode (s * 32768) _ e m low high small (omega arith))

Returns-nan :
    (errmode : AssignErrorMode) (s m : ℕ)
    → s < 2
    → m < 1024
    → Returns errmode (s * 32768 + (m + 31 * 1024))
unfolding Returns restore_double
Returns-nan errmode s m sign small =
    ap (double_to_halfbits errmode) (halfbits_to_double-parts s 31 m (omega arith) small)
    ∙ (ap (double_to_halfbits errmode) (omega arith)
        ∙ (double_parts errmode s 2047 m (omega arith) small
            ∙ convert_double-nan errmode (s * 32768) _ m small))

-- The halves below the normal ones, of both signs.
returns_both : AssignErrorMode → ℕ → Bool
returns_both errmode r = returns errmode r && returns errmode (32768 + r)

returns_both-subnormal :
    (errmode : AssignErrorMode) (r : ℕ) → r < 1024 → returns_both errmode r ≡ true
unfolding returns_both returns convert_double double_to_halfbits halfbits_to_double normalized
    subnormal_double restore_double accepts_up_to
returns_both-subnormal assign_error_nocheck r h =
    accepts_up_to-at (returns_both assign_error_nocheck) 1024 r h refl
returns_both-subnormal assign_error_overflow r h =
    accepts_up_to-at (returns_both assign_error_overflow) 1024 r h refl
returns_both-subnormal assign_error_fractional r h =
    accepts_up_to-at (returns_both assign_error_fractional) 1024 r h refl
returns_both-subnormal assign_error_inexact r h =
    accepts_up_to-at (returns_both assign_error_inexact) 1024 r h refl
returns_both-subnormal assign_error_default r h =
    accepts_up_to-at (returns_both assign_error_default) 1024 r h refl

Returns-subnormal :
    (errmode : AssignErrorMode) (s m : ℕ) → s < 2 → m < 1024 → Returns errmode (s * 32768 + m)
unfolding Returns returns_both returns
Returns-subnormal errmode zero m sign small =
    let same : m ≡ 0 * 32768 + m = omega arith in
    subst (Returns errmode) same
      (half-bits_are _ m (and_parts _ _ (returns_both-subnormal errmode m small)).0)
Returns-subnormal errmode (suc zero) m sign small =
    half-bits_are _ (32768 + m) (and_parts _ _ (returns_both-subnormal errmode m small)).1
Returns-subnormal errmode (suc (suc s)) m sign small = absurd (omega arith)

Returns-parts :
    (errmode : AssignErrorMode) (s e m : ℕ)
    → s < 2
    → e < 32
    → m < 1024
    → Returns errmode (s * 32768 + (m + e * 1024))
Returns-parts errmode s e m sign high small = elim (Bool-cases (e == 0)) [
  | inl z ↦ subst (Returns errmode) (ground (arith, z)) (Returns-subnormal errmode s m sign small)
  | inr z ↦ elim (Bool-cases (e == 31)) [
    | inl t ↦ subst (Returns errmode) (ground (arith, t)) (Returns-nan errmode s m sign small)
    | inr t ↦ Returns-normal errmode s e m sign (ground (arith, z)) (ground (arith, t)) small
  ]
]

-- Every half, infinities and NaNs too, is got back from the `double` that it is converted to, in
-- each mode of errors, with none thrown.
pub double_to_halfbits-halfbits_to_double :
    (errmode : AssignErrorMode) (h : ℕ)
    → h < 65536
    → double_to_halfbits errmode (halfbits_to_double h) ≡ half h
unfolding Returns
double_to_halfbits-halfbits_to_double errmode h bound = subst (Returns errmode) (omega arith) (
    Returns-parts errmode (h / 32768) (h / 1024 % 32) (h % 1024) (omega arith) (omega arith)
      (omega arith))
