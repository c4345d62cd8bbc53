-- ===== src/Float16/Single.antt =====
-- A half is converted to a `float` and back, by src/dynd/float16.cpp.
use libdynd.Common.{
  ℕ, zero, suc, ◌+◌, ◌-◌, ◌*◌, ◌/◌, ◌%◌, ◌≤◌, ◌<◌, ◌≡◌, inl, inr, refl, ap, ◌∙◌, arith, Bool, true,
  false, ◌&&◌, leb, ◌==◌, accepts_up_to, accepts_up_to-at, and_parts, Bool-cases, subst,
}
use libdynd.Float16.Bits.{bits_are, half-bits_are}
use libdynd.Float16.{
  AssignErrorMode, half, rounded_single, subnormal_single, convert_single, float_to_halfbits,
  restore_single, normalized, assign_error_nocheck, assign_error_overflow, assign_error_fractional,
  assign_error_inexact, assign_error_default, halfbits_to_float,
}

returns : AssignErrorMode → ℕ → Bool
returns errmode h = bits_are (float_to_halfbits errmode (halfbits_to_float h)) h

-- A significand whose lower bits are 0 loses nothing.
rounded_single-exact : (m : ℕ) → m < 1024 → rounded_single (m * 8192) ≡ m
rounded_single-exact m h = ground arith

convert_single-normal :
    (errmode : AssignErrorMode) (sgn magnitude e m : ℕ)
    → 0 < e
    → e < 31
    → m < 1024
    → sgn ≤ 32768
    → convert_single errmode sgn magnitude ((e + 112) * 8388608) (m * 8192)
      ≡ half (sgn + (m + e * 1024))
unfolding convert_single
convert_single-normal errmode sgn magnitude e m low high small s =
    let below : leb 1199570944 ((e + 112) * 8388608) ≡ false = ground arith in
    let above : leb ((e + 112) * 8388608) 939524096 ≡ false = ground arith in
    let shifted : ((e + 112) * 8388608 - 939524096) / 8192 ≡ e * 1024 = omega arith in
    let inside : (m + e * 1024 == 31744) ≡ false = ground arith in
    rw (below, above, rounded_single-exact m small, shifted, inside) (ap half (omega arith))

convert_single-nan :
    (errmode : AssignErrorMode) (sgn magnitude m : ℕ)
    → m < 1024
    → convert_single errmode sgn magnitude 2139095040 (m * 8192) ≡ half (sgn + (m + 31744))
unfolding convert_single
convert_single-nan errmode sgn magnitude m small =
    let top : m * 8192 / 8192 ≡ m = omega arith in rw top (ap half (ground arith))

-- A float of a sign and a magnitude, and a half of a sign, an exponent and a significand.
pub float_to_halfbits-signed :
    (errmode : AssignErrorMode) (s g : ℕ)
    → g < 2147483648
    → float_to_halfbits errmode (s * 2147483648 + g)
      ≡ convert_single errmode (s * 32768) g (g / 8388608 * 8388608) (g % 8388608)
unfolding float_to_halfbits
float_to_halfbits-signed errmode s g h =
    let sign : (s * 2147483648 + g) / 2147483648 ≡ s = omega arith in
    let magnitude : (s * 2147483648 + g) % 2147483648 ≡ g = omega arith in
    let significand : (s * 2147483648 + g) % 8388608 ≡ g % 8388608 = omega arith in
    rw (sign, magnitude, significand) refl

halfbits_to_float-parts :
    (s e m : ℕ)
    → e < 32
    → m < 1024
    → halfbits_to_float (s * 32768 + (m + e * 1024))
      ≡ restore_single (s * 2147483648) (m + e * 1024) (e * 1024) m
unfolding halfbits_to_float
halfbits_to_float-parts s e m high small =
    let sign : (s * 32768 + (m + e * 1024)) / 32768 ≡ s = omega arith in
    let magnitude : (s * 32768 + (m + e * 1024)) % 32768 ≡ m + e * 1024 = omega arith in
    let exponent : (m + e * 1024) / 1024 ≡ e = omega arith in
    let significand : (s * 32768 + (m + e * 1024)) % 1024 ≡ m = omega arith in
    rw (sign, magnitude, exponent, significand) refl

restore_single-normal :
    (f_sgn e m : ℕ)
    → 0 < e
    → e < 31
    → restore_single f_sgn (m + e * 1024) (e * 1024) m ≡ f_sgn + ((e + 112) * 8388608 + m * 8192)
unfolding restore_single
restore_single-normal f_sgn e m low high =
    let some_exponent : (e * 1024 == 0) ≡ false = ground arith in
    let finite_exponent : (e * 1024 == 31744) ≡ false = ground arith in
    rw (some_exponent, finite_exponent) (omega arith)

-- A float of the exponent and the significand of a half.
single_parts :
    (errmode : AssignErrorMode) (s k m : ℕ)
    → k < 256
    → m < 1024
    → float_to_halfbits errmode (s * 2147483648 + (k * 8388608 + m * 8192))
      ≡ convert_single errmode (s * 32768) (k * 8388608 + m * 8192) (k * 8388608) (m * 8192)
single_parts errmode s k m high small =
    let exponent : (k * 8388608 + m * 8192) / 8388608 ≡ k = omega arith in
    let significand : (k * 8388608 + m * 8192) % 8388608 ≡ m * 8192 = omega arith in
    float_to_halfbits-signed errmode s (k * 8388608 + m * 8192) (omega arith)
    ∙ rw (exponent, significand) refl

Returns : AssignErrorMode → ℕ → Type 0
Returns errmode h = float_to_halfbits errmode (halfbits_to_float h) ≡ half h

Returns-normal :
    (errmode : AssignErrorMode) (s e m : ℕ)
    → s < 2
    → 0 < e
    → e < 31
    → m < 1024
    → Returns errmode (s * 32768 + (m + e * 1024))
unfolding Returns
Returns-normal errmode s e m sign low high small =
    ap (float_to_halfbits errmode) (
      halfbits_to_float-parts s e m (omega arith) small
      ∙ restore_single-normal (s * 2147483648) e m low high)
    ∙ (single_parts errmode s (e + 112) m (omega arith) small
        ∙ convert_single-normal errmode (s * 32768) _ e m low high small (omega arith))

Returns-nan :
    (errmode : AssignErrorMode) (s m : ℕ)
    → s < 2
    → m < 1024
    → Returns errmode (s * 32768 + (m + 31 * 1024))
unfolding Returns restore_single
Returns-nan errmode s m sign small =
    ap (float_to_halfbits errmode) (halfbits_to_float-parts s 31 m (omega arith) small)
    ∙ (ap (float_to_halfbits errmode) (omega arith)
        ∙ (single_parts errmode s 255 m (omega arith) small
            ∙ convert_single-nan errmode (s * 32768) _ m small))

-- The halves below the normal ones, of both signs.
returns_both : AssignErrorMode → ℕ → Bool
returns_both errmode r = returns errmode r && returns errmode (32768 + r)

returns_both-subnormal :
    (errmode : AssignErrorMode) (r : ℕ) → r < 1024 → returns_both errmode r ≡ true
unfolding returns_both returns convert_single float_to_halfbits halfbits_to_float normalized
    subnormal_single restore_single accepts_up_to
returns_both-subnormal assign_error_nocheck r h =
    accepts_up_to-at (returns_both assign_error_nocheck) 1024 r h refl
returns_both-subnormal assign_error_overflow r h =
    accepts_up_to-at (returns_both assign_error_overflow) 1024 r h refl
returns_both-subnormal assign_error_fractional r h =
    accepts_up_to-at (returns_both assign_error_fractional) 1024 r h refl
returns_both-subnormal assign_error_inexact r h =
    accepts_up_to-at (returns_both assign_error_inexact) 1024 r h refl
returns_both-subnormal assign_error_default r h =
    accepts_up_to-at (returns_both assign_error_default) 1024 r h refl

Returns-subnormal :
    (errmode : AssignErrorMode) (s m : ℕ) → s < 2 → m < 1024 → Returns errmode (s * 32768 + m)
unfolding Returns returns_both returns
Returns-subnormal errmode zero m sign small =
    let same : m ≡ 0 * 32768 + m = omega arith in
    subst (Returns errmode) same
      (half-bits_are _ m (and_parts _ _ (returns_both-subnormal errmode m small)).0)
Returns-subnormal errmode (suc zero) m sign small =
    half-bits_are _ (32768 + m) (and_parts _ _ (returns_both-subnormal errmode m small)).1
Returns-subnormal errmode (suc (suc s)) m sign small = absurd (omega arith)

Returns-parts :
    (errmode : AssignErrorMode) (s e m : ℕ)
    → s < 2
    → e < 32
    → m < 1024
    → Returns errmode (s * 32768 + (m + e * 1024))
Returns-parts errmode s e m sign high small = elim (Bool-cases (e == 0)) [
  | inl z ↦ subst (Returns errmode) (ground (arith, z)) (Returns-subnormal errmode s m sign small)
  | inr z ↦ elim (Bool-cases (e == 31)) [
    | inl t ↦ subst (Returns errmode) (ground (arith, t)) (Returns-nan errmode s m sign small)
    | inr t ↦ Returns-normal errmode s e m sign (ground (arith, z)) (ground (arith, t)) small
  ]
]

-- Every half, infinities and NaNs too, is got back from the `float` that it is converted to, in
-- each mode of errors, with none thrown.
pub float_to_halfbits-halfbits_to_float :
    (errmode : AssignErrorMode) (h : ℕ)
    → h < 65536
    → float_to_halfbits errmode (halfbits_to_float h) ≡ half h
unfolding Returns
float_to_halfbits-halfbits_to_float errmode h bound = subst (Returns errmode) (omega arith) (
    Returns-parts errmode (h / 32768) (h / 1024 % 32) (h % 1024) (omega arith) (omega arith)
      (omega arith))
