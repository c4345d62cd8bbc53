-- ===== src/Float128/Exponent.antt =====
-- What the constructors of `float128` for unsigned integers make, of src/dynd/float128.cpp.
use native.Mathlib.Nat.{mul-le-mul_right, one-le-pow}
use libdynd.Common.{
  ℕ, ◌+◌, ◌-◌, ◌*◌, ◌%◌, ◌^◌, ◌≤◌, ◌<◌, ◌≡◌, refl, ap, ◌∙◌, sym, arith, false, ◌==◌, if◌then◌else◌,
}
use libdynd.Float128.{
  Float128, zero_float, from_lead, float128_uint8, float128_uint16, float128_uint32,
  leading_zerobits_8, leading_zerobits_16, leading_zerobits_32,
}
use libdynd.Float128.LeadingZeros.{IsLead, pow_add, IsLead-8, IsLead-16, IsLead-32}

powers : (a b n : ℕ) → a + b ≡ n → 2 ^ a * 2 ^ b ≡ 2 ^ n
powers a b n h = sym (pow_add a b) ∙ ap (λ k. 2 ^ k) h

-- The first bit of the value is brought to the place behind the significand.
shifted :
    (width value lead : ℕ)
    → IsLead width value lead
    → width ≤ 49
    → (281474976710656 ≤ value * 2 ^ (49 - width + lead))
      × (value * 2 ^ (49 - width + lead) < 562949953421312)
shifted width value lead h w =
    let k = 49 - width + lead in
    let low_scaled = mul-le-mul_right (2 ^ k) h.low in
    let high_scaled = mul-le-mul_right (2 ^ k) h.high in
    let low_power : 2 ^ (width - 1 - lead) * 2 ^ k ≡ 281474976710656 =
      powers (width - 1 - lead) k 48 (omega (arith, h.inside)) in
    let high_power : 2 ^ (width - lead) * 2 ^ k ≡ 562949953421312 =
      powers (width - lead) k 49 (omega (arith, h.inside)) in
    (
      omega (arith, low_scaled, low_power),
      omega (arith, high_scaled, high_power, one-le-pow k 2 (omega arith)),
    )

-- The bits of a float for a value whose first bit has the place `place`, counted from 0: the
-- exponent is the place, with a bias, and the significand is the value behind its first bit.
abbrev pub of_place : (bias place value : ℕ) → Float128
of_place bias place value = record {
  m_lo = 0;
  m_hi = (bias + place) * 281474976710656 + (value * 2 ^ (48 - place) - 281474976710656);
}

bits_of :
    (e x : ℕ)
    → e < 65536
    → 281474976710656 ≤ x
    → x < 562949953421312
    → (e * 281474976710656 % 18446744073709551616 + x % 18446744073709551616 % 281474976710656)
        % 18446744073709551616
      ≡ e * 281474976710656 + (x - 281474976710656)
bits_of e x h low high = omega arith

from_lead-of_place :
    (width value lead : ℕ)
    → IsLead width value lead
    → width ≤ 32
    → from_lead width value lead ≡ of_place 16839 (width - 1 - lead) value
unfolding from_lead
from_lead-of_place width value lead h w =
    let scaled = shifted width value lead h (omega (arith, w)) in
    let same : 49 - width + lead ≡ 48 - (width - 1 - lead) = omega (arith, w, h.inside) in
    let exponent : 16838 + width - lead ≡ 16839 + (width - 1 - lead) = omega (arith, h.inside) in
    rw exponent (
      ap (λ n. record { m_lo = 0; m_hi = n })
        (bits_of (16839 + (width - 1 - lead)) _ (omega (arith, w)) scaled.0 scaled.1
          ∙ rw same refl))

-- The bits that a constructor of an unsigned integer makes, of a value that is not 0.
pub record Biased (width value lead : ℕ) (result : Float128) : Type 0 where
  pub lead_bits : IsLead width value lead
  pub bits : result ≡ of_place 16839 (width - 1 - lead) value

biased :
    (width value lead : ℕ)
    → IsLead width value lead
    → width ≤ 32
    → 0 < value
    → Biased width value lead (if value == 0 then zero_float else from_lead width value lead)
biased width value lead h w low =
    let some_value : (value == 0) ≡ false = ground arith in
    rw some_value (record { lead_bits = h; bits = from_lead-of_place width value lead h w })

-- Values of 8, 16 and 32 bits that are not 0 are made floats whose significands are right, for the
-- places of their first bits, which are counted right, and whose exponents are those places with
-- 16839 for the bias of 16383.
pub float128-Biased :
    (a b c : ℕ)
    → 0 < a
    → a < 256
    → 0 < b
    → b < 65536
    → 0 < c
    → c < 4294967296
    → Biased 8 a (leading_zerobits_8 a) (float128_uint8 a)
      × Biased 16 b (leading_zerobits_16 b) (float128_uint16 b)
      × Biased 32 c (leading_zerobits_32 c) (float128_uint32 c)
unfolding float128_uint8 float128_uint16 float128_uint32
float128-Biased a b c a_low a_high b_low b_high c_low c_high = (
  biased 8 a _ (IsLead-8 a a_low a_high) (omega arith) a_low,
  biased 16 b _ (IsLead-16 b b_low b_high) (omega arith) b_low,
  biased 32 c _ (IsLead-32 c c_low c_high) (omega arith) c_low,
)
