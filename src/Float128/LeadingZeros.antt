-- ===== src/Float128/LeadingZeros.antt =====
-- What `leading_zerobits` of src/dynd/float128.cpp counts.
use native.Mathlib.Nat.{two-pow-succ, mul-le-mul_right}
use libdynd.Common.{
  ℕ, zero, suc, ◌+◌, ◌-◌, ◌*◌, ◌/◌, ◌%◌, ◌^◌, ◌≤◌, ◌<◌, ◌≡◌, refl, arith, Bool, true, ◌&&◌, ◌||◌,
  ltb, leb, ◌==◌, accepts_up_to, accepts_up_to-at, subst, by_test,
}
use libdynd.Float128.{leading_zerobits_8, leading_zerobits_16, leading_zerobits_32}

pub pow_add : (a b : ℕ) → 2 ^ (a + b) ≡ 2 ^ a * 2 ^ b
pow_add a zero = let same : a + zero ≡ a = omega arith in rw same (omega arith)
pow_add a (suc b) =
    let same : a + suc b ≡ suc (a + b) = omega arith in
    rw (same, two-pow-succ (a + b), two-pow-succ b, pow_add a b) (omega arith)

-- The first bit that is 1 stands behind `lead` of the `width` bits.
pub record IsLead (width value lead : ℕ) : Type 0 where
  pub inside : lead < width
  pub low : 2 ^ (width - 1 - lead) ≤ value
  pub high : value < 2 ^ (width - lead)

good_lead : ℕ → Bool
good_lead value =
    let lead = leading_zerobits_8 value in
    (value == 0) || (ltb lead 8 && leb (2 ^ (7 - lead)) value && ltb value (2 ^ (8 - lead)))

good_lead-at : (value : ℕ) → value < 256 → good_lead value ≡ true
unfolding good_lead leading_zerobits_8 accepts_up_to
good_lead-at value h = accepts_up_to-at good_lead 256 value h refl

pub IsLead-8 : (value : ℕ) → 0 < value → value < 256 → IsLead 8 value (leading_zerobits_8 value)
unfolding good_lead
IsLead-8 value low high =
    let good = good_lead-at value high in
    record {
      inside = ground (arith, good);
      low = ground (arith, good);
      high = ground (arith, good);
    }

-- A value of the lower half of the bits, and one of the upper half with more below.
IsLead-lower :
    (width value lead : ℕ) → IsLead width value lead → IsLead (width + width) value (lead + width)
IsLead-lower width value lead h = record {
  inside = omega (arith, h.inside);
  low =
      (let same : width + width - 1 - (lead + width) ≡ width - 1 - lead = omega arith in
        rw same h.low);
  high = (let same : width + width - (lead + width) ≡ width - lead = omega arith in rw same h.high);
}

IsLead-upper :
    (width value rest lead : ℕ)
    → IsLead width value lead
    → rest < 2 ^ width
    → IsLead (width + width) (value * 2 ^ width + rest) lead
IsLead-upper width value rest lead h r = record {
  inside = omega (arith, h.inside);
  low =
      (let same : width + width - 1 - lead ≡ (width - 1 - lead) + width = omega (arith, h.inside) in
        let scaled = mul-le-mul_right (2 ^ width) h.low in
        rw (same, pow_add (width - 1 - lead) width) (omega (arith, scaled)));
  high =
      (let same : width + width - lead ≡ (width - lead) + width = omega (arith, h.inside) in
        let scaled = mul-le-mul_right (2 ^ width) h.high in
        rw (same, pow_add (width - lead) width) (omega (arith, scaled, r)));
}

pub IsLead-16 :
    (value : ℕ) → 0 < value → value < 65536 → IsLead 16 value (leading_zerobits_16 value)
unfolding leading_zerobits_16
IsLead-16 value low high =
    by_test (IsLead 16 value) (value / 256 % 256 == 0)
      (λ e.
        let small : value % 256 ≡ value = ground (arith, e) in
        rw small (IsLead-lower 8 value _ (IsLead-8 value low (ground (arith, e)))))
      (λ e.
        let same : value / 256 % 256 * 2 ^ 8 + value % 256 ≡ value = omega (arith, high) in
        subst (λ v. IsLead 16 v (leading_zerobits_8 (value / 256 % 256))) same
          (IsLead-upper 8 (value / 256 % 256) (value % 256) _
            (IsLead-8 (value / 256 % 256) (ground (arith, e)) (omega arith)) (omega arith)))

pub IsLead-32 :
    (value : ℕ) → 0 < value → value < 4294967296 → IsLead 32 value (leading_zerobits_32 value)
unfolding leading_zerobits_32
IsLead-32 value low high =
    by_test (IsLead 32 value) (value / 65536 % 65536 == 0)
      (λ e.
        let small : value % 65536 ≡ value = ground (arith, e) in
        rw small (IsLead-lower 16 value _ (IsLead-16 value low (ground (arith, e)))))
      (λ e.
        let same : value / 65536 % 65536 * 2 ^ 16 + value % 65536 ≡ value = omega (arith, high) in
        subst (λ v. IsLead 32 v (leading_zerobits_16 (value / 65536 % 65536))) same
          (IsLead-upper 16 (value / 65536 % 65536) (value % 65536) _
            (IsLead-16 (value / 65536 % 65536) (ground (arith, e)) (omega arith)) (omega arith)))
