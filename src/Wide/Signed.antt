-- ===== src/Wide/Signed.antt =====
-- The arithmetic of `class int128` against exact integers.
use libdynd.Common.{
  ℕ, zero, suc, ◌+◌, ◌-◌, ◌*◌, ◌/◌, ◌%◌, ◌<◌, ◌≡◌, ◌≢◌, ◌∙◌, refl, sym, ap, arith, true, false,
  none, some, ltb, leb, if◌then◌else◌, Bool-cases, inl, inr,
}
use libdynd.Common.Int.{ℤ, pos, negsuc, ltb_ℤ, sub_ℕ, tdiv}
use libdynd.Wide.Uint128.{Uint128, word, half_word, wide, bit, complement}
use libdynd.Wide.Uint128
use libdynd.Wide.Int128.{Int128, lt_int128, is_negative, negate, to_uint128, from_uint128, mul, div}
use native.Mathlib.Nat.{div-le_self}
use libdynd.Wide.Arith.{value, IsUint128, value-mul, value-divrem, divrem-IsUint128}

-- 2^127
abbrev pub int128_half : ℕ
int128_half = 170141183460469231731687303715884105728

abbrev pub bits : Int128 → ℕ
bits a = value (to_uint128 a)

-- The integer that the two words stand for.
abbrev pub signed : Int128 → ℤ
signed a = if ltb (bits a) int128_half then pos (bits a) else sub_ℕ (bits a) wide

abbrev pub IsInt128 : Int128 → Type 0
IsInt128 a = IsUint128 (to_uint128 a)

pub lt_signed :
    (a b : Int128) → IsInt128 a → IsInt128 b → lt_int128 a b ≡ ltb_ℤ (signed a) (signed b)
unfolding lt_int128
lt_signed a b ha hb = ground arith

pub bits-negate : (a : Int128) → IsInt128 a → bits (negate a) ≡ (wide - bits a) % wide
unfolding negate
bits-negate a ha = ground arith

negate-IsInt128 : (a : Int128) → IsInt128 a → IsInt128 (negate a)
unfolding negate
negate-IsInt128 a ha = ground arith

is_negative_signed : (a : Int128) → IsInt128 a → is_negative a ≡ leb int128_half (bits a)
unfolding is_negative
is_negative_signed a ha = ground arith

negate_positive :
    (a : Int128)
    → IsInt128 a
    → bits a ≢ int128_half
    → is_negative a ≡ true
    → is_negative (negate a) ≡ false
negate_positive a ha ne e = ground (
  arith,
  is_negative_signed a ha,
  is_negative_signed (negate a) (negate-IsInt128 a ha),
  bits-negate a ha,
)

-- The absolute value of a negative number.
negate_nonzero : (a : Int128) → IsInt128 a → is_negative a ≡ true → bits (negate a) ≡ wide - bits a
negate_nonzero a ha e = ground (arith, is_negative_signed a ha, bits-negate a ha)

uint_mul-bits :
    (a : Int128) (r : ℕ)
    → IsInt128 a
    → r < half_word
    → bits (from_uint128 (Uint128.mul (to_uint128 a) r)) ≡ (bits a * r) % wide
uint_mul-bits a r ha hr = value-mul (to_uint128 a) r ha hr

mul-IsInt128 : (a : Uint128) (r : ℕ) → IsUint128 (Uint128.mul a r)
unfolding Uint128.mul
mul-IsInt128 a r = (omega arith, omega arith)

wrap_product :
    (b r x : ℕ) → b < wide → x ≡ ((wide - b) * r) % wide → (wide - x) % wide ≡ (b * r) % wide
wrap_product b r x h e = omega (arith, e, product_sum)
  where
    product_sum : (wide - b) * r + b * r ≡ wide * r
    product_sum = grind arith

-- A product with a `uint32_t` comes back after at most two calls, for every number but the least,
-- and is the product of the integers modulo 2^128.
pub bits-mul :
    (fuel : ℕ) (a : Int128) (r : ℕ)
    → IsInt128 a
    → bits a ≢ int128_half
    → r < half_word
    → (p : Int128) × (mul (suc (suc fuel)) a r ≡ some p) × (bits p ≡ (bits a * r) % wide)
unfolding mul
bits-mul fuel a r ha ne hr = elim (Bool-cases (is_negative a)) [
  | inl e ↦ (negate product, rw (e, negate_positive a ha ne e) refl, wrapped e)
  | inr e ↦ (from_uint128 (Uint128.mul (to_uint128 a) r), rw e refl, uint_mul-bits a r ha hr)
]
  where
    product : Int128
    product = from_uint128 (Uint128.mul (to_uint128 (negate a)) r)

    wrapped : is_negative a ≡ true → bits (negate product) ≡ (bits a * r) % wide
    wrapped e =
        bits-negate product (mul-IsInt128 (to_uint128 (negate a)) r)
        ∙ wrap_product (bits a) r (bits product) (omega arith) (
            uint_mul-bits (negate a) r (negate-IsInt128 a ha) hr
            ∙ ap (λ n. (n * r) % wide) (negate_nonzero a ha e))

uint_div-bits :
    (a : Int128) (r : ℕ)
    → IsInt128 a
    → 0 < r
    → r < half_word
    → bits (from_uint128 (Uint128.div (to_uint128 a) r)) ≡ bits a / r
unfolding Uint128.div Uint128.divrem
uint_div-bits a r ha hp hr = (value-divrem (to_uint128 a) r ha hp hr).0

div-IsInt128 :
    (a : Int128) (r : ℕ)
    → IsInt128 a
    → 0 < r
    → r < half_word
    → IsInt128 (from_uint128 (Uint128.div (to_uint128 a) r))
unfolding Uint128.div Uint128.divrem
div-IsInt128 a r ha hp hr = divrem-IsUint128 (to_uint128 a) r ha hp hr

signed-nonnegative : (a : Int128) → IsInt128 a → is_negative a ≡ false → signed a ≡ pos (bits a)
signed-nonnegative a ha e = ground (arith, is_negative_signed a ha)

signed-negative :
    (a : Int128) → IsInt128 a → is_negative a ≡ true → signed a ≡ negsuc (wide - bits a - 1)
signed-negative a ha e = ground (arith, is_negative_signed a ha)

-- The integer of the negation of a number that is not negative.
signed-negate :
    (a : Int128) (n : ℕ) → IsInt128 a → bits a ≡ n → n < int128_half → signed (negate a) ≡ sub_ℕ 0 n
signed-negate a n ha e h = ground (arith, bits-negate a ha)

signed-small : (a : Int128) (n : ℕ) → bits a ≡ n → n < int128_half → signed a ≡ pos n
signed-small a n e h = ground arith

nonnegative_size : (a : Int128) → IsInt128 a → is_negative a ≡ false → bits a < int128_half
nonnegative_size a ha e = ground (arith, is_negative_signed a ha)

negative_size :
    (a : Int128)
    → IsInt128 a
    → bits a ≢ int128_half
    → is_negative a ≡ true
    → wide - bits a < int128_half
negative_size a ha ne e = ground (arith, is_negative_signed a ha)

-- A quotient by a `uint32_t` other than 0 comes back after at most two calls, for every number but
-- the least, and is the exact quotient cut towards zero.
pub signed-div :
    (fuel : ℕ) (a : Int128) (r : ℕ)
    → IsInt128 a
    → bits a ≢ int128_half
    → 0 < r
    → r < half_word
    → (q : Int128) × (div (suc (suc fuel)) a r ≡ some q) × (signed q ≡ tdiv (signed a) r)
unfolding div tdiv
signed-div fuel a r ha ne hp hr = elim (Bool-cases (is_negative a)) [
  | inl e ↦ (negate quotient, rw (e, negate_positive a ha ne e) refl, below e)
  | inr e ↦ (from_uint128 (Uint128.div (to_uint128 a) r), rw e refl, above e)
]
  where
    quotient : Int128
    quotient = from_uint128 (Uint128.div (to_uint128 (negate a)) r)

    below : is_negative a ≡ true → signed (negate quotient) ≡ tdiv (signed a) r
    below e =
        signed-negate quotient ((wide - bits a) / r)
          (div-IsInt128 (negate a) r (negate-IsInt128 a ha) hp hr)
          (uint_div-bits (negate a) r (negate-IsInt128 a ha) hp hr
            ∙ ap (λ n. n / r) (negate_nonzero a ha e))
          (omega (arith, div-le_self (wide - bits a) r, negative_size a ha ne e))
        ∙ (ap (λ n. sub_ℕ 0 (n / r)) (omega (arith, ha))
            ∙ ap (λ z. tdiv z r) (sym (signed-negative a ha e)))

    above :
        is_negative a ≡ false
        → signed (from_uint128 (Uint128.div (to_uint128 a) r)) ≡ tdiv (signed a) r
    above e =
        signed-small _ (bits a / r) (uint_div-bits a r ha hp hr)
          (omega (arith, div-le_self (bits a) r, nonnegative_size a ha e))
        ∙ ap (λ z. tdiv z r) (sym (signed-nonnegative a ha e))

negate-least : (a : Int128) → IsInt128 a → bits a ≡ int128_half → bits (negate a) ≡ int128_half
negate-least a ha e = omega (arith, bits-negate a ha, e)

least_negative : (a : Int128) → IsInt128 a → bits a ≡ int128_half → is_negative a ≡ true
least_negative a ha e = ground (arith, is_negative_signed a ha)

-- The product and the quotient of the least number never come back, however often the operator
-- calls itself.
pub mul-div_least :
    (fuel : ℕ) (a : Int128) (r : ℕ)
    → IsInt128 a
    → bits a ≡ int128_half
    → (mul fuel a r ≡ none) × (div fuel a r ≡ none)
unfolding mul div
mul-div_least zero a r ha e = (refl, refl)
mul-div_least (suc fuel) a r ha e =
    rw
      (
        least_negative a ha e,
        (mul-div_least fuel (negate a) r (negate-IsInt128 a ha) (negate-least a ha e)).0,
        (mul-div_least fuel (negate a) r (negate-IsInt128 a ha) (negate-least a ha e)).1,
      )
      (refl, refl)
