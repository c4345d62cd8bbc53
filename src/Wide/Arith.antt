-- ===== src/Wide/Arith.antt =====
-- The arithmetic of `class uint128` against exact numbers.
use libdynd.Common.{
  ℕ, ◌+◌, ◌-◌, ◌*◌, ◌/◌, ◌%◌, ◌<◌, ◌≡◌, refl, sym, ◌∙◌, arith, ltb, leb, ◌==◌, if◌then◌else◌,
}
use native.Mathlib.Nat.{
  add-mul-div_right, div-eq_of_lt, add-mul-mod_self_right, mod-eq_of_lt, div-lt_iff_lt-mul, mod-lt,
  div-add-mod', div-le_self,
}
use libdynd.Wide.Uint128.{
  Uint128, word, half_word, wide, bit, eq_uint128, lt_uint128, le_uint128, add, sub, mul, mid_val,
  low_val, divrem,
}

-- The number that the two words stand for.
abbrev pub value : Uint128 → ℕ
value a = a.m_hi * word + a.m_lo

-- Each word has 64 bits.
abbrev pub IsUint128 : Uint128 → Type 0
IsUint128 a = (a.m_hi < word) × (a.m_lo < word)

pub value-add :
    (a b : Uint128) → IsUint128 a → IsUint128 b → value (add a b) ≡ (value a + value b) % wide
unfolding add
value-add a b ha hb = ground arith

pub lt_value :
    (a b : Uint128) → IsUint128 a → IsUint128 b → lt_uint128 a b ≡ ltb (value a) (value b)
unfolding lt_uint128
lt_value a b ha hb = ground arith

pub le_value :
    (a b : Uint128) → IsUint128 a → IsUint128 b → le_uint128 a b ≡ leb (value a) (value b)
unfolding le_uint128
le_value a b ha hb = ground arith

pub eq_value : (a b : Uint128) → IsUint128 a → IsUint128 b → eq_uint128 a b ≡ (value a == value b)
unfolding eq_uint128
eq_value a b ha hb = ground arith

-- The difference is that of the numbers modulo 2^128 if the low word of the second is not 0; if it is,
-- the difference is too small by 2^64.
pub value-sub :
    (a b : Uint128)
    → IsUint128 a
    → IsUint128 b
    → value (sub a b) ≡ (value a + wide - value b - (if b.m_lo == 0 then word else 0)) % wide
unfolding sub
value-sub a b ha hb = ground arith

-- The words of a product, from the three partial products.
mul_words :
    (p q s : ℕ)
    → p < word
    → q < word
    → ((q % word / half_word
                + bit (ltb ((p % word + (q % word * half_word) % word) % word) (p % word)))
              % word
            + s % word)
          % word
          * word
        + (p % word + (q % word * half_word) % word) % word
      ≡ (s * word + q * half_word + p) % wide
mul_words p q s hp hq = ground arith

half_product : (x r : ℕ) → x < half_word → r < half_word → x * r < word
half_product x r hx hr = grind arith

split_product :
    (hi lo x y r : ℕ)
    → lo ≡ x * half_word + y
    → (hi * word + lo) * r ≡ hi * r * word + x * r * half_word + y * r
split_product hi lo x y r e = rw e (grind arith)

pub value-mul :
    (a : Uint128) (r : ℕ) → IsUint128 a → r < half_word → value (mul a r) ≡ (value a * r) % wide
unfolding mul
value-mul a r ha hr =
    rw (split_product a.m_hi a.m_lo (a.m_lo / half_word) (a.m_lo % half_word) r (omega arith)) (
      mul_words (a.m_lo % half_word * r) (a.m_lo / half_word * r) (a.m_hi * r)
        (half_product (a.m_lo % half_word) r (omega arith) hr)
        (half_product (a.m_lo / half_word) r (omega arith) hr))

-- A quotient and a remainder below the divisor are those of the division.
division : (n r q m : ℕ) → n ≡ m + q * r → m < r → (n / r ≡ q) × (n % r ≡ m)
division n r q m e h = (
  rw (e, add-mul-div_right m q {z = r} (omega arith), div-eq_of_lt h) (omega arith),
  rw (e, add-mul-mod_self_right m q r, mod-eq_of_lt h) refl,
)

-- One step of a long division: the remainder of the digits before, with the next digit, is less
-- than the divisor times the base.
step_lt : (m r x : ℕ) → m < r → x < half_word → m * half_word + x < r * half_word
step_lt m r x hm hx = grind arith

quotient_lt : (n r : ℕ) → n < r * half_word → n / r < half_word
quotient_lt n r h =
    (div-lt_iff_lt-mul {k = r} {x = n} {y = half_word} (grind arith)).1 (grind arith)

-- A long division in three steps, `u` and `v` the halves of the low word.
long_division :
    (hi u v r q1 m1 q2 m2 q3 m3 : ℕ)
    → hi ≡ q1 * r + m1
    → m1 * half_word + u ≡ q2 * r + m2
    → m2 * half_word + v ≡ q3 * r + m3
    → hi * word + (u * half_word + v) ≡ m3 + (q1 * word + (q2 * half_word + q3)) * r
long_division hi u v r q1 m1 q2 m2 q3 m3 e1 e2 e3 =
    omega (arith, split_product q1 (q2 * half_word + q3) q2 q3 r refl, e1, e2, e3)

module _ (a : Uint128) (r : ℕ) (ha : IsUint128 a) (hp : 0 < r) (hr : r < half_word) where
  first_rem : a.m_hi % r < r
  first_rem = mod-lt a.m_hi hp

  mid_eq : mid_val a r ≡ a.m_hi % r * half_word + a.m_lo / half_word
  mid_eq = omega (arith, first_rem)

  mid_rem : mid_val a r % r < r
  mid_rem = mod-lt (mid_val a r) hp

  low_eq : low_val a r ≡ mid_val a r % r * half_word + a.m_lo % half_word
  low_eq = omega (arith, mid_rem)

  mid_quotient : mid_val a r / r < half_word
  mid_quotient =
      quotient_lt (mid_val a r) r
        (rw mid_eq (step_lt (a.m_hi % r) r (a.m_lo / half_word) first_rem (omega arith)))

  low_quotient : low_val a r / r < half_word
  low_quotient =
      quotient_lt (low_val a r) r
        (rw low_eq (step_lt (mid_val a r % r) r (a.m_lo % half_word) mid_rem (omega arith)))

  quotient_lo :
      (mid_val a r / r * half_word) % word + low_val a r / r
      ≡ mid_val a r / r * half_word + low_val a r / r
  quotient_lo = omega (arith, mid_quotient)

  divrem_eq : value a ≡ (divrem a r).1 + value (divrem a r).0 * r
  unfolding divrem
  divrem_eq = rw quotient_lo (
      lo_halves
      ∙ long_division a.m_hi (a.m_lo / half_word) (a.m_lo % half_word) r (a.m_hi / r) (a.m_hi % r)
          (mid_val a r / r) (mid_val a r % r) (low_val a r / r) (low_val a r % r)
          (sym (div-add-mod' a.m_hi r)) (sym mid_eq ∙ sym (div-add-mod' (mid_val a r) r))
          (sym low_eq ∙ sym (div-add-mod' (low_val a r) r)))
    where
      lo_halves : value a ≡ a.m_hi * word + (a.m_lo / half_word * half_word + a.m_lo % half_word)
      lo_halves = omega arith

  -- A division by a `uint32_t` other than 0 gives the quotient and the remainder of the number.
  pub value-divrem : (value (divrem a r).0 ≡ value a / r) × ((divrem a r).1 ≡ value a % r)
  unfolding divrem
  value-divrem = (sym exact.0, sym exact.1)
    where
      exact : (value a / r ≡ value (divrem a r).0) × (value a % r ≡ (divrem a r).1)
      exact =
          division (value a) r (value (divrem a r).0) ((divrem a r).1) divrem_eq
            (mod-lt (low_val a r) hp)

  pub divrem-IsUint128 : IsUint128 (divrem a r).0
  unfolding divrem
  divrem-IsUint128 = (div_lt_word, rw quotient_lo (omega (arith, mid_quotient, low_quotient)))
    where
      div_lt_word : a.m_hi / r < word
      div_lt_word = omega (arith, div-le_self a.m_hi r)

-- The sum, the product with a `uint32_t` and the comparisons are those of the numbers that the words
-- stand for, the sum and the product modulo 2^128.
pub uint128_value :
    (a b : Uint128) (r : ℕ)
    → IsUint128 a
    → IsUint128 b
    → r < half_word
    → (value (add a b) ≡ (value a + value b) % wide)
      × (value (mul a r) ≡ (value a * r) % wide)
      × (lt_uint128 a b ≡ ltb (value a) (value b))
      × (le_uint128 a b ≡ leb (value a) (value b))
      × (eq_uint128 a b ≡ (value a == value b))
uint128_value a b r ha hb hr = (
  value-add a b ha hb,
  value-mul a r ha hr,
  lt_value a b ha hb,
  le_value a b ha hb,
  eq_value a b ha hb,
)
