-- ===== src/Common/Int.antt =====
-- The signed integers of C, read as exact integers: C's truncating `/` and `%`, and the narrowing
-- conversions that wrap around. Sums and orders go through the two parts of an integer.
use libdynd.Common.{
  ℕ, suc, ◌+◌, ◌-◌, ◌*◌, ◌/◌, ◌%◌, ◌^◌, ◌≤◌, ◌<◌, ◌≡◌, ◌⊎◌, Bool, arith, ltb, leb, ◌==◌,
  if◌then◌else◌,
}

-- `negsuc n` is -(n + 1).
pub data ℤ : Type 0 where
  pos : ℕ → ℤ
  negsuc : ℕ → ℤ

abbrev pub pos_part : ℤ → ℕ
pos_part (pos n) = n
pos_part (negsuc n) = 0

abbrev pub neg_part : ℤ → ℕ
neg_part (pos n) = 0
neg_part (negsuc n) = suc n

-- a - b, as an integer.
abbrev pub sub_ℕ : ℕ → ℕ → ℤ
sub_ℕ a b = if leb b a then pos (a - b) else negsuc (b - a - 1)

infixl 65 ◌+ℤ◌ ◌-ℤ◌
infixl 70 ◌*ℤ◌
infix 50 ◌≤ℤ◌ ◌<ℤ◌
unfoldable pub ◌+ℤ◌ : ℤ → ℤ → ℤ
a +ℤ b = sub_ℕ (pos_part a + pos_part b) (neg_part a + neg_part b)

unfoldable pub ◌-ℤ◌ : ℤ → ℤ → ℤ
a -ℤ b = sub_ℕ (pos_part a + neg_part b) (neg_part a + pos_part b)

unfoldable pub ◌*ℤ◌ : ℤ → ℤ → ℤ
a *ℤ b =
    sub_ℕ (pos_part a * pos_part b + neg_part a * neg_part b)
      (pos_part a * neg_part b + neg_part a * pos_part b)

abbrev pub neg_ℤ : ℤ → ℤ
neg_ℤ a = sub_ℕ (neg_part a) (pos_part a)

abbrev pub ◌≤ℤ◌ : ℤ → ℤ → Type 0
a ≤ℤ b = pos_part a + neg_part b ≤ pos_part b + neg_part a

abbrev pub ◌<ℤ◌ : ℤ → ℤ → Type 0
a <ℤ b = pos_part a + neg_part b < pos_part b + neg_part a

abbrev pub ltb_ℤ : ℤ → ℤ → Bool
ltb_ℤ a b = ltb (pos_part a + neg_part b) (pos_part b + neg_part a)

abbrev pub leb_ℤ : ℤ → ℤ → Bool
leb_ℤ a b = leb (pos_part a + neg_part b) (pos_part b + neg_part a)

abbrev pub eqb_ℤ : ℤ → ℤ → Bool
eqb_ℤ a b = (pos_part a + neg_part b) == (pos_part b + neg_part a)

-- C's `a / n` and `a % n` for a positive divisor: the quotient is truncated towards zero, and the
-- remainder has the sign of `a`.
unfoldable pub tdiv : ℤ → ℕ → ℤ
tdiv (pos a) n = pos (a / n)
tdiv (negsuc a) n = sub_ℕ 0 (suc a / n)

unfoldable pub tmod : ℤ → ℕ → ℤ
tmod (pos a) n = pos (a % n)
tmod (negsuc a) n = sub_ℕ 0 (suc a % n)

-- The value of `z` modulo `n`, in the range from 0 to n - 1.
abbrev pub residue : ℤ → ℕ → ℕ
residue (pos a) n = a % n
residue (negsuc a) n = (n - (suc a % n)) % n

-- The integers that a two's complement type of the given half range holds.
abbrev pub InRange : ℕ → ℤ → Type 0
InRange half z = (neg_part z ≤ half) × (pos_part z < half)

-- A conversion to a narrower signed type, of half range `half`: it wraps around.
unfoldable pub narrow : ℕ → ℤ → ℤ
narrow half z =
    let r = residue z (half + half) in if ltb r half then pos r else sub_ℕ r (half + half)

abbrev pub int8_half : ℕ
int8_half = 128

abbrev pub int16_half : ℕ
int16_half = 32768

abbrev pub int32_half : ℕ
int32_half = 2147483648

abbrev pub int64_half : ℕ
int64_half = 9223372036854775808

pub +ℤ_parts :
    (a b : ℤ)
    → pos_part (a +ℤ b) + neg_part a + neg_part b ≡ neg_part (a +ℤ b) + pos_part a + pos_part b
unfolding ◌+ℤ◌
+ℤ_parts a b = ground arith

pub -ℤ_parts :
    (a b : ℤ)
    → pos_part (a -ℤ b) + neg_part a + pos_part b ≡ neg_part (a -ℤ b) + pos_part a + neg_part b
unfolding ◌-ℤ◌
-ℤ_parts a b = ground arith

pub eq_of_parts : (a b : ℤ) → pos_part a + neg_part b ≡ pos_part b + neg_part a → a ≡ b
eq_of_parts a b h = ground arith

pub ruleset int_laws = (arith, +ℤ_parts, -ℤ_parts, eq_of_parts)

pub narrow-int16 : (z : ℤ) → InRange int16_half z → narrow int16_half z ≡ z
unfolding narrow
narrow-int16 (pos n) h = ground arith
narrow-int16 (negsuc n) h = ground arith

pub narrow-int8 : (z : ℤ) → InRange int8_half z → narrow int8_half z ≡ z
unfolding narrow
narrow-int8 (pos n) h = ground arith
narrow-int8 (negsuc n) h = ground arith

pub narrow-int32 : (z : ℤ) → InRange int32_half z → narrow int32_half z ≡ z
unfolding narrow
narrow-int32 (pos n) h = ground arith
narrow-int32 (negsuc n) h = ground arith

pub narrow-int64 : (z : ℤ) → InRange int64_half z → narrow int64_half z ≡ z
unfolding narrow
narrow-int64 (pos n) h = ground arith
narrow-int64 (negsuc n) h = ground arith

-- A product with a numeral, in parts.
pub *ℤ-pos_parts :
    (a : ℤ) (k : ℕ)
    → pos_part (a *ℤ pos k) + neg_part a * k ≡ neg_part (a *ℤ pos k) + pos_part a * k
unfolding ◌*ℤ◌
*ℤ-pos_parts a k = ground arith

-- `tdiv` of a difference, by the sign of the difference.
pub tdiv-sub_pos : (n c m : ℕ) → c ≤ n → tdiv (pos n -ℤ pos c) m ≡ pos ((n - c) / m)
unfolding tdiv ◌-ℤ◌
tdiv-sub_pos n c m h = ground arith

pub tdiv-sub_neg : (n c m : ℕ) → n < c → tdiv (pos n -ℤ pos c) m ≡ sub_ℕ 0 ((c - n) / m)
unfolding tdiv ◌-ℤ◌
tdiv-sub_neg n c m h = ground arith

pub tdiv-sub_negsuc : (n c m : ℕ) → tdiv (negsuc n -ℤ pos c) m ≡ sub_ℕ 0 ((suc n + c) / m)
unfolding tdiv ◌-ℤ◌
tdiv-sub_negsuc n c m = ground arith
