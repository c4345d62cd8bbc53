-- ===== src/Wide/Uint128.antt =====
-- `class uint128`, its arithmetic and comparisons, and its text.
use libdynd.Common.{
  ℕ, zero, suc, ◌+◌, ◌-◌, ◌*◌, ◌/◌, ◌%◌, Bool, ◌&&◌, ◌||◌, [], ◌∷◌, ltb, leb, ◌==◌, if◌then◌else◌,
}
use libdynd.Parse.{Bytes}

-- 2^64: the number of values of a word.
abbrev pub word : ℕ
word = 18446744073709551616

-- 2^32
abbrev pub half_word : ℕ
half_word = 4294967296

-- 2^128
abbrev pub wide : ℕ
wide = 340282366920938463463374607431768211456

pub record Uint128 : Type 0 where
  pub m_hi : ℕ
  pub m_lo : ℕ

abbrev pub uint128 : ℕ → ℕ → Uint128
uint128 hi lo = record { m_hi = hi; m_lo = lo }

-- A Boolean as an integer.
abbrev pub bit : Bool → ℕ
bit b = if b then 1 else 0

-- `~x`
abbrev pub complement : ℕ → ℕ
complement x = word - 1 - x

-- The constructor from `uint64_t`.
abbrev pub from_uint64 : ℕ → Uint128
from_uint64 value = uint128 0 value

unfoldable pub eq_uint128 : Uint128 → Uint128 → Bool
eq_uint128 a b = (a.m_hi == b.m_hi) && (a.m_lo == b.m_lo)

unfoldable pub lt_uint128 : Uint128 → Uint128 → Bool
lt_uint128 a b = ltb a.m_hi b.m_hi || ((a.m_hi == b.m_hi) && ltb a.m_lo b.m_lo)

unfoldable pub le_uint128 : Uint128 → Uint128 → Bool
le_uint128 a b = ltb a.m_hi b.m_hi || ((a.m_hi == b.m_hi) && leb a.m_lo b.m_lo)

unfoldable pub add : Uint128 → Uint128 → Uint128
add a b =
    let lo = (a.m_lo + b.m_lo) % word in uint128 ((a.m_hi + b.m_hi + bit (ltb lo a.m_lo)) % word) lo

unfoldable pub add_uint64 : Uint128 → ℕ → Uint128
add_uint64 a rhs =
    let lo = (a.m_lo + rhs) % word in uint128 ((a.m_hi + bit (ltb lo a.m_lo)) % word) lo

unfoldable pub sub : Uint128 → Uint128 → Uint128
sub a b =
    let lo = (a.m_lo + complement b.m_lo + 1) % word in
    uint128 ((a.m_hi + complement b.m_hi + bit (ltb lo a.m_lo)) % word) lo

unfoldable pub sub_uint64 : Uint128 → ℕ → Uint128
sub_uint64 a rhs =
    let lo = (a.m_lo + complement rhs + 1) % word in
    uint128 ((a.m_hi + (word - 1) + bit (ltb lo a.m_lo)) % word) lo

-- The product with a `uint32_t`.
unfoldable pub mul : Uint128 → ℕ → Uint128
mul a rhs =
    let lo_partial = (a.m_lo % half_word * rhs) % word in
    let tmp = (a.m_lo / half_word * rhs) % word in
    let lo = (lo_partial + (tmp * half_word) % word) % word in
    let hi = (tmp / half_word + bit (ltb lo lo_partial)) % word in
    uint128 ((hi + (a.m_hi * rhs) % word) % word) lo

-- The dividends of the second and the third division by a `uint32_t`: a bitwise or of two words that
-- share no bit is their sum.
abbrev pub mid_val : Uint128 → ℕ → ℕ
mid_val a rhs = (a.m_hi % rhs * half_word) % word + a.m_lo / half_word

abbrev pub low_val : Uint128 → ℕ → ℕ
low_val a rhs = (mid_val a rhs % rhs * half_word) % word + a.m_lo % half_word

unfoldable pub div : Uint128 → ℕ → Uint128
div a rhs = uint128 (a.m_hi / rhs) ((mid_val a rhs / rhs * half_word) % word + low_val a rhs / rhs)

-- `divrem`: the quotient, which the object becomes, and the remainder.
unfoldable pub divrem : Uint128 → ℕ → Uint128 × ℕ
divrem a rhs = (
  uint128 (a.m_hi / rhs) ((mid_val a rhs / rhs * half_word) % word + low_val a rhs / rhs),
  low_val a rhs % rhs,
)

-- The loop of `operator<<` that fills its buffer from the back: what it writes before `buffer`. The
-- buffer has room for 39 digits.
unfoldable pub fill_digits : ℕ → Uint128 → Bytes → Bytes
fill_digits zero tmp buffer = buffer
fill_digits (suc room) tmp buffer =
    let next = divrem tmp 10 in
    let written = (next.1 + b'0') ∷ buffer in
    let rest = fill_digits room next.0 written in
    if eq_uint128 next.0 (from_uint64 0) then written else rest

unfoldable pub print : Uint128 → Bytes
print val = if eq_uint128 val (from_uint64 0) then b'0' ∷ [] else fill_digits 39 val []
