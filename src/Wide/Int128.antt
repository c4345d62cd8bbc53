-- ===== src/Wide/Int128.antt =====
-- `class int128`: the two's complement of the words of `uint128`. Its product and quotient of a number
-- that is not negative run the statements of those of `uint128`.
use libdynd.Common.{
  ℕ, zero, suc, ◌+◌, ◌-◌, ◌%◌, Bool, ◌&&◌, ◌||◌, Option, none, some, ◌∷◌, ltb, leb, ◌==◌,
  if◌then◌else◌,
}
use libdynd.Common.Int.{ℤ, pos, residue, ltb_ℤ, sub_ℕ, int64_half}
use libdynd.Parse.{Bytes}
use libdynd.Wide.Uint128.{Uint128, uint128, word, wide, bit, complement}
use libdynd.Wide.Uint128

pub record Int128 : Type 0 where
  pub m_hi : ℕ
  pub m_lo : ℕ

abbrev pub int128 : ℕ → ℕ → Int128
int128 hi lo = record { m_hi = hi; m_lo = lo }

-- A word as an `int64_t`.
abbrev pub signed_word : ℕ → ℤ
signed_word w = if ltb w int64_half then pos w else sub_ℕ w word

-- The constructor from `int64_t`: the high word extends the sign.
unfoldable pub from_int64 : ℤ → Int128
from_int64 n = int128 (if ltb_ℤ n (pos 0) then word - 1 else 0) (residue n word)

unfoldable pub eq_int128 : Int128 → Int128 → Bool
eq_int128 a b = (a.m_lo == b.m_lo) && (a.m_hi == b.m_hi)

unfoldable pub lt_int128 : Int128 → Int128 → Bool
lt_int128 a b =
    ltb_ℤ (signed_word a.m_hi) (signed_word b.m_hi) || ((a.m_hi == b.m_hi) && ltb a.m_lo b.m_lo)

unfoldable pub le_int128 : Int128 → Int128 → Bool
le_int128 a b =
    ltb_ℤ (signed_word a.m_hi) (signed_word b.m_hi) || ((a.m_hi == b.m_hi) && leb a.m_lo b.m_lo)

-- `(int64_t)m_hi < 0`, and `is_negative`.
unfoldable pub is_negative : Int128 → Bool
is_negative a = leb int64_half a.m_hi

-- The unary `operator-`, and `negate`.
unfoldable pub negate : Int128 → Int128
negate a =
    let lo = complement a.m_lo in
    let lo_p1 = (lo + 1) % word in int128 ((complement a.m_hi + bit (ltb lo_p1 lo)) % word) lo_p1

unfoldable pub add : Int128 → Int128 → Int128
add a b =
    let lo = (a.m_lo + b.m_lo) % word in int128 ((a.m_hi + b.m_hi + bit (ltb lo a.m_lo)) % word) lo

unfoldable pub sub : Int128 → Int128 → Int128
sub a b =
    let lo = (a.m_lo + complement b.m_lo + 1) % word in
    int128 ((a.m_hi + complement b.m_hi + bit (ltb lo a.m_lo)) % word) lo

abbrev pub to_uint128 : Int128 → Uint128
to_uint128 a = uint128 a.m_hi a.m_lo

abbrev pub from_uint128 : Uint128 → Int128
from_uint128 a = int128 a.m_hi a.m_lo

abbrev pub negated : Option Int128 → Option Int128
negated none = none
negated (some a) = some (negate a)

-- The product with a `uint32_t`, with fuel for the calls of itself.
unfoldable pub mul : ℕ → Int128 → ℕ → Option Int128
mul zero a rhs = none
mul (suc fuel) a rhs =
    let recursive = mul fuel (negate a) rhs in
    if is_negative a
    then negated recursive
    else some (from_uint128 (Uint128.mul (to_uint128 a) rhs))

-- The quotient by a `uint32_t`, with fuel for the calls of itself.
unfoldable pub div : ℕ → Int128 → ℕ → Option Int128
div zero a rhs = none
div (suc fuel) a rhs =
    let recursive = div fuel (negate a) rhs in
    if is_negative a
    then negated recursive
    else some (from_uint128 (Uint128.div (to_uint128 a) rhs))

-- `operator<<`
unfoldable pub print : Int128 → Bytes
print val =
    if lt_int128 val (from_int64 (pos 0))
    then b'-' ∷ Uint128.print (to_uint128 (negate val))
    else Uint128.print (to_uint128 val)
