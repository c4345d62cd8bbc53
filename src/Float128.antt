-- ===== src/Float128.antt =====
-- The conversions of unsigned integers up to 32 bits into the bits of a quadruple float, of
-- src/dynd/float128.cpp. A quadruple is a word of the sign, 15 bits of the exponent and 48 of the
-- significand, and a lower word, both of 64 bits. A mask and a shift are a remainder and a quotient
-- by a power of 2.
pub mod LeadingZeros
pub mod Exponent
mod Tests
use libdynd.Common.{ℕ, ◌+◌, ◌-◌, ◌*◌, ◌/◌, ◌%◌, ◌^◌, ◌==◌, if◌then◌else◌}

-- The overloads for `uint8_t`, `uint16_t` and `uint32_t`.
unfoldable pub leading_zerobits_8 : ℕ → ℕ
leading_zerobits_8 value =
    if value / 16 % 16 == 0
    then (if value / 4 % 4 == 0
        then (if value / 2 % 2 == 0 then 7 else 6)
        else if value / 8 % 2 == 0
        then 5
        else 4)
    else if value / 64 % 4 == 0
    then (if value / 32 % 2 == 0 then 3 else 2)
    else if value / 128 % 2 == 0
    then 1
    else 0

unfoldable pub leading_zerobits_16 : ℕ → ℕ
leading_zerobits_16 value =
    if value / 256 % 256 == 0
    then leading_zerobits_8 (value % 256) + 8
    else leading_zerobits_8 (value / 256 % 256)

unfoldable pub leading_zerobits_32 : ℕ → ℕ
leading_zerobits_32 value =
    if value / 65536 % 65536 == 0
    then leading_zerobits_16 (value % 65536) + 16
    else leading_zerobits_16 (value / 65536 % 65536)

pub record Float128 : Type 0 where
  pub m_lo : ℕ
  pub m_hi : ℕ

abbrev pub two_pow_64 : ℕ
two_pow_64 = 18446744073709551616

-- The two lines that set the exponent and the significand of a value of `width` bits.
unfoldable pub from_lead : (width value lead : ℕ) → Float128
from_lead width value lead =
    let exponent = (16838 + width - lead) * 281474976710656 % two_pow_64 in
    let significand = value * 2 ^ (49 - width + lead) % two_pow_64 % 281474976710656 in
    record { m_lo = 0; m_hi = (exponent + significand) % two_pow_64 }

abbrev pub zero_float : Float128
zero_float = record { m_lo = 0; m_hi = 0 }

-- The constructors for `unsigned char`, `unsigned short` and `unsigned int`.
unfoldable pub float128_uint8 : ℕ → Float128
float128_uint8 value =
    if value == 0 then zero_float else from_lead 8 value (leading_zerobits_8 value)

unfoldable pub float128_uint16 : ℕ → Float128
float128_uint16 value =
    if value == 0 then zero_float else from_lead 16 value (leading_zerobits_16 value)

unfoldable pub float128_uint32 : ℕ → Float128
float128_uint32 value =
    if value == 0 then zero_float else from_lead 32 value (leading_zerobits_32 value)
