-- ===== src/Float16.antt =====
-- The conversions between half floats and floats, of src/dynd/float16.cpp, on the bits of both: a
-- half float is a number of 16 bits, a `float` one of 32 and a `double` one of 64. A mask and a shift
-- are a remainder and a quotient by a power of 2. The text of an exception is left out.
pub mod Bits
pub mod Double
pub mod Rounding
pub mod Single
mod Tests
use libdynd.Common.{
  ℕ, zero, suc, ◌+◌, ◌-◌, ◌*◌, ◌/◌, ◌%◌, ◌^◌, Bool, true, false, not, ◌&&◌, ltb, leb, ◌==◌,
  if◌then◌else◌,
}

-- `assign_error_mode`, of include/dynd/typed_data_assign.hpp, in its order.
pub data AssignErrorMode : Type 0 where
  assign_error_nocheck assign_error_overflow assign_error_fractional : AssignErrorMode
  assign_error_inexact assign_error_default : AssignErrorMode

-- `errmode >= assign_error_overflow`, and `errmode >= assign_error_inexact`.
abbrev pub checks_overflow : AssignErrorMode → Bool
checks_overflow assign_error_nocheck = false
checks_overflow _ = true

abbrev pub checks_inexact : AssignErrorMode → Bool
checks_inexact assign_error_inexact = true
checks_inexact assign_error_default = true
checks_inexact _ = false

pub data Converted : Type 0 where
  half : (bits : ℕ) → Converted
  overflow_error : Converted
  runtime_error : Converted

-- Where the half is infinite or no number: the significand in its upper bits, made one that is not
-- 0 if the number is a NaN.
abbrev pub inf_or_nan : (h_sgn sig top : ℕ) → ℕ
inf_or_nan h_sgn sig top =
    if sig == 0 then h_sgn + 31744 else if top == 0 then h_sgn + 31745 else h_sgn + (31744 + top)

-- The significand with 1 added to the bit beyond the precision of a half, unless what is left is a
-- tie behind an even digit; then the bits of the half.
abbrev pub rounded_single : ℕ → ℕ
rounded_single f_sig = (if f_sig % 16384 == 4096 then f_sig else (f_sig + 4096) % 4294967296) / 8192

abbrev pub rounded_double : ℕ → ℕ
rounded_double d_sig =
    (if d_sig % 8796093022208 == 2199023255552
      then d_sig
      else (d_sig + 2199023255552) % 18446744073709551616)
    / 4398046511104

-- The test of an exponent that may have become that of infinity.
abbrev pub finite : AssignErrorMode → ℕ → ℕ → Converted
finite errmode h_sgn h_sig =
    if (h_sig == 31744) && checks_overflow errmode
    then overflow_error
    else half ((h_sgn + h_sig) % 65536)

-- The branch for small exponents, from 102 to 112.
unfoldable pub subnormal_single : AssignErrorMode → ℕ → ℕ → ℕ → Converted
subnormal_single errmode h_sgn f_exp f_sig =
    if checks_inexact errmode && not (f_sig % 2 ^ (126 - f_exp) == 0)
    then runtime_error
    else half ((h_sgn + rounded_single (f_sig / 2 ^ (113 - f_exp))) % 65536)

-- The branches, by the sign of the half, the magnitude of the float, its exponent in place and its
-- significand.
unfoldable pub convert_single : AssignErrorMode → (h_sgn magnitude f_exp f_sig : ℕ) → Converted
convert_single errmode h_sgn magnitude f_exp f_sig =
    if leb 1199570944 f_exp
    then (if f_exp == 2139095040
        then half (inf_or_nan h_sgn f_sig (f_sig / 8192))
        else if checks_overflow errmode
        then overflow_error
        else half (h_sgn + 31744))
    else if leb f_exp 939524096
    then (if ltb f_exp 855638016
        then (if checks_inexact errmode && not (magnitude == 0) then runtime_error else half h_sgn)
        else subnormal_single errmode h_sgn (f_exp / 8388608) (8388608 + f_sig))
    else finite errmode h_sgn (rounded_single f_sig + (f_exp - 939524096) / 8192)

unfoldable pub float_to_halfbits : AssignErrorMode → ℕ → Converted
float_to_halfbits errmode f =
    convert_single errmode (f / 2147483648 * 32768) (f % 2147483648)
      (f % 2147483648 / 8388608 * 8388608) (f % 8388608)

-- The branch for small exponents, from 998 to 1008.
unfoldable pub subnormal_double : AssignErrorMode → ℕ → ℕ → ℕ → Converted
subnormal_double errmode h_sgn d_exp d_sig =
    if checks_inexact errmode && not (d_sig % 2 ^ (1051 - d_exp) == 0)
    then runtime_error
    else half ((h_sgn + rounded_double (d_sig / 2 ^ (1009 - d_exp))) % 65536)

-- The branches, as in `convert_single`.
unfoldable pub convert_double : AssignErrorMode → (h_sgn magnitude d_exp d_sig : ℕ) → Converted
convert_double errmode h_sgn magnitude d_exp d_sig =
    if leb 4679240012837945344 d_exp
    then (if d_exp == 9218868437227405312
        then half (inf_or_nan h_sgn d_sig (d_sig / 4398046511104))
        else if checks_overflow errmode
        then overflow_error
        else half (h_sgn + 31744))
    else if leb d_exp 4539628424389459968
    then (if ltb d_exp 4494592428115755008
        then (if checks_inexact errmode && not (magnitude == 0) then runtime_error else half h_sgn)
        else subnormal_double errmode h_sgn (d_exp / 4503599627370496) (4503599627370496 + d_sig))
    else finite errmode h_sgn (rounded_double d_sig + (d_exp - 4539628424389459968) / 4398046511104)

unfoldable pub double_to_halfbits : AssignErrorMode → ℕ → Converted
double_to_halfbits errmode d =
    convert_double errmode (d / 9223372036854775808 * 32768) (d % 9223372036854775808)
      (d % 9223372036854775808 / 4503599627370496 * 4503599627370496) (d % 4503599627370496)

-- The loop that normalizes a significand, of 10 bits and not 0: it and the exponent. At most 9
-- shifts bring its first bit to the 11th place.
unfoldable pub normalized : ℕ → ℕ → ℕ → ℕ × ℕ
normalized zero h_sig h_exp = (h_sig, h_exp)
normalized (suc fuel) h_sig h_exp =
    let more = normalized fuel (h_sig * 2 % 65536) (h_exp + 1) in
    if h_sig / 1024 % 2 == 0 then more else (h_sig, h_exp)

-- The cases of the switch on the exponent, by the sign of the float, the magnitude of the half, its
-- exponent in place and its significand.
unfoldable pub restore_single : (f_sgn magnitude h_exp h_sig : ℕ) → ℕ
restore_single f_sgn magnitude h_exp h_sig =
    let sub = normalized 9 (h_sig * 2) 0 in
    if h_exp == 0
    then (if h_sig == 0 then f_sgn else f_sgn + (127 - 15 - sub.1) * 8388608 + sub.0 % 1024 * 8192)
    else if h_exp == 31744
    then f_sgn + 2139095040 + h_sig * 8192
    else f_sgn + (magnitude + 114688) * 8192

unfoldable pub halfbits_to_float : ℕ → ℕ
halfbits_to_float h =
    restore_single (h / 32768 * 2147483648) (h % 32768) (h % 32768 / 1024 * 1024) (h % 1024)

-- The cases, as in `restore_single`.
unfoldable pub restore_double : (d_sgn magnitude h_exp h_sig : ℕ) → ℕ
restore_double d_sgn magnitude h_exp h_sig =
    let sub = normalized 9 (h_sig * 2) 0 in
    if h_exp == 0
    then (if h_sig == 0
        then d_sgn
        else d_sgn + (1023 - 15 - sub.1) * 4503599627370496 + sub.0 % 1024 * 4398046511104)
    else if h_exp == 31744
    then d_sgn + 9218868437227405312 + h_sig * 4398046511104
    else d_sgn + (magnitude + 1032192) * 4398046511104

unfoldable pub halfbits_to_double : ℕ → ℕ
halfbits_to_double h =
    restore_double (h / 32768 * 9223372036854775808) (h % 32768) (h % 32768 / 1024 * 1024)
      (h % 1024)
