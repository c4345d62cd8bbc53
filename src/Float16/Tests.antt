-- ===== src/Float16/Tests.antt =====
-- Runs on concrete bits, and the theorems at them.
use libdynd.Common.{◌+◌, ◌*◌, ◌≡◌, refl, arith}
use libdynd.Float16.{
  half, overflow_error, runtime_error, assign_error_nocheck, assign_error_overflow,
  assign_error_inexact, subnormal_single, convert_single, float_to_halfbits, subnormal_double,
  convert_double, double_to_halfbits, normalized, restore_single, halfbits_to_float, restore_double,
  halfbits_to_double,
}
use libdynd.Float16.Single.{float_to_halfbits-halfbits_to_float}
use libdynd.Float16.Double.{double_to_halfbits-halfbits_to_double}
use libdynd.Float16.Rounding.{Rounds, float_to_halfbits-Rounds}

methods : Unit {0}
unfolding subnormal_single convert_single float_to_halfbits subnormal_double convert_double
    double_to_halfbits normalized restore_single halfbits_to_float restore_double halfbits_to_double
methods = tt

-- 1.0, and -2.0.
one : float_to_halfbits assign_error_inexact 1065353216 ≡ half 15360
unfolding methods
one = refl

minus_two : double_to_halfbits assign_error_inexact 13835058055282163712 ≡ half 49152
unfolding methods
minus_two = refl

-- The least half above 0 is the `float` of 2^-24.
least : halfbits_to_float 1 ≡ 864026624
unfolding methods
least = refl

-- 65520 is rounded to infinity, and 65519 is not.
infinite : float_to_halfbits assign_error_nocheck 1199566848 ≡ half 31744
unfolding methods
infinite = refl

overflowing : float_to_halfbits assign_error_overflow 1199566848 ≡ overflow_error
unfolding methods
overflowing = refl

greatest : float_to_halfbits assign_error_overflow 1199566592 ≡ half 31743
unfolding methods
greatest = refl

underflowing : float_to_halfbits assign_error_inexact 855638017 ≡ runtime_error
unfolding methods
underflowing = refl

-- The `float` behind 2^-25 is nearer to 2^-24 than to 0, but the bit beyond the tie is shifted out
-- before the tie is tested.
missed_bit : float_to_halfbits assign_error_nocheck 855638017 ≡ half 0
unfolding methods
missed_bit = refl

missed_bit_double : double_to_halfbits assign_error_nocheck 4494592428115755009 ≡ half 0
unfolding methods
missed_bit_double = refl

float_to_halfbits-halfbits_to_float_example :
    float_to_halfbits assign_error_inexact (halfbits_to_float 33000) ≡ half 33000
float_to_halfbits-halfbits_to_float_example =
    float_to_halfbits-halfbits_to_float assign_error_inexact 33000 (omega arith)

double_to_halfbits-halfbits_to_double_example :
    double_to_halfbits assign_error_overflow (halfbits_to_double 32000) ≡ half 32000
double_to_halfbits-halfbits_to_double_example =
    double_to_halfbits-halfbits_to_double assign_error_overflow 32000 (omega arith)

float_to_halfbits-Rounds_example :
    Rounds 1 1065357312 (float_to_halfbits assign_error_nocheck (1 * 2147483648 + 1065357312))
float_to_halfbits-Rounds_example =
    float_to_halfbits-Rounds assign_error_nocheck 1 1065357312 (omega arith) (omega arith)
      (omega arith)
