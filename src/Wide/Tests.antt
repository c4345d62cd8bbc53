-- ===== src/Wide/Tests.antt =====
-- Runs of the 128-bit integers, and the theorems at concrete numbers.
use libdynd.Common.{
  ◌+◌, ◌-◌, ◌*◌, ◌%◌, ◌≡◌, refl, arith, codes, some, ◌==◌, if◌then◌else◌, true, false, false,
}
use libdynd.Common.Int.{negsuc, tdiv}
use libdynd.Parse.Integers.{checked_string_to_uint}
use libdynd.Wide.Uint128.{
  uint128, wide, word, add, sub, sub_uint64, add_uint64, mul, div, divrem, eq_uint128, lt_uint128,
  le_uint128, fill_digits, print,
}
use libdynd.Wide.Int128.{int128, Int128, negate, is_negative, from_int64, lt_int128}
use libdynd.Wide.Int128
use libdynd.Wide.Arith.{value, uint128_value, value-sub}
use libdynd.Wide.Print.{checked_string_to_uint-print}
use libdynd.Wide.Signed.{signed, signed-div}

methods : Unit {0}
unfolding add sub sub_uint64 add_uint64 mul div divrem eq_uint128 lt_uint128 le_uint128 fill_digits
    print Int128.mul Int128.div Int128.print Int128.add Int128.sub negate is_negative from_int64
    lt_int128 tdiv
methods = tt

-- The greatest number.
greatest : print (uint128 (word - 1) (word - 1)) ≡ codes "340282366920938463463374607431768211455"
unfolding methods
greatest = refl

-- 1 - 0 is 1 - 2^64.
one_less_zero : sub (uint128 0 1) (uint128 0 0) ≡ uint128 (word - 1) 1
unfolding methods
one_less_zero = refl

minus_seven : Int128.print (from_int64 (negsuc 6)) ≡ codes "-7"
unfolding methods
minus_seven = refl

quotient : Int128.div 2 (from_int64 (negsuc 6)) 2 ≡ some (from_int64 (negsuc 2))
unfolding methods
quotient = refl

uint128_value_example :
    (value (add (uint128 0 (word - 1)) (uint128 1 1)) ≡ (word - 1 + (word + 1)) % wide)
    × (value (mul (uint128 0 (word - 1)) 10) ≡ ((word - 1) * 10) % wide)
    × (lt_uint128 (uint128 0 (word - 1)) (uint128 1 1) ≡ true)
    × (le_uint128 (uint128 0 (word - 1)) (uint128 1 1) ≡ true)
    × (eq_uint128 (uint128 0 (word - 1)) (uint128 1 1) ≡ false)
uint128_value_example =
    uint128_value (uint128 0 (word - 1)) (uint128 1 1) 10 (omega arith, omega arith)
      (omega arith, omega arith) (omega arith)

value-sub_example :
    value (sub (uint128 3 5) (uint128 1 0))
    ≡ (3 * word + 5 + wide - word - (if 0 == 0 then word else 0)) % wide
value-sub_example =
    value-sub (uint128 3 5) (uint128 1 0) (omega arith, omega arith) (omega arith, omega arith)

checked_string_to_uint-print_example :
    checked_string_to_uint wide (print (uint128 1 0))
    ≡ record { value = word; overflow = false; badparse = false }
checked_string_to_uint-print_example =
    checked_string_to_uint-print (uint128 1 0) (omega arith, omega arith)

signed-div_example :
    (q : Int128) × (Int128.div 2 (int128 (word - 1) (word - 7)) 2 ≡ some q)
    × (signed q ≡ tdiv (negsuc 6) 2)
signed-div_example =
    signed-div 0 (int128 (word - 1) (word - 7)) 2 (omega arith, omega arith) (λ e. omega arith)
      (omega arith) (omega arith)
