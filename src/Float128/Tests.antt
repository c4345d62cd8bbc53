-- ===== src/Float128/Tests.antt =====
-- Runs on concrete integers, and the theorem at them.
use libdynd.Common.{◌≡◌, refl, arith}
use libdynd.Float128.{
  from_lead, float128_uint8, float128_uint16, float128_uint32, leading_zerobits_8,
  leading_zerobits_16, leading_zerobits_32,
}
use libdynd.Float128.Exponent.{Biased, float128-Biased}

methods : Unit {0}
unfolding from_lead float128_uint8 float128_uint16 float128_uint32 leading_zerobits_8
    leading_zerobits_16 leading_zerobits_32
methods = tt

zeros : leading_zerobits_32 70000 ≡ 15
unfolding methods
zeros = refl

-- 1 should have the upper word 4611404543450677248, whose exponent is 16383.
one : float128_uint32 1 ≡ record { m_lo = 0; m_hi = 4739757132830736384 }
unfolding methods
one = refl

float128-Biased_example :
    Biased 8 200 (leading_zerobits_8 200) (float128_uint8 200)
    × Biased 16 300 (leading_zerobits_16 300) (float128_uint16 300)
    × Biased 32 70000 (leading_zerobits_32 70000) (float128_uint32 70000)
float128-Biased_example =
    float128-Biased 200 300 70000 (omega arith) (omega arith) (omega arith) (omega arith)
      (omega arith) (omega arith)
