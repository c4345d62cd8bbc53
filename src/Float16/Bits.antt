-- ===== src/Float16/Bits.antt =====
-- The bits of a conversion that returns, as a test.
use libdynd.Common.{ℕ, ◌≡◌, ap, arith, Bool, true, false, ◌==◌, ==_iff}
use libdynd.Float16.{Converted, half, overflow_error, runtime_error}

-- The bits of a half that is a result.
abbrev pub bits_are : Converted → ℕ → Bool
bits_are (half b) n = b == n
bits_are overflow_error n = false
bits_are runtime_error n = false

pub half-bits_are : (c : Converted) (n : ℕ) → bits_are c n ≡ true → c ≡ half n
half-bits_are (half b) n h = ap half ((==_iff b n).0 h)
half-bits_are overflow_error n h = absurd (ground (arith, h))
half-bits_are runtime_error n h = absurd (ground (arith, h))
