-- ===== src/Time/Fraction.antt =====
-- The digits of a second's fraction: what `tick_digits` writes, `tick_rounds` reads.
use native.Mathlib.Nat.{mod-lt, div-lt_iff_lt-mul, div-add-mod'}
use libdynd.Common.{
  ℕ, zero, suc, ◌+◌, ◌-◌, ◌*◌, ◌/◌, ◌%◌, ◌<◌, ◌≡◌, ◌≢◌, refl, arith, some, [], ◌∷◌,
}
use libdynd.Parse.{Bytes}
use libdynd.Time.{ticks_per_second}
use libdynd.Time.Text.{tick_digits}
use libdynd.Time.Parser.{tick_rounds, skip_digits, parse_ticks}

-- The divisor of a fraction's first digit, where `k` digits follow it.
abbrev pow10 : ℕ → ℕ
pow10 zero = 1
pow10 (suc k) = 10 * pow10 k

tick_digits-zero : (fuel divisor : ℕ) → tick_digits fuel divisor 0 ≡ []
unfolding tick_digits
tick_digits-zero zero divisor = refl
tick_digits-zero (suc fuel) divisor = refl

tick_digits-suc :
    (fuel divisor t : ℕ)
    → tick_digits (suc fuel) divisor (suc t)
      ≡ (b'0' + suc t / divisor) ∷ tick_digits fuel (divisor / 10) (suc t % divisor)
unfolding tick_digits
tick_digits-suc fuel divisor t = ground arith

skip_digits-nil : skip_digits [] ≡ []
unfolding skip_digits
skip_digits-nil = refl

tick_rounds_end : (k acc : ℕ) → tick_rounds k acc [] ≡ (acc * pow10 k, [])
unfolding tick_rounds
tick_rounds_end zero acc = ground arith
tick_rounds_end (suc k) acc = ground (arith, tick_rounds_end k (acc * 10))

pow10-pos : (k : ℕ) → 0 < pow10 k
pow10-pos zero = omega arith
pow10-pos (suc k) = omega (arith, pow10-pos k)

tick_rounds_digit :
    (k acc d t n : ℕ) (s : Bytes)
    → d < 10
    → tick_rounds k (acc * 10 + d) s ≡ ((acc * 10 + d) * pow10 k + t, [])
    → d * pow10 k + t ≡ n
    → tick_rounds (suc k) acc ((b'0' + d) ∷ s) ≡ (acc * pow10 (suc k) + n, [])
unfolding tick_rounds
tick_rounds_digit k acc d t n s hd e sum =
    let back : b'0' + d - b'0' ≡ d = omega arith in ground (arith, back, e, sum)

-- The rounds of the parser read the digits that the rounds of the printer write.
tick_rounds-tick_digits :
    (k acc t : ℕ)
    → t < pow10 k
    → tick_rounds k acc (tick_digits k (pow10 k / 10) t) ≡ (acc * pow10 k + t, [])
tick_rounds-tick_digits zero acc t h = unfold tick_rounds tick_digits in ground arith
tick_rounds-tick_digits (suc k) acc zero h = rw tick_digits-zero (rw tick_rounds_end (ground arith))
tick_rounds-tick_digits (suc k) acc (suc t) h =
    let d : ℕ = pow10 k in
    let e : pow10 (suc k) / 10 ≡ d = omega arith in
    let low : suc t % d < d = mod-lt (suc t) (pow10-pos k) in
    rw e (
      rw (tick_digits-suc k d t) (
        tick_rounds_digit k acc (suc t / d) (suc t % d) (suc t) _
          ((div-lt_iff_lt-mul (pow10-pos k)).1 h)
          (tick_rounds-tick_digits k (acc * 10 + suc t / d) (suc t % d) low)
          (div-add-mod' (suc t) d)))

unfoldable pub fraction_text : (t : ℕ) → Bytes
fraction_text t = tick_digits 7 1000000 t

pub parse_ticks-fraction_text :
    (t : ℕ) → t ≢ 0 → t < ticks_per_second → parse_ticks (fraction_text t) ≡ some (t, [])
unfolding parse_ticks fraction_text
parse_ticks-fraction_text zero ne h = absurd (ne refl)
parse_ticks-fraction_text (suc t) ne h = rw (tick_digits-suc 6 1000000 t) (
    ground (
      arith,
      tick_rounds-tick_digits 6 (suc t / 1000000) (suc t % 1000000) (omega arith),
      skip_digits-nil,
    ))
