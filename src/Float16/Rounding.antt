-- ===== src/Float16/Rounding.antt =====
-- A `float` is rounded to the nearest half, by src/dynd/float16.cpp.
use libdynd.Common.{
  ℕ, ◌+◌, ◌-◌, ◌*◌, ◌/◌, ◌%◌, ◌≤◌, ◌<◌, ◌≡◌, ◌≢◌, ◌⊎◌, inl, inr, refl, sym, arith, false, ◌&&◌, leb,
  ◌==◌, ==_iff, by_test, and_parts, Bool-cases, subst,
}
use libdynd.Float16.{
  AssignErrorMode, Converted, half, overflow_error, runtime_error, checks_overflow, rounded_single,
  finite, convert_single, float_to_halfbits,
}
use libdynd.Float16.Single.{float_to_halfbits-signed}

-- The bits of a half, as far as they stand for a magnitude in the range of the normal ones, are the
-- nearest to those of a float, and even where two are as near: a half has 13 bits less, and its
-- exponent is 112 less.
abbrev pub IsNearest : ℕ → ℕ → Type 0
IsNearest k g =
    (8192 * k + 939524096 ≤ g + 4096)
    × (g ≤ 8192 * k + 939524096 + 4096)
    × ((8192 * k + 939524096 ≡ g + 4096) ⊎ (g ≡ 8192 * k + 939524096 + 4096) → k % 2 ≡ 0)

abbrev pub Rounds : ℕ → ℕ → Converted → Type 0
Rounds s g (half b) = (b / 32768 ≡ s) × (b % 32768 ≤ 31744) × IsNearest (b % 32768) g
Rounds s g overflow_error = 1199566848 ≤ g
Rounds s g runtime_error = ⊥

-- A significand is rounded to the nearest, and a tie to an even one.
rounded_single-nearest :
    (sig r : ℕ)
    → sig < 8388608
    → rounded_single sig ≡ r
    → (8192 * r ≤ sig + 4096)
      × (sig ≤ 8192 * r + 4096)
      × ((8192 * r ≡ sig + 4096) ⊎ (sig ≡ 8192 * r + 4096) → r % 2 ≡ 0)
rounded_single-nearest sig r small e = elim (Bool-cases (sig % 16384 == 4096)) [
  | inl t ↦
      let tie : sig % 16384 ≡ 4096 = (==_iff (sig % 16384) 4096).0 t in
      let q : sig / 8192 ≡ r = rw t at e in
      (omega (arith, tie, q), omega (arith, tie, q), λ w. omega (arith, tie, q))
  | inr t ↦
      let q : (sig + 4096) / 8192 ≡ r = omega (arith, small, (rw t at e)) in
      let no_tie : sig % 16384 ≢ 4096 = ground (arith, t) in
      (
        omega (arith, q),
        omega (arith, q),
        λ w. elim w [ inl u ↦ omega (arith, q, no_tie, u) | inr u ↦ omega (arith, q, u) ],
      )
]

IsNearest-rounded_single :
    (g r : ℕ)
    → 947912704 ≤ g
    → g < 1199570944
    → rounded_single (g % 8388608) ≡ r
    → IsNearest (r + (g / 8388608 * 8388608 - 939524096) / 8192) g
IsNearest-rounded_single g r low high e =
    let near = rounded_single-nearest (g % 8388608) r (omega arith) e in
    (
      omega (arith, near.0),
      omega (arith, near.1),
      λ t.
          let even : r % 2 ≡ 0 =
            near.2 (elim t [ inl u ↦ inl (omega (arith, u)) | inr u ↦ inr (omega (arith, u)) ]) in
          omega (arith, even),
    )

Rounds-finite :
    (errmode : AssignErrorMode) (s g k : ℕ)
    → s < 2
    → g < 1199570944
    → IsNearest k g
    → Rounds s g (finite errmode (s * 32768) k)
Rounds-finite errmode s g k sign high near =
    by_test (Rounds s g) ((k == 31744) && checks_overflow errmode)
      (λ h. omega (arith, (==_iff k 31744).0 (and_parts _ _ h).0, near.0))
      (λ h.
        let same : k ≡ (s * 32768 + k) % 65536 % 32768 = omega (arith, near.0) in
        (omega (arith, near.0), omega (arith, near.0), subst (λ n. IsNearest n g) same near))

-- A float of a sign and a magnitude, whose exponent is that of a normal half, is converted to the
-- nearest half, a tie to an even one, where the infinite half stands for 65536; only an overflow is
-- thrown, and only for a magnitude from 65520 on, which is half-way from the greatest half to 65536.
pub float_to_halfbits-Rounds :
    (errmode : AssignErrorMode) (s g : ℕ)
    → s < 2
    → 947912704 ≤ g
    → g < 1199570944
    → Rounds s g (float_to_halfbits errmode (s * 2147483648 + g))
unfolding convert_single
float_to_halfbits-Rounds errmode s g sign low high =
    let below : leb 1199570944 (g / 8388608 * 8388608) ≡ false = ground arith in
    let above : leb (g / 8388608 * 8388608) 939524096 ≡ false = ground arith in
    let near = IsNearest-rounded_single g _ low high refl in
    subst (Rounds s g) (sym (float_to_halfbits-signed errmode s g (omega arith)))
      (rw (below, above) (Rounds-finite errmode s g _ sign high near))
