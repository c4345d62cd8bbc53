-- ===== src/Index/ForwardSlice.antt =====
-- The slice of a range that counts up, between two indices of the dimension.
use native.Mathlib.Nat.{div-lt_iff_lt-mul, mod-le, le_trans, le-div_iff_mul-le}
use native.Mathlib.Decide.{dec_lt}
use libdynd.Common.{
  ℕ, zero, suc, ◌+◌, ◌-◌, ◌*◌, ◌/◌, ◌≤◌, ◌<◌, ◌≡◌, ◌↔◌, refl, arith, false, ◌%◌, ltb, by_test, ap,
  ◌∙◌,
}
use libdynd.Common.Int.{ℤ, pos, ◌+ℤ◌, ◌-ℤ◌, ◌*ℤ◌, ◌<ℤ◌, tdiv, narrow, int64_half, int_laws}
use libdynd.Index.{Slice, forward_slice}

-- The index that the element `k` of a slice has in the dimension.
abbrev pub element : Slice → ℕ → ℤ
element s k = s.start_index +ℤ pos k *ℤ s.index_stride

-- A division that rounds up counts the multiples below a bound.
pub ceil_lt : (k m t : ℕ) → (k < (m + t) / suc t) ↔ (k * suc t < m)
ceil_lt k m t = (λ h. grind (arith, below), λ h. grind (arith, below))
  where
    below : ((m + t) / suc t < suc k) ↔ (m + t < suc k * suc t)
    below = div-lt_iff_lt-mul (omega arith)

-- The elements `k` of a slice that counts up from `a` by `suc t` to below `b`.
pub record CountsUp (a b t : ℕ) (s : Slice) : Type 0 where
  pub keeps : s.remove_dimension ≡ false
  pub selects : (k : ℕ) → (pos k <ℤ s.dimension_size) ↔ (a + k * suc t < b)
  pub places : (k : ℕ) → a + k * suc t < b → element s k ≡ pos (a + k * suc t)

-- No element of a slice lies beyond those.
pub record StaysUp (a b t : ℕ) (s : Slice) : Type 0 where
  pub below : (k : ℕ) → pos k <ℤ s.dimension_size → a + k * suc t < b
  pub place : (k : ℕ) → pos k <ℤ s.dimension_size → element s k ≡ pos (a + k * suc t)

pub sub-pos : (a b : ℕ) → a ≤ b → pos b -ℤ pos a ≡ pos (b - a)
unfolding ◌-ℤ◌
sub-pos a b h = ground arith

round_up : (m t : ℕ) → pos m +ℤ pos (suc t) -ℤ pos 1 ≡ pos (m + t)
round_up m t = grind int_laws

abbrev pub sized : ℤ → ℤ → ℤ → Slice
sized start stride size = record {
  remove_dimension = false;
  start_index = start;
  index_stride = stride;
  dimension_size = size;
}

abbrev pub range_of : ℤ → ℤ → ℕ → Slice
range_of start stride size = sized start stride (pos size)

-- A sum that wraps around counts no more than the true one.
pub narrow_le : (x t k : ℕ) → pos k <ℤ tdiv (narrow int64_half (pos x)) (suc t) → k < x / suc t
unfolding narrow tdiv
narrow_le x t k =
    by_test (λ z. pos k <ℤ tdiv z (suc t) → k < x / suc t)
      (ltb (x % (int64_half + int64_half)) int64_half)
      (λ e h.
        fewer k (x % (int64_half + int64_half)) x t (mod-le x (int64_half + int64_half))
          (omega arith))
      (λ e h. absurd (ground arith))
  where
    fewer : (k y x t : ℕ) → y ≤ x → k < y / suc t → k < x / suc t
    fewer k y x t le h =
        (le-div_iff_mul-le {y = x} (omega arith)).1
          (le_trans ((le-div_iff_mul-le {y = y} (omega arith)).0 h) le)

pub narrow_same : (x : ℕ) → x < int64_half → narrow int64_half (pos x) ≡ pos x
unfolding narrow
narrow_same x h = ground arith

forward_slice-round :
    (a b t : ℕ)
    → a < b
    → forward_slice (pos a) (pos b) (pos (suc (suc t)))
      ≡ sized
          (pos a)
          (pos (suc (suc t)))
          (tdiv (narrow int64_half (pos (b - a + suc t))) (suc (suc t)))
unfolding forward_slice
forward_slice-round a b t h =
    rw (sub-pos a b (omega arith), round_up (b - a) (suc t)) (ground arith)

forward_slice-one :
    (a b : ℕ) → a < b → forward_slice (pos a) (pos b) (pos 1) ≡ sized (pos a) (pos 1) (pos (b - a))
unfolding forward_slice
forward_slice-one a b h = rw (sub-pos a b (omega arith)) (ground arith)

forward_slice-more :
    (a b t : ℕ)
    → a < b
    → b - a + t < int64_half
    → forward_slice (pos a) (pos b) (pos (suc t))
      ≡ range_of (pos a) (pos (suc t)) ((b - a + t) / suc t)
unfolding tdiv
forward_slice-more a b zero h fits =
    forward_slice-one a b h ∙ ap (range_of (pos a) (pos 1)) (omega arith)
forward_slice-more a b (suc t) h fits =
    forward_slice-round a b t h
    ∙ ap (λ z. sized (pos a) (pos (suc (suc t))) (tdiv z (suc (suc t))))
        (narrow_same (b - a + suc t) fits)

forward_slice-empty :
    (a b t : ℕ) → b ≤ a → forward_slice (pos a) (pos b) (pos (suc t)) ≡ range_of (pos 0) (pos 1) 0
unfolding forward_slice ◌-ℤ◌
forward_slice-empty a b t h = ground arith

element-pos : (a t k : ℕ) → pos a +ℤ pos k *ℤ pos (suc t) ≡ pos (a + k * suc t)
unfolding ◌+ℤ◌ ◌*ℤ◌
element-pos a t k = ground arith

CountsUp-more :
    (a b t : ℕ) → a < b → CountsUp a b t (range_of (pos a) (pos (suc t)) ((b - a + t) / suc t))
CountsUp-more a b t h = record {
  keeps = refl;
  selects = λ k. (
    λ lt. less_up a b k t h ((ceil_lt k (b - a) t).0 (omega arith)),
    λ lt. widen ((ceil_lt k (b - a) t).1 (less_down a b k t lt)),
  );
  places = λ k _. element-pos a t k;
}
  where
    less_up : (a b k t : ℕ) → a < b → k * suc t < b - a → a + k * suc t < b
    less_up a b k t h lt = omega arith

    less_down : (a b k t : ℕ) → a + k * suc t < b → k * suc t < b - a
    less_down a b k t lt = omega arith

    widen : {k n : ℕ} → k < n → pos k <ℤ pos n
    widen lt = omega arith

CountsUp-empty : (a b t : ℕ) → b ≤ a → CountsUp a b t (range_of (pos 0) (pos 1) 0)
CountsUp-empty a b t h = record {
  keeps = refl;
  selects = λ k. (λ lt. absurd (omega arith), λ lt. absurd (grind arith));
  places = λ k lt. absurd (grind arith);
}

pub forward_slice-CountsUp :
    (a b t : ℕ)
    → b - a + t < int64_half
    → CountsUp a b t (forward_slice (pos a) (pos b) (pos (suc t)))
forward_slice-CountsUp a b t fits = elim (dec_lt a b) [
  | yes h ↦ rw (forward_slice-more a b t h fits) (CountsUp-more a b t h)
  | no h ↦ rw (forward_slice-empty a b t (omega arith)) (CountsUp-empty a b t (omega arith))
]

StaysUp-sized :
    (a b t : ℕ) (z : ℤ)
    → a < b
    → ((k : ℕ) → pos k <ℤ z → k < (b - a + t) / suc t)
    → StaysUp a b t (sized (pos a) (pos (suc t)) z)
StaysUp-sized a b t z h f =
    let c : CountsUp a b t (range_of (pos a) (pos (suc t)) ((b - a + t) / suc t)) =
      CountsUp-more a b t h in
    record {
      below = λ k lt. (c.selects k).0 (omega (arith, f k lt));
      place = λ k lt. element-pos a t k;
    }

pub forward_slice-StaysUp :
    (a b t : ℕ) → StaysUp a b t (forward_slice (pos a) (pos b) (pos (suc t)))
forward_slice-StaysUp a b t = elim (dec_lt a b) [
  | yes h ↦ more t h
  | no h ↦
      rw (forward_slice-empty a b t (omega arith))
        (record { below = λ k lt. absurd (omega arith); place = λ k lt. absurd (omega arith) })
]
  where
    more : (t : ℕ) → a < b → StaysUp a b t (forward_slice (pos a) (pos b) (pos (suc t)))
    more zero h = rw (forward_slice-one a b h) (StaysUp-sized a b 0 _ h (λ k lt. omega arith))
    more (suc t) h =
        rw (forward_slice-round a b t h)
          (StaysUp-sized a b (suc t) _ h (narrow_le (b - a + suc t) (suc t)))
