-- ===== src/Index/BackwardSlice.antt =====
-- The slice of a range that counts down, between two indices of the dimension.
use native.Mathlib.Decide.{dec_lt}
use libdynd.Common.{
  Bool-cases, inl, inr, ℕ, zero, suc, ◌+◌, ◌-◌, ◌*◌, ◌/◌, ◌≤◌, ◌<◌, ◌≡◌, ◌≢◌, ◌↔◌, refl, arith,
  false, if◌then◌else◌, ap, ◌∙◌, sym, subst, ltb, ◌==◌,
}
use libdynd.Common.Int.{
  ℤ, residue, pos, negsuc, sub_ℕ, ◌+ℤ◌, ◌-ℤ◌, ◌*ℤ◌, ◌<ℤ◌, neg_ℤ, tdiv, narrow, int64_half, int_laws,
}
use libdynd.Index.{intptr_min, negated, divided, Slice, backward_slice}
use libdynd.Index.ForwardSlice.{element, ceil_lt, range_of, sized, narrow_le, narrow_same}

-- a - 1
abbrev pub below : ℕ → ℤ
below zero = negsuc 0
below (suc a) = pos a

-- The elements `k` of a slice that counts down by `suc t` from the index before `a` to `b`.
pub record CountsDown (a b t : ℕ) (s : Slice) : Type 0 where
  pub keeps : s.remove_dimension ≡ false
  pub selects : (k : ℕ) → (pos k <ℤ s.dimension_size) ↔ (b + k * suc t < a)
  pub places : (k : ℕ) → b + k * suc t < a → element s k ≡ pos (a - 1 - k * suc t)

-- No element of a slice lies beyond those.
pub record StaysDown (a b t : ℕ) (s : Slice) : Type 0 where
  pub below_start : (k : ℕ) → pos k <ℤ s.dimension_size → b + k * suc t < a
  pub place : (k : ℕ) → pos k <ℤ s.dimension_size → element s k ≡ pos (a - 1 - k * suc t)

below-sub : (a b : ℕ) → b ≤ a → below a -ℤ below b ≡ pos (a - b)
unfolding ◌-ℤ◌
below-sub zero zero h = refl
below-sub zero (suc b) h = absurd (omega arith)
below-sub (suc a) zero h = ground arith
below-sub (suc a) (suc b) h = ground arith

below-sub_neg : (a b : ℕ) → a ≤ b → below a -ℤ below b ≡ sub_ℕ 0 (b - a)
unfolding ◌-ℤ◌
below-sub_neg zero zero h = refl
below-sub_neg zero (suc b) h = ground arith
below-sub_neg (suc a) zero h = absurd (omega arith)
below-sub_neg (suc a) (suc b) h = ground arith

round_up : (m t : ℕ) → pos m +ℤ pos (suc t) -ℤ pos 1 ≡ pos (m + t)
round_up m t = grind int_laws

-- No step but the least has a negative that wraps around.
negated_same : (t : ℕ) → negsuc t ≢ intptr_min → negated (negsuc t) ≡ pos (suc t)
negated_same t h = ground arith

backward_slice-round :
    (a b t : ℕ)
    → b < a
    → negsuc (suc t) ≢ intptr_min
    → backward_slice (below a) (below b) (negsuc (suc t))
      ≡ sized
          (below a)
          (negsuc (suc t))
          (tdiv (narrow int64_half (pos (a - b + suc t))) (suc (suc t)))
unfolding backward_slice divided
backward_slice-round a b t h known =
    rw (below-sub a b (omega arith), negated_same (suc t) known, round_up (a - b) (suc t))
      (ground arith)

backward_slice-one :
    (a b : ℕ)
    → b < a
    → backward_slice (below a) (below b) (negsuc 0) ≡ sized (below a) (negsuc 0) (pos (a - b))
unfolding backward_slice
backward_slice-one a b h = rw (below-sub a b (omega arith)) (ground arith)

-- The least step: the sum and the divisor are both negative, and the quotient is 1 at most.
backward_slice-least :
    (a b : ℕ)
    → b < a
    → backward_slice (below a) (below b) intptr_min
      ≡ sized
          (below a)
          intptr_min
          (tdiv (neg_ℤ (narrow int64_half (pos (a - b) +ℤ intptr_min -ℤ pos 1))) int64_half)
unfolding backward_slice divided
backward_slice-least a b h = rw (below-sub a b (omega arith)) (ground arith)

backward_slice-more :
    (a b t : ℕ)
    → b < a
    → a - b + t < int64_half
    → backward_slice (below a) (below b) (negsuc t)
      ≡ range_of (below a) (negsuc t) ((a - b + t) / suc t)
unfolding tdiv
backward_slice-more a b zero h fits =
    backward_slice-one a b h ∙ ap (range_of (below a) (negsuc 0)) (omega arith)
backward_slice-more a b (suc t) h fits =
    backward_slice-round a b t h (λ e. ground arith)
    ∙ ap (λ z. sized (below a) (negsuc (suc t)) (tdiv z (suc (suc t))))
        (narrow_same (a - b + suc t) fits)

backward_slice-empty :
    (a b t : ℕ) → a ≤ b → backward_slice (below a) (below b) (negsuc t) ≡ range_of (pos 0) (pos 1) 0
unfolding backward_slice
backward_slice-empty a b t h = rw (below-sub_neg a b h) (ground arith)

element-below :
    (a b t k : ℕ) → b + k * suc t < a → below a +ℤ pos k *ℤ negsuc t ≡ pos (a - 1 - k * suc t)
unfolding ◌+ℤ◌ ◌*ℤ◌
element-below zero b t k h = absurd (omega arith)
element-below (suc a) b t k h = ground arith

CountsDown-more :
    (a b t : ℕ) → b < a → CountsDown a b t (range_of (below a) (negsuc t) ((a - b + t) / suc t))
CountsDown-more a b t h = record {
  keeps = refl;
  selects = λ k. (
    λ lt. less_up a b k t h ((ceil_lt k (a - b) t).0 (omega arith)),
    λ lt. widen ((ceil_lt k (a - b) t).1 (less_down a b k t lt)),
  );
  places = λ k lt. element-below a b t k lt;
}
  where
    less_up : (a b k t : ℕ) → b < a → k * suc t < a - b → b + k * suc t < a
    less_up a b k t h lt = omega arith

    less_down : (a b k t : ℕ) → b + k * suc t < a → k * suc t < a - b
    less_down a b k t lt = omega arith

    widen : {k n : ℕ} → k < n → pos k <ℤ pos n
    widen lt = omega arith

CountsDown-empty : (a b t : ℕ) → a ≤ b → CountsDown a b t (range_of (pos 0) (pos 1) 0)
CountsDown-empty a b t h = record {
  keeps = refl;
  selects = λ k. (λ lt. absurd (omega arith), λ lt. absurd (grind arith));
  places = λ k lt. absurd (grind arith);
}

pub backward_slice-CountsDown :
    (a b t : ℕ)
    → a - b + t < int64_half
    → CountsDown a b t (backward_slice (below a) (below b) (negsuc t))
backward_slice-CountsDown a b t fits = elim (dec_lt b a) [
  | yes h ↦ rw (backward_slice-more a b t h fits) (CountsDown-more a b t h)
  | no h ↦ rw (backward_slice-empty a b t (omega arith)) (CountsDown-empty a b t (omega arith))
]

StaysDown-sized :
    (a b t : ℕ) (z : ℤ)
    → b < a
    → ((k : ℕ) → pos k <ℤ z → k < (a - b + t) / suc t)
    → StaysDown a b t (sized (below a) (negsuc t) z)
StaysDown-sized a b t z h f =
    let c : CountsDown a b t (range_of (below a) (negsuc t) ((a - b + t) / suc t)) =
      CountsDown-more a b t h in
    record {
      below_start = λ k lt. (c.selects k).0 (omega (arith, f k lt));
      place = λ k lt. c.places k ((c.selects k).0 (omega (arith, f k lt)));
    }

wrapped_quotient :
    (r k : ℕ)
    → r < int64_half + int64_half
    → pos k
      <ℤ tdiv
          (neg_ℤ (if ltb r int64_half then pos r else sub_ℕ r (int64_half + int64_half)))
          int64_half
    → k ≡ 0
unfolding tdiv
wrapped_quotient r k b h = ground arith

residue_lt : (z : ℤ) → residue z (int64_half + int64_half) < int64_half + int64_half
residue_lt (pos a) = omega arith
residue_lt (negsuc a) = omega arith

-- A sum that wraps around is at most half the range away from 0.
narrow_quotient : (z : ℤ) (k : ℕ) → pos k <ℤ tdiv (neg_ℤ (narrow int64_half z)) int64_half → k ≡ 0
unfolding narrow
narrow_quotient z k h = wrapped_quotient (residue z (int64_half + int64_half)) k (residue_lt z) h

pub backward_slice-StaysDown :
    (a b t : ℕ) → StaysDown a b t (backward_slice (below a) (below b) (negsuc t))
backward_slice-StaysDown a b t = elim (dec_lt b a) [
  | yes h ↦ more t h
  | no h ↦
      rw (backward_slice-empty a b t (omega arith)) (record {
        below_start = λ k lt. absurd (omega arith);
        place = λ k lt. absurd (omega arith);
      })
]
  where
    first : (m t k : ℕ) → 0 < m → k ≡ 0 → k < (m + t) / suc t
    first m t k h e = (ceil_lt k m t).1 (ground arith)

    more : (t : ℕ) → b < a → StaysDown a b t (backward_slice (below a) (below b) (negsuc t))
    more zero h = rw (backward_slice-one a b h) (StaysDown-sized a b 0 _ h (λ k lt. omega arith))
    more (suc t) h = elim (Bool-cases (suc t == (int64_half - 1))) [
      | inl e ↦
          let least : suc t ≡ int64_half - 1 = ground arith in
          subst (λ n. StaysDown a b n (backward_slice (below a) (below b) (negsuc n))) (sym least)
            (rw (backward_slice-least a b h) (
              StaysDown-sized a b (int64_half - 1) _ h (λ k lt.
                first (a - b) (int64_half - 1) k (omega arith)
                  (narrow_quotient (pos (a - b) +ℤ intptr_min -ℤ pos 1) k lt))))
      | inr other ↦
          rw (backward_slice-round a b t h (λ e. ground arith))
            (StaysDown-sized a b (suc t) _ h (narrow_le (a - b + suc t) (suc t)))
    ]
