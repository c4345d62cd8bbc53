-- ===== src/Index/Bounds.antt =====
-- Single indices, and the bounds that hold for every kind of range.

use native.Mathlib.Nat.{le_trans}
use libdynd.Common.{
  Bool-cases, ltb, subst, ℕ, zero, suc, ◌+◌, ◌-◌, ◌*◌, ◌≤◌, ◌<◌, ◌≡◌, ◌⊎◌, inl, inr, sym, refl,
  arith, true, if◌then◌else◌,
}
use libdynd.Common.Int.{ℤ, pos, negsuc, ◌+ℤ◌, ◌*ℤ◌, ◌≤ℤ◌, ◌<ℤ◌, neg_ℤ}
use libdynd.Index.{
  Irange, irange, Slice, IndexResult, ok, index_out_of_bounds, irange_out_of_bounds, apply_index,
  apply_single_linear_index,
}
use libdynd.Index.ForwardSlice.{element, StaysUp}
use libdynd.Index.BackwardSlice.{StaysDown}
use libdynd.Index.Forward.{
  AnswersUp, apply_single_linear_index-StaysUp, lower_bound, upper_end, upper_end-le,
}
use libdynd.Index.Forward
use libdynd.Index.Backward
use libdynd.Index.Backward.{
  AnswersDown, apply_single_linear_index-StaysDown, upper_start, lower_end, upper_start-le,
}

-- The answers for a single index: the dimension goes, and one element is left.
pub data SelectsOne (idx : ℤ) (n : ℕ) : IndexResult Slice → Type 0 where
  found :
      {s : Slice} {i : ℕ}
      → i < n
      → (idx ≡ pos i) ⊎ (idx +ℤ pos n ≡ pos i)
      → s.remove_dimension ≡ true
      → s.dimension_size ≡ pos 1
      → s.start_index ≡ pos i
      → SelectsOne idx n (ok s)
  refused : (pos n ≤ℤ idx) ⊎ (idx <ℤ neg_ℤ (pos n)) → SelectsOne idx n index_out_of_bounds

step_zero :
    (idx finish : ℤ) (n : ℕ)
    → apply_single_linear_index (irange idx finish (pos 0)) (pos n) ≡ apply_index idx (pos n)
unfolding apply_single_linear_index
step_zero idx finish n = ground arith

abbrev one_at : ℕ → Slice
one_at i = record {
  remove_dimension = true;
  start_index = pos i;
  index_stride = pos 1;
  dimension_size = pos 1;
}

apply_index-pos :
    (a n : ℕ)
    → apply_index (pos a) (pos n) ≡ (if ltb a n then ok (one_at a) else index_out_of_bounds)
unfolding apply_index
apply_index-pos a n = ground arith

apply_index-negsuc :
    (a n : ℕ)
    → apply_index (negsuc a) (pos n)
      ≡ (if ltb a n then ok (one_at (n - suc a)) else index_out_of_bounds)
unfolding apply_index ◌+ℤ◌
apply_index-negsuc a n = ground arith

apply_index-SelectsOne : (idx : ℤ) (n : ℕ) → SelectsOne idx n (apply_index idx (pos n))
apply_index-SelectsOne (pos a) n = rw (apply_index-pos a n) (elim (Bool-cases (ltb a n)) [
  | inl h ↦ rw h (found (ground arith) (inl refl) refl refl refl)
  | inr h ↦ rw h (refused (inl (ground arith)))
])
apply_index-SelectsOne (negsuc a) n = rw (apply_index-negsuc a n) (elim (Bool-cases (ltb a n)) [
  | inl h ↦
      rw h (found {i = n - suc a} (ground arith) (inr (unfold ◌+ℤ◌ in ground arith)) refl refl refl)
  | inr h ↦ rw h (refused (inr (ground arith)))
])

-- A single index selects the one element at it, counted from the end if it is negative, and is
-- refused exactly if it does not lie from -n to n - 1.
pub apply_single_linear_index-SelectsOne :
    (idx finish : ℤ) (n : ℕ)
    → SelectsOne idx n (apply_single_linear_index (irange idx finish (pos 0)) (pos n))
apply_single_linear_index-SelectsOne idx finish n =
    rw (step_zero idx finish n) (apply_index-SelectsOne idx n)

-- An index of the dimension.
abbrev pub InDimension : ℕ → ℤ → Type 0
InDimension n z = (pos 0 ≤ℤ z) × (z <ℤ pos n)

-- Every element of a slice that was returned is an index of the dimension.
abbrev pub Within : ℕ → IndexResult Slice → Type 0
Within n (ok s) = (k : ℕ) → pos k <ℤ s.dimension_size → InDimension n (element s k)
Within n index_out_of_bounds = Unit
Within n irange_out_of_bounds = Unit

InDimension-pos : {z : ℤ} (i n : ℕ) → z ≡ pos i → i < n → InDimension n z
InDimension-pos i n e h = subst (InDimension n) (sym e) (omega arith, omega arith)

StaysUp-Within :
    (start finish : ℤ) (t n : ℕ) {r : IndexResult Slice}
    → AnswersUp (StaysUp (lower_bound start n) (upper_end finish n) t) start finish n r
    → Within n r
StaysUp-Within start finish t n (Forward.refused x) = tt
StaysUp-Within start finish t n (Forward.selected fits c) = λ k h.
    InDimension-pos (lower_bound start n + k * suc t) n (c.place k h)
      (le_trans (c.below k h) (upper_end-le finish n))

StaysDown-Within :
    (start finish : ℤ) (t n : ℕ) {r : IndexResult Slice}
    → AnswersDown (StaysDown (upper_start start n) (lower_end finish n) t) start finish n r
    → Within n r
StaysDown-Within start finish t n (Backward.refused x) = tt
StaysDown-Within start finish t n (Backward.selected fits c) = λ k h.
    InDimension-pos (upper_start start n - 1 - k * suc t) n (c.place k h) (
      falls (upper_start start n) (lower_end finish n + k * suc t) (k * suc t) n (c.below_start k h)
        (upper_start-le start finish n fits))
  where
    falls : (a b c n : ℕ) → b < a → a ≤ n → a - 1 - c < n
    falls a b c n h le = omega arith

at_zero : (i k : ℕ) (stride : ℤ) → k ≡ 0 → pos i +ℤ pos k *ℤ stride ≡ pos i
unfolding ◌+ℤ◌ ◌*ℤ◌
at_zero i k (pos t) e = ground arith
at_zero i k (negsuc t) e = ground arith

only : {k : ℕ} → pos k <ℤ pos 1 → k ≡ 0
only h = omega arith

SelectsOne-Within : (idx : ℤ) (n : ℕ) {r : IndexResult Slice} → SelectsOne idx n r → Within n r
SelectsOne-Within idx n (refused x) = tt
SelectsOne-Within idx n (found {s = s} {i = i} lt e keeps size start) =
    λ k h. InDimension-pos i n (first s i k size start h) lt
  where
    first :
        (s : Slice) (i k : ℕ)
        → s.dimension_size ≡ pos 1
        → s.start_index ≡ pos i
        → pos k <ℤ s.dimension_size
        → element s k ≡ pos i
    first s i k size start h =
        rw start (at_zero i k s.index_stride (only (subst (λ z. pos k <ℤ z) size h)))

by_step :
    (start finish step : ℤ) (n : ℕ)
    → Within n (apply_single_linear_index (irange start finish step) (pos n))
by_step start finish (pos zero) n =
    SelectsOne-Within start n (apply_single_linear_index-SelectsOne start finish n)
by_step start finish (pos (suc t)) n =
    StaysUp-Within start finish t n (apply_single_linear_index-StaysUp start finish t n)
by_step start finish (negsuc t) n =
    StaysDown-Within start finish t n (apply_single_linear_index-StaysDown start finish t n)

-- Whatever the range, each element of the slice that is returned is an index of the dimension.
pub apply_single_linear_index-Within :
    (r : Irange) (n : ℕ) → Within n (apply_single_linear_index r (pos n))
apply_single_linear_index-Within r n = by_step r.start r.finish r.step n
