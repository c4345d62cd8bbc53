-- ===== src/Index/Notation.antt =====
-- The notation of ranges, `irange() < finish` and its kin, in terms of what a range selects.
use libdynd.Common.{ℕ, suc, ◌-◌, ◌<◌, ◌≡◌, arith, true}
use libdynd.Common.Int.{pos, negsuc, ◌+ℤ◌, ◌-ℤ◌, int64_half}
use libdynd.Index.{
  irange_all, ok, is_nop, by, through, from, forward_start, forward_end, forward_slice,
  backward_start, backward_end, backward_slice, apply_single_linear_index,
}
use libdynd.Index.ForwardSlice.{range_of}

-- The full range leaves a dimension of any `intptr_t` size as it is, and `is_nop` says so of it.
pub irange_all-nop :
    (n : ℕ)
    → n < int64_half
    → (is_nop irange_all ≡ true)
      × (apply_single_linear_index irange_all (pos n) ≡ ok (range_of (pos 0) (pos 1) n))
unfolding is_nop apply_single_linear_index forward_start forward_end forward_slice ◌-ℤ◌ ◌+ℤ◌
irange_all-nop n h = ground arith

-- Stepping by -1 through the full range reverses a dimension that is not empty and whose size is an
-- `intptr_t`.
pub by_reverses :
    (n : ℕ)
    → suc n < int64_half
    → apply_single_linear_index (by irange_all (negsuc 0)) (pos (suc n))
      ≡ ok (range_of (pos n) (negsuc 0) (suc n))
unfolding by apply_single_linear_index backward_start backward_end backward_slice ◌-ℤ◌ ◌+ℤ◌
by_reverses n h = ground arith

-- `a <= irange() <= -1` runs from `a`, an index of the dimension, through the last index.
pub through_last :
    (a n : ℕ)
    → a < n
    → n < int64_half
    → apply_single_linear_index (through (from (pos a) irange_all) (negsuc 0)) (pos n)
      ≡ ok (range_of (pos a) (pos 1) (n - a))
unfolding through from apply_single_linear_index forward_start forward_end forward_slice ◌-ℤ◌ ◌+ℤ◌
through_last a n h fits = ground arith
