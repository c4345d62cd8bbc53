-- ===== src/Index/Tests.antt =====
-- Runs of the index functions, and the theorems at concrete ranges.
use libdynd.Common.{◌≡◌, refl, arith}
use libdynd.Common.Int.{pos, negsuc, ◌+ℤ◌, ◌-ℤ◌, tdiv, narrow}
use libdynd.Index.{
  irange, irange_all, irange_index, ok, index_out_of_bounds, is_nop, by, up_to, through,
  down_through, after, from, before, apply_index, forward_start, forward_end, forward_slice,
  backward_start, backward_end, backward_slice, apply_single_linear_index, divided, intptr_min,
  intptr_max,
}
use libdynd.Index.Forward.{SelectsUp, apply_single_linear_index-SelectsUp}
use libdynd.Index.ForwardSlice.{range_of, sized}
use libdynd.Index.Backward.{SelectsDown, apply_single_linear_index-SelectsDown}
use libdynd.Index.Bounds.{Within, apply_single_linear_index-Within}

methods : Unit {0}
unfolding is_nop by up_to through down_through after from before apply_index forward_start
    forward_end forward_slice backward_start backward_end backward_slice apply_single_linear_index
    ◌+ℤ◌ ◌-ℤ◌ tdiv divided narrow
methods = tt

-- 3 <= irange().by(2) < 10
odd_indices :
    apply_single_linear_index (up_to (from (pos 3) (by irange_all (pos 2))) (pos 10)) (pos 20)
    ≡ ok (range_of (pos 3) (pos 2) 4)
unfolding methods
odd_indices = refl

last_two :
    apply_single_linear_index (from (negsuc 1) irange_all) (pos 5) ≡ ok (range_of (pos 3) (pos 1) 2)
unfolding methods
last_two = refl

behind : apply_single_linear_index (irange_index (pos 5)) (pos 5) ≡ index_out_of_bounds
unfolding methods
behind = refl

after_two :
    apply_single_linear_index (after (pos 2) (through irange_all (pos 4))) (pos 9)
    ≡ ok (range_of (pos 3) (pos 1) 2)
unfolding methods
after_two = refl

downwards :
    apply_single_linear_index
      (before (pos 5) (down_through (by irange_all (negsuc 1)) (pos 0)))
      (pos 9)
    ≡ ok (range_of (pos 4) (negsuc 1) 3)
unfolding methods
downwards = refl

-- A step for which the sum of the size overflows.
overflowing_up :
    apply_single_linear_index (by irange_all intptr_max) (pos 3)
    ≡ ok (sized (pos 0) intptr_max (negsuc 0))
unfolding methods
overflowing_up = refl

-- The least step leaves the element of a dimension of one, and nothing of two.
least_step_one :
    apply_single_linear_index (by irange_all intptr_min) (pos 1)
    ≡ ok (range_of (pos 0) intptr_min 1)
unfolding methods
least_step_one = refl

least_step_two :
    apply_single_linear_index (by irange_all intptr_min) (pos 2)
    ≡ ok (range_of (pos 1) intptr_min 0)
unfolding methods
least_step_two = refl

apply_single_linear_index-Within_example :
    Within 9 (apply_single_linear_index (irange (negsuc 3) (pos 9) (pos 2)) (pos 9))
apply_single_linear_index-Within_example =
    apply_single_linear_index-Within (irange (negsuc 3) (pos 9) (pos 2)) 9

apply_single_linear_index-SelectsUp_example :
    SelectsUp
      (negsuc 3)
      (pos 9)
      1
      9
      (apply_single_linear_index (irange (negsuc 3) (pos 9) (pos 2)) (pos 9))
apply_single_linear_index-SelectsUp_example =
    apply_single_linear_index-SelectsUp (negsuc 3) (pos 9) 1 9 (omega arith)

apply_single_linear_index-SelectsDown_example :
    SelectsDown
      (negsuc 0)
      (pos 2)
      2
      9
      (apply_single_linear_index (irange (negsuc 0) (pos 2) (negsuc 2)) (pos 9))
apply_single_linear_index-SelectsDown_example =
    apply_single_linear_index-SelectsDown (negsuc 0) (pos 2) 2 9 (omega arith)
