-- ===== src/Index.antt =====
-- Index ranges: `class irange` of include/dynd/irange.hpp, and `apply_single_linear_index` of
-- src/dynd/shape_tools.cpp, which turns a range and the size of a dimension into a start, a stride
-- and a size. An `intptr_t` has 64 bits, and is read as an exact integer. Sums of an index with
-- 1 or with the size of a dimension are exact; a step is free, so its sums and its negative are
-- wrapped, which is what the machines do with an overflow that C++ leaves undefined.
pub mod ForwardSlice
pub mod Forward
pub mod BackwardSlice
pub mod Backward
pub mod Bounds
pub mod Notation
mod Tests
use libdynd.Common.{ℕ, suc, ◌+◌, ◌-◌, ◌/◌, Bool, true, false, ◌&&◌, ◌||◌, not, if◌then◌else◌}
use libdynd.Common.Int.{
  ℤ, pos, negsuc, pos_part, ◌+ℤ◌, ◌-ℤ◌, neg_ℤ, ltb_ℤ, leb_ℤ, eqb_ℤ, tdiv, narrow, int64_half,
}

abbrev pub intptr_min : ℤ
intptr_min = negsuc (int64_half - 1)

abbrev pub intptr_max : ℤ
intptr_max = pos (int64_half - 1)

pub record Irange : Type 0 where
  pub start : ℤ
  pub finish : ℤ
  pub step : ℤ

abbrev pub irange : ℤ → ℤ → ℤ → Irange
irange start finish step = record { start = start; finish = finish; step = step }

-- The constructors.
abbrev pub irange_all : Irange
irange_all = irange intptr_min intptr_max (pos 1)

abbrev pub irange_index : ℤ → Irange
irange_index idx = irange idx idx (pos 0)

unfoldable pub is_nop : Irange → Bool
is_nop r = eqb_ℤ r.start intptr_min && eqb_ℤ r.finish intptr_max && eqb_ℤ r.step (pos 1)

unfoldable pub by : Irange → ℤ → Irange
by r step = record r { step = step }

-- `irange() < finish`, `irange() > finish`
unfoldable pub up_to : Irange → ℤ → Irange
up_to r finish = record r { finish = finish }

-- `irange() <= last`
unfoldable pub through : Irange → ℤ → Irange
through r last = record r {
  finish = if not (eqb_ℤ last (negsuc 0)) then last +ℤ pos 1 else intptr_max;
}

-- `irange() >= last`
unfoldable pub down_through : Irange → ℤ → Irange
down_through r last = record r {
  finish = if not (eqb_ℤ last (pos 0)) then last -ℤ pos 1 else intptr_max;
}

-- `start_minus_one < irange()`
unfoldable pub after : ℤ → Irange → Irange
after start_minus_one r = record r { start = start_minus_one +ℤ pos 1 }

-- `start <= irange()`, `start >= irange()`
unfoldable pub from : ℤ → Irange → Irange
from start r = record r { start = start }

-- `start_plus_one > irange()`
unfoldable pub before : ℤ → Irange → Irange
before start_plus_one r = record r { start = start_plus_one -ℤ pos 1 }

-- What `apply_single_linear_index` writes to its output arguments.
pub record Slice : Type 0 where
  pub remove_dimension : Bool
  pub start_index : ℤ
  pub index_stride : ℤ
  pub dimension_size : ℤ

abbrev slice : Bool → ℤ → ℤ → ℤ → Slice
slice r s i d = record {
  remove_dimension = r;
  start_index = s;
  index_stride = i;
  dimension_size = d;
}

pub data IndexResult {ℓ} (A : Type ℓ) : Type ℓ where
  ok : A → IndexResult A
  index_out_of_bounds irange_out_of_bounds : IndexResult A

infixl 5 ◌>>=◌
abbrev ◌>>=◌ {ℓ κ} : {A : Type ℓ} {B : Type κ} → IndexResult A → (A → IndexResult B) → IndexResult B
ok a >>= f = f a
index_out_of_bounds >>= f = index_out_of_bounds
irange_out_of_bounds >>= f = irange_out_of_bounds

unfoldable pub apply_index : ℤ → ℤ → IndexResult Slice
apply_index idx dimension_size =
    if leb_ℤ (pos 0) idx
    then (if ltb_ℤ idx dimension_size
        then ok (slice true idx (pos 1) (pos 1))
        else index_out_of_bounds)
    else if leb_ℤ (neg_ℤ dimension_size) idx
    then ok (slice true (idx +ℤ dimension_size) (pos 1) (pos 1))
    else index_out_of_bounds

unfoldable pub forward_start : ℤ → ℤ → IndexResult ℤ
forward_start start dimension_size =
    if leb_ℤ (pos 0) start
    then (if ltb_ℤ start dimension_size then ok start else irange_out_of_bounds)
    else if leb_ℤ (neg_ℤ dimension_size) start
    then ok (start +ℤ dimension_size)
    else ok (pos 0)

unfoldable pub forward_end : ℤ → ℤ → IndexResult ℤ
forward_end end dimension_size =
    if leb_ℤ (pos 0) end
    then (if leb_ℤ end dimension_size then ok end else ok dimension_size)
    else if leb_ℤ (neg_ℤ dimension_size) end
    then ok (end +ℤ dimension_size)
    else irange_out_of_bounds

unfoldable pub forward_slice : ℤ → ℤ → ℤ → Slice
forward_slice start end step =
    let size = end -ℤ start in
    if ltb_ℤ (pos 0) size
    then (if eqb_ℤ step (pos 1)
        then slice false start (pos 1) size
        else slice false start step
            (tdiv (narrow int64_half (size +ℤ step -ℤ pos 1)) (pos_part step)))
    else slice false (pos 0) (pos 1) (pos 0)

unfoldable pub backward_start : ℤ → ℤ → IndexResult ℤ
backward_start start dimension_size =
    if leb_ℤ (pos 0) start
    then (if ltb_ℤ start dimension_size then ok start else irange_out_of_bounds)
    else if leb_ℤ (neg_ℤ dimension_size) start
    then ok (start +ℤ dimension_size)
    else if eqb_ℤ start intptr_min
    then ok (dimension_size -ℤ pos 1)
    else irange_out_of_bounds

unfoldable pub backward_end : ℤ → ℤ → IndexResult ℤ
backward_end end dimension_size =
    if leb_ℤ (pos 0) end
    then (if ltb_ℤ end dimension_size
        then ok end
        else if eqb_ℤ end intptr_max
        then ok (negsuc 0)
        else irange_out_of_bounds)
    else if leb_ℤ (neg_ℤ dimension_size) end
    then ok (end +ℤ dimension_size)
    else ok (negsuc 0)

-- `-step`: the least `intptr_t` is its own negative.
abbrev pub negated : ℤ → ℤ
negated step = if eqb_ℤ step intptr_min then intptr_min else neg_ℤ step

-- C's `a / b`.
unfoldable pub divided : ℤ → ℤ → ℤ
divided a (pos b) = tdiv a b
divided a (negsuc b) = tdiv (neg_ℤ a) (suc b)

unfoldable pub backward_slice : ℤ → ℤ → ℤ → Slice
backward_slice start end step =
    let size = start -ℤ end in
    if ltb_ℤ (pos 0) size
    then (if eqb_ℤ step (negsuc 0)
        then slice false start (negsuc 0) size
        else slice false start step
            (divided (narrow int64_half (size +ℤ negated step -ℤ pos 1)) (negated step)))
    else slice false (pos 0) (pos 1) (pos 0)

unfoldable pub apply_single_linear_index : Irange → ℤ → IndexResult Slice
apply_single_linear_index r dimension_size =
    if eqb_ℤ r.step (pos 0)
    then apply_index r.start dimension_size
    else if ltb_ℤ (pos 0) r.step
    then (forward_start r.start dimension_size >>= λ start.
        forward_end r.finish dimension_size >>= λ end. ok (forward_slice start end r.step))
    else backward_start r.start dimension_size >>= λ start.
        backward_end r.finish dimension_size >>= λ end. ok (backward_slice start end r.step)
