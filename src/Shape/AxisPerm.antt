-- ===== src/Shape/AxisPerm.antt =====
-- The functions of src/dynd/shape_tools.cpp on permutations of axes. An axis is a number below the
-- count of dimensions, and strides are integers; reading a list out of bounds, which the source
-- never does with axes of that kind, gives 0.
pub mod Few
pub mod Insertion
pub mod ToStrides
use libdynd.Common.{
  ℕ, zero, suc, ◌+◌, ◌-◌, ◌*◌, Bool, true, false, not, ◌&&◌, List, [], ◌∷◌, ◌++◌, ltb, leb,
  if◌then◌else◌, length, get_or, set, take, drop,
}
use libdynd.Common.Int.{ℤ, pos, pos_part, neg_part, eqb_ℤ, ltb_ℤ, ◌*ℤ◌}

-- The absolute value, as a natural number.
abbrev pub intptr_abs : ℤ → ℕ
intptr_abs z = pos_part z + neg_part z

abbrev pub stride_at : List ℤ → ℕ → ℤ
stride_at strides i = get_or strides i (pos 0)

-- The axes from `n - 1` down to 0.
unfoldable pub reversed_axes : ℕ → List ℕ
reversed_axes zero = []
reversed_axes (suc n) = n ∷ reversed_axes n

-- `strides_to_axis_perm`: the cases of up to three dimensions, and `std::sort`, which is a
-- parameter, by the absolute values beyond.
abbrev perm_of_two : ℕ → ℕ → List ℕ
perm_of_two a b = if leb b a then 1 ∷ 0 ∷ [] else 0 ∷ 1 ∷ []

abbrev perm_of_three : ℕ → ℕ → ℕ → List ℕ
perm_of_three a b c =
    if leb b a
    then (if leb c b then 2 ∷ 1 ∷ 0 ∷ [] else if leb c a then 1 ∷ 2 ∷ 0 ∷ [] else 1 ∷ 0 ∷ 2 ∷ [])
    else if leb c b
    then (if leb c a then 2 ∷ 0 ∷ 1 ∷ [] else 0 ∷ 2 ∷ 1 ∷ [])
    else 0 ∷ 1 ∷ 2 ∷ []

unfoldable pub strides_to_axis_perm : ((ℕ → ℕ → Bool) → List ℕ → List ℕ) → List ℤ → List ℕ
strides_to_axis_perm sort [] = []
strides_to_axis_perm sort (a ∷ []) = 0 ∷ []
strides_to_axis_perm sort (a ∷ b ∷ []) = perm_of_two (intptr_abs a) (intptr_abs b)
strides_to_axis_perm sort (a ∷ b ∷ c ∷ []) =
    perm_of_three (intptr_abs a) (intptr_abs b) (intptr_abs c)
strides_to_axis_perm sort (a ∷ b ∷ c ∷ d ∷ strides) =
    let all = a ∷ b ∷ c ∷ d ∷ strides in
    sort (λ i j. ltb (intptr_abs (stride_at all i)) (intptr_abs (stride_at all j)))
      (reversed_axes (length all))

-- `compare_strides`: whether the comparison is ambiguous, and if not, whether `i` comes first. The
-- second part stays what the caller initialises it to, false, while the first is true.
unfoldable pub compare_strides : ℕ → ℕ → List (List ℤ) → Bool × Bool → Bool × Bool
compare_strides i j [] (ambiguous, lessthan) = (ambiguous, lessthan)
compare_strides i j (operand ∷ operands) (ambiguous, lessthan) =
    let next = compare_strides i j operands in
    if not (eqb_ℤ (stride_at operand i) (pos 0)) && not (eqb_ℤ (stride_at operand j) (pos 0))
    then (if leb (intptr_abs (stride_at operand i)) (intptr_abs (stride_at operand j))
        then (false, true)
        else if ambiguous
        then next (false, false)
        else next (ambiguous, lessthan))
    else next (ambiguous, lessthan)

-- The inner loop: the axes before `axis` are looked at from the last to the first, and `ipos` is
-- the position found so far; the list holds the axes in that order, and `i1` is one more than the
-- position of its first.
unfoldable pub insert_position : List (List ℤ) → ℕ → List ℕ → ℕ → ℕ → ℕ
insert_position operands axis [] i1 ipos = ipos
insert_position operands axis (other ∷ before) i1 ipos =
    let c = compare_strides other axis operands (true, false) in
    let stay = insert_position operands axis before (i1 - 1) ipos in
    let shift = insert_position operands axis before (i1 - 1) (i1 - 1) in
    if c.0 then stay else if c.1 then ipos else shift

unfoldable pub reverse_onto : List ℕ → List ℕ → List ℕ
reverse_onto [] acc = acc
reverse_onto (x ∷ xs) acc = reverse_onto xs (x ∷ acc)

-- The round of the outer loop that inserts `axis` into the sorted axes before it.
unfoldable pub insert_axis : List (List ℤ) → ℕ → List ℕ → List ℕ
insert_axis operands axis sorted =
    let ipos =
      insert_position operands axis (reverse_onto sorted []) (length sorted) (length sorted) in
    take ipos sorted ++ (axis ∷ drop ipos sorted)

unfoldable pub insertion_sort : List (List ℤ) → List ℕ → List ℕ → List ℕ
insertion_sort operands sorted [] = sorted
insertion_sort operands sorted (axis ∷ axes) =
    insertion_sort operands (insert_axis operands axis sorted) axes

unfoldable pub multistrides_to_axis_perm : ℕ → List (List ℤ) → List ℕ
multistrides_to_axis_perm zero operands = []
multistrides_to_axis_perm (suc zero) operands = 0 ∷ []
multistrides_to_axis_perm (suc (suc zero)) operands =
    let c = compare_strides 0 1 operands (true, false) in
    if c.0 then 1 ∷ 0 ∷ [] else if c.1 then 0 ∷ 1 ∷ [] else 1 ∷ 0 ∷ []
multistrides_to_axis_perm (suc (suc (suc n))) operands =
    insertion_sort operands [] (reversed_axes (suc (suc (suc n))))

-- `axis_perm_to_strides`, on the strides that the caller's buffer held. Both assignments of a round
-- are there.
unfoldable pub axis_perm_to_strides : List ℕ → List ℤ → ℤ → List ℤ → List ℤ
axis_perm_to_strides [] shape element_size out_strides = out_strides
axis_perm_to_strides (i_perm ∷ axis_perm) shape element_size out_strides =
    let dim_size = stride_at shape i_perm in
    let first = set out_strides i_perm (if ltb_ℤ (pos 1) dim_size then element_size else pos 0) in
    axis_perm_to_strides axis_perm shape (element_size *ℤ dim_size) (set first i_perm dim_size)
