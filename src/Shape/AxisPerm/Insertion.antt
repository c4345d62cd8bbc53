-- ===== src/Shape/AxisPerm/Insertion.antt =====
-- The insertion sort of `multistrides_to_axis_perm` returns every axis once.
use libdynd.Common.{
  ℕ, zero, suc, ◌+◌, ◌≡◌, ◌∙◌, arith, List, [], ◌∷◌, ◌++◌, ◌==◌, if◌then◌else◌, take, drop, length,
  ltb,
}
use libdynd.Common.Int.{ℤ}
use libdynd.Shape.AxisPerm.{
  reverse_onto, reversed_axes, insert_position, insert_axis, insertion_sort,
  multistrides_to_axis_perm,
}

-- How often an axis stands in a list.
abbrev pub occurrences : List ℕ → ℕ → ℕ
occurrences [] axis = 0
occurrences (first ∷ others) axis =
    let rest = occurrences others axis in if first == axis then suc rest else rest

-- The axes from 0 to `n - 1`, once each and no other, in some order.
abbrev pub IsAxisPerm : ℕ → List ℕ → Type 0
IsAxisPerm n axes = (axis : ℕ) → occurrences axes axis ≡ (if ltb axis n then 1 else 0)

occurrences-append :
    (front back : List ℕ) (axis : ℕ)
    → occurrences (front ++ back) axis ≡ occurrences front axis + occurrences back axis
occurrences-append (first ∷ others) back axis = ground (arith, occurrences-append others back axis)
occurrences-append [] back axis = ground arith

occurrences-split :
    (axes : List ℕ) (cut axis : ℕ)
    → occurrences axes axis ≡ occurrences (take cut axes) axis + occurrences (drop cut axes) axis
occurrences-split axes zero axis = ground arith
occurrences-split [] (suc cut) axis = ground arith
occurrences-split (first ∷ others) (suc cut) axis =
    ground (arith, occurrences-split others cut axis)

occurrences-insert_axis :
    (operands : List (List ℤ)) (new : ℕ) (sorted : List ℕ) (axis : ℕ)
    → occurrences (insert_axis operands new sorted) axis ≡ occurrences (new ∷ sorted) axis
unfolding insert_axis
occurrences-insert_axis operands new sorted axis = ground (
  arith,
  occurrences-append (take cut sorted) (new ∷ drop cut sorted) axis,
  occurrences-split sorted cut axis,
)
  where
    cut : ℕ
    cut = insert_position operands new (reverse_onto sorted []) (length sorted) (length sorted)

occurrences-insertion_sort :
    (operands : List (List ℤ)) (sorted todo : List ℕ) (axis : ℕ)
    → occurrences (insertion_sort operands sorted todo) axis
      ≡ occurrences sorted axis + occurrences todo axis
unfolding insertion_sort
occurrences-insertion_sort operands sorted (new ∷ todo) axis = ground (
  arith,
  occurrences-insertion_sort operands (insert_axis operands new sorted) todo axis,
  occurrences-insert_axis operands new sorted axis,
)
occurrences-insertion_sort operands sorted [] axis = ground arith

zero_left : (n : ℕ) → 0 + n ≡ n
zero_left n = omega arith

reversed_axes-IsAxisPerm : (n : ℕ) → IsAxisPerm n (reversed_axes n)
unfolding reversed_axes
reversed_axes-IsAxisPerm zero a = ground arith
reversed_axes-IsAxisPerm (suc n) a = ground (arith, reversed_axes-IsAxisPerm n a)

-- Whatever the strides of the operands, the result holds each axis once.
pub multistrides_to_axis_perm-IsAxisPerm :
    (n : ℕ) (operands : List (List ℤ)) → IsAxisPerm n (multistrides_to_axis_perm n operands)
unfolding multistrides_to_axis_perm
multistrides_to_axis_perm-IsAxisPerm zero operands a = ground arith
multistrides_to_axis_perm-IsAxisPerm (suc zero) operands a = ground arith
multistrides_to_axis_perm-IsAxisPerm (suc (suc zero)) operands a = ground arith
multistrides_to_axis_perm-IsAxisPerm (suc (suc (suc n))) operands a =
    occurrences-insertion_sort operands [] (reversed_axes (suc (suc (suc n)))) a
    ∙ (zero_left (occurrences (reversed_axes (suc (suc (suc n)))) a)
        ∙ reversed_axes-IsAxisPerm (suc (suc (suc n))) a)
