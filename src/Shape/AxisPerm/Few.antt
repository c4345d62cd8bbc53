-- ===== src/Shape/AxisPerm/Few.antt =====
-- `strides_to_axis_perm` of up to three dimensions sorts the axes.
use libdynd.Common.{ℕ, ◌≤◌, ◌<◌, ◌≡◌, ◌⊎◌, arith, Bool, List, [], ◌∷◌, length}
use libdynd.Common.Int.{ℤ}
use libdynd.Shape.AxisPerm.{intptr_abs, stride_at, strides_to_axis_perm}
use libdynd.Shape.AxisPerm.Insertion.{IsAxisPerm}

-- The smaller stride comes first, and of equal ones the later axis.
abbrev pub Before : List ℤ → ℕ → ℕ → Type 0
Before strides i j =
    (intptr_abs (stride_at strides i) < intptr_abs (stride_at strides j))
    ⊎ ((intptr_abs (stride_at strides i) ≡ intptr_abs (stride_at strides j)) × (j < i))

abbrev pub Ordered : List ℤ → List ℕ → Type 0
Ordered strides [] = Unit
Ordered strides (i ∷ []) = Unit
Ordered strides (i ∷ j ∷ axes) = Before strides i j × Ordered strides (j ∷ axes)

-- Up to three dimensions the result holds each axis once, from the smallest absolute stride to the
-- largest, and of axes with equal ones the later first, as in C order.
pub strides_to_axis_perm-Ordered :
    (sort : (ℕ → ℕ → Bool) → List ℕ → List ℕ) (strides : List ℤ)
    → length strides ≤ 3
    → IsAxisPerm (length strides) (strides_to_axis_perm sort strides)
      × Ordered strides (strides_to_axis_perm sort strides)
unfolding strides_to_axis_perm
strides_to_axis_perm-Ordered sort [] h = (λ x. ground arith, tt)
strides_to_axis_perm-Ordered sort (a ∷ []) h = (λ x. ground arith, tt)
strides_to_axis_perm-Ordered sort (a ∷ b ∷ []) h = (λ x. ground arith, ground arith)
strides_to_axis_perm-Ordered sort (a ∷ b ∷ c ∷ []) h = (λ x. ground arith, ground arith)
strides_to_axis_perm-Ordered sort (a ∷ b ∷ c ∷ d ∷ strides) h = absurd (omega arith)
