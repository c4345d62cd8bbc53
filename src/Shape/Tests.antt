-- ===== src/Shape/Tests.antt =====
-- Runs of the functions on shapes and axes, and the theorems at concrete shapes.
use libdynd.Common.{ℕ, Bool, List, [], ◌∷◌, ◌≡◌, refl, arith}
use libdynd.Common.Int.{pos, negsuc, ◌*ℤ◌}
use libdynd.Shape.{
  Shape, ok, broadcast_error, ◌>>=◌, sizes_can_broadcast, shape_can_broadcast, broadcast_strides,
  broadcast_to_shape, merge_size, merge_sizes, incremental_broadcast, input_size, input_sizes,
  max_ndim, merge_input, input_shapes, broadcast_input_shapes,
}
use libdynd.Shape.Strides.{
  succeeds, broadcast_to_shape-succeeds, Holds, offset, source_index, broadcast_to_shape-Addresses,
}
use libdynd.Shape.Merge.{incremental_broadcast_comm}
use libdynd.Shape.Inputs.{merge_input-incremental_broadcast}
use libdynd.Shape.AxisPerm.{
  reversed_axes, strides_to_axis_perm, compare_strides, insert_position, reverse_onto, insert_axis,
  insertion_sort, multistrides_to_axis_perm, axis_perm_to_strides,
}
use libdynd.Shape.AxisPerm.Insertion.{IsAxisPerm, multistrides_to_axis_perm-IsAxisPerm}

methods : Unit {0}
unfolding sizes_can_broadcast shape_can_broadcast broadcast_strides broadcast_to_shape merge_size
    merge_sizes incremental_broadcast input_size input_sizes max_ndim merge_input input_shapes
    broadcast_input_shapes reversed_axes strides_to_axis_perm compare_strides insert_position
    reverse_onto insert_axis insertion_sort multistrides_to_axis_perm axis_perm_to_strides ◌*ℤ◌
methods = tt

abbrev column : Shape
column = pos 3 ∷ pos 1 ∷ []

abbrev row : Shape
row = pos 4 ∷ []

abbrev cube : Shape
cube = pos 2 ∷ pos 3 ∷ pos 4 ∷ []

repeated : broadcast_to_shape cube column (pos 8 ∷ pos 8 ∷ []) ≡ ok (pos 0 ∷ pos 8 ∷ pos 0 ∷ [])
unfolding methods
repeated = refl

merged : broadcast_input_shapes column (row ∷ []) ≡ ok (pos 3 ∷ pos 4 ∷ [])
unfolding methods
merged = refl

mismatch : incremental_broadcast cube (pos 5 ∷ []) ≡ broadcast_error
unfolding methods
mismatch = refl

variable_size : broadcast_input_shapes (pos 3 ∷ []) ((negsuc 0 ∷ []) ∷ []) ≡ ok (negsuc 2 ∷ [])
unfolding methods
variable_size = refl

-- Fortran order in the first operand, ambiguous in the second.
fortran :
    multistrides_to_axis_perm 3 ((pos 8 ∷ pos 16 ∷ pos 48 ∷ []) ∷ (pos 0 ∷ pos 0 ∷ pos 8 ∷ []) ∷ [])
    ≡ 0 ∷ 1 ∷ 2 ∷ []
unfolding methods
fortran = refl

broadcast_to_shape-succeeds_example :
    succeeds (broadcast_to_shape cube column (pos 8 ∷ pos 8 ∷ [])) ≡ shape_can_broadcast cube column
broadcast_to_shape-succeeds_example =
    broadcast_to_shape-succeeds cube column (pos 8 ∷ pos 8 ∷ []) refl

broadcast_to_shape-Addresses_example :
    Holds
      (λ out.
        offset out (1 ∷ 2 ∷ 3 ∷ [])
        ≡ offset (pos 8 ∷ pos 8 ∷ []) (source_index column (2 ∷ 3 ∷ [])))
      (broadcast_to_shape cube column (pos 8 ∷ pos 8 ∷ []))
broadcast_to_shape-Addresses_example =
    broadcast_to_shape-Addresses cube column (pos 8 ∷ pos 8 ∷ []) (1 ∷ 2 ∷ 3 ∷ []) refl refl

incremental_broadcast_comm_example :
    (incremental_broadcast (pos 1 ∷ pos 1 ∷ []) column >>= λ x. incremental_broadcast x row)
    ≡ (incremental_broadcast (pos 1 ∷ pos 1 ∷ []) row >>= λ x. incremental_broadcast x column)
incremental_broadcast_comm_example =
    incremental_broadcast_comm (pos 1 ∷ pos 1 ∷ []) column row (omega arith) (omega arith)

merge_input-incremental_broadcast_example :
    merge_input column row ≡ incremental_broadcast column row
merge_input-incremental_broadcast_example =
    merge_input-incremental_broadcast column row tt tt (omega arith)

multistrides_to_axis_perm-IsAxisPerm_example :
    IsAxisPerm 3 (multistrides_to_axis_perm 3 ((pos 8 ∷ pos 0 ∷ pos 4 ∷ []) ∷ []))
multistrides_to_axis_perm-IsAxisPerm_example =
    multistrides_to_axis_perm-IsAxisPerm 3 ((pos 8 ∷ pos 0 ∷ pos 4 ∷ []) ∷ [])

-- A sort that the cases of up to three dimensions never call.
unsorted : (ℕ → ℕ → Bool) → List ℕ → List ℕ
unsorted lt axes = axes
