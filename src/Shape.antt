-- ===== src/Shape.antt =====
-- Broadcasting of shapes and strides, src/dynd/shape_tools.cpp. A shape or a row of strides, which
-- the source passes as a pointer and a count, is a list; a pointer moved by the difference of two
-- counts is the list without its first entries. `broadcast_error` carries a message only.
pub mod Strides
pub mod Merge
pub mod Inputs
pub mod AxisPerm
mod Tests
use libdynd.Common.{
  ℕ, ◌+◌, ◌-◌, Bool, true, false, not, ◌&&◌, ◌||◌, List, [], ◌∷◌, ◌++◌, ltb, leb, if◌then◌else◌,
  length, drop, take, replicate,
}
use libdynd.Common.Int.{ℤ, pos, negsuc, neg_ℤ, ltb_ℤ, leb_ℤ, eqb_ℤ}

abbrev pub Shape : Type 0
Shape = List ℤ

pub data BroadcastResult {ℓ} (A : Type ℓ) : Type ℓ where
  ok : A → BroadcastResult A
  broadcast_error : BroadcastResult A

infixl 5 ◌>>=◌
abbrev pub ◌>>=◌ {ℓ κ} :
    {A : Type ℓ} {B : Type κ} → BroadcastResult A → (A → BroadcastResult B) → BroadcastResult B
ok a >>= f = f a
broadcast_error >>= f = broadcast_error

-- The loop of `shape_can_broadcast`: the sizes of the source, and of the destination beside them.
unfoldable pub sizes_can_broadcast : Shape → Shape → Bool
sizes_can_broadcast [] dst = true
sizes_can_broadcast (s ∷ src) [] = false
sizes_can_broadcast (s ∷ src) (d ∷ dst) =
    if not (eqb_ℤ s (pos 1)) && not (eqb_ℤ s d) then false else sizes_can_broadcast src dst

unfoldable pub shape_can_broadcast : Shape → Shape → Bool
shape_can_broadcast dst_shape src_shape =
    if leb (length src_shape) (length dst_shape)
    then sizes_can_broadcast src_shape (drop (length dst_shape - length src_shape) dst_shape)
    else false

-- The second loop of `broadcast_to_shape`: sizes and strides of the source, and the sizes of the
-- destination beside them.
unfoldable pub broadcast_strides : Shape → List ℤ → Shape → BroadcastResult (List ℤ)
broadcast_strides [] strides dst = ok []
broadcast_strides (s ∷ src) [] dst = broadcast_error
broadcast_strides (s ∷ src) (t ∷ strides) [] = broadcast_error
broadcast_strides (s ∷ src) (t ∷ strides) (d ∷ dst) =
    let rest = broadcast_strides src strides dst in
    if eqb_ℤ s (pos 1)
    then (rest >>= λ out. ok (pos 0 ∷ out))
    else if eqb_ℤ s d
    then (rest >>= λ out. ok (t ∷ out))
    else broadcast_error

unfoldable pub broadcast_to_shape : Shape → Shape → List ℤ → BroadcastResult (List ℤ)
broadcast_to_shape dst_shape src_shape src_strides =
    if ltb (length dst_shape) (length src_shape)
    then broadcast_error
    else broadcast_strides src_shape src_strides
        (drop (length dst_shape - length src_shape) dst_shape)
      >>= λ out. ok (replicate (length dst_shape - length src_shape) (pos 0) ++ out)

-- One round of `incremental_broadcast`: a size of the output, and the size to be merged into it.
unfoldable pub merge_size : ℤ → ℤ → BroadcastResult ℤ
merge_size out s =
    if not (eqb_ℤ s (pos 1))
    then (if eqb_ℤ s (negsuc 0)
        then (if eqb_ℤ out (pos 1) then ok (negsuc 0) else ok out)
        else if eqb_ℤ out (pos 1) || eqb_ℤ out (negsuc 0)
        then ok s
        else if not (eqb_ℤ s out)
        then broadcast_error
        else ok out)
    else ok out

unfoldable pub merge_sizes : Shape → Shape → BroadcastResult Shape
merge_sizes out [] = ok out
merge_sizes [] (s ∷ shape) = broadcast_error
merge_sizes (o ∷ out) (s ∷ shape) =
    merge_size o s >>= λ size. merge_sizes out shape >>= λ rest. ok (size ∷ rest)

unfoldable pub incremental_broadcast : Shape → Shape → BroadcastResult Shape
incremental_broadcast out_shape shape =
    if ltb (length out_shape) (length shape)
    then broadcast_error
    else merge_sizes (drop (length out_shape - length shape) out_shape) shape >>= λ merged.
        ok (take (length out_shape - length shape) out_shape ++ merged)

-- One round of `broadcast_input_shapes`.
unfoldable pub input_size : ℤ → ℤ → BroadcastResult ℤ
input_size itershape_size size =
    if eqb_ℤ itershape_size (pos 1)
    then ok size
    else if ltb_ℤ size (pos 0)
    then (if ltb_ℤ (pos 0) itershape_size then ok (neg_ℤ itershape_size) else ok (negsuc 0))
    else if leb_ℤ (pos 0) itershape_size
    then (if not (eqb_ℤ size (pos 1)) && not (eqb_ℤ itershape_size size)
        then broadcast_error
        else ok itershape_size)
    else if eqb_ℤ itershape_size (negsuc 0) && ltb_ℤ (pos 0) size
    then ok (neg_ℤ size)
    else if ltb_ℤ (pos 1) size && not (eqb_ℤ itershape_size (neg_ℤ size))
    then broadcast_error
    else ok itershape_size

unfoldable pub input_sizes : Shape → Shape → BroadcastResult Shape
input_sizes out [] = ok out
input_sizes [] (s ∷ shape) = broadcast_error
input_sizes (o ∷ out) (s ∷ shape) =
    input_size o s >>= λ size. input_sizes out shape >>= λ rest. ok (size ∷ rest)

-- The number of dimensions that the inputs broadcast to.
unfoldable pub max_ndim : ℕ → List Shape → ℕ
max_ndim undim [] = undim
max_ndim undim (s ∷ inputs) = max_ndim (if ltb undim (length s) then length s else undim) inputs

-- The round of the loop over the inputs.
unfoldable pub merge_input : Shape → Shape → BroadcastResult Shape
merge_input shape s = input_sizes (drop (length shape - length s) shape) s >>= λ merged.
    ok (take (length shape - length s) shape ++ merged)

unfoldable pub input_shapes : Shape → List Shape → BroadcastResult Shape
input_shapes shape [] = ok shape
input_shapes shape (s ∷ inputs) = merge_input shape s >>= λ next. input_shapes next inputs

-- The shape that `broadcast_input_shapes` puts out, from the shapes of its inputs, of which there is
-- at least one.
unfoldable pub broadcast_input_shapes : Shape → List Shape → BroadcastResult Shape
broadcast_input_shapes first others =
    input_shapes (replicate (max_ndim (length first) (first ∷ others)) (pos 1)) (first ∷ others)
