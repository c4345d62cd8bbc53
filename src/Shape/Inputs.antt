-- ===== src/Shape/Inputs.antt =====
-- `broadcast_input_shapes` and `incremental_broadcast` merge sizes that are not variable alike.
use libdynd.Common.{ℕ, zero, suc, ◌-◌, ◌≤◌, ◌≡◌, refl, arith, [], ◌∷◌, length, drop}
use libdynd.Common.Int.{pos, negsuc}
use libdynd.Shape.{
  Shape, merge_size, merge_sizes, incremental_broadcast, input_size, input_sizes, merge_input,
}

-- No size is variable.
abbrev pub AllFixed : Shape → Type 0
AllFixed [] = Unit
AllFixed (pos n ∷ shape) = AllFixed shape
AllFixed (negsuc n ∷ shape) = ⊥

input_size-merge_size : (o s : ℕ) → input_size (pos o) (pos s) ≡ merge_size (pos o) (pos s)
unfolding input_size merge_size
input_size-merge_size o s = ground arith

input_sizes-merge_sizes :
    (out shape : Shape)
    → AllFixed out
    → AllFixed shape
    → input_sizes out shape ≡ merge_sizes out shape
unfolding input_sizes merge_sizes
input_sizes-merge_sizes out [] fo fs = refl
input_sizes-merge_sizes [] (s ∷ shape) fo fs = refl
input_sizes-merge_sizes (pos o ∷ out) (pos s ∷ shape) fo fs =
    rw (input_size-merge_size o s, input_sizes-merge_sizes out shape fo fs) refl
input_sizes-merge_sizes (pos o ∷ out) (negsuc s ∷ shape) fo fs = absurd fs
input_sizes-merge_sizes (negsuc o ∷ out) (s ∷ shape) fo fs = absurd fo

AllFixed-drop : (n : ℕ) (shape : Shape) → AllFixed shape → AllFixed (drop n shape)
AllFixed-drop zero shape h = h
AllFixed-drop (suc n) [] h = tt
AllFixed-drop (suc n) (pos s ∷ shape) h = AllFixed-drop n shape h
AllFixed-drop (suc n) (negsuc s ∷ shape) h = absurd h

-- On sizes that are not variable, an input with no more dimensions than the output is merged by
-- `broadcast_input_shapes` as `incremental_broadcast` does it.
pub merge_input-incremental_broadcast :
    (out shape : Shape)
    → AllFixed out
    → AllFixed shape
    → length shape ≤ length out
    → merge_input out shape ≡ incremental_broadcast out shape
unfolding merge_input incremental_broadcast
merge_input-incremental_broadcast out shape fo fs h =
    let δ : ℕ = length out - length shape in
    ground (arith, input_sizes-merge_sizes (drop δ out) shape (AllFixed-drop δ out fo) fs)
