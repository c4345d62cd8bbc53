-- ===== src/Shape/Merge.antt =====
-- `incremental_broadcast`: the order of the merged shapes does not matter, and the result is the
-- least shape that both broadcast to.
use libdynd.Common.{
  ℕ, zero, suc, ◌-◌, ◌≤◌, ◌≡◌, refl, sym, ap, ◌∙◌, subst, arith, [], ◌∷◌, ◌++◌, length, drop, take,
  replicate, ap₂, length-append, length-replicate,
}
use libdynd.Common.Int.{ℤ, pos}
use libdynd.Shape.{
  Shape, BroadcastResult, ok, broadcast_error, ◌>>=◌, merge_size, merge_sizes,
  incremental_broadcast,
}
use libdynd.Shape.Strides.{Holds}

merge_size_comm :
    (o a b : ℤ)
    → (merge_size o a >>= λ x. merge_size x b) ≡ (merge_size o b >>= λ x. merge_size x a)
unfolding merge_size
merge_size_comm o a b = ground arith

-- A shape with 1 put in front for the dimensions that it lacks.
abbrev pub pad : ℕ → Shape → Shape
pad n shape = replicate (n - length shape) (pos 1) ++ shape

merge_size-one : (o : ℤ) → merge_size o (pos 1) ≡ ok o
unfolding merge_size
merge_size-one o = refl

unit_right : (r : BroadcastResult Shape) → r ≡ (r >>= λ m. ok m)
unit_right (ok r) = refl
unit_right broadcast_error = refl

bind_cons :
    (o : ℤ) (xs : Shape) (r : BroadcastResult Shape)
    → ((r >>= λ m. ok (xs ++ m)) >>= λ rest. ok (o ∷ rest)) ≡ (r >>= λ m. ok (o ∷ (xs ++ m)))
bind_cons o xs (ok r) = refl
bind_cons o xs broadcast_error = refl

merge_sizes-one :
    (o : ℤ) (out shape : Shape)
    → merge_sizes (o ∷ out) (pos 1 ∷ shape) ≡ (merge_sizes out shape >>= λ rest. ok (o ∷ rest))
unfolding merge_sizes
merge_sizes-one o out shape = rw (merge_size-one o) refl

merge_sizes-replicate :
    (δ : ℕ) (out shape : Shape)
    → δ ≤ length out
    → merge_sizes out (replicate δ (pos 1) ++ shape)
      ≡ (merge_sizes (drop δ out) shape >>= λ m. ok (take δ out ++ m))
merge_sizes-replicate zero out shape h = unit_right (merge_sizes out shape)
merge_sizes-replicate (suc δ) [] shape h = absurd (omega arith)
merge_sizes-replicate (suc δ) (o ∷ out) shape h =
    rw
      (
        merge_sizes-one o out (replicate δ (pos 1) ++ shape),
        merge_sizes-replicate δ out shape (omega arith),
      )
      (bind_cons o (take δ out) (merge_sizes (drop δ out) shape))

pub incremental_broadcast-pad :
    (out shape : Shape)
    → length shape ≤ length out
    → incremental_broadcast out shape ≡ merge_sizes out (pad (length out) shape)
unfolding incremental_broadcast
incremental_broadcast-pad out shape h =
    ground (arith, merge_sizes-replicate (length out - length shape) out shape)

-- Merging the heads and the rests of two shapes.
both : BroadcastResult ℤ → BroadcastResult Shape → BroadcastResult Shape
both p m = p >>= λ size. m >>= λ rest. ok (size ∷ rest)

merge_sizes-cons :
    (o : ℤ) (out : Shape) (s : ℤ) (shape : Shape)
    → merge_sizes (o ∷ out) (s ∷ shape) ≡ both (merge_size o s) (merge_sizes out shape)
unfolding merge_sizes both
merge_sizes-cons o out s shape = refl

both-error : (p : BroadcastResult ℤ) → both p broadcast_error ≡ broadcast_error
unfolding both
both-error (ok a) = refl
both-error broadcast_error = refl

merge_sizes-both :
    (y : ℤ) (b : Shape) (p : BroadcastResult ℤ) (m : BroadcastResult Shape)
    → (both p m >>= λ z. merge_sizes z (y ∷ b))
      ≡ both (p >>= λ u. merge_size u y) (m >>= λ r. merge_sizes r b)
unfolding both merge_sizes
merge_sizes-both y b (ok u) (ok r) = refl
merge_sizes-both y b (ok u) broadcast_error = sym (unfold both in both-error (merge_size u y))
merge_sizes-both y b broadcast_error m = refl

merge_sizes_comm :
    (out a b : Shape)
    → length a ≡ length b
    → (merge_sizes out a >>= λ x. merge_sizes x b) ≡ (merge_sizes out b >>= λ x. merge_sizes x a)
merge_sizes_comm out [] [] h = refl
merge_sizes_comm out [] (y ∷ b) h = absurd (omega arith)
merge_sizes_comm out (x ∷ a) [] h = absurd (omega arith)
merge_sizes_comm [] (x ∷ a) (y ∷ b) h = unfold merge_sizes in refl
merge_sizes_comm (o ∷ out) (x ∷ a) (y ∷ b) h =
    ap (λ r. r >>= λ z. merge_sizes z (y ∷ b)) (merge_sizes-cons o out x a)
    ∙ merge_sizes-both y b (merge_size o x) (merge_sizes out a)
    ∙ ap₂ both (merge_size_comm o x y) (merge_sizes_comm out a b (omega arith))
    ∙ sym (merge_sizes-both x a (merge_size o y) (merge_sizes out b))
    ∙ sym (ap (λ r. r >>= λ z. merge_sizes z (x ∷ a)) (merge_sizes-cons o out y b))

Holds-both :
    (n : ℕ) (p : BroadcastResult ℤ) (m : BroadcastResult Shape)
    → Holds (λ r. length r ≡ n) m
    → Holds (λ r. length r ≡ suc n) (both p m)
unfolding both
Holds-both n (ok u) (ok r) h = ap suc h
Holds-both n (ok u) broadcast_error h = tt
Holds-both n broadcast_error m h = tt

length-merge_sizes :
    (out shape : Shape) → Holds (λ r. length r ≡ length out) (merge_sizes out shape)
length-merge_sizes out [] = unfold merge_sizes in refl
length-merge_sizes [] (s ∷ shape) = unfold merge_sizes in tt
length-merge_sizes (o ∷ out) (s ∷ shape) = rw (merge_sizes-cons o out s shape) (
    Holds-both (length out) (merge_size o s) (merge_sizes out shape) (length-merge_sizes out shape))

length-pad : (n : ℕ) (shape : Shape) → length shape ≤ n → length (pad n shape) ≡ n
length-pad n shape h = omega (
  arith,
  length-append {0} (replicate (n - length shape) (pos 1)) shape,
  length-replicate {0} (n - length shape) (pos 1),
)

bind_padded :
    (n : ℕ) (b : Shape) (r : BroadcastResult Shape)
    → length b ≤ n
    → Holds (λ x. length x ≡ n) r
    → (r >>= λ x. incremental_broadcast x b) ≡ (r >>= λ x. merge_sizes x (pad n b))
bind_padded n b (ok x) fits h =
    incremental_broadcast-pad x b (subst (λ m. length b ≤ m) (sym h) fits)
    ∙ ap (λ m. merge_sizes x (pad m b)) h
bind_padded n b broadcast_error fits h = refl

-- Two shapes with no more dimensions than the output may be merged in either order: both orders
-- return the same shape, or both fail. Sizes may be variable (-1) or 1.
pub incremental_broadcast_comm :
    (out a b : Shape)
    → length a ≤ length out
    → length b ≤ length out
    → (incremental_broadcast out a >>= λ x. incremental_broadcast x b)
      ≡ (incremental_broadcast out b >>= λ x. incremental_broadcast x a)
incremental_broadcast_comm out a b ha hb =
    let n : ℕ = length out in
    rw (incremental_broadcast-pad out a ha, incremental_broadcast-pad out b hb)
      (bind_padded n b (merge_sizes out (pad n a)) hb (length-merge_sizes out (pad n a))
        ∙ merge_sizes_comm out (pad n a) (pad n b) (length-pad n a ha ∙ sym (length-pad n b hb))
        ∙ sym (bind_padded n a (merge_sizes out (pad n b)) ha (length-merge_sizes out (pad n b))))
