-- ===== src/Shape/Strides.antt =====
-- `broadcast_to_shape` against `shape_can_broadcast`, and the elements that its strides address.
use libdynd.Common.{
  ℕ, zero, suc, ◌-◌, ◌≡◌, inl, inr, refl, ◌∙◌, arith, Bool, Bool-cases, true, false, List, [], ◌∷◌,
  ◌++◌, ltb, if◌then◌else◌, length, length-drop, drop, replicate,
}
use libdynd.Common.Int.{ℤ, pos, negsuc, ◌+ℤ◌, ◌*ℤ◌, eqb_ℤ}
use libdynd.Shape.{
  Shape, BroadcastResult, ok, broadcast_error, ◌>>=◌, sizes_can_broadcast, shape_can_broadcast,
  broadcast_strides, broadcast_to_shape,
}

abbrev pub succeeds {ℓ} : {A : Type ℓ} → BroadcastResult A → Bool
succeeds (ok a) = true
succeeds broadcast_error = false

succeeds-bind {ℓ κ} :
    {A : Type ℓ} {B : Type κ} (r : BroadcastResult A) (f : A → B)
    → succeeds (r >>= λ a. ok (f a)) ≡ succeeds r
succeeds-bind (ok a) f = refl
succeeds-bind broadcast_error f = refl

broadcast_strides-succeeds :
    (src : Shape) (strides : List ℤ) (dst : Shape)
    → length src ≡ length strides
    → succeeds (broadcast_strides src strides dst) ≡ sizes_can_broadcast src dst
unfolding broadcast_strides sizes_can_broadcast
broadcast_strides-succeeds [] strides dst h = refl
broadcast_strides-succeeds (s ∷ src) [] dst h = absurd (omega arith)
broadcast_strides-succeeds (s ∷ src) (t ∷ strides) [] h = refl
broadcast_strides-succeeds (s ∷ src) (t ∷ strides) (d ∷ dst) h = ground (
  arith,
  broadcast_strides-succeeds src strides dst (omega arith),
  succeeds-bind (broadcast_strides src strides dst) (λ out. pos 0 ∷ out),
  succeeds-bind (broadcast_strides src strides dst) (λ out. t ∷ out),
)

-- With a stride for each size, `broadcast_to_shape` succeeds exactly where `shape_can_broadcast`
-- says so.
pub broadcast_to_shape-succeeds :
    (dst src : Shape) (strides : List ℤ)
    → length src ≡ length strides
    → succeeds (broadcast_to_shape dst src strides) ≡ shape_can_broadcast dst src
unfolding broadcast_to_shape shape_can_broadcast
broadcast_to_shape-succeeds dst src strides h =
    let δ : ℕ = length dst - length src in
    ground (
      arith,
      broadcast_strides-succeeds src strides (drop δ dst) h,
      succeeds-bind (broadcast_strides src strides (drop δ dst))
          (λ out. replicate δ (pos 0) ++ out),
    )

-- The offset that strides give an index.
abbrev pub offset : List ℤ → List ℕ → ℤ
offset [] index = pos 0
offset (t ∷ strides) [] = pos 0
offset (t ∷ strides) (i ∷ index) = pos i *ℤ t +ℤ offset strides index

-- The element of the source that stands for an element of the destination: a size of 1 repeats.
abbrev pub source_index : Shape → List ℕ → List ℕ
source_index [] index = []
source_index (s ∷ src) [] = []
source_index (s ∷ src) (i ∷ index) = (if eqb_ℤ s (pos 1) then 0 else i) ∷ source_index src index

*ℤ-zero : (i : ℕ) (t : ℤ) → pos i *ℤ pos 0 ≡ pos 0 *ℤ t
unfolding ◌*ℤ◌
*ℤ-zero i (pos t) = ground arith
*ℤ-zero i (negsuc t) = ground arith

+ℤ-zero_left : (t z : ℤ) → pos 0 *ℤ t +ℤ z ≡ z
unfolding ◌*ℤ◌ ◌+ℤ◌
+ℤ-zero_left (pos t) (pos z) = ground arith
+ℤ-zero_left (pos t) (negsuc z) = ground arith
+ℤ-zero_left (negsuc t) (pos z) = ground arith
+ℤ-zero_left (negsuc t) (negsuc z) = ground arith

-- What a result says of its value.
abbrev pub Holds {ℓ κ} : {A : Type ℓ} → (A → Type κ) → BroadcastResult A → Type κ
Holds P (ok a) = P a
Holds P broadcast_error = Unit

Holds-bind {ℓ κ μ} :
    {A : Type ℓ} {B : Type κ} (P : A → Type μ) (Q : B → Type μ) (r : BroadcastResult A) (f : A → B)
    → Holds P r
    → ((a : A) → P a → Q (f a))
    → Holds Q (r >>= λ a. ok (f a))
Holds-bind P Q (ok a) f h k = k a h
Holds-bind P Q broadcast_error f h k = tt

abbrev Addresses : Shape → List ℤ → List ℕ → List ℤ → Type 0
Addresses src strides index out = offset out index ≡ offset strides (source_index src index)

repeat_step :
    (s t : ℤ) (src : Shape) (strides : List ℤ) (i : ℕ) (index : List ℕ) (out : List ℤ)
    → eqb_ℤ s (pos 1) ≡ true
    → Addresses src strides index out
    → Addresses (s ∷ src) (t ∷ strides) (i ∷ index) (pos 0 ∷ out)
repeat_step s t src strides i index out one e = rw (one, e, *ℤ-zero i t) refl

keep_step :
    (s t : ℤ) (src : Shape) (strides : List ℤ) (i : ℕ) (index : List ℕ) (out : List ℤ)
    → eqb_ℤ s (pos 1) ≡ false
    → Addresses src strides index out
    → Addresses (s ∷ src) (t ∷ strides) (i ∷ index) (t ∷ out)
keep_step s t src strides i index out more e = rw (more, e) refl

broadcast_strides-Addresses :
    (src : Shape) (strides : List ℤ) (dst : Shape) (index : List ℕ)
    → length src ≡ length strides
    → length dst ≡ length index
    → Holds (Addresses src strides index) (broadcast_strides src strides dst)
unfolding broadcast_strides
broadcast_strides-Addresses [] [] dst index h k = refl
broadcast_strides-Addresses [] (t ∷ strides) dst index h k = absurd (omega arith)
broadcast_strides-Addresses (s ∷ src) [] dst index h k = absurd (omega arith)
broadcast_strides-Addresses (s ∷ src) (t ∷ strides) [] index h k = tt
broadcast_strides-Addresses (s ∷ src) (t ∷ strides) (d ∷ dst) [] h k = absurd (omega arith)
broadcast_strides-Addresses (s ∷ src) (t ∷ strides) (d ∷ dst) (i ∷ index) h k =
    let ih : Holds (Addresses src strides index) (broadcast_strides src strides dst) =
      broadcast_strides-Addresses src strides dst index (omega arith) (omega arith) in
    elim (Bool-cases (eqb_ℤ s (pos 1))) [
      | inl one ↦ rw one (
          Holds-bind (Addresses src strides index) _ (broadcast_strides src strides dst) _ ih
            (λ out. repeat_step s t src strides i index out one))
      | inr more ↦ rw more (elim (Bool-cases (eqb_ℤ s d)) [
        | inl same ↦ rw same (
            Holds-bind (Addresses src strides index) _ (broadcast_strides src strides dst) _ ih
              (λ out. keep_step s t src strides i index out more))
        | inr other ↦ rw other tt
      ])
    ]

offset-replicate :
    (δ : ℕ) (out : List ℤ) (index : List ℕ)
    → offset (replicate δ (pos 0) ++ out) index ≡ offset out (drop δ index)
offset-replicate zero out index = refl
offset-replicate (suc δ) [] [] = refl
offset-replicate (suc δ) (t ∷ out) [] = refl
offset-replicate (suc δ) out (i ∷ index) =
    rw (*ℤ-zero i (pos 0), +ℤ-zero_left) (offset-replicate δ out index)

-- The strides that `broadcast_to_shape` returns address, at each index of the destination, the
-- element of the source that the index stands for: its last indices, with 0 where the source's size
-- is 1.
pub broadcast_to_shape-Addresses :
    (dst src : Shape) (strides : List ℤ) (index : List ℕ)
    → length src ≡ length strides
    → length dst ≡ length index
    → Holds
        (λ out.
          offset out index
          ≡ offset strides (source_index src (drop (length dst - length src) index)))
        (broadcast_to_shape dst src strides)
unfolding broadcast_to_shape
broadcast_to_shape-Addresses dst src strides index h k =
    elim (Bool-cases (ltb (length dst) (length src))) [
      | inl short ↦ rw short tt
      | inr long ↦ rw long (
          Holds-bind (Addresses src strides (drop δ index)) _
            (broadcast_strides src strides (drop δ dst)) (λ out. replicate δ (pos 0) ++ out)
            (broadcast_strides-Addresses src strides (drop δ dst) (drop δ index) h drops)
            (λ out e. offset-replicate δ out index ∙ e))
    ]
  where
    δ : ℕ
    δ = length dst - length src

    drops : length (drop δ dst) ≡ length (drop δ index)
    drops = omega (arith, length-drop {0} δ dst, length-drop {0} δ index)
