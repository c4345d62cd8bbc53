-- ===== src/Shape/AxisPerm/ToStrides.antt =====
-- What `axis_perm_to_strides` writes.
use native.Mathlib.Decide.{ℕ_discrete}
use libdynd.Common.{
  ℕ, ◌<◌, ◌≡◌, ◌≢◌, refl, sym, ◌∙◌, subst, arith, List, [], ◌∷◌, if◌then◌else◌, length, length-set,
  set, get_or-set_self, get_or-set_ne,
}
use libdynd.Common.Int.{ℤ, pos, ◌*ℤ◌, ltb_ℤ}
use libdynd.Shape.AxisPerm.{stride_at, axis_perm_to_strides}
use libdynd.Shape.AxisPerm.Insertion.{occurrences}

-- The two assignments of a round leave the axis's size.
written : ℕ → List ℤ → ℤ → List ℤ → List ℤ
written i shape e out =
    set (set out i (if ltb_ℤ (pos 1) (stride_at shape i) then e else pos 0)) i (stride_at shape i)

written_self :
    (i : ℕ) (shape : List ℤ) (e : ℤ) (out : List ℤ)
    → i < length out
    → stride_at (written i shape e out) i ≡ stride_at shape i
unfolding written
written_self i shape e out h =
    get_or-set_self (set out i v) i (stride_at shape i) (pos 0)
      (subst (λ n. i < n) (sym (length-set out i v)) h)
  where
    v : ℤ
    v = if ltb_ℤ (pos 1) (stride_at shape i) then e else pos 0

written_ne :
    (i j : ℕ) (shape : List ℤ) (e : ℤ) (out : List ℤ)
    → i ≢ j
    → stride_at (written i shape e out) j ≡ stride_at out j
unfolding written
written_ne i j shape e out h =
    get_or-set_ne (set out i v) i j (stride_at shape i) (pos 0) h
    ∙ get_or-set_ne out i j v (pos 0) h
  where
    v : ℤ
    v = if ltb_ℤ (pos 1) (stride_at shape i) then e else pos 0

length-written :
    (i : ℕ) (shape : List ℤ) (e : ℤ) (out : List ℤ) → length (written i shape e out) ≡ length out
unfolding written
length-written i shape e out = length-set (set out i _) i _ ∙ length-set out i _

step :
    (i : ℕ) (perm : List ℕ) (shape : List ℤ) (e : ℤ) (out : List ℤ)
    → axis_perm_to_strides (i ∷ perm) shape e out
      ≡ axis_perm_to_strides perm shape (e *ℤ stride_at shape i) (written i shape e out)
unfolding axis_perm_to_strides written
step i perm shape e out = refl

-- An entry that is the size already stays so.
keeps :
    (perm : List ℕ) (j : ℕ) (shape : List ℤ) (e : ℤ) (out : List ℤ)
    → j < length out
    → stride_at out j ≡ stride_at shape j
    → stride_at (axis_perm_to_strides perm shape e out) j ≡ stride_at shape j
keeps [] j shape e out h k = unfold axis_perm_to_strides in k
keeps (i ∷ perm) j shape e out h k = rw (step i perm shape e out) (
    keeps perm j shape (e *ℤ stride_at shape i) (written i shape e out)
      (subst (λ n. j < n) (sym (length-written i shape e out)) h)
      (elim (ℕ_discrete i j) [
        | yes same ↦
            subst (λ m. stride_at (written i shape e out) m ≡ stride_at shape m) same
              (written_self i shape e out (subst (λ m. m < length out) (sym same) h))
        | no other ↦ written_ne i j shape e out other ∙ k
      ]))

-- The entry of every axis in the permutation ends up as the size of its dimension, whatever the size
-- of an element, so the strides that were meant are lost.
pub axis_perm_to_strides-stride_at :
    (perm : List ℕ) (j : ℕ) (shape : List ℤ) (element_size : ℤ) (out : List ℤ)
    → j < length out
    → 0 < occurrences perm j
    → stride_at (axis_perm_to_strides perm shape element_size out) j ≡ stride_at shape j
axis_perm_to_strides-stride_at [] j shape e out h c = absurd (omega arith)
axis_perm_to_strides-stride_at (i ∷ perm) j shape e out h c =
    rw (step i perm shape e out) (elim (ℕ_discrete i j) [
      | yes same ↦ keeps perm j shape _ (written i shape e out) inside (
          subst (λ m. stride_at (written i shape e out) m ≡ stride_at shape m) same
            (written_self i shape e out (subst (λ m. m < length out) (sym same) h)))
      | no other ↦
          axis_perm_to_strides-stride_at perm j shape (e *ℤ stride_at shape i)
            (written i shape e out) inside (elsewhere other)
    ])
  where
    inside : j < length (written i shape e out)
    inside = subst (λ n. j < n) (sym (length-written i shape e out)) h

    elsewhere : i ≢ j → 0 < occurrences perm j
    elsewhere other = ground arith
