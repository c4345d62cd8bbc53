-- ===== src/Index/Forward.antt =====
-- What a range with a positive step selects.
use libdynd.Common.{
  Bool-cases, inl, inr, min, ℕ, suc, ◌+◌, ◌-◌, ◌≤◌, ◌<◌, ◌≡◌, ◌⊎◌, arith, if◌then◌else◌,
}
use libdynd.Common.Int.{ℤ, pos, negsuc, ◌+ℤ◌, ◌≤ℤ◌, ◌<ℤ◌, leb_ℤ, ltb_ℤ, neg_ℤ, int64_half}
use libdynd.Index.{
  ◌>>=◌, irange, Slice, IndexResult, ok, irange_out_of_bounds, forward_start, forward_end,
  forward_slice, apply_single_linear_index,
}
use libdynd.Index.ForwardSlice.{CountsUp, StaysUp, forward_slice-CountsUp, forward_slice-StaysUp}

-- Where a range that counts up begins and ends in a dimension of size `n`, as in Python: a negative
-- bound counts from the end.
abbrev pub lower_bound : ℤ → ℕ → ℕ
lower_bound (pos a) n = a
lower_bound (negsuc a) n = n - suc a

abbrev pub upper_end : ℤ → ℕ → ℕ
upper_end (pos b) n = min b n
upper_end (negsuc b) n = n - suc b

-- The range is refused: it starts behind the last index, or ends before the first.
abbrev pub RefusedUp : ℤ → ℤ → ℕ → Type 0
RefusedUp start finish n = (pos n ≤ℤ start) ⊎ (finish <ℤ neg_ℤ (pos n))

-- The answers for a positive step, where `P` holds of the slice.
pub data AnswersUp (P : Slice → Type 0) (start finish : ℤ) (n : ℕ)
    : IndexResult Slice → Type 0 where
  selected : {s : Slice} → ¬ (RefusedUp start finish n) → P s → AnswersUp P start finish n (ok s)
  refused : RefusedUp start finish n → AnswersUp P start finish n irange_out_of_bounds

abbrev pub SelectsUp : ℤ → ℤ → ℕ → ℕ → IndexResult Slice → Type 0
SelectsUp start finish t n =
    AnswersUp (CountsUp (lower_bound start n) (upper_end finish n) t) start finish n

forward_start-cases :
    (start : ℤ) (n : ℕ)
    → (forward_start start (pos n)
        ≡ (if leb_ℤ (pos n) start then irange_out_of_bounds else ok (pos (lower_bound start n))))
unfolding forward_start ◌+ℤ◌
forward_start-cases (pos a) n = ground arith
forward_start-cases (negsuc a) n = ground arith

forward_end-cases :
    (finish : ℤ) (n : ℕ)
    → (forward_end finish (pos n) ≡ (
        if ltb_ℤ finish (neg_ℤ (pos n))
        then irange_out_of_bounds
        else ok (pos (upper_end finish n))))
unfolding forward_end ◌+ℤ◌
forward_end-cases (pos a) n = ground arith
forward_end-cases (negsuc a) n = ground arith

forward_of : ℤ → ℤ → ℕ → ℕ → IndexResult Slice
forward_of start finish t n = forward_start start (pos n) >>= λ a.
    forward_end finish (pos n) >>= λ b. ok (forward_slice a b (pos (suc t)))

apply_single_linear_index-forward_of :
    (start finish : ℤ) (t n : ℕ)
    → apply_single_linear_index (irange start finish (pos (suc t))) (pos n)
      ≡ forward_of start finish t n
unfolding apply_single_linear_index forward_of
apply_single_linear_index-forward_of start finish t n = ground arith

forward_of-AnswersUp :
    (P : Slice → Type 0) (start finish : ℤ) (t n : ℕ)
    → P (forward_slice (pos (lower_bound start n)) (pos (upper_end finish n)) (pos (suc t)))
    → AnswersUp P start finish n
        (apply_single_linear_index (irange start finish (pos (suc t))) (pos n))
unfolding forward_of
forward_of-AnswersUp P start finish t n holds =
    rw
      (
        apply_single_linear_index-forward_of start finish t n,
        forward_start-cases start n,
        forward_end-cases finish n,
      )
      (elim (Bool-cases (leb_ℤ (pos n) start)) [
        | inl late ↦ rw late (refused (inl (ground arith)))
        | inr early ↦ rw early (elim (Bool-cases (ltb_ℤ finish (neg_ℤ (pos n)))) [
          | inl low ↦ rw low (refused (inr (ground arith)))
          | inr high ↦ rw high (
              selected
                (λ r. elim r [ inl x ↦ absurd (ground arith) | inr x ↦ absurd (ground arith) ])
                holds)
        ])
      ])

-- Whatever the step, a range that counts up selects no index that it does not name.
pub apply_single_linear_index-StaysUp :
    (start finish : ℤ) (t n : ℕ)
    → AnswersUp
        (StaysUp (lower_bound start n) (upper_end finish n) t)
        start
        finish
        n
        (apply_single_linear_index (irange start finish (pos (suc t))) (pos n))
apply_single_linear_index-StaysUp start finish t n =
    forward_of-AnswersUp _ start finish t n
      (forward_slice-StaysUp (lower_bound start n) (upper_end finish n) t)

pub upper_end-le : (finish : ℤ) (n : ℕ) → upper_end finish n ≤ n
upper_end-le (pos b) n = omega arith
upper_end-le (negsuc b) n = omega arith

-- A range with a positive step selects exactly the indices from its start by its step to below its
-- end, both counted from the end of the dimension if negative, the end cut to the dimension; it is
-- refused exactly if it starts behind the last index or ends before the first. The dimension's size
-- and the step minus 1 sum to an `intptr_t`.
pub apply_single_linear_index-SelectsUp :
    (start finish : ℤ) (t n : ℕ)
    → n + t < int64_half
    → SelectsUp start finish t n
        (apply_single_linear_index (irange start finish (pos (suc t))) (pos n))
apply_single_linear_index-SelectsUp start finish t n fits =
    forward_of-AnswersUp _ start finish t n (
      forward_slice-CountsUp (lower_bound start n) (upper_end finish n) t
        (omega (arith, upper_end-le finish n)))
