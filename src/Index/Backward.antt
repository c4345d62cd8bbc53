-- ===== src/Index/Backward.antt =====
-- What a range with a negative step selects.
use native.Mathlib.Decide.{dec_lt}
use libdynd.Common.{
  Bool, Bool-cases, inl, inr, ℕ, zero, suc, ◌+◌, ◌-◌, ◌≤◌, ◌<◌, ◌≡◌, ◌≢◌, ◌⊎◌, arith, true, false,
  not, ◌&&◌, ◌||◌, if◌then◌else◌, leb,
}
use libdynd.Common.Int.{
  ℤ, pos, negsuc, ◌+ℤ◌, ◌-ℤ◌, ◌≤ℤ◌, ◌<ℤ◌, leb_ℤ, ltb_ℤ, eqb_ℤ, neg_ℤ, int64_half,
}
use libdynd.Index.{
  ◌>>=◌, irange, intptr_min, intptr_max, Slice, IndexResult, ok, irange_out_of_bounds,
  backward_start, backward_end, backward_slice, apply_single_linear_index,
}
use libdynd.Index.BackwardSlice.{
  below, CountsDown, StaysDown, backward_slice-CountsDown, backward_slice-StaysDown,
}

-- One more than the first index of a range that counts down in a dimension of size `n`, and its
-- last index: `intptr_min` begins at the dimension's end, `intptr_max` goes on to index 0.
abbrev pub upper_start : ℤ → ℕ → ℕ
upper_start (pos a) n = suc a
upper_start (negsuc a) n = if leb (suc a) n then n - a else n

abbrev pub lower_end : ℤ → ℕ → ℕ
lower_end (pos b) n = if leb n b then 0 else suc b
lower_end (negsuc b) n = n - b

abbrev refuses_start : ℤ → ℕ → Bool
refuses_start start n =
    leb_ℤ (pos n) start || (ltb_ℤ start (neg_ℤ (pos n)) && not (eqb_ℤ start intptr_min))

abbrev refuses_end : ℤ → ℕ → Bool
refuses_end finish n = leb_ℤ (pos n) finish && not (eqb_ℤ finish intptr_max)

-- The range is refused: it starts out of bounds at either side, or ends behind the last index.
abbrev pub RefusedDown : ℤ → ℤ → ℕ → Type 0
RefusedDown start finish n =
    (pos n ≤ℤ start)
    ⊎ ((start <ℤ neg_ℤ (pos n)) × (start ≢ intptr_min))
    ⊎ ((pos n ≤ℤ finish) × (finish ≢ intptr_max))

-- The answers for a negative step, where `P` holds of the slice.
pub data AnswersDown (P : Slice → Type 0) (start finish : ℤ) (n : ℕ)
    : IndexResult Slice → Type 0 where
  selected :
      {s : Slice} → ¬ (RefusedDown start finish n) → P s → AnswersDown P start finish n (ok s)
  refused : RefusedDown start finish n → AnswersDown P start finish n irange_out_of_bounds

abbrev pub SelectsDown : ℤ → ℤ → ℕ → ℕ → IndexResult Slice → Type 0
SelectsDown start finish t n =
    AnswersDown (CountsDown (upper_start start n) (lower_end finish n) t) start finish n

backward_start-cases :
    (start : ℤ) (n : ℕ)
    → backward_start start (pos n)
      ≡ (if refuses_start start n then irange_out_of_bounds else ok (below (upper_start start n)))
unfolding backward_start ◌+ℤ◌ ◌-ℤ◌
backward_start-cases (pos a) n = ground arith
backward_start-cases (negsuc a) zero = ground arith
backward_start-cases (negsuc a) (suc n) = ground arith

backward_end-cases :
    (finish : ℤ) (n : ℕ)
    → backward_end finish (pos n)
      ≡ (if refuses_end finish n then irange_out_of_bounds else ok (below (lower_end finish n)))
unfolding backward_end ◌+ℤ◌
backward_end-cases (pos a) n = ground arith
backward_end-cases (negsuc a) n = ground arith

refuses-RefusedDown :
    (start finish : ℤ) (n : ℕ)
    → (refuses_start start n || refuses_end finish n) ≡ true
    → RefusedDown start finish n
refuses-RefusedDown start finish n h = ground arith

not-RefusedDown :
    (start finish : ℤ) (n : ℕ)
    → (refuses_start start n || refuses_end finish n) ≡ false
    → ¬ (RefusedDown start finish n)
not-RefusedDown start finish n h r = ground arith

backward_of : ℤ → ℤ → ℕ → ℕ → IndexResult Slice
backward_of start finish t n = backward_start start (pos n) >>= λ a.
    backward_end finish (pos n) >>= λ b. ok (backward_slice a b (negsuc t))

apply_single_linear_index-backward_of :
    (start finish : ℤ) (t n : ℕ)
    → apply_single_linear_index (irange start finish (negsuc t)) (pos n)
      ≡ backward_of start finish t n
unfolding apply_single_linear_index backward_of
apply_single_linear_index-backward_of start finish t n = ground arith

backward_of-AnswersDown :
    (P : Slice → Type 0) (start finish : ℤ) (t n : ℕ)
    → (¬ (RefusedDown start finish n)
        → P (backward_slice (below (upper_start start n)) (below (lower_end finish n)) (negsuc t)))
    → AnswersDown P start finish n
        (apply_single_linear_index (irange start finish (negsuc t)) (pos n))
unfolding backward_of
backward_of-AnswersDown P start finish t n holds =
    rw
      (
        apply_single_linear_index-backward_of start finish t n,
        backward_start-cases start n,
        backward_end-cases finish n,
      )
      (elim (Bool-cases (refuses_start start n)) [
        | inl late ↦ rw late (refused (refuses-RefusedDown start finish n (rw late)))
        | inr early ↦ rw early (elim (Bool-cases (refuses_end finish n)) [
          | inl low ↦ rw low (refused (refuses-RefusedDown start finish n (rw (early, low))))
          | inr high ↦ rw high (
              let fits : ¬ (RefusedDown start finish n) =
                not-RefusedDown start finish n (rw (early, high)) in
              selected fits (holds fits))
        ])
      ])

-- Whatever the step, a range that counts down selects no index that it does not name.
pub apply_single_linear_index-StaysDown :
    (start finish : ℤ) (t n : ℕ)
    → AnswersDown
        (StaysDown (upper_start start n) (lower_end finish n) t)
        start
        finish
        n
        (apply_single_linear_index (irange start finish (negsuc t)) (pos n))
apply_single_linear_index-StaysDown start finish t n =
    backward_of-AnswersDown _ start finish t n
      (λ fits. backward_slice-StaysDown (upper_start start n) (lower_end finish n) t)

pub upper_start-le :
    (start finish : ℤ) (n : ℕ) → ¬ (RefusedDown start finish n) → upper_start start n ≤ n
upper_start-le (pos a) finish n h = elim (dec_lt a n) [
  | yes lt ↦ lt
  | no ge ↦ absurd (h (inl (omega arith)))
]
upper_start-le (negsuc a) finish n h = ground arith

-- A range with a negative step selects exactly the indices from its start down to above its end,
-- by its step, as `SelectsDown` says, or is refused exactly if `RefusedDown` holds. The dimension's
-- size and the step's size minus 1 sum to an `intptr_t`.
pub apply_single_linear_index-SelectsDown :
    (start finish : ℤ) (t n : ℕ)
    → n + t < int64_half
    → SelectsDown start finish t n
        (apply_single_linear_index (irange start finish (negsuc t)) (pos n))
apply_single_linear_index-SelectsDown start finish t n fits =
    backward_of-AnswersDown _ start finish t n (λ kept.
      backward_slice-CountsDown (upper_start start n) (lower_end finish n) t
        (omega (arith, upper_start-le start finish n kept)))
