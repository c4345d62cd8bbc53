-- ===== src/Json/Fuel.antt =====
-- The calls of `skip_json_value` go no deeper than the text is long.
use libdynd.Common.{ℕ, zero, suc, ◌+◌, ◌-◌, ◌*◌, ◌≤◌, ◌<◌, ◌≢◌, arith, [], ◌∷◌, length, codes}
use libdynd.Parse.{Bytes, skip_whitespace, parse_token_no_ws, parse_token}
use libdynd.Json.Skip.{
  Skipped, skipped, parse_error, out_of_fuel, by_token, or_throw, Start, object_start, array_start,
  string_start, true_start, false_start, null_start, number_start, no_start, start_of,
  skip_json_value, skip_start, skip_case, skip_elements, skip_members, no_more, validate_json,
}
use libdynd.Json.Lengths.{
  skip_whitespace_le, Leaves-parse_token, Leaves-parse_json_number_no_ws, Within-le,
  Within-or_throw, Within-and_skip, Within-by_token, Within-string, Within-skip_name, Within,
}

-- What fuel each of the functions needs.
record Enough (fuel : ℕ) : Type 0 where
  value : (s : Bytes) → 4 * length s + 2 ≤ fuel → Within (length s) (skip_json_value fuel s)
  start : (s : Bytes) → 4 * length s + 1 ≤ fuel → Within (length s) (skip_start fuel s)
  case :
      (k : Start) (c : ℕ) (s : Bytes)
      → 4 * length s + 4 ≤ fuel
      → Within (suc (length s)) (skip_case fuel k (c ∷ s) s)
  elements : (s : Bytes) → 4 * length s + 3 ≤ fuel → Within (length s) (skip_elements fuel s)
  members : (s : Bytes) → 4 * length s + 3 ≤ fuel → Within (length s) (skip_members fuel s)

module _ (fuel : ℕ) (e : Enough fuel) where
  value-suc :
      (s : Bytes) → 4 * length s + 2 ≤ suc fuel → Within (length s) (skip_json_value (suc fuel) s)
  unfolding skip_json_value
  value-suc s h =
      Within-le _ _ _ (skip_whitespace_le s)
        (e.start (skip_whitespace s) (omega (arith, skip_whitespace_le s)))

  start-suc :
      (s : Bytes) → 4 * length s + 1 ≤ suc fuel → Within (length s) (skip_start (suc fuel) s)
  unfolding skip_start Within
  start-suc [] h = tt
  start-suc (c ∷ s) h = e.case (start_of c) c s (omega arith)

  -- An object or an array: its end at once, or the loop.
  case-loop :
      (end s : Bytes) (loop : Skipped)
      → 0 < length end
      → Within (length s) loop
      → Within (suc (length s)) (by_token (parse_token end s) (λ rest. skipped rest) loop)
  case-loop end s loop long h =
      Within-by_token (length s) (suc (length s)) _ _ _
        (Leaves-parse_token end s (length s) (omega arith)) (λ r k. unfold Within in omega arith)
        (Within-le _ _ _ (omega arith) h)

  case-suc :
      (k : Start) (c : ℕ) (s : Bytes)
      → 4 * length s + 4 ≤ suc fuel
      → Within (suc (length s)) (skip_case (suc fuel) k (c ∷ s) s)
  unfolding skip_case Within
  case-suc object_start c s h = case-loop (codes "}") s _ (omega arith) (e.members s (omega arith))
  case-suc array_start c s h = case-loop (codes "]") s _ (omega arith) (e.elements s (omega arith))
  case-suc string_start c s h = Within-string (c ∷ s) (suc (length s)) (omega arith)
  case-suc true_start c s h =
      Within-or_throw _ _ (Leaves-parse_token (codes "true") (c ∷ s) (suc (length s)) (omega arith))
  case-suc false_start c s h =
      Within-or_throw _ _
        (Leaves-parse_token (codes "false") (c ∷ s) (suc (length s)) (omega arith))
  case-suc null_start c s h =
      Within-or_throw _ _ (Leaves-parse_token (codes "null") (c ∷ s) (suc (length s)) (omega arith))
  case-suc number_start c s h = Within-or_throw _ _ (Leaves-parse_json_number_no_ws (c ∷ s))
  case-suc no_start c s h = tt

  -- What stands behind an element or a field: a comma and the loop again, or the end.
  loop-next :
      (end r : Bytes) (n : ℕ) (loop : Bytes → Skipped)
      → length r ≤ n
      → ((s : Bytes) → suc (length s) ≤ n → Within (length s) (loop s))
      → Within n
          (by_token (parse_token (codes ",") r) (λ next. loop next) (or_throw (parse_token end r)))
  unfolding parse_token skip_whitespace parse_token_no_ws by_token
  loop-next end [] n loop h k = Within-or_throw n _ (Leaves-parse_token end [] n (omega arith))
  loop-next end (c ∷ r) n loop h k =
      Within-by_token (n - 1) n _ _ _ (Leaves-parse_token (codes ",") (c ∷ r) (n - 1) (omega arith))
        (λ t l. Within-le _ _ _ (omega arith) (k t (omega arith)))
        (Within-or_throw n _ (Leaves-parse_token end (c ∷ r) n (omega arith)))

  elements-suc :
      (s : Bytes) → 4 * length s + 3 ≤ suc fuel → Within (length s) (skip_elements (suc fuel) s)
  unfolding skip_elements
  elements-suc s h =
      Within-and_skip (length s) (length s) _ _ (e.value s (omega arith))
        (λ r k. loop-next (codes "]") r (length s) _ k (λ t l. e.elements t (omega arith)))

  members-suc :
      (s : Bytes) → 4 * length s + 3 ≤ suc fuel → Within (length s) (skip_members (suc fuel) s)
  unfolding skip_members
  members-suc s h =
      Within-and_skip (length s) (length s) _ _
        (Within-and_skip (length s) (length s) _ _ (Within-skip_name s (length s) (omega arith))
          (λ v k. Within-le _ _ _ k (e.value v (omega arith))))
        (λ r k. loop-next (codes "}") r (length s) _ k (λ t l. e.members t (omega arith)))

enough : (fuel : ℕ) → Enough fuel
enough zero = record {
  value = λ s h. absurd (omega arith);
  start = λ s h. absurd (omega arith);
  case = λ k c s h. absurd (omega arith);
  elements = λ s h. absurd (omega arith);
  members = λ s h. absurd (omega arith);
}
enough (suc fuel) = record {
  value = value-suc fuel (enough fuel);
  start = start-suc fuel (enough fuel);
  case = case-suc fuel (enough fuel);
  elements = elements-suc fuel (enough fuel);
  members = members-suc fuel (enough fuel);
}

no_more-Within : (s : Bytes) → Within 0 (no_more s)
unfolding Within
no_more-Within [] = omega arith
no_more-Within (c ∷ s) = tt

Within-ne : (n : ℕ) (x : Skipped) → Within n x → x ≢ out_of_fuel
unfolding Within
Within-ne n (skipped rest) h = cc
Within-ne n parse_error h = cc
Within-ne n out_of_fuel h = absurd h

-- The calls of `skip_json_value` always come back, for whatever text: the fuel given is enough.
pub validate_json-ne-out_of_fuel : (s : Bytes) → validate_json s ≢ out_of_fuel
unfolding validate_json
validate_json-ne-out_of_fuel s = Within-ne 0 _ (
    Within-and_skip (length s) 0 _ _ ((enough (4 * length s + 2)).value s (omega arith))
      (λ r k. no_more-Within (skip_whitespace r)))
