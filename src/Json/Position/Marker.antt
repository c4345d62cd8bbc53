-- ===== src/Json/Position/Marker.antt =====
-- Where the mark of an error's report stands.
use libdynd.Common.{
  ℕ, zero, suc, ◌+◌, ◌-◌, ◌≤◌, ◌<◌, ◌≡◌, refl, ◌∙◌, ap, arith, Bool, true, false, [], ◌∷◌, ◌++◌,
  length, get_elem?, take, drop, length-drop, ltb, if◌then◌else◌, codes,
}
use libdynd.Common.Int.{pos, pos_part, ◌-ℤ◌, ltb_ℤ, narrow, int32_half}
use libdynd.Parse.{Bytes}
use libdynd.Json.Position.{shown_line, marker_blanks}

get_elem?-take :
    (n i : ℕ) (s r : Bytes) → i < n → i < length s → get_elem? (take n s ++ r) i ≡ get_elem? s i
get_elem?-take zero i s r h b = absurd (omega arith)
get_elem?-take (suc n) i [] r h b = absurd (omega arith)
get_elem?-take (suc n) zero (c ∷ s) r h b = refl
get_elem?-take (suc n) (suc i) (c ∷ s) r h b = get_elem?-take n i s r (omega arith) (omega arith)

get_elem?-drop : (n i : ℕ) (s : Bytes) (k : ℕ) → k ≡ n + i → get_elem? (drop n s) i ≡ get_elem? s k
get_elem?-drop zero i s k e = let same : i ≡ k = omega arith in ap (get_elem? s) same
get_elem?-drop (suc n) i [] k e = refl
get_elem?-drop (suc n) i (c ∷ s) zero e = absurd (omega arith)
get_elem?-drop (suc n) i (c ∷ s) (suc k) e = get_elem?-drop n i s k (omega arith)

-- The three ways to show a line.
mark_of :
    (short left : Bool) (line : Bytes) (column : ℕ)
    → (short ≡ false → 200 ≤ length line)
    → (left ≡ true → column < 80)
    → (left ≡ false → 80 ≤ column)
    → 0 < column
    → column ≤ length line
    → get_elem?
        (if short
          then line
          else if left
          then take 80 line ++ codes " ..."
          else codes " ... " ++ (take 80 (drop (column - 60 - 1) line) ++ codes " ..."))
        (if short then column - 1 else if left then column - 1 else 65)
      ≡ get_elem? line (column - 1)
mark_of true left line column h k l low high = refl
mark_of false true line column h k l low high =
    get_elem?-take 80 (column - 1) line (codes " ...") (omega (arith, k refl)) (omega arith)
mark_of false false line column h k l low high =
    get_elem?-take 80 60 (drop (column - 60 - 1) line) (codes " ...") (omega arith)
      (omega (arith, length-drop (column - 60 - 1) line, l refl))
    ∙ get_elem?-drop (column - 60 - 1) 60 line (column - 1) (omega (arith, l refl))

before_column :
    (column : ℕ)
    → 0 < column
    → column < int32_half
    → pos_part (narrow int32_half (pos column -ℤ pos 1)) ≡ column - 1
unfolding narrow ◌-ℤ◌
before_column column low fits = ground arith

-- The mark stands below the character at the column, in what is shown of its line.
pub shown_line-marker_blanks :
    (line_cur : Bytes) (column : ℕ)
    → 0 < column
    → column ≤ length line_cur
    → column < int32_half
    → get_elem? (shown_line line_cur (pos column)) (marker_blanks line_cur (pos column))
      ≡ get_elem? line_cur (column - 1)
unfolding shown_line marker_blanks
shown_line-marker_blanks line_cur column low high fits = rw (before_column column low fits) (
    mark_of (ltb (length line_cur) 200) (ltb_ℤ (pos column) (pos 80)) line_cur column
      (λ h. ground arith) (λ h. ground arith) (λ h. ground arith) low high)
