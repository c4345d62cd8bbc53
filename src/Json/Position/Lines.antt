-- ===== src/Json/Position/Lines.antt =====
-- What line and column the report of an error gives.
use libdynd.Common.{
  ℕ, zero, suc, ◌+◌, ◌-◌, ◌≤◌, ◌<◌, ◌≡◌, refl, sym, ap, ◌∙◌, arith, true, Option, none, some, [],
  ◌∷◌, length, ltb, ◌==◌, by_test,
}
use libdynd.Common.Int.{pos, narrow, int32_half, narrow-int32}
use libdynd.Parse.{Bytes}
use libdynd.Json.Position.{LineColumn, line_round, line_column_loop, get_error_line_column}
use libdynd.Json.Position.Split.{
  lines_before, column_at, ends_line, HasLine, Splits, split_line-Splits,
}

-- What the search gives, the numbers narrowed to `int`: the place of the position, or nothing if the
-- text ends there with the end of a line, or is empty.
abbrev FindsNarrowed : ℕ → ℕ → ℕ → Bytes → Option LineColumn → Type 0
FindsNarrowed line p n s none = (p ≡ n) × (ends_line true s ≡ true)
FindsNarrowed line p n s (some found) =
    (found.line ≡ narrow int32_half (pos (line + lines_before p s)))
    × (found.column ≡ narrow int32_half (pos (column_at 1 p s)))

narrowed : {a b : ℕ} → a ≡ b → narrow int32_half (pos a) ≡ narrow int32_half (pos b)
narrowed e = ap (λ n. narrow int32_half (pos n)) e

-- The place in the lines behind the first is the place in the text.
FindsNarrowed-behind :
    (line p n : ℕ) (s l r : Bytes) (x : Option LineColumn)
    → HasLine s l r
    → n ≡ length s
    → suc (length l) ≤ p
    → FindsNarrowed (line + 1) (p - suc (length l)) (length r) r x
    → FindsNarrowed line p n s x
FindsNarrowed-behind line p n s l r none h e b f =
    (omega (arith, f.0, h.size), h.same_end true ∙ f.1)
FindsNarrowed-behind line p n s l r (some found) h e b f = (
  f.0 ∙ narrowed (omega (arith, h.lines_behind p (p - suc (length l)) (omega arith))),
  f.1 ∙ narrowed (sym (h.columns_behind 1 p (p - suc (length l)) (omega arith))),
)

line_round-FindsNarrowed :
    (loop : Bytes → ℕ → Bytes → ℕ → Option LineColumn) (cur : Bytes) (line : ℕ) (s : Bytes) (p : ℕ)
    (x : Option (Bytes × Bytes))
    → Splits s x
    → p ≤ length s
    → ((d : Bytes) (m : ℕ) (r : Bytes) (q : ℕ)
        → length r < length s
        → q ≤ length r
        → FindsNarrowed m q (length r) r (loop d m r q))
    → FindsNarrowed line p (length s) s (line_round loop cur line s p x)
unfolding line_round
line_round-FindsNarrowed loop cur line s p none h b f =
    (narrowed (omega (arith, h.lines p)), narrowed (omega (arith, h.columns 1 p)))
line_round-FindsNarrowed loop cur line s p (some parts) h b f =
    by_test (FindsNarrowed line p (length s) s) (ltb p (suc (length parts.0)))
      (λ e.
        let short : p ≤ length parts.0 = ground arith in
        (narrowed (omega (arith, h.lines p short)), narrowed (omega (arith, h.columns 1 p short))))
      (λ e.
        let long : suc (length parts.0) ≤ p = ground arith in
        FindsNarrowed-behind line p (length s) s parts.0 parts.1 _ h refl long (
          f parts.0 (line + 1) parts.1 (p - suc (length parts.0)) (omega (arith, h.size))
            (omega (arith, h.size))))

line_column_loop-FindsNarrowed :
    (fuel : ℕ) (cur : Bytes) (line : ℕ) (s : Bytes) (p : ℕ)
    → length s < fuel
    → p ≤ length s
    → FindsNarrowed line p (length s) s (line_column_loop fuel cur line s p)
unfolding line_column_loop
line_column_loop-FindsNarrowed zero cur line s p h b = absurd (omega arith)
line_column_loop-FindsNarrowed (suc fuel) cur line [] p h b =
    (omega arith, unfold ends_line in refl)
line_column_loop-FindsNarrowed (suc fuel) cur line (c ∷ s) p h b =
    line_round-FindsNarrowed (line_column_loop fuel) cur line (c ∷ s) p _
      (split_line-Splits (c ∷ s)) b
      (λ d m r q l k. line_column_loop-FindsNarrowed fuel d m r q (omega arith) k)

-- The same with exact numbers.
abbrev pub Finds : ℕ → ℕ → ℕ → Bytes → Option LineColumn → Type 0
Finds line p n s none = (p ≡ n) × (ends_line true s ≡ true)
Finds line p n s (some found) =
    (found.line ≡ pos (line + lines_before p s)) × (found.column ≡ pos (column_at 1 p s))

lines_before-le : (p : ℕ) (s : Bytes) → lines_before p s ≤ p
unfolding lines_before
lines_before-le zero s = omega arith
lines_before-le (suc p) [] = omega arith
lines_before-le (suc p) (c ∷ s) =
    by_test (λ n. n ≤ suc p) (c == 10) (λ h. omega (arith, lines_before-le p s))
      (λ h. omega (arith, lines_before-le p s))

column_at-le : (k p : ℕ) (s : Bytes) → 0 < k → column_at k p s ≤ k + p
unfolding column_at
column_at-le k zero s h = omega arith
column_at-le k (suc p) [] h = omega arith
column_at-le k (suc p) (c ∷ s) h =
    by_test (λ n. n ≤ k + suc p) (c == 10) (λ e. omega (arith, column_at-le 1 p s (omega arith)))
      (λ e. omega (arith, column_at-le (suc k) p s (omega arith)))

FindsNarrowed-Finds :
    (line p n : ℕ) (s : Bytes) (x : Option LineColumn)
    → line + p < int32_half
    → 1 + p < int32_half
    → FindsNarrowed line p n s x
    → Finds line p n s x
FindsNarrowed-Finds line p n s none h k f = f
FindsNarrowed-Finds line p n s (some found) h k f = (
  f.0
      ∙ narrow-int32 (pos (line + lines_before p s))
          (omega arith, omega (arith, lines_before-le p s)),
  f.1
      ∙ narrow-int32 (pos (column_at 1 p s))
          (omega arith, omega (arith, column_at-le 1 p s (omega arith))),
)

get_error_line_column-FindsNarrowed :
    (s : Bytes) (position : ℕ)
    → position ≤ length s
    → FindsNarrowed 1 position (length s) s (get_error_line_column s position)
unfolding get_error_line_column
get_error_line_column-FindsNarrowed s position b =
    line_column_loop-FindsNarrowed (suc (length s)) [] 1 s position (omega arith) b

-- For a position of a text whose size an `int` holds with one to spare, the line and the column that
-- are reported are one more than the number of lines that end before it and than its distance from
-- the start of its line; nothing is found, and the report throws, only at the end of a text that is
-- empty or ends with the end of a line.
pub get_error_line_column-Finds :
    (s : Bytes) (position : ℕ)
    → length s + 1 < int32_half
    → position ≤ length s
    → Finds 1 position (length s) s (get_error_line_column s position)
get_error_line_column-Finds s position fits b =
    FindsNarrowed-Finds 1 position (length s) s _ (omega arith) (omega arith)
      (get_error_line_column-FindsNarrowed s position b)
