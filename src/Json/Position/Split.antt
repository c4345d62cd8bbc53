-- ===== src/Json/Position/Split.antt =====
-- The first line of a text, and the places in it and behind it.
use libdynd.Common.{
  ℕ, zero, suc, ◌+◌, ◌≤◌, ◌≡◌, refl, ap, arith, Bool, true, false, Option, none, some, [], ◌∷◌,
  length, ◌==◌, if◌then◌else◌, by_test,
}
use libdynd.Parse.{Bytes}
use libdynd.Json.Position.{pushed, split_line}

-- How many lines end before a position, and the column of it, counted from `k`.
unfoldable pub lines_before : ℕ → Bytes → ℕ
lines_before zero s = 0
lines_before (suc p) [] = 0
lines_before (suc p) (c ∷ s) = if c == 10 then suc (lines_before p s) else lines_before p s

unfoldable pub column_at : ℕ → ℕ → Bytes → ℕ
column_at k zero s = k
column_at k (suc p) [] = k + suc p
column_at k (suc p) (c ∷ s) = if c == 10 then column_at 1 p s else column_at (suc k) p s

-- Whether a text ends with the end of a line, or is empty where `b` holds.
unfoldable pub ends_line : Bool → Bytes → Bool
ends_line b [] = b
ends_line b (c ∷ s) = ends_line (c == 10) s

-- A text with no end of a line in it.
pub record IsLine (s : Bytes) : Type 0 where
  pub lines : (p : ℕ) → lines_before p s ≡ 0
  pub columns : (k p : ℕ) → column_at k p s ≡ k + p
  pub open_end : ends_line false s ≡ false

-- A text whose first line is `l`, with `r` behind its end.
pub record HasLine (s l r : Bytes) : Type 0 where
  pub lines : (p : ℕ) → p ≤ length l → lines_before p s ≡ 0
  pub columns : (k p : ℕ) → p ≤ length l → column_at k p s ≡ k + p
  pub lines_behind : (q p : ℕ) → q ≡ suc (length l) + p → lines_before q s ≡ suc (lines_before p r)
  pub columns_behind : (k q p : ℕ) → q ≡ suc (length l) + p → column_at k q s ≡ column_at 1 p r
  pub same_end : (b : Bool) → ends_line b s ≡ ends_line true r
  pub size : length s ≡ suc (length l) + length r

abbrev pub Splits : Bytes → Option (Bytes × Bytes) → Type 0
Splits s none = IsLine s
Splits s (some parts) = HasLine s parts.0 parts.1

module _ (c : ℕ) (s : Bytes) (h : (c == 10) ≡ false) where
  lines-cons :
      (p n : ℕ) → p ≤ suc n → ((q : ℕ) → q ≤ n → lines_before q s ≡ 0) → lines_before p (c ∷ s) ≡ 0
  unfolding lines_before
  lines-cons zero n b l = refl
  lines-cons (suc q) n b l = rw h (l q (omega arith))

  columns-cons :
      (k p n : ℕ)
      → p ≤ suc n
      → ((j q : ℕ) → q ≤ n → column_at j q s ≡ j + q)
      → column_at k p (c ∷ s) ≡ k + p
  unfolding column_at
  columns-cons k zero n b l = omega arith
  columns-cons k (suc q) n b l = rw h (omega (arith, l (suc k) q (omega arith)))

  lines_behind-cons :
      (l r : Bytes) (q p : ℕ)
      → q ≡ suc (suc (length l)) + p
      → ((t : ℕ) → t ≡ suc (length l) + p → lines_before t s ≡ suc (lines_before p r))
      → lines_before q (c ∷ s) ≡ suc (lines_before p r)
  unfolding lines_before
  lines_behind-cons l r zero p e f = absurd (omega arith)
  lines_behind-cons l r (suc t) p e f = rw h (f t (omega arith))

  columns_behind-cons :
      (l r : Bytes) (k q p : ℕ)
      → q ≡ suc (suc (length l)) + p
      → ((j t : ℕ) → t ≡ suc (length l) + p → column_at j t s ≡ column_at 1 p r)
      → column_at k q (c ∷ s) ≡ column_at 1 p r
  unfolding column_at
  columns_behind-cons l r k zero p e f = absurd (omega arith)
  columns_behind-cons l r k (suc t) p e f = rw h (f (suc k) t (omega arith))

Splits-pushed :
    (c : ℕ) (s : Bytes) (x : Option (Bytes × Bytes))
    → (c == 10) ≡ false
    → Splits s x
    → Splits (c ∷ s) (pushed c x)
unfolding ends_line
Splits-pushed c s none h l = record {
  lines = λ p. lines-cons c s h p p (omega arith) (λ q b. l.lines q);
  columns = λ k p. columns-cons c s h k p p (omega arith) (λ j q b. l.columns j q);
  open_end = rw h l.open_end;
}
Splits-pushed c s (some parts) h l = record {
  lines = λ p b. lines-cons c s h p (length parts.0) b l.lines;
  columns = λ k p b. columns-cons c s h k p (length parts.0) b l.columns;
  lines_behind = λ q p e. lines_behind-cons c s h parts.0 parts.1 q p e (λ t. l.lines_behind t p);
  columns_behind =
      λ k q p e. columns_behind-cons c s h parts.0 parts.1 k q p e (λ j t. l.columns_behind j t p);
  same_end = λ b. rw h (l.same_end false);
  size = omega (arith, l.size);
}

module _ (c : ℕ) (s : Bytes) (h : (c == 10) ≡ true) where
  lines-newline : (p : ℕ) → p ≤ 0 → lines_before p (c ∷ s) ≡ 0
  unfolding lines_before
  lines-newline zero b = refl
  lines-newline (suc p) b = absurd (omega arith)

  columns-newline : (k p : ℕ) → p ≤ 0 → column_at k p (c ∷ s) ≡ k + p
  unfolding column_at
  columns-newline k zero b = omega arith
  columns-newline k (suc p) b = absurd (omega arith)

  lines_behind-newline : (q p : ℕ) → q ≡ suc 0 + p → lines_before q (c ∷ s) ≡ suc (lines_before p s)
  unfolding lines_before
  lines_behind-newline zero p e = absurd (omega arith)
  lines_behind-newline (suc t) p e = rw h (ap (λ n. suc (lines_before n s)) (omega arith))

  columns_behind-newline : (k q p : ℕ) → q ≡ suc 0 + p → column_at k q (c ∷ s) ≡ column_at 1 p s
  unfolding column_at
  columns_behind-newline k zero p e = absurd (omega arith)
  columns_behind-newline k (suc t) p e = rw h (ap (λ n. column_at 1 n s) (omega arith))

  HasLine-newline : HasLine (c ∷ s) [] s
  unfolding ends_line
  HasLine-newline = record {
    lines = lines-newline;
    columns = columns-newline;
    lines_behind = lines_behind-newline;
    columns_behind = columns_behind-newline;
    same_end = λ b. rw h refl;
    size = omega arith;
  }

lines_before-nil : (p : ℕ) → lines_before p [] ≡ 0
unfolding lines_before
lines_before-nil zero = refl
lines_before-nil (suc p) = refl

column_at-nil : (k p : ℕ) → column_at k p [] ≡ k + p
unfolding column_at
column_at-nil k zero = omega arith
column_at-nil k (suc p) = refl

pub split_line-Splits : (s : Bytes) → Splits s (split_line s)
unfolding split_line
split_line-Splits [] = record {
  lines = lines_before-nil;
  columns = column_at-nil;
  open_end = unfold ends_line in refl;
}
split_line-Splits (c ∷ s) =
    by_test (Splits (c ∷ s)) (c == 10) (λ h. HasLine-newline c s h)
      (λ h. Splits-pushed c s (split_line s) h (split_line-Splits s))
