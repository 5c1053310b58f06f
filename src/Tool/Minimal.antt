-- ===== src/Tool/Minimal.antt =====
-- tool/diff_meta.go: the diff keeps a longest common subsequence of the lines.
use piglet.Prelude.{
  ℕ, zero, suc, ◌+◌, ◌≤◌, ◌≡◌, refl, ap, inl, inr, Bool, true, false, some, List, [], ◌∷◌, arith,
  leb, if◌then◌else◌, Bool-cases, length, drop, get_elem?,
}
use piglet.Tool.Runes.{Runes, same}
use piglet.Tool.Subsequence.{Common, lcs, lcs-nil, nil-lcs, Common-le-lcs, lcs-Common}
use piglet.Tool.Diff.{
  DiffMeta, Row, head_or_zero, lcs_row, zeros, first_row, lcs_table, cell, add_line, remove_line,
  diff_from, diff_split_lines, compute_diff_meta,
}

-- The row of a suffix.
lcs_all : List Runes → List Runes → Row
lcs_all a [] = lcs a [] ∷ []
lcs_all a (y ∷ b) = lcs a (y ∷ b) ∷ lcs_all a b

head-lcs_all : (a b : List Runes) → head_or_zero (lcs_all a b) ≡ lcs a b
unfolding lcs_all
head-lcs_all a [] = refl
head-lcs_all a (y ∷ b) = refl

lcs_row-lcs_all : (x : Runes) (a b : List Runes) → lcs_row x b (lcs_all a b) ≡ lcs_all (x ∷ a) b
unfolding lcs_row lcs_all lcs
lcs_row-lcs_all x a [] = refl
lcs_row-lcs_all x a (y ∷ b) =
    rw (lcs_row-lcs_all x a b, head-lcs_all a b, head-lcs_all (x ∷ a) b) (ground arith)

zeros-lcs_all : (b : List Runes) → zeros b ≡ lcs_all [] b
unfolding zeros lcs_all lcs
zeros-lcs_all [] = refl
zeros-lcs_all (y ∷ b) = ap (λ r. 0 ∷ r) (zeros-lcs_all b)

first_row-lcs_table : (a b : List Runes) → first_row (lcs_table a b) ≡ lcs_all a b
unfolding lcs_table
first_row-lcs_table [] b = zeros-lcs_all b
first_row-lcs_table (x ∷ a) b = rw (first_row-lcs_table a b) (lcs_row-lcs_all x a b)

row-lcs_table :
    (a b : List Runes) (i : ℕ)
    → i ≤ length a
    → get_elem? (lcs_table a b) i ≡ some (lcs_all (drop i a) b)
unfolding lcs_table
row-lcs_table [] b zero h = ap some (zeros-lcs_all b)
row-lcs_table [] b (suc i) h = absurd (omega arith)
row-lcs_table (x ∷ a) b zero h = ap some (rw (first_row-lcs_table a b) (lcs_row-lcs_all x a b))
row-lcs_table (x ∷ a) b (suc i) h = row-lcs_table a b i (omega arith)

entry-lcs_all :
    (a b : List Runes) (j : ℕ) → j ≤ length b → get_elem? (lcs_all a b) j ≡ some (lcs a (drop j b))
unfolding lcs_all
entry-lcs_all a [] zero h = refl
entry-lcs_all a [] (suc j) h = absurd (omega arith)
entry-lcs_all a (y ∷ b) zero h = refl
entry-lcs_all a (y ∷ b) (suc j) h = entry-lcs_all a b j (omega arith)

-- The table read at suffixes.
abbrev Reads : List Row → ℕ → ℕ → List Runes → List Runes → Type 0
Reads t i j a b =
    (k l : ℕ) → k ≤ length a → l ≤ length b → cell t (i + k) (j + l) ≡ lcs (drop k a) (drop l b)

lcs_table-Reads : (a b : List Runes) → Reads (lcs_table a b) 0 0 a b
unfolding cell
lcs_table-Reads a b k l hk hl =
    let e : 0 + k ≡ k = omega arith in
    let f : 0 + l ≡ l = omega arith in
    rw (e, f, row-lcs_table a b k hk, entry-lcs_all (drop k a) b l hl)

Reads-down :
    (t : List Row) (i j : ℕ) (x : Runes) (a b : List Runes)
    → Reads t i j (x ∷ a) b
    → Reads t (i + 1) j a b
Reads-down t i j x a b r k l hk hl =
    let e : i + 1 + k ≡ i + suc k = omega arith in rw e (r (suc k) l (omega arith) hl)

Reads-across :
    (t : List Row) (i j : ℕ) (y : Runes) (a b : List Runes)
    → Reads t i j a (y ∷ b)
    → Reads t i (j + 1) a b
Reads-across t i j y a b r k l hk hl =
    let e : j + 1 + l ≡ j + suc l = omega arith in rw e (r k (suc l) hk (omega arith))

Reads-here : (t : List Row) (i j : ℕ) (a b : List Runes) → Reads t i j a b → cell t i j ≡ lcs a b
Reads-here t i j a b r =
    let e : i + 0 ≡ i = omega arith in
    let f : j + 0 ≡ j = omega arith in rw (e, f) at (r 0 0 (omega arith) (omega arith))

-- What the counts of a diff say.
pub record Counts (m : DiffMeta) (in_hunk : Bool) (n : ℕ) (a b : List Runes) : Type 0 where
  pub added_lem : m.added + n ≡ length b
  pub removed_lem : m.removed + n ≡ length a
  pub hunks_le : m.hunks ≤ n + (if in_hunk then 0 else 1)
  pub one_file : m.files ≡ 1

keep_line-Counts :
    (m : DiffMeta) (in_hunk : Bool) (n : ℕ) (x y : Runes) (a b : List Runes)
    → Counts m false n a b
    → Counts m in_hunk (suc n) (x ∷ a) (y ∷ b)
keep_line-Counts m in_hunk n x y a b c = ground arith

add_line-Counts :
    (m : DiffMeta) (in_hunk : Bool) (n : ℕ) (y : Runes) (a b : List Runes)
    → Counts m true n a b
    → Counts (add_line in_hunk m) in_hunk n a (y ∷ b)
unfolding add_line
add_line-Counts m in_hunk n y a b c = ground arith

remove_line-Counts :
    (m : DiffMeta) (in_hunk : Bool) (n : ℕ) (x : Runes) (a b : List Runes)
    → Counts m true n a b
    → Counts (remove_line in_hunk m) in_hunk n (x ∷ a) b
unfolding remove_line
remove_line-Counts m in_hunk n x a b c = ground arith

greater_right : (p q : ℕ) → leb p q ≡ true → (if leb q p then p else q) ≡ q
greater_right p q h = ground arith

greater_left : (p q : ℕ) → leb p q ≡ false → (if leb q p then p else q) ≡ p
greater_left p q h = ground arith

diff_from-Counts :
    (t : List Row) (in_hunk : Bool) (i j : ℕ) (a b : List Runes)
    → Reads t i j a b
    → Counts (diff_from t in_hunk i j a b) in_hunk (lcs a b) a b
unfolding diff_from lcs
diff_from-Counts t in_hunk i j [] [] r = ground arith
diff_from-Counts t in_hunk i j [] (y ∷ b) r = rw (nil-lcs b) at (
    add_line-Counts (diff_from t true i (j + 1) [] b) in_hunk (lcs [] b) y [] b
      (diff_from-Counts t true i (j + 1) [] b (Reads-across t i j y [] b r)))
diff_from-Counts t in_hunk i j (x ∷ a) [] r = rw (lcs-nil a) at (
    remove_line-Counts (diff_from t true (i + 1) j a []) in_hunk (lcs a []) x a []
      (diff_from-Counts t true (i + 1) j a [] (Reads-down t i j x a [] r)))
diff_from-Counts t in_hunk i j (x ∷ a) (y ∷ b) r =
    let down = Reads-down t i j x a (y ∷ b) r in
    let across = Reads-across t i j y (x ∷ a) b r in
    let c = diff_from-Counts t false (i + 1) (j + 1) a b (Reads-across t (i + 1) j y a b down) in
    let more = diff_from-Counts t true i (j + 1) (x ∷ a) b across in
    let less = diff_from-Counts t true (i + 1) j a (y ∷ b) down in
    let below = Reads-here t (i + 1) j a (y ∷ b) down in
    let beside = Reads-here t i (j + 1) (x ∷ a) b across in
    elim (Bool-cases (same x y)) [
      | inl equal ↦ rw equal (keep_line-Counts _ in_hunk (lcs a b) x y a b c)
      | inr differs ↦
          rw (differs, below, beside)
            (elim (Bool-cases (leb (lcs a (y ∷ b)) (lcs (x ∷ a) b))) [
              | inl add ↦
                  rw (add, greater_right (lcs a (y ∷ b)) (lcs (x ∷ a) b) add)
                    (add_line-Counts _ in_hunk (lcs (x ∷ a) b) y (x ∷ a) b more)
              | inr remove ↦
                  rw (remove, greater_left (lcs a (y ∷ b)) (lcs (x ∷ a) b) remove)
                    (remove_line-Counts _ in_hunk (lcs a (y ∷ b)) x a (y ∷ b) less)
            ])
    ]

-- What edit and write report of a change of lines: the lines added and removed are all but a longest common
-- subsequence of the lines before and after, so no diff has fewer; one file; and at most one hunk
-- more than there are lines kept.
pub compute_diff_meta-Counts :
    (before after : Runes)
    → (n : ℕ) × Common (diff_split_lines before) (diff_split_lines after) n
      × ((k : ℕ) → Common (diff_split_lines before) (diff_split_lines after) k → k ≤ n)
      × Counts
          (compute_diff_meta before after)
          false
          n
          (diff_split_lines before)
          (diff_split_lines after)
unfolding compute_diff_meta
compute_diff_meta-Counts before after =
    let a = diff_split_lines before in
    let b = diff_split_lines after in
    (
      lcs a b,
      lcs-Common a b,
      λ k c. Common-le-lcs c,
      diff_from-Counts (lcs_table a b) false 0 0 a b (lcs_table-Reads a b),
    )
