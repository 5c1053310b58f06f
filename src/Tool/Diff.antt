-- ===== src/Tool/Diff.antt =====
-- tool/diff_meta.go: the counts of a line diff. The loop of diffLines walks down the two lists; the
-- counts of the rest are added to those of a step.
use piglet.Prelude.{
  ℕ, ◌+◌, Bool, true, false, Option, none, some, List, [], ◌∷◌, leb, if◌then◌else◌, get_elem?,
}
use piglet.Tool.Runes.{Runes, same}
use piglet.Tool.Pages.{split_lines}

pub record DiffMeta : Type 0 where
  pub added : ℕ
  pub removed : ℕ
  pub files : ℕ
  pub hunks : ℕ

-- `splitLines`
unfoldable pub diff_split_lines : Runes → List Runes
unfolding split_lines
diff_split_lines [] = []
diff_split_lines (c ∷ s) = split_lines (c ∷ s)

abbrev pub Row : Type 0
Row = List ℕ

abbrev pub head_or_zero : Row → ℕ
head_or_zero [] = 0
head_or_zero (n ∷ r) = n

abbrev pub tail : Row → Row
tail [] = []
tail (n ∷ r) = r

-- One round of the outer loop of `lcsTable`, from the row below.
unfoldable pub lcs_row : Runes → List Runes → Row → Row
unfolding same
lcs_row x [] below = 0 ∷ []
lcs_row x (y ∷ b) below =
    let rest = lcs_row x b (tail below) in
    (if same x y
      then head_or_zero (tail below) + 1
      else if leb (head_or_zero rest) (head_or_zero below)
      then head_or_zero below
      else head_or_zero rest)
    ∷ rest

unfoldable pub zeros : List Runes → Row
zeros [] = 0 ∷ []
zeros (y ∷ b) = 0 ∷ zeros b

abbrev pub first_row : List Row → Row
first_row [] = []
first_row (r ∷ t) = r

-- `lcsTable`
unfoldable pub lcs_table : List Runes → List Runes → List Row
unfolding lcs_row zeros
lcs_table [] b = zeros b ∷ []
lcs_table (x ∷ a) b = let t = lcs_table a b in lcs_row x b (first_row t) ∷ t

abbrev or_empty : Option Row → Row
or_empty none = []
or_empty (some r) = r

abbrev or_zero : Option ℕ → ℕ
or_zero none = 0
or_zero (some n) = n

-- `lcs[i][j]`
unfoldable pub cell : List Row → ℕ → ℕ → ℕ
cell t i j = or_zero (get_elem? (or_empty (get_elem? t i)) j)

unfoldable pub add_line : Bool → DiffMeta → DiffMeta
add_line in_hunk m = record m {
  added = m.added + 1;
  hunks = (if in_hunk then m.hunks else m.hunks + 1);
}

unfoldable pub remove_line : Bool → DiffMeta → DiffMeta
remove_line in_hunk m = record m {
  removed = m.removed + 1;
  hunks = (if in_hunk then m.hunks else m.hunks + 1);
}

-- The loop of `diffLines` at `i` and `j`, with the lines from there on.
unfoldable pub diff_from : List Row → Bool → ℕ → ℕ → List Runes → List Runes → DiffMeta
unfolding same cell add_line remove_line
diff_from t in_hunk i j [] [] = record { added = 0; removed = 0; files = 1; hunks = 0 }
diff_from t in_hunk i j [] (y ∷ b) = add_line in_hunk (diff_from t true i (j + 1) [] b)
diff_from t in_hunk i j (x ∷ a) [] = remove_line in_hunk (diff_from t true (i + 1) j a [])
diff_from t in_hunk i j (x ∷ a) (y ∷ b) =
    let equal = diff_from t false (i + 1) (j + 1) a b in
    let more = add_line in_hunk (diff_from t true i (j + 1) (x ∷ a) b) in
    let less = remove_line in_hunk (diff_from t true (i + 1) j a (y ∷ b)) in
    if same x y then equal else if leb (cell t (i + 1) j) (cell t i (j + 1)) then more else less

-- `diffLines`
unfoldable pub diff_lines : List Runes → List Runes → DiffMeta
unfolding lcs_table diff_from
diff_lines a b = diff_from (lcs_table a b) false 0 0 a b

-- `computeDiffMeta`
unfoldable pub compute_diff_meta : Runes → Runes → DiffMeta
unfolding diff_split_lines diff_lines
compute_diff_meta before after = diff_lines (diff_split_lines before) (diff_split_lines after)
