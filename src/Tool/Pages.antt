-- ===== src/Tool/Pages.antt =====
-- tool/read.go and register.go: the lines of a file that read shows, with an offset and a limit. An
-- integer argument below 1 is 0.
use piglet.Prelude.{
  ℕ, zero, suc, ◌+◌, ◌-◌, Option, none, some, List, [], ◌∷◌, ◌++◌, ltb, leb, ◌==◌, if◌then◌else◌,
  length, take, drop,
}
use piglet.Tool.Runes.{Runes}

abbrev pub add_first : ℕ → List Runes → List Runes
add_first c [] = (c ∷ []) ∷ []
add_first c (l ∷ ls) = (c ∷ l) ∷ ls

-- `strings.Split(s, "\n")`
unfoldable pub split_lines : Runes → List Runes
split_lines [] = [] ∷ []
split_lines (c ∷ s) = let rest = split_lines s in if c == 10 then [] ∷ rest else add_first c rest

-- `intArg` with a fallback, and a value below 1 replaced.
unfoldable pub at_least_one : Option ℕ → ℕ → ℕ
at_least_one none fallback = fallback
at_least_one (some v) fallback = if ltb v 1 then fallback else v

-- `readLimit`
unfoldable pub read_limit : ℕ → ℕ
read_limit configured = if ltb 0 configured then configured else 2000

-- The numbered lines from `i` on.
unfoldable pub number : ℕ → List Runes → List (ℕ × Runes)
number i [] = []
number i (l ∷ ls) = (i + 1, l) ∷ number (i + 1) ls

-- What read returns of a text: the message that the offset is past the end, or lines and how many more there are.
pub data Page : Type 0 where
  past_end : (lines offset : ℕ) → Page
  page : List (ℕ × Runes) → (more : ℕ) → Page

-- The page from an offset on.
unfoldable pub page_at : List Runes → ℕ → ℕ → Page
unfolding number
page_at lines offset limit =
    let start = offset - 1 in
    let end = (if ltb (length lines) (start + limit) then length lines else start + limit) in
    if leb (length lines) start
    then past_end (length lines) offset
    else page (number start (take (end - start) (drop start lines))) (length lines - end)

-- The end of read.
unfoldable pub show_page : ℕ → Option ℕ → Option ℕ → Runes → Page
unfolding split_lines at_least_one read_limit page_at
show_page configured offset_arg limit_arg content =
    page_at (split_lines content) (at_least_one offset_arg 1)
      (at_least_one limit_arg (read_limit configured))

abbrev pub go_on : Page → Option (List (ℕ × Runes)) → Option (List (ℕ × Runes))
go_on (past_end lines offset) rest = none
go_on (page shown zero) rest = some shown
go_on (page shown (suc more)) none = none
go_on (page shown (suc more)) (some rest) = some (shown ++ rest)

-- A reader that asks for the next page as long as there are more lines.
unfoldable pub read_on : ℕ → ℕ → ℕ → ℕ → Runes → Option (List (ℕ × Runes))
read_on zero configured offset limit content = none
read_on (suc fuel) configured offset limit content =
    go_on (show_page configured (some offset) (some limit) content)
      (read_on fuel configured (offset + limit) limit content)

-- `strings.Join(lines, "\n")`
unfoldable pub join_lines : List Runes → Runes
join_lines [] = []
join_lines (l ∷ []) = l
join_lines (l ∷ m ∷ ls) = l ++ (10 ∷ join_lines (m ∷ ls))
