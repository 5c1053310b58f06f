-- ===== src/Tool/Paging.antt =====
-- tool/read.go: a file that is read page by page.
use piglet.Prelude.{
  ℕ, zero, suc, ◌+◌, ◌-◌, ◌≤◌, ◌<◌, ◌≡◌, ◌≢◌, refl, sym, ap, ◌∙◌, inl, inr, some, List, [], ◌∷◌,
  ◌++◌, map, arith, ltb, ltb→lt, ltb→le, leb_of_lt, ◌==◌, if◌then◌else◌, Bool-cases, length, take,
  drop, length-drop, take_all,
}
use piglet.Tool.Runes.{Runes}
use piglet.Tool.Pages.{
  split_lines, at_least_one, read_limit, number, page, page_at, show_page, read_on, join_lines,
  add_first,
}

drop_nil {ℓ} : {A : Type ℓ} (k : ℕ) → drop {A = A} k [] ≡ []
drop_nil zero = refl
drop_nil (suc k) = refl

drop_add {ℓ} : {A : Type ℓ} (i k : ℕ) (xs : List A) → drop k (drop i xs) ≡ drop (i + k) xs
drop_add zero k xs = ap (λ n. drop n xs) (omega arith)
drop_add (suc i) k [] = drop_nil k ∙ sym (drop_nil (suc i + k))
drop_add (suc i) k (x ∷ xs) =
    drop_add i k xs ∙ ap (λ n. drop n (x ∷ xs)) (let e : suc (i + k) ≡ suc i + k = omega arith in e)

join-add_first :
    (c : ℕ) (ls : List Runes) → ls ≢ [] → join_lines (add_first c ls) ≡ c ∷ join_lines ls
unfolding join_lines
join-add_first c [] h = absurd (h refl)
join-add_first c (l ∷ []) h = refl
join-add_first c (l ∷ m ∷ ls) h = refl

add_first-ne-nil : (c : ℕ) (ls : List Runes) → add_first c ls ≢ []
add_first-ne-nil c [] h = cc
add_first-ne-nil c (l ∷ ls) h = cc

pub split_lines-ne-nil : (s : Runes) → split_lines s ≢ []
unfolding split_lines
split_lines-ne-nil [] h = cc
split_lines-ne-nil (c ∷ s) h = elim (Bool-cases (c == 10)) [
  | inl newline ↦ let h' = rw newline at h in cc
  | inr other ↦ add_first-ne-nil c (split_lines s) (rw other at h)
]

join-nil_line : (ls : List Runes) → ls ≢ [] → join_lines ([] ∷ ls) ≡ 10 ∷ join_lines ls
unfolding join_lines
join-nil_line [] h = absurd (h refl)
join-nil_line (l ∷ ls) h = refl

pub join-split_lines : (s : Runes) → join_lines (split_lines s) ≡ s
unfolding join_lines split_lines
join-split_lines [] = refl
join-split_lines (c ∷ s) = elim (Bool-cases (c == 10)) [
  | inl newline ↦
      rw newline
        (join-nil_line (split_lines s) (split_lines-ne-nil s) ∙ ground (arith, join-split_lines s))
  | inr other ↦ rw other (
      join-add_first c (split_lines s) (split_lines-ne-nil s)
      ∙ ap (λ t. c ∷ t) (join-split_lines s))
]

number-split :
    (i k : ℕ) (ls : List Runes)
    → k ≤ length ls
    → number i (take k ls) ++ number (i + k) (drop k ls) ≡ number i ls
unfolding number
number-split i zero ls h = ap (λ n. number n ls) (omega arith)
number-split i (suc k) [] h = absurd (omega arith)
number-split i (suc k) (l ∷ ls) h =
    ap (λ t. (i + 1, l) ∷ t)
      (ap (λ n. number (i + 1) (take k ls) ++ number n (drop k ls)) (omega arith)
        ∙ number-split (i + 1) k ls (omega arith))

map-number : (i : ℕ) (ls : List Runes) → map (λ p. p.1) (number i ls) ≡ ls
unfolding number
map-number i [] = refl
map-number i (l ∷ ls) = ap (λ t. l ∷ t) (map-number (i + 1) ls)

at_least_one-some : (v fallback : ℕ) → 1 ≤ v → at_least_one (some v) fallback ≡ v
unfolding at_least_one
at_least_one-some v fallback h = ground arith

show_page-page_at :
    (configured start limit : ℕ) (content : Runes)
    → 1 ≤ limit
    → show_page configured (some (start + 1)) (some limit) content
      ≡ page_at (split_lines content) (start + 1) limit
unfolding show_page
show_page-page_at configured start limit content h = rw (
  at_least_one-some (start + 1) 1 (omega arith),
  at_least_one-some limit (read_limit configured) h,
)

-- A page within the text, by whether it is the last.
page_at-last :
    (start limit : ℕ) (lines : List Runes)
    → start < length lines
    → length lines ≤ start + limit
    → page_at lines (start + 1) limit ≡ page (number start (drop start lines)) 0
unfolding page_at
page_at-last start limit lines within last =
    let minus : start + 1 - 1 ≡ start = omega arith in
    let full : (if ltb (length lines) (start + limit) then length lines else start + limit)
        ≡ length lines =
      ground arith in
    let cut : length lines - length lines ≡ 0 = omega arith in
    rw (minus, leb_of_lt (length lines) start within, full, cut)
      (ap (λ t. page (number start t) 0)
        (take_all (length lines - start) (drop start lines)
          (omega (arith, length-drop start lines))))

page_at-more :
    (start limit : ℕ) (lines : List Runes)
    → 1 ≤ limit
    → start + limit < length lines
    → page_at lines (start + 1) limit
      ≡ page
          (number start (take limit (drop start lines)))
          (suc (length lines - (start + limit) - 1))
unfolding page_at
page_at-more start limit lines h more =
    let minus : start + 1 - 1 ≡ start = omega arith in
    let full : (if ltb (length lines) (start + limit) then length lines else start + limit)
        ≡ start + limit =
      ground arith in
    let cut : start + limit - start ≡ limit = omega arith in
    let left : length lines - (start + limit) ≡ suc (length lines - (start + limit) - 1) =
      omega arith in
    rw (minus, leb_of_lt (length lines) start (omega arith), full, cut)
      (ap (page (number start (take limit (drop start lines)))) left)

read_on-rest :
    (fuel configured start limit : ℕ) (content : Runes)
    → 1 ≤ limit
    → start < length (split_lines content)
    → length (split_lines content) ≤ fuel + start
    → read_on fuel configured (start + 1) limit content
      ≡ some (number start (drop start (split_lines content)))
unfolding read_on
read_on-rest zero configured start limit content h within enough = absurd (omega arith)
read_on-rest (suc fuel) configured start limit content h within enough =
    let lines = split_lines content in
    elim (Bool-cases (ltb (start + limit) (length lines))) [
      | inl more ↦
          let more' = ltb→lt (start + limit) (length lines) more in
          rw
            (
              show_page-page_at configured start limit content h,
              page_at-more start limit lines h more',
              let e : start + 1 + limit ≡ (start + limit) + 1 = omega arith in e,
              read_on-rest fuel configured (start + limit) limit content h more' (omega arith),
            )
            (ap some (
              ap (λ t. number start (take limit (drop start lines)) ++ number (start + limit) t)
                (sym (drop_add start limit lines))
              ∙ number-split start limit (drop start lines)
                  (omega (arith, length-drop start lines))))
      | inr last ↦ rw (
        show_page-page_at configured start limit content h,
        page_at-last start limit lines within (ltb→le (start + limit) (length lines) last),
      )
    ]

length_pos : (ls : List Runes) → ls ≢ [] → 1 ≤ length ls
length_pos [] h = absurd (h refl)
length_pos (l ∷ ls) h = omega arith

length-split_lines : (s : Runes) → 1 ≤ length (split_lines s)
length-split_lines s = length_pos (split_lines s) (split_lines-ne-nil s)

-- A reader that follows the hint of read page by page, from the first line and with any limit from 1 on, comes to
-- the end in as many pages as the file has lines at most; the lines that it was shown have the numbers from 1 on,
-- and joined they are the text of the file.
pub read_on-content :
    (configured limit : ℕ) (content : Runes)
    → 1 ≤ limit
    → (shown : List (ℕ × Runes)) × (read_on
          (length (split_lines content))
          configured
          1
          limit
          content
        ≡ some shown)
      × (shown ≡ number 0 (split_lines content))
      × (join_lines (map (λ p. p.1) shown) ≡ content)
read_on-content configured limit content h =
    let lines = split_lines content in
    (
      number 0 lines,
      read_on-rest (length lines) configured 0 limit content h (length-split_lines content)
          (omega arith),
      refl,
      ap join_lines (map-number 0 lines) ∙ join-split_lines content,
    )
