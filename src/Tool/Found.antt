-- ===== src/Tool/Found.antt =====
-- tool/quotes.go: what the search finds, and the quotes of the replacement.
use piglet.Prelude.{
  ℕ, zero, suc, ◌+◌, ◌<◌, ◌≡◌, ◌≢◌, refl, ap, ◌∙◌, subst, inl, inr, not, ◌&&◌, Option, none, some,
  [], ◌∷◌, ◌++◌, map, arith, ltb, ltb→lt, ◌==◌, Bool-cases, length, take, drop, take-append-drop,
}
use piglet.Tool.Runes.{Runes, same, index, count, index-append, index-take, count-index}
use piglet.Tool.Quotes.{
  straight, normalize_straight, find_normalized, find_with_quote_normalization, Tables, curl,
  curl_all, apply_curly_quotes,
}

straight-take : (k : ℕ) (s : Runes) → map straight (take k s) ≡ take k (map straight s)
straight-take zero s = refl
straight-take (suc k) [] = refl
straight-take (suc k) (c ∷ s) = ap (λ t. straight c ∷ t) (straight-take k s)

straight-drop : (k : ℕ) (s : Runes) → map straight (drop k s) ≡ drop k (map straight s)
straight-drop zero s = refl
straight-drop (suc k) [] = refl
straight-drop (suc k) (c ∷ s) = straight-drop k s

length-normalize_straight : (s : Runes) → length (normalize_straight s) ≡ length s
unfolding normalize_straight
length-normalize_straight [] = refl
length-normalize_straight (c ∷ s) = ap suc (length-normalize_straight s)

normalized-slice :
    (content search : Runes) (i : ℕ)
    → index (normalize_straight content) (normalize_straight search) ≡ some i
    → normalize_straight (take (length (normalize_straight search)) (drop i content))
      ≡ normalize_straight search
unfolding normalize_straight
normalized-slice content search i h =
    straight-take (length (map straight search)) (drop i content)
    ∙ (ap (take (length (map straight search))) (straight-drop i content)
        ∙ index-take (map straight content) (map straight search) i h)

-- Any slice of a text can be found in it.
slice-index : (s : Runes) (i k : ℕ) → (j : ℕ) × (index s (take k (drop i s)) ≡ some j)
slice-index s i k =
    let whole : take i s ++ (take k (drop i s) ++ drop k (drop i s)) ≡ s =
      ap (λ t. take i s ++ t) (take-append-drop k (drop i s)) ∙ take-append-drop i s in
    subst (λ t. (j : ℕ) × (index t (take k (drop i s)) ≡ some j)) whole
      (index-append (take i s) (take k (drop i s)) (drop k (drop i s)))

-- Where a text is found, and the text that was looked for.
abbrev pub FoundAt : Runes → Runes → Runes → Type 0
FoundAt content search actual =
    ((i : ℕ) × (index content actual ≡ some i))
    × (normalize_straight actual ≡ normalize_straight search)

find_normalized-FoundAt :
    (content search : Runes) (place : Option ℕ) (actual : Runes) (n : ℕ)
    → index (normalize_straight content) (normalize_straight search) ≡ place
    → find_normalized content (normalize_straight search) place ≡ (actual, n)
    → 0 < n
    → FoundAt content search actual
unfolding find_normalized
find_normalized-FoundAt content search none actual n at_place e h = absurd (ground arith)
find_normalized-FoundAt content search (some i) actual n at_place e h =
    elim (Bool-cases (ltb (length content) (i + length (normalize_straight search)))) [
      | inl over ↦ let e' = rw over at e in absurd (ground arith)
      | inr within ↦
          let e' = rw within at e in
          subst (FoundAt content search) (ap (λ p. p.0) e') (
            slice-index content i (length (normalize_straight search)),
            normalized-slice content search i at_place,
          )
    ]

-- A count of one comes with the text that was found.
pub find_with_quote_normalization-FoundAt :
    (content search actual : Runes)
    → search ≢ []
    → find_with_quote_normalization content search ≡ (actual, 1)
    → FoundAt content search actual
unfolding find_with_quote_normalization
find_with_quote_normalization-FoundAt content search actual nonempty e =
    elim (Bool-cases (ltb 0 (count content search))) [
      | inl exact ↦
          let e' = rw exact at e in
          subst (FoundAt content search) (ap (λ p. p.0) e')
            (count-index content search nonempty (ltb→lt 0 (count content search) exact), refl)
      | inr missing ↦
          elim (Bool-cases (
            same (normalize_straight content) content && same (normalize_straight search) search)) [
              | inl plain ↦ let e' = rw (missing, plain) at e in absurd (ground arith)
              | inr curly ↦
                  elim (Bool-cases
                    (not (count (normalize_straight content) (normalize_straight search) == 1))) [
                      | inl many ↦ let e' = rw (missing, curly, many) at e in absurd (ground arith)
                      | inr one ↦
                          find_normalized-FoundAt content search
                            (index (normalize_straight content) (normalize_straight search)) actual
                            1 refl (rw (missing, curly, one) at e) (omega arith)
                    ]
            ]
    ]

straight-curl :
    (u : Tables) (prev : Option ℕ) (c : ℕ) (s : Runes) → straight (curl u prev c s) ≡ straight c
unfolding curl straight
straight-curl u prev c s = ground arith

straight-curl_all :
    (u : Tables) (prev : Option ℕ) (s : Runes)
    → normalize_straight (curl_all u prev s) ≡ normalize_straight s
unfolding curl_all normalize_straight
straight-curl_all u prev [] = refl
straight-curl_all u prev (c ∷ s) =
    ground (arith, straight-curl u prev c s, straight-curl_all u (some c) s)

-- A replacement differs from the given text in its quotes alone.
pub apply_curly_quotes-normalize_straight :
    (u : Tables) (old_actual new_text : Runes)
    → normalize_straight (apply_curly_quotes u old_actual new_text) ≡ normalize_straight new_text
unfolding apply_curly_quotes
apply_curly_quotes-normalize_straight u old_actual new_text =
    ground (arith, straight-curl_all u none new_text)
