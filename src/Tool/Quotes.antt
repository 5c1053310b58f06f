-- ===== src/Tool/Quotes.antt =====
-- tool/quotes.go: an exact or quote-blind search, and the quotes of a replacement. A text is valid UTF-8,
-- as its code points, so a byte offset and a rune count are the same place. The Unicode tables of
-- letters and of punctuation are given.
use piglet.Prelude.{
  ℕ, ◌+◌, Bool, true, false, ◌&&◌, ◌||◌, Option, none, some, [], ◌∷◌, map, not, ltb, leb, ◌==◌,
  if◌then◌else◌, length, take, drop, any,
}
use piglet.Tool.Runes.{Runes, same, index, count}

-- `curlyToStraight`: each replaced text is one rune.
unfoldable pub straight : ℕ → ℕ
straight c =
    if c == 0x2018 || c == 0x2019 || c == 0x2032
    then 39
    else if c == 0x201C || c == 0x201D || c == 0x2033
    then b'"'
    else c

-- `normalizeStraight`
unfoldable pub normalize_straight : Runes → Runes
unfolding straight
normalize_straight s = map straight s

-- `(actual, count)` once both sides are normalized.
unfoldable pub find_normalized : Runes → Runes → Option ℕ → Runes × ℕ
find_normalized content norm_search none = ([], 0)
find_normalized content norm_search (some rune_start) =
    if ltb (length content) (rune_start + length norm_search)
    then ([], 0)
    else (take (length norm_search) (drop rune_start content), 1)

-- `findWithQuoteNormalization`
unfoldable pub find_with_quote_normalization : Runes → Runes → Runes × ℕ
unfolding normalize_straight same index count find_normalized
find_with_quote_normalization content search =
    let norm_content = normalize_straight content in
    let norm_search = normalize_straight search in
    if ltb 0 (count content search)
    then (search, count content search)
    else if same norm_content content && same norm_search search
    then ([], 0)
    else if not (count norm_content norm_search == 1)
    then ([], count norm_content norm_search)
    else find_normalized content norm_search (index norm_content norm_search)

-- `containsCurlyQuotes`
unfoldable pub contains_curly_quotes : Runes → Bool
contains_curly_quotes s =
    any
      (λ (c : ℕ).
        leb 0x2018 c && leb c 0x2019
        || leb 0x201C c && leb c 0x201D
        || leb 0x2032 c && leb c 0x2033)
      s

-- `unicode.IsSpace`
unfoldable pub is_space : ℕ → Bool
is_space n =
    leb 9 n && leb n 13
    || n == 32
    || n == 133
    || n == 160
    || n == 5760
    || leb 8192 n && leb n 8202
    || n == 8232
    || n == 8233
    || n == 8239
    || n == 8287
    || n == 12288

-- `unicode.IsLetter` and `unicode.IsPunct`
pub record Tables : Type 0 where
  pub is_letter : ℕ → Bool
  pub is_punct : ℕ → Bool

module _ (u : Tables) where
  open u use {is_letter, is_punct}

  -- `isOpeningPosition`, with the rune before.
  unfoldable pub is_opening_position : Option ℕ → Bool
  unfolding is_space
  is_opening_position none = true
  is_opening_position (some prev) = is_space prev || is_punct prev || prev == b'(' || prev == b'['

  -- `isApostrophe`, with the rune before and the runes after.
  unfoldable pub is_apostrophe : Option ℕ → Runes → Bool
  is_apostrophe none after = false
  is_apostrophe (some prev) [] = false
  is_apostrophe (some prev) (c ∷ after) = is_letter prev && is_letter c

  -- The quote that a rune becomes.
  unfoldable pub curl : Option ℕ → ℕ → Runes → ℕ
  unfolding is_opening_position is_apostrophe
  curl prev c after =
      if c == b'"'
      then (if is_opening_position prev then 0x201C else 0x201D)
      else if c == 39
      then (if is_apostrophe prev after
          then 0x2019
          else if is_opening_position prev
          then 0x2018
          else 0x2019)
      else c

  -- The loop of `applyCurlyQuotes`.
  unfoldable pub curl_all : Option ℕ → Runes → Runes
  unfolding curl
  curl_all prev [] = []
  curl_all prev (c ∷ s) = curl prev c s ∷ curl_all (some c) s

  -- `applyCurlyQuotes`
  unfoldable pub apply_curly_quotes : Runes → Runes → Runes
  unfolding contains_curly_quotes curl_all
  apply_curly_quotes old_actual new_text =
      if not (contains_curly_quotes old_actual) then new_text else curl_all none new_text
