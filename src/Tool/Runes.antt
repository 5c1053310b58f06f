-- ===== src/Tool/Runes.antt =====
-- The functions of Go's package strings that tool/ calls, on texts as lists of code points.
use piglet.Prelude.{
  ℕ, zero, suc, ◌+◌, ◌-◌, ◌<◌, ◌≡◌, ◌≢◌, refl, ap, inl, inr, Bool, true, false, ◌&&◌, Option, none,
  some, List, [], ◌∷◌, ◌++◌, arith, ◌==◌, if◌then◌else◌, Bool-cases, length, take, drop,
}

abbrev pub Runes : Type 0
Runes = List ℕ

-- `strings.HasPrefix(s, p)`
unfoldable pub has_prefix : Runes → Runes → Bool
has_prefix s [] = true
has_prefix [] (c ∷ p) = false
has_prefix (d ∷ s) (c ∷ p) = d == c && has_prefix s p

-- `a == b` on texts.
unfoldable pub same : Runes → Runes → Bool
same [] [] = true
same [] (d ∷ t) = false
same (c ∷ s) [] = false
same (c ∷ s) (d ∷ t) = c == d && same s t

abbrev pub next : Option ℕ → Option ℕ
next none = none
next (some i) = some (suc i)

-- `strings.Index(s, p)`, with none for -1.
unfoldable pub index : Runes → Runes → Option ℕ
unfolding has_prefix
index [] p = if has_prefix [] p then some 0 else none
index (c ∷ s) p = if has_prefix (c ∷ s) p then some 0 else next (index s p)

-- Places of `p` that do not overlap, after the first `skip` code points.
unfoldable pub count_from : ℕ → Runes → Runes → ℕ
unfolding has_prefix
count_from skip [] p = 0
count_from (suc skip) (c ∷ s) p = count_from skip s p
count_from zero (c ∷ s) p =
    let here = has_prefix (c ∷ s) p in
    let rest = count_from (if here then length p - 1 else 0) s p in if here then suc rest else rest

-- `strings.Count(s, p)`
unfoldable pub count : Runes → Runes → ℕ
unfolding count_from
count s [] = length s + 1
count s (c ∷ p) = count_from 0 s (c ∷ p)

abbrev replace_at : Runes → Runes → Runes → Option ℕ → Runes
replace_at s old new none = s
replace_at s old new (some i) = take i s ++ (new ++ drop (length old) (drop i s))

-- `strings.Replace(s, old, new, 1)`
unfoldable pub replace_first : Runes → Runes → Runes → Runes
unfolding index
replace_first s old new = replace_at s old new (index s old)

pub same→eq : (s t : Runes) → same s t ≡ true → s ≡ t
unfolding same
same→eq [] [] h = refl
same→eq [] (d ∷ t) h = ground arith
same→eq (c ∷ s) [] h = ground arith
same→eq (c ∷ s) (d ∷ t) h = ground (arith, same→eq s t)

pub has_prefix-append : (s p : Runes) → has_prefix (p ++ s) p ≡ true
unfolding has_prefix
has_prefix-append s [] = refl
has_prefix-append s (c ∷ p) = ground (arith, has_prefix-append s p)

-- What a prefix leaves.
pub has_prefix-drop : (s p : Runes) → has_prefix s p ≡ true → s ≡ p ++ drop (length p) s
unfolding has_prefix
has_prefix-drop s [] h = refl
has_prefix-drop [] (c ∷ p) h = ground arith
has_prefix-drop (d ∷ s) (c ∷ p) h = ground (arith, has_prefix-drop s p)

ne_of_next : (o : Option ℕ) → next o ≢ some 0
ne_of_next none h = cc
ne_of_next (some j) h = ground arith

suc_of_next : (o : Option ℕ) (i : ℕ) → next o ≡ some (suc i) → o ≡ some i
suc_of_next none i h = cc
suc_of_next (some j) i h = ground arith

-- The text around the first place.
pub index-split :
    (s p : Runes) (i : ℕ) → index s p ≡ some i → s ≡ take i s ++ (p ++ drop (length p) (drop i s))
unfolding index
index-split [] p zero h = ground (arith, has_prefix-drop [] p)
index-split [] p (suc i) h = ground arith
index-split (c ∷ s) p zero h = elim (Bool-cases (has_prefix (c ∷ s) p)) [
  | inl here ↦ has_prefix-drop (c ∷ s) p here
  | inr later ↦ absurd (ne_of_next (index s p) (rw later at h))
]
index-split (c ∷ s) p (suc i) h = elim (Bool-cases (has_prefix (c ∷ s) p)) [
  | inl here ↦ cc (rw here at h)
  | inr later ↦ ap (λ t. c ∷ t) (index-split s p i (suc_of_next (index s p) i (rw later at h)))
]

first_place : (s p : Runes) → has_prefix s p ≡ true → (i : ℕ) × (index s p ≡ some i)
unfolding index
first_place [] p h = (0, rw h)
first_place (c ∷ s) p h = (0, rw h)

-- A place one code point on is a place, or there is one here.
index-cons :
    (c : ℕ) (s p : Runes) → (i : ℕ) × (index s p ≡ some i) → (j : ℕ) × (index (c ∷ s) p ≡ some j)
unfolding index
index-cons c s p (i, h) = elim (Bool-cases (has_prefix (c ∷ s) p)) [
  | inl here ↦ (0, rw here)
  | inr later ↦ (suc i, rw (later, h))
]

-- A text that stands in another one has a first place there.
pub index-append : (a p b : Runes) → (i : ℕ) × (index (a ++ (p ++ b)) p ≡ some i)
unfolding index
index-append [] p b = first_place (p ++ b) p (has_prefix-append b p)
index-append (c ∷ a) p b = index-cons c (a ++ (p ++ b)) p (index-append a p b)

count_from-index : (k : ℕ) (s p : Runes) → 0 < count_from k s p → (i : ℕ) × (index s p ≡ some i)
unfolding count_from
count_from-index k [] p h = absurd (omega arith)
count_from-index (suc k) (c ∷ s) p h = index-cons c s p (count_from-index k s p h)
count_from-index zero (c ∷ s) p h = elim (Bool-cases (has_prefix (c ∷ s) p)) [
  | inl here ↦ first_place (c ∷ s) p here
  | inr later ↦ index-cons c s p (count_from-index 0 s p (rw later at h))
]

-- What is counted can be found.
pub count-index : (s p : Runes) → p ≢ [] → 0 < count s p → (i : ℕ) × (index s p ≡ some i)
unfolding count
count-index s [] nonempty h = absurd (nonempty refl)
count-index s (c ∷ p) nonempty h = count_from-index 0 s (c ∷ p) h

take-prefix : (s p : Runes) → has_prefix s p ≡ true → take (length p) s ≡ p
unfolding has_prefix
take-prefix s [] h = refl
take-prefix [] (c ∷ p) h = ground arith
take-prefix (d ∷ s) (c ∷ p) h = ground (arith, take-prefix s p)

-- What stands at the first place.
pub index-take : (s p : Runes) (i : ℕ) → index s p ≡ some i → take (length p) (drop i s) ≡ p
unfolding index
index-take [] p zero h = ground (arith, take-prefix [] p)
index-take [] p (suc i) h = ground arith
index-take (c ∷ s) p zero h = elim (Bool-cases (has_prefix (c ∷ s) p)) [
  | inl here ↦ take-prefix (c ∷ s) p here
  | inr later ↦ absurd (ne_of_next (index s p) (rw later at h))
]
index-take (c ∷ s) p (suc i) h = elim (Bool-cases (has_prefix (c ∷ s) p)) [
  | inl here ↦ cc (rw here at h)
  | inr later ↦ index-take s p i (suc_of_next (index s p) i (rw later at h))
]
