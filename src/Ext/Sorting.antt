-- ===== src/Ext/Sorting.antt =====
-- An insertion sort, which is one that the registry may use.
use piglet.Prelude.{
  ◌+◌, ◌≡◌, refl, ap, ◌∙◌, inl, inr, Bool, List, [], ◌∷◌, arith, if◌then◌else◌, Bool-cases,
}
use piglet.Ext.App.{Has, count, Sorter}

module _ {A : Type 0} (le : A → A → Bool) where
  insert_sorted : A → List A → List A
  insert_sorted x [] = x ∷ []
  insert_sorted x (y ∷ l) = let rest = insert_sorted x l in if le x y then x ∷ y ∷ l else y ∷ rest

  pub insertion_sort : List A → List A
  insertion_sort [] = []
  insertion_sort (x ∷ l) = insert_sorted x (insertion_sort l)

  insert_sorted-first : (P : A → Type 0) (x : A) (l : List A) → P x → Has P (insert_sorted x l)
  unfolding insert_sorted
  insert_sorted-first P x [] p = inl p
  insert_sorted-first P x (y ∷ l) p = elim (Bool-cases (le x y)) [
    | inl here ↦ rw here (inl p)
    | inr later ↦ rw later (inr (insert_sorted-first P x l p))
  ]

  insert_sorted-Has : (P : A → Type 0) (x : A) (l : List A) → Has P l → Has P (insert_sorted x l)
  unfolding insert_sorted
  insert_sorted-Has P x [] h = absurd h
  insert_sorted-Has P x (y ∷ l) h = elim (Bool-cases (le x y)) [
    | inl here ↦ rw here (inr h)
    | inr later ↦ rw later (elim h [ inl p ↦ inl p | inr q ↦ inr (insert_sorted-Has P x l q) ])
  ]

  pub insertion_sort-Has : (P : A → Type 0) (l : List A) → Has P l → Has P (insertion_sort l)
  unfolding insertion_sort
  insertion_sort-Has P [] h = h
  insertion_sort-Has P (x ∷ l) (inl p) = insert_sorted-first P x (insertion_sort l) p
  insertion_sort-Has P (x ∷ l) (inr h) =
      insert_sorted-Has P x (insertion_sort l) (insertion_sort-Has P l h)

  insert_sorted-count :
      (p : A → Bool) (x : A) (l : List A) → count p (insert_sorted x l) ≡ count p (x ∷ l)
  unfolding insert_sorted
  insert_sorted-count p x [] = refl
  insert_sorted-count p x (y ∷ l) = elim (Bool-cases (le x y)) [
    | inl here ↦ rw here
    | inr later ↦ rw later (omega (arith, insert_sorted-count p x l))
  ]

  pub insertion_sort-count : (p : A → Bool) (l : List A) → count p (insertion_sort l) ≡ count p l
  unfolding insertion_sort
  insertion_sort-count p [] = refl
  insertion_sort-count p (x ∷ l) =
      insert_sorted-count p x (insertion_sort l)
      ∙ ap (λ n. (if p x then 1 else 0) + n) (insertion_sort-count p l)

unfoldable pub insertion_sorter : Sorter
unfolding insertion_sort insert_sorted
insertion_sorter = record {
  sort = λ A le l. insertion_sort le l;
  sort_has = λ A le P l h. insertion_sort-Has le P l h;
  sort_count = λ A le p l. insertion_sort-count le p l;
}
