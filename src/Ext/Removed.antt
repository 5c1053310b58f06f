-- ===== src/Ext/Removed.antt =====
-- ext/unregister.go: an extension is removed without a trace.
use piglet.Prelude.{
  ◌+◌, ◌≡◌, refl, ap, ◌∙◌, subst, inl, inr, String, Bool, true, false, not, ◌&&◌, List, [], ◌∷◌,
  ◌++◌, map, arith, str_eq, eq_refl, eq_iff, if◌then◌else◌, str_eq→eq, Bool-cases, filter, All,
  Assoc, erase, insert,
}
use piglet.Ext.App.{Sorter, count}
use piglet.Ext.Bridged.{fold}
use piglet.Ext.Bridge.{elem, erase_all}

-- The entries of a map with other keys.
abbrev others : {V : Type 0} → List String → Assoc V → Assoc V
others ks = filter (λ p. not (elem p.0 ks))

others-erase :
    {V : Type 0} (k : String) (ks : List String) (m : Assoc V)
    → others ks (erase k m) ≡ others (k ∷ ks) m
unfolding erase
others-erase k ks [] = refl
others-erase k ks ((j, v) ∷ m) = ground (arith, others-erase k ks m, eq_iff j k, eq_iff k j)

others_none : {V : Type 0} (m : Assoc V) → m ≡ others [] m
others_none [] = refl
others_none (p ∷ m) = ap (λ t. p ∷ t) (others_none m)

erase_all-others : {V : Type 0} (ks : List String) (m : Assoc V) → erase_all ks m ≡ others ks m
unfolding erase_all
erase_all-others [] m = others_none m
erase_all-others (k ∷ ks) m = erase_all-others ks (erase k m) ∙ others-erase k ks m

-- A key more that is one of them already.
others-again :
    {V : Type 0} (k : String) (ks : List String) (m : Assoc V)
    → elem k ks ≡ true
    → others (k ∷ ks) m ≡ others ks m
others-again k ks [] h = refl
others-again k ks ((j, v) ∷ m) h = elim (Bool-cases (str_eq k j)) [
  | inl same ↦
      rw (same, subst (λ n. elem n ks ≡ true) (str_eq→eq k j same) h) (others-again k ks m h)
  | inr differs ↦ rw differs (ground (arith, others-again k ks m h))
]

others-insert :
    {V : Type 0} (k : String) (v : V) (ks : List String) (m : Assoc V)
    → elem k ks ≡ true
    → others ks (insert k v m) ≡ others ks m
unfolding insert
others-insert k v ks m h = rw h (others-erase k ks m ∙ others-again k ks m h)

others-fold :
    {A V : Type 0} (key : A → String) (value : A → V) (ks : List String) (xs : List A) (m : Assoc V)
    → All (λ x. elem (key x) ks ≡ true) xs
    → others ks (fold (λ x. insert (key x) (value x)) xs m) ≡ others ks m
unfolding fold
others-fold key value ks [] m h = refl
others-fold key value ks (x ∷ xs) m h =
    others-fold key value ks xs (insert (key x) (value x) m) h.1
    ∙ others-insert (key x) (value x) ks m h.0

others_fresh :
    {V : Type 0} (ks : List String) (m : Assoc V)
    → All (λ p. elem p.0 ks ≡ false) m
    → others ks m ≡ m
others_fresh ks [] h = refl
others_fresh ks (p ∷ m) h = rw h.0 (ap (λ t. p ∷ t) (others_fresh ks m h.1))

pub All-weaken :
    {A : Type 0} (P Q : A → Type 0) (xs : List A) → ((x : A) → P x → Q x) → All P xs → All Q xs
All-weaken P Q [] f h = tt
All-weaken P Q (x ∷ xs) f h = (f x h.0, All-weaken P Q xs f h.1)

own_names : {A : Type 0} (f : A → String) (xs : List A) → All (λ x. elem (f x) (map f xs) ≡ true) xs
own_names f [] = tt
own_names f (x ∷ xs) = (
  rw (eq_refl (f x)),
  All-weaken (λ y. elem (f y) (map f xs) ≡ true) (λ y. elem (f y) (map f (x ∷ xs)) ≡ true) xs
      (λ y h. ground (arith, h)) (own_names f xs),
)

-- The keys of a map come and go.
pub restored_map :
    {A V : Type 0} (key : A → String) (value : A → V) (xs : List A) (m : Assoc V)
    → All (λ p. elem p.0 (map key xs) ≡ false) m
    → erase_all (map key xs) (fold (λ x. insert (key x) (value x)) xs m) ≡ m
restored_map key value xs m h =
    erase_all-others (map key xs) (fold (λ x. insert (key x) (value x)) xs m)
    ∙ (others-fold key value (map key xs) xs m (own_names key xs) ∙ others_fresh (map key xs) m h)

count-filter :
    {A : Type 0} (p q : A → Bool) (l : List A) → count p (filter q l) ≡ count (λ x. q x && p x) l
count-filter p q [] = refl
count-filter p q (x ∷ l) = ground (arith, count-filter p q l)

count-append :
    {A : Type 0} (p : A → Bool) (xs ys : List A) → count p (xs ++ ys) ≡ count p xs + count p ys
count-append p [] ys = omega arith
count-append p (x ∷ xs) ys = omega (arith, count-append p xs ys)

count_agrees :
    {A : Type 0} (p q : A → Bool) (l : List A)
    → All (λ x. q x ≡ true) l
    → count (λ x. q x && p x) l ≡ count p l
count_agrees p q [] h = refl
count_agrees p q (x ∷ l) h = rw h.0 (ap (λ n. (if p x then 1 else 0) + n) (count_agrees p q l h.1))

-- The elements of a list that is sorted again with each new one come and go.
module _ {A : Type 0} (s : Sorter) (le : A → A → Bool) (name : A → String) where
  unfoldable pub add : A → List A → List A
  add x l = s.sort A le (l ++ (x ∷ []))

  count-fold :
      (p : A → Bool) (xs l : List A)
      → All (λ x. p x ≡ false) xs
      → count p (fold add xs l) ≡ count p l
  unfolding fold add
  count-fold p [] l h = refl
  count-fold p (x ∷ xs) l h =
      count-fold p xs (add x l) h.1
      ∙ (s.sort_count A le p (l ++ (x ∷ [])) ∙ (count-append p l (x ∷ []) ∙ rw h.0 (omega arith)))

  pub restored_list :
      (p : A → Bool) (xs l : List A)
      → All (λ y. elem (name y) (map name xs) ≡ false) l
      → count p (filter (λ y. not (elem (name y) (map name xs))) (fold add xs l)) ≡ count p l
  restored_list p xs l h =
      let q = λ (y : A). not (elem (name y) (map name xs)) in
      count-filter p q (fold add xs l)
      ∙ (count-fold (λ y. q y && p y) xs l
            (All-weaken (λ y. elem (name y) (map name xs) ≡ true) (λ y. (q y && p y) ≡ false) xs
              (λ y e. rw e) (own_names name xs))
          ∙ count_agrees p q l (
              All-weaken (λ y. elem (name y) (map name xs) ≡ false) (λ y. q y ≡ true) l
                (λ y e. rw e) h))
