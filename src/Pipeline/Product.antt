-- ===== src/Pipeline/Product.antt =====
-- extensions/pipeline/loops.go: the iterations are the product of the items and the ranges.
use piglet.Prelude.{
  ℕ, suc, ◌*◌, ◌≡◌, ◌≢◌, refl, sym, ap, ◌∙◌, ◌⊎◌, inl, inr, String, some, List, [], ◌∷◌, arith,
  length, length-append, All, All-append, Assoc, lookup, insert, lookup-insert, str_eq_of_ne,
  eq_refl,
}
use piglet.Pipeline.Loops.{LoopDimension, with_each, with_values, cartesian_loop}

-- There is one in the list.
abbrev pub Some {ℓ} : {A : Type ℓ} → (A → Type 0) → List A → Type 0
Some P [] = ⊥
Some P (x ∷ xs) = P x ⊎ Some P xs

-- A map has no two entries for a key.
abbrev pub AreDistinct : List LoopDimension → Type 0
AreDistinct [] = Unit
AreDistinct (d ∷ ds) = All (λ e. e.key ≢ d.key) ds × AreDistinct ds

-- One value for each dimension.
abbrev pub AreChosen : List LoopDimension → List String → Type 0
AreChosen [] [] = Unit
AreChosen [] (v ∷ vs) = ⊥
AreChosen (d ∷ ds) [] = ⊥
AreChosen (d ∷ ds) (v ∷ vs) = Some (λ u. u ≡ v) d.values × AreChosen ds vs

-- The variables have these values.
abbrev pub Gives : List LoopDimension → List String → Assoc String → Type 0
Gives [] [] c = Unit
Gives [] (v ∷ vs) c = ⊥
Gives (d ∷ ds) [] c = ⊥
Gives (d ∷ ds) (v ∷ vs) c = (lookup d.key c ≡ some v) × Gives ds vs c

abbrev pub combinations : List LoopDimension → ℕ
combinations [] = 1
combinations (d ∷ ds) = length d.values * combinations ds

length-with_each :
    (key v : String) (rest : List (Assoc String)) → length (with_each key v rest) ≡ length rest
unfolding with_each
length-with_each key v [] = refl
length-with_each key v (r ∷ rest) = ap suc (length-with_each key v rest)

length-with_values :
    (key : String) (vs : List String) (rest : List (Assoc String))
    → length (with_values key vs rest) ≡ length vs * length rest
unfolding with_values
length-with_values key [] rest = omega arith
length-with_values key (v ∷ vs) rest =
    length-append (with_each key v rest) (with_values key vs rest)
    ∙ omega (arith, length-with_each key v rest, length-with_values key vs rest)

pub length-cartesian_loop : (ds : List LoopDimension) → length (cartesian_loop ds) ≡ combinations ds
unfolding cartesian_loop
length-cartesian_loop [] = refl
length-cartesian_loop (d ∷ ds) =
    length-with_values d.key d.values (cartesian_loop ds)
    ∙ ap (λ n. length d.values * n) (length-cartesian_loop ds)

-- A new variable leaves the others.
pub Gives-insert :
    (ds : List LoopDimension) (vs : List String) (key v : String) (c : Assoc String)
    → All (λ e. e.key ≢ key) ds
    → Gives ds vs c
    → Gives ds vs (insert key v c)
Gives-insert [] [] key v c h g = g
Gives-insert [] (u ∷ us) key v c h g = g
Gives-insert (d ∷ ds) [] key v c h g = g
Gives-insert (d ∷ ds) (u ∷ us) key v c h g = (
  rw (lookup-insert key d.key v c, str_eq_of_ne key d.key (λ e. h.0 (sym e))) g.0,
  Gives-insert ds us key v c h.1 g.1,
)

-- Each combination is one choice.
pub Sound : List LoopDimension → Assoc String → Type 0
Sound ds c = (vs : List String) × AreChosen ds vs × Gives ds vs c

Sound-with_each :
    (d : LoopDimension) (ds : List LoopDimension) (v : String) (rest : List (Assoc String))
    → All (λ e. e.key ≢ d.key) ds
    → Some (λ u. u ≡ v) d.values
    → All (Sound ds) rest
    → All (Sound (d ∷ ds)) (with_each d.key v rest)
unfolding with_each Sound
Sound-with_each d ds v [] h m s = tt
Sound-with_each d ds v (r ∷ rest) h m s =
    let (vs, chosen, gives) = s.0 in
    (
      (
        v ∷ vs,
        (m, chosen),
        (
          rw (lookup-insert d.key d.key v r, eq_refl d.key) refl,
          Gives-insert ds vs d.key v r h gives,
        ),
      ),
      Sound-with_each d ds v rest h m s.1,
    )

Sound-with_values :
    (d : LoopDimension) (ds : List LoopDimension) (us : List String) (rest : List (Assoc String))
    → All (λ e. e.key ≢ d.key) ds
    → All (λ v. Some (λ u. u ≡ v) d.values) us
    → All (Sound ds) rest
    → All (Sound (d ∷ ds)) (with_values d.key us rest)
unfolding with_values
Sound-with_values d ds [] rest h m s = tt
Sound-with_values d ds (u ∷ us) rest h m s =
    All-append (Sound (d ∷ ds)) (with_each d.key u rest) (with_values d.key us rest)
      (Sound-with_each d ds u rest h m.0 s) (Sound-with_values d ds us rest h m.1 s)

-- Everything in a list is in it.
pub All-weaken {ℓ} :
    {A : Type ℓ} (P Q : A → Type 0) (xs : List A) → ((x : A) → P x → Q x) → All P xs → All Q xs
All-weaken P Q [] f h = tt
All-weaken P Q (x ∷ xs) f h = (f x h.0, All-weaken P Q xs f h.1)

pub members : (us : List String) → All (λ v. Some (λ u. u ≡ v) us) us
members [] = tt
members (u ∷ us) = (
  inl refl,
  All-weaken (λ v. Some (λ x. x ≡ v) us) (λ v. Some (λ x. x ≡ v) (u ∷ us)) us (λ v m. inr m)
      (members us),
)

pub cartesian_loop-Sound :
    (ds : List LoopDimension) → AreDistinct ds → All (Sound ds) (cartesian_loop ds)
unfolding cartesian_loop Sound
cartesian_loop-Sound [] h = (([], tt, tt), tt)
cartesian_loop-Sound (d ∷ ds) h =
    Sound-with_values d ds d.values (cartesian_loop ds) h.0 (members d.values)
      (cartesian_loop-Sound ds h.1)
