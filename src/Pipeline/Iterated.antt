-- ===== src/Pipeline/Iterated.antt =====
-- extensions/pipeline/loops.go: the iterations of a step.
use mathlib.Core.Bool.{true≢false}
use piglet.Prelude.{
  ℕ, ◌⊎◌, ◌^◌, ◌<◌, leb, leb→lt, false, Bool-cases, suc, ◌*◌, ◌≡◌, ◌≢◌, refl, ap, ◌∙◌, subst, inl,
  inr, String, List, [], ◌∷◌, ◌++◌, map, append-nil, arith, length, length-append, All, All-append,
  Assoc, lookup-insert, eq_refl,
}
use piglet.Pipeline.Texts.{ℤ}
use piglet.Pipeline.Types.{Step}
use piglet.Pipeline.Loops.{
  Iteration, LoopDimension, dimensions, with_each, with_values, cartesian_loop, items_times,
  Iterations, once, iterations, no_iterations, never, count_of, sizes_fit, count_items,
  max_capacity, list_iterations, iterations_of, loop_sets, expand_iterations,
}
use piglet.Pipeline.Product.{
  Some, AreDistinct, AreChosen, Gives, combinations, length-cartesian_loop, Gives-insert, Sound,
  members, cartesian_loop-Sound,
}

Some-left {ℓ} : {A : Type ℓ} (P : A → Type 0) (xs ys : List A) → Some P xs → Some P (xs ++ ys)
Some-left P [] ys h = elim h [ ]
Some-left P (x ∷ xs) ys (inl here) = inl here
Some-left P (x ∷ xs) ys (inr later) = inr (Some-left P xs ys later)

Some-right {ℓ} : {A : Type ℓ} (P : A → Type 0) (xs ys : List A) → Some P ys → Some P (xs ++ ys)
Some-right P [] ys h = h
Some-right P (x ∷ xs) ys h = inr (Some-right P xs ys h)

Some-with_each :
    (d : LoopDimension) (ds : List LoopDimension) (v : String) (vs : List String)
    (rest : List (Assoc String))
    → All (λ e. e.key ≢ d.key) ds
    → Some (Gives ds vs) rest
    → Some (Gives (d ∷ ds) (v ∷ vs)) (with_each d.key v rest)
unfolding with_each
Some-with_each d ds v vs [] h s = elim s [ ]
Some-with_each d ds v vs (r ∷ rest) h (inl gives) =
    inl
      (rw (lookup-insert d.key d.key v r, eq_refl d.key) refl, Gives-insert ds vs d.key v r h gives)
Some-with_each d ds v vs (r ∷ rest) h (inr later) = inr (Some-with_each d ds v vs rest h later)

Some-with_values :
    (d : LoopDimension) (ds : List LoopDimension) (us : List String) (v : String) (vs : List String)
    (rest : List (Assoc String))
    → All (λ e. e.key ≢ d.key) ds
    → Some (λ u. u ≡ v) us
    → Some (Gives ds vs) rest
    → Some (Gives (d ∷ ds) (v ∷ vs)) (with_values d.key us rest)
unfolding with_values
Some-with_values d ds [] v vs rest h m s = elim m [ ]
Some-with_values d ds (u ∷ us) v vs rest h (inl same) s =
    Some-left (Gives (d ∷ ds) (v ∷ vs)) (with_each d.key u rest) (with_values d.key us rest)
      (rw same (Some-with_each d ds v vs rest h s))
Some-with_values d ds (u ∷ us) v vs rest h (inr later) s =
    Some-right (Gives (d ∷ ds) (v ∷ vs)) (with_each d.key u rest) (with_values d.key us rest)
      (Some-with_values d ds us v vs rest h later s)

-- Each choice is one of the combinations.
cartesian_loop-Gives :
    (ds : List LoopDimension) (vs : List String)
    → AreDistinct ds
    → AreChosen ds vs
    → Some (Gives ds vs) (cartesian_loop ds)
unfolding cartesian_loop
cartesian_loop-Gives [] [] h chosen = inl tt
cartesian_loop-Gives [] (v ∷ vs) h chosen = elim chosen [ ]
cartesian_loop-Gives (d ∷ ds) [] h chosen = elim chosen [ ]
cartesian_loop-Gives (d ∷ ds) (v ∷ vs) h chosen =
    Some-with_values d ds d.values v vs (cartesian_loop ds) h.0 chosen.0
      (cartesian_loop-Gives ds vs h.1 chosen.1)

abbrev for_item : String → Assoc String → Iteration
for_item i c = record { item = i; loop_vars = c }

length-map : (i : String) (cs : List (Assoc String)) → length (map (for_item i) cs) ≡ length cs
length-map i [] = refl
length-map i (c ∷ cs) = ap suc (length-map i cs)

length-items_times :
    (is : List String) (cs : List (Assoc String))
    → length (items_times is cs) ≡ length is * length cs
unfolding items_times
length-items_times [] cs = omega arith
length-items_times (i ∷ is) cs =
    length-append (map (for_item i) cs) (items_times is cs)
    ∙ omega (arith, length-map i cs, length-items_times is cs)

All-map :
    (P : String → Type 0) (Q : Assoc String → Type 0) (i : String) (cs : List (Assoc String))
    → P i
    → All Q cs
    → All (λ it. P it.item × Q it.loop_vars) (map (for_item i) cs)
All-map P Q i [] p q = tt
All-map P Q i (c ∷ cs) p q = ((p, q.0), All-map P Q i cs p q.1)

All-items_times :
    (P : String → Type 0) (Q : Assoc String → Type 0) (is : List String) (cs : List (Assoc String))
    → All P is
    → All Q cs
    → All (λ it. P it.item × Q it.loop_vars) (items_times is cs)
unfolding items_times
All-items_times P Q [] cs p q = tt
All-items_times P Q (i ∷ is) cs p q =
    All-append (λ it. P it.item × Q it.loop_vars) (map (for_item i) cs) (items_times is cs)
      (All-map P Q i cs p.0 q) (All-items_times P Q is cs p.1 q)

Some-map :
    (Q : Assoc String → Type 0) (i : String) (cs : List (Assoc String))
    → Some Q cs
    → Some (λ it. (it.item ≡ i) × Q it.loop_vars) (map (for_item i) cs)
Some-map Q i [] s = elim s [ ]
Some-map Q i (c ∷ cs) (inl here) = inl (refl, here)
Some-map Q i (c ∷ cs) (inr later) = inr (Some-map Q i cs later)

Some-items_times :
    (Q : Assoc String → Type 0) (is : List String) (i : String) (cs : List (Assoc String))
    → Some (λ j. j ≡ i) is
    → Some Q cs
    → Some (λ it. (it.item ≡ i) × Q it.loop_vars) (items_times is cs)
unfolding items_times
Some-items_times Q [] i cs m s = elim m [ ]
Some-items_times Q (j ∷ is) i cs (inl same) s =
    Some-left (λ it. (it.item ≡ i) × Q it.loop_vars) (map (for_item j) cs) (items_times is cs)
      (rw same (Some-map Q i cs s))
Some-items_times Q (j ∷ is) i cs (inr later) s =
    Some-right (λ it. (it.item ≡ i) × Q it.loop_vars) (map (for_item j) cs) (items_times is cs)
      (Some-items_times Q is i cs later s)

-- The items that a step goes through: one empty item if it has none.
abbrev pub items_of : List String → List String
items_of [] = "" ∷ []
items_of (i ∷ is) = i ∷ is

-- As many as there are choices, each is one, and each choice is one of them.
pub record IsProduct (each : List String) (ds : List LoopDimension) (is : List Iteration)
    : Type 0 where
  pub counted : length is ≡ length (items_of each) * combinations ds
  pub sound : All (λ it. Some (λ i. i ≡ it.item) (items_of each) × Sound ds it.loop_vars) is
  pub complete :
      (i : String) (vs : List String)
      → Some (λ j. j ≡ i) (items_of each)
      → AreChosen ds vs
      → Some (λ it. (it.item ≡ i) × Gives ds vs it.loop_vars) is

-- More combinations of the last ranges than a 64-bit machine has addresses for.
abbrev pub TooManyMaps : List LoopDimension → Type 0
TooManyMaps [] = ⊥
TooManyMaps (d ∷ ds) = (2 ^ 48 < 8 * combinations (d ∷ ds)) ⊎ TooManyMaps ds

-- More of them than that, or more iterations.
abbrev pub TooMany : List String → List LoopDimension → Type 0
TooMany each ds = TooManyMaps ds ⊎ (2 ^ 48 < 24 * (length (items_of each) * combinations ds))

-- What a step is to do by its items and ranges.
abbrev pub Iterates : List String → List LoopDimension → Iterations → Type 0
Iterates each ds once = (each ≡ []) × (ds ≡ [])
Iterates each ds (iterations is) = IsProduct each ds is
Iterates each ds (no_iterations key raw) = ⊥
Iterates each ds never = TooMany each ds

items_times-IsProduct :
    (each : List String) (ds : List LoopDimension)
    → AreDistinct ds
    → IsProduct each ds (items_times (items_of each) (cartesian_loop ds))
items_times-IsProduct each ds h = record {
  counted =
      length-items_times (items_of each) (cartesian_loop ds)
      ∙ ap (λ n. length (items_of each) * n) (length-cartesian_loop ds);
  sound =
      All-items_times (λ j. Some (λ i. i ≡ j) (items_of each)) (Sound ds) (items_of each)
        (cartesian_loop ds) (members (items_of each)) (cartesian_loop-Sound ds h);
  complete = λ i vs m chosen.
      Some-items_times (Gives ds vs) (items_of each) i (cartesian_loop ds) m
        (cartesian_loop-Gives ds vs h chosen);
}

items_times-alone : (is : List String) → items_times is ([] ∷ []) ≡ map (λ x. for_item x []) is
unfolding items_times
items_times-alone [] = refl
items_times-alone (i ∷ is) = ap (λ t. for_item i [] ∷ t) (items_times-alone is)

list_iterations-Iterates :
    (each : List String) (ds : List LoopDimension)
    → AreDistinct ds
    → Iterates each ds (list_iterations each ds)
unfolding list_iterations items_times cartesian_loop
list_iterations-Iterates [] [] h = (refl, refl)
list_iterations-Iterates [] (d ∷ ds) h =
    subst (IsProduct [] (d ∷ ds)) (append-nil (map (for_item "") (cartesian_loop (d ∷ ds))))
      (items_times-IsProduct [] (d ∷ ds) h)
list_iterations-Iterates (i ∷ is) [] h =
    subst (IsProduct (i ∷ is) []) (items_times-alone (i ∷ is)) (items_times-IsProduct (i ∷ is) [] h)
list_iterations-Iterates (i ∷ is) (d ∷ ds) h = items_times-IsProduct (i ∷ is) (d ∷ ds) h

count_of-combinations : (ds : List LoopDimension) → count_of ds ≡ combinations ds
unfolding count_of
count_of-combinations [] = refl
count_of-combinations (d ∷ ds) = ap (λ n. length d.values * n) (count_of-combinations ds)

count_items-length : (each : List String) → count_items each ≡ length (items_of each)
count_items-length [] = refl
count_items-length (i ∷ is) = refl

above_maps : (n : ℕ) → leb n (max_capacity 8) ≡ false → 2 ^ 48 < 8 * n
above_maps n h = let more = leb→lt n (max_capacity 8) h in omega (arith, more)

above_iterations : (n : ℕ) → leb n (max_capacity 24) ≡ false → 2 ^ 48 < 24 * n
above_iterations n h = let more = leb→lt n (max_capacity 24) h in omega (arith, more)

sizes_fit-TooManyMaps : (ds : List LoopDimension) → sizes_fit ds ≡ false → TooManyMaps ds
unfolding sizes_fit
sizes_fit-TooManyMaps [] h = true≢false h
sizes_fit-TooManyMaps (d ∷ ds) h = elim (Bool-cases (leb (count_of (d ∷ ds)) (max_capacity 8))) [
  | inl fits ↦ inr (sizes_fit-TooManyMaps ds (rw fits at h))
  | inr over ↦ inl (
      subst (λ n. 2 ^ 48 < 8 * n) (count_of-combinations (d ∷ ds))
        (above_maps (count_of (d ∷ ds)) over))
]

too_many :
    (each : List String) (ds : List LoopDimension)
    → leb (count_items each * count_of ds) (max_capacity 24) ≡ false
    → TooMany each ds
too_many each ds over = inr (
    subst (λ n. 2 ^ 48 < 24 * n)
      (ap (λ n. n * count_of ds) (count_items-length each)
        ∙ ap (λ n. length (items_of each) * n) (count_of-combinations ds))
      (above_iterations (count_items each * count_of ds) over))

iterations_of-Iterates :
    (each : List String) (ds : List LoopDimension)
    → AreDistinct ds
    → Iterates each ds (iterations_of each (dimensions ds))
unfolding iterations_of
iterations_of-Iterates each ds h = elim (Bool-cases (sizes_fit ds)) [
  | inr over ↦ rw over (inl (sizes_fit-TooManyMaps ds over))
  | inl fit ↦ elim (Bool-cases (leb (count_items each * count_of ds) (max_capacity 24))) [
    | inl fits ↦ rw (fit, fits) (list_iterations-Iterates each ds h)
    | inr over ↦ rw (fit, over) (too_many each ds over)
  ]
]

-- A step of which all ranges can be read, with different keys, runs once if it has neither items nor ranges. Else its
-- iterations are as many as there are choices of an item, if it has items, and of a value in each range;
-- each iteration has the item and gives the variables the values of one choice, and each choice
-- has its iteration. It panics only if there are more than a 64-bit machine has addresses for.
pub expand_iterations-Iterates :
    (date : ℤ → String) (step : Step) (ds : List LoopDimension)
    → loop_sets date step.loop ≡ dimensions ds
    → AreDistinct ds
    → Iterates step.each ds (expand_iterations date step)
unfolding expand_iterations
expand_iterations-Iterates date step ds read distinct =
    rw read (iterations_of-Iterates step.each ds distinct)
