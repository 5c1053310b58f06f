-- ===== src/Plan/Invariant.antt =====
-- extensions/plan/plan.go: what every operation keeps.
use piglet.Prelude.{
  ℕ, zero, suc, ◌+◌, ◌≤◌, ◌≡◌, refl, sym, ◌∙◌, subst, ◌≢◌, inl, inr, true, List, [], ◌∷◌, ◌++◌,
  arith, str_eq, ltb, ltb→lt, if◌then◌else◌, Bool-cases, take, drop, All, tests,
}
use piglet.Plan.Steps.{Step, status_in_progress, valid_status, max_id, next_id}
use piglet.Plan.Operations.{modify, demote, insert_after}

-- The number of steps in progress.
abbrev pub busy : List Step → ℕ
busy [] = 0
busy (s ∷ ss) = (if str_eq s.status status_in_progress then 1 else 0) + busy ss

abbrev pub Other : ℕ → Step → Type 0
Other id s = s.id ≢ id

abbrev pub Distinct : List Step → Type 0
Distinct [] = Unit
Distinct (s ∷ ss) = All (Other s.id) ss × Distinct ss

-- IDs are distinct, statuses are valid, and at most one step is in progress.
abbrev pub IsValid : List Step → Type 0
IsValid ss = Distinct ss × All (λ (s : Step). valid_status s.status ≡ true) ss × (busy ss ≤ 1)

max_id-ge : (ss : List Step) (m : ℕ) → m ≤ max_id ss m
unfolding max_id
max_id-ge [] m = omega arith
max_id-ge (s ∷ ss) m = elim (Bool-cases (ltb m s.id)) [
  | inl lt ↦ rw lt (omega (arith, ltb→lt _ _ lt, max_id-ge ss s.id))
  | inr ge ↦ rw ge (max_id-ge ss m)
]

larger : (a b : ℕ) → b ≤ (if ltb a b then b else a)
larger a b = grind tests

max_id-All : (ss : List Step) (m n : ℕ) → max_id ss m ≤ n → All (λ (s : Step). s.id ≤ n) ss
unfolding max_id
max_id-All [] m n h = tt
max_id-All (s ∷ ss) m n h =
    let k = if ltb m s.id then s.id else m in
    (omega (arith, larger m s.id, max_id-ge ss k, h), max_id-All ss k n h)

All-weaken : (m : ℕ) (ss : List Step) → All (λ (s : Step). s.id ≤ m) ss → All (Other (m + 1)) ss
All-weaken m [] h = tt
All-weaken m (s ∷ ss) (h, hs) = (λ e. absurd (omega arith), All-weaken m ss hs)

pub next_id-Fresh : (ss : List Step) → All (Other (next_id ss)) ss
unfolding next_id
next_id-Fresh ss = All-weaken (max_id ss 0) ss (max_id-All ss 0 (max_id ss 0) (omega arith))

-- Insertion.
module _ (x : Step) where
  pub All-insert_after :
      (P : Step → Type 0) (i : ℕ) (ss : List Step) → P x → All P ss → All P (insert_after i x ss)
  All-insert_after P i [] p h = (p, tt)
  All-insert_after P zero (s ∷ ss) p (h, hs) = (h, (p, hs))
  All-insert_after P (suc i) (s ∷ ss) p (h, hs) = (h, All-insert_after P i ss p hs)

  pub busy-insert_after : (i : ℕ) (ss : List Step) → busy (insert_after i x ss) ≡ busy (x ∷ ss)
  busy-insert_after i [] = refl
  busy-insert_after zero (s ∷ ss) = omega arith
  busy-insert_after (suc i) (s ∷ ss) = omega (arith, busy-insert_after i ss)

  pub Distinct-insert_after :
      (i : ℕ) (ss : List Step) → All (Other x.id) ss → Distinct ss → Distinct (insert_after i x ss)
  Distinct-insert_after i [] f d = (tt, tt)
  Distinct-insert_after zero (s ∷ ss) (f, fs) (d, ds) = ((λ e. f (sym e), d), (fs, ds))
  Distinct-insert_after (suc i) (s ∷ ss) (f, fs) (d, ds) =
      (All-insert_after (Other s.id) i ss (λ e. f (sym e)) d, Distinct-insert_after i ss fs ds)

-- Removal.
pub All-remove :
    (P : Step → Type 0) (i : ℕ) (ss : List Step) → All P ss → All P (take i ss ++ drop (suc i) ss)
All-remove P zero [] h = tt
All-remove P (suc i) [] h = tt
All-remove P zero (s ∷ ss) (h, hs) = hs
All-remove P (suc i) (s ∷ ss) (h, hs) = (h, All-remove P i ss hs)

pub busy-remove : (i : ℕ) (ss : List Step) → busy (take i ss ++ drop (suc i) ss) ≤ busy ss
busy-remove zero [] = omega arith
busy-remove (suc i) [] = omega arith
busy-remove zero (s ∷ ss) = omega arith
busy-remove (suc i) (s ∷ ss) = omega (arith, busy-remove i ss)

pub Distinct-remove :
    (i : ℕ) (ss : List Step) → Distinct ss → Distinct (take i ss ++ drop (suc i) ss)
Distinct-remove zero [] d = tt
Distinct-remove (suc i) [] d = tt
Distinct-remove zero (s ∷ ss) (d, ds) = ds
Distinct-remove (suc i) (s ∷ ss) (d, ds) = (All-remove (Other s.id) i ss d, Distinct-remove i ss ds)

-- A write that keeps the ID.
module _ (f : Step → Step) (keeps : (s : Step) → (f s).id ≡ s.id) where
  Other-modify : (id i : ℕ) (ss : List Step) → All (Other id) ss → All (Other id) (modify i f ss)
  Other-modify id i [] h = tt
  Other-modify id zero (s ∷ ss) (h, hs) = (λ e. h (sym (keeps s) ∙ e), hs)
  Other-modify id (suc i) (s ∷ ss) (h, hs) = (h, Other-modify id i ss hs)

  pub Distinct-modify : (i : ℕ) (ss : List Step) → Distinct ss → Distinct (modify i f ss)
  Distinct-modify i [] d = tt
  Distinct-modify zero (s ∷ ss) (d, ds) = (subst (λ k. All (Other k) ss) (sym (keeps s)) d, ds)
  Distinct-modify (suc i) (s ∷ ss) (d, ds) = (Other-modify s.id i ss d, Distinct-modify i ss ds)

pub All-modify :
    (P : Step → Type 0) (f : Step → Step)
    → ((s : Step) → P s → P (f s))
    → (i : ℕ) (ss : List Step) → All P ss
    → All P (modify i f ss)
All-modify P f k i [] h = tt
All-modify P f k zero (s ∷ ss) (h, hs) = (k s h, hs)
All-modify P f k (suc i) (s ∷ ss) (h, hs) = (h, All-modify P f k i ss hs)

pub busy-modify : (f : Step → Step) (i : ℕ) (ss : List Step) → busy (modify i f ss) ≤ 1 + busy ss
busy-modify f i [] = omega arith
busy-modify f zero (s ∷ ss) = ground arith
busy-modify f (suc i) (s ∷ ss) = omega (arith, busy-modify f i ss)

abbrev pub load : Step → ℕ
load s = if str_eq s.status status_in_progress then 1 else 0

pub busy-modify-le :
    (f : Step → Step)
    → ((s : Step) → load (f s) ≤ load s)
    → (i : ℕ) (ss : List Step) → busy (modify i f ss) ≤ busy ss
busy-modify-le f k i [] = omega arith
busy-modify-le f k zero (s ∷ ss) = omega (arith, k s)
busy-modify-le f k (suc i) (s ∷ ss) = omega (arith, busy-modify-le f k i ss)

-- Demotion.
pub Other-demote : (id : ℕ) (ss : List Step) → All (Other id) ss → All (Other id) (demote ss)
unfolding demote
Other-demote id [] h = tt
Other-demote id (s ∷ ss) (h, hs) = elim (Bool-cases (str_eq s.status status_in_progress)) [
  | inl e ↦ rw e (h, Other-demote id ss hs)
  | inr e ↦ rw e (h, Other-demote id ss hs)
]
