-- ===== src/Extensions/Remembers.antt =====
-- extensions/subagent/dedup.go: the cache against the history of all that was stored.
use piglet.Prelude.{
  ℕ, ◌+◌, leb, ◌≤◌, ◌≡◌, refl, ap, ◌∙◌, inl, inr, String, true, Option, none, some, List, [], ◌∷◌,
  arith, eq_iff, if◌then◌else◌, Bool-cases, Option-cases, lookup, erase, insert, lookup-erase,
  lookup-insert,
}
use piglet.Extensions.Dedup.{
  RecentTask, DedupCache, is_expired, look, lookup_task, store, prune, look_up, store_result, tick,
  Timed, perform, answers,
}

-- A result that was stored 30 minutes ago or later, in nanoseconds.
abbrev current : ℕ → Option RecentTask → Option String
current now none = none
current now (some e) = if leb now (e.completed_at + 1800000000000) then some e.result else none

-- The specification: nothing is ever deleted, and a lookup gives the result that was stored last under the key,
-- if it was stored 30 minutes ago or later.
pub spec_answers : List Timed → DedupCache → List (Option String)
unfolding lookup
spec_answers [] h = []
spec_answers ((now, look_up key) ∷ ops) h = current now (lookup key h) ∷ spec_answers ops h
spec_answers ((now, store_result key result) ∷ ops) h =
    spec_answers ops ((key, record { result = result; completed_at = now }) ∷ h)
spec_answers ((now, tick) ∷ ops) h = spec_answers ops h

-- Times do not go back.
abbrev pub InOrder : ℕ → List Timed → Type 0
InOrder clock [] = Unit
InOrder clock ((now, op) ∷ ops) = (clock ≤ now) × InOrder now ops

-- From a time on, the cache answers as the history does.
abbrev Agrees : ℕ → DedupCache → DedupCache → Type 0
Agrees clock c h =
    (now : ℕ) (key : String) → clock ≤ now → current now (lookup key c) ≡ current now (lookup key h)

expired_later :
    (now later : ℕ) (e : RecentTask)
    → now ≤ later
    → is_expired now e ≡ true
    → is_expired later e ≡ true
unfolding is_expired
expired_later now later e h x = ground arith

look-current :
    (now : ℕ) (key : String) (c : DedupCache) (o : Option RecentTask)
    → (look now key c o).0 ≡ current now o
unfolding look is_expired
look-current now key c none = refl
look-current now key c (some e) = ground arith

-- The keys of a map differ.
abbrev Distinct : DedupCache → Type 0
Distinct [] = Unit
Distinct ((k, e) ∷ c) = (lookup k c ≡ none) × Distinct c

Distinct-erase : (k : String) (c : DedupCache) → Distinct c → Distinct (erase k c)
unfolding erase
Distinct-erase k [] d = tt
Distinct-erase k ((j, e) ∷ c) d = ground (arith, Distinct-erase k c, lookup-erase k j c)

Distinct-insert :
    (k : String) (e : RecentTask) (c : DedupCache) → Distinct c → Distinct (insert k e c)
unfolding insert
Distinct-insert k e c d = (ground (arith, lookup-erase k k c, eq_iff k k), Distinct-erase k c d)

abbrev kept : ℕ → Option RecentTask → Option RecentTask
kept now none = none
kept now (some e) = if is_expired now e then none else some e

lookup-prune :
    (now : ℕ) (k : String) (c : DedupCache)
    → Distinct c
    → lookup k (prune now c) ≡ kept now (lookup k c)
unfolding prune lookup
lookup-prune now k [] d = refl
lookup-prune now k ((j, e) ∷ c) d = ground (arith, lookup-prune now k c d.1, eq_iff j k, d.0)

Distinct-prune : (now : ℕ) (c : DedupCache) → Distinct c → Distinct (prune now c)
unfolding prune
Distinct-prune now [] d = tt
Distinct-prune now ((j, e) ∷ c) d =
    ground (arith, lookup-prune now j c d.1, d.0, Distinct-prune now c d.1)

current-kept :
    (now later : ℕ) (o : Option RecentTask)
    → now ≤ later
    → current later (kept now o) ≡ current later o
unfolding is_expired
current-kept now later none h = refl
current-kept now later (some e) h = ground (arith, expired_later now later e h)

prune-Agrees :
    (now : ℕ) (c h : DedupCache) → Distinct c → Agrees now c h → Agrees now (prune now c) h
prune-Agrees now c h d a later key le =
    rw (lookup-prune now key c d) (current-kept now later (lookup key c) le ∙ a later key le)

erase_expired :
    (now later : ℕ) (k key : String) (c : DedupCache) (e : RecentTask)
    → now ≤ later
    → lookup k c ≡ some e
    → is_expired now e ≡ true
    → current later (lookup key (erase k c)) ≡ current later (lookup key c)
unfolding is_expired
erase_expired now later k key c e le at x =
    ground (arith, lookup-erase k key c, eq_iff k key, expired_later now later e le x)

look_up-keeps :
    (now : ℕ) (k : String) (c h : DedupCache)
    → Distinct c
    → Agrees now c h
    → Distinct (lookup_task now k c).1 × Agrees now (lookup_task now k c).1 h
unfolding lookup_task look
look_up-keeps now k c h d a = elim (Option-cases (lookup k c)) [
  | inl missing ↦ rw missing (d, a)
  | inr (e, at) ↦ elim (Bool-cases (is_expired now e)) [
    | inl old ↦
        rw (at, old)
          (
            Distinct-erase k c d,
            λ later key le. erase_expired now later k key c e le at old ∙ a later key le,
          )
    | inr recent ↦ rw (at, recent) (d, a)
  ]
]

store-Agrees :
    (now : ℕ) (k result : String) (c h : DedupCache)
    → Agrees now c h
    → Agrees now (store now k result c) ((k, record { result = result; completed_at = now }) ∷ h)
unfolding store lookup
store-Agrees now k result c h a later key le =
    ground (
      arith,
      lookup-insert k key (record { result = result; completed_at = now }) c,
      a later key le,
    )

Agrees-later : (clock now : ℕ) (c h : DedupCache) → clock ≤ now → Agrees clock c h → Agrees now c h
Agrees-later clock now c h le a later key now_le = a later key (omega arith)

lookup_task-current :
    (now : ℕ) (key : String) (c : DedupCache)
    → (lookup_task now key c).0 ≡ current now (lookup key c)
unfolding lookup_task
lookup_task-current now key c = look-current now key c (lookup key c)

Distinct-store :
    (now : ℕ) (k result : String) (c : DedupCache) → Distinct c → Distinct (store now k result c)
unfolding store
Distinct-store now k result c d =
    Distinct-insert k (record { result = result; completed_at = now }) c d

answers-spec_answers :
    (ops : List Timed) (clock : ℕ) (c h : DedupCache)
    → InOrder clock ops
    → Distinct c
    → Agrees clock c h
    → answers ops c ≡ spec_answers ops h
unfolding answers perform spec_answers
answers-spec_answers [] clock c h o d a = refl
answers-spec_answers ((now, look_up key) ∷ ops) clock c h o d a =
    let a' = Agrees-later clock now c h o.0 a in
    let k = look_up-keeps now key c h d a' in
    ap (λ x. x ∷ answers ops (lookup_task now key c).1)
      (lookup_task-current now key c ∙ a' now key (omega arith))
    ∙ ap (λ t. current now (lookup key h) ∷ t)
        (answers-spec_answers ops now (lookup_task now key c).1 h o.1 k.0 k.1)
answers-spec_answers ((now, store_result key result) ∷ ops) clock c h o d a =
    let a' = Agrees-later clock now c h o.0 a in
    answers-spec_answers ops now (store now key result c)
      ((key, record { result = result; completed_at = now }) ∷ h) o.1
      (Distinct-store now key result c d) (store-Agrees now key result c h a')
answers-spec_answers ((now, tick) ∷ ops) clock c h o d a =
    let a' = Agrees-later clock now c h o.0 a in
    answers-spec_answers ops now (prune now c) h o.1 (Distinct-prune now c d)
      (prune-Agrees now c h d a')

-- Whatever is looked up, stored and pruned in whatever order, at times that do not go back, an empty cache answers
-- each lookup as the history of all that was stored does: with the result stored last under the
-- key, if that was 30 minutes ago or later.
pub answers_refine : (ops : List Timed) → InOrder 0 ops → answers ops [] ≡ spec_answers ops []
answers_refine ops o = answers-spec_answers ops 0 [] [] o tt (λ now key le. refl)
