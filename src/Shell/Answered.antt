-- ===== src/Shell/Answered.antt =====
-- shell/repair.go: the tool calls of a history and the results that it has.
use piglet.Prelude.{
  ℕ, String, ◌≡◌, refl, ap, ◌∙◌, subst, inl, inr, Bool, true, false, ◌&&◌, ◌||◌, List, [], ◌∷◌,
  ◌++◌, arith, str_eq, eq_refl, Bool-cases, any, all, and_left, and_right,
}
use mathlib.Core.Bool.{true≢false}
use piglet.Core.Types.{Message, user, assistant, tool_result, AssistantContent, tool_call}
use piglet.Shell.Repair.{result_ids, has_result, missing_results, behind, repair_loop, repaired}

-- Every tool call has a result among the IDs.
abbrev answered_content : List String → List AssistantContent → Bool
answered_content ids [] = true
answered_content ids (tool_call tc ∷ cs) = has_result ids tc.id && answered_content ids cs
answered_content ids (_ ∷ cs) = answered_content ids cs

abbrev answered : List String → Message → Bool
answered ids (assistant m) = answered_content ids m.content
answered ids (user m) = true
answered ids (tool_result r) = true

-- Every tool call of the history has a result in the history.
abbrev pub IsAnswered : List Message → Type 0
IsAnswered ms = all (answered (result_ids ms)) ms ≡ true

-- An answered history needs no placeholder.
missing-answered :
    (now : ℕ) (ids : List String) (cs : List AssistantContent)
    → answered_content ids cs ≡ true
    → missing_results now ids cs ≡ []
unfolding missing_results
missing-answered now ids [] h = refl
missing-answered now ids (AssistantContent.text t ∷ cs) h = missing-answered now ids cs h
missing-answered now ids (AssistantContent.thinking t ∷ cs) h = missing-answered now ids cs h
missing-answered now ids (tool_call tc ∷ cs) h =
    let has = and_left (has_result ids tc.id) (answered_content ids cs) h in
    rw has (missing-answered now ids cs (and_right _ _ h))

behind-answered :
    (now : ℕ) (ids : List String) (m : Message) → answered ids m ≡ true → behind now ids m ≡ []
behind-answered now ids (user m) h = refl
behind-answered now ids (tool_result r) h = refl
behind-answered now ids (assistant m) h = missing-answered now ids m.content h

pub repaired-answered :
    (now : ℕ) (ids : List String) (ms : List Message)
    → all (answered ids) ms ≡ true
    → repaired now ids ms ≡ false
unfolding repaired
repaired-answered now ids [] h = refl
repaired-answered now ids (m ∷ ms) h =
    rw (behind-answered now ids m (and_left _ _ h)) (repaired-answered now ids ms (and_right _ _ h))

-- What is a result before is one after.
pub result_ids-append :
    (xs ys : List Message) → result_ids (xs ++ ys) ≡ result_ids xs ++ result_ids ys
unfolding result_ids
result_ids-append [] ys = refl
result_ids-append (user m ∷ xs) ys = result_ids-append xs ys
result_ids-append (assistant m ∷ xs) ys = result_ids-append xs ys
result_ids-append (tool_result r ∷ xs) ys = ap (λ t. r.tool_call_id ∷ t) (result_ids-append xs ys)

any-append : (p : String → Bool) (xs ys : List String) → any p (xs ++ ys) ≡ (any p xs || any p ys)
any-append p [] ys = refl
any-append p (x ∷ xs) ys = ground (arith, any-append p xs ys)

pub or_left : (a b : Bool) → (a || b) ≡ false → a ≡ false
or_left true b h = h
or_left false b h = refl

pub or_right : (a b : Bool) → (a || b) ≡ false → b ≡ false
or_right true b h = absurd (true≢false h)
or_right false b h = h

pub or_true : (b : Bool) → (b || true) ≡ true
or_true true = refl
or_true false = refl

pub has_result-append :
    (xs ys : List String) (id : String)
    → has_result (xs ++ ys) id ≡ (has_result xs id || has_result ys id)
unfolding has_result
has_result-append xs ys id = any-append (λ x. str_eq x id) xs ys

-- A list of IDs that has those of another.
abbrev pub Covers : List String → List String → Type 0
Covers big small = (id : String) → has_result small id ≡ true → has_result big id ≡ true

Covers-right : (xs ys big : List String) → Covers big (xs ++ ys) → Covers big ys
Covers-right xs ys big c id h =
    c id (has_result-append xs ys id ∙ (rw h (or_true (has_result xs id))))

Covers-left : (xs ys big : List String) → Covers big (xs ++ ys) → Covers big xs
Covers-left xs ys big c id h = c id (has_result-append xs ys id ∙ (rw h refl))

first_has : (id : String) (ids : List String) → has_result (id ∷ ids) id ≡ true
unfolding has_result
first_has id ids = rw (eq_refl id) refl

answered-missing :
    (now : ℕ) (ids big : List String) (cs : List AssistantContent)
    → Covers big ids
    → Covers big (result_ids (missing_results now ids cs))
    → answered_content big cs ≡ true
unfolding missing_results result_ids
answered-missing now ids big [] old new = refl
answered-missing now ids big (AssistantContent.text t ∷ cs) old new =
    answered-missing now ids big cs old new
answered-missing now ids big (AssistantContent.thinking t ∷ cs) old new =
    answered-missing now ids big cs old new
answered-missing now ids big (tool_call tc ∷ cs) old new =
    elim (Bool-cases (has_result ids tc.id)) [
      | inl has ↦
          rw (old tc.id has) (answered-missing now ids big cs old (λ id h. new id (rw has h)))
      | inr no_result ↦
          let all_new : Covers big (tc.id ∷ result_ids (missing_results now ids cs)) =
            λ id h. new id (rw no_result h) in
          let found = all_new tc.id (first_has tc.id (result_ids (missing_results now ids cs))) in
          rw found (
            answered-missing now ids big cs old
              (Covers-right (tc.id ∷ []) (result_ids (missing_results now ids cs)) big all_new))
    ]

answered-behind :
    (now : ℕ) (ids big : List String) (m : Message)
    → Covers big ids
    → Covers big (result_ids (behind now ids m))
    → answered big m ≡ true
answered-behind now ids big (user m) old new = refl
answered-behind now ids big (tool_result r) old new = refl
answered-behind now ids big (assistant m) old new = answered-missing now ids big m.content old new

-- Placeholders hold no calls.
all-missing :
    (now : ℕ) (ids big : List String) (cs : List AssistantContent) (ms : List Message)
    → all (answered big) ms ≡ true
    → all (answered big) (missing_results now ids cs ++ ms) ≡ true
unfolding missing_results
all-missing now ids big [] ms h = h
all-missing now ids big (AssistantContent.text t ∷ cs) ms h = all-missing now ids big cs ms h
all-missing now ids big (AssistantContent.thinking t ∷ cs) ms h = all-missing now ids big cs ms h
all-missing now ids big (tool_call tc ∷ cs) ms h = elim (Bool-cases (has_result ids tc.id)) [
  | inl has ↦ rw has (all-missing now ids big cs ms h)
  | inr no_result ↦ rw no_result (all-missing now ids big cs ms h)
]

all-behind :
    (now : ℕ) (ids big : List String) (m : Message) (ms : List Message)
    → all (answered big) ms ≡ true
    → all (answered big) (behind now ids m ++ ms) ≡ true
all-behind now ids big (user m) ms h = h
all-behind now ids big (tool_result r) ms h = h
all-behind now ids big (assistant m) ms h = all-missing now ids big m.content ms h

Covers-tail :
    (m : Message) (ms : List Message) (big : List String)
    → Covers big (result_ids (m ∷ ms))
    → Covers big (result_ids ms)
unfolding result_ids
Covers-tail (user m) ms big c = c
Covers-tail (assistant m) ms big c = c
Covers-tail (tool_result r) ms big c = Covers-right (r.tool_call_id ∷ []) (result_ids ms) big c

pub all-repair_loop :
    (now : ℕ) (ids big : List String) (ms : List Message)
    → Covers big ids
    → Covers big (result_ids (repair_loop now ids ms))
    → all (answered big) (repair_loop now ids ms) ≡ true
unfolding repair_loop
all-repair_loop now ids big [] old new = refl
all-repair_loop now ids big (m ∷ ms) old new =
    let rest = repair_loop now ids ms in
    let tail : Covers big (result_ids (behind now ids m) ++ result_ids rest) =
      subst (Covers big) (result_ids-append (behind now ids m) rest)
        (Covers-tail m (behind now ids m ++ rest) big new) in
    rw
      (answered-behind now ids big m old
        (Covers-left (result_ids (behind now ids m)) (result_ids rest) big tail))
      (all-behind now ids big m rest (
        all-repair_loop now ids big ms old
          (Covers-right (result_ids (behind now ids m)) (result_ids rest) big tail)))
