-- ===== src/Plan/Undo.antt =====
-- extensions/plan/plan.go: a step that is added and removed again, and the end of a plan.
use piglet.Prelude.{
  ℕ, zero, suc, ◌≤◌, ◌<◌, String, ◌≡◌, refl, sym, ap, ◌∙◌, subst, ◌↔◌, inl, inr, true, none, some,
  List, [], ◌∷◌, ◌++◌, arith, ◌==◌, Bool-cases, length, take, drop, all, All, bind-some, eqb_of_ne,
  eqb_refl,
}
use mathlib.Core.Bool.{true≢false}
use mathlib.Core.Option.{none-ne-some, some-injective}
use piglet.Plan.Steps.{
  Step, Plan, step_index, next_id, new_step, is_terminal, is_complete, resume_step,
}
use piglet.Plan.Operations.{insert_after, add_step_after, remove_step}
use piglet.Plan.Invariant.{Other, next_id-Fresh}

step_index-insert_after :
    (x : Step) (i : ℕ) (ss : List Step)
    → All (Other x.id) ss
    → i < length ss
    → step_index x.id (insert_after i x ss) ≡ some (suc i)
unfolding step_index
step_index-insert_after x i [] f l = absurd (omega arith)
step_index-insert_after x zero (s ∷ ss) (f, fs) l = rw (eqb_of_ne s.id x.id f, eqb_refl x.id) refl
step_index-insert_after x (suc i) (s ∷ ss) (f, fs) l =
    rw (eqb_of_ne s.id x.id f, step_index-insert_after x i ss fs (omega arith)) refl

-- Cutting out the step behind an index.
remove-insert_after :
    (x : Step) (i : ℕ) (ss : List Step)
    → i < length ss
    → take (suc i) (insert_after i x ss) ++ drop (suc (suc i)) (insert_after i x ss) ≡ ss
remove-insert_after x i [] l = absurd (omega arith)
remove-insert_after x zero (s ∷ ss) l = refl
remove-insert_after x (suc i) (s ∷ ss) l =
    ap (λ t. s ∷ t) (remove-insert_after x i ss (omega arith))

step_index-lt : (id i : ℕ) (ss : List Step) → step_index id ss ≡ some i → i < length ss
unfolding step_index
step_index-lt id i [] e = absurd (none-ne-some _ e)
step_index-lt id i (s ∷ ss) e = elim (Bool-cases (s.id == id)) [
  | inl here ↦ subst (λ k. k < length (s ∷ ss)) (some-injective 0 i (rw here at e)) (omega arith)
  | inr on ↦
      let (j, found, q) = bind-some (step_index id ss) _ _ (rw on at e) in
      subst (λ k. k < length (s ∷ ss)) (some-injective (suc j) i q)
        (omega (arith, step_index-lt id j ss found))
]

add_step_after-found :
    (after : ℕ) (text : String) (now : ℕ) (p : Plan) (i : ℕ)
    → step_index after p.steps ≡ some i
    → (add_step_after after text now p).0
      ≡ record p { steps = insert_after i (new_step (next_id p.steps) text) p.steps; updated = now }
unfolding add_step_after
add_step_after-found after text now p i e = rw (e, add_step_after) refl

remove_step-found :
    (id now : ℕ) (p : Plan) (i : ℕ)
    → step_index id p.steps ≡ some i
    → (remove_step id now p).0.steps ≡ take i p.steps ++ drop (suc i) p.steps
unfolding remove_step
remove_step-found id now p i e = rw (e, remove_step) refl

-- Removing the step that was just added gives back the steps of the plan.
pub remove_step-add_step_after :
    (after : ℕ) (text : String) (now later : ℕ) (p : Plan) (i : ℕ)
    → step_index after p.steps ≡ some i
    → (remove_step (next_id p.steps) later (add_step_after after text now p).0).0.steps ≡ p.steps
remove_step-add_step_after after text now later p i e =
    let x = new_step (next_id p.steps) text in
    let l = step_index-lt after i p.steps e in
    let q : Plan = record p { steps = insert_after i x p.steps; updated = now } in
    rw (add_step_after-found after text now p i e) (
      remove_step-found (next_id p.steps) later q (suc i)
        (step_index-insert_after x i p.steps (next_id-Fresh p.steps) l)
      ∙ remove-insert_after x i p.steps l)

all_terminal-resume :
    (ss : List Step)
    → (all (λ (s : Step). is_terminal s.status) ss ≡ true) ↔ (resume_step ss ≡ none)
unfolding resume_step
all_terminal-resume [] = (λ e. refl, λ e. refl)
all_terminal-resume (s ∷ ss) = elim (Bool-cases (is_terminal s.status)) [
  | inl e ↦ rw e (all_terminal-resume ss)
  | inr e ↦ rw e (λ h. absurd (true≢false (sym h)), λ h. absurd (none-ne-some _ (sym h)))
]

-- A plan with steps is complete exactly when there is no step to resume.
pub is_complete-resume_step :
    (ss : List Step) → 1 ≤ length ss → (is_complete ss ≡ true) ↔ (resume_step ss ≡ none)
unfolding is_complete
is_complete-resume_step [] h = absurd (omega arith)
is_complete-resume_step (s ∷ ss) h = all_terminal-resume (s ∷ ss)
