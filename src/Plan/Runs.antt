-- ===== src/Plan/Runs.antt =====
-- extensions/plan/plan.go: a new plan and what calls make of it.
use piglet.Prelude.{
  ℕ, ◌+◌, ◌<◌, String, ◌≡◌, refl, ap, subst, inl, inr, true, Option, none, some, List, [], ◌∷◌,
  arith, ◌==◌, Bool-cases, length, All,
}
use mathlib.Core.Option.{none-ne-some, some-injective}
use piglet.Shell.Slash.{fields}
use piglet.Plan.Steps.{Step, Plan, valid_status}
use piglet.Plan.Operations.{Err, number_steps, new_plan, PlanOp, run_plan_op}
use piglet.Plan.Invariant.{IsValid, Distinct, Other, busy}
use piglet.Plan.Keeps.{run_plan_op-IsValid}

-- Calls in their order, each at its time.
unfoldable pub run_plan_ops : List (ℕ × PlanOp) → Plan → Plan
unfolding run_plan_op
run_plan_ops [] p = p
run_plan_ops ((now, op) ∷ ops) p = run_plan_ops ops (run_plan_op now op p)

Other-number_steps :
    (id i : ℕ) (texts : List String) → id < i → All (Other id) (number_steps i texts)
unfolding number_steps
Other-number_steps id i [] l = tt
Other-number_steps id i (t ∷ ts) l =
    (λ e. absurd (omega arith), Other-number_steps id (i + 1) ts (omega arith))

Distinct-number_steps : (i : ℕ) (texts : List String) → Distinct (number_steps i texts)
unfolding number_steps
Distinct-number_steps i [] = tt
Distinct-number_steps i (t ∷ ts) =
    (Other-number_steps i (i + 1) ts (omega arith), Distinct-number_steps (i + 1) ts)

pending-number_steps :
    (i : ℕ) (texts : List String)
    → All (λ (s : Step). valid_status s.status ≡ true) (number_steps i texts)
unfolding number_steps valid_status
pending-number_steps i [] = tt
pending-number_steps i (t ∷ ts) = (refl, pending-number_steps (i + 1) ts)

busy-number_steps : (i : ℕ) (texts : List String) → busy (number_steps i texts) ≡ 0
unfolding number_steps
busy-number_steps i [] = refl
busy-number_steps i (t ∷ ts) = omega (arith, busy-number_steps (i + 1) ts)

new_plan-IsValid :
    (title slug : String) (texts : List String) (now : ℕ) (p : Plan)
    → new_plan title slug texts now ≡ (none, some p)
    → IsValid p.steps
unfolding new_plan
new_plan-IsValid title slug texts now p e = elim (Bool-cases (length (fields title "") == 0)) [
  | inl blank ↦ absurd (none-ne-some p (ap (λ (r : Option Err × Option Plan). r.1) (rw blank at e)))
  | inr named ↦ elim (Bool-cases (length texts == 0)) [
    | inl empty ↦
        absurd (
          none-ne-some p (ap (λ (r : Option Err × Option Plan). r.1) (rw empty at (rw named at e))))
    | inr some_steps ↦
        let made =
          some-injective _ p
            (ap (λ (r : Option Err × Option Plan). r.1) (rw some_steps at (rw named at e))) in
        subst (λ (q : Plan). IsValid q.steps) made
          (
            Distinct-number_steps 1 texts,
            pending-number_steps 1 texts,
            omega (arith, busy-number_steps 1 texts),
          )
  ]
]

run_plan_ops-Keeps :
    (ops : List (ℕ × PlanOp)) (p : Plan) → IsValid p.steps → IsValid (run_plan_ops ops p).steps
unfolding run_plan_ops
run_plan_ops-Keeps [] p v = v
run_plan_ops-Keeps ((now, op) ∷ ops) p v =
    run_plan_ops-Keeps ops (run_plan_op now op p) (run_plan_op-IsValid now op p v)

-- Whatever is called on a plan that NewPlan makes, its step IDs are distinct, every status is one of the
-- five, and at most one step is in progress.
pub run_plan_ops-IsValid :
    (title slug : String) (texts : List String) (now : ℕ) (p : Plan) (ops : List (ℕ × PlanOp))
    → new_plan title slug texts now ≡ (none, some p)
    → IsValid (run_plan_ops ops p).steps
run_plan_ops-IsValid title slug texts now p ops e =
    run_plan_ops-Keeps ops p (new_plan-IsValid title slug texts now p e)
