-- ===== src/Plan/Keeps.antt =====
-- extensions/plan/plan.go: every operation keeps a plan valid.
use piglet.Prelude.{
  ℕ, suc, String, ◌≡◌, refl, sym, ap, ◌∙◌, subst, inl, inr, Bool, true, false, not, ◌&&◌, List, [],
  ◌∷◌, ◌++◌, arith, str_eq, Bool-cases, Option-cases, length, take, drop, All,
}
use mathlib.Core.Bool.{true≢false}
use piglet.Plan.Steps.{Step, Plan, status_in_progress, valid_status, step_index, next_id, new_step}
use piglet.Plan.Operations.{
  modify, demote, put_status, put_notes, set_status, update_step, insert_after, add_step_after,
  remove_step, append_step, PlanOp, update_op, add_op, remove_op, append_op, run_plan_op,
}
use piglet.Plan.Invariant.{
  IsValid, Distinct, busy, next_id-Fresh, All-insert_after, busy-insert_after,
  Distinct-insert_after, All-remove, busy-remove, Distinct-remove, Distinct-modify, All-modify,
  busy-modify, busy-modify-le, Other-demote,
}

abbrev HasStatus : Step → Type 0
HasStatus s = valid_status s.status ≡ true

Distinct-demote : (ss : List Step) → Distinct ss → Distinct (demote ss)
unfolding demote
Distinct-demote [] d = tt
Distinct-demote (s ∷ ss) (d, ds) = elim (Bool-cases (str_eq s.status status_in_progress)) [
  | inl e ↦ rw e (Other-demote s.id ss d, Distinct-demote ss ds)
  | inr e ↦ rw e (Other-demote s.id ss d, Distinct-demote ss ds)
]

HasStatus-demote : (ss : List Step) → All HasStatus ss → All HasStatus (demote ss)
unfolding demote valid_status
HasStatus-demote [] h = tt
HasStatus-demote (s ∷ ss) (h, hs) = elim (Bool-cases (str_eq s.status status_in_progress)) [
  | inl e ↦ rw e (refl, HasStatus-demote ss hs)
  | inr e ↦ rw e (h, HasStatus-demote ss hs)
]

busy-demote : (ss : List Step) → busy (demote ss) ≡ 0
unfolding demote
busy-demote [] = refl
busy-demote (s ∷ ss) = elim (Bool-cases (str_eq s.status status_in_progress)) [
  | inl e ↦ rw e (omega (arith, busy-demote ss))
  | inr e ↦ rw (e, e) (omega (arith, busy-demote ss))
]

put_notes-IsValid :
    (i : ℕ) (notes sha : String) (ss : List Step)
    → IsValid ss
    → IsValid (modify i (put_notes notes sha) ss)
put_notes-IsValid i notes sha ss (d, h, b) = (
  Distinct-modify (put_notes notes sha) (λ s. refl) i ss d,
  All-modify HasStatus (put_notes notes sha) (λ s k. k) i ss h,
  omega (arith, b, busy-modify-le (put_notes notes sha) (λ s. omega arith) i ss),
)

put_status-IsValid :
    (i : ℕ) (status : String) (ss : List Step)
    → valid_status status ≡ true
    → IsValid ss
    → (str_eq status status_in_progress ≡ true → busy ss ≡ 0)
    → IsValid (modify i (put_status status) ss)
put_status-IsValid i status ss v (d, h, b) quiet = (
  Distinct-modify (put_status status) (λ s. refl) i ss d,
  All-modify HasStatus (put_status status) (λ s k. v) i ss h,
  elim (Bool-cases (str_eq status status_in_progress)) [
    | inl e ↦ omega (arith, quiet e, busy-modify (put_status status) i ss)
    | inr e ↦ omega (arith, b, busy-modify-le (put_status status) (λ s. rw e (omega arith)) i ss)
  ],
)

demote-IsValid : (ss : List Step) → IsValid ss → IsValid (demote ss)
demote-IsValid ss (d, h, b) =
    (Distinct-demote ss d, HasStatus-demote ss h, omega (arith, busy-demote ss))

true_of_not : (b : Bool) → not b ≡ false → b ≡ true
true_of_not true h = refl
true_of_not false h = absurd (true≢false h)

set_status-IsValid :
    (i : ℕ) (status : String) (ss : List Step)
    → (not (str_eq status "") && not (valid_status status)) ≡ false
    → IsValid ss
    → IsValid (set_status i status ss)
set_status-IsValid i status ss ok v = elim (Bool-cases (str_eq status "")) [
  | inl same ↦ rw same v
  | inr new ↦
      let valid = true_of_not (valid_status status) (rw new at ok) in
      rw new (elim (Bool-cases (str_eq status status_in_progress)) [
        | inl e ↦ rw e (
            put_status-IsValid i status (demote ss) valid (demote-IsValid ss v)
              (λ h. busy-demote ss))
        | inr e ↦
            rw e (put_status-IsValid i status ss valid v (λ h. absurd (true≢false (sym h ∙ e))))
      ])
]

insert_after-IsValid :
    (i : ℕ) (text : String) (ss : List Step)
    → IsValid ss
    → IsValid (insert_after i (new_step (next_id ss) text) ss)
unfolding valid_status
insert_after-IsValid i text ss (d, h, b) =
    let x = new_step (next_id ss) text in
    (
      Distinct-insert_after x i ss (next_id-Fresh ss) d,
      All-insert_after x HasStatus i ss refl h,
      omega (arith, b, busy-insert_after x i ss),
    )

remove-IsValid : (i : ℕ) (ss : List Step) → IsValid ss → IsValid (take i ss ++ drop (suc i) ss)
remove-IsValid i ss (d, h, b) =
    (Distinct-remove i ss d, All-remove HasStatus i ss h, omega (arith, b, busy-remove i ss))

-- A step behind all others.
append-insert : (x : Step) (ss : List Step) → ss ++ x ∷ [] ≡ insert_after (length ss) x ss
append-insert x [] = refl
append-insert x (s ∷ ss) = ap (λ t. s ∷ t) (append-insert x ss)

append_step-IsValid :
    (text : String) (now : ℕ) (p : Plan) → IsValid p.steps → IsValid (append_step text now p).steps
unfolding append_step
append_step-IsValid text now p v =
    subst IsValid (sym (append-insert (new_step (next_id p.steps) text) p.steps))
      (insert_after-IsValid (length p.steps) text p.steps v)

update_step-IsValid :
    (id : ℕ) (status notes sha : String) (now : ℕ) (p : Plan)
    → IsValid p.steps
    → IsValid (update_step id status notes sha now p).0.steps
unfolding update_step
update_step-IsValid id status notes sha now p v = elim (Option-cases (step_index id p.steps)) [
  | inl out ↦ rw (out, update_step) v
  | inr (i, e) ↦
      rw (e, update_step)
        (elim (Bool-cases (not (str_eq status "") && not (valid_status status))) [
          | inl bad ↦ rw bad v
          | inr ok ↦ rw ok (
              put_notes-IsValid i notes sha (set_status i status p.steps)
                (set_status-IsValid i status p.steps ok v))
        ])
]

add_step_after-IsValid :
    (after : ℕ) (text : String) (now : ℕ) (p : Plan)
    → IsValid p.steps
    → IsValid (add_step_after after text now p).0.steps
unfolding add_step_after
add_step_after-IsValid after text now p v = elim (Option-cases (step_index after p.steps)) [
  | inl out ↦ rw (out, add_step_after) v
  | inr (i, e) ↦ rw (e, add_step_after) (insert_after-IsValid i text p.steps v)
]

remove_step-IsValid :
    (id now : ℕ) (p : Plan) → IsValid p.steps → IsValid (remove_step id now p).0.steps
unfolding remove_step
remove_step-IsValid id now p v = elim (Option-cases (step_index id p.steps)) [
  | inl out ↦ rw (out, remove_step) v
  | inr (i, e) ↦ rw (e, remove_step) (remove-IsValid i p.steps v)
]

-- IDs stay distinct, statuses valid, and at most one step in progress, whatever operation is called,
-- also one that fails.
pub run_plan_op-IsValid :
    (now : ℕ) (op : PlanOp) (p : Plan) → IsValid p.steps → IsValid (run_plan_op now op p).steps
unfolding run_plan_op
run_plan_op-IsValid now (update_op id status notes sha) p v =
    update_step-IsValid id status notes sha now p v
run_plan_op-IsValid now (add_op after text) p v = add_step_after-IsValid after text now p v
run_plan_op-IsValid now (remove_op id) p v = remove_step-IsValid id now p v
run_plan_op-IsValid now (append_op text) p v = append_step-IsValid text now p v
