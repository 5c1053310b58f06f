-- ===== src/Plan/Operations.antt =====
-- extensions/plan/plan.go: the operations that change a plan.
use piglet.Prelude.{
  ℕ, zero, suc, ◌+◌, String, true, false, not, ◌&&◌, Option, none, some, List, [], ◌∷◌, ◌++◌,
  str_eq, ◌==◌, if◌then◌else◌, length, take, drop,
}
use piglet.Shell.Slash.{fields}
use piglet.Plan.Steps.{
  Step, Plan, status_pending, status_in_progress, valid_status, step_index, next_id, new_step,
}

pub data Err : Type 0 where
  title_required steps_required : Err
  step_not_found : ℕ → Err
  invalid_status : String → Err

unfoldable pub number_steps : ℕ → List String → List Step
number_steps i [] = []
number_steps i (t ∷ ts) = new_step i t ∷ number_steps (i + 1) ts

-- `NewPlan`, with the slug of the title.
unfoldable pub new_plan : String → String → List String → ℕ → Option Err × Option Plan
unfolding number_steps
new_plan title slug texts now =
    let plan : Plan = record {
      title = title;
      slug = slug;
      mode = "";
      created = now;
      updated = now;
      active = true;
      steps = number_steps 1 texts;
      git_enabled = false;
    } in
    if length (fields title "") == 0
    then (some title_required, none)
    else if length texts == 0
    then (some steps_required, none)
    else (none, some plan)

-- A write to the step at an index.
abbrev pub modify : ℕ → (Step → Step) → List Step → List Step
modify i f [] = []
modify zero f (s ∷ ss) = f s ∷ ss
modify (suc i) f (s ∷ ss) = s ∷ modify i f ss

-- Steps in progress become pending.
unfoldable pub demote : List Step → List Step
demote [] = []
demote (s ∷ ss) =
    (if str_eq s.status status_in_progress then record s { status = status_pending } else s)
    ∷ demote ss

abbrev pub put_status : String → Step → Step
put_status status s = record s { status = status }

abbrev pub put_notes : String → String → Step → Step
put_notes notes sha s = record s {
  notes = if str_eq notes "" then s.notes else notes;
  commit_sha = if str_eq sha "" then s.commit_sha else sha;
}

abbrev pub set_status : ℕ → String → List Step → List Step
set_status i status ss =
    if str_eq status ""
    then ss
    else modify i (put_status status) (if str_eq status status_in_progress then demote ss else ss)

-- `UpdateStep`
unfoldable pub update_step : ℕ → String → String → String → ℕ → Plan → Plan × Option Err
update_step id status notes sha now p = elim (step_index id p.steps) [
  | none ↦ (p, some (step_not_found id))
  | some i ↦
      if not (str_eq status "") && not (valid_status status)
      then (p, some (invalid_status status))
      else (
        record p {
          steps = modify i (put_notes notes sha) (set_status i status p.steps);
          updated = now;
        },
        none,
      )
]

-- `slices.Insert` behind an index.
abbrev pub insert_after : ℕ → Step → List Step → List Step
insert_after i x [] = x ∷ []
insert_after zero x (s ∷ ss) = s ∷ x ∷ ss
insert_after (suc i) x (s ∷ ss) = s ∷ insert_after i x ss

-- `AddStepAfter`
unfoldable pub add_step_after : ℕ → String → ℕ → Plan → Plan × Option Err
add_step_after after text now p = elim (step_index after p.steps) [
  | none ↦ (p, some (step_not_found after))
  | some i ↦ (
    record p { steps = insert_after i (new_step (next_id p.steps) text) p.steps; updated = now },
    none,
  )
]

-- `RemoveStep`
unfoldable pub remove_step : ℕ → ℕ → Plan → Plan × Option Err
remove_step id now p = elim (step_index id p.steps) [
  | none ↦ (p, some (step_not_found id))
  | some i ↦ (record p { steps = take i p.steps ++ drop (suc i) p.steps; updated = now }, none)
]

-- `AppendStep`
unfoldable pub append_step : String → ℕ → Plan → Plan
append_step text now p = record p {
  steps = p.steps ++ new_step (next_id p.steps) text ∷ [];
  updated = now;
}

-- A call of an operation.
pub data PlanOp : Type 0 where
  update_op : ℕ → String → String → String → PlanOp
  add_op : ℕ → String → PlanOp
  remove_op : ℕ → PlanOp
  append_op : String → PlanOp

unfoldable pub run_plan_op : ℕ → PlanOp → Plan → Plan
unfolding update_step add_step_after remove_step append_step
run_plan_op now (update_op id status notes sha) p = (update_step id status notes sha now p).0
run_plan_op now (add_op after text) p = (add_step_after after text now p).0
run_plan_op now (remove_op id) p = (remove_step id now p).0
run_plan_op now (append_op text) p = append_step text now p
