-- ===== src/Plan/Examples.antt =====
-- A plan on which the theorems of this folder are used.
use piglet.Prelude.{String, ◌≡◌, refl, true, false, none, some, List, [], ◌∷◌}
use piglet.Plan.Steps.{Plan, new_step}
use piglet.Plan.Operations.{new_plan, update_op, add_op, remove_op, append_op}
use piglet.Plan.Invariant.{IsValid}
use piglet.Plan.Runs.{run_plan_ops, run_plan_ops-IsValid}

abbrev texts : List String
texts = "read" ∷ "write" ∷ "test" ∷ []

made : (p : Plan) × (new_plan "Ship it" "ship-it" texts 1 ≡ (none, some p))
unfolding new_plan piglet.Shell.Slash.fields
made = (_, refl)

run_plan_ops-IsValid_example :
    IsValid
      (run_plan_ops
        ((2, update_op 1 "in_progress" "" "")
          ∷ (3, update_op 2 "in_progress" "now" "")
          ∷ (4, add_op 2 "check")
          ∷ (5, remove_op 1)
          ∷ (6, append_op "publish")
          ∷ [])
        made.0).steps
run_plan_ops-IsValid_example =
    run_plan_ops-IsValid "Ship it" "ship-it" texts 1 made.0
      ((2, update_op 1 "in_progress" "" "")
        ∷ (3, update_op 2 "in_progress" "now" "")
        ∷ (4, add_op 2 "check")
        ∷ (5, remove_op 1)
        ∷ (6, append_op "publish")
        ∷ [])
      made.1

abbrev plan : Plan
plan = record {
  title = "Ship it";
  slug = "ship-it";
  mode = "";
  created = 1;
  updated = 1;
  active = true;
  steps = new_step 1 "read" ∷ new_step 2 "write" ∷ [];
  git_enabled = false;
}
