-- ===== src/Pipeline/Finishes.antt =====
-- extensions/pipeline/execute.go: a step whose texts do not panic comes to a result.
use piglet.Pipeline.Texts.{max_int}
use piglet.Prelude.{
  ◌≢◌, true, ltb, ℕ, zero, suc, ◌≡◌, refl, ◌⊎◌, inl, inr, String, Option, none, some, List, [], ◌∷◌,
  Bool-cases,
}
use piglet.Pipeline.Texts.{pos}
use piglet.Pipeline.Types.{Step, status_ok, status_error, StepResult, bad_loop, step_timeout}
use piglet.Pipeline.Loops.{
  Iteration, Iterations, once, iterations, no_iterations, never, expand_iterations,
}
use piglet.Pipeline.Template.{TemplateContext, expanded, expand}
use piglet.Pipeline.Execute.{
  Call, Log, World, shell_run, result, tried, gave_up, attempt, step_call, in_iteration,
  execute_single, run_iterations, has_error, collect, execute_iterations, execute_step,
}

-- In every context the text can be expanded.
abbrev pub NoPanic : World → String → Type 0
NoPanic w s = (tc : TemplateContext) → (t : String) × (expand w.unmarshal tc s ≡ expanded t)

-- None of the step's texts panics, its retries are neither below 0 nor the greatest int, and the ranges of its loop
-- and their combinations are listed.
pub record CanRun (w : World) (s : Step) : Type 0 where
  pub run_text : NoPanic w s.run
  pub dir_text : NoPanic w s.work_dir
  pub when_text : NoPanic w s.when
  pub retries_fit : (n : ℕ) × (s.retries ≡ pos n) × (ltb n max_int ≡ true)
  pub lists : expand_iterations w.date s ≢ never

-- A result of the step with the name that is ok or an error.
abbrev pub IsNamed : String → StepResult → Type 0
IsNamed name r = (r.name ≡ name) × ((r.status ≡ status_ok) ⊎ (r.status ≡ status_error))

abbrev pub Executes : World → Step → Option (StepResult × Log) → Type 0
Executes w s o = (r : StepResult) × (log : Log) × (o ≡ some (r, log)) × IsNamed s.name r

-- What ends with an error or without ends as that result.
tried-result :
    (name : String) (retries : ℕ) (log : Log) (failed : String → String → StepResult × Log)
    (reply : String × Option String)
    → ((out e : String) → IsNamed name (failed out e).0)
    → IsNamed name (tried name retries log failed reply).0
tried-result name retries log failed (out, none) h = (refl, inl refl)
tried-result name retries log failed (out, some e) h = h out e

attempt-result :
    (w : World) (name : String) (c : Call) (left retries : ℕ) (log : Log)
    → IsNamed name (attempt w name c left retries log).0
unfolding attempt
attempt-result w name c zero retries log =
    tried-result name retries (c ∷ log) (gave_up name retries (c ∷ log)) (shell_run w c log)
      (λ out e. (refl, inr refl))
attempt-result w name c (suc left) retries log =
    tried-result name retries (c ∷ log) (λ out e. attempt w name c left (suc retries) (c ∷ log))
      (shell_run w c log) (λ out e. attempt-result w name c left (suc retries) (c ∷ log))

pub step_call_total :
    (w : World) (s : Step) (tc : TemplateContext)
    → CanRun w s
    → (c : Call) × (step_call w s tc ≡ some c)
unfolding step_call
step_call_total w s tc can =
    let (t, e) = can.run_text tc in
    let (d, f) = can.dir_text tc in
    (
      record { shell = s.shell; command = t; work_dir = d; env = s.env; timeout = step_timeout s },
      rw (e, f),
    )

execute_single-Executes :
    (w : World) (s : Step) (tc : TemplateContext) (log : Log)
    → CanRun w s
    → Executes w s (execute_single w s tc log)
unfolding execute_single
execute_single-Executes w s tc log can =
    let (c, e) = step_call_total w s tc can in
    let (n, h, fits) = can.retries_fit in
    (
      (attempt w s.name c n 0 log).0,
      (attempt w s.name c n 0 log).1,
      rw (e, h, fits),
      attempt-result w s.name c n 0 log,
    )

run_iterations_total :
    (w : World) (s : Step) (tc : TemplateContext) (is : List Iteration) (log : Log)
    → CanRun w s
    → (rs : List (String × Option String)) × (log' : Log) × (run_iterations w s tc is log
        ≡ some (rs, log'))
unfolding run_iterations
run_iterations_total w s tc [] log can = ([], log, refl)
run_iterations_total w s tc (i ∷ is) log can =
    let (c, e) = step_call_total w s (in_iteration i tc) can in
    let (rs, log', f) = run_iterations_total w s tc is (c ∷ log) can in
    (shell_run w c log ∷ rs, log', rw (e, f))

collect-result :
    (name : String) (rs : List (String × Option String)) → IsNamed name (collect name rs)
unfolding collect
collect-result name rs = elim (Bool-cases (has_error rs)) [
  | inl failed ↦ (refl, inr (rw failed))
  | inr fine ↦ (refl, inl (rw fine))
]

execute_iterations-Executes :
    (w : World) (s : Step) (tc : TemplateContext) (log : Log) (is : Iterations)
    → CanRun w s
    → is ≢ never
    → Executes w s (execute_iterations w s tc log is)
unfolding execute_iterations
execute_iterations-Executes w s tc log never can lists = absurd (lists refl)
execute_iterations-Executes w s tc log once can lists = execute_single-Executes w s tc log can
execute_iterations-Executes w s tc log (no_iterations key raw) can lists =
    (result s.name status_error "" (bad_loop key raw) 0 0, log, refl, (refl, inr refl))
execute_iterations-Executes w s tc log (iterations is) can lists =
    let (rs, log', e) = run_iterations_total w s tc is log can in
    (collect s.name rs, log', rw e, collect-result s.name rs)

pub execute_step-Executes :
    (w : World) (s : Step) (tc : TemplateContext) (log : Log)
    → CanRun w s
    → Executes w s (execute_step w s tc log)
unfolding execute_step
execute_step-Executes w s tc log can =
    execute_iterations-Executes w s tc log (expand_iterations w.date s) can can.lists
