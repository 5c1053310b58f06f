-- ===== src/Pipeline/Execute.antt =====
-- extensions/pipeline/execute.go: the run of a step. What a command gives, which may depend on
-- the commands that ran before it, is given. The iterations of a step start in their order: in whichever order
-- they end, each result has its own place. A result is none where the code panics.
use Prim.Native.String.{◌++◌ as ◌+++◌}
use piglet.Prelude.{
  ltb, ℕ, zero, suc, String, Bool, true, false, not, ◌||◌, Option, none, some, List, [], ◌∷◌,
  str_eq, if◌then◌else◌, ◌>>=◌, length, Assoc,
}
use piglet.Pipeline.Texts.{max_int, ℤ, pos, negsuc, trim_space, show_nat, join_lines}
use piglet.Pipeline.Types.{
  Step, Status, status_ok, status_error, StepError, no_error, bad_loop, command_failed,
  iterations_failed, StepResult, step_timeout,
}
use piglet.Pipeline.Loops.{
  Iteration, Iterations, once, iterations, no_iterations, never, expand_iterations,
}
use piglet.Pipeline.Template.{
  Unmarshal, TemplateContext, Expanded, expanded, panicked, unfinished, expand,
}

-- A command as it is started, with its time limit in seconds.
pub record Call : Type 0 where
  pub shell : String
  pub command : String
  pub work_dir : String
  pub env : Assoc String
  pub timeout : ℕ

-- The commands that were started, the latest first.
abbrev pub Log : Type 0
Log = List Call

pub record World : Type 0 where
  pub unmarshal : Unmarshal
  pub date : ℤ → String
  -- What a command writes, and its error if it has one.
  pub exec : Log → Call → String × Option String

abbrev pub of_expanded : Expanded → Option String
of_expanded (expanded s) = some s
of_expanded panicked = none
of_expanded unfinished = none

abbrev with_output : String × Option String → String × Option String
with_output (out, none) = (out, none)
with_output (out, some e) = (out, some (e +++ (": " +++ trim_space out)))

-- `shellRun`
unfoldable pub shell_run : World → Call → Log → String × Option String
unfolding trim_space
shell_run w c log =
    with_output (w.exec log (record c { shell = if str_eq c.shell "" then "sh" else c.shell }))

abbrev pub succeeded : String × Option String → Bool
succeeded (out, none) = true
succeeded (out, some e) = false

-- The command that `shellPredicate` starts.
abbrev pub predicate_call : String → String → Call
predicate_call command work_dir = record {
  shell = "sh";
  command = command;
  work_dir = work_dir;
  env = [];
  timeout = 5;
}

-- `shellPredicate`
unfoldable pub shell_predicate : World → String → String → Log → Bool
shell_predicate w command work_dir log = succeeded (w.exec log (predicate_call command work_dir))

abbrev pub result : String → Status → String → StepError → ℕ → ℕ → StepResult
result name status output error iters retries = record {
  name = name;
  status = status;
  output = output;
  error = error;
  iterations = iters;
  retry_count = retries;
}

abbrev pub tried :
    (name : String) (retries : ℕ) (log : Log)
    → (String → String → StepResult × Log)
    → String × Option String
    → StepResult × Log
tried name retries log failed (out, none) =
    (result name status_ok (trim_space out) no_error 0 retries, log)
tried name retries log failed (out, some e) = failed out e

abbrev pub gave_up : String → ℕ → Log → String → String → StepResult × Log
gave_up name retries log out e =
    (result name status_error (trim_space out) (command_failed e) 0 retries, log)

-- The loop over the attempts, with how many are left after the next one and how many there were.
unfoldable pub attempt : World → String → Call → ℕ → ℕ → Log → StepResult × Log
unfolding shell_run trim_space
attempt w name c zero retries log =
    tried name retries (c ∷ log) (gave_up name retries (c ∷ log)) (shell_run w c log)
attempt w name c (suc left) retries log =
    tried name retries (c ∷ log) (λ out e. attempt w name c left (suc retries) (c ∷ log))
      (shell_run w c log)

-- The command of a step in a context.
unfoldable pub step_call : World → Step → TemplateContext → Option Call
unfolding expand step_timeout
step_call w step tc = do
  command ← of_expanded (expand w.unmarshal tc step.run)
  work_dir ← of_expanded (expand w.unmarshal tc step.work_dir)
  some (record {
    shell = step.shell;
    command = command;
    work_dir = work_dir;
    env = step.env;
    timeout = step_timeout step;
  })

-- No attempt leaves no error to report; one more than the greatest int is below 0.
abbrev attempts : World → String → Call → ℤ → Log → Option (StepResult × Log)
attempts w name c (pos n) log = if ltb n max_int then some (attempt w name c n 0 log) else none
attempts w name c (negsuc n) log = none

-- `executeSingle`
unfoldable pub execute_single : World → Step → TemplateContext → Log → Option (StepResult × Log)
unfolding attempt step_call
execute_single w step tc log = do c ← step_call w step tc; attempts w step.name c step.retries log

abbrev pub in_iteration : Iteration → TemplateContext → TemplateContext
in_iteration i tc = record tc { item = i.item; has_item = true; loop_vars = i.loop_vars }

-- The loop that starts the iterations, with what each gave.
unfoldable pub run_iterations :
    World
    → Step
    → TemplateContext
    → List Iteration
    → Log
    → Option (List (String × Option String) × Log)
unfolding step_call shell_run
run_iterations w step tc [] log = some ([], log)
run_iterations w step tc (i ∷ is) log = do
  c ← step_call w step (in_iteration i tc)
  (rs, log') ← run_iterations w step tc is (c ∷ log)
  some (shell_run w c log ∷ rs, log')

abbrev output_of : ℕ → String × Option String → String
output_of i (out, none) = out
output_of i (out, some e) = "[" +++ (show_nat i +++ ("] error: " +++ e))

unfoldable pub outputs : ℕ → List (String × Option String) → List String
unfolding show_nat
outputs i [] = []
outputs i (r ∷ rs) = output_of i r ∷ outputs (suc i) rs

unfoldable pub has_error : List (String × Option String) → Bool
has_error [] = false
has_error (r ∷ rs) = not (succeeded r) || has_error rs

-- The end of `executeStep`.
unfoldable pub collect : String → List (String × Option String) → StepResult
unfolding outputs has_error join_lines
collect name rs =
    let failed = has_error rs in
    result name (if failed then status_error else status_ok) (join_lines (outputs 0 rs))
      (if failed then iterations_failed else no_error) (length rs) 0

unfoldable pub execute_iterations :
    World → Step → TemplateContext → Log → Iterations → Option (StepResult × Log)
unfolding execute_single run_iterations collect
execute_iterations w step tc log (no_iterations key raw) =
    some (result step.name status_error "" (bad_loop key raw) 0 0, log)
execute_iterations w step tc log never = none
execute_iterations w step tc log once = execute_single w step tc log
execute_iterations w step tc log (iterations is) = do
  (rs, log') ← run_iterations w step tc is log
  some (collect step.name rs, log')

-- `executeStep`; how many iterations run at a time does not show in its result.
unfoldable pub execute_step : World → Step → TemplateContext → Log → Option (StepResult × Log)
unfolding execute_iterations expand_iterations
execute_step w step tc log = execute_iterations w step tc log (expand_iterations w.date step)
