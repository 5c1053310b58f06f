-- ===== src/Pipeline/Run.antt =====
-- extensions/pipeline/execute.go: the loop of Run over the steps of a pipeline.
use Prim.Native.String.{◌++◌ as ◌+++◌}
use piglet.Prelude.{
  ℕ, suc, ◌+◌, ◌-◌, String, Bool, true, false, not, ◌==◌, Option, none, some, List, [], ◌∷◌, ◌++◌,
  str_eq, if◌then◌else◌, ◌>>=◌, length, Assoc, insert, erase,
}
use piglet.Pipeline.Types.{
  Step, Pipeline, Status, status_ok, status_error, status_skipped, status_partial, status_dry_run,
  no_error, StepResult, halted, allowed, completed, PipelineResult, defaults, ValidationError,
  validate, merge_params,
}
use piglet.Pipeline.Template.{TemplateContext, StepOutput, expand}
use piglet.Pipeline.Execute.{
  Log, World, of_expanded, result, predicate_call, shell_predicate, execute_step,
}

-- What the loop of `Run` keeps.
pub record Progress : Type 0 where
  pub context : TemplateContext
  pub results : List StepResult
  pub ok_count : ℕ
  pub err_count : ℕ
  pub skip_count : ℕ
  pub log : Log

abbrev pub is_ok : Status → Bool
is_ok status_ok = true
is_ok status_error = false
is_ok status_skipped = false
is_ok status_partial = false
is_ok status_dry_run = false

abbrev output_for : StepResult → StepOutput
output_for r = record { stdout = r.output; status = r.status }

unfoldable pub set_output : Step → StepResult → TemplateContext → TemplateContext
unfolding insert erase
set_output step r tc = record tc {
  steps = insert step.name (output_for r) tc.steps;
  prev = some (output_for r);
}

-- A step's result is put into the context and counted; the loop ends at an error that is not allowed.
unfoldable pub note_result : Step → StepResult × Log → Progress → Bool × Progress
unfolding set_output
note_result step (r, log) p =
    if is_ok r.status
    then (
      false,
      record p {
        context = set_output step r p.context;
        results = p.results ++ (r ∷ []);
        ok_count = suc p.ok_count;
        log = log;
      },
    )
    else (
      not step.allow_failure,
      record p {
        context = set_output step r p.context;
        results = p.results ++ (r ∷ []);
        err_count = suc p.err_count;
        log = log;
      },
    )

unfoldable pub run_body : World → Step → Progress → Log → Option (Bool × Progress)
unfolding execute_step note_result
run_body w step p log = do r ← execute_step w step p.context log; some (note_result step r p)

abbrev pub skipped_result : Step → StepResult
skipped_result step =
    result step.name status_skipped ("when predicate failed: " +++ step.when) no_error 0 0

unfoldable pub skip : Step → Progress → Log → Bool × Progress
skip step p log = (
  false,
  record p {
    results = p.results ++ (skipped_result step ∷ []);
    skip_count = suc p.skip_count;
    log = log;
  },
)

-- The body of the loop of `Run`, with whether it returns.
unfoldable pub run_step : World → Step → Progress → Option (Bool × Progress)
unfolding expand shell_predicate run_body skip
run_step w step p = if str_eq step.when "" then run_body w step p p.log else (do
  command ← of_expanded (expand w.unmarshal p.context step.when)
  let log = predicate_call command p.context.cwd ∷ p.log in
      if shell_predicate w command p.context.cwd p.log
      then run_body w step p log
      else some (skip step p log))

-- The loop of `Run`, with the step at which it returned.
unfoldable pub run_steps : World → List Step → Progress → Option (Option String × Progress)
unfolding run_step
run_steps w [] p = some (none, p)
run_steps w (s ∷ ss) p = do
  (stop, q) ← run_step w s p
  let rest = run_steps w ss q in if stop then some (some s.name, q) else rest

-- The result of `Run` for a pipeline of so many steps.
unfoldable pub finish : Pipeline → Option String × Progress → PipelineResult
finish p (some name, q) = record {
  name = p.name;
  status = status_error;
  steps = q.results;
  message = halted q.ok_count q.err_count name (length p.steps - length q.results);
}
finish p (none, q) = record {
  name = p.name;
  status = (if q.err_count == 0 then status_ok else status_partial);
  steps = q.results;
  message =
      (if q.err_count == 0
        then completed (q.ok_count + q.skip_count)
        else allowed q.ok_count q.err_count q.skip_count);
}

-- Where a run starts: its directory and its start time as texts.
unfoldable pub begin : Assoc String → (cwd date timestamp : String) → Log → Progress
begin params cwd date timestamp log = record {
  context = record {
    params = params;
    prev = none;
    steps = [];
    item = "";
    has_item = false;
    loop_vars = [];
    cwd = cwd;
    date = date;
    timestamp = timestamp;
  };
  results = [];
  ok_count = 0;
  err_count = 0;
  skip_count = 0;
  log = log;
}

-- What `Run` returns.
pub data Returned : Type 0 where
  invalid : ValidationError → Returned
  ran : PipelineResult → Progress → Returned

unfoldable pub run_valid : World → Pipeline → Progress → Option ValidationError → Option Returned
unfolding run_steps finish
run_valid w p start (some e) = some (invalid e)
run_valid w p start none = do r ← run_steps w p.steps start; some (ran (finish p r) r.1)

-- `Run`
unfoldable pub run :
    World → Pipeline → Assoc String → (cwd date timestamp : String) → Log → Option Returned
unfolding defaults merge_params validate begin run_valid
run w p params cwd date timestamp log =
    let q = defaults p in
    let merged = merge_params q params in
    run_valid w q (begin merged cwd date timestamp log) (validate q merged)
