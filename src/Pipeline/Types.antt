-- ===== src/Pipeline/Types.antt =====
-- extensions/pipeline/pipeline.go: pipelines, their defaults, their parameters and what makes one valid. The fields
-- for a description only are left out, and so are durations.
use piglet.Prelude.{
  ℕ, ◌+◌, String, Bool, true, false, not, ◌&&◌, Option, none, some, List, [], ◌∷◌, map, str_eq,
  if◌then◌else◌, Assoc, lookup, insert,
}
use piglet.Pipeline.Texts.{ℤ, pos, negsuc, is_positive}

-- A parameter.
pub record Param : Type 0 where
  pub default : String
  pub required : Bool

-- A value under `loop`: a list, with its items as `fmt.Sprint` writes them, a text, or what else is written as a text.
pub data LoopValue : Type 0 where
  items : List String → LoopValue
  range : String → LoopValue
  value : String → LoopValue

pub record Step : Type 0 where
  pub name : String
  pub run : String
  pub shell : String
  pub timeout : ℤ
  pub retries : ℤ
  pub retry_delay : ℤ
  pub allow_failure : Bool
  pub each : List String
  pub loop : Assoc LoopValue
  pub work_dir : String
  pub env : Assoc String
  pub when : String

pub record Pipeline : Type 0 where
  pub name : String
  pub params : Assoc Param
  pub steps : List Step
  pub concurrency : ℤ

pub data Status : Type 0 where
  status_ok : Status
  status_error : Status
  status_skipped : Status
  status_partial : Status
  status_dry_run : Status

abbrev pub status_text : Status → String
status_text status_ok = "ok"
status_text status_error = "error"
status_text status_skipped = "skipped"
status_text status_partial = "partial"
status_text status_dry_run = "dry_run"

-- The error of a result: of a loop of which a range cannot be read, of a command, or of iterations.
pub data StepError : Type 0 where
  no_error : StepError
  bad_loop : (key raw : String) → StepError
  command_failed : String → StepError
  iterations_failed : StepError

pub record StepResult : Type 0 where
  pub name : String
  pub status : Status
  pub output : String
  pub error : StepError
  pub iterations : ℕ
  pub retry_count : ℕ

-- The message of a result, with its numbers.
pub data Summary : Type 0 where
  halted : (ok failed : ℕ) (at : String) (skipped : ℕ) → Summary
  allowed : (ok failed skipped : ℕ) → Summary
  completed : (steps : ℕ) → Summary
  would_execute : (steps : ℕ) → Summary

pub record PipelineResult : Type 0 where
  pub name : String
  pub status : Status
  pub steps : List StepResult
  pub message : Summary

-- The body of the loop of `defaults`.
unfoldable pub step_defaults : Step → Step
step_defaults s = record s {
  shell = (if str_eq s.shell "" then "sh" else s.shell);
  timeout = (if is_positive s.timeout then s.timeout else pos 30);
  retry_delay =
      (if not (is_positive s.retry_delay) && is_positive s.retries then pos 5 else s.retry_delay);
}

-- `defaults`
unfoldable pub defaults : Pipeline → Pipeline
unfolding step_defaults
defaults p = record p {
  concurrency = (if is_positive p.concurrency then p.concurrency else pos 4);
  steps = map step_defaults p.steps;
}

-- `StepTimeout`, in seconds.
unfoldable pub step_timeout : Step → ℕ
step_timeout s = if is_positive s.timeout then seconds s.timeout else 30
  where
    seconds : ℤ → ℕ
    seconds (pos n) = n
    seconds (negsuc n) = 0

pub data ValidationError : Type 0 where
  no_name : ValidationError
  no_steps : ValidationError
  missing_param : String → ValidationError
  step_without_name : ℕ → ValidationError
  step_without_run : String → ValidationError

abbrev is_none : Option String → Bool
is_none none = true
is_none (some v) = false

-- The first required parameter without a value and without a default.
unfoldable pub check_params : Assoc Param → Assoc String → Option ValidationError
unfolding lookup
check_params [] params = none
check_params ((name, p) ∷ ps) params =
    let rest = check_params ps params in
    if p.required && is_none (lookup name params) && str_eq p.default ""
    then some (missing_param name)
    else rest

unfoldable pub check_steps : ℕ → List Step → Option ValidationError
check_steps i [] = none
check_steps i (s ∷ ss) =
    let rest = check_steps (i + 1) ss in
    if str_eq s.name ""
    then some (step_without_name i)
    else if str_eq s.run ""
    then some (step_without_run s.name)
    else rest

abbrev or_else : Option ValidationError → Option ValidationError → Option ValidationError
or_else none e = e
or_else (some e) f = some e

abbrev is_empty : List Step → Bool
is_empty [] = true
is_empty (s ∷ ss) = false

-- `Validate`, with the parameters in the order that the map gives.
unfoldable pub validate : Pipeline → Assoc String → Option ValidationError
unfolding check_params check_steps
validate p params =
    if str_eq p.name ""
    then some no_name
    else if is_empty p.steps
    then some no_steps
    else or_else (check_params p.params params) (check_steps 0 p.steps)

unfoldable pub merge_defaults : Assoc Param → Assoc String
unfolding insert
merge_defaults [] = []
merge_defaults ((name, p) ∷ ps) =
    let rest = merge_defaults ps in if str_eq p.default "" then rest else insert name p.default rest

unfoldable pub merge_overrides : Assoc String → Assoc String → Assoc String
unfolding insert
merge_overrides [] merged = merged
merge_overrides ((k, v) ∷ overrides) merged = insert k v (merge_overrides overrides merged)

-- `MergeParams`
unfoldable pub merge_params : Pipeline → Assoc String → Assoc String
unfolding merge_defaults merge_overrides
merge_params p overrides = merge_overrides overrides (merge_defaults p.params)
