-- ===== src/Pipeline/Trace.antt =====
-- extensions/pipeline/execute.go: what Run reports of the steps that it went through.
use piglet.Prelude.{
  ℕ, ◌+◌, ◌≡◌, refl, ◌⊎◌, inl, inr, String, Bool, true, false, Option, none, some, List, [], ◌∷◌,
  ◌++◌, arith, str_eq, Bool-cases,
}
use piglet.Pipeline.Types.{
  Step, Status, status_ok, status_error, status_skipped, status_partial, status_dry_run, StepResult,
}
use piglet.Pipeline.Execute.{Log, World, predicate_call, shell_predicate}
use piglet.Pipeline.Run.{Progress, is_ok, note_result, run_body, skip, skipped_result, run_step}
use piglet.Pipeline.Finishes.{CanRun, IsNamed, execute_step-Executes}

abbrev pub is_failed : Status → Bool
is_failed status_ok = false
is_failed status_error = true
is_failed status_skipped = false
is_failed status_partial = false
is_failed status_dry_run = false

abbrev pub is_skipped : Status → Bool
is_skipped status_ok = false
is_skipped status_error = false
is_skipped status_skipped = true
is_skipped status_partial = false
is_skipped status_dry_run = false

abbrev pub weight : Bool → ℕ
weight true = 1
weight false = 0

-- How many results have such a status.
unfoldable pub tally : (Status → Bool) → List StepResult → ℕ
tally f [] = 0
tally f (r ∷ rs) = weight (f r.status) + tally f rs

-- The results that let the next step run: ok, skipped, or an error of a step that may fail.
abbrev pub MayGoOn : Step → StepResult → Type 0
MayGoOn s r =
    (r.status ≡ status_ok)
    ⊎ (r.status ≡ status_skipped)
    ⊎ (r.status ≡ status_error) × (s.allow_failure ≡ true)

-- Steps with the results of those that were reached, in order and by name, and the step that stopped the run.
pub data Trace : List Step → List StepResult → Option String → Type 0 where
  all_done : Trace [] [] none
  stopped :
      {s : Step} {ss : List Step} {r : StepResult}
      → r.name ≡ s.name
      → r.status ≡ status_error
      → s.allow_failure ≡ false
      → Trace (s ∷ ss) (r ∷ []) (some s.name)
  went_on :
      {s : Step} {ss : List Step} {r : StepResult} {rs : List StepResult} {o : Option String}
      → r.name ≡ s.name
      → MayGoOn s r
      → Trace ss rs o
      → Trace (s ∷ ss) (r ∷ rs) o

-- One step: the result that it adds, how it is counted and whether the run stops.
pub record Stepped (s : Step) (p : Progress) (r : StepResult) (stop : Bool) (q : Progress)
    : Type 0 where
  pub named : r.name ≡ s.name
  pub added : q.results ≡ p.results ++ (r ∷ [])
  pub oks : q.ok_count ≡ p.ok_count + weight (is_ok r.status)
  pub errs : q.err_count ≡ p.err_count + weight (is_failed r.status)
  pub skips : q.skip_count ≡ p.skip_count + weight (is_skipped r.status)
  pub judged :
      (stop ≡ false) × MayGoOn s r
      ⊎ (stop ≡ true) × (r.status ≡ status_error) × (s.allow_failure ≡ false)

abbrev pub Steps : World → Step → Progress → Option (Bool × Progress) → Type 0
Steps w s p o =
    (r : StepResult) × (stop : Bool) × (q : Progress) × (o ≡ some (stop, q)) × Stepped s p r stop q

note_result-Stepped :
    (s : Step) (r : StepResult) (log : Log) (p : Progress)
    → IsNamed s.name r
    → Stepped s p r (note_result s (r, log) p).0 (note_result s (r, log) p).1
unfolding note_result
note_result-Stepped s r log p (named, inl ok) = record {
  named = named;
  added = rw ok refl;
  oks = rw ok (omega arith);
  errs = rw ok (omega arith);
  skips = rw ok (omega arith);
  judged = inl (rw ok refl, inl ok);
}
note_result-Stepped s r log p (named, inr failed) = record {
  named = named;
  added = rw failed refl;
  oks = rw failed (omega arith);
  errs = rw failed (omega arith);
  skips = rw failed (omega arith);
  judged = elim (Bool-cases s.allow_failure) [
    | inl may ↦ inl (rw (failed, may), inr (inr (failed, may)))
    | inr may_not ↦ inr (rw (failed, may_not), failed, may_not)
  ];
}

run_body-Steps :
    (w : World) (s : Step) (p : Progress) (log : Log)
    → CanRun w s
    → Steps w s p (run_body w s p log)
unfolding run_body
run_body-Steps w s p log can =
    let (r, log', e, is_result) = execute_step-Executes w s p.context log can in
    (
      r,
      (note_result s (r, log') p).0,
      (note_result s (r, log') p).1,
      rw e refl,
      note_result-Stepped s r log' p is_result,
    )

skip-Stepped :
    (s : Step) (p : Progress) (log : Log)
    → Stepped s p (skipped_result s) (skip s p log).0 (skip s p log).1
unfolding skip
skip-Stepped s p log = record {
  named = refl;
  added = refl;
  oks = omega arith;
  errs = omega arith;
  skips = omega arith;
  judged = inl (refl, inr (inl refl));
}

pub run_step-Steps :
    (w : World) (s : Step) (p : Progress) → CanRun w s → Steps w s p (run_step w s p)
unfolding run_step
run_step-Steps w s p can = elim (Bool-cases (str_eq s.when "")) [
  | inl none_given ↦ rw none_given (run_body-Steps w s p p.log can)
  | inr given ↦
      let (t, e) = can.when_text p.context in
      elim (Bool-cases (shell_predicate w t p.context.cwd p.log)) [
        | inl holds ↦
            rw (given, e, holds) (run_body-Steps w s p (predicate_call t p.context.cwd ∷ p.log) can)
        | inr fails ↦
            let log = predicate_call t p.context.cwd ∷ p.log in
            (
              skipped_result s,
              (skip s p log).0,
              (skip s p log).1,
              rw (given, e, fails) refl,
              skip-Stepped s p log,
            )
      ]
]
