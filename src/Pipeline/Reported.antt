-- ===== src/Pipeline/Reported.antt =====
-- extensions/pipeline/execute.go: the status and the message that Run gives.
use piglet.Prelude.{
  ℕ, zero, suc, ◌+◌, ◌-◌, ◌≡◌, refl, ap, ◌∙◌, inl, inr, String, Option, none, some, List, [], ◌∷◌,
  ◌++◌, map, arith, ◌==◌, if◌then◌else◌, length, All, Assoc,
}
use piglet.Pipeline.Types.{
  Step, Pipeline, Status, status_ok, status_error, status_partial, StepResult, Summary, halted,
  allowed, completed, PipelineResult, step_defaults, defaults, validate, merge_params,
}
use piglet.Pipeline.Loops.{expand_iterations}
use piglet.Pipeline.Execute.{Log, World}
use piglet.Pipeline.Run.{Progress, is_ok, finish, begin, ran, run_valid, run}
use piglet.Pipeline.Finishes.{CanRun}
use piglet.Pipeline.Trace.{is_failed, is_skipped, tally, Trace, all_done, stopped, went_on}
use piglet.Pipeline.Walks.{Walked, run_steps-Walks}

-- The status of a run by the step that stopped it and the results.
abbrev verdict : Option String → List StepResult → Status
verdict (some name) rs = status_error
verdict none rs = if tally is_failed rs == 0 then status_ok else status_partial

abbrev summary : ℕ → Option String → List StepResult → Summary
summary steps (some name) rs = halted (tally is_ok rs) (tally is_failed rs) name (steps - length rs)
summary steps none rs =
    if tally is_failed rs == 0
    then completed steps
    else allowed (tally is_ok rs) (tally is_failed rs) (tally is_skipped rs)

-- The results are those of the steps that were reached, and the rest is read off them.
pub record Reports (p : Pipeline) (r : PipelineResult) : Type 0 where
  pub stop : Option String
  pub trace : Trace p.steps r.steps stop
  pub status : r.status ≡ verdict stop r.steps
  pub message : r.message ≡ summary (length p.steps) stop r.steps

-- A run to the end has a result for each step, each counted once.
tally-Trace :
    (ss : List Step) (rs : List StepResult) (o : Option String)
    → Trace ss rs o
    → o ≡ none
    → tally is_ok rs + tally is_failed rs + tally is_skipped rs ≡ length ss
unfolding tally
tally-Trace [] [] none all_done h = refl
tally-Trace [] [] (some name) trace h = elim trace [ ]
tally-Trace [] (r ∷ rs) o trace h = elim trace [ ]
tally-Trace (s ∷ ss) [] o trace h = elim trace [ ]
tally-Trace (s ∷ ss) (r ∷ []) (some name) (stopped named failed may_not) h = ground arith
tally-Trace (s ∷ ss) (r ∷ rs) o (went_on named (inl ok) rest) h =
    rw ok (omega (arith, tally-Trace ss rs o rest h))
tally-Trace (s ∷ ss) (r ∷ rs) o (went_on named (inr (inl skipped)) rest) h =
    rw skipped (omega (arith, tally-Trace ss rs o rest h))
tally-Trace (s ∷ ss) (r ∷ rs) o (went_on named (inr (inr (failed, may))) rest) h =
    rw failed (omega (arith, tally-Trace ss rs o rest h))

completed_all :
    (ok failed skipped steps : ℕ)
    → ok + failed + skipped ≡ steps
    → (if failed == 0 then completed (ok + skipped) else allowed ok failed skipped)
      ≡ (if failed == 0 then completed steps else allowed ok failed skipped)
completed_all ok zero skipped steps h = ap completed (omega arith)
completed_all ok (suc failed) skipped steps h = ground arith

-- What `finish` makes of a walk from the start.
finish-Reports :
    (p : Pipeline) (start : Progress) (rs : List StepResult) (o : Option String) (q : Progress)
    → start.results ≡ []
    → (start.ok_count ≡ 0) × (start.err_count ≡ 0) × (start.skip_count ≡ 0)
    → Walked p.steps start rs o q
    → Reports p (finish p (o, q))
unfolding finish
finish-Reports p start rs (some name) q empty (ok0, err0, skip0) walked =
    let results : q.results ≡ rs = walked.added ∙ ap (λ l. l ++ rs) empty in
    let oks : q.ok_count ≡ tally is_ok rs = omega (arith, walked.oks) in
    let errs : q.err_count ≡ tally is_failed rs = omega (arith, walked.errs) in
    record {
      stop = some name;
      trace = rw results walked.trace;
      status = refl;
      message = rw (results, oks, errs) refl;
    }
finish-Reports p start rs none q empty (ok0, err0, skip0) walked =
    let results : q.results ≡ rs = walked.added ∙ ap (λ l. l ++ rs) empty in
    let oks : q.ok_count ≡ tally is_ok rs = omega (arith, walked.oks) in
    let errs : q.err_count ≡ tally is_failed rs = omega (arith, walked.errs) in
    let skips : q.skip_count ≡ tally is_skipped rs = omega (arith, walked.skips) in
    record {
      stop = none;
      trace = rw results walked.trace;
      status = rw (results, errs) refl;
      message =
          rw (results, oks, errs, skips)
            (completed_all (tally is_ok rs) (tally is_failed rs) (tally is_skipped rs)
              (length p.steps) (tally-Trace p.steps rs none walked.trace refl));
    }

CanRun-step_defaults :
    (w : World) (ss : List Step) → All (CanRun w) ss → All (CanRun w) (map step_defaults ss)
unfolding step_defaults expand_iterations
CanRun-step_defaults w [] can = can
CanRun-step_defaults w (s ∷ ss) can = (
  record {
    run_text = can.0.run_text;
    dir_text = can.0.dir_text;
    when_text = can.0.when_text;
    retries_fit = can.0.retries_fit;
    lists = can.0.lists;
  },
  CanRun-step_defaults w ss can.1,
)

-- A run of a pipeline that Validate accepts, whose texts never panic, whose retries are neither below 0 nor
-- the greatest int, and whose loops are listed, with no range to the greatest or down to the least int and
-- none longer than make takes, returns. Its results are those of its first steps, in order and by name, up to
-- the first error of a step that may not fail, or of all steps; a step that may fail or is skipped does not
-- stop it. It is reported as an error if it was stopped, with the name of the step, how many steps were ok and
-- how many failed, and how many were not reached; else as ok if no step failed, with the number of steps, or
-- as partial, with how many were ok, failed and skipped.
pub run-Reports :
    (w : World) (p : Pipeline) (params : Assoc String) (cwd date timestamp : String) (log : Log)
    → All (CanRun w) p.steps
    → validate (defaults p) (merge_params (defaults p) params) ≡ none
    → (r : PipelineResult) × (q : Progress) × (run w p params cwd date timestamp log
        ≡ some (ran r q))
      × Reports (defaults p) r
unfolding run run_valid begin defaults
run-Reports w p params cwd date timestamp log can valid =
    let start = begin (merge_params (defaults p) params) cwd date timestamp log in
    let (rs, o, q, e, walked) =
      run_steps-Walks w (defaults p).steps start (CanRun-step_defaults w p.steps can) in
    (
      finish (defaults p) (o, q),
      q,
      rw (valid, e) refl,
      finish-Reports (defaults p) start rs o q refl (refl, refl, refl) walked,
    )
