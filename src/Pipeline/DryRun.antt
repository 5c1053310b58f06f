-- ===== src/Pipeline/DryRun.antt =====
-- extensions/pipeline/execute.go: what DryRun shows of a pipeline.
use Prim.Native.String.{◌++◌ as ◌+++◌}
use piglet.Prelude.{
  ℕ, String, ◌⊎◌, inl, inr, Option, none, some, List, [], ◌∷◌, ◌>>=◌, length, Assoc, insert, erase,
}
use piglet.Pipeline.Texts.{trim_space}
use piglet.Pipeline.Types.{
  Step, Pipeline, status_ok, status_skipped, status_dry_run, no_error, StepResult, would_execute,
  PipelineResult, defaults, ValidationError, validate, merge_params,
}
use piglet.Pipeline.Loops.{Iterations, once, iterations, no_iterations, never, expand_iterations}
use piglet.Pipeline.Template.{TemplateContext, StepOutput, expand}
use piglet.Pipeline.Execute.{World, of_expanded, result}
use piglet.Pipeline.Run.{begin}

abbrev dry_count : Iterations → Option ℕ
dry_count once = some 1
dry_count (no_iterations key raw) = some 1
dry_count (iterations []) = some 1
dry_count (iterations (i ∷ is)) = some (length (i ∷ is))
dry_count never = none

abbrev dry_output : StepOutput
dry_output = record { stdout = "(dry run)"; status = status_ok }

-- The loop of `DryRun`.
unfoldable pub dry_steps : World → List Step → TemplateContext → Option (List StepResult)
unfolding expand trim_space expand_iterations insert erase
dry_steps w [] tc = some []
dry_steps w (s ∷ ss) tc = do
  command ← of_expanded (expand w.unmarshal tc s.run)
  count ← dry_count (expand_iterations w.date s)
  rest ←
      dry_steps w ss
        (record tc { prev = some dry_output; steps = insert s.name dry_output tc.steps })
  some (
      result s.name status_skipped ("dry run — would run: " +++ trim_space command) no_error count 0
      ∷ rest)

unfoldable pub dry_valid :
    World
    → Pipeline
    → TemplateContext
    → Option ValidationError
    → Option (ValidationError ⊎ PipelineResult)
unfolding dry_steps
dry_valid w p tc (some e) = some (inl e)
dry_valid w p tc none = do
  rs ← dry_steps w p.steps tc
  some (
      inr (record {
        name = p.name;
        status = status_dry_run;
        steps = rs;
        message = would_execute (length p.steps);
      }))

-- `DryRun`
unfoldable pub dry_run :
    World
    → Pipeline
    → Assoc String
    → (cwd date timestamp : String) → Option (ValidationError ⊎ PipelineResult)
unfolding defaults merge_params validate begin dry_valid
dry_run w p params cwd date timestamp =
    let q = defaults p in
    let merged = merge_params q params in
    dry_valid w q (begin merged cwd date timestamp []).context (validate q merged)
