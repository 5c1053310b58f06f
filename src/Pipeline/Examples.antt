-- ===== src/Pipeline/Examples.antt =====
-- A pipeline with a command that works at the third attempt, for the theorems of this folder.
use Prim.Native.String.{◌++◌ as ◌+++◌}
use piglet.Prelude.{
  ◌≢◌, List, All, ◌≡◌, refl, inl, inr, String, Bool, true, false, Option, none, some, [], ◌∷◌,
  Assoc, leb, str_eq, if◌then◌else◌, length, Option-cases,
}
use piglet.Pipeline.Texts.{ℤ, pos, negsuc}
use piglet.Pipeline.Types.{
  LoopValue, range, Step, Pipeline, status_text, PipelineResult, defaults, validate, merge_params,
}
use piglet.Pipeline.Loops.{
  LoopDimension, dimensions, never, endless, expand_numeric_range, parse_range, loop_sets,
  expand_iterations,
}
use piglet.Pipeline.Template.{expanded, TemplateContext, resolve, panicked, expand}
use piglet.Pipeline.Execute.{Call, Log, World, attempt}
use piglet.Pipeline.Run.{Progress, ran, run}
use piglet.Pipeline.Iterated.{Iterates, expand_iterations-Iterates}
use piglet.Pipeline.Expansion.{Piece, Tail, IsPiece, IsTail, print, replaced}
use piglet.Pipeline.Pieces.{expand_replaces}
use piglet.Pipeline.Retried.{Retried, attempt-Retried}
use piglet.Pipeline.Finishes.{NoPanic, CanRun}
use piglet.Pipeline.Reported.{Reports, run-Reports}

-- A command that works after two others, one that does not, and others that do.
abbrev reply : Log → Call → String × Option String
reply log c =
    if str_eq c.command "make"
    then (if leb 2 (length log) then ("done\n", none) else ("", some "exit status 2"))
    else if str_eq c.command "false"
    then ("", some "exit status 1")
    else (c.command, none)

abbrev world : World
world = record { unmarshal = λ s. none; date = λ d. "2025-01-01"; exec = reply }

abbrev step : String → String → ℤ → Bool → Assoc LoopValue → Step
step name command retries allow loop = record {
  name = name;
  run = command;
  shell = "";
  timeout = pos 0;
  retries = retries;
  retry_delay = pos 0;
  allow_failure = allow;
  each = [];
  loop = loop;
  work_dir = "";
  env = [];
  when = "";
}

abbrev build : Step
build = step "build" "make" (pos 2) false []

abbrev check : Step
check = step "check" "false" (pos 0) true []

abbrev tell : Step
tell = step "tell" "echo {prev.status}" (pos 0) false []

abbrev pipeline : Pipeline
pipeline = record {
  name = "release";
  params = [];
  steps = build ∷ check ∷ tell ∷ [];
  concurrency = pos 0;
}

abbrev call : Call
call = record { shell = "sh"; command = "make"; work_dir = ""; env = []; timeout = 30 }

attempt-Retried_example :
    Retried world call [] 2
      (attempt world "build" call 2 0 []).0
      (attempt world "build" call 2 0 []).1
attempt-Retried_example = attempt-Retried world "build" call 2 []

context : TemplateContext
context = record {
  params = ("tag", "v1") ∷ [];
  prev = none;
  steps = [];
  item = "";
  has_item = false;
  loop_vars = [];
  cwd = "/src";
  date = "2025-01-01";
  timestamp = "1735689600";
}

expand_replaces_example :
    (ps : List Piece) × (t : Tail) × All IsPiece ps
    × IsTail t
    × ("tag {param.tag} in {cwd}{none}{item" ≡ print ps t)
    × (expand (λ s. none) context "tag {param.tag} in {cwd}{none}{item"
        ≡ replaced (resolve (λ s. none) context) ps t)
expand_replaces_example = expand_replaces (λ s. none) context "tag {param.tag} in {cwd}{none}{item"

unknown_stays :
    expand (λ s. none) context "tag {param.tag} in {cwd}{none}{item"
    ≡ expanded "tag v1 in /src{none}{item"
unfolding expand resolve context
unknown_stays = refl

-- A key of which the suffix overlaps the prefix.
step_stdout_panics : expand (λ s. none) context "{step.stdout}" ≡ panicked
unfolding expand resolve context
step_stdout_panics = refl

abbrev two : LoopDimension
two = record { key = "n"; values = "3" ∷ "2" ∷ [] }

abbrev counted : Step
counted = step "count" "echo {loop.n}" (pos 0) false (("n", range "3..2") ∷ [])

counted_reads : loop_sets (λ d. "") counted.loop ≡ dimensions (two ∷ [])
unfolding loop_sets parse_range expand_numeric_range piglet.Pipeline.Texts.cut_text
    piglet.Pipeline.Texts.atoi piglet.Pipeline.Texts.itoa
counted_reads = refl

-- A range to the greatest int has no end.
endless_range : parse_range (λ d. "") "9223372036854775806..9223372036854775807" ≡ endless
unfolding parse_range expand_numeric_range piglet.Pipeline.Texts.cut_text piglet.Pipeline.Texts.atoi
endless_range = refl

long_range : parse_range (λ d. "") "0..9223372036854775806" ≡ endless
unfolding parse_range expand_numeric_range piglet.Pipeline.Texts.cut_text piglet.Pipeline.Texts.atoi
long_range = refl

expand_iterations-Iterates_example : Iterates [] (two ∷ []) (expand_iterations (λ d. "") counted)
expand_iterations-Iterates_example =
    expand_iterations-Iterates (λ d. "") counted (two ∷ []) counted_reads (tt, tt)

no_text : NoPanic world ""
unfolding expand piglet.Pipeline.Texts.has_code
no_text tc = ("", refl)

make_text : NoPanic world "make"
unfolding expand piglet.Pipeline.Texts.has_code
make_text tc = ("make", refl)

false_text : NoPanic world "false"
unfolding expand piglet.Pipeline.Texts.has_code
false_text tc = ("false", refl)

status_text_of_prev : NoPanic world "echo {prev.status}"
unfolding expand
status_text_of_prev tc = elim (Option-cases tc.prev) [
  | inl first ↦ ("echo {prev.status}", rw first refl)
  | inr (out, e) ↦ ("echo " +++ (status_text out.status +++ ""), rw e refl)
]

build_lists : expand_iterations world.date build ≢ never
unfolding expand_iterations
build_lists h = cc

check_lists : expand_iterations world.date check ≢ never
unfolding expand_iterations
check_lists h = cc

tell_lists : expand_iterations world.date tell ≢ never
unfolding expand_iterations
tell_lists h = cc

build-CanRun : CanRun world build
build-CanRun = record {
  run_text = make_text;
  dir_text = no_text;
  when_text = no_text;
  retries_fit = (2, refl, refl);
  lists = build_lists;
}

check-CanRun : CanRun world check
check-CanRun = record {
  run_text = false_text;
  dir_text = no_text;
  when_text = no_text;
  retries_fit = (0, refl, refl);
  lists = check_lists;
}

tell-CanRun : CanRun world tell
tell-CanRun = record {
  run_text = status_text_of_prev;
  dir_text = no_text;
  when_text = no_text;
  retries_fit = (0, refl, refl);
  lists = tell_lists;
}

pipeline_valid : validate (defaults pipeline) (merge_params (defaults pipeline) []) ≡ none
unfolding validate defaults merge_params
pipeline_valid = refl

run-Reports_example :
    (r : PipelineResult) × (q : Progress) × (run world pipeline [] "/src" "2025-01-01" "1735689600"
        []
      ≡ some (ran r q))
    × Reports (defaults pipeline) r
run-Reports_example =
    run-Reports world pipeline [] "/src" "2025-01-01" "1735689600" []
      (build-CanRun, (check-CanRun, (tell-CanRun, tt))) pipeline_valid
