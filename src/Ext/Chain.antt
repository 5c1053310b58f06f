-- ===== src/Ext/Chain.antt =====
-- ext/interceptor.go: when a tool runs, and what it returns.
use piglet.Prelude.{
  ◌≡◌, refl, sym, ap, ◌∙◌, String, Option, none, some, Option-cases, inl, inr, List, [], ◌∷◌, ◌++◌,
  ◌>>=◌,
}
use mathlib.Core.Option.{none-ne-some, some-injective}
use piglet.Ext.App.{Args, Verdict, failed, blocked, allowed, Interceptor, Outcome}
use piglet.Ext.Interceptors.{
  Call, before, executed, after, Gate, stop, go, judge, ask, before_chain, or_kept, run_after,
  after_chain, details_of, finish, pass, wrap_with_interceptors,
}

-- What one hook makes of the arguments, or none when it refuses or fails.
abbrev pub let_by : Args → Verdict → Option Args
let_by args (failed e) = none
let_by args blocked = none
let_by args (allowed none) = some args
let_by args (allowed (some modified)) = some modified

abbrev pub step : Option (String → Args → Verdict) → String → Args → Option Args
step none tool args = some args
step (some hook) tool args = let_by args (hook tool args)

-- The arguments through all the hooks.
unfoldable pub passes : List Interceptor → String → Args → Option Args
passes [] tool args = some args
passes (ic ∷ ics) tool args = step ic.before tool args >>= passes ics tool

-- The arguments that the tool was executed with.
abbrev pub executions : List Call → List Args
executions [] = []
executions (before name args ∷ calls) = executions calls
executions (executed args ∷ calls) = args ∷ executions calls
executions (after name details ∷ calls) = executions calls

abbrev pub to_list : Option Args → List Args
to_list none = []
to_list (some args) = args ∷ []

abbrev gate_args : Gate → Option Args
gate_args (stop o) = none
gate_args (go args) = some args

-- A chain that lets by the arguments that `f` does, without an execution.
abbrev LetsBy : (Gate × List Call) → Option Args → Type 0
LetsBy g args = (gate_args g.0 ≡ args) × (executions g.1 ≡ [])

judge-LetsBy :
    (ic : Interceptor) (tool : String) (args : Args) (next : Args → Gate × List Call)
    (f : Args → Option Args) (v : Verdict)
    → ((a : Args) → LetsBy (next a) (f a))
    → LetsBy (judge ic tool args next v) (let_by args v >>= f)
unfolding judge
judge-LetsBy ic tool args next f (failed e) h = (refl, refl)
judge-LetsBy ic tool args next f blocked h = (refl, refl)
judge-LetsBy ic tool args next f (allowed none) h = h args
judge-LetsBy ic tool args next f (allowed (some modified)) h = h modified

ask-LetsBy :
    (ic : Interceptor) (hook : Option (String → Args → Verdict)) (tool : String) (args : Args)
    (next : Args → Gate × List Call) (f : Args → Option Args)
    → ((a : Args) → LetsBy (next a) (f a))
    → LetsBy (ask ic hook tool args next) (step hook tool args >>= f)
unfolding ask
ask-LetsBy ic none tool args next f h = h args
ask-LetsBy ic (some hook) tool args next f h = judge-LetsBy ic tool args next f (hook tool args) h

before_chain-LetsBy :
    (ics : List Interceptor) (tool : String) (args : Args)
    → LetsBy (before_chain ics tool args) (passes ics tool args)
unfolding before_chain passes
before_chain-LetsBy [] tool args = (refl, refl)
before_chain-LetsBy (ic ∷ ics) tool args =
    ask-LetsBy ic ic.before tool args (before_chain ics tool) (passes ics tool)
      (before_chain-LetsBy ics tool)

executions-append : (xs ys : List Call) → executions (xs ++ ys) ≡ executions xs ++ executions ys
executions-append [] ys = refl
executions-append (before n a ∷ xs) ys = executions-append xs ys
executions-append (executed a ∷ xs) ys = ap (λ t. a ∷ t) (executions-append xs ys)
executions-append (after n d ∷ xs) ys = executions-append xs ys

run_after-executions :
    (ic : Interceptor) (hook : Option (String → String → Option String)) (tool details : String)
    (next : String → String × List Call)
    → ((d : String) → executions (next d).1 ≡ [])
    → executions (run_after ic hook tool details next).1 ≡ []
unfolding run_after
run_after-executions ic none tool details next h = h details
run_after-executions ic (some hook) tool details next h = h (or_kept details (hook tool details))

after_chain-executions :
    (ics : List Interceptor) (tool details : String)
    → executions (after_chain ics tool details).1 ≡ []
unfolding after_chain
after_chain-executions [] tool details = refl
after_chain-executions (ic ∷ ics) tool details =
    run_after-executions ic ic.after tool details (after_chain ics tool)
      (after_chain-executions ics tool)

finish-executions :
    (ics : List Interceptor) (tool : String) (o : Outcome) → executions (finish ics tool o).1 ≡ []
unfolding finish
finish-executions ics tool (Outcome.error r e) = refl
finish-executions ics tool (Outcome.returned r) = after_chain-executions ics tool (details_of r)

-- What one hook after the tool makes of the details: its own ones, or the same when it has none or fails.
abbrev pub changed_by : String → Option String → String
changed_by details none = details
changed_by details (some modified) = modified

abbrev pub step_after : Option (String → String → Option String) → String → String → String
step_after none tool details = details
step_after (some hook) tool details = changed_by details (hook tool details)

-- The details through all the hooks after the tool.
unfoldable pub details_through : List Interceptor → String → String → String
details_through [] tool details = details
details_through (ic ∷ ics) tool details =
    details_through ics tool (step_after ic.after tool details)

run_after-details :
    (ic : Interceptor) (hook : Option (String → String → Option String)) (tool details : String)
    (ics : List Interceptor)
    → ((d : String) → (after_chain ics tool d).0 ≡ details_through ics tool d)
    → (run_after ic hook tool details (after_chain ics tool)).0
      ≡ details_through ics tool (step_after hook tool details)
unfolding run_after
run_after-details ic none tool details ics h = h details
run_after-details ic (some hook) tool details ics h = elim (Option-cases (hook tool details)) [
  | inl same ↦ rw same (h details)
  | inr (modified, e) ↦ rw e (h modified)
]

after_chain-details :
    (ics : List Interceptor) (tool details : String)
    → (after_chain ics tool details).0 ≡ details_through ics tool details
unfolding after_chain details_through
after_chain-details [] tool details = refl
after_chain-details (ic ∷ ics) tool details =
    run_after-details ic ic.after tool details ics (after_chain-details ics tool)

-- What the tool's outcome becomes: the result has its own text, and the details that the hooks make of its own.
unfoldable pub seen_outcome : List Interceptor → String → Outcome → Outcome
unfolding details_through
seen_outcome ics tool (Outcome.error r e) = Outcome.error r e
seen_outcome ics tool (Outcome.returned none) = Outcome.returned none
seen_outcome ics tool (Outcome.returned (some r)) =
    Outcome.returned (some (record r { details = details_through ics tool r.details }))

finish-seen_outcome :
    (ics : List Interceptor) (tool : String) (o : Outcome)
    → (finish ics tool o).0 ≡ seen_outcome ics tool o
unfolding finish seen_outcome
finish-seen_outcome ics tool (Outcome.error r e) = refl
finish-seen_outcome ics tool (Outcome.returned none) = refl
finish-seen_outcome ics tool (Outcome.returned (some r)) =
    ap (λ x. Outcome.returned (some (record r { details = x })))
      (after_chain-details ics tool r.details)

-- What a call gives when the hooks let the arguments by.
abbrev pub Ran :
    List Interceptor → String → (Args → Outcome) → Option Args → Outcome × List Call → Type 0
Ran ics tool execute none (o, calls) = executions calls ≡ []
Ran ics tool execute (some args) (o, calls) =
    (executions calls ≡ args ∷ []) × (o ≡ seen_outcome ics tool (execute args))

pass-Ran :
    (ics : List Interceptor) (tool : String) (execute : Args → Outcome) (g : Gate × List Call)
    (args : Option Args)
    → LetsBy g args
    → Ran ics tool execute args (pass ics tool execute g)
unfolding pass
pass-Ran ics tool execute (stop o, calls) none h = h.1
pass-Ran ics tool execute (stop o, calls) (some args) h = absurd (none-ne-some args h.0)
pass-Ran ics tool execute (go a, calls) none h = absurd (none-ne-some a (sym h.0))
pass-Ran ics tool execute (go a, calls) (some args) h =
    let same = some-injective a args h.0 in
    (
      executions-append calls (executed a ∷ (finish ics tool (execute a)).1)
          ∙ rw (h.1, finish-executions ics tool (execute a), same),
      finish-seen_outcome ics tool (execute a) ∙ ap (λ t. seen_outcome ics tool (execute t)) same,
    )

seen_outcome-nil : (tool : String) (o : Outcome) → o ≡ seen_outcome [] tool o
unfolding seen_outcome details_through
seen_outcome-nil tool (Outcome.error r e) = refl
seen_outcome-nil tool (Outcome.returned none) = refl
seen_outcome-nil tool (Outcome.returned (some r)) = refl

-- A tool runs at most once, and exactly when each Before hook lets the call by; then with the arguments as the
-- hooks change them in turn, and its result has its own text with the details as the After
-- hooks change them in turn, or it is the error of the tool.
pub wrap_with_interceptors-Ran :
    (ics : List Interceptor) (tool : String) (execute : Args → Outcome) (args : Args)
    → Ran ics tool execute (passes ics tool args) (wrap_with_interceptors ics tool execute args)
unfolding wrap_with_interceptors passes
wrap_with_interceptors-Ran [] tool execute args = (refl, seen_outcome-nil tool (execute args))
wrap_with_interceptors-Ran (ic ∷ ics) tool execute args =
    pass-Ran (ic ∷ ics) tool execute (before_chain (ic ∷ ics) tool args)
      (passes (ic ∷ ics) tool args) (before_chain-LetsBy (ic ∷ ics) tool args)
