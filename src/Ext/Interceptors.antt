-- ===== src/Ext/Interceptors.antt =====
-- ext/interceptor.go and FindTool of ext/queries.go: a tool with the interceptors round it. What is called, in
-- its order, is a list beside the outcome.
use Prim.Native.String.{◌++◌ as join_texts}
use piglet.Prelude.{String, Option, none, some, List, [], ◌∷◌, ◌++◌, str_eq, if◌then◌else◌, lookup}
use piglet.Ext.App.{
  Args, Verdict, failed, blocked, allowed, Interceptor, ToolResult, Outcome, ToolDef, App,
}

pub data Call : Type 0 where
  before : String → Args → Call
  executed : Args → Call
  after : String → String → Call

-- Where the chain before the tool ends.
pub data Gate : Type 0 where
  stop : Outcome → Gate
  go : Args → Gate

abbrev preview_or : String → Option (String → Args → String) → String → Args → String
preview_or message none tool args = message
preview_or message (some preview) tool args =
    if str_eq (preview tool args) "" then message else preview tool args

-- The text of a refusal.
unfoldable pub refusal : Interceptor → String → Args → String
refusal ic tool args =
    preview_or (join_texts "blocked by interceptor: " ic.name) ic.preview tool args

abbrev first_call : Call → Gate × List Call → Gate × List Call
first_call c (g, calls) = (g, c ∷ calls)

-- What a verdict leads to; `next` is the rest of the chain.
unfoldable pub judge :
    Interceptor → String → Args → (Args → Gate × List Call) → Verdict → Gate × List Call
unfolding refusal
judge ic tool args next (failed e) = (
  stop (
      Outcome.error none
        (join_texts "interceptor " (join_texts ic.name (join_texts " before: " e)))),
  [],
)
judge ic tool args next blocked =
    (stop (Outcome.returned (some (record { text = refusal ic tool args; details = "" }))), [])
judge ic tool args next (allowed none) = next args
judge ic tool args next (allowed (some modified)) = next modified

unfoldable pub ask :
    Interceptor
    → Option (String → Args → Verdict)
    → String
    → Args
    → (Args → Gate × List Call)
    → Gate × List Call
unfolding judge
ask ic none tool args next = next args
ask ic (some hook) tool args next =
    first_call (before ic.name args) (judge ic tool args next (hook tool args))

-- The loop before the tool.
unfoldable pub before_chain : List Interceptor → String → Args → Gate × List Call
unfolding ask
before_chain [] tool args = (go args, [])
before_chain (ic ∷ ics) tool args = ask ic ic.before tool args (before_chain ics tool)

abbrev pub or_kept : String → Option String → String
or_kept details none = details
or_kept details (some modified) = modified

abbrev later_call : Call → String × List Call → String × List Call
later_call c (details, calls) = (details, c ∷ calls)

unfoldable pub run_after :
    Interceptor
    → Option (String → String → Option String)
    → String
    → String
    → (String → String × List Call)
    → String × List Call
run_after ic none tool details next = next details
run_after ic (some hook) tool details next =
    later_call (after ic.name details) (next (or_kept details (hook tool details)))

-- The loop after the tool: an error leaves the details as they were.
unfoldable pub after_chain : List Interceptor → String → String → String × List Call
unfolding run_after
after_chain [] tool details = (details, [])
after_chain (ic ∷ ics) tool details = run_after ic ic.after tool details (after_chain ics tool)

abbrev pub details_of : Option ToolResult → String
details_of none = ""
details_of (some r) = r.details

abbrev pub with_details : String → Option ToolResult → Option ToolResult
with_details details none = none
with_details details (some r) = some (record r { details = details })

unfoldable pub finish : List Interceptor → String → Outcome → Outcome × List Call
unfolding after_chain
finish ics tool (Outcome.error r e) = (Outcome.error r e, [])
finish ics tool (Outcome.returned r) =
    let done = after_chain ics tool (details_of r) in
    (Outcome.returned (with_details done.0 r), done.1)

abbrev after_execute : Args → List Call → Outcome × List Call → Outcome × List Call
after_execute args calls (o, more) = (o, calls ++ (executed args ∷ more))

unfoldable pub pass :
    List Interceptor → String → (Args → Outcome) → Gate × List Call → Outcome × List Call
unfolding finish
pass ics tool execute (stop o, calls) = (o, calls)
pass ics tool execute (go args, calls) = after_execute args calls (finish ics tool (execute args))

-- `wrapWithInterceptors`
unfoldable pub wrap_with_interceptors :
    List Interceptor → String → (Args → Outcome) → Args → Outcome × List Call
unfolding pass before_chain
wrap_with_interceptors [] tool execute args = (execute args, executed args ∷ [])
wrap_with_interceptors (ic ∷ ics) tool execute args =
    pass (ic ∷ ics) tool execute (before_chain (ic ∷ ics) tool args)

abbrev call_def : App → Option ToolDef → Args → Option (Outcome × List Call)
call_def a none args = none
call_def a (some td) args = some (wrap_with_interceptors a.interceptors td.name td.execute args)

-- `FindTool`, and a call of what it gives.
unfoldable pub call_tool : String → Args → App → Option (Outcome × List Call)
unfolding lookup wrap_with_interceptors
call_tool name args a = call_def a (lookup name a.tools) args
