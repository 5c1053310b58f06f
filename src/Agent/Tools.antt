-- ===== src/Agent/Tools.antt =====
-- core/tool_executor.go: the tools of one assistant message run in workers, and a loop collects what they
-- send. The order of what arrives is given as a list of signals.
use Prim.Native.String.{◌++◌ as concat}
use piglet.Prelude.{
  ℕ, ◌+◌, String, true, false, Option, none, some, List, [], ◌∷◌, leb, if◌then◌else◌, ◌>>=◌, length,
  set,
}
use piglet.Core.Types.{
  Message, AssistantContent, tool_call, ToolCall, ToolResultMessage, ContentBlock,
}

unfoldable pub extract_tool_calls : List AssistantContent → List ToolCall
extract_tool_calls [] = []
extract_tool_calls (tool_call tc ∷ cs) = tc ∷ extract_tool_calls cs
extract_tool_calls (_ ∷ cs) = extract_tool_calls cs

unfoldable pub error_result : ToolCall → String → ℕ → ToolResultMessage
error_result tc msg now = record {
  tool_call_id = tc.id;
  tool_name = tc.name;
  content = ContentBlock.text msg ∷ [];
  is_error = true;
  timestamp = now;
}

unfoldable pub skip_result : ToolCall → ℕ → ToolResultMessage
unfolding error_result
skip_result tc now = error_result tc "Tool execution skipped by user" now

-- What a worker finds at the gate of the step mode.
pub data Gate : Type 0 where
  open_gate : Gate
  approve skip abort : Gate
  interrupted : Gate

-- How a tool ends; `safeExecute` makes an error of a panic.
pub data Executed : Type 0 where
  succeeded : List ContentBlock → Executed
  failed : String → Executed
  panicked : String → Executed

unfoldable pub safe_execute : ToolCall → Executed → Executed
safe_execute tc (panicked r) = failed (concat (concat (concat "tool " tc.name) " panicked: ") r)
safe_execute tc e = e

-- The tail of `executeOneTool`, behind the gate: `steering` is the queue when the tool is done.
unfoldable pub run_tool :
    ToolCall → Option Executed → ℕ → List Message → Option ToolResultMessage × List Message
run_tool tc none now steering = (some (error_result tc (concat "unknown tool: " tc.name) now), [])
run_tool tc (some e) now steering = elim (safe_execute tc e) [
  | succeeded content ↦ (
    some (record {
      tool_call_id = tc.id;
      tool_name = tc.name;
      content = content;
      is_error = false;
      timestamp = now;
    }),
    steering,
  )
  | failed msg ↦ (some (error_result tc msg now), [])
  | panicked msg ↦ (none, [])
]

-- `executeOneTool`; without the tool in the map there is no execution.
unfoldable pub execute_one_tool :
    Gate → ToolCall → Option Executed → ℕ → List Message → Option ToolResultMessage × List Message
unfolding run_tool skip_result
execute_one_tool skip tc e now steering = (some (skip_result tc now), [])
execute_one_tool abort tc e now steering = (none, [])
execute_one_tool interrupted tc e now steering = (none, [])
execute_one_tool _ tc e now steering = run_tool tc e now steering

-- What the collecting loop meets next: a worker's result with its index and its steering messages,
-- the end of the tools' context, or that of the parent's.
pub data Signal : Type 0 where
  result : ℕ → Option ToolResultMessage → List Message → Signal
  tools_done : Signal
  parent_done : Signal

pub record Collected : Type 0 where
  pub results : List (Option ToolResultMessage)
  pub steering : List Message
  pub received : ℕ

unfoldable pub record_result : ℕ → Option ToolResultMessage → Collected → Collected
record_result i r c = record c { results = set c.results i r; received = c.received + 1 }

-- The inner loop, once the tools' context is done. `none` means that it still waits.
unfoldable pub drain_rest : ℕ → List Signal → Collected → Option Collected
unfolding record_result
drain_rest n [] c = if leb n c.received then some c else none
drain_rest n (result i r steer ∷ signals) c =
    let rest = drain_rest n signals (record_result i r c) in
    if leb n c.received then some c else rest
drain_rest n (parent_done ∷ signals) c = some c
drain_rest n (tools_done ∷ signals) c =
    let rest = drain_rest n signals c in if leb n c.received then some c else rest

-- The first steering messages that arrive are kept.
abbrev pub first_steering : List Message → List Message → List Message
first_steering [] ms = ms
first_steering (m ∷ kept) ms = m ∷ kept

unfoldable pub keep_steering : List Message → Collected → Collected
keep_steering ms c = record c { steering = first_steering c.steering ms }

-- The outer loop. After an error or steering the tools' context is cancelled, but a result that is
-- there may still be taken first: which of the two happens is up to the signals.
unfoldable pub drain_loop : ℕ → List Signal → Collected → Option Collected
unfolding record_result keep_steering drain_rest
drain_loop n [] c = if leb n c.received then some c else none
drain_loop n (result i r steer ∷ signals) c =
    let rest = drain_loop n signals (keep_steering steer (record_result i r c)) in
    if leb n c.received then some c else rest
drain_loop n (tools_done ∷ signals) c = if leb n c.received then some c else drain_rest n signals c
drain_loop n (parent_done ∷ signals) c =
    if leb n c.received then some c else drain_rest n (parent_done ∷ signals) c

-- Calls without a result get an error result.
unfoldable pub fill_missing :
    ℕ → List ToolCall → List (Option ToolResultMessage) → List ToolResultMessage
fill_missing now [] rs = []
fill_missing now (tc ∷ calls) [] = []
fill_missing now (tc ∷ calls) (some r ∷ rs) = r ∷ fill_missing now calls rs
fill_missing now (tc ∷ calls) (none ∷ rs) =
    error_result tc "tool execution cancelled" now ∷ fill_missing now calls rs

abbrev pub empty_results : List ToolCall → List (Option ToolResultMessage)
empty_results [] = []
empty_results (tc ∷ calls) = none ∷ empty_results calls

-- `executeTools`, with the signals in the order in which they arrive.
unfoldable pub execute_tools :
    ℕ → List ToolCall → List Signal → Option (List ToolResultMessage × List Message)
unfolding drain_loop fill_missing
execute_tools now calls signals = do
  c ←
      drain_loop (length calls) signals
        (record { results = empty_results calls; steering = []; received = 0 })
  some (fill_missing now calls c.results, c.steering)
