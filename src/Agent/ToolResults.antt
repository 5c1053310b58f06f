-- ===== src/Agent/ToolResults.antt =====
-- core/tool_executor.go: every call of an assistant message gets its result, whatever the order in which
-- the workers end.
use piglet.Prelude.{
  ℕ, ◌≡◌, sym, ap, ◌∙◌, inl, inr, Option, none, some, List, [], ◌∷◌, ◌++◌, map, append-nil,
  Option-cases, length, drop, get_elem?, All, bind-some,
}
use mathlib.Core.Option.{some-injective}
use piglet.Core.Types.{Message, tool_result, ToolCall, ToolResultMessage}
use piglet.Agent.State.{Agent, append_messages}
use piglet.Agent.Tools.{
  error_result, skip_result, Gate, open_gate, approve, skip, abort, interrupted, Executed,
  succeeded, failed, panicked, safe_execute, run_tool, execute_one_tool, Signal, execute_tools,
}
use piglet.Agent.Turns.{
  ToolStep, arrives, worker, not_started, context_done, cancelled, work, TurnInput, run_tools,
  add_results,
}
use piglet.Agent.Collect.{
  Belongs, Fits-drain_loop, Fits-empty, Sent, call_ids, ids-fill_missing, result_ids,
}

same_id :
    (calls : List ToolCall) (i : ℕ) (tc x : ToolCall)
    → get_elem? calls i ≡ some tc
    → get_elem? calls i ≡ some x
    → tc.id ≡ x.id
same_id calls i tc x p q = ap (λ (t : ToolCall). t.id) (some-injective _ _ (sym p ∙ q))

-- A worker's result is that of its call.
Belongs-run_tool :
    (tc : ToolCall) (e : Option Executed) (now : ℕ) (queue : List Message) (calls : List ToolCall)
    (i : ℕ)
    → get_elem? calls i ≡ some tc
    → Belongs calls i (run_tool tc e now queue).0
unfolding run_tool error_result safe_execute
Belongs-run_tool tc none now queue calls i at = λ x p. same_id calls i tc x at p
Belongs-run_tool tc (some (succeeded content)) now queue calls i at =
    λ x p. same_id calls i tc x at p
Belongs-run_tool tc (some (failed m)) now queue calls i at = λ x p. same_id calls i tc x at p
Belongs-run_tool tc (some (panicked m)) now queue calls i at = λ x p. same_id calls i tc x at p

Belongs-execute :
    (gate : Gate) (tc : ToolCall) (e : Option Executed) (now : ℕ) (queue : List Message)
    (calls : List ToolCall) (i : ℕ)
    → get_elem? calls i ≡ some tc
    → Belongs calls i (execute_one_tool gate tc e now queue).0
unfolding execute_one_tool skip_result error_result
Belongs-execute skip tc e now queue calls i at = λ x p. same_id calls i tc x at p
Belongs-execute abort tc e now queue calls i at = tt
Belongs-execute interrupted tc e now queue calls i at = tt
Belongs-execute approve tc e now queue calls i at = Belongs-run_tool tc e now queue calls i at
Belongs-execute open_gate tc e now queue calls i at = Belongs-run_tool tc e now queue calls i at

Sent-work :
    (now : ℕ) (calls : List ToolCall) (steps : List ToolStep) (queue : List Message)
    → All (Sent calls) (work now calls steps queue).0
unfolding work
Sent-work now calls [] queue = tt
Sent-work now calls (arrives m ∷ steps) queue = Sent-work now calls steps (queue ++ m ∷ [])
Sent-work now calls (not_started i ∷ steps) queue = (tt, Sent-work now calls steps queue)
Sent-work now calls (context_done ∷ steps) queue = (tt, Sent-work now calls steps queue)
Sent-work now calls (cancelled ∷ steps) queue = (tt, Sent-work now calls steps queue)
Sent-work now calls (worker i gate e ∷ steps) queue = elim (Option-cases (get_elem? calls i)) [
  | inl out ↦ rw (out, work) (Sent-work now calls steps queue)
  | inr (tc, at) ↦
      rw (at, work)
        (
          Belongs-execute gate tc e now queue calls i at,
          Sent-work now calls steps (drop (length (execute_one_tool gate tc e now queue).1) queue),
        )
]

ids-execute_tools :
    (now : ℕ) (calls : List ToolCall) (signals : List Signal) (rs : List ToolResultMessage)
    (kept : List Message)
    → All (Sent calls) signals
    → execute_tools now calls signals ≡ some (rs, kept)
    → result_ids rs ≡ call_ids calls
unfolding execute_tools
ids-execute_tools now calls signals rs kept ok e =
    let (c, found, q) = bind-some _ _ _ e in
    let fits = Fits-drain_loop (length calls) calls signals _ c ok (Fits-empty calls) found in
    ap result_ids
      (sym (ap (λ (p : List ToolResultMessage × List Message). p.0) (some-injective _ _ q)))
    ∙ ids-fill_missing now calls c.results fits

-- When the tools of a turn end, each call of the assistant message has one result with its id, in the
-- order of the calls, and these results are what is appended to the history; this holds whatever the
-- order in which the workers end, and also when tools fail, are skipped, or are cancelled.
pub run_tools-answers :
    (t : TurnInput) (calls : List ToolCall) (a b : Agent) (rs : List ToolResultMessage)
    (kept : List Message)
    → run_tools t calls a ≡ some (rs, kept, b)
    → (map (λ (r : ToolResultMessage). r.tool_call_id) rs ≡ map (λ (tc : ToolCall). tc.id) calls)
      × (b.messages ≡ a.messages ++ map tool_result rs)
unfolding run_tools append_messages add_results
run_tools-answers t [] a b rs kept e =
    let same = some-injective _ _ e in
    (
      ap (λ (p : List ToolResultMessage × List Message × Agent). result_ids p.0) (sym same),
      ap (λ (p : List ToolResultMessage × List Message × Agent). p.2.messages) (sym same)
          ∙ (sym (append-nil a.messages)
              ∙ ap
                  (λ (p : List ToolResultMessage × List Message × Agent).
                    a.messages ++ map tool_result p.0)
                  same),
    )
run_tools-answers t (tc ∷ calls) a b rs kept e =
    let ((rs', kept'), found, q) = bind-some _ _ _ e in
    let same = some-injective _ _ q in
    (
      ap (λ (p : List ToolResultMessage × List Message × Agent). result_ids p.0) (sym same)
          ∙ ids-execute_tools t.now (tc ∷ calls) _ rs' kept'
              (Sent-work t.now (tc ∷ calls) t.steps a.steer_q) found,
      ap (λ (p : List ToolResultMessage × List Message × Agent). p.2.messages) (sym same)
          ∙ ap
              (λ (p : List ToolResultMessage × List Message × Agent).
                a.messages ++ map tool_result p.0)
              same,
    )
