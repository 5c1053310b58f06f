-- ===== src/Agent/Examples.antt =====
-- Agents, turns and tools on which the theorems of this folder are used.
use piglet.Prelude.{
  Bool, subst, ◌+◌, ◌≤◌, min, ◌≡◌, refl, ◌≢◌, false, none, some, List, [], ◌∷◌, ◌++◌, map, arith,
  length, All,
}
use piglet.Core.Types.{Message, tool_result, ToolResultMessage}
use piglet.Agent.State.{Agent, Request, compact, append_messages, max_retries}
use piglet.Agent.History.{
  cap_of, enforce_message_cap, latest_tokens, maybe_compact, finish_compaction,
}
use piglet.Agent.Stream.{panicked, with_context, stream_with_retry}
use piglet.Agent.Tools.{open_gate, succeeded}
use piglet.Agent.Turns.{arrives, worker, run_tools, run_turns}
use piglet.Agent.Cap.{enforce_message_cap-keeps}
use piglet.Agent.Compaction.{finish_compaction-append, finish_compaction-loses}
use piglet.Agent.Retry.{stream_with_retry-Ends}
use piglet.Agent.Requests.{stream_with_retry-drops_context}
use piglet.Agent.ToolResults.{run_tools-answers}
use piglet.Agent.ToolsEnd.{run_tools-Ends, run_tools-loses_steering}
use piglet.Agent.Returns.{ToolsEnd, run_turns-Returns}
use piglet.Agent.Stream.{Outcome, ok, err, cancelled, consume}
use piglet.Agent.Tools.{extract_tool_calls}
use piglet.Agent.ToolsEnd.{ended}
use piglet.Agent.MaxTurns.{run_turns-take, run_turns-leaves}
use piglet.Agent.Samples.{
  agent, both, config, flaky, history, list_call, quiet, read_call, text, two_tools,
}

enforce_message_cap-keeps_example :
    (dropped : List Message) × (kept : List Message) × (text "2" ∷ history ≡ dropped ++ kept)
    × ((enforce_message_cap (agent (text "1" ∷ text "2" ∷ history))).messages ≡ text "1" ∷ kept)
    × (length (text "1" ∷ kept) ≡ min (length (text "1" ∷ text "2" ∷ history)) (cap_of 8))
enforce_message_cap-keeps_example =
    enforce_message_cap-keeps (agent (text "1" ∷ text "2" ∷ history)) (text "1")
      (text "2" ∷ history) refl

finish_compaction-append_example :
    let b =
      finish_compaction
        (some (text "summary" ∷ []))
        (append_messages (text "new" ∷ []) (maybe_compact (agent history))) in
    (b.messages ≡ text "summary" ∷ text "new" ∷ [])
    × (b.compacting ≡ none)
    × (b.log ≡ compact 8 1 120 ∷ [])
unfolding latest_tokens
finish_compaction-append_example =
    finish_compaction-append (agent history) (text "new" ∷ []) (text "summary") [] refl
      (omega arith) (omega arith)

finish_compaction-loses_example :
    let b =
      enforce_message_cap (append_messages (text "new" ∷ []) (maybe_compact (agent history))) in
    (finish_compaction (some (text "summary" ∷ [])) b).messages ≡ text "summary" ∷ []
unfolding latest_tokens cap_of
finish_compaction-loses_example =
    finish_compaction-loses (agent history) (text "new") [] (text "summary") [] refl (omega arith)
      (omega arith) refl

stream_with_retry-Ends_example :
    let (r, b) = stream_with_retry flaky (agent history) in
    (r ≢ panicked)
    × (length b.requests ≤ 0 + max_retries config)
    × (b.messages ≡ history)
    × (b.steer_q ≡ [])
    × (b.follow_q ≡ [])
stream_with_retry-Ends_example = stream_with_retry-Ends flaky (agent history)

stream_with_retry-drops_context_example :
    (rs : List Request) × ((stream_with_retry flaky (agent history)).1.requests
      ≡ record { system_text = with_context "be brief" ("it is noon" ∷ []); sent = history } ∷ rs)
    × All (λ (r : Request). (r.sent ≡ history) × (r.system_text ≡ "be brief")) rs
stream_with_retry-drops_context_example = stream_with_retry-drops_context flaky (agent history) refl

two_tools_end :
    (r : List ToolResultMessage × List Message × Agent) × (run_tools two_tools both (agent history)
      ≡ some r)
two_tools_end = run_tools-Ends two_tools both (agent history) (omega arith)

run_tools-Ends_example :
    (r : List ToolResultMessage × List Message × Agent) × (run_tools two_tools both (agent history)
      ≡ some r)
run_tools-Ends_example = run_tools-Ends two_tools both (agent history) (omega arith)

run_tools-answers_example :
    let ((rs, kept, b), e) = two_tools_end in
    (map (λ (r : ToolResultMessage). r.tool_call_id) rs ≡ "c1" ∷ "c2" ∷ [])
    × (b.messages ≡ history ++ map tool_result rs)
run_tools-answers_example =
    run_tools-answers two_tools both (agent history) two_tools_end.0.2 two_tools_end.0.0
      two_tools_end.0.1 two_tools_end.1

run_tools-loses_steering_example :
    (rs : List ToolResultMessage) × (b : Agent) × (run_tools
        (record two_tools {
          steps =
              worker 0 open_gate (some (succeeded []))
              ∷ arrives (text "and stop")
              ∷ worker 1 open_gate (some (succeeded []))
              ∷ [];
        })
        both
        (record (agent history) { steer_q = text "wait" ∷ [] })
      ≡ some (rs, text "wait" ∷ [], b))
    × (b.steer_q ≡ [])
run_tools-loses_steering_example =
    run_tools-loses_steering two_tools (agent history) read_call list_call (text "wait")
      (text "and stop") [] [] []

run_turns-take_example :
    run_turns (two_tools ∷ two_tools ∷ quiet ∷ []) (agent history)
    ≡ run_turns (two_tools ∷ two_tools ∷ []) (agent history)
run_turns-take_example =
    run_turns-take (two_tools ∷ two_tools ∷ quiet ∷ []) (agent history) (omega arith)

-- The turn of `quiet` ends the run.
quiet_run : (b : Agent) × (run_turns (quiet ∷ []) (agent history) ≡ some (false, b))
unfolding run_turns stream_with_retry max_retries piglet.Agent.Tools.extract_tool_calls
quiet_run = (_, refl)

run_turns-leaves_example : quiet_run.0.steer_q ≡ []
run_turns-leaves_example = run_turns-leaves (quiet ∷ []) (agent history) quiet_run.0 quiet_run.1

abbrev AllEnd : Outcome → Type 0
AllEnd (ok m) =
    length (extract_tool_calls m.content) ≤ ended (extract_tool_calls m.content) two_tools.steps
AllEnd (err e) = Unit
AllEnd cancelled = Unit

two_tools-ToolsEnd : ToolsEnd two_tools
unfolding consume extract_tool_calls
two_tools-ToolsEnd n m e = subst AllEnd e (omega arith)

run_turns-Returns_example :
    (r : Bool × Agent) × (run_turns (two_tools ∷ two_tools ∷ []) (agent history) ≡ some r)
run_turns-Returns_example =
    run_turns-Returns (two_tools ∷ two_tools ∷ []) (agent history) (omega arith) (omega arith)
      (two_tools-ToolsEnd, (two_tools-ToolsEnd, tt))
