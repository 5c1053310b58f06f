-- ===== src/Agent/Turns.antt =====
-- core/agent.go and core/tool_executor.go: the turns of one run of the agent. What happens outside is an
-- input of each turn: the attempts to stream, the messages that are steered in, how the tools end, and
-- where a background compaction ends.
use piglet.Prelude.{
  ℕ, ◌+◌, String, Bool, true, false, ◌&&◌, ◌||◌, Option, none, some, List, [], ◌∷◌, ◌++◌, map,
  str_eq, ltb, leb, if◌then◌else◌, ◌>>=◌, length, drop, get_elem?,
}
use piglet.Core.Types.{
  Message, AssistantMessage, user, assistant, tool_result, ToolCall, ToolResultMessage,
}
use piglet.Agent.State.{
  Agent, agent_start, agent_end, session_load, agent_init, prompt_build, message_pre, turn_start,
  turn_end, max_turns_reached, emit, steer, append_message, append_messages, dequeue_steer,
  dequeue_follow,
}
use piglet.Agent.History.{enforce_message_cap, maybe_compact, finish_compaction}
use piglet.Agent.Stream.{
  Attempt, Streamed, message, failure, interrupted, panicked, stream_with_retry,
}
use piglet.Agent.Tools.{
  Gate, Executed, execute_one_tool, Signal, result, tools_done, parent_done, execute_tools,
  extract_tool_calls,
}

-- What happens while the tools of a turn run.
pub data ToolStep : Type 0 where
  arrives : Message → ToolStep
  worker : ℕ → Gate → Option Executed → ToolStep
  not_started : ℕ → ToolStep
  context_done : ToolStep
  cancelled : ToolStep

-- `executeOneToolWorker`: what the collecting loop meets, and the steering queue in the end. A worker
-- that takes the queue leaves it empty.
unfoldable pub work : ℕ → List ToolCall → List ToolStep → List Message → List Signal × List Message
unfolding execute_one_tool
work now calls [] queue = ([], queue)
work now calls (arrives m ∷ steps) queue = work now calls steps (queue ++ m ∷ [])
work now calls (not_started i ∷ steps) queue =
    let (signals, rest) = work now calls steps queue in (result i none [] ∷ signals, rest)
work now calls (context_done ∷ steps) queue =
    let (signals, rest) = work now calls steps queue in (tools_done ∷ signals, rest)
work now calls (cancelled ∷ steps) queue =
    let (signals, rest) = work now calls steps queue in (parent_done ∷ signals, rest)
work now calls (worker i gate e ∷ steps) queue = elim (get_elem? calls i) [
  | none ↦ work now calls steps queue
  | some tc ↦
      let (r, taken) = execute_one_tool gate tc e now queue in
      let (signals, rest) = work now calls steps (drop (length taken) queue) in
      (result i r taken ∷ signals, rest)
]

-- One turn's inputs. A compaction that ends does so with what the compactor returned.
pub record TurnInput : Type 0 where
  pub ctx_done : Bool
  pub steered : List Message
  pub try : ℕ → Attempt
  pub compacted : Option (Option (List Message))
  pub steps : List ToolStep
  pub now : ℕ

-- How a turn leaves the loop of `runTurns`, or the messages pending for the next.
pub data Next : Type 0 where
  stop : Next
  leave : Next
  continue : List Message → Next

abbrev pub end_compaction : Option (Option (List Message)) → Agent → Agent
end_compaction none a = a
end_compaction (some r) a = finish_compaction r a

unfoldable pub steer_all : List Message → Agent → Agent
unfolding steer
steer_all [] a = a
steer_all (m ∷ ms) a = steer_all ms (steer m a)

unfoldable pub add_results : List ToolResultMessage → List Message
add_results rs = map tool_result rs

-- The tools of the turn: the results, the steering messages that were kept, and the agent after.
unfoldable pub run_tools :
    TurnInput → List ToolCall → Agent → Option (List ToolResultMessage × List Message × Agent)
unfolding work execute_tools append_messages add_results
run_tools t [] a = some ([], [], a)
run_tools t (tc ∷ calls) a = do
  let (signals, queue) = work t.now (tc ∷ calls) t.steps a.steer_q
  (rs, kept) ← execute_tools t.now (tc ∷ calls) signals
  some (rs, kept, append_messages (add_results rs) (record a { steer_q = queue }))

abbrev pub is_final : AssistantMessage → Bool
is_final m = str_eq m.stop_reason "error" || str_eq m.stop_reason "aborted"

-- The cap and the compaction behind a turn.
unfoldable pub bound_history : Agent → Agent
unfolding enforce_message_cap maybe_compact
bound_history a =
    let capped = if ltb 0 a.config.max_messages then enforce_message_cap a else a in
    if ltb 0 a.config.compact_at && a.config.has_compactor then maybe_compact capped else capped

unfoldable pub turn_limit : ℕ → Agent → Bool
turn_limit count a = ltb 0 a.config.max_turns && leb a.config.max_turns count

-- The next pending messages: the tools' steering, else the queue.
unfoldable pub next_pending : List Message → Agent → List Message × Agent
unfolding dequeue_steer
next_pending [] a = dequeue_steer a
next_pending (m ∷ ms) a = (m ∷ ms, a)

abbrev pub decide_next : List ToolCall → List Message → Next
decide_next [] [] = leave
decide_next [] (m ∷ ms) = continue (m ∷ ms)
decide_next (tc ∷ calls) pending = continue pending

-- The turn's tail, from the turn count on; `count` is the number of turns with this one.
unfoldable pub close_turn : ℕ → List ToolCall → List Message → Agent → Next × Agent
unfolding turn_limit next_pending emit
close_turn count calls kept a =
    let (pending, b) = next_pending kept a in
    if turn_limit count a
    then (stop, emit (max_turns_reached count a.config.max_turns) a)
    else (decide_next calls pending, b)

-- The turn behind a streamed message.
unfoldable pub act : TurnInput → ℕ → AssistantMessage → Agent → Option (Next × Agent)
unfolding emit append_message run_tools bound_history close_turn
act t count m a =
    let b = append_message (assistant m) a in
    let calls = extract_tool_calls m.content in
    let tools = run_tools t calls b in
    if is_final m then some (stop, emit (turn_end (some m) []) b) else (do
      (rs, kept, c) ← tools
      some (close_turn count calls kept (bound_history (emit (turn_end (some m) rs) c))))

-- What a turn does with the end of the stream; `none` is the panic behind the retries.
unfoldable pub after_stream : TurnInput → ℕ → Streamed → Agent → Option (Next × Agent)
unfolding act emit
after_stream t count (message m) a = act t count m a
after_stream t count (failure e) a = some (stop, emit (turn_end none []) a)
after_stream t count interrupted a = some (stop, emit (turn_end none []) a)
after_stream t count panicked a = none

-- One round of the loop of `runTurns`. `none`: a tool never ends, or the panic behind the retries.
unfoldable pub turn : TurnInput → ℕ → List Message → Agent → Option (Next × Agent)
unfolding emit append_messages steer_all after_stream
turn t count pending a =
    let begun = steer_all t.steered (append_messages pending (emit turn_start a)) in
    let (streamed, b) = stream_with_retry t.try begun in
    let rest = after_stream t (count + 1) streamed (end_compaction t.compacted b) in
    if t.ctx_done then some (stop, a) else rest

-- The loop of `runTurns`, for as many turns as there are inputs: the flag is its result.
unfoldable pub turn_loop : List TurnInput → ℕ → List Message → Agent → Option (Bool × Agent)
unfolding turn
turn_loop [] count pending a = none
turn_loop (t ∷ ts) count pending a = do
  (next, b) ← turn t count pending a
  elim next [
    | stop ↦ some (true, b)
    | leave ↦ some (false, b)
    | continue pending ↦ turn_loop ts (count + 1) pending b
  ]

-- `runTurns`
unfoldable pub run_turns : List TurnInput → Agent → Option (Bool × Agent)
unfolding dequeue_steer turn_loop
run_turns ts a = let (pending, b) = dequeue_steer a in turn_loop ts 0 pending b

-- The outer loop of `run`: one list of turns for each round of follow-ups.
unfoldable pub outer_loop : List (List TurnInput) → Agent → Option Agent
unfolding run_turns dequeue_follow append_messages
outer_loop [] a = none
outer_loop (ts ∷ rounds) a = do
  (stopped, b) ← run_turns ts a
  let (follow, c) = dequeue_follow b
  let again = outer_loop rounds (append_messages follow c)
  if stopped then some b else elim follow [ [] ↦ some c | _ ∷ _ ↦ again ]

abbrev start_events : String → Agent → Agent
start_events prompt a =
    let started = emit agent_start a in
    let loaded =
      if ltb 0 (length a.messages)
      then emit (session_load (length a.messages)) started
      else started in
    emit (message_pre prompt) (emit (prompt_build a.system) (emit (agent_init a.tool_count) loaded))

-- `run`, which waits for a compaction that is under way when it ends.
unfoldable pub run :
    ℕ → String → List (List TurnInput) → Option (Option (List Message)) → Agent → Option Agent
unfolding emit append_message outer_loop
run now prompt rounds compacted a = do
  let asked =
      append_message (user (record { content = prompt; blocks = []; timestamp = now }))
        (start_events prompt a)
  b ← outer_loop rounds asked
  some (record (end_compaction compacted (emit (agent_end b.messages) b)) { running = false })
