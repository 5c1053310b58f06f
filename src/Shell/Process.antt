-- ===== src/Shell/Process.antt =====
-- shell/process.go, shell/queue.go: what the shell does with the agent's events and at the end of a run.
use Prim.Native.String.{◌++◌ as concat}
use piglet.Prelude.{
  ℕ, String, Bool, true, false, not, ◌||◌, Option, none, some, List, [], ◌∷◌, str_eq, ltb, ◌==◌,
  if◌then◌else◌, length, Assoc, lookup, erase, insert,
}
use piglet.Core.Types.{AssistantMessage, assistant, ToolResultMessage, tool_result}
use piglet.Agent.State.{Agent, steer as steer_agent, set_messages}
use piglet.Shell.Queue.{
  drain_all, single_step, QueuedItem, drain_queue, drain_one, drain_prompts, drain_commands,
  merge_prompts, drain_prompt_queue, is_later,
}
use piglet.Shell.Slash.{parse_slash_command}
use piglet.Shell.Repair.{repair_message_sequence}
use piglet.Shell.State.{
  message, status, queued_submit, BgTask, Shell, compacted, notify, tell_session, persist_message,
  on_agent, drain_actions,
}
use piglet.Shell.Submit.{user_text, start_agent, run_command}

-- The events of the agent that the shell acts on.
pub data AgentEvent : Type 0 where
  tool_end : AgentEvent
  turn_end : Option AssistantMessage → List ToolResultMessage → AgentEvent
  agent_end : AgentEvent
  compact : ℕ → AgentEvent
  other : AgentEvent

-- A queued prompt becomes the user message of a new run.
unfoldable pub submit_prompt : ℕ → String → Shell → Shell
unfolding persist_message notify start_agent
submit_prompt now content s =
    (start_agent content
      (notify queued_submit content "" (persist_message (user_text content [] now) s))).1

unfoldable pub run_commands : ℕ → List QueuedItem → Shell → Shell
unfolding run_command parse_slash_command
run_commands now [] s = s
run_commands now (c ∷ cs) s =
    let (name, args) = parse_slash_command c.content in
    run_commands now cs (run_command now name args s).1

abbrev pub submit_prompts : ℕ → List QueuedItem → Shell → Shell
submit_prompts now [] s = s
submit_prompts now (p ∷ ps) s = submit_prompt now (merge_prompts (p ∷ ps)) s

unfoldable pub drain_and_submit_items : ℕ → List QueuedItem → Shell → Shell
unfolding submit_prompt run_commands drain_commands drain_prompts merge_prompts drain_actions
drain_and_submit_items now [] s = drain_actions now s
drain_and_submit_items now (it ∷ items) s = drain_actions now (
    submit_prompts now (drain_prompts (it ∷ items))
      (run_commands now (drain_commands (it ∷ items)) s))

-- `drainAndSubmitOne`
unfoldable pub drain_and_submit_one : ℕ → Shell → Shell
unfolding run_command parse_slash_command submit_prompt drain_actions
drain_and_submit_one now s = elim (drain_one s.queue) [
  | none ↦ drain_actions now s
  | some (item, rest) ↦
      let taken = record s { queue = rest } in
      let (name, args) = parse_slash_command item.content in
      let run = (run_command now name args taken).1 in
      let sent = submit_prompt now item.content taken in
      drain_actions now (if is_later item then run else sent)
]

-- `drainAndSubmitQueued`, with the sort of the standard library.
unfoldable pub drain_and_submit_queued : (List QueuedItem → List QueuedItem) → ℕ → Shell → Shell
unfolding drain_and_submit_one drain_queue drain_and_submit_items
drain_and_submit_queued sort now s = elim s.queue_mode [
  | single_step ↦ drain_and_submit_one now s
  | drain_all ↦
      let (items, rest) = drain_queue sort s.queue in
      drain_and_submit_items now items (record s { queue = rest })
]

-- `stopRunning`
unfoldable pub stop_running : Shell → Shell
stop_running s = record s { running = false }

abbrev pub steer_prompts : ℕ → List QueuedItem → Shell → Shell
steer_prompts now [] s = s
steer_prompts now (p ∷ ps) s =
    let m = user_text (merge_prompts (p ∷ ps)) [] now in
    on_agent (steer_agent m)
      (notify queued_submit (merge_prompts (p ∷ ps)) "" (persist_message m s))

-- `handleToolEnd`
unfoldable pub handle_tool_end : ℕ → Shell → Shell
unfolding drain_prompt_queue merge_prompts steer_agent notify persist_message
handle_tool_end now s = elim s.agent [
  | none ↦ s
  | some a ↦
      let (prompts, rest) = drain_prompt_queue s.queue in
      steer_prompts now prompts (record s { queue = rest })
]

-- The repair at the end of a run: the lengths are compared.
unfoldable pub repair_agent : ℕ → Agent → Agent
unfolding repair_message_sequence set_messages
repair_agent now a =
    let fixed = repair_message_sequence now a.messages in
    if length fixed == length a.messages then a else set_messages fixed a

abbrev pub any_running : Assoc BgTask → Bool
any_running [] = false
any_running ((name, t) ∷ tasks) = t.is_running || any_running tasks

-- `handleAgentEnd`: whether the run is done, and the shell after.
unfoldable pub handle_agent_end : (List QueuedItem → List QueuedItem) → ℕ → Shell → Bool × Shell
unfolding repair_agent drain_actions stop_running drain_and_submit_queued
handle_agent_end sort now s =
    let fixed = on_agent (repair_agent now) s in
    let held = drain_actions now (record fixed { held_back_end = true }) in
    let drained = drain_and_submit_queued sort now (stop_running fixed) in
    if any_running s.bg_tasks then (false, held) else (not drained.running, drained)

unfoldable pub persist_results : ℕ → List ToolResultMessage → Shell → Shell
unfolding persist_message
persist_results now [] s = s
persist_results now (r ∷ rs) s = persist_results now rs (persist_message (tool_result r) s)

abbrev pub persist_assistant : Option AssistantMessage → Shell → Shell
persist_assistant none s = s
persist_assistant (some m) s = persist_message (assistant m) s

-- `ProcessEvent`: whether the run is complete, and the shell after.
unfoldable pub process_event :
    (List QueuedItem → List QueuedItem) → ℕ → AgentEvent → Shell → Bool × Shell
unfolding handle_tool_end persist_results persist_message handle_agent_end tell_session
    drain_actions
process_event sort now tool_end s = (false, drain_actions now (handle_tool_end now s))
process_event sort now (turn_end a rs) s =
    (false, drain_actions now (persist_results now rs (persist_assistant a s)))
process_event sort now agent_end s =
    let (complete, t) = handle_agent_end sort now s in
    (complete, if complete then t else drain_actions now t)
process_event sort now (compact tokens) s = elim s.agent [
  | none ↦ (false, drain_actions now s)
  | some a ↦ (false, drain_actions now (tell_session (compacted a.messages tokens) s))
]
process_event sort now other s = (false, s)

abbrev task_text : String → String
task_text output = if str_eq output "" then "(background task produced no output)" else output

abbrev prompt_and_output : Option BgTask → String × String
prompt_and_output none = ("", "")
prompt_and_output (some t) = (t.prompt, t.output)

-- The end of a background task in `ProcessBgEvent`.
unfoldable pub end_background :
    (List QueuedItem → List QueuedItem) → ℕ → String → Shell → Bool × Shell
unfolding lookup erase notify stop_running drain_and_submit_queued
end_background sort now name s =
    let (prompt, output) = prompt_and_output (lookup name s.bg_tasks) in
    let left = erase name s.bg_tasks in
    let told =
      notify message (concat (concat (concat "Background task: " prompt) "\n\n") (task_text output))
        "" (record s { bg_tasks = left }) in
    let idle = notify status "" "bg" told in
    let drained =
      drain_and_submit_queued sort now (stop_running (record idle { held_back_end = false })) in
    if ltb 0 (length left)
    then (true, told)
    else if s.held_back_end
    then (not drained.running, drained)
    else (true, idle)

-- A text delta of a background task in `ProcessBgEvent`.
unfoldable pub background_delta : String → String → Shell → Shell
unfolding lookup insert
background_delta name delta s = elim (lookup name s.bg_tasks) [
  | none ↦ s
  | some t ↦ record s {
    bg_tasks = insert name (record t { output = concat t.output delta }) s.bg_tasks;
  }
]

-- `StartBackgroundNamed`: an error, or none, and the shell after.
unfoldable pub start_background_named : String → String → Shell → Option String × Shell
unfolding lookup insert notify
start_background_named name prompt s =
    let task : BgTask = record { prompt = prompt; output = ""; is_running = true } in
    let started =
      notify status (concat "bg: " name) "bg"
        (record s { bg_tasks = insert name task s.bg_tasks }) in
    elim (lookup name s.bg_tasks) [
      | some t ↦ (some (concat (concat "background task \"" name) "\" already running"), s)
      | none ↦ elim s.agent [ none ↦ (some "agent not ready", s) | some a ↦ (none, started) ]
    ]
