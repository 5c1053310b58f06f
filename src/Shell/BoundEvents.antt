-- ===== src/Shell/BoundEvents.antt =====
-- shell/process.go, shell/queue.go: the bound on the input queue, through the agent's events.
use piglet.Prelude.{
  ℕ, ◌≤◌, String, ◌≡◌, inl, inr, Bool, true, false, not, none, some, List, [], ◌∷◌, arith,
  if◌then◌else◌, Option-cases, length, length-append, length-filter-le,
}
use piglet.Core.Types.{assistant, ToolResultMessage, tool_result}
use piglet.Shell.Queue.{
  QueuedItem, QueueMode, single_step, drain_all, is_later, drain_one, drain_queue,
  drain_prompt_queue, drain_commands, drain_prompts, merge_prompts,
}
use piglet.Shell.Slash.{parse_slash_command}
use piglet.Shell.DrainOne.{drain_one-Split, drain_prompt_queue-filters}
use piglet.Shell.State.{
  Shell, notify, tell_session, persist_message, on_agent, drain_actions, queued_submit, compacted,
}
use piglet.Shell.Submit.{user_text, run_command}
use piglet.Shell.Process.{
  AgentEvent, tool_end, turn_end, agent_end, compact, other, process_event, handle_tool_end,
  handle_agent_end, drain_and_submit_queued, drain_and_submit_items, drain_and_submit_one,
  run_commands, submit_prompt, submit_prompts, steer_prompts, stop_running, repair_agent,
  any_running, persist_results,
}
use piglet.Shell.Bound.{
  IsBounded, drain_actions-IsBounded, run_command-IsBounded, start_agent-IsBounded,
}

submit_prompt-IsBounded :
    (now : ℕ) (content : String) (s : Shell) → IsBounded s → IsBounded (submit_prompt now content s)
unfolding submit_prompt notify persist_message tell_session
submit_prompt-IsBounded now content s h =
    start_agent-IsBounded content
      (notify queued_submit content "" (persist_message (user_text content [] now) s)) h

run_commands-IsBounded :
    (now : ℕ) (cs : List QueuedItem) (s : Shell) → IsBounded s → IsBounded (run_commands now cs s)
unfolding run_commands
run_commands-IsBounded now [] s h = h
run_commands-IsBounded now (c ∷ cs) s h =
    let (name, args) = parse_slash_command c.content in
    run_commands-IsBounded now cs (run_command now name args s).1
      (run_command-IsBounded now name args s h)

submit_prompts-IsBounded :
    (now : ℕ) (ps : List QueuedItem) (s : Shell) → IsBounded s → IsBounded (submit_prompts now ps s)
submit_prompts-IsBounded now [] s h = h
submit_prompts-IsBounded now (p ∷ ps) s h = submit_prompt-IsBounded now (merge_prompts (p ∷ ps)) s h

drain_and_submit_items-IsBounded :
    (now : ℕ) (items : List QueuedItem) (s : Shell)
    → IsBounded s
    → IsBounded (drain_and_submit_items now items s)
unfolding drain_and_submit_items
drain_and_submit_items-IsBounded now [] s h = drain_actions-IsBounded now s h
drain_and_submit_items-IsBounded now (it ∷ items) s h =
    let ran = run_commands now (drain_commands (it ∷ items)) s in
    drain_actions-IsBounded now (submit_prompts now (drain_prompts (it ∷ items)) ran) (
      submit_prompts-IsBounded now (drain_prompts (it ∷ items)) ran
        (run_commands-IsBounded now (drain_commands (it ∷ items)) s h))

drain_one_shorter :
    (queue rest : List QueuedItem) (item : QueuedItem)
    → drain_one queue ≡ some (item, rest)
    → length rest ≤ length queue
drain_one_shorter queue rest item e =
    let (before, after, q, r, _, _) = drain_one-Split queue rest item e in
    rw (q, r) (omega (arith, length-append before after, length-append before (item ∷ after)))

either : (b : Bool) (x y : Shell) → IsBounded x → IsBounded y → IsBounded (if b then x else y)
either true x y p q = p
either false x y p q = q

drain_and_submit_one-IsBounded :
    (now : ℕ) (s : Shell) → IsBounded s → IsBounded (drain_and_submit_one now s)
unfolding drain_and_submit_one
drain_and_submit_one-IsBounded now s h = elim (Option-cases (drain_one s.queue)) [
  | inl out ↦ rw (out, drain_and_submit_one) (drain_actions-IsBounded now s h)
  | inr ((item, rest), e) ↦
      let taken = record s { queue = rest } in
      let fits : IsBounded taken = omega (arith, h, drain_one_shorter s.queue rest item e) in
      let (name, args) = parse_slash_command item.content in
      let ran = (run_command now name args taken).1 in
      let sent = submit_prompt now item.content taken in
      rw (e, drain_and_submit_one)
        (drain_actions-IsBounded now (if is_later item then ran else sent) (
          either (is_later item) ran sent (run_command-IsBounded now name args taken fits)
            (submit_prompt-IsBounded now item.content taken fits)))
]

by_mode :
    (m : QueueMode) (x y : Shell)
    → IsBounded x
    → IsBounded y
    → IsBounded (elim m as (λ z. Shell) [ drain_all ↦ x | single_step ↦ y ])
by_mode drain_all x y p q = p
by_mode single_step x y p q = q

drain_and_submit_queued-IsBounded :
    (sort : List QueuedItem → List QueuedItem) (now : ℕ) (s : Shell)
    → IsBounded s
    → IsBounded (drain_and_submit_queued sort now s)
unfolding drain_and_submit_queued drain_queue
drain_and_submit_queued-IsBounded sort now s h =
    by_mode s.queue_mode (drain_and_submit_items now (sort s.queue) (record s { queue = [] }))
      (drain_and_submit_one now s)
      (drain_and_submit_items-IsBounded now (sort s.queue) (record s { queue = [] }) (omega arith))
      (drain_and_submit_one-IsBounded now s h)

filter_shorter : (queue : List QueuedItem) → length (drain_prompt_queue queue).1 ≤ length queue
unfolding drain_commands
filter_shorter queue = rw (drain_prompt_queue-filters queue) (length-filter-le is_later queue)

steer_prompts-IsBounded :
    (now : ℕ) (ps : List QueuedItem) (s : Shell) → IsBounded s → IsBounded (steer_prompts now ps s)
unfolding notify persist_message tell_session
steer_prompts-IsBounded now [] s h = h
steer_prompts-IsBounded now (p ∷ ps) s h = h

handle_tool_end-IsBounded : (now : ℕ) (s : Shell) → IsBounded s → IsBounded (handle_tool_end now s)
unfolding handle_tool_end
handle_tool_end-IsBounded now s h = elim (Option-cases s.agent) [
  | inl out ↦ rw (out, handle_tool_end) h
  | inr (a, e) ↦
      rw (e, handle_tool_end)
        (steer_prompts-IsBounded now (drain_prompt_queue s.queue).0
          (record s { queue = (drain_prompt_queue s.queue).1 })
          (omega (arith, h, filter_shorter s.queue)))
]

persist_results-IsBounded :
    (now : ℕ) (rs : List ToolResultMessage) (s : Shell)
    → IsBounded s
    → IsBounded (persist_results now rs s)
unfolding persist_results persist_message tell_session
persist_results-IsBounded now [] s h = h
persist_results-IsBounded now (r ∷ rs) s h =
    persist_results-IsBounded now rs (persist_message (tool_result r) s) h

pair :
    (b : Bool) (x y : Bool × Shell)
    → IsBounded x.1
    → IsBounded y.1
    → IsBounded (if b then x else y).1
pair true x y p q = p
pair false x y p q = q

handle_agent_end-IsBounded :
    (sort : List QueuedItem → List QueuedItem) (now : ℕ) (s : Shell)
    → IsBounded s
    → IsBounded (handle_agent_end sort now s).1
unfolding handle_agent_end stop_running
handle_agent_end-IsBounded sort now s h =
    let fixed = on_agent (repair_agent now) s in
    let held = drain_actions now (record fixed { held_back_end = true }) in
    let drained = drain_and_submit_queued sort now (stop_running fixed) in
    pair (any_running s.bg_tasks) (false, held) (not drained.running, drained)
      (drain_actions-IsBounded now (record fixed { held_back_end = true }) h)
      (drain_and_submit_queued-IsBounded sort now (stop_running fixed) h)

-- The commands, actions and prompts that an event sets off are all behind the limit.
pub process_event-IsBounded :
    (sort : List QueuedItem → List QueuedItem) (now : ℕ) (e : AgentEvent) (s : Shell)
    → IsBounded s
    → IsBounded (process_event sort now e s).1
unfolding process_event persist_message tell_session
process_event-IsBounded sort now tool_end s h =
    drain_actions-IsBounded now (handle_tool_end now s) (handle_tool_end-IsBounded now s h)
process_event-IsBounded sort now (turn_end none rs) s h =
    drain_actions-IsBounded now (persist_results now rs s) (persist_results-IsBounded now rs s h)
process_event-IsBounded sort now (turn_end (some m) rs) s h =
    let t = persist_message (assistant m) s in
    drain_actions-IsBounded now (persist_results now rs t) (persist_results-IsBounded now rs t h)
process_event-IsBounded sort now agent_end s h =
    let (complete, t) = handle_agent_end sort now s in
    let b = handle_agent_end-IsBounded sort now s h in
    either complete t (drain_actions now t) b (drain_actions-IsBounded now t b)
process_event-IsBounded sort now (compact tokens) s h = elim (Option-cases s.agent) [
  | inl out ↦ rw (out, process_event) (drain_actions-IsBounded now s h)
  | inr (a, e) ↦
      rw (e, process_event)
        (drain_actions-IsBounded now (tell_session (compacted a.messages tokens) s) h)
]
process_event-IsBounded sort now other s h = h
