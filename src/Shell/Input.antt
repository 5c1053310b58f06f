-- ===== src/Shell/Input.antt =====
-- shell/submit.go, shell/process.go: what input that is submitted or queued comes to.
use piglet.Prelude.{
  ℕ, ◌≤◌, String, ◌≡◌, refl, sym, ap, ◌∙◌, inl, inr, true, false, Option, none, some, List, [], ◌∷◌,
  ◌++◌, map, append-nil, append_assoc, Bool-cases, Option-cases, length, leb_of_le,
}
use piglet.Core.Types.{
  Message, AssistantMessage, assistant, ToolResultMessage, tool_result, ContentBlock,
}
use piglet.Agent.State.{Agent, steer as steer_agent}
use piglet.Shell.Queue as Queue
use piglet.Shell.Queue.{QueuedItem, max_queue_size, drain_prompt_queue, merge_prompts}
use piglet.Shell.Slash.{is_slash}
use piglet.Shell.State.{
  Shell, Transformed, rejected, consumed, changed, appended, SessionCall, persist_message,
  tell_session, enqueue, drain_actions, do_actions, notify, queued_submit,
}
use piglet.Shell.Submit.{
  queued, user_text, start_agent, submit_message, submit_internal, transform_input,
}
use piglet.Shell.Process.{tool_end, turn_end, process_event, handle_tool_end, persist_results}

-- What the agent sees of a shell: the agent itself and the runs that were started on it.
abbrev pub Seen : Shell → Shell → Type 0
Seen s t = (s.agent ≡ t.agent) × (s.starts ≡ t.starts)

start_agent-Seen :
    (content : String) (m n : Message) (s : Shell)
    → Seen
        (start_agent content (persist_message m s)).1
        (start_agent content (persist_message n s)).1
unfolding start_agent persist_message tell_session
start_agent-Seen content m n s = elim (Option-cases s.agent) [
  | inl out ↦ rw out (refl, refl)
  | inr (a, e) ↦ rw e (refl, refl)
]

submit_message-Seen :
    (now : ℕ) (t : Transformed) (img : ContentBlock) (s : Shell)
    → Seen (submit_message now t (some img) s).1 (submit_message now t none s).1
unfolding submit_message
submit_message-Seen now (rejected e) img s = (refl, refl)
submit_message-Seen now consumed img s = (refl, refl)
submit_message-Seen now (changed input) img s =
    start_agent-Seen input (user_text input (img ∷ []) now) (user_text input [] now) s

-- An image that is submitted with an input never reaches the agent: on every branch the agent, and the
-- runs that are started on it, are those of the same input without the image.
pub submit_internal-drops_image :
    (now : ℕ) (input : String) (img : ContentBlock) (s : Shell)
    → ((submit_internal now input (some img) s).1.agent
        ≡ (submit_internal now input none s).1.agent)
      × ((submit_internal now input (some img) s).1.starts
          ≡ (submit_internal now input none s).1.starts)
unfolding submit_internal
submit_internal-drops_image now input img s = elim (Bool-cases s.running) [
  | inl busy ↦ rw busy (refl, refl)
  | inr idle ↦ rw idle (elim (Bool-cases (is_slash input)) [
    | inl slash ↦ rw slash (refl, refl)
    | inr text ↦ rw text (elim (Option-cases s.agent) [
      | inl out ↦ rw out (refl, refl)
      | inr (a, e) ↦ rw e (submit_message-Seen now (transform_input s.app input) img s)
    ])
  ])
]

-- Input that is no command, at a busy shell with a full queue, is dropped, and the response says that it
-- is queued.
pub submit_internal_full :
    (now : ℕ) (input : String) (img : Option ContentBlock) (s : Shell)
    → s.running ≡ true
    → is_slash input ≡ false
    → max_queue_size ≤ length s.queue
    → submit_internal now input img s ≡ (queued, s)
unfolding submit_internal enqueue Queue.enqueue
submit_internal_full now input img s r slash full = rw (r, slash, leb_of_le _ _ full) refl

persist_results-session :
    (now : ℕ) (rs : List ToolResultMessage) (s : Shell) (calls : List SessionCall)
    → persist_results now rs (record s { session = some calls })
      ≡ record s { session = some (calls ++ map (λ r. appended (tool_result r)) rs) }
unfolding persist_results persist_message tell_session
persist_results-session now [] s calls =
    ap (λ c. record s { session = some c }) (sym (append-nil calls))
persist_results-session now (r ∷ rs) s calls =
    persist_results-session now rs s (calls ++ appended (tool_result r) ∷ [])
    ∙ ap (λ c. record s { session = some c })
        (append_assoc calls (appended (tool_result r) ∷ [])
          (map (λ r. appended (tool_result r)) rs))

-- A prompt that was queued during a turn with tools is written to the session before the assistant
-- message of that turn, and waits in the agent's queue to be added to its history after the turn's
-- results: the two orders differ.
pub tool_end-before_turn_end :
    (sort : List QueuedItem → List QueuedItem) (now : ℕ) (s0 : Shell) (a : Agent)
    (calls : List SessionCall) (queue rest : List QueuedItem) (p : QueuedItem)
    (ps : List QueuedItem) (m : AssistantMessage) (rs : List ToolResultMessage)
    → drain_prompt_queue queue ≡ (p ∷ ps, rest)
    → let s = record s0 { app = none; agent = some a; session = some calls; queue = queue } in
      let t =
        (process_event sort now (turn_end (some m) rs) (process_event sort now tool_end s).1).1 in
      let prompt = user_text (merge_prompts (p ∷ ps)) [] now in
      (t.session
        ≡ some (
            (calls ++ appended prompt ∷ [])
            ++ (appended (assistant m) ∷ map (λ r. appended (tool_result r)) rs)))
      × (t.agent ≡ some (steer_agent prompt a))
unfolding process_event handle_tool_end persist_message tell_session drain_actions do_actions notify
tool_end-before_turn_end sort now s0 a calls queue rest p ps m rs prompts = rw prompts (
    let prompt = user_text (merge_prompts (p ∷ ps)) [] now in
    let told =
      notify queued_submit (merge_prompts (p ∷ ps)) ""
        (record s0 { app = none; agent = some (steer_agent prompt a); queue = rest }) in
    let before = calls ++ appended prompt ∷ [] in
    rw (persist_results-session now rs told (before ++ appended (assistant m) ∷ [])) (
      ap some (
          append_assoc before (appended (assistant m) ∷ [])
            (map (λ r. appended (tool_result r)) rs)),
      refl,
    ))
