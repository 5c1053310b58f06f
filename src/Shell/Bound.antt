-- ===== src/Shell/Bound.antt =====
-- shell/: the bound on the input queue, through every way in.
use piglet.Prelude.{
  ℕ, ◌≤◌, String, inl, inr, Bool, true, false, ◌&&◌, Option, none, some, List, [], ◌∷◌, ◌++◌, arith,
  str_eq, leb, leb→lt, if◌then◌else◌, Bool-cases, Option-cases, length, length-append, lookup,
}
use piglet.Core.Types.{ContentBlock}
use piglet.Agent.State.{Agent}
use piglet.Shell.Queue as Queue
use piglet.Shell.Queue.{
  QueuedItem, QueueMode, single_step, drain_all, max_queue_size, is_later, find_best, drain_one,
  drain_queue, drain_prompt_queue, drain_commands, drain_prompts, merge_prompts,
}
use piglet.Shell.Slash.{is_slash, parse_slash_command}
use piglet.Shell.State.{
  Shell, App, Action, NotificationKind, Command, Handled, Transformed, rejected, consumed, changed,
  notify, tell_session, persist_message, enqueue, do_action, do_actions, drain_actions,
  enqueue_action, stop_background, pending_of, map_option,
}
use piglet.Shell.Submit.{
  Response, user_text, start_agent, run_command, run_found, resolve_alias, after_handler,
  submit_message, submit_internal, transform_input, lookup_command, is_immediate, steer,
}

abbrev pub IsBounded : Shell → Type 0
IsBounded s = length s.queue ≤ max_queue_size

length-enqueue :
    (content : String) (low : Bool) (q : List QueuedItem)
    → length q ≤ max_queue_size
    → length (Queue.enqueue content low q) ≤ max_queue_size
unfolding Queue.enqueue
length-enqueue content low q h = elim (Bool-cases (leb max_queue_size (length q))) [
  | inl full ↦ rw full h
  | inr free ↦ rw free (omega (arith, leb→lt _ _ free, length-append q (_ ∷ [])))
]

do_action-IsBounded :
    (now : ℕ) (act : Action) (s : Shell) → IsBounded s → IsBounded (do_action now act s)
unfolding do_action notify tell_session stop_background enqueue_action enqueue
do_action-IsBounded now (Action.show_message t) s h = h
do_action-IsBounded now (Action.notify_level l t) s h = h
do_action-IsBounded now (Action.set_status k t) s h = h
do_action-IsBounded now Action.show_picker s h = h
do_action-IsBounded now Action.ask_user s h = h
do_action-IsBounded now Action.attach_image s h = h
do_action-IsBounded now Action.detach_image s h = h
do_action-IsBounded now Action.run_exec s h = h
do_action-IsBounded now Action.set_mouse_capture s h = h
do_action-IsBounded now (Action.set_widget k) s h = h
do_action-IsBounded now (Action.show_overlay k) s h = h
do_action-IsBounded now (Action.close_overlay k) s h = h
do_action-IsBounded now (Action.set_input_text t) s h = h
do_action-IsBounded now (Action.set_session_title t) s h = elim (Bool-cases (str_eq t "")) [
  | inl e ↦ rw e h
  | inr e ↦ rw e h
]
do_action-IsBounded now (Action.run_async act) s h = h
do_action-IsBounded now Action.run_async_nil s h = h
do_action-IsBounded now (Action.send_message t) s h = elim (Bool-cases s.running) [
  | inl e ↦ rw e (length-enqueue t false s.queue h)
  | inr e ↦ rw e h
]
do_action-IsBounded now (Action.swap_session none) s h = h
do_action-IsBounded now (Action.swap_session (some ms)) s h = h
do_action-IsBounded now Action.quit s h = h

do_actions-IsBounded :
    (now : ℕ) (acts : List Action) (s : Shell) → IsBounded s → IsBounded (do_actions now acts s)
unfolding do_actions
do_actions-IsBounded now [] s h = h
do_actions-IsBounded now (act ∷ acts) s h =
    do_actions-IsBounded now acts (do_action now act s) (do_action-IsBounded now act s h)

pub drain_actions-IsBounded : (now : ℕ) (s : Shell) → IsBounded s → IsBounded (drain_actions now s)
unfolding drain_actions
drain_actions-IsBounded now s h =
    do_actions-IsBounded now (pending_of s.app)
      (record s { app = map_option (λ (a : App). record a { pending = [] }) s.app }) h

after_handler-IsBounded :
    (now : ℕ) (done : Handled) (s : Shell) → IsBounded s → IsBounded (after_handler now done s)
unfolding notify
after_handler-IsBounded now done s h = elim (Option-cases done.failure) [
  | inl ok ↦ rw ok (
      drain_actions-IsBounded now
        (record s {
          app = map_option (λ (a : App). record a { pending = a.pending ++ done.queued }) s.app;
        })
        h)
  | inr (e, failed) ↦ rw failed h
]

run_found-IsBounded :
    (now : ℕ) (name args : String) (c : Option Command) (s : Shell)
    → IsBounded s
    → IsBounded (run_found now name args c s).1
unfolding run_found notify
run_found-IsBounded now name args none s h = h
run_found-IsBounded now name args (some c) s h = elim (Bool-cases (str_eq name "clear")) [
  | inl e ↦ rw e (
      after_handler-IsBounded now (c.handler args) (notify NotificationKind.clear_display "" "" s)
        h)
  | inr e ↦ rw e (after_handler-IsBounded now (c.handler args) s h)
]

pub run_command-IsBounded :
    (now : ℕ) (name args : String) (s : Shell)
    → IsBounded s
    → IsBounded (run_command now name args s).1
unfolding run_command
run_command-IsBounded now name args s h = elim (Option-cases s.app) [
  | inl out ↦ rw (out, run_command) h
  | inr (app, e) ↦
      rw (e, run_command)
        (run_found-IsBounded now (resolve_alias name) args
          (lookup (resolve_alias name) app.commands) s h)
]

pub start_agent-IsBounded :
    (content : String) (s : Shell) → IsBounded s → IsBounded (start_agent content s).1
unfolding start_agent
start_agent-IsBounded content s h = elim (Option-cases s.agent) [
  | inl out ↦ rw (out, start_agent) h
  | inr (a, e) ↦ rw (e, start_agent) h
]

submit_message-IsBounded :
    (now : ℕ) (t : Transformed) (img : Option ContentBlock) (s : Shell)
    → IsBounded s
    → IsBounded (submit_message now t img s).1
unfolding submit_message persist_message tell_session
submit_message-IsBounded now (rejected e) img s h = h
submit_message-IsBounded now consumed img s h = h
submit_message-IsBounded now (changed input) none s h =
    start_agent-IsBounded input (persist_message (user_text input [] now) s) h
submit_message-IsBounded now (changed input) (some b) s h =
    start_agent-IsBounded input (persist_message (user_text input (b ∷ []) now) s) h

chosen :
    (b : Bool) (x y : Response × Shell)
    → IsBounded x.1
    → IsBounded y.1
    → IsBounded (if b then x else y).1
chosen true x y p q = p
chosen false x y p q = q

with_agent :
    (a : Option Agent) (x y : Response × Shell)
    → IsBounded x.1
    → IsBounded y.1
    → IsBounded (elim a as (λ z. Response × Shell) [ none ↦ x | some b ↦ y ]).1
with_agent none x y p q = p
with_agent (some b) x y p q = q

pub submit_internal-IsBounded :
    (now : ℕ) (input : String) (img : Option ContentBlock) (s : Shell)
    → IsBounded s
    → IsBounded (submit_internal now input img s).1
unfolding submit_internal
submit_internal-IsBounded now input img s h =
    let (name, args) = parse_slash_command input in
    let run = run_command-IsBounded now name args s h in
    let sent = submit_message-IsBounded now (transform_input s.app input) img s h in
    chosen s.running _ _
      (chosen (is_slash input && is_immediate (lookup_command name s)) _ _ run
        (length-enqueue input (is_slash input) s.queue h))
      (chosen (is_slash input) _ _ run (with_agent s.agent _ _ h sent))

pub steer-IsBounded :
    (now : ℕ) (content : String) (s : Shell) → IsBounded s → IsBounded (steer now content s).1
unfolding steer enqueue
steer-IsBounded now content s h = elim (Option-cases s.agent) [
  | inl out ↦ rw (out, steer) h
  | inr (a, e) ↦
      rw (e, steer)
        (elim (Bool-cases s.running) [
          | inl r ↦ rw r h
          | inr r ↦ rw r (length-enqueue content false s.queue h)
        ])
]
