-- ===== src/Shell/Idle.antt =====
-- shell/process.go, shell/queue.go: the end of a run with commands in the queue.
use piglet.Prelude.{
  ℕ, ◌+◌, String, ◌≡◌, refl, ◌∙◌, inl, inr, true, false, Option, none, some, List, [], ◌∷◌, ◌++◌,
  arith, str_eq, ltb, Bool-cases, Option-cases, all, and_left, and_right, lookup,
}
use piglet.Shell.Queue.{QueuedItem, single_step, rank, is_later, find_best, drain_one}
use piglet.Shell.Slash.{parse_slash_command}
use piglet.Shell.State.{
  Shell, App, Action, NotificationKind, Command, Handled, notify, tell_session, on_agent, do_action,
  do_actions, drain_actions, enqueue_action, stop_background, pending_of, map_option,
}
use piglet.Shell.Submit.{run_command, run_found, resolve_alias, after_handler}
use piglet.Shell.Process.{
  handle_agent_end, drain_and_submit_queued, drain_and_submit_one, stop_running, repair_agent,
  any_running,
}

-- An idle shell that stays idle with its queue.
abbrev Quiet : Shell → Shell → Type 0
Quiet s t = (t.queue ≡ s.queue) × (t.running ≡ false)

do_action-Quiet :
    (now : ℕ) (act : Action) (s : Shell) → s.running ≡ false → Quiet s (do_action now act s)
unfolding do_action notify tell_session stop_background enqueue_action
do_action-Quiet now (Action.show_message t) s h = (refl, h)
do_action-Quiet now (Action.notify_level l t) s h = (refl, h)
do_action-Quiet now (Action.set_status k t) s h = (refl, h)
do_action-Quiet now Action.show_picker s h = (refl, h)
do_action-Quiet now Action.ask_user s h = (refl, h)
do_action-Quiet now Action.attach_image s h = (refl, h)
do_action-Quiet now Action.detach_image s h = (refl, h)
do_action-Quiet now Action.run_exec s h = (refl, h)
do_action-Quiet now Action.set_mouse_capture s h = (refl, h)
do_action-Quiet now (Action.set_widget k) s h = (refl, h)
do_action-Quiet now (Action.show_overlay k) s h = (refl, h)
do_action-Quiet now (Action.close_overlay k) s h = (refl, h)
do_action-Quiet now (Action.set_input_text t) s h = (refl, h)
do_action-Quiet now (Action.set_session_title t) s h = elim (Bool-cases (str_eq t "")) [
  | inl e ↦ rw e (refl, h)
  | inr e ↦ rw e (refl, h)
]
do_action-Quiet now (Action.run_async act) s h = (refl, h)
do_action-Quiet now Action.run_async_nil s h = (refl, h)
do_action-Quiet now (Action.send_message t) s h = rw h (refl, refl)
do_action-Quiet now (Action.swap_session none) s h = (refl, h)
do_action-Quiet now (Action.swap_session (some ms)) s h = (refl, h)
do_action-Quiet now Action.quit s h = (refl, h)

do_actions-Quiet :
    (now : ℕ) (acts : List Action) (s : Shell) → s.running ≡ false → Quiet s (do_actions now acts s)
unfolding do_actions
do_actions-Quiet now [] s h = (refl, h)
do_actions-Quiet now (act ∷ acts) s h =
    let (q, r) = do_action-Quiet now act s h in
    let (q', r') = do_actions-Quiet now acts (do_action now act s) r in (q' ∙ q, r')

drain_actions-Quiet : (now : ℕ) (s : Shell) → s.running ≡ false → Quiet s (drain_actions now s)
unfolding drain_actions
drain_actions-Quiet now s h =
    do_actions-Quiet now (pending_of s.app)
      (record s { app = map_option (λ (a : App). record a { pending = [] }) s.app }) h

after_handler-Quiet :
    (now : ℕ) (done : Handled) (s : Shell) → s.running ≡ false → Quiet s (after_handler now done s)
unfolding notify
after_handler-Quiet now done s h = elim (Option-cases done.failure) [
  | inl ok ↦ rw ok (
      drain_actions-Quiet now
        (record s {
          app = map_option (λ (a : App). record a { pending = a.pending ++ done.queued }) s.app;
        })
        h)
  | inr (e, failed) ↦ rw failed (refl, h)
]

run_found-Quiet :
    (now : ℕ) (name args : String) (c : Option Command) (s : Shell)
    → s.running ≡ false
    → Quiet s (run_found now name args c s).1
unfolding run_found notify
run_found-Quiet now name args none s h = (refl, h)
run_found-Quiet now name args (some c) s h = elim (Bool-cases (str_eq name "clear")) [
  | inl e ↦
      rw e
        (after_handler-Quiet now (c.handler args) (notify NotificationKind.clear_display "" "" s) h)
  | inr e ↦ rw e (after_handler-Quiet now (c.handler args) s h)
]

run_command-Quiet :
    (now : ℕ) (name args : String) (s : Shell)
    → s.running ≡ false
    → Quiet s (run_command now name args s).1
unfolding run_command
run_command-Quiet now name args s h = elim (Option-cases s.app) [
  | inl out ↦ rw (out, run_command) (refl, h)
  | inr (app, e) ↦
      rw (e, run_command)
        (run_found-Quiet now (resolve_alias name) args (lookup (resolve_alias name) app.commands) s
          h)
]

same_rank :
    (x y : QueuedItem)
    → is_later x ≡ true
    → is_later y ≡ true
    → ltb (rank x.priority) (rank y.priority) ≡ false
same_rank x y h l = ground arith

find_best-commands :
    (xs : List QueuedItem) (i best : ℕ) (item : QueuedItem)
    → is_later item ≡ true
    → all is_later xs ≡ true
    → find_best xs i best item ≡ (best, item)
unfolding find_best
find_best-commands [] i best item l h = refl
find_best-commands (x ∷ xs) i best item l h =
    rw (same_rank x item (and_left (is_later x) (all is_later xs) h) l)
      (find_best-commands xs (i + 1) best item l (and_right (is_later x) (all is_later xs) h))

drain_one-commands :
    (c : QueuedItem) (cs : List QueuedItem)
    → all is_later (c ∷ cs) ≡ true
    → drain_one (c ∷ cs) ≡ some (c, cs)
unfolding drain_one
drain_one-commands c cs h =
    rw (find_best-commands (c ∷ cs) 0 0 c (and_left (is_later c) (all is_later cs) h) h) refl

drain_and_submit_one-command :
    (now : ℕ) (s : Shell) (c : QueuedItem) (cs : List QueuedItem)
    → all is_later (c ∷ cs) ≡ true
    → drain_and_submit_one now (record s { queue = c ∷ cs })
      ≡ drain_actions now
          (run_command now
            (parse_slash_command c.content).0
            (parse_slash_command c.content).1
            (record s { queue = cs })).1
unfolding drain_and_submit_one
drain_and_submit_one-command now s c cs commands =
    rw (drain_one-commands c cs commands, drain_and_submit_one)
      (rw (and_left (is_later c) (all is_later cs) commands) refl)

-- In single-step mode a run that ends with commands alone in the queue, and no background task running,
-- runs the first of them and is then done: the shell is idle and the other commands stay in the queue.
pub handle_agent_end-strands :
    (sort : List QueuedItem → List QueuedItem) (now : ℕ) (s0 : Shell) (c : QueuedItem)
    (cs : List QueuedItem)
    → any_running s0.bg_tasks ≡ false
    → all is_later (c ∷ cs) ≡ true
    → let s = record s0 { queue_mode = single_step; queue = c ∷ cs } in
      let (complete, t) = handle_agent_end sort now s in
      (complete ≡ true) × (t.running ≡ false) × (t.queue ≡ cs)
unfolding handle_agent_end drain_and_submit_queued stop_running
handle_agent_end-strands sort now s0 c cs none_runs commands =
    let taken = record (on_agent (repair_agent now) s0) {
      queue_mode = single_step;
      queue = cs;
      running = false;
    } in
    let (name, args) = parse_slash_command c.content in
    let (q, r) = run_command-Quiet now name args taken refl in
    let (q', r') = drain_actions-Quiet now (run_command now name args taken).1 r in
    rw (none_runs, drain_and_submit_one-command now (record taken { queue = c ∷ cs }) c cs commands)
      (rw r' refl, r', q' ∙ q)
