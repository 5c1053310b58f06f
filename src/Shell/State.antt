-- ===== src/Shell/State.antt =====
-- shell/shell.go, shell/actions.go, shell/notify.go, shell/response.go: the shell's state, and the actions
-- that extensions queue. A session and the runs of the agent are given by the calls that the shell makes
-- of them; an extension acts by the actions it queues.
use piglet.Prelude.{
  ℕ, String, Bool, true, false, Option, none, some, List, [], ◌∷◌, ◌++◌, str_eq, if◌then◌else◌,
  Assoc,
}
use piglet.Core.Types.{Message}
use piglet.Agent.State.{Agent, set_messages}
use piglet.Shell.Queue as Queue
use piglet.Shell.Queue.{QueueMode, QueuedItem}
use piglet.Shell.Repair.{repair_message_sequence}

pub data NotificationKind : Type 0 where
  message warn error status session_swap quit picker image widget overlay exec : NotificationKind
  send_message session_title clear_display queued_submit mouse_mode set_input_text :
      NotificationKind
  ask_user : NotificationKind

pub record Notification : Type 0 where
  pub kind : NotificationKind
  pub text : String
  pub key : String

-- The actions of the extension package. `swap_session` carries the messages of the new session, none if
-- it is not a session; `run_async` the action that its function returns.
pub data Action : Type 0 where
  show_message : String → Action
  notify_level : String → String → Action
  set_status : String → String → Action
  show_picker ask_user attach_image detach_image run_exec set_mouse_capture : Action
  set_widget show_overlay close_overlay : String → Action
  set_input_text : String → Action
  set_session_title : String → Action
  run_async : Action → Action
  run_async_nil : Action
  send_message : String → Action
  swap_session : Option (List Message) → Action
  quit : Action

-- A slash command: whether it runs at once, and what its handler does with its arguments.
pub record Handled : Type 0 where
  pub failure : Option String
  pub queued : List Action

pub record Command : Type 0 where
  pub immediate : Bool
  pub handler : String → Handled

-- What the input transformers make of an input.
pub data Transformed : Type 0 where
  rejected : String → Transformed
  consumed : Transformed
  changed : String → Transformed

-- The extension app; hooks that fail give none.
pub record App : Type 0 where
  pub commands : Assoc Command
  pub pending : List Action
  pub transform : String → Transformed
  pub message_hooks : String → Option (List String)

pub data SessionCall : Type 0 where
  appended : Message → SessionCall
  compacted : List Message → ℕ → SessionCall
  titled : String → SessionCall

pub record BgTask : Type 0 where
  pub prompt : String
  pub output : String
  pub is_running : Bool

-- The agent's runs that were started are in `starts`, the times it was cancelled in `cancels`.
pub record Shell : Type 0 where
  pub app : Option App
  pub agent : Option Agent
  pub session : Option (List SessionCall)
  pub queue : List QueuedItem
  pub queue_mode : QueueMode
  pub running : Bool
  pub quitting : Bool
  pub bg_tasks : Assoc BgTask
  pub held_back_end : Bool
  pub notifications : List Notification
  pub starts : List String
  pub cancels : ℕ

abbrev pub map_option {ℓ κ} : {A : Type ℓ} {B : Type κ} → (A → B) → Option A → Option B
map_option f none = none
map_option f (some a) = some (f a)

unfoldable pub notify : NotificationKind → String → String → Shell → Shell
notify kind text key s = record s {
  notifications = s.notifications ++ record { kind = kind; text = text; key = key } ∷ [];
}

abbrev call_session : SessionCall → Option (List SessionCall) → Option (List SessionCall)
call_session c none = none
call_session c (some calls) = some (calls ++ c ∷ [])

-- `persistMessage`, `AppendCompact` and `SetTitle` of the session in use, if there is one.
unfoldable pub tell_session : SessionCall → Shell → Shell
tell_session c s = record s { session = call_session c s.session }

unfoldable pub persist_message : Message → Shell → Shell
unfolding tell_session
persist_message m s = tell_session (appended m) s

-- `enqueue`
unfoldable pub enqueue : String → Bool → Shell → Shell
enqueue content low_priority s = record s { queue = Queue.enqueue content low_priority s.queue }

abbrev pub on_agent : (Agent → Agent) → Shell → Shell
on_agent f s = record s { agent = map_option f s.agent }

-- `StopBackground`
unfoldable pub stop_background : Shell → Shell
unfolding notify
stop_background s = notify status "" "bg" (record s { bg_tasks = [] })

abbrev level_kind : String → NotificationKind
level_kind level =
    if str_eq level "warn" then warn else if str_eq level "error" then error else message

-- `EnqueueAction` of the app
unfoldable pub enqueue_action : Action → Shell → Shell
enqueue_action act s = record s {
  app = map_option (λ (a : App). record a { pending = a.pending ++ act ∷ [] }) s.app;
}

-- The body of the loop of `drainActions`, with the cases of `drainUIActions`.
unfoldable pub do_action : ℕ → Action → Shell → Shell
unfolding notify tell_session enqueue stop_background enqueue_action set_messages
do_action now (show_message t) s = notify message t "" s
do_action now (notify_level level t) s = notify (level_kind level) t "" s
do_action now (set_status key t) s = notify status t key s
do_action now show_picker s = notify picker "" "" s
do_action now ask_user s = notify NotificationKind.ask_user "" "" s
do_action now attach_image s = notify image "" "" s
do_action now detach_image s = notify image "" "" s
do_action now run_exec s = notify exec "" "" s
do_action now set_mouse_capture s = notify mouse_mode "" "" s
do_action now (set_widget key) s = notify widget "" key s
do_action now (show_overlay key) s = notify overlay "" key s
do_action now (close_overlay key) s = notify overlay "" key s
do_action now (set_input_text t) s = notify NotificationKind.set_input_text t "" s
do_action now (set_session_title t) s =
    notify session_title t "" (if str_eq t "" then s else tell_session (titled t) s)
do_action now (run_async act) s = enqueue_action act s
do_action now run_async_nil s = s
do_action now (send_message t) s =
    if s.running then enqueue t false s else notify NotificationKind.send_message t "" s
do_action now (swap_session none) s = s
do_action now (swap_session (some ms)) s =
    notify session_swap "" ""
      (on_agent (set_messages (repair_message_sequence now ms)) (record s { session = some [] }))
do_action now quit s =
    notify NotificationKind.quit "" "" (record (stop_background s) { quitting = true })

unfoldable pub do_actions : ℕ → List Action → Shell → Shell
unfolding do_action
do_actions now [] s = s
do_actions now (act ∷ acts) s = do_actions now acts (do_action now act s)

abbrev pub pending_of : Option App → List Action
pending_of none = []
pending_of (some a) = a.pending

-- `drainActions`: what is queued meanwhile waits for the next time.
unfoldable pub drain_actions : ℕ → Shell → Shell
unfolding do_actions
drain_actions now s =
    do_actions now (pending_of s.app)
      (record s { app = map_option (λ (a : App). record a { pending = [] }) s.app })
