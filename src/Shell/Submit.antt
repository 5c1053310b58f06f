-- ===== src/Shell/Submit.antt =====
-- shell/submit.go, shell/shell.go: input is run as a command, queued, or given to the agent.
use Prim.Native.String.{◌++◌ as concat}
use piglet.Prelude.{
  ℕ, ◌+◌, String, Bool, true, false, ◌&&◌, Option, none, some, List, [], ◌∷◌, ◌++◌, str_eq,
  if◌then◌else◌, lookup,
}
use piglet.Core.Types.{Message, user, ContentBlock}
use piglet.Agent.State.{steer as steer_agent}
use piglet.Shell.Slash.{is_slash, parse_slash_command}
use piglet.Shell.State.{
  message, error, clear_display, Action, Handled, Command, Transformed, rejected, consumed, changed,
  App, Shell, notify, persist_message, enqueue, map_option, drain_actions,
}

-- `ResponseKind`
pub data Response : Type 0 where
  agent_started : Response
  queued : Response
  command : Response
  handled : Response
  not_ready : Response
  failed : String → Response

abbrev pub user_text : String → List ContentBlock → ℕ → Message
user_text content blocks now = user (record { content = content; blocks = blocks; timestamp = now })

-- The ephemeral context of the message hooks; a failed or empty run of them leaves it.
abbrev hook_context : Option App → String → List String → List String
hook_context none content old = old
hook_context (some app) content old = elim (app.message_hooks content) [
  | none ↦ old
  | some [] ↦ old
  | some (c ∷ cs) ↦ c ∷ cs
]

-- `startAgent`
unfoldable pub start_agent : String → Shell → Response × Shell
start_agent content s = elim s.agent [
  | none ↦ (not_ready, s)
  | some a ↦ (
    agent_started,
    record s {
      agent = some (record a { turn_context = hook_context s.app content a.turn_context });
      starts = s.starts ++ content ∷ [];
      running = true;
    },
  )
]

-- A handler's queued actions join those of the app.
abbrev add_pending : List Action → App → App
add_pending acts app = record app { pending = app.pending ++ acts }

abbrev pub after_handler : ℕ → Handled → Shell → Shell
after_handler now h s =
    let acted = record s { app = map_option (add_pending h.queued) s.app } in
    elim h.failure [
      | some e ↦ notify error (concat "Command error: " e) "" acted
      | none ↦ drain_actions now acted
    ]

abbrev pub resolve_alias : String → String
resolve_alias name = if str_eq name "exit" then "quit" else name

-- The end of `runCommand`, with the command found under its name.
unfoldable pub run_found : ℕ → String → String → Option Command → Shell → Response × Shell
unfolding notify drain_actions
run_found now name args none s = (command, notify message (concat "Unknown command: /" name) "" s)
run_found now name args (some c) s =
    let cleared = if str_eq name "clear" then notify clear_display "" "" s else s in
    (command, after_handler now (c.handler args) cleared)

-- `runCommand`
unfoldable pub run_command : ℕ → String → String → Shell → Response × Shell
unfolding run_found lookup
run_command now name args s = elim s.app [
  | none ↦ (failed "no extensions loaded", s)
  | some app ↦ run_found now (resolve_alias name) args (lookup (resolve_alias name) app.commands) s
]

-- `lookupCommand`
unfoldable pub lookup_command : String → Shell → Option Command
unfolding lookup
lookup_command name s = elim s.app [ none ↦ none | some app ↦ lookup name app.commands ]

abbrev pub is_immediate : Option Command → Bool
is_immediate none = false
is_immediate (some c) = c.immediate

abbrev pub transform_input : Option App → String → Transformed
transform_input none input = changed input
transform_input (some app) input = app.transform input

-- The end of `submitInternal`, with what the transformers made of the input.
unfoldable pub submit_message : ℕ → Transformed → Option ContentBlock → Shell → Response × Shell
unfolding persist_message start_agent
submit_message now (rejected e) img s = (failed e, s)
submit_message now consumed img s = (handled, s)
submit_message now (changed input) none s =
    start_agent input (persist_message (user_text input [] now) s)
submit_message now (changed input) (some b) s =
    start_agent input (persist_message (user_text input (b ∷ []) now) s)

-- `submitInternal`
unfoldable pub submit_internal : ℕ → String → Option ContentBlock → Shell → Response × Shell
unfolding enqueue
submit_internal now input img s =
    let (name, args) = parse_slash_command input in
    let run = run_command now name args s in
    let started = submit_message now (transform_input s.app input) img s in
    if s.running
    then (if is_slash input && is_immediate (lookup_command name s)
        then run
        else (queued, enqueue input (is_slash input) s))
    else if is_slash input
    then run
    else elim s.agent [ none ↦ (not_ready, s) | some a ↦ started ]

pub data SteerDisposition : Type 0 where
  delivered queued dropped : SteerDisposition

-- `Steer`
unfoldable pub steer : ℕ → String → Shell → SteerDisposition × Shell
unfolding enqueue steer_agent
steer now content s = elim s.agent [
  | none ↦ (dropped, s)
  | some a ↦
      if s.running
      then (delivered, record s { agent = some (steer_agent (user_text content [] now) a) })
      else (SteerDisposition.queued, enqueue content false s)
]

-- `AbortWithMarker`
unfoldable pub abort_with_marker : ℕ → String → Shell → Shell
unfolding persist_message
abort_with_marker now reason s = elim s.agent [
  | none ↦ s
  | some a ↦
      persist_message (user_text (concat (concat "[Request interrupted: " reason) "]") [] now)
        (record s { cancels = s.cancels + 1 })
]
