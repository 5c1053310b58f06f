-- ===== src/Agent/State.antt =====
-- core/agent.go: configuration, the agent's state, its queues and the events that it emits. A number of
-- the configuration that is not positive is 0. The log holds every event that is offered to the consumer;
-- `emit` drops one that is not taken in time.
use piglet.Prelude.{ℕ, String, Bool, Option, List, [], ◌∷◌, ◌++◌, ltb, if◌then◌else◌}
use piglet.Core.Types.{Message, AssistantMessage, ToolResultMessage}

abbrev pub max_retry_attempts : ℕ
max_retry_attempts = 3

abbrev pub default_tool_concurrency : ℕ
default_tool_concurrency = 10

-- Durations are in milliseconds.
abbrev pub retry_base_delay : ℕ
retry_base_delay = 500

abbrev pub retry_max_delay : ℕ
retry_max_delay = 5000

pub record Config : Type 0 where
  pub max_turns : ℕ
  pub max_messages : ℕ
  pub retries : ℕ
  pub concurrency : ℕ
  pub retry_delay_cap : ℕ
  pub compact_at : ℕ
  pub has_compactor : Bool

unfoldable pub max_retries : Config → ℕ
max_retries c = if ltb 0 c.retries then c.retries else max_retry_attempts

unfoldable pub tool_concurrency : Config → ℕ
tool_concurrency c = if ltb 0 c.concurrency then c.concurrency else default_tool_concurrency

unfoldable pub max_retry_delay : Config → ℕ
max_retry_delay c = if ltb 0 c.retry_delay_cap then c.retry_delay_cap else retry_max_delay

pub data Event : Type 0 where
  agent_start : Event
  agent_end : List Message → Event
  session_load : ℕ → Event
  agent_init : ℕ → Event
  prompt_build : String → Event
  message_pre : String → Event
  turn_start : Event
  turn_end : Option AssistantMessage → List ToolResultMessage → Event
  retry : ℕ → ℕ → ℕ → Event
  max_turns_reached : ℕ → ℕ → Event
  compact : ℕ → ℕ → ℕ → Event

-- A background compaction that is under way: the messages it was given and the tokens counted.
pub record Snapshot : Type 0 where
  pub taken : List Message
  pub tokens : ℕ

-- A `StreamRequest`: the system text and the messages that the provider is sent.
pub record Request : Type 0 where
  pub system_text : String
  pub sent : List Message

pub record Agent : Type 0 where
  pub config : Config
  pub system : String
  pub tool_count : ℕ
  pub messages : List Message
  pub steer_q : List Message
  pub follow_q : List Message
  pub turn_context : List String
  pub requests : List Request
  pub compacting : Option Snapshot
  pub running : Bool
  pub log : List Event

unfoldable pub emit : Event → Agent → Agent
emit e a = record a { log = a.log ++ e ∷ [] }

-- `Steer`, `FollowUp`, `AppendMessage` and `SetMessages`
unfoldable pub steer : Message → Agent → Agent
steer m a = record a { steer_q = a.steer_q ++ m ∷ [] }

unfoldable pub follow_up : Message → Agent → Agent
follow_up m a = record a { follow_q = a.follow_q ++ m ∷ [] }

unfoldable pub append_message : Message → Agent → Agent
append_message m a = record a { messages = a.messages ++ m ∷ [] }

unfoldable pub append_messages : List Message → Agent → Agent
append_messages ms a = record a { messages = a.messages ++ ms }

unfoldable pub set_messages : List Message → Agent → Agent
set_messages ms a = record a { messages = ms }

unfoldable pub dequeue_steer : Agent → List Message × Agent
dequeue_steer a = (a.steer_q, record a { steer_q = [] })

unfoldable pub dequeue_follow : Agent → List Message × Agent
dequeue_follow a = (a.follow_q, record a { follow_q = [] })
