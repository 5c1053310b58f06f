-- ===== src/Agent/Samples.antt =====
-- An agent, its turns and its tools, for the examples of this folder.
use piglet.Prelude.{ℕ, zero, suc, String, true, false, none, some, List, [], ◌∷◌}
use piglet.Core.Types.{
  Message, user, assistant, AssistantMessage, AssistantContent, tool_call, ToolCall, ContentBlock,
}
use piglet.Agent.State.{Config, Agent}
use piglet.Agent.Stream.{Attempt, done, failed}
use piglet.Agent.Tools.{open_gate, succeeded}
use piglet.Agent.Turns.{TurnInput, worker}

abbrev pub config : Config
config = record {
  max_turns = 2;
  max_messages = 8;
  retries = 2;
  concurrency = 0;
  retry_delay_cap = 0;
  compact_at = 100;
  has_compactor = true;
}

abbrev pub text : String → Message
text t = user (record { content = t; blocks = []; timestamp = 0 })

abbrev pub read_call : ToolCall
read_call = record { id = "c1"; name = "read"; arguments = none; provider_meta = none }

abbrev pub list_call : ToolCall
list_call = record { id = "c2"; name = "ls"; arguments = none; provider_meta = none }

abbrev reply : List AssistantContent → AssistantMessage
reply content = record {
  content = content;
  model = "m";
  provider = "p";
  stop_reason = "stop";
  error = "";
  usage = record {
    input_tokens = 120;
    output_tokens = 5;
    cache_read_tokens = 0;
    cache_write_tokens = 0;
    cost = 0;
  };
  timestamp = 0;
}

abbrev pub history : List Message
history =
    text "1"
    ∷ text "2"
    ∷ text "3"
    ∷ text "4"
    ∷ text "5"
    ∷ text "6"
    ∷ text "7"
    ∷ assistant (reply [])
    ∷ []

abbrev pub agent : List Message → Agent
agent ms = record {
  config = config;
  system = "be brief";
  tool_count = 2;
  messages = ms;
  steer_q = [];
  follow_q = [];
  turn_context = "it is noon" ∷ [];
  requests = [];
  compacting = none;
  running = true;
  log = [];
}

abbrev answers : List AssistantContent → Attempt
answers content = record {
  has_key = true;
  events = (false, done (some (reply content))) ∷ [];
  done_after = false;
  done_in_wait = false;
}

abbrev breaks : Attempt
breaks = record {
  has_key = true;
  events = (false, failed none) ∷ [];
  done_after = false;
  done_in_wait = false;
}

-- The first attempt fails and the second answers.
abbrev pub flaky : ℕ → Attempt
flaky zero = breaks
flaky (suc n) = answers []

abbrev pub two_tools : TurnInput
two_tools = record {
  ctx_done = false;
  steered = [];
  try = λ n. answers (tool_call read_call ∷ tool_call list_call ∷ []);
  compacted = none;
  steps =
      worker 1 open_gate (some (succeeded (ContentBlock.text "a.go" ∷ [])))
      ∷ worker 0 open_gate none
      ∷ [];
  now = 7;
}

abbrev pub quiet : TurnInput
quiet = record {
  ctx_done = false;
  steered = [];
  try = flaky;
  compacted = none;
  steps = [];
  now = 8;
}

abbrev pub both : List ToolCall
both = read_call ∷ list_call ∷ []
