-- ===== src/Shell/Examples.antt =====
-- Shells, queues and histories on which the theorems of this folder are used.
use piglet.Prelude.{
  length, ◌≤◌, ℕ, zero, suc, ◌≤◌, ◌<◌, String, ◌≡◌, refl, true, false, none, some, List, [], ◌∷◌,
  ◌++◌, arith, All,
}
use piglet.Core.Types.{
  Message, assistant, AssistantMessage, AssistantContent, tool_call, tool_result, ToolResultMessage,
  ContentBlock,
}
use piglet.Agent.State.{Agent}
use piglet.Shell.Queue.{QueuedItem, next, later, rank, single_step, drain_all, drain_one}
use piglet.Shell.Repair.{repair_message_sequence}
use piglet.Shell.DrainOne.{drain_one-Split}
use piglet.Shell.Answered.{IsAnswered}
use piglet.Shell.Completed.{IsCompleted}
use piglet.Shell.Slash.{parse_slash_command}
use piglet.Shell.Repaired.{repair-IsAnswered}
use piglet.Shell.State.{Shell, App, changed, Action}
use piglet.Shell.Submit.{user_text, submit_internal}
use piglet.Shell.Process.{agent_end, tool_end, handle_agent_end}
use piglet.Shell.Input.{submit_internal-drops_image}
use piglet.Shell.Idle.{handle_agent_end-strands}
use piglet.Shell.Runs.{submitted, steered, happens, run_inputs, run_inputs-IsBounded}
use piglet.Shell.Queue.{max_queue_size}

abbrev prompt : String → QueuedItem
prompt t = record { content = t; priority = next }

abbrev slash : String → QueuedItem
slash t = record { content = t; priority = later }

abbrev mixed : List QueuedItem
mixed = slash "/compact" ∷ prompt "and tests" ∷ prompt "then stop" ∷ []

abbrev call : String → AssistantContent
call id = tool_call (record { id = id; name = "read"; arguments = none; provider_meta = none })

abbrev reply : AssistantMessage
reply = record {
  content = call "c1" ∷ call "c2" ∷ [];
  model = "m";
  provider = "p";
  usage = record {
    input_tokens = 9;
    output_tokens = 5;
    cache_read_tokens = 0;
    cache_write_tokens = 0;
    cost = 0;
  };
  stop_reason = "tool_use";
  error = "";
  timestamp = 0;
}

abbrev answer : ToolResultMessage
answer = record {
  tool_call_id = "c1";
  tool_name = "read";
  content = [];
  is_error = false;
  timestamp = 1;
}

abbrev broken_off : List Message
broken_off = user_text "go" [] 0 ∷ assistant reply ∷ tool_result answer ∷ []

abbrev agent : Agent
agent = record {
  config = record {
    max_turns = 2;
    max_messages = 0;
    retries = 2;
    concurrency = 0;
    retry_delay_cap = 0;
    compact_at = 0;
    has_compactor = false;
  };
  system = "be brief";
  tool_count = 2;
  messages = broken_off;
  steer_q = [];
  follow_q = [];
  turn_context = [];
  requests = [];
  compacting = none;
  running = false;
  log = [];
}

abbrev app : App
app = record {
  commands =
      (
        "compact",
        record {
          immediate = false;
          handler = λ args. record { failure = none; queued = Action.show_message "done" ∷ [] };
        },
      )
      ∷ [];
  pending = [];
  transform = changed;
  message_hooks = λ content. some ("it is noon" ∷ []);
}

abbrev idle : Shell
idle = record {
  app = some app;
  agent = some agent;
  session = some [];
  queue = [];
  queue_mode = drain_all;
  running = false;
  quitting = false;
  bg_tasks = [];
  held_back_end = false;
  notifications = [];
  starts = [];
  cancels = 0;
}

abbrev prompts : ℕ → List QueuedItem
prompts zero = []
prompts (suc n) = prompt "more" ∷ prompts n

abbrev busy : Shell
busy = record idle { running = true; queue = prompts 50 }

drain_one-Split_example :
    (before : List QueuedItem) × (after : List QueuedItem) × (mixed
      ≡ before ++ prompt "and tests" ∷ after)
    × (slash "/compact" ∷ prompt "then stop" ∷ [] ≡ before ++ after)
    × All (λ (it : QueuedItem). rank next < rank it.priority) before
    × All (λ (it : QueuedItem). rank next ≤ rank it.priority) after
unfolding drain_one
drain_one-Split_example =
    drain_one-Split mixed (slash "/compact" ∷ prompt "then stop" ∷ []) (prompt "and tests") refl

repair-IsAnswered_example :
    IsAnswered (repair_message_sequence 7 broken_off)
    × IsCompleted 7 broken_off broken_off (repair_message_sequence 7 broken_off)
repair-IsAnswered_example = repair-IsAnswered 7 broken_off

submit_internal-drops_image_example :
    let image = ContentBlock.image "AAAA" "image/png" in
    ((submit_internal 1 "what is this?" (some image) idle).1.agent
      ≡ (submit_internal 1 "what is this?" none idle).1.agent)
    × ((submit_internal 1 "what is this?" (some image) idle).1.starts
        ≡ (submit_internal 1 "what is this?" none idle).1.starts)
submit_internal-drops_image_example =
    submit_internal-drops_image 1 "what is this?" (ContentBlock.image "AAAA" "image/png") idle

handle_agent_end-strands_example :
    let s = record idle {
      queue_mode = single_step;
      queue = slash "/compact" ∷ slash "/model" ∷ [];
    } in
    let (complete, t) = handle_agent_end (λ q. q) 4 s in
    (complete ≡ true) × (t.running ≡ false) × (t.queue ≡ slash "/model" ∷ [])
handle_agent_end-strands_example =
    handle_agent_end-strands (λ q. q) 4 idle (slash "/compact") (slash "/model" ∷ []) refl refl

run_inputs-IsBounded_example :
    length
      (run_inputs
        (λ q. q)
        ((1, submitted "one more" none)
          ∷ (2, steered "and stop")
          ∷ (3, happens tool_end)
          ∷ (4, happens agent_end)
          ∷ [])
        busy).queue
    ≤ max_queue_size
run_inputs-IsBounded_example =
    run_inputs-IsBounded (λ q. q)
      ((1, submitted "one more" none)
        ∷ (2, steered "and stop")
        ∷ (3, happens tool_end)
        ∷ (4, happens agent_end)
        ∷ [])
      busy (omega arith)

parse_two : parse_slash_command "/model  gpt  4" ≡ ("model", "gpt 4")
unfolding parse_slash_command
parse_two = refl
