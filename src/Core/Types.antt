-- ===== src/Core/Types.antt =====
-- core/types.go: content blocks and messages. A time stamp is a number, the cost of a call a scaled
-- number; `Arguments` and `ProviderMeta` are JSON objects or nil.
use piglet.Prelude.{ℕ, String, Bool, Option, List}
use piglet.Core.Json.{Fields}

-- `ContentBlock`: content in user messages and tool results.
pub data ContentBlock : Type 0 where
  text : String → ContentBlock
  image : String → String → ContentBlock

pub record ToolCall : Type 0 where
  pub id : String
  pub name : String
  pub arguments : Option Fields
  pub provider_meta : Option Fields

-- `AssistantContent`: content in assistant messages.
pub data AssistantContent : Type 0 where
  text : String → AssistantContent
  thinking : String → AssistantContent
  tool_call : ToolCall → AssistantContent

pub record Usage : Type 0 where
  pub input_tokens : ℕ
  pub output_tokens : ℕ
  pub cache_read_tokens : ℕ
  pub cache_write_tokens : ℕ
  pub cost : ℕ

pub record UserMessage : Type 0 where
  pub content : String
  pub blocks : List ContentBlock
  pub timestamp : ℕ

pub record AssistantMessage : Type 0 where
  pub content : List AssistantContent
  pub model : String
  pub provider : String
  pub usage : Usage
  pub stop_reason : String
  pub error : String
  pub timestamp : ℕ

pub record ToolResultMessage : Type 0 where
  pub tool_call_id : String
  pub tool_name : String
  pub content : List ContentBlock
  pub is_error : Bool
  pub timestamp : ℕ

-- `Message`, the sealed union.
pub data Message : Type 0 where
  user : UserMessage → Message
  assistant : AssistantMessage → Message
  tool_result : ToolResultMessage → Message

abbrev pub stop_reason_error : String
stop_reason_error = "error"

abbrev pub stop_reason_aborted : String
stop_reason_aborted = "aborted"

abbrev pub zero_usage : Usage
zero_usage = record {
  input_tokens = 0;
  output_tokens = 0;
  cache_read_tokens = 0;
  cache_write_tokens = 0;
  cost = 0;
}
