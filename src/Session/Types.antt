-- ===== src/Session/Types.antt =====
-- session/types.go and the struct of session/session.go. A line of the file is an entry, or one that
-- does not parse; a handle that is nil is `none`.
use piglet.Prelude.{ℕ, String, Option, none, List, Assoc}
use piglet.Core.Json.{Json}
use piglet.Core.Types.{Message}

abbrev pub type_user : String
type_user = "user"

abbrev pub type_assistant : String
type_assistant = "assistant"

abbrev pub type_tool_result : String
type_tool_result = "tool_result"

abbrev pub type_meta : String
type_meta = "meta"

abbrev pub type_compact : String
type_compact = "compact"

abbrev pub type_branch_summary : String
type_branch_summary = "branch_summary"

abbrev pub type_custom_message : String
type_custom_message = "custom_message"

abbrev pub type_label : String
type_label = "label"

pub record Entry : Type 0 where
  pub typ : String
  pub id : String
  pub parent_id : String
  pub ts : ℕ
  pub payload : Json
  pub tokens_before : ℕ

pub data Line : Type 0 where
  entry : Entry → Line
  corrupt : Line
  -- The last line without its end: a piece of an entry, or all of one.
  torn : Line
  unended : Entry → Line

pub record Meta : Type 0 where
  pub id : String
  pub cwd : String
  pub model : String
  pub created_at : ℕ
  pub title : String
  pub parent_id : String
  pub fork_point : ℕ

-- A node of the tree in memory; `none` in `message` or `compact` is Go's nil.
pub record Node : Type 0 where
  pub parent_id : String
  pub typ : String
  pub ts : ℕ
  pub message : Option Message
  pub compact : Option (List Message)
  pub tokens_before : ℕ

abbrev pub Nodes : Type 0
Nodes = Assoc Node

pub record Session : Type 0 where
  pub dir : String
  pub id : String
  pub path : String
  pub file : Option (List Line)
  pub meta : Meta
  pub nodes : Nodes
  pub labels : Assoc String
  pub leaf_id : String
  pub legacy_seq : ℕ

-- What a failed write has written: nothing, a part of the entry, or all of it but the end of the line.
pub data Left : Type 0 where
  nothing_left part_left entry_left : Left

-- What a call finds in its environment: the random entry ID, the clock, and how the write went.
pub data Io : Type 0 where
  written lock_failed : Io
  write_failed : Left → Io

pub record Env : Type 0 where
  pub fresh_id : String
  pub now : ℕ
  pub io : Io

pub data Err : Type 0 where
  not_found : String → Err
  lock_err write_err marshal_err : Err

abbrev pub zero_meta : Meta
zero_meta = record {
  id = "";
  cwd = "";
  model = "";
  created_at = 0;
  title = "";
  parent_id = "";
  fork_point = 0;
}

abbrev pub plain_node : String → Node
plain_node typ = record {
  parent_id = "";
  typ = typ;
  ts = 0;
  message = none;
  compact = none;
  tokens_before = 0;
}
