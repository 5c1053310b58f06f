-- ===== src/Session/ReplayNode.antt =====
-- session/replay.go: the node that the replay makes of the entry of each operation.
use piglet.Prelude.{
  ℕ, String, ◌≡◌, refl, Bool, false, ◌||◌, some, List, [], ◌∷◌, arith, str_eq, All,
}
use piglet.Core.Json.{Json, get, as_str, as_obj}
use piglet.Core.Types.{Message, user, assistant, tool_result}
use piglet.Core.Codec.{encode}
use piglet.Session.Types.{
  Session, Env, plain_node, type_user, type_assistant, type_tool_result, type_compact, type_label,
  type_meta, type_custom_message, type_branch_summary,
}
use piglet.Session.Payload.{
  decode_message, message_entry_type, encode_compact, encode_label, encode_custom_message,
  decode_custom_message,
}
use piglet.Session.Store.{commit_entry}
use piglet.Session.Settle.{stored, custom_node}
use piglet.Session.Append.{Op, append_op, compact_op, custom_op}
use piglet.Session.Replay.{replay_node}
use piglet.Session.Stored.{IsCanonical, decode_stored, replay_compact-encode}

-- The kinds of entries that the replay treats in a way of their own.
abbrev pub is_reserved : String → Bool
is_reserved kind =
    str_eq kind type_meta
    || str_eq kind type_user
    || str_eq kind type_assistant
    || str_eq kind type_tool_result
    || str_eq kind type_compact
    || str_eq kind type_custom_message
    || str_eq kind type_label

-- What a call may write so that it is read back as it was.
abbrev pub IsStorable : Op → Type 0
IsStorable (append_op msg) = IsCanonical msg
IsStorable (compact_op [] tokens) = ⊥
IsStorable (compact_op (m ∷ msgs) tokens) = All IsCanonical (m ∷ msgs)
IsStorable (custom_op kind raw) = is_reserved kind ≡ false
IsStorable _ = Unit

pub node-append :
    (env : Env) (msg : Message) (s : Session)
    → IsCanonical msg
    → let typ = message_entry_type msg in
      let n = record (plain_node typ) { message = some msg } in
      replay_node (commit_entry env typ (encode msg) n s) ≡ stored env n s
unfolding replay_node stored commit_entry message_entry_type
node-append env (user m) s h = rw (decode_stored (user m) h)
node-append env (assistant m) s h = rw (decode_stored (assistant m) h)
node-append env (tool_result m) s h = rw (decode_stored (tool_result m) h)

pub node-compact :
    (env : Env) (m : Message) (msgs : List Message) (tokens : ℕ) (s : Session)
    → All IsCanonical (m ∷ msgs)
    → let n = record (plain_node type_compact) {
      compact = some (m ∷ msgs);
      tokens_before = tokens;
    } in
      replay_node (commit_entry env type_compact (encode_compact (m ∷ msgs)) n s) ≡ stored env n s
unfolding replay_node stored commit_entry decode_message
node-compact env m msgs tokens s h = rw (replay_compact-encode m msgs h)

pub node-custom :
    (env : Env) (kind : String) (raw : Json) (s : Session)
    → is_reserved kind ≡ false
    → replay_node (commit_entry env kind raw (plain_node kind) s) ≡ stored env (plain_node kind) s
unfolding replay_node stored commit_entry decode_message
node-custom env kind raw s h = ground arith

pub node-custom_message :
    (env : Env) (role content : String) (s : Session)
    → replay_node (
        commit_entry env type_custom_message
          (encode_custom_message role content)
          (custom_node env role content)
          s)
      ≡ stored env (custom_node env role content) s
unfolding replay_node stored commit_entry decode_custom_message encode_custom_message get as_str
    as_obj
node-custom_message env role content s = refl

pub node-label :
    (env : Env) (target label : String) (s : Session)
    → replay_node
        (commit_entry env type_label (encode_label target label) (plain_node type_label) s)
      ≡ stored env (plain_node type_label) s
unfolding replay_node stored commit_entry decode_message
node-label env target label s = refl

pub node-branch :
    (env : Env) (raw : Json) (s : Session)
    → replay_node (commit_entry env type_branch_summary raw (plain_node type_branch_summary) s)
      ≡ stored env (plain_node type_branch_summary) s
unfolding replay_node stored commit_entry decode_message
node-branch env raw s = refl
