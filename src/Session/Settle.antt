-- ===== src/Session/Settle.antt =====
-- session/append.go, session/tree.go: each operation that writes an entry either fails and changes
-- at most the end of the file, or ends in the state that is written out here.
use piglet.Prelude.{String, ap, ◌≡◌, refl, Option, none, some, List, insert, insert-insert, arith}
use piglet.Core.Json.{Json}
use piglet.Session.Types.{
  Entry, Line, entry, Err, lock_err, write_err, Node, Session, Env, Io, written, lock_failed,
  write_failed, plain_node, type_custom_message, type_branch_summary,
}
use piglet.Session.Payload.{encode_custom_message, custom_message_to_core, encode_branch_summary}
use piglet.Session.Store.{add_line, leave, commit_entry, locked_append, commit_node}
use piglet.Session.Append.{append_custom_message, write_branch_entry, patch_message}

-- How a write ends, and what it adds to the file.
abbrev pub outcome : Io → Option (List Line) → Option Err
outcome lock_failed f = some lock_err
outcome io none = none
outcome (write_failed l) (some f) = some write_err
outcome written (some f) = none

abbrev pub extend : Entry → Option (List Line) → Option (List Line)
extend e none = none
extend e (some f) = some (add_line f (entry e))

-- What a failed write leaves.
abbrev pub spoiled : Io → Entry → Option (List Line) → Option (List Line)
spoiled (write_failed l) e (some f) = some (leave l e f)
spoiled io e f = f

abbrev pub failed : Env → Entry → Session → Session
failed env e s = record s { file = spoiled env.io e s.file }

-- An error with the first state, or the second one.
abbrev pub settle : Option Err → Session → Session → Session × Option Err
settle (some err) old new = (old, some err)
settle none old new = (new, none)

unfoldable pub stored : Env → Node → Session → Node
stored env n s = record n { parent_id = s.leaf_id; ts = env.now }

unfoldable pub committed : Env → String → Json → Node → Session → Session
unfolding stored
committed env typ raw n s = record s {
  file = extend (commit_entry env typ raw n s) s.file;
  nodes = insert env.fresh_id (stored env n s) s.nodes;
  leaf_id = env.fresh_id;
}

-- What the write leaves in the file, and its error.
pub locked_append_lem :
    (io : Io) (e : Entry) (f : Option (List Line))
    → locked_append io e f
      ≡ (elim (outcome io f) [ none ↦ extend e f | some err ↦ spoiled io e f ], outcome io f)
unfolding locked_append
locked_append_lem lock_failed e f = refl
locked_append_lem written e none = refl
locked_append_lem written e (some f) = refl
locked_append_lem (write_failed l) e none = refl
locked_append_lem (write_failed l) e (some f) = refl

-- A commit fails, or files the entry, registers its node and moves the leaf.
pub commit_node_lem :
    (env : Env) (typ : String) (raw : Json) (n : Node) (s : Session)
    → commit_node env typ raw n s
      ≡ settle
          (outcome env.io s.file)
          (failed env (commit_entry env typ raw n s) s)
          (committed env typ raw n s)
unfolding commit_node committed
commit_node_lem env typ raw n s =
    ground (arith, locked_append_lem env.io (commit_entry env typ raw n s) s.file)

-- The node of a custom message as the source leaves it.
abbrev pub custom_node : Env → String → String → Node
custom_node env role content = record (plain_node type_custom_message) {
  message = some (custom_message_to_core role content env.now);
}

patch_message-settle :
    (env : Env) (role content : String) (raw : Json) (o : Option Err) (s old : Session)
    → patch_message env role content s
        (settle o old (committed env type_custom_message raw (plain_node type_custom_message) s))
      ≡ settle o old (committed env type_custom_message raw (custom_node env role content) s)
unfolding patch_message committed commit_entry
patch_message-settle env role content raw (some err) s old = refl
patch_message-settle env role content raw none s old =
    ap
      (λ t. (
        record s {
          file =
              extend (commit_entry env type_custom_message raw (plain_node type_custom_message) s)
                s.file;
          nodes = t;
          leaf_id = env.fresh_id;
        },
        none,
      ))
      (insert-insert env.fresh_id _ _ s.nodes)

-- The entries that the two calls below write.
abbrev pub custom_entry : Env → String → String → Session → Entry
custom_entry env role content s =
    commit_entry env type_custom_message (encode_custom_message role content)
      (plain_node type_custom_message) s

abbrev pub branch_entry : Env → String → String → Session → Entry
branch_entry env parent summary s =
    commit_entry env type_branch_summary (encode_branch_summary summary s.leaf_id)
      (plain_node type_branch_summary) (record s { leaf_id = parent })

-- The message of a custom entry is patched into the node that the commit has registered.
pub append_custom_message_lem :
    (env : Env) (role content : String) (s : Session)
    → append_custom_message env role content s
      ≡ settle (outcome env.io s.file) (failed env (custom_entry env role content s) s) (
          committed env type_custom_message
            (encode_custom_message role content)
            (custom_node env role content)
            s)
unfolding append_custom_message
append_custom_message_lem env role content s = rw commit_node_lem (
    patch_message-settle env role content _ (outcome env.io s.file) s
      (failed env (custom_entry env role content s) s))

-- A branch entry hangs under its target, and a failure puts the leaf back.
pub write_branch_entry_lem :
    (env : Env) (parent summary : String) (s : Session)
    → write_branch_entry env parent summary s
      ≡ settle (outcome env.io s.file) (failed env (branch_entry env parent summary s) s) (
          committed env type_branch_summary
            (encode_branch_summary summary s.leaf_id)
            (plain_node type_branch_summary)
            (record s { leaf_id = parent }))
unfolding write_branch_entry
write_branch_entry_lem env parent summary s = ground (
  arith,
  commit_node_lem env type_branch_summary (encode_branch_summary summary s.leaf_id)
      (plain_node type_branch_summary) (record s { leaf_id = parent }),
)
