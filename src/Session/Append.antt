-- ===== src/Session/Append.antt =====
-- session/append.go and session/tree.go: the operations that change a session.
use piglet.Prelude.{
  ℕ, String, Option, none, some, List, str_eq, lookup, insert, erase, if◌then◌else◌,
}
use piglet.Core.Json.{Json}
use piglet.Core.Types.{Message}
use piglet.Core.Codec.{encode}
use piglet.Session.Types.{
  Session, Env, Err, not_found, marshal_err, plain_node, type_compact, type_branch_summary,
  type_custom_message, type_label,
}
use piglet.Session.Payload.{
  message_entry_type, encode_compact, encode_branch_summary, encode_custom_message, encode_label,
  custom_message_to_core,
}
use piglet.Session.Store.{commit_node, write_meta}

-- `Append`
unfoldable pub append : Env → Message → Session → Session × Option Err
append env msg s =
    let typ = message_entry_type msg in
    commit_node env typ (encode msg) (record (plain_node typ) { message = some msg }) s

-- `AppendCompact`
unfoldable pub append_compact : Env → List Message → ℕ → Session → Session × Option Err
append_compact env msgs tokens s =
    commit_node env type_compact (encode_compact msgs)
      (record (plain_node type_compact) { compact = some msgs; tokens_before = tokens }) s

-- `AppendCustom`; `none` is a value that `json.Marshal` refuses.
unfoldable pub append_custom : Env → String → Option Json → Session → Session × Option Err
append_custom env kind none s = (s, some marshal_err)
append_custom env kind (some raw) s = commit_node env kind raw (plain_node kind) s

-- `n.message = customMessageToCore(role, content, n.ts)` on the node just registered.
unfoldable pub patch_message :
    Env → String → String → Session → Session × Option Err → Session × Option Err
patch_message env role content old (s, some err) = (s, some err)
patch_message env role content old (s, none) = (
  record s {
    nodes =
        insert env.fresh_id
          (record (plain_node type_custom_message) {
            parent_id = old.leaf_id;
            ts = env.now;
            message = some (custom_message_to_core role content env.now);
          })
          s.nodes;
  },
  none,
)

-- `AppendCustomMessage`
unfoldable pub append_custom_message : Env → String → String → Session → Session × Option Err
unfolding patch_message
append_custom_message env role content s = patch_message env role content s (
    commit_node env type_custom_message (encode_custom_message role content)
      (plain_node type_custom_message) s)

unfoldable pub set_label : String → String → Session × Option Err → Session × Option Err
set_label target label (s, some err) = (s, some err)
set_label target label (s, none) = (
  record s {
    labels = if str_eq label "" then erase target s.labels else insert target label s.labels;
  },
  none,
)

-- The guard that the target of a label or a branch is an entry of the session.
abbrev pub require : String → Session → Session × Option Err → Session × Option Err
require id s r = elim (lookup id s.nodes) [ none ↦ (s, some (not_found id)) | some n ↦ r ]

-- `AppendLabel`
unfoldable pub append_label : Env → String → String → Session → Session × Option Err
unfolding set_label
append_label env target label s = require target s (
    set_label target label
      (commit_node env type_label (encode_label target label) (plain_node type_label) s))

-- On failure the leaf is put back.
unfoldable pub restore_leaf : String → Session × Option Err → Session × Option Err
restore_leaf leaf (s, some err) = (record s { leaf_id = leaf }, some err)
restore_leaf leaf (s, none) = (s, none)

-- `writeBranchEntry`
unfoldable pub write_branch_entry : Env → String → String → Session → Session × Option Err
unfolding restore_leaf
write_branch_entry env parent summary s = restore_leaf s.leaf_id (
    commit_node env type_branch_summary (encode_branch_summary summary s.leaf_id)
      (plain_node type_branch_summary) (record s { leaf_id = parent }))

-- `BranchWithSummary`
unfoldable pub branch_with_summary : Env → String → String → Session → Session × Option Err
unfolding write_branch_entry
branch_with_summary env id summary s = require id s (write_branch_entry env id summary s)

-- `Branch`
unfoldable pub branch : Env → String → Session → Session × Option Err
unfolding write_branch_entry
branch env id s = require id s (write_branch_entry env id "" s)

-- `ResetLeaf`
unfoldable pub reset_leaf : Env → Session → Session × Option Err
unfolding write_branch_entry
reset_leaf env s = write_branch_entry env "" "" s

-- `SetTitle` and `SetModel`; the metadata in memory changes before the write.
unfoldable pub set_title : Env → String → Session → Session × Option Err
unfolding write_meta
set_title env title s = write_meta env (record s { meta = record s.meta { title = title } })

unfoldable pub set_model : Env → String → Session → Session × Option Err
unfolding write_meta
set_model env model s = write_meta env (record s { meta = record s.meta { model = model } })

-- A call of one of the exported operations.
pub data Op : Type 0 where
  append_op : Message → Op
  compact_op : List Message → ℕ → Op
  custom_op : String → Option Json → Op
  custom_message_op : String → String → Op
  label_op : String → String → Op
  branch_op : String → Op
  summary_op : String → String → Op
  reset_op : Op
  title_op : String → Op
  model_op : String → Op

unfoldable pub run_op : Env → Op → Session → Session × Option Err
unfolding append append_compact append_custom append_custom_message append_label branch
    branch_with_summary reset_leaf set_title set_model
run_op env (append_op msg) s = append env msg s
run_op env (compact_op msgs tokens) s = append_compact env msgs tokens s
run_op env (custom_op kind raw) s = append_custom env kind raw s
run_op env (custom_message_op role content) s = append_custom_message env role content s
run_op env (label_op target label) s = append_label env target label s
run_op env (branch_op id) s = branch env id s
run_op env (summary_op id summary) s = branch_with_summary env id summary s
run_op env reset_op s = reset_leaf env s
run_op env (title_op title) s = set_title env title s
run_op env (model_op model) s = set_model env model s
