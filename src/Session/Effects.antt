-- ===== src/Session/Effects.antt =====
-- session/append.go, session/tree.go: what each operation does to the messages of the branch, and
-- what a failure leaves.
use piglet.Prelude.{
  String, ◌≡◌, refl, ap, ◌∙◌, inl, inr, Option, none, some, List, [], ◌∷◌, ◌++◌, eq_refl,
  Option-cases, lookup, insert_fresh,
}
use piglet.Core.Json.{Json}
use piglet.Core.Types.{Message}
use piglet.Session.Types.{
  Entry, Node, Nodes, Session, Env, Err, type_branch_summary, type_label, plain_node,
}
use piglet.Session.Payload.{custom_message_to_core, encode_branch_summary, encode_label}
use piglet.Session.Tree.{add_node, messages}
use piglet.Session.Store.{commit_entry, commit_node}
use piglet.Session.Settle.{
  failed, branch_entry, custom_entry, outcome, settle, stored, committed, custom_node,
  commit_node_lem, append_custom_message_lem, write_branch_entry_lem,
}
use piglet.Session.Append.{
  append, Op, append_op, compact_op, custom_op, custom_message_op, label_op, branch_op, summary_op,
  reset_op, title_op, model_op, run_op, write_branch_entry, set_label, require,
}
use piglet.Session.Invariant.{IsTree, IsValid, IsFresh, run_op-IsValid}
use piglet.Session.Branch.{transcript, messages-transcript}

-- The messages that a client sees after a call whose write succeeds.
abbrev pub after_success : Env → Op → Session → List Message
after_success env (append_op msg) s = transcript s.nodes s.leaf_id ++ msg ∷ []
after_success env (compact_op msgs tokens) s = msgs
after_success env (custom_message_op role content) s =
    transcript s.nodes s.leaf_id ++ custom_message_to_core role content env.now ∷ []
after_success env (branch_op id) s = elim (lookup id s.nodes) [
  | none ↦ transcript s.nodes s.leaf_id
  | some n ↦ transcript s.nodes id
]
after_success env (summary_op id summary) s = elim (lookup id s.nodes) [
  | none ↦ transcript s.nodes s.leaf_id
  | some n ↦ transcript s.nodes id
]
after_success env reset_op s = []
after_success env _ s = transcript s.nodes s.leaf_id

abbrev pub view : Session → List Message
view s = transcript s.nodes s.leaf_id

-- The first list if the write succeeds.
abbrev pub choose : Option Err → List Message → List Message → List Message
choose none new old = new
choose (some err) new old = old

abbrev pub after : Env → Op → Session → List Message
after env op s = choose (outcome env.io s.file) (after_success env op s) (view s)

view-committed :
    (env : Env) (typ : String) (raw : Json) (n : Node) (s : Session)
    → IsFresh env s
    → view (committed env typ raw n s) ≡ add_node (stored env n s) (view s)
unfolding committed stored
view-committed env typ raw n s fresh =
    rw (insert_fresh env.fresh_id (stored env n s) s.nodes fresh.unused) (rw eq_refl refl)

-- No entry is called "".
transcript_root : (m : Nodes) → IsTree m → transcript m "" ≡ []
transcript_root [] t = refl
transcript_root ((id, n) ∷ older) t = rw t.0 (transcript_root older t.3)

view-settle :
    (env : Env) (e : Entry) (o : Option Err) (s t : Session) (msgs : List Message)
    → view t ≡ msgs
    → view (settle o (failed env e s) t).0 ≡ choose o msgs (view s)
view-settle env e none s t msgs h = h
view-settle env e (some err) s t msgs h = refl

choose_same : (o : Option Err) (msgs : List Message) → msgs ≡ choose o msgs msgs
choose_same none msgs = refl
choose_same (some err) msgs = refl

view-commit_node :
    (env : Env) (typ : String) (raw : Json) (n : Node) (s : Session)
    → IsFresh env s
    → view (commit_node env typ raw n s).0
      ≡ choose (outcome env.io s.file) (add_node (stored env n s) (view s)) (view s)
view-commit_node env typ raw n s fresh =
    rw commit_node_lem (
      view-settle env (commit_entry env typ raw n s) _ s _ _ (view-committed env typ raw n s fresh))

view-set_label :
    (target label : String) (r : Session × Option Err)
    → view (set_label target label r).0 ≡ view r.0
unfolding set_label
view-set_label target label (s, none) = refl
view-set_label target label (s, some err) = refl

view-write_branch_entry :
    (env : Env) (parent summary : String) (s : Session)
    → IsFresh env s
    → view (write_branch_entry env parent summary s).0
      ≡ choose (outcome env.io s.file) (transcript s.nodes parent) (view s)
unfolding add_node stored
view-write_branch_entry env parent summary s fresh =
    let moved = record s { leaf_id = parent } in
    rw write_branch_entry_lem (
      view-settle env (branch_entry env parent summary s) (outcome env.io s.file) s
        (committed env type_branch_summary (encode_branch_summary summary s.leaf_id)
          (plain_node type_branch_summary) moved)
        _
        (view-committed env type_branch_summary (encode_branch_summary summary s.leaf_id)
          (plain_node type_branch_summary) moved
          (record { named = fresh.named; unused = fresh.unused })))

require-same :
    (o : Option Err) (id : String) (s : Session) (r : Session × Option Err)
    → view r.0 ≡ choose o (view s) (view s)
    → view (require id s r).0 ≡ choose o (view s) (view s)
require-same o id s r h = elim (Option-cases (lookup id s.nodes)) [
  | inl e ↦ rw (e, require) (choose_same o (view s))
  | inr (n, e) ↦ rw (e, require) h
]

view-require :
    (o : Option Err) (id : String) (s : Session) (r : Session × Option Err)
    → view r.0 ≡ choose o (transcript s.nodes id) (view s)
    → view (require id s r).0
      ≡ choose o
          (elim (lookup id s.nodes) [ none ↦ view s | some n ↦ transcript s.nodes id ])
          (view s)
view-require o id s r h = elim (Option-cases (lookup id s.nodes)) [
  | inl e ↦ rw (e, require) (choose_same o (view s))
  | inr (n, e) ↦ rw (e, require) h
]

view-run_op :
    (env : Env) (op : Op) (s : Session)
    → IsFresh env s
    → IsValid s
    → view (run_op env op s).0 ≡ after env op s
unfolding run_op add_node stored
view-run_op env (append_op msg) s fresh v = view-commit_node env _ _ _ s fresh
view-run_op env (compact_op msgs tokens) s fresh v = view-commit_node env _ _ _ s fresh
view-run_op env (custom_op kind none) s fresh v = choose_same (outcome env.io s.file) (view s)
view-run_op env (custom_op kind (some raw)) s fresh v = view-commit_node env _ _ _ s fresh
view-run_op env (custom_message_op role content) s fresh v = rw append_custom_message_lem (
    view-settle env (custom_entry env role content s) _ s _ _
      (view-committed env _ _ (custom_node env role content) s fresh))
view-run_op env (label_op target label) s fresh v =
    let r = commit_node env type_label (encode_label target label) (plain_node type_label) s in
    require-same (outcome env.io s.file) target s (set_label target label r)
      (view-set_label target label r ∙ view-commit_node env _ _ _ s fresh)
view-run_op env (branch_op id) s fresh v =
    view-require (outcome env.io s.file) id s _ (view-write_branch_entry env id "" s fresh)
view-run_op env (summary_op id summary) s fresh v =
    view-require (outcome env.io s.file) id s _ (view-write_branch_entry env id summary s fresh)
view-run_op env reset_op s fresh v =
    view-write_branch_entry env "" "" s fresh
    ∙ ap (λ t. choose (outcome env.io s.file) t (view s)) (transcript_root s.nodes v.tree)
view-run_op env (title_op title) s fresh v = choose_same (outcome env.io s.file) (view s)
view-run_op env (model_op model) s fresh v = choose_same (outcome env.io s.file) (view s)

-- What `Messages` returns after any call, in terms of what it returned before.
pub messages-run_op :
    (env : Env) (op : Op) (s : Session)
    → IsFresh env s
    → IsValid s
    → messages (run_op env op s).0 ≡ some (after env op s)
messages-run_op env op s fresh v =
    messages-transcript (run_op env op s).0 (run_op-IsValid env op s fresh v)
    ∙ ap some (view-run_op env op s fresh v)

-- The same for one append, in terms of its parts.
pub view-append :
    (env : Env) (msg : Message) (s : Session)
    → IsFresh env s
    → view (append env msg s).0 ≡ choose (outcome env.io s.file) (view s ++ msg ∷ []) (view s)
unfolding append add_node stored
view-append env msg s fresh = view-commit_node env _ _ _ s fresh
