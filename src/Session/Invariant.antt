-- ===== src/Session/Invariant.antt =====
-- session/append.go, session/tree.go: the shape of the tree, and that the operations keep it.
use piglet.Prelude.{
  String, Option-cases, inl, inr, ◌≡◌, refl, Bool, true, false, ◌||◌, Option, none, some, [], ◌∷◌,
  str_eq, eq_refl, lookup, insert_fresh, arith,
}
use piglet.Core.Json.{Json}
use piglet.Session.Types.{Entry, Err, Node, Nodes, Session, Env}
use piglet.Session.Store.{commit_entry, commit_node}
use piglet.Session.Settle.{
  failed, branch_entry, custom_entry, settle, stored, committed, commit_node_lem,
  append_custom_message_lem, write_branch_entry_lem,
}
use piglet.Core.Types.{Message}
use piglet.Session.Append.{
  append, require, set_label, Op, append_op, compact_op, custom_op, custom_message_op, label_op,
  branch_op, summary_op, reset_op, title_op, model_op, run_op, write_branch_entry, set_label,
}

-- A parent or a leaf: none at all, or an entry of the tree.
abbrev pub is_known : String → Nodes → Bool
is_known p nodes = str_eq p "" || elim (lookup p nodes) [ none ↦ false | some n ↦ true ]

-- Read from the latest entry down: IDs are distinct and not empty, and a parent is older.
abbrev pub IsTree : Nodes → Type 0
IsTree [] = Unit
IsTree ((id, n) ∷ older) =
    (str_eq id "" ≡ false)
    × (lookup id older ≡ none)
    × (is_known n.parent_id older ≡ true)
    × IsTree older

pub record IsValid (s : Session) : Type 0 where
  pub tree : IsTree s.nodes
  pub leaf : is_known s.leaf_id s.nodes ≡ true

-- The random ID of an operation is new.
pub record IsFresh (env : Env) (s : Session) : Type 0 where
  pub named : str_eq env.fresh_id "" ≡ false
  pub unused : lookup env.fresh_id s.nodes ≡ none

committed-IsValid :
    (env : Env) (typ : String) (raw : Json) (n : Node) (s : Session)
    → IsFresh env s
    → IsValid s
    → IsValid (committed env typ raw n s)
unfolding committed lookup
committed-IsValid env typ raw n s fresh v =
    let e = insert_fresh env.fresh_id (stored env n s) s.nodes fresh.unused in
    record {
      tree = rw e (fresh.named, fresh.unused, v.leaf, v.tree);
      leaf = rw e (rw fresh.named (rw eq_refl refl));
    }

settle-IsValid :
    (env : Env) (e : Entry) (o : Option Err) (s t : Session)
    → IsValid s
    → IsValid t
    → IsValid (settle o (failed env e s) t).0
settle-IsValid env e (some err) s t v w = record { tree = v.tree; leaf = v.leaf }
settle-IsValid env e none s t v w = w

commit_node-IsValid :
    (env : Env) (typ : String) (raw : Json) (n : Node) (s : Session)
    → IsFresh env s
    → IsValid s
    → IsValid (commit_node env typ raw n s).0
commit_node-IsValid env typ raw n s fresh v = rw commit_node_lem (
    settle-IsValid env (commit_entry env typ raw n s) _ s _ v
      (committed-IsValid env typ raw n s fresh v))

write_branch_entry-IsValid :
    (env : Env) (parent summary : String) (s : Session)
    → IsFresh env s
    → is_known parent s.nodes ≡ true
    → IsValid s
    → IsValid (write_branch_entry env parent summary s).0
write_branch_entry-IsValid env parent summary s fresh known v =
    let moved : IsValid (record s { leaf_id = parent }) = record { tree = v.tree; leaf = known } in
    let still : IsFresh env (record s { leaf_id = parent }) = record {
      named = fresh.named;
      unused = fresh.unused;
    } in
    rw write_branch_entry_lem (
      settle-IsValid env (branch_entry env parent summary s) _ s _ v
        (committed-IsValid env _ _ _ (record s { leaf_id = parent }) still moved))

set_label-IsValid :
    (target label : String) (r : Session × Option Err)
    → IsValid r.0
    → IsValid (set_label target label r).0
unfolding set_label
set_label-IsValid target label (s, some err) v = v
set_label-IsValid target label (s, none) v = record { tree = v.tree; leaf = v.leaf }

-- To branch from an entry that is not there changes nothing.
require-IsValid :
    (id : String) (s : Session) (r : Session × Option Err)
    → IsValid s
    → (is_known id s.nodes ≡ true → IsValid r.0)
    → IsValid (require id s r).0
require-IsValid id s r v h = elim (Option-cases (lookup id s.nodes)) [
  | inl e ↦ rw (e, require) v
  | inr (n, e) ↦ rw (e, require) (h (ground arith))
]

-- Every call, failing or not, keeps the tree and the leaf in shape, given a new entry ID.
pub run_op-IsValid :
    (env : Env) (op : Op) (s : Session) → IsFresh env s → IsValid s → IsValid (run_op env op s).0
unfolding run_op
run_op-IsValid env (append_op msg) s fresh v = commit_node-IsValid env _ _ _ s fresh v
run_op-IsValid env (compact_op msgs tokens) s fresh v = commit_node-IsValid env _ _ _ s fresh v
run_op-IsValid env (custom_op kind none) s fresh v = v
run_op-IsValid env (custom_op kind (some raw)) s fresh v = commit_node-IsValid env _ _ _ s fresh v
run_op-IsValid env (custom_message_op role content) s fresh v = rw append_custom_message_lem (
    settle-IsValid env (custom_entry env role content s) _ s _ v
      (committed-IsValid env _ _ _ s fresh v))
run_op-IsValid env (label_op target label) s fresh v =
    require-IsValid target s _ v
      λ _. set_label-IsValid target label _ (commit_node-IsValid env _ _ _ s fresh v)
run_op-IsValid env (branch_op id) s fresh v =
    require-IsValid id s _ v λ k. write_branch_entry-IsValid env id "" s fresh k v
run_op-IsValid env (summary_op id summary) s fresh v =
    require-IsValid id s _ v λ k. write_branch_entry-IsValid env id summary s fresh k v
run_op-IsValid env reset_op s fresh v = write_branch_entry-IsValid env "" "" s fresh refl v
run_op-IsValid env (title_op title) s fresh v = record { tree = v.tree; leaf = v.leaf }
run_op-IsValid env (model_op model) s fresh v = record { tree = v.tree; leaf = v.leaf }

pub append-IsValid :
    (env : Env) (msg : Message) (s : Session)
    → IsFresh env s
    → IsValid s
    → IsValid (append env msg s).0
unfolding append
append-IsValid env msg s fresh v = commit_node-IsValid env _ _ _ s fresh v
