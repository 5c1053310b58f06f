-- ===== src/Session/Hazards.antt =====
-- session/append.go, session/tree.go, session/replay.go: two states in which the guarantees of the other
-- files do not hold.
use piglet.Prelude.{
  ℕ, zero, suc, String, ◌≡◌, refl, sym, ◌∙◌, false, Option, none, some, List, [], ◌∷◌, str_eq,
  eq_refl, lookup, lookup-insert,
}
use piglet.Core.Json.{Json, as_list, of_items, to_items}
use piglet.Session.Types.{Node, Nodes, Session, Env, Err}
use piglet.Session.Payload.{encode_compact}
use piglet.Session.Tree.{branch_loop}
use piglet.Session.Store.{commit_entry, commit_node}
use piglet.Session.Settle.{failed, outcome, settle, stored, committed, commit_node_lem}
use piglet.Session.Replay.{replay_compact, replay_compact_entries, nil_slice}

-- A node that is its own parent is walked for ever.
branch_loop_cycle :
    (fuel : ℕ) (nodes : Nodes) (id : String) (n : Node) (path : List String)
    → str_eq id "" ≡ false
    → lookup id nodes ≡ some n
    → n.parent_id ≡ id
    → branch_loop fuel nodes id path ≡ none
unfolding branch_loop
branch_loop_cycle zero nodes id n path i l p = refl
branch_loop_cycle (suc fuel) nodes id n path i l p =
    rw (i, l, branch_loop) (rw p (branch_loop_cycle fuel nodes id n (id ∷ path) i l p))

settle_collision :
    (env : Env) (typ : String) (raw : Json) (n : Node) (s old : Session) (fuel : ℕ) (o : Option Err)
    → str_eq s.leaf_id "" ≡ false
    → env.fresh_id ≡ s.leaf_id
    → (settle o old (committed env typ raw n s)).1 ≡ none
    → let t = (settle o old (committed env typ raw n s)).0 in
      branch_loop fuel t.nodes t.leaf_id [] ≡ none
unfolding committed stored
settle_collision env typ raw n s old fuel (some err) i e h = cc
settle_collision env typ raw n s old fuel none i e h =
    branch_loop_cycle fuel _ env.fresh_id (stored env n s) [] (rw e i)
      (lookup-insert env.fresh_id env.fresh_id (stored env n s) s.nodes ∙ rw eq_refl refl) (sym e)

-- If the random ID of a new entry is that of the current leaf, the walk from the leaf never ends.
pub commit_collision :
    (env : Env) (typ : String) (raw : Json) (n : Node) (s : Session) (fuel : ℕ)
    → str_eq s.leaf_id "" ≡ false
    → env.fresh_id ≡ s.leaf_id
    → (commit_node env typ raw n s).1 ≡ none
    → let t = (commit_node env typ raw n s).0 in branch_loop fuel t.nodes t.leaf_id [] ≡ none
commit_collision env typ raw n s fuel i e h = collision h
  where
    collision :
        (commit_node env typ raw n s).1 ≡ none
        → branch_loop fuel
            (commit_node env typ raw n s).0.nodes
            (commit_node env typ raw n s).0.leaf_id
            []
          ≡ none
    collision = rw commit_node_lem (
        settle_collision env typ raw n s (failed env (commit_entry env typ raw n s) s) fuel
          (outcome env.io s.file) i e)

-- A checkpoint of no message is read back as no checkpoint at all.
pub replay_compact_empty : replay_compact (encode_compact []) ≡ none
unfolding replay_compact encode_compact as_list to_items of_items replay_compact_entries nil_slice
replay_compact_empty = refl
