-- ===== src/Session/Failure.antt =====
-- session/append.go, session/tree.go: a call that fails leaves the tree, the labels and the leaf as they were, and of
-- the file at least all whole lines. The title or the model in memory may be ahead of the file.
use mathlib.Core.Option.{none-ne-some}
use piglet.Prelude.{
  List, [], ◌∷◌, ◌++◌, String, ◌≡◌, refl, inl, inr, Option, none, some, Option-cases, lookup,
}
use piglet.Core.Json.{Json}
use piglet.Session.Types.{
  Entry, Line, entry, corrupt, torn, unended, Left, nothing_left, part_left, entry_left, Io,
  written, lock_failed, write_failed, Session, Env, Err, Node, Meta,
}
use piglet.Session.Store.{
  add_line, leave, append_entry, locked_append, commit_entry, commit_node, write_meta, meta_entry,
}
use piglet.Session.Settle.{
  spoiled, failed, custom_entry, branch_entry, outcome, settle, commit_node_lem,
  append_custom_message_lem, write_branch_entry_lem,
}
use piglet.Session.Append.{
  Op, append_op, compact_op, custom_op, custom_message_op, label_op, branch_op, summary_op,
  reset_op, title_op, model_op, run_op, append_custom_message, write_branch_entry, set_label,
  require,
}

-- Bytes that are no whole line.
abbrev pub IsPiece : Line → Type 0
IsPiece (entry e) = ⊥
IsPiece corrupt = ⊥
IsPiece torn = Unit
IsPiece (unended e) = Unit

-- What a failed write may make of the lines of a file: nothing; a piece behind them; or more bytes in the piece at
-- their end.
pub data IsLeft : List Line → List Line → Type 0 where
  untouched : {f : List Line} → IsLeft f f
  new_piece : {f : List Line} (l : Line) → IsPiece l → IsLeft f (f ++ l ∷ [])
  longer_piece :
      (f : List Line) (x l : Line) → IsPiece x → IsPiece l → IsLeft (f ++ x ∷ []) (f ++ l ∷ [])

abbrev pub Leaves : Option (List Line) → Option (List Line) → Type 0
Leaves none none = Unit
Leaves none (some g) = ⊥
Leaves (some f) none = ⊥
Leaves (some f) (some g) = IsLeft f g

pub record IsKept (t s : Session) : Type 0 where
  pub nodes : t.nodes ≡ s.nodes
  pub labels : t.labels ≡ s.labels
  pub leaf_id : t.leaf_id ≡ s.leaf_id
  pub file : Leaves s.file t.file

-- What holds of the result of a call that returned an error.
abbrev pub Fails : Session → Session × Option Err → Type 0
Fails s r = (e : Err) → r.1 ≡ some e → IsKept r.0 s

IsLeft-cons : {x : Line} {f g : List Line} → IsLeft f g → IsLeft (x ∷ f) (x ∷ g)
IsLeft-cons untouched = untouched
IsLeft-cons {x} (new_piece {f} l p) = new_piece {f = x ∷ f} l p
IsLeft-cons {x} (longer_piece f y l q p) = longer_piece (x ∷ f) y l q p

add_line-IsLeft : (f : List Line) (l : Line) → IsPiece l → IsLeft f (add_line f l)
unfolding add_line
add_line-IsLeft [] l p = new_piece {f = []} l p
add_line-IsLeft (entry e ∷ []) l p = new_piece {f = entry e ∷ []} l p
add_line-IsLeft (corrupt ∷ []) l p = new_piece {f = corrupt ∷ []} l p
add_line-IsLeft (torn ∷ []) torn p = longer_piece [] torn torn tt tt
add_line-IsLeft (torn ∷ []) (unended e) p = longer_piece [] torn torn tt tt
add_line-IsLeft (unended x ∷ []) torn p = longer_piece [] (unended x) torn tt tt
add_line-IsLeft (unended x ∷ []) (unended e) p = longer_piece [] (unended x) torn tt tt
add_line-IsLeft (torn ∷ []) (entry e) p = elim p [ ]
add_line-IsLeft (torn ∷ []) corrupt p = elim p [ ]
add_line-IsLeft (unended x ∷ []) (entry e) p = elim p [ ]
add_line-IsLeft (unended x ∷ []) corrupt p = elim p [ ]
add_line-IsLeft (x ∷ y ∷ f) l p = IsLeft-cons (add_line-IsLeft (y ∷ f) l p)

leave-IsLeft : (l : Left) (e : Entry) (f : List Line) → IsLeft f (leave l e f)
unfolding leave
leave-IsLeft nothing_left e f = untouched
leave-IsLeft part_left e f = add_line-IsLeft f torn tt
leave-IsLeft entry_left e f = add_line-IsLeft f (unended e) tt

Leaves-same : (f : Option (List Line)) → Leaves f f
Leaves-same none = tt
Leaves-same (some f) = untouched

spoiled-Leaves : (io : Io) (e : Entry) (f : Option (List Line)) → Leaves f (spoiled io e f)
spoiled-Leaves (write_failed l) e (some f) = leave-IsLeft l e f
spoiled-Leaves (write_failed l) e none = tt
spoiled-Leaves written e f = Leaves-same f
spoiled-Leaves lock_failed e f = Leaves-same f

locked_append-Leaves :
    (io : Io) (e : Entry) (f : Option (List Line)) (err : Err)
    → (locked_append io e f).1 ≡ some err
    → Leaves f (locked_append io e f).0
unfolding locked_append append_entry
locked_append-Leaves lock_failed e f err h = Leaves-same f
locked_append-Leaves (write_failed l) e none err h = tt
locked_append-Leaves (write_failed l) e (some f) err h = leave-IsLeft l e f
locked_append-Leaves written e none err h = tt
locked_append-Leaves written e (some f) err h = absurd (none-ne-some err h)

kept : (s : Session) → IsKept s s
kept s = record { nodes = refl; labels = refl; leaf_id = refl; file = Leaves-same s.file }

failed-IsKept : (env : Env) (e : Entry) (s : Session) → IsKept (failed env e s) s
failed-IsKept env e s = record {
  nodes = refl;
  labels = refl;
  leaf_id = refl;
  file = spoiled-Leaves env.io e s.file;
}

Fails-settle : (o : Option Err) (s old t : Session) → IsKept old s → Fails s (settle o old t)
Fails-settle none s old t k e h = cc
Fails-settle (some err) s old t k e h = k

Fails-commit_node :
    (env : Env) (typ : String) (raw : Json) (n : Node) (s : Session)
    → Fails s (commit_node env typ raw n s)
Fails-commit_node env typ raw n s =
    let e = commit_entry env typ raw n s in
    rw commit_node_lem
      (Fails-settle (outcome env.io s.file) s (failed env e s) _ (failed-IsKept env e s))

Fails-set_label :
    (target label : String) (s : Session) (r : Session × Option Err)
    → Fails s r
    → Fails s (set_label target label r)
unfolding set_label
Fails-set_label target label s (t, none) h e q = cc
Fails-set_label target label s (t, some err) h e q = h e q

Fails-require :
    (id : String) (s : Session) (r : Session × Option Err) → Fails s r → Fails s (require id s r)
Fails-require id s r h = elim (Option-cases (lookup id s.nodes)) [
  | inl e ↦ rw (e, require) (λ x q. kept s)
  | inr (n, e) ↦ rw (e, require) h
]

Fails-write_branch_entry :
    (env : Env) (parent summary : String) (s : Session)
    → Fails s (write_branch_entry env parent summary s)
Fails-write_branch_entry env parent summary s =
    let e = branch_entry env parent summary s in
    rw write_branch_entry_lem
      (Fails-settle (outcome env.io s.file) s (failed env e s) _ (failed-IsKept env e s))

Fails-write_meta : (env : Env) (s : Session) → Fails s (write_meta env s)
unfolding write_meta
Fails-write_meta env s e q = record {
  nodes = refl;
  labels = refl;
  leaf_id = refl;
  file = locked_append-Leaves env.io (meta_entry env s) s.file e q;
}

custom_message-Fails :
    (env : Env) (role content : String) (s : Session)
    → Fails s (append_custom_message env role content s)
custom_message-Fails env role content s =
    let e = custom_entry env role content s in
    rw append_custom_message_lem
      (Fails-settle (outcome env.io s.file) s (failed env e s) _ (failed-IsKept env e s))

-- The metadata do not count.
from_meta : (s t : Session) (m : Meta) → IsKept t (record s { meta = m }) → IsKept t s
from_meta s t m u = record {
  nodes = u.nodes;
  labels = u.labels;
  leaf_id = u.leaf_id;
  file = u.file;
}

-- A call that returns an error has changed neither the tree, the labels nor the leaf, and of the file no whole line:
-- at most there are bytes at its end that are no whole line.
pub run_op_fails :
    (env : Env) (op : Op) (s : Session) (e : Err)
    → (run_op env op s).1 ≡ some e
    → IsKept (run_op env op s).0 s
unfolding run_op
run_op_fails env (append_op msg) s e h = Fails-commit_node env _ _ _ s e h
run_op_fails env (compact_op msgs tokens) s e h = Fails-commit_node env _ _ _ s e h
run_op_fails env (custom_op kind none) s e h = kept s
run_op_fails env (custom_op kind (some raw)) s e h = Fails-commit_node env _ _ _ s e h
run_op_fails env (custom_message_op role content) s e h =
    custom_message-Fails env role content s e h
run_op_fails env (label_op target label) s e h =
    Fails-require target s _ (Fails-set_label target label s _ (Fails-commit_node env _ _ _ s)) e h
run_op_fails env (branch_op id) s e h =
    Fails-require id s _ (Fails-write_branch_entry env id "" s) e h
run_op_fails env (summary_op id summary) s e h =
    Fails-require id s _ (Fails-write_branch_entry env id summary s) e h
run_op_fails env reset_op s e h = Fails-write_branch_entry env "" "" s e h
run_op_fails env (title_op title) s e h =
    from_meta s _ _ (Fails-write_meta env (record s { meta = record s.meta { title = title } }) e h)
run_op_fails env (model_op model) s e h =
    from_meta s _ _ (Fails-write_meta env (record s { meta = record s.meta { model = model } }) e h)
