-- ===== src/Session/Reopen.antt =====
-- session/session.go, session/replay.go: `Open` on the file of a session gives the session back.
use mathlib.Core.Bool.{true≢false}
use piglet.Prelude.{
  Bool, true, sym, String, ◌≡◌, refl, ap, ◌∙◌, inl, inr, false, Option, none, some, List, [], ◌∷◌,
  ◌++◌, str_eq, if◌then◌else◌, Option-cases, Assoc, lookup, erase, insert,
}
use piglet.Core.Json.{Json, get, as_str, as_obj}
use piglet.Session.Types.{
  Entry, Line, entry, corrupt, torn, unended, Node, Session, Env, Err, plain_node, type_label,
  type_meta, type_custom_message, type_branch_summary,
}
use piglet.Session.Payload.{
  encode_label, decode_label, encode_custom_message, encode_branch_summary,
}
use piglet.Session.Store.{add_line, commit_entry, commit_node}
use piglet.Session.Settle.{
  failed, custom_entry, branch_entry, outcome, settle, extend, stored, committed, custom_node,
  commit_node_lem, append_custom_message_lem, write_branch_entry_lem,
}
use piglet.Session.Append.{append_custom_message, write_branch_entry, set_label, require}
use piglet.Session.Replay.{replay_node, replay_label, replay_entry, replay_lines, blank}
use piglet.Session.ReplayNode.{node-custom_message, node-label, node-branch}
use piglet.Core.Json.{get, as_str, as_obj}
use piglet.Session.Stored.{unopened, replay-committed, no_label}

-- The last line has its end.
abbrev is_ended : Line → Bool
is_ended (entry e) = true
is_ended corrupt = true
is_ended torn = false
is_ended (unended e) = false

unfoldable pub ends : List Line → Bool
ends [] = true
ends (x ∷ []) = is_ended x
ends (x ∷ y ∷ ls) = ends (y ∷ ls)

pub add_line_ended : (f : List Line) (l : Line) → ends f ≡ true → add_line f l ≡ f ++ l ∷ []
unfolding add_line ends
add_line_ended [] l h = refl
add_line_ended (entry e ∷ []) l h = refl
add_line_ended (corrupt ∷ []) l h = refl
add_line_ended (torn ∷ []) l h = absurd (true≢false (sym h))
add_line_ended (unended e ∷ []) l h = absurd (true≢false (sym h))
add_line_ended (x ∷ y ∷ f) l h = ap (λ t. x ∷ t) (add_line_ended (y ∷ f) l h)

pub ends-snoc : (f : List Line) (e : Entry) → ends (f ++ entry e ∷ []) ≡ true
unfolding ends
ends-snoc [] e = refl
ends-snoc (x ∷ []) e = refl
ends-snoc (x ∷ y ∷ f) e = ends-snoc (y ∷ f) e

-- The file replays to what is in memory.
pub record IsStored (s : Session) : Type 0 where
  pub lines : List Line
  pub file : s.file ≡ some lines
  pub ended : ends lines ≡ true
  pub replayed : replay_lines lines (blank s.dir s.path) ≡ unopened s
  pub named : s.id ≡ s.meta.id
  pub identified : str_eq s.id "" ≡ false

pub replay_lines-snoc :
    (lines : List Line) (e : Entry) (s : Session)
    → replay_lines (lines ++ entry e ∷ []) s ≡ replay_entry e (replay_lines lines s)
unfolding replay_lines
replay_lines-snoc [] e s = refl
replay_lines-snoc (corrupt ∷ lines) e s = replay_lines-snoc lines e s
replay_lines-snoc (torn ∷ lines) e s = replay_lines-snoc lines e s
replay_lines-snoc (unended x ∷ lines) e s = replay_lines-snoc lines e (replay_entry x s)
replay_lines-snoc (entry x ∷ lines) e s = replay_lines-snoc lines e (replay_entry x s)

committed-IsStored :
    (env : Env) (typ : String) (raw : Json) (n : Node) (s : Session) (labels : Assoc String)
    (leaf : String)
    → IsStored (record s { leaf_id = leaf })
    → str_eq env.fresh_id "" ≡ false
    → str_eq typ type_meta ≡ false
    → replay_node (commit_entry env typ raw n s) ≡ stored env n s
    → replay_label (commit_entry env typ raw n s) (unopened (record s { leaf_id = leaf }))
      ≡ record (unopened s) { labels = labels; leaf_id = leaf }
    → IsStored (record (committed env typ raw n s) { labels = labels })
unfolding committed
committed-IsStored env typ raw n s labels leaf v i t rn rl =
    let e = commit_entry env typ raw n s in
    record {
      lines = v.lines ++ entry e ∷ [];
      file = ap (extend e) v.file ∙ ap some (add_line_ended v.lines (entry e) v.ended);
      ended = ends-snoc v.lines e;
      replayed =
          replay_lines-snoc v.lines e (blank s.dir s.path)
          ∙ ap (replay_entry e) v.replayed
          ∙ replay-committed env typ raw n s labels leaf i t rn rl;
      named = v.named;
      identified = v.identified;
    }

pub settle-IsStored :
    (o : Option Err) (s t : Session)
    → (settle o s t).1 ≡ none
    → IsStored t
    → IsStored (settle o s t).0
settle-IsStored none s t h v = v
settle-IsStored (some err) s t h v = cc

-- What a call returns is stored, unless it returned an error.
abbrev pub Keeps : Session × Option Err → Type 0
Keeps r = r.1 ≡ none → IsStored r.0

pub commit_node-Keeps :
    (env : Env) (typ : String) (raw : Json) (n : Node) (s : Session)
    → IsStored s
    → str_eq env.fresh_id "" ≡ false
    → str_eq typ type_meta ≡ false
    → str_eq typ type_label ≡ false
    → replay_node (commit_entry env typ raw n s) ≡ stored env n s
    → Keeps (commit_node env typ raw n s)
unfolding committed commit_entry
commit_node-Keeps env typ raw n s v i t l rn = rw commit_node_lem (λ h.
    settle-IsStored (outcome env.io s.file) (failed env (commit_entry env typ raw n s) s)
      (committed env typ raw n s) h
      (committed-IsStored env typ raw n s s.labels s.leaf_id v i t rn
        (no_label (commit_entry env typ raw n s) (unopened s) l)))

pub write_branch_entry-Keeps :
    (env : Env) (parent summary : String) (s : Session)
    → IsStored s
    → str_eq env.fresh_id "" ≡ false
    → Keeps (write_branch_entry env parent summary s)
unfolding committed commit_entry
write_branch_entry-Keeps env parent summary s v i =
    let moved = record s { leaf_id = parent } in
    let raw = encode_branch_summary summary s.leaf_id in
    let n = plain_node type_branch_summary in
    rw write_branch_entry_lem (λ h.
      settle-IsStored (outcome env.io s.file) (failed env (branch_entry env parent summary s) s)
        (committed env type_branch_summary raw n moved) h
        (committed-IsStored env type_branch_summary raw n moved s.labels s.leaf_id v i refl
          (node-branch env raw moved)
          (no_label (commit_entry env type_branch_summary raw n moved) (unopened s) refl)))

pub custom_message-Keeps :
    (env : Env) (role content : String) (s : Session)
    → IsStored s
    → str_eq env.fresh_id "" ≡ false
    → Keeps (append_custom_message env role content s)
unfolding committed commit_entry
custom_message-Keeps env role content s v i =
    let raw = encode_custom_message role content in
    let n = custom_node env role content in
    rw append_custom_message_lem (λ h.
      settle-IsStored (outcome env.io s.file) (failed env (custom_entry env role content s) s)
        (committed env type_custom_message raw n s) h
        (committed-IsStored env type_custom_message raw n s s.labels s.leaf_id v i refl
          (node-custom_message env role content s)
          (no_label (commit_entry env type_custom_message raw n s) (unopened s) refl)))

pub require-Keeps :
    (id : String) (s : Session) (r : Session × Option Err) → Keeps r → Keeps (require id s r)
require-Keeps id s r k = elim (Option-cases (lookup id s.nodes)) [
  | inl e ↦ rw (e, require) (λ h. cc)
  | inr (n, e) ↦ rw (e, require) k
]

-- The labels in memory after a label entry.
relabel : String → String → Session → Assoc String
relabel target label s =
    if str_eq label "" then erase target s.labels else insert target label s.labels

replay_label-label :
    (env : Env) (target label : String) (s : Session)
    → replay_label
        (commit_entry env type_label (encode_label target label) (plain_node type_label) s)
        (unopened s)
      ≡ record (unopened s) { labels = relabel target label s }
unfolding replay_label commit_entry decode_label encode_label get as_str as_obj relabel
replay_label-label env target label s = refl

set_label-settle :
    (target label : String) (o : Option Err) (s old t : Session)
    → t.labels ≡ s.labels
    → IsStored (record t { labels = relabel target label s })
    → Keeps (set_label target label (settle o old t))
unfolding set_label relabel
set_label-settle target label none s old t e v h = rw e v
set_label-settle target label (some err) s old t e v h = cc

pub label-Keeps :
    (env : Env) (target label : String) (s : Session)
    → IsStored s
    → str_eq env.fresh_id "" ≡ false
    → Keeps (
        set_label target label
          (commit_node env type_label (encode_label target label) (plain_node type_label) s))
unfolding committed
label-Keeps env target label s v i =
    let raw = encode_label target label in
    let n = plain_node type_label in
    rw commit_node_lem (
      set_label-settle target label (outcome env.io s.file) s
        (failed env (commit_entry env type_label raw n s) s) (committed env type_label raw n s) refl
        (committed-IsStored env type_label raw n s (relabel target label s) s.leaf_id v i refl
          (node-label env target label s) (replay_label-label env target label s)))
