-- ===== src/Session/History.antt =====
-- session/session.go, session/append.go, session/replay.go: any run of successful calls on a new session
-- leaves a file that `Open` reads back to the same session.
use piglet.Prelude.{
  ℕ, all, ltb, String, ◌≡◌, refl, sym, ap, ◌∙◌, subst, true, false, Option, none, some, List, [],
  ◌∷◌, ◌++◌, arith, str_eq,
}
use piglet.Core.Types.{Message, user, assistant, tool_result}
use piglet.Session.Types.{
  Entry, Line, entry, Meta, Session, Env, Io, zero_meta, type_label, type_meta,
}
use piglet.Session.Payload.{decode_meta, message_entry_type}
use piglet.Session.Store.{add_line, write_meta, meta_entry, append_entry, locked_append}
use piglet.Session.Settle.{locked_append_lem}
use piglet.Session.Append.{
  Op, append_op, compact_op, custom_op, custom_message_op, label_op, branch_op, summary_op,
  reset_op, title_op, model_op, run_op,
}
use piglet.Session.Replay.{
  max_line, replay_meta, replay_entry, replay_lines, blank, open_session, new_session,
}
use piglet.Session.ReplayNode.{IsStorable, node-append, node-compact, node-custom}
use piglet.Session.Stored.{decode_meta-encode_meta, unopened}
use piglet.Session.Reopen.{
  ends, add_line_ended, ends-snoc, IsStored, Keeps, replay_lines-snoc, commit_node-Keeps,
  write_branch_entry-Keeps, custom_message-Keeps, require-Keeps, label-Keeps,
}
use piglet.Session.Tree.{messages}
use piglet.Session.Branch.{transcript, messages-transcript}
use piglet.Session.Invariant.{IsValid, IsFresh, run_op-IsValid}

replay_meta_lem :
    (e : Entry) (s : Session) (m : Meta)
    → decode_meta e.payload ≡ some m
    → replay_meta e s ≡ record s { id = m.id; meta = m }
unfolding replay_meta
replay_meta_lem e s m h = rw (h, replay_meta) refl

written_file :
    (io : Io) (e : Entry) (f : Option (List Line)) (lines : List Line)
    → f ≡ some lines
    → ends lines ≡ true
    → (locked_append io e f).1 ≡ none
    → (locked_append io e f).0 ≡ some (lines ++ entry e ∷ [])
written_file io e f lines h ended g =
    ground (arith, locked_append_lem io e f, add_line_ended lines (entry e))

replay-meta_entry :
    (env : Env) (s b : Session)
    → replay_entry (meta_entry env s) b ≡ record b { id = s.meta.id; meta = s.meta }
unfolding replay_entry meta_entry
replay-meta_entry env s b =
    replay_meta_lem (meta_entry env s) b s.meta (decode_meta-encode_meta s.meta)

write_meta-Keeps :
    (env : Env) (s : Session) (m : Meta)
    → IsStored s
    → s.id ≡ m.id
    → Keeps (write_meta env (record s { meta = m }))
unfolding write_meta
write_meta-Keeps env s m v e h =
    let s' = record s { meta = m } in
    let x = meta_entry env s' in
    record {
      lines = v.lines ++ entry x ∷ [];
      file = written_file env.io x s.file v.lines v.file v.ended h;
      ended = ends-snoc v.lines x;
      replayed =
          replay_lines-snoc v.lines x (blank s.dir s.path)
          ∙ ap (replay_entry x) v.replayed
          ∙ replay-meta_entry env s' (unopened s)
          ∙ ap (λ i. record (unopened s) { id = i; meta = m }) (sym e);
      named = e;
      identified = v.identified;
    }

meta_typ_of :
    (msg : Message)
    → (str_eq (message_entry_type msg) type_meta ≡ false)
      × (str_eq (message_entry_type msg) type_label ≡ false)
unfolding message_entry_type
meta_typ_of (user m) = (refl, refl)
meta_typ_of (assistant m) = (refl, refl)
meta_typ_of (tool_result m) = (refl, refl)

-- A call that succeeds leaves a file that replays to the state in memory.
pub run_op-IsStored :
    (env : Env) (op : Op) (s : Session)
    → IsStored s
    → str_eq env.fresh_id "" ≡ false
    → IsStorable op
    → (run_op env op s).1 ≡ none
    → IsStored (run_op env op s).0
unfolding run_op
run_op-IsStored env (append_op msg) s v i c h =
    commit_node-Keeps env _ _ _ s v i (meta_typ_of msg).0 (meta_typ_of msg).1
      (node-append env msg s c) h
run_op-IsStored env (compact_op [] tokens) s v i c h = absurd c
run_op-IsStored env (compact_op (m ∷ msgs) tokens) s v i c h =
    commit_node-Keeps env _ _ _ s v i refl refl (node-compact env m msgs tokens s c) h
run_op-IsStored env (custom_op kind none) s v i c h = cc
run_op-IsStored env (custom_op kind (some raw)) s v i c h =
    commit_node-Keeps env _ _ _ s v i (ground arith) (ground arith) (node-custom env kind raw s c) h
run_op-IsStored env (custom_message_op role content) s v i c h =
    custom_message-Keeps env role content s v i h
run_op-IsStored env (label_op target label) s v i c h =
    require-Keeps target s _ (label-Keeps env target label s v i) h
run_op-IsStored env (branch_op id) s v i c h =
    require-Keeps id s _ (write_branch_entry-Keeps env id "" s v i) h
run_op-IsStored env (summary_op id summary) s v i c h =
    require-Keeps id s _ (write_branch_entry-Keeps env id summary s v i) h
run_op-IsStored env reset_op s v i c h = write_branch_entry-Keeps env "" "" s v i h
run_op-IsStored env (title_op title) s v i c h =
    write_meta-Keeps env s (record s.meta { title = title }) v v.named h
run_op-IsStored env (model_op model) s v i c h =
    write_meta-Keeps env s (record s.meta { model = model }) v v.named h

-- A run of calls that succeed, each with a new entry ID and with contents that JSON keeps.
pub data Runs : Session → Session → Type 0 where
  done : {s : Session} → Runs s s
  call :
      {s t : Session} (env : Env) (op : Op)
      → IsFresh env s
      → IsStorable op
      → (run_op env op s).1 ≡ none
      → Runs (run_op env op s).0 t
      → Runs s t

pub Runs-IsStored : {s t : Session} → Runs s t → IsStored s → IsStored t
Runs-IsStored done v = v
Runs-IsStored (call {s} env op f c h r) v = Runs-IsStored r (run_op-IsStored env op s v f.named c h)

pub Runs-IsValid : {s t : Session} → Runs s t → IsValid s → IsValid t
Runs-IsValid done v = v
Runs-IsValid (call {s} env op f c h r) v = Runs-IsValid r (run_op-IsValid env op s f v)

-- The session that `New` makes.
abbrev pub fresh_session : Env → String → String → String → Session
fresh_session env dir path cwd =
    let meta = record zero_meta { id = env.fresh_id; cwd = cwd; created_at = env.now } in
    let s = record (blank dir path) { id = env.fresh_id; file = some []; meta = meta } in
    record s { file = some (entry (meta_entry env s) ∷ []) }

pub fresh-IsStored :
    (env : Env) (dir path cwd : String)
    → str_eq env.fresh_id "" ≡ false
    → IsStored (fresh_session env dir path cwd)
unfolding replay_lines blank ends
fresh-IsStored env dir path cwd i =
    let t = fresh_session env dir path cwd in
    record {
      lines = entry (meta_entry env (record t { file = some [] })) ∷ [];
      file = refl;
      ended = refl;
      replayed = replay-meta_entry env (record t { file = some [] }) (blank dir path);
      named = refl;
      identified = i;
    }

pub fresh-IsValid : (env : Env) (dir path cwd : String) → IsValid (fresh_session env dir path cwd)
unfolding blank
fresh-IsValid env dir path cwd = record { tree = tt; leaf = refl }

new_session_lem :
    (env : Env) (dir path cwd : String) (s : Session)
    → new_session env true dir path cwd ≡ some s
    → s ≡ fresh_session env dir path cwd
unfolding new_session append_entry blank add_line
new_session_lem env dir path cwd s h = ground arith

some_inj : {x y : List Line} → some x ≡ some y → x ≡ y
some_inj h = cc

open-IsStored :
    (size : Line → ℕ) (t : Session) (lines : List Line)
    → IsStored t
    → t.file ≡ some lines
    → all (λ l. ltb (size l) max_line) lines ≡ true
    → open_session size t.dir t.path lines ≡ some t
unfolding open_session
open-IsStored size t lines v f short =
    let e : replay_lines lines (blank t.dir t.path) ≡ unopened t =
      subst (λ l. replay_lines l (blank t.dir t.path) ≡ unopened t) (some_inj (sym v.file ∙ f))
        v.replayed in
    rw (e, short) (rw v.identified (ap (λ x. some (record t { file = x })) (sym f)))

-- A session that `New` makes and any run of successful calls changes, with new entry IDs, messages that JSON keeps,
-- checkpoints of at least one message and kinds that are not reserved, is given back by `Open`, if each
-- line of its file is shorter than what the scanner takes; its messages are the transcript of its leaf.
pub open_after_run :
    (size : Line → ℕ) (env : Env) (dir path cwd : String) (s t : Session) (lines : List Line)
    → str_eq env.fresh_id "" ≡ false
    → new_session env true dir path cwd ≡ some s
    → Runs s t
    → t.file ≡ some lines
    → all (λ l. ltb (size l) max_line) lines ≡ true
    → (open_session size t.dir t.path lines ≡ some t)
      × (messages t ≡ some (transcript t.nodes t.leaf_id))
open_after_run size env dir path cwd s t lines named new r f short =
    let valid = Runs-IsValid r (
      subst IsValid (sym (new_session_lem env dir path cwd s new))
        (fresh-IsValid env dir path cwd)) in
    let kept = Runs-IsStored r (
      subst IsStored (sym (new_session_lem env dir path cwd s new))
        (fresh-IsStored env dir path cwd named)) in
    (open-IsStored size t lines kept f short, messages-transcript t valid)
