-- ===== src/Session/Forked.antt =====
-- session/append.go: what a fork holds.
use piglet.Prelude.{
  ℕ, ◌+◌, ◌<◌, String, ◌≡◌, refl, sym, ap, ◌∙◌, true, false, Option, none, some, List, [], ◌∷◌,
  ◌++◌, append-nil, append_assoc, arith, str_eq, take, All, lookup, insert_fresh,
}
use piglet.Core.Types.{Message}
use piglet.Session.Types.{
  Entry, Line, Session, Env, Err, Io, written, Meta, Nodes, Node, plain_node, entry,
}
use piglet.Session.Tree.{messages}
use piglet.Session.Store.{add_line, append_entry, meta_entry, commit_entry}
use piglet.Core.Codec.{encode}
use piglet.Session.Payload.{message_entry_type}
use piglet.Session.Append.{append}
use piglet.Session.Replay.{new_session, blank}
use piglet.Session.Settle.{failed, outcome, settle, extend, stored, committed, commit_node_lem}
use piglet.Session.Branch.{transcript, messages-transcript}
use piglet.Session.Effects.{view, view-append}
use piglet.Session.Invariant.{IsValid, IsFresh, append-IsValid}
use piglet.Session.History.{fresh_session}
use piglet.Session.Fork.{fork_limit, fork_loop, fork_meta, fork}

-- The environments of a fork: every write succeeds, and the IDs are distinct and not empty.
pub record IsGood (envs : ℕ → Env) : Type 0 where
  pub writes : (i : ℕ) → (envs i).io ≡ written
  pub named : (i : ℕ) → str_eq (envs i).fresh_id "" ≡ false
  pub distinct : (i j : ℕ) → i < j → str_eq (envs i).fresh_id (envs j).fresh_id ≡ false

-- All entries so far come from the environments before the i-th.
abbrev IsEarlier : (ℕ → Env) → ℕ → Nodes → Type 0
IsEarlier envs i = All (λ (p : String × Node). (j : ℕ) × (j < i) × (p.0 ≡ (envs j).fresh_id))

IsEarlier-fresh :
    (envs : ℕ → Env) (i : ℕ) (nodes : Nodes)
    → IsGood envs
    → IsEarlier envs i nodes
    → lookup (envs i).fresh_id nodes ≡ none
unfolding lookup
IsEarlier-fresh envs i [] g h = refl
IsEarlier-fresh envs i ((id, n) ∷ nodes) g h =
    let (j, lt, e) = h.0 in rw e (rw (g.distinct j i lt) (IsEarlier-fresh envs i nodes g h.1))

IsEarlier-suc :
    (envs : ℕ → Env) (i : ℕ) (nodes : Nodes) → IsEarlier envs i nodes → IsEarlier envs (i + 1) nodes
IsEarlier-suc envs i [] h = tt
IsEarlier-suc envs i ((id, n) ∷ nodes) h =
    let (j, lt, e) = h.0 in ((j, omega arith, e), IsEarlier-suc envs i nodes h.1)

outcome_written :
    (io : Io) (f : Option (List Line)) (lines : List Line)
    → io ≡ written
    → f ≡ some lines
    → outcome io f ≡ none
outcome_written io f lines w e = ground arith

-- What is left of a call that ended without an error, for any property of its result.
settled :
    (P : Session × Option Err → Type 0) (o : Option Err) (s t : Session)
    → o ≡ none
    → P (t, none)
    → P (settle o s t)
settled P none s t e h = h
settled P (some err) s t e h = cc

module _ (env : Env) (m : Message) (s : Session) (lines : List Line) (w : env.io ≡ written)
    (f : s.file ≡ some lines) where
  appended_node : Node
  appended_node = stored env (record (plain_node (message_entry_type m)) { message = some m }) s

  appended_entry : Entry
  appended_entry =
      commit_entry env (message_entry_type m) (encode m)
        (record (plain_node (message_entry_type m)) { message = some m }) s

  -- An append whose write succeeds: no error, one more node and one more line, the same metadata.
  append_written :
      lookup env.fresh_id s.nodes ≡ none
      → ((append env m s).1 ≡ none)
        × ((append env m s).0.nodes ≡ (env.fresh_id, appended_node) ∷ s.nodes)
        × ((append env m s).0.file ≡ some (add_line lines (entry appended_entry)))
        × ((append env m s).0.meta ≡ s.meta)
  unfolding append committed appended_node appended_entry
  append_written fresh = rw commit_node_lem (
      settled
        (λ r.
          (r.1 ≡ none)
          × (r.0.nodes ≡ (env.fresh_id, appended_node) ∷ s.nodes)
          × (r.0.file ≡ some (add_line lines (entry appended_entry)))
          × (r.0.meta ≡ s.meta))
        (outcome env.io s.file) (failed env appended_entry s) _
        (outcome_written env.io s.file lines w f)
        (
          refl,
          insert_fresh env.fresh_id appended_node s.nodes fresh,
          ap (extend appended_entry) f,
          refl,
        ))

  view_written : IsFresh env s → view (append env m s).0 ≡ view s ++ m ∷ []
  view_written fresh = view-append env m s fresh ∙ rw (outcome_written env.io s.file lines w f)

-- The loop copies the messages in order.
fork_loop_total :
    (envs : ℕ → Env) (i : ℕ) (msgs : List Message) (s : Session) (lines : List Line)
    → IsGood envs
    → IsValid s
    → IsEarlier envs i s.nodes
    → s.file ≡ some lines
    → (t : Session) × (fork_loop envs i msgs s ≡ some t)
      × IsValid t
      × (view t ≡ view s ++ msgs)
      × (t.meta ≡ s.meta)
unfolding fork_loop
fork_loop_total envs i [] s lines g v h f = (s, refl, v, sym (append-nil _), refl)
fork_loop_total envs i (m ∷ msgs) s lines g v h f =
    let unused = IsEarlier-fresh envs i s.nodes g h in
    let fresh : IsFresh (envs i) s = record { named = g.named i; unused = unused } in
    let (done, nodes, file, meta) = append_written (envs i) m s lines (g.writes i) f unused in
    let earlier : IsEarlier envs (i + 1) (append (envs i) m s).0.nodes =
      rw nodes ((i, omega arith, refl), IsEarlier-suc envs i s.nodes h) in
    let (t, e, vt, wt, mt) =
      fork_loop_total envs (i + 1) msgs (append (envs i) m s).0 _ g
        (append-IsValid (envs i) m s fresh v) earlier file in
    (
      t,
      rw (done, fork_loop) e,
      vt,
      wt
          ∙ ap (λ x. x ++ msgs) (view_written (envs i) m s lines (g.writes i) f fresh)
          ∙ append_assoc (view s) (m ∷ []) msgs,
      mt ∙ meta,
    )

new_session_written :
    (env : Env) (dir path cwd : String)
    → env.io ≡ written
    → new_session env true dir path cwd ≡ some (fresh_session env dir path cwd)
unfolding new_session append_entry blank add_line
new_session_written env dir path cwd w = ground arith

abbrev forked_meta : Env → ℕ → Session → Session → Session
forked_meta env limit s new = record new {
  meta = record new.meta { model = s.meta.model; parent_id = s.meta.id; fork_point = limit };
}

fork_meta_written :
    (env : Env) (limit : ℕ) (s new : Session) (lines : List Line)
    → env.io ≡ written
    → new.file ≡ some lines
    → fork_meta env limit s new
      ≡ some (record (forked_meta env limit s new) {
        file = some (add_line lines (entry (meta_entry env (forked_meta env limit s new))));
      })
unfolding fork_meta
fork_meta_written env limit s new lines w f = ground arith

-- A fork whose writes succeed holds the first messages of the branch, as many as asked for, and
-- records its origin.
pub fork_total :
    (env env' : Env) (envs : ℕ → Env) (path : String) (keep : ℕ) (s : Session)
    → IsValid s
    → IsGood envs
    → env.io ≡ written
    → env'.io ≡ written
    → let msgs = transcript s.nodes s.leaf_id in
      (t : Session) × (fork env env' envs true path keep s ≡ some t)
      × (messages t ≡ some (take (fork_limit keep msgs) msgs))
      × (t.meta.parent_id ≡ s.meta.id)
      × (t.meta.model ≡ s.meta.model)
      × (t.meta.fork_point ≡ fork_limit keep msgs)
unfolding fork blank add_line
fork_total env env' envs path keep s v g w w' =
    let msgs = transcript s.nodes s.leaf_id in
    let limit = fork_limit keep msgs in
    let new = fresh_session env s.dir path s.meta.cwd in
    let new' : Session = record (forked_meta env' limit s new) {
      file = some (
          entry (meta_entry env (record new { file = some [] }))
          ∷ entry (meta_entry env' (forked_meta env' limit s new))
          ∷ []);
    } in
    let valid : IsValid new' = record { tree = tt; leaf = refl } in
    let (t, e, vt, wt, mt) = fork_loop_total envs 0 (take limit msgs) new' _ g valid tt refl in
    (
      t,
      rw (messages-transcript s v) (
          rw (new_session_written env s.dir path s.meta.cwd w)
            (rw (fork_meta_written env' limit s new _ w' refl) e)),
      messages-transcript t vt ∙ ap some wt,
      ap (λ (m : Meta). m.parent_id) mt,
      ap (λ (m : Meta). m.model) mt,
      ap (λ (m : Meta). m.fork_point) mt,
    )
