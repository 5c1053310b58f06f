-- ===== src/Session/Fork.antt =====
-- session/append.go: `Fork`. Each append of the copy finds its own environment.
use piglet.Prelude.{
  ℕ, ◌+◌, String, Bool, ◌&&◌, Option, none, some, List, [], ◌∷◌, ltb, if◌then◌else◌, ◌>>=◌, length,
  take,
}
use piglet.Core.Types.{Message}
use piglet.Session.Types.{Session, Env}
use piglet.Session.Tree.{messages}
use piglet.Session.Store.{append_entry, meta_entry}
use piglet.Session.Append.{append}
use piglet.Session.Replay.{new_session}

-- The number of messages that are copied: all of them for 0, and never more than there are.
unfoldable pub fork_limit : ℕ → List Message → ℕ
fork_limit keep msgs = if ltb 0 keep && ltb keep (length msgs) then keep else length msgs

-- The loop over the messages; the first error ends it.
unfoldable pub fork_loop : (ℕ → Env) → ℕ → List Message → Session → Option Session
fork_loop envs i [] s = some s
fork_loop envs i (m ∷ msgs) s =
    let (s', err) = append (envs i) m s in
    let rest = fork_loop envs (i + 1) msgs s' in elim err [ none ↦ rest | some e ↦ none ]

-- The metadata of the copy are written once more, without the lock.
unfoldable pub fork_meta : Env → ℕ → Session → Session → Option Session
unfolding append_entry
fork_meta env limit s new =
    let new' = record new {
      meta = record new.meta { model = s.meta.model; parent_id = s.meta.id; fork_point = limit };
    } in
    let (f, err) = append_entry env.io (meta_entry env new') new'.file in
    elim err [ none ↦ some (record new' { file = f }) | some e ↦ none ]

-- `Fork`; `path` is the new file's, `created` tells whether it could be made.
unfoldable pub fork : Env → Env → (ℕ → Env) → Bool → String → ℕ → Session → Option Session
fork env env' envs created path keep s = do
  msgs ← messages s
  new ← new_session env created s.dir path s.meta.cwd
  new' ← fork_meta env' (fork_limit keep msgs) s new
  fork_loop envs 0 (take (fork_limit keep msgs) msgs) new'
