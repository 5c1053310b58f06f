-- ===== src/Session/Replay.antt =====
-- session/replay.go, and `New` and `Open` of session/session.go.
use Prim.Native.String.{◌++◌ as concat}
use piglet.Prelude.{
  all, ℕ, zero, suc, ◌+◌, ◌/◌, ◌%◌, String, Bool, true, false, Option, none, some, List, [], ◌∷◌,
  str_eq, insert, erase, ◌==◌, ltb, if◌then◌else◌, ◌>>=◌,
}
use piglet.Core.Json.{Json, as_list}
use piglet.Core.Types.{Message}
use piglet.Core.Codec.{traverse}
use piglet.Session.Types.{
  Entry, Line, entry, corrupt, torn, unended, Node, Session, Env, zero_meta, type_meta,
  type_compact, type_custom_message, type_label,
}
use piglet.Session.Payload.{
  decode_message, decode_meta, decode_custom_message, decode_label, decode_sub_entry,
  custom_message_to_core,
}
use piglet.Session.Store.{append_entry, meta_entry}

unfoldable pub digit : ℕ → String
digit d =
    if d == 0
    then "0"
    else if d == 1
    then "1"
    else if d == 2
    then "2"
    else if d == 3
    then "3"
    else if d == 4
    then "4"
    else if d == 5
    then "5"
    else if d == 6
    then "6"
    else if d == 7
    then "7"
    else if d == 8
    then "8"
    else "9"

-- `fmt.Sprintf("%d", n)`; the fuel is the number itself, which has no more digits than that.
unfoldable pub decimal : ℕ → ℕ → String
unfolding digit
decimal zero n = digit (n % 10)
decimal (suc fuel) n =
    let rest = decimal fuel (n / 10) in if ltb n 10 then digit n else concat rest (digit (n % 10))

-- The ID of the n-th entry that has none.
unfoldable pub legacy_id : ℕ → String
unfolding decimal
legacy_id n = concat "L" (decimal n n)

-- `replayCompactEntries`: what is no message, or does not decode, is left out.
unfoldable pub replay_compact_entries : List (String × Json) → List Message
replay_compact_entries [] = []
replay_compact_entries ((typ, raw) ∷ subs) =
    let rest = replay_compact_entries subs in
    elim (decode_message typ raw) [ none ↦ rest | some m ↦ m ∷ rest ]

-- Go's nil slice: no message at all is no checkpoint.
unfoldable pub nil_slice : List Message → Option (List Message)
nil_slice [] = none
nil_slice (m ∷ ms) = some (m ∷ ms)

unfoldable pub replay_compact : Json → Option (List Message)
unfolding replay_compact_entries nil_slice
replay_compact raw = do
  items ← as_list raw
  subs ← traverse decode_sub_entry items
  nil_slice (replay_compact_entries subs)

-- What the switch of `replayEntry` puts into `n.message`.
unfoldable pub replay_message : Entry → Option Message
replay_message e =
    if str_eq e.typ type_custom_message
    then (decode_custom_message e.payload >>= λ cm. some (custom_message_to_core cm.0 cm.1 e.ts))
    else decode_message e.typ e.payload

unfoldable pub replay_node : Entry → Node
unfolding replay_message
replay_node e = record {
  parent_id = e.parent_id;
  typ = e.typ;
  ts = e.ts;
  message = replay_message e;
  compact = if str_eq e.typ type_compact then replay_compact e.payload else none;
  tokens_before = if str_eq e.typ type_compact then e.tokens_before else 0;
}

abbrev pub put_label : String × String → Session → Session
put_label (target, label) s = record s {
  labels = if str_eq label "" then erase target s.labels else insert target label s.labels;
}

-- The label case of the switch.
unfoldable pub replay_label : Entry → Session → Session
replay_label e s =
    if str_eq e.typ type_label
    then elim (decode_label e.payload) [ none ↦ s | some ld ↦ put_label ld s ]
    else s

unfoldable pub replay_meta : Entry → Session → Session
replay_meta e s = elim (decode_meta e.payload) [
  | none ↦ s
  | some m ↦ record s { id = m.id; meta = m }
]

-- Entries from before the tree format get the next number, and the leaf as their parent.
unfoldable pub upgrade_legacy : Entry → Session → Entry × Session
unfolding legacy_id
upgrade_legacy e s =
    if str_eq e.id ""
    then (
      record e {
        id = legacy_id s.legacy_seq;
        parent_id = if str_eq s.leaf_id "" then e.parent_id else s.leaf_id;
      },
      record s { legacy_seq = s.legacy_seq + 1 },
    )
    else (e, s)

unfoldable pub replay_tree_entry : Entry → Session → Session
replay_tree_entry e s =
    let t = replay_label e s in
    record t { nodes = insert e.id (replay_node e) t.nodes; leaf_id = e.id }

-- `replayEntry`
unfoldable pub replay_entry : Entry → Session → Session
replay_entry e s =
    if str_eq e.typ type_meta
    then replay_meta e s
    else let (e', s') = upgrade_legacy e s in replay_tree_entry e' s'

-- The scanner's loop of `Open`: a line that does not parse is skipped, and the last one
-- needs no end.
unfoldable pub replay_lines : List Line → Session → Session
unfolding replay_entry
replay_lines [] s = s
replay_lines (corrupt ∷ lines) s = replay_lines lines s
replay_lines (torn ∷ lines) s = replay_lines lines s
replay_lines (unended e ∷ lines) s = replay_lines lines (replay_entry e s)
replay_lines (entry e ∷ lines) s = replay_lines lines (replay_entry e s)

unfoldable pub blank : String → String → Session
blank dir path = record {
  dir = dir;
  id = "";
  path = path;
  file = none;
  meta = zero_meta;
  nodes = [];
  labels = [];
  leaf_id = "";
  legacy_seq = 0;
}

-- The size of the buffer of the scanner: a line, its end not counted, has to be shorter.
abbrev pub max_line : ℕ
max_line = 10485760

-- `Open` on a file that can be read and opened for append; `size` is the length of a line without its end.
unfoldable pub open_session : (Line → ℕ) → String → String → List Line → Option Session
open_session size dir path lines =
    let s = replay_lines lines (blank dir path) in
    if all (λ l. ltb (size l) max_line) lines
    then (if str_eq s.id "" then none else some (record s { file = some lines }))
    else none

-- `New`: `env.fresh_id` is the UUID, `created` tells whether the directory and the file were made.
unfoldable pub new_session : Env → Bool → String → String → String → Option Session
unfolding append_entry
new_session env false dir path cwd = none
new_session env true dir path cwd =
    let meta = record zero_meta { id = env.fresh_id; cwd = cwd; created_at = env.now } in
    let s = record (blank dir path) { id = env.fresh_id; file = some []; meta = meta } in
    let (f, err) = append_entry env.io (meta_entry env s) s.file in
    elim err [ none ↦ some (record s { file = f }) | some e ↦ none ]
