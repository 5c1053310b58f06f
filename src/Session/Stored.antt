-- ===== src/Session/Stored.antt =====
-- session/append.go against session/replay.go: replaying the entry that a call writes gives the state
-- that the call leaves.
use piglet.Prelude.{
  String, ◌≡◌, refl, ap, ◌∙◌, false, none, some, List, [], ◌∷◌, map, arith, str_eq, eq_iff, All,
  Assoc,
}
use piglet.Core.Json.{Json, of_items-to_items, get, as_str, as_num, as_obj, as_list}
use piglet.Core.Types.{Message, user, assistant, tool_result}
use piglet.Core.Codec.{encode}
use piglet.Core.RoundTrip.{
  canon, decode_user-encode_user, decode_assistant-encode_assistant,
  decode_tool_result-encode_tool_result, traverse-map,
}
use piglet.Session.Types.{Entry, Meta, Node, Session, Env, type_label, type_meta}
use piglet.Session.Payload.{
  message_entry_type, decode_message, encode_meta, decode_meta, encode_sub_entry, decode_sub_entry,
  encode_compact,
}
use piglet.Session.Store.{commit_entry}
use piglet.Session.Settle.{stored, committed}
use piglet.Session.Replay.{
  replay_compact_entries, nil_slice, replay_compact, replay_node, replay_label, upgrade_legacy,
  replay_tree_entry, replay_entry,
}

-- A message that JSON does not change.
abbrev pub IsCanonical : Message → Type 0
IsCanonical m = canon m ≡ m

-- A written message is read back, up to `canon`, under its own entry type.
pub decode_message-encode :
    (m : Message) → decode_message (message_entry_type m) (encode m) ≡ some (canon m)
unfolding decode_message message_entry_type encode canon
decode_message-encode (user m) = rw (decode_user-encode_user m)
decode_message-encode (assistant m) = rw (decode_assistant-encode_assistant m)
decode_message-encode (tool_result m) = rw (decode_tool_result-encode_tool_result m)

pub decode_meta-encode_meta : (m : Meta) → decode_meta (encode_meta m) ≡ some m
unfolding decode_meta encode_meta get as_str as_num as_obj
decode_meta-encode_meta m =
    ground (arith, eq_iff m.model "", eq_iff m.title "", eq_iff m.parent_id "")

abbrev sub_of : Message → String × Json
sub_of m = (message_entry_type m, encode m)

decode_sub_entry-encode : (m : Message) → decode_sub_entry (encode_sub_entry m) ≡ some (sub_of m)
unfolding decode_sub_entry encode_sub_entry get as_str as_num as_obj
decode_sub_entry-encode m = refl

pub decode_stored :
    (m : Message) → IsCanonical m → decode_message (message_entry_type m) (encode m) ≡ some m
decode_stored m h = decode_message-encode m ∙ ap some h

replay_compact_entries-map :
    (msgs : List Message) → All IsCanonical msgs → replay_compact_entries (map sub_of msgs) ≡ msgs
unfolding replay_compact_entries
replay_compact_entries-map [] h = refl
replay_compact_entries-map (m ∷ msgs) h =
    rw (decode_stored m h.0, replay_compact_entries)
      (ap (λ t. m ∷ t) (replay_compact_entries-map msgs h.1))

-- A checkpoint of at least one message is read back.
pub replay_compact-encode :
    (m : Message) (msgs : List Message)
    → All IsCanonical (m ∷ msgs)
    → replay_compact (encode_compact (m ∷ msgs)) ≡ some (m ∷ msgs)
unfolding replay_compact encode_compact as_list
replay_compact-encode m msgs h = rw (of_items-to_items (map encode_sub_entry (m ∷ msgs))) (
    rw (traverse-map decode_sub_entry encode_sub_entry sub_of decode_sub_entry-encode (m ∷ msgs))
      (ap nil_slice (replay_compact_entries-map (m ∷ msgs) h)))

-- The session as it is while `Open` reads the file.
abbrev pub unopened : Session → Session
unopened s = record s { file = none }

upgrade_modern : (e : Entry) (s : Session) → str_eq e.id "" ≡ false → upgrade_legacy e s ≡ (e, s)
unfolding upgrade_legacy
upgrade_modern e s h = rw h

replay_entry_tree :
    (e : Entry) (s : Session)
    → str_eq e.typ type_meta ≡ false
    → str_eq e.id "" ≡ false
    → replay_entry e s ≡ replay_tree_entry e s
unfolding replay_entry
replay_entry_tree e s t i =
    rw t (ap (λ (p : Entry × Session). replay_tree_entry p.0 p.1) (upgrade_modern e s i))

-- The entry of a commit is replayed to the node that the commit has registered.
pub replay-committed :
    (env : Env) (typ : String) (raw : Json) (n : Node) (s : Session) (labels : Assoc String)
    (leaf : String)
    → str_eq env.fresh_id "" ≡ false
    → str_eq typ type_meta ≡ false
    → replay_node (commit_entry env typ raw n s) ≡ stored env n s
    → replay_label (commit_entry env typ raw n s) (unopened (record s { leaf_id = leaf }))
      ≡ record (unopened s) { labels = labels; leaf_id = leaf }
    → replay_entry (commit_entry env typ raw n s) (unopened (record s { leaf_id = leaf }))
      ≡ record (unopened (committed env typ raw n s)) { labels = labels }
unfolding committed commit_entry replay_tree_entry
replay-committed env typ raw n s labels leaf i t rn rl =
    replay_entry_tree (commit_entry env typ raw n s) (unopened (record s { leaf_id = leaf })) t i
    ∙ rw (rl, rn) refl

pub no_label : (e : Entry) (s : Session) → str_eq e.typ type_label ≡ false → replay_label e s ≡ s
unfolding replay_label
no_label e s h = rw h
