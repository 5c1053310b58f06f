-- ===== src/Session/Payload.antt =====
-- The JSON of an entry's `Data`: session/types.go's struct tags, `messageEntryType` and the switches
-- on the entry type in session/replay.go.
use piglet.Prelude.{
  ℕ, String, Option, none, some, List, [], ◌∷◌, map, str_eq, ◌==◌, if◌then◌else◌, ◌>>=◌,
}
use piglet.Core.Json.{
  Json, Fields, num, str, arr, obj, end, field, get, to_items, as_str, as_num, as_obj,
}
use piglet.Core.Types.{Message, user, assistant, tool_result, zero_usage, AssistantContent}
use piglet.Core.Codec.{omit_empty, encode, decode_user, decode_assistant, decode_tool_result}
use piglet.Session.Types.{Meta, type_user, type_assistant, type_tool_result}

-- `messageEntryType`; the union is sealed, so its default is not reached.
unfoldable pub message_entry_type : Message → String
message_entry_type (user m) = type_user
message_entry_type (assistant m) = type_assistant
message_entry_type (tool_result m) = type_tool_result

-- The three message cases of the switch in `replayEntry` and `replayCompactEntries`.
unfoldable pub decode_message : String → Json → Option Message
decode_message typ raw =
    if str_eq typ type_user
    then (decode_user raw >>= λ m. some (user m))
    else if str_eq typ type_assistant
    then (decode_assistant raw >>= λ m. some (assistant m))
    else if str_eq typ type_tool_result
    then (decode_tool_result raw >>= λ m. some (tool_result m))
    else none

-- `omitzero` on a number.
abbrev omit_zero : String → ℕ → Fields → Fields
omit_zero k n rest = if n == 0 then rest else field k (num n) rest

unfoldable pub encode_meta : Meta → Json
encode_meta m = obj (
    field "id" (str m.id) (
      field "cwd" (str m.cwd) (
        omit_empty "model" m.model (
          field "createdAt" (num m.created_at) (
            omit_empty "title" m.title
              (omit_empty "parentId" m.parent_id (omit_zero "forkPoint" m.fork_point end)))))))

unfoldable pub decode_meta : Json → Option Meta
decode_meta r = do
  fs ← as_obj r
  i ← as_str (get "id" fs)
  c ← as_str (get "cwd" fs)
  m ← as_str (get "model" fs)
  t ← as_num (get "createdAt" fs)
  n ← as_str (get "title" fs)
  p ← as_str (get "parentId" fs)
  k ← as_num (get "forkPoint" fs)
  some (record {
    id = i;
    cwd = c;
    model = m;
    created_at = t;
    title = n;
    parent_id = p;
    fork_point = k;
  })

unfoldable pub encode_branch_summary : String → String → Json
encode_branch_summary summary from =
    obj (field "summary" (str summary) (field "fromId" (str from) end))

unfoldable pub encode_custom_message : String → String → Json
encode_custom_message role content =
    obj (field "role" (str role) (field "content" (str content) end))

unfoldable pub decode_custom_message : Json → Option (String × String)
decode_custom_message r = do
  fs ← as_obj r
  a ← as_str (get "role" fs)
  b ← as_str (get "content" fs)
  some (a, b)

unfoldable pub encode_label : String → String → Json
encode_label target label = obj (field "targetId" (str target) (field "label" (str label) end))

unfoldable pub decode_label : Json → Option (String × String)
decode_label r = do
  fs ← as_obj r
  a ← as_str (get "targetId" fs)
  b ← as_str (get "label" fs)
  some (a, b)

-- `customMessageToCore`: every role but "assistant" is the user's.
unfoldable pub custom_message_to_core : String → String → ℕ → Message
custom_message_to_core role content ts =
    if str_eq role "assistant"
    then assistant (record {
      content = AssistantContent.text content ∷ [];
      model = "";
      provider = "";
      usage = zero_usage;
      stop_reason = "";
      error = "";
      timestamp = 0;
    })
    else user (record { content = content; blocks = []; timestamp = ts })

-- The sub-entries of a compact checkpoint: their type and data, and the zero time.
unfoldable pub encode_sub_entry : Message → Json
unfolding message_entry_type
encode_sub_entry m =
    obj
      (field "type" (str (message_entry_type m)) (field "ts" (num 0) (field "data" (encode m) end)))

unfoldable pub encode_compact : List Message → Json
encode_compact msgs = arr (to_items (map encode_sub_entry msgs))

-- `Unmarshal` into `[]Entry`, as far as the replay reads it: type and raw data of each.
unfoldable pub decode_sub_entry : Json → Option (String × Json)
decode_sub_entry r = do
  fs ← as_obj r
  t ← as_str (get "type" fs)
  i ← as_str (get "id" fs)
  p ← as_str (get "parentId" fs)
  n ← as_num (get "ts" fs)
  k ← as_num (get "tokensBefore" fs)
  some (t, get "data" fs)
