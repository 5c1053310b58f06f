-- ===== src/Core/Codec.antt =====
-- core/types.go: how messages are written as JSON (struct tags) and read back (the `UnmarshalJSON`
-- methods, which find the kind of a content block by probing its keys).
use piglet.Prelude.{
  String, not, ◌||◌, Option, none, some, List, [], ◌∷◌, map, str_eq, if◌then◌else◌, ◌>>=◌,
}
use piglet.Core.Json.{
  Json, Fields, bool, num, str, arr, obj, end, field, get, to_items, as_str, as_bool, as_num,
  as_list, as_obj, as_map, of_map, probe,
}
use piglet.Core.Types.{
  ContentBlock, ToolCall, AssistantContent, tool_call, thinking, Usage, UserMessage,
  AssistantMessage, ToolResultMessage, Message, user, assistant, tool_result, image,
}

-- `omitempty` on a text field.
abbrev pub omit_empty : String → String → Fields → Fields
omit_empty k s rest = if str_eq s "" then rest else field k (str s) rest

unfoldable pub encode_block : ContentBlock → Json
encode_block (ContentBlock.text s) = obj (field "text" (str s) end)
encode_block (image d m) = obj (field "data" (str d) (field "mimeType" (str m) end))

-- `omitempty` on a map, nil or empty.
abbrev omit_no_keys : String → Option Fields → Fields → Fields
omit_no_keys k none rest = rest
omit_no_keys k (some end) rest = rest
omit_no_keys k (some (field n v m)) rest = field k (obj (field n v m)) rest

unfoldable pub encode_tool_call : ToolCall → Json
unfolding of_map
encode_tool_call tc = obj (
    field "id" (str tc.id) (
      field "name" (str tc.name) (
        field "arguments" (of_map tc.arguments)
          (omit_no_keys "providerMeta" tc.provider_meta end))))

unfoldable pub encode_content : AssistantContent → Json
unfolding encode_tool_call
encode_content (AssistantContent.text s) = obj (field "text" (str s) end)
encode_content (thinking s) = obj (field "thinking" (str s) end)
encode_content (tool_call tc) = encode_tool_call tc

unfoldable pub encode_usage : Usage → Json
encode_usage u = obj (
    field "inputTokens" (num u.input_tokens) (
      field "outputTokens" (num u.output_tokens) (
        field "cacheReadTokens" (num u.cache_read_tokens)
          (field "cacheWriteTokens" (num u.cache_write_tokens) (field "cost" (num u.cost) end)))))

abbrev omit_blocks : List ContentBlock → Fields → Fields
omit_blocks [] rest = rest
omit_blocks (b ∷ bs) rest = field "blocks" (arr (to_items (map encode_block (b ∷ bs)))) rest

unfoldable pub encode_user : UserMessage → Json
encode_user m = obj (
    omit_empty "content" m.content (omit_blocks m.blocks (field "timestamp" (num m.timestamp) end)))

unfoldable pub encode_assistant : AssistantMessage → Json
encode_assistant m = obj (
    field "content" (arr (to_items (map encode_content m.content))) (
      field "model" (str m.model) (
        field "provider" (str m.provider) (
          field "usage" (encode_usage m.usage) (
            field "stopReason" (str m.stop_reason)
              (omit_empty "error" m.error (field "timestamp" (num m.timestamp) end)))))))

unfoldable pub encode_tool_result : ToolResultMessage → Json
encode_tool_result m = obj (
    field "toolCallId" (str m.tool_call_id) (
      field "toolName" (str m.tool_name) (
        field "content" (arr (to_items (map encode_block m.content)))
          (field "isError" (bool m.is_error) (field "timestamp" (num m.timestamp) end)))))

-- `json.Marshal` of a message.
unfoldable pub encode : Message → Json
encode (user m) = encode_user m
encode (assistant m) = encode_assistant m
encode (tool_result m) = encode_tool_result m

-- A block read as a struct with the one text field `k`.
unfoldable pub decode_text : String → Json → Option String
decode_text k r = do fs ← as_obj r; as_str (get k fs)

unfoldable pub decode_image : Json → Option ContentBlock
decode_image r = do
  fs ← as_obj r
  d ← as_str (get "data" fs)
  m ← as_str (get "mimeType" fs)
  some (image d m)

-- One round of the loop of `unmarshalContentBlocks`: an image is told by its MIME type.
unfoldable pub decode_block : Json → Option ContentBlock
decode_block r =
    if not (str_eq (probe "mimeType" r) "")
    then decode_image r
    else (decode_text "text" r >>= λ s. some (ContentBlock.text s))

abbrev pub traverse {ℓ} : {A B : Type ℓ} → (A → Option B) → List A → Option (List B)
traverse f [] = some []
traverse f (x ∷ xs) = do y ← f x; ys ← traverse f xs; some (y ∷ ys)

-- `unmarshalContentBlocks`
unfoldable pub decode_blocks : List Json → Option (List ContentBlock)
decode_blocks = traverse decode_block

unfoldable pub decode_tool_call : Json → Option ToolCall
decode_tool_call r = do
  fs ← as_obj r
  i ← as_str (get "id" fs)
  n ← as_str (get "name" fs)
  a ← as_map (get "arguments" fs)
  p ← as_map (get "providerMeta" fs)
  some (record { id = i; name = n; arguments = a; provider_meta = p })

-- One round of the loop of `AssistantMessage.UnmarshalJSON`.
unfoldable pub decode_content : Json → Option AssistantContent
decode_content r =
    if not (str_eq (probe "id" r) "") || not (str_eq (probe "name" r) "")
    then (decode_tool_call r >>= λ tc. some (tool_call tc))
    else if not (str_eq (probe "thinking" r) "")
    then (decode_text "thinking" r >>= λ s. some (thinking s))
    else (decode_text "text" r >>= λ s. some (AssistantContent.text s))

unfoldable pub decode_usage : Json → Option Usage
decode_usage r = do
  fs ← as_obj r
  a ← as_num (get "inputTokens" fs)
  b ← as_num (get "outputTokens" fs)
  c ← as_num (get "cacheReadTokens" fs)
  d ← as_num (get "cacheWriteTokens" fs)
  e ← as_num (get "cost" fs)
  some (record {
    input_tokens = a;
    output_tokens = b;
    cache_read_tokens = c;
    cache_write_tokens = d;
    cost = e;
  })

-- `UserMessage.UnmarshalJSON`
unfoldable pub decode_user : Json → Option UserMessage
decode_user r = do
  fs ← as_obj r
  c ← as_str (get "content" fs)
  t ← as_num (get "timestamp" fs)
  raw ← as_list (get "blocks" fs)
  bs ← decode_blocks raw
  some (record { content = c; blocks = bs; timestamp = t })

-- `AssistantMessage.UnmarshalJSON`
unfoldable pub decode_assistant : Json → Option AssistantMessage
decode_assistant r = do
  fs ← as_obj r
  m ← as_str (get "model" fs)
  p ← as_str (get "provider" fs)
  u ← decode_usage (get "usage" fs)
  sr ← as_str (get "stopReason" fs)
  e ← as_str (get "error" fs)
  t ← as_num (get "timestamp" fs)
  raw ← as_list (get "content" fs)
  cs ← traverse decode_content raw
  some (record {
    content = cs;
    model = m;
    provider = p;
    usage = u;
    stop_reason = sr;
    error = e;
    timestamp = t;
  })

-- `ToolResultMessage.UnmarshalJSON`
unfoldable pub decode_tool_result : Json → Option ToolResultMessage
decode_tool_result r = do
  fs ← as_obj r
  i ← as_str (get "toolCallId" fs)
  n ← as_str (get "toolName" fs)
  e ← as_bool (get "isError" fs)
  t ← as_num (get "timestamp" fs)
  raw ← as_list (get "content" fs)
  bs ← decode_blocks raw
  some (record { tool_call_id = i; tool_name = n; content = bs; is_error = e; timestamp = t })
