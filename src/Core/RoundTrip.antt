-- ===== src/Core/RoundTrip.antt =====
-- core/types.go: what `UnmarshalJSON` makes of the JSON that `json.Marshal` writes.
use piglet.Prelude.{
  ◌≡◌, refl, ◌&&◌, Option, none, some, List, [], ◌∷◌, map, str_eq, eq_iff, if◌then◌else◌, arith,
}
use piglet.Core.Json.{
  Json, Fields, end, field, get, of_items-to_items, as_str, as_bool, as_num, as_list, as_obj,
  as_map, probe,
}
use piglet.Core.Types.{
  ContentBlock, ToolCall, AssistantContent, tool_call, thinking, Usage, UserMessage,
  AssistantMessage, ToolResultMessage, Message, user, assistant, tool_result, image,
}
use piglet.Core.Codec.{
  encode_block, encode_tool_call, encode_content, encode_usage, encode_user, encode_assistant,
  encode_tool_result, traverse, decode_block, decode_blocks, decode_tool_call, decode_content,
  decode_text, decode_image, decode_usage, decode_user, decode_assistant, decode_tool_result,
}

-- What a block is read back as: without a MIME type an image is taken for an empty text.
unfoldable pub canon_block : ContentBlock → ContentBlock
canon_block (ContentBlock.text s) = ContentBlock.text s
canon_block (image d m) = if str_eq m "" then ContentBlock.text "" else image d m

-- A map without keys is not written, and read back as none.
abbrev canon_map : Option Fields → Option Fields
canon_map none = none
canon_map (some end) = none
canon_map (some (field n v m)) = some (field n v m)

abbrev canon_call : ToolCall → ToolCall
canon_call tc = record tc { provider_meta = canon_map tc.provider_meta }

-- A tool call with neither ID nor name, and an empty thinking block, are taken for an empty text.
unfoldable pub canon_content : AssistantContent → AssistantContent
canon_content (AssistantContent.text s) = AssistantContent.text s
canon_content (thinking s) = if str_eq s "" then AssistantContent.text "" else thinking s
canon_content (tool_call tc) =
    if str_eq tc.id "" && str_eq tc.name ""
    then AssistantContent.text ""
    else tool_call (canon_call tc)

unfoldable pub canon : Message → Message
unfolding canon_block canon_content
canon (user m) = user (record m { blocks = map canon_block m.blocks })
canon (assistant m) = assistant (record m { content = map canon_content m.content })
canon (tool_result m) = tool_result (record m { content = map canon_block m.content })

decode_block-encode_block :
    (b : ContentBlock) → decode_block (encode_block b) ≡ some (canon_block b)
unfolding decode_block decode_text decode_image encode_block canon_block get as_str as_obj probe
decode_block-encode_block (ContentBlock.text s) = refl
decode_block-encode_block (image d m) = ground arith

decode_tool_call-encode_tool_call :
    (tc : ToolCall) → decode_tool_call (encode_tool_call tc) ≡ some (canon_call tc)
unfolding decode_tool_call encode_tool_call get as_str as_obj as_map
decode_tool_call-encode_tool_call tc = ground arith

-- The keys by which a block is told apart, in a written tool call.
probe-tool_call :
    (tc : ToolCall)
    → (probe "id" (encode_tool_call tc) ≡ tc.id)
      × (probe "name" (encode_tool_call tc) ≡ tc.name)
      × (probe "thinking" (encode_tool_call tc) ≡ "")
      × (decode_text "text" (encode_tool_call tc) ≡ some "")
unfolding probe encode_tool_call get decode_text as_obj as_str
probe-tool_call tc = ground arith

-- How `decode_content` reads a document that probes like a tool call.
decode_content-call :
    (r : Json) (tc : ToolCall)
    → probe "id" r ≡ tc.id
    → probe "name" r ≡ tc.name
    → probe "thinking" r ≡ ""
    → decode_text "text" r ≡ some ""
    → decode_tool_call r ≡ some (canon_call tc)
    → decode_content r ≡ some (canon_content (tool_call tc))
unfolding decode_content canon_content
decode_content-call r tc i n t x d = ground (arith, eq_iff tc.id "", eq_iff tc.name "")

decode_content-encode_content :
    (c : AssistantContent) → decode_content (encode_content c) ≡ some (canon_content c)
unfolding decode_content decode_text encode_content canon_content get as_str as_obj probe
decode_content-encode_content (AssistantContent.text s) = refl
decode_content-encode_content (thinking s) = ground arith
decode_content-encode_content (tool_call tc) =
    let (i, n, t, x) = probe-tool_call tc in
    decode_content-call (encode_tool_call tc) tc i n t x (decode_tool_call-encode_tool_call tc)

module _ {ℓ} {A B : Type ℓ} (f : A → Option B) where
  pub traverse-map :
      {C : Type ℓ} (g : C → A) (h : C → B)
      → ((c : C) → f (g c) ≡ some (h c))
      → (cs : List C) → traverse f (map g cs) ≡ some (map h cs)
  traverse-map g h e [] = refl
  traverse-map g h e (c ∷ cs) = rw (e c, traverse-map g h e cs)

decode_blocks-encode :
    (bs : List ContentBlock) → decode_blocks (map encode_block bs) ≡ some (map canon_block bs)
unfolding decode_blocks
decode_blocks-encode bs =
    traverse-map decode_block encode_block canon_block decode_block-encode_block bs

decode_usage-encode_usage : (u : Usage) → decode_usage (encode_usage u) ≡ some u
unfolding decode_usage encode_usage get as_num as_obj
decode_usage-encode_usage u = refl

pub decode_user-encode_user :
    (m : UserMessage)
    → decode_user (encode_user m) ≡ some (record m { blocks = map canon_block m.blocks })
unfolding decode_user encode_user get as_num as_obj as_str as_list
decode_user-encode_user m = ground (
  arith,
  of_items-to_items (map encode_block m.blocks),
  decode_blocks-encode m.blocks,
  eq_iff m.content "",
)

pub decode_assistant-encode_assistant :
    (m : AssistantMessage)
    → decode_assistant (encode_assistant m)
      ≡ some (record m { content = map canon_content m.content })
unfolding decode_assistant encode_assistant get as_num as_obj as_str as_list
decode_assistant-encode_assistant m = ground (
  arith,
  of_items-to_items (map encode_content m.content),
  traverse-map decode_content encode_content canon_content decode_content-encode_content m.content,
  decode_usage-encode_usage m.usage,
  eq_iff m.error "",
)

pub decode_tool_result-encode_tool_result :
    (m : ToolResultMessage)
    → decode_tool_result (encode_tool_result m)
      ≡ some (record m { content = map canon_block m.content })
unfolding decode_tool_result encode_tool_result get as_num as_obj as_str as_list as_bool
decode_tool_result-encode_tool_result m = rw (of_items-to_items, decode_blocks-encode m.content)

-- Reading a message back twice changes nothing more.
pub canon_block_idem : (b : ContentBlock) → canon_block (canon_block b) ≡ canon_block b
unfolding canon_block
canon_block_idem (ContentBlock.text s) = refl
canon_block_idem (image d m) = ground arith

pub canon_content_idem : (c : AssistantContent) → canon_content (canon_content c) ≡ canon_content c
unfolding canon_content
canon_content_idem (AssistantContent.text s) = refl
canon_content_idem (thinking s) = ground arith
canon_content_idem (tool_call tc) = ground arith
