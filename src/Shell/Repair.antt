-- ===== src/Shell/Repair.antt =====
-- shell/repair.go: tool calls without a result get a placeholder.
use piglet.Prelude.{
  ℕ, String, Bool, true, false, ◌||◌, List, [], ◌∷◌, ◌++◌, str_eq, ltb, if◌then◌else◌, length, any,
}
use piglet.Core.Types.{
  Message, user, assistant, tool_result, AssistantContent, tool_call, ToolCall, ContentBlock,
}

-- The first pass: the IDs that have a result.
unfoldable pub result_ids : List Message → List String
result_ids [] = []
result_ids (tool_result r ∷ ms) = r.tool_call_id ∷ result_ids ms
result_ids (_ ∷ ms) = result_ids ms

unfoldable pub has_result : List String → String → Bool
has_result ids id = any (λ x. str_eq x id) ids

abbrev pub interrupted_text : String
interrupted_text =
    "[error:TOOL_INTERRUPTED] tool execution did not complete before session was interrupted; result unavailable"

abbrev pub placeholder : ToolCall → ℕ → Message
placeholder tc now = tool_result (record {
  tool_call_id = tc.id;
  tool_name = tc.name;
  content = ContentBlock.text interrupted_text ∷ [];
  is_error = true;
  timestamp = now;
})

-- The placeholders behind one assistant message.
unfoldable pub missing_results : ℕ → List String → List AssistantContent → List Message
unfolding has_result
missing_results now ids [] = []
missing_results now ids (tool_call tc ∷ cs) =
    let rest = missing_results now ids cs in
    if has_result ids tc.id then rest else placeholder tc now ∷ rest
missing_results now ids (_ ∷ cs) = missing_results now ids cs

abbrev pub behind : ℕ → List String → Message → List Message
behind now ids (assistant m) = missing_results now ids m.content
behind now ids (user m) = []
behind now ids (tool_result r) = []

-- The second pass.
unfoldable pub repair_loop : ℕ → List String → List Message → List Message
unfolding missing_results
repair_loop now ids [] = []
repair_loop now ids (m ∷ ms) = m ∷ (behind now ids m ++ repair_loop now ids ms)

-- Whether a placeholder is made.
unfoldable pub repaired : ℕ → List String → List Message → Bool
unfolding missing_results
repaired now ids [] = false
repaired now ids (m ∷ ms) = ltb 0 (length (behind now ids m)) || repaired now ids ms

-- `repairMessageSequence`
unfoldable pub repair_message_sequence : ℕ → List Message → List Message
unfolding result_ids repair_loop repaired
repair_message_sequence now ms =
    let ids = result_ids ms in if repaired now ids ms then repair_loop now ids ms else ms
