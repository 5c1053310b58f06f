-- ===== src/Shell/Completed.antt =====
-- shell/repair.go: which messages the repair adds, and where.
use piglet.Prelude.{
  ℕ, String, ◌≡◌, ◌⊎◌, refl, sym, ◌∙◌, inl, inr, true, List, [], ◌∷◌, ◌++◌, str_eq, str_eq→eq,
  eq_refl, Bool-cases, or_cases,
}
use piglet.Shell.Answered.{or_true}
use mathlib.Core.Bool.{true≢false}
use piglet.Core.Types.{
  Message, user, assistant, tool_result, AssistantContent, tool_call, ToolCall, ContentBlock,
}
use piglet.Shell.Repair.{result_ids, has_result, missing_results, behind, repair_loop}

-- A result with the ID is in the history.
abbrev pub HasResult : String → List Message → Type 0
HasResult id [] = ⊥
HasResult id (user m ∷ ms) = HasResult id ms
HasResult id (assistant m ∷ ms) = HasResult id ms
HasResult id (tool_result r ∷ ms) = (r.tool_call_id ≡ id) ⊎ HasResult id ms

abbrev pub calls_of : List AssistantContent → List ToolCall
calls_of [] = []
calls_of (AssistantContent.text t ∷ cs) = calls_of cs
calls_of (AssistantContent.thinking t ∷ cs) = calls_of cs
calls_of (tool_call tc ∷ cs) = tc ∷ calls_of cs

abbrev pub calls : Message → List ToolCall
calls (user m) = []
calls (assistant m) = calls_of m.content
calls (tool_result r) = []

-- The error that tells the model that a tool has not ended.
abbrev pub interrupted : ToolCall → ℕ → Message
interrupted tc now = tool_result (record {
  tool_call_id = tc.id;
  tool_name = tc.name;
  content =
      ContentBlock.text
        "[error:TOOL_INTERRUPTED] tool execution did not complete before session was interrupted; result unavailable"
      ∷ [];
  is_error = true;
  timestamp = now;
})

-- One error for each call that has no result in the history, in their order.
pub data AreMissing (now : ℕ) (history : List Message) : List ToolCall → List Message → Type 0 where
  none_left : AreMissing now history [] []
  answered :
      {tc : ToolCall} {tcs : List ToolCall} {notes : List Message}
      → HasResult tc.id history
      → AreMissing now history tcs notes
      → AreMissing now history (tc ∷ tcs) notes
  missing :
      {tc : ToolCall} {tcs : List ToolCall} {notes : List Message}
      → ¬ HasResult tc.id history
      → AreMissing now history tcs notes
      → AreMissing now history (tc ∷ tcs) (interrupted tc now ∷ notes)

-- The messages in their order, each with the errors of its calls behind it.
pub data IsCompleted (now : ℕ) (history : List Message) : List Message → List Message → Type 0 where
  done : IsCompleted now history [] []
  followed :
      {m : Message} {notes ms out : List Message}
      → AreMissing now history (calls m) notes
      → IsCompleted now history ms out
      → IsCompleted now history (m ∷ ms) (m ∷ (notes ++ out))

has_result-HasResult :
    (id : String) (ms : List Message) → has_result (result_ids ms) id ≡ true → HasResult id ms
unfolding has_result result_ids
has_result-HasResult id [] h = true≢false (sym h)
has_result-HasResult id (user m ∷ ms) h = has_result-HasResult id ms h
has_result-HasResult id (assistant m ∷ ms) h = has_result-HasResult id ms h
has_result-HasResult id (tool_result r ∷ ms) h =
    elim (or_cases (str_eq r.tool_call_id id) (has_result (result_ids ms) id) h) [
      | inl same ↦ inl (str_eq→eq r.tool_call_id id same)
      | inr later ↦ inr (has_result-HasResult id ms later)
    ]

HasResult-has_result :
    (id : String) (ms : List Message) → HasResult id ms → has_result (result_ids ms) id ≡ true
unfolding has_result result_ids
HasResult-has_result id [] h = elim h [ ]
HasResult-has_result id (user m ∷ ms) h = HasResult-has_result id ms h
HasResult-has_result id (assistant m ∷ ms) h = HasResult-has_result id ms h
HasResult-has_result id (tool_result r ∷ ms) (inl same) = rw (same, eq_refl id) refl
HasResult-has_result id (tool_result r ∷ ms) (inr later) =
    rw (HasResult-has_result id ms later) (or_true (str_eq r.tool_call_id id))

missing_results-AreMissing :
    (now : ℕ) (history : List Message) (cs : List AssistantContent)
    → AreMissing now history (calls_of cs) (missing_results now (result_ids history) cs)
unfolding missing_results
missing_results-AreMissing now history [] = none_left
missing_results-AreMissing now history (AssistantContent.text t ∷ cs) =
    missing_results-AreMissing now history cs
missing_results-AreMissing now history (AssistantContent.thinking t ∷ cs) =
    missing_results-AreMissing now history cs
missing_results-AreMissing now history (tool_call tc ∷ cs) =
    let rest = missing_results-AreMissing now history cs in
    elim (Bool-cases (has_result (result_ids history) tc.id)) [
      | inl has ↦ rw has (answered (has_result-HasResult tc.id history has) rest)
      | inr lacks ↦
          rw lacks
            (missing (λ h. true≢false (sym (HasResult-has_result tc.id history h) ∙ lacks)) rest)
    ]

behind-AreMissing :
    (now : ℕ) (history : List Message) (m : Message)
    → AreMissing now history (calls m) (behind now (result_ids history) m)
behind-AreMissing now history (user m) = none_left
behind-AreMissing now history (assistant m) = missing_results-AreMissing now history m.content
behind-AreMissing now history (tool_result r) = none_left

pub repair_loop-IsCompleted :
    (now : ℕ) (history ms : List Message)
    → IsCompleted now history ms (repair_loop now (result_ids history) ms)
unfolding repair_loop
repair_loop-IsCompleted now history [] = done
repair_loop-IsCompleted now history (m ∷ ms) =
    followed (behind-AreMissing now history m) (repair_loop-IsCompleted now history ms)
