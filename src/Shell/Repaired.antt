-- ===== src/Shell/Repaired.antt =====
-- shell/repair.go: what the repair makes of a history.
use piglet.Prelude.{
  ℕ, String, ◌≡◌, refl, sym, ap, ◌∙◌, inl, inr, false, List, [], ◌∷◌, ◌++◌, arith, str_eq, ltb,
  Bool-cases, length, or_cases, ltb_of_lt,
}
use mathlib.Core.Bool.{true≢false}
use piglet.Core.Types.{Message, user, assistant, tool_result}
use piglet.Shell.Repair.{
  result_ids, has_result, missing_results, behind, repair_loop, repaired, repair_message_sequence,
}
use piglet.Shell.Completed.{IsCompleted, repair_loop-IsCompleted}
use piglet.Shell.Answered.{
  Covers, IsAnswered, all-repair_loop, has_result-append, or_left, or_right, or_true,
  repaired-answered, result_ids-append,
}

Covers-append :
    (xs ys : List Message) (small : List String)
    → Covers (result_ids ys) small
    → Covers (result_ids (xs ++ ys)) small
Covers-append xs ys small c id h =
    rw (result_ids-append xs ys)
      (has_result-append (result_ids xs) (result_ids ys) id ∙ (rw (c id h) (or_true _)))

-- The results of a history stay.
Covers-repair_loop :
    (now : ℕ) (ids : List String) (ms : List Message)
    → Covers (result_ids (repair_loop now ids ms)) (result_ids ms)
unfolding repair_loop result_ids has_result
Covers-repair_loop now ids [] id h = h
Covers-repair_loop now ids (user m ∷ ms) id h = Covers-repair_loop now ids ms id h
Covers-repair_loop now ids (assistant m ∷ ms) id h =
    Covers-append (missing_results now ids m.content) (repair_loop now ids ms) (result_ids ms)
      (Covers-repair_loop now ids ms) id h
Covers-repair_loop now ids (tool_result r ∷ ms) id h =
    elim (or_cases (str_eq r.tool_call_id id) (has_result (result_ids ms) id) h) [
      | inl e ↦ rw e refl
      | inr e ↦ rw (Covers-repair_loop now ids ms id e) (or_true (str_eq r.tool_call_id id))
    ]

none_behind : {A : Type 0} → (xs : List A) → ltb 0 (length xs) ≡ false → xs ≡ []
none_behind [] h = refl
none_behind (x ∷ xs) h = absurd (true≢false (sym (ltb_of_lt 0 (length (x ∷ xs)) (omega arith)) ∙ h))

-- Where the flag stays down the copy is the history, so that the flag only saves the copy.
repair_loop_unrepaired :
    (now : ℕ) (ids : List String) (ms : List Message)
    → repaired now ids ms ≡ false
    → repair_loop now ids ms ≡ ms
unfolding repair_loop repaired
repair_loop_unrepaired now ids [] h = refl
repair_loop_unrepaired now ids (m ∷ ms) h =
    rw (none_behind (behind now ids m) (or_left (ltb 0 (length (behind now ids m))) _ h))
      (ap (λ t. m ∷ t) (repair_loop_unrepaired now ids ms (or_right _ (repaired now ids ms) h)))

repair-loop :
    (now : ℕ) (ms : List Message)
    → repair_message_sequence now ms ≡ repair_loop now (result_ids ms) ms
unfolding repair_message_sequence
repair-loop now ms = elim (Bool-cases (repaired now (result_ids ms) ms)) [
  | inl new ↦ rw new refl
  | inr same ↦ rw same (sym (repair_loop_unrepaired now (result_ids ms) ms same))
]

repair_message_sequence-IsAnswered :
    (now : ℕ) (ms : List Message) → IsAnswered (repair_message_sequence now ms)
repair_message_sequence-IsAnswered now ms = rw (repair-loop now ms) (
    all-repair_loop now (result_ids ms) _ ms (Covers-repair_loop now (result_ids ms) ms)
      (λ id h. h))

-- The repair changes a history to one that gives each of its tool calls a result: it keeps all messages in their
-- order, and behind each message it puts exactly the error results, one for each of its tool calls that
-- has no result anywhere in the history, in the order of the calls.
pub repair-IsAnswered :
    (now : ℕ) (ms : List Message)
    → IsAnswered (repair_message_sequence now ms)
      × IsCompleted now ms ms (repair_message_sequence now ms)
repair-IsAnswered now ms = (
  repair_message_sequence-IsAnswered now ms,
  rw (repair-loop now ms) (repair_loop-IsCompleted now ms ms),
)

-- A second repair changes nothing, at whatever time.
pub repair_idem :
    (now later : ℕ) (ms : List Message)
    → repair_message_sequence later (repair_message_sequence now ms)
      ≡ repair_message_sequence now ms
unfolding repair_message_sequence
repair_idem now later ms =
    rw
      (repaired-answered later _ (repair_message_sequence now ms)
        (repair_message_sequence-IsAnswered now ms))
      refl
