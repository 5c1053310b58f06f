-- ===== src/Agent/History.antt =====
-- core/compact.go: the message cap and the background compaction.
use piglet.Prelude.{
  ℕ, ◌+◌, ◌-◌, ◌&&◌, Option, none, some, List, [], ◌∷◌, ◌++◌, ltb, leb, if◌then◌else◌, length, drop,
}
use piglet.Core.Types.{Message, assistant}
use piglet.Agent.State.{Agent, compact, Snapshot, emit}

-- The cap in force: at least 4.
unfoldable pub cap_of : ℕ → ℕ
cap_of max_messages = if ltb max_messages 4 then 4 else max_messages

-- The first message and the last `cap - 1`.
unfoldable pub cap_messages : ℕ → List Message → List Message
cap_messages cap [] = []
cap_messages cap (m ∷ ms) =
    if leb (length (m ∷ ms)) cap then m ∷ ms else m ∷ drop (length (m ∷ ms) + 1 - cap) (m ∷ ms)

-- `enforceMessageCap`
unfoldable pub enforce_message_cap : Agent → Agent
unfolding cap_of cap_messages
enforce_message_cap a = record a {
  messages = cap_messages (cap_of a.config.max_messages) a.messages;
}

-- The input tokens of the latest assistant message, 0 if there is none.
unfoldable pub latest_tokens : List Message → ℕ → ℕ
latest_tokens [] total = total
latest_tokens (assistant m ∷ ms) total = latest_tokens ms m.usage.input_tokens
latest_tokens (_ ∷ ms) total = latest_tokens ms total

-- `maybeCompact`: one compaction at a time, and only from 8 messages on.
unfoldable pub maybe_compact : Agent → Agent
unfolding latest_tokens
maybe_compact a =
    let total = latest_tokens a.messages 0 in
    if leb a.config.compact_at total && leb 8 (length a.messages)
    then elim a.compacting [
      | some s ↦ a
      | none ↦ record a { compacting = some (record { taken = a.messages; tokens = total }) }
    ]
    else a

-- What `runCompaction` puts in the place of the messages that it was given; `none` is an error.
unfoldable pub merge : ℕ → Option (List Message) → List Message → List Message
merge taken none current = current
merge taken (some []) current = current
merge taken (some (c ∷ cs)) current =
    if ltb (length current) taken then current else (c ∷ cs) ++ drop taken current

abbrev pub merged_event : Snapshot → Option (List Message) → Agent → Agent
merged_event s none a = a
merged_event s (some []) a = a
merged_event s (some (c ∷ cs)) a =
    if ltb (length a.messages) (length s.taken)
    then a
    else emit (compact (length s.taken) (length (c ∷ cs)) s.tokens) a

-- The end of `runCompaction`, with what the compactor returned.
unfoldable pub finish_compaction : Option (List Message) → Agent → Agent
unfolding merge emit
finish_compaction result a = elim a.compacting [
  | none ↦ a
  | some s ↦ record (merged_event s result a) {
    messages = merge (length s.taken) result a.messages;
    compacting = none;
  }
]
