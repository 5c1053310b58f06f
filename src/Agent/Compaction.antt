-- ===== src/Agent/Compaction.antt =====
-- core/compact.go: what a compaction in the background does to messages that arrive meanwhile.
use piglet.Prelude.{
  ◌≤◌, ◌≡◌, refl, ◌∙◌, false, none, some, List, [], ◌∷◌, ◌++◌, append-nil, arith, ltb, length,
  length-append, drop-append_length, drop_all, ltb_of_le, leb_of_le,
}
use piglet.Core.Types.{Message}
use piglet.Agent.State.{Agent, compact, emit, append_messages}
use piglet.Agent.History.{
  cap_of, enforce_message_cap, latest_tokens, maybe_compact, merge, finish_compaction,
}
use piglet.Agent.Cap.{cap_of-ge, length-cap_messages}

maybe_compact-takes :
    (a : Agent)
    → a.compacting ≡ none
    → a.config.compact_at ≤ latest_tokens a.messages 0
    → 8 ≤ length a.messages
    → maybe_compact a ≡ record a {
      compacting = some (record { taken = a.messages; tokens = latest_tokens a.messages 0 });
    }
unfolding maybe_compact
maybe_compact-takes a idle t l = rw (idle, leb_of_le _ _ t, leb_of_le _ _ l) refl

longer : (xs later : List Message) → ltb (length (xs ++ later)) (length xs) ≡ false
longer xs later = ltb_of_le _ _ (omega (arith, length-append xs later))

merge-append :
    (xs later : List Message) (c : Message) (cs : List Message)
    → merge (length xs) (some (c ∷ cs)) (xs ++ later) ≡ (c ∷ cs) ++ later
unfolding merge
merge-append xs later c cs = rw (drop-append_length xs later, longer xs later) refl

merge_full :
    (xs current : List Message) (c : Message) (cs : List Message)
    → length current ≡ length xs
    → merge (length xs) (some (c ∷ cs)) current ≡ c ∷ cs
unfolding merge
merge_full xs current c cs e =
    rw
      (
        e,
        ltb_of_le (length xs) (length xs) (omega arith),
        drop_all (length xs) current (omega arith),
      )
      (append-nil (c ∷ cs))

-- A compaction that starts on an idle agent at or over its threshold, with 8 messages or more, and that
-- returns some messages, puts them in the place of those it was given and keeps every message that was
-- appended meanwhile, in order, and it is idle again.
pub finish_compaction-append :
    (a : Agent) (later : List Message) (c : Message) (cs : List Message)
    → a.compacting ≡ none
    → a.config.compact_at ≤ latest_tokens a.messages 0
    → 8 ≤ length a.messages
    → let b = finish_compaction (some (c ∷ cs)) (append_messages later (maybe_compact a)) in
      (b.messages ≡ (c ∷ cs) ++ later)
      × (b.compacting ≡ none)
      × (b.log
          ≡ a.log
            ++ compact (length a.messages) (length (c ∷ cs)) (latest_tokens a.messages 0) ∷ [])
unfolding finish_compaction append_messages emit
finish_compaction-append a later c cs idle t l =
    rw (maybe_compact-takes a idle t l)
      (merge-append a.messages later c cs, refl, rw (longer a.messages later) refl)

-- With a compaction under way that was given a history as long as the cap, messages that arrive and
-- push the history over the cap are all gone when it ends: the history is the compacted one alone.
pub finish_compaction-loses :
    (a : Agent) (m : Message) (later : List Message) (c : Message) (cs : List Message)
    → a.compacting ≡ none
    → a.config.compact_at ≤ latest_tokens a.messages 0
    → 8 ≤ length a.messages
    → length a.messages ≡ cap_of a.config.max_messages
    → let b = enforce_message_cap (append_messages (m ∷ later) (maybe_compact a)) in
      (finish_compaction (some (c ∷ cs)) b).messages ≡ c ∷ cs
unfolding finish_compaction append_messages enforce_message_cap
finish_compaction-loses a m later c cs idle t l full = rw (maybe_compact-takes a idle t l) (
    merge_full a.messages _ c cs (
      length-cap_messages (cap_of a.config.max_messages) (cap_of-ge a.config.max_messages)
        (a.messages ++ m ∷ later)
      ∙ omega (arith, length-append a.messages (m ∷ later))))
