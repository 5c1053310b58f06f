-- ===== src/Agent/Cap.antt =====
-- core/compact.go: `enforceMessageCap`, and the compaction that runs beside it.
use piglet.Prelude.{
  ℕ, suc, ◌+◌, ◌-◌, ◌≤◌, ◌<◌, min, ◌≡◌, refl, sym, inl, inr, List, [], ◌∷◌, ◌++◌, arith, leb,
  leb→le, leb→lt, Bool-cases, length, take, drop, take-append-drop, length-drop, tests,
}
use piglet.Core.Types.{Message}
use piglet.Agent.State.{Agent}
use piglet.Agent.History.{cap_of, cap_messages, enforce_message_cap}

pub cap_of-ge : (n : ℕ) → 4 ≤ cap_of n
unfolding cap_of
cap_of-ge n = grind tests

module _ (cap : ℕ) (h : 4 ≤ cap) where
  over : (n : ℕ) → cap < n → n + 1 - cap ≡ suc (n - cap)
  over n l = omega arith

  cap_messages-fits : (ms : List Message) → length ms ≤ cap → cap_messages cap ms ≡ ms
  unfolding cap_messages
  cap_messages-fits [] l = refl
  cap_messages-fits (m ∷ ms) l = grind tests

  cap_messages-over :
      (m : Message) (ms : List Message)
      → cap < length (m ∷ ms)
      → cap_messages cap (m ∷ ms) ≡ m ∷ drop (length (m ∷ ms) - cap) ms
  unfolding cap_messages
  cap_messages-over m ms l = rw (over (length (m ∷ ms)) l) (grind tests)

  pub length-cap_messages : (ms : List Message) → length (cap_messages cap ms) ≡ min (length ms) cap
  unfolding cap_messages
  length-cap_messages [] = omega arith
  length-cap_messages (m ∷ ms) =
      let n = length (m ∷ ms) in
      elim (Bool-cases (leb n cap)) [
        | inl fits ↦ rw fits (omega (arith, leb→le _ _ fits))
        | inr long ↦ rw long (omega (arith, leb→lt _ _ long, length-drop (n + 1 - cap) (m ∷ ms)))
      ]

-- The cap keeps the first message and the latest ones and drops a run between them: the result is as
-- long as the cap allows, with the messages that were there in their order.
pub enforce_message_cap-keeps :
    (a : Agent) (m : Message) (ms : List Message)
    → a.messages ≡ m ∷ ms
    → (dropped : List Message) × (kept : List Message) × (ms ≡ dropped ++ kept)
      × ((enforce_message_cap a).messages ≡ m ∷ kept)
      × (length (m ∷ kept) ≡ min (length (m ∷ ms)) (cap_of a.config.max_messages))
unfolding enforce_message_cap cap_messages
enforce_message_cap-keeps a m ms e =
    let cap = cap_of a.config.max_messages in
    let big = cap_of-ge a.config.max_messages in
    elim (Bool-cases (leb (length (m ∷ ms)) cap)) [
      | inl fits ↦ (
        [],
        ms,
        refl,
        rw e (cap_messages-fits cap big (m ∷ ms) (leb→le _ _ fits)),
        (omega (arith, leb→le _ _ fits)),
      )
      | inr long ↦
          let k = length (m ∷ ms) - cap in
          (
            take k ms,
            drop k ms,
            sym (take-append-drop k ms),
            rw e (cap_messages-over cap big m ms (leb→lt _ _ long)),
            (omega (arith, leb→lt _ _ long, length-drop k ms)),
          )
    ]
