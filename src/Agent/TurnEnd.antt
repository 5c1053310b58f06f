-- ===== src/Agent/TurnEnd.antt =====
-- core/agent.go: how a turn ends, and that it keeps the configuration.
use piglet.Prelude.{
  ℕ, ◌+◌, ◌≡◌, refl, sym, ap, ◌∙◌, subst, inl, inr, false, ◌&&◌, Option, none, some, List, [], ◌∷◌,
  arith, ltb, leb, Bool-cases, Option-cases, length, bind-some,
}
use mathlib.Core.Option.{some-injective, none-ne-some}
use piglet.Core.Types.{Message, AssistantMessage, assistant, ToolCall, ToolResultMessage}
use piglet.Agent.State.{
  Config, Agent, Snapshot, turn_start, turn_end, emit, steer, append_message, append_messages,
  dequeue_steer,
}
use piglet.Agent.History.{
  enforce_message_cap, maybe_compact, finish_compaction, latest_tokens, merged_event,
}
use piglet.Agent.Stream.{Streamed, message, failure, interrupted, panicked, stream_with_retry}
use piglet.Agent.Tools.{extract_tool_calls, execute_tools}
use piglet.Agent.Retry.{config-stream_with_retry}
use piglet.Agent.Turns.{
  TurnInput, Next, stop, leave, continue, end_compaction, steer_all, work, run_tools, is_final,
  bound_history, turn_limit, next_pending, decide_next, close_turn, act, after_stream, turn,
}

config-steer_all : (ms : List Message) (a : Agent) → (steer_all ms a).config ≡ a.config
unfolding steer_all steer
config-steer_all [] a = refl
config-steer_all (m ∷ ms) a = config-steer_all ms (steer m a)

config-merged_event :
    (s : Snapshot) (r : Option (List Message)) (a : Agent) → (merged_event s r a).config ≡ a.config
unfolding emit
config-merged_event s none a = refl
config-merged_event s (some []) a = refl
config-merged_event s (some (c ∷ cs)) a =
    elim (Bool-cases (ltb (length a.messages) (length s.taken))) [
      | inl e ↦ rw e refl
      | inr e ↦ rw e refl
    ]

config-end_compaction :
    (r : Option (Option (List Message))) (a : Agent) → (end_compaction r a).config ≡ a.config
unfolding finish_compaction
config-end_compaction none a = refl
config-end_compaction (some r) a = elim (Option-cases a.compacting) [
  | inl idle ↦ rw idle refl
  | inr (s, busy) ↦ rw (busy, finish_compaction) (config-merged_event s r a)
]

config-maybe_compact : (a : Agent) → (maybe_compact a).config ≡ a.config
unfolding maybe_compact
config-maybe_compact a =
    elim (Bool-cases
      (leb a.config.compact_at (latest_tokens a.messages 0) && leb 8 (length a.messages))) [
        | inr no_need ↦ rw no_need refl
        | inl need ↦ elim (Option-cases a.compacting) [
          | inl idle ↦ rw (need, idle) refl
          | inr (s, busy) ↦ rw (need, busy) refl
        ]
      ]

config-bound_history : (a : Agent) → (bound_history a).config ≡ a.config
unfolding bound_history enforce_message_cap
config-bound_history a =
    ground (arith, config-maybe_compact a, config-maybe_compact (enforce_message_cap a))

config-run_tools :
    (t : TurnInput) (calls : List ToolCall) (a b : Agent) (rs : List ToolResultMessage)
    (kept : List Message)
    → run_tools t calls a ≡ some (rs, kept, b)
    → b.config ≡ a.config
unfolding run_tools append_messages
config-run_tools t [] a b rs kept e =
    ap (λ (p : List ToolResultMessage × List Message × Agent). p.2.config)
      (sym (some-injective _ _ e))
config-run_tools t (tc ∷ calls) a b rs kept e =
    let (r, found, q) =
      bind-some (execute_tools t.now (tc ∷ calls) (work t.now (tc ∷ calls) t.steps a.steer_q).0) _ _
        e in
    ap (λ (p : List ToolResultMessage × List Message × Agent). p.2.config)
      (sym (some-injective _ _ q))

-- How a turn that goes on, and one that leaves the loop, came to do so.
abbrev Outcome : ℕ → Next → Agent → Type 0
Outcome count stop b = Unit
Outcome count leave b = b.steer_q ≡ []
Outcome count (continue pending) b = turn_limit count b ≡ false

decide_next-Outcome :
    (count : ℕ) (b : Agent) (calls : List ToolCall) (pending : List Message)
    → turn_limit count b ≡ false
    → (pending ≡ [] → b.steer_q ≡ [])
    → Outcome count (decide_next calls pending) b
decide_next-Outcome count b [] [] limit q = q refl
decide_next-Outcome count b [] (m ∷ ms) limit q = limit
decide_next-Outcome count b (tc ∷ calls) pending limit q = limit

next_pending-Empties :
    (kept : List Message) (a : Agent)
    → let (pending, b) = next_pending kept a in
      (pending ≡ [] → b.steer_q ≡ []) × (b.config ≡ a.config)
unfolding next_pending dequeue_steer
next_pending-Empties [] a = (λ e. refl, refl)
next_pending-Empties (m ∷ ms) a = (λ e. absurd (ground (arith, e)), refl)

close_turn-Outcome :
    (count : ℕ) (calls : List ToolCall) (kept : List Message) (a : Agent)
    → let (n, b) = close_turn count calls kept a in Outcome count n b × (b.config ≡ a.config)
unfolding close_turn emit turn_limit
close_turn-Outcome count calls kept a =
    let (q, c) = next_pending-Empties kept a in
    let b = (next_pending kept a).1 in
    elim (Bool-cases (turn_limit count a)) [
      | inl limit ↦ rw limit (tt, refl)
      | inr limit ↦ rw limit (
        decide_next-Outcome count b calls (next_pending kept a).0
            (ap (λ (k : Config). ltb 0 k.max_turns && leb k.max_turns count) c ∙ limit) q,
        c,
      )
    ]

abbrev Follows : ℕ → Agent → Next × Agent → Type 0
Follows count a p = Outcome count p.0 p.1 × (p.1.config ≡ a.config)

act-Outcome :
    (t : TurnInput) (count : ℕ) (m : AssistantMessage) (a b : Agent) (n : Next)
    → act t count m a ≡ some (n, b)
    → Outcome count n b × (b.config ≡ a.config)
unfolding act append_message emit
act-Outcome t count m a b n e = elim (Bool-cases (is_final m)) [
  | inl final ↦ subst (Follows count a) (some-injective _ _ (rw final at e)) (tt, refl)
  | inr more ↦
      let asked = append_message (assistant m) a in
      let calls = extract_tool_calls m.content in
      let ((rs, kept, c), found, q) = bind-some (run_tools t calls asked) _ _ (rw more at e) in
      let bounded = bound_history (emit (turn_end (some m) rs) c) in
      let (out, config) = close_turn-Outcome count calls kept bounded in
      subst (Follows count a) (some-injective _ _ q)
        (out, config ∙ (config-bound_history _ ∙ config-run_tools t calls asked c rs kept found))
]

after_stream-Outcome :
    (t : TurnInput) (count : ℕ) (r : Streamed) (a b : Agent) (n : Next)
    → after_stream t count r a ≡ some (n, b)
    → Outcome count n b × (b.config ≡ a.config)
unfolding after_stream emit
after_stream-Outcome t count (message m) a b n e = act-Outcome t count m a b n e
after_stream-Outcome t count (failure x) a b n e =
    subst (Follows count a) (some-injective _ _ e) (tt, refl)
after_stream-Outcome t count interrupted a b n e =
    subst (Follows count a) (some-injective _ _ e) (tt, refl)
after_stream-Outcome t count panicked a b n e = absurd (none-ne-some _ e)

pub turn-Outcome :
    (t : TurnInput) (count : ℕ) (pending : List Message) (a b : Agent) (n : Next)
    → turn t count pending a ≡ some (n, b)
    → Outcome (count + 1) n b × (b.config ≡ a.config)
unfolding turn emit append_messages
turn-Outcome t count pending a b n e = elim (Bool-cases t.ctx_done) [
  | inl done ↦ subst (Follows (count + 1) a) (some-injective _ _ (rw done at e)) (tt, refl)
  | inr going ↦
      let begun = steer_all t.steered (append_messages pending (emit turn_start a)) in
      let (r, streamed) = stream_with_retry t.try begun in
      let (out, config) =
        after_stream-Outcome t (count + 1) r (end_compaction t.compacted streamed) b n
          (rw going at e) in
      (
        out,
        config
            ∙ (config-end_compaction t.compacted streamed
                ∙ (config-stream_with_retry t.try begun
                    ∙ config-steer_all t.steered (append_messages pending (emit turn_start a)))),
      )
]
