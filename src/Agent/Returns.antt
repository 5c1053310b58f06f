-- ===== src/Agent/Returns.antt =====
-- core/agent.go, core/stream.go: a run of turns under a limit returns.
use piglet.Prelude.{
  ℕ, zero, suc, ◌+◌, ◌≤◌, ◌≡◌, refl, sym, ◌∙◌, ◌≢◌, inl, inr, Bool, true, false, Option, none, some,
  List, [], ◌∷◌, arith, leb, if◌then◌else◌, Bool-cases, Option-cases, length, All,
}
use mathlib.Core.Option.{none-ne-some}
use piglet.Core.Types.{Message, AssistantMessage, assistant}
use piglet.Agent.State.{
  Agent, emit, append_message, append_messages, turn_start, dequeue_steer, max_retries,
}
use piglet.Agent.Stream.{
  Attempt, Outcome, ok, err, cancelled, Streamed, message, failure, interrupted, panicked, consume,
  stream_once, after_attempt, retry_event, retry_loop, stream_with_retry, StreamErr, plain_err,
}
use piglet.Agent.Tools.{extract_tool_calls}
use piglet.Agent.Retry.{stream_with_retry-Ends}
use piglet.Agent.ToolsEnd.{ended, run_tools-Ends}
use piglet.Agent.TurnEnd.{turn-Outcome}
use piglet.Agent.MaxTurns.{turn_limit-more}
use piglet.Agent.Turns.{
  TurnInput, Next, stop, leave, continue, is_final, act, after_stream, end_compaction, steer_all,
  turn, turn_loop, run_turns,
}

-- Whatever message an attempt of the turn yields, the worker of each of its calls ends.
abbrev pub ToolsEnd : TurnInput → Type 0
ToolsEnd t =
    (n : ℕ) (m : AssistantMessage)
    → consume (t.try n).events none ≡ ok m
    → length (extract_tool_calls m.content) ≤ ended (extract_tool_calls m.content) t.steps

-- A property of every message that can be streamed.
module _ (P : AssistantMessage → Type 0) where
  abbrev Only : Streamed → Type 0
  Only (message m) = P m
  Only (failure e) = Unit
  Only interrupted = Unit
  Only panicked = Unit

  abbrev Gives : Outcome → Type 0
  Gives (ok m) = P m
  Gives (err e) = Unit
  Gives cancelled = Unit

  Only-after_attempt :
      (t : Attempt) (n : ℕ) (o : Outcome) (again : Agent → Streamed × Agent) (a : Agent)
      → Gives o
      → ((w : Agent) → Only (again w).0)
      → Only (after_attempt t n o again a).0
  unfolding after_attempt
  Only-after_attempt t n (ok m) again a g next = g
  Only-after_attempt t n cancelled again a g next = tt
  Only-after_attempt t n (err e) again a g next = elim (Bool-cases t.done_after) [
    | inl d ↦ rw d tt
    | inr d ↦ rw d (elim (Bool-cases (leb (max_retries a.config) (n + 1))) [
      | inl last ↦ rw last tt
      | inr more ↦ rw more (elim (Bool-cases t.done_in_wait) [
        | inl w ↦ rw w tt
        | inr w ↦ rw w (next (emit (retry_event a.config n e) a))
      ])
    ])
  ]

  Gives-key :
      (b : Bool) (o : Outcome) (e : StreamErr)
      → ((m : AssistantMessage) → o ≡ ok m → P m)
      → Gives (if b then o else err e)
  Gives-key false o e h = tt
  Gives-key true (ok m) e h = h m refl
  Gives-key true (err x) e h = tt
  Gives-key true cancelled e h = tt

  Gives-stream_once :
      (t : Attempt) (a : Agent)
      → ((m : AssistantMessage) → consume t.events none ≡ ok m → P m)
      → Gives (stream_once t a).0
  unfolding stream_once
  Gives-stream_once t a h =
      Gives-key t.has_key (consume t.events none) (plain_err "no API key for provider") h

  Only-retry_loop :
      (try : ℕ → Attempt) (left n : ℕ) (a : Agent)
      → ((k : ℕ) (m : AssistantMessage) → consume (try k).events none ≡ ok m → P m)
      → Only (retry_loop try left n a).0
  unfolding retry_loop
  Only-retry_loop try zero n a h = tt
  Only-retry_loop try (suc left) n a h =
      Only-after_attempt (try n) n (stream_once (try n) a).0 (λ w. retry_loop try left (n + 1) w)
        (stream_once (try n) a).1 (Gives-stream_once (try n) a (h n))
        (λ w. Only-retry_loop try left (n + 1) w h)

  Only-stream_with_retry :
      (try : ℕ → Attempt) (a : Agent)
      → ((k : ℕ) (m : AssistantMessage) → consume (try k).events none ≡ ok m → P m)
      → Only (stream_with_retry try a).0
  unfolding stream_with_retry
  Only-stream_with_retry try a h = Only-retry_loop try (max_retries a.config) 0 a h

abbrev Waits : TurnInput → AssistantMessage → Type 0
Waits t m = length (extract_tool_calls m.content) ≤ ended (extract_tool_calls m.content) t.steps

abbrev Returned : Option (Next × Agent) → Type 0
Returned o = (r : Next × Agent) × (o ≡ some r)

act-Returns :
    (t : TurnInput) (count : ℕ) (m : AssistantMessage) (a : Agent)
    → Waits t m
    → Returned (act t count m a)
unfolding act
act-Returns t count m a h = elim (Bool-cases (is_final m)) [
  | inl final ↦ rw final (_, refl)
  | inr more ↦
      let (r, e) =
        run_tools-Ends t (extract_tool_calls m.content) (append_message (assistant m) a) h in
      rw more (rw e (_, refl))
]

after_stream-Returns :
    (t : TurnInput) (count : ℕ) (r : Streamed) (a : Agent)
    → r ≢ panicked
    → Only (Waits t) r
    → Returned (after_stream t count r a)
unfolding after_stream
after_stream-Returns t count (message m) a calm h = act-Returns t count m a h
after_stream-Returns t count (failure e) a calm h = (_, refl)
after_stream-Returns t count interrupted a calm h = (_, refl)
after_stream-Returns t count panicked a calm h = absurd (calm refl)

turn-Returns :
    (t : TurnInput) (count : ℕ) (pending : List Message) (a : Agent)
    → ToolsEnd t
    → Returned (turn t count pending a)
unfolding turn
turn-Returns t count pending a h =
    let begun = steer_all t.steered (append_messages pending (emit turn_start a)) in
    let (r, b) = stream_with_retry t.try begun in
    let streamed =
      after_stream-Returns t (count + 1) r (end_compaction t.compacted b)
        (stream_with_retry-Ends t.try begun).0 (Only-stream_with_retry (Waits t) t.try begun h) in
    elim (Bool-cases t.ctx_done) [ inl d ↦ rw d (_, refl) | inr d ↦ rw d streamed ]

turn_loop-Returns :
    (k : ℕ) (ts : List TurnInput) (count : ℕ) (pending : List Message) (a : Agent)
    → 1 ≤ k
    → count + k ≡ a.config.max_turns
    → k ≤ length ts
    → All ToolsEnd ts
    → (r : Bool × Agent) × (turn_loop ts count pending a ≡ some r)
unfolding turn_loop
turn_loop-Returns zero ts count pending a pos sum long ends = absurd (omega arith)
turn_loop-Returns (suc k) [] count pending a pos sum long ends = absurd (omega arith)
turn_loop-Returns (suc k) (t ∷ ts) count pending a pos sum long (h, hs) =
    elim (Option-cases (turn t count pending a)) [
      | inl out ↦ absurd (none-ne-some _ (sym out ∙ (turn-Returns t count pending a h).1))
      | inr ((stop, b), e) ↦ rw e (_, refl)
      | inr ((leave, b), e) ↦ rw e (_, refl)
      | inr ((continue next, b), e) ↦
          let (limit, c) = turn-Outcome t count pending a b (continue next) e in
          let more = turn_limit-more (count + 1) a b (omega arith) limit c in
          rw e (
            turn_loop-Returns k ts (count + 1) next b (omega arith) (rw c (omega arith))
              (omega arith) hs)
    ]

-- Under a limit on turns a run returns, given inputs for as many turns as the limit, where the worker of
-- each call of a message that can be streamed ends.
pub run_turns-Returns :
    (ts : List TurnInput) (a : Agent)
    → 1 ≤ a.config.max_turns
    → a.config.max_turns ≤ length ts
    → All ToolsEnd ts
    → (r : Bool × Agent) × (run_turns ts a ≡ some r)
unfolding run_turns dequeue_steer
run_turns-Returns ts a pos long ends =
    turn_loop-Returns a.config.max_turns ts 0 a.steer_q (record a { steer_q = [] }) pos
      (omega arith) long ends
