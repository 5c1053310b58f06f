-- ===== src/Agent/Stream.antt =====
-- core/stream.go: one streamed call of the provider, and its retries. The provider is not part of the
-- repository's core: a call is given by the events that its channel yields.
use Prim.Native.String.{◌++◌ as concat}
use piglet.Prelude.{
  ℕ, zero, suc, ◌+◌, ◌*◌, ◌^◌, min, String, Bool, true, false, Option, none, some, List, [], ◌∷◌,
  ◌++◌, ltb, leb, if◌then◌else◌,
}
use piglet.Core.Types.{AssistantMessage}
use piglet.Agent.State.{
  Config, Agent, Event, Request, retry, emit, max_retries, max_retry_delay, retry_base_delay,
}

-- An error with the wait in milliseconds that its provider asks for, 0 if none.
pub record StreamErr : Type 0 where
  pub text : String
  pub retry_after : ℕ

-- What the consumer does with an event: deltas are forwarded, other types are ignored.
pub data StreamEvent : Type 0 where
  delta : StreamEvent
  done : Option AssistantMessage → StreamEvent
  failed : Option StreamErr → StreamEvent
  ignored : StreamEvent

pub data Outcome : Type 0 where
  ok : AssistantMessage → Outcome
  err : StreamErr → Outcome
  cancelled : Outcome

abbrev pub plain_err : String → StreamErr
plain_err text = record { text = text; retry_after = 0 }

-- The loop over the channel in `streamOnce`. The flag of an event tells whether the context was
-- done when it arrived.
unfoldable pub consume : List (Bool × StreamEvent) → Option AssistantMessage → Outcome
consume [] none = err (plain_err "stream ended without a final message")
consume [] (some m) = ok m
consume ((true, e) ∷ es) final = cancelled
consume ((false, delta) ∷ es) final = consume es final
consume ((false, done m) ∷ es) final = consume es m
consume ((false, failed none) ∷ es) final = err (plain_err "stream error")
consume ((false, failed (some e)) ∷ es) final = err e
consume ((false, ignored) ∷ es) final = consume es final

-- One round of the retry loop finds: whether an API key is there, the events, whether the context is
-- done after a failure, and whether it is done before the wait ends.
pub record Attempt : Type 0 where
  pub has_key : Bool
  pub events : List (Bool × StreamEvent)
  pub done_after : Bool
  pub done_in_wait : Bool

-- The system text with the ephemeral context behind it.
unfoldable pub with_context : String → List String → String
with_context system [] = system
with_context system (c ∷ cs) = with_context (concat (concat system "\n\n") c) cs

-- What `streamOnce` does before the channel: the turn's context is taken and cleared, also if there is
-- no key and nothing is sent.
unfoldable pub prepare : Bool → Agent → Agent
unfolding with_context
prepare has_key a =
    let request : Request = record {
      system_text = with_context a.system a.turn_context;
      sent = a.messages;
    } in
    record a {
      turn_context = [];
      requests = if has_key then a.requests ++ request ∷ [] else a.requests;
    }

-- `streamOnce`
unfoldable pub stream_once : Attempt → Agent → Outcome × Agent
unfolding consume prepare
stream_once t a = (
  if t.has_key then consume t.events none else err (plain_err "no API key for provider"),
  prepare t.has_key a,
)

-- `retryDelay`
unfoldable pub retry_delay : Config → ℕ → StreamErr → ℕ
unfolding max_retry_delay
retry_delay c attempt e =
    if ltb 0 e.retry_after
    then min e.retry_after (max_retry_delay c)
    else let d = retry_base_delay * 2 ^ min attempt 20 in
      if ltb (max_retry_delay c) d then max_retry_delay c else d

-- The result of the retry loop: what the caller gets, or the panic behind the loop.
pub data Streamed : Type 0 where
  message : AssistantMessage → Streamed
  failure : StreamErr → Streamed
  interrupted : Streamed
  panicked : Streamed

abbrev pub retry_event : Config → ℕ → StreamErr → Event
retry_event c attempt e = retry (attempt + 1) (max_retries c) (retry_delay c attempt e)

-- What the loop of `streamWithRetry` does with the end of one attempt; `again` is the next round.
unfoldable pub after_attempt :
    Attempt → ℕ → Outcome → (Agent → Streamed × Agent) → Agent → Streamed × Agent
unfolding retry_delay emit
after_attempt t attempt (ok m) again a = (message m, a)
after_attempt t attempt cancelled again a = (interrupted, a)
after_attempt t attempt (err e) again a =
    let waiting = emit (retry_event a.config attempt e) a in
    if t.done_after
    then (interrupted, a)
    else if leb (max_retries a.config) (attempt + 1)
    then (failure e, a)
    else if t.done_in_wait
    then (interrupted, waiting)
    else again waiting

-- The loop of `streamWithRetry` with the rounds left; `try n` is what the n-th round finds.
unfoldable pub retry_loop : (ℕ → Attempt) → ℕ → ℕ → Agent → Streamed × Agent
unfolding stream_once after_attempt
retry_loop try zero attempt a = (panicked, a)
retry_loop try (suc left) attempt a =
    let (outcome, b) = stream_once (try attempt) a in
    after_attempt (try attempt) attempt outcome (λ w. retry_loop try left (attempt + 1) w) b

-- `streamWithRetry`
unfoldable pub stream_with_retry : (ℕ → Attempt) → Agent → Streamed × Agent
unfolding retry_loop
stream_with_retry try a = retry_loop try (max_retries a.config) 0 a
