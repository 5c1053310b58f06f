-- ===== src/Agent/Retry.antt =====
-- core/stream.go: the waits between attempts, and what the retries leave of the agent.
use piglet.Prelude.{
  ℕ, zero, suc, ◌+◌, ◌≤◌, ◌<◌, ◌≡◌, refl, ◌∙◌, subst, ◌≢◌, inl, inr, Bool, true, false, [], ◌∷◌,
  arith, leb, leb→lt, Bool-cases, length, length-append,
}
use piglet.Agent.State.{Agent, Event, emit, max_retries}
use piglet.Agent.Stream.{
  StreamErr, Outcome, ok, err, cancelled, Attempt, Streamed, message, failure, interrupted,
  panicked, prepare, after_attempt, stream_once, retry_event, retry_loop, stream_with_retry,
}
use piglet.Agent.Delay.{max_retries-positive}

-- What an attempt leaves alone.
abbrev pub Kept : Agent → Agent → Type 0
Kept a b =
    (b.messages ≡ a.messages)
    × (b.steer_q ≡ a.steer_q)
    × (b.follow_q ≡ a.follow_q)
    × (b.config ≡ a.config)
    × (b.system ≡ a.system)
    × (b.compacting ≡ a.compacting)

Kept-trans : (a b c : Agent) → Kept a b → Kept b c → Kept a c
Kept-trans a b c (p, q, r, s, t, u) (p', q', r', s', t', u') =
    (p' ∙ p, q' ∙ q, r' ∙ r, s' ∙ s, t' ∙ t, u' ∙ u)

pub Kept-prepare : (k : Bool) (a : Agent) → Kept a (prepare k a)
unfolding prepare
Kept-prepare k a = (refl, refl, refl, refl, refl, refl)

Kept-emit : (e : Event) (a : Agent) → Kept a (emit e a)
unfolding emit
Kept-emit e a = (refl, refl, refl, refl, refl, refl)

abbrev Ended : Streamed → Type 0
Ended (message m) = Unit
Ended (failure e) = Unit
Ended interrupted = Unit
Ended panicked = ⊥

Ended-panicked : (p : Streamed) → Ended p → p ≢ panicked
Ended-panicked p e q = subst Ended q e

-- The ways out of one round.
pub after_attempt-cases :
    (P : Streamed × Agent → Type 0) (t : Attempt) (n : ℕ) (o : Outcome)
    (again : Agent → Streamed × Agent) (a : Agent)
    → ((p : Streamed) → Ended p → P (p, a))
    → ((p : Streamed) (e : StreamErr) → Ended p → P (p, emit (retry_event a.config n e) a))
    → ((e : StreamErr)
        → n + 1 < max_retries a.config
        → P (again (emit (retry_event a.config n e) a)))
    → P (after_attempt t n o again a)
unfolding after_attempt
after_attempt-cases P t n (ok m) again a now waited next = now (message m) tt
after_attempt-cases P t n cancelled again a now waited next = now interrupted tt
after_attempt-cases P t n (err e) again a now waited next = elim (Bool-cases t.done_after) [
  | inl d ↦ rw d (now interrupted tt)
  | inr d ↦ rw d (elim (Bool-cases (leb (max_retries a.config) (n + 1))) [
    | inl last ↦ rw last (now (failure e) tt)
    | inr more ↦ rw more (elim (Bool-cases t.done_in_wait) [
      | inl w ↦ rw w (waited interrupted e tt)
      | inr w ↦ rw w (next e (leb→lt _ _ more))
    ])
  ])
]

retry_loop-Kept : (try : ℕ → Attempt) (left n : ℕ) (a : Agent) → Kept a (retry_loop try left n a).1
unfolding retry_loop stream_once emit prepare
retry_loop-Kept try zero n a = (refl, refl, refl, refl, refl, refl)
retry_loop-Kept try (suc left) n a =
    let k = (try n).has_key in
    let b = prepare k a in
    after_attempt-cases (λ r. Kept a r.1) (try n) n (stream_once (try n) a).0
      (λ w. retry_loop try left (n + 1) w) b (λ p e. (refl, refl, refl, refl, refl, refl))
      (λ p e d. (refl, refl, refl, refl, refl, refl))
      (λ e d. retry_loop-Kept try left (n + 1) (emit (retry_event b.config n e) b))

retry_loop-Ended :
    (try : ℕ → Attempt) (left n : ℕ) (a : Agent)
    → 1 ≤ left
    → left + n ≡ max_retries a.config
    → Ended (retry_loop try left n a).0
unfolding retry_loop stream_once emit prepare
retry_loop-Ended try zero n a pos sum = absurd (omega arith)
retry_loop-Ended try (suc left) n a pos sum =
    let k = (try n).has_key in
    let b = prepare k a in
    after_attempt-cases (λ r. Ended r.0) (try n) n (stream_once (try n) a).0
      (λ w. retry_loop try left (n + 1) w) b (λ p e. e) (λ p e d. d)
      (λ e d.
        retry_loop-Ended try left (n + 1) (emit (retry_event b.config n e) b) (omega arith)
          (omega arith))

length-prepare : (k : Bool) (a : Agent) → length (prepare k a).requests ≤ length a.requests + 1
unfolding prepare
length-prepare true a = omega (arith, length-append a.requests (_ ∷ []))
length-prepare false a = omega arith

length-retry_loop :
    (try : ℕ → Attempt) (left n : ℕ) (a : Agent)
    → length (retry_loop try left n a).1.requests ≤ length a.requests + left
unfolding retry_loop stream_once emit prepare
length-retry_loop try zero n a = omega arith
length-retry_loop try (suc left) n a =
    let k = (try n).has_key in
    let b = prepare k a in
    let one = length-prepare k a in
    after_attempt-cases (λ r. length r.1.requests ≤ length a.requests + suc left) (try n) n
      (stream_once (try n) a).0 (λ w. retry_loop try left (n + 1) w) b (λ p e. omega arith)
      (λ p e d. omega arith)
      (λ e d. omega (arith, length-retry_loop try left (n + 1) (emit (retry_event b.config n e) b)))

-- The retries always end with a message, an error or a cancellation, never behind the loop; they send at
-- most as many requests as there are attempts, and leave the messages and both queues as they are.
pub stream_with_retry-Ends :
    (try : ℕ → Attempt) (a : Agent)
    → let (r, b) = stream_with_retry try a in
      (r ≢ panicked)
      × (length b.requests ≤ length a.requests + max_retries a.config)
      × (b.messages ≡ a.messages)
      × (b.steer_q ≡ a.steer_q)
      × (b.follow_q ≡ a.follow_q)
unfolding stream_with_retry
stream_with_retry-Ends try a =
    let n = max_retries a.config in
    let (m, s, f, _, _, _) = retry_loop-Kept try n 0 a in
    (
      Ended-panicked _ (retry_loop-Ended try n 0 a (max_retries-positive a.config) (omega arith)),
      length-retry_loop try n 0 a,
      m,
      s,
      f,
    )

pub config-stream_with_retry :
    (try : ℕ → Attempt) (a : Agent) → (stream_with_retry try a).1.config ≡ a.config
unfolding stream_with_retry
config-stream_with_retry try a =
    let (m, s, f, c, _, _) = retry_loop-Kept try (max_retries a.config) 0 a in c
