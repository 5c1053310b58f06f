-- ===== src/Agent/Requests.antt =====
-- core/stream.go: the requests that the attempts of a turn send.
use piglet.Prelude.{
  ℕ, zero, suc, ◌+◌, ◌≤◌, ◌≡◌, refl, sym, ap, ◌∙◌, Bool, true, false, none, List, [], ◌∷◌, ◌++◌,
  append-nil, append_assoc, arith, length, length-append, all, All, All-append,
}
use piglet.Agent.State.{Agent, Request, emit, max_retries}
use piglet.Agent.Stream.{
  Attempt, consume, prepare, stream_once, with_context, retry_event, retry_loop, stream_with_retry,
}
use piglet.Agent.Delay.{max_retries-positive}
use piglet.Agent.Retry.{Kept, Kept-prepare, after_attempt-cases}

-- The requests sent without a turn's context: those of the retries.
abbrev Plain : Agent → Agent → ℕ → Type 0
Plain a b n =
    (rs : List Request) × (b.requests ≡ a.requests ++ rs)
    × (length rs ≤ n)
    × All (λ (r : Request). (r.sent ≡ a.messages) × (r.system_text ≡ a.system)) rs

All-sent :
    (a b : Agent) (rs : List Request)
    → b.messages ≡ a.messages
    → b.system ≡ a.system
    → All (λ (r : Request). (r.sent ≡ b.messages) × (r.system_text ≡ b.system)) rs
    → All (λ (r : Request). (r.sent ≡ a.messages) × (r.system_text ≡ a.system)) rs
All-sent a b [] m e all = tt
All-sent a b (r ∷ rs) m e ((p, q), all) = ((p ∙ m, q ∙ e), All-sent a b rs m e all)

Plain-trans : (a b c : Agent) (m n : ℕ) → Kept a b → Plain a b m → Plain b c n → Plain a c (m + n)
Plain-trans a b c m n (km, _, _, _, ks, _) (rs, e, l, p) (qs, e', l', p') = (
  rs ++ qs,
  e' ∙ (ap (λ t. t ++ qs) e ∙ append_assoc a.requests rs qs),
  omega (arith, length-append rs qs),
  All-append _ rs qs p (All-sent a b qs km ks p'),
)

Plain-le : (a b : Agent) (m n : ℕ) → m ≤ n → Plain a b m → Plain a b n
Plain-le a b m n h (rs, e, l, p) = (rs, e, omega arith, p)

Plain-prepare : (k : Bool) (a : Agent) → a.turn_context ≡ [] → Plain a (prepare k a) 1
unfolding prepare with_context
Plain-prepare true a c = (_ ∷ [], refl, omega arith, ((refl, rw c refl), tt))
Plain-prepare false a c = ([], sym (append-nil a.requests), omega arith, tt)

retry_loop-Plain :
    (try : ℕ → Attempt) (left n : ℕ) (a : Agent)
    → a.turn_context ≡ []
    → Plain a (retry_loop try left n a).1 left
unfolding retry_loop stream_once emit prepare
retry_loop-Plain try zero n a c = ([], sym (append-nil _), omega arith, tt)
retry_loop-Plain try (suc left) n a c =
    let k = (try n).has_key in
    let b = prepare k a in
    let first = Plain-prepare k a c in
    after_attempt-cases (λ r. Plain a r.1 (suc left)) (try n) n (stream_once (try n) a).0
      (λ w. retry_loop try left (n + 1) w) b (λ p e. Plain-le a b 1 (suc left) (omega arith) first)
      (λ p e d. Plain-le a b 1 (suc left) (omega arith) first)
      (λ e d.
        let w = emit (retry_event b.config n e) b in
        Plain-le a (retry_loop try left (n + 1) w).1 (1 + left) (suc left) (omega arith) (
          Plain-trans a b (retry_loop try left (n + 1) w).1 1 left (Kept-prepare k a) first
            (retry_loop-Plain try left (n + 1) w refl)))

-- The requests of a loop whose first attempt has a key.
retry_loop-first :
    (try : ℕ → Attempt) (left : ℕ) (a : Agent)
    → 1 ≤ left
    → (try 0).has_key ≡ true
    → (rs : List Request) × ((retry_loop try left 0 a).1.requests
        ≡ a.requests
          ++ record { system_text = with_context a.system a.turn_context; sent = a.messages } ∷ rs)
      × All (λ (r : Request). (r.sent ≡ a.messages) × (r.system_text ≡ a.system)) rs
unfolding retry_loop stream_once emit prepare
retry_loop-first try zero a pos key = absurd (omega arith)
retry_loop-first try (suc left) a pos key =
    let r0 : Request = record {
      system_text = with_context a.system a.turn_context;
      sent = a.messages;
    } in
    rw key (
      let b = prepare true a in
      after_attempt-cases
        (λ r.
          (rs : List Request) × (r.1.requests ≡ a.requests ++ r0 ∷ rs)
          × All (λ (r : Request). (r.sent ≡ a.messages) × (r.system_text ≡ a.system)) rs)
        (try 0) 0 (consume (try 0).events none) (λ w. retry_loop try left (0 + 1) w) b
        (λ p e. ([], refl, tt)) (λ p e d. ([], refl, tt))
        (λ e d.
          let (rs, q, l, all) =
            retry_loop-Plain try left (0 + 1) (emit (retry_event b.config 0 e) b) refl in
          (rs, q ∙ append_assoc a.requests (r0 ∷ []) rs, all)))

-- When the first attempt has a key, its request carries the system text with the turn's context, and that
-- of every later attempt the same messages with the system text alone.
pub stream_with_retry-drops_context :
    (try : ℕ → Attempt) (a : Agent)
    → (try 0).has_key ≡ true
    → (rs : List Request) × ((stream_with_retry try a).1.requests
        ≡ a.requests
          ++ record { system_text = with_context a.system a.turn_context; sent = a.messages } ∷ rs)
      × All (λ (r : Request). (r.sent ≡ a.messages) × (r.system_text ≡ a.system)) rs
unfolding stream_with_retry
stream_with_retry-drops_context try a key =
    retry_loop-first try (max_retries a.config) a (max_retries-positive a.config) key
