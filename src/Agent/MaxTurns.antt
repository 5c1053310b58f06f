-- ===== src/Agent/MaxTurns.antt =====
-- core/agent.go: the limit on turns, and how the loop of turns ends.
use piglet.Prelude.{
  ℕ, zero, suc, ◌+◌, ◌≤◌, ◌<◌, ◌≡◌, refl, sym, ap, ◌∙◌, subst, inl, inr, Bool, false, ◌&&◌, some,
  List, [], ◌∷◌, arith, ltb, leb, Option-cases, take,
}
use mathlib.Core.Bool.{true≢false}
use mathlib.Core.Option.{some-injective, none-ne-some}
use piglet.Core.Types.{Message}
use piglet.Agent.State.{Config, Agent, dequeue_steer}
use piglet.Agent.Turns.{TurnInput, stop, leave, continue, turn_limit, turn, turn_loop, run_turns}
use piglet.Agent.TurnEnd.{turn-Outcome}

pub turn_limit-more :
    (count : ℕ) (a b : Agent)
    → 0 < a.config.max_turns
    → turn_limit count b ≡ false
    → b.config ≡ a.config
    → count < a.config.max_turns
unfolding turn_limit
turn_limit-more count a b pos limit c =
    let limit_a = ap (λ (k : Config). ltb 0 k.max_turns && leb k.max_turns count) (sym c) ∙ limit in
    ground (arith, limit_a)

turn_loop-take :
    (k : ℕ) (ts : List TurnInput) (count : ℕ) (pending : List Message) (a : Agent)
    → 1 ≤ k
    → count + k ≡ a.config.max_turns
    → turn_loop ts count pending a ≡ turn_loop (take k ts) count pending a
unfolding turn_loop
turn_loop-take zero ts count pending a pos sum = absurd (omega arith)
turn_loop-take (suc k) [] count pending a pos sum = refl
turn_loop-take (suc k) (t ∷ ts) count pending a pos sum =
    elim (Option-cases (turn t count pending a)) [
      | inl out ↦ rw out refl
      | inr ((stop, b), e) ↦ rw e refl
      | inr ((leave, b), e) ↦ rw e refl
      | inr ((continue next, b), e) ↦
          let (limit, c) = turn-Outcome t count pending a b (continue next) e in
          let more = turn_limit-more (count + 1) a b (omega arith) limit c in
          rw e (turn_loop-take k ts (count + 1) next b (omega arith) (rw c (omega arith)))
    ]

-- A run of turns under a limit depends on no more inputs than the limit: the turn that reaches it is the
-- last one.
pub run_turns-take :
    (ts : List TurnInput) (a : Agent)
    → 0 < a.config.max_turns
    → run_turns ts a ≡ run_turns (take a.config.max_turns ts) a
unfolding run_turns dequeue_steer
run_turns-take ts a pos =
    turn_loop-take a.config.max_turns ts 0 a.steer_q (record a { steer_q = [] }) pos (omega arith)

turn_loop-leaves :
    (ts : List TurnInput) (count : ℕ) (pending : List Message) (a b : Agent)
    → turn_loop ts count pending a ≡ some (false, b)
    → b.steer_q ≡ []
unfolding turn_loop
turn_loop-leaves [] count pending a b e = absurd (none-ne-some _ e)
turn_loop-leaves (t ∷ ts) count pending a b e = elim (Option-cases (turn t count pending a)) [
  | inl out ↦ absurd (none-ne-some _ (rw out at e))
  | inr ((stop, c), found) ↦
      absurd (true≢false (ap (λ (p : Bool × Agent). p.0) (some-injective _ _ (rw found at e))))
  | inr ((leave, c), found) ↦
      subst (λ (p : Bool × Agent). p.1.steer_q ≡ []) (some-injective _ _ (rw found at e))
        (turn-Outcome t count pending a c leave found).0
  | inr ((continue next, c), found) ↦ turn_loop-leaves ts (count + 1) next c b (rw found at e)
]

-- When a run of turns ends of itself, and not by an error, a cancellation or the limit, no message that
-- was steered in waits in the queue: the outer loop goes on to the follow-ups.
pub run_turns-leaves :
    (ts : List TurnInput) (a b : Agent) → run_turns ts a ≡ some (false, b) → b.steer_q ≡ []
unfolding run_turns
run_turns-leaves ts a b e = turn_loop-leaves ts 0 a.steer_q _ b e
