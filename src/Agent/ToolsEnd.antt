-- ===== src/Agent/ToolsEnd.antt =====
-- core/tool_executor.go: the collecting loop ends, and what becomes of the messages that are steered in
-- while tools run.
use piglet.Prelude.{
  ℕ, zero, suc, ◌+◌, ◌≤◌, ◌≡◌, refl, ap, ◌⊎◌, inl, inr, Bool, true, false, Option, none, some, List,
  [], ◌∷◌, ◌++◌, arith, leb, leb→lt, if◌then◌else◌, length, drop, get_elem?, drop_all,
}
use piglet.Core.Types.{Message, ToolCall, ToolResultMessage, ContentBlock}
use piglet.Agent.State.{Agent, append_messages}
use piglet.Agent.Tools.{
  open_gate, succeeded, safe_execute, run_tool, execute_one_tool, Signal, result, tools_done,
  parent_done, Collected, record_result, drain_rest, keep_steering, drain_loop, empty_results,
  execute_tools,
}
use piglet.Agent.Turns.{
  ToolStep, arrives, worker, not_started, context_done, cancelled, work, TurnInput, run_tools,
}

abbrev sends : Signal → ℕ
sends (result i r steer) = 1
sends tools_done = 0
sends parent_done = 0

abbrev sent : List Signal → ℕ
sent [] = 0
sent (s ∷ signals) = sends s + sent signals

returned_at_all :
    (b : Bool) (c : Collected) (rest : Option Collected)
    → (b ≡ false → (d : Collected) × (rest ≡ some d))
    → (d : Collected) × ((if b then some c else rest) ≡ some d)
returned_at_all true c rest h = (c, refl)
returned_at_all false c rest h = h refl

module _ (n : ℕ) where
  drain_rest-Ends :
      (signals : List Signal) (c : Collected)
      → n ≤ c.received + sent signals
      → (d : Collected) × (drain_rest n signals c ≡ some d)
  unfolding drain_rest record_result
  drain_rest-Ends [] c h =
      returned_at_all (leb n c.received) c none (λ b. absurd (omega (arith, leb→lt _ _ b)))
  drain_rest-Ends (result i r steer ∷ signals) c h =
      returned_at_all (leb n c.received) c _
        (λ b. drain_rest-Ends signals (record_result i r c) (omega arith))
  drain_rest-Ends (parent_done ∷ signals) c h = (c, refl)
  drain_rest-Ends (tools_done ∷ signals) c h =
      returned_at_all (leb n c.received) c _ (λ b. drain_rest-Ends signals c (omega arith))

  drain_loop-Ends :
      (signals : List Signal) (c : Collected)
      → n ≤ c.received + sent signals
      → (d : Collected) × (drain_loop n signals c ≡ some d)
  unfolding drain_loop record_result keep_steering
  drain_loop-Ends [] c h =
      returned_at_all (leb n c.received) c none (λ b. absurd (omega (arith, leb→lt _ _ b)))
  drain_loop-Ends (result i r steer ∷ signals) c h =
      returned_at_all (leb n c.received) c _
        (λ b. drain_loop-Ends signals (keep_steering steer (record_result i r c)) (omega arith))
  drain_loop-Ends (parent_done ∷ signals) c h =
      returned_at_all (leb n c.received) c _
        (λ b. drain_rest-Ends (parent_done ∷ signals) c (omega arith))
  drain_loop-Ends (tools_done ∷ signals) c h =
      returned_at_all (leb n c.received) c _ (λ b. drain_rest-Ends signals c (omega arith))

abbrev in_range : List ToolCall → ℕ → ℕ
in_range [] i = 0
in_range (tc ∷ calls) zero = 1
in_range (tc ∷ calls) (suc i) = in_range calls i

-- The number of workers that end, out of those of the calls.
abbrev pub ended : List ToolCall → List ToolStep → ℕ
ended calls [] = 0
ended calls (arrives m ∷ steps) = ended calls steps
ended calls (worker i gate e ∷ steps) = in_range calls i + ended calls steps
ended calls (not_started i ∷ steps) = 1 + ended calls steps
ended calls (context_done ∷ steps) = ended calls steps
ended calls (cancelled ∷ steps) = ended calls steps

in_range-cases :
    (calls : List ToolCall) (i : ℕ)
    → ((tc : ToolCall) × (get_elem? calls i ≡ some tc) × (in_range calls i ≡ 1))
      ⊎ ((get_elem? calls i ≡ none) × (in_range calls i ≡ 0))
in_range-cases [] i = inr (refl, refl)
in_range-cases (tc ∷ calls) zero = inl (tc, refl, refl)
in_range-cases (tc ∷ calls) (suc i) = in_range-cases calls i

sent-work :
    (now : ℕ) (calls : List ToolCall) (steps : List ToolStep) (queue : List Message)
    → sent (work now calls steps queue).0 ≡ ended calls steps
unfolding work
sent-work now calls [] queue = refl
sent-work now calls (arrives m ∷ steps) queue = sent-work now calls steps (queue ++ m ∷ [])
sent-work now calls (not_started i ∷ steps) queue =
    ap (λ k. 1 + k) (sent-work now calls steps queue)
sent-work now calls (context_done ∷ steps) queue = omega (arith, sent-work now calls steps queue)
sent-work now calls (cancelled ∷ steps) queue = omega (arith, sent-work now calls steps queue)
sent-work now calls (worker i gate e ∷ steps) queue = elim (in_range-cases calls i) [
  | inl (tc, at, one) ↦
      let taken = (execute_one_tool gate tc e now queue).1 in
      rw (at, work) (rw one (omega (arith, sent-work now calls steps (drop (length taken) queue))))
  | inr (out, nil) ↦ rw (out, work) (rw nil (omega (arith, sent-work now calls steps queue)))
]

-- The tools of a turn end once the worker of each call has ended, in whatever order.
pub run_tools-Ends :
    (t : TurnInput) (calls : List ToolCall) (a : Agent)
    → length calls ≤ ended calls t.steps
    → (r : List ToolResultMessage × List Message × Agent) × (run_tools t calls a ≡ some r)
unfolding run_tools execute_tools
run_tools-Ends t [] a h = (_, refl)
run_tools-Ends t (tc ∷ calls) a h =
    let (d, found) =
      drain_loop-Ends (length (tc ∷ calls)) (work t.now (tc ∷ calls) t.steps a.steer_q).0
        (record { results = empty_results (tc ∷ calls); steering = []; received = 0 })
        (omega (arith, sent-work t.now (tc ∷ calls) t.steps a.steer_q)) in
    rw found (_, refl)

-- With two tools that succeed and no cancellation seen in between, a message that is steered in after the
-- first tool took the queue is dequeued by the second tool and dropped: the messages kept for the next
-- turn are those of the first, and the queue is empty.
pub run_tools-loses_steering :
    (t : TurnInput) (a : Agent) (tc1 tc2 : ToolCall) (m1 m2 : Message) (ms : List Message)
    (c1 c2 : List ContentBlock)
    → let steps =
        worker 0 open_gate (some (succeeded c1))
        ∷ arrives m2
        ∷ worker 1 open_gate (some (succeeded c2))
        ∷ [] in
      (rs : List ToolResultMessage) × (b : Agent) × (run_tools
          (record t { steps = steps })
          (tc1 ∷ tc2 ∷ [])
          (record a { steer_q = m1 ∷ ms })
        ≡ some (rs, m1 ∷ ms, b))
      × (b.steer_q ≡ [])
unfolding run_tools execute_tools work execute_one_tool run_tool safe_execute drain_loop
    record_result keep_steering append_messages
run_tools-loses_steering t a tc1 tc2 m1 m2 ms c1 c2 =
    rw (drop_all (length ms) ms (omega arith)) (_, _, refl, refl)
