-- ===== src/Shell/Runs.antt =====
-- shell/: what a frontend does with a shell over time.
use piglet.Prelude.{ℕ, ◌≤◌, String, Option, List, [], ◌∷◌, length}
use piglet.Core.Types.{ContentBlock}
use piglet.Shell.Queue.{QueuedItem, max_queue_size}
use piglet.Shell.State.{Shell}
use piglet.Shell.Submit.{submit_internal, steer}
use piglet.Shell.Process.{AgentEvent, process_event}
use piglet.Shell.Bound.{IsBounded, submit_internal-IsBounded, steer-IsBounded}
use piglet.Shell.BoundEvents.{process_event-IsBounded}

-- A call of Submit or SubmitWithImage, of Steer, or of ProcessEvent.
pub data Input : Type 0 where
  submitted : String → Option ContentBlock → Input
  steered : String → Input
  happens : AgentEvent → Input

unfoldable pub run_input : (List QueuedItem → List QueuedItem) → ℕ → Input → Shell → Shell
run_input sort now (submitted text img) s = (submit_internal now text img s).1
run_input sort now (steered text) s = (steer now text s).1
run_input sort now (happens e) s = (process_event sort now e s).1

-- Calls in their order, each at its time.
unfoldable pub run_inputs : (List QueuedItem → List QueuedItem) → List (ℕ × Input) → Shell → Shell
unfolding run_input
run_inputs sort [] s = s
run_inputs sort ((now, i) ∷ inputs) s = run_inputs sort inputs (run_input sort now i s)

run_input-IsBounded :
    (sort : List QueuedItem → List QueuedItem) (now : ℕ) (i : Input) (s : Shell)
    → IsBounded s
    → IsBounded (run_input sort now i s)
unfolding run_input
run_input-IsBounded sort now (submitted text img) s h = submit_internal-IsBounded now text img s h
run_input-IsBounded sort now (steered text) s h = steer-IsBounded now text s h
run_input-IsBounded sort now (happens e) s h = process_event-IsBounded sort now e s h

-- Whatever is submitted, steered and received, with the commands, actions and prompts that it sets off, the
-- input queue of a shell never grows over its limit of 50.
pub run_inputs-IsBounded :
    (sort : List QueuedItem → List QueuedItem) (inputs : List (ℕ × Input)) (s : Shell)
    → length s.queue ≤ max_queue_size
    → length (run_inputs sort inputs s).queue ≤ max_queue_size
unfolding run_inputs
run_inputs-IsBounded sort [] s h = h
run_inputs-IsBounded sort ((now, i) ∷ inputs) s h =
    run_inputs-IsBounded sort inputs (run_input sort now i s) (run_input-IsBounded sort now i s h)
