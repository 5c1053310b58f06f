-- ===== src/Extensions/Examples.antt =====
-- A task that is found and forgotten, and a tool that fails twice, for the theorems of this folder.
use piglet.Prelude.{
  ℕ, ◌≡◌, refl, true, false, none, some, List, [], ◌∷◌, arith, lookup, insert, erase,
}
use piglet.Extensions.Dedup.{look_up, store_result, tick, Timed, answers}
use piglet.Extensions.Remembers.{spec_answers, answers_refine}
use piglet.Extensions.Safeguard.{Event, before, ended, new_breaker_state}
use piglet.Extensions.Automaton
use piglet.Extensions.Automaton.{closed, answers_of, signals_of, answers_of_refine}

abbrev tasks : List Timed
tasks =
    (10, store_result "count the files" "42")
    ∷ (20, look_up "count the files")
    ∷ (1800000000011, look_up "count the files")
    ∷ (1800000000012, tick)
    ∷ []

found_example : answers tasks [] ≡ some "42" ∷ none ∷ []
unfolding answers lookup insert
found_example = refl

answers_refine_example : answers tasks [] ≡ spec_answers tasks []
answers_refine_example = answers_refine tasks (omega arith)

abbrev events : List (ℕ × Event)
events =
    (1, ended "bash" true)
    ∷ (2, ended "read" false)
    ∷ (3, ended "bash" true)
    ∷ (4, before "bash")
    ∷ (5, ended "bash" false)
    ∷ (14, before "bash")
    ∷ []

asked_example : answers_of "bash" events (new_breaker_state 2 10) ≡ false ∷ true ∷ []
unfolding answers_of piglet.Extensions.Safeguard.handle lookup insert erase
asked_example = refl

answers_of_refine_example :
    answers_of "bash" events (new_breaker_state 2 10)
    ≡ Automaton.spec_answers 2 10 (signals_of "bash" events) (closed 0)
answers_of_refine_example = answers_of_refine 2 10 "bash" events
