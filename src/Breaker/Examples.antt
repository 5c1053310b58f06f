-- ===== src/Breaker/Examples.antt =====
-- A tool that fails three times, for the theorems of this folder.
use piglet.Prelude.{String, ◌≡◌, refl, true, false, List, [], ◌∷◌, lookup, erase, insert}
use piglet.Breaker.Tracker.{count, is_disabled, before, ToolEnd, handle_all}

abbrev failed : String → ToolEnd
failed name = record { tool_name = name; is_error = true }

abbrev worked : String → ToolEnd
worked name = record { tool_name = name; is_error = false }

abbrev failures : List ToolEnd
failures = failed "bash" ∷ worked "read" ∷ failed "bash" ∷ failed "bash" ∷ []

third_failure : before 3 "bash" (handle_all 3 failures []) ≡ false
unfolding before handle_all count lookup insert erase piglet.Breaker.Tracker.record_error
    piglet.Breaker.Tracker.record_success
third_failure = refl
