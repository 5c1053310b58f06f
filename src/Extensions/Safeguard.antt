-- ===== src/Extensions/Safeguard.antt =====
-- extensions/safeguard/breaker.go: the breaker that lets a tool run again after a cooldown. Times are numbers;
-- each call has the time at which it asks the clock.
use piglet.Prelude.{
  ℕ, ◌+◌, String, Bool, true, false, not, Option, none, some, List, [], ◌∷◌, ltb, leb,
  if◌then◌else◌, Assoc, lookup, erase, insert,
}

pub record BreakerState : Type 0 where
  pub failures : Assoc ℕ
  pub disabled : Assoc ℕ
  pub max_fails : ℕ
  pub cooldown : ℕ

-- `newBreakerState`
abbrev pub new_breaker_state : ℕ → ℕ → BreakerState
new_breaker_state max_fails cooldown = record {
  failures = [];
  disabled = [];
  max_fails = max_fails;
  cooldown = cooldown;
}

abbrev pub or_zero : Option ℕ → ℕ
or_zero none = 0
or_zero (some n) = n

unfoldable pub ask_expiry : ℕ → String → Option ℕ → BreakerState → BreakerState × Bool
unfolding erase
ask_expiry now name none s = (s, false)
ask_expiry now name (some expiry) s =
    if ltb expiry now
    then (record s { disabled = erase name s.disabled; failures = erase name s.failures }, false)
    else (s, true)

-- `isDisabled`
unfoldable pub is_disabled : ℕ → String → BreakerState → BreakerState × Bool
unfolding ask_expiry lookup
is_disabled now name s = ask_expiry now name (lookup name s.disabled) s

-- The failures of a tool after one more.
unfoldable pub count_failure : ℕ → String → ℕ → BreakerState → BreakerState
unfolding insert
count_failure now name n s = record s {
  failures = insert name n s.failures;
  disabled = (if leb s.max_fails n then insert name (now + s.cooldown) s.disabled else s.disabled);
}

unfoldable pub record_open : ℕ → String → Bool → Option ℕ → BreakerState → BreakerState
unfolding count_failure erase lookup
record_open now name is_error (some expiry) s = s
record_open now name false none s = record s { failures = erase name s.failures }
record_open now name true none s = count_failure now name (or_zero (lookup name s.failures) + 1) s

-- `record`
unfoldable pub record_end : ℕ → String → Bool → BreakerState → BreakerState
unfolding record_open lookup
record_end now name is_error s = record_open now name is_error (lookup name s.disabled) s

-- A hook that is asked before a tool runs, or the event of its end.
pub data Event : Type 0 where
  before : (name : String) → Event
  ended : (name : String) (is_error : Bool) → Event

-- The handlers of the extension; a hook that is asked gives whether the tool may run.
unfoldable pub handle : ℕ → Event → BreakerState → BreakerState × List Bool
unfolding is_disabled record_end
handle now (before name) s = let r = is_disabled now name s in (r.0, not r.1 ∷ [])
handle now (ended name is_error) s = (record_end now name is_error s, [])
