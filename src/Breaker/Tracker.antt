-- ===== src/Breaker/Tracker.antt =====
-- extensions/toolbreaker/tracker.go and register.go: consecutive failures per tool. A limit of 0 or less
-- is 0.
use piglet.Prelude.{
  ℕ, ◌+◌, String, Bool, true, not, ◌&&◌, ◌||◌, Option, none, some, List, [], ◌∷◌, str_eq, ltb, leb,
  if◌then◌else◌, Assoc, lookup, erase, insert,
}

abbrev pub Tracker : Type 0
Tracker = Assoc ℕ

abbrev pub or_zero : Option ℕ → ℕ
or_zero none = 0
or_zero (some n) = n

-- `Count`
unfoldable pub count : String → Tracker → ℕ
unfolding lookup
count name t = or_zero (lookup name t)

-- `RecordError`, without the count that it returns.
unfoldable pub record_error : String → Tracker → Tracker
unfolding insert count
record_error name t = insert name (count name t + 1) t

-- `RecordSuccess`
unfoldable pub record_success : String → Tracker → Tracker
unfolding erase
record_success name t = erase name t

-- `IsDisabled`
unfoldable pub is_disabled : String → ℕ → Tracker → Bool
is_disabled name limit t = ltb 0 limit && leb limit (count name t)

-- The end of a tool, as the event handler gets it.
pub record ToolEnd : Type 0 where
  pub tool_name : String
  pub is_error : Bool

-- The handler of EventToolEnd.
unfoldable pub handle : ℕ → ToolEnd → Tracker → Tracker
unfolding is_disabled
handle limit e t =
    if str_eq e.tool_name ""
    then t
    else if is_disabled e.tool_name limit t
    then t
    else if e.is_error
    then record_error e.tool_name t
    else record_success e.tool_name t

-- The hook before a tool: whether it may run.
unfoldable pub before : ℕ → String → Tracker → Bool
before limit name t = if str_eq name "" || leb limit 0 then true else not (is_disabled name limit t)

-- Events in their order.
unfoldable pub handle_all : ℕ → List ToolEnd → Tracker → Tracker
unfolding handle
handle_all limit [] t = t
handle_all limit (e ∷ es) t = handle_all limit es (handle limit e t)
