-- ===== src/Extensions/Dedup.antt =====
-- extensions/subagent/dedup.go: the cache of the results of subagents. Times are numbers of nanoseconds; the
-- ticker calls prune at any times.
use piglet.Prelude.{
  ℕ, ◌+◌, String, Bool, not, Option, none, some, List, [], ◌∷◌, ◌++◌, ltb, if◌then◌else◌, filter,
  Assoc, lookup, erase, insert,
}

-- 30 minutes
abbrev pub recent_task_ttl : ℕ
recent_task_ttl = 1800000000000

pub record RecentTask : Type 0 where
  pub result : String
  pub completed_at : ℕ

abbrev pub DedupCache : Type 0
DedupCache = Assoc RecentTask

unfoldable pub is_expired : ℕ → RecentTask → Bool
is_expired now e = ltb (e.completed_at + recent_task_ttl) now

unfoldable pub look : ℕ → String → DedupCache → Option RecentTask → Option String × DedupCache
unfolding is_expired erase
look now key c none = (none, c)
look now key c (some e) = if is_expired now e then (none, erase key c) else (some e.result, c)

-- `lookup`
unfoldable pub lookup_task : ℕ → String → DedupCache → Option String × DedupCache
unfolding look lookup
lookup_task now key c = look now key c (lookup key c)

-- `store`
unfoldable pub store : ℕ → String → String → DedupCache → DedupCache
unfolding insert
store now key result c = insert key (record { result = result; completed_at = now }) c

-- `prune`
unfoldable pub prune : ℕ → DedupCache → DedupCache
unfolding is_expired
prune now c = filter (λ p. not (is_expired now p.1)) c

-- What is done with a cache, and when.
pub data Op : Type 0 where
  look_up : (key : String) → Op
  store_result : (key result : String) → Op
  tick : Op

abbrev pub Timed : Type 0
Timed = ℕ × Op

unfoldable pub perform : ℕ → Op → DedupCache → List (Option String) × DedupCache
unfolding lookup_task store prune
perform now (look_up key) c = let r = lookup_task now key c in (r.0 ∷ [], r.1)
perform now (store_result key result) c = ([], store now key result c)
perform now tick c = ([], prune now c)

-- The answers of the lookups.
unfoldable pub answers : List Timed → DedupCache → List (Option String)
unfolding perform
answers [] c = []
answers ((now, op) ∷ ops) c = let r = perform now op c in r.0 ++ answers ops r.1
