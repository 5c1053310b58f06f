-- ===== src/Ext/Supervisor.antt =====
-- ext/external/supervisor.go: the loop that restarts an external extension. A round of the loop is what its
-- first select sees, whether the timer of the backoff fires, and whether the new host starts. Times are seconds.
use piglet.Prelude.{
  ℕ, ◌+◌, ◌*◌, min, Bool, true, false, List, [], ◌∷◌, ◌++◌, ltb, leb, if◌then◌else◌,
}

abbrev pub max_restarts : ℕ
max_restarts = 5

abbrev pub initial_backoff : ℕ
initial_backoff = 1

abbrev pub max_backoff : ℕ
max_backoff = 16

abbrev pub stable_after : ℕ
stable_after = 30

pub data Event : Type 0 where
  -- the host closed after so long
  closed : (uptime : ℕ) → Event
  reload : Event
  -- Stop, or the end of the context
  stopped : Event

pub record Round : Type 0 where
  pub event : Event
  pub timer_fires : Bool
  pub starts : Bool

pub data Note : Type 0 where
  not_restarted restarting reloading reload_failed reloaded : Note

-- Whether there is a host, the counters of `watch`, and what was done: the calls of `restart`, and notices.
pub record Watch : Type 0 where
  pub live : Bool
  pub failures : ℕ
  pub backoff : ℕ
  pub restarts : ℕ
  pub notes : List Note

-- A round that returns, or goes on.
pub data Next : Type 0 where
  done : Watch → Next
  on : Watch → Next

unfoldable pub note : Note → Watch → Watch
note n w = record w { notes = w.notes ++ (n ∷ []) }

-- `restart`
unfoldable pub restart : Bool → Watch → Watch
restart starts w = record w { live = starts; restarts = w.restarts + 1 }

-- A crash, with the counters of the loop.
unfoldable pub crash : ℕ → ℕ → Bool → Bool → Watch → Next
unfolding note restart
crash failures backoff timer_fires starts w =
    let counted = record w { failures = failures + 1; backoff = backoff } in
    let told = note restarting counted in
    if ltb max_restarts (failures + 1)
    then done (note not_restarted counted)
    else if timer_fires
    then on (restart starts (record told { backoff = min (backoff * 2) max_backoff }))
    else done told

-- A reload; with no host there are no counters to reset.
unfoldable pub reload_host : Bool → Watch → Watch
unfolding note restart
reload_host starts w =
    let reset = note reloading (record w { failures = 0; backoff = initial_backoff }) in
    note (if starts then reloaded else reload_failed) (restart starts (if w.live then reset else w))

-- A host that closed, by whether there is one and whether it was stable.
unfoldable pub on_closed : Bool → Bool → Bool → Bool → Watch → Next
unfolding crash
on_closed false stable timer_fires starts w = on w
on_closed true true timer_fires starts w = crash 0 initial_backoff timer_fires starts w
on_closed true false timer_fires starts w = crash w.failures w.backoff timer_fires starts w

-- A round of the loop of `watch`; without a host nothing closes.
unfoldable pub watch_event : Event → Bool → Bool → Watch → Next
unfolding on_closed reload_host
watch_event (closed uptime) timer_fires starts w =
    on_closed w.live (leb stable_after uptime) timer_fires starts w
watch_event reload timer_fires starts w = on (reload_host starts w)
watch_event stopped timer_fires starts w = done w

abbrev pub go_on : Next → (Watch → Watch) → Watch
go_on (done w) rest = w
go_on (on w) rest = rest w

-- `watch`
unfoldable pub watch : List Round → Watch → Watch
unfolding watch_event
watch [] w = w
watch (r ∷ rs) w = go_on (watch_event r.event r.timer_fires r.starts w) (watch rs)

-- After `Start`.
abbrev pub started : Watch
started = record { live = true; failures = 0; backoff = initial_backoff; restarts = 0; notes = [] }
