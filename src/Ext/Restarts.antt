-- ===== src/Ext/Restarts.antt =====
-- ext/external/supervisor.go: how often and how fast an extension is restarted.
use piglet.Prelude.{
  ℕ, zero, suc, ◌+◌, ◌-◌, ◌*◌, ◌≤◌, ◌≡◌, refl, inl, inr, min, Bool, true, false, List, [], ◌∷◌,
  arith, ltb, leb, if◌then◌else◌, Bool-cases,
}
use piglet.Ext.Supervisor.{
  Event, closed, reload, stopped, Round, Watch, Next, done, on, note, restart, crash, on_closed,
  reload_host, watch_event, go_on, watch, started,
}

-- The wait after so many failures: doubled each time, up to 16 seconds.
pub delay : ℕ → ℕ
delay zero = 1
delay (suc n) = min (delay n * 2) 16

-- What a round adds to the number of restarts that are allowed.
abbrev allowance : Event → ℕ
allowance (closed uptime) = if leb 30 uptime then 5 else 0
allowance reload = 6
allowance stopped = 0

abbrev pub allowances : List Round → ℕ
allowances [] = 0
allowances (r ∷ rs) = allowance r.event + allowances rs

abbrev watched : Next → Watch
watched (done w) = w
watched (on w) = w

-- The failures and the wait agree, within the limits.
pub record IsPaced (w : Watch) : Type 0 where
  pub failures_le : w.failures ≤ 5
  pub backoff_lem : w.backoff ≡ delay w.failures

delay_zero : 1 ≡ delay 0
unfolding delay
delay_zero = refl

delay-step : (n : ℕ) → min (delay n * 2) 16 ≡ delay (n + 1)
unfolding delay
delay-step n = ground arith

-- What a round that goes on keeps, and what one that ends leaves.
abbrev Keeps : ℕ → Watch → Next → Type 0
Keeps extra w (done w') = w'.restarts ≤ w.restarts
Keeps extra w (on w') =
    IsPaced w' × (w'.restarts + (5 - w'.failures) ≤ w.restarts + (5 - w.failures) + extra)

crash-Keeps :
    (failures backoff extra : ℕ) (timer_fires starts : Bool) (w : Watch)
    → backoff ≡ delay failures
    → failures ≤ 5
    → 5 - failures ≤ 5 - w.failures + extra
    → Keeps extra w (crash failures backoff timer_fires starts w)
unfolding crash note restart
crash-Keeps failures backoff extra timer_fires starts w e low room =
    elim (Bool-cases (ltb 5 (failures + 1))) [
      | inl over ↦ rw over (omega arith)
      | inr under ↦ elim (Bool-cases timer_fires) [
        | inl fires ↦
            rw (under, fires)
              (
                record {
                  failures_le = ground arith;
                  backoff_lem = ground (arith, delay-step failures);
                },
                ground arith,
              )
        | inr ends ↦ rw (under, ends) (omega arith)
      ]
    ]

reload_host-Keeps : (starts : Bool) (w : Watch) → IsPaced w → Keeps 6 w (on (reload_host starts w))
unfolding reload_host note restart delay
reload_host-Keeps starts w p = elim (Bool-cases w.live) [
  | inl live ↦ (ground arith, ground arith)
  | inr dead ↦ (ground arith, ground arith)
]

on_closed-Keeps :
    (live stable timer_fires starts : Bool) (w : Watch)
    → IsPaced w
    → Keeps (if stable then 5 else 0) w (on_closed live stable timer_fires starts w)
unfolding on_closed
on_closed-Keeps false stable timer_fires starts w p = (p, omega arith)
on_closed-Keeps true true timer_fires starts w p =
    crash-Keeps 0 1 5 timer_fires starts w delay_zero (omega arith) (omega arith)
on_closed-Keeps true false timer_fires starts w p =
    crash-Keeps w.failures w.backoff 0 timer_fires starts w p.backoff_lem p.failures_le
      (omega arith)

watch_event-Keeps :
    (e : Event) (timer_fires starts : Bool) (w : Watch)
    → IsPaced w
    → Keeps (allowance e) w (watch_event e timer_fires starts w)
unfolding watch_event
watch_event-Keeps (closed uptime) timer_fires starts w p =
    on_closed-Keeps w.live (leb 30 uptime) timer_fires starts w p
watch_event-Keeps reload timer_fires starts w p = reload_host-Keeps starts w p
watch_event-Keeps stopped timer_fires starts w p = omega arith

go_on-restarts :
    (n : Next) (rest : Watch → Watch) (w : Watch) (extra more : ℕ)
    → Keeps extra w n
    → ((w' : Watch) → IsPaced w' → (rest w').restarts ≤ w'.restarts + (5 - w'.failures) + more)
    → (go_on n rest).restarts ≤ w.restarts + (5 - w.failures) + (extra + more)
go_on-restarts (done w') rest w extra more k h = omega arith
go_on-restarts (on w') rest w extra more k h = omega (arith, h w' k.0)

watch-restarts :
    (rs : List Round) (w : Watch)
    → IsPaced w
    → (watch rs w).restarts ≤ w.restarts + (5 - w.failures) + allowances rs
unfolding watch
watch-restarts [] w p = omega arith
watch-restarts (r ∷ rs) w p =
    go_on-restarts (watch_event r.event r.timer_fires r.starts w) (watch rs) w (allowance r.event)
      (allowances rs) (watch_event-Keeps r.event r.timer_fires r.starts w p) (watch-restarts rs)

-- A supervisor restarts its extension at most five times, and five times more for each crash after 30 seconds or
-- more of work and six times more for each reload: crashes alone that follow one another sooner
-- come to an end.
pub watch-started : (rs : List Round) → (watch rs started).restarts ≤ 5 + allowances rs
watch-started rs = omega (
  arith,
  watch-restarts rs started (record { failures_le = omega arith; backoff_lem = delay_zero }),
)
