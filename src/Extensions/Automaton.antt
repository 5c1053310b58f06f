-- ===== src/Extensions/Automaton.antt =====
-- extensions/safeguard/breaker.go: one small automaton for each tool.
use piglet.Prelude.{
  ℕ, ◌+◌, ◌≡◌, refl, ap, ◌∙◌, subst, inl, inr, String, Bool, true, false, Option, none, some, List,
  [], ◌∷◌, ◌++◌, arith, str_eq, eq_refl, str_eq→eq, ltb, leb, if◌then◌else◌, Bool-cases, lookup,
  lookup-erase, lookup-insert,
}
use piglet.Extensions.Safeguard.{
  BreakerState, new_breaker_state, or_zero, ask_expiry, is_disabled, count_failure, record_open,
  record_end, Event, before, ended, handle,
}

-- A tool that may run, with its failures in a row, or that waits until a time.
pub data Mode : Type 0 where
  closed : ℕ → Mode
  open_until : ℕ → Mode

abbrev mode : Option ℕ → Option ℕ → Mode
mode none failures = closed (or_zero failures)
mode (some expiry) failures = open_until expiry

-- The mode of a tool in the breaker's maps.
pub mode_of : String → BreakerState → Mode
unfolding lookup
mode_of name s = mode (lookup name s.disabled) (lookup name s.failures)

-- What is asked of a tool at a time: its hook, or its end with an error or without.
pub data Signal : Type 0 where
  asked : Signal
  end : Bool → Signal

-- The specification.
pub next_mode : (max_fails cooldown now : ℕ) → Signal → Mode → Mode
next_mode max_fails cooldown now asked (closed n) = closed n
next_mode max_fails cooldown now asked (open_until t) = if ltb t now then closed 0 else open_until t
next_mode max_fails cooldown now (end false) (closed n) = closed 0
next_mode max_fails cooldown now (end true) (closed n) =
    if leb max_fails (n + 1) then open_until (now + cooldown) else closed (n + 1)
next_mode max_fails cooldown now (end is_error) (open_until t) = open_until t

pub allows : ℕ → Mode → Bool
allows now (closed n) = true
allows now (open_until t) = ltb t now

abbrev name_of : Event → String
name_of (before name) = name
name_of (ended name is_error) = name

abbrev signal_of : Event → Signal
signal_of (before name) = asked
signal_of (ended name is_error) = end is_error

mode_of-handle-other :
    (now : ℕ) (e : Event) (s : BreakerState) (other : String)
    → str_eq (name_of e) other ≡ false
    → mode_of other (handle now e s).0 ≡ mode_of other s
unfolding mode_of handle is_disabled ask_expiry record_end record_open count_failure
mode_of-handle-other now (before name) s other h =
    ground (arith, lookup-erase name other s.disabled, lookup-erase name other s.failures)
mode_of-handle-other now (ended name is_error) s other h =
    let n = or_zero (lookup name s.failures) + 1 in
    ground (
      arith,
      lookup-erase name other s.failures,
      lookup-insert name other n s.failures,
      lookup-insert name other (now + s.cooldown) s.disabled,
    )

mode_of-handle-own :
    (now : ℕ) (e : Event) (s : BreakerState)
    → mode_of (name_of e) (handle now e s).0
      ≡ next_mode s.max_fails s.cooldown now (signal_of e) (mode_of (name_of e) s)
unfolding mode_of handle is_disabled ask_expiry record_end record_open count_failure next_mode
mode_of-handle-own now (before name) s =
    ground
      (arith, lookup-erase name name s.disabled, lookup-erase name name s.failures, eq_refl name)
mode_of-handle-own now (ended name is_error) s =
    let n = or_zero (lookup name s.failures) + 1 in
    ground (
      arith,
      lookup-erase name name s.failures,
      lookup-insert name name n s.failures,
      lookup-insert name name (now + s.cooldown) s.disabled,
      eq_refl name,
    )

handle-allows :
    (now : ℕ) (name : String) (s : BreakerState)
    → (handle now (before name) s).1 ≡ allows now (mode_of name s) ∷ []
unfolding mode_of handle is_disabled ask_expiry allows
handle-allows now name s = ground arith

handle-limits :
    (now : ℕ) (e : Event) (s : BreakerState)
    → ((handle now e s).0.max_fails ≡ s.max_fails) × ((handle now e s).0.cooldown ≡ s.cooldown)
unfolding handle is_disabled ask_expiry record_end record_open count_failure
handle-limits now (before name) s = ground arith
handle-limits now (ended name is_error) s = ground arith

-- What the hooks answer of one tool, in a run of all the tools.
unfoldable pub answers_of : String → List (ℕ × Event) → BreakerState → List Bool
answers_of name [] s = []
answers_of name ((now, e) ∷ es) s =
    let r = handle now e s in
    (if str_eq (name_of e) name then r.1 else []) ++ answers_of name es r.0

-- The signals of one tool.
pub signals_of : String → List (ℕ × Event) → List (ℕ × Signal)
signals_of name [] = []
signals_of name ((now, e) ∷ es) =
    let rest = signals_of name es in
    if str_eq (name_of e) name then (now, signal_of e) ∷ rest else rest

abbrev answer : ℕ → Signal → Mode → List Bool
answer now asked m = allows now m ∷ []
answer now (end is_error) m = []

-- What the automaton answers.
pub spec_answers : (max_fails cooldown : ℕ) → List (ℕ × Signal) → Mode → List Bool
spec_answers max_fails cooldown [] m = []
spec_answers max_fails cooldown ((now, x) ∷ xs) m =
    answer now x m ++ spec_answers max_fails cooldown xs (next_mode max_fails cooldown now x m)

answer-handle :
    (now : ℕ) (e : Event) (s : BreakerState)
    → (handle now e s).1 ≡ answer now (signal_of e) (mode_of (name_of e) s)
unfolding handle
answer-handle now (before name) s = handle-allows now name s
answer-handle now (ended name is_error) s = refl

answers_of-spec_answers :
    (name : String) (es : List (ℕ × Event)) (s : BreakerState)
    → answers_of name es s
      ≡ spec_answers s.max_fails s.cooldown (signals_of name es) (mode_of name s)
unfolding answers_of signals_of spec_answers
answers_of-spec_answers name [] s = refl
answers_of-spec_answers name ((now, e) ∷ es) s =
    let after = (handle now e s).0 in
    let limits = handle-limits now e s in
    let rest = answers_of-spec_answers name es after in
    elim (Bool-cases (str_eq (name_of e) name)) [
      | inl own ↦
          let same = str_eq→eq (name_of e) name own in
          let moved =
            subst
              (λ n.
                mode_of n after ≡ next_mode s.max_fails s.cooldown now (signal_of e) (mode_of n s))
              same (mode_of-handle-own now e s) in
          let said =
            subst (λ n. (handle now e s).1 ≡ answer now (signal_of e) (mode_of n s)) same
              (answer-handle now e s) in
          rw own (
            ap (λ t. t ++ answers_of name es after) said
            ∙ ap (λ t. answer now (signal_of e) (mode_of name s) ++ t)
                (rest ∙ rw (limits.0, limits.1, moved)))
      | inr differs ↦
          rw differs (rest ∙ rw (limits.0, limits.1, mode_of-handle-other now e s name differs))
    ]

-- Whatever tools are asked for and end, in whatever order and at whatever times, what the breaker answers of a
-- tool is what an automaton of that tool alone answers: it lets the tool run until it has failed
-- as often in a row as the limit says, then not until the cooldown has passed, and then again
-- with no failures counted; what ends while it waits is not counted.
pub answers_of_refine :
    (max_fails cooldown : ℕ) (name : String) (es : List (ℕ × Event))
    → answers_of name es (new_breaker_state max_fails cooldown)
      ≡ spec_answers max_fails cooldown (signals_of name es) (closed 0)
unfolding mode_of lookup
answers_of_refine max_fails cooldown name es =
    answers_of-spec_answers name es (new_breaker_state max_fails cooldown)
