-- ===== src/Breaker/Latch.antt =====
-- extensions/toolbreaker/: when a tool is disabled, and that it stays so.
use piglet.Prelude.{
  ℕ, ◌+◌, String, ◌≡◌, refl, sym, ap, ◌∙◌, subst, inl, inr, Bool, true, false, not, ◌&&◌, ◌||◌,
  Option, none, some, List, [], ◌∷◌, arith, str_eq, eq_refl, ltb, leb, if◌then◌else◌, Bool-cases,
  str_eq→eq, filter, lookup, lookup-erase, lookup-insert,
}
use piglet.Breaker.Tracker.{
  Tracker, or_zero, count, record_error, record_success, is_disabled, ToolEnd, handle, handle_all,
}

-- The count that an event leaves.
abbrev next_count : ℕ → String → ToolEnd → ℕ → ℕ
next_count limit name e n =
    if not (str_eq e.tool_name name) || (str_eq name "" || (ltb 0 limit && leb limit n))
    then n
    else if e.is_error
    then n + 1
    else 0

or_zero_if :
    (b : Bool) (x y : Option ℕ)
    → or_zero (if b then x else y) ≡ (if b then or_zero x else or_zero y)
or_zero_if true x y = refl
or_zero_if false x y = refl

count-record_error :
    (name other : String) (t : Tracker)
    → count other (record_error name t)
      ≡ (if str_eq name other then count name t + 1 else count other t)
unfolding count record_error
count-record_error name other t =
    ap or_zero (lookup-insert name other (or_zero (lookup name t) + 1) t)
    ∙ or_zero_if (str_eq name other) (some (or_zero (lookup name t) + 1)) (lookup other t)

count-record_success :
    (name other : String) (t : Tracker)
    → count other (record_success name t) ≡ (if str_eq name other then 0 else count other t)
unfolding count record_success
count-record_success name other t =
    ap or_zero (lookup-erase name other t) ∙ or_zero_if (str_eq name other) none (lookup other t)

count-own :
    (limit : ℕ) (e : ToolEnd) (t : Tracker)
    → count e.tool_name (handle limit e t) ≡ next_count limit e.tool_name e (count e.tool_name t)
unfolding handle is_disabled
count-own limit e t = rw (eq_refl e.tool_name) (
    ground (
      arith,
      count-record_error e.tool_name e.tool_name t,
      count-record_success e.tool_name e.tool_name t,
      eq_refl e.tool_name,
    ))

count-other :
    (limit : ℕ) (name : String) (e : ToolEnd) (t : Tracker)
    → str_eq e.tool_name name ≡ false
    → count name (handle limit e t) ≡ count name t
unfolding handle is_disabled
count-other limit name e t no_match =
    ground (arith, count-record_error e.tool_name name t, count-record_success e.tool_name name t)

count-handle :
    (limit : ℕ) (name : String) (e : ToolEnd) (t : Tracker)
    → count name (handle limit e t) ≡ next_count limit name e (count name t)
count-handle limit name e t = elim (Bool-cases (str_eq e.tool_name name)) [
  | inl same ↦
      subst (λ n. count n (handle limit e t) ≡ next_count limit n e (count n t))
        (str_eq→eq e.tool_name name same) (count-own limit e t)
  | inr differs ↦ rw differs (count-other limit name e t differs)
]

latch :
    (limit : ℕ) (name : String) (e : ToolEnd) (t : Tracker)
    → is_disabled name limit t ≡ true
    → is_disabled name limit (handle limit e t) ≡ true
unfolding is_disabled
latch limit name e t h = ground (arith, count-handle limit name e t)

-- The events of one tool.
abbrev pub events_of : String → List ToolEnd → List ToolEnd
events_of name es = filter (λ (e : ToolEnd). str_eq e.tool_name name) es

-- A tool's count depends on its own events alone: those of other tools, between them or not, neither add
-- to it nor reset it.
pub count-events_of :
    (limit : ℕ) (name : String) (es : List ToolEnd) (t u : Tracker)
    → count name t ≡ count name u
    → count name (handle_all limit es t) ≡ count name (handle_all limit (events_of name es) u)
unfolding handle_all
count-events_of limit name [] t u h = h
count-events_of limit name (e ∷ es) t u h = elim (Bool-cases (str_eq e.tool_name name)) [
  | inl own ↦ rw own (
      count-events_of limit name es (handle limit e t) (handle limit e u) (
        count-handle limit name e t
        ∙ (ap (next_count limit name e) h ∙ sym (count-handle limit name e u))))
  | inr differs ↦
      rw differs (
        count-events_of limit name es (handle limit e t) u (count-other limit name e t differs ∙ h))
]

-- A tool that is disabled stays so, whatever tools end and however: nothing that the extension does on an
-- event lets it run again.
pub handle_all-latches :
    (limit : ℕ) (name : String) (es : List ToolEnd) (t : Tracker)
    → is_disabled name limit t ≡ true
    → is_disabled name limit (handle_all limit es t) ≡ true
unfolding handle_all
handle_all-latches limit name [] t h = h
handle_all-latches limit name (e ∷ es) t h =
    handle_all-latches limit name es (handle limit e t) (latch limit name e t h)
