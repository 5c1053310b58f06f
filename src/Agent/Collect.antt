-- ===== src/Agent/Collect.antt =====
-- core/tool_executor.go: the collecting loop keeps each result at the place of its call.
use piglet.Prelude.{
  ℕ, zero, suc, String, ◌≡◌, refl, ap, ◌∙◌, subst, Bool, true, false, Option, none, some, List, [],
  ◌∷◌, map, leb, if◌then◌else◌, get_elem?, set, All,
}
use mathlib.Core.Option.{some-injective, none-ne-some}
use piglet.Core.Types.{ToolCall, ToolResultMessage}
use piglet.Agent.Tools.{
  error_result, Signal, result, tools_done, parent_done, Collected, record_result, drain_rest,
  keep_steering, drain_loop, fill_missing, empty_results,
}

abbrev pub call_ids : List ToolCall → List String
call_ids = map (λ (tc : ToolCall). tc.id)

abbrev pub result_ids : List ToolResultMessage → List String
result_ids = map (λ (r : ToolResultMessage). r.tool_call_id)

-- Each result that is there has the id of the call at its place.
abbrev Fits : List ToolCall → List (Option ToolResultMessage) → Type 0
Fits [] [] = Unit
Fits [] (r ∷ rs) = ⊥
Fits (tc ∷ calls) [] = ⊥
Fits (tc ∷ calls) (none ∷ rs) = Fits calls rs
Fits (tc ∷ calls) (some r ∷ rs) = (r.tool_call_id ≡ tc.id) × Fits calls rs

abbrev pub Belongs : List ToolCall → ℕ → Option ToolResultMessage → Type 0
Belongs calls i none = Unit
Belongs calls i (some r) = (tc : ToolCall) → get_elem? calls i ≡ some tc → r.tool_call_id ≡ tc.id

abbrev pub Sent : List ToolCall → Signal → Type 0
Sent calls (result i r steer) = Belongs calls i r
Sent calls tools_done = Unit
Sent calls parent_done = Unit

later :
    (tc : ToolCall) (calls : List ToolCall) (i : ℕ) (r : Option ToolResultMessage)
    → Belongs (tc ∷ calls) (suc i) r
    → Belongs calls i r
later tc calls i none b = b
later tc calls i (some r) b = b

Fits-set :
    (calls : List ToolCall) (rs : List (Option ToolResultMessage)) (i : ℕ)
    (r : Option ToolResultMessage)
    → Belongs calls i r
    → Fits calls rs
    → Fits calls (set rs i r)
Fits-set [] [] i r b f = f
Fits-set [] (x ∷ rs) i r b f = absurd f
Fits-set (tc ∷ calls) [] i r b f = absurd f
Fits-set (tc ∷ calls) (none ∷ rs) zero none b f = f
Fits-set (tc ∷ calls) (none ∷ rs) zero (some r) b f = (b tc refl, f)
Fits-set (tc ∷ calls) (some x ∷ rs) zero none b f = f.1
Fits-set (tc ∷ calls) (some x ∷ rs) zero (some r) b f = (b tc refl, f.1)
Fits-set (tc ∷ calls) (none ∷ rs) (suc i) r b f = Fits-set calls rs i r (later tc calls i r b) f
Fits-set (tc ∷ calls) (some x ∷ rs) (suc i) r b f =
    (f.0, Fits-set calls rs i r (later tc calls i r b) f.1)

pub Fits-empty : (calls : List ToolCall) → Fits calls (empty_results calls)
Fits-empty [] = tt
Fits-empty (tc ∷ calls) = Fits-empty calls

-- Filling gives one result for each call, with its id, in order.
pub ids-fill_missing :
    (now : ℕ) (calls : List ToolCall) (rs : List (Option ToolResultMessage))
    → Fits calls rs
    → result_ids (fill_missing now calls rs) ≡ call_ids calls
unfolding fill_missing error_result
ids-fill_missing now [] [] f = refl
ids-fill_missing now [] (r ∷ rs) f = absurd f
ids-fill_missing now (tc ∷ calls) [] f = absurd f
ids-fill_missing now (tc ∷ calls) (none ∷ rs) f =
    ap (λ t. tc.id ∷ t) (ids-fill_missing now calls rs f)
ids-fill_missing now (tc ∷ calls) (some r ∷ rs) (e, f) =
    ap (λ t. r.tool_call_id ∷ t) (ids-fill_missing now calls rs f) ∙ ap (λ t. t ∷ call_ids calls) e

-- A guarded return: what holds of both ways out holds of the result.
returned :
    (P : Collected → Type 0) (b : Bool) (c d : Collected) (rest : Option Collected)
    → P c
    → (rest ≡ some d → P d)
    → (if b then some c else rest) ≡ some d
    → P d
returned P true c d rest p q e = subst P (some-injective _ _ e) p
returned P false c d rest p q e = q e

module _ (n : ℕ) (calls : List ToolCall) where
  Fits-drain_rest :
      (signals : List Signal) (c d : Collected)
      → All (Sent calls) signals
      → Fits calls c.results
      → drain_rest n signals c ≡ some d
      → Fits calls d.results
  unfolding drain_rest record_result
  Fits-drain_rest [] c d ok f e =
      returned (λ x. Fits calls x.results) (leb n c.received) c d none f
        (λ x. absurd (none-ne-some _ x)) e
  Fits-drain_rest (result i r steer ∷ signals) c d (b, ok) f e =
      let next = record_result i r c in
      returned (λ x. Fits calls x.results) (leb n c.received) c d (drain_rest n signals next) f
        (Fits-drain_rest signals next d ok (Fits-set calls c.results i r b f)) e
  Fits-drain_rest (parent_done ∷ signals) c d ok f e =
      subst (λ (x : Collected). Fits calls x.results) (some-injective _ _ e) f
  Fits-drain_rest (tools_done ∷ signals) c d (b, ok) f e =
      returned (λ x. Fits calls x.results) (leb n c.received) c d (drain_rest n signals c) f
        (Fits-drain_rest signals c d ok f) e

  pub Fits-drain_loop :
      (signals : List Signal) (c d : Collected)
      → All (Sent calls) signals
      → Fits calls c.results
      → drain_loop n signals c ≡ some d
      → Fits calls d.results
  unfolding drain_loop record_result keep_steering
  Fits-drain_loop [] c d ok f e =
      returned (λ x. Fits calls x.results) (leb n c.received) c d none f
        (λ x. absurd (none-ne-some _ x)) e
  Fits-drain_loop (result i r steer ∷ signals) c d (b, ok) f e =
      let next = keep_steering steer (record_result i r c) in
      returned (λ x. Fits calls x.results) (leb n c.received) c d (drain_loop n signals next) f
        (Fits-drain_loop signals next d ok (Fits-set calls c.results i r b f)) e
  Fits-drain_loop (tools_done ∷ signals) c d (b, ok) f e =
      returned (λ x. Fits calls x.results) (leb n c.received) c d (drain_rest n signals c) f
        (Fits-drain_rest signals c d ok f) e
  Fits-drain_loop (parent_done ∷ signals) c d ok f e =
      returned (λ x. Fits calls x.results) (leb n c.received) c d
        (drain_rest n (parent_done ∷ signals) c) f
        (Fits-drain_rest (parent_done ∷ signals) c d ok f) e
