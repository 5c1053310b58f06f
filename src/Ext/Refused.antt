-- ===== src/Ext/Refused.antt =====
-- ext/registry.go and ext/interceptor.go: an interceptor that refuses a tool, among others.
use piglet.Prelude.{
  ◌≡◌, refl, sym, ap, ◌∙◌, subst, ◌⊎◌, inl, inr, String, Option, none, some, List, [], ◌∷◌, ◌++◌,
  Option-cases, lookup,
}
use mathlib.Core.Option.{none-ne-some, some-injective}
use piglet.Ext.App.{Args, Interceptor, Outcome, ToolDef, App, Has, Sorter, register_interceptor}
use piglet.Ext.Interceptors.{Call, wrap_with_interceptors, call_tool}
use piglet.Ext.Chain.{step, passes, executions, Ran, wrap_with_interceptors-Ran}

-- An interceptor that lets nothing by.
abbrev pub Refuses : String → Interceptor → Type 0
Refuses tool ic = (args : Args) → step ic.before tool args ≡ none

passes-refused :
    (ics : List Interceptor) (tool : String) (args : Args)
    → Has (Refuses tool) ics
    → passes ics tool args ≡ none
unfolding passes
passes-refused [] tool args h = absurd h
passes-refused (ic ∷ ics) tool args (inl refuses) = rw (refuses args)
passes-refused (ic ∷ ics) tool args (inr later) = elim (Option-cases (step ic.before tool args)) [
  | inl refused ↦ rw refused
  | inr (a, let_on) ↦ rw let_on (passes-refused ics tool a later)
]

-- Interceptors registered one after another.
abbrev pub register_interceptors : Sorter → List Interceptor → App → App
register_interceptors s [] a = a
register_interceptors s (ic ∷ ics) a = register_interceptors s ics (register_interceptor s ic a)

Has-append {ℓ} :
    {A : Type ℓ} (P : A → Type 0) (xs ys : List A) → Has P xs ⊎ Has P ys → Has P (xs ++ ys)
Has-append P [] ys (inl h) = absurd h
Has-append P [] ys (inr h) = h
Has-append P (x ∷ xs) ys (inl (inl p)) = inl p
Has-append P (x ∷ xs) ys (inl (inr h)) = inr (Has-append P xs ys (inl h))
Has-append P (x ∷ xs) ys (inr h) = inr (Has-append P xs ys (inr h))

register_interceptor-Has :
    (s : Sorter) (P : Interceptor → Type 0) (ic : Interceptor) (a : App)
    → Has P a.interceptors ⊎ P ic
    → Has P (register_interceptor s ic a).interceptors
unfolding register_interceptor
register_interceptor-Has s P ic a (inl h) =
    s.sort_has Interceptor _ P _ (Has-append P a.interceptors (ic ∷ []) (inl h))
register_interceptor-Has s P ic a (inr p) =
    s.sort_has Interceptor _ P _ (Has-append P a.interceptors (ic ∷ []) (inr (inl p)))

register_interceptors-Has :
    (s : Sorter) (P : Interceptor → Type 0) (ics : List Interceptor) (a : App)
    → Has P a.interceptors ⊎ Has P ics
    → Has P (register_interceptors s ics a).interceptors
register_interceptors-Has s P [] a (inl h) = h
register_interceptors-Has s P [] a (inr h) = absurd h
register_interceptors-Has s P (ic ∷ ics) a (inl h) =
    register_interceptors-Has s P ics (register_interceptor s ic a)
      (inl (register_interceptor-Has s P ic a (inl h)))
register_interceptors-Has s P (ic ∷ ics) a (inr (inl p)) =
    register_interceptors-Has s P ics (register_interceptor s ic a)
      (inl (register_interceptor-Has s P ic a (inr p)))
register_interceptors-Has s P (ic ∷ ics) a (inr (inr h)) =
    register_interceptors-Has s P ics (register_interceptor s ic a) (inr h)

register_interceptors-tools :
    (s : Sorter) (ics : List Interceptor) (a : App)
    → (register_interceptors s ics a).tools ≡ a.tools
unfolding register_interceptor
register_interceptors-tools s [] a = refl
register_interceptors-tools s (ic ∷ ics) a =
    register_interceptors-tools s ics (register_interceptor s ic a)

Ran-refused :
    (ics : List Interceptor) (tool : String) (execute : Args → Outcome) (args : Option Args)
    (r : Outcome × List Call)
    → args ≡ none
    → Ran ics tool execute args r
    → executions r.1 ≡ []
Ran-refused ics tool execute none r e h = h
Ran-refused ics tool execute (some args) r e h = absurd (none-ne-some args (sym e))

-- When an interceptor that lets no call of a tool by has been registered, of whatever priority and in whatever
-- order with others, then a call of the tool that FindTool gives executes nothing.
pub call_tool-refused :
    (s : Sorter) (ics : List Interceptor) (a : App) (name : String) (td : ToolDef) (args : Args)
    (r : Outcome × List Call)
    → lookup name a.tools ≡ some td
    → Has (Refuses td.name) ics
    → call_tool name args (register_interceptors s ics a) ≡ some r
    → executions r.1 ≡ []
unfolding call_tool
call_tool-refused s ics a name td args r found refuses called =
    let all = (register_interceptors s ics a).interceptors in
    let same_tools = ap (lookup name) (register_interceptors-tools s ics a) ∙ found in
    let e =
      some-injective (wrap_with_interceptors all td.name td.execute args) r
        (rw same_tools at called) in
    Ran-refused all td.name td.execute (passes all td.name args) r
      (passes-refused all td.name args
        (register_interceptors-Has s (Refuses td.name) ics a (inr refuses)))
      (subst (Ran all td.name td.execute (passes all td.name args)) e
        (wrap_with_interceptors-Ran all td.name td.execute args))
