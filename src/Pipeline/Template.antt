-- ===== src/Pipeline/Template.antt =====
-- extensions/pipeline/template.go: the placeholders of a command. The start time is given as the texts that are
-- written of it, and so is what package json reads in a text.
use Prim.Native.String.{◌++◌}
use piglet.Prelude.{
  ℕ, zero, suc, ◌+◌, ◌-◌, String, Bool, true, false, ◌&&◌, Option, none, some, leb, str_eq,
  if◌then◌else◌, Assoc, lookup,
}
use piglet.Pipeline.Texts.{
  len, has_code, cut_at, cut_prefix, has_suffix, take_text, drop_text, trim_space,
}
use piglet.Pipeline.Types.{Status, status_text}

pub record StepOutput : Type 0 where
  pub stdout : String
  pub status : Status

-- A value of JSON: a text, or what is written of another one, if it can be.
pub data JsonValue : Type 0 where
  text : String → JsonValue
  other : Option String → JsonValue

-- What is outside: the object that `json.Unmarshal` reads in a text.
abbrev pub Unmarshal : Type 0
Unmarshal = String → Option (Assoc JsonValue)

pub record TemplateContext : Type 0 where
  pub params : Assoc String
  pub prev : Option StepOutput
  pub steps : Assoc StepOutput
  pub item : String
  pub has_item : Bool
  pub loop_vars : Assoc String
  pub cwd : String
  pub date : String
  pub timestamp : String

abbrev json_text : Option JsonValue → String
json_text none = ""
json_text (some (text s)) = s
json_text (some (other none)) = ""
json_text (some (other (some s))) = s

abbrev json_field : String → Option (Assoc JsonValue) → String
json_field field none = ""
json_field field (some m) = json_text (lookup field m)

-- `jsonExtract`
unfoldable pub json_extract : Unmarshal → String → String → String
unfolding lookup
json_extract unmarshal s field = json_field field (unmarshal s)

-- What a key stands for: an unknown one for nothing, and two keys let a slice's end be before its start.
pub data Resolved : Type 0 where
  found : String → Resolved
  unknown : Resolved
  panics : Resolved

abbrev or_unknown : Option String → Resolved
or_unknown none = unknown
or_unknown (some v) = found v

abbrev of_prev : (StepOutput → String) → Option StepOutput → Resolved
of_prev f none = unknown
of_prev f (some o) = found (f o)

-- `key[len("step.") : len(key)-len(suffix)]`
unfoldable pub middle : String → String → Option String
unfolding len drop_text take_text
middle key suffix =
    if leb (5 + len suffix) (len key)
    then some (take_text (len key - len suffix - 5) (drop_text 5 key))
    else none

abbrev of_step : (StepOutput → String) → Assoc StepOutput → Option String → Resolved
of_step f steps none = panics
of_step f steps (some name) = of_prev f (lookup name steps)

abbrev or_next : Option String → (String → Resolved) → Resolved → Resolved
or_next none f next = next
or_next (some name) f next = f name

abbrev is_some : Option String → Bool
is_some none = false
is_some (some v) = true

-- The cases of `resolve` from `loop.` on.
unfoldable pub resolve_loop : TemplateContext → String → Resolved
unfolding cut_prefix lookup
resolve_loop tc key =
    or_next (cut_prefix key "loop.") (λ name. or_unknown (lookup name tc.loop_vars))
      (if str_eq key "cwd"
        then found tc.cwd
        else if str_eq key "date"
        then found tc.date
        else if str_eq key "timestamp"
        then found tc.timestamp
        else unknown)

-- The cases from `step.` on.
unfoldable pub resolve_step : TemplateContext → String → Resolved
unfolding cut_prefix has_suffix middle lookup resolve_loop
resolve_step tc key =
    let is_step = is_some (cut_prefix key "step.") in
    if is_step && has_suffix key ".stdout"
    then of_step (λ o. o.stdout) tc.steps (middle key ".stdout")
    else if is_step && has_suffix key ".status"
    then of_step (λ o. status_text o.status) tc.steps (middle key ".status")
    else if str_eq key "item"
    then (if tc.has_item then found tc.item else unknown)
    else resolve_loop tc key

-- The cases from `prev.` on.
unfoldable pub resolve_prev : Unmarshal → TemplateContext → String → Resolved
unfolding cut_prefix trim_space json_extract resolve_step
resolve_prev unmarshal tc key =
    if str_eq key "prev.stdout"
    then of_prev (λ o. o.stdout) tc.prev
    else if str_eq key "prev.lines"
    then of_prev (λ o. trim_space o.stdout) tc.prev
    else if str_eq key "prev.status"
    then of_prev (λ o. status_text o.status) tc.prev
    else or_next (cut_prefix key "prev.json.")
        (λ field. of_prev (λ o. json_extract unmarshal o.stdout field) tc.prev)
        (resolve_step tc key)

-- `resolve`
unfoldable pub resolve : Unmarshal → TemplateContext → String → Resolved
unfolding cut_prefix lookup resolve_prev
resolve unmarshal tc key =
    or_next (cut_prefix key "param.") (λ name. or_unknown (lookup name tc.params))
      (resolve_prev unmarshal tc key)

abbrev pub close : String → Option (String × String) → Option (String × (String × String))
close before none = none
close before (some (key, rest)) = some (before, (key, rest))

abbrev pub then_close : Option (String × String) → Option (String × (String × String))
then_close none = none
then_close (some (before, after)) = close before (cut_at 125 after)

-- The text before the first placeholder, its key and the text after it.
unfoldable pub next_slot : String → Option (String × (String × String))
unfolding cut_at
next_slot s = then_close (cut_at 123 s)

-- A text with its placeholders replaced, if no key panics and the loop has come to its end.
pub data Expanded : Type 0 where
  expanded : String → Expanded
  panicked : Expanded
  unfinished : Expanded

abbrev pub prepend : String → Expanded → Expanded
prepend s (expanded t) = expanded (s ++ t)
prepend s panicked = panicked
prepend s unfinished = unfinished

-- What is written for a placeholder, before the rest.
abbrev pub fill : String → Resolved → Expanded → Expanded
fill key (found v) rest = prepend v rest
fill key unknown rest = prepend ("{" ++ (key ++ "}")) rest
fill key panics rest = panicked

abbrev pub expand_next :
    (resolve : String → Resolved)
    → String
    → Option (String × (String × String))
    → (String → Expanded)
    → Expanded
expand_next res s none go_on = expanded s
expand_next res s (some (before, (key, rest))) go_on =
    prepend before (fill key (res key) (go_on rest))

-- The loop of `Expand`, for as many placeholders as the fuel says at most.
unfoldable pub expand_loop : (String → Resolved) → ℕ → String → Expanded
unfolding next_slot
expand_loop res zero s = unfinished
expand_loop res (suc fuel) s = expand_next res s (next_slot s) (expand_loop res fuel)

-- `Expand`
unfoldable pub expand : Unmarshal → TemplateContext → String → Expanded
unfolding has_code expand_loop len resolve
expand unmarshal tc s =
    if has_code 123 s then expand_loop (resolve unmarshal tc) (suc (len s)) s else expanded s
