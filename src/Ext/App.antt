-- ===== src/Ext/App.antt =====
-- ext/app.go, types.go and registry.go: what extensions register. Where a program panics on an empty name the
-- call has no result. An interceptor's hooks may be absent; a context is left out, and an argument map has
-- texts. What the other registrations do is not looked at, only their names and order.
use piglet.Prelude.{
  ℕ, ◌+◌, ◌≡◌, ◌⊎◌, String, Bool, Option, some, List, [], ◌∷◌, ◌++◌, leb, if◌then◌else◌, Assoc,
  insert,
}

abbrev pub Args : Type 0
Args = Assoc String

-- `(allow, modifiedArgs, err)`
pub data Verdict : Type 0 where
  failed : String → Verdict
  blocked : Verdict
  allowed : Option Args → Verdict

pub record Interceptor : Type 0 where
  pub name : String
  pub priority : ℕ
  pub before : Option (String → Args → Verdict)
  -- none for an error
  pub after : Option (String → String → Option String)
  pub preview : Option (String → Args → String)

pub record ToolResult : Type 0 where
  pub text : String
  pub details : String

-- A `*core.ToolResult`, which may be nil, and an error.
pub data Outcome : Type 0 where
  returned : Option ToolResult → Outcome
  error : Option ToolResult → String → Outcome

pub record ToolDef : Type 0 where
  pub name : String
  pub execute : Args → Outcome

-- An event handler, a message hook, an input transformer, or a prompt section.
pub record Hook : Type 0 where
  pub name : String
  pub order : ℕ

pub record ExtInfo : Type 0 where
  pub name : String
  pub tools : List String
  pub commands : List String
  pub shortcuts : List String
  pub interceptors : List String
  pub event_handlers : List String
  pub message_hooks : List String
  pub input_transformers : List String
  pub prompt_sections : List String
  -- "" if none
  pub compactor : String
  pub stream_providers : List String

pub record App : Type 0 where
  pub tools : Assoc ToolDef
  pub commands : Assoc String
  pub shortcuts : Assoc String
  pub interceptors : List Interceptor
  pub event_handlers : List Hook
  pub message_hooks : List Hook
  pub input_transformers : List Hook
  pub prompt_sections : List Hook
  pub compactor : Option String
  pub stream_providers : Assoc String
  pub ext_infos : List ExtInfo

-- There is one in the list.
abbrev pub Has {ℓ} : {A : Type ℓ} → (A → Type 0) → List A → Type 0
Has P [] = ⊥
Has P (x ∷ xs) = P x ⊎ Has P xs

abbrev pub count {ℓ} : {A : Type ℓ} → (A → Bool) → List A → ℕ
count p [] = 0
count p (x ∷ xs) = (if p x then 1 else 0) + count p xs

-- `slices.SortFunc`, which is not stable: what it returns has the same elements, as often.
pub record Sorter : Type 1 where
  pub sort : (A : Type 0) → (A → A → Bool) → List A → List A
  pub sort_has :
      (A : Type 0) (le : A → A → Bool) (P : A → Type 0) (l : List A) → Has P l → Has P (sort A le l)
  pub sort_count :
      (A : Type 0) (le : A → A → Bool) (p : A → Bool) (l : List A)
      → count p (sort A le l) ≡ count p l

-- `RegisterTool`
unfoldable pub register_tool : ToolDef → App → App
unfolding insert
register_tool t a = record a { tools = insert t.name t a.tools }

-- `RegisterCommand`
unfoldable pub register_command : String → App → App
unfolding insert
register_command c a = record a { commands = insert c c a.commands }

-- `RegisterShortcut`
unfoldable pub register_shortcut : String → App → App
unfolding insert
register_shortcut k a = record a { shortcuts = insert k k a.shortcuts }

-- `RegisterCompactor`
unfoldable pub register_compactor : String → App → App
register_compactor c a = record a { compactor = some c }

-- `RegisterStreamProvider`
unfoldable pub register_stream_provider : String → App → App
unfolding insert
register_stream_provider api a = record a { stream_providers = insert api api a.stream_providers }

module _ (s : Sorter) where
  open s use {sort}

  -- `RegisterInterceptor`: the highest priority first.
  unfoldable pub register_interceptor : Interceptor → App → App
  register_interceptor i a = record a {
    interceptors =
        sort Interceptor (λ (x y : Interceptor). leb y.priority x.priority)
          (a.interceptors ++ (i ∷ []));
  }

  -- The lowest order first.
  unfoldable pub add_hook : Hook → List Hook → List Hook
  add_hook h hooks = sort Hook (λ (x y : Hook). leb x.order y.order) (hooks ++ (h ∷ []))

  -- `RegisterEventHandler`
  unfoldable pub register_event_handler : Hook → App → App
  unfolding add_hook
  register_event_handler h a = record a { event_handlers = add_hook h a.event_handlers }

  -- `RegisterMessageHook`
  unfoldable pub register_message_hook : Hook → App → App
  unfolding add_hook
  register_message_hook h a = record a { message_hooks = add_hook h a.message_hooks }

  -- `RegisterInputTransformer`
  unfoldable pub register_input_transformer : Hook → App → App
  unfolding add_hook
  register_input_transformer h a = record a { input_transformers = add_hook h a.input_transformers }

  -- `RegisterPromptSection`
  unfoldable pub register_prompt_section : Hook → App → App
  unfolding add_hook
  register_prompt_section h a = record a { prompt_sections = add_hook h a.prompt_sections }
