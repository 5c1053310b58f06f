-- ===== src/Ext/Bridged.antt =====
-- ext/external/bridge.go: what an app is after the registrations of a host, field by field.
use piglet.Prelude.{
  leb, ◌≡◌, refl, sym, ◌∙◌, String, Option, none, some, List, [], ◌∷◌, ◌++◌, insert,
}
use piglet.Ext.App.{
  Interceptor, ToolDef, Hook, App, Sorter, add_hook, register_tool, register_command,
  register_shortcut, register_interceptor, register_event_handler, register_message_hook,
  register_input_transformer, register_prompt_section, register_compactor, register_stream_provider,
}
use piglet.Ext.Bridge.{Host, each, info_of, register_ext_info, bridge_compactor, bridge}

unfoldable pub fold : {A F : Type 0} → (A → F → F) → List A → F → F
fold f [] v = v
fold f (x ∷ xs) v = fold f xs (f x v)

-- A loop that changes one field.
each-set :
    {A F : Type 0} (register : A → App → App) (get : App → F) (set : App → F → App) (f : A → F → F)
    (xs : List A) (a : App)
    → ((x : A) (b : App) → register x b ≡ set b (f x (get b)))
    → ((b : App) (v : F) → get (set b v) ≡ v)
    → ((b : App) (v w : F) → set (set b v) w ≡ set b w)
    → ((b : App) → set b (get b) ≡ b)
    → each register xs a ≡ set a (fold f xs (get a))
unfolding each fold
each-set register get set f [] a law get_set set_set set_get = sym (set_get a)
each-set register get set f (x ∷ xs) a law get_set set_set set_get =
    each-set register get set f xs (register x a) law get_set set_set set_get
    ∙ rw (law x a, get_set a (f x (get a))) (set_set a (f x (get a)) _)

abbrev pub or_old : Option String → Option String → Option String
or_old none old = old
or_old (some c) old = some c

module _ (s : Sorter) where
  abbrev pub add_hooks : List Hook → List Hook → List Hook
  add_hooks = fold (add_hook s)

  unfoldable pub add_interceptor : Interceptor → List Interceptor → List Interceptor
  add_interceptor i is =
      s.sort Interceptor (λ (x y : Interceptor). leb y.priority x.priority) (is ++ (i ∷ []))

  unfoldable pub bridged : Host → App → App
  unfolding fold info_of insert add_interceptor
  bridged h a = record {
    tools = fold (λ (t : ToolDef). insert t.name t) h.tools a.tools;
    commands = fold (λ (c : String). insert c c) h.commands a.commands;
    shortcuts = fold (λ (k : String). insert k k) h.shortcuts a.shortcuts;
    interceptors = fold add_interceptor h.interceptors a.interceptors;
    event_handlers = add_hooks h.event_handlers a.event_handlers;
    message_hooks = add_hooks h.message_hooks a.message_hooks;
    input_transformers = add_hooks h.input_transformers a.input_transformers;
    prompt_sections = add_hooks h.prompt_sections a.prompt_sections;
    compactor = or_old h.compactor a.compactor;
    stream_providers = fold (λ (p : String). insert p p) h.providers a.stream_providers;
    ext_infos = a.ext_infos ++ (info_of h ∷ []);
  }

  each-register_tool :
      (xs : List ToolDef) (a : App)
      → each register_tool xs a
        ≡ record a { tools = fold (λ (t : ToolDef). insert t.name t) xs a.tools }
  unfolding register_tool
  each-register_tool xs a =
      each-set register_tool (λ b. b.tools) (λ b v. record b { tools = v })
        (λ (t : ToolDef). insert t.name t) xs a (λ x b. refl) (λ b v. refl) (λ b v w. refl)
        (λ b. refl)

  each-register_command :
      (xs : List String) (a : App)
      → each register_command xs a
        ≡ record a { commands = fold (λ (c : String). insert c c) xs a.commands }
  unfolding register_command
  each-register_command xs a =
      each-set register_command (λ b. b.commands) (λ b v. record b { commands = v })
        (λ (c : String). insert c c) xs a (λ x b. refl) (λ b v. refl) (λ b v w. refl) (λ b. refl)

  each-register_shortcut :
      (xs : List String) (a : App)
      → each register_shortcut xs a
        ≡ record a { shortcuts = fold (λ (k : String). insert k k) xs a.shortcuts }
  unfolding register_shortcut
  each-register_shortcut xs a =
      each-set register_shortcut (λ b. b.shortcuts) (λ b v. record b { shortcuts = v })
        (λ (k : String). insert k k) xs a (λ x b. refl) (λ b v. refl) (λ b v w. refl) (λ b. refl)

  each-register_stream_provider :
      (xs : List String) (a : App)
      → each register_stream_provider xs a
        ≡ record a { stream_providers = fold (λ (p : String). insert p p) xs a.stream_providers }
  unfolding register_stream_provider
  each-register_stream_provider xs a =
      each-set register_stream_provider (λ b. b.stream_providers)
        (λ b v. record b { stream_providers = v }) (λ (p : String). insert p p) xs a (λ x b. refl)
        (λ b v. refl) (λ b v w. refl) (λ b. refl)

  each-register_interceptor :
      (xs : List Interceptor) (a : App)
      → each (register_interceptor s) xs a
        ≡ record a { interceptors = fold add_interceptor xs a.interceptors }
  unfolding register_interceptor add_interceptor
  each-register_interceptor xs a =
      each-set (register_interceptor s) (λ b. b.interceptors) (λ b v. record b { interceptors = v })
        add_interceptor xs a (λ x b. refl) (λ b v. refl) (λ b v w. refl) (λ b. refl)

  each-register_event_handler :
      (xs : List Hook) (a : App)
      → each (register_event_handler s) xs a
        ≡ record a { event_handlers = fold (add_hook s) xs a.event_handlers }
  unfolding register_event_handler
  each-register_event_handler xs a =
      each-set (register_event_handler s) (λ b. b.event_handlers)
        (λ b v. record b { event_handlers = v }) (add_hook s) xs a (λ x b. refl) (λ b v. refl)
        (λ b v w. refl) (λ b. refl)

  each-register_message_hook :
      (xs : List Hook) (a : App)
      → each (register_message_hook s) xs a
        ≡ record a { message_hooks = fold (add_hook s) xs a.message_hooks }
  unfolding register_message_hook
  each-register_message_hook xs a =
      each-set (register_message_hook s) (λ b. b.message_hooks)
        (λ b v. record b { message_hooks = v }) (add_hook s) xs a (λ x b. refl) (λ b v. refl)
        (λ b v w. refl) (λ b. refl)

  each-register_input_transformer :
      (xs : List Hook) (a : App)
      → each (register_input_transformer s) xs a
        ≡ record a { input_transformers = fold (add_hook s) xs a.input_transformers }
  unfolding register_input_transformer
  each-register_input_transformer xs a =
      each-set (register_input_transformer s) (λ b. b.input_transformers)
        (λ b v. record b { input_transformers = v }) (add_hook s) xs a (λ x b. refl) (λ b v. refl)
        (λ b v w. refl) (λ b. refl)

  each-register_prompt_section :
      (xs : List Hook) (a : App)
      → each (register_prompt_section s) xs a
        ≡ record a { prompt_sections = fold (add_hook s) xs a.prompt_sections }
  unfolding register_prompt_section
  each-register_prompt_section xs a =
      each-set (register_prompt_section s) (λ b. b.prompt_sections)
        (λ b v. record b { prompt_sections = v }) (add_hook s) xs a (λ x b. refl) (λ b v. refl)
        (λ b v w. refl) (λ b. refl)

  bridge_compactor-or_old :
      (c : Option String) (a : App)
      → bridge_compactor c a ≡ record a { compactor = or_old c a.compactor }
  unfolding bridge_compactor register_compactor
  bridge_compactor-or_old none a = refl
  bridge_compactor-or_old (some c) a = refl

  pub bridge-bridged : (h : Host) (a : App) → bridge s h a ≡ bridged h a
  unfolding bridge bridged register_ext_info
  bridge-bridged h a = simp (
    each-register_tool, each-register_command, each-register_shortcut,
    each-register_stream_provider, each-register_interceptor, each-register_event_handler,
    each-register_message_hook, each-register_input_transformer, each-register_prompt_section,
    bridge_compactor-or_old,
  )
