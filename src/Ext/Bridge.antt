-- ===== src/Ext/Bridge.antt =====
-- ext/external/bridge.go and ext/unregister.go: the registrations of an external extension, and their removal
-- when the supervisor restarts it.
use piglet.Prelude.{
  String, Bool, not, ◌&&◌, Option, none, some, List, [], ◌∷◌, ◌++◌, map, str_eq, if◌then◌else◌, any,
  filter, Assoc, erase,
}
use piglet.Ext.App.{
  Interceptor, ToolDef, Hook, ExtInfo, App, Sorter, register_tool, register_command,
  register_shortcut, register_interceptor, register_event_handler, register_message_hook,
  register_input_transformer, register_prompt_section, register_compactor, register_stream_provider,
}

-- What a host has after its handshake.
pub record Host : Type 0 where
  pub name : String
  pub tools : List ToolDef
  pub commands : List String
  pub prompt_sections : List Hook
  pub interceptors : List Interceptor
  pub event_handlers : List Hook
  pub shortcuts : List String
  pub message_hooks : List Hook
  pub input_transformers : List Hook
  pub compactor : Option String
  pub providers : List String

-- A loop that registers each of a list.
unfoldable pub each : {A : Type 0} → (A → App → App) → List A → App → App
each register [] a = a
each register (x ∷ xs) a = each register xs (register x a)

abbrev pub or_empty : Option String → String
or_empty none = ""
or_empty (some c) = c

abbrev pub hook_names : List Hook → List String
hook_names = map (λ (h : Hook). h.name)

-- The ExtInfo that the loops collect.
unfoldable pub info_of : Host → ExtInfo
info_of h = record {
  name = h.name;
  tools = map (λ (t : ToolDef). t.name) h.tools;
  commands = h.commands;
  shortcuts = h.shortcuts;
  interceptors = map (λ (i : Interceptor). i.name) h.interceptors;
  event_handlers = hook_names h.event_handlers;
  message_hooks = hook_names h.message_hooks;
  input_transformers = hook_names h.input_transformers;
  prompt_sections = hook_names h.prompt_sections;
  compactor = or_empty h.compactor;
  stream_providers = h.providers;
}

-- `RegisterExtInfo`
unfoldable pub register_ext_info : ExtInfo → App → App
register_ext_info info a = record a { ext_infos = a.ext_infos ++ (info ∷ []) }

unfoldable pub bridge_compactor : Option String → App → App
unfolding register_compactor
bridge_compactor none a = a
bridge_compactor (some c) a = register_compactor c a

-- `bridge`
unfoldable pub bridge : Sorter → Host → App → App
unfolding each info_of register_ext_info bridge_compactor register_tool register_command
    register_shortcut register_interceptor register_event_handler register_message_hook
    register_input_transformer register_prompt_section register_stream_provider
bridge s h a =
    let a1 = each register_tool h.tools a in
    let a2 = each register_command h.commands a1 in
    let a3 = each (register_prompt_section s) h.prompt_sections a2 in
    let a4 = each (register_interceptor s) h.interceptors a3 in
    let a5 = each (register_event_handler s) h.event_handlers a4 in
    let a6 = each register_shortcut h.shortcuts a5 in
    let a7 = each (register_message_hook s) h.message_hooks a6 in
    let a8 = each (register_input_transformer s) h.input_transformers a7 in
    let a9 = bridge_compactor h.compactor a8 in
    let a10 = each register_stream_provider h.providers a9 in register_ext_info (info_of h) a10

abbrev pub elem : String → List String → Bool
elem k = any (λ (j : String). str_eq j k)

-- The loop of `delete`.
unfoldable pub erase_all : {V : Type 0} → List String → Assoc V → Assoc V
unfolding erase
erase_all [] m = m
erase_all (k ∷ ks) m = erase_all ks (erase k m)

abbrev pub without : List String → List Hook → List Hook
without names = filter (λ (h : Hook). not (elem h.name names))

-- The compactor goes if it has the name that the extension registered.
unfoldable pub drop_compactor : String → Option String → Option String
drop_compactor own none = none
drop_compactor own (some c) = if not (str_eq own "") && str_eq c own then none else some c

unfoldable pub unregister_info : String → ExtInfo → App → App
unfolding erase_all drop_compactor
unregister_info name info a = record {
  tools = erase_all info.tools a.tools;
  commands = erase_all info.commands a.commands;
  shortcuts = erase_all info.shortcuts a.shortcuts;
  interceptors = filter (λ (i : Interceptor). not (elem i.name info.interceptors)) a.interceptors;
  event_handlers = without info.event_handlers a.event_handlers;
  message_hooks = without info.message_hooks a.message_hooks;
  input_transformers = without info.input_transformers a.input_transformers;
  prompt_sections = without info.prompt_sections a.prompt_sections;
  compactor = drop_compactor info.compactor a.compactor;
  stream_providers = erase_all info.stream_providers a.stream_providers;
  ext_infos = filter (λ (i : ExtInfo). not (str_eq i.name name)) a.ext_infos;
}

-- The loop that looks for the info.
unfoldable pub find_info : String → List ExtInfo → Option ExtInfo
find_info name [] = none
find_info name (i ∷ is) = if str_eq i.name name then some i else find_info name is

abbrev unregister_found : String → Option ExtInfo → App → App
unregister_found name none a = a
unregister_found name (some info) a = unregister_info name info a

-- `UnregisterExtension`
unfoldable pub unregister_extension : String → App → App
unfolding find_info unregister_info
unregister_extension name a = unregister_found name (find_info name a.ext_infos) a
