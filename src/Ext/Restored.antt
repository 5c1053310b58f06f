-- ===== src/Ext/Restored.antt =====
-- ext/unregister.go: an external extension is removed without a trace.
use piglet.Prelude.{
  ◌≡◌, ◌≢◌, refl, ap, subst, ◌⊎◌, inl, inr, String, Bool, false, not, Option, none, some, List, [],
  ◌∷◌, ◌++◌, map, arith, str_eq, eq_refl, eq_iff, filter, All, Assoc, leb, insert,
}
use piglet.Ext.App.{Interceptor, ToolDef, Hook, ExtInfo, App, Sorter, count, add_hook}
use piglet.Ext.Bridge.{
  Host, or_empty, hook_names, info_of, bridge, elem, erase_all, without, drop_compactor, find_info,
  unregister_extension,
}
use piglet.Ext.Bridged.{fold, or_old, add_hooks, add_interceptor, bridged, bridge-bridged}
use piglet.Ext.Removed.{restored_map, restored_list, add}

abbrev Apart : {V : Type 0} → List String → Assoc V → Type 0
Apart ks m = All (λ p. elem p.0 ks ≡ false) m

abbrev ApartHooks : List Hook → List Hook → Type 0
ApartHooks hs l = All (λ (h : Hook). elem h.name (hook_names hs) ≡ false) l

-- The names of an extension are not taken. A compactor would replace another one.
pub record IsFresh (h : Host) (a : App) : Type 0 where
  pub tools : Apart (map (λ (t : ToolDef). t.name) h.tools) a.tools
  pub commands : Apart h.commands a.commands
  pub shortcuts : Apart h.shortcuts a.shortcuts
  pub providers : Apart h.providers a.stream_providers
  pub interceptors :
      All
        (λ (i : Interceptor).
          elem i.name (map (λ (j : Interceptor). j.name) h.interceptors) ≡ false)
        a.interceptors
  pub event_handlers : ApartHooks h.event_handlers a.event_handlers
  pub message_hooks : ApartHooks h.message_hooks a.message_hooks
  pub input_transformers : ApartHooks h.input_transformers a.input_transformers
  pub prompt_sections : ApartHooks h.prompt_sections a.prompt_sections
  pub compactor : (h.compactor ≡ none) ⊎ (a.compactor ≡ none)
  pub compactor_name : h.compactor ≢ some ""
  pub infos : All (λ (i : ExtInfo). str_eq i.name h.name ≡ false) a.ext_infos

-- The same elements, as often.
abbrev SameElements : {A : Type 0} → List A → List A → Type 0
SameElements {A} l m = (p : A → Bool) → count p l ≡ count p m

-- An app with the same registrations: the maps, the compactor and the infos are equal, and so are the lists but
-- for the order of elements.
pub record IsRestored (a b : App) : Type 0 where
  pub tools : a.tools ≡ b.tools
  pub commands : a.commands ≡ b.commands
  pub shortcuts : a.shortcuts ≡ b.shortcuts
  pub stream_providers : a.stream_providers ≡ b.stream_providers
  pub interceptors : SameElements a.interceptors b.interceptors
  pub event_handlers : SameElements a.event_handlers b.event_handlers
  pub message_hooks : SameElements a.message_hooks b.message_hooks
  pub input_transformers : SameElements a.input_transformers b.input_transformers
  pub prompt_sections : SameElements a.prompt_sections b.prompt_sections
  pub compactor : a.compactor ≡ b.compactor
  pub ext_infos : a.ext_infos ≡ b.ext_infos

map_id : (ks : List String) → map (λ (k : String). k) ks ≡ ks
map_id [] = refl
map_id (k ∷ ks) = ap (λ t. k ∷ t) (map_id ks)

restored_keys :
    (ks : List String) (m : Assoc String)
    → Apart ks m
    → erase_all ks (fold (λ (k : String). insert k k) ks m) ≡ m
restored_keys ks m =
    subst (λ t. Apart t m → erase_all t (fold (λ (k : String). insert k k) ks m) ≡ m) (map_id ks)
      (restored_map (λ (k : String). k) (λ (k : String). k) ks m)

find_info-last :
    (name : String) (infos : List ExtInfo) (i : ExtInfo)
    → All (λ (j : ExtInfo). str_eq j.name name ≡ false) infos
    → i.name ≡ name
    → find_info name (infos ++ (i ∷ [])) ≡ some i
unfolding find_info
find_info-last name [] i h e = rw (e, eq_refl name)
find_info-last name (j ∷ infos) i h e = rw h.0 (find_info-last name infos i h.1 e)

infos_restored :
    (name : String) (infos : List ExtInfo) (i : ExtInfo)
    → All (λ (j : ExtInfo). str_eq j.name name ≡ false) infos
    → i.name ≡ name
    → filter (λ (j : ExtInfo). not (str_eq j.name name)) (infos ++ (i ∷ [])) ≡ infos
infos_restored name [] i h e = rw (e, eq_refl name)
infos_restored name (j ∷ infos) i h e = rw h.0 (ap (λ t. j ∷ t) (infos_restored name infos i h.1 e))

compactor_restored :
    (own old : Option String)
    → (own ≡ none) ⊎ (old ≡ none)
    → own ≢ some ""
    → drop_compactor (or_empty own) (or_old own old) ≡ old
unfolding drop_compactor
compactor_restored none none h n = refl
compactor_restored none (some c) h n = refl
compactor_restored (some c) old (inl h) n = ground arith
compactor_restored (some c) old (inr h) n =
    ground (arith, eq_iff c "", eq_refl c, λ (e : c ≡ ""). n (ap some e))

hooks_restored :
    (s : Sorter) (hs l : List Hook)
    → ApartHooks hs l
    → SameElements (without (hook_names hs) (add_hooks s hs l)) l
unfolding fold add_hook add
hooks_restored s hs l h p =
    restored_list s (λ (x y : Hook). leb x.order y.order) (λ (x : Hook). x.name) p hs l h

-- An external extension whose names are not taken, and no compactor in its way, is registered and then removed
-- by its name: the app has the registrations that it had before.
pub unregister_extension-bridge :
    (s : Sorter) (h : Host) (a : App)
    → IsFresh h a
    → IsRestored (unregister_extension h.name (bridge s h a)) a
unfolding unregister_extension bridged info_of add_interceptor fold add
unregister_extension-bridge s h a f =
    rw (bridge-bridged s h a, find_info-last h.name a.ext_infos (info_of h) f.infos refl)
      (record {
        tools = restored_map (λ (t : ToolDef). t.name) (λ (t : ToolDef). t) h.tools a.tools f.tools;
        commands = restored_keys h.commands a.commands f.commands;
        shortcuts = restored_keys h.shortcuts a.shortcuts f.shortcuts;
        stream_providers = restored_keys h.providers a.stream_providers f.providers;
        interceptors = λ p.
            restored_list s (λ (x y : Interceptor). leb y.priority x.priority)
              (λ (i : Interceptor). i.name) p h.interceptors a.interceptors f.interceptors;
        event_handlers = hooks_restored s h.event_handlers a.event_handlers f.event_handlers;
        message_hooks = hooks_restored s h.message_hooks a.message_hooks f.message_hooks;
        input_transformers =
            hooks_restored s h.input_transformers a.input_transformers f.input_transformers;
        prompt_sections = hooks_restored s h.prompt_sections a.prompt_sections f.prompt_sections;
        compactor = compactor_restored h.compactor a.compactor f.compactor f.compactor_name;
        ext_infos = infos_restored h.name a.ext_infos (info_of h) f.infos refl;
      })
