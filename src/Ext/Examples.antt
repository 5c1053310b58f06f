-- ===== src/Ext/Examples.antt =====
-- A guard, a tool, and an extension with one of everything, for the theorems of this folder.
use piglet.Prelude.{◌+◌, ◌≤◌, ◌≡◌, refl, inl, inr, true, false, none, some, List, [], ◌∷◌, lookup}
use piglet.Ext.App.{Args, failed, blocked, allowed, Interceptor, Outcome, ToolDef, Hook, App, Has}
use piglet.Ext.Interceptors.{Call, before, executed, wrap_with_interceptors, call_tool}
use piglet.Ext.Chain.{passes, executions, Ran, wrap_with_interceptors-Ran}
use piglet.Ext.Refused.{call_tool-refused}
use piglet.Ext.Bridge.{Host, bridge, unregister_extension}
use piglet.Ext.Restored.{IsFresh, IsRestored, unregister_extension-bridge}
use piglet.Ext.Supervisor.{closed, reload, Round, watch, started}
use piglet.Ext.Restarts.{allowances, watch-started}
use piglet.Ext.Sorting.{insertion_sorter}

abbrev guard : Interceptor
guard = record {
  name = "guard";
  priority = 2000;
  before = some (λ tool args. blocked);
  after = none;
  preview = none;
}

abbrev rewriter : Interceptor
rewriter = record {
  name = "rewriter";
  priority = 10;
  before = some (λ tool args. allowed (some (("path", "/a") ∷ [])));
  after = some (λ tool details. some "seen");
  preview = none;
}

abbrev say : ToolDef
say = record {
  name = "say";
  execute = λ args. Outcome.returned (some (record { text = "done"; details = "" }));
}

abbrev app : App
app = record {
  tools = ("say", say) ∷ [];
  commands = [];
  shortcuts = [];
  interceptors = [];
  event_handlers = [];
  message_hooks = record { name = "old"; order = 1 } ∷ [];
  input_transformers = [];
  prompt_sections = [];
  compactor = some "builtin";
  stream_providers = [];
  ext_infos = [];
}

rewritten_example : wrap_with_interceptors (rewriter ∷ []) "say" say.execute [] ≡ (
  Outcome.returned (some (record { text = "done"; details = "seen" })),
  before "rewriter" [] ∷ executed (("path", "/a") ∷ []) ∷ Call.after "rewriter" "" ∷ [],
)
unfolding wrap_with_interceptors
rewritten_example = refl

wrap_with_interceptors-Ran_example :
    Ran
      (rewriter ∷ [])
      "say"
      say.execute
      (passes (rewriter ∷ []) "say" [])
      (wrap_with_interceptors (rewriter ∷ []) "say" say.execute [])
wrap_with_interceptors-Ran_example = wrap_with_interceptors-Ran (rewriter ∷ []) "say" say.execute []

call_tool-refused_example : executions (before "guard" [] ∷ []) ≡ []
unfolding call_tool insertion_sorter piglet.Ext.App.register_interceptor lookup
    wrap_with_interceptors
call_tool-refused_example =
    call_tool-refused insertion_sorter (rewriter ∷ guard ∷ []) app "say" say []
      (
        Outcome.returned (some (record { text = "blocked by interceptor: guard"; details = "" })),
        before "guard" [] ∷ [],
      )
      refl (inr (inl (λ args. refl))) refl

abbrev hook : Hook
hook = record { name = "h"; order = 0 }

abbrev host : Host
host = record {
  name = "pack";
  tools = record { name = "find"; execute = λ args. Outcome.returned none } ∷ [];
  commands = "c" ∷ [];
  prompt_sections = hook ∷ [];
  interceptors = guard ∷ [];
  event_handlers = hook ∷ [];
  shortcuts = "ctrl+g" ∷ [];
  message_hooks = hook ∷ [];
  input_transformers = hook ∷ [];
  compactor = none;
  providers = "api" ∷ [];
}

host-IsFresh : IsFresh host app
host-IsFresh = record {
  tools = (refl, tt);
  commands = tt;
  shortcuts = tt;
  providers = tt;
  interceptors = tt;
  event_handlers = tt;
  message_hooks = (refl, tt);
  input_transformers = tt;
  prompt_sections = tt;
  compactor = inl refl;
  compactor_name = λ e. cc;
  infos = tt;
}

unregister_extension-bridge_example :
    IsRestored (unregister_extension "pack" (bridge insertion_sorter host app)) app
unregister_extension-bridge_example =
    unregister_extension-bridge insertion_sorter host app host-IsFresh

abbrev crashes : List Round
crashes =
    record { event = closed 3; timer_fires = true; starts = true }
    ∷ record { event = closed 40; timer_fires = true; starts = true }
    ∷ record { event = closed 0; timer_fires = true; starts = false }
    ∷ record { event = reload; timer_fires = true; starts = true }
    ∷ []

watch-started_example : (watch crashes started).restarts ≤ 5 + allowances crashes
watch-started_example = watch-started crashes

-- A restart that fails is told to nobody and is not tried again.
stranded_example :
    watch
      (record { event = closed 3; timer_fires = true; starts = false }
        ∷ record { event = closed 3; timer_fires = true; starts = true }
        ∷ [])
      started
    ≡ record {
      live = false;
      failures = 1;
      backoff = 2;
      restarts = 1;
      notes = piglet.Ext.Supervisor.Note.restarting ∷ [];
    }
unfolding watch
stranded_example = refl
