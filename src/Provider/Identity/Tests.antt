-- ===== src/Provider/Identity/Tests.antt =====
-- A service manager that is made, and what changes it.
use distributed_rpc_js.Common.{◌≡◌, refl, none, some, List, [], ◌∷◌}
use distributed_rpc_js.Types.{running}
use distributed_rpc_js.Config.{CoreConfig, get_default_core_config}
use distributed_rpc_js.Provider.Identity.{
  ServiceProvider, Change, reloaded, state_set, otel_initialized, disable_discovery, reload,
  change_all, is_named, set_state,
}
use distributed_rpc_js.Provider.Identity.Synced.{
  Synced, last_name, last_state, change_all-reload-Synced, name_or,
}

abbrev core_of : CoreConfig
core_of = get_default_core_config "ServiceManager"

abbrev made : ServiceProvider
made = record {
  protocol_ver = "1.0.0";
  provider = record {
    id = "00000000c0ffee00";
    name = "ServiceManager";
    desc = "Service Manager for orchestrating services.";
    version = "1.0.0";
  };
  core = core_of;
  provider_state = none;
}

abbrev named_then_unknown : List Change
named_then_unknown =
    otel_initialized
    ∷ state_set running
    ∷ reloaded (get_default_core_config "Billing")
    ∷ reloaded (get_default_core_config "Unknown")
    ∷ []

change_all-reload-Synced_example :
    (q : ServiceProvider) × (change_all "production" disable_discovery named_then_unknown
        (reload "production" disable_discovery core_of made).1
      ≡ some q)
    × Synced "production" "00000000c0ffee00" "Billing" running q
unfolding disable_discovery last_name last_state name_or is_named get_default_core_config
change_all-reload-Synced_example =
    change_all-reload-Synced "production" disable_discovery (λ c. refl) (λ c. refl) made core_of
      named_then_unknown

-- Without a load of the configuration there is no state to set.
unloaded : set_state running made ≡ none
unfolding set_state
unloaded = refl
