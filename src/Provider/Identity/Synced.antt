-- ===== src/Provider/Identity/Synced.antt =====
-- The identity of a provider over its changes: src/provider/service-provider.ts.
use distributed_rpc_js.Common.{
  ◌≡◌, refl, sym, ◌∙◌, Bool, true, false, Option, none, some, String, List, [], ◌∷◌, if◌then◌else◌,
}
use distributed_rpc_js.Types.{ExecutionState, stopped}
use distributed_rpc_js.Retry.{Failure}
use distributed_rpc_js.Config.{CoreConfig}
use distributed_rpc_js.Provider.Identity.{
  ProviderState, ServiceProvider, Change, reloaded, state_set, otel_initialized, is_named,
  collect_instance_info, set_config_manager, update_provider_info, state_for, set_provider,
  new_provider_state, reload, set_state, set_state_of, otel_state, initialize_otel, change,
  change_all,
}

-- The state that was set last.
unfoldable pub last_state : ExecutionState → List Change → ExecutionState
last_state e [] = e
last_state e (reloaded loaded ∷ cs) = last_state e cs
last_state e (state_set f ∷ cs) = last_state f cs
last_state e (otel_initialized ∷ cs) = last_state e cs

-- The name that a configuration gives, if it does.
unfoldable pub name_or : String → CoreConfig → String
name_or name loaded = if is_named loaded.service_name then loaded.service_name else name

-- The last name that a loaded configuration gave.
unfoldable pub last_name : String → List Change → String
last_name name [] = name
last_name name (reloaded loaded ∷ cs) = last_name (name_or name loaded) cs
last_name name (state_set f ∷ cs) = last_name name cs
last_name name (otel_initialized ∷ cs) = last_name name cs

unfoldable pub state_in : Option ProviderState → ExecutionState
state_in none = stopped
state_in (some s) = s.state

-- The provider and its configuration have this id and this name, and the ProviderState has the
-- attributes of the provider and this state.
unfoldable pub Synced : String → String → String → ExecutionState → ServiceProvider → Type 0
Synced app_env id name e p =
    (p.provider.id ≡ id)
    × (p.provider.name ≡ name)
    × (p.core.provider_id ≡ some id)
    × (p.core.service_name ≡ name)
    × ((b : Bool) × (p.provider_state
          ≡ some (record { provider = collect_instance_info app_env p; state = e; otel = b })))

module _ (app_env : String) where
  updated-Synced :
      (p : ServiceProvider) (c : CoreConfig)
      → Synced app_env p.provider.id
          (name_or p.provider.name c)
          (state_in p.provider_state)
          (set_config_manager app_env (record p { core = c }))
  unfolding Synced set_config_manager update_provider_info name_or state_for set_provider
      new_provider_state state_in collect_instance_info
  updated-Synced p c = at (is_named c.service_name) refl p.provider_state refl
    where
      at :
          (b : Bool)
          → is_named c.service_name ≡ b
          → (o : Option ProviderState) → p.provider_state ≡ o
          → Synced app_env p.provider.id
              (name_or p.provider.name c)
              (state_in p.provider_state)
              (set_config_manager app_env (record p { core = c }))
      at true h none k = rw (h, k) (refl, refl, refl, refl, (false, refl))
      at true h (some s) k = rw (h, k) (refl, refl, refl, refl, (s.otel, refl))
      at false h none k = rw (h, k) (refl, refl, refl, refl, (false, refl))
      at false h (some s) k = rw (h, k) (refl, refl, refl, refl, (s.otel, refl))

  module _ (reloading : CoreConfig → Option Failure × CoreConfig)
      (keeps_id : (c : CoreConfig) → (reloading c).1.provider_id ≡ c.provider_id)
      (keeps_name : (c : CoreConfig) → (reloading c).1.service_name ≡ c.service_name) where
    reload-Synced :
        (p : ServiceProvider) (c : CoreConfig)
        → Synced app_env p.provider.id
            (name_or p.provider.name c)
            (state_in p.provider_state)
            (reload app_env reloading c p).1
    unfolding Synced reload collect_instance_info
    reload-Synced p c =
        let q = set_config_manager app_env (record p { core = c }) in
        let (id_is, name_is, core_id, core_name, (otel, attributes)) = updated-Synced p c in
        (
          id_is,
          name_is,
          keeps_id q.core ∙ core_id,
          keeps_name q.core ∙ core_name,
          (otel, attributes),
        )

    change_all-Synced :
        (cs : List Change) (id name : String) (e : ExecutionState) (p : ServiceProvider)
        → Synced app_env id name e p
        → (q : ServiceProvider) × (change_all app_env reloading cs p ≡ some q)
          × Synced app_env id (last_name name cs) (last_state e cs) q
    unfolding Synced change_all change last_name last_state set_state initialize_otel
        collect_instance_info set_state_of otel_state new_provider_state state_in
    change_all-Synced [] id name e p synced = (p, refl, synced)
    change_all-Synced (reloaded c ∷ cs) id name e p
          (id_is, name_is, core_id, core_name, (otel, attributes)) =
        let again : Synced app_env id (name_or name c) e (reload app_env reloading c p).1 =
          let state_is : e ≡ state_in p.provider_state = rw attributes refl in
          rw (sym id_is, sym name_is, state_is) (reload-Synced p c) in
        change_all-Synced cs id (name_or name c) e (reload app_env reloading c p).1 again
    change_all-Synced (state_set f ∷ cs) id name e p
          (id_is, name_is, core_id, core_name, (otel, attributes)) =
        rw attributes (
          change_all-Synced cs id name f
            (record p {
              provider_state =
                  some
                    (record { provider = collect_instance_info app_env p; state = f; otel = otel });
            })
            (id_is, name_is, core_id, core_name, (otel, refl)))
    change_all-Synced (otel_initialized ∷ cs) id name e p
          (id_is, name_is, core_id, core_name, (true, attributes)) =
        rw attributes (
          change_all-Synced cs id name e
            (record p {
              provider_state =
                  some
                    (record { provider = collect_instance_info app_env p; state = e; otel = true });
            })
            (id_is, name_is, core_id, core_name, (true, refl)))
    change_all-Synced (otel_initialized ∷ cs) id name e p
          (id_is, name_is, core_id, core_name, (false, attributes)) =
        rw attributes (
          change_all-Synced cs id name e
            (record p {
              provider_state =
                  some
                    (record { provider = collect_instance_info app_env p; state = e; otel = true });
            })
            (id_is, name_is, core_id, core_name, (true, refl)))

    -- A provider that has loaded its configuration has a ProviderState from then on: after reloads,
    -- whether their hook throws or not, changes of its state and starts of the telemetry, none of
    -- the latter two throws for the lack of it. After any of them its id is the one it was made
    -- with, its name is the last name that a configuration gave, or its first name, its
    -- configuration has the same id and name, and its ProviderState has its attributes and the
    -- state that was set last, if the subclass keeps the id and the name of a configuration.
    pub change_all-reload-Synced :
        (p : ServiceProvider) (c : CoreConfig) (cs : List Change)
        → (q : ServiceProvider) × (change_all app_env reloading cs (reload app_env reloading c p).1
            ≡ some q)
          × Synced app_env p.provider.id
              (last_name (name_or p.provider.name c) cs)
              (last_state (state_in p.provider_state) cs)
              q
    change_all-reload-Synced p c cs =
        change_all-Synced cs p.provider.id (name_or p.provider.name c) (state_in p.provider_state)
          (reload app_env reloading c p).1 (reload-Synced p c)
