-- ===== src/Provider/Identity.antt =====
-- Who a provider says it is: the attributes that its ProviderState keeps (src/provider/provider-info.ts),
-- and how ServiceProvider keeps them, its protocol and its configuration in step
-- (src/provider/service-provider.ts). What a load of the configuration gives is a parameter.
mod Synced
mod Tests
use distributed_rpc_js.Common.{
  Bool, true, false, not, ◌&&◌, Option, none, some, String, str_eq, if◌then◌else◌, List, [], ◌∷◌,
}
use distributed_rpc_js.Types.{ExecutionState, stopped}
use distributed_rpc_js.Retry.{Failure, failure}
use distributed_rpc_js.Config.{CoreConfig, NetConfig, no_discovery}

-- UNKNOWN_ATTRIBUTE
abbrev pub unknown_attribute : String
unknown_attribute = "Unknown"

-- interface ProviderInfo
pub record ProviderInfo : Type 0 where
  pub enabled : Bool
  pub service_name : String
  pub service_instance : String
  pub service_version : String
  pub protocol_version : String
  pub deploy_env : String

-- class ProviderState; `otel` says that it is an OtelProviderState, whose callback is left out.
pub record ProviderState : Type 0 where
  pub provider : ProviderInfo
  pub state : ExecutionState
  pub otel : Bool

-- `new ProviderState(provider)` and `new OtelProviderState(provider)`
unfoldable pub new_provider_state : Bool → ProviderInfo → ProviderState
new_provider_state is_otel info = record { provider = info; state = stopped; otel = is_otel }

unfoldable pub set_provider : ProviderInfo → ProviderState → ProviderState
set_provider info s = record s { provider = info }

unfoldable pub set_state_of : ExecutionState → ProviderState → ProviderState
set_state_of e s = record s { state = e }

-- `provider` of BasalProtocol
pub record Metadata : Type 0 where
  pub id : String
  pub name : String
  pub desc : String
  pub version : String

-- The fields of a ServiceProvider that these methods read and write.
pub record ServiceProvider : Type 0 where
  pub protocol_ver : String
  pub provider : Metadata
  pub core : CoreConfig
  pub provider_state : Option ProviderState

-- `svcName && svcName !== UNKNOWN_ATTRIBUTE`
unfoldable pub is_named : String → Bool
is_named svc_name = not (str_eq svc_name "") && not (str_eq svc_name unknown_attribute)

-- `_updateProviderInfo`
unfoldable pub update_provider_info : ServiceProvider → ServiceProvider
update_provider_info p =
    let core = record p.core { provider_id = some p.provider.id } in
    if is_named core.service_name
    then record p { core = core; provider = record p.provider { name = core.service_name } }
    else record p { core = record core { service_name = p.provider.name } }

-- The hook `reloading` of ServiceManager.
unfoldable pub disable_discovery : CoreConfig → Option Failure × CoreConfig
disable_discovery core =
    (none, record core { net = record core.net { sm_discovery = no_discovery } })

-- The hook of ServiceProvider itself, which throws.
unfoldable pub not_reloading : CoreConfig → Option Failure × CoreConfig
not_reloading core = (some (failure "Method reloading() is not implemented."), core)

-- What changes a provider: a reload, with the configuration that is loaded, `setState`, and
-- `_initializeOtel`.
pub data Change : Type 0 where
  reloaded : CoreConfig → Change
  state_set : ExecutionState → Change
  otel_initialized : Change

-- `setState`, which reads the state first: without a ProviderState it throws. It leaves out the
-- write of a state that is the same, which changes nothing.
unfoldable pub set_state : ExecutionState → ServiceProvider → Option ServiceProvider
set_state e p = elim p.provider_state [
  | none ↦ none
  | some s ↦ some (record p { provider_state = some (set_state_of e s) })
]

-- The OtelProviderState that `_initializeOtel` takes or makes.
unfoldable pub otel_state : ProviderState → ProviderState
otel_state s = if s.otel then s else set_state_of s.state (new_provider_state true s.provider)

unfoldable pub initialize_otel : ServiceProvider → Option ServiceProvider
initialize_otel p = elim p.provider_state [
  | none ↦ none
  | some s ↦ some (record p { provider_state = some (otel_state s) })
]

-- The state of `_setConfigManager`: a new one, or the old one with the new attributes.
unfoldable pub state_for : ProviderInfo → Option ProviderState → ProviderState
state_for info none = new_provider_state false info
state_for info (some s) = set_provider info s

module _ (app_env : String) where
  -- `collectInstanceInfo`; the environment is what `getAppEnv` gives.
  unfoldable pub collect_instance_info : ServiceProvider → ProviderInfo
  collect_instance_info p = record {
    enabled = true;
    service_name = p.provider.name;
    service_instance = p.provider.id;
    service_version = p.provider.version;
    protocol_version = p.protocol_ver;
    deploy_env = app_env;
  }

  -- `_setConfigManager`, of the manager whose configuration the provider has.
  unfoldable pub set_config_manager : ServiceProvider → ServiceProvider
  set_config_manager p =
      let updated = update_provider_info p in
      record updated {
        provider_state = some (state_for (collect_instance_info updated) updated.provider_state);
      }

  module _ (reloading : CoreConfig → Option Failure × CoreConfig) where
    -- `_reload` of LifeCycleProcedure: the error that it throws, or nothing. The hook comes last, and
    -- may change the configuration before it throws.
    unfoldable pub reload : CoreConfig → ServiceProvider → Option Failure × ServiceProvider
    reload loaded p =
        let set = set_config_manager (record p { core = loaded }) in
        ((reloading set.core).0, record set { core = (reloading set.core).1 })

    -- The changes of one provider. What a reload throws goes to its caller, and the provider is changed
    -- all the same; `none` is the TypeError of a missing ProviderState.
    unfoldable pub change : Change → ServiceProvider → Option ServiceProvider
    change (reloaded loaded) p = some (reload loaded p).1
    change (state_set e) p = set_state e p
    change otel_initialized p = initialize_otel p

    unfoldable pub change_all : List Change → ServiceProvider → Option ServiceProvider
    change_all [] p = some p
    change_all (c ∷ cs) p = elim (change c p) [ none ↦ none | some q ↦ change_all cs q ]
