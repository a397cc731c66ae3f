-- ===== src/Provider/Names/Same.antt =====
-- One identity, by three names: src/provider/service-provider.ts and src/provider/provider-info.ts.
use distributed_rpc_js.Common.{◌≡◌, refl, Bool, false, String}
use distributed_rpc_js.Types.{ExecutionState}
use distributed_rpc_js.Provider.Identity.{ServiceProvider, collect_instance_info}
use distributed_rpc_js.Provider.Names.{get_identity, get_peer_id}
use distributed_rpc_js.Telemetry.{get_provider_identity}

-- The identity of a provider is the one by which its requests are known, and that of its
-- ProviderState, if that has the provider's attributes.
identity_same :
    (app_env : String) (p : ServiceProvider) (state : ExecutionState) (otel arrowed : Bool)
    → (get_identity p.provider arrowed
        ≡ get_peer_id (record { service = p.provider.name; instance_id = p.provider.id }) arrowed)
      × (get_identity p.provider false
          ≡ get_provider_identity
              (record { provider = collect_instance_info app_env p; state = state; otel = otel }))
unfolding get_identity get_peer_id get_provider_identity collect_instance_info
identity_same app_env p state otel arrowed = (refl, refl)
