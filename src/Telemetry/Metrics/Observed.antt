-- ===== src/Telemetry/Metrics/Observed.antt =====
-- What the gauges of src/metrics/otel-metrics.ts say of a state.
use distributed_rpc_js.Common.{◌≡◌, refl, some, arith, [], ◌∷◌}
use distributed_rpc_js.Types.{ExecutionState}
use distributed_rpc_js.Provider.Identity.{ProviderState}
use distributed_rpc_js.Telemetry.Metrics.{server_state_value, observe_state, register_callbacks}

-- Two states with one value are the same.
pub server_state_value-injective :
    (a b : ExecutionState) → server_state_value a ≡ server_state_value b → a ≡ b
unfolding server_state_value
server_state_value-injective a b h = ground arith

-- Both gauges, and no other instrument, are told the state.
pub gauges_told :
    (s : ProviderState)
    → register_callbacks (some s)
      ≡ (("server_state", observe_state s) ∷ ("listener_state", observe_state s) ∷ [])
unfolding register_callbacks
gauges_told s = refl
