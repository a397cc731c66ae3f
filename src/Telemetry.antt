-- ===== src/Telemetry.antt =====
-- src/metrics: the tracer (otel-tracing.ts) and the instruments (otel-metrics.ts) of a provider. The
-- OpenTelemetry libraries are left out: a span is what is handed to them. ProviderState is an object
-- that the provider and its tracer share, so that the states are a store, and a reference is a number.
pub mod Tracing
pub mod Metrics
use distributed_rpc_js.Common.{ℕ, Bool, false, String}
use Prim.Native.String.{◌++◌}
use distributed_rpc_js.Types.{
  ExecutionState, error, halt, halting, initializing, listening, retrying, running, starting,
  stopping, stopped,
}
use distributed_rpc_js.Provider.Identity.{ProviderInfo, ProviderState, unknown_attribute}

-- ProviderAttributeValue
pub data AttributeValue : Type 0 where
  text : String → AttributeValue
  number : ℕ → AttributeValue
  flag : Bool → AttributeValue

-- The texts of ExecutionState.
unfoldable pub state_text : ExecutionState → String
state_text ExecutionState.error = "Error"
state_text halt = "Halt"
state_text halting = "Halting"
state_text initializing = "Initializing"
state_text listening = "Listening"
state_text retrying = "Retrying"
state_text running = "Running"
state_text starting = "Starting"
state_text stopping = "Stopping"
state_text stopped = "Stopped"

-- DEFAULT_RESOURCE
unfoldable pub default_resource : ProviderInfo
default_resource = record {
  enabled = false;
  service_name = unknown_attribute;
  service_instance = unknown_attribute;
  service_version = unknown_attribute;
  protocol_version = unknown_attribute;
  deploy_env = unknown_attribute;
}

-- `getProviderIdentity`
unfoldable pub get_provider_identity : ProviderState → String
get_provider_identity s = s.provider.service_name ++ "-" ++ s.provider.service_instance
