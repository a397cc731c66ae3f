-- ===== src/Telemetry/Metrics.antt =====
-- src/metrics/otel-metrics.ts (OtelMeterics and OtelProviderState), and src/metrics/otel-resource.ts.
-- An instrument is what is handed to the libraries.
pub mod Observed
use distributed_rpc_js.Common.{
  ℕ, Bool, true, false, Option, none, some, List, [], ◌∷◌, ◌++◌, String, if◌then◌else◌,
}
use distributed_rpc_js.Common.Dict.{Dict}
use distributed_rpc_js.Types.{
  ExecutionState, error, halt, halting, initializing, listening, retrying, running, starting,
  stopping, stopped,
}
use distributed_rpc_js.Provider.Identity.{ProviderState}
use distributed_rpc_js.Telemetry.{AttributeValue, text, state_text}

-- ServerStateValues
unfoldable pub server_state_value : ExecutionState → ℕ
server_state_value ExecutionState.error = 0
server_state_value halt = 35
server_state_value halting = 30
server_state_value initializing = 5
server_state_value listening = 25
server_state_value retrying = 15
server_state_value running = 20
server_state_value starting = 10
server_state_value stopping = 40
server_state_value stopped = 45

-- What a gauge is told.
pub record Observation : Type 0 where
  pub value : ℕ
  pub attributes : Dict AttributeValue

-- The callback of `createCallback`, on the ProviderState as it is when the gauge is read.
unfoldable pub observe_state : ProviderState → Observation
unfolding server_state_value state_text
observe_state s = record {
  value = server_state_value s.state;
  attributes =
      ("service.name", text s.provider.service_name)
      ∷ ("service.instance", text s.provider.service_instance)
      ∷ ("service.state", text (state_text s.state))
      ∷ [];
}

pub data MeterType : Type 0 where
  application network : MeterType

pub data InstrumentKind : Type 0 where
  histogram counter up_down_counter observable_gauge : InstrumentKind

pub record Instrument : Type 0 where
  pub meter : MeterType
  pub kind : InstrumentKind
  pub name : String
  pub unit : Option String

abbrev instrument : MeterType → InstrumentKind → String → Option String → Instrument
instrument m k n u = record { meter = m; kind = k; name = n; unit = u }

-- `_createInstruments`
unfoldable pub create_instruments : List Instrument
create_instruments =
    instrument application histogram "method_execution_time" (some "ms")
    ∷ instrument application counter "retry_attempts_total" none
    ∷ instrument application histogram "retry_duration" (some "ms")
    ∷ instrument network observable_gauge "server_state" none
    ∷ instrument network observable_gauge "listener_state" none
    ∷ instrument network up_down_counter "active_connections" none
    ∷ instrument application counter "bytes_total" (some "bytes")
    ∷ instrument application counter "udp_broadcast_requests_total" none
    ∷ instrument application counter "udp_broadcast_responses_total" none
    ∷ instrument application histogram "udp_broadcast_response_time" (some "ms")
    ∷ instrument application histogram "tcp_connection_duration" (some "ms")
    ∷ instrument application counter "tcp_connections_failed_total" none
    ∷ instrument application histogram "tcp_data_transfer_size" (some "bytes")
    ∷ []

abbrev pub is_gauge : InstrumentKind → Bool
is_gauge observable_gauge = true
is_gauge _ = false

-- What is read from these instruments at one time: each gauge has the callback.
unfoldable pub read_gauges : ProviderState → List Instrument → Dict Observation
unfolding observe_state
read_gauges s [] = []
read_gauges s (i ∷ is) =
    let rest = read_gauges s is in
    if is_gauge i.kind then (i.name, observe_state s) ∷ rest else rest

-- `_registerCallbacks`: without a ProviderState the gauges are told nothing.
unfoldable pub register_callbacks : Option ProviderState → Dict Observation
unfolding read_gauges create_instruments
register_callbacks none = []
register_callbacks (some s) = read_gauges s create_instruments
