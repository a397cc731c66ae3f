-- ===== src/Telemetry/Tracing/Tests.antt =====
-- A provider that is restarted, and spans of its connections.
use distributed_rpc_js.Common.{ℕ, ◌≡◌, Bool, true, false, Option, none, some, [], ◌∷◌, String}
use distributed_rpc_js.Types.{running}
use distributed_rpc_js.Provider.Identity.{ProviderInfo, ProviderState}
use distributed_rpc_js.Telemetry.{text}
use distributed_rpc_js.Telemetry.Tracing.{
  OtelTracer, Store, SpanOptions, NetworkSpanOptions, outbound, tcp, disabled, create_span,
  initialize_otel, release_otel,
}
use distributed_rpc_js.Telemetry.Tracing.Released.{asked, use_all, released-untraced}

abbrev works : ProviderInfo → Bool
works info = true

abbrev billing : ProviderState
billing = record {
  provider = record {
    enabled = true;
    service_name = "Billing";
    service_instance = "0001";
    service_version = "1.0.0";
    protocol_version = "1.0.0";
    deploy_env = "production";
  };
  state = running;
  otel = false;
}

abbrev made : Store
made = record { states = λ r. billing; next_state = 1; instances = [] }

abbrev plain : SpanOptions
plain = record { kind = none; attributes = [] }

abbrev initialized : Store
initialized = (initialize_otel works "0001" 0 made).1

released-untraced_example :
    let ((r, t), w) =
      initialize_otel works "0001" 1
        (use_all works (asked "0001" none ∷ []) (release_otel works "0001" initialized)) in
    create_span t billing "start" plain ≡ disabled "start"
released-untraced_example =
    released-untraced works "0001" initialized (asked "0001" none ∷ []) 1 billing "start" plain tt

abbrev traced : OtelTracer
traced = record { provider_state = 0; tracing = true }

abbrev port_text : Option ℕ → String
port_text none = "undefined"
port_text (some n) = "5707"

abbrev to_peer : NetworkSpanOptions
to_peer = record {
  address = some "10.0.0.1";
  port = some 5707;
  protocol = some tcp;
  direction = some outbound;
  attributes = ("client.name", text "reception") ∷ [];
}
