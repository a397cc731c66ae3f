-- ===== src/Telemetry/Tracing.antt =====
-- src/metrics/otel-tracing.ts (OtelTracer), with the methods of ServiceProvider that take and release
-- a tracer. A tracer is known by its name in the static map of instances, from which nothing is ever
-- removed. `works` says whether the libraries make an exporter without a throw.
pub mod Released
pub mod Attributes
mod Tests
use distributed_rpc_js.Common.{
  ℕ, suc, ◌==◌, Bool, true, false, ◌&&◌, Option, none, some, List, [], ◌∷◌, String, str_eq, not,
  if◌then◌else◌,
}
use Prim.Native.String.{◌++◌}
use distributed_rpc_js.Common.Dict.{Dict, get, set}
use distributed_rpc_js.Provider.Identity.{
  ProviderInfo, ProviderState, new_provider_state, otel_state,
}
use distributed_rpc_js.Telemetry.{
  AttributeValue, text, number, state_text, default_resource, get_provider_identity,
}

-- class OtelTracer: the reference of its ProviderState, and whether it has a tracer of the libraries.
pub record OtelTracer : Type 0 where
  pub provider_state : ℕ
  pub tracing : Bool

-- The ProviderStates that were made, and the instances.
pub record Store : Type 0 where
  pub states : ℕ → ProviderState
  pub next_state : ℕ
  pub instances : Dict OtelTracer

pub data SpanKind : Type 0 where
  internal server client producer consumer : SpanKind

-- interface SpanOptions; the parent and the start are left out.
pub record SpanOptions : Type 0 where
  pub kind : Option SpanKind
  pub attributes : Dict AttributeValue

pub data NetworkDirection : Type 0 where
  inbound outbound : NetworkDirection

pub data NetworkProtocol : Type 0 where
  tcp udp : NetworkProtocol

-- interface NetworkSpanOptions
pub record NetworkSpanOptions : Type 0 where
  pub address : Option String
  pub port : Option ℕ
  pub protocol : Option NetworkProtocol
  pub direction : Option NetworkDirection
  pub attributes : Dict AttributeValue

-- A span of the tracer named "disabled", or one of the provider's tracer.
pub data Span : Type 0 where
  disabled : String → Span
  recorded : String → SpanKind → Dict AttributeValue → Span

-- `{ ...m, ...later }`
unfoldable pub spread : Dict AttributeValue → Dict AttributeValue → Dict AttributeValue
unfolding set
spread [] m = m
spread ((k, v) ∷ later) m = spread later (set k v m)

-- `getCommonAttributes`
unfoldable pub get_common_attributes : ProviderState → Dict AttributeValue
get_common_attributes s =
    ("provider.identity", text (get_provider_identity s))
    ∷ ("service.state", text (state_text s.state))
    ∷ []

unfoldable pub kind_or_internal : Option SpanKind → SpanKind
kind_or_internal none = internal
kind_or_internal (some kind) = kind

-- `createSpan`, of a tracer with this ProviderState.
unfoldable pub create_span : OtelTracer → ProviderState → String → SpanOptions → Span
create_span t s name options =
    if s.provider.enabled && t.tracing
    then recorded name (kind_or_internal options.kind)
        (spread options.attributes (get_common_attributes s))
    else disabled name

unfoldable pub protocol_text : Option NetworkProtocol → String
protocol_text (some udp) = "UDP"
protocol_text _ = "TCP"

unfoldable pub direction_text : Option NetworkDirection → String
direction_text (some outbound) = "outbound"
direction_text _ = "inbound"

abbrev pub peer_key : Option NetworkDirection → String
peer_key (some inbound) = "network.peer.source"
peer_key _ = "network.peer.target"

abbrev pub or_zero : Option ℕ → ℕ
or_zero none = 0
or_zero (some n) = n

module _ (port_text : Option ℕ → String) where
  -- The attributes of the peer; an empty address is none.
  unfoldable pub peer_attributes : NetworkSpanOptions → Dict AttributeValue
  peer_attributes o = elim o.address [
    | none ↦ []
    | some address ↦
        if str_eq address ""
        then []
        else (peer_key o.direction, text (address ++ ":" ++ port_text o.port))
          ∷ ("network.peer.address", text address)
          ∷ ("network.peer.port", number (or_zero o.port))
          ∷ []
  ]

  unfoldable pub network_attributes : String → NetworkSpanOptions → Dict AttributeValue
  network_attributes operation o =
      ("network.operation", text operation)
      ∷ ("network.protocol", text (protocol_text o.protocol))
      ∷ ("network.direction", text (direction_text o.direction))
      ∷ []

  -- `createNetworkSpan`
  unfoldable pub create_network_span :
      OtelTracer → ProviderState → String → NetworkSpanOptions → Span
  unfolding create_span peer_attributes network_attributes
  create_network_span t s operation o = create_span t s ("network." ++ operation) (record {
    kind = some server;
    attributes = spread o.attributes (spread (peer_attributes o) (network_attributes operation o));
  })

  -- `createBroadcastSpan`
  unfoldable pub create_broadcast_span :
      OtelTracer → ProviderState → String → NetworkSpanOptions → Span
  unfolding create_network_span
  create_broadcast_span t s operation o =
      create_network_span t s ("broadcast." ++ operation) (record o { protocol = some udp })

-- `new ProviderState(…)`: a new object.
unfoldable pub allocate : ProviderState → Store → ℕ × Store
allocate s w = (
  w.next_state,
  record w {
    states = λ r. if r == w.next_state then s else w.states r;
    next_state = suc w.next_state;
  },
)

-- `shutdown` of the instance of this name.
unfoldable pub shutdown : String → Store → Store
unfolding set get
shutdown id w = elim (get id w.instances) [
  | none ↦ w
  | some t ↦
      if t.tracing
      then record w { instances = set id (record t { tracing = false }) w.instances }
      else w
]

-- The OtelProviderState of `_initializeOtel`: the provider's, or a new one in its place.
unfoldable pub otel_reference : ℕ → Store → ℕ × Store
unfolding allocate otel_state
otel_reference r w = if (w.states r).otel then (r, w) else allocate (otel_state (w.states r)) w

module _ (works : ProviderInfo → Bool) where
  -- The constructor of OtelTracer, with `configure`.
  unfoldable pub new_otel_tracer : ℕ → Store → OtelTracer
  new_otel_tracer r w = record {
    provider_state = r;
    tracing = (w.states r).provider.enabled && works (w.states r).provider;
  }

  -- `configure` of the instance of this name: it keeps the tracer that it has, unless another is made.
  unfoldable pub configure : String → ℕ → Store → Store
  unfolding new_otel_tracer set get
  configure id r w = elim (get id w.instances) [
    | none ↦ w
    | some t ↦
        let made = new_otel_tracer r w in
        let kept : OtelTracer = record made {
          tracing = if made.tracing then true else t.tracing;
        } in
        record w { instances = set id kept w.instances }
  ]

  unfoldable pub make_instance : String → ℕ → Store → OtelTracer × Store
  unfolding new_otel_tracer set
  make_instance id r w =
      let t = new_otel_tracer r w in (t, record w { instances = set id t w.instances })

  -- `getInstance`
  unfoldable pub get_instance : String → Option ℕ → Store → OtelTracer × Store
  unfolding make_instance allocate get
  get_instance id given w = elim (get id w.instances) [
    | some t ↦ (t, w)
    | none ↦ elim given [
      | some r ↦ make_instance id r w
      | none ↦
          let (r, w') = allocate (new_provider_state false default_resource) w in
          make_instance id r w'
    ]
  ]

  -- `_releaseOtel` of a provider that has a tracer.
  unfoldable pub release_otel : String → Store → Store
  unfolding get_instance shutdown
  release_otel id w = let (t, w') = get_instance id none w in shutdown id w'

  -- `_initializeOtel`: the provider's reference afterwards, and its tracer.
  unfoldable pub initialize_otel : String → ℕ → Store → (ℕ × OtelTracer) × Store
  unfolding otel_reference get_instance
  initialize_otel id r w =
      let (r', w') = otel_reference r w in
      let (t, w'') = get_instance id (some r') w' in ((r', t), w'')
