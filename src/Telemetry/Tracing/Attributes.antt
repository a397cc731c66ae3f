-- ===== src/Telemetry/Tracing/Attributes.antt =====
-- The attributes of the spans: src/metrics/otel-tracing.ts.
use distributed_rpc_js.Common.{
  ℕ, ◌≡◌, refl, ap, ◌∙◌, Bool-cases, inl, inr, true, Option, none, some, [], ◌∷◌, String, str_eq,
  eq_iff, arith,
}
use distributed_rpc_js.Common.Dict.{Dict, Distinct, get, set, get-set, set-Distinct}
use distributed_rpc_js.Provider.Identity.{ProviderState}
use distributed_rpc_js.Telemetry.{AttributeValue, get_provider_identity}
use distributed_rpc_js.Telemetry.Tracing.{
  OtelTracer, Span, disabled, recorded, NetworkSpanOptions, NetworkDirection, inbound, outbound,
  spread, create_span, create_network_span, peer_attributes, network_attributes,
  get_common_attributes,
}

infixr 40 ◌or◌
abbrev pub ◌or◌ : Option AttributeValue → Option AttributeValue → Option AttributeValue
none or b = b
some v or b = some v

get-spread :
    (k : String) (later m : Dict AttributeValue)
    → Distinct later
    → get k (spread later m) ≡ (get k later or get k m)
unfolding spread Distinct get
get-spread k [] m distinct = refl
get-spread k ((j, v) ∷ later) m (absent, distinct) =
    ground (arith, get-spread k later (set j v m) distinct, get-set j k v m, eq_iff j k, absent)

spread-Distinct : (later m : Dict AttributeValue) → Distinct m → Distinct (spread later m)
unfolding spread
spread-Distinct [] m distinct = distinct
spread-Distinct ((k, v) ∷ later) m distinct =
    spread-Distinct later (set k v m) (set-Distinct k v m distinct)

network_attributes-Distinct :
    (port_text : Option ℕ → String) (operation : String) (o : NetworkSpanOptions)
    → Distinct (network_attributes port_text operation o)
unfolding network_attributes Distinct get
network_attributes-Distinct port_text operation o = (refl, (refl, (refl, tt)))

peer_attributes-Distinct :
    (port_text : Option ℕ → String) (o : NetworkSpanOptions)
    → Distinct (peer_attributes port_text o)
unfolding peer_attributes Distinct get
peer_attributes-Distinct port_text o = at o.address refl o.direction refl
  where
    at :
        (address : Option String)
        → o.address ≡ address
        → (direction : Option NetworkDirection) → o.direction ≡ direction
        → Distinct (peer_attributes port_text o)
    at none h d e = rw (h, peer_attributes) tt
    at (some a) h none e = elim (Bool-cases (str_eq a "")) [
      | inl empty ↦ rw (h, e, peer_attributes, empty) tt
      | inr named ↦ rw (h, e, peer_attributes, named) (refl, (refl, (refl, tt)))
    ]
    at (some a) h (some inbound) e = elim (Bool-cases (str_eq a "")) [
      | inl empty ↦ rw (h, e, peer_attributes, empty) tt
      | inr named ↦ rw (h, e, peer_attributes, named) (refl, (refl, (refl, tt)))
    ]
    at (some a) h (some outbound) e = elim (Bool-cases (str_eq a "")) [
      | inl empty ↦ rw (h, e, peer_attributes, empty) tt
      | inr named ↦ rw (h, e, peer_attributes, named) (refl, (refl, (refl, tt)))
    ]

or_assoc : (a b c : Option AttributeValue) → ((a or b) or c) ≡ (a or b or c)
or_assoc none b c = refl
or_assoc (some v) b c = refl

-- What a span that is recorded says of a key.
unfoldable pub attribute : String → Span → Option AttributeValue
unfolding get
attribute k (disabled name) = none
attribute k (recorded name kind attributes) = get k attributes

-- A network span of a tracer that traces, for an enabled provider, has for each key the attribute
-- that the caller gives, else that of the peer, else that of the operation, else that of the
-- provider, if the caller gives each key once.
pub create_network_span-attribute :
    (port_text : Option ℕ → String) (t : OtelTracer) (s : ProviderState) (operation : String)
    (o : NetworkSpanOptions) (k : String)
    → s.provider.enabled ≡ true
    → t.tracing ≡ true
    → Distinct o.attributes
    → attribute k (create_network_span port_text t s operation o) ≡ (
        get k o.attributes
        or get k (peer_attributes port_text o)
        or get k (network_attributes port_text operation o)
        or get k (get_common_attributes s))
unfolding create_network_span create_span attribute get_common_attributes get_provider_identity
create_network_span-attribute port_text t s operation o k enabled traces distinct =
    let network = network_attributes port_text operation o in
    let peer = peer_attributes port_text o in
    let common = get_common_attributes s in
    let base = spread peer network in
    let base_distinct =
      spread-Distinct peer network (network_attributes-Distinct port_text operation o) in
    let all_distinct = spread-Distinct o.attributes base base_distinct in
    let outer = get-spread k (spread o.attributes base) common all_distinct in
    let inner = get-spread k o.attributes base distinct in
    let innermost = get-spread k peer network (peer_attributes-Distinct port_text o) in
    rw (enabled, traces, create_span)
      (outer
        ∙ (ap (λ v. v or get k common) (inner ∙ ap (λ v. get k o.attributes or v) innermost)
            ∙ (or_assoc (get k o.attributes) (get k peer or get k network) (get k common)
                ∙ ap (λ v. get k o.attributes or v)
                    (or_assoc (get k peer) (get k network) (get k common)))))
