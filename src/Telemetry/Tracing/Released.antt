-- ===== src/Telemetry/Tracing/Released.antt =====
-- A tracer that was released: src/metrics/otel-tracing.ts, and src/provider/service-provider.ts.
use distributed_rpc_js.Common.{
  ℕ, ◌≡◌, ◌≢◌, refl, Bool, true, false, Option, none, some, List, [], ◌∷◌, String, eq_iff, arith,
  ◌==◌, if◌then◌else◌, not,
}
use distributed_rpc_js.Common.Dict.{get, get-set, get-set_self, get-set_ne}
use distributed_rpc_js.Provider.Identity.{ProviderInfo, ProviderState, new_provider_state}
use distributed_rpc_js.Telemetry.{default_resource}
use distributed_rpc_js.Telemetry.Tracing.{
  OtelTracer, Store, SpanOptions, disabled, create_span, make_instance, configure, get_instance,
  allocate, new_otel_tracer, shutdown, release_otel, otel_reference, initialize_otel,
}

-- What anyone does with the tracers: a provider takes or releases one, others ask for one, with a
-- ProviderState or without, one is configured again, and a ProviderState changes.
pub data Use : Type 0 where
  taken : String → ℕ → Use
  released : String → Use
  asked : String → Option ℕ → Use
  configured : String → ℕ → Use
  state_changed : ℕ → ProviderState → Use

module _ (works : ProviderInfo → Bool) where
  unfoldable pub use_tracers : Use → Store → Store
  unfolding initialize_otel release_otel get_instance configure
  use_tracers (taken id r) w = (initialize_otel works id r w).1
  use_tracers (released id) w = release_otel works id w
  use_tracers (asked id given) w = (get_instance works id given w).1
  use_tracers (configured id r) w = configure works id r w
  use_tracers (state_changed r s) w = record w { states = λ q. if q == r then s else w.states q }

  unfoldable pub use_all : List Use → Store → Store
  unfolding use_tracers
  use_all [] w = w
  use_all (u ∷ us) w = use_all us (use_tracers u w)

-- The instance of this name is not configured again.
abbrev pub Unconfigured : String → List Use → Type 0
Unconfigured id [] = Unit
Unconfigured id (configured k r ∷ us) = (k ≢ id) × Unconfigured id us
Unconfigured id (u ∷ us) = Unconfigured id us

-- The instance of this name traces nothing.
abbrev is_dead : Option OtelTracer → Bool
is_dead none = false
is_dead (some t) = not t.tracing

Dead : String → Store → Type 0
Dead id w = is_dead (get id w.instances) ≡ true

module _ (works : ProviderInfo → Bool) (id : String) where
  shutdown-Dead : (k : String) (w : Store) → Dead id w → Dead id (shutdown k w)
  unfolding shutdown Dead
  shutdown-Dead k w dead = at (get k w.instances) refl
    where
      at : (found : Option OtelTracer) → get k w.instances ≡ found → Dead id (shutdown k w)
      at none h = rw (h, shutdown) dead
      at (some t) h =
          rw (h, shutdown)
            (ground
              (arith, dead, eq_iff k id, get-set k id (record t { tracing = false }) w.instances))

  make_instance-Dead :
      (k : String) (r : ℕ) (w : Store)
      → get k w.instances ≡ none
      → Dead id w
      → Dead id (make_instance works k r w).1
  unfolding make_instance Dead
  make_instance-Dead k r w absent dead =
      ground
        (arith, dead, absent, eq_iff k id, get-set k id (new_otel_tracer works r w) w.instances)

  get_instance-Dead :
      (k : String) (given : Option ℕ) (w : Store)
      → Dead id w
      → Dead id (get_instance works k given w).1
  unfolding get_instance allocate Dead
  get_instance-Dead k given w dead = at (get k w.instances) refl given
    where
      at :
          (found : Option OtelTracer)
          → get k w.instances ≡ found
          → (o : Option ℕ) → Dead id (get_instance works k o w).1
      at (some t) h o = rw (h, get_instance) dead
      at none h none =
          rw (h, get_instance)
            (make_instance-Dead k w.next_state
              (allocate (new_provider_state false default_resource) w).1 h dead)
      at none h (some r) = rw (h, get_instance) (make_instance-Dead k r w h dead)

  -- An instance is among the instances after it was asked for.
  get_instance_there :
      (given : Option ℕ) (w : Store)
      → let (t, w') = get_instance works id given w in get id w'.instances ≡ some t
  unfolding get_instance make_instance allocate
  get_instance_there given w = at (get id w.instances) refl given
    where
      at :
          (found : Option OtelTracer)
          → get id w.instances ≡ found
          → (o : Option ℕ) → let (t, w') = get_instance works id o w in get id w'.instances ≡ some t
      at (some t) h o = rw (h, get_instance) h
      at none h none = rw (h, get_instance) (get-set_self id _ w.instances)
      at none h (some r) = rw (h, get_instance) (get-set_self id _ w.instances)

  shutdown_there :
      (t : OtelTracer) (w : Store) → get id w.instances ≡ some t → Dead id (shutdown id w)
  unfolding shutdown Dead
  shutdown_there t w there =
      rw (there, shutdown)
        (ground (arith, there, get-set_self id (record t { tracing = false }) w.instances))

  release_otel-Dead : (w : Store) → Dead id (release_otel works id w)
  unfolding release_otel
  release_otel-Dead w =
      let (t, w') = get_instance works id none w in shutdown_there t w' (get_instance_there none w)

  configure-Dead :
      (k : String) (r : ℕ) (w : Store) → k ≢ id → Dead id w → Dead id (configure works k r w)
  unfolding configure Dead
  configure-Dead k r w apart dead = at (get k w.instances) refl
    where
      at : (found : Option OtelTracer) → get k w.instances ≡ found → Dead id (configure works k r w)
      at none h = rw (h, configure) dead
      at (some t) h = rw (h, configure, get-set_ne k id _ w.instances apart) dead

  use_tracers-Dead :
      (u : Use) (w : Store) → Unconfigured id (u ∷ []) → Dead id w → Dead id (use_tracers works u w)
  unfolding use_tracers initialize_otel release_otel otel_reference allocate Dead
  use_tracers-Dead (configured k r) w (apart, rest) dead = configure-Dead k r w apart dead
  use_tracers-Dead (taken k r) w calm dead =
      get_instance-Dead k (some (otel_reference r w).0) (otel_reference r w).1
        (ground (arith, dead))
  use_tracers-Dead (released k) w calm dead =
      let (t, w') = get_instance works k none w in
      shutdown-Dead k w' (get_instance-Dead k none w dead)
  use_tracers-Dead (asked k given) w calm dead = get_instance-Dead k given w dead
  use_tracers-Dead (state_changed r s) w calm dead = dead

  use_all-Dead :
      (us : List Use) (w : Store) → Unconfigured id us → Dead id w → Dead id (use_all works us w)
  unfolding use_all
  use_all-Dead [] w calm dead = dead
  use_all-Dead (configured k r ∷ us) w (apart, calm) dead =
      use_all-Dead us (use_tracers works (configured k r) w) calm
        (use_tracers-Dead (configured k r) w (apart, tt) dead)
  use_all-Dead (taken k r ∷ us) w calm dead =
      use_all-Dead us (use_tracers works (taken k r) w) calm
        (use_tracers-Dead (taken k r) w tt dead)
  use_all-Dead (released k ∷ us) w calm dead =
      use_all-Dead us (use_tracers works (released k) w) calm
        (use_tracers-Dead (released k) w tt dead)
  use_all-Dead (asked k given ∷ us) w calm dead =
      use_all-Dead us (use_tracers works (asked k given) w) calm
        (use_tracers-Dead (asked k given) w tt dead)
  use_all-Dead (state_changed r s ∷ us) w calm dead =
      use_all-Dead us (use_tracers works (state_changed r s) w) calm
        (use_tracers-Dead (state_changed r s) w tt dead)

  -- A tracer that is among the instances and traces nothing makes no span.
  Dead-disabled :
      (w : Store) (t : OtelTracer) (s : ProviderState) (name : String) (options : SpanOptions)
      → Dead id w
      → get id w.instances ≡ some t
      → create_span t s name options ≡ disabled name
  unfolding create_span Dead
  Dead-disabled w t s name options dead there = ground (arith, dead, there)

  -- After a provider has released its tracer, whatever is done with the tracers but a call of
  -- `configure` on this one, the tracer that it takes again makes disabled spans only, for every
  -- state of the provider, name and options.
  pub released-untraced :
      (w : Store) (us : List Use) (r : ℕ) (s : ProviderState) (name : String)
      (options : SpanOptions)
      → Unconfigured id us
      → let ((r', t), w') =
          initialize_otel works id r (use_all works us (release_otel works id w)) in
        create_span t s name options ≡ disabled name
  unfolding initialize_otel use_all use_tracers
  released-untraced w us r s name options calm =
      let w1 = use_all works us (release_otel works id w) in
      let w2 = (otel_reference r w1).1 in
      let w3 = get_instance works id (some (otel_reference r w1).0) w2 in
      Dead-disabled w3.1 w3.0 s name options
        (use_tracers-Dead (taken id r) w1 tt
          (use_all-Dead us (release_otel works id w) calm (release_otel-Dead w)))
        (get_instance_there (some (otel_reference r w1).0) w2)
