-- ===== src/Provider/Channels/Overlap/Doubled.antt =====
-- Two requests of a new peer at the same time: src/provider/service-provider.ts.
use distributed_rpc_js.Common.{
  ℕ, ◌≡◌, refl, sym, ap, ◌∙◌, true, false, String, some, List, [], ◌∷◌, ◌++◌, eq_refl,
}
use mathlib.Core.Path.{subst}
use distributed_rpc_js.Types.{PeerIdentity}
use distributed_rpc_js.Provider.Channels.{has_target}
use distributed_rpc_js.Common.Dict.{get, set}
use distributed_rpc_js.Provider.Channels.Overlap.{
  Channels, no_channels, Event, called, informed, connected, released, got, steps, step,
  get_response_channel, store_client, give, release_response_channels, release_services,
  stop_clients, service_object, look_up,
}

-- The second call comes before the first has its information; then both are answered and connect.
abbrev pub two_calls : PeerIdentity → List Event
two_calls peer =
    called peer ∷ called peer ∷ informed 0 ∷ informed 1 ∷ connected 0 ∷ connected 1 ∷ []

-- The client is connected and heard, and was not stopped.
abbrev pub IsOpen : ℕ → Channels → Type 0
IsOpen x s = (s.is_connected x ≡ true) × (s.is_heard x ≡ true) × (s.is_stopped x ≡ false)

abbrev one_asking : String → String → Channels
one_asking service instance_id = look_up 0 instance_id (service_object service no_channels).1

called_named :
    (peer : PeerIdentity) (s : Channels)
    → has_target (some peer) ≡ true
    → step (called peer) s
      ≡ look_up (service_object peer.service s).0 peer.instance_id (service_object peer.service s).1
unfolding step get_response_channel
called_named peer s named = rw (named) refl

service_object_known :
    (service : String) (o : ℕ) (s : Channels)
    → get service s.services ≡ some o
    → service_object service s ≡ (o, s)
unfolding service_object
service_object_known service o s known = rw (service_object, known) refl

one_asking-services :
    (service instance_id : String) → get service (one_asking service instance_id).services ≡ some 0
unfolding get set look_up service_object
one_asking-services service instance_id = rw (eq_refl service) refl

called_twice :
    (peer : PeerIdentity)
    → has_target (some peer) ≡ true
    → step (called peer) (step (called peer) no_channels)
      ≡ look_up 0 peer.instance_id (one_asking peer.service peer.instance_id)
unfolding look_up step
called_twice peer named =
    let once = called_named peer no_channels named in
    let s = one_asking peer.service peer.instance_id in
    let known =
      service_object_known peer.service 0 s (one_asking-services peer.service peer.instance_id) in
    ap (step (called peer)) once
    ∙ called_named peer s named
    ∙ ap (λ w. look_up w.0 peer.instance_id w.1) known

abbrev Doubled : Channels → Type 0
Doubled s = (s.calls 0 ≡ got 0) × (s.calls 1 ≡ got 1) × IsOpen 0 s × (s.is_stopped 1 ≡ true)

answered :
    (service instance_id : String)
    → Doubled (
        steps
          (informed 0 ∷ informed 1 ∷ connected 0 ∷ connected 1 ∷ released ∷ [])
          (look_up 0 instance_id (one_asking service instance_id)))
unfolding steps step store_client give release_response_channels release_services stop_clients
    service_object look_up get set
answered service instance_id = rw (eq_refl instance_id) (refl, refl, (refl, refl, refl), refl)

-- Of two calls for one named peer of an empty pool, of which the second comes before the first has
-- its information and which are informed and connected in their order, each is given a client; after
-- the release the second client is stopped, while the first is still connected and heard.
pub doubled_client-IsOpen :
    (peer : PeerIdentity)
    → has_target (some peer) ≡ true
    → let s = steps (two_calls peer ++ released ∷ []) no_channels in
      (s.calls 0 ≡ got 0) × (s.calls 1 ≡ got 1) × IsOpen 0 s × (s.is_stopped 1 ≡ true)
unfolding steps
doubled_client-IsOpen peer named =
    let rest = informed 0 ∷ informed 1 ∷ connected 0 ∷ connected 1 ∷ released ∷ [] in
    subst (λ s. Doubled (steps rest s)) (sym (called_twice peer named))
      (answered peer.service peer.instance_id)

late :
    (service instance_id : String)
    → let s =
        steps
          (released ∷ informed 0 ∷ connected 0 ∷ released ∷ [])
          (one_asking service instance_id) in
      (s.calls 0 ≡ got 0) × IsOpen 0 s
unfolding steps step store_client give release_response_channels release_services stop_clients
    service_object look_up get set
late service instance_id = (refl, (refl, refl, refl))

-- A call that waits for the information while the channels are released is given a client outside
-- the pool, which the next release does not stop.
pub late_client-IsOpen :
    (peer : PeerIdentity)
    → has_target (some peer) ≡ true
    → let s =
        steps (called peer ∷ released ∷ informed 0 ∷ connected 0 ∷ released ∷ []) no_channels in
      (s.calls 0 ≡ got 0) × IsOpen 0 s
unfolding steps
late_client-IsOpen peer named =
    let rest = released ∷ informed 0 ∷ connected 0 ∷ released ∷ [] in
    subst (λ s. ((steps rest s).calls 0 ≡ got 0) × IsOpen 0 (steps rest s))
      (sym (called_named peer no_channels named)) (late peer.service peer.instance_id)
