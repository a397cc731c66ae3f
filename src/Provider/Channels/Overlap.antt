-- ===== src/Provider/Channels/Overlap.antt =====
-- getResponseChannel and _releaseResponseChannels (src/provider/service-provider.ts), over calls that
-- overlap: a call waits for askProviderInfo and then for the start of its client, and its waits end
-- by events. The object of a service, which a call keeps over its first wait, is a number. No start
-- fails, and stopping a client never does.
pub mod Doubled
mod Tests
use distributed_rpc_js.Common.{
  ℕ, suc, ◌==◌, Bool, true, false, Option, none, some, List, [], ◌∷◌, String, if◌then◌else◌,
}
use distributed_rpc_js.Common.Dict.{Dict, get, set}
use distributed_rpc_js.Types.{PeerIdentity}
use distributed_rpc_js.Network.Client.Overlap.{update}
use distributed_rpc_js.Provider.Channels.{has_target}

-- How far a call is: it waits for the information, with the object and the instance, or for the
-- start of a client, or it has given a client or thrown.
pub data Call : Type 0 where
  uncalled refused : Call
  asking : ℕ → String → Call
  starting got : ℕ → Call

-- `chnResp`, the objects in it, the calls, and for each client whether it is connected, has the
-- handler _handleChannelResponse, and was stopped.
pub record Channels : Type 0 where
  pub services : Dict ℕ
  pub objects : ℕ → Dict ℕ
  pub next_object : ℕ
  pub calls : ℕ → Call
  pub next_call : ℕ
  pub next_client : ℕ
  pub is_connected : ℕ → Bool
  pub is_heard : ℕ → Bool
  pub is_stopped : ℕ → Bool

abbrev pub no_channels : Channels
no_channels = record {
  services = [];
  objects = λ o. [];
  next_object = 0;
  calls = λ k. uncalled;
  next_call = 0;
  next_client = 0;
  is_connected = λ x. false;
  is_heard = λ x. false;
  is_stopped = λ x. false;
}

pub data Event : Type 0 where
  called : PeerIdentity → Event
  informed uninformed connected : ℕ → Event
  released : Event

-- `chnResp[service]`, which is made where there is none.
unfoldable pub service_object : String → Channels → ℕ × Channels
unfolding get set
service_object service s = elim (get service s.services) [
  | some o ↦ (o, s)
  | none ↦ (
    s.next_object,
    record s {
      services = set service s.next_object s.services;
      objects = update s.next_object [] s.objects;
      next_object = suc s.next_object;
    },
  )
]

-- The call, up to its first wait.
unfoldable pub look_up : ℕ → String → Channels → Channels
unfolding get
look_up o instance_id s = record s {
  calls =
      update s.next_call
        (elim (get instance_id (s.objects o)) [ some x ↦ got x | none ↦ asking o instance_id ])
        s.calls;
  next_call = suc s.next_call;
}

-- `getResponseChannel`
unfoldable pub get_response_channel : PeerIdentity → Channels → Channels
unfolding service_object look_up
get_response_channel peer s =
    if has_target (some peer)
    then (let (o, s') = service_object peer.service s in look_up o peer.instance_id s')
    else record s { calls = update s.next_call refused s.calls; next_call = suc s.next_call }

-- After the first wait, with the information: a client is made, stored and started.
unfoldable pub store_client : ℕ → Call → Channels → Channels
unfolding set
store_client k (asking o instance_id) s = record s {
  objects = update o (set instance_id s.next_client (s.objects o)) s.objects;
  calls = update k (starting s.next_client) s.calls;
  next_client = suc s.next_client;
}
store_client k uncalled s = s
store_client k refused s = s
store_client k (starting x) s = s
store_client k (got x) s = s

unfoldable pub refuse : ℕ → Call → Channels → Channels
refuse k (asking o instance_id) s = record s { calls = update k refused s.calls }
refuse k uncalled s = s
refuse k refused s = s
refuse k (starting x) s = s
refuse k (got x) s = s

-- After the second wait: the handler is attached.
unfoldable pub give : ℕ → Call → Channels → Channels
give k (starting x) s = if s.is_stopped x then s else record s {
  calls = update k (got x) s.calls;
  is_connected = update x true s.is_connected;
  is_heard = update x true s.is_heard;
}
give k uncalled s = s
give k refused s = s
give k (asking o i) s = s
give k (got x) s = s

abbrev pub stop_client : ℕ → Channels → Channels
stop_client x s = record s {
  is_connected = update x false s.is_connected;
  is_heard = update x false s.is_heard;
  is_stopped = update x true s.is_stopped;
}

-- The clients of one object, and of all the services.
unfoldable pub stop_clients : Dict ℕ → Channels → Channels
stop_clients [] s = s
stop_clients ((i, x) ∷ clients) s = stop_clients clients (stop_client x s)

unfoldable pub release_services : Dict ℕ → Channels → Channels
unfolding stop_clients
release_services [] s = s
release_services ((name, o) ∷ services) s =
    let s' = stop_clients (s.objects o) s in
    release_services services (record s' { objects = update o [] s'.objects })

-- `_releaseResponseChannels`
unfoldable pub release_response_channels : Channels → Channels
unfolding release_services
release_response_channels s = record (release_services s.services s) { services = [] }

unfoldable pub step : Event → Channels → Channels
unfolding get_response_channel store_client refuse give release_response_channels
step (called peer) s = get_response_channel peer s
step (informed k) s = store_client k (s.calls k) s
step (uninformed k) s = refuse k (s.calls k) s
step (connected k) s = give k (s.calls k) s
step released s = release_response_channels s

unfoldable pub steps : List Event → Channels → Channels
unfolding step
steps [] s = s
steps (e ∷ es) s = steps es (step e s)
