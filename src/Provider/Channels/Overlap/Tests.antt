-- ===== src/Provider/Channels/Overlap/Tests.antt =====
-- Runs of overlapping calls of getResponseChannel: src/provider/service-provider.ts.
use distributed_rpc_js.Common.{◌≡◌, refl, true, [], ◌∷◌, ◌++◌}
use distributed_rpc_js.Common.Dict.{get, set}
use distributed_rpc_js.Types.{PeerIdentity}
use distributed_rpc_js.Provider.Channels.Overlap.{
  no_channels, called, informed, connected, released, got, steps, step, get_response_channel,
  store_client, give, release_response_channels, release_services, stop_clients, service_object,
  look_up,
}
use distributed_rpc_js.Provider.Channels.Overlap.Doubled.{
  two_calls, IsOpen, doubled_client-IsOpen, late_client-IsOpen,
}

abbrev billing : PeerIdentity
billing = record { service = "Billing"; instance_id = "b1" }

doubled_calls :
    let s = steps (two_calls billing ++ released ∷ []) no_channels in
    (s.calls 0 ≡ got 0) × (s.calls 1 ≡ got 1) × IsOpen 0 s × (s.is_stopped 1 ≡ true)
doubled_calls = doubled_client-IsOpen billing refl

-- A second call that comes after the first is answered gives the same client, and its release
-- stops it.
shared_client :
    let s =
      steps
        (called billing ∷ informed 0 ∷ connected 0 ∷ called billing ∷ released ∷ [])
        no_channels in
    (s.calls 1 ≡ got 0) × (s.is_stopped 0 ≡ true)
unfolding steps step get_response_channel store_client give release_response_channels
    release_services stop_clients service_object look_up get set
shared_client = (refl, refl)

late_call :
    let s =
      steps (called billing ∷ released ∷ informed 0 ∷ connected 0 ∷ released ∷ []) no_channels in
    (s.calls 0 ≡ got 0) × IsOpen 0 s
late_call = late_client-IsOpen billing refl
