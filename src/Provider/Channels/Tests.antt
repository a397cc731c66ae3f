-- ===== src/Provider/Channels/Tests.antt =====
-- Runs of the response channels.
use distributed_rpc_js.Common.{
  ◌≡◌, ◌≢◌, refl, true, false, arith, none, some, List, [], ◌∷◌, All, eq_iff,
}
use distributed_rpc_js.Common.Dict.{get}
use distributed_rpc_js.Types.{PeerIdentity}
use distributed_rpc_js.Network.{attempted_by, is_network_retryable}
use distributed_rpc_js.Retry.{
  RetryConfig, failure, run, iterate, settle, begin_attempt, new_scheduler,
}
use distributed_rpc_js.Network.{attempted_by, is_network_retryable}
use distributed_rpc_js.Retry.Quiet.{expected}
use distributed_rpc_js.Network.Client.{
  Connect, connected, refused, start, get_socket, attempt_connect, connect,
}
use distributed_rpc_js.Network.Client.Starting.{outcome_of}
use distributed_rpc_js.Provider.Channels.{
  Channel, known, unknown, Got, got, channel_for, get_response_channel, channel_to, make_channel,
  started_as, release_response_channels, released, new_tcp_client,
}
use distributed_rpc_js.Provider.Channels.Release.{Call, call_all, IsReleased, release-empty}
use distributed_rpc_js.Provider.Channels.Opening.{failed_channel_given}

abbrev two_tries : RetryConfig
two_tries = record {
  backoff = record { enabled = false; max_delay = 5000; multiplier = 2 };
  interval = 1000;
  max_retries = some 2;
}

abbrev billing : PeerIdentity
billing = record { service = "Billing"; instance_id = "b1" }

abbrev stock : PeerIdentity
stock = record { service = "Stock"; instance_id = "s1" }

abbrev call_to : List Connect → PeerIdentity → Call
call_to es peer = record { connects = es; asked = known; peer = some peer }

abbrev three_calls : List Call
three_calls =
    call_to (connected ∷ []) billing
    ∷ call_to (refused "EADDRNOTAVAIL" ∷ refused "ENETDOWN" ∷ []) stock
    ∷ record { connects = []; asked = unknown; peer = none }
    ∷ []

release-empty_example :
    let pool = call_all two_tries three_calls [] in
    (release_response_channels pool ≡ (none, [])) × All IsReleased (released pool)
release-empty_example = release-empty two_tries three_calls

abbrev first_channel : Channel
first_channel = record {
  client = (start two_tries (connected ∷ []) new_tcp_client).1;
  is_heard = true;
}

services_differ : billing.service ≢ stock.service
services_differ e = ground (arith, eq_iff billing.service stock.service)

first_given : (channel_for two_tries (connected ∷ []) known (some billing) []).0 ≡ got first_channel
unfolding get channel_for get_response_channel channel_to make_channel started_as start run iterate
    settle begin_attempt attempt_connect connect new_tcp_client new_scheduler
first_given = refl

abbrev no_network : List Connect
no_network = refused "ENETDOWN" ∷ refused "ENETDOWN" ∷ []

failed_channel_given_example :
    let (first, later) = channel_for two_tries no_network known (some billing) [] in
    let client = (start two_tries no_network new_tcp_client).1 in
    (first ≡ Got.refused (failure "ENETDOWN"))
    × ((channel_for two_tries (connected ∷ []) known (some billing) later).0
        ≡ got (record { client = client; is_heard = false }))
    × (get_socket client ≡ none)
unfolding expected outcome_of get attempted_by is_network_retryable
failed_channel_given_example =
    failed_channel_given two_tries two_tries 1 refl no_network (connected ∷ []) known billing []
      refl (failure "ENETDOWN") refl refl refl
