-- ===== src/Network/Udp/Tests.antt =====
-- Runs of a UdpClient and of discoveries.
use distributed_rpc_js.Common.{ℕ, ◌≡◌, refl, false, none, some, List, [], ◌∷◌}
use distributed_rpc_js.Network.{attempted_by, is_network_retryable}
use distributed_rpc_js.Retry.{RetryConfig, failure}
use distributed_rpc_js.Retry.Quiet.{expected}
use distributed_rpc_js.Network.Udp.{Peer}
use distributed_rpc_js.Network.Udp.Client.{
  UdpClient, Bind, bound, errored, new_udp_client, Incident, arrives,
}
use distributed_rpc_js.Network.Udp.Client.Starting.{outcome_of}
use distributed_rpc_js.Network.Udp.Discovery.{
  Parsed, unreadable, complete, found, Surroundings, discover,
}
use distributed_rpc_js.Network.Udp.Discovery.Outcomes.{described, LeavesAfter, discover-described}

abbrev two_tries : RetryConfig
two_tries = record {
  backoff = record { enabled = false; max_delay = 5000; multiplier = 2 };
  interval = 1000;
  max_retries = some 2;
}

-- The first byte of a datagram stands for its response.
abbrev first_byte : List ℕ → Parsed ℕ
first_byte [] = unreadable
first_byte (b ∷ bs) = complete b

abbrev manager_peer : Peer
manager_peer = record { address = "10.0.0.7"; port = 5707 }

abbrev network : List Bind → List Incident → Surroundings ℕ
network binds incidents = record {
  binds = binds;
  broadcast_throws = none;
  close_throws = some (failure "ERR_SOCKET_DGRAM_NOT_RUNNING");
  parse = first_byte;
  incidents = incidents;
}

-- The second attempt to bind succeeds, and one manager answers.
abbrev answered : Surroundings ℕ
answered =
    network (errored "EADDRINUSE" ∷ bound (some 40000) ∷ [])
      (arrives manager_peer (7 ∷ 8 ∷ []) ∷ arrives manager_peer (9 ∷ []) ∷ [])

abbrev unbound : Surroundings ℕ
unbound = network (errored "EADDRINUSE" ∷ errored "EACCES" ∷ []) []

answered_once :
    described 0 answered (expected (outcome_of false) answered.binds 1) ≡ found (7 ∷ []) 1
unfolding expected outcome_of attempted_by is_network_retryable
answered_once = refl

discover-described_example :
    let attempted = expected (outcome_of false) answered.binds 1 in
    ((discover two_tries 0 answered new_udp_client).0 ≡ described 0 answered attempted)
    × LeavesAfter answered attempted
        (described 0 answered attempted)
        (discover two_tries 0 answered new_udp_client).1
unfolding new_udp_client
discover-described_example = discover-described two_tries 1 refl 0 answered new_udp_client refl

abbrev given_up : UdpClient
given_up = (discover two_tries 1 unbound new_udp_client).1
