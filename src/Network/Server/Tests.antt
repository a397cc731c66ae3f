-- ===== src/Network/Server/Tests.antt =====
-- Runs of a TcpServer.
use distributed_rpc_js.Common.{
  ℕ, ◌+◌, ◌*◌, ◌≤◌, ◌≡◌, ◌≢◌, refl, true, false, none, some, List, [], ◌∷◌, arith, length, ◌==◌,
}
use distributed_rpc_js.Types.{stopped}
use distributed_rpc_js.Network.{attempted_by, is_network_retryable}
use distributed_rpc_js.Retry.{RetryConfig, failure, returned, threw}
use distributed_rpc_js.Network.Server.{
  TcpServer, Activity, opens, sends, closes, fails, Listen, bound, errored, closed, start,
  broadcast,
}
use distributed_rpc_js.Retry.Quiet.{expected}
use distributed_rpc_js.Network.Server.Starting.{
  outcome_of, LeftAs, start-expected, start_failed_again,
}
use distributed_rpc_js.Network.Server.Traffic.{
  handle_all, received, is_tracked, is_open, live, accepting, handle_all-tracks, broadcast_counts,
}

abbrev three_tries : RetryConfig
three_tries = record {
  backoff = record { enabled = true; max_delay = 5000; multiplier = 2 };
  interval = 1000;
  max_retries = some 3;
}

abbrev idle : TcpServer
idle = record {
  state = stopped;
  port = 0;
  sockets = [];
  tx_bytes = 0;
  rx_bytes = 0;
  error_listeners = 1;
  events = [];
}

abbrev late : List Listen
late = errored "EADDRINUSE" ∷ closed ∷ bound (some 8080) ∷ []

abbrev denied : List Listen
denied = errored "EACCES" ∷ errored "EACCES" ∷ errored "EACCES" ∷ bound none ∷ []

late_returned : expected (outcome_of true) late 2 ≡ returned
unfolding expected outcome_of attempted_by is_network_retryable
late_returned = refl

start-expected_example :
    ((start three_tries 80 late idle).0 ≡ expected (outcome_of true) late 2)
    × LeftAs (expected (outcome_of true) late 2) (start three_tries 80 late idle).1
start-expected_example = start-expected three_tries 2 refl 80 late idle refl

denied_threw : (start three_tries 80 denied idle).0 ≡ threw (failure "EACCES")
unfolding expected outcome_of attempted_by is_network_retryable
denied_threw = (start-expected three_tries 2 refl 80 denied idle refl).0

start_failed_again_example :
    start three_tries 80 late (start three_tries 80 denied idle).1
    ≡ (returned, (start three_tries 80 denied idle).1)
start_failed_again_example =
    start_failed_again three_tries 2 refl 80 80 denied late idle "EACCES" refl denied_threw

abbrev traffic : List Activity
traffic =
    opens 1
    ∷ opens 2
    ∷ sends 1 (7 ∷ 8 ∷ [])
    ∷ fails 2 (failure "ECONNRESET")
    ∷ closes 2 true
    ∷ sends 1 (9 ∷ [])
    ∷ []

one_listener : idle.error_listeners ≢ 0
one_listener e = omega arith

received_three :
    (received traffic ≡ 3) × (is_open 1 false traffic ≡ true) × (is_open 2 false traffic ≡ false)
unfolding received is_open
received_three = (refl, refl, refl)

handle_all-tracks_example :
    ((handle_all traffic idle).0 ≡ none)
    × ((handle_all traffic idle).1.rx_bytes ≡ idle.rx_bytes + received traffic)
    × ((id : ℕ)
        → is_tracked id (handle_all traffic idle).1.sockets
          ≡ is_open id (is_tracked id idle.sockets) traffic)
handle_all-tracks_example = handle_all-tracks traffic idle one_listener

-- Two open sockets and a destroyed one; the second must buffer.
abbrev busy : TcpServer
busy = record idle {
  sockets =
      record { id = 1; destroyed = false }
      ∷ record { id = 2; destroyed = false }
      ∷ record { id = 3; destroyed = true }
      ∷ [];
}

abbrev two_bytes : List ℕ
two_bytes = 7 ∷ 8 ∷ []

broadcast_counts_example :
    ((broadcast (λ id. id == 1) two_bytes busy).0
      ≡ length two_bytes * accepting (λ id. id == 1) busy.sockets)
    × (accepting (λ id. id == 1) busy.sockets ≤ live busy.sockets)
    × ((broadcast (λ id. id == 1) two_bytes busy).1.tx_bytes
        ≡ busy.tx_bytes + (broadcast (λ id. id == 1) two_bytes busy).0)
broadcast_counts_example = broadcast_counts (λ id. id == 1) two_bytes busy
