-- ===== src/Network/Client/Tests.antt =====
-- Runs of a TcpClient.
use distributed_rpc_js.Common.{◌+◌, ◌≡◌, refl, true, false, Option, none, some, List, [], ◌∷◌}
use distributed_rpc_js.Types.{ExecutionState, stopped, running}
use distributed_rpc_js.Retry.{RetryConfig, failure, returned}
use distributed_rpc_js.Retry.Quiet.{expected}
use distributed_rpc_js.Network.Client.{
  TcpClient, Connect, Socket, opened, destroyed, connected, refused, start, stop, get_socket,
  handle_close, is_active,
}
use distributed_rpc_js.Network.Client.Starting.{outcome_of, LeftAs, start_client-expected}
use distributed_rpc_js.Network.Client.Connection.{
  Step, writes, closes, errs, apply_all, bytes_written, close_unnoticed, connected_client-tx_bytes,
}

abbrev two_tries : RetryConfig
two_tries = record {
  backoff = record { enabled = false; max_delay = 5000; multiplier = 2 };
  interval = 1000;
  max_retries = some 2;
}

abbrev client_in : ExecutionState → Option Socket → TcpClient
client_in x o = record {
  state = x;
  socket = o;
  tx_bytes = 10;
  rx_bytes = 0;
  hears_errors = false;
  events = [];
}

abbrev online : TcpClient
online = client_in running (some opened)

abbrev second_try : List Connect
second_try = refused "ECONNREFUSED" ∷ connected ∷ []

start_client-expected_example :
    ((start two_tries second_try (client_in stopped none)).0
      ≡ expected (outcome_of false) second_try 1)
    × LeftAs
        (expected (outcome_of false) second_try 1)
        (start two_tries second_try (client_in stopped none)).1
start_client-expected_example =
    start_client-expected two_tries 1 refl second_try (client_in stopped none) refl

close_unnoticed_example :
    let t = handle_close false online in
    (get_socket t ≡ some destroyed)
    × (start two_tries (connected ∷ []) t ≡ (returned, t))
    × (is_active (stop t).state ≡ false)
close_unnoticed_example = close_unnoticed two_tries (connected ∷ []) false online (refl, refl)

abbrev session : List Step
session =
    writes none (1 ∷ 2 ∷ [])
    ∷ writes (some (failure "EPIPE")) (3 ∷ [])
    ∷ closes false
    ∷ writes none (4 ∷ [])
    ∷ errs (failure "ECONNRESET")
    ∷ writes none (5 ∷ [])
    ∷ []

three_bytes : bytes_written true session ≡ 3
unfolding bytes_written
three_bytes = refl

connected_client-tx_bytes_example :
    (apply_all session online).tx_bytes ≡ 10 + bytes_written true session
connected_client-tx_bytes_example = connected_client-tx_bytes session online (refl, refl)
