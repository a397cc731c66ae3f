-- ===== src/Network.antt =====
-- src/network: the sockets, and the errors that they tell apart (src/network/network-events.ts).
pub mod Server
pub mod Client
pub mod Udp
pub mod Addresses
use distributed_rpc_js.Common.{ℕ, Bool, ◌||◌, not, List, String, str_eq, if◌then◌else◌}
use distributed_rpc_js.Retry.{Failure, failure, Settled, rejected, unsettled}
use distributed_rpc_js.Retry.Quiet.{Attempted, failed_with, hung}

-- `NetworkRetryable.has(code)`
unfoldable pub is_network_retryable : String → Bool
is_network_retryable code =
    str_eq code "EADDRINUSE" || (str_eq code "EADDRNOTAVAIL" || str_eq code "ENETDOWN")

-- Two Boolean values that are the same.
abbrev pub same_bool : Bool → Bool → Bool
same_bool a b = if a then b else not b

-- How the promise of an attempt settles after the event `error`. An error that is not retryable is
-- emitted before the promise is rejected: where nobody listens, the emission throws inside the
-- handler of the event, and the promise never settles.
unfoldable pub settled_by : Bool → String → Settled
settled_by hears code =
    if is_network_retryable code || hears then rejected (failure code) else unsettled

-- The same as an outcome of the attempt.
unfoldable pub attempted_by : Bool → String → Attempted
attempted_by hears code = if is_network_retryable code || hears then failed_with code else hung

-- An event that a server or a client emits, with the number of the socket and the bytes.
pub data NetworkEvent : Type 0 where
  listening : NetworkEvent
  connection : ℕ → NetworkEvent
  data_received : ℕ → List ℕ → NetworkEvent
  close : ℕ → Bool → NetworkEvent
  socket_error : ℕ → NetworkEvent
  server_error : Failure → NetworkEvent
