-- ===== src/Network/Client.antt =====
-- src/network/tcp-client.ts (TcpClient). What the connection does is the environment's. A start runs
-- to its end before anything else; the module Overlap has calls that overlap. The access point, spans, metrics and log lines are left out;
-- `sendMessage` is in Provider.Pool.
pub mod Starting
pub mod Connection
pub mod Overlap
mod Tests
use distributed_rpc_js.Common.{
  ℕ, ◌+◌, Bool, true, false, ◌||◌, Option, none, some, List, [], ◌∷◌, if◌then◌else◌, length, String,
}
use distributed_rpc_js.Types.{ExecutionState, halt, retrying, running, starting, stopped}
use distributed_rpc_js.Retry.{
  RetryConfig, Failure, abort_error, failure, Settled, resolved, rejected, World, Callbacks, Ended,
  returned, pending, threw, new_scheduler, run,
}
use distributed_rpc_js.Retry.Quiet.{rounds}
use distributed_rpc_js.Network.{is_network_retryable, settled_by}

-- What a client emits.
pub data ClientEvent : Type 0 where
  connection : ClientEvent
  data_received : List ℕ → ClientEvent
  close : Bool → ClientEvent
  client_error : Failure → ClientEvent

-- `_socket`: connected, or destroyed and still held.
pub data Socket : Type 0 where
  opened destroyed : Socket

-- The fields of a TcpClient, whether it has a listener of the event `error`, and the events emitted,
-- the latest first.
pub record TcpClient : Type 0 where
  pub state : ExecutionState
  pub socket : Option Socket
  pub tx_bytes : ℕ
  pub rx_bytes : ℕ
  pub hears_errors : Bool
  pub events : List ClientEvent

abbrev pub with_state : ExecutionState → TcpClient → TcpClient
with_state x s = record s { state = x }

abbrev pub emit : ClientEvent → TcpClient → TcpClient
emit e s = record s { events = e ∷ s.events }

abbrev pub is_stopped_state : ExecutionState → Bool
is_stopped_state stopped = true
is_stopped_state _ = false

-- The states in which `start` does nothing, and in which `getSocket` gives the socket.
abbrev pub is_active : ExecutionState → Bool
is_active running = true
is_active starting = true
is_active _ = false

-- What an attempt to connect meets: the event `connect`, the event `error` with its code, a throw.
pub data Connect : Type 0 where
  connected : Connect
  refused : String → Connect
  thrown : String → Connect

abbrev pub on_owner : (TcpClient → TcpClient) → World TcpClient → World TcpClient
on_owner f w = record w { owner = f w.owner }

-- `handleConnectSuccess`
unfoldable pub handle_connect_success : TcpClient → TcpClient
handle_connect_success s =
    emit connection (record s { state = running; socket = some Socket.opened })

-- `handleConnectionError`
unfoldable pub handle_connection_error : String → TcpClient → TcpClient
handle_connection_error code s =
    if is_network_retryable code
    then s
    else emit (client_error (failure code)) (with_state ExecutionState.error s)

-- The promise of `_attemptConnect`.
unfoldable pub connect : Connect → World TcpClient → Settled × World TcpClient
unfolding handle_connect_success handle_connection_error settled_by
connect connected w = (resolved, on_owner handle_connect_success w)
connect (refused code) w = (
  settled_by w.owner.hears_errors code,
  on_owner (λ s. handle_connection_error code (record s { socket = some Socket.destroyed })) w,
)
connect (thrown code) w = (rejected (failure code), on_owner (with_state ExecutionState.error) w)

-- `_attemptConnect`
unfoldable pub attempt_connect : Connect → World TcpClient → Settled × World TcpClient
unfolding connect
attempt_connect e w =
    if is_stopped_state w.owner.state then (rejected abort_error, w) else connect e w

-- The options that `start` gives to its RetryScheduler.
unfoldable pub callbacks : Callbacks TcpClient
callbacks = record {
  has_signal = true;
  on_retry = some (λ ctx s. with_state retrying s);
  on_exhausted = some (λ ctx s. with_state halt s);
  on_error = some (λ err s. with_state ExecutionState.error s);
}

-- The `try` and `catch` around the scheduler.
unfoldable pub ended : Ended × World TcpClient → Ended × TcpClient
ended (returned, w) = (returned, w.owner)
ended (pending, w) = (pending, w.owner)
ended (threw abort_error, w) = (returned, with_state stopped w.owner)
ended (threw (failure code), w) = (threw (failure code), with_state ExecutionState.error w.owner)

-- `start()`, with what the attempts meet, one after the other.
unfoldable pub start : RetryConfig → List Connect → TcpClient → Ended × TcpClient
unfolding ended callbacks
start c es s =
    if is_active s.state
    then (returned, s)
    else ended (
        run c callbacks attempt_connect (rounds es)
          (record { scheduler = new_scheduler; owner = with_state starting s }))

-- `stop()`: the socket is destroyed and dropped.
unfoldable pub stop : TcpClient → TcpClient
stop s = if is_stopped_state s.state then s else record s { state = stopped; socket = none }

-- `getSocket()`: `none` is the error that it throws.
unfoldable pub get_socket : TcpClient → Option Socket
get_socket s = if is_active s.state then s.socket else none

pub data WriteOutcome : Type 0 where
  written : WriteOutcome
  rejected_write : Failure → WriteOutcome
  not_connected : WriteOutcome

-- `writeWithId`: `fails` is what the socket gives to the callback of the write.
unfoldable pub write_to :
    Option Socket → Option Failure → List ℕ → TcpClient → WriteOutcome × TcpClient
write_to none fails bytes s = (not_connected, s)
write_to (some x) (some e) bytes s = (rejected_write e, s)
write_to (some x) none bytes s = (written, record s { tx_bytes = s.tx_bytes + length bytes })

unfoldable pub write_with_id : Option Failure → List ℕ → TcpClient → WriteOutcome × TcpClient
unfolding write_to get_socket
write_with_id fails bytes s = write_to (get_socket s) fails bytes s

-- `handleClose`: the peer or an error has destroyed the socket.
unfoldable pub handle_close : Bool → TcpClient → TcpClient
handle_close had_error s = emit (close had_error) (record s { socket = some Socket.destroyed })

-- `handleData`
unfoldable pub handle_data : List ℕ → TcpClient → TcpClient
handle_data bytes s = emit (data_received bytes) (record s { rx_bytes = s.rx_bytes + length bytes })

-- `handleError`
unfoldable pub handle_error : Failure → TcpClient → TcpClient
handle_error e s = emit (client_error e) (with_state ExecutionState.error s)

-- `resetByteCounters()`
unfoldable pub reset_byte_counters : TcpClient → TcpClient
reset_byte_counters s = record s { tx_bytes = 0; rx_bytes = 0 }
