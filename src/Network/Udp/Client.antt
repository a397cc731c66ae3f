-- ===== src/Network/Udp/Client.antt =====
-- src/network/udp-client.ts (UdpClient). A start is modelled without a `stop()` meanwhile.
pub mod Starting
use distributed_rpc_js.Common.{
  ℕ, Bool, true, false, Option, none, some, List, [], ◌∷◌, if◌then◌else◌, String,
}
use distributed_rpc_js.Types.{ExecutionState, running, starting, stopped}
use distributed_rpc_js.Retry.{
  RetryConfig, Failure, abort_error, failure, Settled, resolved, rejected, World, Ended, returned,
  new_scheduler, run,
}
use distributed_rpc_js.Retry.Quiet.{rounds}
use distributed_rpc_js.Network.{is_network_retryable, settled_by}
use distributed_rpc_js.Network.Udp.{
  UdpSocket, Peer, UdpEvent, listening, bind_error, message, is_stopped_state, callbacks, ended,
  close_socket,
}

-- The fields of a UdpClient, whether it has a listener of the event `error`, and the events emitted, the
-- latest first.
pub record UdpClient : Type 0 where
  pub state : ExecutionState
  pub socket : Option UdpSocket
  pub port : Option ℕ
  pub hears_errors : Bool
  pub events : List UdpEvent

-- `new UdpClient(...)`
unfoldable pub new_udp_client : UdpClient
new_udp_client = record {
  state = stopped;
  socket = none;
  port = none;
  hears_errors = false;
  events = [];
}

abbrev pub with_state : ExecutionState → UdpClient → UdpClient
with_state x s = record s { state = x }

abbrev pub emit : UdpEvent → UdpClient → UdpClient
emit e s = record s { events = e ∷ s.events }

-- What an attempt to bind meets: the event `listening` with the port of the address, if it has one,
-- the event `error` with its code, or a throw of `dgram.createSocket`.
pub data Bind : Type 0 where
  bound : Option ℕ → Bind
  errored : String → Bind
  thrown : String → Bind

-- `if (addr && typeof addr === "object") this._port = addr.port;`
abbrev pub port_or : Option ℕ → Option ℕ → Option ℕ
port_or none p = p
port_or (some q) p = some q

-- `handleBindSuccess`, on the socket of the attempt.
unfoldable pub handle_bind_success : Option ℕ → UdpClient → UdpClient
handle_bind_success addr s =
    emit listening (record s { port = port_or addr s.port; state = running })

-- `handleBindError`
unfoldable pub handle_bind_error : String → UdpClient → UdpClient
handle_bind_error code s =
    if is_network_retryable code
    then s
    else emit (bind_error (failure code)) (with_state ExecutionState.error s)

abbrev pub holding : UdpSocket → UdpClient → UdpClient
holding x s = record s { socket = some x }

abbrev pub on_owner : (UdpClient → UdpClient) → World UdpClient → World UdpClient
on_owner f w = record w { owner = f w.owner }

-- The promise of `_attemptBind`.
unfoldable pub bind : Bind → World UdpClient → Settled × World UdpClient
unfolding handle_bind_success handle_bind_error settled_by
bind (bound addr) w =
    (resolved, on_owner (λ s. handle_bind_success addr (holding UdpSocket.opened s)) w)
bind (errored code) w = (
  settled_by w.owner.hears_errors code,
  on_owner (λ s. handle_bind_error code (holding UdpSocket.closed s)) w,
)
bind (thrown code) w = (rejected (failure code), on_owner (with_state ExecutionState.error) w)

-- `_attemptBind`
unfoldable pub attempt_bind : Bind → World UdpClient → Settled × World UdpClient
unfolding bind
attempt_bind e w = if is_stopped_state w.owner.state then (rejected abort_error, w) else bind e w

-- `start()`, with what the attempts meet, one after the other.
unfoldable pub start : RetryConfig → List Bind → UdpClient → Ended × UdpClient
start c es s =
    if is_stopped_state s.state
    then ended with_state (
        run c (callbacks with_state) attempt_bind (rounds es)
          (record { scheduler = new_scheduler; owner = with_state starting s }))
    else (returned, s)

-- `stop()`: the error that it throws, or nothing.
unfoldable pub stop : Option Failure → UdpClient → Option Failure × UdpClient
unfolding close_socket
stop throws s = if is_stopped_state s.state then (none, s) else (
  (close_socket throws s.socket).0,
  record s { state = stopped; socket = (close_socket throws s.socket).1 },
)

abbrev pub is_running_state : ExecutionState → Bool
is_running_state running = true
is_running_state _ = false

-- `getReadySocket()`: `none` is the error that it throws.
unfoldable pub get_ready_socket : UdpClient → Option UdpSocket
get_ready_socket s = if is_running_state s.state then s.socket else none

-- What happens while a request waits: a datagram arrives, the socket fails or closes, the timer goes
-- off, the send fails.
pub data Incident : Type 0 where
  arrives : Peer → List ℕ → Incident
  fails : Failure → Incident
  closes : Incident
  times_out : Incident
  send_fails : Failure → Incident

-- What `sendAndWait` gives: `{}` after the timeout, a response, or a rejection.
pub data Reply : Type 0 where
  nothing : Reply
  response : Peer → List ℕ → Reply
  refused : Failure → Reply

unfoldable pub reply_to : Incident → Reply
reply_to (arrives peer bytes) = response peer bytes
reply_to (fails e) = refused e
reply_to closes = refused (failure "")
reply_to times_out = nothing
reply_to (send_fails e) = refused e

unfoldable pub notice : Incident → UdpClient → UdpClient
notice (arrives peer bytes) s = emit (message peer bytes) s
notice closes s = record s { socket = some UdpSocket.closed }
notice _ s = s

-- `sendAndWait` on its socket. The first incident settles the promise and takes away the timer and
-- the listeners of the request; without one the promise waits.
unfoldable pub wait_on : Option UdpSocket → List Incident → UdpClient → Option Reply × UdpClient
unfolding reply_to notice
wait_on none xs s = (some (refused (failure "")), s)
wait_on (some socket) [] s = (none, s)
wait_on (some socket) (x ∷ xs) s = (some (reply_to x), notice x s)

unfoldable pub send_and_wait : List Incident → UdpClient → Option Reply × UdpClient
unfolding wait_on get_ready_socket
send_and_wait xs s = wait_on (get_ready_socket s) xs s

-- `setBroadcast`: the first argument is what Node throws. The result is the error, or nothing.
unfoldable pub set_broadcast : Option Failure → UdpClient → Option Failure
unfolding get_ready_socket
set_broadcast throws s = elim (get_ready_socket s) [
  | none ↦ some (failure "")
  | some socket ↦ throws
]
