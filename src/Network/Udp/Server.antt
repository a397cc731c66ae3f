-- ===== src/Network/Udp/Server.antt =====
-- src/network/udp-server.ts (UdpServer). A start is modelled without a `stop()` meanwhile.
pub mod Starting
use distributed_rpc_js.Common.{
  ℕ, Bool, true, false, Option, none, some, List, [], ◌∷◌, ◌||◌, if◌then◌else◌, String,
}
use distributed_rpc_js.Types.{ExecutionState, starting, stopped}
use distributed_rpc_js.Retry.{
  RetryConfig, Failure, abort_error, failure, Settled, resolved, rejected, World, Ended, returned,
  new_scheduler, run, reset,
}
use distributed_rpc_js.Retry.Quiet.{rounds}
use distributed_rpc_js.Network.{is_network_retryable}
use distributed_rpc_js.Network.Udp.{
  UdpSocket, Peer, UdpEvent, listening, bind_error, message, is_stopped_state, callbacks, ended,
  close_socket,
}

-- The fields of a UdpServer, whether it has a listener of the event `error`, and the events emitted, the
-- latest first.
pub record UdpServer : Type 0 where
  pub state : ExecutionState
  pub socket : Option UdpSocket
  pub address : String
  pub port : ℕ
  pub hears_errors : Bool
  pub events : List UdpEvent

abbrev pub with_state : ExecutionState → UdpServer → UdpServer
with_state x s = record s { state = x }

abbrev pub emit : UdpEvent → UdpServer → UdpServer
emit e s = record s { events = e ∷ s.events }

abbrev pub holding : Option UdpSocket → UdpServer → UdpServer
holding o s = record s { socket = o }

-- What an attempt to bind meets: the event `listening` with the port of the address, if it has one,
-- the event `error` with its code, the event `close`, a throw of `dgram.createSocket`, or one of
-- `bind`, which leaves the new socket.
pub data Bind : Type 0 where
  bound : Option ℕ → Bind
  errored : String → Bind
  closes : Bind
  no_socket : String → Bind
  not_bound : String → Bind

abbrev pub port_or : Option ℕ → ℕ → ℕ
port_or none p = p
port_or (some q) p = q

abbrev pub on_owner : (UdpServer → UdpServer) → World UdpServer → World UdpServer
on_owner f w = record w { owner = f w.owner }

-- `handleBindSuccess`, which also resets the scheduler.
unfoldable pub handle_bind_success : Option ℕ → World UdpServer → World UdpServer
handle_bind_success addr w = record w {
  scheduler = reset w.scheduler;
  owner =
      emit listening
        (record w.owner { port = port_or addr w.owner.port; state = ExecutionState.listening });
}

-- `handleBindError`
unfoldable pub handle_bind_error : String → UdpServer → UdpServer
handle_bind_error code s =
    if is_network_retryable code
    then s
    else emit (bind_error (failure code)) (with_state ExecutionState.error s)

-- The code of the error that `onError` rejects with: what is emitted is no Error, so that without a
-- listener the emission throws one of Node's own, which `onError` catches.
unfoldable pub reported : Bool → String → String
reported hears code = if is_network_retryable code || hears then code else "ERR_UNHANDLED_ERROR"

-- The promise of `_attemptBind`.
unfoldable pub bind : Bind → World UdpServer → Settled × World UdpServer
unfolding handle_bind_success handle_bind_error reported
bind (bound addr) w =
    (resolved, handle_bind_success addr (on_owner (holding (some UdpSocket.opened)) w))
bind (errored code) w = (
  rejected (failure (reported w.owner.hears_errors code)),
  on_owner (λ s. handle_bind_error code (holding (some UdpSocket.closed) s)) w,
)
bind closes w = (rejected (failure ""), on_owner (holding (some UdpSocket.closed)) w)
bind (no_socket code) w = (rejected (failure code), on_owner (with_state ExecutionState.error) w)
bind (not_bound code) w = (
  rejected (failure code),
  on_owner (λ s. with_state ExecutionState.error (holding (some UdpSocket.opened) s)) w,
)

-- `_attemptBind`
unfoldable pub attempt_bind : Bind → World UdpServer → Settled × World UdpServer
unfolding bind
attempt_bind e w = if is_stopped_state w.owner.state then (rejected abort_error, w) else bind e w

-- The address and the port of the configuration, and the state Starting.
abbrev pub begin_listen : String → ℕ → UdpServer → UdpServer
begin_listen address port s = record s { address = address; port = port; state = starting }

-- `start()`, with what the attempts meet, one after the other.
unfoldable pub start : RetryConfig → String → ℕ → List Bind → UdpServer → Ended × UdpServer
start c address port es s =
    if is_stopped_state s.state
    then ended with_state (
        run c (callbacks with_state) attempt_bind (rounds es)
          (record { scheduler = new_scheduler; owner = begin_listen address port s }))
    else (returned, s)

-- `stop()`: the error that it throws, or nothing.
unfoldable pub stop : Option Failure → UdpServer → Option Failure × UdpServer
unfolding close_socket
stop throws s = if is_stopped_state s.state then (none, s) else (
  (close_socket throws s.socket).0,
  record s { state = stopped; socket = (close_socket throws s.socket).1 },
)

abbrev pub is_listening_state : ExecutionState → Bool
is_listening_state ExecutionState.listening = true
is_listening_state _ = false

-- `getReadySocket()`: `none` is the error that it throws.
unfoldable pub get_ready_socket : UdpServer → Option UdpSocket
get_ready_socket s = if is_listening_state s.state then s.socket else none

-- `handleMessage`
unfoldable pub handle_message : Peer → List ℕ → UdpServer → UdpServer
handle_message peer bytes s = elim s.socket [ none ↦ s | some socket ↦ emit (message peer bytes) s ]
