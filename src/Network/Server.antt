-- ===== src/Network/Server.antt =====
-- src/network/tcp-server.ts (TcpServer). A socket is known by its number. What the listening socket
-- and the connections do is the environment's. A start runs to its end before anything else; the module Overlap has calls that
-- overlap. Spans, metrics and log lines are left out.
pub mod Starting
pub mod Traffic
pub mod Overlap
mod Tests
use distributed_rpc_js.Common.{
  ℕ, ◌+◌, Bool, true, false, Option, none, some, List, [], ◌∷◌, ◌++◌, map, if◌then◌else◌, length,
  String, ◌==◌, not,
}
use distributed_rpc_js.Types.{ExecutionState, halt, retrying, starting, stopped}
use distributed_rpc_js.Retry.{
  RetryConfig, Failure, abort_error, failure, Settled, resolved, rejected, quiet, Round, World,
  Callbacks, Ended, returned, pending, threw, reset, new_scheduler, run,
}
use distributed_rpc_js.Retry.Quiet.{rounds}
use distributed_rpc_js.Network.{
  is_network_retryable, settled_by, NetworkEvent, listening, connection, data_received, close,
  socket_error, server_error,
}

-- A member of `_sockets`.
pub record Socket : Type 0 where
  pub id : ℕ
  pub destroyed : Bool

-- The fields of a TcpServer, and the events emitted, the latest first.
pub record TcpServer : Type 0 where
  pub state : ExecutionState
  pub port : ℕ
  pub sockets : List Socket
  pub tx_bytes : ℕ
  pub rx_bytes : ℕ
  pub error_listeners : ℕ
  pub events : List NetworkEvent

-- `new TcpServer(...)`
unfoldable pub new_tcp_server : TcpServer
new_tcp_server = record {
  state = stopped;
  port = 0;
  sockets = [];
  tx_bytes = 0;
  rx_bytes = 0;
  error_listeners = 0;
  events = [];
}

abbrev pub with_state : ExecutionState → TcpServer → TcpServer
with_state x s = record s { state = x }

abbrev pub emit : NetworkEvent → TcpServer → TcpServer
emit e s = record s { events = e ∷ s.events }

abbrev pub is_stopped_state : ExecutionState → Bool
is_stopped_state stopped = true
is_stopped_state _ = false

-- What an attempt to listen meets: the event `listening` with the port of the address, if it has
-- one, the event `error` with its code, the event `close`, or a throw.
pub data Listen : Type 0 where
  bound : Option ℕ → Listen
  errored : String → Listen
  closed : Listen
  thrown : String → Listen

abbrev port_or : Option ℕ → ℕ → ℕ
port_or none p = p
port_or (some q) p = q

abbrev pub on_owner : (TcpServer → TcpServer) → World TcpServer → World TcpServer
on_owner f w = record w { owner = f w.owner }

-- The promise of `_attemptListen`.
unfoldable pub listen : Listen → World TcpServer → Settled × World TcpServer
unfolding settled_by
listen (bound addr) w = (
  resolved,
  record w {
    scheduler = reset w.scheduler;
    owner =
        emit listening
          (record w.owner { port = port_or addr w.owner.port; state = ExecutionState.listening });
  },
)
listen (errored code) w = (
  settled_by (not (w.owner.error_listeners == 0)) code,
  if is_network_retryable code
      then w
      else on_owner (λ s. emit (server_error (failure code)) (with_state ExecutionState.error s)) w,
)
listen closed w = (rejected (failure ""), w)
listen (thrown code) w = (rejected (failure code), on_owner (with_state ExecutionState.error) w)

-- `_attemptListen`
unfoldable pub attempt_listen : Listen → World TcpServer → Settled × World TcpServer
unfolding listen
attempt_listen e w =
    if is_stopped_state w.owner.state then (rejected abort_error, w) else listen e w

-- The options that `start` gives to its RetryScheduler.
unfoldable pub callbacks : Callbacks TcpServer
callbacks = record {
  has_signal = true;
  on_retry = some (λ ctx s. with_state retrying s);
  on_exhausted = some (λ ctx s. with_state halt s);
  on_error = some (λ err s. with_state ExecutionState.error s);
}

-- The `try` and `catch` around the scheduler.
unfoldable pub ended : Ended × World TcpServer → Ended × TcpServer
ended (returned, w) = (returned, w.owner)
ended (pending, w) = (pending, w.owner)
ended (threw abort_error, w) = (returned, with_state stopped w.owner)
ended (threw (failure code), w) = (threw (failure code), with_state ExecutionState.error w.owner)

-- `if (this._port === 0) this._port = tcpConfig.port;` and the state Starting.
abbrev pub begin_start : ℕ → TcpServer → TcpServer
begin_start configured s = record s {
  port = if s.port == 0 then configured else s.port;
  state = starting;
}

-- `start()`, with the port of the configuration and what the attempts meet, one after the other.
unfoldable pub start : RetryConfig → ℕ → List Listen → TcpServer → Ended × TcpServer
unfolding ended callbacks
start c configured es s =
    if is_stopped_state s.state
    then ended (
        run c callbacks attempt_listen (rounds es)
          (record { scheduler = new_scheduler; owner = begin_start configured s }))
    else (returned, s)

-- `stop()`: the open sockets are destroyed, and none is tracked any more.
unfoldable pub stop : TcpServer → TcpServer
stop s = if is_stopped_state s.state then s else record s { state = stopped; sockets = [] }

-- `broadcast(data)`: `accepts` is what `socket.write` gives, false when it had to buffer.
unfoldable pub written : (ℕ → Bool) → ℕ → List Socket → ℕ
written accepts len [] = 0
written accepts len (x ∷ xs) =
    let rest = written accepts len xs in
    if x.destroyed then rest else if accepts x.id then len + rest else rest

unfoldable pub broadcast : (ℕ → Bool) → List ℕ → TcpServer → ℕ × TcpServer
unfolding written
broadcast accepts bytes s =
    let total = written accepts (length bytes) s.sockets in
    (total, record s { tx_bytes = s.tx_bytes + total })

-- `_sockets.add` of a socket that is new, and `_sockets.delete`.
unfoldable pub remove : ℕ → List Socket → List Socket
remove id [] = []
remove id (x ∷ xs) = let rest = remove id xs in if x.id == id then rest else x ∷ rest

unfoldable pub destroy : ℕ → List Socket → List Socket
destroy id [] = []
destroy id (x ∷ xs) =
    let rest = destroy id xs in (if x.id == id then record x { destroyed = true } else x) ∷ rest

-- What a connection does: it opens, data arrives, it closes, it fails.
pub data Activity : Type 0 where
  opens : ℕ → Activity
  sends : ℕ → List ℕ → Activity
  closes : ℕ → Bool → Activity
  fails : ℕ → Failure → Activity

-- `handleData`
unfoldable pub handle_data : ℕ → List ℕ → TcpServer → TcpServer
handle_data id bytes s =
    emit (data_received id bytes) (record s { rx_bytes = s.rx_bytes + length bytes })

-- The handler of a socket's error. Without a listener of `error` the emission throws the error, and
-- the socket is not destroyed.
unfoldable pub handle_error : ℕ → Failure → TcpServer → Option Failure × TcpServer
unfolding destroy
handle_error id err s =
    if s.error_listeners == 0
    then (some err, s)
    else (none, record s { events = socket_error id ∷ s.events; sockets = destroy id s.sockets })

-- `handleConnection`, and the handlers that it attaches to the socket. Empty data is passed over.
unfoldable pub handle : Activity → TcpServer → Option Failure × TcpServer
unfolding handle_data handle_error remove
handle (opens id) s = (
  none,
  emit (connection id)
      (record s { sockets = s.sockets ++ record { id = id; destroyed = false } ∷ [] }),
)
handle (sends id []) s = (none, s)
handle (sends id (b ∷ bs)) s = (none, handle_data id (b ∷ bs) s)
handle (closes id had_error) s =
    (none, emit (close id had_error) (record s { sockets = remove id s.sockets }))
handle (fails id err) s = handle_error id err s

-- `resetByteCounters()`
unfoldable pub reset_byte_counters : TcpServer → TcpServer
reset_byte_counters s = record s { tx_bytes = 0; rx_bytes = 0 }
