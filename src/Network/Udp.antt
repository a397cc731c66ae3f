-- ===== src/Network/Udp.antt =====
-- src/network/udp-client.ts and src/network/udp-server.ts: what a UdpClient and a UdpServer share.
-- What a datagram socket does is the environment's. Spans, metrics and log lines are left out.
pub mod Starting
pub mod Client
pub mod Discovery
pub mod Server
pub mod Broadcast
mod Tests
use distributed_rpc_js.Common.{ℕ, Bool, true, false, Option, none, some, List, String}
use distributed_rpc_js.Types.{ExecutionState, halt, retrying, stopped}
use distributed_rpc_js.Retry.{
  Failure, abort_error, failure, World, Callbacks, Ended, returned, pending, threw,
}

-- `_socket`: open, or closed and still held.
pub data UdpSocket : Type 0 where
  opened closed : UdpSocket

-- The sender of a datagram.
pub record Peer : Type 0 where
  pub address : String
  pub port : ℕ

-- What a client or a server emits.
pub data UdpEvent : Type 0 where
  listening : UdpEvent
  bind_error : Failure → UdpEvent
  message : Peer → List ℕ → UdpEvent

abbrev pub is_stopped_state : ExecutionState → Bool
is_stopped_state stopped = true
is_stopped_state _ = false

module _ {S : Type 0} (with_state : ExecutionState → S → S) where
  -- The options that `start` gives to its RetryScheduler.
  unfoldable pub callbacks : Callbacks S
  callbacks = record {
    has_signal = true;
    on_retry = some (λ ctx s. with_state retrying s);
    on_exhausted = some (λ ctx s. with_state halt s);
    on_error = some (λ err s. with_state ExecutionState.error s);
  }

  -- The `try` and `catch` around the scheduler.
  unfoldable pub ended : Ended × World S → Ended × S
  ended (returned, w) = (returned, w.owner)
  ended (pending, w) = (pending, w.owner)
  ended (threw abort_error, w) = (returned, with_state stopped w.owner)
  ended (threw (failure code), w) = (threw (failure code), with_state ExecutionState.error w.owner)

-- `socket.close()` in `stop()`: the first argument is what Node throws for a socket that is closed
-- already. The result is the error, or nothing, and the socket held afterwards.
unfoldable pub close_socket : Option Failure → Option UdpSocket → Option Failure × Option UdpSocket
close_socket throws none = (none, none)
close_socket throws (some UdpSocket.opened) = (none, none)
close_socket none (some UdpSocket.closed) = (none, none)
close_socket (some e) (some UdpSocket.closed) = (some e, some UdpSocket.closed)
