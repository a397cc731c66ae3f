-- ===== src/Network/Udp/Broadcast.antt =====
-- src/network/broadcast-udp-server.ts (BroadcastUdpServer), which answers the probes of a discovery.
-- JSON.stringify with Buffer.from and the decoding of bytes are parameters; a reply is on its way
-- when `socket.send` returns.

pub mod Probes
mod Tests
use distributed_rpc_js.Common.{
  ℕ, Bool, true, false, Option, none, some, List, [], ◌∷◌, if◌then◌else◌, String, str_eq, take,
}
use distributed_rpc_js.Retry.{RetryConfig, Failure, failure, Ended, returned, pending, threw}
use distributed_rpc_js.Network.Udp.{UdpSocket, Peer}
use distributed_rpc_js.Network.Udp.Server.{
  UdpServer, Bind, start, stop, get_ready_socket, handle_message,
}

-- A datagram that was sent.
pub record Datagram : Type 0 where
  pub target : Peer
  pub bytes : List ℕ

-- The fields of a BroadcastUdpServer, over the type of the manager's information, and the datagrams
-- sent, the latest first.
pub record BroadcastServer (I : Type 0) : Type 0 where
  pub server : UdpServer
  pub manager_info : Option I
  pub response_buffer : List ℕ
  pub sent : List Datagram

-- `PROBE_MESSAGE + "->"`, and `PROBE_MESSAGE.length + 2`
abbrev pub probe_prefix : String
probe_prefix = "Bonjour and EnjoIT.->"

abbrev pub len_prefix : ℕ
len_prefix = 21

-- Without information the server is stopped again, and an error thrown: that of the stop, or the
-- one for the missing information.
abbrev pub error_or_missing : Option Failure → Failure
error_or_missing none = failure ""
error_or_missing (some e) = e

abbrev pub is_probe : (List ℕ → String) → List ℕ → Bool
is_probe decode bytes = str_eq (decode (take len_prefix bytes)) probe_prefix

module _ {I : Type 0} where
  -- `setManagerInfo`
  unfoldable pub set_manager_info : I → BroadcastServer I → BroadcastServer I
  set_manager_info info s = record s { manager_info = some info }

  abbrev pub clear_if_stopped : Option Failure → BroadcastServer I → BroadcastServer I
  clear_if_stopped (some e) s = s
  clear_if_stopped none s = record s { manager_info = none; response_buffer = [] }

  -- `stop()`: the error that it throws, or nothing.
  unfoldable pub stop_broadcast :
      Option Failure → BroadcastServer I → Option Failure × BroadcastServer I
  stop_broadcast throws s = (
    (stop throws s.server).0,
    clear_if_stopped (stop throws s.server).0 (record s { server = (stop throws s.server).1 }),
  )

  unfoldable pub require_info :
      (I → List ℕ) → Option Failure → Option I → BroadcastServer I → Ended × BroadcastServer I
  unfolding stop_broadcast
  require_info render throws none s =
      (threw (error_or_missing (stop_broadcast throws s).0), (stop_broadcast throws s).1)
  require_info render throws (some info) s = (returned, record s { response_buffer = render info })

  unfoldable pub after_start :
      (I → List ℕ) → Option Failure → Ended → BroadcastServer I → Ended × BroadcastServer I
  unfolding require_info
  after_start render throws returned s = require_info render throws s.manager_info s
  after_start render throws pending s = (pending, s)
  after_start render throws (threw e) s = (threw e, s)

  -- `start()`, with the address and the port of the configuration and what the attempts meet.
  unfoldable pub start_broadcast :
      RetryConfig
      → String
      → ℕ
      → (I → List ℕ)
      → Option Failure
      → List Bind
      → BroadcastServer I
      → Ended × BroadcastServer I
  unfolding after_start
  start_broadcast c address port render throws es s =
      after_start render throws (start c address port es s.server).0
        (record s { server = (start c address port es s.server).1 })

  -- The reply to a probe: the message is emitted, then the buffer is sent. `fails` is what
  -- `socket.send` throws.
  unfoldable pub reply :
      Option Failure → Peer → List ℕ → BroadcastServer I → Option Failure × BroadcastServer I
  reply (some e) peer bytes s = (some e, record s { server = handle_message peer bytes s.server })
  reply none peer bytes s = (
    none,
    record s {
      server = handle_message peer bytes s.server;
      sent = record { target = peer; bytes = s.response_buffer } ∷ s.sent;
    },
  )

  -- `handleMessage`: the error that it throws, or nothing.
  unfoldable pub receive :
      (List ℕ → String)
      → Option Failure
      → Peer
      → List ℕ
      → BroadcastServer I
      → Option Failure × BroadcastServer I
  unfolding reply
  receive decode fails peer bytes s =
      if is_probe decode bytes
      then (elim (get_ready_socket s.server) [
        | none ↦ (some (failure ""), s)
        | some socket ↦ reply fails peer bytes s
      ])
      else (none, s)
