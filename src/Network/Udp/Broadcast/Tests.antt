-- ===== src/Network/Udp/Broadcast/Tests.antt =====
-- Runs of a BroadcastUdpServer.
use distributed_rpc_js.Common.{
  ℕ, ◌≡◌, refl, false, Option, none, some, List, [], ◌∷◌, String, if◌then◌else◌, ◌==◌,
}
use distributed_rpc_js.Types.{ExecutionState, stopped}
use distributed_rpc_js.Retry.{RetryConfig, failure, threw}
use distributed_rpc_js.Retry.Quiet.{expected}
use distributed_rpc_js.Network.Udp.{UdpSocket}
use distributed_rpc_js.Network.Udp.Server.{UdpServer, Bind, bound, errored, closes}
use distributed_rpc_js.Network.Udp.Server.Starting.{outcome_of}
use distributed_rpc_js.Network.Udp.Broadcast.{
  BroadcastServer, Datagram, probe_prefix, start_broadcast, stop_broadcast,
}
use distributed_rpc_js.Network.Udp.Broadcast.Probes.{replies, restart_refused}

abbrev three_tries : RetryConfig
three_tries = record {
  backoff = record { enabled = false; max_delay = 5000; multiplier = 2 };
  interval = 1000;
  max_retries = some 3;
}

abbrev server_in : ExecutionState → Option UdpSocket → UdpServer
server_in x o = record {
  state = x;
  socket = o;
  address = "";
  port = 0;
  hears_errors = false;
  events = [];
}

abbrev informed : UdpServer → BroadcastServer ℕ
informed s = record { server = s; manager_info = some 5; response_buffer = []; sent = [] }

-- Stand-ins for the text of a datagram and for the bytes of the information.
abbrev read_text : List ℕ → String
read_text [] = ""
read_text (b ∷ bs) = if b == 66 then probe_prefix else "Hello"

abbrev render : ℕ → List ℕ
render n = 123 ∷ n ∷ 125 ∷ []

abbrev from : String → List ℕ → Datagram
from address bytes = record { target = record { address = address; port = 40000 }; bytes = bytes }

abbrev arrivals : List Datagram
arrivals =
    from "10.0.0.2" (66 ∷ 1 ∷ []) ∷ from "10.0.0.3" (72 ∷ []) ∷ from "10.0.0.4" (66 ∷ []) ∷ []

abbrev attempts : List Bind
attempts = errored "EADDRINUSE" ∷ closes ∷ bound (some 5707) ∷ []

two_replies :
    replies read_text (render 5) arrivals []
    ≡ from "10.0.0.4" (123 ∷ 5 ∷ 125 ∷ []) ∷ from "10.0.0.2" (123 ∷ 5 ∷ 125 ∷ []) ∷ []
unfolding replies
two_replies = refl

abbrev online : BroadcastServer ℕ
online = informed (server_in ExecutionState.listening (some UdpSocket.opened))

restart_refused_example :
    let t = (stop_broadcast none online).1 in
    let (ended, u) = start_broadcast three_tries "0.0.0.0" 5707 render none attempts t in
    (ended ≡ threw (failure ""))
    × (u.server.state ≡ stopped)
    × (u.server.socket ≡ none)
    × (u.sent ≡ online.sent)
unfolding expected outcome_of
restart_refused_example =
    restart_refused three_tries 2 refl "0.0.0.0" 5707 render none attempts online (refl, refl) refl
