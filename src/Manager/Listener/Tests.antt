-- ===== src/Manager/Listener/Tests.antt =====
-- A broadcast listener that two probes reach.
use distributed_rpc_js.Common.{
  ℕ, ◌≡◌, refl, false, Option, none, some, List, [], ◌∷◌, String, if◌then◌else◌, ◌==◌,
}
use distributed_rpc_js.Common.Dict.{get}
use distributed_rpc_js.Retry.{RetryConfig, Failure}
use distributed_rpc_js.Retry.Quiet.{expected}
use distributed_rpc_js.Network.Udp.Server.{Bind, bound, errored}
use distributed_rpc_js.Network.Udp.Server.Starting.{outcome_of}
use distributed_rpc_js.Network.Udp.Broadcast.{
  Datagram, probe_prefix, set_manager_info, start_broadcast,
}
use distributed_rpc_js.Network.Udp.Broadcast.Probes.{receive_all, replies}
use distributed_rpc_js.Procedure.Tasks.{ok}
use distributed_rpc_js.Manager.Listener.{
  new_broadcast_server, initialize_broadcast_listener, listener-answers,
}

abbrev info : ℕ
info = 5

abbrev two_tries : RetryConfig
two_tries = record {
  backoff = record { enabled = false; max_delay = 5000; multiplier = 2 };
  interval = 1000;
  max_retries = some 2;
}

abbrev second_try : List Bind
second_try = errored "EADDRINUSE" ∷ bound (some 5707) ∷ []

-- Stand-ins for the text of a datagram and for the bytes of the information.
abbrev read_text : List ℕ → String
read_text [] = ""
read_text (b ∷ bs) = if b == 66 then probe_prefix else "Hello"

abbrev render : ℕ → List ℕ
render n = n ∷ []

abbrev from : String → List ℕ → Datagram
from address bytes = record { target = record { address = address; port = 40000 }; bytes = bytes }

abbrev arrivals : List Datagram
arrivals = from "10.0.0.2" (66 ∷ []) ∷ from "10.0.0.3" (72 ∷ []) ∷ []

-- No send throws.
abbrev all_sent : Datagram → Option Failure
all_sent d = none

listener-answers_example :
    let informed = set_manager_info info new_broadcast_server in
    let s = (start_broadcast two_tries "0.0.0.0" 5707 render none second_try informed).1 in
    (get "reception"
        (initialize_broadcast_listener two_tries "0.0.0.0" 5707 render second_try "reception"
          (ok info)
          []).1
      ≡ some s)
    × ((receive_all read_text all_sent arrivals s).0 ≡ none)
    × ((receive_all read_text all_sent arrivals s).1.sent
        ≡ replies read_text (render info) arrivals [])
unfolding expected outcome_of
listener-answers_example =
    listener-answers two_tries "0.0.0.0" 5707 render second_try "reception" 1 read_text all_sent
      arrivals info [] refl refl (λ d. refl)
