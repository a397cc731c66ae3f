-- ===== src/Procedure/Tests.antt =====
-- Runs of the report and register procedures.
use distributed_rpc_js.Common.{
  ℕ, ◌≡◌, if◌then◌else◌, refl, true, false, none, some, List, [], ◌∷◌, ◌==◌, All, String,
}
use distributed_rpc_js.Types.{PeerIdentity, AckType, running}
use distributed_rpc_js.Retry.{RetryConfig}
use distributed_rpc_js.Retry.Quiet.{expected}
use distributed_rpc_js.Network.Client.{TcpClient, opened, Connect, refused}
use distributed_rpc_js.Network.Udp.Client.{bound, times_out}
use distributed_rpc_js.Network.Udp.Client.Starting as Udp
use distributed_rpc_js.Network.Udp.Discovery.{Surroundings, unreadable}
use distributed_rpc_js.Procedure.Tasks.{Ports}
use distributed_rpc_js.Procedure.Discover.{never, execute_discover}
use distributed_rpc_js.Procedure.Discover.Searching.{silent_network-never}
use distributed_rpc_js.Provider.Pool.{Pool}
use distributed_rpc_js.Procedure.Report.{
  Task, client, Sent, Ask, succeeds, unsettled, execute_report, asks_made, unit_of_bytes,
}
use distributed_rpc_js.Procedure.Register.{Round, resolves, register_loop, going_on}
use distributed_rpc_js.Procedure.Register.Repeating.{
  Pending, sent_ids, unacknowledged_register-going_on,
}

abbrev manager_client : TcpClient
manager_client = record {
  state = running;
  socket = some opened;
  tx_bytes = 0;
  rx_bytes = 0;
  hears_errors = false;
  events = [];
}

-- The third ask succeeds.
abbrev third : ℕ → Ask
third k = if k == 2 then succeeds else Ask.refused

three_asks : asks_made third 0 4 ≡ 3
unfolding asks_made
three_asks = refl

four_asks :
    execute_report (λ k. Ask.refused) none 4 (some (client manager_client))
    ≡ some (record { success = false; asked = 4 })
unfolding execute_report distributed_rpc_js.Procedure.Report.report_loop
four_asks = refl

-- An ask whose promise never settles.
endless_report : execute_report (λ k. unsettled) none 4 (some (client manager_client)) ≡ none
unfolding execute_report distributed_rpc_js.Procedure.Report.report_loop
endless_report = refl

two_megabytes : unit_of_bytes 2097152 ≡ 2
unfolding unit_of_bytes distributed_rpc_js.Procedure.Report.scale
two_megabytes = refl

abbrev billing : PeerIdentity
billing = record { service = "Billing"; instance_id = "b1" }

abbrev no_requests : Pool String
no_requests = record { pol_reqs = []; next_promise = 0; settled = [] }

abbrev round : String → Round
round id = record {
  task = some (client manager_client);
  info_throws = none;
  write_throws = none;
  fresh = id;
  answer = resolves;
}

abbrev two_rounds : List Round
two_rounds = round "m1" ∷ round "m2" ∷ []

unacknowledged_register-going_on_example :
    let out = register_loop billing "registration" AckType.none two_rounds no_requests in
    (out.0 ≡ going_on) × All (Pending billing "registration" out.1) (sent_ids two_rounds)
unacknowledged_register-going_on_example =
    unacknowledged_register-going_on billing "registration" two_rounds no_requests

two_requests : sent_ids two_rounds ≡ "m1" ∷ "m2" ∷ []
unfolding sent_ids
two_requests = refl

abbrev two_tries : RetryConfig
two_tries = record {
  backoff = record { enabled = false; max_delay = 5000; multiplier = 2 };
  interval = 1000;
  max_retries = some 2;
}

abbrev no_network : List Connect
no_network = refused "ENETDOWN" ∷ refused "ENETDOWN" ∷ []

abbrev known_ports : Ports
known_ports = record { of_server = λ s. some s.port; of_socket = λ s. some 40000 }

-- Nobody answers the probe, and the timer of the request goes off.
abbrev silence : Surroundings ℕ
silence = record {
  binds = bound (some 40000) ∷ [];
  broadcast_throws = none;
  close_throws = none;
  parse = λ bytes. unreadable;
  incidents = times_out ∷ [];
}

silent_network-never_example :
    execute_discover two_tries [] "_svcManager" true (λ r. true) silence [] ≡ (never, [])
unfolding expected Udp.outcome_of
silent_network-never_example =
    silent_network-never two_tries 1 refl [] "_svcManager" (λ r. true) [] silence [] refl refl refl
