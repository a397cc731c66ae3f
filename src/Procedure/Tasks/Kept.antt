-- ===== src/Procedure/Tasks/Kept.antt =====
-- A client that failed to start, src/procedure/procedure.ts and src/provider/service-provider.ts.
use distributed_rpc_js.Common.{
  ℕ, suc, ◌≡◌, refl, ap, ◌∙◌, Bool, true, false, none, some, List, String,
}
use distributed_rpc_js.Common.Dict.{Dict, get, set, get-set_self}
use distributed_rpc_js.Retry.{RetryConfig, Failure, failure, threw}
use distributed_rpc_js.Retry.Quiet.{expected}
use distributed_rpc_js.Network.Client.{TcpClient, Connect, start, get_socket}
use distributed_rpc_js.Network.Client.Starting.{outcome_of, start_client-expected}
use distributed_rpc_js.Provider.Channels.{new_tcp_client}
use distributed_rpc_js.Provider.Channels.Opening.{no_socket}
use distributed_rpc_js.Procedure.Report.{Task, client}
use distributed_rpc_js.Procedure.Tasks.{
  ok, throws, create_client, get_tcp_client, get_task_tcp_client, get_task, get_socket_addr, Ports,
}

-- A task that is there is given as it is.
given :
    (c : RetryConfig) (es : List Connect) (name : String) (has_ap has_generator : Bool)
    (tasks : Dict Task) (task : Task)
    → get name tasks ≡ some task
    → (get_tcp_client c es name has_ap has_generator tasks ≡ (ok task, tasks))
      × (get_task_tcp_client c es name has_ap tasks ≡ (ok task, tasks))
      × (get_task name tasks ≡ ok task)
unfolding get_tcp_client get_task_tcp_client get_task
given c es name has_ap has_generator tasks task h =
    rw (h, get_tcp_client, get_task_tcp_client, get_task) (refl, refl, refl)

no_address :
    (ports : Ports) (host name : String) (tasks : Dict Task) (made : TcpClient)
    → get name tasks ≡ some (client made)
    → get_socket made ≡ none
    → get_socket_addr ports host name tasks ≡ throws (failure "")
unfolding get_socket_addr get_task
no_address ports host name tasks made h idle = rw (h, idle, get_socket_addr, get_task) refl

module _ (c c' : RetryConfig) (n : ℕ) (budget : c.max_retries ≡ some (suc n))
    (es es' : List Connect) (name : String) (tasks : Dict Task) where
  created :
      (e : Failure)
      → get name tasks ≡ none
      → (start c es new_tcp_client).0 ≡ threw e
      → get_tcp_client c es name true true tasks
        ≡ (throws e, set name (client (start c es new_tcp_client).1) tasks)
  unfolding get_tcp_client create_client
  created e absent failing = rw (absent, failing, get_tcp_client, create_client) refl

  -- A client whose first start has failed is given, unstarted, by every later call, and has no
  -- address.
  pub failed_client_kept :
      (e : Failure) (ports : Ports) (host : String)
      → get name tasks ≡ none
      → expected (outcome_of false) es n ≡ threw e
      → let (first, later) = get_tcp_client c es name true true tasks in
        let made = (start c es new_tcp_client).1 in
        (first ≡ throws e)
        × (get_tcp_client c' es' name true true later ≡ (ok (client made), later))
        × (get_task_tcp_client c' es' name true later ≡ (ok (client made), later))
        × (get_socket_addr ports host name later ≡ throws (failure ""))
  unfolding new_tcp_client
  failed_client_kept e ports host absent fails =
      let (as_expected, left) = start_client-expected c n budget es new_tcp_client refl in
      let made = (start c es new_tcp_client).1 in
      let first = created e absent (as_expected ∙ fails) in
      let later = (get_tcp_client c es name true true tasks).1 in
      let there : get name later ≡ some (client made) =
        ap (λ p. get name p.1) first ∙ get-set_self name (client made) tasks in
      let (again, task_again, task) = given c' es' name true true later (client made) there in
      (
        ap (λ p. p.0) first,
        again,
        task_again,
        no_address ports host name later made there (no_socket made (rw fails at left)),
      )
