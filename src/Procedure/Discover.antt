-- ===== src/Procedure/Discover.antt =====
-- src/procedure/discover.ts (DiscoverProcedure), over the discovery by UDP. The new client of the
-- discovery and that of the manager have no listener of the event `error`.
pub mod Searching
use distributed_rpc_js.Common.{
  Bool, true, false, Option, none, some, List, [], ◌∷◌, if◌then◌else◌, String,
}
use distributed_rpc_js.Common.Dict.{Dict}
use distributed_rpc_js.Retry.{RetryConfig, Failure}
use distributed_rpc_js.Network.Client.{Connect}
use distributed_rpc_js.Network.Udp.Client.{new_udp_client}
use distributed_rpc_js.Network.Udp.Discovery.{
  Discovered, waiting, found, failed, Surroundings, discover, default_max_responses,
}
use distributed_rpc_js.Procedure.Report.{Task}
use distributed_rpc_js.Procedure.Tasks.{Outcome, ok, throws, get_tcp_client}

-- interface ManagerInfo, and how `execute` ends.
pub data Execution (R : Type 0) : Type 0 where
  not_found : Execution R
  manager_info : List R → R → Option Task → Execution R
  never : Execution R
  raises : Failure → Execution R

module _ {R : Type 0} where
  abbrev pub with_client : List R → R → Outcome Task × Dict Task → Execution R × Dict Task
  with_client rs r (ok task, tasks) = (manager_info rs r (some task), tasks)
  with_client rs r (Outcome.waiting, tasks) = (never, tasks)
  with_client rs r (throws e, tasks) = (raises e, tasks)

  -- The client of a manager that was found: whether the response names a provider.
  unfoldable pub connect_manager :
      RetryConfig → List Connect → String → Bool → Dict Task → List R → R → Execution R × Dict Task
  connect_manager c es name has_provider tasks rs r =
      if has_provider
      then with_client rs r (get_tcp_client c es name true true tasks)
      else (manager_info rs r none, tasks)

  -- After `discovery.discover()`.
  unfoldable pub after_discovery :
      RetryConfig
      → List Connect
      → String
      → (R → Bool)
      → Discovered R
      → Dict Task
      → Execution R × Dict Task
  unfolding connect_manager
  after_discovery c es name has_provider waiting tasks = (never, tasks)
  after_discovery c es name has_provider (failed e) tasks = (raises e, tasks)
  after_discovery c es name has_provider (found [] n) tasks = (not_found, tasks)
  after_discovery c es name has_provider (found (r ∷ rs) n) tasks =
      connect_manager c es name (has_provider r) tasks (r ∷ rs) r

  -- `execute`, with the retry configuration, what the attempts to connect meet, the name of the task,
  -- and whether discovery is enabled. The discovery runs on a new client with the default options.
  unfoldable pub execute_discover :
      RetryConfig
      → List Connect
      → String
      → Bool
      → (R → Bool)
      → Surroundings R
      → Dict Task
      → Execution R × Dict Task
  unfolding after_discovery
  execute_discover c es name enabled has_provider env tasks =
      if enabled
      then after_discovery c es name has_provider
          (discover c default_max_responses env new_udp_client).0 tasks
      else (not_found, tasks)
