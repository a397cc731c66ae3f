-- ===== src/Procedure/Tasks.antt =====
-- The tasks of a provider: Procedure.getTcpClient and getTcpServer (src/procedure/procedure.ts), and
-- getTask, getTaskTcpClient, _getSocketAddr and getTcpTaskInfo (src/provider/service-provider.ts). A
-- start is that of Network, for a new client or server without a listener of the event `error`.
pub mod Kept
use distributed_rpc_js.Common.{
  ℕ, Bool, true, false, Option, none, some, List, [], ◌∷◌, if◌then◌else◌, String,
}
use distributed_rpc_js.Common.Dict.{Dict, get, set}
use distributed_rpc_js.Retry.{RetryConfig, Failure, failure, Ended, returned, pending, threw}
use distributed_rpc_js.Network.Server.{TcpServer, Listen, new_tcp_server}
use distributed_rpc_js.Network.Server as Server
use distributed_rpc_js.Network.Client.{TcpClient, Connect, Socket, start, get_socket}
use distributed_rpc_js.Provider.Channels.{new_tcp_client}
use distributed_rpc_js.Procedure.Report.{Task, server, client, other}

-- How a call ends. `waiting`: the start has not ended.
pub data Outcome (A : Type 0) : Type 0 where
  ok : A → Outcome A
  waiting : Outcome A
  throws : Failure → Outcome A

-- `await task.start(); return task;`
abbrev pub started_task : Ended → Task → Outcome Task
started_task returned task = ok task
started_task pending task = waiting
started_task (threw e) task = throws e

-- A new client, which is among the tasks before it is started.
unfoldable pub create_client :
    RetryConfig → List Connect → String → Dict Task → Outcome Task × Dict Task
create_client c es name tasks =
    let (ended, made) = start c es new_tcp_client in
    (started_task ended (client made), set name (client made) tasks)

-- `Procedure.getTcpClient`: whether the access point and the id generator are given.
unfoldable pub get_tcp_client :
    RetryConfig → List Connect → String → Bool → Bool → Dict Task → Outcome Task × Dict Task
unfolding create_client
get_tcp_client c es name has_ap has_generator tasks = elim (get name tasks) [
  | some task ↦ (ok task, tasks)
  | none ↦
      if has_ap
      then if has_generator then create_client c es name tasks else (throws (failure ""), tasks)
      else (throws (failure ""), tasks)
]

-- `ServiceProvider.getTaskTcpClient`
unfoldable pub get_task_tcp_client :
    RetryConfig → List Connect → String → Bool → Dict Task → Outcome Task × Dict Task
unfolding create_client
get_task_tcp_client c es name has_ap tasks = elim (get name tasks) [
  | some task ↦ (ok task, tasks)
  | none ↦ if has_ap then create_client c es name tasks else (throws (failure ""), tasks)
]

-- `Procedure.getTcpServer`, with the port of the configuration.
unfoldable pub get_tcp_server :
    RetryConfig → ℕ → List Listen → String → Dict Task → Outcome Task × Dict Task
get_tcp_server c port es name tasks = elim (get name tasks) [
  | some task ↦ (ok task, tasks)
  | none ↦
      let (ended, made) = Server.start c port es new_tcp_server in
      (started_task ended (server made), set name (server made) tasks)
]

-- `ServiceProvider.getTask`
unfoldable pub get_task : String → Dict Task → Outcome Task
get_task name tasks = elim (get name tasks) [ some task ↦ ok task | none ↦ throws (failure "") ]

-- The port that a socket says it has; `none` is no address.
pub record Ports : Type 0 where
  pub of_server : TcpServer → Option ℕ
  pub of_socket : Socket → Option ℕ

-- interface SocketAddress, less the protocol, which is TCP
pub record SocketAddress : Type 0 where
  pub address : String
  pub port : ℕ

abbrev pub at_port : String → Option ℕ → Outcome SocketAddress
at_port host none = throws (failure "")
at_port host (some port) = ok (record { address = host; port = port })

abbrev pub address_of_socket : Ports → String → Option Socket → Outcome SocketAddress
address_of_socket ports host none = throws (failure "")
address_of_socket ports host (some socket) = at_port host (ports.of_socket socket)

abbrev pub address_of : Ports → String → Task → Outcome SocketAddress
address_of ports host (server s) = at_port host (ports.of_server s)
address_of ports host (client c) = address_of_socket ports host (get_socket c)
address_of ports host other = throws (failure "")

abbrev pub and_then : {A B : Type 0} → Outcome A → (A → Outcome B) → Outcome B
and_then (ok a) f = f a
and_then waiting f = waiting
and_then (throws e) f = throws e

-- `_getSocketAddr`, with the address of the host
unfoldable pub get_socket_addr : Ports → String → String → Dict Task → Outcome SocketAddress
unfolding get_task
get_socket_addr ports host name tasks = and_then (get_task name tasks) (address_of ports host)

-- interface AccessPoint
pub record AccessPoint : Type 0 where
  pub authorization : String
  pub api : List String
  pub socket : SocketAddress

-- `getTcpTaskInfo`, over the method `buildAccessPointInfo` of the subclass
unfoldable pub get_tcp_task_info :
    (AccessPoint → AccessPoint) → Ports → String → String → Dict Task → Outcome AccessPoint
unfolding get_socket_addr
get_tcp_task_info build ports host name tasks =
    and_then (get_socket_addr ports host name tasks)
      (λ a. ok (build (record { authorization = ""; api = "report" ∷ []; socket = a })))
