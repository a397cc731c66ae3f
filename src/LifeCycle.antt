-- ===== src/LifeCycle.antt =====
-- src/procedure/life-cycle.ts (LifeCycleProcedure), with the parts of a ServiceProvider that it
-- drives (src/provider/service-provider.ts: _initializeResources, getTaskTcpServer). An operation
-- is a function on the state that returns or throws; what is changed before a throw stays changed.
pub mod Operations
pub mod Instructions
pub mod Guards
pub mod Keeps
pub mod Stuck
pub mod Subclass
pub mod Channels
pub mod Again
pub mod Discovery
mod Tests
use distributed_rpc_js.Common.{
  ℕ, ◌+◌, ◌-◌, Bool, true, false, ◌||◌, Option, none, some, List, [], ◌∷◌, ◌++◌, if◌then◌else◌,
  String, str_eq,
}
use distributed_rpc_js.Common.Dict.{Dict, get, set, delete, has}
use distributed_rpc_js.Types.{ExecutionState}
use distributed_rpc_js.Retry.{Failure, failure}

-- enum ProviderTask
abbrev pub channel_api : String
channel_api = "_chnAPI"

abbrev pub channel_response : String
channel_response = "_chnResponse"

abbrev pub channel_sys : String
channel_sys = "_chnSys"

abbrev pub svc_manager : String
svc_manager = "_svcManager"

-- enum ServiceEvent
pub data ServiceEvent : Type 0 where
  manager_connected manager_disconnect service_halted service_shutdown service_started
        service_stopped :
      ServiceEvent

-- A task of the map `tasks`, with the handlers that this provider has attached to it.
pub data Kind : Type 0 where
  tcp_server tcp_client other_task : Kind

pub record Task : Type 0 where
  pub kind : Kind
  pub handlers : ℕ

-- The state: the provider's, the procedure's, and the events emitted, the latest first.
-- `discovery` and `register` are the booking slots of `_procedure`; `mgr_errors` counts the calls
-- of _handleTcpMgrError that have not gone on yet.
pub record Life : Type 0 where
  pub state : ExecutionState
  pub initialized : Bool
  pub tasks : Dict Task
  pub discovery : Bool
  pub register : Bool
  pub manager_known : Bool
  pub report_timer : Bool
  pub mgr_errors : ℕ
  pub events : List ServiceEvent

-- The methods that a subclass implements.
pub data Hook : Type 0 where
  initializing_resources releasing_resources reloading starting stopping : Hook

-- How DiscoverProcedure.execute ends: a manager with its client started, none, or a throw, which
-- leaves the client among the tasks if it failed to start.
pub data Discovered : Type 0 where
  found absent : Discovered
  failed : Failure → Bool → Discovered

-- How ReportProcedure.execute ends, with a client of the manager at hand.
pub data Reported : Type 0 where
  sent exhausted : Reported
  crashed : Failure → Reported

-- What the environment does: a hook may change the tasks and may throw, a new server may fail to
-- start, a task may fail to stop.
pub record Env : Type 0 where
  pub hook : Hook → Dict Task → Option Failure × Dict Task
  pub server_fails : String → Option Failure
  pub stop_fails : String → Bool
  pub release_fails : Option Failure
  pub discovered : Discovered
  pub reported : Reported
  pub report_enabled : Bool

pub data Result (A : Type 0) : Type 0 where
  ok : A → Result A
  threw : Failure → Result A

abbrev pub M : Type 0 → Type 0
M A = Life → Result A × Life

abbrev pub continue : {A B : Type 0} → Result A → (A → M B) → M B
continue (ok a) f s = f a s
continue (threw e) f s = (threw e, s)

infixl 5 ◌>>=◌ ◌>>◌
abbrev pub ◌>>=◌ : {A B : Type 0} → M A → (A → M B) → M B
◌>>=◌ m f s = continue (m s).0 f (m s).1

abbrev pub ◌>>◌ : {A B : Type 0} → M A → M B → M B
m >> k = m >>= λ _. k

unfoldable pub pure : {A : Type 0} → A → M A
pure a s = (ok a, s)

unfoldable pub set_state : ExecutionState → M (Unit {0})
set_state x s = (ok tt, record s { state = x })

unfoldable pub emit : ServiceEvent → M (Unit {0})
emit e s = (ok tt, record s { events = e ∷ s.events })

abbrev pub outcome : Option Failure → Result (Unit {0})
outcome none = ok tt
outcome (some e) = threw e

abbrev pub type_error : Failure
type_error = failure "TypeError"

module _ (env : Env) where
  unfoldable pub run_hook : Hook → M (Unit {0})
  run_hook h s = (outcome (env.hook h s.tasks).0, record s { tasks = (env.hook h s.tasks).1 })

  -- ServiceProvider.getTaskTcpServer: a server that fails to start stays among the tasks.
  unfoldable pub get_server : Option Task → String → M (Unit {0})
  get_server (some t) name s = (ok tt, s)
  get_server none name s = (
    outcome (env.server_fails name),
    record s { tasks = set name (record { kind = tcp_server; handlers = 0 }) s.tasks },
  )

  unfoldable pub get_task_tcp_server : String → M (Unit {0})
  unfolding get_server
  get_task_tcp_server name s = get_server (get name s.tasks) name s

  -- `task.on` and `task.off`: a TypeError if there is no task.
  unfoldable pub change_handlers : Option Task → String → (ℕ → ℕ) → M (Unit {0})
  change_handlers none name f s = (threw type_error, s)
  change_handlers (some t) name f s =
      (ok tt, record s { tasks = set name (record t { handlers = f t.handlers }) s.tasks })

  unfoldable pub subscribe : String → Bool → M (Unit {0})
  unfolding change_handlers
  subscribe name b s = change_handlers (get name s.tasks) name (λ n. if b then n + 1 else n - 1) s

  unfoldable pub set_system_channel : Bool → M (Unit {0})
  set_system_channel b = do get_task_tcp_server channel_sys; subscribe channel_sys b

  unfoldable pub set_manager_channel : Bool → M (Unit {0})
  set_manager_channel b = subscribe svc_manager b

  -- `_report`: an exhausted report calls _handleTcpMgrError without waiting for it, which detaches
  -- its handler from the manager's task at once and goes on later.
  unfoldable pub start_mgr_error : Life → Life
  start_mgr_error s =
      let t = (set_manager_channel false s).1 in record t { mgr_errors = t.mgr_errors + 1 }

  unfoldable pub report_ended : Reported → M Bool
  unfolding start_mgr_error
  report_ended sent s = (ok true, s)
  report_ended exhausted s = (ok false, start_mgr_error s)
  report_ended (crashed e) s = (threw e, s)

  -- `smTask instanceof TcpClient`
  unfoldable pub report_kind : Kind → M Bool
  unfolding report_ended
  report_kind tcp_client s = report_ended env.reported s
  report_kind tcp_server s = (ok true, s)
  report_kind other_task s = (ok true, s)

  unfoldable pub report_to : Option Task → M Bool
  unfolding report_kind
  report_to none s = (ok true, s)
  report_to (some t) s = report_kind t.kind s

  unfoldable pub report : M Bool
  unfolding report_to
  report s = report_to (get svc_manager s.tasks) s
