-- ===== src/LifeCycle/Operations.antt =====
-- The operations of LifeCycleProcedure, src/procedure/life-cycle.ts.
use distributed_rpc_js.Common.{
  ◌-◌, Bool, true, false, ◌||◌, ◌&&◌, Option, none, some, [], ◌∷◌, if◌then◌else◌, String, str_eq,
}
use distributed_rpc_js.Common.Dict.{Dict, get, set, delete, has}
use distributed_rpc_js.Types.{
  ExecutionState, halt, halting, initializing, retrying, running, starting, stopping, stopped,
}
use distributed_rpc_js.Retry.{Failure}
use distributed_rpc_js.LifeCycle.{
  channel_api, channel_response, svc_manager, manager_connected, manager_disconnect, service_halted,
  service_shutdown, service_started, service_stopped, tcp_server, tcp_client, other_task, Task,
  Hook, Discovered, found, absent, failed, Env, ok, threw, M, ◌>>◌, pure, set_state, emit, outcome,
  type_error, run_hook, get_task_tcp_server, subscribe, set_system_channel, set_manager_channel,
  report,
}

-- The states that `_start` accepts.
abbrev pub can_start : ExecutionState → Bool
can_start ExecutionState.error = true
can_start initializing = true
can_start retrying = true
can_start stopped = true
can_start _ = false

abbrev pub is_running : ExecutionState → Bool
is_running running = true
is_running _ = false

abbrev pub is_halt : ExecutionState → Bool
is_halt halt = true
is_halt _ = false

-- `if (!acceptStates.includes(...)) return false;`
abbrev pub when : Bool → M Bool → M Bool
when true m s = m s
when false m s = (ok false, s)

-- `smTask instanceof TcpClient`
abbrev pub is_client : Option Task → Bool
is_client none = false
is_client (some t) = elim t.kind [ tcp_client ↦ true | tcp_server ↦ false | other_task ↦ false ]

-- `tasks.get(ChannelApi).start()` or `.stop()`: a TypeError without the task; the promise is not
-- awaited.
unfoldable pub touch_api : M (Unit {0})
touch_api s = if has channel_api s.tasks then (ok tt, s) else (threw type_error, s)

-- The tasks that are left after each but the manager's was told to stop: those that failed to.
unfoldable pub stop_tasks : (String → Bool) → Dict Task → Dict Task
stop_tasks fails [] = []
stop_tasks fails ((name, t) ∷ ts) =
    let rest = stop_tasks fails ts in
    if str_eq name svc_manager || fails name then (name, t) ∷ rest else rest

-- A client that DiscoverProcedure has put among the tasks.
abbrev pub client : Task
client = record { kind = tcp_client; handlers = 0 }

module _ (env : Env) where
  -- `_activate`
  unfoldable pub activate : M Bool
  activate s =
      when (is_halt s.state)
        (do
          set_state starting
          touch_api
          set_state running
          report env
          emit service_started
          pure true)
        s

  -- `_halt`
  unfoldable pub halt_service : M Bool
  halt_service s =
      when (is_running s.state)
        (do
          set_state halting
          touch_api
          set_state halt
          report env
          emit service_halted
          pure true)
        s

  unfoldable pub stop_all_tasks : M (Unit {0})
  stop_all_tasks s = (ok tt, record s { tasks = stop_tasks env.stop_fails s.tasks })

  -- `_stop`
  unfoldable pub stop : M Bool
  unfolding stop_all_tasks
  stop s =
      when (is_running s.state)
        (do
          set_state stopping
          run_hook env Hook.stopping
          stop_all_tasks
          set_state stopped
          report env
          emit service_stopped
          pure true)
        s

  -- `_reload`: the configuration is outside the model.
  unfoldable pub reload : M Bool
  reload = do run_hook env Hook.reloading; pure true

  unfoldable pub set_uninitialized : M (Unit {0})
  set_uninitialized s = (ok tt, record s { initialized = false })

  unfoldable pub throw_if : Option Failure → M (Unit {0})
  throw_if o s = (outcome o, s)

  -- `_releaseResources`
  unfoldable pub release_resources : M (Unit {0})
  unfolding set_uninitialized throw_if
  release_resources = do
    run_hook env Hook.releasing_resources
    throw_if env.release_fails
    set_uninitialized

  unfoldable pub set_initialized : M (Unit {0})
  set_initialized s = (ok tt, record s { initialized = true })

  -- ServiceProvider._initializeResources
  unfoldable pub initialize_resources : M (Unit {0})
  unfolding set_initialized
  initialize_resources = do
    set_state initializing
    get_task_tcp_server env channel_response
    subscribe env channel_response true
    run_hook env Hook.initializing_resources
    set_initialized

  -- `_discoverServiceManager`, past the booking: the old manager's task is dropped, and the
  -- procedure is run. Its result is an object also when there is no manager, so that the loop
  -- makes one round; the slot is freed only when a manager was found.
  unfoldable pub book : M (Unit {0})
  book s = (
    ok tt,
    record s { discovery = true; manager_known = false; tasks = delete svc_manager s.tasks },
  )

  unfoldable pub connected : M (Unit {0})
  connected s = (ok tt, record s { manager_known = true; tasks = set svc_manager client s.tasks })

  unfoldable pub free_slot : M (Unit {0})
  free_slot s = (ok tt, record s { discovery = false })

  unfoldable pub discovered_step : Discovered → M (Unit {0})
  unfolding connected free_slot
  discovered_step found s =
      (do connected; set_manager_channel env true; emit manager_connected; free_slot) s
  discovered_step absent s = (ok tt, s)
  discovered_step (failed e left) s =
      (threw e, if left then record s { tasks = set svc_manager client s.tasks } else s)

  unfoldable pub discover_booked : Bool → M (Unit {0})
  unfolding book discovered_step
  discover_booked true s = (ok tt, s)
  discover_booked false s = (do book; discovered_step env.discovered) s

  unfoldable pub discover_service_manager : M (Unit {0})
  unfolding discover_booked
  discover_service_manager s = discover_booked s.discovery s

  -- What _handleTcpMgrError does after its first `await`.
  unfoldable pub continue_mgr_error : M (Unit {0})
  continue_mgr_error s =
      (do emit manager_disconnect; discover_service_manager)
        (record s { mgr_errors = s.mgr_errors - 1 })

  -- `_startReportSchedule`
  unfoldable pub start_report_schedule : M (Unit {0})
  start_report_schedule s =
      (ok tt, record s { report_timer = env.report_enabled && is_client (get svc_manager s.tasks) })

  -- `_start`
  unfoldable pub init_if_needed : Bool → M (Unit {0})
  init_if_needed true s = (ok tt, s)
  init_if_needed false s = (do initialize_resources; set_system_channel env true) s

  unfoldable pub start : M Bool
  unfolding init_if_needed
  start s =
      when (can_start s.state)
        (do
          init_if_needed s.initialized
          discover_service_manager
          set_state starting
          run_hook env Hook.starting
          start_report_schedule
          set_state running
          emit service_started
          pure true)
        s

  -- `_restart`: the results of `_stop` and `_start` are not looked at.
  unfoldable pub restart : M Bool
  restart = do stop; release_resources; reload; start; pure true

  unfoldable pub stop_timer : M (Unit {0})
  stop_timer s = (ok tt, record s { report_timer = false })

  -- `_stopManagerTask`
  unfoldable pub drop_task : M (Unit {0})
  drop_task s = (
    ok tt,
    if env.stop_fails svc_manager then s else record s { tasks = delete svc_manager s.tasks },
  )

  unfoldable pub stop_manager_task : M (Unit {0})
  unfolding drop_task
  stop_manager_task s =
      if has svc_manager s.tasks
      then (do set_manager_channel env false; drop_task) s
      else (ok tt, s)

  -- `_shutdown`
  unfoldable pub shutdown : M Bool
  unfolding stop_timer stop_manager_task
  shutdown = do
    stop
    set_system_channel env false
    stop_timer
    stop_manager_task
    release_resources
    emit service_shutdown
    pure true
