-- ===== src/LifeCycle/Instructions.antt =====
-- LifeCycleProcedure._doSysInstruction, which calls the method whose name is `_` and the operation,
-- and _register (src/procedure/life-cycle.ts). The methods are those of the class; the arguments are
-- missing. What the loop of `_register` comes to is the environment's: Procedure.Register has it.
pub mod Undocumented
use distributed_rpc_js.Common.{Bool, true, false, Option, none, some, String, List, [], ◌∷◌}
use Prim.Native.String.{◌++◌}
use distributed_rpc_js.Common.Dict.{Dict, get}
use distributed_rpc_js.Retry.{Failure}
use distributed_rpc_js.LifeCycle.{
  Life, Env, Result, ok, threw, M, ◌>>=◌, ◌>>◌, continue, pure, report, type_error,
  set_manager_channel, set_system_channel,
}
use distributed_rpc_js.LifeCycle.Operations.{
  activate, halt_service, stop, start, reload, restart, shutdown, release_resources,
  discover_service_manager, start_report_schedule, stop_manager_task, stop_timer,
}

-- How the loop of `_register` ends: a run succeeds, or one throws.
pub data Registering : Type 0 where
  registered : Registering
  failed : Failure → Registering

-- What a method gives: a Boolean, or something else.
pub data Given : Type 0 where
  gives : Bool → Given
  gives_other : Given

abbrev boolean : M Bool → M Given
boolean m = do b ← m; pure (gives b)

abbrev void : M (Unit {0}) → M Given
void m = do m; pure gives_other

module _ (env : Env) (registering : Registering) where
  -- `_register`, past the booking of its slot, which a throw leaves booked.
  unfoldable pub register_booked : Bool → M Bool
  register_booked true s = (ok true, s)
  register_booked false s = elim registering [
    | registered ↦ (ok true, record s { register = false })
    | failed e ↦ (threw e, record s { register = true })
  ]

  unfoldable pub register_provider : M Bool
  unfolding register_booked
  register_provider s = register_booked s.register s

  abbrev pub type_errors : M Given
  type_errors s = (threw type_error, s)

  abbrev pub nothing : M Given
  nothing = pure gives_other

  -- The methods of the class. Those that take a record apart throw where it is missing.
  unfoldable pub methods : Dict (M Given)
  unfolding register_provider
  methods =
      ("_activate", boolean (activate env))
      ∷ ("_halt", boolean (halt_service env))
      ∷ ("_register", boolean register_provider)
      ∷ ("_reload", boolean (reload env))
      ∷ ("_report", boolean (report env))
      ∷ ("_restart", boolean (restart env))
      ∷ ("_shutdown", boolean (shutdown env))
      ∷ ("_start", boolean (start env))
      ∷ ("_stop", boolean (stop env))
      ∷ ("_discoverServiceManager", void (discover_service_manager env))
      ∷ ("_doSysInstruction", pure (gives false))
      ∷ ("_handleTcpMgrError", type_errors)
      ∷ ("_handleTcpSysRequest", type_errors)
      ∷ ("_releaseResources", void (release_resources env))
      ∷ ("_setManagerChannel", void (set_manager_channel env false))
      ∷ ("_setSystemChannel", void (set_system_channel env false))
      ∷ ("_startReportSchedule", void (start_report_schedule env))
      ∷ ("_stopManagerTask", void (stop_manager_task env))
      ∷ ("_stopReportSchedule", void (stop_timer env))
      ∷ ("_stopTask", nothing)
      ∷ []

  -- `_doSysInstruction`
  unfoldable pub do_sys_instruction : String → M Given
  unfolding methods get
  do_sys_instruction operation = elim (get ("_" ++ operation) methods) [
    | none ↦ pure (gives false)
    | some method ↦ method
  ]
