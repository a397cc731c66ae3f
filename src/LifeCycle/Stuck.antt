-- ===== src/LifeCycle/Stuck.antt =====
-- The execution states that no operation leaves, src/procedure/life-cycle.ts.
use distributed_rpc_js.Common.{◌≡◌, refl, arith, false, some, List, [], ◌∷◌}
use distributed_rpc_js.Common.Dict.{has}
use distributed_rpc_js.Types.{ExecutionState, halting, running, stopping}
use distributed_rpc_js.Retry.{Failure}
use distributed_rpc_js.LifeCycle.{
  channel_api, Life, Env, threw, Hook, run_hook, set_state, report, type_error,
}
use distributed_rpc_js.LifeCycle.Operations.{
  can_start, is_running, is_halt, touch_api, activate, halt_service, stop, start, reload, restart,
  shutdown, continue_mgr_error,
}
use distributed_rpc_js.LifeCycle.Instructions.{Registering, register_booked, register_provider}
use distributed_rpc_js.LifeCycle.Keeps.{
  Keeps, activate-Keeps, halt_service-Keeps, stop-Keeps, start-Keeps, reload-Keeps, restart-Keeps,
  shutdown-Keeps, report-Keeps, continue_mgr_error-Keeps,
}

-- The operations of LifeCycleProcedure.execute, and what else is called from outside: the report timer,
-- and the continuation of an error of the manager's task. `op_register` says how its loop ends.
pub data Operation : Type 0 where
  op_activate op_halt op_restart op_shutdown op_start op_stop op_report op_reload op_mgr_error :
      Operation
  op_register : Registering → Operation

-- The state after an operation, whether it has returned or thrown.
unfoldable pub perform : Env → Operation → Life → Life
perform env op_activate s = (activate env s).1
perform env op_halt s = (halt_service env s).1
perform env op_restart s = (restart env s).1
perform env op_shutdown s = (shutdown env s).1
perform env op_start s = (start env s).1
perform env op_stop s = (stop env s).1
perform env op_report s = (report env s).1
perform env op_reload s = (reload env s).1
perform env (op_register registering) s = (register_provider env registering s).1
perform env op_mgr_error s = (continue_mgr_error env s).1

unfoldable pub perform_all : List (Env × Operation) → Life → Life
perform_all [] s = s
perform_all ((env, op) ∷ ops) s = perform_all ops (perform env op s)

register_provider-Keeps :
    (x : ExecutionState) (env : Env) (registering : Registering)
    → Keeps x (register_provider env registering)
unfolding Keeps register_provider register_booked
register_provider-Keeps x env registering s e = ground arith

-- A state that no operation accepts.
abbrev pub IsDead : ExecutionState → Type 0
IsDead x = (can_start x ≡ false) × (is_running x ≡ false) × (is_halt x ≡ false)

perform-Keeps :
    (x : ExecutionState)
    → IsDead x
    → (env : Env) (op : Operation) (s : Life) → s.state ≡ x
    → (perform env op s).state ≡ x
unfolding perform Keeps
perform-Keeps x d env op_activate s e = activate-Keeps x env d.2 s e
perform-Keeps x d env op_halt s e = halt_service-Keeps x env d.1 s e
perform-Keeps x d env op_restart s e = restart-Keeps x env d.1 d.0 s e
perform-Keeps x d env op_shutdown s e = shutdown-Keeps x env d.1 s e
perform-Keeps x d env op_start s e = start-Keeps x env d.0 s e
perform-Keeps x d env op_stop s e = stop-Keeps x env d.1 s e
perform-Keeps x d env op_report s e = report-Keeps x env s e
perform-Keeps x d env op_reload s e = reload-Keeps x env s e
perform-Keeps x d env (op_register registering) s e = register_provider-Keeps x env registering s e
perform-Keeps x d env op_mgr_error s e = continue_mgr_error-Keeps x env s e

-- A provider in an execution state that no operation accepts stays in it through every sequence of
-- operations, those of `execute`, the reports of the timer and the continuations of an error of the
-- manager, whatever the environment does at each; its hooks do not set the state themselves.
pub dead_forever :
    (x : ExecutionState)
    → IsDead x
    → (ops : List (Env × Operation)) (s : Life) → s.state ≡ x
    → (perform_all ops s).state ≡ x
unfolding perform_all
dead_forever x d [] s e = e
dead_forever x d ((env, op) ∷ ops) s e = dead_forever x d ops _ (perform-Keeps x d env op s e)

-- When a running provider without a task of the API channel is told to halt, the call throws a
-- TypeError, and the state is `halting` from then on, after every sequence of operations, reloads
-- and registrations among them, whose hooks do not set the state themselves.
pub halt_service_stuck :
    (env : Env) (s : Life)
    → s.state ≡ running
    → has channel_api s.tasks ≡ false
    → ((halt_service env s).0 ≡ threw type_error)
      × ((ops : List (Env × Operation)) → (perform_all ops (halt_service env s).1).state ≡ halting)
unfolding halt_service touch_api set_state
halt_service_stuck env s e h =
    rw (e, h) (refl, λ ops. dead_forever halting (refl, refl, refl) ops _ refl)

-- When the hook `stopping` of a running provider throws, the stop throws the same, and the state is
-- `stopping` from then on, after every sequence of operations.
pub stop_stuck :
    (env : Env) (s : Life) (f : Failure)
    → s.state ≡ running
    → (env.hook Hook.stopping s.tasks).0 ≡ some f
    → ((stop env s).0 ≡ threw f)
      × ((ops : List (Env × Operation)) → (perform_all ops (stop env s).1).state ≡ stopping)
unfolding stop run_hook set_state
stop_stuck env s f e h =
    rw (e, h) (refl, λ ops. dead_forever stopping (refl, refl, refl) ops _ refl)
