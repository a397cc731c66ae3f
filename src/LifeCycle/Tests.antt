-- ===== src/LifeCycle/Tests.antt =====
-- Concrete runs of the life cycle.
use distributed_rpc_js.Common.{◌≡◌, refl, true, false, none, some, List, [], ◌∷◌}
use distributed_rpc_js.Common.Dict.{Dict, get}
use distributed_rpc_js.Types.{ExecutionState, running, halting, stopping}
use distributed_rpc_js.Retry.{failure}
use distributed_rpc_js.LifeCycle.{
  channel_api, channel_sys, svc_manager, Life, Env, Hook, ok, threw, pure, Task, tcp_server, found,
  absent, sent, type_error,
}
use distributed_rpc_js.LifeCycle.Operations.{client, halt_service, stop}
use distributed_rpc_js.LifeCycle.Instructions.{registered, gives, gives_other, do_sys_instruction}
use distributed_rpc_js.LifeCycle.Instructions.Undocumented.{released_by_instruction}
use distributed_rpc_js.LifeCycle.Subclass.{
  Class, env_of, not_implemented, unimplemented_stopping-stuck,
}
use distributed_rpc_js.LifeCycle.Stuck.{
  Operation, op_start, op_shutdown, perform_all, dead_forever, halt_service_stuck,
}

abbrev server : Task
server = record { kind = tcp_server; handlers = 1 }

-- A running provider, with and without the API channel.
abbrev life : ExecutionState → Dict Task → Life
life x ts = record {
  state = x;
  initialized = true;
  tasks = ts;
  discovery = false;
  register = false;
  manager_known = true;
  report_timer = false;
  mgr_errors = 0;
  events = [];
}

abbrev serving : Life
serving = life running ((channel_sys, server) ∷ (channel_api, server) ∷ (svc_manager, client) ∷ [])

abbrev mute : Life
mute = life running ((svc_manager, client) ∷ [])

abbrev calm : Env
calm = record {
  hook = λ h ts. (none, ts);
  server_fails = λ name. none;
  stop_fails = λ name. false;
  release_fails = none;
  discovered = found;
  reported = sent;
  report_enabled = true;
}

abbrev hook_throws : Env
hook_throws = record calm { hook = λ h ts. (some (failure "Error"), ts) }

abbrev lonely : Env
lonely = record calm { discovered = absent }

dead_forever_example :
    (perform_all ((calm, op_start) ∷ (hook_throws, op_shutdown) ∷ []) (life stopping [])).state
    ≡ stopping
dead_forever_example =
    dead_forever stopping (refl, refl, refl) ((calm, op_start) ∷ (hook_throws, op_shutdown) ∷ [])
      (life stopping []) refl

halt_service_stuck_example :
    ((halt_service calm mute).0 ≡ threw type_error)
    × ((ops : List (Env × Operation))
        → (perform_all ops (halt_service calm mute).1).state ≡ halting)
unfolding get
halt_service_stuck_example = halt_service_stuck calm mute refl refl

released_by_instruction_example :
    do_sys_instruction calm registered "releaseResources" serving
    ≡ (ok gives_other, record serving { tasks = serving.tasks; initialized = false })
released_by_instruction_example = released_by_instruction calm registered serving refl refl

-- A name of no method is refused.
unknown_instruction :
    do_sys_instruction calm registered "dance" serving ≡ (ok (gives false), serving)
unfolding do_sys_instruction pure
unknown_instruction = refl

-- A subclass without hooks of its own.
abbrev bare : Class
bare = record { name = "Billing"; overrides = λ h. none }

bare_unstoppable : (stop (env_of bare calm) serving).0 ≡ threw (not_implemented Hook.stopping)
bare_unstoppable = (unimplemented_stopping-stuck bare calm serving refl refl refl).0
