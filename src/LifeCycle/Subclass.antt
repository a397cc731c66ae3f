-- ===== src/LifeCycle/Subclass.antt =====
-- The hooks of a ServiceProvider and of its subclasses (src/provider/service-provider.ts): the base
-- class throws in a hook that a subclass does not implement.
use distributed_rpc_js.Common.{
  ◌≡◌, refl, false, Option, none, some, String, List, str_eq, if◌then◌else◌,
}
use distributed_rpc_js.Common.Dict.{Dict}
use distributed_rpc_js.Types.{running, stopping}
use distributed_rpc_js.Retry.{Failure, failure}
use distributed_rpc_js.LifeCycle.{
  Life, Env, threw, Task, Hook, initializing_resources, releasing_resources, reloading,
}
use distributed_rpc_js.LifeCycle.Operations.{stop}
use distributed_rpc_js.LifeCycle.Stuck.{Operation, perform_all, stop_stuck}

-- A class, by its name and the hooks that it overrides.
pub record Class : Type 0 where
  pub name : String
  pub overrides : Hook → Option (Dict Task → Option Failure × Dict Task)

-- What the error says.
unfoldable pub not_implemented : Hook → Failure
not_implemented initializing_resources = failure "Method initializing() is not implemented."
not_implemented releasing_resources = failure "Method releasingResources() is not implemented."
not_implemented reloading = failure "Method reloading() is not implemented."
not_implemented Hook.starting = failure "Method starting() is not implemented."
not_implemented Hook.stopping = failure "Method stopping() is not implemented."

-- The hooks of the base class.
unfoldable pub base_hook : String → Hook → Dict Task → Option Failure × Dict Task
unfolding not_implemented
base_hook class_name h ts =
    (if str_eq class_name "ServiceProvider" then none else some (not_implemented h), ts)

unfoldable pub hook_of : Class → Hook → Dict Task → Option Failure × Dict Task
unfolding base_hook
hook_of c h = elim (c.overrides h) [ none ↦ base_hook c.name h | some own ↦ own ]

abbrev pub env_of : Class → Env → Env
env_of c env = record env { hook = hook_of c }

-- A running provider whose class is not ServiceProvider itself and does not override the hook
-- `stopping` cannot be stopped: the stop throws the error of the base class, and the state is
-- `stopping` from then on, after every sequence of operations.
pub unimplemented_stopping-stuck :
    (c : Class) (env : Env) (s : Life)
    → c.overrides Hook.stopping ≡ none
    → str_eq c.name "ServiceProvider" ≡ false
    → s.state ≡ running
    → ((stop (env_of c env) s).0 ≡ threw (not_implemented Hook.stopping))
      × ((ops : List (Env × Operation))
          → (perform_all ops (stop (env_of c env) s).1).state ≡ stopping)
unfolding hook_of
unimplemented_stopping-stuck c env s absent subclass up =
    stop_stuck (env_of c env) s (not_implemented Hook.stopping) up
      (rw (absent, subclass, hook_of, base_hook) refl)
