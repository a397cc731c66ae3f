-- ===== src/LifeCycle/Instructions/Undocumented.antt =====
-- Instructions that are no LifeCycleOperation: src/procedure/life-cycle.ts.
use distributed_rpc_js.Common.{◌≡◌, refl, false, none}
use distributed_rpc_js.LifeCycle.{Life, Env, ok, releasing_resources, run_hook, pure}
use distributed_rpc_js.LifeCycle.Operations.{release_resources}
use distributed_rpc_js.LifeCycle.Instructions.{Registering, gives_other, do_sys_instruction}

module _ (env : Env) (registering : Registering) where
  -- The instruction "releaseResources", which is no operation of the life cycle, is obeyed in every
  -- state: if the release does not throw, it gives no Boolean, runs the hook that releases
  -- resources and leaves the provider uninitialized, with its execution state and the rest as they
  -- were.
  pub released_by_instruction :
      (s : Life)
      → (env.hook releasing_resources s.tasks).0 ≡ none
      → env.release_fails ≡ none
      → do_sys_instruction env registering "releaseResources" s ≡ (
        ok gives_other,
        record s { tasks = (env.hook releasing_resources s.tasks).1; initialized = false },
      )
  unfolding do_sys_instruction release_resources run_hook pure
  released_by_instruction s hooked released = rw (hooked, released) refl
