-- ===== src/LifeCycle/Guards.antt =====
-- The guards of the operations, src/procedure/life-cycle.ts.
use distributed_rpc_js.Common.{◌≡◌, false}
use distributed_rpc_js.LifeCycle.{Life, Env, ok}
use distributed_rpc_js.LifeCycle.Operations.{
  can_start, is_running, is_halt, activate, halt_service, stop, start,
}

module _ (env : Env) where
  -- In a state that it does not accept, each of activate, halt, stop and start returns false and
  -- changes nothing.
  pub refused :
      (s : Life)
      → ((is_halt s.state ≡ false) → activate env s ≡ (ok false, s))
        × ((is_running s.state ≡ false) → halt_service env s ≡ (ok false, s))
        × ((is_running s.state ≡ false) → stop env s ≡ (ok false, s))
        × ((can_start s.state ≡ false) → start env s ≡ (ok false, s))
  unfolding activate halt_service stop start
  refused s = (λ h. rw h, λ h. rw h, λ h. rw h, λ h. rw h)
