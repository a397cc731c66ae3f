-- ===== src/Procedure/Register/Unconnected.antt =====
-- A registration without a client of the manager: src/procedure/register.ts, and the loop of
-- LifeCycleProcedure._register (src/procedure/life-cycle.ts).
use distributed_rpc_js.Common.{◌≡◌, refl, ap, false, List, [], ◌∷◌, All}
use distributed_rpc_js.Types.{PeerIdentity, AckType}
use distributed_rpc_js.Provider.Pool.{Pool}
use distributed_rpc_js.Procedure.Report.{is_client}
use distributed_rpc_js.Procedure.Register.{Round, gives, going_on, register_loop, execute_register}

unconnected_run :
    {A : Type 0} (peer : PeerIdentity) (reg_info : A) (ack : AckType) (r : Round) (p : Pool A)
    → is_client r.task ≡ false
    → execute_register peer reg_info ack r p ≡ (gives false, p)
unfolding execute_register
unconnected_run peer reg_info ack r p h = rw h refl

-- Without a client of the manager among the tasks every run gives false and changes nothing, so that
-- the loop goes on after any number of runs.
pub unconnected_register-going_on :
    {A : Type 0} (peer : PeerIdentity) (reg_info : A) (ack : AckType) (rs : List Round) (p : Pool A)
    → All (λ r. is_client r.task ≡ false) rs
    → register_loop peer reg_info ack rs p ≡ (going_on, p)
unfolding register_loop
unconnected_register-going_on peer reg_info ack [] p h = refl
unconnected_register-going_on peer reg_info ack (r ∷ rs) p (none_there, later) =
    let same = unconnected_run peer reg_info ack r p none_there in
    rw (same, register_loop)
      (rw (ap (λ o. o.1) same) (unconnected_register-going_on peer reg_info ack rs p later))
