-- ===== src/Procedure/Register.antt =====
-- src/procedure/register.ts (RegisterProcedure), and LifeCycleProcedure._register, which repeats it
-- (src/procedure/life-cycle.ts). The listeners of the event `pvd_registered` are left out.
pub mod Repeating
pub mod Unconnected
use distributed_rpc_js.Common.{
  ℕ, Bool, true, false, Option, none, some, List, [], ◌∷◌, String, if◌then◌else◌,
}
use distributed_rpc_js.Types.{PeerIdentity, AckType}
use distributed_rpc_js.Retry.{Failure}
use distributed_rpc_js.Provider.Pool.{Pool, ask, AskOutcome, threw, asked, build_message}
use distributed_rpc_js.Procedure.Report.{Task, is_client}

-- What becomes of the promise of a request.
pub data Answer : Type 0 where
  resolves rejects unanswered : Answer

-- What one run of the procedure meets: the task of the manager, what getTcpTaskInfo throws, what the
-- write throws, the message id that is made, and the answer.
pub record Round : Type 0 where
  pub task : Option Task
  pub info_throws : Option Failure
  pub write_throws : Option Failure
  pub fresh : String
  pub answer : Answer

-- How `execute` settles: with a Boolean, or not.
pub data Registered : Type 0 where
  gives : Bool → Registered
  waits : Registered

unfoldable pub answered_as : Answer → Registered
answered_as resolves = gives true
answered_as rejects = gives false
answered_as unanswered = waits

-- After `ask`: without a promise the result is false.
unfoldable pub after_ask : Answer → AskOutcome → Registered
unfolding answered_as
after_ask answer (threw e) = gives false
after_ask answer (asked id none) = gives false
after_ask answer (asked id (some promise)) = answered_as answer

-- How `_register` stands after some runs: it has returned true, a run has not settled, or all the
-- runs have given false and the loop goes on.
pub data Progress : Type 0 where
  registered hanging going_on : Progress

module _ {A : Type 0} (peer : PeerIdentity) (reg_info : A) (ack : AckType) where
  -- The request is built and sent unless getTcpTaskInfo has thrown.
  unfoldable pub send_registration : Option Failure → Round → Pool A → Registered × Pool A
  unfolding after_ask
  send_registration (some e) r p = (gives false, p)
  send_registration none r p =
      let message = build_message peer "register" reg_info none in
      let (outcome, later) = ask r.write_throws r.fresh message ack p in
      (after_ask r.answer outcome, later)

  -- `execute`
  unfoldable pub execute_register : Round → Pool A → Registered × Pool A
  unfolding send_registration
  execute_register r p =
      if is_client r.task then send_registration r.info_throws r p else (gives false, p)

  -- The loop of `_register`, over the runs that the environment gives.
  unfoldable pub register_loop : List Round → Pool A → Progress × Pool A
  register_loop [] p = (going_on, p)
  register_loop (r ∷ rs) p =
      let rest = register_loop rs (execute_register r p).1 in
      elim (execute_register r p).0 [
        | waits ↦ (hanging, (execute_register r p).1)
        | gives b ↦ if b then (registered, (execute_register r p).1) else rest
      ]
