-- ===== src/Network/Udp/Starting.antt =====
-- How the start of a UdpClient or a UdpServer ends, src/network/udp-client.ts and udp-server.ts.
use distributed_rpc_js.Common.{◌≡◌, ◌≢◌, refl}
use distributed_rpc_js.Types.{ExecutionState, retrying}
use distributed_rpc_js.Retry.{
  abort_error, failure, World, Ended, returned, pending, threw, RetryContext, call,
}
use distributed_rpc_js.Network.Udp.{callbacks, ended}

-- The state of a client or a server, and how it is set.
module _ {S : Type 0} (state : S → ExecutionState) (with_state : ExecutionState → S → S)
    (state-with_state : (x : ExecutionState) (s : S) → state (with_state x s) ≡ x) where
  pub on_retry-with_state :
      (ctx : RetryContext) (s : S)
      → call (callbacks with_state).on_retry ctx s ≡ with_state retrying s
  unfolding callbacks
  on_retry-with_state ctx s = refl

  -- What an ended start leaves behind: IsDone if it returned, the state Error if it threw.
  abbrev pub LeftAs : (S → Type 0) → Ended → S → Type 0
  LeftAs IsDone returned s = IsDone s
  LeftAs IsDone pending s = Unit
  LeftAs IsDone (threw e) s = state s ≡ ExecutionState.error

  pub ended_facts :
      (IsDone : S → Type 0) (out : Ended × World S) (e : Ended)
      → out.0 ≡ e
      → e ≢ threw abort_error
      → (e ≡ returned → IsDone out.1.owner)
      → ((ended with_state out).0 ≡ e) × LeftAs IsDone e (ended with_state out).1
  unfolding ended
  ended_facts IsDone (o, w) returned h live done = rw h (refl, done refl)
  ended_facts IsDone (o, w) pending h live done = rw h (refl, tt)
  ended_facts IsDone (o, w) (threw abort_error) h live done = absurd (live refl)
  ended_facts IsDone (o, w) (threw (failure code)) h live done =
      rw h (refl, state-with_state ExecutionState.error _)
