-- ===== src/Procedure/Discover/Searching.antt =====
-- What a search for the manager comes to, src/procedure/discover.ts.
use distributed_rpc_js.Common.{ℕ, suc, ◌≡◌, refl, Bool, true, false, none, some, List, ◌∷◌, String}
use distributed_rpc_js.Common.Dict.{Dict}
use distributed_rpc_js.Retry.{RetryConfig, returned}
use distributed_rpc_js.Retry.Quiet.{expected}
use distributed_rpc_js.Network.Client.{Connect}
use distributed_rpc_js.Network.Udp.Client.{new_udp_client, Incident, times_out}
use distributed_rpc_js.Network.Udp.Client.Starting.{outcome_of}
use distributed_rpc_js.Network.Udp.Discovery.{Surroundings}
use distributed_rpc_js.Network.Udp.Discovery.Outcomes.{discover-described}
use distributed_rpc_js.Procedure.Report.{Task}
use distributed_rpc_js.Procedure.Discover.{never, execute_discover, after_discovery}

module _ {R : Type 0} (c : RetryConfig) (n : ℕ) (budget : c.max_retries ≡ some (suc n))
    (es : List Connect) (name : String) (has_provider : R → Bool) (tasks : Dict Task) where
  -- An enabled search for the manager whose bind succeeds within a budget of n + 1 attempts, and
  -- whose probe nobody answers before the timer goes off, never settles and leaves the tasks as
  -- they were.
  pub silent_network-never :
      (env : Surroundings R) (later : List Incident)
      → expected (outcome_of false) env.binds n ≡ returned
      → env.broadcast_throws ≡ none
      → env.incidents ≡ times_out ∷ later
      → execute_discover c es name true has_provider env tasks ≡ (never, tasks)
  unfolding execute_discover after_discovery new_udp_client
  silent_network-never env later binds broadcasts silent =
      let (as_described, left) = discover-described c n budget 0 env new_udp_client refl in
      rw (as_described, binds, broadcasts, silent) refl
