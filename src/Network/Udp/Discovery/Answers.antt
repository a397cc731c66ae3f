-- ===== src/Network/Udp/Discovery/Answers.antt =====
-- What a caller of `discover` and `discoverOne` can count on, src/network/udp-discovery.ts.
use distributed_rpc_js.Common.{
  ℕ, suc, ◌≤◌, ◌≡◌, refl, leb, Bool, true, false, Option, none, some, List, [], ◌∷◌, arith, length,
  if◌then◌else◌,
}
use distributed_rpc_js.Types.{ExecutionState, stopped}
use distributed_rpc_js.Retry.{RetryConfig, Failure, failure, Ended, returned, pending, threw}
use distributed_rpc_js.Retry.Quiet.{expected}
use distributed_rpc_js.Network.Udp.Client.{
  UdpClient, start, get_ready_socket, set_broadcast, Incident, arrives, fails, closes, times_out,
  send_fails,
}
use distributed_rpc_js.Network.Udp.Client.Starting.{outcome_of}
use distributed_rpc_js.Network.Udp.Discovery.{
  Parsed, unreadable, incomplete, complete, Discovered, waiting, found, failed, Surroundings,
  broadcast_probe, after_start, discover, discover_one, first_of,
}
use distributed_rpc_js.Network.Udp.Discovery.Outcomes.{
  read_as, probed, after_option, described, discover-described,
}

module _ {R : Type 0} where
  -- One response at most, and none where more than one was asked for.
  abbrev pub IsSingle : ℕ → Discovered R → Type 0
  IsSingle max waiting = Unit
  IsSingle max (failed e) = Unit
  IsSingle max (found rs n) = (max ≤ 1) × (length rs ≡ 1) × (n ≡ 1)

  read_as-IsSingle : (max : ℕ) (p : Parsed R) → IsSingle max (read_as max p)
  read_as-IsSingle max unreadable = tt
  read_as-IsSingle max (incomplete o) = tt
  read_as-IsSingle max (complete r) = at (leb max 1) refl
    where
      at : (b : Bool) → leb max 1 ≡ b → IsSingle max (if b then found (r ∷ []) 1 else waiting)
      at true h = (ground arith, refl, refl)
      at false h = tt

  probed-IsSingle :
      (max : ℕ) (parse : List ℕ → Parsed R) (xs : List Incident)
      → IsSingle max (probed max parse xs)
  probed-IsSingle max parse [] = tt
  probed-IsSingle max parse (arrives peer bytes ∷ xs) = read_as-IsSingle max (parse bytes)
  probed-IsSingle max parse (fails e ∷ xs) = tt
  probed-IsSingle max parse (closes ∷ xs) = tt
  probed-IsSingle max parse (times_out ∷ xs) = tt
  probed-IsSingle max parse (send_fails e ∷ xs) = tt

  described-IsSingle :
      (max : ℕ) (env : Surroundings R) (e : Ended) → IsSingle max (described max env e)
  described-IsSingle max env returned = at env.broadcast_throws
    where
      at : (o : Option Failure) → IsSingle max (after_option max env o)
      at none = probed-IsSingle max env.parse env.incidents
      at (some e) = tt
  described-IsSingle max env pending = tt
  described-IsSingle max env (threw e) = tt

  first_of_single : (r : Discovered R) → IsSingle 1 r → first_of r ≡ r
  unfolding first_of
  first_of_single waiting single = refl
  first_of_single (failed e) single = refl
  first_of_single (found [] n) (small, one, count) = cc
  first_of_single (found (r ∷ rs) n) (small, one, count) = rw count refl

-- A client in the state Error is not started, and has no ready socket.
discover_in_error :
    {R : Type 0} (c : RetryConfig) (max : ℕ) (env : Surroundings R) (s : UdpClient)
    → s.state ≡ ExecutionState.error
    → discover c max env s ≡ (failed (failure ""), s)
unfolding discover start after_start set_broadcast get_ready_socket broadcast_probe
discover_in_error c max env s h = rw h refl

module _ {R : Type 0} (c : RetryConfig) (n : ℕ) (budget : c.max_retries ≡ some (suc n)) where
  -- A discovery on a stopped client with a budget of n + 1 attempts that returns gives exactly one
  -- response, and it returns only if no more than one was asked for.
  pub discover-IsSingle :
      (max : ℕ) (env : Surroundings R) (s : UdpClient)
      → s.state ≡ stopped
      → IsSingle max (discover c max env s).0
  discover-IsSingle max env s idle =
      let (as_described, left) = discover-described c n budget max env s idle in
      rw as_described
        (described-IsSingle max env (expected (outcome_of s.hears_errors) env.binds n))

  -- The error of discoverOne for no manager is never thrown: it comes to what a discovery with
  -- maxResponses 1 comes to.
  pub discover_one-discover :
      (env : Surroundings R) (s : UdpClient)
      → s.state ≡ stopped
      → discover_one c env s ≡ discover c 1 env s
  unfolding discover_one
  discover_one-discover env s idle =
      let same = first_of_single (discover c 1 env s).0 (discover-IsSingle 1 env s idle) in
      rw same refl

  -- After a discovery that could not bind, every later one on that client fails at once and
  -- changes nothing.
  pub discover_failed_again :
      (max : ℕ) (env : Surroundings R) (s : UdpClient) (e : Failure)
      → s.state ≡ stopped
      → expected (outcome_of s.hears_errors) env.binds n ≡ threw e
      → let t = (discover c max env s).1 in
        (max' : ℕ) (env' : Surroundings R) → discover c max' env' t ≡ (failed (failure ""), t)
  discover_failed_again max env s e idle h max' env' =
      let (as_described, left) = discover-described c n budget max env s idle in
      discover_in_error c max' env' (discover c max env s).1 (rw h at left)
