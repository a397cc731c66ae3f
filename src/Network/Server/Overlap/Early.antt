-- ===== src/Network/Server/Overlap/Early.antt =====
-- A TcpServer that is started again before its listener has closed: src/network/tcp-server.ts.
use distributed_rpc_js.Common.{
  ℕ, zero, suc, ◌≡◌, ◌==◌, refl, true, false, Option, none, some, List, [], ◌∷◌, String, arith,
}
use distributed_rpc_js.Types.{starting, listening, stopped}
use distributed_rpc_js.Retry.{RetryConfig, is_exhausted, calculate_delay}
use distributed_rpc_js.Network.Client.Overlap.{attempting, returned, sleeping}
use distributed_rpc_js.Network.Server.Overlap.{
  Server, Event, start, stop, bound_to, closed_at, unwound, binding, bound, closing, steps, step,
  begin_attempt, start_call,
}

-- The call `k` waits for the listener `x`, which is the server's.
record First (k x : ℕ) (s : Server) : Type 0 where
  state : s.state ≡ starting
  server : s.server ≡ some x
  next : s.next_server ≡ suc x
  call : s.next_call ≡ suc k
  current : s.current ≡ some k
  waits : s.phase k ≡ attempting x
  tries : s.attempts k ≡ 1
  status : s.status x ≡ binding
  owner : s.owner x ≡ k
  on_close : s.on_close x ≡ true

-- The server was stopped, and the next call waits for the next listener.
record Second (k x : ℕ) (s : Server) : Type 0 where
  state : s.state ≡ starting
  server : s.server ≡ some (suc x)
  current : s.current ≡ some (suc k)
  waits : s.phase k ≡ attempting x
  tries : s.attempts k ≡ 1
  aborted : s.aborted k ≡ true
  status : s.status x ≡ closing
  owner : s.owner x ≡ k
  on_close : s.on_close x ≡ true
  next_waits : s.phase (suc k) ≡ attempting (suc x)
  next_status : s.status (suc x) ≡ binding
  next_owner : s.owner (suc x) ≡ suc k

-- The listener is open, and the server counts as stopped.
pub record IsOrphan (b y : ℕ) (s : Server) : Type 0 where
  state : s.state ≡ stopped
  server : s.server ≡ some y
  returns : s.phase b ≡ returned
  status : s.status y ≡ bound

abbrev pub stops : ℕ → List Event
stops zero = []
stops (suc n) = stop ∷ stops n

-- A start, a stop and a start; the second listener is bound before the first has closed.
abbrev pub early_restart : ℕ → ℕ → ℕ → List Event
early_restart k x n = start ∷ stop ∷ start ∷ bound_to (suc x) ∷ closed_at x ∷ unwound k ∷ stops n

module _ (c : RetryConfig) (listen_throws : ℕ → Option String) (k x : ℕ) where
  start-First :
      (s : Server)
      → s.state ≡ stopped
      → s.next_call ≡ k
      → s.next_server ≡ x
      → listen_throws x ≡ none
      → First k x (step c listen_throws start s)
  unfolding step start_call begin_attempt
  start-First s idle call made binds = ground arith

  restart-Second :
      (s : Server)
      → First k x s
      → listen_throws (suc x) ≡ none
      → Second k x (step c listen_throws start (step c listen_throws stop s))
  unfolding step start_call begin_attempt
  restart-Second s v binds = ground arith

  -- The second listener is bound, and the first has not closed.
  record Third (s : Server) : Type 0 where
    state : s.state ≡ listening
    server : s.server ≡ some (suc x)
    waits : s.phase k ≡ attempting x
    tries : s.attempts k ≡ 1
    aborted : s.aborted k ≡ true
    status : s.status x ≡ closing
    owner : s.owner x ≡ k
    on_close : s.on_close x ≡ true
    returns : s.phase (suc k) ≡ returned
    bound_next : s.status (suc x) ≡ bound

  -- The first call has a pause before it, which was aborted.
  record Fourth (s : Server) : Type 0 where
    server : s.server ≡ some (suc x)
    asleep : s.phase k ≡ sleeping
    tries : s.attempts k ≡ 1
    aborted : s.aborted k ≡ true
    returns : s.phase (suc k) ≡ returned
    bound_next : s.status (suc x) ≡ bound

  bound-Third : (s : Server) → Second k x s → Third (step c listen_throws (bound_to (suc x)) s)
  unfolding step
  bound-Third s v = ground arith

  closed-Fourth :
      (s : Server)
      → is_exhausted c 1 ≡ false
      → Third s
      → Fourth (step c listen_throws (closed_at x) s)
  unfolding step
  closed-Fourth s budget v = ground arith

  unwound-IsOrphan :
      (s : Server)
      → (calculate_delay c 1 == 0) ≡ false
      → Fourth s
      → IsOrphan (suc k) (suc x) (step c listen_throws (unwound k) s)
  unfolding step
  unwound-IsOrphan s pause v = ground arith

  stop-IsOrphan :
      (s : Server)
      → IsOrphan (suc k) (suc x) s
      → IsOrphan (suc k) (suc x) (step c listen_throws stop s)
  unfolding step
  stop-IsOrphan s v = ground arith

  stops-IsOrphan :
      (n : ℕ) (s : Server)
      → IsOrphan (suc k) (suc x) s
      → IsOrphan (suc k) (suc x) (steps c listen_throws (stops n) s)
  unfolding steps
  stops-IsOrphan zero s v = v
  stops-IsOrphan (suc n) s v = stops-IsOrphan n (step c listen_throws stop s) (stop-IsOrphan s v)

-- A stopped server is started, stopped and started, the second listener is bound, and then the
-- first closes. If an attempt is left after the first and the pause after it is not empty, and both
-- calls listen without a throw, the second call has returned and its listener is open, but the
-- state is Stopped, and no number of stops closes it.
pub early_restart-orphaned :
    (c : RetryConfig) (listen_throws : ℕ → Option String) (s : Server) (n : ℕ)
    → s.state ≡ stopped
    → is_exhausted c 1 ≡ false
    → (calculate_delay c 1 == 0) ≡ false
    → listen_throws s.next_server ≡ none
    → listen_throws (suc s.next_server) ≡ none
    → IsOrphan
        (suc s.next_call)
        (suc s.next_server)
        (steps c listen_throws (early_restart s.next_call s.next_server n) s)
unfolding steps
early_restart-orphaned c listen_throws s n idle budget pause first second =
    let k = s.next_call in
    let x = s.next_server in
    let s1 = step c listen_throws start s in
    let s2 = step c listen_throws start (step c listen_throws stop s1) in
    let s3 = step c listen_throws (bound_to (suc x)) s2 in
    let s4 = step c listen_throws (closed_at x) s3 in
    let v1 = start-First c listen_throws k x s idle refl refl first in
    let v2 = restart-Second c listen_throws k x s1 v1 second in
    let v3 = bound-Third c listen_throws k x s2 v2 in
    let v4 = closed-Fourth c listen_throws k x s3 budget v3 in
    stops-IsOrphan c listen_throws k x n (step c listen_throws (unwound k) s4)
      (unwound-IsOrphan c listen_throws k x s4 pause v4)
