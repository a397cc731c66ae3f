-- ===== src/Network/Server/Overlap/Endless.antt =====
-- A stop of a TcpServer while it binds: src/network/tcp-server.ts.
use distributed_rpc_js.Common.{ℕ, ◌≡◌, Bool, true, false, Option, List, [], ◌∷◌, String, arith}
use distributed_rpc_js.Types.{stopped}
use distributed_rpc_js.Retry.{RetryConfig}
use distributed_rpc_js.Network.Client.Overlap.{attempting}
use distributed_rpc_js.Network.Server.Overlap.{
  Server, Event, start, stop, bound_to, closed_at, woke, unwound, failed, steps, step,
  begin_attempt, server_after,
}

-- Nothing but stops, and the ends of listeners and of pauses.
abbrev pub only_ends : List Event → Bool
only_ends [] = true
only_ends (start ∷ es) = false
only_ends (bound_to x ∷ es) = false
only_ends (failed x code ∷ es) = false
only_ends (stop ∷ es) = only_ends es
only_ends (closed_at x ∷ es) = only_ends es
only_ends (woke k ∷ es) = only_ends es
only_ends (unwound k ∷ es) = only_ends es

-- The call waits for a listener of a stopped server.
record IsStuck (k x : ℕ) (s : Server) : Type 0 where
  phase : s.phase k ≡ attempting x
  state : s.state ≡ stopped

module _ (c : RetryConfig) (listen_throws : ℕ → Option String) {k x : ℕ} where
  stop-IsStuck : (s : Server) → s.phase k ≡ attempting x → IsStuck k x (step c listen_throws stop s)
  unfolding step
  stop-IsStuck s waits = ground arith

  closed_at-IsStuck :
      (s : Server) (y : ℕ) → IsStuck k x s → IsStuck k x (step c listen_throws (closed_at y) s)
  unfolding step
  closed_at-IsStuck s y v = ground arith

  woke-IsStuck :
      (s : Server) (j : ℕ) → IsStuck k x s → IsStuck k x (step c listen_throws (woke j) s)
  unfolding step begin_attempt
  woke-IsStuck s j v = ground arith

  unwound-IsStuck :
      (s : Server) (j : ℕ) → IsStuck k x s → IsStuck k x (step c listen_throws (unwound j) s)
  unfolding step
  unwound-IsStuck s j v = ground arith

  steps-IsStuck :
      (es : List Event) (s : Server)
      → only_ends es ≡ true
      → IsStuck k x s
      → IsStuck k x (steps c listen_throws es s)
  unfolding steps
  steps-IsStuck [] s h v = v
  steps-IsStuck (start ∷ es) s h v = cc
  steps-IsStuck (bound_to y ∷ es) s h v = cc
  steps-IsStuck (failed y code ∷ es) s h v = cc
  steps-IsStuck (stop ∷ es) s h v =
      steps-IsStuck es (step c listen_throws stop s) h (stop-IsStuck s v.phase)
  steps-IsStuck (closed_at y ∷ es) s h v =
      steps-IsStuck es (step c listen_throws (closed_at y) s) h (closed_at-IsStuck s y v)
  steps-IsStuck (woke j ∷ es) s h v =
      steps-IsStuck es (step c listen_throws (woke j) s) h (woke-IsStuck s j v)
  steps-IsStuck (unwound j ∷ es) s h v =
      steps-IsStuck es (step c listen_throws (unwound j) s) h (unwound-IsStuck s j v)

-- A call of `start()` that waits for a listener when the server is stopped, in any state that a
-- sequence of events leads to, waits for ever, if after that no start is called and no listener is
-- bound or fails: it neither returns nor throws when its listener closes.
pub stopped_listen-never :
    (c : RetryConfig) (listen_throws : ℕ → Option String) (before after : List Event) (k x : ℕ)
    → (server_after c listen_throws before).phase k ≡ attempting x
    → only_ends after ≡ true
    → (steps c listen_throws (stop ∷ after) (server_after c listen_throws before)).phase k
      ≡ attempting x
unfolding steps
stopped_listen-never c listen_throws before after k x waits ends =
    let s = server_after c listen_throws before in
    (steps-IsStuck c listen_throws after (step c listen_throws stop s) ends
      (stop-IsStuck c listen_throws s waits)).phase
