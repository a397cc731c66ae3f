-- ===== src/Network/Client/Overlap/Endless.antt =====
-- A stop of a TcpClient while an attempt to connect is under way: src/network/tcp-client.ts.
use distributed_rpc_js.Common.{
  ℕ, ◌<◌, ◌≤◌, ◌≡◌, ◌≢◌, refl, Option, some, List, [], ◌∷◌, String, arith,
}
use distributed_rpc_js.Types.{stopped}
use distributed_rpc_js.Retry.{RetryConfig}
use distributed_rpc_js.Network.Client.Overlap.{
  Client, Event, start, stop, connected, closed, failed, woke, unwound, attempting, uncalled,
  new_client, client_after, destroyed, steps, step, start_call, begin_attempt,
}

-- The call waits for a socket that is destroyed.
record IsStuck (k x : ℕ) (s : Client) : Type 0 where
  phase : s.phase k ≡ attempting x
  status : s.status x ≡ destroyed
  called : k < s.next_call
  made : x < s.next_socket

module _ (c : RetryConfig) (connect_throws : ℕ → Option String) {k x : ℕ} where
  begin_attempt-IsStuck :
      {s : Client} (j : ℕ)
      → j ≢ k
      → IsStuck k x s
      → IsStuck k x (begin_attempt c connect_throws j s)
  unfolding begin_attempt
  begin_attempt-IsStuck j h v = ground arith

  start-IsStuck : {s : Client} → IsStuck k x s → IsStuck k x (step c connect_throws start s)
  unfolding step start_call begin_attempt
  start-IsStuck v = ground arith

  stop-IsStuck : {s : Client} → IsStuck k x s → IsStuck k x (step c connect_throws stop s)
  unfolding step
  stop-IsStuck v = ground arith

  connected-IsStuck :
      {s : Client} (y : ℕ) → IsStuck k x s → IsStuck k x (step c connect_throws (connected y) s)
  unfolding step
  connected-IsStuck y v = ground arith

  closed-IsStuck :
      {s : Client} (y : ℕ) → IsStuck k x s → IsStuck k x (step c connect_throws (closed y) s)
  unfolding step
  closed-IsStuck y v = ground arith

  failed-IsStuck :
      {s : Client} (y : ℕ) (code : String)
      → IsStuck k x s
      → IsStuck k x (step c connect_throws (failed y code) s)
  unfolding step
  failed-IsStuck y code v = ground arith

  woke-IsStuck :
      {s : Client} (j : ℕ) → IsStuck k x s → IsStuck k x (step c connect_throws (woke j) s)
  unfolding step begin_attempt
  woke-IsStuck j v = ground arith

  unwound-IsStuck :
      {s : Client} (j : ℕ) → IsStuck k x s → IsStuck k x (step c connect_throws (unwound j) s)
  unfolding step
  unwound-IsStuck j v = ground arith

  step-IsStuck : {s : Client} (e : Event) → IsStuck k x s → IsStuck k x (step c connect_throws e s)
  step-IsStuck start v = start-IsStuck v
  step-IsStuck stop v = stop-IsStuck v
  step-IsStuck (connected y) v = connected-IsStuck y v
  step-IsStuck (closed y) v = closed-IsStuck y v
  step-IsStuck (failed y code) v = failed-IsStuck y code v
  step-IsStuck (woke j) v = woke-IsStuck j v
  step-IsStuck (unwound j) v = unwound-IsStuck j v

  steps-IsStuck :
      (es : List Event) (s : Client) → IsStuck k x s → IsStuck k x (steps c connect_throws es s)
  unfolding steps
  steps-IsStuck [] s v = v
  steps-IsStuck (e ∷ es) s v = steps-IsStuck es (step c connect_throws e s) (step-IsStuck e v)

-- A call that was not made has no phase, and a socket that the client holds was made.
record IsFresh (k x : ℕ) (s : Client) : Type 0 where
  uncalled_yet : s.next_call ≤ k → s.phase k ≡ uncalled
  held_made : s.socket ≡ some x → x < s.next_socket

module _ (c : RetryConfig) (connect_throws : ℕ → Option String) {k x : ℕ} where
  step-IsFresh : {s : Client} (e : Event) → IsFresh k x s → IsFresh k x (step c connect_throws e s)
  unfolding step start_call begin_attempt
  step-IsFresh start v = record {
    uncalled_yet = λ h. ground (arith, v.uncalled_yet);
    held_made = λ h. ground (arith, v.held_made);
  }
  step-IsFresh stop v = record {
    uncalled_yet = λ h. ground (arith, v.uncalled_yet);
    held_made = λ h. ground (arith, v.held_made);
  }
  step-IsFresh (connected y) v = record {
    uncalled_yet = λ h. ground (arith, v.uncalled_yet);
    held_made = λ h. ground (arith, v.held_made);
  }
  step-IsFresh (closed y) v = record {
    uncalled_yet = λ h. ground (arith, v.uncalled_yet);
    held_made = λ h. ground (arith, v.held_made);
  }
  step-IsFresh (failed y code) v = record {
    uncalled_yet = λ h. ground (arith, v.uncalled_yet);
    held_made = λ h. ground (arith, v.held_made);
  }
  step-IsFresh (woke j) v = record {
    uncalled_yet = λ h. ground (arith, v.uncalled_yet);
    held_made = λ h. ground (arith, v.held_made);
  }
  step-IsFresh (unwound j) v = record {
    uncalled_yet = λ h. ground (arith, v.uncalled_yet);
    held_made = λ h. ground (arith, v.held_made);
  }

  steps-IsFresh :
      (es : List Event) (s : Client) → IsFresh k x s → IsFresh k x (steps c connect_throws es s)
  unfolding steps
  steps-IsFresh [] s v = v
  steps-IsFresh (e ∷ es) s v = steps-IsFresh es (step c connect_throws e s) (step-IsFresh e v)

  stopped_while_attempting :
      {s : Client}
      → IsFresh k x s
      → s.phase k ≡ attempting x
      → s.socket ≡ some x
      → s.state ≢ stopped
      → IsStuck k x (step c connect_throws stop s)
  unfolding step
  stopped_while_attempting {s} v waits held up = record {
    phase = ground arith;
    status = ground arith;
    called = ground (arith, v.uncalled_yet);
    made = ground (arith, v.held_made held);
  }

-- Of a client with a listener of the event `error`, a call of `start()` that waits for the socket
-- that the client holds, while the client is stopped from another state than Stopped, in any state
-- that a sequence of events leads to, waits for that socket for ever: whatever comes after the
-- stop, the call neither returns nor throws.
pub stopped_start-never :
    (c : RetryConfig) (connect_throws : ℕ → Option String) (before after : List Event) (k x : ℕ)
    → (client_after c connect_throws before).phase k ≡ attempting x
    → (client_after c connect_throws before).socket ≡ some x
    → (client_after c connect_throws before).state ≢ stopped
    → (steps c connect_throws (stop ∷ after) (client_after c connect_throws before)).phase k
      ≡ attempting x
unfolding steps
stopped_start-never c connect_throws before after k x waits held up =
    let s = client_after c connect_throws before in
    let fresh : IsFresh k x new_client = record { uncalled_yet = λ h. refl; held_made = λ h. cc } in
    (steps-IsStuck c connect_throws after (step c connect_throws stop s) (
      stopped_while_attempting c connect_throws
        (steps-IsFresh c connect_throws before new_client fresh) waits held up)).phase
