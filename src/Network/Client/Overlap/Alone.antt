-- ===== src/Network/Client/Overlap/Alone.antt =====
-- Calls of `start()` of a TcpClient that do not overlap: src/network/tcp-client.ts.
use distributed_rpc_js.Common.{
  ℕ, ◌<◌, ◌≡◌, ◌≢◌, ◌⊎◌, inl, inr, refl, sym, ◌∙◌, Bool, Bool-cases, true, false, Option, some,
  List, [], ◌∷◌, String, arith,
}
use distributed_rpc_js.Types.{ExecutionState, starting, retrying, running}
use distributed_rpc_js.Retry.{RetryConfig}
use distributed_rpc_js.Network.Client.Overlap.{
  Client, Event, start, stop, connected, closed, failed, woke, unwound, attempting, sleeping, steps,
  step, is_live, begin_attempt, start_call, new_client, client_after,
}

-- The states of a client with a socket that may be open.
abbrev is_busy : ExecutionState → Bool
is_busy starting = true
is_busy retrying = true
is_busy running = true
is_busy _ = false

-- No call waits for its pause, and the state is not Retrying.
pub record IsIdle (s : Client) : Type 0 where
  pub awake : (j : ℕ) → s.phase j ≢ sleeping
  pub not_retrying : s.state ≢ retrying

abbrev pub Careful : Event → Client → Type 0
Careful start s = IsIdle s
Careful _ s = Unit

-- For the calls `i` and `j` and the socket `y`: only the socket that the client holds is open, and
-- then the client is busy and no call waits for its pause; only the current call waits for either.
record IsAlone (i j y : ℕ) (s : Client) : Type 0 where
  held : is_live (s.status y) ≡ true → s.socket ≡ some y
  busy : is_live (s.status y) ≡ true → is_busy s.state ≡ true
  quiet : s.phase j ≡ sleeping → is_live (s.status y) ≡ false
  lone : s.phase i ≡ sleeping → s.phase j ≡ sleeping → i ≡ j
  retries : s.phase j ≡ sleeping → s.aborted j ≡ false → s.state ≡ retrying
  waiting : s.phase j ≡ sleeping → s.aborted j ≡ false → s.current ≡ some j
  attempts : is_live (s.status y) ≡ true → s.phase j ≡ attempting y → s.current ≡ some j
  live : is_live (s.status y) ≡ true → s.phase j ≡ attempting y → s.aborted j ≡ false
  made : s.phase j ≡ attempting y → y < s.next_socket
  handled : is_live (s.status y) ≡ true → s.listened y ≡ true → s.on_error y ≡ false

abbrev AllAlone : Client → Type 0
AllAlone s = (i j y : ℕ) → IsAlone i j y s

-- Who waits for a pause after an error of the socket `x` did before, or waited for `x`.
failed_sleeper :
    (c : RetryConfig) (connect_throws : ℕ → Option String) (s : Client) (j x : ℕ) (code : String)
    → (step c connect_throws (failed x code) s).phase j ≡ sleeping
    → (s.phase j ≡ sleeping) ⊎ ((is_live (s.status x) ≡ true) × (j ≡ s.owner x))
unfolding step
failed_sleeper c connect_throws s j x code h = ground arith

module _ (c : RetryConfig) (connect_throws : ℕ → Option String) (s : Client) (v : AllAlone s)
    (i j y : ℕ) where
  stop-IsAlone : IsAlone i j y (step c connect_throws stop s)
  unfolding step
  stop-IsAlone =
      let a = v i j y in
      record {
        held = λ h. ground (arith, a.held);
        busy = λ h. ground (arith, a.held, a.busy);
        quiet = λ h. ground (arith, a.quiet);
        lone = λ h h'. ground (arith, a.lone);
        retries = λ h h'. ground (arith, a.waiting, a.retries);
        waiting = λ h h'. ground (arith, a.waiting);
        attempts = λ h h'. ground (arith, a.attempts);
        live = λ h h'. ground (arith, a.held, a.live);
        made = λ h. ground (arith, a.made);
        handled = λ h h'. ground (arith, a.handled);
      }

  unwound-IsAlone : (k : ℕ) → IsAlone i j y (step c connect_throws (unwound k) s)
  unfolding step
  unwound-IsAlone k =
      let a = v i j y in
      let b = v j k y in
      record {
        held = λ h. ground (arith, a.held);
        busy = λ h. ground (arith, b.quiet, a.busy);
        quiet = λ h. ground (arith, a.quiet);
        lone = λ h h'. ground (arith, a.lone);
        retries = λ h h'. ground (arith, b.lone, a.retries);
        waiting = λ h h'. ground (arith, a.waiting);
        attempts = λ h h'. ground (arith, a.attempts);
        live = λ h h'. ground (arith, a.live);
        made = λ h. ground (arith, a.made);
        handled = λ h h'. ground (arith, a.handled);
      }

  closed-IsAlone : (x : ℕ) → IsAlone i j y (step c connect_throws (closed x) s)
  unfolding step
  closed-IsAlone x =
      let a = v i j y in
      record {
        held = λ h. ground (arith, a.held);
        busy = λ h. ground (arith, a.busy);
        quiet = λ h. ground (arith, a.quiet);
        lone = λ h h'. ground (arith, a.lone);
        retries = λ h h'. ground (arith, a.retries);
        waiting = λ h h'. ground (arith, a.waiting);
        attempts = λ h h'. ground (arith, a.attempts);
        live = λ h h'. ground (arith, a.live);
        made = λ h. ground (arith, a.made);
        handled = λ h h'. ground (arith, a.handled);
      }

  connected-IsAlone : (x : ℕ) → IsAlone i j y (step c connect_throws (connected x) s)
  unfolding step
  connected-IsAlone x =
      let a = v i j y in
      let b = v i j x in
      let d = v j i x in
      record {
        held = λ h. ground (arith, a.held, b.held);
        busy = λ h. ground (arith, b.held, a.busy);
        quiet = λ h. ground (arith, a.quiet, b.quiet, b.held);
        lone = λ h h'. ground (arith, a.lone, b.held);
        retries = λ h h'. ground (arith, b.quiet, a.retries, b.held);
        waiting = λ h h'. ground (arith, a.waiting, b.held);
        attempts = λ h h'. ground (arith, a.attempts, b.attempts, b.held);
        live = λ h h'. ground (arith, a.live, b.live, b.held);
        made = λ h. ground (arith, a.made, b.held);
        handled = λ h h'. ground (arith, a.handled, b.held, a.held);
      }

  module _ (x : ℕ) (code : String) where
    abbrev after : Client
    after = step c connect_throws (failed x code) s

    failed-held : is_live (after.status y) ≡ true → after.socket ≡ some y
    unfolding step
    failed-held h = ground (arith, (v i j y).held, (v i j x).held)

    failed-busy : is_live (after.status y) ≡ true → is_busy after.state ≡ true
    unfolding step
    failed-busy h = elim (Bool-cases (is_live (s.status x))) [
      | inl live ↦ ground (arith, (v i j y).held, (v i j x).held)
      | inr dead ↦ ground (arith, (v i j y).busy)
    ]

    failed-quiet : after.phase j ≡ sleeping → is_live (after.status y) ≡ false
    unfolding step
    failed-quiet h =
        ground (arith, (v i j y).quiet, (v i j x).quiet, (v i j y).held, (v i j x).held)

    failed-lone : after.phase i ≡ sleeping → after.phase j ≡ sleeping → i ≡ j
    failed-lone h h' = elim (failed_sleeper c connect_throws s i x code h) [
      | inl p ↦ elim (failed_sleeper c connect_throws s j x code h') [
        | inl q ↦ (v i j y).lone p q
        | inr (live, q) ↦ cc ((v i i x).quiet p, live)
      ]
      | inr (live, p) ↦ elim (failed_sleeper c connect_throws s j x code h') [
        | inl q ↦ cc ((v i j x).quiet q, live)
        | inr (live', q) ↦ p ∙ sym q
      ]
    ]

    failed-retries : after.phase j ≡ sleeping → after.aborted j ≡ false → after.state ≡ retrying
    unfolding step
    failed-retries h h' = ground (arith, (v i j y).retries, (v i j x).quiet, (v i j x).handled)

    failed-waiting : after.phase j ≡ sleeping → after.aborted j ≡ false → after.current ≡ some j
    unfolding step
    failed-waiting h h' =
        ground (arith, (v i j y).waiting, (v i j x).quiet, (v i (s.owner x) x).attempts)

    failed-attempts :
        is_live (after.status y) ≡ true → after.phase j ≡ attempting y → after.current ≡ some j
    unfolding step
    failed-attempts h h' = ground (arith, (v i j y).attempts)

    failed-live :
        is_live (after.status y) ≡ true → after.phase j ≡ attempting y → after.aborted j ≡ false
    unfolding step
    failed-live h h' = ground (arith, (v i j y).live)

    failed-made : after.phase j ≡ attempting y → y < after.next_socket
    unfolding step
    failed-made h = ground (arith, (v i j y).made)

    failed-handled :
        is_live (after.status y) ≡ true → after.listened y ≡ true → after.on_error y ≡ false
    unfolding step
    failed-handled h h' = ground (arith, (v i j y).handled)

    failed-IsAlone : IsAlone i j y after
    failed-IsAlone = record {
      held = failed-held;
      busy = failed-busy;
      quiet = failed-quiet;
      lone = failed-lone;
      retries = failed-retries;
      waiting = failed-waiting;
      attempts = failed-attempts;
      live = failed-live;
      made = failed-made;
      handled = failed-handled;
    }

  woke-IsAlone : (k : ℕ) → IsAlone i j y (step c connect_throws (woke k) s)
  unfolding step begin_attempt
  woke-IsAlone k =
      let a = v i j y in
      let b = v j k y in
      let d = v i k y in
      let n = v j k s.next_socket in
      record {
        held = λ h. ground (arith, a.held, b.quiet);
        busy = λ h. ground (arith, b.quiet, b.retries, a.busy, d.retries);
        quiet = λ h. ground (arith, a.quiet, b.lone);
        lone = λ h h'. ground (arith, a.lone);
        retries = λ h h'. ground (arith, a.retries, b.lone);
        waiting = λ h h'. ground (arith, a.waiting, b.waiting);
        attempts = λ h h'. ground (arith, a.attempts, b.quiet, b.waiting, a.made, n.made);
        live = λ h h'. ground (arith, a.live, b.quiet);
        made = λ h. ground (arith, a.made);
        handled = λ h h'. ground (arith, a.handled);
      }

  start-IsAlone : IsIdle s → IsAlone i j y (step c connect_throws start s)
  unfolding step start_call begin_attempt
  start-IsAlone idle =
      let a = v i j y in
      let b = v j s.next_call y in
      let n = v j j s.next_socket in
      let p = idle.awake j in
      let q = idle.awake i in
      record {
        held = λ h. ground (arith, a.held, a.busy, idle.not_retrying);
        busy = λ h. ground (arith, a.busy);
        quiet = λ h. ground (arith, a.busy, idle.not_retrying, p);
        lone = λ h h'. ground (arith, p, q);
        retries = λ h h'. ground (arith, p);
        waiting = λ h h'. ground (arith, p);
        attempts = λ h h'. ground (arith, a.busy, a.attempts, idle.not_retrying, a.made, n.made);
        live = λ h h'. ground (arith, a.busy, a.live, idle.not_retrying, a.made);
        made = λ h. ground (arith, a.made);
        handled = λ h h'. ground (arith, a.handled);
      }

  step-IsAlone : (e : Event) → Careful e s → IsAlone i j y (step c connect_throws e s)
  step-IsAlone start idle = start-IsAlone idle
  step-IsAlone stop u = stop-IsAlone
  step-IsAlone (connected x) u = connected-IsAlone x
  step-IsAlone (closed x) u = closed-IsAlone x
  step-IsAlone (failed x code) u = failed-IsAlone x code
  step-IsAlone (woke k) u = woke-IsAlone k
  step-IsAlone (unwound k) u = unwound-IsAlone k

-- Each start of the sequence meets a client where no call waits for its pause, and that does not
-- retry.
abbrev pub AllCareful : RetryConfig → (ℕ → Option String) → List Event → Client → Type 0
AllCareful c connect_throws [] s = Unit
AllCareful c connect_throws (e ∷ es) s =
    Careful e s × AllCareful c connect_throws es (step c connect_throws e s)

module _ (c : RetryConfig) (connect_throws : ℕ → Option String) where
  steps-AllAlone :
      (es : List Event) (s : Client)
      → AllCareful c connect_throws es s
      → AllAlone s
      → AllAlone (steps c connect_throws es s)
  unfolding steps
  steps-AllAlone [] s careful v = v
  steps-AllAlone (e ∷ es) s (now, careful) v =
      steps-AllAlone es (step c connect_throws e s) careful
        (λ i j y. step-IsAlone c connect_throws s v i j y e now)

  new_client-AllAlone : AllAlone new_client
  new_client-AllAlone i j y = record {
    held = λ h. cc;
    busy = λ h. cc;
    quiet = λ h. refl;
    lone = λ h h'. cc;
    retries = λ h h'. cc;
    waiting = λ h h'. cc;
    attempts = λ h h'. cc;
    live = λ h h'. cc;
    made = λ h. cc;
    handled = λ h h'. cc;
  }

  -- If each start of a sequence of events meets a client that is not in the state Retrying and
  -- where no call waits for its pause, no socket is open or opening after a stop.
  pub careful_stop-closes :
      (es : List Event) (y : ℕ)
      → AllCareful c connect_throws es new_client
      → is_live ((step c connect_throws stop (client_after c connect_throws es)).status y) ≡ false
  unfolding step
  careful_stop-closes es y careful =
      let v = steps-AllAlone es new_client careful new_client-AllAlone 0 0 y in
      ground (arith, v.held, v.busy)
