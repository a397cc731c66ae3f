-- ===== src/Network/Client/Overlap/Leaked.antt =====
-- A second start of a TcpClient between two attempts of the first: src/network/tcp-client.ts.
use distributed_rpc_js.Common.{
  ℕ, suc, ◌<◌, ◌≡◌, ◌≢◌, refl, true, false, Option, none, some, List, [], ◌∷◌, String, arith,
}
use distributed_rpc_js.Types.{starting, retrying, running}
use distributed_rpc_js.Retry.{RetryConfig}
use distributed_rpc_js.Network.Client.Overlap.{
  Client, Event, start, stop, connected, closed, woke, failed, unwound, attempting, sleeping,
  returned, opening, opened, steps, step, begin_attempt, start_call,
}

-- The call `b` waits for the socket `x`, and the call `k` for its pause.
record Attempting (k b x : ℕ) (s : Client) : Type 0 where
  state : s.state ≡ starting
  socket : s.socket ≡ some x
  next : s.next_socket ≡ suc x
  asleep : s.phase k ≡ sleeping
  waits : s.phase b ≡ attempting x
  live : s.aborted k ≡ false
  status : s.status x ≡ opening
  owner : s.owner x ≡ b
  apart : k ≢ b
  called : b < s.next_call

-- The call `b` has returned with the socket `x`, and `k` still waits for its pause.
record Connected (k b x : ℕ) (s : Client) : Type 0 where
  state : s.state ≡ running
  socket : s.socket ≡ some x
  next : s.next_socket ≡ suc x
  asleep : s.phase k ≡ sleeping
  returns : s.phase b ≡ returned
  live : s.aborted k ≡ false
  status : s.status x ≡ opened
  listened : s.listened x ≡ true
  apart : k ≢ b
  called : b < s.next_call

-- The socket `x` is open and has its handlers, but the client holds another.
pub record IsLost (b x : ℕ) (s : Client) : Type 0 where
  returns : s.phase b ≡ returned
  status : s.status x ≡ opened
  listened : s.listened x ≡ true
  other : s.socket ≢ some x
  made : x < s.next_socket
  called : b < s.next_call

record Overtaken (k b x : ℕ) (s : Client) : Type 0 where
  state : s.state ≡ running
  socket : s.socket ≡ some (suc x)
  waits : s.phase k ≡ attempting (suc x)
  status : s.status (suc x) ≡ opening
  owner : s.owner (suc x) ≡ k
  apart : k ≢ b
  lost : IsLost b x s

module _ (c : RetryConfig) (connect_throws : ℕ → Option String) (k b x : ℕ) where
  start-Attempting :
      (s : Client)
      → s.state ≡ retrying
      → s.phase k ≡ sleeping
      → s.aborted k ≡ false
      → k < b
      → s.next_call ≡ b
      → s.next_socket ≡ x
      → connect_throws x ≡ none
      → Attempting k b x (step c connect_throws start s)
  unfolding step start_call begin_attempt
  start-Attempting s retries sleeps live called call made connects = ground arith

  connected-Connected :
      (s : Client) → Attempting k b x s → Connected k b x (step c connect_throws (connected x) s)
  unfolding step
  connected-Connected s v = ground arith

  woke-Overtaken :
      (s : Client)
      → Connected k b x s
      → connect_throws (suc x) ≡ none
      → Overtaken k b x (step c connect_throws (woke k) s)
  unfolding step begin_attempt
  woke-Overtaken s v connects = ground arith

  connected-IsLost :
      (s : Client) → Overtaken k b x s → IsLost b x (step c connect_throws (connected (suc x)) s)
  unfolding step
  connected-IsLost s v = let l = v.lost in ground arith

-- The socket `x` neither fails nor is closed by its peer.
abbrev pub Undisturbed : ℕ → List Event → Type 0
Undisturbed x [] = Unit
Undisturbed x (closed y ∷ es) = (x ≢ y) × Undisturbed x es
Undisturbed x (failed y code ∷ es) = (x ≢ y) × Undisturbed x es
Undisturbed x (e ∷ es) = Undisturbed x es

module _ (c : RetryConfig) (connect_throws : ℕ → Option String) (b x : ℕ) where
  failed-IsLost :
      (s : Client) (y : ℕ) (code : String)
      → x ≢ y
      → IsLost b x s
      → IsLost b x (step c connect_throws (failed y code) s)
  unfolding step
  failed-IsLost s y code h v = ground arith

  closed-IsLost :
      (s : Client) (y : ℕ) → x ≢ y → IsLost b x s → IsLost b x (step c connect_throws (closed y) s)
  unfolding step
  closed-IsLost s y h v = ground arith

  start-IsLost : (s : Client) → IsLost b x s → IsLost b x (step c connect_throws start s)
  unfolding step start_call begin_attempt
  start-IsLost s v = ground arith

  stop-IsLost : (s : Client) → IsLost b x s → IsLost b x (step c connect_throws stop s)
  unfolding step
  stop-IsLost s v = ground arith

  connected_again-IsLost :
      (s : Client) (y : ℕ) → IsLost b x s → IsLost b x (step c connect_throws (connected y) s)
  unfolding step
  connected_again-IsLost s y v = ground arith

  woke-IsLost : (s : Client) (j : ℕ) → IsLost b x s → IsLost b x (step c connect_throws (woke j) s)
  unfolding step begin_attempt
  woke-IsLost s j v = ground arith

  unwound-IsLost :
      (s : Client) (j : ℕ) → IsLost b x s → IsLost b x (step c connect_throws (unwound j) s)
  unfolding step
  unwound-IsLost s j v = ground arith

  steps-IsLost :
      (es : List Event) (s : Client)
      → Undisturbed x es
      → IsLost b x s
      → IsLost b x (steps c connect_throws es s)
  unfolding steps
  steps-IsLost [] s h v = v
  steps-IsLost (start ∷ es) s h v =
      steps-IsLost es (step c connect_throws start s) h (start-IsLost s v)
  steps-IsLost (stop ∷ es) s h v =
      steps-IsLost es (step c connect_throws stop s) h (stop-IsLost s v)
  steps-IsLost (connected y ∷ es) s h v =
      steps-IsLost es (step c connect_throws (connected y) s) h (connected_again-IsLost s y v)
  steps-IsLost (closed y ∷ es) s (apart, h) v =
      steps-IsLost es (step c connect_throws (closed y) s) h (closed-IsLost s y apart v)
  steps-IsLost (failed y code ∷ es) s (apart, h) v =
      steps-IsLost es (step c connect_throws (failed y code) s) h (failed-IsLost s y code apart v)
  steps-IsLost (woke j ∷ es) s h v =
      steps-IsLost es (step c connect_throws (woke j) s) h (woke-IsLost s j v)
  steps-IsLost (unwound j ∷ es) s h v =
      steps-IsLost es (step c connect_throws (unwound j) s) h (unwound-IsLost s j v)

-- A start, while the call `k` waits for its pause; both connect, the second on `x`.
abbrev pub both_connect : ℕ → ℕ → List Event → List Event
both_connect k x es = start ∷ connected x ∷ woke k ∷ connected (suc x) ∷ es

-- If a client in the state Retrying with a listener of the event `error` is started again while a
-- call waits for its pause, and the new call connects before the old one ends its pause and
-- connects too, then the call that was made last has returned, and its socket stays open with its
-- handlers and is not held by the client, whatever comes later but an error or the close of that
-- socket: no number of stops closes it.
pub retrying_start-leaked :
    (c : RetryConfig) (connect_throws : ℕ → Option String) (s : Client) (k : ℕ) (later : List Event)
    → s.state ≡ retrying
    → s.phase k ≡ sleeping
    → s.aborted k ≡ false
    → k < s.next_call
    → connect_throws s.next_socket ≡ none
    → connect_throws (suc s.next_socket) ≡ none
    → Undisturbed s.next_socket later
    → IsLost s.next_call s.next_socket
        (steps c connect_throws (both_connect k s.next_socket later) s)
unfolding steps
retrying_start-leaked c connect_throws s k later retries sleeps live called first second quiet =
    let b = s.next_call in
    let x = s.next_socket in
    let s1 = step c connect_throws start s in
    let s2 = step c connect_throws (connected x) s1 in
    let s3 = step c connect_throws (woke k) s2 in
    let v1 = start-Attempting c connect_throws k b x s retries sleeps live called refl refl first in
    let v2 = connected-Connected c connect_throws k b x s1 v1 in
    let v3 = woke-Overtaken c connect_throws k b x s2 v2 second in
    steps-IsLost c connect_throws b x later (step c connect_throws (connected (suc x)) s3) quiet
      (connected-IsLost c connect_throws k b x s3 v3)
