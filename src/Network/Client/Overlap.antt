-- ===== src/Network/Client/Overlap.antt =====
-- src/network/tcp-client.ts (TcpClient), over calls of `start()` and `stop()` that overlap. The
-- module Network.Client runs a start to its end; here a start is a call with a phase, and what
-- happens comes one event at a time. A client has a listener of the event `error`. The bytes and
-- the data of a socket change nothing of this and are left out. A destroyed socket
-- emits no `connect` and no `error`, as Node says of `destroy()`.
mod Alone
mod Endless
mod Leaked
mod Tests
use distributed_rpc_js.Common.{
  ℕ, suc, ◌==◌, Bool, true, false, ◌&&◌, ◌||◌, not, Option, none, some, List, [], ◌∷◌,
  if◌then◌else◌, String,
}
use distributed_rpc_js.Types.{ExecutionState, halt, retrying, running, starting, stopped}
use distributed_rpc_js.Retry.{RetryConfig, Failure, failure, is_exhausted, calculate_delay}
use distributed_rpc_js.Network.{is_network_retryable}
use distributed_rpc_js.Network.Client.{is_active, is_stopped_state}

-- How far a call of `start()` is: it waits for a socket, or for the pause before the next attempt,
-- or it has returned or thrown.
pub data Phase : Type 0 where
  uncalled sleeping returned : Phase
  attempting : ℕ → Phase
  threw : Failure → Phase

pub data Status : Type 0 where
  unmade opening opened destroyed : Status

-- The fields of a TcpClient, with all its calls and all the sockets that they made. `current` is the
-- call whose AbortController and RetryScheduler the client holds; `on_error` says that a socket has
-- the handler of its attempt for the event `error`, and `listened` that it has those of
-- `_setupSocketListeners`. `crashed` is an exception that a handler of an event throws.
pub record Client : Type 0 where
  pub state : ExecutionState
  pub socket : Option ℕ
  pub current : Option ℕ
  pub next_call : ℕ
  pub next_socket : ℕ
  pub phase : ℕ → Phase
  pub attempts : ℕ → ℕ
  pub aborted : ℕ → Bool
  pub status : ℕ → Status
  pub owner : ℕ → ℕ
  pub on_error : ℕ → Bool
  pub listened : ℕ → Bool
  pub crashed : Bool

abbrev pub new_client : Client
new_client = record {
  state = stopped;
  socket = none;
  current = none;
  next_call = 0;
  next_socket = 0;
  phase = λ c. uncalled;
  attempts = λ c. 0;
  aborted = λ c. false;
  status = λ x. unmade;
  owner = λ x. 0;
  on_error = λ x. false;
  listened = λ x. false;
  crashed = false;
}

abbrev pub update {ℓ} : {A : Type ℓ} → ℕ → A → (ℕ → A) → ℕ → A
update k v f j = if j == k then v else f j

abbrev pub update_at {ℓ} : {A : Type ℓ} → Option ℕ → A → (ℕ → A) → ℕ → A
update_at none v f = f
update_at (some k) v f = update k v f

abbrev pub is_sleeping : Phase → Bool
is_sleeping sleeping = true
is_sleeping _ = false

abbrev pub is_attempting : ℕ → Phase → Bool
is_attempting x (attempting y) = x == y
is_attempting x _ = false

abbrev pub is_opening : Status → Bool
is_opening opening = true
is_opening _ = false

abbrev pub is_opened : Status → Bool
is_opened opened = true
is_opened _ = false

-- A socket that may still emit `error`.
abbrev pub is_live : Status → Bool
is_live opening = true
is_live opened = true
is_live _ = false

pub data Event : Type 0 where
  start stop : Event
  connected closed : ℕ → Event
  failed : ℕ → String → Event
  woke unwound : ℕ → Event

-- `cleanup` of an attempt on the socket `x`: it takes the handlers off `_socket`, which may be
-- another socket.
abbrev pub cleanup : ℕ → Client → Client
cleanup x s = elim s.socket [
  | none ↦ s
  | some y ↦ record s { on_error = if x == y then update x false s.on_error else s.on_error }
]

module _ (c : RetryConfig) (connect_throws : ℕ → Option String) where
  -- The `catch` of the scheduler for an attempt that failed, and that of `start`.
  unfoldable pub failed_attempt : ℕ → Failure → Client → Client
  failed_attempt k err s =
      if is_exhausted c (s.attempts k)
      then record s { state = ExecutionState.error; phase = update k (threw err) s.phase }
      else record s { state = retrying; phase = update k sleeping s.phase }

  -- An attempt of the call `k`, with its socket.
  unfoldable pub open_socket : ℕ → Client → Client
  open_socket k s = record s {
    socket = some s.next_socket;
    next_socket = suc s.next_socket;
    phase = update k (attempting s.next_socket) s.phase;
    status = update s.next_socket opening s.status;
    owner = update s.next_socket k s.owner;
    on_error = update s.next_socket true s.on_error;
    listened = update s.next_socket false s.listened;
  }

  -- `_attemptConnect`, and what the call does if it throws.
  unfoldable pub attempt_connect : ℕ → Client → Client
  unfolding open_socket failed_attempt
  attempt_connect k s =
      if is_stopped_state s.state
      then record s { phase = update k returned s.phase }
      else elim (connect_throws s.next_socket) [
        | none ↦ open_socket k s
        | some code ↦ failed_attempt k (failure code) s
      ]

  -- A round of the scheduler: the attempt is counted.
  unfoldable pub begin_attempt : ℕ → Client → Client
  unfolding attempt_connect
  begin_attempt k s =
      attempt_connect k (record s { attempts = update k (suc (s.attempts k)) s.attempts })

  -- `start()`
  unfoldable pub start_call : Client → Client
  unfolding begin_attempt
  start_call s =
      if is_active s.state
      then s
      else begin_attempt s.next_call (record s {
        state = starting;
        current = some s.next_call;
        next_call = suc s.next_call;
        attempts = update s.next_call 0 s.attempts;
        aborted = update s.next_call false s.aborted;
      })

  -- `stop()`: a client that is not stopped has had a start.
  unfoldable pub stop_call : Client → Client
  stop_call s = if is_stopped_state s.state then s else record s {
    state = stopped;
    aborted = update_at s.current true s.aborted;
    status = update_at s.socket destroyed s.status;
    socket = none;
  }

  -- `resolve` of an attempt: nothing, if it is settled.
  unfoldable pub resolve : ℕ → Client → Client
  resolve x s =
      if is_attempting x (s.phase (s.owner x))
      then record s { phase = update (s.owner x) returned s.phase }
      else s

  unfoldable pub reject : ℕ → Failure → Client → Client
  unfolding failed_attempt
  reject x err s =
      if is_attempting x (s.phase (s.owner x)) then failed_attempt (s.owner x) err s else s

  -- `handleConnectSuccess` and `_setupSocketListeners`, on `_socket`.
  unfoldable pub handle_connect_success : ℕ → Client → Client
  unfolding resolve
  handle_connect_success x s = elim s.socket [
    | none ↦ record s { crashed = true }
    | some y ↦ resolve x (record s { state = running; listened = update y true s.listened })
  ]

  -- `onConnect`, the handler of the event `connect` of the socket `x`.
  unfoldable pub on_connect : ℕ → Client → Client
  unfolding handle_connect_success
  on_connect x s =
      handle_connect_success x (cleanup x (record s { status = update x opened s.status }))

  -- `handleConnectionError`
  unfoldable pub handle_connection_error : String → Client → Client
  handle_connection_error code s =
      if is_network_retryable code then s else record s { state = ExecutionState.error }

  -- `onError`, the handler of an attempt for the event `error`: it destroys `_socket`.
  unfoldable pub on_attempt_error : ℕ → String → Client → Client
  unfolding reject handle_connection_error
  on_attempt_error x code s = reject x (failure code) (
      handle_connection_error code (record s {
        on_error = update x false s.on_error;
        status = update_at s.socket destroyed s.status;
      }))

  -- `handleError`, the handler of `_setupSocketListeners`.
  unfoldable pub handle_error : Client → Client
  handle_error s = record s { state = ExecutionState.error }

  -- The event `error` of the socket `x`, which destroys it, for all the handlers that it has.
  unfoldable pub emit_error : ℕ → String → Client → Client
  unfolding on_attempt_error handle_error
  emit_error x code s =
      let s' = record s { status = update x destroyed s.status } in
      if s.on_error x
      then (if s.listened x
          then handle_error (on_attempt_error x code s')
          else on_attempt_error x code s')
      else if s.listened x
      then handle_error s'
      else record s' { crashed = true }

  -- The event `close` of a connected socket, by its peer: handleClose sets no state.
  unfoldable pub close_socket : ℕ → Client → Client
  close_socket x s = record s { status = update x destroyed s.status }

  -- The end of a pause: its timer goes off, unless it was aborted. A pause of no length has no timer.
  unfoldable pub wake : ℕ → Client → Client
  unfolding begin_attempt
  wake k s =
      if s.aborted k
      then (if calculate_delay c (s.attempts k) == 0
          then record s { phase = update k returned s.phase }
          else s)
      else begin_attempt k s

  -- The AbortError of a pause, at the `catch` of `start`.
  unfoldable pub unwind : ℕ → Client → Client
  unwind k s =
      if s.aborted k && not (calculate_delay c (s.attempts k) == 0)
      then record s { state = stopped; phase = update k returned s.phase }
      else s

  unfoldable pub step : Event → Client → Client
  unfolding start_call stop_call on_connect emit_error close_socket wake unwind
  step start s = start_call s
  step stop s = stop_call s
  step (connected x) s = if is_opening (s.status x) then on_connect x s else s
  step (failed x code) s = if is_live (s.status x) then emit_error x code s else s
  step (closed x) s = if is_opened (s.status x) then close_socket x s else s
  step (woke k) s = if is_sleeping (s.phase k) then wake k s else s
  step (unwound k) s = if is_sleeping (s.phase k) then unwind k s else s

  unfoldable pub steps : List Event → Client → Client
  unfolding step
  steps [] s = s
  steps (e ∷ es) s = steps es (step e s)

  -- A client after these events.
  abbrev pub client_after : List Event → Client
  client_after es = steps es new_client
