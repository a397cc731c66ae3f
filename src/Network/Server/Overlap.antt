-- ===== src/Network/Server/Overlap.antt =====
-- src/network/tcp-server.ts (TcpServer), over calls of `start()` and `stop()` that overlap, as events:
-- Network.Client.Overlap has the phases of a call. A server has a listener of the event `error`. The
-- connections and the port are left out. A listener of Node that is closed emits `close`, later and
-- once, and no `listening` or `error` any more, as Node says of `close()`.
mod Endless
mod Early
mod Tests
use distributed_rpc_js.Common.{
  ℕ, suc, ◌==◌, Bool, true, false, ◌&&◌, not, Option, none, some, List, [], ◌∷◌, if◌then◌else◌,
  String,
}
use distributed_rpc_js.Types.{ExecutionState, listening, retrying, starting, stopped}
use distributed_rpc_js.Retry.{RetryConfig, Failure, failure, is_exhausted, calculate_delay}
use distributed_rpc_js.Network.{is_network_retryable}
use distributed_rpc_js.Network.Client.{is_stopped_state}
use distributed_rpc_js.Network.Client.Overlap.{
  Phase, uncalled, sleeping, returned, attempting, threw, update, update_at, is_sleeping,
  is_attempting,
}

pub data Status : Type 0 where
  unmade binding bound closing closed : Status

-- The fields of a TcpServer, with all its calls and all the listeners that they made. `current` is
-- the call whose AbortController and RetryScheduler the server holds; `on_close` says that a
-- listener has the handler of its attempt for the event `close`.
pub record Server : Type 0 where
  pub state : ExecutionState
  pub server : Option ℕ
  pub current : Option ℕ
  pub next_call : ℕ
  pub next_server : ℕ
  pub phase : ℕ → Phase
  pub attempts : ℕ → ℕ
  pub aborted : ℕ → Bool
  pub status : ℕ → Status
  pub owner : ℕ → ℕ
  pub on_close : ℕ → Bool

abbrev pub new_server : Server
new_server = record {
  state = stopped;
  server = none;
  current = none;
  next_call = 0;
  next_server = 0;
  phase = λ k. uncalled;
  attempts = λ k. 0;
  aborted = λ k. false;
  status = λ x. unmade;
  owner = λ x. 0;
  on_close = λ x. false;
}

pub data Event : Type 0 where
  start stop : Event
  bound_to closed_at woke unwound : ℕ → Event
  failed : ℕ → String → Event

abbrev pub is_binding : Status → Bool
is_binding binding = true
is_binding _ = false

abbrev pub is_closing : Status → Bool
is_closing closing = true
is_closing _ = false

-- `server.close()`
abbrev pub close : Status → Status
close binding = closing
close bound = closing
close s = s

abbrev pub close_at : Option ℕ → (ℕ → Status) → ℕ → Status
close_at none f = f
close_at (some x) f = update x (close (f x)) f

-- `cleanup` of an attempt on the listener `x`: it takes the handlers off `_server`.
abbrev pub cleanup : ℕ → Server → Server
cleanup x s = elim s.server [
  | none ↦ s
  | some y ↦ record s { on_close = if x == y then update x false s.on_close else s.on_close }
]

module _ (c : RetryConfig) (listen_throws : ℕ → Option String) where
  -- The `catch` of the scheduler for an attempt that failed, and that of `start`.
  unfoldable pub failed_attempt : ℕ → Failure → Server → Server
  failed_attempt k err s =
      if is_exhausted c (s.attempts k)
      then record s { state = ExecutionState.error; phase = update k (threw err) s.phase }
      else record s { state = retrying; phase = update k sleeping s.phase }

  -- A listener for the call `k`, in this status.
  unfoldable pub create_server : ℕ → Status → Phase → Server → Server
  create_server k status p s = record s {
    server = some s.next_server;
    next_server = suc s.next_server;
    phase = update k p s.phase;
    status = update s.next_server status s.status;
    owner = update s.next_server k s.owner;
    on_close = update s.next_server true s.on_close;
  }

  -- `_attemptListen`, and what the call does if it throws.
  unfoldable pub attempt_listen : ℕ → Server → Server
  unfolding create_server failed_attempt
  attempt_listen k s =
      if is_stopped_state s.state
      then record s { phase = update k returned s.phase }
      else elim (listen_throws s.next_server) [
        | none ↦ create_server k binding (attempting s.next_server) s
        | some code ↦ failed_attempt k (failure code) (create_server k closed (s.phase k) s)
      ]

  -- A round of the scheduler: the attempt is counted.
  unfoldable pub begin_attempt : ℕ → Server → Server
  unfolding attempt_listen
  begin_attempt k s =
      attempt_listen k (record s { attempts = update k (suc (s.attempts k)) s.attempts })

  -- `start()`
  unfoldable pub start_call : Server → Server
  unfolding begin_attempt
  start_call s =
      if is_stopped_state s.state
      then begin_attempt s.next_call (record s {
        state = starting;
        current = some s.next_call;
        next_call = suc s.next_call;
        attempts = update s.next_call 0 s.attempts;
        aborted = update s.next_call false s.aborted;
      })
      else s

  -- `stop()`, up to the wait for the listener.
  unfoldable pub stop_call : Server → Server
  stop_call s = if is_stopped_state s.state then s else record s {
    state = stopped;
    aborted = update_at s.current true s.aborted;
    status = close_at s.server s.status;
  }

  -- `resolve` and `reject` of an attempt: nothing, if it is settled.
  unfoldable pub resolve : ℕ → Server → Server
  resolve x s =
      if is_attempting x (s.phase (s.owner x))
      then record s { phase = update (s.owner x) returned s.phase }
      else s

  unfoldable pub reject : ℕ → Failure → Server → Server
  unfolding failed_attempt
  reject x err s =
      if is_attempting x (s.phase (s.owner x)) then failed_attempt (s.owner x) err s else s

  -- `onListening`; the scheduler that it resets is the one that the server holds.
  unfoldable pub on_listening : ℕ → Server → Server
  unfolding resolve
  on_listening x s =
      let s' = cleanup x (record s { status = update x bound s.status }) in
      resolve x (record s' { state = listening; attempts = update_at s'.current 0 s'.attempts })

  -- `onError`: it closes `_server`.
  unfoldable pub on_error : ℕ → String → Server → Server
  unfolding reject
  on_error x code s =
      let s' = cleanup x (record s { status = update x closed s.status }) in
      let s'' = record s' { status = close_at s'.server s'.status } in
      reject x (failure code)
        (if is_network_retryable code then s'' else record s'' { state = ExecutionState.error })

  -- `onClose`, where a listener still has it.
  unfoldable pub on_server_close : ℕ → Server → Server
  unfolding reject
  on_server_close x s =
      let s' = record s { status = update x closed s.status } in
      if s.on_close x
      then (let s'' = cleanup x (record s' { on_close = update x false s'.on_close }) in
          if is_stopped_state s''.state then s'' else reject x (failure "closed unexpectedly") s'')
      else s'

  -- The end of a pause: its timer goes off, unless it was aborted. A pause of no length has no timer.
  unfoldable pub wake : ℕ → Server → Server
  unfolding begin_attempt
  wake k s =
      if s.aborted k
      then (if calculate_delay c (s.attempts k) == 0
          then record s { phase = update k returned s.phase }
          else s)
      else begin_attempt k s

  -- The AbortError of a pause, at the `catch` of `start`.
  unfoldable pub unwind : ℕ → Server → Server
  unwind k s =
      if s.aborted k && not (calculate_delay c (s.attempts k) == 0)
      then record s { state = stopped; phase = update k returned s.phase }
      else s

  unfoldable pub step : Event → Server → Server
  unfolding start_call stop_call on_listening on_error on_server_close wake unwind
  step start s = start_call s
  step stop s = stop_call s
  step (bound_to x) s = if is_binding (s.status x) then on_listening x s else s
  step (failed x code) s = if is_binding (s.status x) then on_error x code s else s
  step (closed_at x) s = if is_closing (s.status x) then on_server_close x s else s
  step (woke k) s = if is_sleeping (s.phase k) then wake k s else s
  step (unwound k) s = if is_sleeping (s.phase k) then unwind k s else s

  unfoldable pub steps : List Event → Server → Server
  unfolding step
  steps [] s = s
  steps (e ∷ es) s = steps es (step e s)

  -- A server after these events.
  abbrev pub server_after : List Event → Server
  server_after es = steps es new_server
