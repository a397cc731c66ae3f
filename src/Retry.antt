-- ===== src/Retry.antt =====
-- src/common/retry.ts (RetryScheduler) and src/common/abort-aware.ts (isAbortError, sleep).
-- The scheduler is generic in the owner whose state the task and the callbacks change. What the
-- environment does in one round of the loop is a `Round`; a run is over a list of them.
-- Durations and multipliers are whole numbers. Metrics and timestamps are left out.
pub mod Delay
pub mod Loop
pub mod Bounds
pub mod Silent
pub mod Quiet
mod Tests
use distributed_rpc_js.Common.{
  ℕ, zero, suc, ◌+◌, ◌-◌, ◌*◌, ◌/◌, ◌^◌, ◌<◌, min, Bool, true, false, ◌&&◌, Option, none, some,
  List, [], ◌∷◌, String, if◌then◌else◌, ltb, leb, ◌==◌,
}

-- A rejection: a DOMException named "AbortError", or any other error with its `code`.
pub data Failure : Type 0 where
  abort_error : Failure
  failure : String → Failure

abbrev pub is_abort_error : Failure → Bool
is_abort_error abort_error = true
is_abort_error (failure code) = false

-- How a Promise<void> settles, if it does.
pub data Settled : Type 0 where
  resolved unsettled : Settled
  rejected : Failure → Settled

-- What an AbortSignal does about one sleep: nothing, it is aborted already, or it fires meanwhile.
pub data Signal : Type 0 where
  quiet aborted fires : Signal

-- `sleep(ms, signal)`; the signal is optional.
unfoldable pub sleep : ℕ → Option Signal → Settled
sleep ms signal = if leb ms 0 then resolved else elim signal [
  | none ↦ resolved
  | some s ↦ elim s [
    | quiet ↦ resolved
    | aborted ↦ rejected abort_error
    | fires ↦ rejected abort_error
  ]
]

pub record Backoff : Type 0 where
  pub enabled : Bool
  pub max_delay : ℕ
  pub multiplier : ℕ

-- interface RetryConfig (src/common/config.ts)
pub record RetryConfig : Type 0 where
  pub backoff : Backoff
  pub interval : ℕ
  pub max_retries : Option ℕ

abbrev pub default_retry_multiplier : ℕ
default_retry_multiplier = 2

abbrev pub effective_multiplier : ℕ → ℕ
effective_multiplier m = if ltb m 1 then default_retry_multiplier else m

-- `baseDelay * Math.pow(multiplier, attempt - 1)`: at attempt 0 the power is a division.
exponential : ℕ → ℕ → ℕ → ℕ
exponential base m zero = base / m
exponential base m (suc k) = base * m ^ k

unfoldable pub calculate_delay : RetryConfig → ℕ → ℕ
unfolding exponential
calculate_delay c attempt =
    if c.backoff.enabled
    then min (exponential c.interval (effective_multiplier c.backoff.multiplier) attempt)
        c.backoff.max_delay
    else c.interval

unfoldable pub is_exhausted : RetryConfig → ℕ → Bool
is_exhausted c attempt = elim c.max_retries [
  | none ↦ false
  | some maxtry ↦ ltb 0 maxtry && leb maxtry attempt
]

-- interface RetryContext
pub record RetryContext : Type 0 where
  pub attempt : ℕ
  pub error : Failure

-- The private fields of a RetryScheduler.
pub record Scheduler : Type 0 where
  pub is_stopped : Bool
  pub attempt : ℕ

unfoldable pub new_scheduler : Scheduler
new_scheduler = record { is_stopped = false; attempt = 0 }

unfoldable pub reset : Scheduler → Scheduler
reset s = record s { attempt = 0 }

unfoldable pub stop : Scheduler → Scheduler
stop s = record s { is_stopped = true }

-- How `run()` ends. `pending`: the rounds given are used up and the loop still goes on, or the promise
-- of the task never settles.
pub data Ended : Type 0 where
  returned pending : Ended
  threw : Failure → Ended

-- One turn of the loop: it leaves `run()`, or goes on.
pub data Turn : Type 0 where
  leave : Ended → Turn
  again : Turn

-- What the environment does in one round: the event that the task meets, what the abort signal
-- does during the wait, and whether `stop()` is called meanwhile.
pub record Round (E : Type 0) : Type 0 where
  pub event : E
  pub signal : Signal
  pub stop_called : Bool

pub record World (S : Type 0) : Type 0 where
  pub scheduler : Scheduler
  pub owner : S

-- interface RetrySchedulerOptions, less the RetryConfig; the callbacks are optional.
pub record Callbacks (S : Type 0) : Type 0 where
  pub has_signal : Bool
  pub on_retry : Option (RetryContext → S → S)
  pub on_exhausted : Option (RetryContext → S → S)
  pub on_error : Option (Failure → S → S)

-- `callback?.(x)`
abbrev pub call : {A S : Type 0} → Option (A → S → S) → A → S → S
call none x s = s
call (some f) x s = f x s

abbrev pub notify : {A S : Type 0} → Option (A → S → S) → A → World S → World S
notify f x w = record w { owner = call f x w.owner }

abbrev pub stop_if : {S : Type 0} → Bool → World S → World S
stop_if b w = if b then record w { scheduler = stop w.scheduler } else w

-- `this._attempt++`
unfoldable pub begin_attempt : {S : Type 0} → World S → World S
begin_attempt w = record w { scheduler = record w.scheduler { attempt = w.scheduler.attempt + 1 } }

abbrev pub next : {S : Type 0} → Turn → World S → (World S → Ended × World S) → Ended × World S
next (leave e) w rest = (e, w)
next again w rest = rest w

module _ {S E : Type 0} (config : RetryConfig) (opts : Callbacks S)
    (task : E → World S → Settled × World S) where
  -- How `_waitWithAbort` goes on after the sleep: an abort is thrown on, any other rejection of
  -- the sleep is told to `onError` together with the error of the attempt.
  unfoldable pub after_sleep : Failure → Settled → World S → Turn × World S
  after_sleep err resolved w = (again, w)
  after_sleep err (rejected abort_error) w = (leave (threw abort_error), w)
  after_sleep err (rejected (failure code)) w = (again, notify opts.on_error err w)
  after_sleep err unsettled w = (leave pending, w)

  unfoldable pub wait_with_abort : Failure → ℕ → Round E → World S → Turn × World S
  unfolding after_sleep
  wait_with_abort err delay r w =
      after_sleep err (sleep delay (if opts.has_signal then some r.signal else none))
        (stop_if r.stop_called w)

  -- Past the abort test of the `catch`: the Boolean is `_isExhausted()`.
  unfoldable pub give_up_or_wait : Bool → Failure → Round E → World S → Turn × World S
  give_up_or_wait true err r w =
      let ctx : RetryContext = record { attempt = w.scheduler.attempt; error = err } in
      (leave (threw err), notify opts.on_exhausted ctx w)
  give_up_or_wait false err r w =
      let ctx : RetryContext = record { attempt = w.scheduler.attempt; error = err } in
      wait_with_abort err (calculate_delay config w.scheduler.attempt) r
        (notify opts.on_retry ctx w)

  -- The `catch` of the loop.
  unfoldable pub on_failure : Failure → Round E → World S → Turn × World S
  unfolding give_up_or_wait
  on_failure abort_error r w = (leave (threw abort_error), w)
  on_failure (failure code) r w =
      give_up_or_wait (is_exhausted config w.scheduler.attempt) (failure code) r w

  unfoldable pub settle : Round E → Settled → World S → Turn × World S
  settle r resolved w = (leave returned, w)
  settle r (rejected err) w = on_failure err r w
  settle r unsettled w = (leave pending, w)

  -- The body of the loop.
  unfoldable pub iterate : Round E → World S → Turn × World S
  unfolding begin_attempt settle
  iterate r w = settle r (task r.event (begin_attempt w)).0 (task r.event (begin_attempt w)).1

  unfoldable pub run : List (Round E) → World S → Ended × World S
  run [] w = (if w.scheduler.is_stopped then returned else pending, w)
  run (r ∷ rs) w =
      if w.scheduler.is_stopped
      then (returned, w)
      else next (iterate r w).0 (iterate r w).1 (run rs)
