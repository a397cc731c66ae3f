-- ===== src/Retry/Tests.antt =====
-- Runs of the scheduler on concrete schedules, and instances of the theorems.
use distributed_rpc_js.Common.{ℕ, ◌+◌, ◌≤◌, ◌≡◌, ◌≢◌, refl, true, false, some, List, [], ◌∷◌, arith}
use distributed_rpc_js.Retry.{
  RetryConfig, Settled, resolved, rejected, unsettled, Failure, abort_error, failure, quiet,
  calculate_delay, pending, threw, Round, World, Callbacks, new_scheduler, run, iterate, on_failure,
  wait_with_abort, sleep, is_exhausted,
}
use distributed_rpc_js.Retry.Bounds.{run_terminates, run_threw-attempt}

abbrev three_tries : RetryConfig
three_tries = record {
  backoff = record { enabled = true; max_delay = 5000; multiplier = 2 };
  interval = 1000;
  max_retries = some 3;
}

-- The owner counts the retries that it was told of.
abbrev counting : Callbacks ℕ
counting = record {
  has_signal = true;
  on_retry = some (λ ctx n. n + 1);
  on_exhausted = some (λ ctx n. n + 100);
  on_error = some (λ e n. n + 1000);
}

-- The event is the outcome of the attempt.
abbrev as_told : Settled → World ℕ → Settled × World ℕ
as_told s w = (s, w)

abbrev refused : Round Settled
refused = record { event = rejected (failure "ECONNREFUSED"); signal = quiet; stop_called = false }

abbrev success : Round Settled
success = record { event = resolved; signal = quiet; stop_called = false }

abbrev cancelled : Round Settled
cancelled = record { event = rejected abort_error; signal = quiet; stop_called = false }

abbrev fresh : World ℕ
fresh = record { scheduler = new_scheduler; owner = 0 }

all_fail : run three_tries counting as_told (refused ∷ refused ∷ refused ∷ []) fresh ≡ (
  threw (failure "ECONNREFUSED"),
  record { scheduler = record { is_stopped = false; attempt = 3 }; owner = 102 },
)
unfolding run iterate on_failure wait_with_abort sleep is_exhausted new_scheduler calculate_delay
all_fail = refl

delays :
    (calculate_delay three_tries 1 ≡ 1000)
    × (calculate_delay three_tries 2 ≡ 2000)
    × (calculate_delay three_tries 4 ≡ 5000)
unfolding calculate_delay
delays = (refl, refl, refl)

abbrev schedule : List (Round Settled)
schedule = refused ∷ success ∷ []

as_told_lower :
    (s : Settled) (w : World ℕ) → (as_told s w).1.scheduler.attempt ≤ w.scheduler.attempt
as_told_lower s w = omega arith

as_told_same :
    (s : Settled) (w : World ℕ) (err : Failure)
    → (as_told s w).0 ≡ rejected err
    → (as_told s w).1.scheduler.attempt ≡ w.scheduler.attempt
as_told_same s w err h = refl

-- Each attempt fails.
abbrev as_refused : Unit {0} → World ℕ → Settled × World ℕ
as_refused e w = (rejected (failure "ECONNREFUSED"), w)

as_refused_settles : (e : Unit {0}) (w : World ℕ) → (as_refused e w).0 ≢ unsettled
as_refused_settles e w h = cc

abbrev no_event : Round (Unit {0})
no_event = record { event = tt; signal = quiet; stop_called = false }

run_terminates_example :
    (run three_tries counting as_refused (no_event ∷ no_event ∷ no_event ∷ []) fresh).0 ≢ pending
unfolding new_scheduler
run_terminates_example =
    run_terminates three_tries counting as_refused (λ e w. omega arith) (λ e w err h. refl) 3 refl
      (omega arith) as_refused_settles (no_event ∷ no_event ∷ no_event ∷ []) fresh (omega arith)
      (omega arith)

run_threw-attempt_example :
    (run three_tries counting as_told (refused ∷ refused ∷ refused ∷ []) fresh).1.scheduler.attempt
    ≡ 3
unfolding run iterate on_failure wait_with_abort sleep is_exhausted new_scheduler calculate_delay
run_threw-attempt_example =
    run_threw-attempt three_tries counting as_told as_told_lower as_told_same 3 refl (omega arith)
      (refused ∷ refused ∷ refused ∷ []) fresh "ECONNREFUSED" (omega arith) refl
