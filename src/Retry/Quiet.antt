-- ===== src/Retry/Quiet.antt =====
-- RetryScheduler.run while nobody aborts or stops it: how it ends is told by the attempts and the
-- budget alone, src/common/retry.ts. `Attempts` is what the owner of a scheduler owes for that.
use distributed_rpc_js.Common.{
  ℕ, suc, zero, ◌+◌, ◌≡◌, ◌≢◌, refl, ◌∙◌, ap, Bool, true, false, none, some, List, [], ◌∷◌, map,
  arith, if◌then◌else◌, String,
}
use distributed_rpc_js.Retry.{
  RetryConfig, abort_error, failure, Settled, resolved, rejected, unsettled, quiet, Round, World,
  Callbacks, RetryContext, call, notify, Ended, returned, pending, threw, is_exhausted, sleep, run,
  iterate, settle, begin_attempt, on_failure, give_up_or_wait, wait_with_abort, after_sleep,
}

-- A round without an abort and without a stop.
abbrev pub quiet_round : {E : Type 0} → E → Round E
quiet_round e = record { event = e; signal = quiet; stop_called = false }

abbrev pub rounds : {E : Type 0} → List E → List (Round E)
rounds es = map quiet_round es

-- What comes of an attempt: it succeeds, fails with a code, or never settles.
pub data Attempted : Type 0 where
  succeeded hung : Attempted
  failed_with : String → Attempted

-- How a run ends by its description: `tries` attempts may fail, whatever their errors are. A run is
-- pending for ever once an attempt hangs.
abbrev pub after_attempt : Attempted → ℕ → (ℕ → Ended) → Ended
after_attempt succeeded tries rest = returned
after_attempt hung tries rest = pending
after_attempt (failed_with code) zero rest = threw (failure code)
after_attempt (failed_with code) (suc tries) rest = rest tries

unfoldable pub expected : {E : Type 0} → (E → Attempted) → List E → ℕ → Ended
expected outcome_of [] tries = pending
expected outcome_of (e ∷ es) tries = after_attempt (outcome_of e) tries (expected outcome_of es)

after_attempt-ne-abort :
    (o : Attempted) (tries : ℕ) (rest : ℕ → Ended)
    → ((t : ℕ) → rest t ≢ threw abort_error)
    → after_attempt o tries rest ≢ threw abort_error
after_attempt-ne-abort succeeded tries rest h e = cc
after_attempt-ne-abort hung tries rest h e = cc
after_attempt-ne-abort (failed_with code) zero rest h e = cc
after_attempt-ne-abort (failed_with code) (suc tries) rest h e = h tries e

pub expected-ne-abort :
    {E : Type 0} (outcome_of : E → Attempted) (es : List E) (tries : ℕ)
    → expected outcome_of es tries ≢ threw abort_error
unfolding expected
expected-ne-abort outcome_of [] tries e = cc
expected-ne-abort outcome_of (l ∷ es) tries e =
    after_attempt-ne-abort (outcome_of l) tries (expected outcome_of es)
      (expected-ne-abort outcome_of es) e

sleep_quiet : (b : Bool) (ms : ℕ) → sleep ms (if b then some quiet else none) ≡ resolved
unfolding sleep
sleep_quiet true ms = ground arith
sleep_quiet false ms = ground arith

-- The task of a scheduler, and what is asked of it: `is_live` is kept until the task is done.
pub record Attempts (S E : Type 0) : Type 1 where
  pub opts : Callbacks S
  pub task : E → World S → Settled × World S
  pub outcome_of : E → Attempted
  pub is_live : S → Bool
  pub IsDone : S → Type 0
  pub fails :
      (e : E) (code : String) (w : World S)
      → is_live w.owner ≡ true
      → outcome_of e ≡ failed_with code
      → ((task e w).0 ≡ rejected (failure code))
        × ((task e w).1.scheduler ≡ w.scheduler)
        × (is_live (task e w).1.owner ≡ true)
  pub succeeds :
      (e : E) (w : World S)
      → is_live w.owner ≡ true
      → outcome_of e ≡ succeeded
      → ((task e w).0 ≡ resolved) × IsDone (task e w).1.owner
  pub hangs :
      (e : E) (w : World S)
      → is_live w.owner ≡ true
      → outcome_of e ≡ hung
      → (task e w).0 ≡ unsettled
  pub retries :
      (ctx : RetryContext) (s : S) → is_live s ≡ true → is_live (call opts.on_retry ctx s) ≡ true

module _ {S E : Type 0} (a : Attempts S E) (c : RetryConfig) (n : ℕ)
    (budget : c.max_retries ≡ some (suc n)) where
  exhausted : (k : ℕ) → k ≡ suc n → is_exhausted c k ≡ true
  unfolding is_exhausted
  exhausted k h = ground arith

  not_exhausted : (k m : ℕ) → k + suc m ≡ suc n → is_exhausted c k ≡ false
  unfolding is_exhausted
  not_exhausted k m h = ground arith

  -- A run ends as described, and one that returns has left its owner done.
  abbrev pub Follows : World S → List E → ℕ → Type 0
  Follows w es k =
      ((run c a.opts a.task (rounds es) w).0 ≡ expected a.outcome_of es k)
      × ((run c a.opts a.task (rounds es) w).0 ≡ returned
          → a.IsDone (run c a.opts a.task (rounds es) w).1.owner)

  run_succeeded :
      (e : E) (es : List E) (w : World S)
      → w.scheduler.is_stopped ≡ false
      → a.is_live w.owner ≡ true
      → a.outcome_of e ≡ succeeded
      → run c a.opts a.task (rounds (e ∷ es)) w ≡ (returned, (a.task e (begin_attempt w)).1)
  unfolding run iterate settle begin_attempt
  run_succeeded e es w on live h = rw ((a.succeeds e (begin_attempt w) live h).0, on)

  -- An attempt that hangs leaves the run pending.
  run_hung :
      (e : E) (es : List E) (w : World S)
      → w.scheduler.is_stopped ≡ false
      → a.is_live w.owner ≡ true
      → a.outcome_of e ≡ hung
      → (run c a.opts a.task (rounds (e ∷ es)) w).0 ≡ pending
  unfolding run iterate settle begin_attempt
  run_hung e es w on live h = rw (a.hangs e (begin_attempt w) live h, on) refl

  -- The turn of a failed attempt.
  iterate_failed :
      (e : E) (code : String) (w : World S)
      → a.is_live w.owner ≡ true
      → a.outcome_of e ≡ failed_with code
      → iterate c a.opts a.task (quiet_round e) w
        ≡ give_up_or_wait c a.opts a.task
            (is_exhausted c (w.scheduler.attempt + 1))
            (failure code)
            (quiet_round e)
            (a.task e (begin_attempt w)).1
  unfolding iterate settle on_failure begin_attempt
  iterate_failed e code w live failing =
      let (rejection, kept, live') = a.fails e code (begin_attempt w) live failing in
      rw (rejection, kept)

  -- The world of the next turn.
  retried : E → String → World S → World S
  retried e code w =
      let u = (a.task e (begin_attempt w)).1 in
      notify a.opts.on_retry (record { attempt = u.scheduler.attempt; error = failure code }) u

  after_failure :
      (e : E) (code : String) (w : World S)
      → w.scheduler.is_stopped ≡ false
      → a.is_live w.owner ≡ true
      → a.outcome_of e ≡ failed_with code
      → ((retried e code w).scheduler.is_stopped ≡ false)
        × ((retried e code w).scheduler.attempt ≡ w.scheduler.attempt + 1)
        × (a.is_live (retried e code w).owner ≡ true)
  unfolding begin_attempt retried
  after_failure e code w on live failing =
      let (rejection, kept, live') = a.fails e code (begin_attempt w) live failing in
      (ap (λ s. s.is_stopped) kept ∙ on, ap (λ s. s.attempt) kept, a.retries _ _ live')

  run_last :
      (e : E) (code : String) (es : List E) (w : World S)
      → w.scheduler.is_stopped ≡ false
      → a.is_live w.owner ≡ true
      → a.outcome_of e ≡ failed_with code
      → w.scheduler.attempt ≡ n
      → (run c a.opts a.task (rounds (e ∷ es)) w).0 ≡ threw (failure code)
  unfolding run give_up_or_wait
  run_last e code es w on live failing spent =
      let full : is_exhausted c (w.scheduler.attempt + 1) ≡ true = exhausted _ (omega arith) in
      rw (iterate_failed e code w live failing, full, on)

  run_again :
      (e : E) (code : String) (es : List E) (w : World S) (k : ℕ)
      → w.scheduler.is_stopped ≡ false
      → a.is_live w.owner ≡ true
      → a.outcome_of e ≡ failed_with code
      → w.scheduler.attempt + suc k ≡ n
      → run c a.opts a.task (rounds (e ∷ es)) w ≡ run c a.opts a.task (rounds es) (retried e code w)
  unfolding run give_up_or_wait wait_with_abort after_sleep retried
  run_again e code es w k on live failing left =
      let more : is_exhausted c (w.scheduler.attempt + 1) ≡ false =
        not_exhausted _ k (omega arith) in
      rw (iterate_failed e code w live failing, more, sleep_quiet a.opts.has_signal _, on)

  run-expected :
      (es : List E) (k : ℕ) (w : World S)
      → w.scheduler.is_stopped ≡ false
      → a.is_live w.owner ≡ true
      → w.scheduler.attempt + k ≡ n
      → Follows w es k
  unfolding expected
  run-expected [] k w on live left = unfold run in rw on (refl, λ h. cc)
  run-expected (e ∷ es) k w on live left =
      at_error (a.outcome_of e) k refl left (λ t w' on' live'. run-expected es t w' on' live')
    where
      at_error :
          (o : Attempted) (tries : ℕ)
          → a.outcome_of e ≡ o
          → w.scheduler.attempt + tries ≡ n
          → ((t : ℕ) (w' : World S)
              → w'.scheduler.is_stopped ≡ false
              → a.is_live w'.owner ≡ true
              → w'.scheduler.attempt + t ≡ n
              → Follows w' es t)
          → ((run c a.opts a.task (rounds (e ∷ es)) w).0
              ≡ after_attempt o tries (expected a.outcome_of es))
            × ((run c a.opts a.task (rounds (e ∷ es)) w).0 ≡ returned
                → a.IsDone (run c a.opts a.task (rounds (e ∷ es)) w).1.owner)
      at_error hung tries h at_n later =
          let waits = run_hung e es w on live h in (waits, λ back. cc)
      at_error succeeded tries h at_n later =
          rw (run_succeeded e es w on live h)
            (refl, λ back. (a.succeeds e (begin_attempt w) (unfold begin_attempt in live) h).1)
      at_error (failed_with code) zero h at_n later =
          let last = run_last e code es w on live h (omega arith) in (last, λ back. cc)
      at_error (failed_with code) (suc tries) h at_n later =
          let (on', spent, live') = after_failure e code w on live h in
          rw (run_again e code es w tries on live h at_n)
            (later tries _ on' live' (omega (arith, spent)))

  -- A run of a new scheduler, for an owner that is live.
  pub run_new-expected :
      (es : List E) (w : World S)
      → w.scheduler.is_stopped ≡ false
      → w.scheduler.attempt ≡ 0
      → a.is_live w.owner ≡ true
      → Follows w es n
  run_new-expected es w on fresh live = run-expected es n w on live (omega arith)
