-- ===== src/Retry/Silent.antt =====
-- RetrySchedulerOptions.onError, src/common/retry.ts and src/common/abort-aware.ts.
use distributed_rpc_js.Common.{
  ◌≡◌, refl, Bool, true, false, none, List, [], ◌∷◌, ◌≢◌, String, if◌then◌else◌,
}
use distributed_rpc_js.Retry.{
  RetryConfig, Settled, resolved, rejected, unsettled, Failure, abort_error, failure, returned,
  Round, World, Callbacks, after_sleep, wait_with_abort, give_up_or_wait, on_failure, settle,
  iterate, next, run,
}
use distributed_rpc_js.Retry.Delay.{sleep_rejects_abort}

abbrev pub without_on_error : {S : Type 0} → Callbacks S → Callbacks S
without_on_error opts = record opts { on_error = none }

not_abort : (code : String) → failure code ≢ abort_error
not_abort code h = cc

module _ {S E : Type 0} (config : RetryConfig) (opts : Callbacks S)
    (task : E → World S → Settled × World S) where
  after_sleep_silent :
      (err : Failure) (s : Settled) (w : World S)
      → ((code : String) → s ≢ rejected (failure code))
      → after_sleep config opts task err s w
        ≡ after_sleep config (without_on_error opts) task err s w
  unfolding after_sleep
  after_sleep_silent err resolved w h = refl
  after_sleep_silent err unsettled w h = refl
  after_sleep_silent err (rejected abort_error) w h = refl
  after_sleep_silent err (rejected (failure code)) w h = absurd (h code refl)

  give_up_or_wait_silent :
      (b : Bool) (err : Failure) (r : Round E) (w : World S)
      → give_up_or_wait config opts task b err r w
        ≡ give_up_or_wait config (without_on_error opts) task b err r w
  unfolding give_up_or_wait wait_with_abort
  give_up_or_wait_silent true err r w = refl
  give_up_or_wait_silent false err r w =
      after_sleep_silent err _ _ (λ code h. not_abort code (sleep_rejects_abort _ _ h))

  settle_silent :
      (r : Round E) (s : Settled) (w : World S)
      → settle config opts task r s w ≡ settle config (without_on_error opts) task r s w
  unfolding settle on_failure
  settle_silent r resolved w = refl
  settle_silent r unsettled w = refl
  settle_silent r (rejected abort_error) w = refl
  settle_silent r (rejected (failure code)) w = give_up_or_wait_silent _ (failure code) r w

  iterate_silent :
      (r : Round E) (w : World S)
      → iterate config opts task r w ≡ iterate config (without_on_error opts) task r w
  unfolding iterate
  iterate_silent r w = settle_silent r _ _

  -- The callback `onError` never runs: a scheduler without it does the same on every run.
  pub run-without_on_error :
      (rs : List (Round E)) (w : World S)
      → run config opts task rs w ≡ run config (without_on_error opts) task rs w
  unfolding run
  run-without_on_error [] w = refl
  run-without_on_error (r ∷ rs) w = λ i.
      if w.scheduler.is_stopped
      then (returned, w)
      else next (iterate_silent r w i).0 (iterate_silent r w i).1 (λ u. run-without_on_error rs u i)
