-- ===== src/Retry/Loop.antt =====
-- RetryScheduler.run: how the loop ends, src/common/retry.ts.
use distributed_rpc_js.Common.{
  ℕ, ◌≡◌, ◌⊎◌, refl, ◌∙◌, String, Bool, true, false, Option, ◌≢◌, List, [], ◌∷◌, arith, inl, inr,
  if◌then◌else◌,
}
use distributed_rpc_js.Retry.{
  RetryConfig, Settled, resolved, rejected, unsettled, Signal, sleep, Failure, abort_error, failure,
  is_exhausted, Ended, returned, pending, threw, Turn, leave, again, Round, World, Callbacks,
  after_sleep, wait_with_abort, give_up_or_wait, stop_if, stop, on_failure, begin_attempt, settle,
  iterate, next, run,
}

module _ {S E : Type 0} (config : RetryConfig) (opts : Callbacks S)
    (task : E → World S → Settled × World S) where
  -- An abort of the task leaves the loop at once: no callback runs and no other attempt is made.
  pub run_aborted :
      (r : Round E) (rs : List (Round E)) (w w' : World S)
      → w.scheduler.is_stopped ≡ false
      → task r.event (begin_attempt w) ≡ (rejected abort_error, w')
      → run config opts task (r ∷ rs) w ≡ (threw abort_error, w')
  unfolding run iterate on_failure
  run_aborted r rs w w' live h = ground arith

  after_sleep-attempt :
      (err : Failure) (s : Settled) (w : World S)
      → (after_sleep config opts task err s w).1.scheduler.attempt ≡ w.scheduler.attempt
  unfolding after_sleep
  after_sleep-attempt err resolved w = refl
  after_sleep-attempt err (rejected abort_error) w = refl
  after_sleep-attempt err (rejected (failure code)) w = refl
  after_sleep-attempt err unsettled w = refl

  stop_if-attempt : (b : Bool) (w : World S) → (stop_if b w).scheduler.attempt ≡ w.scheduler.attempt
  unfolding stop
  stop_if-attempt true w = refl
  stop_if-attempt false w = refl

  wait-attempt :
      (err : Failure) (delay : ℕ) (r : Round E) (w : World S)
      → (wait_with_abort config opts task err delay r w).1.scheduler.attempt ≡ w.scheduler.attempt
  unfolding wait_with_abort
  wait-attempt err delay r w = after_sleep-attempt err _ _ ∙ stop_if-attempt r.stop_called w

  -- The `catch` leaves the attempt count alone, and goes on only while tries are left.
  give_up_or_wait-attempt :
      (b : Bool) (err : Failure) (r : Round E) (w : World S)
      → (give_up_or_wait config opts task b err r w).1.scheduler.attempt ≡ w.scheduler.attempt
  unfolding give_up_or_wait
  give_up_or_wait-attempt true err r w = refl
  give_up_or_wait-attempt false err r w = wait-attempt err _ r _

  give_up_or_wait-eq-again :
      (b : Bool) (err : Failure) (r : Round E) (w : World S)
      → (give_up_or_wait config opts task b err r w).0 ≡ again
      → b ≡ false
  unfolding give_up_or_wait
  give_up_or_wait-eq-again true err r w h = cc
  give_up_or_wait-eq-again false err r w h = refl

  pub settle-attempt :
      (r : Round E) (s : Settled) (w : World S)
      → (settle config opts task r s w).1.scheduler.attempt ≡ w.scheduler.attempt
  unfolding settle on_failure
  settle-attempt r resolved w = refl
  settle-attempt r unsettled w = refl
  settle-attempt r (rejected abort_error) w = refl
  settle-attempt r (rejected (failure code)) w = give_up_or_wait-attempt _ (failure code) r w

  pub settle-eq-again :
      (r : Round E) (s : Settled) (w : World S)
      → (settle config opts task r s w).0 ≡ again
      → (is_exhausted config w.scheduler.attempt ≡ false) × (err : Failure) × (s ≡ rejected err)
  unfolding settle on_failure
  settle-eq-again r resolved w h = cc
  settle-eq-again r unsettled w h = cc
  settle-eq-again r (rejected abort_error) w h = cc
  settle-eq-again r (rejected (failure code)) w h =
      (give_up_or_wait-eq-again _ (failure code) r w h, failure code, refl)

  sleep-ne-unsettled : (ms : ℕ) (signal : Option Signal) → sleep ms signal ≢ unsettled
  unfolding sleep
  sleep-ne-unsettled ms signal h = ground arith

  -- A wait leaves the loop by an abort only.
  after_sleep-eq-leave :
      (err : Failure) (s : Settled) (w : World S) {e : Ended}
      → (after_sleep config opts task err s w).0 ≡ leave e
      → s ≢ unsettled
      → e ≡ threw abort_error
  unfolding after_sleep
  after_sleep-eq-leave err resolved w h slept = cc
  after_sleep-eq-leave err (rejected abort_error) w h slept = cc
  after_sleep-eq-leave err (rejected (failure code)) w h slept = cc
  after_sleep-eq-leave err unsettled w h slept = absurd (slept refl)

  give_up_or_wait-eq-leave :
      (b : Bool) (err : Failure) (r : Round E) (w : World S) {e : Ended}
      → (give_up_or_wait config opts task b err r w).0 ≡ leave e
      → ((b ≡ true) × (e ≡ threw err)) ⊎ (e ≡ threw abort_error)
  unfolding give_up_or_wait wait_with_abort
  give_up_or_wait-eq-leave true err r w h = inl (refl, cc)
  give_up_or_wait-eq-leave false err r w h =
      inr (after_sleep-eq-leave err _ _ h (sleep-ne-unsettled _ _))

  -- The ways to leave the loop: success, an abort, a failure with no try left, or a task that never
  -- settles.
  pub settle-eq-leave :
      (r : Round E) (s : Settled) (w : World S) {e : Ended}
      → (settle config opts task r s w).0 ≡ leave e
      → ((e ≡ returned) × (s ≡ resolved) × ((settle config opts task r s w).1 ≡ w))
        ⊎ ((e ≡ threw abort_error)
            ⊎ (((code : String) × (e ≡ threw (failure code))
                  × (s ≡ rejected (failure code))
                  × (is_exhausted config w.scheduler.attempt ≡ true))
                ⊎ ((e ≡ pending) × (s ≡ unsettled))))
  unfolding settle on_failure
  settle-eq-leave r resolved w h = inl (cc, refl, refl)
  settle-eq-leave r (rejected abort_error) w h = inr (inl cc)
  settle-eq-leave r unsettled w h = inr (inr (inr (cc, refl)))
  settle-eq-leave r (rejected (failure code)) w h =
      elim (give_up_or_wait-eq-leave _ (failure code) r w h) [
        | inl (full, thrown) ↦ inr (inr (inl (code, thrown, refl, full)))
        | inr thrown ↦ inr (inl thrown)
      ]

  -- The induction rule of the loop: what holds of each way out, and is carried over a turn.
  module _ (P : List (Round E) → World S → Ended × World S → Type 0)
      (on_stopped : (rs : List (Round E)) (w : World S)
        → w.scheduler.is_stopped ≡ true
        → P rs w (returned, w))
      (on_pending : (w : World S) → w.scheduler.is_stopped ≡ false → P [] w (pending, w))
      (on_leave : (r : Round E) (rs : List (Round E)) (w : World S) (e : Ended)
        → w.scheduler.is_stopped ≡ false
        → (iterate config opts task r w).0 ≡ leave e
        → P (r ∷ rs) w (e, (iterate config opts task r w).1))
      (on_again : (r : Round E) (rs : List (Round E)) (w : World S) (out : Ended × World S)
        → w.scheduler.is_stopped ≡ false
        → (iterate config opts task r w).0 ≡ again
        → P rs (iterate config opts task r w).1 out
        → P (r ∷ rs) w out) where
    at_end :
        (w : World S) (b : Bool)
        → w.scheduler.is_stopped ≡ b
        → P [] w (if b then returned else pending, w)
    at_end w true h = on_stopped [] w h
    at_end w false h = on_pending w h

    at_turn :
        (r : Round E) (rs : List (Round E)) (w : World S) (b : Bool) (t : Turn)
        → w.scheduler.is_stopped ≡ b
        → (iterate config opts task r w).0 ≡ t
        → P rs
            (iterate config opts task r w).1
            (run config opts task rs (iterate config opts task r w).1)
        → P (r ∷ rs) w (
            if b
            then (returned, w)
            else next t (iterate config opts task r w).1 (run config opts task rs))
    at_turn r rs w true t h e later = on_stopped (r ∷ rs) w h
    at_turn r rs w false (leave out) h e later = on_leave r rs w out h e
    at_turn r rs w false again h e later = on_again r rs w _ h e later

    pub run_rule : (rs : List (Round E)) (w : World S) → P rs w (run config opts task rs w)
    unfolding run
    run_rule [] w = at_end w w.scheduler.is_stopped refl
    run_rule (r ∷ rs) w =
        at_turn r rs w w.scheduler.is_stopped _ refl refl
          (run_rule rs (iterate config opts task r w).1)
