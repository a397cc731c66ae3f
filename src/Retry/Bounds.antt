-- ===== src/Retry/Bounds.antt =====
-- RetryScheduler.run: the number of attempts, and that the loop ends, src/common/retry.ts.
use distributed_rpc_js.Common.{
  ℕ, ◌+◌, ◌≤◌, ◌<◌, ◌≡◌, ◌≢◌, ◌⊎◌, ◌∙◌, true, false, some, List, arith, inl, inr, length, ap, sym,
  String,
}
use distributed_rpc_js.Retry.{
  RetryConfig, Settled, resolved, rejected, unsettled, Failure, failure, is_exhausted, returned,
  pending, threw, leave, again, Round, World, Callbacks, begin_attempt, iterate, run,
}
use distributed_rpc_js.Retry.Loop.{settle-attempt, settle-eq-again, settle-eq-leave, run_rule}

-- The budget of a configuration with a positive `max_retries` is used up exactly at that attempt.
is_exhausted_iff :
    (c : RetryConfig) (n attempt : ℕ)
    → c.max_retries ≡ some n
    → 0 < n
    → (is_exhausted c attempt ≡ false → attempt < n) × (is_exhausted c attempt ≡ true → n ≤ attempt)
unfolding is_exhausted
is_exhausted_iff c n attempt e pos = ground arith

module _ {S E : Type 0} (config : RetryConfig) (opts : Callbacks S)
    (task : E → World S → Settled × World S) where
  returned_resolved :
      (r : Round E) (w : World S)
      → (iterate config opts task r w).0 ≡ leave returned
      → task r.event (begin_attempt w) ≡ (resolved, (iterate config opts task r w).1)
  unfolding iterate
  returned_resolved r w h = elim (settle-eq-leave config opts task r _ _ h) [
    | inl (e, s, u) ↦ λ i. (s i, sym u i)
    | inr (inl e) ↦ absurd cc
    | inr (inr (inl (code, e, s, full))) ↦ absurd cc
    | inr (inr (inr (e, s))) ↦ absurd cc
  ]

  -- The retry loop returns only after `stop()`, or when the last attempt has resolved.
  pub run_returned :
      (rs : List (Round E)) (w : World S)
      → (run config opts task rs w).0 ≡ returned
      → ((run config opts task rs w).1.scheduler.is_stopped ≡ true)
        ⊎ ((r : Round E) × (w' : World S) × (task r.event (begin_attempt w')
              ≡ (resolved, (run config opts task rs w).1)))
  run_returned =
      run_rule config opts task
        (λ rs w out.
          out.0 ≡ returned
          → (out.1.scheduler.is_stopped ≡ true)
            ⊎ ((r : Round E) × (w' : World S) × (task r.event (begin_attempt w')
                  ≡ (resolved, out.1))))
        (λ rs w h e. inl h) (λ w h e. cc)
        (λ r rs w e live left got. inr (r, w, returned_resolved r w (left ∙ ap leave got)))
        (λ r rs w out live h later. later)

  -- What a task owes the scheduler: it may reset the count when it resolves, and leaves it alone
  -- when it rejects.
  module _ (lower : (e : E) (w : World S) → (task e w).1.scheduler.attempt ≤ w.scheduler.attempt)
      (same : (e : E) (w : World S) (err : Failure)
        → (task e w).0 ≡ rejected err
        → (task e w).1.scheduler.attempt ≡ w.scheduler.attempt)
      (n : ℕ) (budget : config.max_retries ≡ some n) (pos : 0 < n) where
    iterate-attempt-le :
        (r : Round E) (w : World S)
        → (iterate config opts task r w).1.scheduler.attempt ≤ w.scheduler.attempt + 1
    unfolding iterate begin_attempt
    iterate-attempt-le r w = omega (
      arith,
      settle-attempt config opts task r (task r.event (begin_attempt w)).0
          (task r.event (begin_attempt w)).1,
      lower r.event (begin_attempt w),
    )

    -- A turn that goes on has spent one try of a budget that is not used up.
    iterate_again :
        (r : Round E) (w : World S)
        → (iterate config opts task r w).0 ≡ again
        → (w.scheduler.attempt + 1 < n)
          × ((iterate config opts task r w).1.scheduler.attempt ≡ w.scheduler.attempt + 1)
    unfolding iterate begin_attempt
    iterate_again r w h =
        let (left, err, rejection) = settle-eq-again config opts task r _ _ h in
        let kept = same r.event (begin_attempt w) err rejection in
        let lt = (is_exhausted_iff config n _ budget pos).0 left in
        (omega (arith, kept, lt), settle-attempt config opts task r _ _ ∙ kept)

    iterate-ne-pending :
        ((e : E) (w : World S) → (task e w).0 ≢ unsettled)
        → (r : Round E) (w : World S) → (iterate config opts task r w).0 ≢ leave pending
    unfolding iterate begin_attempt
    iterate-ne-pending settles r w h = elim (settle-eq-leave config opts task r _ _ h) [
      | inl (e, s, u) ↦ cc
      | inr (inl e) ↦ cc
      | inr (inr (inl (code, e, s, full))) ↦ cc
      | inr (inr (inr (e, s))) ↦ absurd (settles r.event (begin_attempt w) s)
    ]

    -- With a budget of n attempts, n rounds are enough for the retry loop to end, for a task that
    -- always settles, resets the attempt count only when it resolves and never raises it.
    pub run_terminates :
        ((e : E) (w : World S) → (task e w).0 ≢ unsettled)
        → (rs : List (Round E)) (w : World S) → n ≤ w.scheduler.attempt + length rs
        → 0 < length rs
        → (run config opts task rs w).0 ≢ pending
    run_terminates settles =
        run_rule config opts task
          (λ rs w out. n ≤ w.scheduler.attempt + length rs → 0 < length rs → out.0 ≢ pending)
          (λ rs w h a b e. cc) (λ w h a b e. absurd (omega arith))
          (λ r rs w e live left a b got. iterate-ne-pending settles r w (left ∙ ap leave got))
          (λ r rs w out live go later a b.
            let facts = iterate_again r w go in later (omega arith) (omega arith))

    -- With a budget of n, and fewer attempts made before, the count of attempts never passes n,
    -- under the same condition on the task.
    pub run-attempt-le :
        (rs : List (Round E)) (w : World S)
        → w.scheduler.attempt < n
        → (run config opts task rs w).1.scheduler.attempt ≤ n
    run-attempt-le =
        run_rule config opts task
          (λ rs w out. w.scheduler.attempt < n → out.1.scheduler.attempt ≤ n)
          (λ rs w h a. omega arith) (λ w h a. omega arith)
          (λ r rs w e live left a. omega (arith, iterate-attempt-le r w))
          (λ r rs w out live go later a. let facts = iterate_again r w go in later (omega arith))

    iterate_threw :
        (r : Round E) (w : World S) (code : String)
        → w.scheduler.attempt < n
        → (iterate config opts task r w).0 ≡ leave (threw (failure code))
        → (iterate config opts task r w).1.scheduler.attempt ≡ n
    unfolding iterate begin_attempt
    iterate_threw r w code a h = elim (settle-eq-leave config opts task r _ _ h) [
      | inl (e, s, u) ↦ cc
      | inr (inl e) ↦ cc
      | inr (inr (inr (e, s))) ↦ cc
      | inr (inr (inl (code', e, s, full))) ↦
          let kept = same r.event (begin_attempt w) _ s in
          let spent = (is_exhausted_iff config n _ budget pos).1 full in
          omega (
            arith,
            kept,
            spent,
            settle-attempt config opts task r (task r.event (begin_attempt w)).0
                (task r.event (begin_attempt w)).1,
          )
    ]

    -- A failure other than an abort reaches the caller of the retry loop after exactly n attempts,
    -- for a budget of n and fewer attempts made before, under the same condition on the task.
    pub run_threw-attempt :
        (rs : List (Round E)) (w : World S) (code : String)
        → w.scheduler.attempt < n
        → (run config opts task rs w).0 ≡ threw (failure code)
        → (run config opts task rs w).1.scheduler.attempt ≡ n
    run_threw-attempt rs w code =
        run_rule config opts task
          (λ rs w out.
            w.scheduler.attempt < n → out.0 ≡ threw (failure code) → out.1.scheduler.attempt ≡ n)
          (λ rs w h a e. cc) (λ w h a e. cc)
          (λ r rs w e live left a got. iterate_threw r w code a (left ∙ ap leave got))
          (λ r rs w out live go later a. let facts = iterate_again r w go in later (omega arith)) rs
          w
