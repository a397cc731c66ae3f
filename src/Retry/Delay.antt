-- ===== src/Retry/Delay.antt =====
-- RetryScheduler._calculateDelay and sleep: the backoff, src/common/retry.ts.
use native.Mathlib.Nat.{pow-suc, le_refl, le_trans}
use distributed_rpc_js.Common.{ℕ, zero, suc, ◌+◌, ◌*◌, ◌^◌, ◌≤◌, ◌≡◌, true, Option, arith}
use distributed_rpc_js.Retry.{
  RetryConfig, rejected, Signal, Failure, abort_error, sleep, effective_multiplier, exponential,
  calculate_delay,
}

-- The delay never passes the configured maximum while backoff is enabled.
pub calculate_delay-le-max_delay :
    (c : RetryConfig) (attempt : ℕ)
    → c.backoff.enabled ≡ true
    → calculate_delay c attempt ≤ c.backoff.max_delay
unfolding calculate_delay
calculate_delay-le-max_delay c attempt h = ground arith

effective_multiplier_pos : (m : ℕ) → 1 ≤ effective_multiplier m
effective_multiplier_pos m = ground arith

mul_grows : (a p m : ℕ) → 1 ≤ m → a * p ≤ a * (p * m)
mul_grows a p zero h = absurd (omega arith)
mul_grows a p (suc m) h = omega arith

exponential_mono :
    (base m k : ℕ) → 1 ≤ m → exponential base m (suc k) ≤ exponential base m (suc (suc k))
unfolding exponential
exponential_mono base m k h = rw pow-suc (mul_grows base (m ^ k) m h)

calculate_delay-suc :
    (c : RetryConfig) (k : ℕ) → calculate_delay c (suc k) ≤ calculate_delay c (suc (suc k))
unfolding calculate_delay
calculate_delay-suc c k = ground (
  arith,
  exponential_mono c.interval (effective_multiplier c.backoff.multiplier) k
      (effective_multiplier_pos c.backoff.multiplier),
)

-- From the first attempt on, a later attempt never waits less than an earlier one.
pub calculate_delay_mono :
    (c : RetryConfig) (k d : ℕ) → calculate_delay c (suc k) ≤ calculate_delay c (suc (k + d))
calculate_delay_mono c k zero = let e : k + 0 ≡ k = omega arith in rw e (le_refl _)
calculate_delay_mono c k (suc d) =
    let e : k + suc d ≡ suc (k + d) = omega arith in
    rw e (le_trans (calculate_delay_mono c k d) (calculate_delay-suc c (k + d)))

-- A sleep is rejected by nothing but an abort.
pub sleep_rejects_abort :
    (ms : ℕ) (signal : Option Signal) {e : Failure} → sleep ms signal ≡ rejected e → e ≡ abort_error
unfolding sleep
sleep_rejects_abort ms signal h = ground arith
