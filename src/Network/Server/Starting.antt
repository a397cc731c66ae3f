-- ===== src/Network/Server/Starting.antt =====
-- How TcpServer.start ends, src/network/tcp-server.ts.
use distributed_rpc_js.Common.{
  ℕ, suc, ◌&&◌, ◌==◌, ◌≡◌, ◌≢◌, refl, sym, ◌∙◌, ap, Bool, true, false, not, some, List, arith,
  String,
}
use distributed_rpc_js.Types.{ExecutionState, retrying, stopped}
use distributed_rpc_js.Retry.{
  RetryConfig, abort_error, failure, resolved, rejected, unsettled, World, Ended, returned, pending,
  threw, new_scheduler, RetryContext, call,
}
use distributed_rpc_js.Network.{same_bool, attempted_by, settled_by}
use distributed_rpc_js.Retry.Quiet.{
  Attempts, Attempted, succeeded, failed_with, hung, Follows, expected, expected-ne-abort,
  run_new-expected,
}
use distributed_rpc_js.Network.Server.{
  with_state, TcpServer, Listen, bound, errored, closed, thrown, listen, attempt_listen, callbacks,
  is_stopped_state, ended, start, begin_start,
}

-- What comes of an attempt, with or without a listener of the event `error`.
unfoldable pub outcome_of : Bool → Listen → Attempted
unfolding attempted_by
outcome_of hears (bound addr) = succeeded
outcome_of hears (errored code) = attempted_by hears code
outcome_of hears closed = failed_with ""
outcome_of hears (thrown code) = failed_with code

abbrev pub is_live : Bool → TcpServer → Bool
is_live hears s = not (is_stopped_state s.state) && same_bool (not (s.error_listeners == 0)) hears

attempt_live :
    (hears : Bool) (e : Listen) (w : World TcpServer)
    → is_live hears w.owner ≡ true
    → attempt_listen e w ≡ listen e w
unfolding attempt_listen
attempt_live hears e w live = ground arith

-- A failed attempt leaves the scheduler alone, and the server is not stopped.
listen_failed :
    (hears : Bool) (e : Listen) (code : String) (w : World TcpServer)
    → is_live hears w.owner ≡ true
    → outcome_of hears e ≡ failed_with code
    → ((listen e w).0 ≡ rejected (failure code))
      × ((listen e w).1.scheduler ≡ w.scheduler)
      × (is_live hears (listen e w).1.owner ≡ true)
unfolding listen outcome_of attempted_by settled_by
listen_failed hears (bound addr) code w live h = cc
listen_failed hears (errored code') code w live h = ground arith
listen_failed hears closed code w live h = ground arith
listen_failed hears (thrown code') code w live h = ground arith

listen_hung :
    (hears : Bool) (e : Listen) (w : World TcpServer)
    → is_live hears w.owner ≡ true
    → outcome_of hears e ≡ hung
    → (listen e w).0 ≡ unsettled
unfolding listen outcome_of attempted_by settled_by
listen_hung hears (bound addr) w live h = cc
listen_hung hears (errored code) w live h = ground arith
listen_hung hears closed w live h = cc
listen_hung hears (thrown code) w live h = cc

listen_succeeded :
    (hears : Bool) (e : Listen) (w : World TcpServer)
    → outcome_of hears e ≡ succeeded
    → ((listen e w).0 ≡ resolved) × ((listen e w).1.owner.state ≡ ExecutionState.listening)
unfolding listen outcome_of attempted_by
listen_succeeded hears (bound addr) w h = (refl, refl)
listen_succeeded hears (errored code) w h = ground (arith, h)
listen_succeeded hears closed w h = cc
listen_succeeded hears (thrown code) w h = cc

retried-is_live :
    (hears : Bool) (s : TcpServer)
    → is_live hears s ≡ true
    → is_live hears (with_state retrying s) ≡ true
retried-is_live hears s live = ground arith

fresh-is_live : (b : Bool) → true && same_bool b b ≡ true
fresh-is_live true = refl
fresh-is_live false = refl

on_retry-is_live :
    (hears : Bool) (ctx : RetryContext) (s : TcpServer)
    → is_live hears s ≡ true
    → is_live hears (call callbacks.on_retry ctx s) ≡ true
unfolding callbacks
on_retry-is_live hears ctx s live = retried-is_live hears s live

-- The attempts to listen as a task of the scheduler.
abbrev attempts : Bool → Attempts TcpServer Listen
attempts hears = record {
  opts = callbacks;
  task = attempt_listen;
  outcome_of = outcome_of hears;
  is_live = is_live hears;
  IsDone = λ s. s.state ≡ ExecutionState.listening;
  fails = λ e code w live h. rw (attempt_live hears e w live) (listen_failed hears e code w live h);
  succeeds = λ e w live h. rw (attempt_live hears e w live) (listen_succeeded hears e w h);
  retries = λ ctx s live. on_retry-is_live hears ctx s live;
  hangs = λ e w live h. rw (attempt_live hears e w live) (listen_hung hears e w live h);
}

-- What an ended start leaves behind.
abbrev pub LeftAs : Ended → TcpServer → Type 0
LeftAs returned s = s.state ≡ ExecutionState.listening
LeftAs pending s = Unit
LeftAs (threw e) s = s.state ≡ ExecutionState.error

ended_facts :
    (out : Ended × World TcpServer) (e : Ended)
    → out.0 ≡ e
    → e ≢ threw abort_error
    → (e ≡ returned → LeftAs returned out.1.owner)
    → ((ended out).0 ≡ e) × LeftAs e (ended out).1
unfolding ended
ended_facts (o, w) returned h live done = rw h (refl, done refl)
ended_facts (o, w) pending h live done = rw h (refl, tt)
ended_facts (o, w) (threw abort_error) h live done = absurd (live refl)
ended_facts (o, w) (threw (failure code)) h live done = rw h (refl, refl)

module _ (c : RetryConfig) (n : ℕ) (budget : c.max_retries ≡ some (suc n)) where
  start_loop :
      (port : ℕ) (es : List Listen) (s : TcpServer)
      → Follows
          (attempts (not (s.error_listeners == 0)))
          c
          n
          budget
          (record { scheduler = new_scheduler; owner = begin_start port s })
          es
          n
  unfolding new_scheduler
  start_loop port es s =
      run_new-expected (attempts (not (s.error_listeners == 0))) c n budget es _ refl refl
        (fresh-is_live (not (s.error_listeners == 0)))

  start_busy :
      (port : ℕ) (es : List Listen) (s : TcpServer)
      → is_stopped_state s.state ≡ false
      → start c port es s ≡ (returned, s)
  unfolding start
  start_busy port es s busy = rw busy

  -- A start of a stopped server with a budget of n + 1 attempts ends as its description says: it
  -- returns with the first attempt that listens, and throws the error of attempt n + 1 if each of
  -- the first n + 1 fails, whatever their errors are; but without a listener of the event `error`
  -- the first attempt whose error is not retryable never settles, and neither does the start. When
  -- it returns the server is listening, and when it throws its state is Error.
  pub start-expected :
      (port : ℕ) (es : List Listen) (s : TcpServer)
      → s.state ≡ stopped
      → ((start c port es s).0 ≡ expected (outcome_of (not (s.error_listeners == 0))) es n)
        × LeftAs (expected (outcome_of (not (s.error_listeners == 0))) es n) (start c port es s).1
  unfolding start
  start-expected port es s idle =
      let (as_expected, bound_state) = start_loop port es s in
      rw idle (
        ended_facts _ _ as_expected
          (expected-ne-abort (outcome_of (not (s.error_listeners == 0))) es n)
          (λ back. bound_state (as_expected ∙ back)))

  -- After a start of a stopped server with a budget of n + 1 attempts has thrown, another start
  -- returns at once, whatever it would meet, and changes nothing.
  pub start_failed_again :
      (port port' : ℕ) (es es' : List Listen) (s : TcpServer) (code : String)
      → s.state ≡ stopped
      → (start c port es s).0 ≡ threw (failure code)
      → start c port' es' (start c port es s).1 ≡ (returned, (start c port es s).1)
  start_failed_again port port' es es' s code idle failing =
      let (as_expected, left_as) = start-expected port es s idle in
      start_busy port' es' (start c port es s).1
        (ap is_stopped_state (rw (sym as_expected ∙ failing) at left_as))
