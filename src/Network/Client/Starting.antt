-- ===== src/Network/Client/Starting.antt =====
-- How TcpClient.start ends, src/network/tcp-client.ts.
use distributed_rpc_js.Common.{
  ℕ, suc, ◌&&◌, ◌≡◌, ◌≢◌, refl, ◌∙◌, Bool, true, false, not, some, List, arith, String,
}
use distributed_rpc_js.Types.{ExecutionState, retrying, running}
use distributed_rpc_js.Retry.{
  RetryConfig, abort_error, failure, resolved, rejected, unsettled, World, Ended, returned, pending,
  threw, new_scheduler, RetryContext, call,
}
use distributed_rpc_js.Network.{same_bool, attempted_by, settled_by}
use distributed_rpc_js.Retry.Quiet.{
  Attempts, Attempted, succeeded, failed_with, hung, Follows, expected, expected-ne-abort,
  run_new-expected,
}
use distributed_rpc_js.Network.Client.{
  TcpClient, Socket, Connect, connected, refused, thrown, connect, attempt_connect, callbacks,
  is_stopped_state, is_active, ended, start, with_state, handle_connect_success,
  handle_connection_error,
}

-- What comes of an attempt, with or without a listener of the event `error`.
unfoldable pub outcome_of : Bool → Connect → Attempted
unfolding attempted_by
outcome_of hears connected = succeeded
outcome_of hears (refused code) = attempted_by hears code
outcome_of hears (thrown code) = failed_with code

abbrev is_live : Bool → TcpClient → Bool
is_live hears s = not (is_stopped_state s.state) && same_bool (s.hears_errors) hears

-- A client that runs on an open socket.
abbrev pub IsConnected : TcpClient → Type 0
IsConnected s = (s.state ≡ running) × (s.socket ≡ some Socket.opened)

attempt_live :
    (hears : Bool) (e : Connect) (w : World TcpClient)
    → is_live hears w.owner ≡ true
    → attempt_connect e w ≡ connect e w
unfolding attempt_connect
attempt_live hears e w live = ground arith

-- A failed attempt leaves the scheduler alone, and the client is not stopped.
connect_failed :
    (hears : Bool) (e : Connect) (code : String) (w : World TcpClient)
    → is_live hears w.owner ≡ true
    → outcome_of hears e ≡ failed_with code
    → ((connect e w).0 ≡ rejected (failure code))
      × ((connect e w).1.scheduler ≡ w.scheduler)
      × (is_live hears (connect e w).1.owner ≡ true)
unfolding connect outcome_of handle_connection_error attempted_by settled_by
connect_failed hears connected code w live h = cc
connect_failed hears (refused code') code w live h = ground arith
connect_failed hears (thrown code') code w live h = ground arith

connect_hung :
    (hears : Bool) (e : Connect) (w : World TcpClient)
    → is_live hears w.owner ≡ true
    → outcome_of hears e ≡ hung
    → (connect e w).0 ≡ unsettled
unfolding connect outcome_of attempted_by settled_by
connect_hung hears connected w live h = cc
connect_hung hears (refused code) w live h = ground arith
connect_hung hears (thrown code) w live h = cc

connect_succeeded :
    (hears : Bool) (e : Connect) (w : World TcpClient)
    → outcome_of hears e ≡ succeeded
    → ((connect e w).0 ≡ resolved) × IsConnected (connect e w).1.owner
unfolding connect outcome_of handle_connect_success attempted_by
connect_succeeded hears connected w h = (refl, (refl, refl))
connect_succeeded hears (refused code) w h = ground (arith, h)
connect_succeeded hears (thrown code) w h = cc

retried-is_live :
    (hears : Bool) (s : TcpClient)
    → is_live hears s ≡ true
    → is_live hears (with_state retrying s) ≡ true
retried-is_live hears s live = ground arith

fresh-is_live : (b : Bool) → true && same_bool b b ≡ true
fresh-is_live true = refl
fresh-is_live false = refl

on_retry-is_live :
    (hears : Bool) (ctx : RetryContext) (s : TcpClient)
    → is_live hears s ≡ true
    → is_live hears (call callbacks.on_retry ctx s) ≡ true
unfolding callbacks
on_retry-is_live hears ctx s live = retried-is_live hears s live

-- The attempts to connect as a task of the scheduler.
abbrev attempts : Bool → Attempts TcpClient Connect
attempts hears = record {
  opts = callbacks;
  task = attempt_connect;
  outcome_of = outcome_of hears;
  is_live = is_live hears;
  IsDone = IsConnected;
  fails =
      λ e code w live h. rw (attempt_live hears e w live) (connect_failed hears e code w live h);
  succeeds = λ e w live h. rw (attempt_live hears e w live) (connect_succeeded hears e w h);
  retries = λ ctx s live. on_retry-is_live hears ctx s live;
  hangs = λ e w live h. rw (attempt_live hears e w live) (connect_hung hears e w live h);
}

-- What an ended start leaves behind.
abbrev pub LeftAs : Ended → TcpClient → Type 0
LeftAs returned s = IsConnected s
LeftAs pending s = Unit
LeftAs (threw e) s = s.state ≡ ExecutionState.error

ended_facts :
    (out : Ended × World TcpClient) (e : Ended)
    → out.0 ≡ e
    → e ≢ threw abort_error
    → (e ≡ returned → LeftAs returned out.1.owner)
    → ((ended out).0 ≡ e) × LeftAs e (ended out).1
unfolding ended
ended_facts (o, w) returned h live done = rw h (refl, done refl)
ended_facts (o, w) pending h live done = rw h (refl, tt)
ended_facts (o, w) (threw abort_error) h live done = absurd (live refl)
ended_facts (o, w) (threw (failure code)) h live done = rw h (refl, refl)

module _ (c : RetryConfig) (n : ℕ) (budget : c.max_retries ≡ some (suc n)) where
  connect_loop :
      (es : List Connect) (s : TcpClient)
      → Follows
          (attempts s.hears_errors)
          c
          n
          budget
          (record { scheduler = new_scheduler; owner = with_state ExecutionState.starting s })
          es
          n
  unfolding new_scheduler
  connect_loop es s =
      run_new-expected (attempts s.hears_errors) c n budget es _ refl refl
        (fresh-is_live s.hears_errors)

  -- A start of a client that is neither running nor starting, with a budget of n + 1 attempts, ends
  -- as its description says: it returns with the first attempt that connects, and throws the error
  -- of attempt n + 1 if each of the first n + 1 fails, whatever their errors are; but without a
  -- listener of the event `error` the first attempt that is refused with an error that is not
  -- retryable never settles, and neither does the start. When it returns the client is running on
  -- an open socket, and when it throws its state is Error.
  pub start_client-expected :
      (es : List Connect) (s : TcpClient)
      → is_active s.state ≡ false
      → ((start c es s).0 ≡ expected (outcome_of s.hears_errors) es n)
        × LeftAs (expected (outcome_of s.hears_errors) es n) (start c es s).1
  unfolding start
  start_client-expected es s idle =
      let (as_expected, done) = connect_loop es s in
      rw idle (
        ended_facts _ _ as_expected (expected-ne-abort (outcome_of s.hears_errors) es n)
          (λ back. done (as_expected ∙ back)))
