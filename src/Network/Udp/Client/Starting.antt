-- ===== src/Network/Udp/Client/Starting.antt =====
-- How UdpClient.start ends, and the stop after it, src/network/udp-client.ts.
use distributed_rpc_js.Common.{
  ℕ, suc, ◌&&◌, false, ◌≡◌, refl, ◌∙◌, Bool, true, not, some, List, arith, String,
}
use distributed_rpc_js.Types.{ExecutionState, retrying, running, stopped, starting}
use distributed_rpc_js.Retry.{
  RetryConfig, failure, resolved, rejected, unsettled, World, Ended, new_scheduler,
}
use distributed_rpc_js.Network.{same_bool, attempted_by, settled_by}
use distributed_rpc_js.Retry.Quiet.{
  Attempts, Attempted, succeeded, failed_with, hung, Follows, expected, expected-ne-abort,
  run_new-expected,
}
use distributed_rpc_js.Network.Udp.{UdpSocket, is_stopped_state, callbacks}
use distributed_rpc_js.Network.Udp.Starting.{on_retry-with_state, LeftAs, ended_facts}
use distributed_rpc_js.Network.Udp.Client.{
  UdpClient, Bind, bound, errored, thrown, bind, attempt_bind, start, with_state,
  handle_bind_success, handle_bind_error,
}

-- What comes of an attempt, with or without a listener of the event `error`.
unfoldable pub outcome_of : Bool → Bind → Attempted
unfolding attempted_by
outcome_of hears (bound addr) = succeeded
outcome_of hears (errored code) = attempted_by hears code
outcome_of hears (thrown code) = failed_with code

abbrev state_of : UdpClient → ExecutionState
state_of s = s.state

abbrev is_live : Bool → UdpClient → Bool
is_live hears s = not (is_stopped_state s.state) && same_bool (s.hears_errors) hears

-- A client that runs on an open socket.
abbrev pub IsReady : UdpClient → Type 0
IsReady s = (s.state ≡ running) × (s.socket ≡ some UdpSocket.opened)

attempt_live :
    (hears : Bool) (e : Bind) (w : World UdpClient)
    → is_live hears w.owner ≡ true
    → attempt_bind e w ≡ bind e w
unfolding attempt_bind
attempt_live hears e w live = ground arith

-- A failed attempt leaves the scheduler alone, and the client is not stopped.
bind_failed :
    (hears : Bool) (e : Bind) (code : String) (w : World UdpClient)
    → is_live hears w.owner ≡ true
    → outcome_of hears e ≡ failed_with code
    → ((bind e w).0 ≡ rejected (failure code))
      × ((bind e w).1.scheduler ≡ w.scheduler)
      × (is_live hears (bind e w).1.owner ≡ true)
unfolding bind outcome_of handle_bind_error attempted_by settled_by
bind_failed hears (bound addr) code w live h = cc
bind_failed hears (errored code') code w live h = ground arith
bind_failed hears (thrown code') code w live h = ground arith

bind_hung :
    (hears : Bool) (e : Bind) (w : World UdpClient)
    → is_live hears w.owner ≡ true
    → outcome_of hears e ≡ hung
    → (bind e w).0 ≡ unsettled
unfolding bind outcome_of attempted_by settled_by
bind_hung hears (bound addr) w live h = cc
bind_hung hears (errored code) w live h = ground arith
bind_hung hears (thrown code) w live h = cc

bind_succeeded :
    (hears : Bool) (e : Bind) (w : World UdpClient)
    → outcome_of hears e ≡ succeeded
    → ((bind e w).0 ≡ resolved) × IsReady (bind e w).1.owner
unfolding bind outcome_of handle_bind_success attempted_by
bind_succeeded hears (bound addr) w h = (refl, (refl, refl))
bind_succeeded hears (errored code) w h = ground (arith, h)
bind_succeeded hears (thrown code) w h = cc

retried-is_live :
    (hears : Bool) (s : UdpClient)
    → is_live hears s ≡ true
    → is_live hears (with_state retrying s) ≡ true
retried-is_live hears s live = ground arith

fresh-is_live : (b : Bool) → true && same_bool b b ≡ true
fresh-is_live true = refl
fresh-is_live false = refl

-- The attempts to bind as a task of the scheduler.
abbrev attempts : Bool → Attempts UdpClient Bind
attempts hears = record {
  opts = callbacks with_state;
  task = attempt_bind;
  outcome_of = outcome_of hears;
  is_live = is_live hears;
  IsDone = IsReady;
  fails = λ e code w live h. rw (attempt_live hears e w live) (bind_failed hears e code w live h);
  succeeds = λ e w live h. rw (attempt_live hears e w live) (bind_succeeded hears e w h);
  retries = λ ctx s live.
      rw (on_retry-with_state state_of with_state (λ x s. refl) ctx s)
        (retried-is_live hears s live);
  hangs = λ e w live h. rw (attempt_live hears e w live) (bind_hung hears e w live h);
}

abbrev pub EndsAs : Ended → UdpClient → Type 0
EndsAs e s = LeftAs state_of with_state (λ x s. refl) IsReady e s

module _ (c : RetryConfig) (n : ℕ) (budget : c.max_retries ≡ some (suc n)) where
  bind_loop :
      (es : List Bind) (s : UdpClient)
      → Follows
          (attempts s.hears_errors)
          c
          n
          budget
          (record { scheduler = new_scheduler; owner = with_state starting s })
          es
          n
  unfolding new_scheduler
  bind_loop es s =
      run_new-expected (attempts s.hears_errors) c n budget es _ refl refl
        (fresh-is_live s.hears_errors)

  -- A start of a stopped client with a budget of n + 1 attempts ends as its description says.
  -- When it returns the client runs on an open socket, and when it throws its state is Error.
  pub start_udp_client-expected :
      (es : List Bind) (s : UdpClient)
      → s.state ≡ stopped
      → ((start c es s).0 ≡ expected (outcome_of s.hears_errors) es n)
        × EndsAs (expected (outcome_of s.hears_errors) es n) (start c es s).1
  unfolding start
  start_udp_client-expected es s idle =
      let (as_expected, done) = bind_loop es s in
      rw idle (
        ended_facts state_of with_state (λ x s. refl) IsReady _ _ as_expected
          (expected-ne-abort (outcome_of s.hears_errors) es n) (λ back. done (as_expected ∙ back)))
