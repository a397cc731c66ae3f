-- ===== src/Network/Udp/Discovery/Outcomes.antt =====
-- What a discovery comes to, src/network/udp-discovery.ts.
use distributed_rpc_js.Common.{
  ℕ, suc, ◌≡◌, refl, leb, true, Option, none, some, List, [], ◌∷◌, arith, length, if◌then◌else◌,
}
use distributed_rpc_js.Types.{running, stopped}
use distributed_rpc_js.Retry.{
  RetryConfig, Failure, failure, Settled, resolved, rejected, unsettled, Ended, returned, pending,
  threw,
}
use distributed_rpc_js.Retry.Quiet.{expected}
use distributed_rpc_js.Network.Udp.{UdpSocket, close_socket}
use distributed_rpc_js.Network.Udp.Client.{
  UdpClient, start, stop, get_ready_socket, set_broadcast, Incident, arrives, fails, closes,
  times_out, send_fails, send_and_wait, wait_on, reply_to, notice,
}
use distributed_rpc_js.Network.Udp.Client.Starting.{
  IsReady, outcome_of, EndsAs, start_udp_client-expected,
}
use distributed_rpc_js.Network.Udp.Discovery.{
  Parsed, unreadable, incomplete, complete, Discovered, waiting, found, failed, Surroundings,
  Collection, collect_responses, after_reply, on_message, read_response, push_response, settle_with,
  conclude, broadcast_probe, after_start, discover,
}

ready_socket : (s : UdpClient) → IsReady s → get_ready_socket s ≡ some UdpSocket.opened
unfolding get_ready_socket
ready_socket s (up, held) = rw up held

set_broadcast_ready :
    (throws : Option Failure) (s : UdpClient) → IsReady s → set_broadcast throws s ≡ throws
unfolding set_broadcast
set_broadcast_ready throws s ready = rw (ready_socket s ready, set_broadcast) refl

-- The socket that the client holds after the first of these incidents.
abbrev pub held_after : List Incident → UdpSocket
held_after [] = UdpSocket.opened
held_after (arrives peer bytes ∷ xs) = UdpSocket.opened
held_after (fails e ∷ xs) = UdpSocket.opened
held_after (closes ∷ xs) = UdpSocket.closed
held_after (times_out ∷ xs) = UdpSocket.opened
held_after (send_fails e ∷ xs) = UdpSocket.opened

-- The client runs and holds this socket.
abbrev pub Runs : UdpSocket → UdpClient → Type 0
Runs held s = (s.state ≡ running) × (s.socket ≡ some held)

module _ {R : Type 0} where
  -- How a probe comes out by its description: the datagram that arrives first decides. A readable one
  -- is the whole result, unless more than one response is asked for.
  abbrev pub read_as : ℕ → Parsed R → Discovered R
  read_as max unreadable = failed (failure "")
  read_as max (incomplete o) = failed (failure "")
  read_as max (complete r) = if leb max 1 then found (r ∷ []) 1 else waiting

  abbrev pub met_as : ℕ → (List ℕ → Parsed R) → Incident → Discovered R
  met_as max parse (arrives peer bytes) = read_as max (parse bytes)
  met_as max parse (fails e) = failed e
  met_as max parse closes = failed (failure "")
  met_as max parse times_out = waiting
  met_as max parse (send_fails e) = failed e

  abbrev pub probed : ℕ → (List ℕ → Parsed R) → List Incident → Discovered R
  probed max parse [] = waiting
  probed max parse (x ∷ xs) = met_as max parse x

  -- The client that a discovery leaves: stopped without a socket after a result, else still running
  -- with this socket.
  abbrev pub LeavesClient : UdpSocket → Discovered R → UdpClient → Type 0
  LeavesClient held (found rs n) s = (s.state ≡ stopped) × (s.socket ≡ none)
  LeavesClient held (failed e) s = Runs held s
  LeavesClient held waiting s = Runs held s

  -- A settlement of the collection, as a result of the discovery.
  abbrev as_result : Option Settled → List R → Discovered R
  as_result none rs = waiting
  as_result (some resolved) rs = found rs (length rs)
  as_result (some unsettled) rs = waiting
  as_result (some (rejected e)) rs = failed e

  conclude-as_result :
      (throws : Option Failure) (k : Collection R) (held : UdpSocket) (s : UdpClient)
      → Runs held s
      → (k.promise ≡ some resolved → held ≡ UdpSocket.opened)
      → ((conclude throws (k, s)).0 ≡ as_result k.promise k.responses)
        × LeavesClient held (as_result k.promise k.responses) (conclude throws (k, s)).1
  unfolding conclude stop close_socket
  conclude-as_result throws k held s (up, holds) = at k.promise
    where
      at :
          (o : Option Settled)
          → (o ≡ some resolved → held ≡ UdpSocket.opened)
          → ((conclude throws (record k { promise = o }, s)).0 ≡ as_result o k.responses)
            × LeavesClient held
                (as_result o k.responses)
                (conclude throws (record k { promise = o }, s)).1
      at none unclosed = (refl, (up, holds))
      at (some (rejected e)) unclosed = (refl, (up, holds))
      at (some unsettled) unclosed = (refl, (up, holds))
      at (some resolved) unclosed = rw (up, holds, unclosed refl) (refl, (refl, refl))

  fresh_collection : Collection R
  fresh_collection = record { promise = none; responses = []; is_listening = true }

  read-read_as :
      (max : ℕ) (p : Parsed R)
      → let k = on_message max p fresh_collection in as_result k.promise k.responses ≡ read_as max p
  unfolding on_message read_response push_response settle_with fresh_collection
  read-read_as max unreadable = refl
  read-read_as max (incomplete none) = refl
  read-read_as max (incomplete (some r)) = ground arith
  read-read_as max (complete r) = ground arith

  reply-probed :
      (max : ℕ) (parse : List ℕ → Parsed R) (xs : List Incident) (s : UdpClient)
      → IsReady s
      → let (o, t) = wait_on (some UdpSocket.opened) xs s in
        let k = after_reply max parse o fresh_collection in
        (as_result k.promise k.responses ≡ probed max parse xs)
        × Runs (held_after xs) t
        × (k.promise ≡ some resolved → held_after xs ≡ UdpSocket.opened)
  unfolding wait_on after_reply settle_with fresh_collection reply_to notice
  reply-probed max parse [] s ready = (refl, ready, λ h. refl)
  reply-probed max parse (arrives peer bytes ∷ xs) s ready =
      (read-read_as max (parse bytes), ready, λ h. refl)
  reply-probed max parse (fails e ∷ xs) s ready = (refl, ready, λ h. refl)
  reply-probed max parse (closes ∷ xs) s (up, holds) = (refl, (up, refl), λ h. absurd cc)
  reply-probed max parse (times_out ∷ xs) s ready = (refl, ready, λ h. refl)
  reply-probed max parse (send_fails e ∷ xs) s ready = (refl, ready, λ h. refl)

  -- The request on an open socket.
  collect-probed :
      (max : ℕ) (env : Surroundings R) (s : UdpClient)
      → IsReady s
      → let (k, t) = collect_responses max env s in
        (as_result k.promise k.responses ≡ probed max env.parse env.incidents)
        × Runs (held_after env.incidents) t
        × (k.promise ≡ some resolved → held_after env.incidents ≡ UdpSocket.opened)
  unfolding collect_responses send_and_wait fresh_collection
  collect-probed max env s ready =
      rw (ready_socket s ready) (reply-probed max env.parse env.incidents s ready)

  probe-probed :
      (max : ℕ) (env : Surroundings R) (s : UdpClient)
      → IsReady s
      → let out = broadcast_probe max env none s in
        (out.0 ≡ probed max env.parse env.incidents)
        × LeavesClient (held_after env.incidents) (probed max env.parse env.incidents) out.1
  unfolding broadcast_probe
  probe-probed max env s ready =
      let (as_described, still, unclosed) = collect-probed max env s ready in
      let concluded =
        conclude-as_result env.close_throws (collect_responses max env s).0
          (held_after env.incidents) (collect_responses max env s).1 still unclosed in
      rw (ready_socket s ready, broadcast_probe) (rw as_described at concluded)

  -- A discovery by its description: the option for broadcasts, then the probe.
  abbrev pub after_option : ℕ → Surroundings R → Option Failure → Discovered R
  after_option max env none = probed max env.parse env.incidents
  after_option max env (some e) = failed e

  abbrev pub described : ℕ → Surroundings R → Ended → Discovered R
  described max env returned = after_option max env env.broadcast_throws
  described max env pending = waiting
  described max env (threw e) = failed e

  -- The socket of a client that has bound, after the option and the probe.
  abbrev pub held_in : Surroundings R → Option Failure → UdpSocket
  held_in env none = held_after env.incidents
  held_in env (some e) = UdpSocket.opened

  -- The client after a discovery whose bind ended so.
  abbrev pub LeavesAfter : Surroundings R → Ended → Discovered R → UdpClient → Type 0
  LeavesAfter env returned r s = LeavesClient (held_in env env.broadcast_throws) r s
  LeavesAfter env pending r s = EndsAs pending s
  LeavesAfter env (threw e) r s = EndsAs (threw e) s

  option-after_option :
      (max : ℕ) (env : Surroundings R) (throws : Option Failure) (s : UdpClient)
      → IsReady s
      → let out = broadcast_probe max env throws s in
        (out.0 ≡ after_option max env throws)
        × LeavesClient (held_in env throws) (after_option max env throws) out.1
  unfolding broadcast_probe
  option-after_option max env none s ready = probe-probed max env s ready
  option-after_option max env (some e) s ready = (refl, ready)

  after_start-described :
      (max : ℕ) (env : Surroundings R) (started : Ended × UdpClient) (e : Ended)
      → started.0 ≡ e
      → EndsAs e started.1
      → let out = after_start max env started in
        (out.0 ≡ described max env e) × LeavesAfter env e (described max env e) out.1
  unfolding after_start
  after_start-described max env (o, s) returned h ready =
      rw (h, set_broadcast_ready env.broadcast_throws s ready)
        (option-after_option max env env.broadcast_throws s ready)
  after_start-described max env (o, s) pending h left = rw h (refl, left)
  after_start-described max env (o, s) (threw e) h left = rw h (refl, left)

module _ {R : Type 0} (c : RetryConfig) (n : ℕ) (budget : c.max_retries ≡ some (suc n)) where
  -- A discovery on a stopped client with a budget of n + 1 attempts to bind comes out as its
  -- description says, and leaves the client as it says: the errors of the binds, of the option for
  -- broadcasts, of the socket and of the send are its errors; the first datagram is the whole
  -- result, unless more than one response is asked for; after the timeout, and after one readable
  -- response of several, it waits for ever, and so it does after a bind error that is not
  -- retryable, if the client has no listener of the event `error`. The client is stopped after a
  -- result only; after another error or while the discovery waits for responses it still runs, on
  -- an open socket unless that was closed; and its state is Error if its start threw.
  pub discover-described :
      (max : ℕ) (env : Surroundings R) (s : UdpClient)
      → s.state ≡ stopped
      → let bound = expected (outcome_of s.hears_errors) env.binds n in
        ((discover c max env s).0 ≡ described max env bound)
        × LeavesAfter env bound (described max env bound) (discover c max env s).1
  unfolding discover
  discover-described max env s idle =
      let (as_expected, left) = start_udp_client-expected c n budget env.binds s idle in
      after_start-described max env (start c env.binds s) _ as_expected left
