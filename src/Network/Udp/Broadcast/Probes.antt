-- ===== src/Network/Udp/Broadcast/Probes.antt =====
-- The starts of a BroadcastUdpServer and its answers to probes, src/network/broadcast-udp-server.ts.
use distributed_rpc_js.Common.{
  ℕ, suc, ◌≡◌, refl, ◌∙◌, ap, Bool, true, false, Option, none, some, List, [], ◌∷◌, if◌then◌else◌,
  String,
}
use distributed_rpc_js.Types.{stopped}
use distributed_rpc_js.Retry.{RetryConfig, Failure, failure, returned, threw}
use distributed_rpc_js.Retry.Quiet.{expected}
use distributed_rpc_js.Network.Udp.{UdpSocket, Peer, close_socket}
use distributed_rpc_js.Network.Udp.Server.{
  UdpServer, Bind, start, stop, get_ready_socket, handle_message,
}
use distributed_rpc_js.Network.Udp.Server.Starting.{IsReady, outcome_of, start_udp_server-expected}
use distributed_rpc_js.Network.Udp.Broadcast.{
  BroadcastServer, Datagram, is_probe, stop_broadcast, start_broadcast, after_start, require_info,
  error_or_missing, receive, reply,
}

-- Datagrams that arrive; a throw ends the run. `sends` is what `socket.send` throws for the reply to a
-- datagram.
unfoldable pub receive_all :
    {I : Type 0}
    → (List ℕ → String)
    → (Datagram → Option Failure)
    → List Datagram
    → BroadcastServer I
    → Option Failure × BroadcastServer I
receive_all decode sends [] s = (none, s)
receive_all decode sends (d ∷ ds) s =
    let rest = receive_all decode sends ds (receive decode (sends d) d.target d.bytes s).1 in
    elim (receive decode (sends d) d.target d.bytes s).0 [
      | none ↦ rest
      | some e ↦ (some e, (receive decode (sends d) d.target d.bytes s).1)
    ]

-- The replies to the probes among these datagrams, the latest first, before those sent earlier.
unfoldable pub replies : (List ℕ → String) → List ℕ → List Datagram → List Datagram → List Datagram
replies decode buffer [] sent = sent
replies decode buffer (d ∷ ds) sent =
    replies decode buffer ds (
      if is_probe decode d.bytes then record { target = d.target; bytes = buffer } ∷ sent else sent)

-- What one datagram does to a server that listens.
abbrev Answers : {I : Type 0} → List ℕ → List Datagram → BroadcastServer I → Type 0
Answers buffer sent t = IsReady t.server × (t.response_buffer ≡ buffer) × (t.sent ≡ sent)

ready_socket : (s : UdpServer) → IsReady s → get_ready_socket s ≡ some UdpSocket.opened
unfolding get_ready_socket
ready_socket s (up, held) = rw up held

handle_message-IsReady :
    (peer : Peer) (bytes : List ℕ) (s : UdpServer)
    → IsReady s
    → IsReady (handle_message peer bytes s)
unfolding handle_message
handle_message-IsReady peer bytes s (up, held) = rw held (up, refl)

receive-Answers :
    {I : Type 0} (decode : List ℕ → String) (d : Datagram) (s : BroadcastServer I)
    → IsReady s.server
    → let out = receive decode none d.target d.bytes s in
      (out.0 ≡ none)
      × Answers s.response_buffer
          (if is_probe decode d.bytes
            then record { target = d.target; bytes = s.response_buffer } ∷ s.sent
            else s.sent)
          out.1
unfolding receive reply
receive-Answers {I} decode d s ready = at (is_probe decode d.bytes)
  where
    at :
        (b : Bool)
        → let out : Option Failure × BroadcastServer I =
            if b
            then (elim (get_ready_socket s.server) [
              | none ↦ (some (failure ""), s)
              | some socket ↦ reply none d.target d.bytes s
            ])
            else (none, s) in
          (out.0 ≡ none)
          × Answers s.response_buffer
              (if b
                then record { target = d.target; bytes = s.response_buffer } ∷ s.sent
                else s.sent)
              out.1
    at true =
        rw (ready_socket s.server ready)
          (refl, (handle_message-IsReady d.target d.bytes s.server ready, refl, refl))
    at false = (refl, (ready, refl, refl))

receive_sent :
    {I : Type 0} (decode : List ℕ → String) (fails : Option Failure) (sent : fails ≡ none)
    (d : Datagram) (s : BroadcastServer I)
    → IsReady s.server
    → let out = receive decode fails d.target d.bytes s in
      (out.0 ≡ none)
      × Answers s.response_buffer
          (if is_probe decode d.bytes
            then record { target = d.target; bytes = s.response_buffer } ∷ s.sent
            else s.sent)
          out.1
receive_sent decode fails sent d s ready = rw (sent) (receive-Answers decode d s ready)

receive_all-replies :
    {I : Type 0} (decode : List ℕ → String) (sends : Datagram → Option Failure)
    (sent_all : (d : Datagram) → sends d ≡ none) (ds : List Datagram) (s : BroadcastServer I)
    → IsReady s.server
    → let out = receive_all decode sends ds s in
      (out.0 ≡ none) × (out.1.sent ≡ replies decode s.response_buffer ds s.sent)
unfolding receive_all replies
receive_all-replies decode sends sent_all [] s ready = (refl, refl)
receive_all-replies decode sends sent_all (d ∷ ds) s ready =
    let (quiet, (still, same, sent)) = receive_sent decode (sends d) (sent_all d) d s ready in
    let later =
      receive_all-replies decode sends sent_all ds (receive decode (sends d) d.target d.bytes s).1
        still in
    rw (quiet, receive_all) (rw (same, sent) at later)

-- What is left of a listening server after its stop.
abbrev cleared : {I : Type 0} → BroadcastServer I → BroadcastServer I
cleared s = record s {
  server = record s.server { state = stopped; socket = none };
  manager_info = none;
  response_buffer = [];
}

stop-cleared :
    {I : Type 0} (throws : Option Failure) (s : BroadcastServer I)
    → IsReady s.server
    → stop_broadcast throws s ≡ (none, cleared s)
unfolding stop_broadcast stop close_socket
stop-cleared throws s (up, held) = rw (up, held) refl

module _ {I : Type 0} (c : RetryConfig) (n : ℕ) (budget : c.max_retries ≡ some (suc n))
    (address : String) (port : ℕ) (render : I → List ℕ) (throws : Option Failure) where
  -- A start of a stopped server with its information, whose bind succeeds, returns; whatever
  -- datagrams arrive then, nothing is thrown, and each probe is answered by the information.
  pub start-answers :
      (es : List Bind) (decode : List ℕ → String) (sends : Datagram → Option Failure)
      (ds : List Datagram) (info : I) (s : BroadcastServer I)
      → s.server.state ≡ stopped
      → s.manager_info ≡ some info
      → ((d : Datagram) → sends d ≡ none)
      → expected (outcome_of s.server.hears_errors) es n ≡ returned
      → let (ended, t) = start_broadcast c address port render throws es s in
        let (error, u) = receive_all decode sends ds t in
        (ended ≡ returned) × (error ≡ none) × (u.sent ≡ replies decode (render info) ds s.sent)
  unfolding start_broadcast after_start require_info
  start-answers es decode sends ds info s idle known sent_all binds =
      let (as_expected, left) =
        start_udp_server-expected c n budget address port es s.server idle in
      let mid = record s { server = (start c address port es s.server).1 } in
      let (quiet, sent) =
        receive_all-replies decode sends sent_all ds (record mid { response_buffer = render info })
          (rw binds at left) in
      let known' : require_info render throws s.manager_info mid
          ≡ (returned, record mid { response_buffer = render info }) =
        ap (λ o. require_info render throws o mid) known in
      rw (as_expected, binds, after_start, known') (refl, quiet, sent)

  start_without_info :
      (es : List Bind) (s : BroadcastServer I)
      → s.server.state ≡ stopped
      → s.manager_info ≡ none
      → expected (outcome_of s.server.hears_errors) es n ≡ returned
      → start_broadcast c address port render throws es s
        ≡ (threw (failure ""), cleared (record s { server = (start c address port es s.server).1 }))
  unfolding start_broadcast after_start require_info
  start_without_info es s idle unknown binds =
      let (as_expected, left) =
        start_udp_server-expected c n budget address port es s.server idle in
      let mid = record s { server = (start c address port es s.server).1 } in
      let refused = ap (λ o. require_info render throws o mid) unknown in
      let stopped_again =
        ap (λ p. (threw (error_or_missing p.0), p.1))
          (stop-cleared throws mid (rw binds at left)) in
      ap (λ e. after_start render throws e mid) (as_expected ∙ binds) ∙ (refused ∙ stopped_again)

  -- A broadcast server that listens and is stopped cannot be started again as it is: the start
  -- binds within its budget of n + 1 attempts, throws for the lack of information, and leaves the
  -- server stopped without a socket and with nothing sent.
  pub restart_refused :
      (es : List Bind) (s : BroadcastServer I)
      → IsReady s.server
      → expected (outcome_of s.server.hears_errors) es n ≡ returned
      → let t = (stop_broadcast throws s).1 in
        let (ended, u) = start_broadcast c address port render throws es t in
        (ended ≡ threw (failure ""))
        × (u.server.state ≡ stopped)
        × (u.server.socket ≡ none)
        × (u.sent ≡ s.sent)
  restart_refused es s ready binds =
      let restarted =
        ap (λ p. start_broadcast c address port render throws es p.1) (stop-cleared throws s ready)
        ∙ start_without_info es (cleared s) refl refl binds in
      (
        ap (λ p. p.0) restarted,
        ap (λ p. p.1.server.state) restarted,
        ap (λ p. p.1.server.socket) restarted,
        ap (λ p. p.1.sent) restarted,
      )
