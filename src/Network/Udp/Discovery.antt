-- ===== src/Network/Udp/Discovery.antt =====
-- src/network/udp-discovery.ts (UdpDiscovery), and its creation in src/aop/container.ts. One discovery
-- at a time runs on a client. The correlation id and the durations are left out.
pub mod Outcomes
pub mod Answers
use distributed_rpc_js.Common.{
  ℕ, zero, suc, ltb, leb, Bool, true, false, Option, none, some, List, [], ◌∷◌, ◌++◌, length,
  if◌then◌else◌, String,
}
use distributed_rpc_js.Retry.{
  RetryConfig, Failure, failure, Settled, resolved, rejected, unsettled, Ended, returned, pending,
  threw,
}
use distributed_rpc_js.Network.Udp.{Peer, UdpSocket}
use distributed_rpc_js.Network.Udp.Client.{
  UdpClient, Bind, start, stop, get_ready_socket, set_broadcast, Incident, arrives, send_and_wait,
  Reply, nothing, response, refused,
}

-- What `onMessage` makes of the bytes of a datagram: JSON.parse throws, or gives `null`, which throws
-- as well; the manager or its provider is missing, and `response.manager.provider.name` may give a
-- value all the same (of `0`, `false` or the empty string); or all is there.
pub data Parsed (R : Type 0) : Type 0 where
  unreadable : Parsed R
  incomplete : Option R → Parsed R
  complete : R → Parsed R

-- `DEFAULT_OPTIONS`: the most responses; and the address, which the constructor replaces by a
-- broadcast address of the host, if there is one.
abbrev pub default_max_responses : ℕ
default_max_responses = 0

unfoldable pub default_address : Option String → String
default_address none = "192.168.255.255"
default_address (some broadcast) = broadcast

-- The promise of `_collectResponses`, the responses collected, and whether `onMessage` listens.
pub record Collection (R : Type 0) : Type 0 where
  pub promise : Option Settled
  pub responses : List R
  pub is_listening : Bool

-- The first settlement counts.
abbrev pub settle_as : Option Settled → Settled → Option Settled
settle_as none x = some x
settle_as (some y) x = some y

-- What `discover` gives. `waiting`: it has not settled.
pub data Discovered (R : Type 0) : Type 0 where
  waiting : Discovered R
  found : List R → ℕ → Discovered R
  failed : Failure → Discovered R

-- What the environment does in a discovery: the attempts to bind, what `socket.setBroadcast` and a
-- second `socket.close` throw, how the text of a datagram is read, what happens to the request.
pub record Surroundings (R : Type 0) : Type 0 where
  pub binds : List Bind
  pub broadcast_throws : Option Failure
  pub close_throws : Option Failure
  pub parse : List ℕ → Parsed R
  pub incidents : List Incident

module _ {R : Type 0} where
  unfoldable pub settle_with : Settled → Collection R → Collection R
  settle_with x k = record k { promise = settle_as k.promise x }

  -- `responses.push(response); if (responses.length >= maxResponses) resolve();`
  unfoldable pub push_response : ℕ → R → Collection R → Collection R
  unfolding settle_with
  push_response max r k =
      let pushed : Collection R = record k { responses = k.responses ++ r ∷ [] } in
      if leb max (length pushed.responses) then settle_with resolved pushed else pushed

  -- The `try` of `onMessage`.
  unfoldable pub read_response : ℕ → Parsed R → Collection R → Collection R
  unfolding settle_with push_response
  read_response max unreadable k = settle_with (rejected (failure "")) k
  read_response max (incomplete none) k = settle_with (rejected (failure "")) k
  read_response max (incomplete (some r)) k =
      push_response max r (settle_with (rejected (failure "")) k)
  read_response max (complete r) k = push_response max r k

  -- `onMessage`: the listener is taken away, then the datagram is read.
  unfoldable pub on_message : ℕ → Parsed R → Collection R → Collection R
  on_message max p k =
      if k.is_listening then read_response max p (record k { is_listening = false }) else k

  -- What `sendAndWait` does to the collection: the listener hears of a datagram before the promise
  -- is resolved, and the resolved value is not looked at; a rejection is passed on.
  unfoldable pub after_reply : ℕ → (List ℕ → Parsed R) → Option Reply → Collection R → Collection R
  unfolding settle_with on_message
  after_reply max parse none k = k
  after_reply max parse (some nothing) k = k
  after_reply max parse (some (response peer bytes)) k = on_message max (parse bytes) k
  after_reply max parse (some (refused e)) k = settle_with (rejected e) k

  -- `_collectResponses`
  unfoldable pub collect_responses : ℕ → Surroundings R → UdpClient → Collection R × UdpClient
  unfolding after_reply
  collect_responses max env s = (
    after_reply max env.parse (send_and_wait env.incidents s).0
        (record { promise = none; responses = []; is_listening = true }),
    (send_and_wait env.incidents s).1,
  )

  -- After `_collectResponses`: an error skips the `stop()`, and is thrown on.
  unfoldable pub conclude : Option Failure → Collection R × UdpClient → Discovered R × UdpClient
  conclude throws (k, s) = elim k.promise [
    | none ↦ (waiting, s)
    | some result ↦ elim result [
      | rejected e ↦ (failed e, s)
      | unsettled ↦ (waiting, s)
      | resolved ↦ elim (stop throws s).0 [
        | some e ↦ (failed e, (stop throws s).1)
        | none ↦ (found k.responses (length k.responses), (stop throws s).1)
      ]
    ]
  ]

  -- After `super.start()` and `setBroadcast(true)`, which gives an error or nothing.
  unfoldable pub broadcast_probe :
      ℕ → Surroundings R → Option Failure → UdpClient → Discovered R × UdpClient
  unfolding conclude
  broadcast_probe max env (some e) s = (failed e, s)
  broadcast_probe max env none s = elim (get_ready_socket s) [
    | none ↦ (failed (failure ""), s)
    | some socket ↦ conclude env.close_throws (collect_responses max env s)
  ]

  unfoldable pub after_start : ℕ → Surroundings R → Ended × UdpClient → Discovered R × UdpClient
  unfolding broadcast_probe
  after_start max env (returned, s) =
      broadcast_probe max env (set_broadcast env.broadcast_throws s) s
  after_start max env (pending, s) = (waiting, s)
  after_start max env (threw e, s) = (failed e, s)

  -- `discover`, with its `maxResponses`.
  unfoldable pub discover : RetryConfig → ℕ → Surroundings R → UdpClient → Discovered R × UdpClient
  unfolding after_start
  discover c max env s = after_start max env (start c env.binds s)

  -- `discoverOne`, on the result of `discover` with `maxResponses: 1`.
  unfoldable pub first_of : Discovered R → Discovered R
  first_of waiting = waiting
  first_of (failed e) = failed e
  first_of (found rs zero) = failed (failure "")
  first_of (found [] (suc n)) = found [] (if ltb 0 n then 1 else suc n)
  first_of (found (r ∷ rs) (suc n)) = if ltb 0 n then found (r ∷ []) 1 else found (r ∷ rs) (suc n)

  unfoldable pub discover_one : RetryConfig → Surroundings R → UdpClient → Discovered R × UdpClient
  discover_one c env s = (first_of (discover c 1 env s).0, (discover c 1 env s).1)
