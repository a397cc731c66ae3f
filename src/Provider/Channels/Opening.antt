-- ===== src/Provider/Channels/Opening.antt =====
-- The channels that getResponseChannel gives, src/provider/service-provider.ts.
use distributed_rpc_js.Common.{
  ℕ, suc, ◌≡◌, ◌≢◌, ◌⊎◌, inl, inr, refl, ap, ◌∙◌, Bool, true, false, Option, none, some, List,
  String, str_eq, eq_iff, if◌then◌else◌,
}
use distributed_rpc_js.Common.Dict.{Dict, get, set, get-set, get-set_self, get-set_ne}
use distributed_rpc_js.Types.{ExecutionState, PeerIdentity}
use distributed_rpc_js.Retry.{RetryConfig, Failure, Ended, returned, pending, threw}
use distributed_rpc_js.Retry.Quiet.{expected}
use distributed_rpc_js.Network.Client.{Connect, TcpClient, start, get_socket}
use distributed_rpc_js.Network.Client.Starting.{outcome_of, start_client-expected}
use distributed_rpc_js.Provider.Channels.{
  Channel, ChannelPool, Asked, known, unknown, failed, Got, got, refused, channels_of, put_channel,
  channel_to, make_channel, get_response_channel, channel_for, has_target, is_plain, new_tcp_client,
  started_as,
}

-- The channel stored for an instance of a service.
abbrev pub stored : PeerIdentity → ChannelPool → Option Channel
stored peer pool = get peer.instance_id (channels_of peer.service pool)

stored-put_self :
    (peer : PeerIdentity) (x : Channel) (pool : ChannelPool)
    → stored peer (put_channel peer.service peer.instance_id x pool) ≡ some x
unfolding put_channel
stored-put_self peer x pool =
    let xs = set peer.instance_id x (channels_of peer.service pool) in
    let put = get-set_self peer.service xs pool in
    rw put (get-set_self peer.instance_id x (channels_of peer.service pool))

-- `stored` after the entry of a service was set.
stored-set :
    (peer : PeerIdentity) (service : String) (xs : Dict Channel) (pool : ChannelPool)
    → stored peer (set service xs pool)
      ≡ (if str_eq service peer.service then get peer.instance_id xs else stored peer pool)
stored-set peer service xs pool =
    at (str_eq service peer.service) (get-set service peer.service xs pool)
  where
    at :
        (b : Bool)
        → get peer.service (set service xs pool) ≡ (if b then some xs else get peer.service pool)
        → stored peer (set service xs pool)
          ≡ (if b then get peer.instance_id xs else stored peer pool)
    at true h = rw h refl
    at false h = rw h refl

-- An instance of a service, told apart by its name or by its id.
abbrev pub Other : PeerIdentity → PeerIdentity → Type 0
Other peer other = (peer.service ≢ other.service) ⊎ (peer.instance_id ≢ other.instance_id)

pub stored-set_same :
    (service : String) (other : PeerIdentity) (pool : ChannelPool)
    → stored other (set service (channels_of service pool) pool) ≡ stored other pool
stored-set_same service other pool =
    at (str_eq service other.service) refl
      (stored-set other service (channels_of service pool) pool)
  where
    at :
        (b : Bool)
        → str_eq service other.service ≡ b
        → stored other (set service (channels_of service pool) pool)
          ≡ (if b then get other.instance_id (channels_of service pool) else stored other pool)
        → stored other (set service (channels_of service pool) pool) ≡ stored other pool
    at true h e =
        e
        ∙ ap (λ k. get other.instance_id (channels_of k pool)) ((eq_iff service other.service).0 h)
    at false h e = e

put_elsewhere :
    (peer other : PeerIdentity) (x : Channel) (pool : ChannelPool)
    → Other peer other
    → stored other (put_channel peer.service peer.instance_id x pool) ≡ stored other pool
unfolding put_channel
put_elsewhere peer other x pool apart =
    at (str_eq peer.service other.service) refl
      (stored-set other peer.service (set peer.instance_id x (channels_of peer.service pool)) pool)
  where
    at :
        (b : Bool)
        → str_eq peer.service other.service ≡ b
        → stored other
            (set peer.service (set peer.instance_id x (channels_of peer.service pool)) pool)
          ≡ (if b
              then get other.instance_id (set peer.instance_id x (channels_of peer.service pool))
              else stored other pool)
        → stored other
            (set peer.service (set peer.instance_id x (channels_of peer.service pool)) pool)
          ≡ stored other pool
    at true h e = elim apart [
      | inl ne ↦ absurd (ne ((eq_iff peer.service other.service).0 h))
      | inr ne ↦
          e
          ∙ (get-set_ne peer.instance_id other.instance_id x (channels_of peer.service pool) ne
              ∙ ap (λ k. get other.instance_id (channels_of k pool))
                  ((eq_iff peer.service other.service).0 h))
    ]
    at false h e = e

-- What one call does, by the channel that was stored before.
module _ (c : RetryConfig) (es : List Connect) (asked : Asked) (peer : PeerIdentity) where
  -- The channel that is given is stored, and the other instances keep theirs.
  Follows : Got × ChannelPool → ChannelPool → Type 0
  Follows out pool =
      ((x : Channel) → out.0 ≡ got x → stored peer out.1 ≡ some x)
      × ((other : PeerIdentity) → Other peer other → stored other out.1 ≡ stored other pool)

  started_as-got :
      (s : Ended × TcpClient) (x : Channel) → (started_as s).0 ≡ got x → (started_as s).1 ≡ x
  unfolding started_as
  started_as-got (returned, client) x h = cc
  started_as-got (pending, client) x h = cc
  started_as-got (threw e, client) x h = cc

  channel_to-Follows :
      (o : Option Channel) (pool : ChannelPool)
      → stored peer pool ≡ o
      → Follows (channel_to c es asked o peer.service peer.instance_id pool) pool
  unfolding channel_to Follows
  channel_to-Follows (some y) pool h = (λ x e. cc, λ other apart. refl)
  channel_to-Follows none pool h = at asked
    where
      at : (a : Asked) → Follows (make_channel c es a peer.service peer.instance_id pool) pool
      at known = (
        λ x e. stored-put_self peer _ pool ∙ ap some (started_as-got _ x e),
        λ other apart. put_elsewhere peer other _ pool apart,
      )
      at unknown = (λ x e. cc, λ other apart. refl)
      at (failed e') = (λ x e. cc, λ other apart. refl)

  channel_for_named :
      (pool : ChannelPool)
      → has_target (some peer) ≡ true
      → channel_for c es asked (some peer) pool
        ≡ channel_to c es asked
            (stored peer pool)
            peer.service
            peer.instance_id
            (set peer.service (channels_of peer.service pool) pool)
  unfolding channel_for get_response_channel
  channel_for_named pool named = rw named refl

  channel_for-Follows :
      (pool : ChannelPool)
      → has_target (some peer) ≡ true
      → Follows (channel_for c es asked (some peer) pool) pool
  unfolding Follows
  channel_for-Follows pool named =
      let opened = set peer.service (channels_of peer.service pool) pool in
      let same = stored-set_same peer.service peer pool in
      let (kept, frame) = channel_to-Follows (stored peer pool) opened same in
      rw (channel_for_named pool named)
        (kept, λ other apart. frame other apart ∙ stored-set_same peer.service other pool)

  -- A stored channel is given as it is.
  stored-given :
      (x : Channel) (pool : ChannelPool)
      → has_target (some peer) ≡ true
      → stored peer pool ≡ some x
      → (channel_for c es asked (some peer) pool).0 ≡ got x
  unfolding channel_to
  stored-given x pool named h = rw (channel_for_named pool named, h) refl

module _ (c c' : RetryConfig) (es es' : List Connect) (asked asked' : Asked) (peer : PeerIdentity)
    (pool : ChannelPool) (named : has_target (some peer) ≡ true) where
  -- A channel that was given is given again to the same peer, whatever the environment does, and
  -- the other peers keep theirs.
  pub channel_kept :
      (x : Channel) (other : PeerIdentity)
      → (channel_for c es asked (some peer) pool).0 ≡ got x
      → Other peer other
      → let later = (channel_for c es asked (some peer) pool).1 in
        ((channel_for c' es' asked' (some peer) later).0 ≡ got x)
        × (stored other later ≡ stored other pool)
  unfolding Follows
  channel_kept x other given apart =
      let (kept, frame) = channel_for-Follows c es asked peer pool named in
      let later = (channel_for c es asked (some peer) pool).1 in
      (stored-given c' es' asked' peer x later named (kept x given), frame other apart)

pub no_socket : (s : TcpClient) → s.state ≡ ExecutionState.error → get_socket s ≡ none
unfolding get_socket
no_socket s h = rw h refl

started_as-threw :
    (s : Ended × TcpClient) (e : Failure)
    → s.0 ≡ threw e
    → started_as s ≡ (refused e, record { client = s.1; is_heard = false })
unfolding started_as
started_as-threw (o, client) e h = rw h refl

-- The call for an instance without a channel, by how the start of the new channel ends.
made_channel :
    (c : RetryConfig) (es : List Connect) (peer : PeerIdentity) (pool : ChannelPool)
    → has_target (some peer) ≡ true
    → stored peer pool ≡ none
    → {r : Got} {x : Channel} → started_as (start c es new_tcp_client) ≡ (r, x)
    → channel_for c es known (some peer) pool ≡ (
      r,
      put_channel peer.service peer.instance_id x
          (set peer.service (channels_of peer.service pool) pool),
    )
unfolding channel_to make_channel
made_channel c es peer pool named absent made =
    let opened = set peer.service (channels_of peer.service pool) pool in
    channel_for_named c es known peer pool named
    ∙ (ap (λ o. channel_to c es known o peer.service peer.instance_id opened) absent
        ∙ ap (λ p. (p.0, put_channel peer.service peer.instance_id p.1 opened)) made)

module _ (c c' : RetryConfig) (n : ℕ) (budget : c.max_retries ≡ some (suc n))
    (es es' : List Connect) (asked' : Asked) (peer : PeerIdentity) (pool : ChannelPool)
    (named : has_target (some peer) ≡ true) where
  -- If the start of a new response channel, which has no listener of the event `error`, throws
  -- after its budget of n + 1 attempts, for a peer whose names no plain object inherits, the call
  -- throws the same, and the next call for that peer gives the unstarted client without a socket
  -- that nobody listens to, whatever its environment does.
  pub failed_channel_given :
      (e : Failure)
      → is_plain peer ≡ true
      → stored peer pool ≡ none
      → expected (outcome_of false) es n ≡ threw e
      → let (first, later) = channel_for c es known (some peer) pool in
        let client = (start c es new_tcp_client).1 in
        (first ≡ refused e)
        × ((channel_for c' es' asked' (some peer) later).0
            ≡ got (record { client = client; is_heard = false }))
        × (get_socket client ≡ none)
  unfolding new_tcp_client
  failed_channel_given e plain absent fails =
      let (as_expected, left) = start_client-expected c n budget es new_tcp_client refl in
      let made = started_as-threw (start c es new_tcp_client) e (as_expected ∙ fails) in
      let opened = made_channel c es peer pool named absent made in
      let later = (channel_for c es known (some peer) pool).1 in
      (
        ap (λ p. p.0) opened,
        stored-given c' es' asked' peer _ later named
            (ap (λ p. stored peer p.1) opened ∙ stored-put_self peer _ _),
        no_socket (start c es new_tcp_client).1 (rw fails at left),
      )
