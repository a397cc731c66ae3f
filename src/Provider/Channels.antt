-- ===== src/Provider/Channels.antt =====
-- The response channels of a ServiceProvider: getResponseChannel and _releaseResponseChannels
-- (src/provider/service-provider.ts). A call runs to its end before the next one. A new client has no
-- listener of the event `error` while it starts.
pub mod Release
pub mod Opening
pub mod Unasked
pub mod Overlap
mod Tests
use distributed_rpc_js.Common.{
  ℕ, Bool, true, false, not, ◌&&◌, ◌||◌, Option, none, some, List, [], ◌∷◌, ◌++◌, if◌then◌else◌,
  String, str_eq,
}
use distributed_rpc_js.Common.Dict.{Dict, get, set, delete}
use distributed_rpc_js.Types.{PeerIdentity, stopped}
use distributed_rpc_js.Retry.{RetryConfig, Failure, failure, Ended, returned, pending, threw}
use distributed_rpc_js.Network.Client.{TcpClient, Connect, start, stop}

-- A response channel, and whether _handleChannelResponse listens to it.
pub record Channel : Type 0 where
  pub client : TcpClient
  pub is_heard : Bool

-- `chnResp`: the channels by service and by instance.
abbrev pub ChannelPool : Type 0
ChannelPool = Dict (Dict Channel)

-- `new TcpClient(...)`
unfoldable pub new_tcp_client : TcpClient
new_tcp_client = record {
  state = stopped;
  socket = none;
  tx_bytes = 0;
  rx_bytes = 0;
  hears_errors = false;
  events = [];
}

-- What askProviderInfo gives: the information, `undefined`, or a throw.
pub data Asked : Type 0 where
  known unknown : Asked
  failed : Failure → Asked

-- What getResponseChannel gives. `waiting`: the start has not ended.
pub data Got : Type 0 where
  got : Channel → Got
  waiting : Got
  refused : Failure → Got

-- `peer?.service && peer?.instance`
abbrev pub has_target : Option PeerIdentity → Bool
has_target none = false
has_target (some peer) = not (str_eq peer.service "") && not (str_eq peer.instance_id "")

abbrev pub or_empty {ℓ} : {V : Type ℓ} → Option (Dict V) → Dict V
or_empty none = []
or_empty (some m) = m

-- The names that a plain object inherits from Object.prototype. The pool and its services are plain
-- objects, and a read under such a name finds what is inherited: the model is about other names.
abbrev pub inherited_names : List String
inherited_names =
    "constructor" ∷ "__defineGetter__" ∷ "__defineSetter__" ∷ "hasOwnProperty" ∷ "__lookupGetter__"
    ∷ "__lookupSetter__" ∷ "isPrototypeOf" ∷ "propertyIsEnumerable" ∷ "toString" ∷ "valueOf"
    ∷ "__proto__" ∷ "toLocaleString" ∷ []

abbrev pub is_among : String → List String → Bool
is_among name [] = false
is_among name (n ∷ ns) = str_eq name n || is_among name ns

-- A peer neither of whose names is inherited.
abbrev pub is_plain : PeerIdentity → Bool
is_plain peer =
    not (is_among peer.service inherited_names) && not (is_among peer.instance_id inherited_names)

-- `this.chnResp[service]`, which is an empty object where there was none.
abbrev pub channels_of : String → ChannelPool → Dict Channel
channels_of service pool = or_empty (get service pool)

unfoldable pub put_channel : String → String → Channel → ChannelPool → ChannelPool
put_channel service instance_id channel pool =
    set service (set instance_id channel (channels_of service pool)) pool

-- How the start of a new channel ends: the handler is attached after it.
unfoldable pub started_as : Ended × TcpClient → Got × Channel
started_as (returned, client) =
    (got (record { client = client; is_heard = true }), record { client = client; is_heard = true })
started_as (pending, client) = (waiting, record { client = client; is_heard = false })
started_as (threw e, client) = (refused e, record { client = client; is_heard = false })

-- Without a channel: the provider is asked for, and a channel made, stored and started.
unfoldable pub make_channel :
    RetryConfig → List Connect → Asked → String → String → ChannelPool → Got × ChannelPool
unfolding put_channel started_as
make_channel c es unknown service instance_id pool = (refused (failure ""), pool)
make_channel c es (failed e) service instance_id pool = (refused e, pool)
make_channel c es known service instance_id pool =
    let (result, channel) = started_as (start c es new_tcp_client) in
    (result, put_channel service instance_id channel pool)

unfoldable pub channel_to :
    RetryConfig
    → List Connect
    → Asked
    → Option Channel
    → String
    → String
    → ChannelPool
    → Got × ChannelPool
unfolding make_channel
channel_to c es asked (some channel) service instance_id pool = (got channel, pool)
channel_to c es asked none service instance_id pool =
    make_channel c es asked service instance_id pool

-- `getResponseChannel`, with what askProviderInfo gives and what the attempts to connect meet.
unfoldable pub get_response_channel :
    RetryConfig → List Connect → Asked → String → String → ChannelPool → Got × ChannelPool
unfolding channel_to
get_response_channel c es asked service instance_id pool =
    channel_to c es asked (get instance_id (channels_of service pool)) service instance_id
      (set service (channels_of service pool) pool)

unfoldable pub channel_for :
    RetryConfig → List Connect → Asked → Option PeerIdentity → ChannelPool → Got × ChannelPool
channel_for c es asked none pool = (refused (failure ""), pool)
channel_for c es asked (some peer) pool =
    if has_target (some peer)
    then get_response_channel c es asked peer.service peer.instance_id pool
    else (refused (failure ""), pool)

-- `channel.off(...)` and `channel.stop()`
unfoldable pub release_channel : Channel → Channel
release_channel x = record x { client = stop x.client; is_heard = false }

-- `delete this.chnResp[service][instId]`
unfoldable pub delete_in : String → String → ChannelPool → ChannelPool
delete_in service instance_id pool =
    set service (delete instance_id (channels_of service pool)) pool

-- The inner loop, over the entries that a service had when it began.
unfoldable pub release_in : String → Dict Channel → ChannelPool → ChannelPool
unfolding delete_in
release_in service [] pool = pool
release_in service ((i, x) ∷ xs) pool = release_in service xs (delete_in service i pool)

abbrev pub is_empty {ℓ} : {V : Type ℓ} → Dict V → Bool
is_empty [] = true
is_empty (x ∷ m) = false

unfoldable pub drop_if_empty : String → ChannelPool → ChannelPool
drop_if_empty service pool =
    if is_empty (channels_of service pool) then delete service pool else pool

-- The outer loop, over the entries that the pool had when it began.
unfoldable pub release_services : ChannelPool → ChannelPool → ChannelPool
unfolding release_in drop_if_empty
release_services [] pool = pool
release_services ((service, xs) ∷ rest) pool =
    release_services rest (drop_if_empty service (release_in service xs pool))

-- The channels that the loops stop, in their order.
unfoldable pub released_in : Dict Channel → List Channel
unfolding release_channel
released_in [] = []
released_in ((i, x) ∷ xs) = release_channel x ∷ released_in xs

unfoldable pub released : ChannelPool → List Channel
unfolding released_in
released [] = []
released ((service, xs) ∷ rest) = released_in xs ++ released rest

-- `_releaseResponseChannels`: the error that it throws, or nothing.
unfoldable pub release_response_channels : ChannelPool → Option Failure × ChannelPool
unfolding release_services
release_response_channels pool =
    let left = release_services pool pool in
    if is_empty left then (none, left) else (some (failure ""), left)
