-- ===== src/Provider/Channels/Release.antt =====
-- The release of the response channels, ServiceProvider._releaseResponseChannels.
use distributed_rpc_js.Common.{
  ◌≡◌, refl, ap, ◌∙◌, Bool, true, false, Option, none, some, List, [], ◌∷◌, arith, String, str_eq,
  eq_iff, eq_refl, if◌then◌else◌, All, All-append,
}
use distributed_rpc_js.Common.Dict.{
  Dict, get, set, delete, get-set, Distinct, set-Distinct, delete_absent,
}
use distributed_rpc_js.Types.{PeerIdentity, stopped}
use distributed_rpc_js.Retry.{RetryConfig, failure}
use distributed_rpc_js.Network.Client.{Connect, stop}
use distributed_rpc_js.Provider.Channels.{
  Channel, ChannelPool, Asked, known, unknown, failed, Got, channels_of, or_empty, put_channel,
  channel_to, make_channel, get_response_channel, channel_for, has_target, delete_in, release_in,
  release_services, release_response_channels, drop_if_empty, release_channel, released,
  released_in,
}

-- Each service once, and each instance of a service once.
unfoldable pub WellFormed : ChannelPool → Type 0
WellFormed [] = Unit
WellFormed ((service, xs) ∷ pool) = (get service pool ≡ none) × Distinct xs × WellFormed pool

set-WellFormed :
    (k : String) (xs : Dict Channel) (pool : ChannelPool)
    → Distinct xs
    → WellFormed pool
    → WellFormed (set k xs pool)
unfolding set get WellFormed
set-WellFormed k xs [] distinct well = (refl, distinct, tt)
set-WellFormed k xs ((j, ys) ∷ pool) distinct (absent, kept, well) =
    at (str_eq j k) refl (set-WellFormed k xs pool distinct well)
  where
    at :
        (b : Bool)
        → str_eq j k ≡ b
        → WellFormed (set k xs pool)
        → WellFormed (if b then (j, xs) ∷ pool else (j, ys) ∷ set k xs pool)
    at true h later = (absent, distinct, well)
    at false h later =
        (ground (arith, absent, h, get-set k j xs pool, eq_iff k j, eq_iff j k), kept, later)

or_empty-Distinct :
    (k : String) (pool : ChannelPool) → WellFormed pool → Distinct (channels_of k pool)
unfolding get WellFormed Distinct
or_empty-Distinct k [] well = tt
or_empty-Distinct k ((j, ys) ∷ pool) (absent, kept, well) =
    at (str_eq j k) (or_empty-Distinct k pool well)
  where
    at :
        (b : Bool)
        → Distinct (channels_of k pool)
        → Distinct (or_empty (if b then some ys else get k pool))
    at true later = kept
    at false later = later

put_channel-WellFormed :
    (service i : String) (x : Channel) (pool : ChannelPool)
    → WellFormed pool
    → WellFormed (put_channel service i x pool)
unfolding put_channel
put_channel-WellFormed service i x pool well =
    set-WellFormed service _ pool
      (set-Distinct i x (channels_of service pool) (or_empty-Distinct service pool well)) well

channel_to-WellFormed :
    (c : RetryConfig) (es : List Connect) (asked : Asked) (o : Option Channel) (service i : String)
    (pool : ChannelPool)
    → WellFormed pool
    → WellFormed (channel_to c es asked o service i pool).1
unfolding channel_to make_channel
channel_to-WellFormed c es asked (some x) service i pool well = well
channel_to-WellFormed c es known none service i pool well =
    put_channel-WellFormed service i _ pool well
channel_to-WellFormed c es unknown none service i pool well = well
channel_to-WellFormed c es (failed e) none service i pool well = well

-- A call of getResponseChannel.
pub record Call : Type 0 where
  pub connects : List Connect
  pub asked : Asked
  pub peer : Option PeerIdentity

unfoldable pub call_all : RetryConfig → List Call → ChannelPool → ChannelPool
call_all c [] pool = pool
call_all c (x ∷ xs) pool = call_all c xs (channel_for c x.connects x.asked x.peer pool).1

channel_for-WellFormed :
    (c : RetryConfig) (es : List Connect) (asked : Asked) (peer : Option PeerIdentity)
    (pool : ChannelPool)
    → WellFormed pool
    → WellFormed (channel_for c es asked peer pool).1
unfolding channel_for get_response_channel
channel_for-WellFormed c es asked none pool well = well
channel_for-WellFormed c es asked (some peer) pool well = at (has_target (some peer))
  where
    at :
        (b : Bool)
        → WellFormed
            (if b
              then get_response_channel c es asked peer.service peer.instance_id pool
              else (Got.refused (failure ""), pool)).1
    at true =
        channel_to-WellFormed c es asked _ peer.service peer.instance_id _
          (set-WellFormed peer.service _ pool (or_empty-Distinct peer.service pool well) well)
    at false = well

call_all-WellFormed :
    (c : RetryConfig) (xs : List Call) (pool : ChannelPool)
    → WellFormed pool
    → WellFormed (call_all c xs pool)
unfolding call_all
call_all-WellFormed c [] pool well = well
call_all-WellFormed c (x ∷ xs) pool well =
    call_all-WellFormed c xs _ (channel_for-WellFormed c x.connects x.asked x.peer pool well)

-- The first channel of the first service is deleted.
delete_in-first :
    (service i : String) (x : Channel) (xs : Dict Channel) (rest : ChannelPool)
    → get i xs ≡ none
    → delete_in service i ((service, (i, x) ∷ xs) ∷ rest) ≡ (service, xs) ∷ rest
unfolding delete_in get set delete
delete_in-first service i x xs rest absent =
    rw (eq_refl service, eq_refl i, delete_absent i xs absent) refl

-- The inner loop empties the first service of the pool.
release_in-first :
    (service : String) (xs : Dict Channel) (rest : ChannelPool)
    → Distinct xs
    → release_in service xs ((service, xs) ∷ rest) ≡ (service, []) ∷ rest
unfolding release_in Distinct
release_in-first service [] rest distinct = refl
release_in-first service ((i, x) ∷ xs) rest (absent, distinct) =
    ap (release_in service xs) (delete_in-first service i x xs rest absent)
    ∙ release_in-first service xs rest distinct

drop_if_empty-first :
    (service : String) (rest : ChannelPool)
    → get service rest ≡ none
    → drop_if_empty service ((service, []) ∷ rest) ≡ rest
unfolding drop_if_empty get delete
drop_if_empty-first service rest absent =
    rw (eq_refl service, delete_absent service rest absent) refl

release_services-empty : (pool : ChannelPool) → WellFormed pool → release_services pool pool ≡ []
unfolding release_services WellFormed
release_services-empty [] well = refl
release_services-empty ((service, xs) ∷ rest) (absent, distinct, well) =
    ap (λ p. release_services rest (drop_if_empty service p))
      (release_in-first service xs rest distinct)
    ∙ (ap (release_services rest) (drop_if_empty-first service rest absent)
        ∙ release_services-empty rest well)

-- A channel that is stopped and that nobody listens to.
abbrev pub IsReleased : Channel → Type 0
IsReleased x = (x.client.state ≡ stopped) × (x.is_heard ≡ false)

release_channel-IsReleased : (x : Channel) → IsReleased (release_channel x)
unfolding release_channel stop
release_channel-IsReleased x = ground arith

released_in-IsReleased : (xs : Dict Channel) → All IsReleased (released_in xs)
unfolding released_in
released_in-IsReleased [] = tt
released_in-IsReleased ((i, x) ∷ xs) = (release_channel-IsReleased x, released_in-IsReleased xs)

released-IsReleased : (pool : ChannelPool) → All IsReleased (released pool)
unfolding released
released-IsReleased [] = tt
released-IsReleased ((service, xs) ∷ rest) =
    All-append IsReleased (released_in xs) (released rest) (released_in-IsReleased xs)
      (released-IsReleased rest)

-- After any calls for response channels from an empty pool, their release throws nothing and leaves
-- the pool empty, and each channel that it released is stopped and not listened to any more.
pub release-empty :
    (c : RetryConfig) (xs : List Call)
    → let pool = call_all c xs [] in
      (release_response_channels pool ≡ (none, [])) × All IsReleased (released pool)
unfolding release_response_channels WellFormed
release-empty c xs =
    let pool = call_all c xs [] in
    let empty = release_services-empty pool (call_all-WellFormed c xs [] tt) in
    (rw empty refl, released-IsReleased pool)
