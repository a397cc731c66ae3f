-- ===== src/Provider/Channels/Unasked.antt =====
-- The channels of a provider that does not override askProviderInfo, src/provider/service-provider.ts.
use distributed_rpc_js.Common.{
  ◌≡◌, refl, ◌∙◌, Bool, true, false, Option, none, some, List, [], ◌∷◌, map, if◌then◌else◌,
}
use distributed_rpc_js.Common.Dict.{get}
use distributed_rpc_js.Types.{PeerIdentity}
use distributed_rpc_js.Retry.{RetryConfig, failure}
use distributed_rpc_js.Network.Client.{Connect}
use distributed_rpc_js.Provider.Channels.{
  ChannelPool, Asked, unknown, Got, refused, channel_for, channel_to, make_channel,
  get_response_channel, has_target,
}
use distributed_rpc_js.Provider.Channels.Release.{Call, call_all}
use distributed_rpc_js.Provider.Channels.Opening.{stored, stored-set_same}

-- `askProviderInfo` of ServiceProvider
unfoldable pub ask_provider_info_base : Asked
ask_provider_info_base = unknown

abbrev NoChannels : ChannelPool → Type 0
NoChannels pool = (peer : PeerIdentity) → stored peer pool ≡ none

-- What a call does to a pool without channels.
unasked_call :
    (c : RetryConfig) (es : List Connect) (peer : Option PeerIdentity) (pool : ChannelPool)
    → NoChannels pool
    → let out = channel_for c es ask_provider_info_base peer pool in
      (out.0 ≡ refused (failure "")) × NoChannels out.1
unfolding channel_for get_response_channel channel_to make_channel ask_provider_info_base
unasked_call c es none pool free = (refl, free)
unasked_call c es (some peer) pool free = at (has_target (some peer))
  where
    at :
        (b : Bool)
        → let out : Got × ChannelPool =
            if b
            then get_response_channel c es ask_provider_info_base peer.service peer.instance_id pool
            else (refused (failure ""), pool) in
          (out.0 ≡ refused (failure "")) × NoChannels out.1
    at true =
        let absent = free peer in
        rw absent (refl, λ other. stored-set_same peer.service other pool ∙ free other)
    at false = (refl, free)

abbrev pub base_call : List Connect × Option PeerIdentity → Call
base_call x = record { connects = x.0; asked = ask_provider_info_base; peer = x.1 }

call_all-NoChannels :
    (c : RetryConfig) (xs : List (List Connect × Option PeerIdentity)) (pool : ChannelPool)
    → NoChannels pool
    → NoChannels (call_all c (map base_call xs) pool)
unfolding call_all
call_all-NoChannels c [] pool free = free
call_all-NoChannels c ((es, peer) ∷ xs) pool free =
    call_all-NoChannels c xs _ (unasked_call c es peer pool free).1

-- A provider that does not override `askProviderInfo` refuses every call for a response channel,
-- after any calls made before.
pub unasked_channels-refused :
    (c : RetryConfig) (xs : List (List Connect × Option PeerIdentity)) (es : List Connect)
    (peer : Option PeerIdentity)
    → let pool = call_all c (map base_call xs) [] in
      (channel_for c es ask_provider_info_base peer pool).0 ≡ refused (failure "")
unfolding get
unasked_channels-refused c xs es peer =
    (unasked_call c es peer _ (call_all-NoChannels c xs [] (λ other. refl))).0
