-- ===== src/Provider/ApiPath/Pushed.antt =====
-- ServiceProvider._handleChannelResponse (src/provider/service-provider.ts): a message that comes in on
-- a response channel calls the function that its path names. What the function does is left out.
use distributed_rpc_js.Common.{◌≡◌, Option, none, some, List, [], ◌∷◌, String}
use distributed_rpc_js.Provider.ApiPath.{
  Api, fn, obj, object_prototype, other, child, Spec, read_spec, found, walk, split_path, step_in,
  descend,
}
use distributed_rpc_js.Types.{ApiSpec}
use distributed_rpc_js.Provider.Request.{Json, bad_json, not_object, message}

-- The loop over the segments, and the test for a function behind it: `none` is a warning.
unfoldable pub find_api : List String → Api → Option String
find_api [] (fn f) = some f
find_api [] (obj ms) = none
find_api [] object_prototype = none
find_api [] other = none
find_api (k ∷ ks) a = elim (child k a) [ none ↦ none | some b ↦ find_api ks b ]

-- A message without a path is a TypeError, which the `catch` takes for bad JSON.
abbrev pub find_at : Option String → Api → Option String
find_at none apis = none
find_at (some path) apis = find_api (split_path path) apis

-- The function that is called, if one is.
unfoldable pub handle_channel_response : {A : Type 0} → Json A → Api → Option String
unfolding find_api
handle_channel_response bad_json apis = none
handle_channel_response not_object apis = none
handle_channel_response (message m) apis = find_at m.api apis

-- A function that the API channel finds at a path is the one that a response channel calls there.
pub walk-find_api :
    (ks : List String) (a : Api) (s : Spec) (f : String) (sp : Option ApiSpec)
    → walk ks a s ≡ found f sp
    → find_api ks a ≡ some f
unfolding walk find_api step_in descend
walk-find_api [] (fn g) s f sp h = cc
walk-find_api [] (obj ms) s f sp h = cc
walk-find_api [] object_prototype s f sp h = cc
walk-find_api [] other s f sp h = cc
walk-find_api (k ∷ ks) a s f sp h =
    at (child k a) (read_spec k s) h (λ b t. walk-find_api ks b t f sp)
  where
    at :
        (o : Option Api) (t : Option Spec)
        → step_in o t (walk ks) ≡ found f sp
        → ((b : Api) (u : Spec) → walk ks b u ≡ found f sp → find_api ks b ≡ some f)
        → (elim o [ none ↦ none | some b ↦ find_api ks b ]) ≡ some f
    at none t e later = cc
    at (some b) none e later = cc
    at (some b) (some u) e later = later b u e
