-- ===== src/Provider/ApiPath.antt =====
-- API paths: ServiceProvider._parseRequest (src/provider/service-provider.ts), and the nested
-- objects `apis` and `PROTOCOL.apis` that it walks.
pub mod Segments
pub mod Pushed
use Prim.Native.Char.{Char, code}
use Prim.Native.String
use Prim.Native.String.{String, [], ◌∷◌}
use mathlib.Core.List
use mathlib.Core.List.{List}
use distributed_rpc_js.Common.{
  ◌≡◌, ◌≢◌, refl, Bool, true, false, ◌||◌, Option, none, some, arith, if◌then◌else◌, str_eq, eq_iff,
  ◌==◌, All,
}
use distributed_rpc_js.Types.{ApiSpec, ApiCall, PeerIdentity, AckType}

abbrev push : String → Char → String
push s c = String.◌++◌ s (c ∷ [])

-- `filter(Boolean)` drops the empty segment.
abbrev pub keep : String → List String → List String
keep segment rest = if str_eq segment "" then rest else List.◌∷◌ segment rest

segments : String → String → List String
segments cur [] = keep cur List.[]
segments cur (c ∷ s) =
    let closed = keep cur (segments "" s) in
    let longer = segments (push cur c) s in if code c == b'/' then closed else longer

-- `api.split("/").filter(Boolean)`
unfoldable pub split_path : String → List String
unfolding segments
split_path api = segments "" api

-- A value inside `apis`: a function by its name, an object, Object.prototype, or anything else
-- (null too).
mutual
  pub data Api : Type 0 where
    fn : String → Api
    obj : Members → Api
    object_prototype other : Api

  pub data Members : Type 0 where
    nil : Members
    member : String → Api → Members → Members

unfoldable pub own : String → Members → Option Api
own k nil = none
own k (member j a ms) = if str_eq j k then some a else own k ms

-- The functions that every object inherits.
abbrev pub inherited : String → Bool
inherited k =
    str_eq k "constructor"
    || (str_eq k "hasOwnProperty"
        || (str_eq k "isPrototypeOf"
            || (str_eq k "propertyIsEnumerable"
                || (str_eq k "toLocaleString"
                    || (str_eq k "toString"
                        || (str_eq k "valueOf"
                            || (str_eq k "__defineGetter__"
                                || (str_eq k "__defineSetter__"
                                    || (str_eq k "__lookupGetter__"
                                        || str_eq k "__lookupSetter__")))))))))

abbrev pub inherit : String → Api → Option Api
inherit k proto =
    if inherited k then some (fn k) else if str_eq k "__proto__" then some proto else none

abbrev pub or_inherit : Option Api → String → Option Api
or_inherit none k = inherit k object_prototype
or_inherit (some a) k = some a

-- `typeof api === "object" && path in api`, and then `api[path]`.
unfoldable pub child : String → Api → Option Api
unfolding own
child k (fn f) = none
child k (obj ms) = or_inherit (own k ms) k
child k object_prototype = inherit k other
child k other = none

-- A value inside `PROTOCOL.apis`. A `leaf` is a value with no properties of its own to follow.
mutual
  pub data Spec : Type 0 where
    spec : ApiSpec → Spec
    group : Specs → Spec
    leaf undefined : Spec

  pub data Specs : Type 0 where
    nil : Specs
    entry : String → Spec → Specs → Specs

unfoldable pub own_spec : String → Specs → Spec
own_spec k nil = if inherited k then leaf else undefined
own_spec k (entry j s ss) = if str_eq j k then s else own_spec k ss

-- `apiSpec[path]`: `none` is the TypeError of reading from undefined.
unfoldable pub read_spec : String → Spec → Option Spec
unfolding own_spec
read_spec k undefined = none
read_spec k leaf = some undefined
read_spec k (group ss) = some (own_spec k ss)
read_spec k (spec s) =
    some (if str_eq k "request" || (str_eq k "response" || str_eq k "ack") then leaf else undefined)

-- The specification that `response` reads; without an `ack` of its own it asks for an answer.
abbrev pub to_spec : Spec → Option ApiSpec
to_spec undefined = none
to_spec (spec s) = some s
to_spec (group ss) = some (record { request = ""; response = ""; ack = AckType.single })
to_spec leaf = some (record { request = ""; response = ""; ack = AckType.single })

pub data Parsed : Type 0 where
  not_found type_error : Parsed
  system : String → Parsed
  found : String → Option ApiSpec → Parsed

-- The specification's side of one step of the walk, and the rest of the walk.
descend : Option Spec → (Spec → Parsed) → Parsed
descend none rest = type_error
descend (some s) rest = rest s

step_in : Option Api → Option Spec → (Api → Spec → Parsed) → Parsed
unfolding descend
step_in none s rest = not_found
step_in (some a) s rest = descend s (rest a)

-- The loop over the segments, and the test for a function behind it.
unfoldable pub walk : List String → Api → Spec → Parsed
unfolding step_in
walk List.[] (fn f) s = found f (to_spec s)
walk List.[] (obj ms) s = not_found
walk List.[] object_prototype s = not_found
walk List.[] other s = not_found
walk (List.◌∷◌ k ks) a s = step_in (child k a) (read_spec k s) (walk ks)

-- `apiPath.length == 2 && apiPath[0] === "sys"`
unfoldable pub dispatch_path : List String → Api → Spec → Parsed
dispatch_path (List.◌∷◌ a (List.◌∷◌ b List.[])) apis specs =
    if str_eq a "sys" then system b else walk (List.◌∷◌ a (List.◌∷◌ b List.[])) apis specs
dispatch_path path apis specs = walk path apis specs

-- A missing peer or path is a TypeError.
unfoldable pub parse_parts : Option PeerIdentity → Option String → Api → Spec → Parsed
parse_parts none api apis specs = type_error
parse_parts (some peer) none apis specs = type_error
parse_parts (some peer) (some api) apis specs = dispatch_path (split_path api) apis specs

unfoldable pub parse_request : {A : Type 0} → ApiCall A → Api → Spec → Parsed
unfolding parse_parts
parse_request call apis specs = parse_parts call.peer call.api apis specs
