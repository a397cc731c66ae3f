-- ===== src/Provider/Names.antt =====
-- The texts by which a provider, its peers and their addresses are known, and what it says of its
-- manager: src/provider/service-provider.ts. The text of a number is a parameter.
mod Same
use distributed_rpc_js.Common.{
  ℕ, Bool, true, false, Option, none, some, String, List, str_eq, if◌then◌else◌,
}
use Prim.Native.String.{◌++◌}
use distributed_rpc_js.Types.{PeerIdentity}
use distributed_rpc_js.Retry.{Failure, failure}
use distributed_rpc_js.Procedure.Tasks.{AccessPoint, Outcome, ok, throws}
use distributed_rpc_js.Provider.Identity.{Metadata}

unfoldable pub arrow : Bool → String → String
arrow true msg = "<" ++ msg ++ ">"
arrow false msg = msg

-- `getIdentity`, of the provider of a protocol.
unfoldable pub get_identity : Metadata → Bool → String
unfolding arrow
get_identity provider arrowed = arrow arrowed (provider.name ++ "-" ++ provider.id)

-- `getPeerId`
unfoldable pub get_peer_id : PeerIdentity → Bool → String
unfolding arrow
get_peer_id peer arrowed = arrow arrowed (peer.service ++ "-" ++ peer.instance_id)

-- `getSocketString`
unfoldable pub get_socket_string : (ℕ → String) → String → ℕ → Bool → String
unfolding arrow
get_socket_string show address port arrowed = arrow arrowed (address ++ ":" ++ show port)

-- interface ManagerInfo, over the responses and the client.
pub record ManagerInfo (R C : Type 0) : Type 0 where
  pub manager_info : Option (List R)
  pub manager : Option R
  pub client : Option C

-- `getServiceManager`
unfoldable pub get_service_manager : {R C : Type 0} → Bool → ManagerInfo R C → ManagerInfo R C
get_service_manager true info = record info { client = none }
get_service_manager false info = info

-- `buildAccessPointInfo` of a class that does not override it.
unfoldable pub build_access_point_base : String → AccessPoint → Outcome AccessPoint
build_access_point_base class_name base =
    if str_eq class_name "ServiceProvider"
    then ok base
    else throws (failure "Method buildAccessPointInfo(baseInfo: AccessPoint) is not implemented.")
