-- ===== src/Manager.antt =====
-- src/manager/service-manager.ts: the registry of providers and the reports that they send.
-- A registration and a report are of the parameter types I and R. Keys are the names and ids that
-- providers carry, not the names of inherited properties of an object.
pub mod Recent
pub mod Listener
pub mod Hooks
pub mod Reports
pub mod Registry
mod Tests
use distributed_rpc_js.Common.{
  ℕ, Bool, true, false, Option, none, some, List, [], ◌∷◌, ◌++◌, if◌then◌else◌, String, ltb, length,
  drop, get_last?, map,
}
use distributed_rpc_js.Common.Dict.{Dict, get, set, delete}
use distributed_rpc_js.Types.{PeerIdentity, ApiCall}

-- interface RegisterInfo: what the registry reads of it, and all of it.
pub record RegisterInfo (I : Type 0) : Type 0 where
  pub name : String
  pub id : String
  pub provider : I

-- The maps `_services` and `_reports`, by service name and then by instance id.
pub record ServiceManager (I R : Type 0) : Type 0 where
  pub services : Dict (Dict (RegisterInfo I))
  pub reports : Dict (Dict (List R))

abbrev pub max_reports : ℕ
max_reports = 60

-- `map.get(key) || {}`
abbrev pub group_or_empty {ℓ} : {V : Type ℓ} → Option (Dict V) → Dict V
group_or_empty none = []
group_or_empty (some g) = g

abbrev pub list_or_empty {ℓ} : {V : Type ℓ} → Option (List V) → List V
list_or_empty none = []
list_or_empty (some l) = l

-- A value under two keys.
unfoldable pub get_in {ℓ} : {V : Type ℓ} → PeerIdentity → Dict (Dict V) → Option V
get_in p m = get p.instance_id (group_or_empty (get p.service m))

-- The group is made if it is missing, and the value put into it.
unfoldable pub set_in {ℓ} : {V : Type ℓ} → PeerIdentity → V → Dict (Dict V) → Dict (Dict V)
set_in p v m = set p.service (set p.instance_id v (group_or_empty (get p.service m))) m

-- `push`, and `shift` once there are more than 60.
unfoldable pub push_report {ℓ} : {R : Type ℓ} → List R → R → List R
push_report rs r =
    if ltb max_reports (length (rs ++ r ∷ [])) then drop 1 (rs ++ r ∷ []) else rs ++ r ∷ []

module _ {R : Type 0} where
  -- `if (serviceGroup.size === 0) this._reports.delete(peer.service)`
  unfoldable pub put_or_drop : String → Dict (List R) → Dict (Dict (List R)) → Dict (Dict (List R))
  put_or_drop service [] m = delete service m
  put_or_drop service (e ∷ g) m = set service (e ∷ g) m

  unfoldable pub clear_in :
      Option (Dict (List R)) → PeerIdentity → Dict (Dict (List R)) → Dict (Dict (List R))
  unfolding put_or_drop
  clear_in none peer m = m
  clear_in (some g) peer m = put_or_drop peer.service (delete peer.instance_id g) m

  -- The two nested loops of `getReportedInstances`.
  peers_of : String → Dict (List R) → List PeerIdentity
  peers_of service g = map (λ e. record { service = service; instance_id = e.0 }) g

  unfoldable pub all_peers : Dict (Dict (List R)) → List PeerIdentity
  unfolding peers_of
  all_peers [] = []
  all_peers ((service, g) ∷ m) = peers_of service g ++ all_peers m

unfoldable pub provider_of : {I : Type 0} → Option (RegisterInfo I) → Option I
provider_of none = none
provider_of (some info) = some info.provider

module _ {I R : Type 0} where
  -- The arguments of `gotReport`: `none` is anything but an object. A message with no peer is a
  -- TypeError, which changes nothing either.
  store_report : Option PeerIdentity → Option R → ServiceManager I R → ServiceManager I R
  store_report none r sm = sm
  store_report (some peer) none sm = sm
  store_report (some peer) (some r) sm = record sm {
    reports = set_in peer (push_report (list_or_empty (get_in peer sm.reports)) r) sm.reports;
  }

  unfoldable pub got_report : ApiCall (Option R) → ServiceManager I R → ServiceManager I R
  unfolding store_report
  got_report call sm = store_report call.peer call.args sm

  unfoldable pub get_reports : PeerIdentity → ServiceManager I R → List R
  get_reports peer sm = list_or_empty (get_in peer sm.reports)

  unfoldable pub get_latest_report : PeerIdentity → ServiceManager I R → Option R
  get_latest_report peer sm = get_last? (list_or_empty (get_in peer sm.reports))

  unfoldable pub clear_reports : PeerIdentity → ServiceManager I R → ServiceManager I R
  unfolding clear_in
  clear_reports peer sm = record sm {
    reports = clear_in (get peer.service sm.reports) peer sm.reports;
  }

  unfoldable pub get_reported_instances : ServiceManager I R → List PeerIdentity
  unfolding all_peers
  get_reported_instances sm = all_peers sm.reports

  -- `_putProvider`: the keys are those of the registration, not of the peer that sends it.
  unfoldable pub put_provider : RegisterInfo I → ServiceManager I R → ServiceManager I R
  put_provider info sm = record sm {
    services = set_in (record { service = info.name; instance_id = info.id }) info sm.services;
  }

  -- `registrar`: a message with no peer is a TypeError before anything is stored.
  unfoldable pub registered :
      Option PeerIdentity → RegisterInfo I → ServiceManager I R → ServiceManager I R
  registered none info sm = sm
  registered (some peer) info sm = put_provider info sm

  unfoldable pub registrar : ApiCall (RegisterInfo I) → ServiceManager I R → ServiceManager I R
  unfolding registered put_provider
  registrar call sm = registered call.peer call.args sm

  unfoldable pub get_register_info : PeerIdentity → ServiceManager I R → Option (RegisterInfo I)
  get_register_info peer sm = get_in peer sm.services

  unfoldable pub ask_provider_info : PeerIdentity → ServiceManager I R → Option I
  unfolding provider_of get_register_info
  ask_provider_info peer sm = provider_of (get_register_info peer sm)
