-- ===== src/Manager/Tests.antt =====
-- Runs of the service manager's stores, and instances of the theorems.
use distributed_rpc_js.Common.{ℕ, ◌≡◌, refl, none, some, List, [], ◌∷◌}
use distributed_rpc_js.Types.{PeerIdentity, ApiCall}
use distributed_rpc_js.Manager.{
  ServiceManager, RegisterInfo, get_reports, get_reported_instances, get_register_info, push_report,
  get_in, set_in, got_report, clear_reports, all_peers,
}
use distributed_rpc_js.Common.Dict.{get, set, delete}
use distributed_rpc_js.Manager.Recent.{recent}
use distributed_rpc_js.Manager.Reports.{
  Event, report, clear, apply_all, apply, history_from, get_reports-apply_all,
}
use distributed_rpc_js.Manager.Registry.{latest, register_all, get_register_info-register_all}

abbrev empty : ServiceManager ℕ ℕ
empty = record { services = []; reports = [] }

abbrev alpha : PeerIdentity
alpha = record { service = "alpha"; instance_id = "1" }

abbrev beta : PeerIdentity
beta = record { service = "beta"; instance_id = "1" }

abbrev traffic : List (Event ℕ)
traffic = report alpha 10 ∷ report beta 20 ∷ clear alpha ∷ report alpha 11 ∷ report alpha 12 ∷ []

traffic_reports :
    (get_reports alpha (apply_all traffic empty) ≡ 11 ∷ 12 ∷ [])
    × (get_reported_instances (apply_all traffic empty) ≡ beta ∷ alpha ∷ [])
unfolding apply_all apply get_reports got_report clear_reports get_in set_in get set delete
    push_report get_reported_instances all_peers
traffic_reports = (refl, refl)

no_reports : get_reports alpha empty ≡ recent {R = ℕ} []
unfolding get_reports get_in get
no_reports = refl

get_reports-apply_all_example :
    get_reports alpha (apply_all traffic empty) ≡ recent (history_from alpha [] traffic)
get_reports-apply_all_example = get_reports-apply_all alpha traffic [] empty no_reports

abbrev registration : ℕ → ApiCall (RegisterInfo ℕ)
registration port = record {
  peer = some beta;
  api = some "register";
  args = record { name = "alpha"; id = "1"; provider = port };
  msg_id = none;
  promise = none;
}

get_register_info-register_all_example :
    (get_register_info alpha (register_all (registration 1 ∷ registration 2 ∷ []) empty)
      ≡ latest alpha (get_register_info alpha empty) (registration 1 ∷ registration 2 ∷ []))
    × ((register_all (registration 1 ∷ registration 2 ∷ []) empty).reports ≡ [])
get_register_info-register_all_example =
    get_register_info-register_all (registration 1 ∷ registration 2 ∷ []) alpha empty
