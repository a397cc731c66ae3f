-- ===== src/Manager/Hooks/Tests.antt =====
-- A manager that is stopped and started again.
use distributed_rpc_js.Common.{◌≡◌, ◌≢◌, refl, arith, true, false, none, [], ◌∷◌, eq_iff}
use distributed_rpc_js.Common.Dict.{get}
use distributed_rpc_js.Types.{running}
use distributed_rpc_js.LifeCycle.{
  channel_api, channel_response, channel_sys, svc_manager, Life, Env, ok, Task, tcp_server,
  other_task, found, sent,
}
use distributed_rpc_js.LifeCycle.Operations.{start, stop}
use distributed_rpc_js.Manager.Hooks.{reception, manager_env, manager_restarted}

abbrev server : Task
server = record { kind = tcp_server; handlers = 1 }

abbrev managing : Life
managing = record {
  state = running;
  initialized = true;
  tasks =
      (channel_response, server)
      ∷ (channel_sys, server)
      ∷ (channel_api, server)
      ∷ (reception, record { kind = other_task; handlers = 0 })
      ∷ [];
  discovery = false;
  register = false;
  manager_known = false;
  report_timer = false;
  mgr_errors = 0;
  events = [];
}

abbrev calm : Env
calm = record {
  hook = λ h ts. (none, ts);
  server_fails = λ name. none;
  stop_fails = λ name. false;
  release_fails = none;
  discovered = found;
  reported = sent;
  report_enabled = true;
}

response≢api : channel_response ≢ channel_api
response≢api e = ground (arith, eq_iff channel_response channel_api)

response≢reception : channel_response ≢ reception
response≢reception e = ground (arith, eq_iff channel_response reception)

response≢mgr : channel_response ≢ svc_manager
response≢mgr e = ground (arith, eq_iff channel_response svc_manager)

manager_restarted_example :
    let again = manager_env calm none refl refl in
    let (result, t) = start again (stop again managing).1 in
    (result ≡ ok true) × (t.state ≡ running) × (get channel_response t.tasks ≡ none)
manager_restarted_example =
    manager_restarted calm none refl refl channel_response managing response≢api response≢reception
      response≢mgr refl refl refl refl
