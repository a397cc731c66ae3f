-- ===== src/Manager/Listener.antt =====
-- The broadcast listener of a ServiceManager: _initializeBroadcastListener and
-- buildAccessPointInfo (src/manager/service-manager.ts).
mod Tests
use distributed_rpc_js.Common.{
  ℕ, suc, ◌≡◌, refl, ap, ◌∙◌, Option, none, some, false, List, [], ◌∷◌, String,
}
use distributed_rpc_js.Common.Dict.{Dict, get, set, get-set_self}
use distributed_rpc_js.Types.{stopped}
use distributed_rpc_js.Retry.{RetryConfig, Failure, Ended, returned, pending, threw}
use distributed_rpc_js.Retry.Quiet.{expected}
use distributed_rpc_js.Network.Udp.Server.{UdpServer, Bind}
use distributed_rpc_js.Network.Udp.Server.Starting.{outcome_of}
use distributed_rpc_js.Network.Udp.Broadcast.{
  BroadcastServer, Datagram, set_manager_info, start_broadcast,
}
use distributed_rpc_js.Network.Udp.Broadcast.Probes.{receive_all, replies, start-answers}
use distributed_rpc_js.Procedure.Tasks.{AccessPoint, Outcome, ok, waiting, throws}

-- `buildAccessPointInfo`
unfoldable pub build_access_point_info : AccessPoint → AccessPoint
build_access_point_info base = record base { api = "register" ∷ "report" ∷ [] }

-- `new BroadcastUdpServer(...)`; its address and port are set by the start.
unfoldable pub new_broadcast_server : {I : Type 0} → BroadcastServer I
new_broadcast_server = record {
  server = record {
    state = stopped;
    socket = none;
    address = "";
    port = 0;
    hears_errors = false;
    events = [];
  };
  manager_info = none;
  response_buffer = [];
  sent = [];
}

module _ {I : Type 0} (c : RetryConfig) (address : String) (port : ℕ) (render : I → List ℕ)
    (es : List Bind) (name : String) where
  -- A listener that has started is put among the tasks.
  unfoldable pub keep_started :
      Ended
      → BroadcastServer I
      → Dict (BroadcastServer I)
      → Outcome (BroadcastServer I) × Dict (BroadcastServer I)
  keep_started returned s tasks = (ok s, set name s tasks)
  keep_started pending s tasks = (waiting, tasks)
  keep_started (threw e) s tasks = (throws e, tasks)

  -- `_initializeBroadcastListener`, over the information of the manager, or what getTcpTaskInfo throws.
  unfoldable pub initialize_broadcast_listener :
      Outcome I → Dict (BroadcastServer I) → Outcome (BroadcastServer I) × Dict (BroadcastServer I)
  unfolding keep_started
  initialize_broadcast_listener (throws e) tasks = (throws e, tasks)
  initialize_broadcast_listener waiting tasks = (waiting, tasks)
  initialize_broadcast_listener (ok info) tasks =
      let informed = set_manager_info info new_broadcast_server in
      let (ended, s) = start_broadcast c address port render none es informed in
      keep_started ended s tasks

  -- A broadcast listener whose bind succeeds within a budget of n + 1 attempts is put among the
  -- tasks, and whatever datagrams reach it, if no send of a reply throws, it throws nothing and
  -- sends to the sender of every probe, in their order, the information of the manager, and nothing
  -- to others.
  pub listener-answers :
      (n : ℕ) (decode : List ℕ → String) (sends : Datagram → Option Failure) (ds : List Datagram)
      (info : I) (tasks : Dict (BroadcastServer I))
      → c.max_retries ≡ some (suc n)
      → expected (outcome_of false) es n ≡ returned
      → ((d : Datagram) → sends d ≡ none)
      → let informed = set_manager_info info new_broadcast_server in
        let s = (start_broadcast c address port render none es informed).1 in
        (get name (initialize_broadcast_listener (ok info) tasks).1 ≡ some s)
        × ((receive_all decode sends ds s).0 ≡ none)
        × ((receive_all decode sends ds s).1.sent ≡ replies decode (render info) ds [])
  unfolding initialize_broadcast_listener keep_started set_manager_info new_broadcast_server
  listener-answers n decode sends ds info tasks budget binds sent_all =
      let informed = set_manager_info info new_broadcast_server in
      let (starts, quiet, answers) =
        start-answers c n budget address port render none es decode sends ds info informed refl refl
          sent_all binds in
      let kept =
        get-set_self name (start_broadcast c address port render none es informed).1 tasks in
      (rw starts kept, quiet, answers)
