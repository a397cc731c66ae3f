-- ===== src/LifeCycle/Keeps.antt =====
-- Which steps leave the execution state alone, src/procedure/life-cycle.ts.
use distributed_rpc_js.Common.{
  ◌≡◌, Bool, true, false, Option, none, some, List, [], ◌∷◌, arith, String, Bool-cases, All, inl,
  inr, ◌⊎◌,
}
use distributed_rpc_js.Common.Dict.{has}
use distributed_rpc_js.Types.{ExecutionState}
use distributed_rpc_js.LifeCycle.{
  Life, Env, Result, ok, threw, M, ◌>>◌, continue, Task, Kind, tcp_client, tcp_server, other_task,
  Hook, Reported, sent, exhausted, crashed, run_hook, emit, ServiceEvent, pure, report, report_to,
  report_kind, report_ended, svc_manager, set_manager_channel, set_system_channel, subscribe,
  change_handlers, get_server, get_task_tcp_server, channel_sys, Discovered, found, absent, failed,
}
use distributed_rpc_js.Retry.{Failure}
use distributed_rpc_js.LifeCycle.Guards.{refused}
use distributed_rpc_js.LifeCycle.Operations.{
  can_start, is_running, is_halt, activate, halt_service, stop, start, reload, release_resources,
  restart, shutdown, throw_if, set_uninitialized, stop_timer, stop_manager_task, drop_task,
  discover_service_manager, discover_booked, discovered_step, book, connected, free_slot,
  continue_mgr_error,
}

-- A step that leaves the state x alone.
unfoldable pub Keeps : {A : Type 0} → ExecutionState → M A → Type 0
Keeps x m = (s : Life) → s.state ≡ x → (m s).1.state ≡ x

module _ (x : ExecutionState) where
  continue-Keeps :
      {A B : Type 0} (r : Result A) (f : A → M B) (s : Life)
      → ((a : A) → Keeps x (f a))
      → s.state ≡ x
      → (continue r f s).1.state ≡ x
  unfolding Keeps
  continue-Keeps (ok a) f s h e = h a s e
  continue-Keeps (threw w) f s h e = e

  -- The rule for two steps, and for a list of steps before a last one.
  >>-Keeps : {A B : Type 0} (m : M A) (k : M B) → Keeps x m → Keeps x k → Keeps x (m >> k)
  unfolding Keeps
  >>-Keeps m k h h' s e = continue-Keeps (m s).0 (λ _. k) (m s).1 (λ _. h') (h s e)

  abbrev sequence : {A : Type 0} → List (M (Unit {0})) → M A → M A
  sequence [] k = k
  sequence (m ∷ ms) k = m >> sequence ms k

  sequence-Keeps :
      {A : Type 0} (ms : List (M (Unit {0}))) (k : M A)
      → All (λ m. Keeps x m) ms
      → Keeps x k
      → Keeps x (sequence ms k)
  sequence-Keeps [] k a h = h
  sequence-Keeps (m ∷ ms) k a h = >>-Keeps m (sequence ms k) a.0 (sequence-Keeps ms k a.1 h)

  pure-Keeps : {A : Type 0} (a : A) → Keeps x (pure a)
  unfolding Keeps pure
  pure-Keeps a s e = e

  emit-Keeps : (ev : ServiceEvent) → Keeps x (emit ev)
  unfolding Keeps emit
  emit-Keeps ev s e = e

  module _ (env : Env) where
    run_hook-Keeps : (h : Hook) → Keeps x (run_hook env h)
    unfolding Keeps run_hook
    run_hook-Keeps h s e = e

    subscribe-Keeps : (name : String) (b : Bool) → Keeps x (subscribe env name b)
    unfolding Keeps subscribe change_handlers
    subscribe-Keeps name b s e = ground arith

    get_task_tcp_server-Keeps : (name : String) → Keeps x (get_task_tcp_server env name)
    unfolding Keeps get_task_tcp_server get_server
    get_task_tcp_server-Keeps name s e = ground arith

    set_system_channel-Keeps : (b : Bool) → Keeps x (set_system_channel env b)
    unfolding set_system_channel
    set_system_channel-Keeps b =
        >>-Keeps (get_task_tcp_server env channel_sys) (subscribe env channel_sys b)
          (get_task_tcp_server-Keeps channel_sys) (subscribe-Keeps channel_sys b)

    report_ended-Keeps : (r : Reported) → Keeps x (report_ended env r)
    unfolding Keeps report_ended set_manager_channel
    report_ended-Keeps sent s e = e
    report_ended-Keeps exhausted s e = subscribe-Keeps _ false s e
    report_ended-Keeps (crashed w) s e = e

    report_kind-Keeps : (k : Kind) → Keeps x (report_kind env k)
    unfolding Keeps report_kind
    report_kind-Keeps tcp_client s e = report_ended-Keeps env.reported s e
    report_kind-Keeps tcp_server s e = e
    report_kind-Keeps other_task s e = e

    report_to-Keeps : (o : Option Task) → Keeps x (report_to env o)
    unfolding Keeps report_to
    report_to-Keeps none s e = e
    report_to-Keeps (some t) s e = report_kind-Keeps t.kind s e

    pub report-Keeps : Keeps x (report env)
    unfolding Keeps report
    report-Keeps s e = report_to-Keeps _ s e

    pub stop-Keeps : is_running x ≡ false → Keeps x (stop env)
    unfolding Keeps
    stop-Keeps idle s e = rw ((refused env s).2 (rw e idle)) e

    pub start-Keeps : can_start x ≡ false → Keeps x (start env)
    unfolding Keeps
    start-Keeps barred s e = rw ((refused env s).3 (rw e barred)) e

    pub halt_service-Keeps : is_running x ≡ false → Keeps x (halt_service env)
    unfolding Keeps
    halt_service-Keeps idle s e = rw ((refused env s).1 (rw e idle)) e

    pub activate-Keeps : is_halt x ≡ false → Keeps x (activate env)
    unfolding Keeps
    activate-Keeps idle s e = rw ((refused env s).0 (rw e idle)) e

    throw_if-Keeps : (o : Option Failure) → Keeps x (throw_if env o)
    unfolding Keeps throw_if
    throw_if-Keeps o s e = e

    set_uninitialized-Keeps : Keeps x (set_uninitialized env)
    unfolding Keeps set_uninitialized
    set_uninitialized-Keeps s e = e

    pub release_resources-Keeps : Keeps x (release_resources env)
    unfolding release_resources
    release_resources-Keeps =
        sequence-Keeps (run_hook env Hook.releasing_resources ∷ throw_if env env.release_fails ∷ [])
          (set_uninitialized env) (run_hook-Keeps _, (throw_if-Keeps env.release_fails, tt))
          set_uninitialized-Keeps

    pub reload-Keeps : Keeps x (reload env)
    unfolding reload
    reload-Keeps =
        >>-Keeps (run_hook env Hook.reloading) (pure true) (run_hook-Keeps _) (pure-Keeps true)

    stop_timer-Keeps : Keeps x (stop_timer env)
    unfolding Keeps stop_timer
    stop_timer-Keeps s e = e

    drop_task-Keeps : Keeps x (drop_task env)
    unfolding Keeps drop_task
    drop_task-Keeps s e = ground arith

    stop_manager_task-Keeps : Keeps x (stop_manager_task env)
    unfolding Keeps stop_manager_task set_manager_channel
    stop_manager_task-Keeps s e = on_has (Bool-cases _)
      where
        on_has :
            (has svc_manager s.tasks ≡ true) ⊎ (has svc_manager s.tasks ≡ false)
            → (stop_manager_task env s).1.state ≡ x
        on_has (inl h) = rw h (
            >>-Keeps (subscribe env svc_manager false) (drop_task env)
              (subscribe-Keeps svc_manager false) drop_task-Keeps s e)
        on_has (inr h) = rw h e

    free_slot-Keeps : Keeps x (free_slot env)
    unfolding Keeps free_slot
    free_slot-Keeps s e = e

    connected-Keeps : Keeps x (connected env)
    unfolding Keeps connected
    connected-Keeps s e = e

    discovered_step-Keeps : (d : Discovered) → Keeps x (discovered_step env d)
    unfolding Keeps discovered_step set_manager_channel
    discovered_step-Keeps found s e =
        sequence-Keeps
          (connected env
            ∷ subscribe env svc_manager true
            ∷ emit ServiceEvent.manager_connected
            ∷ [])
          (free_slot env) (connected-Keeps, (subscribe-Keeps _ true, (emit-Keeps _, tt)))
          free_slot-Keeps s e
    discovered_step-Keeps absent s e = e
    discovered_step-Keeps (failed w left) s e = ground arith

    book-Keeps : Keeps x (book env)
    unfolding Keeps book
    book-Keeps s e = e

    discover_booked-Keeps : (b : Bool) → Keeps x (discover_booked env b)
    unfolding Keeps discover_booked
    discover_booked-Keeps true s e = e
    discover_booked-Keeps false s e =
        >>-Keeps (book env) (discovered_step env env.discovered) book-Keeps
          (discovered_step-Keeps env.discovered) s e

    pub discover_service_manager-Keeps : Keeps x (discover_service_manager env)
    unfolding Keeps discover_service_manager
    discover_service_manager-Keeps s e = discover_booked-Keeps s.discovery s e

    pub continue_mgr_error-Keeps : Keeps x (continue_mgr_error env)
    unfolding Keeps continue_mgr_error
    continue_mgr_error-Keeps s e =
        >>-Keeps (emit ServiceEvent.manager_disconnect) (discover_service_manager env)
          (emit-Keeps _) discover_service_manager-Keeps _ e

    -- A shutdown and a restart leave alone a state in which `_stop` (and `_start`) are refused.
    pub shutdown-Keeps : is_running x ≡ false → Keeps x (shutdown env)
    unfolding shutdown
    shutdown-Keeps idle =
        >>-Keeps (stop env)
          (do
            set_system_channel env false
            stop_timer env
            stop_manager_task env
            release_resources env
            emit ServiceEvent.service_shutdown
            pure true)
          (stop-Keeps idle)
          (sequence-Keeps
            (set_system_channel env false
              ∷ stop_timer env
              ∷ stop_manager_task env
              ∷ release_resources env
              ∷ emit ServiceEvent.service_shutdown
              ∷ [])
            (pure true)
            (
              set_system_channel-Keeps false,
              (
                stop_timer-Keeps,
                (stop_manager_task-Keeps, (release_resources-Keeps, (emit-Keeps _, tt))),
              ),
            )
            (pure-Keeps true))

    pub restart-Keeps : is_running x ≡ false → can_start x ≡ false → Keeps x (restart env)
    unfolding restart
    restart-Keeps idle barred =
        >>-Keeps (stop env) (do release_resources env; reload env; start env; pure true)
          (stop-Keeps idle)
          (>>-Keeps (release_resources env) (do reload env; start env; pure true)
            release_resources-Keeps
            (>>-Keeps (reload env) (do start env; pure true) reload-Keeps
              (>>-Keeps (start env) (pure true) (start-Keeps barred) (pure-Keeps true))))
