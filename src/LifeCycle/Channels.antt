-- ===== src/LifeCycle/Channels.antt =====
-- The tasks that `_stop` leaves, src/procedure/life-cycle.ts.
use distributed_rpc_js.Common.{
  ◌≡◌, ◌≢◌, refl, sym, ap, ◌∙◌, Bool, true, false, Option, none, some, [], ◌∷◌, arith, String, inl,
  inr, ◌⊎◌, eq_iff, Option-cases, ◌-◌,
}
use distributed_rpc_js.Common.Dict.{Dict, get, get-set_ne}
use distributed_rpc_js.Types.{running, stopped}
use distributed_rpc_js.LifeCycle.{
  svc_manager, service_stopped, Life, Env, Result, ok, threw, Task, Kind, tcp_client, tcp_server,
  other_task, Hook, Reported, sent, exhausted, crashed, run_hook, emit, set_state, pure, report,
  report_to, report_kind, report_ended, start_mgr_error, set_manager_channel, subscribe,
  change_handlers, continue, ◌>>◌,
}
use distributed_rpc_js.LifeCycle.Operations.{stop, stop_all_tasks, stop_tasks}

module _ (env : Env) (name : String) (other : name ≢ svc_manager) where
  pub get-stop_tasks :
      env.stop_fails name ≡ false
      → (ts : Dict Task) → get name (stop_tasks env.stop_fails ts) ≡ none
  unfolding stop_tasks get
  get-stop_tasks h [] = refl
  get-stop_tasks h ((n, t) ∷ ts) =
      ground (arith, eq_iff n name, eq_iff n svc_manager, get-stop_tasks h ts)

  get-report_ended :
      (r : Reported) (s : Life) → get name (report_ended env r s).1.tasks ≡ get name s.tasks
  unfolding report_ended start_mgr_error set_manager_channel subscribe change_handlers
  get-report_ended sent s = refl
  get-report_ended exhausted s = on_task (Option-cases (get svc_manager s.tasks))
    where
      on_task :
          (get svc_manager s.tasks ≡ none) ⊎ ((t : Task) × (get svc_manager s.tasks ≡ some t))
          → get name (report_ended env exhausted s).1.tasks ≡ get name s.tasks
      on_task (inl h) = rw h refl
      on_task (inr (t, h)) = rw h (
          get-set_ne svc_manager name (record t { handlers = t.handlers - 1 }) s.tasks
            (λ e. other (sym e)))
  get-report_ended (crashed w) s = refl

  get-report_kind :
      (k : Kind) (s : Life) → get name (report_kind env k s).1.tasks ≡ get name s.tasks
  unfolding report_kind
  get-report_kind tcp_client s = get-report_ended env.reported s
  get-report_kind tcp_server s = refl
  get-report_kind other_task s = refl

  get-report_to :
      (o : Option Task) (s : Life) → get name (report_to env o s).1.tasks ≡ get name s.tasks
  unfolding report_to
  get-report_to none s = refl
  get-report_to (some t) s = get-report_kind t.kind s

  pub get-report : (s : Life) → get name (report env s).1.tasks ≡ get name s.tasks
  unfolding report
  get-report s = get-report_to (get svc_manager s.tasks) s

  pub get-after :
      (r : Result Bool) (s : Life)
      → (continue r (λ _. emit service_stopped >> pure true) s).1.tasks ≡ s.tasks
  unfolding emit pure
  get-after (ok a) s = refl
  get-after (threw w) s = refl

  -- When a running provider is told to stop and its hook `stopping` returns, a task that is not the
  -- manager's and that does not fail to stop is gone afterwards, whatever the report gives.
  pub stop-get :
      (s : Life)
      → s.state ≡ running
      → (env.hook Hook.stopping s.tasks).0 ≡ none
      → env.stop_fails name ≡ false
      → get name (stop env s).1.tasks ≡ none
  unfolding stop set_state run_hook stop_all_tasks
  stop-get s e h f =
      rw (e, h)
        (ap (get name) (get-after (report env t).0 (report env t).1)
          ∙ get-report t
          ∙ get-stop_tasks f (env.hook Hook.stopping s.tasks).1)
    where
      t : Life
      t = record s {
        state = stopped;
        tasks = stop_tasks env.stop_fails (env.hook Hook.stopping s.tasks).1;
      }
