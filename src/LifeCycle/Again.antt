-- ===== src/LifeCycle/Again.antt =====
-- A provider that is stopped and started again, src/procedure/life-cycle.ts.
use distributed_rpc_js.Common.{◌≡◌, ◌≢◌, refl, arith, sym, ◌∙◌, Bool, true, false, none, String}
use distributed_rpc_js.Common.Dict.{Dict, get, set, delete, get-set_ne, get-set_self, get-delete_ne}
use distributed_rpc_js.Types.{running, stopped}
use distributed_rpc_js.LifeCycle.{
  svc_manager, service_stopped, Life, Env, Result, ok, threw, Task, Hook, found, run_hook, emit,
  set_state, pure, report, report_to, report_kind, report_ended, start_mgr_error,
  set_manager_channel, subscribe, change_handlers, continue, ◌>>◌,
}
use distributed_rpc_js.LifeCycle.Operations.{
  client, start, stop, stop_all_tasks, stop_tasks, discover_service_manager, discover_booked,
  discovered_step, book, connected, free_slot, init_if_needed, start_report_schedule,
}
use distributed_rpc_js.LifeCycle.Channels.{stop-get}
use distributed_rpc_js.LifeCycle.Keeps.{Keeps, report-Keeps}

-- A report leaves alone whether the provider is initialized.
report-initialized : (env : Env) (s : Life) → (report env s).1.initialized ≡ s.initialized
unfolding report report_to report_kind report_ended start_mgr_error set_manager_channel subscribe
    change_handlers
report-initialized env s = ground arith

-- What is left after the last steps of `_stop`.
closing :
    (r : Result Bool) (t : Life)
    → let u = (continue r (λ _. emit service_stopped >> pure true) t).1 in
      (u.state ≡ t.state) × (u.initialized ≡ t.initialized)
unfolding emit pure
closing (ok a) t = (refl, refl)
closing (threw e) t = (refl, refl)

stop-leaves :
    (env : Env) (s : Life)
    → s.state ≡ running
    → (env.hook Hook.stopping s.tasks).0 ≡ none
    → ((stop env s).1.state ≡ stopped) × ((stop env s).1.initialized ≡ s.initialized)
unfolding stop set_state run_hook stop_all_tasks Keeps
stop-leaves env s up quiet =
    let t = record s {
      state = stopped;
      tasks = stop_tasks env.stop_fails (env.hook Hook.stopping s.tasks).1;
    } in
    let (state, initialized) = closing (report env t).0 (report env t).1 in
    rw (up, quiet) (state ∙ report-Keeps stopped env t refl, initialized ∙ report-initialized env t)

module _ (env : Env) (name : String) (other : name ≢ svc_manager)
    (there : env.discovered ≡ found) where
  -- A search that finds the manager, or that is booked, leaves the other tasks alone.
  discover_booked-leaves :
      (b : Bool) (s : Life)
      → let out = discover_booked env b s in
        (out.0 ≡ ok tt) × (get name out.1.tasks ≡ get name s.tasks)
  unfolding discover_booked discovered_step book connected free_slot set_manager_channel subscribe
      change_handlers emit
  discover_booked-leaves true s = (refl, refl)
  discover_booked-leaves false s =
      let dropped = delete svc_manager s.tasks in
      let ne : svc_manager ≢ name = λ e. other (sym e) in
      rw (there, get-set_self svc_manager client dropped)
        (
          refl,
          get-set_ne svc_manager name (record client { handlers = 1 })
                (set svc_manager client dropped) ne
              ∙ (get-set_ne svc_manager name client dropped ne
                  ∙ get-delete_ne svc_manager name s.tasks ne),
        )

  discover-leaves :
      (s : Life)
      → let out = discover_service_manager env s in
        (out.0 ≡ ok tt) × (get name out.1.tasks ≡ get name s.tasks)
  unfolding discover_service_manager
  discover-leaves s = discover_booked-leaves s.discovery s

  -- The hook of the subclass returns, and does not make this task.
  module _ (returns : (ts : Dict Task) → (env.hook Hook.starting ts).0 ≡ none)
      (leaves_out : (ts : Dict Task)
        → get name ts ≡ none
        → get name (env.hook Hook.starting ts).1 ≡ none) where
    start_without :
        (s : Life)
        → s.state ≡ stopped
        → s.initialized ≡ true
        → get name s.tasks ≡ none
        → let (result, t) = start env s in
          (result ≡ ok true) × (t.state ≡ running) × (get name t.tasks ≡ none)
    unfolding start init_if_needed set_state run_hook start_report_schedule emit pure
    start_without s idle initialized absent =
        let u = record s { state = stopped; initialized = true } in
        let (done, same) = discover-leaves u in
        let tasks = (discover_service_manager env u).1.tasks in
        rw (idle, initialized, done, returns tasks) (refl, refl, leaves_out tasks (same ∙ absent))

    -- A running provider that is initialized, and that is stopped and then started again, runs without
    -- such a task that the stop did not fail to stop.
    pub restarted_without :
        (before : Env) (s : Life)
        → s.state ≡ running
        → s.initialized ≡ true
        → (before.hook Hook.stopping s.tasks).0 ≡ none
        → before.stop_fails name ≡ false
        → let (result, t) = start env (stop before s).1 in
          (result ≡ ok true) × (t.state ≡ running) × (get name t.tasks ≡ none)
    restarted_without before s up initialized quiet stops =
        let (idle, kept) = stop-leaves before s up quiet in
        start_without (stop before s).1 idle (kept ∙ initialized)
          (stop-get before name other s up quiet stops)
