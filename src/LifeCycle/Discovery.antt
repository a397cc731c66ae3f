-- ===== src/LifeCycle/Discovery.antt =====
-- The discovery of the manager, src/procedure/life-cycle.ts (_discoverServiceManager).
use distributed_rpc_js.Common.{◌≡◌, refl, true, false, none, some}
use distributed_rpc_js.Common.Dict.{get, set, delete, get-delete_self, get-set_self}
use distributed_rpc_js.LifeCycle.{
  svc_manager, Life, Env, ok, found, absent, set_manager_channel, subscribe, change_handlers, emit,
}
use distributed_rpc_js.LifeCycle.Operations.{
  client, discover_service_manager, discover_booked, discovered_step, book, connected, free_slot,
}

-- A discovery that is not booked and that finds no manager returns, without a manager and without a
-- task of the manager, and every later discovery does nothing, also when a manager is there.
pub discovery_absent :
    (env : Env) (s : Life)
    → s.discovery ≡ false
    → env.discovered ≡ absent
    → let t = (discover_service_manager env s).1 in
      ((discover_service_manager env s).0 ≡ ok tt)
      × (t.manager_known ≡ false)
      × (get svc_manager t.tasks ≡ none)
      × ((later : Env) → discover_service_manager later t ≡ (ok tt, t))
unfolding discover_service_manager discover_booked discovered_step book
discovery_absent env s free e =
    rw (free, e) (refl, refl, get-delete_self svc_manager s.tasks, λ later. refl)

-- A discovery that is not booked and that finds a manager returns with the manager, with its client
-- as the task, to which one handler of errors is attached, and with the slot free.
pub discovery_found :
    (env : Env) (s : Life)
    → s.discovery ≡ false
    → env.discovered ≡ found
    → let t = (discover_service_manager env s).1 in
      ((discover_service_manager env s).0 ≡ ok tt)
      × (t.manager_known ≡ true)
      × (t.discovery ≡ false)
      × (get svc_manager t.tasks ≡ some (record client { handlers = 1 }))
unfolding discover_service_manager discover_booked discovered_step book connected free_slot
    set_manager_channel subscribe change_handlers emit
discovery_found env s free e =
    rw (free, e, get-set_self svc_manager client (delete svc_manager s.tasks))
      (
        refl,
        refl,
        refl,
        get-set_self svc_manager (record client { handlers = 1 })
            (set svc_manager client (delete svc_manager s.tasks)),
      )
