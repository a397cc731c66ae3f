-- ===== src/Manager/Hooks.antt =====
-- The hooks of a ServiceManager, src/manager/service-manager.ts, as those of a life cycle; and
-- ServiceProvider.setApiChannel. A broadcast listener that starts is a task named "reception".
mod Tests
use distributed_rpc_js.Common.{
  ℕ, ◌≡◌, ◌≢◌, refl, sym, ap, ◌∙◌, Bool, true, false, Option, none, some, [], String, inl, inr, ◌⊎◌,
  Option-cases,
}
use distributed_rpc_js.Common.Dict.{Dict, get, set, get-set_self, get-set_ne}
use distributed_rpc_js.Types.{running, stopped}
use distributed_rpc_js.Retry.{Failure}
use distributed_rpc_js.LifeCycle.{
  channel_api, channel_sys, svc_manager, Life, Env, Result, ok, threw, M, ◌>>◌, continue, Task,
  tcp_server, other_task, Hook, initializing_resources, releasing_resources, reloading, found,
  get_server, get_task_tcp_server, subscribe, change_handlers, outcome,
}
use distributed_rpc_js.LifeCycle.Operations.{start, stop}
use distributed_rpc_js.LifeCycle.Again.{restarted_without}

abbrev pub reception : String
reception = "reception"

-- A state with these tasks: the hooks neither read nor change the rest of it.
abbrev at_tasks : Dict Task → Life
at_tasks ts = record {
  state = stopped;
  initialized = true;
  tasks = ts;
  discovery = false;
  register = false;
  manager_known = false;
  report_timer = false;
  mgr_errors = 0;
  events = [];
}

module _ (env : Env) (listener_throws : Option Failure) where
  -- `setApiChannel`
  unfoldable pub set_api_channel : Bool → M (Unit {0})
  set_api_channel b = do get_task_tcp_server env channel_api; subscribe env channel_api b

  -- `_initializeBroadcastListener("reception")`, by what it throws.
  unfoldable pub add_listener : Option Failure → Dict Task → Option Failure × Dict Task
  add_listener (some e) ts = (some e, ts)
  add_listener none ts = (none, set reception (record { kind = other_task; handlers = 0 }) ts)

  abbrev and_listener : Result (Unit {0}) × Life → Option Failure × Dict Task
  and_listener (ok u, s) = add_listener listener_throws s.tasks
  and_listener (threw e, s) = (some e, s.tasks)

  abbrev as_hook : Result (Unit {0}) × Life → Option Failure × Dict Task
  as_hook (ok u, s) = (none, s.tasks)
  as_hook (threw e, s) = (some e, s.tasks)

  -- `starting`
  unfoldable pub start_channels : Dict Task → Option Failure × Dict Task
  unfolding set_api_channel add_listener
  start_channels ts = and_listener (set_api_channel true (at_tasks ts))

  -- The five hooks. What `reloading` changes is the configuration.
  unfoldable pub manager_hook : Hook → Dict Task → Option Failure × Dict Task
  unfolding start_channels set_api_channel
  manager_hook initializing_resources ts = (none, ts)
  manager_hook releasing_resources ts = (none, ts)
  manager_hook reloading ts = (none, ts)
  manager_hook Hook.starting ts = start_channels ts
  manager_hook Hook.stopping ts = as_hook (set_api_channel false (at_tasks ts))

  -- The API channel where its server starts: the server has the handler, the other tasks are the same.
  ChannelSet : Bool → Dict Task → Result (Unit {0}) × Life → Type 0
  ChannelSet b ts out =
      (out.0 ≡ ok tt) × ((name : String) → name ≢ channel_api → get name out.1.tasks ≡ get name ts)

  set_api_channel-ChannelSet :
      (b : Bool) (ts : Dict Task)
      → env.server_fails channel_api ≡ none
      → ChannelSet b ts (set_api_channel b (at_tasks ts))
  unfolding set_api_channel get_task_tcp_server get_server subscribe change_handlers ChannelSet
  set_api_channel-ChannelSet b ts works = on_task (Option-cases (get channel_api ts))
    where
      on_task :
          (get channel_api ts ≡ none) ⊎ ((t : Task) × (get channel_api ts ≡ some t))
          → ChannelSet b ts (set_api_channel b (at_tasks ts))
      on_task (inl h) =
          let made : Task = record { kind = tcp_server; handlers = 0 } in
          let there = get-set_self channel_api made ts in
          rw (h, works, there)
            (
              refl,
              λ name ne.
                  get-set_ne channel_api name _ (set channel_api made ts) (λ e. ne (sym e))
                  ∙ get-set_ne channel_api name made ts (λ e. ne (sym e)),
            )
      on_task (inr (t, h)) =
          rw (h, h) (refl, λ name ne. get-set_ne channel_api name _ ts (λ e. ne (sym e)))

  module _ (works : env.server_fails channel_api ≡ none) (listens : listener_throws ≡ none) where
    start_channels-add_listener :
        (ts : Dict Task)
        → start_channels ts ≡ add_listener none (set_api_channel true (at_tasks ts)).1.tasks
    unfolding start_channels ChannelSet get_task_tcp_server set get
    start_channels-add_listener ts =
        let (done, same) = set_api_channel-ChannelSet true ts works in rw (done, listens) refl

    starting_returns : (ts : Dict Task) → (manager_hook Hook.starting ts).0 ≡ none
    unfolding manager_hook add_listener
    starting_returns ts = ap (λ p. p.0) (start_channels-add_listener ts)

    starting_leaves_out :
        (name : String)
        → name ≢ channel_api
        → name ≢ reception
        → (ts : Dict Task) → get name ts ≡ none
        → get name (manager_hook Hook.starting ts).1 ≡ none
    unfolding manager_hook add_listener ChannelSet
    starting_leaves_out name not_api not_listener ts absent =
        let (done, same) = set_api_channel-ChannelSet true ts works in
        ap (λ p. get name p.1) (start_channels-add_listener ts)
        ∙ (get-set_ne reception name (record { kind = other_task; handlers = 0 })
              (set_api_channel true (at_tasks ts)).1.tasks (λ e. not_listener (sym e))
            ∙ (same name not_api ∙ absent))

    stopping_returns : (ts : Dict Task) → (manager_hook Hook.stopping ts).0 ≡ none
    unfolding manager_hook ChannelSet get_task_tcp_server get
    stopping_returns ts =
        let (done, same) = set_api_channel-ChannelSet false ts works in rw done refl

    abbrev pub manager_env : Env
    manager_env = record env { hook = manager_hook }

    -- A running service manager that is initialized, and that is stopped and then started again,
    -- returns true and runs without every task but the API channel, the broadcast listener and the
    -- client of another manager, if its API server and its listener start, the discovery finds a
    -- manager, and the stop does not fail to stop that task; the response and the system channel
    -- are such tasks.
    pub manager_restarted :
        (name : String) (s : Life)
        → name ≢ channel_api
        → name ≢ reception
        → name ≢ svc_manager
        → env.discovered ≡ found
        → env.stop_fails name ≡ false
        → s.state ≡ running
        → s.initialized ≡ true
        → let (result, t) = start manager_env (stop manager_env s).1 in
          (result ≡ ok true) × (t.state ≡ running) × (get name t.tasks ≡ none)
    manager_restarted name s not_api not_listener not_manager there stops up initialized =
        restarted_without manager_env name not_manager there starting_returns
          (starting_leaves_out name not_api not_listener) manager_env s up initialized
          (stopping_returns s.tasks) stops
