-- ===== src/Network/Server/Overlap/Tests.antt =====
-- Overlapping calls of a server whose scheduler has the default options.
use distributed_rpc_js.Common.{ℕ, ◌≡◌, refl, Option, none, [], ◌∷◌, String}
use distributed_rpc_js.Config.{default_retry}
use distributed_rpc_js.Retry.{is_exhausted, calculate_delay}
use distributed_rpc_js.Network.Client.Overlap.{attempting}
use distributed_rpc_js.Network.Server.Overlap.{
  start, stop, closed_at, steps, step, start_call, begin_attempt, server_after, new_server,
}
use distributed_rpc_js.Network.Server.Overlap.Endless.{stopped_listen-never}
use distributed_rpc_js.Network.Server.Overlap.Early.{
  IsOrphan, early_restart, early_restart-orphaned,
}

abbrev never : ℕ → Option String
never x = none

stopped_listen-never_example :
    (steps default_retry never
        (stop ∷ closed_at 0 ∷ [])
        (server_after default_retry never (start ∷ []))).phase
      0
    ≡ attempting 0
unfolding steps step start_call begin_attempt
stopped_listen-never_example =
    stopped_listen-never default_retry never (start ∷ []) (closed_at 0 ∷ []) 0 0 refl refl

early_restart-orphaned_example :
    IsOrphan 1 1 (steps default_retry never (early_restart 0 0 2) new_server)
unfolding is_exhausted calculate_delay default_retry
early_restart-orphaned_example =
    early_restart-orphaned default_retry never new_server 2 refl refl refl refl refl
