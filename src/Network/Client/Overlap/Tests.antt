-- ===== src/Network/Client/Overlap/Tests.antt =====
-- Overlapping calls of a client whose scheduler has the default options.
use distributed_rpc_js.Common.{ℕ, ◌≡◌, refl, false, Option, none, List, [], ◌∷◌, String, arith}
use distributed_rpc_js.Types.{stopped}
use distributed_rpc_js.Config.{default_retry}
use distributed_rpc_js.Network.{is_network_retryable}
use distributed_rpc_js.Retry.{is_exhausted, calculate_delay}
use distributed_rpc_js.Network.Client.Overlap.{
  Event, start, stop, connected, failed, woke, unwound, attempting, steps, step, is_live,
  client_after, start_call, begin_attempt, Client, new_client,
}
use distributed_rpc_js.Network.Client.Overlap.Alone.{IsIdle, careful_stop-closes}
use distributed_rpc_js.Network.Client.Overlap.Endless.{stopped_start-never}
use distributed_rpc_js.Network.Client.Overlap.Leaked.{IsLost, both_connect, retrying_start-leaked}

abbrev never : ℕ → Option String
never x = none

-- The first attempt is refused, and the second waits.
abbrev refused_once : List Event
refused_once = start ∷ failed 0 "ECONNREFUSED" ∷ woke 0 ∷ []

stopped_start-never_example :
    (steps default_retry never
        (stop ∷ connected 1 ∷ start ∷ connected 2 ∷ [])
        (client_after default_retry never refused_once)).phase
      0
    ≡ attempting 1
unfolding steps step start_call begin_attempt default_retry is_network_retryable is_exhausted
stopped_start-never_example =
    stopped_start-never default_retry never refused_once (connected 1 ∷ start ∷ connected 2 ∷ []) 0
      1 refl refl (λ h. cc)

abbrev pausing : Client
pausing = client_after default_retry never (start ∷ failed 0 "ECONNREFUSED" ∷ [])

retrying_start-leaked_example :
    IsLost 1 1 (steps default_retry never (both_connect 0 1 (stop ∷ stop ∷ [])) pausing)
unfolding steps step start_call begin_attempt default_retry is_network_retryable is_exhausted
retrying_start-leaked_example =
    retrying_start-leaked default_retry never pausing 0 (stop ∷ stop ∷ []) refl refl refl
      (omega arith) refl refl tt

new_client-IsIdle : IsIdle new_client
new_client-IsIdle = record { awake = λ j h. cc; not_retrying = λ h. cc }

careful_stop-closes_example :
    is_live (
      (step default_retry never stop (
          client_after default_retry never
            (start ∷ failed 0 "ETIMEDOUT" ∷ woke 0 ∷ connected 1 ∷ []))).status
        1)
    ≡ false
careful_stop-closes_example =
    careful_stop-closes default_retry never
      (start ∷ failed 0 "ETIMEDOUT" ∷ woke 0 ∷ connected 1 ∷ []) 1
      (new_client-IsIdle, (tt, (tt, (tt, tt))))

-- An aborted pause ends the call.
unwound_start :
    (client_after default_retry never (start ∷ failed 0 "ETIMEDOUT" ∷ stop ∷ unwound 0 ∷ [])).state
    ≡ stopped
unfolding steps step start_call begin_attempt default_retry is_network_retryable is_exhausted
    calculate_delay
unwound_start = refl
