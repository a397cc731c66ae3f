-- ===== src/Config/Tests.antt =====
-- The defaults of a provider.
use distributed_rpc_js.Common.{◌≡◌, refl}
use distributed_rpc_js.Retry.{calculate_delay}
use distributed_rpc_js.Config.{get_default_core_config, default_retry}

third_delay : calculate_delay (get_default_core_config "Billing").retry 3 ≡ 8000
unfolding calculate_delay get_default_core_config default_retry
third_delay = refl
