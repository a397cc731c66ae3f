-- ===== src/Config/Defaults.antt =====
-- What the defaults mean for the scheduler, src/common/config.ts and src/common/retry.ts.
use distributed_rpc_js.Common.{
  ℕ, suc, ◌+◌, ◌≤◌, ◌≡◌, refl, true, false, some, none, Option, arith, String,
}
use distributed_rpc_js.Retry.{is_exhausted, calculate_delay}
use distributed_rpc_js.Retry.Delay.{calculate_delay-le-max_delay, calculate_delay_mono}
use distributed_rpc_js.Config.{
  default_retry, get_default_core_config, Files, throws, load_config, read_config, merge_loaded,
  ProviderConfig, ConfigManager, reload_config, get_provider_id, get_default_config,
}

-- With the defaults the scheduler never gives up, and waits 4 minutes from the eighth attempt on,
-- and never longer.
pub default_retry-unbounded :
    (name : String) (attempt later : ℕ)
    → let retry = (get_default_core_config name).retry in
      (is_exhausted retry attempt ≡ false)
      × (calculate_delay retry attempt ≤ 240000)
      × (calculate_delay retry (suc (7 + later)) ≡ 240000)
unfolding get_default_core_config default_retry is_exhausted
default_retry-unbounded name attempt later =
    let capped = calculate_delay-le-max_delay default_retry (suc (7 + later)) refl in
    let eighth : calculate_delay default_retry 8 ≡ 240000 = unfold calculate_delay in refl in
    let grown = calculate_delay_mono default_retry 7 later in
    (
      refl,
      calculate_delay-le-max_delay default_retry attempt refl,
      omega (arith, capped, eighth, grown),
    )

-- A configuration that cannot be read, or that YAML refuses, gives the defaults.
pub read_config_fails :
    {P C : Type 0} (files : Files P C) (defaults : C) (path text : String)
    → files.exists path ≡ true
    → files.read path ≡ some text
    → files.load text ≡ throws
    → (inner : String) → load_config files defaults path inner ≡ defaults
unfolding load_config read_config merge_loaded
read_config_fails files defaults path text there readable refused inner =
    rw (there, readable, refused, read_config, merge_loaded) refl

-- Without a file a reload gives the defaults, whose id is missing: the configuration loses the id
-- that the provider gave it.
pub reload_config-provider_id :
    {P A : Type 0} (console json path inner : String) (files : Files P (ProviderConfig A))
    (node_env : Option String) (app : A) (m : ConfigManager A)
    → files.exists path ≡ false
    → files.exists inner ≡ false
    → get_provider_id (reload_config console json path inner files node_env app m) ≡ none
unfolding reload_config get_provider_id load_config get_default_config get_default_core_config
reload_config-provider_id console json path inner files node_env app m outer_missing inner_missing =
    rw (outer_missing, inner_missing) refl
