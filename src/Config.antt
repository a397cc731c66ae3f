-- ===== src/Config.antt =====
-- src/common/config.ts (ConfigManager): the defaults, and the loading of the file. The file system,
-- the YAML parser and lodash's merge are parameters. An `app` configuration is of any type.
pub mod Defaults
mod Tests
use distributed_rpc_js.Common.{
  ℕ, ◌*◌, Bool, true, false, Option, none, some, String, str_eq, if◌then◌else◌,
}
use distributed_rpc_js.Retry.{RetryConfig, Backoff, default_retry_multiplier}

abbrev pub default_discovery_port : ℕ
default_discovery_port = 5707

-- `SECOND`
abbrev pub second : ℕ
second = 1000

-- enum ServiceManagerDiscovery
pub data ServiceManagerDiscovery : Type 0 where
  no_discovery udp : ServiceManagerDiscovery

-- interface CoreConfig, with the objects inside it
pub record ClientConfig : Type 0 where
  pub timeout : ℕ
  pub keep_alive : Bool
  pub keep_alive_initial_delay : ℕ

pub record TcpConfig : Type 0 where
  pub address : String
  pub port : ℕ
  pub client : ClientConfig

pub record UdpConfig : Type 0 where
  pub address : String
  pub port : ℕ

pub record NetConfig : Type 0 where
  pub sm_discovery : ServiceManagerDiscovery
  pub sm_port : ℕ
  pub tcp : TcpConfig
  pub udp : UdpConfig

-- interface ReportConfig
pub record ReportConfig : Type 0 where
  pub enabled : Bool
  pub interval : ℕ
  pub max_retries : ℕ
  pub retry_delay : ℕ

pub record CoreConfig : Type 0 where
  pub net : NetConfig
  pub report : ReportConfig
  pub retry : RetryConfig
  pub service_name : String
  pub provider_id : Option String

-- interface LogConfig
pub record LogConfig : Type 0 where
  pub format : String
  pub log_level : String
  pub max_files : String
  pub max_size : String

-- interface ProviderConfig
pub record ProviderConfig (A : Type 0) : Type 0 where
  pub app : A
  pub core : CoreConfig
  pub log : LogConfig

-- `retry` in getDefaultCoreConfig
unfoldable pub default_retry : RetryConfig
default_retry = record {
  backoff = record {
    enabled = true;
    max_delay = 4 * 60 * second;
    multiplier = default_retry_multiplier;
  };
  interval = 2 * second;
  max_retries = some 0;
}

-- `getDefaultCoreConfig`
unfoldable pub get_default_core_config : String → CoreConfig
unfolding default_retry
get_default_core_config init_name = record {
  net = record {
    sm_discovery = udp;
    sm_port = default_discovery_port;
    tcp = record {
      address = "0.0.0.0";
      port = 0;
      client = record {
        timeout = 10 * second;
        keep_alive = true;
        keep_alive_initial_delay = 0 * second;
      };
    };
    udp = record { address = "0.0.0.0"; port = default_discovery_port };
  };
  report = record {
    enabled = true;
    interval = 60 * second;
    max_retries = 3;
    retry_delay = 5 * second;
  };
  retry = default_retry;
  service_name = init_name;
  provider_id = none;
}

-- `_getDefaultLogConfig`: the formats are those of LogFormat (src/common/logger.ts).
unfoldable pub get_default_log_config : String → String → Bool → LogConfig
get_default_log_config json console is_production = record {
  format = if is_production then json else console;
  log_level = "info";
  max_files = "14d";
  max_size = "20m";
}

-- What `yaml.load` gives: it throws, it gives a falsy value, or a configuration.
pub data Loaded (P : Type 0) : Type 0 where
  throws falsy : Loaded P
  parsed : P → Loaded P

-- The files and the libraries: `none` is a file that cannot be read. A merge may throw.
pub record Files (P C : Type 0) : Type 0 where
  pub exists : String → Bool
  pub read : String → Option String
  pub load : String → Loaded P
  pub empty : P
  pub merge : C → P → Option C

abbrev pub or_default : {C : Type 0} → C → Option C → C
or_default c none = c
or_default c (some x) = x

module _ {P C : Type 0} (files : Files P C) (defaults : C) where
  -- `_mergeWithDefaults` of what was loaded; a throw gives the defaults.
  unfoldable pub merge_loaded : Loaded P → C
  merge_loaded throws = defaults
  merge_loaded falsy = or_default defaults (files.merge defaults files.empty)
  merge_loaded (parsed p) = or_default defaults (files.merge defaults p)

  unfoldable pub read_config : String → C
  unfolding merge_loaded
  read_config path = elim (files.read path) [
    | none ↦ defaults
    | some text ↦ merge_loaded (files.load text)
  ]

  -- `_loadConfig`, with the two paths that it looks at.
  unfoldable pub load_config : String → String → C
  unfolding read_config
  load_config path inner_path =
      if files.exists path
      then read_config path
      else if files.exists inner_path
      then read_config inner_path
      else defaults

-- enum AppEnv
pub data AppEnv : Type 0 where
  development production staging test : AppEnv

-- `getAppEnv`, of the variable NODE_ENV; the default is for no value and for any other.
unfoldable pub get_app_env : Option String → AppEnv
get_app_env none = development
get_app_env (some env) =
    if str_eq env "production"
    then production
    else if str_eq env "staging"
    then staging
    else if str_eq env "test"
    then test
    else development

abbrev pub is_production : AppEnv → Bool
is_production production = true
is_production _ = false

-- class ConfigManager: the configuration that it holds. A path that exists, the reading and the
-- parsing may change between two loads.
pub record ConfigManager (A : Type 0) : Type 0 where
  pub config : ProviderConfig A
  pub init_name : String

-- `providerName || UNKNOWN_ATTRIBUTE`
abbrev pub name_or_unknown : Option String → String
name_or_unknown none = "Unknown"
name_or_unknown (some name) = if str_eq name "" then "Unknown" else name

module _ {A : Type 0} (console json : String) where
  -- `_getDefaultConfig`, over the application's defaults.
  unfoldable pub get_default_config : Option String → String → A → ProviderConfig A
  unfolding get_app_env
  get_default_config node_env init_name app = record {
    app = app;
    core = get_default_core_config init_name;
    log = get_default_log_config json console (is_production (get_app_env node_env));
  }

module _ {P A : Type 0} (console json path inner_path : String) where
  -- The constructor, by what the files give; a missing or empty name is "Unknown".
  unfoldable pub new_config_manager :
      Files P (ProviderConfig A) → Option String → A → Option String → ConfigManager A
  unfolding get_default_config load_config
  new_config_manager files node_env app provider_name =
      let init_name = name_or_unknown provider_name in
      record {
        config =
            load_config files (get_default_config console json node_env init_name app) path
              inner_path;
        init_name = init_name;
      }

  -- `reload`
  unfoldable pub reload_config :
      Files P (ProviderConfig A) → Option String → A → ConfigManager A → ConfigManager A
  unfolding get_default_config load_config
  reload_config files node_env app m = record m {
    config =
        load_config files (get_default_config console json node_env m.init_name app) path
          inner_path;
  }

-- The accessors of the parts.
unfoldable pub get_core_config : {A : Type 0} → ConfigManager A → CoreConfig
get_core_config m = m.config.core

unfoldable pub get_provider_id : {A : Type 0} → ConfigManager A → Option String
unfolding get_core_config
get_provider_id m = (get_core_config m).provider_id
