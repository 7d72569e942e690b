-- ===== src/Config.antt =====
-- crates/open-functions/src/config.rs: the sections of the configuration with their defaults. Its
-- reading and its checks are in Load.
pub mod Load
pub mod Loopback
pub mod Startup
pub mod Checks
pub mod Unguarded
use open_functions.Prelude.{ℕ, Bytes, codes, [], Bool, true, false}

pub record InvokeConfig : Type 0 where
  pub listen : Bytes
  pub public_base_url : Bytes
  pub host_suffix : Bytes
  pub shutdown_grace_secs : ℕ

abbrev pub default_invoke : InvokeConfig
default_invoke = record {
  listen = codes "0.0.0.0:8080";
  public_base_url = [];
  host_suffix = [];
  shutdown_grace_secs = 30;
}

pub record AdminConfig : Type 0 where
  pub listen : Bytes
  pub token : Bytes
  pub token_file : Bytes
  pub metrics_require_token : Bool

abbrev pub default_admin : AdminConfig
default_admin = record {
  listen = codes "127.0.0.1:8081";
  token = [];
  token_file = [];
  metrics_require_token = false;
}

pub record StorageConfig : Type 0 where
  pub data_dir : Bytes

abbrev pub default_storage : StorageConfig
default_storage = record { data_dir = codes "/var/lib/open-functions" }

pub record BuildConfig : Type 0 where
  pub mode : Bytes
  pub cargo_bin : Bytes
  pub container_image : Bytes
  pub max_parallel : ℕ
  pub timeout_secs : ℕ

abbrev pub default_build : BuildConfig
default_build = record {
  mode = codes "auto";
  cargo_bin = codes "cargo";
  container_image = codes "rust:1-bookworm";
  max_parallel = 2;
  timeout_secs = 1800;
}

pub record RuntimeConfig : Type 0 where
  pub max_total_instances : ℕ
  pub start_timeout_secs : ℕ
  pub stop_grace_secs : ℕ
  pub cgroup : Bytes
  pub docker_socket : Bytes
  pub docker_network : Bytes

abbrev pub default_runtime : RuntimeConfig
default_runtime = record {
  max_total_instances = 32;
  start_timeout_secs = 10;
  stop_grace_secs = 5;
  cgroup = codes "auto";
  docker_socket = [];
  docker_network = codes "open-functions";
}

pub record PythonConfig : Type 0 where
  pub mode : Bytes
  pub python_bin : Bytes
  pub uv_bin : Bytes
  pub installer : Bytes
  pub container_image : Bytes
  pub functions_framework : Bytes

abbrev pub default_python : PythonConfig
default_python = record {
  mode = codes "auto";
  python_bin = [];
  uv_bin = codes "uv";
  installer = codes "auto";
  container_image = codes "ghcr.io/astral-sh/uv:python3.14-trixie-slim";
  functions_framework = codes "functions-framework==3.10.2";
}

pub record DefaultsConfig : Type 0 where
  pub timeout_secs : ℕ
  pub concurrency : ℕ
  pub memory_mib : ℕ
  pub min_instances : ℕ
  pub max_instances : ℕ
  pub idle_timeout_secs : ℕ
  pub queue_policy : Bytes
  pub queue_max_wait_secs : ℕ

abbrev pub default_defaults : DefaultsConfig
default_defaults = record {
  timeout_secs = 60;
  concurrency = 1;
  memory_mib = 256;
  min_instances = 0;
  max_instances = 100;
  idle_timeout_secs = 900;
  queue_policy = codes "wait";
  queue_max_wait_secs = 30;
}

pub record PubsubConfig : Type 0 where
  pub enabled : Bool
  pub base_url : Bytes
  pub project : Bytes
  pub push_base_url : Bytes
  pub ack_deadline_max_secs : ℕ
  pub retry_initial_secs : ℕ
  pub retry_max_secs : ℕ
  pub request_timeout_secs : ℕ

abbrev pub default_pubsub : PubsubConfig
default_pubsub = record {
  enabled = true;
  base_url = codes "http://127.0.0.1:8085";
  project = codes "local";
  push_base_url = [];
  ack_deadline_max_secs = 600;
  retry_initial_secs = 5;
  retry_max_secs = 60;
  request_timeout_secs = 10;
}

pub record LogConfig : Type 0 where
  pub format : Bytes
  pub level : Bytes
  pub function_ring_buffer_lines : ℕ

abbrev pub default_log : LogConfig
default_log = record {
  format = codes "json";
  level = codes "info";
  function_ring_buffer_lines = 1000;
}

pub record MetricsConfig : Type 0 where
  pub enabled : Bool

abbrev pub default_metrics : MetricsConfig
default_metrics = record { enabled = true }

pub record AppConfig : Type 0 where
  pub invoke : InvokeConfig
  pub admin : AdminConfig
  pub storage : StorageConfig
  pub build : BuildConfig
  pub runtime : RuntimeConfig
  pub python : PythonConfig
  pub defaults : DefaultsConfig
  pub pubsub : PubsubConfig
  pub log : LogConfig
  pub metrics : MetricsConfig

abbrev pub default_config : AppConfig
default_config = record {
  invoke = default_invoke;
  admin = default_admin;
  storage = default_storage;
  build = default_build;
  runtime = default_runtime;
  python = default_python;
  defaults = default_defaults;
  pubsub = default_pubsub;
  log = default_log;
  metrics = default_metrics;
}
