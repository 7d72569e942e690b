-- ===== src/Config/Startup.antt =====
-- crates/open-functions/src/serve.rs: what `serve` makes of the configuration.
use open_functions.Prelude.{
  Bytes, codes, is_empty, Bool, ◌=?◌, list_Eq, ℕ_Eq, Option, none, some, if◌then◌else◌,
}
use open_functions.Model.{QueuePolicy}
use open_functions.Resolve.{Resolver}
use open_functions.Registry.{
  RegistrationDefaults, BuildModeSetting, PythonModeSetting, PythonInstaller,
}
use open_functions.Server.{InvokeState}
use open_functions.Server.Admin.{AdminState}
use open_functions.Config.{AppConfig}

abbrev pub unless_empty : Bytes → Option Bytes
unless_empty s = if is_empty s then none else some s

unfoldable pub registration_defaults : AppConfig → RegistrationDefaults
registration_defaults cfg = record {
  timeout_secs = cfg.defaults.timeout_secs;
  concurrency = cfg.defaults.concurrency;
  memory_mib = cfg.defaults.memory_mib;
  min_instances = cfg.defaults.min_instances;
  max_instances = cfg.defaults.max_instances;
  idle_timeout_secs = cfg.defaults.idle_timeout_secs;
  queue_policy =
      if cfg.defaults.queue_policy =? codes "reject" then QueuePolicy.reject else QueuePolicy.wait;
  queue_max_wait_secs = cfg.defaults.queue_max_wait_secs;
}

unfoldable pub build_mode_of : AppConfig → BuildModeSetting
build_mode_of cfg =
    if cfg.build.mode =? codes "host"
    then BuildModeSetting.host
    else if cfg.build.mode =? codes "container"
    then BuildModeSetting.container
    else BuildModeSetting.auto

unfoldable pub python_mode_of : AppConfig → PythonModeSetting
python_mode_of cfg =
    if cfg.python.mode =? codes "host"
    then PythonModeSetting.host
    else if cfg.python.mode =? codes "container"
    then PythonModeSetting.container
    else PythonModeSetting.auto

unfoldable pub python_installer_of : AppConfig → PythonInstaller
python_installer_of cfg =
    if cfg.python.installer =? codes "uv"
    then PythonInstaller.uv
    else if cfg.python.installer =? codes "pip"
    then PythonInstaller.pip
    else PythonInstaller.auto

unfoldable pub resolver_of : AppConfig → Resolver
resolver_of cfg = record { host_suffix = unless_empty cfg.invoke.host_suffix }

-- `ready` is set when both listeners are bound.
unfoldable pub admin_state_of : (invoke_base_url : Bytes) (ready : Bool) → AppConfig → AdminState
admin_state_of invoke_base_url ready cfg = record {
  token = unless_empty cfg.admin.token;
  metrics_enabled = cfg.metrics.enabled;
  metrics_require_token = cfg.admin.metrics_require_token;
  ready = ready;
  invoke_base_url = invoke_base_url;
  host_suffix = unless_empty cfg.invoke.host_suffix;
}

unfoldable pub invoke_state_of : AppConfig → InvokeState
unfolding resolver_of
invoke_state_of cfg = record {
  resolver = resolver_of cfg;
  pubsub_project = if cfg.pubsub.enabled then some cfg.pubsub.project else none;
}
