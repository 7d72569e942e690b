-- ===== src/Registry/Launches.antt =====
-- registry/service.rs, `activate_revision`: what the instances of a revision run.
use open_functions.Prelude.{
  ◌*◌, Bytes, codes, Bool, true, false, Option, none, some, unwrap_or, join, Dict,
}
use open_functions.Model.{
  Runtime, Trigger, Source, Function, Revision, BuildMode, RuntimeLabel, from_declared,
}
use open_functions.Runtime.{
  Launch, InstanceSpec, rust_process, launch_image, python_host, python_container,
  container_artifact_dir, python_instance_env, on_process, on_container, extend,
}
use open_functions.Pool.{PoolConfig}
use open_functions.Registry.{Config, DriverKind, process_driver, container_driver}

abbrev pub is_image : Source → Bool
is_image (Source.dir path bin) = false
is_image (Source.image image_ref) = true

python_launch :
    Config
    → Revision
    → (artifact_path : Bytes) → Option BuildMode
    → DriverKind × Launch × Dict Bytes Bytes
python_launch c revision artifact_path (some BuildMode.container) =
    let f = revision.snapshot in
    let image = unwrap_or revision.container_image c.python.container_image in
    let venv_dir = join container_artifact_dir (codes "venv") in
    (
      container_driver,
      python_container artifact_path image,
      extend (python_instance_env f on_container venv_dir) f.env,
    )
python_launch c revision artifact_path _ =
    let f = revision.snapshot in
    let venv_dir = join artifact_path (codes "venv") in
    (
      process_driver,
      python_host artifact_path,
      extend (python_instance_env f on_process venv_dir) f.env,
    )

-- The driver, the launch and the environment.
unfoldable pub launch_of :
    Config → Revision → Source → Option Runtime → DriverKind × Launch × Dict Bytes Bytes
unfolding python_launch
launch_of c revision (Source.image image_ref) runtime =
    (container_driver, launch_image image_ref, revision.snapshot.env)
launch_of c revision (Source.dir path bin) (some Runtime.python314) =
    python_launch c revision (unwrap_or revision.artifact_path (codes "")) revision.build_mode
launch_of c revision (Source.dir path bin) (some Runtime.rust) = (
  process_driver,
  rust_process (unwrap_or revision.artifact_path (codes "")),
  revision.snapshot.env,
)
launch_of c revision (Source.dir path bin) none = (
  process_driver,
  rust_process (unwrap_or revision.artifact_path (codes "")),
  revision.snapshot.env,
)

abbrev signature_type : Trigger → Bytes
signature_type Trigger.http = codes "http"
signature_type (Trigger.pubsub topic) = codes "cloudevent"

-- With the driver.
unfoldable pub spec_of : Config → Bytes → Revision → DriverKind × InstanceSpec
spec_of c name revision =
    let f = revision.snapshot in
    let (driver, launch, env) = launch_of c revision f.source f.runtime in
    (
      driver,
      record {
        function_name = name;
        revision = revision.number;
        entry_point = f.entry_point;
        signature_type = signature_type f.trigger;
        env = env;
        memory_mib = f.memory_mib;
        start_timeout = 10000;
        launch = launch;
        runtime_label = from_declared f.runtime (is_image f.source);
      },
    )

abbrev policy_of : open_functions.Model.QueuePolicy → open_functions.Pool.QueuePolicy
policy_of open_functions.Model.QueuePolicy.wait = open_functions.Pool.QueuePolicy.wait
policy_of open_functions.Model.QueuePolicy.reject = open_functions.Pool.QueuePolicy.reject

unfoldable pub pool_config_of : Function → PoolConfig
pool_config_of f = record {
  concurrency = f.concurrency;
  min_instances = f.min_instances;
  max_instances = f.max_instances;
  idle_timeout = f.idle_timeout_secs * 1000;
  queue_policy = policy_of f.queue_policy;
  queue_max_wait = f.queue_max_wait_secs * 1000;
  start_timeout = 10000;
  stop_grace = 5000;
}
