-- ===== src/Examples/Fixtures.antt =====
-- A machine, its service and what is deployed there, for the examples.
use open_functions.Prelude.{
  ℕ, suc, Bytes, codes, true, false, none, some, [], ◌∷◌, err, list_Eq, ℕ_Eq, pair_Eq,
}
use open_functions.Model.{
  Function, http, dir, Runtime, QueuePolicy, FunctionState, Revision, Build, BuildMode, BuildStatus,
  Metadata,
}
use open_functions.PubSub.Client.{Broker, Subscription}
use open_functions.PubSub.Reconcile.{DesiredBinding, Reconciler}
use open_functions.Registry.{
  BuildModeSetting, PythonModeSetting, PythonInstaller, RegisterRequest, Outside, World, Config,
  Entry, DriverKind, Removal, BuildError, PythonBuildError,
}
use open_functions.Examples.Instances.{config, spec}

abbrev pub subscription : Subscription
subscription = record {
  name = codes "open-functions-greeter";
  topic = codes "orders";
  push_endpoint = none;
  ack_deadline_seconds = 60;
}

-- A server that grants everything.
abbrev pub broker : Broker
broker = record {
  State = Unit {0};
  request = λ method url body s. (s, some (200, codes "{}"));
  from_json = λ body. some subscription;
  invalid_json = λ body. body;
}

abbrev pub reconciler : Reconciler
reconciler = record {
  client = record { base_url = codes "http://localhost:8085"; project = codes "local" };
  initial_backoff = 1000;
  max_backoff = 60000;
}

abbrev pub desired : DesiredBinding
desired = record {
  function_name = codes "greeter";
  project = codes "local";
  topic = codes "orders";
  push_endpoint = codes "http://localhost:8080/_cf/push/greeter";
  ack_deadline_seconds = 60;
}

-- A machine on which no build succeeds; the clock counts its readings.
abbrev pub outside : Outside
outside = record {
  State = ℕ;
  LogRecord = Bytes;
  broker = broker;
  now = λ s. (suc s, s);
  new_uuid = λ s. (s, codes "b1");
  is_dir = λ s p. true;
  metadata = λ s p. Metadata.file;
  exists = λ s p. true;
  remove_dir_all = λ p s. (s, Removal.removed);
  rust_available = λ m s. (s, true);
  rust_build = λ m q s. (s, err (BuildError.timeout 600000));
  python_available = λ m s. (s, true);
  python_build = λ m q s. (s, err (PythonBuildError.timeout 600000));
  container_driver_available = λ s. (s, false);
  connect = λ socket s. (s, err (codes "no socket"));
  resolve_image_digest = λ image s. (s, err (codes "no image"));
  show_detect_error = λ e. codes "no runtime";
  show_build_error = λ e. codes "build timed out";
  show_python_build_error = λ e. codes "build timed out";
}

abbrev pub service : Config
service = record {
  build_mode = BuildModeSetting.auto;
  docker_socket = codes "/var/run/docker.sock";
  artifacts_dir = codes "/data/artifacts";
  build_dir = codes "/data/build";
  cache_dir = codes "/data/cache/cargo";
  build_timeout = 600000;
  defaults = record {
    timeout_secs = 60;
    concurrency = 1;
    memory_mib = 256;
    min_instances = 0;
    max_instances = 4;
    idle_timeout_secs = 300;
    queue_policy = QueuePolicy.wait;
    queue_max_wait_secs = 10;
  };
  pubsub = none;
  python = record {
    mode = PythonModeSetting.auto;
    has_container_builder = false;
    installer = PythonInstaller.auto;
    python_bin = [];
    uv_bin = codes "uv";
    container_image = codes "python:3.14";
    functions_framework_spec = codes "functions-framework";
    cache_root = codes "/data/cache";
    passthrough_env = [];
  };
}

abbrev pub greeter : Function
greeter = record {
  name = codes "greeter";
  trigger = http;
  source = dir (codes "/src/greeter") none;
  runtime = some Runtime.rust;
  env = [];
  entry_point = codes "main";
  timeout_secs = 60;
  concurrency = 8;
  memory_mib = 256;
  min_instances = 0;
  max_instances = 4;
  idle_timeout_secs = 300;
  queue_policy = QueuePolicy.wait;
  queue_max_wait_secs = 10;
  state = FunctionState.ready;
  current_revision = some 1;
  last_error = none;
  created_at = 1;
  updated_at = 1;
}

abbrev pub first_revision : Revision
first_revision = record {
  function_name = codes "greeter";
  number = 1;
  artifact_path = some (codes "/data/artifacts/greeter/1/function");
  image_digest = none;
  build_id = some (codes "b0");
  snapshot = greeter;
  build_mode = some BuildMode.host;
  container_image = none;
  artifact_pruned = false;
  created_at = 2;
}

abbrev pub running_build : Build
running_build = record {
  id = codes "b0";
  function_name = codes "greeter";
  revision = 1;
  mode = BuildMode.host;
  status = BuildStatus.running;
  log_path = codes "/data/artifacts/greeter/1/build.log";
  exit_code = none;
  started_at = 1;
  finished_at = none;
  tool = some (codes "cargo");
}

abbrev pub entry : Entry
entry = record {
  driver = DriverKind.process_driver;
  pool = record {
    config = config;
    spec_template = spec;
    instances = [];
    starting = none;
    is_draining = false;
    global_free = 4;
    fresh = 0;
  };
}

abbrev pub deployed : World outside
deployed = record {
  store = record {
    functions = (codes "greeter", greeter) ∷ [];
    revisions = ((codes "greeter", 1), first_revision) ∷ [];
    builds = (codes "b0", running_build) ∷ [];
    bindings = [];
  };
  pools = (codes "greeter", entry) ∷ [];
  reapers = (codes "greeter", tt) ∷ [];
  building = [];
  global_free = 4;
  logs = record { capacity = 1000; buffers = [] };
  broker = tt;
  outer = 10;
}

abbrev pub redeploy : RegisterRequest
redeploy = record {
  name = codes "greeter";
  trigger = http;
  source = dir (codes "/src/greeter") none;
  runtime = none;
  entry_point = none;
  env = [];
  timeout_secs = none;
  concurrency = none;
  memory_mib = none;
  min_instances = none;
  max_instances = none;
  idle_timeout_secs = none;
  queue_policy = none;
  queue_max_wait_secs = none;
}
