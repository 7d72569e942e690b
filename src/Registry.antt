-- ===== src/Registry.antt =====
-- crates/open-functions-core/src/registry/service.rs: the types, and the state that the operations
-- share. One operation runs at a time: a request is not interleaved with others. What the builders,
-- the drivers, the file system, the clock and Docker answer is `Outside`.
pub mod Launches
pub mod Activate
pub mod Builders
pub mod Effects
pub mod Record
pub mod Serving
pub mod SourceRust
pub mod SourcePython
pub mod Register
pub mod Remove
pub mod Restore
use open_functions.Prelude.{ℕ, Bytes, Bool, Option, List, Dict, Result}
use open_functions.Prelude.States.{Op}
use open_functions.Model.{
  Runtime, Metadata, DetectRuntimeError, Trigger, Source, QueuePolicy, Function, BuildMode,
}
use open_functions.Validate.{ValidationError}
use open_functions.Store.{StoreError, MemoryStore}
use open_functions.Pool.{Pool}
use open_functions.Logs.{LogStore}
use open_functions.PubSub.Client.{Broker}
use open_functions.PubSub.Reconcile.{Reconciler}

pub data BuildModeSetting : Type 0 where
  auto host container : BuildModeSetting

pub data PythonModeSetting : Type 0 where
  auto host container : PythonModeSetting

pub data PythonInstaller : Type 0 where
  auto uv pip : PythonInstaller

pub record PythonSettings : Type 0 where
  pub mode : PythonModeSetting
  pub has_container_builder : Bool
  pub installer : PythonInstaller
  pub python_bin : Bytes
  pub uv_bin : Bytes
  pub container_image : Bytes
  pub functions_framework_spec : Bytes
  pub cache_root : Bytes
  pub passthrough_env : Dict Bytes Bytes

pub record PubsubBindingConfig : Type 0 where
  pub reconciler : Reconciler
  pub project : Bytes
  pub push_base_url : Bytes
  pub ack_deadline_max_secs : ℕ

pub record RegistrationDefaults : Type 0 where
  pub timeout_secs : ℕ
  pub concurrency : ℕ
  pub memory_mib : ℕ
  pub min_instances : ℕ
  pub max_instances : ℕ
  pub idle_timeout_secs : ℕ
  pub queue_policy : QueuePolicy
  pub queue_max_wait_secs : ℕ

pub record RegisterRequest : Type 0 where
  pub name : Bytes
  pub trigger : Trigger
  pub source : Source
  pub runtime : Option Runtime
  pub entry_point : Option Bytes
  pub env : Dict Bytes Bytes
  pub timeout_secs : Option ℕ
  pub concurrency : Option ℕ
  pub memory_mib : Option ℕ
  pub min_instances : Option ℕ
  pub max_instances : Option ℕ
  pub idle_timeout_secs : Option ℕ
  pub queue_policy : Option QueuePolicy
  pub queue_max_wait_secs : Option ℕ

pub data RegisterError : Type 0 where
  validation : ValidationError → RegisterError
  store : StoreError → RegisterError
  unsupported : (reason : Bytes) (needed : List Bytes) → RegisterError
  build_in_progress source_not_found invalid_runtime : Bytes → RegisterError

pub record RegisterAccepted : Type 0 where
  pub revision : ℕ
  pub build_id : Bytes

pub data DeleteError : Type 0 where
  not_found : Bytes → DeleteError
  store : StoreError → DeleteError

-- build/mod.rs and build/python/mod.rs: what goes to a builder and what comes back. An
-- `io::Error` or a `MetadataError` is its text.
pub record BuildRequest : Type 0 where
  pub function_name : Bytes
  pub revision : ℕ
  pub source_dir : Bytes
  pub bin : Option Bytes
  pub artifact_path : Bytes
  pub log_path : Bytes
  pub cargo_target_dir : Bytes
  pub cache_dir : Bytes
  pub timeout : ℕ

pub data BuildError : Type 0 where
  metadata spawn io : Bytes → BuildError
  timeout : ℕ → BuildError
  non_zero_exit : ℕ → Bytes → BuildError
  copy_artifact : (from to source : Bytes) → BuildError

pub record PythonBuildRequest : Type 0 where
  pub function_name : Bytes
  pub revision : ℕ
  pub source_dir : Bytes
  pub artifact_dir : Bytes
  pub entry_point : Bytes
  pub timeout : ℕ
  pub cache_root : Bytes
  pub functions_framework_spec : Bytes
  pub installer : PythonInstaller
  pub python_bin : Option Bytes
  pub uv_bin : Bytes
  pub container_image : Bytes
  pub passthrough_env : Dict Bytes Bytes

pub data PythonBuildError : Type 0 where
  unsupported_python : List Bytes → PythonBuildError
  snapshot_failed venv_failed install entry_point io : Bytes → PythonBuildError
  timeout : ℕ → PythonBuildError

pub data Removal : Type 0 where
  removed missing not_removed : Removal

pub data DriverKind : Type 0 where
  process_driver container_driver : DriverKind

-- The `show_` fields are `Display`.
pub record Outside : Type 1 where
  pub State : Type 0
  pub LogRecord : Type 0
  pub broker : Broker
  pub now : State → State × ℕ
  pub new_uuid : State → State × Bytes
  pub is_dir : State → Bytes → Bool
  pub metadata : State → Bytes → Metadata
  pub exists : State → Bytes → Bool
  pub remove_dir_all : Bytes → State → State × Removal
  pub rust_available : BuildMode → State → State × Bool
  pub rust_build : BuildMode → BuildRequest → State → State × Result BuildError (Unit {0})
  pub python_available : BuildMode → State → State × Bool
  pub python_build : BuildMode → PythonBuildRequest → State → State × Result PythonBuildError Bytes
  pub container_driver_available : State → State × Bool
  pub connect : Bytes → State → State × Result Bytes (Unit {0})
  pub resolve_image_digest : Bytes → State → State × Result Bytes Bytes
  pub show_detect_error : DetectRuntimeError → Bytes
  pub show_build_error : BuildError → Bytes
  pub show_python_build_error : PythonBuildError → Bytes

-- The fields of `RegistryService` that never change.
pub record Config : Type 0 where
  pub build_mode : BuildModeSetting
  pub docker_socket : Bytes
  pub artifacts_dir : Bytes
  pub build_dir : Bytes
  pub cache_dir : Bytes
  pub build_timeout : ℕ
  pub defaults : RegistrationDefaults
  pub pubsub : Option PubsubBindingConfig
  pub python : PythonSettings

-- A pool with the driver it was made with. The free permits of the process-wide semaphore are
-- `global_free` of the world: a pool gets them for a call, and gives them back.
pub record Entry : Type 0 where
  pub driver : DriverKind
  pub pool : Pool

pub record World (o : Outside) : Type 0 where
  pub store : MemoryStore
  pub pools : Dict Bytes Entry
  pub reapers : Dict Bytes (Unit {0})
  pub building : Dict Bytes (Unit {0})
  pub global_free : ℕ
  pub logs : LogStore (o.LogRecord)
  pub broker : o.broker.State
  pub outer : o.State

module _ (o : Outside) where
  abbrev pub Registering : Type 0 → Type 0
  Registering = Op (World o) RegisterError
