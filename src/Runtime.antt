-- ===== src/Runtime.antt =====
-- crates/open-functions-core/src/runtime/mod.rs and launch.rs: what a driver is told to start. The
-- drivers themselves (processes, containers) are behind `Driver`, and are parameters of the model.
use open_functions.Prelude.{
  ℕ, Bytes, codes, Option, none, some, List, [], ◌∷◌, ◌++◌, Dict, insert, join, parent_or,
  to_string, list_Eq, ℕ_Eq,
}
use open_functions.Model.{Function, RuntimeLabel}

pub data Launch : Type 0 where
  process : (program : Bytes) (args : List Bytes) (cwd : Option Bytes) → Launch
  container :
      (image : Bytes) (binds : List Bytes) (cmd : Option (List Bytes)) (working_dir : Option Bytes)
      → Launch

unfoldable pub rust_process : Bytes → Launch
rust_process artifact = process artifact [] none

unfoldable pub launch_image : Bytes → Launch
launch_image image_ref = container image_ref [] none none

unfoldable pub python_host : Bytes → Launch
python_host artifact_dir =
    process (join artifact_dir (codes "venv/bin/functions-framework")) []
      (some (join artifact_dir (codes "src")))

abbrev pub container_artifact_dir : Bytes
container_artifact_dir = codes "/function"

unfoldable pub python_container : Bytes → Bytes → Launch
python_container artifact_dir image =
    container image (((artifact_dir ++ b':' ∷ container_artifact_dir) ++ codes ":ro") ∷ [])
      (some ((container_artifact_dir ++ codes "/venv/bin/functions-framework") ∷ []))
      (some (container_artifact_dir ++ codes "/src"))

pub data PythonLaunchMode : Type 0 where
  on_process on_container : PythonLaunchMode

unfoldable pub host_value : PythonLaunchMode → Bytes
host_value on_process = codes "127.0.0.1"
host_value on_container = codes "0.0.0.0"

insert_all : List (Bytes × Bytes) → Dict Bytes Bytes → Dict Bytes Bytes
insert_all [] env = env
insert_all ((k, v) ∷ kvs) env = insert_all kvs (insert k v env)

-- `env.extend(more)`: a key of `more` replaces what `env` has.
unfoldable pub extend : Dict Bytes Bytes → Dict Bytes Bytes → Dict Bytes Bytes
unfolding insert_all
extend env more = insert_all more env

unfoldable pub python_instance_env : Function → PythonLaunchMode → Bytes → Dict Bytes Bytes
unfolding host_value insert_all
python_instance_env f mode venv_dir =
    insert_all
      ((codes "HOST", host_value mode)
        ∷ (codes "FUNCTION_SOURCE", codes "main.py")
        ∷ (codes "WORKERS", codes "1")
        ∷ (codes "THREADS", to_string f.concurrency)
        ∷ (codes "CLOUD_RUN_TIMEOUT_SECONDS", to_string f.timeout_secs)
        ∷ (codes "LOG_EXECUTION_ID", codes "true")
        ∷ (codes "PYTHONUNBUFFERED", codes "1")
        ∷ (codes "PYTHONDONTWRITEBYTECODE", codes "1")
        ∷ (codes "VIRTUAL_ENV", venv_dir)
        ∷ (codes "PATH", venv_dir ++ codes "/bin:/usr/local/bin:/usr/bin:/bin")
        ∷ (codes "HOME", parent_or venv_dir venv_dir)
        ∷ [])
      []

pub record InstanceSpec : Type 0 where
  pub function_name : Bytes
  pub revision : ℕ
  pub entry_point : Bytes
  pub signature_type : Bytes
  pub env : Dict Bytes Bytes
  pub memory_mib : ℕ
  pub start_timeout : ℕ
  pub launch : Launch
  pub runtime_label : RuntimeLabel

pub data DriverError : Type 0 where
  spawn : Bytes → DriverError
  ready_timeout : ℕ → DriverError
  exited_before_ready : Option ℕ → DriverError
