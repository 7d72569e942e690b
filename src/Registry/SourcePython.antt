-- ===== src/Registry/SourcePython.antt =====
-- registry/service.rs, `register_source_python`.
pub mod Redeploy
use open_functions.Prelude.{
  ℕ, ◌+◌, max, Bytes, codes, Bool, true, false, Option, none, some, unwrap_or, is_some, ◌++◌, ◌∷◌,
  [], List, join, to_string, is_empty, Dict, lookup, insert, remove, list_Eq, ℕ_Eq, Result, ok, err,
  if◌then◌else◌, map_err, guard,
}
use open_functions.Prelude.States.{Op, ◌>>=◌, ◌>>◌, return, modify, lift}
use open_functions.Model.{
  Runtime, Metadata, Trigger, Source, Function, FunctionState, Revision, Build, BuildMode,
  BuildStatus, detect_runtime, default_entry_point,
}
use open_functions.Validate.{validate_function}
use open_functions.Store.{put_function, put_revision, put_build}
use open_functions.Registry.{
  Outside, World, Config, Registering, RegisterRequest, RegisterAccepted, RegisterError, validation,
  store, unsupported, build_in_progress, source_not_found, invalid_runtime, BuildRequest,
  BuildError, non_zero_exit, PythonBuildRequest, PythonBuildError, BuildModeSetting,
  PythonModeSetting,
}
use open_functions.Registry.Builders.{
  asks, select_source_builder, select_python_builder, resolve_dir_runtime,
}
use open_functions.Registry.Activate.{
  reading, read_function, write, bind_pubsub_trigger, activate_revision,
}
use open_functions.Registry.Record.{build_function_record, next_revision, accept, fail_build, ship}

module _ (o : Outside) where
  container_image_of : Config → BuildMode → Option Bytes
  container_image_of c BuildMode.host = none
  container_image_of c BuildMode.container = some c.python.container_image

  unfoldable pub conclude_python :
      Config
      → Function
      → Option Function
      → (number : ℕ) → (artifact_dir : Bytes) → Build
      → Result PythonBuildError Bytes
      → Registering o (Unit {0})
  unfolding container_image_of
  conclude_python c function existing number artifact_dir build (ok tool) = do
    t ← reading o
    write o (
        put_build (record build {
          finished_at = some t;
          status = BuildStatus.succeeded;
          exit_code = some 0;
          tool = some tool;
        }))
    ship o c function number artifact_dir build.id build.mode (container_image_of c build.mode)
  conclude_python c function existing number artifact_dir build (err e) = do
    t ← reading o
    write o (
        put_build (record build {
          finished_at = some t;
          status = BuildStatus.failed;
          exit_code = none;
          tool = none;
        }))
    fail_build o function existing (o.show_python_build_error e)

  -- From the accepted record on.
  unfoldable pub build_python :
      Config
      → RegisterRequest
      → Bytes
      → BuildMode
      → Option Function
      → Function
      → Registering o RegisterAccepted
  build_python c req source_path mode existing function = do
    let number = next_revision existing
    build_id ← asks o (o.new_uuid)
    let artifact_dir = join (join c.artifacts_dir req.name) (to_string number)
    let build : Build = record {
      id = build_id;
      function_name = req.name;
      revision = number;
      mode = mode;
      status = BuildStatus.running;
      log_path = join artifact_dir (codes "build.log");
      exit_code = none;
      started_at = max function.created_at function.updated_at;
      finished_at = none;
      tool = none;
    }
    write o (put_build build)
    outcome ← asks o (
        o.python_build mode (record {
          function_name = req.name;
          revision = number;
          source_dir = source_path;
          artifact_dir = artifact_dir;
          entry_point = function.entry_point;
          timeout = c.build_timeout;
          cache_root = c.python.cache_root;
          functions_framework_spec = c.python.functions_framework_spec;
          installer = c.python.installer;
          python_bin = if is_empty c.python.python_bin then none else some c.python.python_bin;
          uv_bin = c.python.uv_bin;
          container_image = c.python.container_image;
          passthrough_env = c.python.passthrough_env;
        }))
    conclude_python c function existing number artifact_dir build outcome
    return (record { revision = number; build_id = build_id })

  -- With the builder chosen.
  unfoldable pub deploy_python :
      Config → RegisterRequest → Bytes → BuildMode → Registering o RegisterAccepted
  deploy_python c req source_path mode = do
    existing ← read_function o req.name
    t ← reading o
    let function = build_function_record c req existing t
    accept o c function
    build_python c req source_path mode existing function

  unfoldable pub register_source_python :
      Config → RegisterRequest → Bytes → Registering o RegisterAccepted
  register_source_python c req source_path =
      select_python_builder o c >>= deploy_python c req source_path
