-- ===== src/Registry/SourceRust.antt =====
-- registry/service.rs, `register_source_rust`.
pub mod Redeploy
use open_functions.Prelude.{
  ℕ, ◌+◌, max, Bytes, codes, Bool, true, false, Option, none, some, unwrap_or, is_some, ◌++◌, ◌∷◌,
  [], List, join, to_string, is_empty, Dict, lookup, insert, remove, list_Eq, ℕ_Eq, Result, ok, err,
  if◌then◌else◌, map_err, guard,
}
use open_functions.Prelude.States.{Op, ◌>>=◌, ◌>>◌, return, modify, lift}
use open_functions.Model.{
  Runtime, Metadata, Trigger, Source, Function, FunctionState, Revision, Build, BuildMode,
  BuildStatus, detect_runtime, default_entry_point,
}
use open_functions.Validate.{validate_function}
use open_functions.Store.{put_function, put_revision, put_build}
use open_functions.Registry.{
  Outside, World, Config, Registering, RegisterRequest, RegisterAccepted, RegisterError, validation,
  store, unsupported, build_in_progress, source_not_found, invalid_runtime, BuildRequest,
  BuildError, non_zero_exit, PythonBuildRequest, PythonBuildError, BuildModeSetting,
  PythonModeSetting,
}
use open_functions.Registry.Builders.{
  asks, select_source_builder, select_python_builder, resolve_dir_runtime,
}
use open_functions.Registry.Activate.{
  reading, read_function, write, bind_pubsub_trigger, activate_revision,
}
use open_functions.Registry.Record.{build_function_record, next_revision, accept, fail_build, ship}

exit_code_of : BuildError → Option ℕ
exit_code_of (non_zero_exit code log) = some code
exit_code_of _ = none

module _ (o : Outside) where
  -- What follows `builder.build`.
  unfoldable pub conclude_rust :
      Config
      → Function
      → Option Function
      → (number : ℕ) → (artifact_path : Bytes) → Build
      → Result BuildError (Unit {0})
      → Registering o (Unit {0})
  unfolding exit_code_of
  conclude_rust c function existing number artifact_path build (ok _) = do
    t ← reading o
    write o (
        put_build (record build {
          finished_at = some t;
          status = BuildStatus.succeeded;
          exit_code = some 0;
        }))
    ship o c function number artifact_path build.id build.mode none
  conclude_rust c function existing number artifact_path build (err e) = do
    t ← reading o
    write o (
        put_build (record build {
          finished_at = some t;
          status = BuildStatus.failed;
          exit_code = exit_code_of e;
        }))
    fail_build o function existing (o.show_build_error e)

  -- The record of a build that starts.
  abbrev pub running_rust :
      Config → RegisterRequest → BuildMode → Option Function → Function → (build_id : Bytes) → Build
  running_rust c req mode existing function build_id = record {
    id = build_id;
    function_name = req.name;
    revision = next_revision existing;
    mode = mode;
    status = BuildStatus.running;
    log_path =
        join (join (join c.artifacts_dir req.name) (to_string (next_revision existing)))
          (codes "build.log");
    exit_code = none;
    started_at = max function.created_at function.updated_at;
    finished_at = none;
    tool = some (codes "cargo");
  }

  -- From the accepted record on.
  unfoldable pub build_rust :
      Config
      → RegisterRequest
      → Bytes
      → Option Bytes
      → BuildMode
      → Option Function
      → Function
      → Registering o RegisterAccepted
  build_rust c req source_path bin mode existing function = do
    let number = next_revision existing
    build_id ← asks o (o.new_uuid)
    let artifact_dir = join (join c.artifacts_dir req.name) (to_string number)
    let artifact_path = join artifact_dir (codes "function")
    let log_path = join artifact_dir (codes "build.log")
    let build = running_rust c req mode existing function build_id
    write o (put_build build)
    outcome ← asks o (
        o.rust_build mode (record {
          function_name = req.name;
          revision = number;
          source_dir = source_path;
          bin = bin;
          artifact_path = artifact_path;
          log_path = log_path;
          cargo_target_dir = join (join c.build_dir req.name) (codes "target");
          cache_dir = c.cache_dir;
          timeout = c.build_timeout;
        }))
    conclude_rust c function existing number artifact_path build outcome
    return (record { revision = number; build_id = build_id })

  -- With the builder chosen.
  unfoldable pub deploy_rust :
      Config → RegisterRequest → Bytes → Option Bytes → BuildMode → Registering o RegisterAccepted
  deploy_rust c req source_path bin mode = do
    existing ← read_function o req.name
    t ← reading o
    let function = build_function_record c req existing t
    accept o c function
    build_rust c req source_path bin mode existing function

  unfoldable pub register_source_rust :
      Config → RegisterRequest → Bytes → Option Bytes → Registering o RegisterAccepted
  register_source_rust c req source_path bin =
      select_source_builder o c.build_mode >>= deploy_rust c req source_path bin

  -- What a registration has done when it awaits `builder.build`, with the builder chosen.
  unfoldable pub start_build : Config → RegisterRequest → BuildMode → Registering o (Unit {0})
  start_build c req mode = do
    existing ← read_function o req.name
    t ← reading o
    let function = build_function_record c req existing t
    accept o c function
    build_id ← asks o (o.new_uuid)
    write o (put_build (running_rust c req mode existing function build_id))

  unfoldable pub start_source_rust : Config → RegisterRequest → Registering o (Unit {0})
  unfolding start_build
  start_source_rust c req = select_source_builder o c.build_mode >>= start_build c req
