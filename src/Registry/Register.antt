-- ===== src/Registry/Register.antt =====
-- registry/service.rs: `register` and the flows that it dispatches to.
pub mod Keeps
pub mod Flows
pub mod Claims
use open_functions.Prelude.{
  ℕ, Bytes, codes, false, Option, none, some, is_some, ◌∷◌, [], lookup, insert, remove, list_Eq,
  ℕ_Eq, Result, err, if◌then◌else◌, map_err, guard,
}
use open_functions.Prelude.States.{◌>>=◌, ◌>>◌, return, lift}
use open_functions.Model.{Runtime, Source, Function, FunctionState, Revision}
use open_functions.Store.{put_revision}
use open_functions.Registry.{
  Outside, World, Config, Registering, RegisterRequest, RegisterAccepted, RegisterError,
  unsupported, build_in_progress, source_not_found,
}
use open_functions.Registry.Builders.{asks, resolve_dir_runtime}
use open_functions.Registry.Activate.{reading, read_function, write, activate_revision}
use open_functions.Registry.Record.{build_function_record, next_revision, accept}
use open_functions.Registry.SourceRust.{register_source_rust}
use open_functions.Registry.SourcePython.{register_source_python}

module _ (o : Outside) where
  docker_answer : {A : Type 0} → (o.State → o.State × Result Bytes A) → Registering o A
  docker_answer f =
      asks o f >>= λ r. lift (map_err (λ reason. unsupported reason (codes "docker" ∷ [])) r)

  -- From the accepted record on.
  unfoldable pub ship_image :
      Config
      → RegisterRequest
      → Function
      → (number : ℕ) → (digest : Bytes) → Registering o RegisterAccepted
  ship_image c req function number digest = do
    created ← reading o
    let revision : Revision = record {
      function_name = req.name;
      number = number;
      artifact_path = none;
      image_digest = some digest;
      build_id = none;
      snapshot = function;
      build_mode = none;
      container_image = none;
      artifact_pruned = false;
      created_at = created;
    }
    write o (put_revision revision)
    activate_revision o c req.name revision
    return (record { revision = number; build_id = codes "" })

  -- With the digest of the image.
  unfoldable pub deploy_image :
      Config → RegisterRequest → (digest : Bytes) → Registering o RegisterAccepted
  deploy_image c req digest = do
    existing ← read_function o req.name
    let number = next_revision existing
    t ← reading o
    let function : Function = record (build_function_record c req existing t) {
      state = FunctionState.ready;
      current_revision = some number;
    }
    accept o c function
    ship_image c req function number digest

  unfoldable pub register_image : Config → RegisterRequest → Bytes → Registering o RegisterAccepted
  unfolding docker_answer
  register_image c req image_ref = do
    available ← asks o (o.container_driver_available)
    lift (
        guard available (
          unsupported (codes "source.kind = image but the Docker daemon is not reachable")
            (codes "docker" ∷ [])))
    docker_answer (o.connect c.docker_socket)
    digest ← docker_answer (o.resolve_image_digest image_ref)
    deploy_image c req digest

  by_runtime :
      Config → RegisterRequest → Bytes → Option Bytes → Runtime → Registering o RegisterAccepted
  by_runtime c req source_path bin Runtime.rust = register_source_rust o c req source_path bin
  by_runtime c req source_path bin Runtime.python314 = register_source_python o c req source_path

  unfoldable pub register_source :
      Config → RegisterRequest → Bytes → Option Bytes → Registering o RegisterAccepted
  unfolding by_runtime
  register_source c req source_path bin = do
    runtime ← resolve_dir_runtime o req source_path
    by_runtime c (record req { runtime = some runtime }) source_path bin runtime

  unfoldable pub by_source : Config → RegisterRequest → Source → Registering o RegisterAccepted
  by_source c req (Source.dir path bin) w =
      let found = register_source c req path bin w in
      if o.is_dir w.outer path then found else (w, err (source_not_found path))
  by_source c req (Source.image image_ref) w = register_image c req image_ref w

  -- `building.insert(req.name)`
  unfoldable pub claim_name : Bytes → World o → World o
  claim_name name w = record w { building = insert name tt w.building }

  -- `building.remove(&req.name)`, whatever the outcome.
  unfoldable pub release_name :
      Bytes
      → World o × Result RegisterError RegisterAccepted
      → World o × Result RegisterError RegisterAccepted
  release_name name (w, result) = (record w { building = remove name w.building }, result)

  -- A registration that runs to its end. One whose future is dropped at the await on its build has
  -- claimed the name and run `start_source_rust`, and releases nothing.
  unfoldable pub register : Config → RegisterRequest → Registering o RegisterAccepted
  unfolding by_source claim_name release_name
  register c req w =
      let result = release_name req.name (by_source c req req.source (claim_name req.name w)) in
      if is_some (lookup req.name w.building) then (w, err (build_in_progress req.name)) else result
