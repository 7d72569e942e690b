-- ===== src/Registry/Record.antt =====
-- registry/service.rs: the records that every flow of a registration makes.
use open_functions.Prelude.{
  ℕ, ◌+◌, Bytes, false, Option, none, some, unwrap_or, list_Eq, ℕ_Eq, map_err,
}
use open_functions.Prelude.States.{◌>>=◌, ◌>>◌, modify, lift}
use open_functions.Model.{
  Trigger, Function, FunctionState, Revision, BuildMode, default_entry_point,
}
use open_functions.Validate.{validate_function}
use open_functions.Store.{put_function, put_revision}
use open_functions.Registry.{Outside, World, Config, Registering, RegisterRequest, validation}
use open_functions.Registry.Activate.{reading, write, bind_pubsub_trigger, activate_revision}

module _ (c : Config) where
  unfoldable pub build_function_record : RegisterRequest → Option Function → (now : ℕ) → Function
  build_function_record req existing now = record {
    name = req.name;
    trigger = req.trigger;
    source = req.source;
    runtime = req.runtime;
    env = req.env;
    entry_point = unwrap_or req.entry_point default_entry_point;
    timeout_secs = unwrap_or req.timeout_secs c.defaults.timeout_secs;
    concurrency = unwrap_or req.concurrency c.defaults.concurrency;
    memory_mib = unwrap_or req.memory_mib c.defaults.memory_mib;
    min_instances = unwrap_or req.min_instances c.defaults.min_instances;
    max_instances = unwrap_or req.max_instances c.defaults.max_instances;
    idle_timeout_secs = unwrap_or req.idle_timeout_secs c.defaults.idle_timeout_secs;
    queue_policy = unwrap_or req.queue_policy c.defaults.queue_policy;
    queue_max_wait_secs = unwrap_or req.queue_max_wait_secs c.defaults.queue_max_wait_secs;
    state = FunctionState.building;
    current_revision = elim existing [ none ↦ none | some f ↦ f.current_revision ];
    last_error = none;
    created_at = elim existing [ none ↦ now | some f ↦ f.created_at ];
    updated_at = now;
  }

-- `current_revision`, or 0, plus 1.
abbrev pub next_revision : Option Function → ℕ
next_revision none = 1
next_revision (some f) = unwrap_or f.current_revision 0 + 1

-- The state after a failed build.
unfoldable pub state_after_failure : Option Function → FunctionState
state_after_failure none = FunctionState.failed
state_after_failure (some f) = elim f.state [
  | FunctionState.ready ↦ FunctionState.ready
  | FunctionState.building ↦ FunctionState.failed
  | FunctionState.failed ↦ FunctionState.failed
  | FunctionState.deleting ↦ FunctionState.failed
]

module _ (o : Outside) where
  unfoldable pub bind_trigger : Config → Function → Trigger → World o → World o
  bind_trigger c function Trigger.http w = w
  bind_trigger c function (Trigger.pubsub topic) w =
      bind_pubsub_trigger o c function.name topic function.timeout_secs w

  -- The checks, the first record and the binding, which all flows share.
  unfoldable pub accept : Config → Function → Registering o (Unit {0})
  unfolding bind_trigger
  accept c function = do
    lift (map_err validation (validate_function function))
    write o (put_function function)
    modify (bind_trigger c function function.trigger)

  -- The record after a failed build.
  unfoldable pub fail_build : Function → Option Function → Bytes → Registering o (Unit {0})
  fail_build function existing message = do
    t ← reading o
    write o (
        put_function (record function {
          state = state_after_failure existing;
          last_error = some message;
          updated_at = t;
        }))

  -- The revision of a build that succeeded, and its activation.
  unfoldable pub ship :
      Config
      → Function
      → (number : ℕ) → (artifact_path build_id : Bytes) → BuildMode
      → (container_image : Option Bytes) → Registering o (Unit {0})
  ship c function number artifact_path build_id mode container_image = do
    t ← reading o
    let revision : Revision = record {
      function_name = function.name;
      number = number;
      artifact_path = some artifact_path;
      image_digest = none;
      build_id = some build_id;
      snapshot = record function { state = FunctionState.ready; current_revision = some number };
      build_mode = some mode;
      container_image = container_image;
      artifact_pruned = false;
      created_at = t;
    }
    write o (put_revision revision)
    activate_revision o c function.name revision
