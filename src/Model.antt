-- ===== src/Model.antt =====
-- The entities of crates/open-functions-core/src/model (function.rs, runtime.rs, build.rs,
-- revision.rs, binding.rs). A `String` is its UTF-8 bytes, a `u32` a number, an `i32` exit code the
-- number of its bit pattern, a `DateTime<Utc>` the number of its microseconds; a `BTreeMap` is the
-- list of its entries in the order of the keys.
use open_functions.Prelude.{
  ℕ, Bytes, codes, Bool, true, false, Option, none, some, Dict, Result, ok, err, ◌>>=◌,
}

pub data Runtime : Type 0 where
  rust python314 : Runtime

unfoldable pub label : Runtime → Bytes
label rust = codes "rust"
label python314 = codes "python314"

pub data RuntimeLabel : Type 0 where
  rust python314 image : RuntimeLabel

unfoldable pub as_str : RuntimeLabel → Bytes
as_str RuntimeLabel.rust = codes "rust"
as_str RuntimeLabel.python314 = codes "python314"
as_str RuntimeLabel.image = codes "image"

unfoldable pub from_declared : Option Runtime → Bool → RuntimeLabel
from_declared (some Runtime.rust) is_image_mode = RuntimeLabel.rust
from_declared (some Runtime.python314) is_image_mode = RuntimeLabel.python314
from_declared none true = RuntimeLabel.image
from_declared none false = RuntimeLabel.image

-- What `std::fs::metadata` answers for a path.
pub data Metadata : Type 0 where
  file not_file not_found : Metadata
  io_error : Bytes → Metadata

pub data DetectRuntimeError : Type 0 where
  ambiguous not_found : Bytes → DetectRuntimeError
  io : Bytes → Bytes → DetectRuntimeError

unfoldable pub path_is_file : Bytes → Metadata → Result DetectRuntimeError Bool
path_is_file path Metadata.file = ok true
path_is_file path Metadata.not_file = ok false
path_is_file path Metadata.not_found = ok false
path_is_file path (Metadata.io_error source) = err (DetectRuntimeError.io path source)

pick_runtime : Bytes → Bool → Bool → Result DetectRuntimeError Runtime
pick_runtime dir true true = err (DetectRuntimeError.ambiguous dir)
pick_runtime dir true false = ok Runtime.rust
pick_runtime dir false true = ok Runtime.python314
pick_runtime dir false false = err (DetectRuntimeError.not_found dir)

-- `join` is `Path::join`, and `metadata` the file system's answers.
unfoldable pub detect_runtime :
    (Bytes → Bytes → Bytes) → (Bytes → Metadata) → Bytes → Result DetectRuntimeError Runtime
unfolding path_is_file pick_runtime
detect_runtime join metadata dir = do
  let cargo_toml = join dir (codes "Cargo.toml")
  let main_py = join dir (codes "main.py")
  has_cargo ← path_is_file cargo_toml (metadata cargo_toml)
  has_main_py ← path_is_file main_py (metadata main_py)
  pick_runtime dir has_cargo has_main_py

pub data FunctionState : Type 0 where
  building ready failed deleting : FunctionState

pub data Trigger : Type 0 where
  http : Trigger
  pubsub : (topic : Bytes) → Trigger

pub data Source : Type 0 where
  dir : (path : Bytes) (bin : Option Bytes) → Source
  image : (image_ref : Bytes) → Source

pub data QueuePolicy : Type 0 where
  wait reject : QueuePolicy

pub record Function : Type 0 where
  pub name : Bytes
  pub trigger : Trigger
  pub source : Source
  pub runtime : Option Runtime
  pub env : Dict Bytes Bytes
  pub entry_point : Bytes
  pub timeout_secs : ℕ
  pub concurrency : ℕ
  pub memory_mib : ℕ
  pub min_instances : ℕ
  pub max_instances : ℕ
  pub idle_timeout_secs : ℕ
  pub queue_policy : QueuePolicy
  pub queue_max_wait_secs : ℕ
  pub state : FunctionState
  pub current_revision : Option ℕ
  pub last_error : Option Bytes
  pub created_at : ℕ
  pub updated_at : ℕ

abbrev pub default_entry_point : Bytes
default_entry_point = codes "function"

pub data BuildMode : Type 0 where
  host container : BuildMode

pub data BuildStatus : Type 0 where
  running succeeded failed : BuildStatus

pub record Build : Type 0 where
  pub id : Bytes
  pub function_name : Bytes
  pub revision : ℕ
  pub mode : BuildMode
  pub status : BuildStatus
  pub log_path : Bytes
  pub exit_code : Option ℕ
  pub started_at : ℕ
  pub finished_at : Option ℕ
  pub tool : Option Bytes

pub record Revision : Type 0 where
  pub function_name : Bytes
  pub number : ℕ
  pub artifact_path : Option Bytes
  pub image_digest : Option Bytes
  pub build_id : Option Bytes
  pub snapshot : Function
  pub build_mode : Option BuildMode
  pub container_image : Option Bytes
  pub artifact_pruned : Bool
  pub created_at : ℕ

pub data BindingState : Type 0 where
  pending bound unbinding error : BindingState

pub record TriggerBinding : Type 0 where
  pub function_name : Bytes
  pub subscription : Bytes
  pub topic : Bytes
  pub push_endpoint : Bytes
  pub state : BindingState
  pub last_error : Option Bytes
  pub next_retry_at : Option ℕ
