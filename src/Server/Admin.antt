-- ===== src/Server/Admin.antt =====
-- crates/open-functions/src/server/admin.rs: the admin listener. Here are its state, its requests as
-- the router hands them over, its replies, and the token that guards it.
pub mod Details
pub mod Handlers
pub mod Follow
pub mod Guarded
pub mod Deleted
use open_functions.Prelude.{
  ℕ, Bytes, codes, Bool, true, false, Option, none, some, List, [], ◌∷◌, Dict, strip_prefix, ◌=?◌,
  list_Eq, ℕ_Eq, ◌++◌,
}
use open_functions.Model.{
  Runtime, Trigger, Source, Function, FunctionState, Build, BuildMode, BuildStatus, TriggerBinding,
}
use open_functions.Validate.{ValidationError}
use open_functions.Registry.{Outside}
use open_functions.PubSub.Client.{PubSubError}
use open_functions.Forward.{HttpHeaders, first_text}

pub record AdminState : Type 0 where
  pub token : Option Bytes
  pub metrics_enabled : Bool
  pub metrics_require_token : Bool
  pub ready : Bool
  pub invoke_base_url : Bytes
  pub host_suffix : Option Bytes

-- What the listener gets from elsewhere: `{:?}` on texts, `Display` of errors, files, the JSON of a
-- log record, and the text of the metrics.
pub record Surface (o : Outside) : Type 0 where
  pub debug : Bytes → Bytes
  pub show_validation_error : ValidationError → Bytes
  pub show_pubsub_error : PubSubError → Bytes
  pub read_to_string : o.State → Bytes → Option Bytes
  pub read_error : Bytes
  pub record_to_vec : o.LogRecord → Option Bytes
  pub render : Bytes

-- The body of a registration.
pub record DeployRequest : Type 0 where
  pub trigger : Trigger
  pub source : Source
  pub runtime : Option Runtime
  pub entry_point : Option Bytes
  pub env : Dict Bytes Bytes
  pub timeout_secs : Option ℕ
  pub concurrency : Option ℕ
  pub memory_mib : Option ℕ
  pub min_instances : Option ℕ
  pub max_instances : Option ℕ
  pub idle_timeout_secs : Option ℕ
  pub queue_policy : Option Bytes
  pub queue_max_wait_secs : Option ℕ

-- The routes below `/v1`, with what the extractors take from the request.
pub data V1Request : Type 0 where
  lists registers_nameless : V1Request
  registers : (name : Bytes) → DeployRequest → V1Request
  gets deletes stops : (name : Bytes) → V1Request
  gets_build : (name build_id : Bytes) → V1Request
  gets_build_log : (name build_id : Bytes) (follow : Option Bool) → V1Request
  gets_logs : (name : Bytes) (tail : Option ℕ) (follow : Option Bool) → V1Request

pub data AdminRequest : Type 0 where
  health readiness metrics : AdminRequest
  v1 : V1Request → AdminRequest

pub record FunctionSummary : Type 0 where
  pub name : Bytes
  pub trigger : Trigger
  pub source_kind : Bytes
  pub runtime : Option Bytes
  pub state : FunctionState
  pub current_revision : Option ℕ
  pub updated_at : ℕ

pub record RevisionJson : Type 0 where
  pub number : ℕ
  pub artifact_path : Option Bytes
  pub image_digest : Option Bytes
  pub build_id : Option Bytes
  pub build_mode : Option BuildMode
  pub container_image : Option Bytes
  pub artifact_pruned : Bool
  pub created_at : ℕ

pub record BuildJson : Type 0 where
  pub id : Bytes
  pub revision : ℕ
  pub mode : BuildMode
  pub status : BuildStatus
  pub tool : Option Bytes
  pub exit_code : Option ℕ
  pub started_at : ℕ
  pub finished_at : Option ℕ

-- The fields of `function` in the JSON are those of the record, the runtime by its label.
pub record FunctionDetail : Type 0 where
  pub function : Function
  pub runtime : Option Bytes
  pub current_build_id : Option Bytes
  pub build_mode : Option BuildMode
  pub container_image : Option Bytes
  pub artifact_pruned : Bool
  pub path_url : Bytes
  pub host_url : Option Bytes
  pub instances_running : ℕ
  pub binding : Option TriggerBinding
  pub revisions : List RevisionJson
  pub builds : List BuildJson

-- An error has the texts of `details.needed`, if it has details. `metrics_disabled` is a plain text
-- with the status 404. A stream is given by what it begins
-- with, or by the build whose log it follows.
pub data AdminReply : Type 0 where
  api_error : (status : ℕ) (code message : Bytes) (needed : Option (List Bytes)) → AdminReply
  healthy not_ready deleting stopped metrics_disabled : AdminReply
  ready_with : (functions bindings_pending : ℕ) → AdminReply
  accepted : (revision : ℕ) (build_id : Bytes) → AdminReply
  functions : List FunctionSummary → AdminReply
  function : FunctionDetail → AdminReply
  build : (function_name : Bytes) → BuildJson → AdminReply
  text : Bytes → AdminReply
  lines lines_and_more : Bytes → AdminReply
  follows : Build → AdminReply

abbrev pub bearer : Bytes
bearer = codes "Bearer "

-- `v.strip_prefix("Bearer ")` on a header that may not be there.
abbrev pub provided : Option Bytes → Option Bytes
provided none = none
provided (some v) = strip_prefix bearer v

abbrev pub is_same : Option Bytes → Bytes → Bool
is_same none token = false
is_same (some p) token = p =? token

module _ (h : HttpHeaders) where
  unfoldable pub token_matches : Option Bytes → h.HeaderMap → Bool
  token_matches none headers = true
  token_matches (some token) headers =
      is_same (provided (first_text h (codes "authorization") headers)) token

abbrev pub plain : ℕ → Bytes → Bytes → AdminReply
plain status code message = api_error status code message none

abbrev pub unauthorized : AdminReply
unauthorized = plain 401 (codes "UNAUTHENTICATED") (codes "authentication required")
