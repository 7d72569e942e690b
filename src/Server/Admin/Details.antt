-- ===== src/Server/Admin/Details.antt =====
-- server/admin.rs: the JSON of functions, revisions and builds.
use open_functions.Prelude.{
  ℕ, Bytes, codes, false, Option, none, some, is_empty, List, [], ◌∷◌, ◌++◌, map, strip_prefix,
  rsplit_once, if◌then◌else◌,
}
use open_functions.Model.{
  Runtime, label, Source, dir, image, Function, Revision, Build, TriggerBinding,
}
use open_functions.Registry.Activate.{trim_slashes}
use open_functions.Server.Admin.{
  AdminState, FunctionSummary, RevisionJson, BuildJson, FunctionDetail,
}

abbrev pub runtime_json : Option Runtime → Option Bytes
runtime_json none = none
runtime_json (some r) = some (label r)

unfoldable pub source_kind : Source → Bytes
source_kind (dir path bin) = codes "dir"
source_kind (image image_ref) = codes "image"

unfoldable pub function_summary_json : Function → FunctionSummary
unfolding source_kind
function_summary_json f = record {
  name = f.name;
  trigger = f.trigger;
  source_kind = source_kind f.source;
  runtime = runtime_json f.runtime;
  state = f.state;
  current_revision = f.current_revision;
  updated_at = f.updated_at;
}

unfoldable pub revision_json : Revision → RevisionJson
revision_json r = record {
  number = r.number;
  artifact_path = r.artifact_path;
  image_digest = r.image_digest;
  build_id = r.build_id;
  build_mode = r.build_mode;
  container_image = r.container_image;
  artifact_pruned = r.artifact_pruned;
  created_at = r.created_at;
}

unfoldable pub build_json : Build → BuildJson
build_json b = record {
  id = b.id;
  revision = b.revision;
  mode = b.mode;
  status = b.status;
  tool = b.tool;
  exit_code = b.exit_code;
  started_at = b.started_at;
  finished_at = b.finished_at;
}

-- `s.split_once(pat)`, as the part after the first `pat`.
unfoldable pub after_first : Bytes → Bytes → Option Bytes
after_first pat [] = strip_prefix pat []
after_first pat (b ∷ s) =
    let rest = after_first pat s in
    elim (strip_prefix pat (b ∷ s)) [ none ↦ rest | some tail ↦ some tail ]

abbrev port_of : Option Bytes → Bytes
port_of none = []
port_of (some rest) = elim (rsplit_once b':' rest) [ none ↦ [] | some (_, port) ↦ port ]

unfoldable pub host_url : Bytes → Bytes → Bytes → Bytes
unfolding after_first
host_url invoke_base_url name suffix =
    let port = port_of (after_first (codes "://") invoke_base_url) in
    let plain_url = codes "http://" ++ name ++ b'.' ∷ suffix in
    if is_empty port then plain_url else plain_url ++ b':' ∷ port

abbrev host_url_of : Option Bytes → Bytes → Bytes → Option Bytes
host_url_of none invoke_base_url name = none
host_url_of (some suffix) invoke_base_url name = some (host_url invoke_base_url name suffix)

pub record FunctionHistory : Type 0 where
  pub current_build_id : Option Bytes
  pub current_revision : Option Revision
  pub revisions : List Revision
  pub builds : List Build

unfoldable pub function_detail_json :
    AdminState
    → Function
    → (instances : ℕ) → Option TriggerBinding
    → FunctionHistory
    → FunctionDetail
unfolding host_url
function_detail_json state f instances binding history = record {
  function = f;
  runtime = runtime_json f.runtime;
  current_build_id = history.current_build_id;
  build_mode = elim history.current_revision [ none ↦ none | some r ↦ r.build_mode ];
  container_image = elim history.current_revision [ none ↦ none | some r ↦ r.container_image ];
  artifact_pruned = elim history.current_revision [ none ↦ false | some r ↦ r.artifact_pruned ];
  path_url = trim_slashes state.invoke_base_url ++ b'/' ∷ f.name;
  host_url = host_url_of state.host_suffix state.invoke_base_url f.name;
  instances_running = instances;
  binding = binding;
  revisions = map revision_json history.revisions;
  builds = map build_json history.builds;
}
