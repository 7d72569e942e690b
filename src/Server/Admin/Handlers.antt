-- ===== src/Server/Admin/Handlers.antt =====
-- server/admin.rs: the handlers, and how the router's layers put them together.
use open_functions.Prelude.{
  ℕ, Bytes, codes, Bool, true, false, not, ◌&&◌, Option, none, some, unwrap_or, List, [], ◌∷◌, ◌++◌,
  map, length, keep, lookup, ◌=?◌, list_Eq, ℕ_Eq, Result, ok, err, if◌then◌else◌,
}
use open_functions.Model.{Function, Trigger, QueuePolicy, Revision, Build, BindingState}
use open_functions.Store.{
  StoreError, get_function, list_functions, get_revision, get_build, get_binding,
}
use open_functions.Pool.{instance_count}
use open_functions.Logs.{buffer_for, tail}
use open_functions.Registry.{
  Outside, World, Config, RegisterRequest, RegisterError, RegisterAccepted, DeleteError, validation,
  store, unsupported, build_in_progress, source_not_found, invalid_runtime,
}
use open_functions.Registry.Register.{register}
use open_functions.Registry.Remove.{delete, stop_instances, list_builds_for, list_revisions_for}
use open_functions.Forward.{HttpHeaders}
use open_functions.Server.{show_store_error}
use open_functions.Server.Admin.{
  AdminState, Surface, DeployRequest, V1Request, lists, registers_nameless, registers, gets,
  deletes, stops, gets_build, gets_build_log, gets_logs, AdminRequest, health, readiness, metrics,
  v1, AdminReply, api_error, healthy, not_ready, deleting, stopped, metrics_disabled, ready_with,
  accepted, functions, function, build, text, lines, lines_and_more, follows, token_matches, plain,
  unauthorized,
}
use open_functions.Server.Admin.Details.{function_summary_json, build_json, function_detail_json}

abbrev pub store_error_response : StoreError → AdminReply
store_error_response e = plain 500 (codes "INTERNAL") (show_store_error e)

-- `body.queue_policy`, or the text that is neither.
unfoldable pub queue_policy_of : Option Bytes → Result Bytes (Option QueuePolicy)
queue_policy_of none = ok none
queue_policy_of (some s) =
    if s =? codes "wait"
    then ok (some QueuePolicy.wait)
    else if s =? codes "reject"
    then ok (some QueuePolicy.reject)
    else err s

abbrev pub request_of : Bytes → DeployRequest → Option QueuePolicy → RegisterRequest
request_of name body queue_policy = record {
  name = name;
  trigger = body.trigger;
  source = body.source;
  runtime = body.runtime;
  entry_point = body.entry_point;
  env = body.env;
  timeout_secs = body.timeout_secs;
  concurrency = body.concurrency;
  memory_mib = body.memory_mib;
  min_instances = body.min_instances;
  max_instances = body.max_instances;
  idle_timeout_secs = body.idle_timeout_secs;
  queue_policy = queue_policy;
  queue_max_wait_secs = body.queue_max_wait_secs;
}

module _ (o : Outside) (c : Config) (u : Surface o) where
  abbrev pub function_not_found : Bytes → AdminReply
  function_not_found name =
      plain 404 (codes "NOT_FOUND") (codes "function " ++ u.debug name ++ codes " not found")

  unfoldable pub register_reply : Result RegisterError RegisterAccepted → AdminReply
  register_reply (ok a) = accepted a.revision a.build_id
  register_reply (err (validation e)) =
      plain 400 (codes "INVALID_ARGUMENT") (u.show_validation_error e)
  register_reply (err (source_not_found path)) =
      plain 400 (codes "INVALID_ARGUMENT")
        (codes "source path " ++ u.debug path ++ codes " does not exist or is not a directory")
  register_reply (err (invalid_runtime reason)) = plain 400 (codes "INVALID_ARGUMENT") reason
  register_reply (err (unsupported reason needed)) =
      api_error 412 (codes "FAILED_PRECONDITION") reason (some needed)
  register_reply (err (build_in_progress name)) =
      plain 409 (codes "ABORTED")
        (codes "a build for " ++ u.debug name ++ codes " is already in progress")
  register_reply (err (store e)) = store_error_response e

  unfoldable pub register_function : Bytes → DeployRequest → World o → World o × AdminReply
  unfolding queue_policy_of register_reply
  register_function name body w = elim (queue_policy_of body.queue_policy) [
    | err other ↦ (
      w,
      plain 400 (codes "INVALID_ARGUMENT")
          (codes "queue_policy must be \"wait\" or \"reject\", got " ++ u.debug other),
    )
    | ok policy ↦
        let (w', result) = register o c (request_of name body policy) w in
        (w', register_reply result)
  ]

  unfoldable pub list_reply : Result StoreError (List Function) → AdminReply
  list_reply (ok fs) = functions (map function_summary_json fs)
  list_reply (err e) = store_error_response e

  abbrev pub or_empty : {A : Type 0} → Result StoreError (List A) → List A
  or_empty (ok xs) = xs
  or_empty (err e) = []

  -- `get_revision(..).ok().flatten()` at the current revision.
  abbrev pub current_of : Bytes → Option ℕ → World o → Option Revision
  current_of name none w = none
  current_of name (some number) w = elim (get_revision name number w.store) [
    | ok r ↦ r
    | err e ↦ none
  ]

  unfoldable pub detail_reply : AdminState → Bytes → Function → World o → AdminReply
  detail_reply state name f w = elim (get_binding name w.store) [
    | err e ↦ store_error_response e
    | ok binding ↦
        let running : ℕ = elim (lookup name w.pools) [
          | none ↦ 0
          | some entry ↦ instance_count entry.pool
        ] in
        let current = current_of name f.current_revision w in
        function (
          function_detail_json state f running binding (record {
            current_build_id = elim current [ none ↦ none | some r ↦ r.build_id ];
            current_revision = current;
            revisions = or_empty (list_revisions_for name (unwrap_or f.current_revision 0) w.store);
            builds = or_empty (list_builds_for name w.store);
          }))
  ]

  unfoldable pub get_reply :
      AdminState → Bytes → World o → Result StoreError (Option Function) → AdminReply
  unfolding detail_reply
  get_reply state name w (ok (some f)) = detail_reply state name f w
  get_reply state name w (ok none) = function_not_found name
  get_reply state name w (err e) = store_error_response e

  unfoldable pub deletion_reply : AdminReply → Result DeleteError (Unit {0}) → AdminReply
  deletion_reply done (ok _) = done
  deletion_reply done (err (DeleteError.not_found name)) = function_not_found name
  deletion_reply done (err (DeleteError.store e)) = store_error_response e

  unfoldable pub build_reply : Result StoreError (Option Build) → AdminReply
  build_reply (ok (some b)) = build b.function_name (build_json b)
  build_reply (ok none) = plain 404 (codes "NOT_FOUND") (codes "build not found")
  build_reply (err e) = store_error_response e

  unfoldable pub log_of : World o → Build → (follow : Bool) → AdminReply
  log_of w b true = follows b
  log_of w b false = elim (u.read_to_string (w.outer) (b.log_path)) [
    | some contents ↦ text contents
    | none ↦ plain 500 (codes "INTERNAL") (codes "failed to read build log: " ++ u.read_error)
  ]

  unfoldable pub log_unless_pruned :
      World o → Build → (follow : Bool) → Result StoreError (Option Revision) → AdminReply
  unfolding log_of
  log_unless_pruned w b follow (err e) = store_error_response e
  log_unless_pruned w b follow (ok none) = log_of w b follow
  log_unless_pruned w b follow (ok (some r)) =
      let shown = log_of w b follow in
      if r.artifact_pruned then plain 404 (codes "NOT_FOUND") (codes "build log pruned") else shown

  unfoldable pub log_reply :
      World o → (follow : Option Bool) → Result StoreError (Option Build) → AdminReply
  unfolding log_unless_pruned
  log_reply w follow (err e) = store_error_response e
  log_reply w follow (ok none) = plain 404 (codes "NOT_FOUND") (codes "build not found")
  log_reply w follow (ok (some b)) =
      log_unless_pruned w b (unwrap_or follow false)
        (get_revision b.function_name b.revision w.store)

  -- A line that cannot be written is left out.
  unfoldable pub ndjson : List o.LogRecord → Bytes
  ndjson [] = []
  ndjson (r ∷ rs) = elim (u.record_to_vec r) [
    | none ↦ ndjson rs
    | some line ↦ line ++ 10 ∷ ndjson rs
  ]

  unfoldable pub logs_of :
      (name : Bytes) (n : Option ℕ) (follow : Option Bool) → World o → World o × AdminReply
  unfolding ndjson
  logs_of name n follow w =
      let (logs, buffer) = buffer_for name w.logs in
      let initial = ndjson (tail (unwrap_or n 100) buffer) in
      (
        record w { logs = logs },
        if unwrap_or follow false then lines_and_more initial else lines initial,
      )

  unfoldable pub get_function_logs :
      (name : Bytes) (n : Option ℕ) (follow : Option Bool) → World o → World o × AdminReply
  unfolding logs_of
  get_function_logs name n follow w = elim (get_function name w.store) [
    | ok none ↦ (w, function_not_found name)
    | err e ↦ (w, store_error_response e)
    | ok (some f) ↦ logs_of name n follow w
  ]

  unfoldable pub serve_v1 : AdminState → V1Request → World o → World o × AdminReply
  unfolding register_function list_reply get_reply deletion_reply build_reply log_reply
      get_function_logs
  serve_v1 state lists w = (w, list_reply (list_functions w.store))
  serve_v1 state registers_nameless w = (
    w,
    plain 400 (codes "INVALID_ARGUMENT")
        (codes "function name is required: PUT /v1/functions/{name}"),
  )
  serve_v1 state (registers name body) w = register_function name body w
  serve_v1 state (gets name) w = (w, get_reply state name w (get_function name w.store))
  serve_v1 state (deletes name) w =
      let (w', result) = delete o c u.show_pubsub_error name w in
      (w', deletion_reply deleting result)
  serve_v1 state (stops name) w =
      let (w', result) = stop_instances o name w in (w', deletion_reply stopped result)
  serve_v1 state (gets_build name build_id) w = (w, build_reply (get_build build_id w.store))
  serve_v1 state (gets_build_log name build_id follow) w =
      (w, log_reply w follow (get_build build_id w.store))
  serve_v1 state (gets_logs name n follow) w = get_function_logs name n follow w

  -- The functions with a topic whose binding is pending.
  unfoldable pub is_pending : World o → Function → Bool
  is_pending w f = elim f.trigger [
    | Trigger.http ↦ false
    | Trigger.pubsub topic ↦ elim (get_binding f.name w.store) [
      | ok (some b) ↦ elim b.state [
        | BindingState.pending ↦ true
        | BindingState.bound ↦ false
        | BindingState.unbinding ↦ false
        | BindingState.error ↦ false
      ]
      | ok none ↦ false
      | err e ↦ false
    ]
  ]

  unfoldable pub readyz : AdminState → World o → AdminReply
  unfolding is_pending
  readyz state w =
      let counts : AdminReply = elim (list_functions w.store) [
        | ok fs ↦ ready_with (length fs) (length (keep (is_pending w) fs))
        | err e ↦ ready_with 0 0
      ] in
      if state.ready then counts else not_ready

  module _ (h : HttpHeaders) where
    unfoldable pub serve_metrics : AdminState → h.HeaderMap → AdminReply
    serve_metrics state headers =
        if not state.metrics_enabled
        then metrics_disabled
        else if state.metrics_require_token && not (token_matches h state.token headers)
        then unauthorized
        else text u.render

    -- `require_token` lies around every route below `/v1`.
    unfoldable pub serve_admin :
        AdminState → h.HeaderMap → AdminRequest → World o → World o × AdminReply
    unfolding serve_v1 readyz serve_metrics
    serve_admin state headers health w = (w, healthy)
    serve_admin state headers readiness w = (w, readyz state w)
    serve_admin state headers metrics w = (w, serve_metrics state headers)
    serve_admin state headers (v1 r) w =
        let served = serve_v1 state r w in
        if not (token_matches h state.token headers) then (w, unauthorized) else served
