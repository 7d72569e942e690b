-- ===== src/Server/Push.antt =====
-- server/invoke.rs: `handle_push`, the handler of the push deliveries.
pub mod Acked
use open_functions.Prelude.{
  ℕ, ◌*◌, ◌&&◌, Bytes, codes, Bool, true, false, Option, none, some, unwrap_or, List, [], ◌∷◌,
  lookup, list_Eq, ℕ_Eq, Result, ok, err, if◌then◌else◌, leb, ltb,
}
use open_functions.Model.{Function, Trigger}
use open_functions.Store.{get_function}
use open_functions.Pool.{AcquiredInstance, AcquireError, Pool, rejected, queue_timeout, release}
use open_functions.Registry.{Outside, World, Entry}
use open_functions.Forward.{RequestRewriteContext, ForwardFailure, map_outcome}
use open_functions.Forward.Proxy.{Http, Request, Response, Client}
use open_functions.PubSub.Convert.{
  Json, Formats, PushConvertError, invalid_json, not_an_object, missing_message, invalid_base64,
  PushEnvelope, parse_push_envelope, to_cloud_event,
}
use open_functions.Server.{
  InvokeState, Circumstances, Reply, status_only, Host, no_such_function, no_pubsub_trigger,
  show_store_error, is_ready, forward_failure_outcome, api_bad_request, api_not_found,
  internal_error, unavailable, not_ready_yet, record_invocation, record_push_received,
  acquire_from_pool, call, with_pool,
}

-- `to_bytes` reads a body of at most 10 MiB; `binary_mode` is the request that
-- `build_binary_mode_request` makes of an event with its header values and its data as JSON.
pub record Deliveries (w : Http) (j : Json) (f : Formats j) : Type 0 where
  pub to_bytes : w.Body → Option Bytes
  pub binary_mode :
      (method uri : Bytes) (headers : List (Bytes × Bytes)) (body : Bytes) → Option (Request w)
  pub show_time : ℕ → Bytes
  pub null : j.Value

unfoldable pub show_convert_error : PushConvertError → Bytes
show_convert_error invalid_json = codes "request body is not valid JSON"
show_convert_error not_an_object = codes "request body is not a JSON object"
show_convert_error missing_message = codes "missing required field \"message\""
show_convert_error invalid_base64 = codes "message.data is not valid base64"

-- `StatusCode::is_success`
abbrev pub is_success : ℕ → Bool
is_success status = leb 200 status && ltb status 300

module _ (w : Http) (j : Json) (f : Formats j) (d : Deliveries w j f) where
  abbrev pub time_header : Option ℕ → List (Bytes × Bytes)
  time_header none = []
  time_header (some t) = (codes "ce-time", d.show_time t) ∷ []

  unfoldable pub build_binary_mode_request : f.Event → Option (Request w)
  build_binary_mode_request event = elim (j.to_vec (unwrap_or (f.data_of event) d.null)) [
    | none ↦ none
    | some body ↦
        d.binary_mode (codes "POST") (codes "/")
          ((codes "ce-specversion", codes "1.0")
            ∷ (codes "ce-id", f.id event)
            ∷ (codes "ce-source", f.source event)
            ∷ (codes "ce-type", f.ty event)
            ∷ (codes "content-type", codes "application/json")
            ∷ time_header (f.time event))
          body
  ]

module _ (o : Outside) (w : Http) (client : Client w) (j : Json) (f : Formats j)
    (d : Deliveries w j f) (c : Circumstances) where
  abbrev pub Delivered : Type 0
  Delivered = Option (Host o w client × Reply w)

  unfoldable pub invalid : (name : Bytes) → Reply w → Host o w client → Delivered
  invalid name reply h = some (record_push_received o w client name (codes "invalid") h, reply)

  -- A delivery that is not forwarded, for the server to try again.
  unfoldable pub put_off :
      (name : Bytes)
      → Function
      → (outcome : Bytes) (status : ℕ) → Reply w
      → Host o w client
      → Delivered
  put_off name fn outcome status reply h = some (
    record_invocation o w client name fn (codes "event") outcome status false
        (record_push_received o w client name (codes "nack") h),
    reply,
  )

  unfoldable pub refuse_push :
      (name : Bytes) → Function → AcquireError → Host o w client → Delivered
  unfolding put_off
  refuse_push name fn rejected h = put_off name fn (codes "rejected") 429 (status_only 429) h
  refuse_push name fn (queue_timeout _) h =
      put_off name fn (codes "rejected") 429 (status_only 429) h
  refuse_push name fn AcquireError.draining h =
      put_off name fn (codes "rejected") 503 (status_only 503) h
  refuse_push name fn (AcquireError.spawn e) h =
      put_off name fn (codes "error") 503 (status_only 503) h

  unfoldable pub answer_push :
      (name : Bytes)
      → Function
      → Host o w client × Result ForwardFailure (Response w)
      → Host o w client × Reply w
  answer_push name fn (h, ok resp) =
      let counted : (result : Bytes) → ℕ → Host o w client = λ result status.
        record_invocation o w client name fn (codes "event") (codes "ok") status true
          (record_push_received o w client name result h) in
      if is_success (resp.status)
      then (counted (codes "ack") 204, status_only 204)
      else (counted (codes "nack") (resp.status), status_only (resp.status))
  answer_push name fn (h, err failure) =
      let mapping = map_outcome failure in
      (
        record_invocation o w client name fn (codes "event") (forward_failure_outcome failure)
            (mapping.status) true (record_push_received o w client name (codes "nack") h),
        status_only (mapping.status),
      )

  -- The delivery's event, sent to an instance under a fresh execution id.
  unfoldable pub call_push :
      (name : Bytes)
      → Function
      → Request w
      → Entry
      → Pool
      → AcquiredInstance
      → Host o w client
      → Host o w client × Result ForwardFailure (Response w)
  call_push name fn req entry p a h =
      let (outer, execution_id) = o.new_uuid h.world.outer in
      let ctx : RequestRewriteContext = record {
        execution_id = execution_id;
        client_addr = codes "127.0.0.1";
        proto = codes "http";
        original_host = none;
      } in
      call o w client c name entry p a req ctx (fn.timeout_secs * 1000)
        (record h { world = record (h.world) { outer = outer } })

  -- With an instance; its slot is given back if no request can be built.
  unfoldable pub push_acquired :
      (name : Bytes)
      → Function
      → f.Event
      → Entry
      → Pool
      → AcquiredInstance
      → Host o w client
      → Delivered
  unfolding put_off answer_push call_push
  push_acquired name fn event entry p a h = elim (build_binary_mode_request w j f d event) [
    | none ↦
        put_off name fn (codes "error") 500
          (internal_error (codes "failed to build CloudEvent request"))
          (with_pool o w client name entry (release a p) h)
    | some req ↦ some (answer_push name fn (call_push name fn req entry p a h))
  ]

  unfoldable pub push_pool : (name : Bytes) → Function → f.Event → Host o w client → Delivered
  unfolding put_off refuse_push push_acquired
  push_pool name fn event h = elim (lookup name h.world.pools) [
    | none ↦ put_off name fn (codes "rejected") 503 (unavailable (codes "function not ready")) h
    | some entry ↦ elim (acquire_from_pool o w client c name entry h) [
      | none ↦ none
      | some (h', (p, err e)) ↦ refuse_push name fn e h'
      | some (h', (p, ok a)) ↦ push_acquired name fn event entry p a h'
    ]
  ]

  unfoldable pub push_to :
      (name project topic : Bytes) → Function → PushEnvelope → Host o w client → Delivered
  unfolding put_off push_pool
  push_to name project topic fn envelope h =
      let event =
        to_cloud_event j f (c.received) envelope (record { project = project; topic = topic }) in
      let away = put_off name fn (codes "rejected") 503 (not_ready_yet fn) h in
      let into_pool = push_pool name fn event h in if is_ready fn then into_pool else away

  unfoldable pub deliver : (name project : Bytes) → PushEnvelope → Host o w client → Delivered
  unfolding invalid push_to
  deliver name project envelope h = elim (get_function name h.world.store) [
    | ok none ↦ invalid name (api_not_found (no_such_function name)) h
    | err e ↦ invalid name (internal_error (show_store_error e)) h
    | ok (some fn) ↦ elim fn.trigger [
      | Trigger.http ↦ invalid name (api_bad_request (no_pubsub_trigger name)) h
      | Trigger.pubsub topic ↦ push_to name project topic fn envelope h
    ]
  ]

  unfoldable pub handle_push :
      (pubsub_project : Option Bytes) (name : Bytes) → Request w → Host o w client → Delivered
  unfolding invalid deliver
  handle_push none name req h =
      invalid name (api_bad_request (codes "pubsub.enabled = false; push delivery is not accepted"))
        h
  handle_push (some project) name req h = elim (d.to_bytes req.body) [
    | none ↦ invalid name (api_bad_request (codes "failed to read request body")) h
    | some raw ↦ elim (parse_push_envelope j f c.received_at raw) [
      | err e ↦ invalid name (api_bad_request (show_convert_error e)) h
      | ok envelope ↦ deliver name project envelope h
    ]
  ]
