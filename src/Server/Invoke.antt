-- ===== src/Server/Invoke.antt =====
-- server/invoke.rs: `handle`, the handler of every call but the push deliveries.

use open_functions.Prelude.{
  ℕ, ◌*◌, Bytes, codes, true, false, Option, none, some, [], ◌∷◌, ◌++◌, lookup, list_Eq, ℕ_Eq,
  Result, ok, err, if◌then◌else◌,
}
use open_functions.Model.{Function}
use open_functions.Store.{get_function}
use open_functions.Pool.{AcquiredInstance, AcquireError, Pool, rejected, queue_timeout}
use open_functions.Registry.{Outside, Entry}
use open_functions.Forward.{RequestRewriteContext, ForwardFailure, map_outcome, execution_id_header}
use open_functions.Forward.Proxy.{Http, Request, Response, Client}
use open_functions.Server.{
  Circumstances, Reply, passed, error_reply, Host, no_such_function, show_store_error, is_ready,
  forward_failure_outcome, show_failure, api_not_found, internal_error, unavailable, not_ready_yet,
  too_many, record_invocation, acquire_from_pool, call,
}

module _ (w : Http) where
  -- The path replaced by `rest_path`, with the query as it was.
  unfoldable pub rewrite_request_path : Request w → Bytes → Option (Request w)
  rewrite_request_path req rest_path =
      let path_and_query : Bytes = elim (w.query (req.uri)) [
        | none ↦ rest_path
        | some q ↦ rest_path ++ b'?' ∷ q
      ] in
      elim (w.with_path_and_query path_and_query (req.uri)) [
        | none ↦ none
        | some uri ↦ some (record req { uri = uri })
      ]

module _ (o : Outside) (w : Http) (client : Client w) (c : Circumstances) where
  abbrev pub Handled : Type 0
  Handled = Option (Host o w client × Reply w)

  -- The reply to a call that was not forwarded.
  unfoldable pub turned_away :
      (name : Bytes)
      → Function
      → (outcome : Bytes) (status : ℕ) → Reply w
      → Host o w client
      → Handled
  turned_away name f outcome status reply h =
      some (record_invocation o w client name f (codes "http") outcome status false h, reply)

  unfoldable pub refuse : (name : Bytes) → Function → AcquireError → Host o w client → Handled
  unfolding turned_away
  refuse name f rejected h = turned_away name f (codes "rejected") 429 too_many h
  refuse name f (queue_timeout _) h = turned_away name f (codes "rejected") 429 too_many h
  refuse name f AcquireError.draining h =
      turned_away name f (codes "rejected") 503
        (error_reply 503 ((codes "connection", codes "close") ∷ []) (record {
          error = codes "function is being deleted";
          code = codes "UNAVAILABLE";
          state = none;
        }))
        h
  refuse name f (AcquireError.spawn e) h =
      turned_away name f (codes "error") 502
        (error_reply 502 []
          (record { error = c.show_driver_error e; code = codes "UNAVAILABLE"; state = none }))
        h

  -- The reply to a call that was forwarded.
  unfoldable pub answer :
      (name : Bytes)
      → Function
      → (execution_id : Bytes) → Host o w client × Result ForwardFailure (Response w)
      → Host o w client × Reply w
  answer name f execution_id (h, ok resp) = (
    record_invocation o w client name f (codes "http") (codes "ok") resp.status true h,
    passed resp,
  )
  answer name f execution_id (h, err failure) =
      let mapping = map_outcome failure in
      (
        record_invocation o w client name f (codes "http") (forward_failure_outcome failure)
            (mapping.status) true h,
        error_reply (mapping.status) ((execution_id_header, execution_id) ∷ [])
            (record { error = show_failure failure; code = mapping.code; state = none }),
      )

  unfoldable pub forward_call :
      (name : Bytes)
      → Function
      → (client_addr : Bytes) (original_host : Option Bytes) → Request w
      → Entry
      → Pool
      → AcquiredInstance
      → Host o w client
      → Host o w client × Reply w
  unfolding answer
  forward_call name f client_addr original_host req entry p a h =
      let (outer, execution_id) = o.new_uuid h.world.outer in
      let ctx : RequestRewriteContext = record {
        execution_id = execution_id;
        client_addr = client_addr;
        proto = codes "http";
        original_host = original_host;
      } in
      answer name f execution_id (
        call o w client c name entry p a req ctx (f.timeout_secs * 1000)
          (record h { world = record (h.world) { outer = outer } }))

  -- `f` is the record, and its pool is looked up by the name that was resolved.
  unfoldable pub invoke_pool :
      Bytes
      → Function
      → (client_addr : Bytes) (original_host : Option Bytes) → Request w
      → Host o w client
      → Handled
  unfolding turned_away refuse forward_call
  invoke_pool name f client_addr original_host req h = elim (lookup name h.world.pools) [
    | none ↦ turned_away name f (codes "rejected") 503 (unavailable (codes "function not ready")) h
    | some entry ↦ elim (acquire_from_pool o w client c name entry h) [
      | none ↦ none
      | some (h', (p, err e)) ↦ refuse name f e h'
      | some (h', (p, ok a)) ↦ some (forward_call name f client_addr original_host req entry p a h')
    ]
  ]

  unfoldable pub invoke :
      Bytes
      → (client_addr : Bytes) (original_host : Option Bytes) → Request w
      → Host o w client
      → Handled
  unfolding invoke_pool turned_away
  invoke name client_addr original_host req h = elim (get_function name h.world.store) [
    | ok none ↦ some (h, api_not_found (no_such_function name))
    | err e ↦ some (h, internal_error (show_store_error e))
    | ok (some f) ↦
        let away = turned_away name f (codes "rejected") 503 (not_ready_yet f) h in
        let into_pool = invoke_pool name f client_addr original_host req h in
        if is_ready f then into_pool else away
  ]
