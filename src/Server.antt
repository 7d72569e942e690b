-- ===== src/Server.antt =====
-- crates/open-functions/src/server/invoke.rs: the listener that takes the calls of functions and the
-- push deliveries. Here are its state, its replies, and what its two handlers share.
pub mod Invoke
pub mod Push
pub mod Handle
pub mod Admin
use open_functions.Prelude.{
  ℕ, Bytes, codes, Bool, true, false, Option, none, some, is_some, List, [], ◌∷◌, ◌++◌, Dict,
  lookup, insert, list_Eq, ℕ_Eq, Result, ok, err, if◌then◌else◌, not, ◌&&◌,
}
use open_functions.Model.{
  Function, FunctionState, Source, RuntimeLabel, as_str, from_declared, dir, image,
}
use open_functions.Store.{StoreError, not_found, backend}
use open_functions.Runtime.{DriverError}
use open_functions.Resolve.{Resolver}
use open_functions.Pool.{
  SocketAddr, AcquiredInstance, AcquireError, Pool, report_dead, release, rejected, queue_timeout,
}
use open_functions.Pool.Acquire.{Surroundings, acquire}
use open_functions.Registry.{Outside, World, Entry}
use open_functions.Forward.{
  RequestRewriteContext, ForwardFailure, timeout, connection_refused, connection_reset,
  queue_rejected, ErrorMapping, map_outcome,
}
use open_functions.Forward.Proxy.{Http, Request, Response, Client, forward}

pub record InvokeState : Type 0 where
  pub resolver : Resolver
  pub pubsub_project : Option Bytes

-- What the handler of a call meets: the waits and answers of `acquire`, the time at which it
-- begins, what other tasks do to the pool while the call is forwarded, and the time of receipt, as a
-- text and as a number.
pub record Circumstances : Type 0 where
  pub surroundings : Surroundings
  pub fuel : ℕ
  pub now : ℕ
  pub meanwhile : Pool → Pool
  pub received_at : Bytes
  pub received : ℕ
  pub show_driver_error : DriverError → Bytes

-- One step of `open_functions_invocations_total`; `timed` tells that there was a duration.
pub record Invocation : Type 0 where
  pub function : Bytes
  pub kind : Bytes
  pub outcome : Bytes
  pub runtime : Bytes
  pub status : ℕ
  pub timed : Bool

-- The JSON body of an error.
pub record ErrorBody : Type 0 where
  pub error : Bytes
  pub code : Bytes
  pub state : Option FunctionState

pub data Reply (w : Http) : Type 0 where
  passed : Response w → Reply w
  status_only : ℕ → Reply w
  error_reply : (status : ℕ) (headers : Dict Bytes Bytes) → ErrorBody → Reply w

-- The world, the client of the forwarder, and what the metrics count.
pub record Host (o : Outside) (w : Http) (c : Client w) : Type 0 where
  pub world : World o
  pub client : c.State
  pub invocations : List Invocation
  pub push_received : List (Bytes × Bytes)

-- The name of a resolved function has nothing that `{:?}` escapes.
abbrev quoted : Bytes → Bytes
quoted name = b'"' ∷ name ++ b'"' ∷ []

abbrev pub no_such_function : Bytes → Bytes
no_such_function name = codes "function " ++ quoted name ++ codes " not found"

abbrev pub no_pubsub_trigger : Bytes → Bytes
no_pubsub_trigger name = codes "function " ++ quoted name ++ codes " does not have a pubsub trigger"

unfoldable pub show_store_error : StoreError → Bytes
show_store_error (not_found name) = codes "not found: " ++ name
show_store_error (backend message) = codes "storage error: " ++ message

unfoldable pub runtime_label : Function → RuntimeLabel
runtime_label f = elim f.source [
  | dir _ _ ↦ from_declared f.runtime false
  | image _ ↦ from_declared f.runtime true
]

-- `current_revision.is_none() || state != Ready`, negated.
unfoldable pub is_ready : Function → Bool
is_ready f = elim f.state [
  | FunctionState.ready ↦ is_some f.current_revision
  | FunctionState.building ↦ false
  | FunctionState.failed ↦ false
  | FunctionState.deleting ↦ false
]

unfoldable pub forward_failure_outcome : ForwardFailure → Bytes
forward_failure_outcome timeout = codes "timeout"
forward_failure_outcome connection_refused = codes "error"
forward_failure_outcome connection_reset = codes "error"
forward_failure_outcome queue_rejected = codes "rejected"

-- `{failure:?}`
unfoldable pub show_failure : ForwardFailure → Bytes
show_failure timeout = codes "Timeout"
show_failure connection_refused = codes "ConnectionRefused"
show_failure connection_reset = codes "ConnectionReset"
show_failure queue_rejected = codes "QueueRejected"

module _ {w : Http} where
  abbrev pub plain_error : ℕ → Bytes → Bytes → Reply w
  plain_error status code message =
      error_reply status [] (record { error = message; code = code; state = none })

  abbrev pub api_bad_request : Bytes → Reply w
  api_bad_request = plain_error 400 (codes "INVALID_ARGUMENT")

  abbrev pub api_not_found : Bytes → Reply w
  api_not_found = plain_error 404 (codes "NOT_FOUND")

  abbrev pub internal_error : Bytes → Reply w
  internal_error = plain_error 500 (codes "INTERNAL")

  abbrev pub unavailable : Bytes → Reply w
  unavailable = plain_error 503 (codes "UNAVAILABLE")

  abbrev pub not_ready_yet : Function → Reply w
  not_ready_yet f = error_reply 503 [] (record {
    error = codes "function not ready";
    code = codes "UNAVAILABLE";
    state = some f.state;
  })

  unfoldable pub too_many : Reply w
  too_many =
      let mapping = map_outcome queue_rejected in
      error_reply (mapping.status) ((codes "retry-after", codes "1") ∷ [])
        (record { error = codes "too many concurrent requests"; code = mapping.code; state = none })

module _ (o : Outside) (w : Http) (client : Client w) where
  unfoldable pub record_invocation :
      (name : Bytes)
      → Function
      → (kind outcome : Bytes) (status : ℕ) (timed : Bool) → Host o w client
      → Host o w client
  unfolding runtime_label
  record_invocation name f kind outcome status timed h = record h {
    invocations =
        record {
          function = name;
          kind = kind;
          outcome = outcome;
          runtime = as_str (runtime_label f);
          status = status;
          timed = timed;
        }
        ∷ h.invocations;
  }

  unfoldable pub record_push_received : (name result : Bytes) → Host o w client → Host o w client
  record_push_received name result h = record h { push_received = (name, result) ∷ h.push_received }

  -- The pool of a function replaced, with the global permits that it leaves.
  abbrev pub with_pool : Bytes → Entry → Pool → Host o w client → Host o w client
  with_pool name entry p h = record h {
    world = record (h.world) {
      pools = insert name (record entry { pool = p }) h.world.pools;
      global_free = p.global_free;
    };
  }

  abbrev pub Acquiring : Type 0
  Acquiring = Option (Host o w client × (Pool × Result AcquireError AcquiredInstance))

  -- `pool.acquire()`; `none` means that the fuel ran out.
  unfoldable pub acquire_from_pool : Circumstances → Bytes → Entry → Host o w client → Acquiring
  acquire_from_pool c name entry h =
      elim (acquire c.surroundings c.fuel c.now
        (record (entry.pool) { global_free = h.world.global_free })) [
          | none ↦ none
          | some (p, r) ↦ some (with_pool name entry p h, (p, r))
        ]

  -- `report_dead` where the connection was refused or reset.
  unfoldable pub after_call : AcquiredInstance → Result ForwardFailure (Response w) → Pool → Pool
  after_call a (ok resp) p = p
  after_call a (err timeout) p = p
  after_call a (err queue_rejected) p = p
  after_call a (err connection_refused) p = (report_dead a.addr p).0
  after_call a (err connection_reset) p = (report_dead a.addr p).0

  -- The call is forwarded, the instance reported dead where it has to be, and its slot given back.
  unfoldable pub call :
      Circumstances
      → Bytes
      → Entry
      → Pool
      → AcquiredInstance
      → Request w
      → RequestRewriteContext
      → (limit : ℕ) → Host o w client
      → Host o w client × Result ForwardFailure (Response w)
  unfolding after_call
  call c name entry p a req ctx limit h =
      let (s, r) = forward w client (a.addr) req ctx limit (h.client) in
      (
        with_pool name entry (release a (after_call a r (c.meanwhile p))) (record h { client = s }),
        r,
      )
