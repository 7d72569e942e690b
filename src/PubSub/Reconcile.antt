-- ===== src/PubSub/Reconcile.antt =====
-- crates/open-functions-core/src/pubsub/reconcile.rs. The store is the in-memory one; durations are
-- milliseconds, and `now` is what `Utc::now()` returns for `next_retry_at`.
pub mod Backoff
pub mod Outcomes
use open_functions.Prelude.{
  ℕ, zero, suc, ◌+◌, ◌*◌, ◌≤◌, min, Bytes, codes, Bool, true, false, Option, none, some, is_some,
  unwrap_or, List, [], ◌∷◌, ◌++◌, Result, ok, err, leb, ltb, ◌==◌, ◌=?◌, list_Eq, ℕ_Eq, ◌&&◌, ◌||◌,
  if◌then◌else◌, to_string,
}
use open_functions.Model.{TriggerBinding, BindingState, pending, bound, unbinding, error}
use open_functions.Store.{
  MemoryStore, StoreError, get_binding, put_binding, delete_binding, list_bindings,
}
use open_functions.PubSub.Client.{
  Broker, Call, PubSubError, unreachable, http, Subscription, SubscriptionRequest, OpenPubusbClient,
  create_subscription, get_subscription, delete_subscription, recreate_subscription,
}

pub record DesiredBinding : Type 0 where
  pub function_name : Bytes
  pub project : Bytes
  pub topic : Bytes
  pub push_endpoint : Bytes
  pub ack_deadline_seconds : ℕ

pub record Reconciler : Type 0 where
  pub client : OpenPubusbClient
  pub initial_backoff : ℕ
  pub max_backoff : ℕ

unfoldable pub subscription_name : Bytes → Bytes
subscription_name function_name = codes "open-functions-" ++ function_name

backoff_after : Reconciler → BindingState → ℕ
backoff_after r pending = min (r.initial_backoff * 2) r.max_backoff
backoff_after r unbinding = min (r.initial_backoff * 2) r.max_backoff
backoff_after r _ = r.initial_backoff

unfoldable pub next_backoff : Reconciler → Option TriggerBinding → ℕ
unfolding backoff_after
next_backoff r none = r.initial_backoff
next_backoff r (some previous) = backoff_after r previous.state

unfoldable pub request_for : DesiredBinding → SubscriptionRequest
request_for d = record {
  topic = codes "projects/" ++ d.project ++ codes "/topics/" ++ d.topic;
  push_endpoint = d.push_endpoint;
  ack_deadline_seconds = d.ack_deadline_seconds;
}

endpoint_is : Bytes → Option Bytes → Bool
endpoint_is push_endpoint none = false
endpoint_is push_endpoint (some e) = e =? push_endpoint

-- `existing.topic == req.topic && existing.push_config...`
unfoldable pub is_match : SubscriptionRequest → DesiredBinding → Subscription → Bool
unfolding endpoint_is
is_match req d existing =
    existing.topic =? req.topic && endpoint_is d.push_endpoint existing.push_endpoint

abbrev pub is_transient : ℕ → Bool
is_transient status = (leb 500 status && ltb status 600) || status == 409

-- The binding to store for what the server did; `wait` is `next_backoff`.
unfoldable pub binding_for :
    DesiredBinding → (now wait : ℕ) → Result PubSubError Subscription → TriggerBinding
binding_for d now wait (ok sub) = record {
  function_name = d.function_name;
  subscription = sub.name;
  topic = d.topic;
  push_endpoint = d.push_endpoint;
  state = bound;
  last_error = none;
  next_retry_at = none;
}
binding_for d now wait (err (unreachable url)) = record {
  function_name = d.function_name;
  subscription = subscription_name d.function_name;
  topic = d.topic;
  push_endpoint = d.push_endpoint;
  state = pending;
  last_error = some (codes "open-pubusb unreachable");
  next_retry_at = some (now + wait);
}
binding_for d now wait (err (http status body)) = record {
  function_name = d.function_name;
  subscription = subscription_name d.function_name;
  topic = d.topic;
  push_endpoint = d.push_endpoint;
  state = if is_transient status then pending else error;
  last_error = some (codes "open-pubusb " ++ to_string status ++ codes ": " ++ body);
  next_retry_at = if is_transient status then some (now + wait) else none;
}

module _ (b : Broker) where
  open b use {State}

  -- The `match` on `get_subscription` after a 409.
  on_existing :
      Reconciler
      → DesiredBinding
      → State × Result PubSubError (Option Subscription)
      → State × Result PubSubError Subscription
  on_existing r d (s, err e) = (s, err e)
  on_existing r d (s, ok none) =
      (s, err (http 409 (codes "subscription vanished between create and get")))
  on_existing r d (s, ok (some existing)) =
      if is_match (request_for d) d existing
      then (s, ok existing)
      else recreate_subscription b r.client (subscription_name d.function_name) (request_for d) s

  on_created :
      Reconciler
      → DesiredBinding
      → State × Result PubSubError Subscription
      → State × Result PubSubError Subscription
  on_created r d (s, ok sub) = (s, ok sub)
  on_created r d (s, err (unreachable url)) = (s, err (unreachable url))
  on_created r d (s, err (http status body)) =
      if status == 409
      then on_existing r d (get_subscription b r.client (subscription_name d.function_name) s)
      else (s, err (http status body))

  unfoldable pub bind_outcome :
      Reconciler → DesiredBinding → State → State × Result PubSubError Subscription
  unfolding on_created on_existing
  bind_outcome r d s =
      on_created r d
        (create_subscription b r.client (subscription_name d.function_name) (request_for d) s)

  -- With the binding that it stores.
  unfoldable pub try_bind :
      Reconciler
      → DesiredBinding
      → (now : ℕ) → State × MemoryStore
      → (State × MemoryStore) × Result StoreError TriggerBinding
  try_bind r d now (s, store) = elim (get_binding d.function_name store) [
    | err e ↦ ((s, store), err e)
    | ok previous ↦
        let outcome = bind_outcome r d s in
        let binding = binding_for d now (next_backoff r previous) outcome.1 in
        elim (put_binding binding store) [
          | err e ↦ ((outcome.0, store), err e)
          | ok store' ↦ ((outcome.0, store'), ok binding)
        ]
  ]

  -- What an unbind keeps of the previous binding, if there was one.
  unbind_name : Bytes → Option TriggerBinding → Bytes
  unbind_name function_name none = subscription_name function_name
  unbind_name function_name (some p) = p.subscription

  unbinding_for :
      Bytes → Option TriggerBinding → (error_text : Bytes) → (retry_at : ℕ) → TriggerBinding
  unbinding_for function_name previous error_text retry_at = record {
    function_name = function_name;
    subscription = unbind_name function_name previous;
    topic = elim previous [ none ↦ [] | some p ↦ p.topic ];
    push_endpoint = elim previous [ none ↦ [] | some p ↦ p.push_endpoint ];
    state = unbinding;
    last_error = some error_text;
    next_retry_at = some retry_at;
  }

  -- `show` is `Display` of a `PubSubError`, part of which the HTTP library writes.
  unfoldable pub try_unbind :
      Reconciler
      → (show : PubSubError → Bytes) → Bytes
      → (now : ℕ) → State × MemoryStore
      → (State × MemoryStore) × Result StoreError (Unit {0})
  unfolding unbinding_for unbind_name
  try_unbind r show function_name now (s, store) = elim (get_binding function_name store) [
    | err e ↦ ((s, store), err e)
    | ok previous ↦
        let outcome = delete_subscription b r.client (unbind_name function_name previous) s in
        let after : Result StoreError MemoryStore = elim outcome.1 [
          | ok _ ↦ delete_binding function_name store
          | err e ↦
              put_binding
                (unbinding_for function_name previous (show e) (now + next_backoff r previous))
                store
        ] in
        elim after [
          | err e ↦ ((outcome.0, store), err e)
          | ok store' ↦ ((outcome.0, store'), ok tt)
        ]
  ]

  is_due : ℕ → TriggerBinding → Bool
  is_due now binding = elim binding.next_retry_at [ none ↦ true | some at ↦ leb at now ]

  -- `at` is what `Utc::now()` returns in the retry itself.
  retry :
      Reconciler
      → (PubSubError → Bytes)
      → (ack : ℕ) → (project : Bytes) → (at : ℕ) → TriggerBinding
      → BindingState
      → State × MemoryStore
      → State × MemoryStore
  retry r show ack project at binding pending w =
      (try_bind r
        (record {
          function_name = binding.function_name;
          project = project;
          topic = binding.topic;
          push_endpoint = binding.push_endpoint;
          ack_deadline_seconds = ack;
        })
        at w).0
  retry r show ack project at binding unbinding w = (try_unbind r show binding.function_name at w).0
  retry r show ack project at binding bound w = w
  retry r show ack project at binding error w = w

  -- Whether a binding is due is asked at `now`, the time at which the sweep begins; `later k` is the
  -- time at which the retry of the `k`-th binding reads the clock.
  sweep :
      Reconciler
      → (PubSubError → Bytes)
      → (ack : ℕ) → (project : Bytes) → (now : ℕ) → (later : ℕ → ℕ) → (k : ℕ) → List TriggerBinding
      → State × MemoryStore
      → State × MemoryStore
  sweep r show ack project now later k [] w = w
  sweep r show ack project now later k (binding ∷ rest) w =
      let retried = retry r show ack project (later k) binding binding.state w in
      sweep r show ack project now later (k + 1) rest (if is_due now binding then retried else w)

  -- An outcome that is not stored is logged, and the sweep goes on.
  unfoldable pub sweep_once :
      Reconciler
      → (PubSubError → Bytes)
      → (ack : ℕ) → (project : Bytes) → (now : ℕ) → (later : ℕ → ℕ) → State × MemoryStore
      → State × MemoryStore
  unfolding sweep retry is_due
  sweep_once r show ack project now later (s, store) = elim (list_bindings store) [
    | err e ↦ (s, store)
    | ok bindings ↦ sweep r show ack project now later 0 bindings (s, store)
  ]
