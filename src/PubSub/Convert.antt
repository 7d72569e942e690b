-- ===== src/PubSub/Convert.antt =====
-- crates/open-functions-core/src/pubsub/convert.rs: from the body of a push delivery to the
-- CloudEvent that a function gets. JSON, base64, dates and events are of other crates: `Json` and
-- `Formats`.
pub mod Accepts
pub mod Again
use open_functions.Prelude.{
  ℕ, Bytes, codes, Bool, true, false, Option, none, some, unwrap_or, List, [], ◌∷◌, ◌++◌, Dict,
  Result, ok, err, ◌>>=◌, if◌then◌else◌, ltb, ◌^◌,
}
use open_functions.Store.{not_after}

-- `serde_json`: `Object` is its `Map`, and `entries` the order in which `iter` goes through it.
pub record Json : Type 1 where
  pub Value : Type 0
  pub Object : Type 0
  pub from_slice : Bytes → Option Value
  pub to_vec : Value → Option Bytes
  pub as_object : Value → Option Object
  pub as_str : Value → Option Bytes
  pub as_u64 : Value → Option ℕ
  pub is_null : Value → Bool
  pub show : Value → Bytes
  pub get : Bytes → Object → Option Value
  pub entries : Object → List (Bytes × Value)
  pub new : Object
  pub insert : Bytes → Value → Object → Object
  pub string : Bytes → Value
  pub number : ℕ → Value
  pub object : Object → Value
  pub of_map : Dict Bytes Bytes → Option Value

-- `base64`'s standard engine, `chrono`'s RFC 3339 and `cloudevents`' builder.
pub record Formats (j : Json) : Type 1 where
  pub Event : Type 0
  pub decode : Bytes → Option Bytes
  pub encode : Bytes → Bytes
  pub parse_time : Bytes → Option ℕ
  pub build : (id source ty : Bytes) (time : ℕ) → j.Value → Option Event
  pub default_event : Event
  pub id : Event → Bytes
  pub source : Event → Bytes
  pub ty : Event → Bytes
  pub time : Event → Option ℕ
  pub data_of : Event → Option (j.Value)

pub data PushConvertError : Type 0 where
  invalid_json not_an_object missing_message invalid_base64 : PushConvertError

pub record PushEnvelope : Type 0 where
  pub message_id : Bytes
  pub publish_time : Bytes
  pub decoded : Bytes
  pub attributes : Dict Bytes Bytes
  pub ordering_key : Option Bytes
  pub subscription : Bytes
  pub delivery_attempt : Option ℕ

-- `BTreeMap::insert` of a key that is not there.
unfoldable pub put_entry : Bytes → Bytes → Dict Bytes Bytes → Dict Bytes Bytes
put_entry k v [] = (k, v) ∷ []
put_entry k v ((j, w) ∷ m) =
    let rest = put_entry k v m in if not_after k j then (k, v) ∷ (j, w) ∷ m else (j, w) ∷ rest

-- `ok_or`
abbrev pub ok_or : {E A : Type 0} → Option A → E → Result E A
ok_or none e = err e
ok_or (some a) e = ok a

-- `a.or_else(|| b)`
abbrev pub or_else : {A : Type 0} → Option A → Option A → Option A
or_else none b = b
or_else (some a) b = some a

-- `a.and_then(f)`
abbrev pub and_then : {A B : Type 0} → Option A → (A → Option B) → Option B
and_then none f = none
and_then (some a) f = f a

module _ (j : Json) where
  unfoldable pub string_field : j.Object → Bytes → Option Bytes
  string_field obj key = and_then (j.get key obj) (j.as_str)

  unfoldable pub json_value_to_attr_string : j.Value → Bytes
  json_value_to_attr_string v = unwrap_or (j.as_str v) (j.show v)

  -- The keys of an object are distinct, so it does not matter which entry is put first.
  unfoldable pub attributes_of : List (Bytes × j.Value) → Dict Bytes Bytes
  unfolding json_value_to_attr_string
  attributes_of [] = []
  attributes_of ((k, v) ∷ es) = put_entry k (json_value_to_attr_string v) (attributes_of es)

  -- `u32::try_from(n).ok()`
  abbrev pub to_u32 : ℕ → Option ℕ
  to_u32 n = if ltb n (2 ^ 32) then some n else none

module _ (j : Json) (f : Formats j) where
  unfoldable pub message_data : j.Object → Result PushConvertError Bytes
  message_data message = elim (j.get (codes "data") message) [
    | none ↦ ok []
    | some v ↦
        let content : Result PushConvertError Bytes = elim (j.as_str v) [
          | none ↦ err invalid_base64
          | some s ↦ ok_or (f.decode s) invalid_base64
        ] in
        if j.is_null v then ok [] else content
  ]

  -- `received_at` is what `Utc::now().to_rfc3339()` gives.
  unfoldable pub envelope_of :
      (received_at : Bytes) → j.Object → j.Object → (content : Bytes) → PushEnvelope
  envelope_of received_at root message content = record {
    message_id =
        unwrap_or
          (or_else (string_field j message (codes "messageId"))
            (string_field j message (codes "message_id")))
          [];
    publish_time =
        unwrap_or
          (or_else (string_field j message (codes "publishTime"))
            (string_field j message (codes "publish_time")))
          received_at;
    decoded = content;
    attributes = elim (and_then (j.get (codes "attributes") message) (j.as_object)) [
      | none ↦ []
      | some obj ↦ attributes_of j (j.entries obj)
    ];
    ordering_key = string_field j message (codes "orderingKey");
    subscription = unwrap_or (string_field j root (codes "subscription")) [];
    delivery_attempt =
        and_then (and_then (j.get (codes "deliveryAttempt") root) (j.as_u64)) (to_u32 j);
  }

  unfoldable pub parse_push_envelope :
      (received_at : Bytes) → Bytes → Result PushConvertError PushEnvelope
  unfolding message_data envelope_of
  parse_push_envelope received_at raw = do
    root ← ok_or (j.from_slice raw) invalid_json
    root_object ← ok_or (j.as_object root) not_an_object
    message ← ok_or (and_then (j.get (codes "message") root_object) (j.as_object)) missing_message
    content ← message_data message
    ok (envelope_of received_at root_object message content)

pub record CloudEventParams : Type 0 where
  pub project : Bytes
  pub topic : Bytes

module _ (j : Json) (f : Formats j) where
  unfoldable pub message_of : PushEnvelope → j.Object
  message_of e =
      let attributes = unwrap_or (j.of_map (e.attributes)) (j.object (j.new)) in
      j.insert (codes "orderingKey") (j.string (unwrap_or (e.ordering_key) [])) (
        j.insert (codes "publishTime") (j.string (e.publish_time)) (
          j.insert (codes "messageId") (j.string (e.message_id)) (
            j.insert (codes "attributes") attributes
              (j.insert (codes "data") (j.string (f.encode (e.decoded))) (j.new)))))

  abbrev pub with_attempt : Option ℕ → j.Object → j.Object
  with_attempt none o = o
  with_attempt (some n) o = j.insert (codes "deliveryAttempt") (j.number n) o

  unfoldable pub event_data : PushEnvelope → j.Value
  unfolding message_of
  event_data e = j.object (
      with_attempt (e.delivery_attempt) (
        j.insert (codes "subscription") (j.string (e.subscription))
          (j.insert (codes "message") (j.object (message_of e)) (j.new))))

  -- `now` is the receipt time.
  unfoldable pub to_cloud_event : (now : ℕ) → PushEnvelope → CloudEventParams → f.Event
  unfolding event_data
  to_cloud_event now e params =
      let source =
        codes "//pubsub.googleapis.com/projects/"
        ++ params.project
        ++ codes "/topics/"
        ++ params.topic in
      let time = unwrap_or (f.parse_time (e.publish_time)) now in
      unwrap_or
        (f.build (e.message_id) source (codes "google.cloud.pubsub.topic.v1.messagePublished") time
          (event_data e))
        (f.default_event)
