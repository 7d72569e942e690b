-- ===== src/PubSub/Convert/Again.antt =====
-- The data of a delivery's CloudEvent, read as a delivery again.
use open_functions.Prelude.{
  ℕ, Bytes, codes, true, false, Option, none, some, unwrap_or, List, [], ◌∷◌, Dict, ok, ◌≡◌, refl,
  sym, ◌∙◌, ap, subst, inr, if◌then◌else◌, ◌^◌, ◌<◌, ◌=?◌, list_Eq, ℕ_Eq, arith, lt→ltb, =?_refl,
}
use open_functions.Store.{not_after}
use open_functions.PubSub.Convert.{
  Json, Formats, PushEnvelope, and_then, put_entry, attributes_of, json_value_to_attr_string,
  string_field, envelope_of, parse_push_envelope, with_attempt, message_of, event_data,
  CloudEventParams, to_cloud_event, to_u32,
}
use open_functions.PubSub.Convert.Accepts.{parse_push_envelope_iff}

-- A `BTreeMap`: each key is no later than the next.
abbrev pub IsOrdered : Dict Bytes Bytes → Type 0
IsOrdered [] = Unit {0}
IsOrdered ((k, v) ∷ []) = Unit {0}
IsOrdered ((k, v) ∷ (j, w) ∷ m) = (not_after k j ≡ true) × IsOrdered ((j, w) ∷ m)

module _ (j : Json) where
  abbrev pub strings : Dict Bytes Bytes → List (Bytes × j.Value)
  strings [] = []
  strings ((k, v) ∷ m) = (k, j.string v) ∷ strings m

-- What the crates promise.
pub record IsLawful (j : Json) (f : Formats j) : Type 0 where
  pub from_slice-to_vec :
      (v : j.Value) (raw : Bytes) → j.to_vec v ≡ some raw → j.from_slice raw ≡ some v
  pub get-insert :
      (k m : Bytes) (v : j.Value) (o : j.Object)
      → j.get k (j.insert m v o) ≡ (if k =? m then some v else j.get k o)
  pub get-new : (k : Bytes) → j.get k j.new ≡ none
  pub as_object-object : (o : j.Object) → j.as_object (j.object o) ≡ some o
  pub as_str-string : (s : Bytes) → j.as_str (j.string s) ≡ some s
  pub is_null-string : (s : Bytes) → j.is_null (j.string s) ≡ false
  pub as_u64-number : (n : ℕ) → n < 2 ^ 32 → j.as_u64 (j.number n) ≡ some n
  pub of_map_entries :
      (m : Dict Bytes Bytes)
      → (v : j.Value) × (o : j.Object) × (j.of_map m ≡ some v)
        × (j.as_object v ≡ some o)
        × (j.entries o ≡ strings j m)
  pub decode-encode : (content : Bytes) → f.decode (f.encode content) ≡ some content
  pub data_of-build :
      (id source ty : Bytes) (time : ℕ) (v : j.Value)
      → (e : f.Event) × (f.build id source ty time v ≡ some e) × (f.data_of e ≡ some v)

put_entry_first :
    (k v : Bytes) (m : Dict Bytes Bytes) → IsOrdered ((k, v) ∷ m) → put_entry k v m ≡ (k, v) ∷ m
unfolding put_entry
put_entry_first k v [] h = refl
put_entry_first k v ((i, w) ∷ m) h = ground (arith, h.0)

IsOrdered-tail : (k v : Bytes) (m : Dict Bytes Bytes) → IsOrdered ((k, v) ∷ m) → IsOrdered m
IsOrdered-tail k v [] h = tt
IsOrdered-tail k v ((i, w) ∷ m) h = h.1

module _ (j : Json) (f : Formats j) (law : IsLawful j f) where
  attributes_of-strings : (m : Dict Bytes Bytes) → IsOrdered m → attributes_of j (strings j m) ≡ m
  unfolding attributes_of json_value_to_attr_string
  attributes_of-strings [] h = refl
  attributes_of-strings ((k, v) ∷ m) h =
      rw (law.as_str-string v, attributes_of-strings m (IsOrdered-tail k v m h))
        (put_entry_first k v m h)

  get_same : (k : Bytes) (v : j.Value) (o : j.Object) → j.get k (j.insert k v o) ≡ some v
  get_same k v o = law.get-insert k k v o ∙ rw (=?_refl k, if◌then◌else◌) refl

  get_other :
      (k m : Bytes) (v : j.Value) (o : j.Object)
      → (k =? m) ≡ false
      → j.get k (j.insert m v o) ≡ j.get k o
  get_other k m v o d = law.get-insert k m v o ∙ rw (d, if◌then◌else◌) refl

  field_of :
      (key s : Bytes) (o : j.Object)
      → j.get key o ≡ some (j.string s)
      → string_field j o key ≡ some s
  unfolding string_field
  field_of key s o e = rw (e, and_then) (law.as_str-string s)

  data_of-to_cloud_event :
      (now : ℕ) (e : PushEnvelope) (params : CloudEventParams)
      → f.data_of (to_cloud_event j f now e params) ≡ some (event_data j f e)
  unfolding to_cloud_event
  data_of-to_cloud_event now e params =
      let (ev, b, d) = law.data_of-build _ _ _ _ (event_data j f e) in
      ap (λ x. f.data_of (unwrap_or x f.default_event)) b ∙ d

  -- The fields of the message that the event carries.
  message_fields :
      (e : PushEnvelope)
      → let m = message_of j f e in
        (j.get (codes "data") m ≡ some (j.string (f.encode e.decoded)))
        × (string_field j m (codes "messageId") ≡ some e.message_id)
        × (string_field j m (codes "publishTime") ≡ some e.publish_time)
        × (string_field j m (codes "orderingKey") ≡ some (unwrap_or e.ordering_key []))
        × (j.get (codes "attributes") m ≡ some (unwrap_or (j.of_map e.attributes) (j.object j.new)))
  unfolding message_of
  message_fields e = (
    get_other (codes "data") _ _ _ refl
        ∙ get_other (codes "data") _ _ _ refl
        ∙ get_other (codes "data") _ _ _ refl
        ∙ get_other (codes "data") _ _ _ refl
        ∙ get_same (codes "data") _ _,
    field_of (codes "messageId") _ _ (
        get_other (codes "messageId") _ _ _ refl
        ∙ get_other (codes "messageId") _ _ _ refl
        ∙ get_same (codes "messageId") _ _),
    field_of (codes "publishTime") _ _
        (get_other (codes "publishTime") _ _ _ refl ∙ get_same (codes "publishTime") _ _),
    field_of (codes "orderingKey") _ _ (get_same (codes "orderingKey") _ _),
    get_other (codes "attributes") _ _ _ refl
        ∙ get_other (codes "attributes") _ _ _ refl
        ∙ get_other (codes "attributes") _ _ _ refl
        ∙ get_same (codes "attributes") _ _,
  )

  get-with_attempt :
      (k : Bytes) (d : Option ℕ) (o : j.Object)
      → (k =? codes "deliveryAttempt") ≡ false
      → j.get k (with_attempt j f d o) ≡ j.get k o
  get-with_attempt k none o q = refl
  get-with_attempt k (some n) o q = get_other k (codes "deliveryAttempt") (j.number n) o q

  attempt_again :
      (d : Option ℕ) (o : j.Object)
      → ((n : ℕ) → d ≡ some n → n < 2 ^ 32)
      → j.get (codes "deliveryAttempt") o ≡ none
      → and_then
          (and_then (j.get (codes "deliveryAttempt") (with_attempt j f d o)) (j.as_u64))
          (to_u32 j)
        ≡ d
  attempt_again none o fits absent = rw (absent, and_then) refl
  attempt_again (some n) o fits absent =
      rw
        (
          get_same (codes "deliveryAttempt") (j.number n) o,
          law.as_u64-number n (fits n refl),
          lt→ltb n (2 ^ 32) (fits n refl),
          and_then,
          if◌then◌else◌,
        )
        refl

  attributes_again :
      (m : Dict Bytes Bytes)
      → IsOrdered m
      → (elim (and_then (some (unwrap_or (j.of_map m) (j.object j.new))) (j.as_object)) [
        | none ↦ []
        | some obj ↦ attributes_of j (j.entries obj)
      ])
        ≡ m
  attributes_again m h =
      let (v, o, made, is_object, entries) = law.of_map_entries m in
      rw (made, is_object, entries) (attributes_of-strings m h)

  -- The root object of the event's data, before the attempt is put in.
  abbrev root_of : PushEnvelope → j.Object
  root_of e =
      j.insert (codes "subscription") (j.string e.subscription)
        (j.insert (codes "message") (j.object (message_of j f e)) j.new)

  envelope_again :
      (t : Bytes) (e : PushEnvelope)
      → IsOrdered e.attributes
      → ((n : ℕ) → e.delivery_attempt ≡ some n → n < 2 ^ 32)
      → envelope_of j f t
          (with_attempt j f e.delivery_attempt (root_of e))
          (message_of j f e)
          e.decoded
        ≡ record e { ordering_key = some (unwrap_or e.ordering_key []) }
  unfolding envelope_of
  envelope_again t e ordered fits =
      let m = message_fields e in
      let subscribed : string_field j (with_attempt j f e.delivery_attempt (root_of e))
            (codes "subscription")
          ≡ some e.subscription =
        field_of (codes "subscription") _ _ (
          get-with_attempt (codes "subscription") e.delivery_attempt (root_of e) refl
          ∙ get_same (codes "subscription") _ _) in
      let absent : j.get (codes "deliveryAttempt") (root_of e) ≡ none =
        get_other (codes "deliveryAttempt") _ _ _ refl
        ∙ get_other (codes "deliveryAttempt") _ _ _ refl
        ∙ law.get-new (codes "deliveryAttempt") in
      rw
        (
          m.1,
          m.2,
          m.3,
          m.4,
          subscribed,
          attempt_again e.delivery_attempt (root_of e) fits absent,
          attributes_again e.attributes ordered,
        )
        refl

  -- The event's data, written as JSON, is a delivery that is read as the same envelope, whose
  -- ordering key is there, empty if there was none.
  pub parse_push_envelope-to_cloud_event :
      (now : ℕ) (t raw : Bytes) (e : PushEnvelope) (params : CloudEventParams) (v : j.Value)
      → IsOrdered e.attributes
      → ((n : ℕ) → e.delivery_attempt ≡ some n → n < 2 ^ 32)
      → f.data_of (to_cloud_event j f now e params) ≡ some v
      → j.to_vec v ≡ some raw
      → parse_push_envelope j f t raw
        ≡ ok (record e { ordering_key = some (unwrap_or e.ordering_key []) })
  unfolding event_data
  parse_push_envelope-to_cloud_event now t raw e params v ordered fits d written =
      let root = with_attempt j f e.delivery_attempt (root_of e) in
      let m = message_fields e in
      let is_data : some (event_data j f e) ≡ some v =
        sym (data_of-to_cloud_event now e params) ∙ d in
      let same : j.object root ≡ v = ap (λ x. unwrap_or x v) is_data in
      let found : j.get (codes "message") root ≡ some (j.object (message_of j f e)) =
        get-with_attempt (codes "message") e.delivery_attempt (root_of e) refl
        ∙ get_other (codes "message") _ _ _ refl
        ∙ get_same (codes "message") _ _ in
      (parse_push_envelope_iff j f t raw _).1 (
        root,
        message_of j f e,
        e.decoded,
        record {
          value = v;
          parsed = law.from_slice-to_vec v raw written;
          is_object = subst (λ x. j.as_object x ≡ some root) same (law.as_object-object root);
          has_message = rw (found, and_then) (law.as_object-object (message_of j f e));
          carries = inr (
            j.string (f.encode e.decoded),
            m.0,
            inr (
              f.encode e.decoded,
              law.is_null-string _,
              law.as_str-string _,
              law.decode-encode e.decoded,
            ),
          );
        },
        sym (envelope_again t e ordered fits),
      )
