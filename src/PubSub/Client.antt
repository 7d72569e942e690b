-- ===== src/PubSub/Client.antt =====
-- crates/open-functions-core/src/pubsub/client.rs. The server, the HTTP library and the JSON library
-- are the record `Broker`: what a request answers, and how a body reads as a subscription.
use open_functions.Prelude.{
  ℕ, Bytes, codes, Bool, Option, none, some, ◌++◌, Result, ok, err, rsplit_once, leb, ltb, ◌==◌,
  ◌&&◌, ◌||◌, if◌then◌else◌,
}

pub data PubSubError : Type 0 where
  unreachable : (url : Bytes) → PubSubError
  http : (status : ℕ) (body : Bytes) → PubSubError

pub record SubscriptionRequest : Type 0 where
  pub topic : Bytes
  pub push_endpoint : Bytes
  pub ack_deadline_seconds : ℕ

-- `push_endpoint` is the field of `pushConfig`, if there is one.
pub record Subscription : Type 0 where
  pub name : Bytes
  pub topic : Bytes
  pub push_endpoint : Option Bytes
  pub ack_deadline_seconds : ℕ

pub data Method : Type 0 where
  put get delete : Method

-- `request` is `none` where no answer is read.
pub record Broker : Type 1 where
  pub State : Type 0
  pub request :
      Method → (url : Bytes) → Option SubscriptionRequest → State → State × Option (ℕ × Bytes)
  pub from_json : Bytes → Option Subscription
  pub invalid_json : Bytes → Bytes

pub record OpenPubusbClient : Type 0 where
  pub base_url : Bytes
  pub project : Bytes

unfoldable pub subscription_id : Bytes → Bytes
subscription_id name = elim (rsplit_once b'/' name) [ none ↦ name | some (_, id) ↦ id ]

unfoldable pub subscription_url : OpenPubusbClient → Bytes → Bytes
unfolding subscription_id
subscription_url c name =
    c.base_url
    ++ codes "/v1/projects/"
    ++ c.project
    ++ codes "/subscriptions/"
    ++ subscription_id name

abbrev pub is_success : ℕ → Bool
is_success status = leb 200 status && ltb status 300

module _ (b : Broker) where
  open b use {State, request, from_json, invalid_json}

  abbrev pub Call : Type 0 → Type 0
  Call A = State → State × Result PubSubError A

  abbrev pub on_ok :
      {A B : Type 0} → State × Result PubSubError A → (A → Call B) → State × Result PubSubError B
  on_ok (s, ok a) f = f a s
  on_ok (s, err e) f = (s, err e)

  answer_of : Bytes → State × Option (ℕ × Bytes) → State × Result PubSubError (ℕ × Bytes)
  answer_of url (s, none) = (s, err (unreachable url))
  answer_of url (s, some answer) = (s, ok answer)

  unfoldable pub execute : Method → (url : Bytes) → Option SubscriptionRequest → Call (ℕ × Bytes)
  unfolding answer_of
  execute method url body s = answer_of url (request method url body s)

  unfoldable pub parse_subscription : ℕ → Bytes → Result PubSubError Subscription
  parse_subscription status body = elim (from_json body) [
    | none ↦ err (http status (invalid_json body))
    | some sub ↦ ok sub
  ]

  created : ℕ × Bytes → Call Subscription
  created (status, body) s =
      (s, if is_success status then parse_subscription status body else err (http status body))

  unfoldable pub create_subscription :
      OpenPubusbClient → Bytes → SubscriptionRequest → Call Subscription
  unfolding execute parse_subscription created subscription_url
  create_subscription c name req s =
      on_ok (execute put (subscription_url c name) (some req) s) created

  got : ℕ × Bytes → Call (Option Subscription)
  got (status, body) s =
      if status == 404
      then (s, ok none)
      else if is_success status
      then (s, elim (parse_subscription status body) [ ok sub ↦ ok (some sub) | err e ↦ err e ])
      else (s, err (http status body))

  unfoldable pub get_subscription : OpenPubusbClient → Bytes → Call (Option Subscription)
  unfolding execute parse_subscription got subscription_url
  get_subscription c name s = on_ok (execute get (subscription_url c name) none s) got

  deleted : ℕ × Bytes → Call (Unit {0})
  deleted (status, body) s =
      if is_success status || status == 404 then (s, ok tt) else (s, err (http status body))

  unfoldable pub delete_subscription : OpenPubusbClient → Bytes → Call (Unit {0})
  unfolding execute deleted subscription_url
  delete_subscription c name s = on_ok (execute delete (subscription_url c name) none s) deleted

  unfoldable pub recreate_subscription :
      OpenPubusbClient → Bytes → SubscriptionRequest → Call Subscription
  unfolding create_subscription delete_subscription
  recreate_subscription c name req s =
      on_ok (delete_subscription c name s) (λ _. create_subscription c name req)
