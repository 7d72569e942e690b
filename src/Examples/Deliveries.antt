-- ===== src/Examples/Deliveries.antt =====
-- JSON values as trees, and push deliveries.
use open_functions.Prelude.{
  ℕ, ◌^◌, ◌<◌, Bytes, codes, Bool, true, false, ◌&&◌, Option, none, some, List, [], ◌∷◌, Dict, ◌=?◌,
  list_Eq, ℕ_Eq, list_eq_iff, ok, ◌≡◌, ◌↔◌, refl, if◌then◌else◌, arith, Bool-cases, inl, inr, ◌==◌,
  ap, sym,
}
use open_functions.Store.{not_after}
use open_functions.PubSub.Convert.{
  Json, Formats, PushEnvelope, CloudEventParams, event_data, envelope_of, parse_push_envelope,
  message_of, to_cloud_event,
}
use open_functions.PubSub.Convert.Accepts.{IsDelivery, parse_push_envelope_iff}
use open_functions.PubSub.Convert.Again.{IsLawful, strings, parse_push_envelope-to_cloud_event}

-- A text, a number or the end of an object, by its tag; or an entry of an object with the rest of
-- it. An object as a value is an entry whose value is the atom 3.
pub data Tree : Type 0 where
  atom : (tag : ℕ) (text : Bytes) → Tree
  node : (key : Bytes) (value rest : Tree) → Tree

unfoldable pub tree_eq : Tree → Tree → Bool
tree_eq (atom a s) (atom b t) = a =? b && s =? t
tree_eq (atom a s) (node k v r) = false
tree_eq (node k v r) (atom b t) = false
tree_eq (node k v r) (node j u q) = k =? j && tree_eq v u && tree_eq r q

tree_eq_sound : (t u : Tree) → tree_eq t u ≡ true → t ≡ u
unfolding tree_eq
tree_eq_sound (atom a s) (atom b t) h = ground (arith, list_eq_iff s t)
tree_eq_sound (atom a s) (node k v r) h = absurd (ground arith)
tree_eq_sound (node k v r) (atom b t) h = absurd (ground arith)
tree_eq_sound (node k v r) (node j u q) h =
    ground (arith, list_eq_iff k j, tree_eq_sound v u, tree_eq_sound r q)

unfoldable pub tree_get : Bytes → Tree → Option Tree
tree_get k (atom a s) = none
tree_get k (node j v r) = let rest = tree_get k r in if k =? j then some v else rest

unfoldable pub tree_entries : Tree → List (Bytes × Tree)
tree_entries (atom a s) = []
tree_entries (node j v r) = (j, v) ∷ tree_entries r

unfoldable pub tree_of : Dict Bytes Bytes → Tree
tree_of [] = atom 2 []
tree_of ((k, v) ∷ m) = node k (atom 0 v) (tree_of m)

abbrev tree_str : Tree → Option Bytes
tree_str (atom a s) = if a == 0 then some s else none
tree_str (node k v r) = none

abbrev head : Bytes → Option ℕ
head [] = none
head (n ∷ s) = some n

abbrev tree_u64 : Tree → Option ℕ
tree_u64 (atom a s) = if a == 1 then head s else none
tree_u64 (node k v r) = none

abbrev is_object_mark : Tree → Bool
is_object_mark (atom a s) = a == 3
is_object_mark (node k v r) = false

abbrev tree_object : Tree → Option Tree
tree_object (atom a s) = none
tree_object (node k v r) = if is_object_mark v then some r else none

-- The one text stands for `written`.
abbrev pub json_of : Tree → Json
json_of written = record {
  Value = Tree;
  Object = Tree;
  from_slice = λ raw. some written;
  to_vec = λ v. if tree_eq v written then some (codes "{}") else none;
  as_object = tree_object;
  as_str = tree_str;
  as_u64 = tree_u64;
  is_null = λ v. false;
  show = λ v. [];
  get = tree_get;
  entries = tree_entries;
  new = atom 2 [];
  insert = node;
  string = atom 0;
  number = λ n. atom 1 (n ∷ []);
  object = node [] (atom 3 []);
  of_map = λ m. some (node [] (atom 3 []) (tree_of m));
}

-- Base64 and dates as they are, and an event as its parts.
abbrev pub formats : (written : Tree) → Formats (json_of written)
formats written = record {
  Event = Bytes × Bytes × Bytes × ℕ × Tree;
  decode = some;
  encode = λ s. s;
  parse_time = λ s. some 0;
  build = λ id source ty time v. some (id, source, ty, time, v);
  default_event = ([], [], [], 0, atom 2 []);
  id = λ e. e.0;
  source = λ e. e.1;
  ty = λ e. e.2;
  time = λ e. some e.3;
  data_of = λ e. some e.4;
}

tree_entries-tree_of :
    (written : Tree) (m : Dict Bytes Bytes) → tree_entries (tree_of m) ≡ strings (json_of written) m
unfolding tree_entries tree_of
tree_entries-tree_of written [] = refl
tree_entries-tree_of written ((k, v) ∷ m) =
    ap (λ es. (k, atom 0 v) ∷ es) (tree_entries-tree_of written m)

only_written :
    (written v : Tree) (raw : Bytes)
    → ◌≡◌ {A = Option Bytes} (if tree_eq v written then some (codes "{}") else none) (some raw)
    → some written ≡ some v
only_written written v raw h = elim (Bool-cases (tree_eq v written)) [
  | inl e ↦ ap some (sym (tree_eq_sound v written e))
  | inr e ↦ absurd (ground arith)
]

pub json_of-IsLawful : (written : Tree) → IsLawful (json_of written) (formats written)
unfolding tree_get
json_of-IsLawful written = record {
  from_slice-to_vec = only_written written;
  get-insert = λ k m v o. refl;
  get-new = λ k. refl;
  as_object-object = λ o. refl;
  as_str-string = λ s. refl;
  is_null-string = λ s. refl;
  as_u64-number = λ n h. refl;
  of_map_entries =
      λ m. (node [] (atom 3 []) (tree_of m), tree_of m, refl, refl, tree_entries-tree_of written m);
  decode-encode = λ s. refl;
  data_of-build = λ id source ty time v. ((id, source, ty, time, v), refl, refl);
}

abbrev pub envelope : PushEnvelope
envelope = record {
  message_id = codes "17";
  publish_time = codes "2026-01-01T00:00:00Z";
  decoded = codes "payload";
  attributes = (codes "color", codes "red") ∷ (codes "size", codes "3") ∷ [];
  ordering_key = none;
  subscription = codes "projects/local/subscriptions/open-functions-greeter";
  delivery_attempt = some 2;
}

abbrev params : CloudEventParams
params = record { project = codes "local"; topic = codes "orders" }

-- The data of the event of `envelope`: what is put into an object does not depend on `written`.
abbrev pub written : Tree
written = event_data (json_of (atom 2 [])) (formats (atom 2 [])) envelope

abbrev pub j : Json
j = json_of written

abbrev pub f : Formats j
f = formats written

attempt_fits : (n : ℕ) → envelope.delivery_attempt ≡ some n → n < 2 ^ 32
attempt_fits n e = ground (arith, e)

parse_push_envelope-to_cloud_event_example :
    parse_push_envelope j f (codes "now") (codes "{}")
    ≡ ok (record envelope { ordering_key = some [] })
unfolding to_cloud_event event_data message_of tree_eq not_after tree_of
parse_push_envelope-to_cloud_event_example =
    parse_push_envelope-to_cloud_event j f (json_of-IsLawful written) 5 (codes "now") (codes "{}")
      envelope params written (refl, tt) attempt_fits refl refl

parse_push_envelope_iff_example :
    (parse_push_envelope j f (codes "now") (codes "{}")
      ≡ ok (record envelope { ordering_key = some [] }))
    ↔ ((root : Tree) × (message : Tree) × (content : Bytes) × IsDelivery j f
          (codes "{}")
          root
          message
          content
        × (record envelope { ordering_key = some [] }
            ≡ envelope_of j f (codes "now") root message content))
parse_push_envelope_iff_example =
    parse_push_envelope_iff j f (codes "now") (codes "{}")
      (record envelope { ordering_key = some [] })
