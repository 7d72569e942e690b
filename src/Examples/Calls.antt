-- ===== src/Examples/Calls.antt =====
-- The listener before a machine with one function and one instance.
use open_functions.Prelude.{
  codes, false, Option, none, some, [], ◌∷◌, ok, ◌≡◌, refl, list_Eq, ℕ_Eq, pair_Eq, lookup, insert,
  map_values,
}
use open_functions.Model.{Function, Trigger}
use open_functions.Store.{get_function, put_function, not_after}
use open_functions.Resolve.{resolve, resolve_host, host_name, strip_port, is_valid_name}
use open_functions.Validate.{validate_function, validate_name, validate_env}
use open_functions.Pool.{Pool, try_acquire_existing, release}
use open_functions.Pool.Acquire.{acquire}
use open_functions.Registry.{World}
use open_functions.Registry.Activate.{write}
use open_functions.Registry.Record.{accept, build_function_record}
use open_functions.Forward.Proxy.{Request, forward}
use open_functions.PubSub.Convert.{
  parse_push_envelope, to_cloud_event, event_data, message_of, string_field, attributes_of,
  put_entry, envelope_of, json_value_to_attr_string, message_data,
}
use open_functions.Server.{
  InvokeState, Circumstances, Reply, status_only, Host, not_ready_yet, record_invocation, is_ready,
  acquire_from_pool, call, after_call, record_push_received,
}
use open_functions.Server.Push.{
  Deliveries, handle_push, deliver, push_to, push_pool, push_acquired, answer_push, call_push,
  build_binary_mode_request,
}
use open_functions.Server.Push.Acked.{Processed, handle_push-Processed}
use open_functions.Server.Handle.{handle}
use open_functions.Server.Handle.Redeploying.{handle-accept}
use open_functions.Examples.Headers.{http, echo, request, values_of}
use open_functions.Examples.Deliveries.{j, f, tree_get, tree_eq, tree_of, tree_entries}
use open_functions.Examples.Fixtures.{outside, service, greeter, entry, deployed, redeploy}

abbrev deliveries : Deliveries http j f
deliveries = record {
  to_bytes = some;
  binary_mode = λ method uri headers body.
      some (record { method = method; uri = uri; headers = headers; body = body });
  show_time = λ t. [];
  null = j.string [];
}

abbrev circumstances : Circumstances
circumstances = record {
  surroundings = record {
    order = λ k p. 9000 ∷ [];
    spawn = λ k spec. ok 9000;
    lag = λ k. 0;
    others = λ k p. p;
  };
  fuel = 3;
  now = 100;
  meanwhile = λ p. p;
  received_at = codes "now";
  received = 5;
  show_driver_error = λ e. [];
}

abbrev state : InvokeState
state = record {
  resolver = record { host_suffix = some (codes "fn.localhost") };
  pubsub_project = some (codes "local");
}

abbrev started : Host outside http echo
started = record { world = deployed; client = 0; invocations = []; push_received = [] }

-- The record of a redeployment.
abbrev next : Function
next = build_function_record service redeploy (some greeter) 11

abbrev accepted : World outside
accepted = (accept outside service next deployed).0

abbrev building : Host outside http echo
building = record { world = accepted; client = 0; invocations = []; push_received = [] }

handle-accept_example :
    (accepted.pools ≡ deployed.pools)
    × (handle outside http echo j f deliveries circumstances state
          (codes "10.0.0.7")
          request
          building
        ≡ some (
          record_invocation outside http echo next.name next
              (codes "http")
              (codes "rejected")
              503
              false
              building,
          not_ready_yet next,
        ))
unfolding build_function_record accept validate_function validate_name validate_env resolve
    resolve_host host_name strip_port is_valid_name put_function write values_of
handle-accept_example =
    handle-accept outside http echo j f deliveries circumstances service state (codes "10.0.0.7")
      next request deployed building refl refl refl

-- The function with a topic, and an instance with a free slot.
abbrev subscribed : Function
subscribed = record greeter { trigger = Trigger.pubsub (codes "orders") }

abbrev warm : Pool
warm = record (entry.pool) {
  instances =
      (9000, record { handle = some 9000; semaphore = 0; available = 1; last_used = 0 }) ∷ [];
}

abbrev listening : Host outside http echo
listening = record started {
  world = record deployed {
    store = record (deployed.store) { functions = (codes "greeter", subscribed) ∷ [] };
    pools = (codes "greeter", record entry { pool = warm }) ∷ [];
  };
}

abbrev delivery : Request http
delivery = record {
  method = codes "POST";
  uri = codes "/_cf/push/greeter";
  headers = [];
  body = codes "{}";
}

abbrev handled : Option (Host outside http echo × Reply http)
handled =
    handle_push outside http echo j f deliveries circumstances (some (codes "local"))
      (codes "greeter") delivery listening

abbrev host_of : Option (Host outside http echo × Reply http) → Host outside http echo
host_of none = listening
host_of (some (h, reply)) = h

handle_push-Processed_example :
    Processed outside http echo j f deliveries circumstances
      (codes "local")
      (codes "greeter")
      delivery
      listening
unfolding handle_push deliver push_to push_pool push_acquired answer_push call_push
    parse_push_envelope event_data message_of tree_get get_function lookup is_ready
    acquire_from_pool acquire try_acquire_existing build_binary_mode_request tree_eq to_cloud_event
    string_field tree_of attributes_of tree_entries put_entry envelope_of json_value_to_attr_string
    message_data not_after call forward after_call release map_values insert record_invocation
    record_push_received
handle_push-Processed_example =
    handle_push-Processed outside http echo j f deliveries circumstances (codes "local")
      (codes "greeter") delivery listening (host_of handled) (status_only 204) refl refl
