-- ===== src/Examples/Requests.antt =====
-- Registrations and requests.
use open_functions.Prelude.{Bytes, codes, ◌≡◌, refl, ◌↔◌, ◌++◌, ◌∷◌, [], none, some, ok, ◌≢◌}
use open_functions.Model.{Function, pubsub, dir, Runtime, QueuePolicy, FunctionState}
use open_functions.Validate.{validate_name, validate_topic, validate_env, validate_function}
use open_functions.Validate.Names.{IsName, validate_name_iff}
use open_functions.Validate.Accepts.{Fits, validate_function_iff}
use open_functions.Resolve.{
  push_path_prefix, Resolver, path_prefix, push, resolve_host, host_name, is_valid_name, resolve,
  strip_port,
}
use open_functions.Resolve.Routes.{Segments, resolve-path_prefix_iff, resolve-push_iff}
use open_functions.Resolve.Hosts.{Names, resolve_host_iff, resolve-IsName}

validate_name_iff_example : (validate_name (codes "hello-1") ≡ ok tt) ↔ IsName (codes "hello-1")
validate_name_iff_example = validate_name_iff (codes "hello-1")

abbrev greeter : Function
greeter = record {
  name = codes "greeter";
  trigger = pubsub (codes "orders");
  source = dir (codes "/src/greeter") none;
  runtime = some Runtime.python314;
  env = (codes "LANG", codes "C") ∷ [];
  entry_point = codes "main";
  timeout_secs = 60;
  concurrency = 8;
  memory_mib = 256;
  min_instances = 0;
  max_instances = 4;
  idle_timeout_secs = 300;
  queue_policy = QueuePolicy.wait;
  queue_max_wait_secs = 10;
  state = FunctionState.building;
  current_revision = none;
  last_error = none;
  created_at = 1;
  updated_at = 1;
}

validate_function_iff_example : (validate_function greeter ≡ ok tt) ↔ Fits greeter
validate_function_iff_example = validate_function_iff greeter

greeter_passes : validate_function greeter ≡ ok tt
unfolding validate_function validate_name validate_topic validate_env
greeter_passes = refl

abbrev resolver : Resolver
resolver = record { host_suffix = some (codes "fn.localhost") }

abbrev header : Bytes
header = codes "greeter.fn.localhost:8080"

resolve_host_iff_example : (resolve_host resolver (some header) ≡ some (codes "greeter")) ↔ (
    IsName (codes "greeter")
    × (codes "fn.localhost" ≢ [])
    × (strip_port header ≡ codes "greeter" ++ b'.' ∷ codes "fn.localhost"))
resolve_host_iff_example =
    resolve_host_iff resolver header (codes "fn.localhost") (codes "greeter") refl

header_resolves : resolve_host resolver (some header) ≡ some (codes "greeter")
unfolding resolve_host host_name strip_port is_valid_name validate_name
header_resolves = refl

other_host : resolve_host resolver (some (codes "localhost:8080")) ≡ none
unfolding resolve_host host_name strip_port is_valid_name validate_name
other_host = refl

resolve-path_prefix_iff_example :
    (resolve resolver (some (codes "localhost:8080")) (b'/' ∷ codes "greeter/a/b")
      ≡ path_prefix (codes "greeter") (codes "/a/b"))
    ↔ (IsName (codes "greeter") × Segments (codes "greeter/a/b") (codes "greeter") (codes "/a/b"))
resolve-path_prefix_iff_example =
    resolve-path_prefix_iff resolver (some (codes "localhost:8080")) other_host
      (codes "greeter/a/b") (codes "greeter") (codes "/a/b")

resolve-push_iff_example :
    (resolve resolver (some (codes "localhost:8080")) (codes "/_cf/push/greeter")
      ≡ push (codes "greeter"))
    ↔ (IsName (codes "greeter")
        × (p : Bytes) × (rest : Bytes) × (codes "/_cf/push/greeter" ≡ push_path_prefix ++ p)
        × Segments p (codes "greeter") rest)
resolve-push_iff_example =
    resolve-push_iff resolver (some (codes "localhost:8080")) other_host (codes "/_cf/push/greeter")
      (codes "greeter")

Names-greeter : Names (resolve resolver (some header) (codes "/")) (codes "greeter")
unfolding resolve resolve_host host_name strip_port is_valid_name validate_name
Names-greeter = refl

resolve-IsName_example : IsName (codes "greeter")
resolve-IsName_example =
    resolve-IsName resolver (some header) (codes "/") (codes "greeter") Names-greeter
