-- ===== src/Validate.antt =====
-- crates/open-functions-core/src/model/validate.rs: the range and cross-field checks of a
-- registration. An `i64` of an error payload comes from a `u32`, so it is a number.
pub mod Names
pub mod Accepts
use open_functions.Prelude.{
  ℕ, ◌+◌, ◌*◌, Bytes, codes, is_empty, is_lower, is_digit, is_alpha, is_alnum, first_is,
  starts_with, all, any, length, leb, ltb, ◌==◌, ◌=?◌, list_Eq, ℕ_Eq, not, ◌&&◌, ◌||◌, Bool, true,
  false, if◌then◌else◌, Option, none, some, is_some, List, [], ◌∷◌, Dict, Result, ok, err, ◌>>◌,
  ◌>>=◌, guard,
}
use open_functions.Model.{Function, Trigger, http, pubsub, Source, dir, image, Runtime}

abbrev pub reserved_env_prefix : Bytes
reserved_env_prefix = codes "K_"

abbrev pub reserved_env_names : List Bytes
reserved_env_names =
    codes "PORT"
    ∷ codes "FUNCTION_TARGET"
    ∷ codes "FUNCTION_SIGNATURE_TYPE"
    ∷ codes "HOST"
    ∷ codes "FUNCTION_SOURCE"
    ∷ codes "VIRTUAL_ENV"
    ∷ []

abbrev pub env_values_max_bytes : ℕ
env_values_max_bytes = 32 * 1024

abbrev pub name_max_len : ℕ
name_max_len = 63

abbrev pub name_reserved_prefix : Bytes
name_reserved_prefix = codes "_cf"

abbrev pub topic_min_len : ℕ
topic_min_len = 3

abbrev pub topic_max_len : ℕ
topic_max_len = 255

pub data ValidationError : Type 0 where
  invalid_name invalid_topic invalid_env_key reserved_env_key : Bytes → ValidationError
  env_too_large : ℕ → ValidationError
  out_of_range : (field : Bytes) (value min max : ℕ) → ValidationError
  min_exceeds_max : (min max : ℕ) → ValidationError
  invalid_python_entry_point : Bytes → ValidationError
  bin_not_applicable_to_python : ValidationError

abbrev pub Check : Type 0
Check = Result ValidationError (Unit {0})

abbrev is_name_byte : ℕ → Bool
is_name_byte b = is_lower b || is_digit b || b == b'-'

unfoldable pub validate_name : Bytes → Check
validate_name name =
    let is_valid_shape =
      not (is_empty name)
      && leb (length name) name_max_len
      && first_is is_lower name
      && all is_name_byte name in
    if not is_valid_shape || starts_with name_reserved_prefix name
    then err (invalid_name name)
    else ok tt

abbrev is_topic_char : ℕ → Bool
is_topic_char b =
    is_alnum b || b == b'_' || (b == b'-' || b == b'.' || b == b'~' || b == b'+' || b == b'%')

unfoldable pub validate_topic : Bytes → Check
validate_topic topic =
    let is_valid =
      leb topic_min_len (length topic)
      && leb (length topic) topic_max_len
      && first_is is_alpha topic
      && all is_topic_char topic in
    if not is_valid then err (invalid_topic topic) else ok tt

-- `^[A-Za-z_][A-Za-z0-9_]*$`: of an env key, and of a Python identifier.
abbrev is_identifier_byte : ℕ → Bool
is_identifier_byte b = is_alnum b || b == b'_'

unfoldable pub is_valid_env_key_shape : Bytes → Bool
is_valid_env_key_shape key =
    first_is (λ b. is_alpha b || b == b'_') key && all is_identifier_byte key

unfoldable pub is_reserved_env_key : Bytes → Bool
is_reserved_env_key key =
    any (λ name. name =? key) reserved_env_names || starts_with reserved_env_prefix key

validate_env_keys : Dict Bytes Bytes → Check
validate_env_keys [] = ok tt
validate_env_keys ((key, _) ∷ env) =
    let rest = validate_env_keys env in
    if not (is_valid_env_key_shape key)
    then err (invalid_env_key key)
    else if is_reserved_env_key key
    then err (reserved_env_key key)
    else rest

unfoldable pub total_bytes : Dict Bytes Bytes → ℕ
total_bytes [] = 0
total_bytes ((_, value) ∷ env) = length value + total_bytes env

validate_env_size : Dict Bytes Bytes → Check
validate_env_size env =
    if ltb env_values_max_bytes (total_bytes env)
    then err (env_too_large (total_bytes env))
    else ok tt

unfoldable pub validate_env : Dict Bytes Bytes → Check
unfolding validate_env_keys validate_env_size total_bytes is_valid_env_key_shape is_reserved_env_key
validate_env env = do validate_env_keys env; validate_env_size env

validate_range_u32 : Bytes → ℕ → ℕ → ℕ → Check
validate_range_u32 field value min max =
    if ltb value min || ltb max value then err (out_of_range field value min max) else ok tt

validate_trigger : Trigger → ℕ → Check
validate_trigger http timeout_secs = validate_range_u32 (codes "timeout_secs") timeout_secs 1 3600
validate_trigger (pubsub topic) timeout_secs = do
  validate_topic topic
  validate_range_u32 (codes "timeout_secs") timeout_secs 1 540

unfoldable pub validate_python_entry_point : Bytes → Check
validate_python_entry_point entry_point =
    let is_valid =
      first_is (λ b. is_alpha b || b == b'_') entry_point && all is_identifier_byte entry_point in
    if not is_valid then err (invalid_python_entry_point entry_point) else ok tt

validate_python : Option Runtime → Source → Bytes → Check
validate_python (some Runtime.python314) (dir path bin) entry_point = do
  validate_python_entry_point entry_point
  guard (not (is_some bin)) bin_not_applicable_to_python
validate_python _ _ _ = ok tt

unfoldable pub validate_function : Function → Check
unfolding validate_trigger validate_range_u32 validate_python validate_python_entry_point
validate_function f = do
  validate_name f.name
  validate_trigger f.trigger f.timeout_secs
  validate_range_u32 (codes "concurrency") f.concurrency 1 1000
  validate_range_u32 (codes "memory_mib") f.memory_mib 128 32768
  validate_range_u32 (codes "max_instances") f.max_instances 1 1000
  validate_range_u32 (codes "idle_timeout_secs") f.idle_timeout_secs 10 86400
  validate_range_u32 (codes "queue_max_wait_secs") f.queue_max_wait_secs 0 600
  guard (leb f.min_instances f.max_instances) (min_exceeds_max f.min_instances f.max_instances)
  validate_env f.env
  validate_python f.runtime f.source f.entry_point
