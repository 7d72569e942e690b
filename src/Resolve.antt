-- ===== src/Resolve.antt =====
-- crates/open-functions-core/src/resolve/mod.rs: from the `Host` header and the path of a request
-- to a function. A path is a text that begins with a one-byte character, so `&path[1..]` is defined.
pub mod Routes
pub mod Hosts
use open_functions.Prelude.{
  Bytes, codes, is_empty, is_digit, all, strip_prefix, starts_with, strip_suffix, rsplit_once,
  split_at, ◌=?◌, list_Eq, ℕ_Eq, not, ◌&&◌, ◌||◌, Bool, true, false, if◌then◌else◌, Option, none,
  some, drop, [], ◌∷◌, ◌++◌, ok, err,
}
use open_functions.Validate.{validate_name}

abbrev pub reserved_path_prefix : Bytes
reserved_path_prefix = codes "/_cf/"

abbrev pub push_path_prefix : Bytes
push_path_prefix = codes "/_cf/push/"

pub data Resolved : Type 0 where
  path_prefix : (function rest_path : Bytes) → Resolved
  host push : (function : Bytes) → Resolved
  no_match : Resolved

pub record Resolver : Type 0 where
  pub host_suffix : Option Bytes

unfoldable pub is_valid_name : Bytes → Bool
is_valid_name s = elim (validate_name s) [ ok _ ↦ not (s =? codes "_cf") | err _ ↦ false ]

-- Everything from a `:` on that only digits follow.
unfoldable pub strip_port : Bytes → Bytes
strip_port header = elim (rsplit_once b':' header) [
  | none ↦ header
  | some (h, port) ↦ if all is_digit port && not (is_empty port) then h else header
]

unfoldable pub host_name : Bytes → Bytes → Option Bytes
host_name host_suffix header = elim (strip_suffix (b'.' ∷ host_suffix) (strip_port header)) [
  | none ↦ none
  | some name ↦ if not (is_empty name) && is_valid_name name then some name else none
]

resolve_with_suffix : Option Bytes → Option Bytes → Option Bytes
resolve_with_suffix none host_header = none
resolve_with_suffix (some host_suffix) none = none
resolve_with_suffix (some host_suffix) (some header) =
    if is_empty host_suffix then none else host_name host_suffix header

unfoldable pub resolve_host : Resolver → Option Bytes → Option Bytes
unfolding resolve_with_suffix
resolve_host r host_header = resolve_with_suffix r.host_suffix host_header

-- The first segment of a path, and `None` of `find('/')` taken as no rest.
abbrev first_segment : Bytes → Bytes
first_segment path = elim (split_at b'/' path) [ none ↦ path | some (name, _) ↦ name ]

abbrev rest_of : Bytes → Bytes
rest_of path = elim (split_at b'/' path) [ none ↦ codes "/" | some (_, rest) ↦ rest ]

unfoldable pub resolve_path_prefix : Bytes → Resolved
unfolding is_valid_name
resolve_path_prefix path =
    let without_leading_slash = drop 1 path in
    let name = first_segment without_leading_slash in
    if is_valid_name name then path_prefix name (rest_of without_leading_slash) else no_match

unfoldable pub resolve_push : Bytes → Resolved
resolve_push rest =
    let name = first_segment rest in
    if not (is_empty name) && is_valid_name name then push name else no_match

unfoldable pub resolve_path : Bytes → Resolved
resolve_path path = elim (strip_prefix push_path_prefix path) [
  | some rest ↦ resolve_push rest
  | none ↦
      if starts_with reserved_path_prefix path
      then no_match
      else if is_empty path || path =? codes "/"
      then no_match
      else resolve_path_prefix path
]

unfoldable pub resolve : Resolver → Option Bytes → Bytes → Resolved
resolve r host_header path = elim (resolve_host r host_header) [
  | some function ↦ host function
  | none ↦ resolve_path path
]
