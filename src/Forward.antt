-- ===== src/Forward.antt =====
-- crates/open-functions-core/src/forward/mod.rs: the headers of a forwarded request and of its
-- response, and the statuses of a call that fails. The `http` crate's `HeaderMap` is not of the
-- repository: it is the parameter `HttpHeaders`, with the laws that its documentation gives.
pub mod Stripped
pub mod Rewritten
pub mod Proxy
use open_functions.Prelude.{
  ℕ, Bytes, codes, List, [], ◌∷◌, ◌++◌, Bool, ◌||◌, true, false, not, if◌then◌else◌, ◌==◌, leb,
  ◌&&◌, Option, none, some, is_empty, any, ◌=?◌, list_Eq, ℕ_Eq, ◌≡◌,
}

-- A header's name is its lower-case text. `text` is `HeaderValue::to_str`, `value` is
-- `HeaderValue::from_str`, and `name` is `HeaderName::try_from`.
pub record HttpHeaders : Type 1 where
  pub HeaderMap : Type 0
  pub HeaderValue : Type 0
  pub get_all : Bytes → HeaderMap → List HeaderValue
  pub remove : Bytes → HeaderMap → HeaderMap
  pub insert : Bytes → HeaderValue → HeaderMap → HeaderMap
  pub text : HeaderValue → Option Bytes
  pub value : Bytes → Option HeaderValue
  pub name : Bytes → Option Bytes

pub record IsLawful (h : HttpHeaders) : Type 0 where
  pub get_all-remove :
      (n m : Bytes) (hs : h.HeaderMap)
      → h.get_all n (h.remove m hs) ≡ (if n =? m then [] else h.get_all n hs)
  pub get_all-insert :
      (n m : Bytes) (v : h.HeaderValue) (hs : h.HeaderMap)
      → h.get_all n (h.insert m v hs) ≡ (if n =? m then v ∷ [] else h.get_all n hs)

abbrev pub execution_id_header : Bytes
execution_id_header = codes "function-execution-id"

abbrev pub forwarded_for : Bytes
forwarded_for = codes "x-forwarded-for"

abbrev pub forwarded_proto : Bytes
forwarded_proto = codes "x-forwarded-proto"

abbrev pub forwarded_host : Bytes
forwarded_host = codes "x-forwarded-host"

abbrev pub hop_by_hop_headers : List Bytes
hop_by_hop_headers =
    codes "connection"
    ∷ codes "keep-alive"
    ∷ codes "transfer-encoding"
    ∷ codes "te"
    ∷ codes "trailer"
    ∷ codes "proxy-authenticate"
    ∷ codes "proxy-authorization"
    ∷ codes "upgrade"
    ∷ []

-- `s.split(c)`: the parts between the occurrences of `c`.
unfoldable pub split : ℕ → Bytes → List Bytes
split c [] = [] ∷ []
split c (b ∷ bs) =
    let rest = split c bs in
    if b == c then [] ∷ rest else elim rest [ [] ↦ (b ∷ []) ∷ [] | p ∷ ps ↦ (b ∷ p) ∷ ps ]

-- `char::is_whitespace` on ASCII, which `to_str` gives.
abbrev is_space : ℕ → Bool
is_space b = (leb 9 b && leb b 13) || b == 32

unfoldable trim_start : Bytes → Bytes
trim_start [] = []
trim_start (b ∷ bs) = let rest = trim_start bs in if is_space b then rest else b ∷ bs

unfoldable trim_end : Bytes → Bytes
trim_end [] = []
trim_end (b ∷ bs) = let rest = trim_end bs in if is_empty rest && is_space b then [] else b ∷ rest

unfoldable pub trim : Bytes → Bytes
unfolding trim_start trim_end
trim s = trim_end (trim_start s)

abbrev pub first : {A : Type 0} → List A → Option A
first [] = none
first (x ∷ xs) = some x

module _ (h : HttpHeaders) where
  -- The header names among the tokens of one `Connection` value.
  unfoldable pub names_of_tokens : List Bytes → List Bytes
  names_of_tokens [] = []
  names_of_tokens (t ∷ ts) =
      let rest = names_of_tokens ts in
      if is_empty (trim t) then rest else elim (h.name (trim t)) [ none ↦ rest | some n ↦ n ∷ rest ]

  unfoldable pub dynamic : List (h.HeaderValue) → List Bytes
  dynamic [] = []
  dynamic (v ∷ vs) = elim (h.text v) [
    | none ↦ dynamic vs
    | some s ↦ names_of_tokens (split b',' s) ++ dynamic vs
  ]

  unfoldable pub remove_each : List Bytes → h.HeaderMap → h.HeaderMap
  remove_each [] hs = hs
  remove_each (n ∷ ns) hs = remove_each ns (h.remove n hs)

  unfoldable pub strip_hop_by_hop : h.HeaderMap → h.HeaderMap
  unfolding dynamic remove_each
  strip_hop_by_hop hs =
      let names = dynamic (h.get_all (codes "connection") hs) in
      remove_each names (remove_each hop_by_hop_headers hs)

  unfoldable pub set_header : Bytes → Bytes → h.HeaderMap → h.HeaderMap
  set_header n s hs = elim (h.value s) [ none ↦ hs | some v ↦ h.insert n v hs ]

-- `client_addr` is its `Display`.
pub record RequestRewriteContext : Type 0 where
  pub execution_id : Bytes
  pub client_addr : Bytes
  pub proto : Bytes
  pub original_host : Option Bytes

-- `x-forwarded-for`, from the first value that there was.
unfoldable pub appended : Option Bytes → Bytes → Bytes
appended none client_addr = client_addr
appended (some existing) client_addr =
    if is_empty existing then client_addr else existing ++ codes ", " ++ client_addr

module _ (h : HttpHeaders) where
  -- `headers.get(name).and_then(|v| v.to_str().ok())`
  abbrev pub first_text : Bytes → h.HeaderMap → Option Bytes
  first_text n hs = elim (first (h.get_all n hs)) [ none ↦ none | some v ↦ h.text v ]

  abbrev pub set_host : Option Bytes → h.HeaderMap → h.HeaderMap
  set_host none hs = hs
  set_host (some original) hs = set_header h forwarded_host original hs

  unfoldable pub rewrite_request_headers : RequestRewriteContext → h.HeaderMap → h.HeaderMap
  rewrite_request_headers ctx hs =
      let stripped = strip_hop_by_hop h hs in
      let with_id = set_header h execution_id_header (ctx.execution_id) stripped in
      let forwarded = appended (first_text forwarded_for with_id) (ctx.client_addr) in
      let with_for = set_header h forwarded_for forwarded with_id in
      let with_proto = set_header h forwarded_proto (ctx.proto) with_for in
      set_host (ctx.original_host) with_proto

  unfoldable pub rewrite_response_headers : Bytes → h.HeaderMap → h.HeaderMap
  rewrite_response_headers execution_id hs =
      set_header h execution_id_header execution_id (strip_hop_by_hop h hs)

pub data ForwardFailure : Type 0 where
  timeout connection_refused connection_reset queue_rejected : ForwardFailure

pub record ErrorMapping : Type 0 where
  pub status : ℕ
  pub code : Bytes

unfoldable pub map_outcome : ForwardFailure → ErrorMapping
map_outcome timeout = record { status = 504; code = codes "DEADLINE_EXCEEDED" }
map_outcome connection_refused = record { status = 502; code = codes "UNAVAILABLE" }
map_outcome connection_reset = record { status = 500; code = codes "INTERNAL" }
map_outcome queue_rejected = record { status = 429; code = codes "RESOURCE_EXHAUSTED" }
