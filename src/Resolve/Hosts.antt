-- ===== src/Resolve/Hosts.antt =====
-- The match by the `Host` header, and what every route guarantees.
use open_functions.Prelude.{
  if◌then◌else◌, starts_with, strip_prefix, ◌||◌, ◌=?◌, list_Eq, ℕ, Bytes, codes, ◌≡◌, refl, ap,
  ◌∙◌, ◌≢◌, ◌↔◌, inl, inr, ◌++◌, [], ◌∷◌, Option, none, some, true, false, Bool, arith, Bool-cases,
  Option-cases, is_empty, is_digit, all, length, length-append, list_eq, list_eq_iff, list_eq_refl,
  strip_suffix, rsplit_once, ℕ_Eq,
}
use open_functions.Validate.Names.{IsName}
use open_functions.Resolve.{
  push_path_prefix, reserved_path_prefix, Resolver, Resolved, path_prefix, host, push, no_match,
  is_valid_name, strip_port, host_name, resolve_host, resolve_path, resolve_push,
  resolve_path_prefix, resolve,
}
use open_functions.Resolve.Routes.{is_valid_name_iff, not_empty}

longer-ne : (b : ℕ) (pre t : Bytes) → list_eq (b ∷ pre ++ t) t ≡ false
longer-ne b pre t = elim (Bool-cases (list_eq (b ∷ pre ++ t) t)) [
  | inl e ↦
      absurd (omega (arith, ap length ((list_eq_iff (b ∷ pre ++ t) t).0 e), length-append pre t))
  | inr e ↦ e
]

strip_suffix-append : (t pre : Bytes) → strip_suffix t (pre ++ t) ≡ some pre
strip_suffix-append [] [] = refl
strip_suffix-append (c ∷ cs) [] = ground (arith, list_eq_refl (c ∷ cs))
strip_suffix-append t (b ∷ bs) = ground (arith, longer-ne b bs t, strip_suffix-append t bs)

strip_suffix_sound : (t s pre : Bytes) → strip_suffix t s ≡ some pre → s ≡ pre ++ t
strip_suffix_sound t [] pre h = ground (arith, list_eq_iff [] t)
strip_suffix_sound t (c ∷ cs) pre h = elim (Bool-cases (list_eq (c ∷ cs) t)) [
  | inl e ↦ ground (arith, (list_eq_iff (c ∷ cs) t).0 e)
  | inr e ↦ elim (Option-cases (strip_suffix t cs)) [
    | inl q ↦ absurd (ground arith)
    | inr (p, q) ↦ ground (arith, strip_suffix_sound t cs p q)
  ]
]

host_name_iff :
    (suffix header name : Bytes)
    → (host_name suffix header ≡ some name)
      ↔ (IsName name × (strip_port header ≡ name ++ b'.' ∷ suffix))
unfolding host_name
host_name_iff suffix header name = (
  λ h. elim (Option-cases (strip_suffix (b'.' ∷ suffix) (strip_port header))) [
    | inl e ↦ absurd (ground arith)
    | inr (pre, e) ↦
        let q : pre ≡ name = ground arith in
        let v : is_valid_name pre ≡ true = ground arith in
        rw (← q) (
          (is_valid_name_iff pre).0 v,
          strip_suffix_sound (b'.' ∷ suffix) (strip_port header) pre e,
        )
  ],
  λ (n, e).
      let s = ap (strip_suffix (b'.' ∷ suffix)) e ∙ strip_suffix-append (b'.' ∷ suffix) name in
      rw (s, host_name) (ground (arith, (is_valid_name_iff name).1 n, not_empty name n)),
)

-- A header matches the function `name` by host exactly when, a `:port` taken off, it is `name`, a
-- dot and the configured suffix, the suffix is not empty and `name` is a valid name.
pub resolve_host_iff :
    (r : Resolver) (header suffix name : Bytes)
    → r.host_suffix ≡ some suffix
    → (resolve_host r (some header) ≡ some name)
      ↔ (IsName name × (suffix ≢ []) × (strip_port header ≡ name ++ b'.' ∷ suffix))
unfolding resolve_host host_name
resolve_host_iff r header [] name c = (λ h. ground arith, λ h. absurd (h.1 refl))
resolve_host_iff r header (c ∷ cs) name conf = (
  λ h. let (n, e) = (host_name_iff (c ∷ cs) header name).0 (ground arith) in (n, λ q. cc, e),
  λ (n, _, e). ground (arith, (host_name_iff (c ∷ cs) header name).1 (n, e)),
)

digits_no_colon : (port : Bytes) → all is_digit port ≡ true → rsplit_once b':' port ≡ none
digits_no_colon [] d = refl
digits_no_colon (b ∷ bs) d = ground (arith, digits_no_colon bs)

rsplit_port :
    (h port : Bytes)
    → all is_digit port ≡ true
    → rsplit_once b':' (h ++ b':' ∷ port) ≡ some (h, port)
rsplit_port [] port d = ground (arith, digits_no_colon port d)
rsplit_port (b ∷ bs) port d = ground (arith, rsplit_port bs port d)

-- A `:` and one or more digits at the end of a header are taken off, and nothing more.
pub strip_port-append :
    (h port : Bytes) → all is_digit port ≡ true → port ≢ [] → strip_port (h ++ b':' ∷ port) ≡ h
unfolding strip_port
strip_port-append h [] d n = absurd (n refl)
strip_port-append h (b ∷ bs) d n = rw (rsplit_port h (b ∷ bs) d, strip_port) (ground arith)

-- The function that a route names, if it names one.
abbrev pub Names : Resolved → Bytes → Type 0
Names (path_prefix function _) name = function ≡ name
Names (host function) name = function ≡ name
Names (push function) name = function ≡ name
Names no_match name = ⊥

prefix-Names :
    (path name : Bytes) → Names (resolve_path_prefix path) name → is_valid_name name ≡ true
unfolding resolve_path_prefix
prefix-Names path name h = ground arith

push-Names : (rest name : Bytes) → Names (resolve_push rest) name → is_valid_name name ≡ true
unfolding resolve_push
push-Names rest name h = ground arith

path-Names : (path name : Bytes) → Names (resolve_path path) name → is_valid_name name ≡ true
unfolding resolve_path
path-Names path name h = elim (Option-cases (strip_prefix push_path_prefix path)) [
  | inl e ↦
      reserved (starts_with reserved_path_prefix path) (is_empty path || path =? codes "/")
        (rw (e, resolve_path) at h)
  | inr (rest, e) ↦ push-Names rest name (rw (e, resolve_path) at h)
]
  where
    reserved :
        (a b : Bool)
        → Names (if a then no_match else if b then no_match else resolve_path_prefix path) name
        → is_valid_name name ≡ true
    reserved true b k = absurd k
    reserved false true k = absurd k
    reserved false false k = prefix-Names path name k

host_valid :
    (suffix header name : Bytes) → host_name suffix header ≡ some name → is_valid_name name ≡ true
unfolding host_name
host_valid suffix header name h = ground arith

host_names :
    (r : Resolver) (header : Option Bytes) (name : Bytes)
    → resolve_host r header ≡ some name
    → is_valid_name name ≡ true
unfolding resolve_host
host_names r none name h = ground arith
host_names r (some header) name h = elim (Option-cases r.host_suffix) [
  | inl e ↦ absurd (ground arith)
  | inr (suffix, e) ↦ host_valid suffix header name (ground arith)
]

-- Whatever the header and the path, the function that a route names has a valid name.
pub resolve-IsName :
    (r : Resolver) (header : Option Bytes) (path name : Bytes)
    → Names (resolve r header path) name
    → IsName name
unfolding resolve
resolve-IsName r header path name h = elim (Option-cases (resolve_host r header)) [
  | inl e ↦ (is_valid_name_iff name).0 (path-Names path name (rw (e, resolve) at h))
  | inr (n, e) ↦
      let q : n ≡ name = rw (e, resolve) at h in
      rw (← q) ((is_valid_name_iff n).0 (host_names r header n e))
]
