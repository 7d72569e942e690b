-- ===== src/Resolve/Routes.antt =====
-- Which requests reach which function.
use open_functions.Prelude.{
  is_empty, ◌∙◌, strip_prefix_sound, ◌==◌, Bytes, codes, ◌≡◌, refl, sym, ◌≢◌, strip_prefix, ◌↔◌,
  ◌⊎◌, inl, inr, ◌++◌, [], ◌∷◌, Option, none, some, true, false, arith, Bool-cases, split_at,
  Option-cases,
}
use open_functions.Validate.Names.{IsName, NameByte, All, validate_name_iff}
use open_functions.Resolve.{
  push_path_prefix, Resolver, path_prefix, push, is_valid_name, first_segment, rest_of,
  resolve_path_prefix, resolve_host, resolve_push, resolve_path, resolve,
}

pub is_valid_name_iff : (s : Bytes) → (is_valid_name s ≡ true) ↔ IsName s
unfolding is_valid_name
is_valid_name_iff [] = (λ h. ground (arith, (validate_name_iff []).0), λ h. absurd h)
is_valid_name_iff (b ∷ bs) = (
  λ h. ground (arith, (validate_name_iff (b ∷ bs)).0),
  λ h. rw ((validate_name_iff (b ∷ bs)).1 h, is_valid_name) (ground arith),
)

-- A path splits at its first slash.
abbrev pub Segments : Bytes → Bytes → Bytes → Type 0
Segments p name rest =
    ((p ≡ name) × (rest ≡ codes "/")) ⊎ ((t : Bytes) × (rest ≡ b'/' ∷ t) × (p ≡ name ++ rest))

split_sound :
    (p name rest : Bytes)
    → split_at b'/' p ≡ some (name, rest)
    → (t : Bytes) × (rest ≡ b'/' ∷ t) × (p ≡ name ++ rest)
split_sound [] name rest h = cc
split_sound (b ∷ bs) name rest h = elim (Bool-cases (b == b'/')) [
  | inl e ↦ (bs, ground arith, ground arith)
  | inr e ↦ elim (Option-cases (split_at b'/' bs)) [
    | inl q ↦ absurd (ground arith)
    | inr ((pre, post), q) ↦
        let (t, r, s) = split_sound bs pre post q in (t, ground (arith, r), ground (arith, s))
  ]
]

split_found :
    (name t : Bytes) → All NameByte name → split_at b'/' (name ++ b'/' ∷ t) ≡ some (name, b'/' ∷ t)
split_found [] t a = refl
split_found (b ∷ bs) t a = ground (arith, split_found bs t a.1)

split_none : (name : Bytes) → All NameByte name → split_at b'/' name ≡ none
split_none [] a = refl
split_none (b ∷ bs) a = ground (arith, split_none bs a.1)

name-Segments : (p : Bytes) → IsName (first_segment p) → Segments p (first_segment p) (rest_of p)
name-Segments p n = elim (Option-cases (split_at b'/' p)) [
  | inl e ↦ inl (rw (e, first_segment), rw (e, rest_of))
  | inr ((name, rest), e) ↦ inr (rw (e, first_segment, rest_of) (split_sound p name rest e))
]

pub IsName-bytes : (name : Bytes) → IsName name → All NameByte name
IsName-bytes [] n = tt
IsName-bytes (b ∷ bs) n = (ground arith, n.1)

Segments-first :
    (p name rest : Bytes)
    → IsName name
    → Segments p name rest
    → (first_segment p ≡ name) × (rest_of p ≡ rest)
Segments-first p name rest n (inl (e, r)) =
    let q = split_none name (IsName-bytes name n) in
    (rw e (rw (q, first_segment)), rw e (rw (q, rest_of) (sym r)))
Segments-first p name rest n (inr (t, r, e)) =
    let q = split_found name t (IsName-bytes name n) in
    (rw (e, r) (rw (q, first_segment)), rw (e, r) (rw (q, rest_of)))

pub resolve_path_prefix_iff :
    (p name rest : Bytes)
    → (resolve_path_prefix (b'/' ∷ p) ≡ path_prefix name rest)
      ↔ (IsName name × Segments p name rest)
unfolding resolve_path_prefix
resolve_path_prefix_iff p name rest = (
  λ h. elim (Bool-cases (is_valid_name (first_segment p))) [
    | inl v ↦
        let e : first_segment p ≡ name = ground arith in
        let r : rest_of p ≡ rest = ground arith in
        let n = (is_valid_name_iff (first_segment p)).0 v in rw (← e, ← r) (n, name-Segments p n)
    | inr v ↦ absurd (ground arith)
  ],
  λ h.
      let (e, r) = Segments-first p name rest h.0 h.1 in
      ground (arith, e, r, (is_valid_name_iff name).1 h.0),
)

push-ne-path_prefix : (rest name t : Bytes) → resolve_push rest ≢ path_prefix name t
unfolding resolve_push
push-ne-path_prefix rest name t h = ground arith

path_prefix-ne-push : (path name : Bytes) → resolve_path_prefix path ≢ push name
unfolding resolve_path_prefix
path_prefix-ne-push path name h = ground arith

resolve_path-prefix :
    (path name rest : Bytes)
    → resolve_path path ≡ path_prefix name rest
    → resolve_path_prefix path ≡ path_prefix name rest
unfolding resolve_path
resolve_path-prefix path name rest h = elim (Option-cases (strip_prefix push_path_prefix path)) [
  | inl e ↦ ground arith
  | inr (t, e) ↦ absurd (push-ne-path_prefix t name rest (rw (e, resolve_path) at h))
]

resolve_path_lower :
    (p name rest : Bytes)
    → IsName name
    → Segments p name rest
    → resolve_path (b'/' ∷ p) ≡ resolve_path_prefix (b'/' ∷ p)
unfolding resolve_path
resolve_path_lower p [] rest n s = absurd n
resolve_path_lower p (b ∷ bs) rest n (inl (e, r)) = rw e (ground arith)
resolve_path_lower p (b ∷ bs) rest n (inr (t, r, e)) = rw e (ground arith)

pub not_empty : (name : Bytes) → IsName name → is_empty name ≡ false
not_empty [] n = absurd n
not_empty (b ∷ bs) n = refl

resolve_push_iff :
    (p name : Bytes)
    → (resolve_push p ≡ push name) ↔ (IsName name × (rest : Bytes) × Segments p name rest)
unfolding resolve_push
resolve_push_iff p name = (
  λ h. elim (Bool-cases (is_valid_name (first_segment p))) [
    | inl v ↦
        let e : first_segment p ≡ name = ground arith in
        let n = (is_valid_name_iff (first_segment p)).0 v in
        rw (← e) (n, rest_of p, name-Segments p n)
    | inr v ↦ absurd (ground arith)
  ],
  λ (n, rest, s).
      let e = (Segments-first p name rest n s).0 in
      ground (arith, e, (is_valid_name_iff name).1 n, not_empty name n),
)

resolve_path_push : (p : Bytes) → resolve_path (push_path_prefix ++ p) ≡ resolve_push p
unfolding resolve_path
resolve_path_push p = refl

push_route :
    (path name : Bytes)
    → resolve_path path ≡ push name
    → IsName name
      × (p : Bytes) × (rest : Bytes) × (path ≡ push_path_prefix ++ p)
      × Segments p name rest
unfolding resolve_path
push_route path name h = elim (Option-cases (strip_prefix push_path_prefix path)) [
  | inl e ↦ absurd (path_prefix-ne-push path name (ground arith))
  | inr (p, e) ↦
      let (n, rest, s) = (resolve_push_iff p name).0 (rw (e, resolve_path) at h) in
      (n, p, rest, sym (strip_prefix_sound push_path_prefix path p e), s)
]

module _ (r : Resolver) (header : Option Bytes) (no_host : resolve_host r header ≡ none) where
  -- With no match by host, a path `/p` goes to the function `name` by its first segment exactly when
  -- `p` is `name`, forwarded as `/`, or `name` and a rest that begins with a slash, forwarded as that
  -- rest, and `name` is a valid function name; no path below `/_cf/` does.
  pub resolve-path_prefix_iff :
      (p name rest : Bytes)
      → (resolve r header (b'/' ∷ p) ≡ path_prefix name rest) ↔ (IsName name × Segments p name rest)
  unfolding resolve
  resolve-path_prefix_iff p name rest = (
    λ h.
        (resolve_path_prefix_iff p name rest).0
          (resolve_path-prefix (b'/' ∷ p) name rest (rw (no_host, resolve) at h)),
    λ h.
        rw (no_host, resolve)
          (resolve_path_lower p name rest h.0 h.1 ∙ (resolve_path_prefix_iff p name rest).1 h),
  )

  -- With no match by host, a push delivery reaches the function `name` exactly when the path is
  -- `/_cf/push/name`, or that and a rest that begins with a slash, and `name` is a valid name.
  pub resolve-push_iff :
      (path name : Bytes)
      → (resolve r header path ≡ push name) ↔ (
          IsName name
          × (p : Bytes) × (rest : Bytes) × (path ≡ push_path_prefix ++ p)
          × Segments p name rest)
  unfolding resolve
  resolve-push_iff path name = (
    λ h. push_route path name (rw (no_host, resolve) at h),
    λ (n, p, rest, e, s).
        rw (no_host, resolve)
          (rw e (resolve_path_push p ∙ (resolve_push_iff p name).1 (n, rest, s))),
  )
