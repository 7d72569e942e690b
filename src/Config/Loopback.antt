-- ===== src/Config/Loopback.antt =====
-- Which listen addresses are on the loopback interface.
use open_functions.Prelude.{
  ℕ, zero, suc, Bytes, codes, Bool, true, none, some, List, [], ◌∷◌, ◌++◌, ◌≡◌, ◌≢◌, ◌⊎◌, ◌↔◌, inl,
  inr, refl, sym, ap, ◌∙◌, arith, Bool-cases, Option-cases, rsplit_once, ◌==◌, is_empty, ◌&&◌, any,
  ◌=?◌, list_Eq, ℕ_Eq, list_eq_iff, subst,
}
use open_functions.Config.Load.{
  loopback_hosts, before_port, trim_start_byte, trim_end_byte, is_loopback_host,
}

abbrev pub repeat : ℕ → ℕ → Bytes
repeat zero b = []
repeat (suc n) b = b ∷ repeat n b

-- The byte is not in the text.
abbrev pub IsWithout : ℕ → Bytes → Type 0
IsWithout b [] = Unit {0}
IsWithout b (c ∷ cs) = (c ≢ b) × IsWithout b cs

-- The text is one of the values.
abbrev pub OneOf : Bytes → List Bytes → Type 0
OneOf s [] = ⊥
OneOf s (v ∷ vs) = (s ≡ v) ⊎ OneOf s vs

abbrev pub IsLoopbackName : Bytes → Type 0
IsLoopbackName name = OneOf name (codes "127.0.0.1" ∷ codes "localhost" ∷ codes "::1" ∷ [])

-- The host part is a name of the loopback interface with any number of brackets round it.
abbrev pub IsBracketed : Bytes → Type 0
IsBracketed host =
    (n m : ℕ) × (name : Bytes) × IsLoopbackName name
    × (host ≡ repeat n b'[' ++ (name ++ repeat m b']'))

-- The address is such a host and a port, or such a host that has no colon.
abbrev pub IsLoopback : Bytes → Type 0
IsLoopback listen =
    ((host port : Bytes) × (listen ≡ host ++ b':' ∷ port) × IsWithout b':' port × IsBracketed host)
    ⊎ (IsWithout b':' listen × IsBracketed listen)

rsplit_once-none : (c : ℕ) (s : Bytes) → rsplit_once c s ≡ none → IsWithout c s
rsplit_once-none c [] e = tt
rsplit_once-none c (b ∷ bs) e = elim (Option-cases (rsplit_once c bs)) [
  | inl q ↦ (ground arith, rsplit_once-none c bs q)
  | inr ((pre, post), q) ↦ absurd (ground arith)
]

-- Around the last colon.
rsplit_once-some :
    (c : ℕ) (s pre post : Bytes)
    → rsplit_once c s ≡ some (pre, post)
    → (s ≡ pre ++ c ∷ post) × IsWithout c post
rsplit_once-some c [] pre post e = absurd (ground arith)
rsplit_once-some c (b ∷ bs) pre post e = elim (Option-cases (rsplit_once c bs)) [
  | inl q ↦ let w = rsplit_once-none c bs q in (ground arith, subst (IsWithout c) (ground arith) w)
  | inr ((p, t), q) ↦
      let (a, w) = rsplit_once-some c bs p t q in
      (ground arith, subst (IsWithout c) (ground arith) w)
]

rsplit_once_without : (c : ℕ) (s : Bytes) → IsWithout c s → rsplit_once c s ≡ none
rsplit_once_without c [] h = refl
rsplit_once_without c (b ∷ bs) h = ground (arith, rsplit_once_without c bs h.1)

rsplit_once-append :
    (c : ℕ) (pre post : Bytes)
    → IsWithout c post
    → rsplit_once c (pre ++ c ∷ post) ≡ some (pre, post)
rsplit_once-append c [] post h = ground (arith, rsplit_once_without c post h)
rsplit_once-append c (b ∷ bs) post h = ground (arith, rsplit_once-append c bs post h)

trim_start-cut : (b : ℕ) (s : Bytes) → (n : ℕ) × (s ≡ repeat n b ++ trim_start_byte b s)
unfolding trim_start_byte
trim_start-cut b [] = (0, refl)
trim_start-cut b (c ∷ cs) = elim (Bool-cases (c == b)) [
  | inl e ↦ let (n, q) = trim_start-cut b cs in (suc n, ground (arith, q, e))
  | inr e ↦ (0, ground arith)
]

trim_end-cut : (b : ℕ) (s : Bytes) → (n : ℕ) × (s ≡ trim_end_byte b s ++ repeat n b)
unfolding trim_end_byte
trim_end-cut b [] = (0, refl)
trim_end-cut b (c ∷ cs) =
    let (n, q) = trim_end-cut b cs in
    elim (Bool-cases (is_empty (trim_end_byte b cs) && c == b)) [
      | inl e ↦ (suc n, ground arith)
      | inr e ↦ (n, ground arith)
    ]

trim_start-repeat :
    (b n : ℕ) (s : Bytes) → trim_start_byte b (repeat n b ++ s) ≡ trim_start_byte b s
unfolding trim_start_byte
trim_start-repeat b zero s = refl
trim_start-repeat b (suc n) s = ground (arith, trim_start-repeat b n s)

trim_end-repeat : (b n : ℕ) → trim_end_byte b (repeat n b) ≡ []
unfolding trim_end_byte
trim_end-repeat b zero = refl
trim_end-repeat b (suc n) = ground (arith, trim_end-repeat b n)

abbrev bare : Bytes → Bytes
bare host = trim_end_byte b']' (trim_start_byte b'[' host)

bare_name : (m : ℕ) (name : Bytes) → IsLoopbackName name → bare (name ++ repeat m b']') ≡ name
unfolding trim_start_byte trim_end_byte
bare_name m name (inl e) = rw e (ground (arith, trim_end-repeat b']' m))
bare_name m name (inr (inl e)) = rw e (ground (arith, trim_end-repeat b']' m))
bare_name m name (inr (inr (inl e))) = rw e (ground (arith, trim_end-repeat b']' m))
bare_name m name (inr (inr (inr x))) = elim x [ ]

bare_iff : (host : Bytes) → IsLoopbackName (bare host) ↔ IsBracketed host
bare_iff host = (
  λ l.
      let (n, q) = trim_start-cut b'[' host in
      let (m, r) = trim_end-cut b']' (trim_start_byte b'[' host) in
      (n, m, bare host, l, q ∙ ap (λ s. repeat n b'[' ++ s) r),
  λ (n, m, name, l, e).
      let b : bare host ≡ name =
        ap bare e
        ∙ ap (trim_end_byte b']') (trim_start-repeat b'[' n (name ++ repeat m b']'))
        ∙ bare_name m name l in
      subst IsLoopbackName (sym b) l,
)

pub any-OneOf_iff : (s : Bytes) (vs : List Bytes) → (any (λ v. s =? v) vs ≡ true) ↔ OneOf s vs
any-OneOf_iff s [] = (λ e. absurd (ground arith), λ e. absurd e)
any-OneOf_iff s (v ∷ vs) = (
  λ e. elim (Bool-cases (s =? v)) [
    | inl q ↦ inl ((list_eq_iff s v).0 q)
    | inr q ↦ inr ((any-OneOf_iff s vs).0 (ground arith))
  ],
  λ m. elim m [
    | inl q ↦ ground (arith, (list_eq_iff s v).1 q)
    | inr l ↦ ground (arith, (any-OneOf_iff s vs).1 l)
  ],
)

is_loopback_host-host :
    (listen host : Bytes)
    → before_port listen ≡ host
    → (is_loopback_host listen ≡ true) ↔ IsBracketed host
unfolding is_loopback_host
is_loopback_host-host listen host e = (
  λ t. (bare_iff host).0 ((any-OneOf_iff (bare host) loopback_hosts).0 (ap test (sym e) ∙ t)),
  λ l. ap test e ∙ (any-OneOf_iff (bare host) loopback_hosts).1 ((bare_iff host).1 l),
)
  where
    test : Bytes → Bool
    test h = any (λ name. bare h =? name) loopback_hosts

-- The address of a listener is taken for one on the loopback interface exactly when it is a name of
-- that interface, with any number of brackets round it, and a port; or such a name without a colon.
pub is_loopback_host_iff : (listen : Bytes) → (is_loopback_host listen ≡ true) ↔ IsLoopback listen
is_loopback_host_iff listen = (
  λ t. elim (Option-cases (rsplit_once b':' listen)) [
    | inl e ↦ inr (
      rsplit_once-none b':' listen e,
      (is_loopback_host-host listen listen (rw (e, before_port) refl)).0 t,
    )
    | inr ((host, port), e) ↦
        let (cut, w) = rsplit_once-some b':' listen host port e in
        inl (host, port, cut, w, (is_loopback_host-host listen host (rw (e, before_port) refl)).0 t)
  ],
  λ l. elim l [
    | inl (host, port, cut, w, b) ↦
        let e = ap (rsplit_once b':') cut ∙ rsplit_once-append b':' host port w in
        (is_loopback_host-host listen host (rw (e, before_port) refl)).1 b
    | inr (w, b) ↦
        let e = rsplit_once_without b':' listen w in
        (is_loopback_host-host listen listen (rw (e, before_port) refl)).1 b
  ],
)
