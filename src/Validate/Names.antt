-- ===== src/Validate/Names.antt =====
-- The three name patterns of validate.rs, as predicates that do not mention the checks.
use open_functions.Prelude.{
  ℕ, ◌≤◌, Bytes, ◌++◌, List, [], ◌∷◌, ◌≡◌, refl, ◌⊎◌, ◌↔◌, all, length, starts_with,
  starts_with_iff, ||-cases, ||-of, inl, inr, Bool, true, ok, arith, list_eq_iff, any, ◌=?◌,
  list_Eq, ℕ_Eq,
}
use open_functions.Validate.{
  is_name_byte, is_topic_char, is_identifier_byte, validate_python_entry_point, validate_name,
  validate_topic, is_valid_env_key_shape, is_reserved_env_key, reserved_env_names,
  reserved_env_prefix,
}

-- A byte in one of the ranges, or one of the listed bytes.
abbrev pub Between : ℕ → ℕ → ℕ → Type 0
Between lo hi b = (lo ≤ b) × (b ≤ hi)

abbrev pub Lower : ℕ → Type 0
Lower = Between 97 122

abbrev pub Alpha : ℕ → Type 0
Alpha b = Between 97 122 b ⊎ Between 65 90 b

abbrev pub Digit : ℕ → Type 0
Digit = Between 48 57

abbrev pub All {ℓ κ} : {A : Type ℓ} → (A → Type κ) → List A → Type κ
All P [] = Unit
All P (x ∷ xs) = P x × All P xs

-- `^[a-z][a-z0-9-]{0,62}$`
abbrev pub NameByte : ℕ → Type 0
NameByte b = (Lower b ⊎ Digit b) ⊎ (b ≡ 45)

abbrev pub IsName : Bytes → Type 0
IsName [] = ⊥
IsName (b ∷ bs) = Lower b × All NameByte bs × (length bs ≤ 62)

-- `^[A-Za-z][\w\-.~+%]{2,254}$`
abbrev pub TopicByte : ℕ → Type 0
TopicByte b =
    ((Alpha b ⊎ Digit b) ⊎ (b ≡ 95)) ⊎ ((b ≡ 45) ⊎ (b ≡ 46) ⊎ (b ≡ 126) ⊎ (b ≡ 43) ⊎ (b ≡ 37))

abbrev pub IsTopic : Bytes → Type 0
IsTopic [] = ⊥
IsTopic (b ∷ bs) = Alpha b × All TopicByte bs × (2 ≤ length bs) × (length bs ≤ 254)

-- `^[A-Za-z_][A-Za-z0-9_]*$`
abbrev pub IdentifierByte : ℕ → Type 0
IdentifierByte b = (Alpha b ⊎ Digit b) ⊎ (b ≡ 95)

abbrev pub IsIdentifier : Bytes → Type 0
IsIdentifier [] = ⊥
IsIdentifier (b ∷ bs) = (Alpha b ⊎ (b ≡ 95)) × All IdentifierByte bs

abbrev pub Any {ℓ} : {A : Type ℓ} → (A → Type 0) → List A → Type 0
Any P [] = ⊥
Any P (x ∷ xs) = P x ⊎ Any P xs

-- One of the six names, or a text that begins with `K_`.
abbrev pub IsReserved : Bytes → Type 0
IsReserved s =
    Any (λ name. name ≡ s) reserved_env_names ⊎ ((rest : Bytes) × (reserved_env_prefix ++ rest ≡ s))

module _ (p : ℕ → Bool) (P : ℕ → Type 0) (e : (b : ℕ) → (p b ≡ true) ↔ P b) where
  All-of_all : (bs : Bytes) → all p bs ≡ true → All P bs
  All-of_all [] h = tt
  All-of_all (b ∷ bs) h = ground (arith, (e b).0, All-of_all bs)

  all_of_All : (bs : Bytes) → All P bs → all p bs ≡ true
  all_of_All [] h = refl
  all_of_All (b ∷ bs) h = ground (arith, (e b).1 h.0, all_of_All bs h.1)

name_byte : (b : ℕ) → (is_name_byte b ≡ true) ↔ NameByte b
name_byte b = (λ h. ground arith, λ h. ground arith)

topic_byte : (b : ℕ) → (is_topic_char b ≡ true) ↔ TopicByte b
topic_byte b = (λ h. ground arith, λ h. ground arith)

identifier_byte : (b : ℕ) → (is_identifier_byte b ≡ true) ↔ IdentifierByte b
identifier_byte b = (λ h. ground arith, λ h. ground arith)

-- A name is accepted exactly when it matches `^[a-z][a-z0-9-]{0,62}$`: the test for the reserved
-- prefix `_cf` rejects no name that the pattern accepts.
pub validate_name_iff : (s : Bytes) → (validate_name s ≡ ok tt) ↔ IsName s
unfolding validate_name
validate_name_iff [] = (λ h. cc, λ h. absurd h)
validate_name_iff (b ∷ bs) = (
  λ h. ground (arith, All-of_all _ _ name_byte bs),
  λ h. ground (arith, all_of_All _ _ name_byte bs h.1),
)

-- A topic is accepted exactly when it matches `^[A-Za-z][\w\-.~+%]{2,254}$`.
pub validate_topic_iff : (s : Bytes) → (validate_topic s ≡ ok tt) ↔ IsTopic s
unfolding validate_topic
validate_topic_iff [] = (λ h. cc, λ h. absurd h)
validate_topic_iff (b ∷ bs) = (
  λ h. ground (arith, All-of_all _ _ topic_byte bs),
  λ h. ground (arith, all_of_All _ _ topic_byte bs h.1),
)

pub env_key_shape_iff : (s : Bytes) → (is_valid_env_key_shape s ≡ true) ↔ IsIdentifier s
unfolding is_valid_env_key_shape
env_key_shape_iff [] = (λ h. cc, λ h. absurd h)
env_key_shape_iff (b ∷ bs) = (
  λ h. ground (arith, All-of_all _ _ identifier_byte bs),
  λ h. ground (arith, all_of_All _ _ identifier_byte bs h.1),
)

pub entry_point_iff : (s : Bytes) → (validate_python_entry_point s ≡ ok tt) ↔ IsIdentifier s
unfolding validate_python_entry_point
entry_point_iff [] = (λ h. cc, λ h. absurd h)
entry_point_iff (b ∷ bs) = (
  λ h. ground (arith, All-of_all _ _ identifier_byte bs),
  λ h. ground (arith, all_of_All _ _ identifier_byte bs h.1),
)

listed_iff :
    (names : List Bytes) (s : Bytes)
    → (any (λ name. name =? s) names ≡ true) ↔ Any (λ name. name ≡ s) names
listed_iff [] s = (λ h. cc, λ h. absurd h)
listed_iff (x ∷ xs) s = (
  λ h. ground (arith, list_eq_iff x s, listed_iff xs s),
  λ h. ground (arith, list_eq_iff x s, listed_iff xs s),
)

pub IsReserved-key_iff : (s : Bytes) → (is_reserved_env_key s ≡ true) ↔ IsReserved s
unfolding is_reserved_env_key
IsReserved-key_iff s = (λ h. reserved (||-cases _ _ h), λ h. ||-of _ _ (unreserved h))
  where
    reserved :
        (any (λ name. name =? s) reserved_env_names ≡ true)
          ⊎ (starts_with reserved_env_prefix s ≡ true)
        → IsReserved s
    reserved (inl h) = inl ((listed_iff reserved_env_names s).0 h)
    reserved (inr h) = inr ((starts_with_iff reserved_env_prefix s).0 h)

    unreserved :
        IsReserved s
        → (any (λ name. name =? s) reserved_env_names ≡ true)
          ⊎ (starts_with reserved_env_prefix s ≡ true)
    unreserved (inl h) = inl ((listed_iff reserved_env_names s).1 h)
    unreserved (inr h) = inr ((starts_with_iff reserved_env_prefix s).1 h)
