-- ===== src/Server/Admin/Guarded.antt =====
-- Who gets past the token.
use open_functions.Prelude.{
  Bytes, codes, Bool, true, false, Option, none, some, ◌++◌, strip_prefix, strip_prefix_sound, ◌=?◌,
  list_Eq, ℕ_Eq, list_eq_iff, list_eq_refl, ◌≡◌, refl, sym, ap, ◌∙◌, Option-cases, inl, inr,
  if◌then◌else◌, arith,
}
use open_functions.Registry.{Outside, World, Config}
use open_functions.Forward.{HttpHeaders, first_text}
use open_functions.Server.Admin.{
  AdminState, Surface, V1Request, v1, bearer, provided, is_same, token_matches, unauthorized,
}
use open_functions.Server.Admin.Handlers.{serve_v1, serve_admin}

-- The text is there, and it is `expected`.
abbrev pub is_exactly : Option Bytes → Bytes → Bool
is_exactly none expected = false
is_exactly (some v) expected = v =? expected

same_Bool : (a b : Bool) → (a ≡ true → b ≡ true) → (b ≡ true → a ≡ true) → a ≡ b
same_Bool true b f g = sym (f refl)
same_Bool false true f g = g refl
same_Bool false false f g = refl

is_same-provided :
    (given : Option Bytes) (token : Bytes)
    → is_same (provided given) token ≡ is_exactly given (bearer ++ token)
is_same-provided none token = refl
is_same-provided (some v) token =
    same_Bool (is_same (strip_prefix bearer v) token) (v =? (bearer ++ token))
      (λ e. elim (Option-cases (strip_prefix bearer v)) [
        | inl n ↦ absurd (ground (arith, n))
        | inr (rest, q) ↦
            let same : rest ≡ token = (list_eq_iff rest token).0 (rw q at e) in
            (list_eq_iff v (bearer ++ token)).1
              (sym (strip_prefix_sound bearer v rest q) ∙ ap (λ r. bearer ++ r) same)
      ])
      (λ e.
        let same : v ≡ bearer ++ token = (list_eq_iff v (bearer ++ token)).0 e in
        ap (λ x. is_same (strip_prefix bearer x) token) same ∙ list_eq_refl token)

module _ (o : Outside) (c : Config) (u : Surface o) (h : HttpHeaders) where
  -- With a token configured, a request below /v1 is served exactly when its first Authorization
  -- header is Bearer, one space and the token; otherwise the answer is 401 and nothing has changed.
  pub serve_admin-token :
      (state : AdminState) (token : Bytes) (headers : h.HeaderMap) (r : V1Request) (w : World o)
      → state.token ≡ some token
      → serve_admin o c u h state headers (v1 r) w ≡ (
          if is_exactly (first_text h (codes "authorization") headers) (codes "Bearer " ++ token)
          then serve_v1 o c u state r w
          else (w, unauthorized))
  unfolding serve_admin token_matches
  serve_admin-token state token headers r w e =
      ground (arith, e, is_same-provided (first_text h (codes "authorization") headers) token)
