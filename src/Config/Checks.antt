-- ===== src/Config/Checks.antt =====
-- Which configurations pass the checks.
use open_functions.Prelude.{
  Bytes, codes, Bool, true, false, not, is_empty, ◌||◌, [], ◌∷◌, any, ◌=?◌, list_Eq, ℕ_Eq, Result,
  ok, guard, ◌>>◌, ◌≡◌, ◌≢◌, ◌⊎◌, inl, inr, ◌↔◌, refl, arith,
}
use open_functions.Config.{AppConfig, AdminConfig}
use open_functions.Config.Load.{
  ConfigError, is_guarded, is_loopback_host, one_of, build_modes, cgroup_settings, installers,
  queue_policies, log_formats, validate,
}
use open_functions.Config.Loopback.{OneOf, IsLoopback, any-OneOf_iff, is_loopback_host_iff}

-- The admin listener is on the loopback interface or has a token or a token file, and each setting
-- that has a fixed set of values has one of them.
pub record IsSound (cfg : AppConfig) : Type 0 where
  pub guarded : IsLoopback cfg.admin.listen ⊎ ((cfg.admin.token ≢ []) ⊎ (cfg.admin.token_file ≢ []))
  pub build_mode : OneOf cfg.build.mode (codes "auto" ∷ codes "host" ∷ codes "container" ∷ [])
  pub cgroup : OneOf cfg.runtime.cgroup (codes "auto" ∷ codes "off" ∷ [])
  pub python_mode : OneOf cfg.python.mode (codes "auto" ∷ codes "host" ∷ codes "container" ∷ [])
  pub installer : OneOf cfg.python.installer (codes "auto" ∷ codes "uv" ∷ codes "pip" ∷ [])
  pub queue_policy : OneOf cfg.defaults.queue_policy (codes "wait" ∷ codes "reject" ∷ [])
  pub log_format : OneOf cfg.log.format (codes "json" ∷ codes "text" ∷ codes "journald" ∷ [])

nonempty : (s : Bytes) → not (is_empty s) ≡ true → s ≢ []
nonempty [] e = absurd (ground arith)
nonempty (b ∷ s) e = λ d. cc

is_nonempty : (s : Bytes) → s ≢ [] → not (is_empty s) ≡ true
is_nonempty [] d = absurd (d refl)
is_nonempty (b ∷ s) d = refl

or-cases : (a b c : Bool) → (a || b || c) ≡ true → (a ≡ true) ⊎ ((b ≡ true) ⊎ (c ≡ true))
or-cases true b c e = inl refl
or-cases false true c e = inr (inl refl)
or-cases false false true e = inr (inr refl)
or-cases false false false e = absurd (ground arith)

guarded_iff :
    (admin : AdminConfig)
    → (is_guarded admin ≡ true)
      ↔ (IsLoopback admin.listen ⊎ ((admin.token ≢ []) ⊎ (admin.token_file ≢ [])))
guarded_iff admin = (
  λ e. elim (or-cases (is_loopback_host admin.listen) _ _ e) [
    | inl l ↦ inl ((is_loopback_host_iff admin.listen).0 l)
    | inr (inl t) ↦ inr (inl (nonempty admin.token t))
    | inr (inr t) ↦ inr (inr (nonempty admin.token_file t))
  ],
  λ g. elim g [
    | inl l ↦ ground (arith, (is_loopback_host_iff admin.listen).1 l)
    | inr (inl d) ↦ ground (arith, is_nonempty admin.token d)
    | inr (inr d) ↦ ground (arith, is_nonempty admin.token_file d)
  ],
)

then_ok :
    (b : Bool) (e : ConfigError) (rest : Result ConfigError (Unit {0}))
    → (guard b e >> rest) ≡ ok tt
    → (b ≡ true) × (rest ≡ ok tt)
then_ok true e rest h = (refl, h)
then_ok false e rest h = absurd (ground arith)

last_ok : (b : Bool) (e : ConfigError) → guard b e ≡ ok tt → b ≡ true
last_ok true e h = refl
last_ok false e h = absurd (ground arith)

-- A configuration passes the checks exactly when its admin listener is on the loopback interface (a
-- name of it, with any number of brackets round it and a port, or such a name without a colon) or
-- has a token or a token file, and each setting with a fixed set of values has one of them.
pub validate-IsSound_iff :
    (debug : Bytes → Bytes) (cfg : AppConfig) → (validate debug cfg ≡ ok tt) ↔ IsSound cfg
unfolding validate one_of
validate-IsSound_iff debug cfg = (
  λ h.
      let (a, h1) = then_ok (is_guarded cfg.admin) _ _ h in
      let (b, h2) = then_ok (any (λ v. cfg.build.mode =? v) build_modes) _ _ h1 in
      let (d, h3) = then_ok (any (λ v. cfg.runtime.cgroup =? v) cgroup_settings) _ _ h2 in
      let (e, h4) = then_ok (any (λ v. cfg.python.mode =? v) build_modes) _ _ h3 in
      let (f, h5) = then_ok (any (λ v. cfg.python.installer =? v) installers) _ _ h4 in
      let (g, h6) = then_ok (any (λ v. cfg.defaults.queue_policy =? v) queue_policies) _ _ h5 in
      record {
        guarded = (guarded_iff cfg.admin).0 a;
        build_mode = (any-OneOf_iff cfg.build.mode build_modes).0 b;
        cgroup = (any-OneOf_iff cfg.runtime.cgroup cgroup_settings).0 d;
        python_mode = (any-OneOf_iff cfg.python.mode build_modes).0 e;
        installer = (any-OneOf_iff cfg.python.installer installers).0 f;
        queue_policy = (any-OneOf_iff cfg.defaults.queue_policy queue_policies).0 g;
        log_format =
            (any-OneOf_iff cfg.log.format log_formats).0
              (last_ok (any (λ v. cfg.log.format =? v) log_formats) _ h6);
      },
  λ s.
      rw
        (
          (guarded_iff cfg.admin).1 s.guarded,
          (any-OneOf_iff cfg.build.mode build_modes).1 s.build_mode,
          (any-OneOf_iff cfg.runtime.cgroup cgroup_settings).1 s.cgroup,
          (any-OneOf_iff cfg.python.mode build_modes).1 s.python_mode,
          (any-OneOf_iff cfg.python.installer installers).1 s.installer,
          (any-OneOf_iff cfg.defaults.queue_policy queue_policies).1 s.queue_policy,
          (any-OneOf_iff cfg.log.format log_formats).1 s.log_format,
        )
        refl,
)
