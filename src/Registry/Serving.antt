-- ===== src/Registry/Serving.antt =====
-- What a failed deployment leaves: the version that serves.
use open_functions.Prelude.{
  ℕ, Bytes, some, ◌≡◌, refl, ap, subst, ◌∙◌, ◌⊎◌, inl, inr, lookup, insert, lookup-insert, Result,
  ok, err, Result-cases, if◌then◌else◌, list_Eq, ℕ_Eq, list_eq_iff, map_err,
}
use open_functions.Prelude.States.{◌>>=◌, ◌>>◌, resume, return}
use open_functions.Model.{Function, FunctionState, BuildMode, Trigger}
use open_functions.Validate.{validate_function}
use open_functions.Store.{put_function}
use open_functions.Registry.{
  Outside, World, Config, Registering, RegisterError, RegisterRequest, RegisterAccepted, validation,
}
use open_functions.Registry.Activate.{write, reading}
use open_functions.Registry.Record.{
  accept, bind_trigger, build_function_record, fail_build, state_after_failure,
}
use open_functions.Registry.Effects.{
  OnlyOuter, OnlyBindings, then-cases, bind_pubsub_trigger-OnlyBindings,
}

pub record_fields :
    (c : Config) (req : RegisterRequest) (f : Function) (t : ℕ)
    → ((build_function_record c req (some f) t).name ≡ req.name)
      × ((build_function_record c req (some f) t).current_revision ≡ f.current_revision)
unfolding build_function_record
record_fields c req f t = (refl, refl)

module _ (o : Outside) where
  -- The world in which `f` is stored.
  abbrev pub with_function : Function → World o → World o
  with_function f w = record w {
    store = record (w.store) { functions = insert f.name f w.store.functions };
  }

  bind_trigger-OnlyBindings :
      (c : Config) (f : Function) (t : Trigger) (w : World o)
      → OnlyBindings o w (bind_trigger o c f t w)
  unfolding bind_trigger
  bind_trigger-OnlyBindings c f Trigger.http w = refl
  bind_trigger-OnlyBindings c f (Trigger.pubsub topic) w =
      bind_pubsub_trigger-OnlyBindings o c f.name topic f.timeout_secs w

  pub accept-cases :
      (c : Config) (f : Function) (w : World o)
      → ((e : RegisterError) × (accept o c f w ≡ (w, err e)))
        ⊎ ((w' : World o) × (accept o c f w ≡ (w', ok tt)) × OnlyBindings o (with_function f w) w')
  unfolding accept write put_function
  accept-cases c f w = elim (Result-cases (validate_function f)) [
    | inl (_, e) ↦
        let stored = with_function f w in
        inr (
          bind_trigger o c f f.trigger stored,
          rw (e, map_err) refl,
          bind_trigger-OnlyBindings c f f.trigger stored,
        )
    | inr (v, e) ↦ inl (validation v, rw (e, map_err) refl)
  ]

  -- The version of `f` still serves: its pool and the revisions are untouched, and the function is
  -- ready at the revision of `f`.
  pub record StillServes (name : Bytes) (f : Function) (w w' : World o) : Type 0 where
    pub pools : w'.pools ≡ w.pools
    pub revisions : w'.store.revisions ≡ w.store.revisions
    pub function :
        (g : Function) × (lookup name w'.store.functions ≡ some g)
        × (g.state ≡ FunctionState.ready)
        × (g.current_revision ≡ f.current_revision)

  pub StillServes-OnlyOuter :
      (name : Bytes) (f : Function) (w w' : World o)
      → lookup name w.store.functions ≡ some f
      → f.state ≡ FunctionState.ready
      → OnlyOuter o w w'
      → StillServes name f w w'
  StillServes-OnlyOuter name f w w' l s e = record {
    pools = ap (λ v. v.pools) e;
    revisions = ap (λ v. v.store.revisions) e;
    function = (f, ap (λ v. lookup name v.store.functions) e ∙ l, s, refl);
  }

  pub returned :
      {A B : Type 0} (P : World o → Type 0) (b : B) (r : World o × Result RegisterError A)
      → P r.0
      → P (resume {E = RegisterError} (λ _. return b) r).0
  returned P b (w, ok a) p = p
  returned P b (w, err e) p = p

  pub fail_build-StillServes :
      (name : Bytes) (f g : Function) (message : Bytes) (w w' : World o)
      → f.state ≡ FunctionState.ready
      → g.name ≡ name
      → g.current_revision ≡ f.current_revision
      → w'.pools ≡ w.pools
      → w'.store.revisions ≡ w.store.revisions
      → StillServes name f w (fail_build o g (some f) message w').0
  unfolding fail_build write reading put_function state_after_failure
  fail_build-StillServes name f g message w w' s n r ps rs = record {
    pools = ps;
    revisions = rs;
    function = (
      record g {
        state = state_after_failure (some f);
        last_error = some message;
        updated_at = (o.now w'.outer).1;
      },
      lookup-insert g.name name _ w'.store.functions
          ∙ rw ((list_eq_iff g.name name).1 n, if◌then◌else◌) refl,
      rw (s, state_after_failure) refl,
      r,
    );
  }

  pub accepted-StillServes :
      (c : Config) (name : Bytes) (f g : Function) (k : Registering o RegisterAccepted)
      (w w' : World o)
      → OnlyOuter o w w'
      → lookup name w.store.functions ≡ some f
      → f.state ≡ FunctionState.ready
      → ((v : World o)
          → v.pools ≡ w.pools
          → v.store.revisions ≡ w.store.revisions
          → StillServes name f w (k v).0)
      → StillServes name f w ((accept o c g >> k) w').0
  accepted-StillServes c name f g k w w' u l s next = elim (accept-cases c g w') [
    | inl (e, q) ↦ rw (q, ◌>>=◌) (StillServes-OnlyOuter name f w w' l s u)
    | inr (v, q, b) ↦
        rw (q, ◌>>=◌)
          (next v (ap (λ x. x.pools) b ∙ ap (λ x. x.pools) u)
            (ap (λ x. x.store.revisions) b ∙ ap (λ x. x.store.revisions) u))
  ]

  pub chosen-StillServes :
      (name : Bytes) (f : Function) (m : Registering o BuildMode)
      (k : BuildMode → Registering o RegisterAccepted) (w : World o)
      → OnlyOuter o w (m w).0
      → lookup name w.store.functions ≡ some f
      → f.state ≡ FunctionState.ready
      → ((mode : BuildMode) (w' : World o) → OnlyOuter o w w' → StillServes name f w (k mode w').0)
      → StillServes name f w ((m >>= k) w).0
  chosen-StillServes name f m k w u l s next =
      then-cases (λ r. StillServes name f w r.0) m k w
        (λ w' e q. StillServes-OnlyOuter name f w w' l s (subst (λ r. OnlyOuter o w r.0) q u))
        (λ w' mode q. next mode w' (subst (λ r. OnlyOuter o w r.0) q u))
