-- ===== src/Registry/Activate/Ready.antt =====
-- What an activation makes of the function, of its pool and of the other pools.
use open_functions.Prelude.{
  ℕ, Bytes, Option, none, some, ◌≡◌, ◌≢◌, refl, ap, ◌∙◌, inl, inr, lookup, lookup-insert_same,
  lookup-insert_other, ok, Option-cases, list_Eq, ℕ_Eq,
}
use open_functions.Model.{Function, FunctionState, Revision}
use open_functions.Store.{put_function, get_function}
use open_functions.Runtime.{InstanceSpec}
use open_functions.Pool.{new, PoolConfig, set_spec_template}
use open_functions.Registry.{Outside, World, Config, Entry, DriverKind}
use open_functions.Registry.Launches.{spec_of, pool_config_of}
use open_functions.Registry.Activate.{
  reading, read_function, write, install, mark_ready, activate_revision,
}
use open_functions.Registry.Effects.{prune_old_artifacts-functions, prune_old_artifacts-pools}

module _ (o : Outside) where
  install-store :
      (name : Bytes) (spec : DriverKind × InstanceSpec) (pc : PoolConfig) (w : World o)
      → (install o name spec pc w).store ≡ w.store
  unfolding install
  install-store name spec pc w = elim (Option-cases (lookup name w.pools)) [
    | inl e ↦ rw (e, install) refl
    | inr (q, e) ↦ rw (e, install) refl
  ]

  install-swaps :
      (name : Bytes) (driver : DriverKind) (spec : InstanceSpec) (pc : PoolConfig) (entry : Entry)
      (w : World o)
      → lookup name w.pools ≡ some entry
      → lookup name (install o name (driver, spec) pc w).pools
        ≡ some (record entry { pool = set_spec_template spec (entry.pool) })
  unfolding install
  install-swaps name driver spec pc entry w l = rw (l, install) (lookup-insert_same name _ w.pools)

  mark_ready-pools :
      (number : ℕ) (found : Option Function) (w : World o)
      → (w' : World o) × (mark_ready o number found w ≡ (w', ok tt)) × (w'.pools ≡ w.pools)
  unfolding mark_ready reading write put_function
  mark_ready-pools number none w = (w, refl, refl)
  mark_ready-pools number (some f) w = (_, refl, refl)

  -- The activation of a revision of a stored function succeeds; afterwards the function is ready at
  -- that revision without an error, and every other function is stored as before.
  pub activate_revision-ready :
      (c : Config) (revision : Revision) (f : Function) (w : World o)
      → lookup f.name w.store.functions ≡ some f
      → let after = activate_revision o c f.name revision w in
        (after.1 ≡ ok tt)
        × ((t : ℕ) × (lookup f.name after.0.store.functions
              ≡ some (record f {
                current_revision = some revision.number;
                state = FunctionState.ready;
                last_error = none;
                updated_at = t;
              })))
        × ((other : Bytes)
            → other ≢ f.name
            → lookup other after.0.store.functions ≡ lookup other w.store.functions)
  unfolding activate_revision reading read_function write mark_ready get_function put_function
  activate_revision-ready c revision f w l =
      let started =
        install o f.name (spec_of c f.name revision) (pool_config_of revision.snapshot) w in
      let st =
        install-store f.name (spec_of c f.name revision) (pool_config_of revision.snapshot) w in
      let l' : lookup f.name started.store.functions ≡ some f =
        ap (λ s. lookup f.name s.functions) st ∙ l in
      let kept = prune_old_artifacts-functions o c f.name revision.number in
      rw (l', activate_revision)
        (
          refl,
          (
            (o.now started.outer).1,
            ap (lookup f.name) (kept _) ∙ lookup-insert_same f.name _ started.store.functions,
          ),
          λ other d.
              ap (lookup other) (kept _)
              ∙ lookup-insert_other f.name other _ started.store.functions d
              ∙ ap (λ s. lookup other s.functions) st,
        )

  -- An activation where the function has a pool gives that pool the new launch, and leaves its
  -- driver, its configuration and its instances as they were, whatever the revision says of them.
  pub activate_revision-swaps :
      (c : Config) (name : Bytes) (revision : Revision) (entry : Entry) (w : World o)
      → lookup name w.pools ≡ some entry
      → (q : Entry) × (lookup name (activate_revision o c name revision w).0.pools ≡ some q)
        × (q.driver ≡ entry.driver)
        × (q.pool.config ≡ entry.pool.config)
        × (q.pool.instances ≡ entry.pool.instances)
        × (q.pool.spec_template ≡ (spec_of c name revision).1)
  unfolding activate_revision reading read_function write mark_ready get_function put_function
      set_spec_template
  activate_revision-swaps c name revision entry w l =
      let started = install o name (spec_of c name revision) (pool_config_of revision.snapshot) w in
      let swapped : Entry = record entry {
        pool = set_spec_template (spec_of c name revision).1 (entry.pool);
      } in
      let installed = install-swaps name _ _ (pool_config_of revision.snapshot) entry w l in
      let (w', q, p) =
        mark_ready-pools revision.number (lookup name started.store.functions) started in
      rw (q, activate_revision)
        (
          swapped,
          ap (lookup name) (prune_old_artifacts-pools o c name revision.number w' ∙ p) ∙ installed,
          refl,
          refl,
          refl,
          refl,
        )

  install-new :
      (name : Bytes) (driver : DriverKind) (spec : InstanceSpec) (pc : PoolConfig) (w : World o)
      → lookup name w.pools ≡ none
      → lookup name (install o name (driver, spec) pc w).pools
        ≡ some (record { driver = driver; pool = new spec pc w.global_free })
  unfolding install
  install-new name driver spec pc w l = rw (l, install) (lookup-insert_same name _ w.pools)

  -- An activation of a revision of a function that is not stored and has no pool, as after a deletion
  -- during its build, succeeds all the same: the function gets a pool, and is still not stored.
  pub activate_revision-orphan :
      (c : Config) (name : Bytes) (revision : Revision) (w : World o)
      → lookup name w.store.functions ≡ none
      → lookup name w.pools ≡ none
      → let after = activate_revision o c name revision w in
        (after.1 ≡ ok tt)
        × (lookup name after.0.store.functions ≡ none)
        × ((entry : Entry) × (lookup name after.0.pools ≡ some entry))
  unfolding activate_revision read_function mark_ready get_function
  activate_revision-orphan c name revision w l n =
      let started = install o name (spec_of c name revision) (pool_config_of revision.snapshot) w in
      let st = install-store name (spec_of c name revision) (pool_config_of revision.snapshot) w in
      let l' : lookup name started.store.functions ≡ none =
        ap (λ s. lookup name s.functions) st ∙ l in
      let made = install-new name _ _ (pool_config_of revision.snapshot) w n in
      rw (l', activate_revision)
        (
          refl,
          ap (lookup name) (prune_old_artifacts-functions o c name revision.number started) ∙ l',
          (_, ap (lookup name) (prune_old_artifacts-pools o c name revision.number started) ∙ made),
        )
