-- ===== src/Registry/SourceRust/Redeploy.antt =====
-- A redeployment whose build fails leaves the version that serves as it was.
use open_functions.Prelude.{
  ℕ, Bytes, Option, some, ◌≡◌, ap, ◌∙◌, lookup, Result, ok, err, list_Eq, ℕ_Eq, arith,
}
use open_functions.Model.{Function, FunctionState, BuildMode, Build}
use open_functions.Store.{get_function, put_build}
use open_functions.Registry.{Outside, World, Config, RegisterRequest, BuildRequest, BuildError}
use open_functions.Registry.Activate.{write, reading, read_function}
use open_functions.Registry.Builders.{select_source_builder}
use open_functions.Registry.Record.{build_function_record}
use open_functions.Registry.SourceRust.{
  build_rust, deploy_rust, register_source_rust, conclude_rust,
}
use open_functions.Registry.Effects.{OnlyOuter, select_source_builder-OnlyOuter}
use open_functions.Registry.Serving.{
  record_fields, StillServes, fail_build-StillServes, returned, accepted-StillServes,
  chosen-StillServes,
}

module _ (o : Outside) where
  conclude_rust-failed :
      (c : Config) (f g : Function) (name : Bytes) (number : ℕ) (path : Bytes) (b : Build)
      (outcome : Result BuildError (Unit {0})) (w w' : World o)
      → ((e : BuildError) × (outcome ≡ err e))
      → f.state ≡ FunctionState.ready
      → g.name ≡ name
      → g.current_revision ≡ f.current_revision
      → w'.pools ≡ w.pools
      → w'.store.revisions ≡ w.store.revisions
      → StillServes o name f w (conclude_rust o c g (some f) number path b outcome w').0
  unfolding conclude_rust write reading put_build
  conclude_rust-failed c f g name number path b (ok u) w w' (e, q) s n r ps rs =
      absurd (ground arith)
  conclude_rust-failed c f g name number path b (err d) w w' (e, q) s n r ps rs =
      fail_build-StillServes o name f g _ w _ s n r ps rs

  build_rust-failed :
      (c : Config) (req : RegisterRequest) (path : Bytes) (bin : Option Bytes) (mode : BuildMode)
      (f g : Function) (w w' : World o)
      → ((q : BuildRequest) (s : o.State) → (e : BuildError) × ((o.rust_build mode q s).1 ≡ err e))
      → f.state ≡ FunctionState.ready
      → g.name ≡ req.name
      → g.current_revision ≡ f.current_revision
      → w'.pools ≡ w.pools
      → w'.store.revisions ≡ w.store.revisions
      → StillServes o req.name f w (build_rust o c req path bin mode (some f) g w').0
  unfolding build_rust write put_build
  build_rust-failed c req path bin mode f g w w' fails s n r ps rs =
      returned o (StillServes o req.name f w) _ _
        (conclude_rust-failed c f g req.name _ _ _ _ w _ (fails _ _) s n r ps rs)

  deploy_rust-failed :
      (c : Config) (req : RegisterRequest) (path : Bytes) (bin : Option Bytes) (mode : BuildMode)
      (f : Function) (w w' : World o)
      → ((q : BuildRequest) (s : o.State) → (e : BuildError) × ((o.rust_build mode q s).1 ≡ err e))
      → lookup req.name w.store.functions ≡ some f
      → f.state ≡ FunctionState.ready
      → OnlyOuter o w w'
      → StillServes o req.name f w (deploy_rust o c req path bin mode w').0
  unfolding deploy_rust reading read_function get_function
  deploy_rust-failed c req path bin mode f w w' fails l s u =
      let l' : lookup req.name w'.store.functions ≡ some f =
        ap (λ x. lookup req.name x.store.functions) u ∙ l in
      let t = (o.now w'.outer).1 in
      let g = build_function_record c req (some f) t in
      let (n, r) = record_fields c req f t in
      rw (l', deploy_rust)
        (accepted-StillServes o c req.name f g (build_rust o c req path bin mode (some f) g) w
          (record w' { outer = (o.now w'.outer).0 })
          (ap {A = World o} (λ x. record x { outer = (o.now w'.outer).0 }) u) l s
          (λ v. build_rust-failed c req path bin mode f g w v fails s n r))

  -- Where every build fails: a redeployment of a ready function by a Rust source leaves its pool and
  -- all revisions untouched, and the stored function ready at the revision that it had, whatever
  -- the outcome of the registration.
  pub register_source_rust-failed :
      (c : Config) (req : RegisterRequest) (path : Bytes) (bin : Option Bytes) (f : Function)
      (w : World o)
      → ((mode : BuildMode) (q : BuildRequest) (s : o.State)
          → (e : BuildError) × ((o.rust_build mode q s).1 ≡ err e))
      → lookup req.name w.store.functions ≡ some f
      → f.state ≡ FunctionState.ready
      → StillServes o req.name f w (register_source_rust o c req path bin w).0
  unfolding register_source_rust
  register_source_rust-failed c req path bin f w fails l s =
      chosen-StillServes o req.name f (select_source_builder o c.build_mode)
        (deploy_rust o c req path bin) w (select_source_builder-OnlyOuter o c.build_mode w) l s
        (λ mode w' u. deploy_rust-failed c req path bin mode f w w' (fails mode) l s u)
