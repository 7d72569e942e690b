-- ===== src/Registry/SourcePython/Redeploy.antt =====
-- A Python redeployment whose build fails leaves the version that serves as it was.
use open_functions.Prelude.{
  ℕ, Bytes, some, ◌≡◌, ap, ◌∙◌, lookup, Result, ok, err, list_Eq, ℕ_Eq, arith,
}
use open_functions.Model.{Function, FunctionState, BuildMode, Build}
use open_functions.Store.{get_function, put_build}
use open_functions.Registry.{
  Outside, World, Config, RegisterRequest, PythonBuildRequest, PythonBuildError,
}
use open_functions.Registry.Activate.{write, reading, read_function}
use open_functions.Registry.Builders.{select_python_builder}
use open_functions.Registry.Record.{build_function_record}
use open_functions.Registry.SourcePython.{
  build_python, deploy_python, register_source_python, conclude_python,
}
use open_functions.Registry.Effects.{OnlyOuter, select_python_builder-OnlyOuter}
use open_functions.Registry.Serving.{
  record_fields, StillServes, fail_build-StillServes, returned, accepted-StillServes,
  chosen-StillServes,
}

module _ (o : Outside) where
  conclude_python-failed :
      (c : Config) (f g : Function) (name : Bytes) (number : ℕ) (path : Bytes) (b : Build)
      (outcome : Result PythonBuildError Bytes) (w w' : World o)
      → ((e : PythonBuildError) × (outcome ≡ err e))
      → f.state ≡ FunctionState.ready
      → g.name ≡ name
      → g.current_revision ≡ f.current_revision
      → w'.pools ≡ w.pools
      → w'.store.revisions ≡ w.store.revisions
      → StillServes o name f w (conclude_python o c g (some f) number path b outcome w').0
  unfolding conclude_python write reading put_build
  conclude_python-failed c f g name number path b (ok u) w w' (e, q) s n r ps rs =
      absurd (ground arith)
  conclude_python-failed c f g name number path b (err d) w w' (e, q) s n r ps rs =
      fail_build-StillServes o name f g _ w _ s n r ps rs

  build_python-failed :
      (c : Config) (req : RegisterRequest) (path : Bytes) (mode : BuildMode) (f g : Function)
      (w w' : World o)
      → ((q : PythonBuildRequest) (s : o.State)
          → (e : PythonBuildError) × ((o.python_build mode q s).1 ≡ err e))
      → f.state ≡ FunctionState.ready
      → g.name ≡ req.name
      → g.current_revision ≡ f.current_revision
      → w'.pools ≡ w.pools
      → w'.store.revisions ≡ w.store.revisions
      → StillServes o req.name f w (build_python o c req path mode (some f) g w').0
  unfolding build_python write put_build
  build_python-failed c req path mode f g w w' fails s n r ps rs =
      returned o (StillServes o req.name f w) _ _
        (conclude_python-failed c f g req.name _ _ _ _ w _ (fails _ _) s n r ps rs)

  deploy_python-failed :
      (c : Config) (req : RegisterRequest) (path : Bytes) (mode : BuildMode) (f : Function)
      (w w' : World o)
      → ((q : PythonBuildRequest) (s : o.State)
          → (e : PythonBuildError) × ((o.python_build mode q s).1 ≡ err e))
      → lookup req.name w.store.functions ≡ some f
      → f.state ≡ FunctionState.ready
      → OnlyOuter o w w'
      → StillServes o req.name f w (deploy_python o c req path mode w').0
  unfolding deploy_python reading read_function get_function
  deploy_python-failed c req path mode f w w' fails l s u =
      let l' : lookup req.name w'.store.functions ≡ some f =
        ap (λ x. lookup req.name x.store.functions) u ∙ l in
      let t = (o.now w'.outer).1 in
      let g = build_function_record c req (some f) t in
      let (n, r) = record_fields c req f t in
      rw (l', deploy_python)
        (accepted-StillServes o c req.name f g (build_python o c req path mode (some f) g) w
          (record w' { outer = (o.now w'.outer).0 })
          (ap {A = World o} (λ x. record x { outer = (o.now w'.outer).0 }) u) l s
          (λ v. build_python-failed c req path mode f g w v fails s n r))

  -- Where every build fails: a redeployment of a ready function by a Python source leaves its pool and
  -- all revisions untouched, and the stored function ready at the revision that it had, whatever
  -- the outcome of the registration.
  pub register_source_python-failed :
      (c : Config) (req : RegisterRequest) (path : Bytes) (f : Function) (w : World o)
      → ((mode : BuildMode) (q : PythonBuildRequest) (s : o.State)
          → (e : PythonBuildError) × ((o.python_build mode q s).1 ≡ err e))
      → lookup req.name w.store.functions ≡ some f
      → f.state ≡ FunctionState.ready
      → StillServes o req.name f w (register_source_python o c req path w).0
  unfolding register_source_python
  register_source_python-failed c req path f w fails l s =
      chosen-StillServes o req.name f (select_python_builder o c) (deploy_python o c req path) w
        (select_python_builder-OnlyOuter o c w) l s
        (λ mode w' u. deploy_python-failed c req path mode f w w' (fails mode) l s u)
