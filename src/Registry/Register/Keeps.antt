-- ===== src/Registry/Register/Keeps.antt =====
-- The flows that `register` dispatches to leave the claims on names as they are.
use open_functions.Prelude.{
  ℕ, Bytes, Option, none, some, Result, ok, err, refl, ap, ◌≡◌, ◌∙◌, Option-cases, Result-cases,
  inl, inr, lookup, list_Eq, ℕ_Eq,
}
use open_functions.Prelude.States.{Op, resume, return, modify}
use open_functions.Model.{Trigger, Function, Revision, Build, BuildMode}
use open_functions.Store.{get_function, put_function, put_revision, put_build}
use open_functions.Runtime.{InstanceSpec}
use open_functions.Validate.{validate_function}
use open_functions.Pool.{PoolConfig}
use open_functions.Registry.{
  Outside, World, Config, RegisterRequest, BuildError, PythonBuildError, DriverKind,
}
use open_functions.Registry.Effects.{
  bind_pubsub_trigger-OnlyBindings, select_source_builder-OnlyOuter,
  select_python_builder-OnlyOuter, prune_old_artifacts-OnlyRevisions,
}
use open_functions.Registry.Builders.{select_source_builder, select_python_builder}
use open_functions.Registry.Activate.{
  reading, read_function, write, install, mark_ready, activate_revision, prune_old_artifacts,
}
use open_functions.Registry.Record.{accept, bind_trigger, build_function_record, fail_build, ship}
use open_functions.Registry.SourceRust.{
  conclude_rust, build_rust, deploy_rust, register_source_rust,
}
use open_functions.Registry.SourcePython.{
  conclude_python, build_python, deploy_python, register_source_python,
}

module _ (o : Outside) where
  pub then-building :
      {E A B : Type 0} (r : World o × Result E A) (f : A → Op (World o) E B)
      → ((a : A) (w : World o) → (f a w).0.building ≡ w.building)
      → (resume f r).0.building ≡ r.0.building
  then-building (w, ok a) f h = h a w
  then-building (w, err e) f h = refl

  pub return-building :
      {E A B : Type 0} (r : World o × Result E A) (x : B)
      → (resume {E = E} (λ (a : A). return {W = World o} x) r).0.building ≡ r.0.building
  return-building (w, ok a) x = refl
  return-building (w, err e) x = refl

  bind_trigger-building :
      (c : Config) (f : Function) (t : Trigger) (w : World o)
      → (bind_trigger o c f t w).building ≡ w.building
  unfolding bind_trigger
  bind_trigger-building c f Trigger.http w = refl
  bind_trigger-building c f (Trigger.pubsub topic) w =
      ap (λ x. x.building) (bind_pubsub_trigger-OnlyBindings o c f.name topic f.timeout_secs w)

  pub accept-building :
      (c : Config) (f : Function) (w : World o) → (accept o c f w).0.building ≡ w.building
  unfolding accept write put_function
  accept-building c f w = elim (Result-cases (validate_function f)) [
    | inl (a, e) ↦ rw (e, accept) (bind_trigger-building c f f.trigger _)
    | inr (x, e) ↦ rw (e, accept) refl
  ]

  install-building :
      (name : Bytes) (l : DriverKind × InstanceSpec) (p : PoolConfig) (w : World o)
      → (install o name l p w).building ≡ w.building
  unfolding install
  install-building name l p w = elim (Option-cases (lookup name w.pools)) [
    | inl e ↦ rw (e, install) refl
    | inr (q, e) ↦ rw (e, install) refl
  ]

  mark_ready-building :
      (number : ℕ) (found : Option Function) (w : World o)
      → (mark_ready o number found w).0.building ≡ w.building
  unfolding mark_ready reading write put_function
  mark_ready-building number none w = refl
  mark_ready-building number (some f) w = refl

  pub activate_revision-building :
      (c : Config) (name : Bytes) (r : Revision) (w : World o)
      → (activate_revision o c name r w).0.building ≡ w.building
  unfolding activate_revision read_function get_function
  activate_revision-building c name r w =
      then-building (mark_ready o r.number _ _)
        (λ a. modify (prune_old_artifacts o c name r.number))
        (λ a w'. ap (λ x. x.building) (prune_old_artifacts-OnlyRevisions o c name r.number w'))
      ∙ mark_ready-building r.number _ _
      ∙ install-building name _ _ w

  ship-building :
      (c : Config) (f : Function) (number : ℕ) (path id : Bytes) (mode : BuildMode)
      (image : Option Bytes) (w : World o)
      → (ship o c f number path id mode image w).0.building ≡ w.building
  unfolding ship reading write put_revision
  ship-building c f number path id mode image w = activate_revision-building c f.name _ _

  conclude_rust-building :
      (c : Config) (f : Function) (existing : Option Function) (number : ℕ) (path : Bytes)
      (build : Build) (r : Result BuildError (Unit {0})) (w : World o)
      → (conclude_rust o c f existing number path build r w).0.building ≡ w.building
  unfolding conclude_rust fail_build reading write put_build put_function
  conclude_rust-building c f existing number path build (ok a) w =
      ship-building c f number path build.id build.mode none _
  conclude_rust-building c f existing number path build (err e) w = refl

  build_rust-building :
      (c : Config) (req : RegisterRequest) (path : Bytes) (bin : Option Bytes) (mode : BuildMode)
      (existing : Option Function) (f : Function) (w : World o)
      → (build_rust o c req path bin mode existing f w).0.building ≡ w.building
  unfolding build_rust write put_build
  build_rust-building c req path bin mode existing f w =
      return-building (conclude_rust o c f existing _ _ _ _ _) _
      ∙ conclude_rust-building c f existing _ _ _ _ _

  deploy_rust-building :
      (c : Config) (req : RegisterRequest) (path : Bytes) (bin : Option Bytes) (mode : BuildMode)
      (w : World o)
      → (deploy_rust o c req path bin mode w).0.building ≡ w.building
  unfolding deploy_rust read_function get_function reading
  deploy_rust-building c req path bin mode w =
      let existing = lookup req.name w.store.functions in
      let f = build_function_record c req existing (o.now w.outer).1 in
      then-building (accept o c f _) (λ a. build_rust o c req path bin mode existing f)
        (λ a. build_rust-building c req path bin mode existing f)
      ∙ accept-building c f _

  pub register_source_rust-building :
      (c : Config) (req : RegisterRequest) (path : Bytes) (bin : Option Bytes) (w : World o)
      → (register_source_rust o c req path bin w).0.building ≡ w.building
  unfolding register_source_rust
  register_source_rust-building c req path bin w =
      then-building (select_source_builder o c.build_mode w) (deploy_rust o c req path bin)
        (deploy_rust-building c req path bin)
      ∙ ap (λ x. x.building) (select_source_builder-OnlyOuter o c.build_mode w)

  conclude_python-building :
      (c : Config) (f : Function) (existing : Option Function) (number : ℕ) (dir : Bytes)
      (build : Build) (r : Result PythonBuildError Bytes) (w : World o)
      → (conclude_python o c f existing number dir build r w).0.building ≡ w.building
  unfolding conclude_python fail_build reading write put_build put_function
  conclude_python-building c f existing number dir build (ok tool) w =
      ship-building c f number dir build.id build.mode _ _
  conclude_python-building c f existing number dir build (err e) w = refl

  build_python-building :
      (c : Config) (req : RegisterRequest) (path : Bytes) (mode : BuildMode)
      (existing : Option Function) (f : Function) (w : World o)
      → (build_python o c req path mode existing f w).0.building ≡ w.building
  unfolding build_python write put_build
  build_python-building c req path mode existing f w =
      return-building (conclude_python o c f existing _ _ _ _ _) _
      ∙ conclude_python-building c f existing _ _ _ _ _

  deploy_python-building :
      (c : Config) (req : RegisterRequest) (path : Bytes) (mode : BuildMode) (w : World o)
      → (deploy_python o c req path mode w).0.building ≡ w.building
  unfolding deploy_python read_function get_function reading
  deploy_python-building c req path mode w =
      let existing = lookup req.name w.store.functions in
      let f = build_function_record c req existing (o.now w.outer).1 in
      then-building (accept o c f _) (λ a. build_python o c req path mode existing f)
        (λ a. build_python-building c req path mode existing f)
      ∙ accept-building c f _

  pub register_source_python-building :
      (c : Config) (req : RegisterRequest) (path : Bytes) (w : World o)
      → (register_source_python o c req path w).0.building ≡ w.building
  unfolding register_source_python
  register_source_python-building c req path w =
      then-building (select_python_builder o c w) (deploy_python o c req path)
        (deploy_python-building c req path)
      ∙ ap (λ x. x.building) (select_python_builder-OnlyOuter o c w)
