-- ===== src/Registry/Register/Flows.antt =====
-- Whatever its source, the flow of a registration leaves the claims on names as they are.
use open_functions.Prelude.{
  ℕ, Bytes, Option, some, Result, refl, ◌≡◌, ◌∙◌, inl, inr, Result-cases, Bool-cases, if_cases,
  lookup, list_Eq, ℕ_Eq,
}
use open_functions.Model.{Runtime, Source, Function, FunctionState}
use open_functions.Store.{get_function, put_revision}
use open_functions.Registry.{
  Outside, World, Config, RegisterRequest, RegisterError, RegisterAccepted,
}
use open_functions.Registry.Builders.{resolve_dir_runtime}
use open_functions.Registry.Activate.{read_function, reading, write, activate_revision}
use open_functions.Registry.Record.{accept, build_function_record, next_revision}
use open_functions.Registry.Register.{
  register_image, deploy_image, ship_image, register_source, by_source, by_runtime, docker_answer,
}
use open_functions.Registry.Register.Keeps.{
  then-building, return-building, register_source_rust-building, register_source_python-building,
  activate_revision-building, accept-building,
}

module _ (o : Outside) (c : Config) where
  by_runtime-building :
      (req : RegisterRequest) (path : Bytes) (bin : Option Bytes) (r : Runtime) (w : World o)
      → (by_runtime o c req path bin r w).0.building ≡ w.building
  unfolding by_runtime
  by_runtime-building req path bin Runtime.rust w = register_source_rust-building o c req path bin w
  by_runtime-building req path bin Runtime.python314 w =
      register_source_python-building o c req path w

  register_source-building :
      (req : RegisterRequest) (path : Bytes) (bin : Option Bytes) (w : World o)
      → (register_source o c req path bin w).0.building ≡ w.building
  unfolding register_source resolve_dir_runtime
  register_source-building req path bin w =
      then-building o (resolve_dir_runtime o req path w)
        (λ r. by_runtime o c (record req { runtime = some r }) path bin r)
        (λ r. by_runtime-building (record req { runtime = some r }) path bin r)

  ship_image-building :
      (req : RegisterRequest) (f : Function) (number : ℕ) (digest : Bytes) (w : World o)
      → (ship_image o c req f number digest w).0.building ≡ w.building
  unfolding ship_image reading write put_revision
  ship_image-building req f number digest w =
      return-building o (activate_revision o c req.name _ _) _
      ∙ activate_revision-building o c req.name _ _

  deploy_image-building :
      (req : RegisterRequest) (digest : Bytes) (w : World o)
      → (deploy_image o c req digest w).0.building ≡ w.building
  unfolding deploy_image read_function get_function reading
  deploy_image-building req digest w =
      let existing = lookup req.name w.store.functions in
      let number = next_revision existing in
      let f : Function = record (build_function_record c req existing (o.now w.outer).1) {
        state = FunctionState.ready;
        current_revision = some number;
      } in
      then-building o (accept o c f _) (λ a. ship_image o c req f number digest)
        (λ a. ship_image-building req f number digest)
      ∙ accept-building o c f _

  register_image-building :
      (req : RegisterRequest) (image_ref : Bytes) (w : World o)
      → (register_image o c req image_ref w).0.building ≡ w.building
  unfolding register_image docker_answer
  register_image-building req image_ref w =
      let (s, available) = o.container_driver_available w.outer in
      let (s', connected) = o.connect c.docker_socket s in
      let (s'', found) = o.resolve_image_digest image_ref s' in
      elim (Bool-cases available) [
        | inr a ↦ rw (a, register_image) refl
        | inl a ↦ elim (Result-cases connected) [
          | inr (x, e) ↦ rw (a, e, register_image) refl
          | inl (u, e) ↦ elim (Result-cases found) [
            | inr (x, q) ↦ rw (a, e, q, register_image) refl
            | inl (digest, q) ↦
                rw (a, e, q, register_image)
                  (deploy_image-building req digest (record w { outer = s'' }))
          ]
        ]
      ]

  pub by_source-building :
      (req : RegisterRequest) (s : Source) (w : World o)
      → (by_source o c req s w).0.building ≡ w.building
  unfolding by_source
  by_source-building req (Source.dir path bin) w =
      if_cases (λ (x : World o × Result RegisterError RegisterAccepted). x.0.building ≡ w.building)
        (o.is_dir w.outer path) (register_source o c req path bin w) (w, _)
        (register_source-building req path bin w) refl
  by_source-building req (Source.image image_ref) w = register_image-building req image_ref w
