-- ===== src/Registry/Register/Claims.antt =====
-- The claim on a name, and what becomes of it when a registration is dropped before its end.
use open_functions.Prelude.{
  Bytes, some, List, [], ◌∷◌, ok, err, refl, sym, ap, ◌≡◌, ◌∙◌, inl, inr, arith, Option-cases,
  if◌then◌else◌, false, lookup, lookup-insert, lookup-insert_same, lookup-remove, list_Eq, ℕ_Eq,
  ◌=?◌, list_eq_iff,
}
use open_functions.Store.{get_function, put_build}
use open_functions.PubSub.Client.{PubSubError}
use open_functions.Registry.{Outside, World, Config, RegisterRequest, build_in_progress}
use open_functions.Registry.Effects.{select_source_builder-OnlyOuter}
use open_functions.Registry.Builders.{select_source_builder}
use open_functions.Registry.Activate.{read_function, reading, write}
use open_functions.Registry.Record.{accept, build_function_record}
use open_functions.Registry.SourceRust.{start_build, start_source_rust, running_rust}
use open_functions.Registry.Register.{claim_name, release_name, register}
use open_functions.Registry.Register.Keeps.{then-building, accept-building}
use open_functions.Registry.Register.Flows.{by_source-building}
use open_functions.Registry.Remove.{delete, stop_instances}
use open_functions.Registry.Remove.Keeps.{delete-building, stop_instances-building}

-- The operations of the admin listener that change something.
pub data Request : Type 0 where
  registers : RegisterRequest → Request
  deletes stops : (name : Bytes) → Request

module _ (o : Outside) (c : Config) where
  start_source_rust-building :
      (req : RegisterRequest) (w : World o) → (start_source_rust o c req w).0.building ≡ w.building
  unfolding start_source_rust start_build read_function get_function reading write put_build
  start_source_rust-building req w =
      then-building o (select_source_builder o c.build_mode w) (start_build o c req) (λ mode w'.
        let existing = lookup req.name w'.store.functions in
        let f = build_function_record c req existing (o.now w'.outer).1 in
        then-building o (accept o c f _)
          (λ a v.
            let (outer, id) = o.new_uuid v.outer in
            write o (put_build (running_rust o c req mode existing f id))
              (record v { outer = outer }))
          (λ a v. refl)
        ∙ accept-building o c f _)
      ∙ ap (λ x. x.building) (select_source_builder-OnlyOuter o c.build_mode w)

  -- A name that is claimed: whoever registers it is refused, and nothing changes.
  register-claimed :
      (req : RegisterRequest) (w : World o)
      → lookup req.name w.building ≡ some tt
      → register o c req w ≡ (w, err (build_in_progress req.name))
  unfolding register
  register-claimed req w l = rw (l, register) refl

  register-keeps :
      (name : Bytes) (req : RegisterRequest) (w : World o)
      → lookup name w.building ≡ some tt
      → lookup name (register o c req w).0.building ≡ some tt
  unfolding register release_name claim_name
  register-keeps name req w l = elim (Option-cases (lookup req.name w.building)) [
    | inr (u, e) ↦ rw (e, register) l
    | inl e ↦
        let kept = by_source-building o c req req.source (claim_name o req.name w) in
        let other : (req.name =? name) ≡ false = ground (arith, list_eq_iff req.name name) in
        rw (e, register)
          (lookup-remove req.name name _
            ∙ rw (other, if◌then◌else◌)
                (ap (lookup name) kept
                  ∙ lookup-insert req.name name tt w.building
                  ∙ rw (other, if◌then◌else◌) l))
  ]

  module _ (show : PubSubError → Bytes) where
    abbrev pub serve : Request → World o → World o
    serve (registers req) w = (register o c req w).0
    serve (deletes name) w = (delete o c show name w).0
    serve (stops name) w = (stop_instances o name w).0

    abbrev pub serve_all : List Request → World o → World o
    serve_all [] w = w
    serve_all (r ∷ rs) w = serve_all rs (serve r w)

    serve-keeps :
        (name : Bytes) (r : Request) (w : World o)
        → lookup name w.building ≡ some tt
        → lookup name (serve r w).building ≡ some tt
    serve-keeps name (registers req) w l = register-keeps name req w l
    serve-keeps name (deletes n) w l = ap (lookup name) (delete-building o c show n w) ∙ l
    serve-keeps name (stops n) w l = ap (lookup name) (stop_instances-building o n w) ∙ l

    serve_all-keeps :
        (name : Bytes) (rs : List Request) (w : World o)
        → lookup name w.building ≡ some tt
        → lookup name (serve_all rs w).building ≡ some tt
    serve_all-keeps name [] w l = l
    serve_all-keeps name (r ∷ rs) w l = serve_all-keeps name rs (serve r w) (serve-keeps name r w l)

    -- A registration of a Rust function that has claimed its name, has reached its build, and is
    -- dropped there, blocks the name: after any registrations, deletions and stops, each run to its
    -- end, a further registration of that name is refused as a build in progress and changes nothing.
    pub dropped_build-blocks :
        (req again : RegisterRequest) (w w' : World o)
        → start_source_rust o c req (claim_name o req.name w) ≡ (w', ok tt)
        → again.name ≡ req.name
        → (rs : List Request)
        → register o c again (serve_all rs w')
          ≡ (serve_all rs w', err (build_in_progress again.name))
    unfolding claim_name
    dropped_build-blocks req again w w' started same rs =
        let claimed : lookup req.name w'.building ≡ some tt =
          ap (λ x. lookup req.name x.0.building) (sym started)
          ∙ ap (lookup req.name) (start_source_rust-building req (claim_name o req.name w))
          ∙ lookup-insert_same req.name tt w.building in
        register-claimed again (serve_all rs w') (
          ap (λ n. lookup n (serve_all rs w').building) same
          ∙ serve_all-keeps req.name rs w' claimed)
