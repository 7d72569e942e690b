-- ===== src/Registry/Builders.antt =====
-- registry/service.rs: which builder and which runtime a registration uses.
use open_functions.Prelude.{
  Bytes, codes, Bool, true, false, Option, none, some, ◌++◌, ◌∷◌, [], List, join, list_Eq, ℕ_Eq,
  Result, ok, err, if◌then◌else◌, map_err,
}
use open_functions.Prelude.States.{◌>>=◌, return, lift}
use open_functions.Model.{Runtime, Metadata, BuildMode, detect_runtime}
use open_functions.Registry.{
  Outside, Config, Registering, RegisterRequest, RegisterError, unsupported, invalid_runtime,
  BuildModeSetting, PythonModeSetting,
}

abbrev is_file : Metadata → Bool
is_file Metadata.file = true
is_file _ = false

module _ (o : Outside) where
  abbrev pub asks : {A : Type 0} → (o.State → o.State × A) → Registering o A
  asks f w = let (outer, a) = f w.outer in (record w { outer = outer }, ok a)

  choose : BuildMode → Bytes → List Bytes → Bool → Registering o BuildMode
  choose mode reason needed true = return mode
  choose mode reason needed false = lift (err (unsupported reason needed))

  choose_either : (o.State → o.State × Bool) → Bytes → List Bytes → Bool → Registering o BuildMode
  choose_either second reason needed true = return BuildMode.host
  choose_either second reason needed false =
      asks second >>= choose BuildMode.container reason needed

  unfoldable pub select_source_builder : BuildModeSetting → Registering o BuildMode
  unfolding choose choose_either
  select_source_builder BuildModeSetting.host =
      asks (o.rust_available BuildMode.host)
      >>= choose BuildMode.host
          (codes "build.mode = host but the host cargo toolchain is not available")
          (codes "cargo" ∷ [])
  select_source_builder BuildModeSetting.container =
      asks (o.rust_available BuildMode.container)
      >>= choose BuildMode.container
          (codes "build.mode = container but the Docker daemon is not reachable")
          (codes "docker" ∷ [])
  select_source_builder BuildModeSetting.auto =
      asks (o.rust_available BuildMode.host)
      >>= choose_either (o.rust_available BuildMode.container)
          (codes
            "build.mode = auto but neither the host cargo toolchain nor the Docker daemon is available")
          (codes "cargo" ∷ codes "docker" ∷ [])

  -- `is_available` of a container builder, where there is one.
  python_container_available : Config → o.State → o.State × Bool
  python_container_available c s =
      if c.python.has_container_builder
      then o.python_available BuildMode.container s
      else (s, false)

  python_builder : Config → PythonModeSetting → Registering o BuildMode
  python_builder c PythonModeSetting.host =
      asks (o.python_available BuildMode.host)
      >>= choose BuildMode.host
          (codes "python.mode = host but no usable Python 3.14 interpreter was found")
          (codes "python3.14" ∷ [])
  python_builder c PythonModeSetting.container =
      asks (python_container_available c)
      >>= choose BuildMode.container
          (codes "python.mode = container but no container Python builder is available")
          (codes "docker" ∷ [])
  python_builder c PythonModeSetting.auto =
      asks (o.python_available BuildMode.host)
      >>= choose_either (python_container_available c)
          (codes
            "python.mode = auto but no usable Python 3.14 interpreter or container Python builder is available")
          (codes "python3.14" ∷ codes "docker" ∷ [])

  unfoldable pub select_python_builder : Config → Registering o BuildMode
  unfolding python_builder choose choose_either python_container_available
  select_python_builder c = python_builder c c.python.mode

  requires_file : Runtime → Bytes → Bytes → Bool → Result RegisterError Runtime
  requires_file runtime message source_path true = ok runtime
  requires_file runtime message source_path false = err (invalid_runtime (message ++ source_path))

  resolve_runtime : (Bytes → Metadata) → Bytes → Option Runtime → Result RegisterError Runtime
  resolve_runtime metadata source_path (some Runtime.rust) =
      requires_file Runtime.rust (codes "runtime = rust requires a Cargo.toml in ") source_path
        (is_file (metadata (join source_path (codes "Cargo.toml"))))
  resolve_runtime metadata source_path (some Runtime.python314) =
      requires_file Runtime.python314 (codes "runtime = python314 requires a main.py in ")
        source_path (is_file (metadata (join source_path (codes "main.py"))))
  resolve_runtime metadata source_path none =
      map_err (λ e. invalid_runtime (o.show_detect_error e))
        (detect_runtime join metadata source_path)

  unfoldable pub resolve_dir_runtime : RegisterRequest → Bytes → Registering o Runtime
  unfolding resolve_runtime requires_file
  resolve_dir_runtime req source_path w =
      (w, resolve_runtime (o.metadata w.outer) source_path req.runtime)
