-- ===== src/Config/Load.antt =====
-- config.rs: where the configuration is read from, and its checks. The crate `config`, which reads and
-- merges the sources, is a parameter.
use open_functions.Prelude.{
  ℕ, Bytes, codes, is_empty, Bool, true, false, not, ◌&&◌, ◌||◌, any, ◌=?◌, list_Eq, ℕ_Eq, Option,
  none, some, List, [], ◌∷◌, ◌++◌, rsplit_once, Result, ◌>>◌, guard, map_err, if◌then◌else◌, ◌==◌,
}
use open_functions.Config.{AppConfig, AdminConfig}

pub data ConfigError : Type 0 where
  load_failed : Bytes → ConfigError
  invalid : (field reason : Bytes) → ConfigError

-- The file to read, and whether it must be there: `variable` is OPEN_FUNCTIONS_CONFIG, and `exists`
-- tells whether there is a file.
abbrev default_path : Bytes
default_path = codes "/etc/open-functions/config.toml"

abbrev if_there : (Bytes → Bool) → Option Bytes × Bool
if_there exists = if exists default_path then (some default_path, false) else (none, false)

unfoldable pub config_file :
    (config_path variable : Option Bytes) → (exists : Bytes → Bool) → Option Bytes × Bool
config_file (some p) variable exists = (some p, true)
config_file none (some v) exists = if is_empty v then if_there exists else (some v, true)
config_file none none exists = if_there exists

-- `build` reads the file, if there is one, and the environment over it, and fills in the defaults.
unfoldable pub load :
    (build : Option Bytes × Bool → Result Bytes AppConfig)
    → (config_path variable : Option Bytes) → (exists : Bytes → Bool) → Result ConfigError AppConfig
unfolding config_file
load build config_path variable exists =
    map_err load_failed (build (config_file config_path variable exists))

-- `s.trim_start_matches(c)` and `s.trim_end_matches(c)`
unfoldable pub trim_start_byte : ℕ → Bytes → Bytes
trim_start_byte c [] = []
trim_start_byte c (b ∷ bs) = let rest = trim_start_byte c bs in if b == c then rest else b ∷ bs

unfoldable pub trim_end_byte : ℕ → Bytes → Bytes
trim_end_byte c [] = []
trim_end_byte c (b ∷ bs) =
    let rest = trim_end_byte c bs in if is_empty rest && b == c then [] else b ∷ rest

abbrev pub before_port : Bytes → Bytes
before_port listen = elim (rsplit_once b':' listen) [ none ↦ listen | some (h, _) ↦ h ]

abbrev pub loopback_hosts : List Bytes
loopback_hosts = codes "127.0.0.1" ∷ codes "localhost" ∷ codes "::1" ∷ []

unfoldable pub is_loopback_host : Bytes → Bool
unfolding trim_start_byte trim_end_byte
is_loopback_host listen =
    let bare = trim_end_byte b']' (trim_start_byte b'[' (before_port listen)) in
    any (λ name. bare =? name) loopback_hosts

-- A `match` on the text with the values that are allowed; `reason` is what the error says.
unfoldable pub one_of :
    (field : Bytes) → (reason : Bytes → Bytes) → List Bytes → Bytes → Result ConfigError (Unit {0})
one_of field reason allowed s = guard (any (λ v. s =? v) allowed) (invalid field (reason s))

abbrev pub build_modes : List Bytes
build_modes = codes "auto" ∷ codes "host" ∷ codes "container" ∷ []

abbrev pub cgroup_settings : List Bytes
cgroup_settings = codes "auto" ∷ codes "off" ∷ []

abbrev pub installers : List Bytes
installers = codes "auto" ∷ codes "uv" ∷ codes "pip" ∷ []

abbrev pub queue_policies : List Bytes
queue_policies = codes "wait" ∷ codes "reject" ∷ []

abbrev pub log_formats : List Bytes
log_formats = codes "json" ∷ codes "text" ∷ codes "journald" ∷ []

-- The token that `validate` asks for where the listener is not on the loopback interface.
abbrev pub is_guarded : AdminConfig → Bool
is_guarded admin =
    is_loopback_host admin.listen || not (is_empty admin.token) || not (is_empty admin.token_file)

-- `debug` is `{:?}`.
module _ (debug : Bytes → Bytes) where
  abbrev must_be : Bytes → Bytes → Bytes
  must_be expected other = codes "must be one of " ++ expected ++ codes ", got " ++ debug other

  unfoldable pub validate : AppConfig → Result ConfigError (Unit {0})
  unfolding is_loopback_host one_of
  validate cfg = do
    guard (is_guarded cfg.admin) (
        invalid (codes "admin.token")
          (codes "admin.token or admin.token_file is required when admin.listen is not loopback"))
    one_of (codes "build.mode") (must_be (codes "\"auto\", \"host\", \"container\"")) build_modes
        cfg.build.mode
    one_of (codes "runtime.cgroup") (must_be (codes "\"auto\", \"off\"")) cgroup_settings
        cfg.runtime.cgroup
    one_of (codes "python.mode") (must_be (codes "\"auto\", \"host\", \"container\"")) build_modes
        cfg.python.mode
    one_of (codes "python.installer") (must_be (codes "\"auto\", \"uv\", \"pip\"")) installers
        cfg.python.installer
    one_of (codes "defaults.queue_policy") (must_be (codes "\"wait\", \"reject\"")) queue_policies
        cfg.defaults.queue_policy
    one_of (codes "log.format") (must_be (codes "\"json\", \"text\", \"journald\"")) log_formats
        cfg.log.format
