-- ===== src/Examples/Settings.antt =====
-- Configurations.
use open_functions.Prelude.{Bytes, codes, true, [], ok, ◌≡◌, ◌↔◌, refl, list_Eq, ℕ_Eq}
use open_functions.Server.Admin.{gets, v1}
use open_functions.Server.Admin.Handlers.{serve_v1, serve_admin}
use open_functions.Config.{default_config}
use open_functions.Config.Load.{validate, one_of, is_loopback_host, trim_start_byte, trim_end_byte}
use open_functions.Config.Startup.{admin_state_of}
use open_functions.Config.Checks.{IsSound, validate-IsSound_iff}
use open_functions.Config.Unguarded.{moved, moved-unguarded}
use open_functions.Examples.Headers.{header_lists}
use open_functions.Examples.Administration.{surface}
use open_functions.Examples.Fixtures.{outside, service, deployed}

abbrev debug : Bytes → Bytes
debug s = s

validate-IsSound_iff_example : (validate debug default_config ≡ ok tt) ↔ IsSound default_config
validate-IsSound_iff_example = validate-IsSound_iff debug default_config

default_passes : validate debug default_config ≡ ok tt
unfolding validate one_of is_loopback_host trim_start_byte trim_end_byte
default_passes = refl

moved-unguarded_example :
    (validate debug (moved (codes "0.0.0.0:8081") (codes "/etc/token") default_config) ≡ ok tt)
    × (serve_admin outside service surface header_lists
          (admin_state_of
            (codes "http://127.0.0.1:8080")
            true
            (moved (codes "0.0.0.0:8081") (codes "/etc/token") default_config))
          []
          (v1 (gets (codes "greeter")))
          deployed
        ≡ serve_v1 outside service surface
            (admin_state_of
              (codes "http://127.0.0.1:8080")
              true
              (moved (codes "0.0.0.0:8081") (codes "/etc/token") default_config))
            (gets (codes "greeter"))
            deployed)
moved-unguarded_example =
    moved-unguarded debug default_config (codes "0.0.0.0:8081") (codes "/etc/token")
      (codes "http://127.0.0.1:8080") true outside service surface header_lists []
      (gets (codes "greeter")) deployed default_passes refl (λ e. cc)
