-- ===== src/Config/Unguarded.antt =====
-- What a token file does for the admin listener.
use open_functions.Prelude.{Bytes, Bool, [], ok, ◌≡◌, ◌≢◌, inr, arith}
use open_functions.Registry.{Outside, World}
use open_functions.Registry
use open_functions.Forward.{HttpHeaders}
use open_functions.Server.Admin.{Surface, V1Request, v1, token_matches}
use open_functions.Server.Admin.Handlers.{serve_v1, serve_admin}
use open_functions.Config.{AppConfig}
use open_functions.Config.Load.{validate}
use open_functions.Config.Startup.{admin_state_of}
use open_functions.Config.Checks.{validate-IsSound_iff}

-- The configuration with the admin listener elsewhere and with a token file.
abbrev pub moved : (listen token_file : Bytes) → AppConfig → AppConfig
moved listen token_file cfg = record cfg {
  admin = record (cfg.admin) { listen = listen; token_file = token_file };
}

-- A configuration that passes the checks and has no token, given any address of the admin listener
-- and the name of any token file, passes the checks too, and with it every request below /v1 is
-- served, whatever its headers: the token file is not looked at.
pub moved-unguarded :
    (debug : Bytes → Bytes) (cfg : AppConfig) (listen token_file invoke_base_url : Bytes)
    (ready : Bool) (o : Outside) (c : Registry.Config) (u : Surface o) (h : HttpHeaders)
    (headers : h.HeaderMap) (r : V1Request) (w : World o)
    → validate debug cfg ≡ ok tt
    → cfg.admin.token ≡ []
    → token_file ≢ []
    → (validate debug (moved listen token_file cfg) ≡ ok tt)
      × (serve_admin o c u h
            (admin_state_of invoke_base_url ready (moved listen token_file cfg))
            headers
            (v1 r)
            w
          ≡ serve_v1 o c u (admin_state_of invoke_base_url ready (moved listen token_file cfg)) r w)
unfolding serve_admin token_matches admin_state_of
moved-unguarded debug cfg listen token_file invoke_base_url ready o c u h headers r w v e d =
    let s = (validate-IsSound_iff debug cfg).0 v in
    (
      (validate-IsSound_iff debug (moved listen token_file cfg)).1 (record {
        guarded = inr (inr d);
        build_mode = s.build_mode;
        cgroup = s.cgroup;
        python_mode = s.python_mode;
        installer = s.installer;
        queue_policy = s.queue_policy;
        log_format = s.log_format;
      }),
      ground (arith, e),
    )
