-- ===== src/Server/Handle.antt =====
-- server/invoke.rs: `handle`, from the resolution of a request to its reply.
pub mod Redeploying
use open_functions.Prelude.{Bytes, codes, Option, none, some}
use open_functions.Resolve.{Resolved, path_prefix, host, push, no_match, resolve}
use open_functions.Registry.{Outside}
use open_functions.Forward.{first_text}
use open_functions.Forward.Proxy.{Http, Request, Client}
use open_functions.PubSub.Convert.{Json, Formats}
use open_functions.Server.{InvokeState, Circumstances, Reply, Host, api_bad_request, api_not_found}
use open_functions.Server.Push.{Deliveries, handle_push}
use open_functions.Server.Invoke.{rewrite_request_path, invoke}

module _ (o : Outside) (w : Http) (client : Client w) (j : Json) (f : Formats j)
    (d : Deliveries w j f) (c : Circumstances) (state : InvokeState) where
  -- `client_addr` is the address without its port.
  unfoldable pub handle_resolved :
      (client_addr : Bytes) (original_host : Option Bytes)
      → Request w
      → Host o w client
      → Resolved
      → Option (Host o w client × Reply w)
  handle_resolved client_addr original_host req h no_match =
      some (h, api_not_found (codes "function name required"))
  handle_resolved client_addr original_host req h (path_prefix name rest_path) =
      elim (rewrite_request_path w req rest_path) [
        | none ↦ some (h, api_bad_request (codes "invalid request path"))
        | some req' ↦ invoke o w client c name client_addr original_host req' h
      ]
  handle_resolved client_addr original_host req h (host name) =
      invoke o w client c name client_addr original_host req h
  handle_resolved client_addr original_host req h (push name) =
      handle_push o w client j f d c (state.pubsub_project) name req h

  unfoldable pub handle :
      (client_addr : Bytes) → Request w → Host o w client → Option (Host o w client × Reply w)
  unfolding handle_resolved
  handle client_addr req h =
      let original_host = first_text (w.headers) (codes "host") (req.headers) in
      handle_resolved client_addr original_host req h
        (resolve state.resolver original_host (w.path req.uri))
