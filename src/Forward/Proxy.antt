-- ===== src/Forward/Proxy.antt =====
-- crates/open-functions/src/forward.rs: `Forwarder::forward`. The HTTP library's URIs, bodies and
-- client are `Http`; how long the host's own part of a call takes is measured there and not here.
pub mod Outcomes
use open_functions.Prelude.{
  ℕ, Bytes, codes, Bool, true, false, if◌then◌else◌, Option, none, some, unwrap_or, Result, ok, err,
}
use open_functions.Pool.{SocketAddr}
use open_functions.Forward.{
  HttpHeaders, RequestRewriteContext, rewrite_request_headers, rewrite_response_headers,
  ForwardFailure, timeout, connection_refused, connection_reset,
}

-- `http_uri` is the builder with the scheme `http`, an authority, and a path with its query;
-- `with_path_and_query` puts another path and query into a URI. `show_addr` is `Display`.
pub record Http : Type 1 where
  pub headers : HttpHeaders
  pub Uri : Type 0
  pub Body : Type 0
  pub path : Uri → Bytes
  pub query : Uri → Option Bytes
  pub path_and_query : Uri → Option Bytes
  pub http_uri : Bytes → Bytes → Option Uri
  pub with_path_and_query : Bytes → Uri → Option Uri
  pub show_addr : SocketAddr → Bytes

pub record Request (w : Http) : Type 0 where
  pub method : Bytes
  pub uri : w.Uri
  pub headers : w.headers.HeaderMap
  pub body : w.Body

pub record Response (w : Http) : Type 0 where
  pub status : ℕ
  pub headers : w.headers.HeaderMap
  pub body : w.Body

-- What `tokio::time::timeout` around a call of the client gives.
pub data Answer (w : Http) : Type 0 where
  elapsed : Answer w
  failed : (is_connect : Bool) → Answer w
  answered : Response w → Answer w

pub record Client (w : Http) : Type 1 where
  pub State : Type 0
  pub request : (limit : ℕ) → Request w → State → State × Answer w

unfoldable pub classify_client_error : Bool → ForwardFailure
classify_client_error is_connect = if is_connect then connection_refused else connection_reset

module _ (w : Http) (client : Client w) where
  -- The request as it is sent to `uri`.
  abbrev pub redirected : RequestRewriteContext → w.Uri → Request w → Request w
  redirected ctx uri req = record req {
    uri = uri;
    headers = rewrite_request_headers (w.headers) ctx (req.headers);
  }

  unfoldable pub finish : RequestRewriteContext → Answer w → Result ForwardFailure (Response w)
  finish ctx elapsed = err timeout
  finish ctx (failed is_connect) = err (classify_client_error is_connect)
  finish ctx (answered resp) = ok (record resp {
    headers = rewrite_response_headers (w.headers) (ctx.execution_id) (resp.headers);
  })

  unfoldable pub forward :
      SocketAddr
      → Request w
      → RequestRewriteContext
      → (limit : ℕ) → client.State
      → client.State × Result ForwardFailure (Response w)
  unfolding finish
  forward addr req ctx limit s =
      let target =
        w.http_uri (w.show_addr addr) (unwrap_or (w.path_and_query (req.uri)) (codes "/")) in
      elim target [
        | none ↦ (s, err connection_refused)
        | some uri ↦
            let (s', answer) = client.request limit (redirected ctx uri req) s in
            (s', finish ctx answer)
      ]
