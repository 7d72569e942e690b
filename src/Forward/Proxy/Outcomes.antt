-- ===== src/Forward/Proxy/Outcomes.antt =====
-- What a call that succeeds sent to the instance and gives to the client.
use open_functions.Prelude.{
  ℕ, Bytes, [], ◌∷◌, some, unwrap_or, codes, Result, ok, ◌≡◌, refl, ap, subst, Option-cases, inl,
  inr, ◌=?◌, list_Eq, ℕ_Eq, if◌then◌else◌, arith,
}
use open_functions.Pool.{SocketAddr}
use open_functions.Forward.{
  IsLawful, RequestRewriteContext, strip_hop_by_hop, execution_id_header, ForwardFailure,
}
use open_functions.Forward.Rewritten.{get_all-execution_id, get_all-rewrite_response_headers}
use open_functions.Forward.Proxy.{
  Http, Request, Response, Answer, elapsed, failed, answered, Client, redirected, finish, forward,
}

module _ (w : Http) (client : Client w) where
  -- The exchange behind the response `out` of a call with the execution id `id`.
  pub record Exchange (req : Request w) (limit : ℕ) (id : w.headers.HeaderValue) (out : Response w)
      (s s' : client.State) : Type 0 where
    pub sent : Request w
    pub received : Response w
    pub exchanged : client.request limit sent s ≡ (s', answered received)
    pub method : sent.method ≡ req.method
    pub body : sent.body ≡ req.body
    pub sent_id : w.headers.get_all execution_id_header sent.headers ≡ id ∷ []
    pub same_status : out.status ≡ received.status
    pub same_body : out.body ≡ received.body
    pub returned :
        (n : Bytes)
        → w.headers.get_all n out.headers ≡ (
            if n =? execution_id_header
            then id ∷ []
            else w.headers.get_all n (strip_hop_by_hop (w.headers) received.headers))

  answered-Exchange :
      (law : IsLawful (w.headers)) (req : Request w) (ctx : RequestRewriteContext) (limit : ℕ)
      (id : w.headers.HeaderValue) (uri : w.Uri) (out : Response w) (s s' : client.State)
      (a : Answer w)
      → w.headers.value ctx.execution_id ≡ some id
      → client.request limit (redirected w client ctx uri req) s ≡ (s', a)
      → finish w client ctx a ≡ ok out
      → Exchange req limit id out s s'
  unfolding finish
  answered-Exchange law req ctx limit id uri out s s' elapsed v q e = absurd (ground arith)
  answered-Exchange law req ctx limit id uri out s s' (failed c) v q e = absurd (ground arith)
  answered-Exchange law req ctx limit id uri out s s' (answered resp) v q e =
      let ids = get_all-rewrite_response_headers w.headers law ctx.execution_id id resp.headers v in
      subst (λ (r : Response w). Exchange req limit id r s s') (ground arith)
        (record {
          sent = redirected w client ctx uri req;
          received = resp;
          exchanged = q;
          method = refl;
          body = refl;
          sent_id = get_all-execution_id w.headers law ctx req.headers id v;
          same_status = refl;
          same_body = refl;
          returned = ids;
        })

  -- Where the host's execution id is a legal header value, a call that succeeds sent the instance
  -- the method and the body of the request with exactly that id, and gives the client the status
  -- and the body of the instance's response with exactly that id; every other header is as the
  -- response had it, or, if it is a hop-by-hop header, not there.
  pub forward-Exchange :
      (law : IsLawful (w.headers)) (addr : SocketAddr) (req : Request w)
      (ctx : RequestRewriteContext) (limit : ℕ) (id : w.headers.HeaderValue) (out : Response w)
      (s s' : client.State)
      → w.headers.value ctx.execution_id ≡ some id
      → forward w client addr req ctx limit s ≡ (s', ok out)
      → Exchange req limit id out s s'
  unfolding forward
  forward-Exchange law addr req ctx limit id out s s' v e =
      elim (Option-cases
        (w.http_uri (w.show_addr addr) (unwrap_or (w.path_and_query req.uri) (codes "/")))) [
          | inl n ↦ absurd (ground arith)
          | inr (uri, u) ↦
              let call = client.request limit (redirected w client ctx uri req) s in
              let done : ◌≡◌ {A = client.State × Result ForwardFailure (Response w)}
                  (call.0, finish w client ctx call.1) (s', ok out) =
                rw (u, forward) at e in
              answered-Exchange law req ctx limit id uri out s s' call.1 v
                (ap {A = client.State × Result ForwardFailure (Response w)} (λ x. (x.0, call.1))
                  done)
                (ap (λ x. x.1) done)
        ]
