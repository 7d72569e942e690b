-- ===== src/Server/Handle/Redeploying.antt =====
-- The calls of a function while a new version of it is built.
use open_functions.Prelude.{
  Bytes, codes, false, Option, some, lookup, lookup-insert_same, list_Eq, ℕ_Eq, Result, ok, ◌≡◌,
  refl, sym, ◌∙◌, ap, subst, inl, inr, if◌then◌else◌, arith,
}
use open_functions.Model.{Function, FunctionState}
use open_functions.Store.{get_function}
use open_functions.Resolve.{host, resolve}
use open_functions.Registry.{Outside, World, Config, RegisterError}
use open_functions.Registry.Record.{accept}
use open_functions.Registry.Serving.{accept-cases}
use open_functions.Forward.{first_text}
use open_functions.Forward.Proxy.{Http, Request, Client}
use open_functions.PubSub.Convert.{Json, Formats}
use open_functions.Server.{
  InvokeState, Circumstances, Host, is_ready, not_ready_yet, record_invocation,
}
use open_functions.Server.Push.{Deliveries}
use open_functions.Server.Invoke.{turned_away, invoke}
use open_functions.Server.Handle.{handle_resolved, handle}

module _ (o : Outside) where
  accept_stores :
      (c : Config) (f : Function) (v v' : World o)
      → accept o c f v ≡ (v', ok tt)
      → (v'.pools ≡ v.pools) × (lookup f.name v'.store.functions ≡ some f)
  accept_stores c f v v' e = elim (accept-cases o c f v) [
    | inl (x, q) ↦ absurd (ground (arith, q))
    | inr (u, q, b) ↦
        let same : u ≡ v' =
          ap (λ (x : World o × Result RegisterError (Unit {0})). x.0) (sym q ∙ e) in
        let pools = ap (λ x. x.pools) b in
        let stored =
          ap (λ x. lookup f.name x.store.functions) b
          ∙ lookup-insert_same f.name f v.store.functions in
        subst (λ x. (x.pools ≡ v.pools) × (lookup f.name x.store.functions ≡ some f)) same
          (pools, stored)
  ]

module _ (o : Outside) (w : Http) (client : Client w) (j : Json) (f : Formats j)
    (d : Deliveries w j f) (c : Circumstances) where
  invoke_not_ready :
      (name addr : Bytes) (host_header : Option Bytes) (fn : Function) (req : Request w)
      (h : Host o w client)
      → lookup name h.world.store.functions ≡ some fn
      → is_ready fn ≡ false
      → invoke o w client c name addr host_header req h
        ≡ some (
          record_invocation o w client name fn (codes "http") (codes "rejected") 503 false h,
          not_ready_yet fn,
        )
  unfolding invoke get_function turned_away
  invoke_not_ready name addr host_header fn req h l r = rw (l, r, invoke, if◌then◌else◌) refl

  -- Once a registration of a function in the state `building` is accepted, and so while its new
  -- version is built, a call of the function by its host is answered with 503 and changes nothing
  -- but the metrics, although all pools are still there.
  pub handle-accept :
      (config : Config) (state : InvokeState) (addr : Bytes) (fn : Function) (req : Request w)
      (v : World o) (h : Host o w client)
      → fn.state ≡ FunctionState.building
      → accept o config fn v ≡ (h.world, ok tt)
      → resolve state.resolver (first_text w.headers (codes "host") req.headers) (w.path req.uri)
        ≡ host fn.name
      → (h.world.pools ≡ v.pools)
        × (handle o w client j f d c state addr req h
            ≡ some (
              record_invocation o w client fn.name fn (codes "http") (codes "rejected") 503 false h,
              not_ready_yet fn,
            ))
  unfolding handle handle_resolved is_ready
  handle-accept config state addr fn req v h b e r =
      let (pools, stored) = accept_stores o config fn v h.world e in
      let host_header = first_text (w.headers) (codes "host") (req.headers) in
      let closed : is_ready fn ≡ false = rw (b, is_ready) refl in
      (pools, rw (r, handle) (invoke_not_ready fn.name addr host_header fn req h stored closed))
