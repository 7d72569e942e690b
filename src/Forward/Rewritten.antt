-- ===== src/Forward/Rewritten.antt =====
-- What `rewrite_request_headers` and `rewrite_response_headers` leave in each header.
use open_functions.Prelude.{
  Bytes, List, [], ◌∷◌, false, if◌then◌else◌, ◌=?◌, list_Eq, ℕ_Eq, Option, none, some, ◌≡◌, refl,
  ◌∙◌, ap, arith,
}
use open_functions.Forward.{
  HttpHeaders, IsLawful, execution_id_header, forwarded_for, forwarded_proto, forwarded_host, first,
  first_text, set_header, set_host, strip_hop_by_hop, RequestRewriteContext, appended,
  rewrite_request_headers, rewrite_response_headers,
}
use open_functions.Forward.Stripped.{mem}

-- The headers that the host sets on a request.
abbrev pub host_headers : List Bytes
host_headers = execution_id_header ∷ forwarded_for ∷ forwarded_proto ∷ forwarded_host ∷ []

module _ (h : HttpHeaders) (law : IsLawful h) where
  get_all-set_header :
      (n m s : Bytes) (v : h.HeaderValue) (hs : h.HeaderMap)
      → h.value s ≡ some v
      → h.get_all n (set_header h m s hs) ≡ (if n =? m then v ∷ [] else h.get_all n hs)
  unfolding set_header
  get_all-set_header n m s v hs e = rw (e, set_header) (law.get_all-insert n m v hs)

  set_header_other :
      (n m s : Bytes) (hs : h.HeaderMap)
      → (n =? m) ≡ false
      → h.get_all n (set_header h m s hs) ≡ h.get_all n hs
  unfolding set_header
  set_header_other n m s hs d = by_value (h.value s)
    where
      by_value :
          (o : Option (h.HeaderValue))
          → h.get_all n (elim o [ none ↦ hs | some v ↦ h.insert m v hs ]) ≡ h.get_all n hs
      by_value none = refl
      by_value (some v) = law.get_all-insert n m v hs ∙ rw (d, if◌then◌else◌) refl

  set_host_other :
      (n : Bytes) (o : Option Bytes) (hs : h.HeaderMap)
      → (n =? forwarded_host) ≡ false
      → h.get_all n (set_host h o hs) ≡ h.get_all n hs
  set_host_other n none hs d = refl
  set_host_other n (some s) hs d = set_header_other n forwarded_host s hs d

  pub get_all-execution_id :
      (ctx : RequestRewriteContext) (hs : h.HeaderMap) (id : h.HeaderValue)
      → h.value ctx.execution_id ≡ some id
      → h.get_all execution_id_header (rewrite_request_headers h ctx hs) ≡ id ∷ []
  unfolding rewrite_request_headers
  get_all-execution_id ctx hs id e_id =
      let stripped = strip_hop_by_hop h hs in
      let with_id = set_header h execution_id_header (ctx.execution_id) stripped in
      let forwarded = appended (first_text h forwarded_for with_id) (ctx.client_addr) in
      let with_for = set_header h forwarded_for forwarded with_id in
      let with_proto = set_header h forwarded_proto (ctx.proto) with_for in
      set_host_other execution_id_header (ctx.original_host) with_proto refl
      ∙ set_header_other execution_id_header forwarded_proto (ctx.proto) with_for refl
      ∙ set_header_other execution_id_header forwarded_for forwarded with_id refl
      ∙ get_all-set_header execution_id_header execution_id_header (ctx.execution_id) id stripped
          e_id

  -- Where the texts that the host sets are legal header values, a forwarded request has exactly the
  -- host's execution id, the first forwarded-for value that the stripped headers had with the
  -- client's address appended, and the protocol; the headers that the host does not set are as
  -- stripping left them.
  pub get_all-rewrite_request_headers :
      (ctx : RequestRewriteContext) (hs : h.HeaderMap) (id chain proto : h.HeaderValue) (n : Bytes)
      → h.value ctx.execution_id ≡ some id
      → h.value (appended (first_text h forwarded_for (strip_hop_by_hop h hs)) ctx.client_addr)
        ≡ some chain
      → h.value ctx.proto ≡ some proto
      → mem n host_headers ≡ false
      → (h.get_all execution_id_header (rewrite_request_headers h ctx hs) ≡ id ∷ [])
        × (h.get_all forwarded_for (rewrite_request_headers h ctx hs) ≡ chain ∷ [])
        × (h.get_all forwarded_proto (rewrite_request_headers h ctx hs) ≡ proto ∷ [])
        × (h.get_all n (rewrite_request_headers h ctx hs) ≡ h.get_all n (strip_hop_by_hop h hs))
  unfolding rewrite_request_headers
  get_all-rewrite_request_headers ctx hs id chain proto n e_id e_chain e_proto d =
      let stripped = strip_hop_by_hop h hs in
      let with_id = set_header h execution_id_header (ctx.execution_id) stripped in
      let first_same : first_text h forwarded_for with_id ≡ first_text h forwarded_for stripped =
        ap (λ vs. elim (first vs) [ none ↦ none | some v ↦ h.text v ])
          (set_header_other forwarded_for execution_id_header (ctx.execution_id) stripped refl) in
      let forwarded = appended (first_text h forwarded_for with_id) (ctx.client_addr) in
      let e_forwarded : h.value forwarded ≡ some chain =
        ap (λ t. h.value (appended t (ctx.client_addr))) first_same ∙ e_chain in
      let with_for = set_header h forwarded_for forwarded with_id in
      let with_proto = set_header h forwarded_proto (ctx.proto) with_for in
      (
        get_all-execution_id ctx hs id e_id,
        set_host_other forwarded_for (ctx.original_host) with_proto refl
            ∙ set_header_other forwarded_for forwarded_proto (ctx.proto) with_for refl
            ∙ get_all-set_header forwarded_for forwarded_for forwarded chain with_id e_forwarded,
        set_host_other forwarded_proto (ctx.original_host) with_proto refl
            ∙ get_all-set_header forwarded_proto forwarded_proto (ctx.proto) proto with_for e_proto,
        set_host_other n (ctx.original_host) with_proto (ground arith)
            ∙ set_header_other n forwarded_proto (ctx.proto) with_for (ground arith)
            ∙ set_header_other n forwarded_for forwarded with_id (ground arith)
            ∙ set_header_other n execution_id_header (ctx.execution_id) stripped (ground arith),
      )

  pub get_all-rewrite_response_headers :
      (s : Bytes) (id : h.HeaderValue) (hs : h.HeaderMap)
      → h.value s ≡ some id
      → (n : Bytes)
      → h.get_all n (rewrite_response_headers h s hs)
        ≡ (if n =? execution_id_header then id ∷ [] else h.get_all n (strip_hop_by_hop h hs))
  unfolding rewrite_response_headers
  get_all-rewrite_response_headers s id hs e n =
      get_all-set_header n execution_id_header s id (strip_hop_by_hop h hs) e
