-- ===== src/Server/Push/Acked.antt =====
-- What lies behind the acknowledgement of a push delivery.
use open_functions.Prelude.{
  ℕ, ◌*◌, Bytes, codes, true, none, some, lookup, list_Eq, ℕ_Eq, Result, ok, err, ◌≡◌, refl, inl,
  inr, Option-cases, Result-cases, Bool-cases, arith, ap, subst, if_cases,
}
use open_functions.Model.{Function, Trigger}
use open_functions.Pool.{SocketAddr, Pool, AcquiredInstance, AcquireError}
use open_functions.Pool.Acquire.{acquire}
use open_functions.Registry.{Outside, Entry}
use open_functions.Store.{get_function}
use open_functions.Forward.{RequestRewriteContext, ForwardFailure, map_outcome}
use open_functions.Forward.Proxy.{Http, Request, Response, Client, forward}
use open_functions.PubSub.Convert.{Json, Formats, PushEnvelope, parse_push_envelope, to_cloud_event}
use open_functions.Server.{
  Circumstances, Reply, passed, status_only, error_reply, Host, is_ready, call, acquire_from_pool,
  Acquiring, api_bad_request, not_ready_yet, no_pubsub_trigger,
}
use open_functions.Server.Push.{
  Deliveries, is_success, build_binary_mode_request, Delivered, invalid, put_off, refuse_push,
  answer_push, call_push, push_acquired, push_pool, push_to, deliver, handle_push,
}

abbrev pub reply_status : {w : Http} → Reply w → ℕ
reply_status (passed resp) = resp.status
reply_status (status_only status) = status
reply_status (error_reply status headers body) = status

module _ (o : Outside) (w : Http) (client : Client w) (j : Json) (f : Formats j)
    (d : Deliveries w j f) (c : Circumstances) where
  -- An instance answered `sent` with a success.
  pub record Answered (sent : Request w) (s : client.State) : Type 0 where
    pub addr : SocketAddr
    pub ctx : RequestRewriteContext
    pub limit : ℕ
    pub after : client.State
    pub response : Response w
    pub forwarded : forward w client addr sent ctx limit s ≡ (after, ok response)
    pub succeeded : is_success response.status ≡ true

  -- The delivery is well-formed, the function is stored with a topic, and an instance answered the
  -- request that the delivery's event makes with a success.
  pub record Processed (project name : Bytes) (req : Request w) (h : Host o w client) : Type 0 where
    pub raw : Bytes
    pub envelope : PushEnvelope
    pub function : Function
    pub topic : Bytes
    pub sent : Request w
    pub read : d.to_bytes req.body ≡ some raw
    pub parsed : parse_push_envelope j f c.received_at raw ≡ ok envelope
    pub stored : get_function name h.world.store ≡ ok (some function)
    pub triggered : function.trigger ≡ Trigger.pubsub topic
    pub made :
        build_binary_mode_request w j f d
          (to_cloud_event j f c.received envelope (record { project = project; topic = topic }))
        ≡ some sent
    pub answered : Answered sent h.client

  -- `A` lies behind a success.
  abbrev pub SuccessNeeds : Type 0 → Delivered o w client j f d c → Type 0
  SuccessNeeds A none = Unit {0}
  SuccessNeeds A (some (h, reply)) = is_success (reply_status reply) ≡ true → A

  weakened :
      {A B : Type 0} (x : Delivered o w client j f d c)
      → (A → B)
      → SuccessNeeds A x
      → SuccessNeeds B x
  weakened none g n = tt
  weakened (some (h, reply)) g n = λ s. g (n s)

  refuse_push-SuccessNeeds :
      (A : Type 0) (name : Bytes) (fn : Function) (e : AcquireError) (h : Host o w client)
      → SuccessNeeds A (refuse_push o w client j f d c name fn e h)
  unfolding refuse_push put_off
  refuse_push-SuccessNeeds A name fn (AcquireError.spawn e) h = λ s. absurd (ground arith)
  refuse_push-SuccessNeeds A name fn (AcquireError.queue_timeout n) h = λ s. absurd (ground arith)
  refuse_push-SuccessNeeds A name fn AcquireError.rejected h = λ s. absurd (ground arith)
  refuse_push-SuccessNeeds A name fn AcquireError.draining h = λ s. absurd (ground arith)

  answer_push-success :
      (name : Bytes) (fn : Function) (h : Host o w client) (r : Result ForwardFailure (Response w))
      → is_success (reply_status (answer_push o w client j f d c name fn (h, r)).1) ≡ true
      → (resp : Response w) × (r ≡ ok resp) × (is_success resp.status ≡ true)
  unfolding answer_push map_outcome
  answer_push-success name fn h (ok resp) s = elim (Bool-cases (is_success resp.status)) [
    | inl t ↦ (resp, refl, t)
    | inr t ↦ absurd (ground arith)
  ]
  answer_push-success name fn h (err ForwardFailure.timeout) s = absurd (ground arith)
  answer_push-success name fn h (err ForwardFailure.connection_refused) s = absurd (ground arith)
  answer_push-success name fn h (err ForwardFailure.connection_reset) s = absurd (ground arith)
  answer_push-success name fn h (err ForwardFailure.queue_rejected) s = absurd (ground arith)

  call_push-Answered :
      (name : Bytes) (fn : Function) (sent : Request w) (entry : Entry) (p : Pool)
      (a : AcquiredInstance) (h h' : Host o w client) (resp : Response w)
      → call_push o w client j f d c name fn sent entry p a h ≡ (h', ok resp)
      → is_success resp.status ≡ true
      → Answered sent h.client
  unfolding call_push call
  call_push-Answered name fn sent entry p a h h' resp e t =
      let ctx : RequestRewriteContext = record {
        execution_id = (o.new_uuid h.world.outer).1;
        client_addr = codes "127.0.0.1";
        proto = codes "http";
        original_host = none;
      } in
      let out = forward w client a.addr sent ctx (fn.timeout_secs * 1000) h.client in
      let r : out.1 ≡ ok resp =
        ap (λ (x : Host o w client × Result ForwardFailure (Response w)). x.1) e in
      record {
        addr = a.addr;
        ctx = ctx;
        limit = fn.timeout_secs * 1000;
        after = out.0;
        response = resp;
        forwarded = ap {A = Result ForwardFailure (Response w)} (λ x. (out.0, x)) r;
        succeeded = t;
      }

  push_acquired-SuccessNeeds :
      (name : Bytes) (fn : Function) (event : f.Event) (entry : Entry) (p : Pool)
      (a : AcquiredInstance) (h : Host o w client)
      → SuccessNeeds
          ((sent : Request w) × (build_binary_mode_request w j f d event ≡ some sent)
            × Answered sent h.client)
          (push_acquired o w client j f d c name fn event entry p a h)
  unfolding push_acquired put_off
  push_acquired-SuccessNeeds name fn event entry p a h =
      elim (Option-cases (build_binary_mode_request w j f d event)) [
        | inl e ↦ rw (e, push_acquired) (λ s. absurd (ground arith))
        | inr (sent, e) ↦
            let x = call_push o w client j f d c name fn sent entry p a h in
            rw (e, push_acquired)
              (λ s.
                let (resp, q, t) = answer_push-success name fn x.0 x.1 s in
                let r : x ≡ (x.0, ok resp) =
                  ap {A = Result ForwardFailure (Response w)} (λ y. (x.0, y)) q in
                (sent, refl, call_push-Answered name fn sent entry p a h x.0 resp r t))
      ]

  abbrev NeedsEvent : f.Event → client.State → Type 0
  NeedsEvent event s =
      (sent : Request w) × (build_binary_mode_request w j f d event ≡ some sent) × Answered sent s

  acquire_from_pool-client :
      (name : Bytes) (entry : Entry) (h h' : Host o w client)
      (x : Pool × Result AcquireError AcquiredInstance)
      → acquire_from_pool o w client c name entry h ≡ some (h', x)
      → h'.client ≡ h.client
  unfolding acquire_from_pool
  acquire_from_pool-client name entry h h' x e =
      let q : Pool = record (entry.pool) { global_free = h.world.global_free } in
      elim (Option-cases (acquire c.surroundings c.fuel c.now q)) [
        | inl n ↦ absurd (ground arith)
        | inr (r, y) ↦ ground arith
      ]

  push_pool-SuccessNeeds :
      (name : Bytes) (fn : Function) (event : f.Event) (h : Host o w client)
      → SuccessNeeds (NeedsEvent event h.client) (push_pool o w client j f d c name fn event h)
  unfolding push_pool put_off
  push_pool-SuccessNeeds name fn event h = elim (Option-cases (lookup name h.world.pools)) [
    | inl e ↦ rw (e, push_pool) (λ s. absurd (ground arith))
    | inr (entry, e) ↦
        rw (e, push_pool) (on_acquired entry (acquire_from_pool o w client c name entry h) refl)
  ]
    where
      on_acquired :
          (entry : Entry) (r : Acquiring o w client)
          → acquire_from_pool o w client c name entry h ≡ r
          → SuccessNeeds (NeedsEvent event h.client) (elim r [
            | none ↦ none
            | some (h', (p, err e)) ↦ refuse_push o w client j f d c name fn e h'
            | some (h', (p, ok a)) ↦ push_acquired o w client j f d c name fn event entry p a h'
          ])
      on_acquired entry none q = tt
      on_acquired entry (some (h', (p, err e))) q =
          refuse_push-SuccessNeeds (NeedsEvent event h.client) name fn e h'
      on_acquired entry (some (h', (p, ok a))) q =
          subst
            (λ s.
              SuccessNeeds (NeedsEvent event s)
                (push_acquired o w client j f d c name fn event entry p a h'))
            (acquire_from_pool-client name entry h h' (p, ok a) q)
            (push_acquired-SuccessNeeds name fn event entry p a h')

  abbrev event_of : (project topic : Bytes) → PushEnvelope → f.Event
  event_of project topic envelope =
      to_cloud_event j f c.received envelope (record { project = project; topic = topic })

  push_to-SuccessNeeds :
      (name project topic : Bytes) (fn : Function) (envelope : PushEnvelope) (h : Host o w client)
      → SuccessNeeds
          (NeedsEvent (event_of project topic envelope) h.client)
          (push_to o w client j f d c name project topic fn envelope h)
  unfolding push_to put_off
  push_to-SuccessNeeds name project topic fn envelope h =
      if_cases (SuccessNeeds (NeedsEvent (event_of project topic envelope) h.client)) (is_ready fn)
        (push_pool o w client j f d c name fn (event_of project topic envelope) h)
        (put_off o w client j f d c name fn (codes "rejected") 503 (not_ready_yet fn) h)
        (push_pool-SuccessNeeds name fn (event_of project topic envelope) h)
        (λ s. absurd (ground arith))

  deliver-SuccessNeeds :
      (A : Type 0) (name project : Bytes) (envelope : PushEnvelope) (h : Host o w client)
      → ((fn : Function) (topic : Bytes)
          → get_function name h.world.store ≡ ok (some fn)
          → fn.trigger ≡ Trigger.pubsub topic
          → NeedsEvent (event_of project topic envelope) h.client
          → A)
      → SuccessNeeds A (deliver o w client j f d c name project envelope h)
  unfolding deliver invalid
  deliver-SuccessNeeds A name project envelope h k =
      elim (Result-cases (get_function name h.world.store)) [
        | inr (x, q) ↦ rw (q, deliver) (λ s. absurd (ground arith))
        | inl (none, q) ↦ rw (q, deliver) (λ s. absurd (ground arith))
        | inl (some fn, q) ↦ rw (q, deliver) (of_trigger fn (fn.trigger) q refl)
      ]
    where
      of_trigger :
          (fn : Function) (t : Trigger)
          → get_function name h.world.store ≡ ok (some fn)
          → fn.trigger ≡ t
          → SuccessNeeds A (elim t [
            | Trigger.http ↦
                invalid o w client j f d c name (api_bad_request (no_pubsub_trigger name)) h
            | Trigger.pubsub topic ↦ push_to o w client j f d c name project topic fn envelope h
          ])
      of_trigger fn Trigger.http q e = λ s. absurd (ground arith)
      of_trigger fn (Trigger.pubsub topic) q e =
          weakened (push_to o w client j f d c name project topic fn envelope h) (k fn topic q e)
            (push_to-SuccessNeeds name project topic fn envelope h)

  handle_push-SuccessNeeds :
      (project name : Bytes) (req : Request w) (h : Host o w client)
      → SuccessNeeds
          (Processed project name req h)
          (handle_push o w client j f d c (some project) name req h)
  unfolding handle_push invalid
  handle_push-SuccessNeeds project name req h = elim (Option-cases (d.to_bytes req.body)) [
    | inl n ↦ rw (n, handle_push) (λ s. absurd (ground arith))
    | inr (raw, read) ↦ elim (Result-cases (parse_push_envelope j f c.received_at raw)) [
      | inr (x, q) ↦ rw (read, q, handle_push) (λ s. absurd (ground arith))
      | inl (envelope, parsed) ↦
          rw (read, parsed, handle_push)
            (deliver-SuccessNeeds (Processed project name req h) name project envelope h
              (λ fn topic stored triggered (sent, made, answered). record {
                raw = raw;
                envelope = envelope;
                function = fn;
                topic = topic;
                sent = sent;
                read = read;
                parsed = parsed;
                stored = stored;
                triggered = triggered;
                made = made;
                answered = answered;
              }))
    ]
  ]

  -- A push delivery of a function is acknowledged only if its body is a well-formed delivery, the
  -- function is stored with a topic as its trigger, and an instance answered the request that the
  -- delivery's event makes with a success.
  pub handle_push-Processed :
      (project name : Bytes) (req : Request w) (h h' : Host o w client) (reply : Reply w)
      → handle_push o w client j f d c (some project) name req h ≡ some (h', reply)
      → is_success (reply_status reply) ≡ true
      → Processed project name req h
  handle_push-Processed project name req h h' reply e =
      subst (SuccessNeeds (Processed project name req h)) e
        (handle_push-SuccessNeeds project name req h)
