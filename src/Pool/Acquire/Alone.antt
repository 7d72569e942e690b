-- ===== src/Pool/Acquire/Alone.antt =====
-- What `acquire` and `warm_to` return when no other task touches the pool meanwhile.
use open_functions.Prelude.{
  not_leb→lt, ℕ, zero, suc, ◌+◌, ◌-◌, ◌≤◌, ◌<◌, ◌≡◌, ◌⊎◌, ◌≢◌, refl, inl, inr, List, [], ◌∷◌, none,
  some, false, length, lookup, lookup-insert, ℕ_Eq, leb, min, arith, Option-cases, Bool-cases,
  Result, ok, err, Result-cases,
}
use open_functions.Pool.{
  SocketAddr, AcquiredInstance, InstanceState, AcquireError, Pool, try_acquire_existing, BeginStart,
  proceed, at_capacity, begin_start, finish_start, QueuePolicy, queue_timeout,
}
use open_functions.Pool.Acquire.{
  Surroundings, Acquired, acquire, acquire_from, on_begin, on_capacity,
}

-- The address is one of the keys.
abbrev pub Listed : SocketAddr → List SocketAddr → Type 0
Listed addr [] = ⊥
Listed addr (a ∷ as') = (addr ≡ a) ⊎ Listed addr as'

-- Nobody else touches the pool, and the keys that a round sees include every instance.
pub record IsAlone (w : Surroundings) : Type 0 where
  pub untouched : (k : ℕ) (p : Pool) → w.others k p ≡ p
  pub complete :
      (k : ℕ) (p : Pool) (addr : SocketAddr) (inst : InstanceState)
      → lookup addr p.instances ≡ some inst
      → Listed addr (w.order k p)

-- Where a listed instance has a free slot, one is taken.
free_is_taken :
    (order : List SocketAddr) (now : ℕ) (p : Pool) (addr : SocketAddr) (inst : InstanceState)
    → Listed addr order
    → lookup addr p.instances ≡ some inst
    → 0 < inst.available
    → try_acquire_existing order now p ≢ none
unfolding try_acquire_existing
free_is_taken [] now p addr inst m l f = absurd m
free_is_taken (b ∷ bs) now p addr inst (inl e) l f = λ h. ground (arith, e)
free_is_taken (b ∷ bs) now p addr inst (inr m) l f =
    λ h. ground (arith, free_is_taken bs now p addr inst m l f)

-- What `begin_start` returns while nobody starts an instance.
begin_cases :
    (p : Pool)
    → p.starting ≡ none
    → (begin_start p ≡ (
      record p { starting = some p.fresh; global_free = p.global_free - 1; fresh = p.fresh + 1 },
      proceed p.spec_template,
    ))
      ⊎ ((begin_start p ≡ (p, BeginStart.draining)) ⊎ (begin_start p ≡ (p, at_capacity)))
unfolding begin_start
begin_cases p h = ground arith

begin_proceeds :
    (p : Pool)
    → p.is_draining ≡ false
    → p.starting ≡ none
    → length p.instances < p.config.max_instances
    → 0 < p.global_free
    → begin_start p ≡ (
      record p { starting = some p.fresh; global_free = p.global_free - 1; fresh = p.fresh + 1 },
      proceed p.spec_template,
    )
unfolding begin_start
begin_proceeds p d st len free = ground arith

module _ (w : Surroundings) (alone : IsAlone w) where
  slot_is_acquired :
      (fuel k wait_start now : ℕ) (p : Pool) (addr : SocketAddr) (inst : InstanceState)
      → lookup addr p.instances ≡ some inst
      → 0 < inst.available
      → (q : Pool) × (a : AcquiredInstance) × (acquire_from w (suc fuel) k wait_start now p
          ≡ some (q, ok a))
  unfolding acquire_from
  slot_is_acquired fuel k wait_start now p addr inst l f =
      elim (Option-cases (try_acquire_existing (w.order k p) now p)) [
        | inl e ↦
            absurd
              (free_is_taken (w.order k p) now p addr inst (alone.complete k p addr inst l) l f e)
        | inr ((q, a), e) ↦ (q, a, rw (e, acquire_from) refl)
      ]

  -- A start that succeeds is followed by a round that takes a slot of the new instance.
  started_is_acquired :
      (fuel k wait_start now later : ℕ) (p : Pool) (addr : SocketAddr)
      → 0 < p.config.concurrency
      → (q : Pool) × (a : AcquiredInstance) × (acquire_from w
            (suc fuel)
            k
            wait_start
            now
            (finish_start (ok addr) later p).0
          ≡ some (q, ok a))
  unfolding finish_start
  started_is_acquired fuel k wait_start now later p addr c =
      slot_is_acquired fuel k wait_start now (finish_start (ok addr) later p).0 addr
        (record {
          handle = some addr;
          semaphore = p.fresh;
          available = p.config.concurrency;
          last_used = later;
        })
        (ground (
          arith,
          lookup-insert addr addr
              (record {
                handle = some addr;
                semaphore = p.fresh;
                available = p.config.concurrency;
                last_used = later;
              })
              p.instances,
        ))
        c

  Ends : Acquired → Type 0
  Ends r = (x : Pool × Result AcquireError AcquiredInstance) × (r ≡ some x)

  start-Ends :
      (fuel k wait_start now : ℕ) (p : Pool)
      → 0 < p.config.concurrency
      → Ends (
          on_begin w k wait_start now
            (λ later q. acquire_from w (suc fuel) (suc k) wait_start later q)
            (p, proceed p.spec_template))
  unfolding on_begin finish_start Ends
  start-Ends fuel k wait_start now p c = elim (Result-cases (w.spawn k p.spec_template)) [
    | inl (addr, s) ↦
        let (q, a, e) =
          started_is_acquired fuel (suc k) wait_start (now + w.lag k) (now + w.lag k) p addr c in
        rw (s, alone.untouched k p) ((q, ok a), e)
    | inr (x, s) ↦ rw (s, alone.untouched k p) (_, refl)
  ]

  on_capacity-Ends :
      (continue : ℕ → Pool → Acquired) (policy : QueuePolicy) (elapsed later : ℕ) (p : Pool)
      → (leb p.config.queue_max_wait elapsed ≡ false → Ends (continue later p))
      → Ends (on_capacity continue policy elapsed later p)
  unfolding on_capacity Ends
  on_capacity-Ends continue QueuePolicy.reject elapsed later p again = (_, refl)
  on_capacity-Ends continue QueuePolicy.wait elapsed later p again =
      elim (Bool-cases (leb p.config.queue_max_wait elapsed)) [
        | inl t ↦ ((p, err (queue_timeout p.config.queue_max_wait)), ground arith)
        | inr f ↦ let (x, e) = again f in (x, ground (arith, e))
      ]

  capacity-Ends :
      (k wait_start now : ℕ) (p : Pool) (continue : ℕ → Pool → Acquired)
      → ((later : ℕ)
          → wait_start + p.config.queue_max_wait - later
            < wait_start + p.config.queue_max_wait - now
          → Ends (continue later p))
      → Ends (on_begin w k wait_start now continue (p, at_capacity))
  unfolding on_begin Ends
  capacity-Ends k wait_start now p continue again =
      let later = now + min (p.config.queue_max_wait - (now - wait_start)) 20 + w.lag k in
      on_capacity-Ends (λ later' q. continue later' (w.others k q)) p.config.queue_policy
        (now - wait_start) later p
        (λ f. rw (alone.untouched k p) (again later (omega (arith, not_leb→lt _ _ f))))

  acquire_from_returns :
      (fuel k wait_start now : ℕ) (p : Pool)
      → p.starting ≡ none
      → 0 < p.config.concurrency
      → wait_start + p.config.queue_max_wait - now + 2 ≤ fuel
      → (r : Pool × Result AcquireError AcquiredInstance) × (acquire_from w fuel k wait_start now p
          ≡ some r)
  unfolding acquire_from Ends on_begin
  acquire_from_returns zero k wait_start now p st c m = absurd (omega arith)
  acquire_from_returns (suc zero) k wait_start now p st c m = absurd (omega arith)
  acquire_from_returns (suc (suc fuel)) k wait_start now p st c m =
      elim (Option-cases (try_acquire_existing (w.order k p) now p)) [
        | inr ((q, a), e) ↦ ((q, ok a), rw (e, acquire_from) refl)
        | inl e ↦ elim (begin_cases p st) [
          | inl b ↦ rw (e, b, acquire_from) (start-Ends fuel k wait_start now _ c)
          | inr (inl b) ↦ rw (e, b, acquire_from) (_, refl)
          | inr (inr b) ↦
              rw (e, b, acquire_from)
                (capacity-Ends k wait_start now p
                  (λ later q. acquire_from w (suc fuel) (suc k) wait_start later q)
                  (λ later d.
                    acquire_from_returns (suc fuel) (suc k) wait_start later p st c (omega arith)))
        ]
      ]

  -- With a concurrency of at least 1, alone with the pool and while nobody starts an instance,
  -- `acquire` returns: within `queue_max_wait + 2` rounds it has an instance or an error, under
  -- either queue policy.
  pub acquire-returns :
      (fuel now : ℕ) (p : Pool)
      → p.starting ≡ none
      → 0 < p.config.concurrency
      → p.config.queue_max_wait + 2 ≤ fuel
      → (r : Pool × Result AcquireError AcquiredInstance) × (acquire w fuel now p ≡ some r)
  unfolding acquire Ends
  acquire-returns fuel now p st c m = acquire_from_returns fuel 0 now now p st c (omega (arith, m))

  -- With a concurrency of at least 1, alone with the pool, where no instance has a free slot, the
  -- pool does not drain, nobody starts an instance, and neither `max_instances` nor the global limit
  -- is reached: if the driver starts an instance, `acquire` returns one.
  pub acquire-cold_start :
      (fuel now : ℕ) (p : Pool) (addr : SocketAddr)
      → try_acquire_existing (w.order 0 p) now p ≡ none
      → p.is_draining ≡ false
      → p.starting ≡ none
      → length p.instances < p.config.max_instances
      → 0 < p.global_free
      → 0 < p.config.concurrency
      → w.spawn 0 p.spec_template ≡ ok addr
      → (q : Pool) × (a : AcquiredInstance) × (acquire w (suc (suc fuel)) now p ≡ some (q, ok a))
  unfolding acquire acquire_from on_begin finish_start
  acquire-cold_start fuel now p addr e d st len free c s =
      let p' : Pool = record p {
        starting = some p.fresh;
        global_free = p.global_free - 1;
        fresh = p.fresh + 1;
      } in
      let (q, a, r) = started_is_acquired fuel 1 now (now + w.lag 0) (now + w.lag 0) p' addr c in
      (q, a, rw (e, begin_proceeds p d st len free, s, alone.untouched 0 p', acquire_from) r)
