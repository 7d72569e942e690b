-- ===== src/Pool/Invariant.antt =====
-- What holds of a pool and its tasks after any steps.
use open_functions.Prelude.{
  ℕ, ◌+◌, ◌-◌, ◌≤◌, ◌<◌, ◌≡◌, refl, ◌∙◌, ap, sym, subst, List, [], ◌∷◌, ◌++◌, Option, none, some,
  Result, ok, err, length, length-append, insert, length-insert, length-map_values, arith, ℕ_Eq,
  is_some, true,
}
use open_functions.Runtime.{InstanceSpec, DriverError}
use open_functions.Pool.{
  SocketAddr, AcquiredInstance, InstanceState, PoolConfig, Pool, proceed, set_spec_template,
  begin_drain, try_acquire_existing, release, begin_start, finish_start, give_back,
}
use open_functions.Pool.Slots.{Slots, Slots-fresh, Slots-use, Slots-start, Slots-release}
use open_functions.Pool.System.{
  System, Step, acquires, begins, finishes, is_dropped, releases, reports, reaps, swaps, drains,
  stops, other_takes, other_gives,
}
use open_functions.Pool.Methods.{
  Shrinks, report_dead-Shrinks, stop_all-Shrinks, reap-Shrinks, begin_start_proceeds, acquire_takes,
}

-- One task at most starts an instance, and then the pool knows of it.
abbrev pub SingleFlight : List InstanceSpec → Option ℕ → Type 0
SingleFlight [] starting = Unit {0}
SingleFlight (spec ∷ []) starting = is_some starting ≡ true
SingleFlight (_ ∷ _ ∷ _) starting = ⊥

pub record Inv (c : PoolConfig) (total : ℕ) (s : System) : Type 0 where
  pub configured : s.pool.config ≡ c
  pub single_flight : SingleFlight s.starters s.pool.starting
  pub bounded : length s.pool.instances + length s.starters ≤ c.max_instances
  pub permits : s.pool.global_free + length s.pool.instances + length s.starters + s.others ≡ total
  pub slots : Slots c.concurrency s.pool.fresh s.requests s.pool.instances

module _ {c : PoolConfig} {total : ℕ} {s : System} (v : Inv c total s) where
  shrunk :
      (q : Pool) → Shrinks c.concurrency s.requests s.pool q → Inv c total (record s { pool = q })
  shrunk q h = record {
    configured = h.config ∙ v.configured;
    single_flight = rw h.starting v.single_flight;
    bounded = omega (arith, v.bounded, h.fewer);
    permits = omega (arith, v.permits, h.freed);
    slots = h.slots;
  }

-- Of one starter, none is left.
pub one_starter :
    (starting : Option ℕ) (pre post : List InstanceSpec) (spec : InstanceSpec)
    → SingleFlight (pre ++ spec ∷ post) starting
    → pre ++ post ≡ []
one_starter starting [] [] spec v = refl
one_starter starting [] (_ ∷ _) spec v = absurd v
one_starter starting (_ ∷ []) post spec v = absurd v
one_starter starting (_ ∷ _ ∷ _) post spec v = absurd v

none_starting : (xs : List InstanceSpec) → SingleFlight xs none → xs ≡ []
none_starting [] v = refl
none_starting (_ ∷ []) v = cc
none_starting (_ ∷ _ ∷ _) v = absurd v

module _ {c : PoolConfig} {total : ℕ} {s : System} (v : Inv c total s) where
  acquires-Inv :
      (order : List SocketAddr) (now : ℕ) (p : Pool) (a : AcquiredInstance)
      → try_acquire_existing order now s.pool ≡ some (p, a)
      → Inv c total (record s { pool = p; requests = a ∷ s.requests })
  acquires-Inv order now p a h =
      let (inst, l, free, ea, ep) = acquire_takes order now s.pool p a h in
      let n : length (
            insert a.addr (record inst { available = inst.available - 1; last_used = now })
              s.pool.instances)
          ≡ length s.pool.instances =
        ground (
          arith,
          l,
          length-insert a.addr (record inst { available = inst.available - 1; last_used = now })
              s.pool.instances,
        ) in
      rw ep (record {
        configured = v.configured;
        single_flight = v.single_flight;
        bounded = omega (arith, v.bounded, n);
        permits = omega (arith, v.permits, n);
        slots = rw ea (Slots-use v.slots a.addr inst now l free);
      })

  begins-Inv :
      (p : Pool) (spec : InstanceSpec)
      → begin_start s.pool ≡ (p, proceed spec)
      → Inv c total (record s { pool = p; starters = spec ∷ s.starters })
  begins-Inv p spec h =
      let (d, st, len, free, e) = begin_start_proceeds s.pool p spec h in
      let no_starter =
        none_starting s.starters (subst (SingleFlight s.starters) st v.single_flight) in
      let none_left : length s.starters ≡ 0 = ap length no_starter in
      let room : length s.pool.instances < c.max_instances =
        subst (λ (k : PoolConfig). length s.pool.instances < k.max_instances) v.configured len in
      rw (e, no_starter)
        (record {
          configured = v.configured;
          single_flight = refl;
          bounded = omega (arith, room);
          permits = omega (arith, v.permits, none_left, free);
          slots = Slots-fresh v.slots;
        })

  module _ (pre post : List InstanceSpec) (spec : InstanceSpec)
      (e : s.starters ≡ pre ++ spec ∷ post) where
    left : pre ++ post ≡ []
    left =
        one_starter s.pool.starting pre post spec
          (subst (λ (xs : List InstanceSpec). SingleFlight xs s.pool.starting) e v.single_flight)

    was_one : length s.starters ≡ length (pre ++ post) + 1
    was_one = omega (arith, ap length e, length-append pre (spec ∷ post), length-append pre post)

    finishes-Inv :
        (result : Result DriverError SocketAddr) (now : ℕ)
        → Inv c total
            (record s { pool = (finish_start result now s.pool).0; starters = pre ++ post })
    unfolding finish_start
    finishes-Inv (ok addr) now =
        let new : InstanceState = record {
          handle = some addr;
          semaphore = s.pool.fresh;
          available = s.pool.config.concurrency;
          last_used = now;
        } in
        let n = length-insert addr new s.pool.instances in
        record {
          configured = v.configured;
          single_flight = rw left tt;
          bounded = ground (arith, n, was_one, v.bounded);
          permits = ground (arith, n, was_one, v.permits);
          slots =
              subst
                (λ (k : PoolConfig).
                  Slots c.concurrency (s.pool.fresh + 1) s.requests
                    (insert addr (record new { available = k.concurrency }) s.pool.instances))
                (sym v.configured) (Slots-start v.slots addr now);
        }
    finishes-Inv (err x) now = record {
      configured = v.configured;
      single_flight = rw left tt;
      bounded = omega (arith, was_one, v.bounded);
      permits = omega (arith, was_one, v.permits);
      slots = v.slots;
    }

    is_dropped-Inv : Inv c total (record s {
      pool = record (s.pool) { global_free = s.pool.global_free + 1 };
      starters = pre ++ post;
    })
    is_dropped-Inv = record {
      configured = v.configured;
      single_flight = rw left tt;
      bounded = omega (arith, was_one, v.bounded);
      permits = omega (arith, was_one, v.permits);
      slots = v.slots;
    }

  releases-Inv :
      (pre post : List AcquiredInstance) (a : AcquiredInstance)
      → s.requests ≡ pre ++ a ∷ post
      → Inv c total (record s { pool = release a s.pool; requests = pre ++ post })
  unfolding release
  releases-Inv pre post a e =
      let n = length-map_values (give_back a.semaphore) s.pool.instances in
      record {
        configured = v.configured;
        single_flight = v.single_flight;
        bounded = omega (arith, n, v.bounded);
        permits = omega (arith, n, v.permits);
        slots = Slots-release a pre post (rw e at v.slots);
      }

  swaps-Inv :
      (spec : InstanceSpec) → Inv c total (record s { pool = set_spec_template spec s.pool })
  unfolding set_spec_template
  swaps-Inv spec = record {
    configured = v.configured;
    single_flight = v.single_flight;
    bounded = v.bounded;
    permits = v.permits;
    slots = v.slots;
  }

  drains-Inv : Inv c total (record s { pool = begin_drain s.pool })
  unfolding begin_drain
  drains-Inv = record {
    configured = v.configured;
    single_flight = v.single_flight;
    bounded = v.bounded;
    permits = v.permits;
    slots = v.slots;
  }

  others-Inv :
      (free others : ℕ)
      → free + others ≡ s.pool.global_free + s.others
      → Inv c total (record s { pool = record (s.pool) { global_free = free }; others = others })
  others-Inv free others e = record {
    configured = v.configured;
    single_flight = v.single_flight;
    bounded = v.bounded;
    permits = omega (arith, e, v.permits);
    slots = v.slots;
  }

-- Whatever the tasks do, in whatever order, the invariant holds on: at most one of them starts an
-- instance, there are never more than `max_instances` instances with the one being started, each
-- instance's permits are free or held by one request each, and every global permit is free, held by
-- an instance or a start, or held by another pool.
pub Step-Inv :
    {c : PoolConfig} {total : ℕ} {s t : System} → Inv c total s → Step s t → Inv c total t
Step-Inv v (acquires order now p a h) = acquires-Inv v order now p a h
Step-Inv v (begins p spec h) = begins-Inv v p spec h
Step-Inv v (finishes pre post spec result now e) = finishes-Inv v pre post spec e result now
Step-Inv v (is_dropped pre post spec e) = is_dropped-Inv v pre post spec e
Step-Inv v (releases pre post a e) = releases-Inv v pre post a e
Step-Inv {s = s} v (reports addr) = shrunk v _ (report_dead-Shrinks s.pool v.slots addr)
Step-Inv {s = s} v (reaps order now) = shrunk v _ (reap-Shrinks order now s.pool v.slots)
Step-Inv v (swaps spec) = swaps-Inv v spec
Step-Inv v drains = drains-Inv v
Step-Inv {s = s} v stops = shrunk v _ (stop_all-Shrinks s.pool v.slots)
Step-Inv v (other_takes n e) = others-Inv v n _ (omega (arith, e))
Step-Inv v (other_gives n e) = others-Inv v _ n (omega (arith, e))
