-- ===== src/Pool/Methods.antt =====
-- What each method of the pool does to the state, case by case.
use open_functions.Prelude.{
  ℕ, zero, suc, ◌+◌, ◌-◌, ◌≤◌, ◌<◌, ◌≡◌, refl, ◌∙◌, List, [], ◌∷◌, none, some, length, lookup,
  remove, insert, length-remove, length-insert, arith, ℕ_Eq, if_cases, Option-cases, inl, inr,
  Bool-cases, leb, ltb, take, keep, false,
}
use open_functions.Runtime.{InstanceSpec}
use open_functions.Pool.{
  SocketAddr, AcquiredInstance, InstanceState, Pool, use_slot, proceed, stop_all, report_dead,
  remove_each, reap_idle_once, try_acquire_existing, begin_start, is_candidate,
}
use open_functions.Pool.Slots.{Slots, Slots-empty, Slots-remove}

-- What a method that only takes instances away leaves behind.
pub record Shrinks (c : ℕ) (reqs : List AcquiredInstance) (p q : Pool) : Type 0 where
  pub config : q.config ≡ p.config
  pub starting : q.starting ≡ p.starting
  pub fewer : length q.instances ≤ length p.instances
  pub freed : q.global_free + length q.instances ≡ p.global_free + length p.instances
  pub slots : Slots c q.fresh reqs q.instances

Shrinks-trans :
    {c : ℕ} {reqs : List AcquiredInstance} {p q r : Pool}
    → Shrinks c reqs p q
    → Shrinks c reqs q r
    → Shrinks c reqs p r
Shrinks-trans h k = record {
  config = k.config ∙ h.config;
  starting = k.starting ∙ h.starting;
  fewer = omega (arith, h.fewer, k.fewer);
  freed = k.freed ∙ h.freed;
  slots = k.slots;
}

module _ {c : ℕ} {reqs : List AcquiredInstance} (p : Pool)
    (s : Slots c p.fresh reqs p.instances) where
  pub Shrinks-refl : Shrinks c reqs p p
  Shrinks-refl = record {
    config = refl;
    starting = refl;
    fewer = omega arith;
    freed = refl;
    slots = s;
  }

  remove-Shrinks :
      (addr : SocketAddr) (inst : InstanceState)
      → lookup addr p.instances ≡ some inst
      → Shrinks c reqs p
          (record p { instances = remove addr p.instances; global_free = p.global_free + 1 })
  remove-Shrinks addr inst e =
      let n : length p.instances ≡ length (remove addr p.instances) + 1 =
        ground (arith, e, length-remove addr p.instances s.is_map) in
      record {
        config = refl;
        starting = refl;
        fewer = omega (arith, n);
        freed = omega (arith, n);
        slots = Slots-remove s addr;
      }

  pub report_dead-Shrinks : (addr : SocketAddr) → Shrinks c reqs p (report_dead addr p).0
  unfolding report_dead
  report_dead-Shrinks addr = elim (Option-cases (lookup addr p.instances)) [
    | inl e ↦ rw (e, report_dead) Shrinks-refl
    | inr (inst, e) ↦ rw (e, report_dead) (remove-Shrinks addr inst e)
  ]

  pub stop_all-Shrinks : Shrinks c reqs p (stop_all p).0
  unfolding stop_all
  stop_all-Shrinks = record {
    config = refl;
    starting = refl;
    fewer = omega arith;
    freed = omega arith;
    slots = Slots-empty s;
  }

remove_each-Shrinks :
    {c : ℕ} {reqs : List AcquiredInstance} (addrs : List SocketAddr) (n : ℕ) (p : Pool)
    → Slots c p.fresh reqs p.instances
    → Shrinks c reqs p (remove_each addrs n p).0
unfolding remove_each
remove_each-Shrinks [] n p s = Shrinks-refl p s
remove_each-Shrinks (addr ∷ addrs) zero p s = Shrinks-refl p s
remove_each-Shrinks {c} {reqs} (addr ∷ addrs) (suc n) p s =
    elim (Option-cases (lookup addr p.instances)) [
      | inl e ↦ rw (e, remove_each) (remove_each-Shrinks addrs (suc n) p s)
      | inr (inst, e) ↦
          let once = report_dead-Shrinks p s addr in
          rw (e, remove_each)
            (Shrinks-trans once (remove_each-Shrinks addrs n (report_dead addr p).0 once.slots))
    ]

pub reap-Shrinks :
    {c : ℕ} {reqs : List AcquiredInstance} (order : List SocketAddr) (now : ℕ) (p : Pool)
    → Slots c p.fresh reqs p.instances
    → Shrinks c reqs p (reap_idle_once order now p).0
unfolding reap_idle_once
reap-Shrinks {c} {reqs} order now p s =
    let candidates =
      take (length p.instances - p.config.min_instances) (keep (is_candidate p now) order) in
    if_cases (λ (r : Pool × List SocketAddr). Shrinks c reqs p r.0)
      (leb (length p.instances) p.config.min_instances) (p, []) _ (Shrinks-refl p s)
      (remove_each-Shrinks candidates (length p.instances - p.config.min_instances) p s)

pub begin_start_proceeds :
    (p q : Pool) (spec : InstanceSpec)
    → begin_start p ≡ (q, proceed spec)
    → (p.is_draining ≡ false)
      × (p.starting ≡ none)
      × (length p.instances < p.config.max_instances)
      × (0 < p.global_free)
      × (q ≡ record p {
        starting = some p.fresh;
        global_free = p.global_free - 1;
        fresh = p.fresh + 1;
      })
unfolding begin_start
begin_start_proceeds p q spec h = ground arith

pub acquire_takes :
    (order : List SocketAddr) (now : ℕ) (p q : Pool) (a : AcquiredInstance)
    → try_acquire_existing order now p ≡ some (q, a)
    → (inst : InstanceState) × (lookup a.addr p.instances ≡ some inst)
      × (0 < inst.available)
      × (a ≡ record { addr = a.addr; semaphore = inst.semaphore })
      × (q ≡ record p {
        instances =
            insert a.addr
              (record inst { available = inst.available - 1; last_used = now })
              p.instances;
      })
unfolding try_acquire_existing
acquire_takes [] now p q a h = cc
acquire_takes (addr ∷ addrs) now p q a h = elim (Option-cases (lookup addr p.instances)) [
  | inl e ↦ acquire_takes addrs now p q a (rw (e, try_acquire_existing) at h)
  | inr (inst, e) ↦ elim (Bool-cases (ltb 0 inst.available)) [
    | inl t ↦
        let e₁ : use_slot addr now inst p ≡ q = ground arith in
        let e₂ : record { addr = addr; semaphore = inst.semaphore } ≡ a = ground arith in
        rw (← e₁, ← e₂) (inst, e, ground arith, refl, refl)
    | inr t ↦ acquire_takes addrs now p q a (ground arith)
  ]
]

pub acquire_keeps :
    (order : List SocketAddr) (now : ℕ) (p q : Pool) (a : AcquiredInstance)
    → try_acquire_existing order now p ≡ some (q, a)
    → (length q.instances ≡ length p.instances) × (q.starting ≡ p.starting)
acquire_keeps order now p q a h =
    let (inst, l, free, ea, e) = acquire_takes order now p q a h in
    let used : InstanceState = record inst { available = inst.available - 1; last_used = now } in
    rw e (ground (arith, l, length-insert a.addr used p.instances), refl)
