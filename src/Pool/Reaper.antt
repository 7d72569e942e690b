-- ===== src/Pool/Reaper.antt =====
-- What one sweep of the idle reaper removes, and what it leaves.
use open_functions.Prelude.{
  ℕ, zero, suc, ◌+◌, ◌-◌, ◌≤◌, ◌≡◌, ◌⊎◌, refl, inl, inr, ◌∙◌, List, [], ◌∷◌, none, some, Bool, true,
  false, length, take, keep, lookup, lookup-remove, length-remove, IsMap, remove-IsMap, ℕ_Eq,
  ==_iff, ◌==◌, leb, min, arith, Option-cases, if_cases,
}
use open_functions.Pool.{
  SocketAddr, InstanceState, Pool, instance_count, report_dead, remove_each, reap_idle_once,
  is_candidate, is_idle,
}

abbrev AllPass : (SocketAddr → Bool) → List SocketAddr → Type 0
AllPass test [] = Unit {0}
AllPass test (a ∷ as') = (test a ≡ true) × AllPass test as'

keep-AllPass : (test : SocketAddr → Bool) (as' : List SocketAddr) → AllPass test (keep test as')
keep-AllPass test [] = tt
keep-AllPass test (a ∷ as') = ground (arith, keep-AllPass test as')

take-AllPass :
    (test : SocketAddr → Bool) (n : ℕ) (as' : List SocketAddr)
    → AllPass test as'
    → AllPass test (take n as')
take-AllPass test zero as' h = tt
take-AllPass test (suc n) [] h = tt
take-AllPass test (suc n) (a ∷ as') h = (h.0, take-AllPass test n as' h.1)

report_dead-count :
    (addr : SocketAddr) (p : Pool)
    → IsMap p.instances
    → length p.instances ≤ length (report_dead addr p).0.instances + 1
unfolding report_dead
report_dead-count addr p m = ground (arith, length-remove addr p.instances m)

report_dead-lookup :
    (addr b : SocketAddr) (p : Pool)
    → lookup b (report_dead addr p).0.instances
      ≡ elim (addr == b) [ true ↦ none | false ↦ lookup b p.instances ]
unfolding report_dead
report_dead-lookup addr b p = ground (arith, lookup-remove addr b p.instances, ==_iff addr b)

report_dead-IsMap :
    (addr : SocketAddr) (p : Pool) → IsMap p.instances → IsMap (report_dead addr p).0.instances
unfolding report_dead
report_dead-IsMap addr p m = ground (arith, remove-IsMap addr p.instances m)

remove_each-count :
    (addrs : List SocketAddr) (n : ℕ) (p : Pool)
    → IsMap p.instances
    → length p.instances ≤ length (remove_each addrs n p).0.instances + n
unfolding remove_each
remove_each-count [] n p m = omega arith
remove_each-count (a ∷ addrs) zero p m = omega arith
remove_each-count (a ∷ addrs) (suc n) p m = elim (Option-cases (lookup a p.instances)) [
  | inl e ↦ rw (e, remove_each) (remove_each-count addrs (suc n) p m)
  | inr (inst, e) ↦
      rw (e, remove_each)
        (omega (
          arith,
          report_dead-count a p m,
          remove_each-count addrs n (report_dead a p).0 (report_dead-IsMap a p m),
        ))
]

remove_each-only :
    (test : SocketAddr → Bool) (addrs : List SocketAddr) (n : ℕ) (p : Pool) (b : SocketAddr)
    → AllPass test addrs
    → (lookup b (remove_each addrs n p).0.instances ≡ lookup b p.instances)
      ⊎ ((lookup b (remove_each addrs n p).0.instances ≡ none) × (test b ≡ true))
unfolding remove_each
remove_each-only test [] n p b h = inl refl
remove_each-only test (a ∷ addrs) zero p b h = inl refl
remove_each-only test (a ∷ addrs) (suc n) p b h = elim (Option-cases (lookup a p.instances)) [
  | inl e ↦ rw (e, remove_each) (remove_each-only test addrs (suc n) p b h.1)
  | inr (inst, e) ↦
      rw (e, remove_each)
        (ground (
          arith,
          remove_each-only test addrs n (report_dead a p).0 b h.1,
          report_dead-lookup a b p,
          ==_iff a b,
        ))
]

candidate_idle :
    (p : Pool) (now : ℕ) (addr : SocketAddr) (inst : InstanceState)
    → lookup addr p.instances ≡ some inst
    → is_candidate p now addr ≡ true
    → (inst.available ≡ p.config.concurrency) × (p.config.idle_timeout ≤ now - inst.last_used)
unfolding is_candidate is_idle
candidate_idle p now addr inst l h = ground arith

abbrev Keeps : ℕ → Pool → Pool → Type 0
Keeps now p q =
    (min p.config.min_instances (instance_count p) ≤ instance_count q)
    × ((addr : SocketAddr) (inst : InstanceState)
        → lookup addr p.instances ≡ some inst
        → (lookup addr q.instances ≡ some inst)
          ⊎ ((lookup addr q.instances ≡ none)
              × (inst.available ≡ p.config.concurrency)
              × (p.config.idle_timeout ≤ now - inst.last_used)))

idle_or_same :
    (p : Pool) (now : ℕ) (candidates : List SocketAddr) (n : ℕ)
    → AllPass (is_candidate p now) candidates
    → (addr : SocketAddr) (inst : InstanceState) → lookup addr p.instances ≡ some inst
    → let q = (remove_each candidates n p).0 in
      (lookup addr q.instances ≡ some inst)
      ⊎ ((lookup addr q.instances ≡ none)
          × (inst.available ≡ p.config.concurrency)
          × (p.config.idle_timeout ≤ now - inst.last_used))
idle_or_same p now candidates n idle addr inst l =
    elim (remove_each-only (is_candidate p now) candidates n p addr idle) [
      | inl e ↦ inl (e ∙ l)
      | inr (e, t) ↦ let (a, u) = candidate_idle p now addr inst l t in inr (e, a, u)
    ]

-- Whatever the order of the sweep, it leaves at least `min_instances` instances if there were that
-- many, and otherwise all; and an instance that it takes away has no request in flight and was last
-- used `idle_timeout` ago or longer. All others stay as they were.
pub reap_idle_once-keeps :
    (order : List SocketAddr) (now : ℕ) (p : Pool)
    → IsMap p.instances
    → let q = (reap_idle_once order now p).0 in
      (min p.config.min_instances (instance_count p) ≤ instance_count q)
      × ((addr : SocketAddr) (inst : InstanceState)
          → lookup addr p.instances ≡ some inst
          → (lookup addr q.instances ≡ some inst)
            ⊎ ((lookup addr q.instances ≡ none)
                × (inst.available ≡ p.config.concurrency)
                × (p.config.idle_timeout ≤ now - inst.last_used)))
unfolding reap_idle_once
reap_idle_once-keeps order now p m =
    let n = length p.instances - p.config.min_instances in
    let idle = keep (is_candidate p now) order in
    let candidates = take n idle in
    let all_idle =
      take-AllPass (is_candidate p now) n idle (keep-AllPass (is_candidate p now) order) in
    if_cases (λ (r : Pool × List SocketAddr). Keeps now p r.0)
      (leb (length p.instances) p.config.min_instances) (p, []) (remove_each candidates n p)
      (omega arith, λ addr inst l. inl l)
      (
        omega (arith, remove_each-count candidates n p m),
        λ addr inst l. idle_or_same p now candidates n all_idle addr inst l,
      )
