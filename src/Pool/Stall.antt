-- ===== src/Pool/Stall.antt =====
-- What becomes of a pool when the task that starts an instance is dropped.
use open_functions.Prelude.{
  ℕ, ◌+◌, ◌≤◌, ◌≡◌, ◌≢◌, sym, ◌∙◌, subst, List, [], ◌∷◌, ◌++◌, Option, is_some, true, arith,
  length-map_values, ℕ_Eq,
}
use open_functions.Runtime.{InstanceSpec}
use open_functions.Pool.{
  AcquiredInstance, Pool, PoolConfig, instance_count, proceed, begin_start, set_spec_template,
  begin_drain, release, give_back,
}
use open_functions.Pool.System.{
  System, Step, acquires, begins, finishes, is_dropped, releases, reports, reaps, swaps, drains,
  stops, other_takes, other_gives, Reach, here, next,
}
use open_functions.Pool.Methods.{
  report_dead-Shrinks, reap-Shrinks, stop_all-Shrinks, acquire_keeps, begin_start_proceeds,
}
use open_functions.Pool.Invariant.{Inv, SingleFlight, Step-Inv, one_starter}
use open_functions.Pool.Limits.{start, Reach-Inv, new-Inv}

-- The pool waits for a start that no task makes.
pub record IsStalled (s : System) : Type 0 where
  pub nobody : s.starters ≡ []
  pub awaited : is_some s.pool.starting ≡ true

stalled_begin :
    (p q : Pool) (spec : InstanceSpec)
    → is_some p.starting ≡ true
    → begin_start p ≢ (q, proceed spec)
stalled_begin p q spec a h = ground (arith, begin_start_proceeds p q spec h)

no_cons : {A : Type 0} (pre post : List A) (a : A) → ◌≢◌ {A = List A} [] (pre ++ a ∷ post)
no_cons [] post a h = cc
no_cons (x ∷ pre) post a h = cc

-- A step from a stalled state: still stalled, and with no more instances.
record Stays (s t : System) : Type 0 where
  stalled : IsStalled t
  fewer : instance_count t.pool ≤ instance_count s.pool

stays :
    {s t : System}
    → t.starters ≡ []
    → is_some t.pool.starting ≡ true
    → instance_count t.pool ≤ instance_count s.pool
    → Stays s t
stays n a f = record { stalled = record { nobody = n; awaited = a }; fewer = f }

released :
    (p : Pool) (a : AcquiredInstance)
    → is_some p.starting ≡ true
    → is_some (release a p).starting ≡ true
unfolding release
released p a h = h

release-count : (p : Pool) (a : AcquiredInstance) → instance_count (release a p) ≡ instance_count p
unfolding release
release-count p a = length-map_values (give_back a.semaphore) p.instances

Step-Stays :
    {c : PoolConfig} {total : ℕ} {s t : System} → Inv c total s → IsStalled s → Step s t → Stays s t
Step-Stays {s = s} v h (acquires order now p a e) =
    let (n, st) = acquire_keeps order now s.pool p a e in
    stays h.nobody (rw st h.awaited) (omega (arith, n))
Step-Stays {s = s} v h (begins p spec e) = absurd (stalled_begin s.pool p spec h.awaited e)
Step-Stays v h (finishes pre post spec result now e) =
    absurd (no_cons pre post spec (sym h.nobody ∙ e))
Step-Stays v h (is_dropped pre post spec e) = absurd (no_cons pre post spec (sym h.nobody ∙ e))
Step-Stays {s = s} v h (releases pre post a e) =
    stays h.nobody (released s.pool a h.awaited) (omega (arith, release-count s.pool a))
Step-Stays {s = s} v h (reports addr) =
    let k = report_dead-Shrinks s.pool v.slots addr in
    stays h.nobody (rw k.starting h.awaited) k.fewer
Step-Stays {s = s} v h (reaps order now) =
    let k = reap-Shrinks order now s.pool v.slots in
    stays h.nobody (rw k.starting h.awaited) k.fewer
Step-Stays v h (swaps spec) = unfold set_spec_template in stays h.nobody h.awaited (omega arith)
Step-Stays v h drains = unfold begin_drain in stays h.nobody h.awaited (omega arith)
Step-Stays {s = s} v h stops =
    let k = stop_all-Shrinks s.pool v.slots in stays h.nobody (rw k.starting h.awaited) k.fewer
Step-Stays v h (other_takes n e) = stays h.nobody h.awaited (omega arith)
Step-Stays v h (other_gives n e) = stays h.nobody h.awaited (omega arith)

Reach-Stays :
    {c : PoolConfig} {total : ℕ} {s t : System}
    → Inv c total s
    → IsStalled s
    → Reach s t
    → Stays s t
Reach-Stays v h here = stays h.nobody h.awaited (omega arith)
Reach-Stays v h (next r st) =
    let k = Reach-Stays v h r in
    let k' = Step-Stays (Reach-Inv v r) k.stalled st in
    record { stalled = k'.stalled; fewer = omega (arith, k.fewer, k'.fewer) }

starter_awaited :
    (starting : Option ℕ) (pre post : List InstanceSpec) (spec : InstanceSpec)
    → SingleFlight (pre ++ spec ∷ post) starting
    → is_some starting ≡ true
starter_awaited starting [] [] spec v = v
starter_awaited starting [] (_ ∷ _) spec v = absurd v
starter_awaited starting (_ ∷ []) post spec v = absurd v
starter_awaited starting (_ ∷ _ ∷ _) post spec v = absurd v

-- When a task is dropped while it starts an instance, no task ever starts one again, whatever the
-- tasks do and in whatever order: `begin_start` proceeds in no later state, so the number of
-- instances never grows again, and a pool that had none stays without.
pub dropped_start_stalls :
    (spec : InstanceSpec) (c : PoolConfig) (free others : ℕ) (s : System)
    → Reach (start spec c free others) s
    → (pre post : List InstanceSpec) (dropped : InstanceSpec) → s.starters ≡ pre ++ dropped ∷ post
    → (t : System)
    → Reach
        (record s {
          pool = record (s.pool) { global_free = s.pool.global_free + 1 };
          starters = pre ++ post;
        })
        t
    → ((q : Pool) (next_spec : InstanceSpec) → begin_start t.pool ≢ (q, proceed next_spec))
      × (instance_count t.pool ≤ instance_count s.pool)
dropped_start_stalls spec c free others s r pre post dropped e t r' =
    let v = Reach-Inv (new-Inv spec c free others) r in
    let h : IsStalled _ = record {
      nobody =
          one_starter s.pool.starting pre post dropped
            (subst (λ (xs : List InstanceSpec). SingleFlight xs s.pool.starting) e v.single_flight);
      awaited =
          starter_awaited s.pool.starting pre post dropped
            (subst (λ (xs : List InstanceSpec). SingleFlight xs s.pool.starting) e v.single_flight);
    } in
    let k = Reach-Stays (Step-Inv v (is_dropped pre post dropped e)) h r' in
    (λ q next_spec. stalled_begin t.pool q next_spec k.stalled.awaited, k.fewer)
