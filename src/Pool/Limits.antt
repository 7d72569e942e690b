-- ===== src/Pool/Limits.antt =====
-- The limits that hold of a pool in every state that its tasks can reach.
use open_functions.Prelude.{
  ℕ, ◌+◌, ◌≤◌, ◌≡◌, refl, List, [], ◌∷◌, Option, some, length, lookup, arith, ℕ_Eq,
}
use open_functions.Runtime.{InstanceSpec}
use open_functions.Pool.{SocketAddr, InstanceState, PoolConfig, instance_count, new}
use open_functions.Pool.Slots.{in_flight, Slots-nil}
use open_functions.Pool.System.{System, Reach, here, next}
use open_functions.Pool.Invariant.{SingleFlight, Inv, Step-Inv}

pub new-Inv :
    (spec : InstanceSpec) (c : PoolConfig) (free others : ℕ)
    → Inv c
        (free + others)
        (record { pool = new spec c free; starters = []; requests = []; others = others })
unfolding new
new-Inv spec c free others = record {
  configured = refl;
  single_flight = tt;
  bounded = omega arith;
  permits = omega arith;
  slots = Slots-nil c.concurrency 0;
}

-- A new pool with no task, beside which other pools hold `others` permits.
abbrev pub start : InstanceSpec → PoolConfig → ℕ → ℕ → System
start spec c free others = record {
  pool = new spec c free;
  starters = [];
  requests = [];
  others = others;
}

pub Reach-Inv :
    {c : PoolConfig} {total : ℕ} {s t : System} → Inv c total s → Reach s t → Inv c total t
Reach-Inv v here = v
Reach-Inv v (next r st) = Step-Inv (Reach-Inv v r) st

-- From a new pool, whatever the tasks do, in whatever order: at most one task starts an instance;
-- the instances, with the one being started, are at most `max_instances`; the free global permits,
-- the instances, the start and the permits of other pools add up to the process-wide limit.
pub Reach-limits :
    (spec : InstanceSpec) (c : PoolConfig) (free others : ℕ) (t : System)
    → Reach (start spec c free others) t
    → (length t.starters ≤ 1)
      × (instance_count t.pool + length t.starters ≤ c.max_instances)
      × (t.pool.global_free + instance_count t.pool + length t.starters + t.others ≡ free + others)
Reach-limits spec c free others t r =
    let v = Reach-Inv (new-Inv spec c free others) r in
    (at_most_one t.starters t.pool.starting v.single_flight, v.bounded, v.permits)
  where
    at_most_one : (xs : List InstanceSpec) (st : Option ℕ) → SingleFlight xs st → length xs ≤ 1
    at_most_one [] st h = omega arith
    at_most_one (_ ∷ []) st h = omega arith
    at_most_one (_ ∷ _ ∷ _) st h = absurd h

-- From a new pool, whatever the tasks do, in whatever order, the requests in use on a tracked
-- instance and its free permits add up to `concurrency`: it never serves more than that many.
pub Reach-concurrency :
    (spec : InstanceSpec) (c : PoolConfig) (free others : ℕ) (t : System)
    → Reach (start spec c free others) t
    → (addr : SocketAddr) (inst : InstanceState) → lookup addr t.pool.instances ≡ some inst
    → (inst.available + in_flight inst.semaphore t.requests ≡ c.concurrency)
      × (in_flight inst.semaphore t.requests ≤ c.concurrency)
Reach-concurrency spec c free others t r addr inst h =
    let e = (Reach-Inv (new-Inv spec c free others) r).slots.conserved addr inst h in
    (e, omega (arith, e))
