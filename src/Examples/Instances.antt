-- ===== src/Examples/Instances.antt =====
-- Pools of instances.
use open_functions.Prelude.{
  ℕ, ◌+◌, ◌-◌, ◌≤◌, ◌≡◌, ◌≢◌, ◌⊎◌, inl, inr, refl, codes, false, none, some, List, [], ◌∷◌, length,
  lookup, insert, Result, ok, arith, ℕ_Eq, Dict, ◌==◌, ==_iff, Bool-cases,
}
use open_functions.Model.{RuntimeLabel}
use open_functions.Runtime.{InstanceSpec, process}
use open_functions.Pool.{
  SocketAddr, PoolConfig, AcquiredInstance, InstanceState, AcquireError, Pool, QueuePolicy,
  instance_count, new, proceed, begin_start, finish_start, try_acquire_existing, reap_idle_once,
}
use open_functions.Pool.Slots.{in_flight}
use open_functions.Pool.System.{System, Reach, here, next, begins, finishes, acquires}
use open_functions.Pool.Limits.{start, Reach-limits, Reach-concurrency}
use open_functions.Pool.Stall.{dropped_start_stalls}
use open_functions.Pool.Reaper.{reap_idle_once-keeps}
use open_functions.Pool.Acquire.{Surroundings, acquire}
use open_functions.Pool.Acquire.Alone.{IsAlone, Listed, acquire-returns, acquire-cold_start}

abbrev pub spec : InstanceSpec
spec = record {
  function_name = codes "greeter";
  revision = 1;
  entry_point = codes "function";
  signature_type = codes "http";
  env = [];
  memory_mib = 256;
  start_timeout = 10000;
  launch = process (codes "/data/function") [] none;
  runtime_label = RuntimeLabel.rust;
}

abbrev pub config : PoolConfig
config = record {
  concurrency = 2;
  min_instances = 0;
  max_instances = 3;
  idle_timeout = 300000;
  queue_policy = QueuePolicy.wait;
  queue_max_wait = 100;
  start_timeout = 10000;
  stop_grace = 5000;
}

abbrev idle : System
idle = start spec config 4 1

abbrev idle_pool : Pool
idle_pool = record {
  config = config;
  spec_template = spec;
  instances = [];
  starting = none;
  is_draining = false;
  global_free = 4;
  fresh = 0;
}

abbrev starting_pool : Pool
starting_pool = record idle_pool { starting = some 0; global_free = 3; fresh = 1 }

abbrev is_starting : System
is_starting = record { pool = starting_pool; starters = spec ∷ []; requests = []; others = 1 }

abbrev instance_state : ℕ → InstanceState
instance_state free = record { handle = some 9001; semaphore = 1; available = free; last_used = 5 }

abbrev running : System
running = record is_starting {
  pool = record starting_pool {
    starting = none;
    fresh = 2;
    instances = (9001, instance_state 2) ∷ [];
  };
  starters = [];
}

abbrev serving : System
serving = record running {
  pool = record (running.pool) { instances = (9001, instance_state 1) ∷ [] };
  requests = record { addr = 9001; semaphore = 1 } ∷ [];
}

begin_first : begin_start (new spec config 4) ≡ (starting_pool, proceed spec)
unfolding begin_start new
begin_first = refl

starting_reached : Reach idle is_starting
starting_reached = next here (begins starting_pool spec begin_first)

running_reached : Reach idle running
unfolding finish_start insert lookup
running_reached = next starting_reached (finishes [] [] spec (ok 9001) 5 refl)

acquire_first :
    try_acquire_existing (9001 ∷ []) 5 (running.pool)
    ≡ some (serving.pool, record { addr = 9001; semaphore = 1 })
unfolding try_acquire_existing insert lookup
acquire_first = refl

serving_reached : Reach idle serving
serving_reached =
    next running_reached
      (acquires (9001 ∷ []) 5 (serving.pool) (record { addr = 9001; semaphore = 1 }) acquire_first)

Reach-limits_example :
    (length serving.starters ≤ 1)
    × (instance_count serving.pool + length serving.starters ≤ 3)
    × (serving.pool.global_free
          + instance_count serving.pool
          + length serving.starters
          + serving.others
        ≡ 5)
Reach-limits_example = Reach-limits spec config 4 1 serving serving_reached

Reach-concurrency_example :
    (1 + in_flight 1 serving.requests ≡ 2) × (in_flight 1 serving.requests ≤ 2)
unfolding lookup
Reach-concurrency_example =
    Reach-concurrency spec config 4 1 serving serving_reached 9001 (instance_state 1) refl

abbrev stalled : System
stalled = record is_starting { pool = record starting_pool { global_free = 4 }; starters = [] }

dropped_start_stalls_example :
    ((q : Pool) (next_spec : InstanceSpec) → begin_start stalled.pool ≢ (q, proceed next_spec))
    × (instance_count stalled.pool ≤ 0)
dropped_start_stalls_example =
    dropped_start_stalls spec config 4 1 is_starting starting_reached [] [] spec refl stalled here

abbrev two_idle : Pool
two_idle = record idle_pool {
  instances = (9002, record (instance_state 2) { semaphore = 3 }) ∷ (9001, instance_state 1) ∷ [];
}

reap_idle_once-keeps_example :
    let q = (reap_idle_once (9001 ∷ 9002 ∷ []) 400000 two_idle).0 in
    (0 ≤ instance_count q)
    × ((addr : SocketAddr) (inst : InstanceState)
        → lookup addr two_idle.instances ≡ some inst
        → (lookup addr q.instances ≡ some inst)
          ⊎ ((lookup addr q.instances ≡ none)
              × (inst.available ≡ 2)
              × (300000 ≤ 400000 - inst.last_used)))
unfolding lookup
reap_idle_once-keeps_example =
    reap_idle_once-keeps (9001 ∷ 9002 ∷ []) 400000 two_idle (refl, (refl, tt))

abbrev keys : Dict SocketAddr InstanceState → List SocketAddr
keys [] = []
keys ((a, _) ∷ m) = a ∷ keys m

abbrev quiet : Surroundings
quiet = record {
  order = λ k p. keys p.instances;
  spawn = λ k s. ok 9001;
  lag = λ k. 1;
  others = λ k p. p;
}

lookup-Listed :
    (m : Dict SocketAddr InstanceState) (addr : SocketAddr) (inst : InstanceState)
    → lookup addr m ≡ some inst
    → Listed addr (keys m)
unfolding lookup
lookup-Listed [] addr inst h = absurd (ground arith)
lookup-Listed ((a, i) ∷ m) addr inst h = elim (Bool-cases (addr == a)) [
  | inl e ↦ inl ((==_iff addr a).0 e)
  | inr e ↦ inr (lookup-Listed m addr inst (ground (arith)))
]

quiet-IsAlone : IsAlone quiet
quiet-IsAlone = record { untouched = λ k p. refl; complete = λ k p. lookup-Listed p.instances }

acquire-returns_example :
    (r : Pool × Result AcquireError AcquiredInstance) × (acquire quiet 102 5 idle_pool ≡ some r)
acquire-returns_example =
    acquire-returns quiet quiet-IsAlone 102 5 idle_pool refl (omega arith) (omega arith)

none_free : try_acquire_existing [] 5 idle_pool ≡ none
unfolding try_acquire_existing
none_free = refl

acquire-cold_start_example :
    (q : Pool) × (a : AcquiredInstance) × (acquire quiet 2 5 idle_pool ≡ some (q, ok a))
acquire-cold_start_example =
    acquire-cold_start quiet quiet-IsAlone 0 5 idle_pool 9001 none_free refl refl (omega arith)
      (omega arith) (omega arith) refl
