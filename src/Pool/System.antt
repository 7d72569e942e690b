-- ===== src/Pool/System.antt =====
-- One pool among the tasks that use it: the calls of the pool's methods as steps, in any order.
-- A task may be dropped while it waits for `driver.spawn`, as the handler of a request is when the
-- client goes away; its global permit is dropped then, and nothing else happens.
use open_functions.Prelude.{ℕ, suc, ◌+◌, ◌≡◌, List, ◌∷◌, ◌++◌, some, Result}
use open_functions.Runtime.{InstanceSpec, DriverError}
use open_functions.Pool.{
  SocketAddr, AcquiredInstance, Pool, proceed, set_spec_template, begin_drain, stop_all,
  report_dead, reap_idle_once, try_acquire_existing, release, begin_start, finish_start,
}

-- `starters` are the specs of the tasks between `begin_start` and `finish_start`, each with a
-- permit; `requests` are the acquired instances in use; `others` is the number of global permits
-- that other pools hold.
pub record System : Type 0 where
  pub pool : Pool
  pub starters : List InstanceSpec
  pub requests : List AcquiredInstance
  pub others : ℕ

pub data Step (s : System) : System → Type 0 where
  acquires :
      (order : List SocketAddr) (now : ℕ) (p : Pool) (a : AcquiredInstance)
      → try_acquire_existing order now s.pool ≡ some (p, a)
      → Step s (record s { pool = p; requests = a ∷ s.requests })
  begins :
      (p : Pool) (spec : InstanceSpec)
      → begin_start s.pool ≡ (p, proceed spec)
      → Step s (record s { pool = p; starters = spec ∷ s.starters })
  finishes :
      (pre post : List InstanceSpec) (spec : InstanceSpec) (result : Result DriverError SocketAddr)
      (now : ℕ)
      → s.starters ≡ pre ++ spec ∷ post
      → Step s (record s { pool = (finish_start result now s.pool).0; starters = pre ++ post })
  is_dropped :
      (pre post : List InstanceSpec) (spec : InstanceSpec)
      → s.starters ≡ pre ++ spec ∷ post
      → Step s (record s {
        pool = record (s.pool) { global_free = s.pool.global_free + 1 };
        starters = pre ++ post;
      })
  releases :
      (pre post : List AcquiredInstance) (a : AcquiredInstance)
      → s.requests ≡ pre ++ a ∷ post
      → Step s (record s { pool = release a s.pool; requests = pre ++ post })
  reports : (addr : SocketAddr) → Step s (record s { pool = (report_dead addr s.pool).0 })
  reaps :
      (order : List SocketAddr) (now : ℕ)
      → Step s (record s { pool = (reap_idle_once order now s.pool).0 })
  swaps : (spec : InstanceSpec) → Step s (record s { pool = set_spec_template spec s.pool })
  drains : Step s (record s { pool = begin_drain s.pool })
  stops : Step s (record s { pool = (stop_all s.pool).0 })
  other_takes :
      (n : ℕ)
      → s.pool.global_free ≡ suc n
      → Step s (record s { pool = record (s.pool) { global_free = n }; others = s.others + 1 })
  other_gives :
      (n : ℕ)
      → s.others ≡ suc n
      → Step s
          (record s { pool = record (s.pool) { global_free = s.pool.global_free + 1 }; others = n })

pub data Reach (s : System) : System → Type 0 where
  here : Reach s s
  next : {t u : System} → Reach s t → Step t u → Reach s u
