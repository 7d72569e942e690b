-- ===== src/Pool/Acquire.antt =====
-- The loops `acquire` and `warm_to` of pool/instance.rs: rounds of calls of the pool's methods, with
-- what happens in between as the arguments of `Surroundings`. `none` means that the fuel ran out.
pub mod Alone
use open_functions.Prelude.{
  ℕ, zero, suc, ◌+◌, ◌-◌, ◌≤◌, ◌<◌, min, Option, none, some, List, Result, ok, err, leb,
  if◌then◌else◌,
}
use open_functions.Runtime.{InstanceSpec, DriverError}
use open_functions.Pool.{
  SocketAddr, PoolConfig, AcquiredInstance, AcquireError, Pool, instance_count,
  try_acquire_existing, BeginStart, proceed, wait_for_other, at_capacity, begin_start, finish_start,
  QueuePolicy, rejected, queue_timeout,
}

-- In round `k`: the order of the keys, what `driver.spawn` returns, how long the round's wait takes
-- beyond what the code asks for, and what other tasks do to the pool during it.
pub record Surroundings : Type 0 where
  pub order : ℕ → Pool → List SocketAddr
  pub spawn : ℕ → InstanceSpec → Result DriverError SocketAddr
  pub lag : ℕ → ℕ
  pub others : ℕ → Pool → Pool

abbrev pub Acquired : Type 0
Acquired = Option (Pool × Result AcquireError AcquiredInstance)

-- A spawn took place in round `k`.
on_spawned : (ℕ → Pool → Acquired) → ℕ → Pool × Result DriverError (Unit {0}) → Acquired
on_spawned continue now (p, ok _) = continue now p
on_spawned continue now (p, err e) = some (p, err (AcquireError.spawn e))

on_capacity : (ℕ → Pool → Acquired) → QueuePolicy → ℕ → ℕ → Pool → Acquired
on_capacity continue QueuePolicy.reject elapsed after_sleep p = some (p, err rejected)
on_capacity continue QueuePolicy.wait elapsed after_sleep p =
    let again = continue after_sleep p in
    if leb p.config.queue_max_wait elapsed
    then some (p, err (queue_timeout p.config.queue_max_wait))
    else again

-- One round that found no free slot; `continue` is the next round.
unfoldable pub on_begin :
    Surroundings → ℕ → ℕ → ℕ → (ℕ → Pool → Acquired) → Pool × BeginStart → Acquired
unfolding on_spawned on_capacity
on_begin w k wait_start now continue (p, proceed spec) =
    let later = now + w.lag k in
    on_spawned continue later (finish_start (w.spawn k spec) later (w.others k p))
on_begin w k wait_start now continue (p, wait_for_other notify) =
    continue (now + min p.config.start_timeout (w.lag k)) (w.others k p)
on_begin w k wait_start now continue (p, BeginStart.draining) = some (p, err AcquireError.draining)
on_begin w k wait_start now continue (p, at_capacity) =
    let elapsed = now - wait_start in
    let remaining = p.config.queue_max_wait - elapsed in
    on_capacity (λ later q. continue later (w.others k q)) p.config.queue_policy elapsed
      (now + min remaining 20 + w.lag k) p

unfoldable pub acquire_from : Surroundings → (fuel : ℕ) → (k wait_start now : ℕ) → Pool → Acquired
acquire_from w zero k wait_start now p = none
acquire_from w (suc fuel) k wait_start now p =
    let continue : ℕ → Pool → Acquired =
      λ later q. acquire_from w fuel (suc k) wait_start later q in
    elim (try_acquire_existing (w.order k p) now p) [
      | some (q, a) ↦ some (q, ok a)
      | none ↦ on_begin w k wait_start now continue (begin_start p)
    ]

unfoldable pub acquire : Surroundings → (fuel now : ℕ) → Pool → Acquired
unfolding acquire_from
acquire w fuel now p = acquire_from w fuel 0 now now p

abbrev pub Warmed : Type 0
Warmed = Option (Pool × Result DriverError (Unit {0}))

on_warm_spawned : (Pool → Warmed) → Pool × Result DriverError (Unit {0}) → Warmed
on_warm_spawned continue (p, ok _) = continue p
on_warm_spawned continue (p, err e) = some (p, err e)

on_warm_begin : Surroundings → ℕ → ℕ → (Pool → Warmed) → Pool × BeginStart → Warmed
unfolding on_warm_spawned
on_warm_begin w k now continue (p, proceed spec) =
    on_warm_spawned continue (finish_start (w.spawn k spec) now (w.others k p))
on_warm_begin w k now continue (p, wait_for_other notify) = continue (w.others k p)
on_warm_begin w k now continue (p, at_capacity) = some (p, ok tt)
on_warm_begin w k now continue (p, BeginStart.draining) = some (p, ok tt)

-- `now k` is the time at which an instance that starts in round `k` is registered.
unfoldable pub warm_to : Surroundings → (now : ℕ → ℕ) → (fuel k target : ℕ) → Pool → Warmed
unfolding on_warm_begin
warm_to w now zero k target p = none
warm_to w now (suc fuel) k target p =
    let continue : Pool → Warmed = λ q. warm_to w now fuel (suc k) target q in
    let started = on_warm_begin w k (now k) continue (begin_start p) in
    if leb target (instance_count p) then some (p, ok tt) else started
