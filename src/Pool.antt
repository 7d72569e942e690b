-- ===== src/Pool.antt =====
-- crates/open-functions-core/src/pool/instance.rs: the running instances of one function.
-- Each method that takes the lock is one function on the state; `acquire` and `warm_to`, which let
-- other tasks in between, are in Pool/Acquire. Times and durations are milliseconds. A socket
-- address is a number. An `Arc` made by a call has a number from `fresh`, which tells two semaphores
-- of one address apart. `global_free` is the number of free permits of the process-wide semaphore.
-- The order in which a `HashMap` yields its keys is the argument `order`.
pub mod Slots
pub mod System
pub mod Methods
pub mod Invariant
pub mod Limits
pub mod Stall
pub mod Reaper
pub mod Acquire
use open_functions.Prelude.{
  ℕ, zero, suc, ◌+◌, ◌-◌, Option, none, some, List, [], ◌∷◌, Bool, true, false, ltb, leb, ◌==◌,
  ◌&&◌, if◌then◌else◌, length, take, keep, Dict, lookup, insert, remove, map_values, ℕ_Eq, Result,
  ok, err, is_some,
}
use open_functions.Runtime.{InstanceSpec, DriverError}

abbrev pub SocketAddr : Type 0
SocketAddr = ℕ

pub data QueuePolicy : Type 0 where
  wait reject : QueuePolicy

pub record PoolConfig : Type 0 where
  pub concurrency : ℕ
  pub min_instances : ℕ
  pub max_instances : ℕ
  pub idle_timeout : ℕ
  pub queue_policy : QueuePolicy
  pub queue_max_wait : ℕ
  pub start_timeout : ℕ
  pub stop_grace : ℕ

pub data AcquireError : Type 0 where
  spawn : DriverError → AcquireError
  queue_timeout : ℕ → AcquireError
  rejected draining : AcquireError

pub record AcquiredInstance : Type 0 where
  pub addr : SocketAddr
  pub semaphore : ℕ

-- `available` is the number of free permits of `semaphore`; the handle is named by its address.
pub record InstanceState : Type 0 where
  pub handle : Option SocketAddr
  pub semaphore : ℕ
  pub available : ℕ
  pub last_used : ℕ

pub record Pool : Type 0 where
  pub config : PoolConfig
  pub spec_template : InstanceSpec
  pub instances : Dict SocketAddr InstanceState
  pub starting : Option ℕ
  pub is_draining : Bool
  pub global_free : ℕ
  pub fresh : ℕ

unfoldable pub new : InstanceSpec → PoolConfig → ℕ → Pool
new spec_template config global_free = record {
  config = config;
  spec_template = spec_template;
  instances = [];
  starting = none;
  is_draining = false;
  global_free = global_free;
  fresh = 0;
}

unfoldable pub set_spec_template : InstanceSpec → Pool → Pool
set_spec_template spec p = record p { spec_template = spec }

unfoldable pub begin_drain : Pool → Pool
begin_drain p = record p { is_draining = true }

abbrev pub instance_count : Pool → ℕ
instance_count p = length p.instances

-- The handles that `filter_map(|(_, inst)| inst.handle.take())` collects.
unfoldable pub handles : Dict SocketAddr InstanceState → List SocketAddr
handles [] = []
handles ((_, inst) ∷ m) = elim inst.handle [ none ↦ handles m | some h ↦ h ∷ handles m ]

-- With the handles to stop. Each drained `InstanceState` is dropped, and its global permit with it.
unfoldable pub stop_all : Pool → Pool × List SocketAddr
stop_all p = (
  record p { instances = []; global_free = p.global_free + length p.instances },
  handles p.instances,
)

-- With the handle to wait for.
unfoldable pub report_dead : SocketAddr → Pool → Pool × Option SocketAddr
report_dead addr p = elim (lookup addr p.instances) [
  | none ↦ (p, none)
  | some inst ↦ (
    record p { instances = remove addr p.instances; global_free = p.global_free + 1 },
    inst.handle,
  )
]

-- All permits are free, and the last use lies `idle_timeout` back.
unfoldable pub is_idle : PoolConfig → ℕ → InstanceState → Bool
is_idle c now inst = inst.available == c.concurrency && leb c.idle_timeout (now - inst.last_used)

is_candidate : Pool → ℕ → SocketAddr → Bool
is_candidate p now addr = elim (lookup addr p.instances) [
  | none ↦ false
  | some inst ↦ is_idle p.config now inst
]

-- The loop over the candidates, with the instances still to remove and the handles taken so far.
unfoldable pub remove_each : List SocketAddr → ℕ → Pool → Pool × List SocketAddr
unfolding report_dead
remove_each [] removable p = (p, [])
remove_each (addr ∷ addrs) zero p = (p, [])
remove_each (addr ∷ addrs) (suc removable) p = elim (lookup addr p.instances) [
  | none ↦ remove_each addrs (suc removable) p
  | some inst ↦
      let (p', stopped) = remove_each addrs removable (report_dead addr p).0 in
      (p', elim inst.handle [ none ↦ stopped | some h ↦ h ∷ stopped ])
]

-- With the handles to stop.
unfoldable pub reap_idle_once : List SocketAddr → ℕ → Pool → Pool × List SocketAddr
unfolding is_idle is_candidate remove_each
reap_idle_once order now p =
    let running = length p.instances in
    let removable = running - p.config.min_instances in
    let candidates = take removable (keep (is_candidate p now) order) in
    if leb running p.config.min_instances then (p, []) else remove_each candidates removable p

-- `try_acquire_owned` on the semaphore of an instance that is tracked.
use_slot : SocketAddr → ℕ → InstanceState → Pool → Pool
use_slot addr now inst p = record p {
  instances =
      insert addr (record inst { available = inst.available - 1; last_used = now }) p.instances;
}

unfoldable pub try_acquire_existing : List SocketAddr → ℕ → Pool → Option (Pool × AcquiredInstance)
unfolding use_slot
try_acquire_existing [] now p = none
try_acquire_existing (addr ∷ addrs) now p =
    let rest = try_acquire_existing addrs now p in
    elim (lookup addr p.instances) [
      | none ↦ rest
      | some inst ↦
          if ltb 0 inst.available
          then some (use_slot addr now inst p, record { addr = addr; semaphore = inst.semaphore })
          else rest
    ]

-- `Drop` of an `AcquiredInstance`: the permit goes back to its semaphore, which counts only while
-- an instance holds that semaphore.
unfoldable pub give_back : ℕ → InstanceState → InstanceState
give_back semaphore inst =
    if inst.semaphore == semaphore then record inst { available = inst.available + 1 } else inst

unfoldable pub release : AcquiredInstance → Pool → Pool
unfolding give_back
release a p = record p { instances = map_values (give_back a.semaphore) p.instances }

-- `proceed` carries one global permit.
pub data BeginStart : Type 0 where
  proceed : InstanceSpec → BeginStart
  wait_for_other : ℕ → BeginStart
  at_capacity draining : BeginStart

-- The tests after `draining` and `starting`.
begin_fresh : Pool → Pool × BeginStart
begin_fresh p =
    if leb p.config.max_instances (length p.instances)
    then (p, at_capacity)
    else if p.global_free == 0
    then (p, at_capacity)
    else (
      record p { starting = some p.fresh; global_free = p.global_free - 1; fresh = p.fresh + 1 },
      proceed p.spec_template,
    )

unfoldable pub begin_start : Pool → Pool × BeginStart
unfolding begin_fresh
begin_start p =
    if p.is_draining
    then (p, BeginStart.draining)
    else elim p.starting [ some notify ↦ (p, wait_for_other notify) | none ↦ begin_fresh p ]

-- `result` is what `driver.spawn` returned, with the permit of `begin_start` held. An instance that
-- the insert replaces is dropped, and its global permit with it.
unfoldable pub finish_start :
    Result DriverError SocketAddr → ℕ → Pool → Pool × Result DriverError (Unit {0})
finish_start (ok addr) now p = (
  record p {
    instances =
        insert addr
          (record {
            handle = some addr;
            semaphore = p.fresh;
            available = p.config.concurrency;
            last_used = now;
          })
          p.instances;
    starting = none;
    global_free = p.global_free + (if is_some (lookup addr p.instances) then 1 else 0);
    fresh = p.fresh + 1;
  },
  ok tt,
)
finish_start (err e) now p = (record p { starting = none; global_free = p.global_free + 1 }, err e)
