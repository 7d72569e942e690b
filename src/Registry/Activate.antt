-- ===== src/Registry/Activate.antt =====
-- registry/service.rs: `activate_revision`, `prune_old_artifacts`, and the bindings of a trigger.
pub mod Prune
pub mod Ready
use open_functions.Prelude.{
  ℕ, zero, suc, ◌+◌, ◌-◌, min, Bytes, codes, Bool, true, false, Option, none, some, is_some, ◌++◌,
  ◌∷◌, [], List, join, to_string, Dict, lookup, insert, remove, list_Eq, ℕ_Eq, pair_Eq, Result, ok,
  err, ◌||◌, not, if◌then◌else◌, ltb, ◌==◌, map_err,
}
use open_functions.Prelude.States.{Op, ◌>>=◌, ◌>>◌, return, modify, lift}
use open_functions.Model.{Function, FunctionState, Revision, TriggerBinding}
use open_functions.Store.{
  MemoryStore, StoreError, get_function, put_function, get_revision, put_revision,
}
use open_functions.Pool.{Pool, PoolConfig, new, set_spec_template}
use open_functions.Runtime.{InstanceSpec}
use open_functions.PubSub.Reconcile.{DesiredBinding, try_bind, try_unbind}
use open_functions.PubSub.Client.{PubSubError}
use open_functions.Registry.{
  Outside, World, Config, Entry, DriverKind, Registering, RegisterError, store, PubsubBindingConfig,
  Removal, removed, missing, not_removed,
}
use open_functions.Registry.Launches.{spec_of, pool_config_of}

-- `trim_end_matches('/')`.
unfoldable pub trim_slashes : Bytes → Bytes
trim_slashes [] = []
trim_slashes (b ∷ bs) = trim_before b (trim_slashes bs)
  where
    trim_before : ℕ → Bytes → Bytes
    trim_before b [] = if b == b'/' then [] else b ∷ []
    trim_before b (c ∷ cs) = b ∷ c ∷ cs

unfoldable pub desired_binding : PubsubBindingConfig → Bytes → Bytes → ℕ → DesiredBinding
desired_binding pubsub function_name topic timeout_secs = record {
  function_name = function_name;
  project = pubsub.project;
  topic = topic;
  push_endpoint = trim_slashes pubsub.push_base_url ++ codes "/_cf/push/" ++ function_name;
  ack_deadline_seconds = min pubsub.ack_deadline_max_secs (timeout_secs + 10);
}

module _ (o : Outside) where
  unfoldable pub reading : {E : Type 0} → Op (World o) E ℕ
  reading w = let (outer, t) = o.now w.outer in (record w { outer = outer }, ok t)

  unfoldable pub read_function : Bytes → Registering o (Option Function)
  read_function name w = (w, map_err store (get_function name w.store))

  unfoldable pub write : (MemoryStore → Result StoreError MemoryStore) → Registering o (Unit {0})
  write f w = elim (f w.store) [
    | ok s ↦ (record w { store = s }, ok tt)
    | err e ↦ (w, err (store e))
  ]

  -- The clock is read first: `try_bind` reads it only where the server does not answer as it should.
  unfoldable pub bind_pubsub_trigger : Config → Bytes → Bytes → ℕ → World o → World o
  bind_pubsub_trigger c function_name topic timeout_secs w = elim c.pubsub [
    | none ↦ w
    | some pubsub ↦
        let (outer, now) = o.now w.outer in
        let after =
          try_bind o.broker pubsub.reconciler
            (desired_binding pubsub function_name topic timeout_secs) now (w.broker, w.store) in
        record w { outer = outer; broker = after.0.0; store = after.0.1 }
  ]

  unfoldable pub unbind_pubsub_trigger : Config → (PubSubError → Bytes) → Bytes → World o → World o
  unbind_pubsub_trigger c show function_name w = elim c.pubsub [
    | none ↦ w
    | some pubsub ↦
        let (outer, now) = o.now w.outer in
        let after =
          try_unbind o.broker pubsub.reconciler show function_name now (w.broker, w.store) in
        record w { outer = outer; broker = after.0.0; store = after.0.1 }
  ]

  -- A revision whose directory is gone.
  abbrev pub pruned : Revision → Revision
  pruned r = record r { artifact_pruned = true; artifact_path = none }

  after_removal : Revision → World o → Removal → World o
  after_removal revision w not_removed = w
  after_removal revision w removed = (write (put_revision (pruned revision)) w).0
  after_removal revision w missing = (write (put_revision (pruned revision)) w).0

  prune_revision : Config → Bytes → ℕ → Revision → World o → World o
  prune_revision c name number revision w =
      let dir = join (join c.artifacts_dir name) (to_string number) in
      let (outer, answer) = o.remove_dir_all dir w.outer in
      let after = after_removal revision (record w { outer = outer }) answer in
      if revision.artifact_pruned || not (is_some revision.build_mode) then w else after

  -- One round of the loop: an error is logged, and the loop goes on.
  unfoldable pub prune_number : Config → Bytes → ℕ → World o → World o
  unfolding prune_revision after_removal
  prune_number c name number w = elim (get_revision name number w.store) [
    | err e ↦ w
    | ok none ↦ w
    | ok (some revision) ↦ prune_revision c name number revision w
  ]

  -- The rounds for the numbers from 1 to `last`.
  unfoldable pub prune_to : Config → Bytes → (last : ℕ) → World o → World o
  prune_to c name zero w = w
  prune_to c name (suc last) w = prune_number c name (suc last) (prune_to c name last w)

  unfoldable pub prune_old_artifacts : Config → Bytes → (current : ℕ) → World o → World o
  prune_old_artifacts c name current w =
      let keep_from = current - 1 in if ltb current 2 then w else prune_to c name (keep_from - 1) w

  -- `set_spec_template` on the pool that is there, or a new pool with its reaper.
  unfoldable pub install : Bytes → DriverKind × InstanceSpec → PoolConfig → World o → World o
  install name (driver, spec) pool_config w = elim (lookup name w.pools) [
    | some existing ↦ record w {
      pools =
          insert name (record existing { pool = set_spec_template spec (existing.pool) }) w.pools;
    }
    | none ↦ record w {
      pools =
          insert name (record { driver = driver; pool = new spec pool_config w.global_free })
            w.pools;
      reapers = insert name tt w.reapers;
    }
  ]

  -- The switch of `current_revision`.
  unfoldable pub mark_ready : ℕ → Option Function → Registering o (Unit {0})
  mark_ready number none = return tt
  mark_ready number (some current) = reading >>= λ t. write (
      put_function (record current {
        current_revision = some number;
        state = FunctionState.ready;
        last_error = none;
        updated_at = t;
      }))

  unfoldable pub activate_revision : Config → Bytes → Revision → Registering o (Unit {0})
  activate_revision c name revision = do
    modify (install name (spec_of c name revision) (pool_config_of revision.snapshot))
    current ← read_function name
    mark_ready revision.number current
    modify (prune_old_artifacts c name revision.number)
