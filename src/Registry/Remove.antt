-- ===== src/Registry/Remove.antt =====
-- registry/service.rs: `delete`, `stop_instances`, and the queries on the store.
pub mod Gone
pub mod Keeps
use open_functions.Prelude.{
  ℕ, zero, suc, Bytes, codes, Bool, true, false, Option, none, some, ◌∷◌, [], ◌++◌, List, keep,
  join, Dict, lookup, insert, remove, list_Eq, ℕ_Eq, ◌=?◌, Result, ok, err, map_err,
}
use open_functions.Prelude.States.{Op, ◌>>=◌, ◌>>◌, return, modify, lift}
use open_functions.Model.{Function, FunctionState, Trigger, Revision, Build}
use open_functions.Store.{
  MemoryStore, StoreError, get_function, put_function, delete_function, get_revision, list_builds,
}
use open_functions.Pool.{SocketAddr, Pool, begin_drain, stop_all}
use open_functions.Logs.{forget}
use open_functions.PubSub.Client.{PubSubError}
use open_functions.Registry.{Outside, World, Config, Entry, DeleteError, not_found, store}
use open_functions.Registry.Activate.{reading, unbind_pubsub_trigger}

module _ (o : Outside) where
  abbrev pub Deleting : Type 0 → Type 0
  Deleting = Op (World o) DeleteError

  store_of : World o → Result StoreError MemoryStore → World o × Result DeleteError (Unit {0})
  store_of w (ok s) = (record w { store = s }, ok tt)
  store_of w (err e) = (w, err (store e))

  -- `put_function` or `delete_function`.
  unfoldable pub change : (MemoryStore → Result StoreError MemoryStore) → Deleting (Unit {0})
  unfolding store_of
  change f w = store_of w (f w.store)

  unfoldable pub read : Bytes → Deleting (Option Function)
  read name w = (w, map_err DeleteError.store (get_function name w.store))

  -- The pool with the world's free permits, on which a method ran; its permits go back.
  unfoldable pub stop_entry : Entry → World o → Entry × World o × List SocketAddr
  stop_entry entry w =
      let (pool, stopped) = stop_all (record (entry.pool) { global_free = w.global_free }) in
      (record entry { pool = pool }, record w { global_free = pool.global_free }, stopped)

  -- The pool is dropped after its instances are stopped, since it is no longer in `pools`.
  unfoldable pub take_pool : Bytes → World o → World o
  unfolding stop_entry
  take_pool name w = elim (lookup name w.pools) [
    | none ↦ w
    | some entry ↦
        (stop_entry (record entry { pool = begin_drain (entry.pool) })
          (record w { pools = remove name w.pools })).1
  ]

  unfoldable pub unbind_if : Config → (PubSubError → Bytes) → Bytes → Trigger → World o → World o
  unbind_if c show name Trigger.http w = w
  unbind_if c show name (Trigger.pubsub topic) w = unbind_pubsub_trigger o c show name w

  -- The answer of `remove_dir_all` is not looked at.
  remove_dir : Bytes → World o → World o
  remove_dir dir w = record w { outer = (o.remove_dir_all dir w.outer).0 }

  delete_found : Config → (PubSubError → Bytes) → Bytes → Option Function → Deleting (Unit {0})
  delete_found c show name none = lift (err (not_found name))
  delete_found c show name (some existing) = do
    t ← reading o
    change (put_function (record existing { state = FunctionState.deleting; updated_at = t }))
    modify (λ w. record w { reapers = remove name w.reapers })
    modify (take_pool name)
    modify (unbind_if c show name existing.trigger)
    modify (λ w. record w { logs = forget name w.logs })
    change (delete_function name)
    modify (remove_dir (join c.artifacts_dir name))
    modify (remove_dir (join c.build_dir name))

  unfoldable pub delete : Config → (PubSubError → Bytes) → Bytes → Deleting (Unit {0})
  unfolding delete_found unbind_if remove_dir
  delete c show name = do existing ← read name; delete_found c show name existing

  stop_pool : Bytes → Option Entry → World o → World o
  stop_pool name none w = w
  stop_pool name (some entry) w =
      let (stopped, w', handles) = stop_entry entry w in
      record w' { pools = insert name stopped w'.pools }

  stop_found : Bytes → Option Function → Deleting (Unit {0})
  stop_found name none w = (w, err (not_found name))
  stop_found name (some f) w = (stop_pool name (lookup name w.pools) w, ok tt)

  -- `StopError` has the constructors of `DeleteError`.
  unfoldable pub stop_instances : Bytes → Deleting (Unit {0})
  unfolding stop_pool stop_found
  stop_instances name = do existing ← read name; stop_found name existing

unfoldable pub list_builds_for : Bytes → MemoryStore → Result StoreError (List Build)
list_builds_for name s = elim (list_builds s) [
  | err e ↦ err e
  | ok builds ↦ ok (keep (λ b. b.function_name =? name) builds)
]

pushed : List Revision → Option Revision → List Revision
pushed revisions none = revisions
pushed revisions (some revision) = revisions ++ revision ∷ []

unfoldable pub list_revisions_for :
    Bytes → (up_to : ℕ) → MemoryStore → Result StoreError (List Revision)
unfolding pushed
list_revisions_for name zero s = ok []
list_revisions_for name (suc up_to) s = elim (list_revisions_for name up_to s) [
  | err e ↦ err e
  | ok revisions ↦ elim (get_revision name (suc up_to) s) [
    | err e ↦ err e
    | ok found ↦ ok (pushed revisions found)
  ]
]
