-- ===== src/Registry/Remove/Gone.antt =====
-- What a deletion removes, and what it leaves.
use open_functions.Prelude.{
  Bytes, none, some, ◌≡◌, refl, ap, ◌∙◌, inl, inr, Dict, lookup, insert, remove, lookup-insert,
  lookup-remove, ok, Option-cases, if◌then◌else◌, list_Eq, ℕ_Eq, list_eq_iff, ◌=?◌, arith,
}
use open_functions.Model.{Function, FunctionState, Trigger}
use open_functions.Store.{put_function, get_function, delete_function}
use open_functions.PubSub.Client.{PubSubError}
use open_functions.Registry.{Outside, World, Config}
use open_functions.Registry.Activate.{reading}
use open_functions.Registry.Remove.{delete, change, read, take_pool, stop_entry, unbind_if}
use open_functions.Registry.Effects.{OnlyBindings, unbind_pubsub_trigger-OnlyBindings}

without-insert :
    {V : Type 0} (a k : Bytes) (v : V) (m : Dict Bytes V)
    → (if a =? k then none else lookup k (insert a v m)) ≡ (if a =? k then none else lookup k m)
without-insert a k v m = ground (arith, lookup-insert a k v m)

module _ (o : Outside) where
  take_pool-pools :
      (name k : Bytes) (w : World o)
      → lookup k (take_pool o name w).pools ≡ (if name =? k then none else lookup k w.pools)
  unfolding take_pool stop_entry
  take_pool-pools name k w = elim (Option-cases (lookup name w.pools)) [
    | inl e ↦ ground (arith, list_eq_iff name k, e)
    | inr (q, e) ↦ rw (e, take_pool) (lookup-remove name k w.pools)
  ]

  take_pool-rest :
      (name : Bytes) (w : World o)
      → ((take_pool o name w).store ≡ w.store) × ((take_pool o name w).reapers ≡ w.reapers)
  unfolding take_pool stop_entry
  take_pool-rest name w = elim (Option-cases (lookup name w.pools)) [
    | inl e ↦ rw (e, take_pool) (refl, refl)
    | inr (q, e) ↦ rw (e, take_pool) (refl, refl)
  ]

  unbind_if-OnlyBindings :
      (c : Config) (show : PubSubError → Bytes) (name : Bytes) (t : Trigger) (w : World o)
      → OnlyBindings o w (unbind_if o c show name t w)
  unfolding unbind_if
  unbind_if-OnlyBindings c show name Trigger.http w = refl
  unbind_if-OnlyBindings c show name (Trigger.pubsub topic) w =
      unbind_pubsub_trigger-OnlyBindings o c show name w

  -- A deletion of a stored function succeeds. Afterwards the function, its pool and its reaper are
  -- gone; all other functions, pools and reapers and all revisions are as before.
  pub delete-gone :
      (c : Config) (show : PubSubError → Bytes) (f : Function) (w : World o)
      → lookup f.name w.store.functions ≡ some f
      → let after = delete o c show f.name w in
        (after.1 ≡ ok tt)
        × (after.0.store.revisions ≡ w.store.revisions)
        × ((k : Bytes)
            → (lookup k after.0.store.functions
                ≡ (if f.name =? k then none else lookup k w.store.functions))
              × (lookup k after.0.pools ≡ (if f.name =? k then none else lookup k w.pools))
              × (lookup k after.0.reapers ≡ (if f.name =? k then none else lookup k w.reapers)))
  unfolding delete read change get_function put_function delete_function reading
  delete-gone c show f w l =
      let t = (o.now w.outer).1 in
      let marked : World o = record w {
        outer = (o.now w.outer).0;
        store = record (w.store) {
          functions =
              insert f.name (record f { state = FunctionState.deleting; updated_at = t })
                w.store.functions;
        };
        reapers = remove f.name w.reapers;
      } in
      let b = unbind_if-OnlyBindings c show f.name f.trigger (take_pool o f.name marked) in
      let (st, rs) = take_pool-rest f.name marked in
      rw (l, delete)
        (
          refl,
          ap (λ x. x.store.revisions) b ∙ ap (λ x. x.revisions) st,
          λ k. (
            lookup-remove f.name k _
                ∙ ap (λ fs. if f.name =? k then none else lookup k fs)
                    (ap (λ x. x.store.functions) b ∙ ap (λ x. x.functions) st)
                ∙ without-insert f.name k _ w.store.functions,
            ap (λ x. lookup k x.pools) b ∙ take_pool-pools f.name k marked,
            ap (λ x. lookup k x.reapers) b ∙ ap (lookup k) rs ∙ lookup-remove f.name k w.reapers,
          ),
        )
