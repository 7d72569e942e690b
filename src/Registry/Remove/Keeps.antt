-- ===== src/Registry/Remove/Keeps.antt =====
-- A deletion, and a stop of a function's instances, leave the claims on names as they are.
use open_functions.Prelude.{
  Bytes, Option, none, some, refl, ap, ◌≡◌, ◌∙◌, Option-cases, inl, inr, lookup, list_Eq, ℕ_Eq,
}
use open_functions.Model.{Trigger}
use open_functions.Store.{get_function, put_function, delete_function}
use open_functions.PubSub.Client.{PubSubError}
use open_functions.Registry.{Outside, World, Config, Entry}
use open_functions.Registry.Effects.{unbind_pubsub_trigger-OnlyBindings}
use open_functions.Registry.Activate.{reading}
use open_functions.Registry.Remove.{
  delete, read, change, take_pool, unbind_if, stop_entry, stop_instances, stop_pool,
}

module _ (o : Outside) where
  take_pool-building : (name : Bytes) (w : World o) → (take_pool o name w).building ≡ w.building
  unfolding take_pool stop_entry
  take_pool-building name w = elim (Option-cases (lookup name w.pools)) [
    | inl e ↦ rw (e, take_pool) refl
    | inr (q, e) ↦ rw (e, take_pool) refl
  ]

  unbind_if-building :
      (c : Config) (show : PubSubError → Bytes) (name : Bytes) (t : Trigger) (w : World o)
      → (unbind_if o c show name t w).building ≡ w.building
  unfolding unbind_if
  unbind_if-building c show name Trigger.http w = refl
  unbind_if-building c show name (Trigger.pubsub topic) w =
      ap (λ x. x.building) (unbind_pubsub_trigger-OnlyBindings o c show name w)

  pub delete-building :
      (c : Config) (show : PubSubError → Bytes) (name : Bytes) (w : World o)
      → (delete o c show name w).0.building ≡ w.building
  unfolding delete read change get_function put_function delete_function reading
  delete-building c show name w = elim (Option-cases (lookup name w.store.functions)) [
    | inl e ↦ rw (e, delete) refl
    | inr (f, e) ↦
        rw (e, delete) (unbind_if-building c show name f.trigger _ ∙ take_pool-building name _)
  ]

  stop_pool-building :
      (name : Bytes) (found : Option Entry) (w : World o)
      → (stop_pool o name found w).building ≡ w.building
  unfolding stop_pool stop_entry
  stop_pool-building name none w = refl
  stop_pool-building name (some q) w = refl

  pub stop_instances-building :
      (name : Bytes) (w : World o) → (stop_instances o name w).0.building ≡ w.building
  unfolding stop_instances read get_function
  stop_instances-building name w = elim (Option-cases (lookup name w.store.functions)) [
    | inl e ↦ rw (e, stop_instances) refl
    | inr (f, e) ↦ rw (e, stop_instances) (stop_pool-building name (lookup name w.pools) w)
  ]
