-- ===== src/Registry/Effects.antt =====
-- What the steps of the registry's operations leave as it was.
use open_functions.Prelude.{
  ℕ, zero, suc, ◌-◌, Bytes, ◌≡◌, refl, ap, ◌∙◌, inl, inr, arith, Result, ok, err, Option-cases,
  if_cases, ltb, list_Eq, ℕ_Eq,
}
use open_functions.Prelude.States.{Op, ◌>>=◌, resume}
use open_functions.Store.{put_revision, get_revision}
use open_functions.PubSub.Reconcile.{try_bind, try_unbind}
use open_functions.PubSub.Client.{PubSubError}
use open_functions.PubSub.Reconcile.Outcomes.{try_bind-bindings, try_unbind-bindings}
use open_functions.Registry.{
  Outside, World, Config, BuildModeSetting, PythonModeSetting, auto, host, container,
}
use open_functions.Registry.Activate.{
  bind_pubsub_trigger, unbind_pubsub_trigger, desired_binding, prune_number, prune_to,
  prune_old_artifacts, write,
}
use open_functions.Registry.Builders.{select_source_builder, select_python_builder}

resume-cases :
    {W E A B : Type 0} (P : W × Result E B → Type 0) (f : A → Op W E B) (r : W × Result E A)
    → ((w : W) (e : E) → r ≡ (w, err e) → P (w, err e))
    → ((w : W) (a : A) → r ≡ (w, ok a) → P (f a w))
    → P (resume f r)
resume-cases P f (w, ok a) on_err on_ok = on_ok w a refl
resume-cases P f (w, err e) on_err on_ok = on_err w e refl

-- To show `P` of a run of `m >>= f`: of the error of `m`, and of `f` where `m` succeeds.
pub then-cases :
    {W E A B : Type 0} (P : W × Result E B → Type 0) (m : Op W E A) (f : A → Op W E B) (w : W)
    → ((w' : W) (e : E) → m w ≡ (w', err e) → P (w', err e))
    → ((w' : W) (a : A) → m w ≡ (w', ok a) → P (f a w'))
    → P ((m >>= f) w)
then-cases P m f w = resume-cases P f (m w)

module _ (o : Outside) where
  -- Only what lies outside changed.
  abbrev pub OnlyOuter : World o → World o → Type 0
  OnlyOuter w w' = w' ≡ record w { outer = w'.outer }

  pub select_source_builder-OnlyOuter :
      (m : BuildModeSetting) (w : World o) → OnlyOuter w (select_source_builder o m w).0
  unfolding select_source_builder
  select_source_builder-OnlyOuter host w = ground arith
  select_source_builder-OnlyOuter container w = ground arith
  select_source_builder-OnlyOuter auto w = ground arith

  pub select_python_builder-OnlyOuter :
      (c : Config) (w : World o) → OnlyOuter w (select_python_builder o c w).0
  unfolding select_python_builder
  select_python_builder-OnlyOuter c w = by_mode c.python.mode refl
    where
      by_mode :
          (m : PythonModeSetting) → c.python.mode ≡ m → OnlyOuter w (select_python_builder o c w).0
      by_mode PythonModeSetting.host e = rw (e, select_python_builder) (ground arith)
      by_mode PythonModeSetting.container e = rw (e, select_python_builder) (ground arith)
      by_mode PythonModeSetting.auto e = rw (e, select_python_builder) (ground arith)

  -- Only the bindings, the server and what lies outside changed.
  abbrev pub OnlyBindings : World o → World o → Type 0
  OnlyBindings w w' = w' ≡ record w {
    outer = w'.outer;
    broker = w'.broker;
    store = record (w.store) { bindings = w'.store.bindings };
  }

  pub bind_pubsub_trigger-OnlyBindings :
      (c : Config) (name topic : Bytes) (timeout_secs : ℕ) (w : World o)
      → OnlyBindings w (bind_pubsub_trigger o c name topic timeout_secs w)
  unfolding bind_pubsub_trigger
  bind_pubsub_trigger-OnlyBindings c name topic timeout_secs w = elim (Option-cases c.pubsub) [
    | inl e ↦ rw (e, bind_pubsub_trigger) refl
    | inr (p, e) ↦
        let d = desired_binding p name topic timeout_secs in
        let after = try_bind o.broker p.reconciler d (o.now w.outer).1 (w.broker, w.store) in
        let stored = try_bind-bindings o.broker p.reconciler d (o.now w.outer).1 w.broker w.store in
        rw (e, bind_pubsub_trigger)
          (ap (λ st. record w { outer = (o.now w.outer).0; broker = after.0.0; store = st }) stored)
  ]

  pub unbind_pubsub_trigger-OnlyBindings :
      (c : Config) (show : PubSubError → Bytes) (name : Bytes) (w : World o)
      → OnlyBindings w (unbind_pubsub_trigger o c show name w)
  unfolding unbind_pubsub_trigger
  unbind_pubsub_trigger-OnlyBindings c show name w = elim (Option-cases c.pubsub) [
    | inl e ↦ rw (e, unbind_pubsub_trigger) refl
    | inr (p, e) ↦
        let after =
          try_unbind o.broker p.reconciler show name (o.now w.outer).1 (w.broker, w.store) in
        let stored =
          try_unbind-bindings o.broker p.reconciler show name (o.now w.outer).1 w.broker w.store in
        rw (e, unbind_pubsub_trigger)
          (ap (λ st. record w { outer = (o.now w.outer).0; broker = after.0.0; store = st }) stored)
  ]

  -- Only the revisions and what lies outside changed.
  abbrev pub OnlyRevisions : World o → World o → Type 0
  OnlyRevisions w w' =
      w'
      ≡ record w { outer = w'.outer; store = record (w.store) { revisions = w'.store.revisions } }

  OnlyRevisions-trans :
      (u v w : World o) → OnlyRevisions u v → OnlyRevisions v w → OnlyRevisions u w
  OnlyRevisions-trans u v w p q =
      q
      ∙ ap {A = World o}
          (λ x. record x {
            outer = w.outer;
            store = record (x.store) { revisions = w.store.revisions };
          })
          p

  prune_number-OnlyRevisions :
      (c : Config) (name : Bytes) (number : ℕ) (w : World o)
      → OnlyRevisions w (prune_number o c name number w)
  unfolding prune_number write put_revision get_revision
  prune_number-OnlyRevisions c name number w = ground arith

  prune_to-OnlyRevisions :
      (c : Config) (name : Bytes) (last : ℕ) (w : World o)
      → OnlyRevisions w (prune_to o c name last w)
  unfolding prune_to
  prune_to-OnlyRevisions c name zero w = refl
  prune_to-OnlyRevisions c name (suc last) w =
      OnlyRevisions-trans w (prune_to o c name last w) _ (prune_to-OnlyRevisions c name last w)
        (prune_number-OnlyRevisions c name (suc last) (prune_to o c name last w))

  pub prune_old_artifacts-OnlyRevisions :
      (c : Config) (name : Bytes) (current : ℕ) (w : World o)
      → OnlyRevisions w (prune_old_artifacts o c name current w)
  unfolding prune_old_artifacts
  prune_old_artifacts-OnlyRevisions c name current w =
      if_cases (OnlyRevisions w) (ltb current 2) w (prune_to o c name (current - 1 - 1) w) refl
        (prune_to-OnlyRevisions c name (current - 1 - 1) w)

  pub prune_old_artifacts-functions :
      (c : Config) (name : Bytes) (current : ℕ) (w : World o)
      → (prune_old_artifacts o c name current w).store.functions ≡ w.store.functions
  prune_old_artifacts-functions c name current w =
      ap (λ x. x.store.functions) (prune_old_artifacts-OnlyRevisions c name current w)

  pub prune_old_artifacts-pools :
      (c : Config) (name : Bytes) (current : ℕ) (w : World o)
      → (prune_old_artifacts o c name current w).pools ≡ w.pools
  prune_old_artifacts-pools c name current w =
      ap (λ x. x.pools) (prune_old_artifacts-OnlyRevisions c name current w)
