-- ===== src/Registry/Restore/Interrupted.antt =====
-- No build is left running by a restart.
use open_functions.Prelude.{
  ℕ, ◌+◌, Bytes, Option, none, some, ◌≡◌, ◌≢◌, refl, sym, subst, ◌∙◌, ◌⊎◌, inl, inr, List, [], ◌∷◌,
  Dict, lookup, insert, lookup-insert, ok, Bool-cases, if◌then◌else◌, list_Eq, ℕ_Eq, list_eq_iff,
  ◌=?◌, arith,
}
use open_functions.Model.{Function, Build, BuildStatus}
use open_functions.Store.{put_function, get_function, put_build, list_builds, values}
use open_functions.Registry.{Outside, World}
use open_functions.Registry.Activate.{reading}
use open_functions.Registry.Restore.{
  RestoreReport, reconcile_interrupted_builds, reconcile_build, reconcile_builds,
  interrupt_function, change, query,
}

-- Every build is stored under its own id.
abbrev pub IsKeyed : Dict Bytes Build → Type 0
IsKeyed m = (id : Bytes) (b : Build) → lookup id m ≡ some b → b.id ≡ id

failed_ne : BuildStatus.failed ≢ BuildStatus.running
failed_ne e = cc

succeeded_ne : BuildStatus.succeeded ≢ BuildStatus.running
succeeded_ne e = cc

-- One of the builds has the id and is running.
abbrev Pending : Bytes → List Build → Type 0
Pending id [] = ⊥
Pending id (b ∷ bs) = ((b.id ≡ id) × (b.status ≡ BuildStatus.running)) ⊎ Pending id bs

-- Every running build has the id of one of the builds of the list.
abbrev IsCovered : List Build → Dict Bytes Build → Type 0
IsCovered bs m =
    (id : Bytes) (b : Build) → lookup id m ≡ some b → b.status ≡ BuildStatus.running → Pending id bs

lookup-Pending :
    (m : Dict Bytes Build) (id : Bytes) (b : Build)
    → lookup id m ≡ some b
    → b.id ≡ id
    → b.status ≡ BuildStatus.running
    → Pending id (values m)
unfolding lookup
lookup-Pending [] id b l i s = absurd (ground arith)
lookup-Pending ((j, x) ∷ m) id b l i s = elim (Bool-cases (j =? id)) [
  | inl e ↦
      let q : ◌≡◌ {A = Option Build} (some x) (some b) = rw (e, if◌then◌else◌) at l in
      let h : x ≡ b = cc in inl (rw h i, rw h s)
  | inr e ↦ inr (lookup-Pending m id b (rw (e, if◌then◌else◌) at l) i s)
]

IsCovered-tail :
    (x : Build) (bs : List Build) (m : Dict Bytes Build)
    → x.status ≢ BuildStatus.running
    → IsCovered (x ∷ bs) m
    → IsCovered bs m
IsCovered-tail x bs m n v id b l s = elim (v id b l s) [ inl (_, r) ↦ absurd (n r) | inr p ↦ p ]

IsCovered-insert :
    (x y : Build) (bs : List Build) (m : Dict Bytes Build)
    → y.status ≡ BuildStatus.failed
    → IsCovered (x ∷ bs) m
    → IsCovered bs (insert x.id y m)
IsCovered-insert x y bs m f v id b l s = elim (Bool-cases (x.id =? id)) [
  | inl e ↦
      let q : ◌≡◌ {A = Option Build} (some y) (some b) =
        sym (lookup-insert x.id id y m ∙ rw (e, if◌then◌else◌) refl) ∙ l in
      let h : y ≡ b = cc in absurd (failed_ne (sym f ∙ rw h s))
  | inr e ↦
      let l' : lookup id m ≡ some b =
        sym (lookup-insert x.id id y m ∙ rw (e, if◌then◌else◌) refl) ∙ l in
      elim (v id b l' s) [
        | inl (i, _) ↦ absurd (ground (arith, (list_eq_iff x.id id).1 i))
        | inr p ↦ p
      ]
]

module _ (o : Outside) where
  interrupt_function-builds :
      (f : Option Function) (w : World o)
      → (w' : World o) × (interrupt_function o f w ≡ (w', ok tt))
        × (w'.store.builds ≡ w.store.builds)
  unfolding interrupt_function reading change put_function
  interrupt_function-builds none w = (w, refl, refl)
  interrupt_function-builds (some f) w = (_, refl, refl)

  reconcile_build-IsCovered :
      (x : Build) (s : BuildStatus) (bs : List Build) (n : ℕ) (w : World o)
      → x.status ≡ s
      → IsCovered (x ∷ bs) w.store.builds
      → (w' : World o) × (m : ℕ) × (reconcile_build o x s n w ≡ (w', ok m))
        × IsCovered bs w'.store.builds
  unfolding reconcile_build reading change query put_build get_function
  reconcile_build-IsCovered x BuildStatus.succeeded bs n w e v =
      (w, n, refl, IsCovered-tail x bs _ (λ r. succeeded_ne (sym e ∙ r)) v)
  reconcile_build-IsCovered x BuildStatus.failed bs n w e v =
      (w, n, refl, IsCovered-tail x bs _ (λ r. failed_ne (sym e ∙ r)) v)
  reconcile_build-IsCovered x BuildStatus.running bs n w e v =
      let t = (o.now w.outer).1 in
      let y : Build = record x { status = BuildStatus.failed; finished_at = some t } in
      let marked : World o = record w {
        outer = (o.now w.outer).0;
        store = record (w.store) { builds = insert x.id y w.store.builds };
      } in
      let (w', q, same) =
        interrupt_function-builds (lookup x.function_name w.store.functions) marked in
      (
        w',
        n + 1,
        rw (q, reconcile_build) refl,
        subst (IsCovered bs) (sym same) (IsCovered-insert x y bs w.store.builds refl v),
      )

  reconcile_builds-IsCovered :
      (bs : List Build) (n : ℕ) (w : World o)
      → IsCovered bs w.store.builds
      → (w' : World o) × (m : ℕ) × (reconcile_builds o bs n w ≡ (w', ok m))
        × IsCovered [] w'.store.builds
  unfolding reconcile_builds
  reconcile_builds-IsCovered [] n w v = (w, n, refl, v)
  reconcile_builds-IsCovered (x ∷ bs) n w v =
      let (w1, m1, q, v1) = reconcile_build-IsCovered x x.status bs n w refl v in
      let (w2, m2, q2, v2) = reconcile_builds-IsCovered bs m1 w1 v1 in
      (w2, m2, rw (q, reconcile_builds) q2, v2)

  -- Where every build is stored under its own id: the pass over the interrupted builds succeeds, and
  -- no build is running afterwards.
  pub reconcile_interrupted_builds-none_running :
      (report : RestoreReport) (w : World o)
      → IsKeyed w.store.builds
      → let after = reconcile_interrupted_builds o report w in
        ((r : RestoreReport) × (after.1 ≡ ok r))
        × ((id : Bytes) (b : Build)
            → lookup id after.0.store.builds ≡ some b
            → b.status ≢ BuildStatus.running)
  unfolding reconcile_interrupted_builds query list_builds
  reconcile_interrupted_builds-none_running report w keyed =
      let start : IsCovered (values w.store.builds) w.store.builds =
        λ id b l s. lookup-Pending w.store.builds id b l (keyed id b l) s in
      let (w', m, q, v) =
        reconcile_builds-IsCovered (values w.store.builds) report.builds_marked_interrupted w
          start in
      rw (q, reconcile_interrupted_builds) ((_, refl), λ id b l s. v id b l s)
