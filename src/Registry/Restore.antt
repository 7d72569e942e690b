-- ===== src/Registry/Restore.antt =====
-- crates/open-functions-core/src/registry/restore.rs. Pre-warming takes a `warm` for what `warm_to`
-- of a function's pool does, which Pool/Acquire models.
pub mod Interrupted
use open_functions.Prelude.{
  ℕ, zero, suc, ◌+◌, Bytes, codes, Bool, true, false, Option, none, some, is_some, ◌++◌, ◌∷◌, [],
  List, Dict, lookup, insert, list_Eq, ℕ_Eq, Result, ok, err, map_err, ltb, if◌then◌else◌,
}
use open_functions.Prelude.States.{Op, ◌>>=◌, ◌>>◌, return, modify, lift}
use open_functions.Model.{Function, FunctionState, Runtime, Source, Revision, Build, BuildStatus}
use open_functions.Store.{
  MemoryStore, StoreError, get_function, put_function, list_functions, get_revision, put_build,
  list_builds,
}
use open_functions.Registry.{Outside, World, Config, Entry, RegisterError}
use open_functions.Registry.Activate.{reading, activate_revision}

pub record RestoreReport : Type 0 where
  pub builds_marked_interrupted : ℕ
  pub functions_restored : ℕ
  pub broken_functions : List Bytes
  pub warm_start_failures : List Bytes

abbrev pub empty_report : RestoreReport
empty_report = record {
  builds_marked_interrupted = 0;
  functions_restored = 0;
  broken_functions = [];
  warm_start_failures = [];
}

module _ (o : Outside) where
  abbrev pub Restoring : Type 0 → Type 0
  Restoring = Op (World o) StoreError

  -- A query of the store, and a write to it.
  unfoldable pub query : {A : Type 0} → (MemoryStore → Result StoreError A) → Restoring A
  query f w = (w, f w.store)

  store_of : World o → Result StoreError MemoryStore → World o × Result StoreError (Unit {0})
  store_of w (ok s) = (record w { store = s }, ok tt)
  store_of w (err e) = (w, err e)

  unfoldable pub change : (MemoryStore → Result StoreError MemoryStore) → Restoring (Unit {0})
  unfolding store_of
  change f w = store_of w (f w.store)

  backfill_one : Function → Option Runtime → Source → Restoring (Unit {0})
  backfill_one f (some runtime) source = return tt
  backfill_one f none (Source.image image_ref) = return tt
  backfill_one f none (Source.dir path bin) =
      change (put_function (record f { runtime = some Runtime.rust }))

  backfill_all : List Function → Restoring (Unit {0})
  backfill_all [] = return tt
  backfill_all (f ∷ fs) = backfill_one f f.runtime f.source >> backfill_all fs

  unfoldable pub backfill_runtime : Restoring (Unit {0})
  unfolding backfill_one backfill_all
  backfill_runtime = query list_functions >>= backfill_all

  abbrev pub interrupted : Function → ℕ → Function
  interrupted f t = record f {
    last_error = some (codes "interrupted by restart");
    state = if is_some f.current_revision then FunctionState.ready else FunctionState.failed;
    updated_at = t;
  }

  unfoldable pub interrupt_function : Option Function → Restoring (Unit {0})
  interrupt_function none = return tt
  interrupt_function (some f) = reading o >>= λ t. change (put_function (interrupted f t))

  -- One round of the loop over the builds, with the number of those marked so far.
  unfoldable pub reconcile_build : Build → BuildStatus → ℕ → Restoring ℕ
  reconcile_build build BuildStatus.succeeded n = return n
  reconcile_build build BuildStatus.failed n = return n
  reconcile_build build BuildStatus.running n = do
    t ← reading o
    change (put_build (record build { status = BuildStatus.failed; finished_at = some t }))
    f ← query (get_function build.function_name)
    interrupt_function f
    return (n + 1)

  unfoldable pub reconcile_builds : List Build → ℕ → Restoring ℕ
  reconcile_builds [] n = return n
  reconcile_builds (build ∷ builds) n =
      reconcile_build build build.status n >>= reconcile_builds builds

  unfoldable pub reconcile_interrupted_builds : RestoreReport → Restoring RestoreReport
  reconcile_interrupted_builds report = do
    builds ← query list_builds
    n ← reconcile_builds builds report.builds_marked_interrupted
    return (record report { builds_marked_interrupted = n })

  is_missing : World o → Option Bytes → Bool
  is_missing w none = false
  is_missing w (some path) = if o.exists w.outer path then false else true

  -- The error that a function had goes back after `activate_revision` cleared it.
  put_back : Bytes → Option Bytes → Restoring (Unit {0})
  put_back name none = return tt
  put_back name (some message) = query (get_function name) >>= λ found. elim found [
    | none ↦ return tt
    | some current ↦ change (put_function (record current { last_error = some message }))
  ]

  warm_up :
      (Bytes → ℕ → World o → World o × Bool)
      → Function
      → RestoreReport
      → World o
      → World o × RestoreReport
  warm_up warm f report w =
      let (w', failed) = warm f.name f.min_instances w in
      if ltb 0 f.min_instances
      then (
        w',
        if failed
            then record report { warm_start_failures = report.warm_start_failures ++ f.name ∷ [] }
            else report,
      )
      else (w, report)

  counted : RestoreReport → RestoreReport
  counted report = record report { functions_restored = report.functions_restored + 1 }

  after_activation :
      (Bytes → ℕ → World o → World o × Bool)
      → Function
      → RestoreReport
      → World o × Result RegisterError (Unit {0})
      → World o × Result StoreError RestoreReport
  after_activation warm f report (w, err e) = (w, ok report)
  after_activation warm f report (w, ok _) =
      (put_back f.name f.last_error >> λ w'.
      let (w'', report') = warm_up warm f (counted report) w' in (w'', ok report'))
        w

  restore_revision :
      Config
      → (Bytes → ℕ → World o → World o × Bool)
      → Function
      → RestoreReport
      → Option Revision
      → Restoring RestoreReport
  restore_revision c warm f report none w = (w, ok report)
  restore_revision c warm f report (some revision) w =
      let noted : RestoreReport =
        if is_missing w revision.artifact_path
        then record report { broken_functions = report.broken_functions ++ f.name ∷ [] }
        else report in
      after_activation warm f noted (activate_revision o c f.name revision w)

  restore_function :
      Config
      → (Bytes → ℕ → World o → World o × Bool)
      → Function
      → RestoreReport
      → FunctionState
      → Option ℕ
      → Restoring RestoreReport
  restore_function c warm f report FunctionState.ready (some number) =
      query (get_revision f.name number) >>= restore_revision c warm f report
  restore_function c warm f report _ _ = return report

  restore_each :
      Config
      → (Bytes → ℕ → World o → World o × Bool)
      → List Function
      → RestoreReport
      → Restoring RestoreReport
  restore_each c warm [] report = return report
  restore_each c warm (f ∷ fs) report =
      restore_function c warm f report f.state f.current_revision >>= restore_each c warm fs

  unfoldable pub restore_ready_function_pools :
      Config → (Bytes → ℕ → World o → World o × Bool) → RestoreReport → Restoring RestoreReport
  unfolding restore_each restore_function restore_revision after_activation warm_up counted put_back
      is_missing
  restore_ready_function_pools c warm report =
      query list_functions >>= λ fs. restore_each c warm fs report

  unfoldable pub restore : Config → (Bytes → ℕ → World o → World o × Bool) → Restoring RestoreReport
  restore c warm =
      backfill_runtime
      >> reconcile_interrupted_builds empty_report
      >>= restore_ready_function_pools c warm
