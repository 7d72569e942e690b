-- ===== src/Examples/Deployments.antt =====
-- Deployments, deletions, restarts, bindings and logs.
use open_functions.Prelude.{
  ℕ, ◌+◌, ◌*◌, ◌≤◌, ◌<◌, min, max, ◌≡◌, ◌≢◌, ◌⊎◌, inl, inr, refl, ap, pair_eq_iff, Bytes, codes,
  true, Option, none, some, is_some, [], ◌∷◌, lookup, insert, Result, ok, err, arith, list_Eq, ℕ_Eq,
  pair_Eq, ◌=?◌, if◌then◌else◌, list_eq_iff, Bool-cases,
}
use open_functions.Model.{FunctionState, Revision, Build, BuildStatus, TriggerBinding}
use open_functions.Store.{empty_store, get_function, put_function, put_build}
use open_functions.Logs.{new, tail}
use open_functions.Logs.Tail.{last, push_all, tail-push_all}
use open_functions.PubSub.Reconcile.{next_backoff, try_bind}
use open_functions.PubSub.Reconcile.Backoff.{next_backoff-never_capped}
use open_functions.PubSub.Reconcile.Outcomes.{IsConsistent, try_bind-stores}
use mathlib.Core.List.{List, Permᴰ}
use open_functions.Model.{Function}
use open_functions.Store.{list_functions, values}
use open_functions.Store.Listing.{IsSorted, list_functions-IsSorted}
use open_functions.Registry.{
  World, RegisterError, build_in_progress, Entry, DriverKind, BuildError, PythonBuildError,
}
use open_functions.Registry.Launches.{spec_of}
use open_functions.Registry.Builders.{select_source_builder}
use open_functions.Registry.Record.{accept, build_function_record}
use open_functions.Validate.{validate_function, validate_name, validate_env}
use open_functions.Registry.Activate.{
  read_function, reading, write, activate_revision, prune_old_artifacts,
}
use open_functions.Registry.Activate.Prune.{IsKeyed, prune_old_artifacts-keeps}
use open_functions.Registry.Activate.Ready.{
  activate_revision-ready, activate_revision-swaps, activate_revision-orphan,
}
use open_functions.Registry.Register.{claim_name, register}
use open_functions.Registry.Register.Claims.{registers, deletes, serve_all, dropped_build-blocks}
use open_functions.Registry.SourceRust.{start_build, start_source_rust, register_source_rust}
use open_functions.Registry.Serving.{StillServes}
use open_functions.Registry.SourcePython.{register_source_python}
use open_functions.Registry.SourcePython.Redeploy.{register_source_python-failed}
use open_functions.Registry.SourceRust.Redeploy.{register_source_rust-failed}
use open_functions.Registry.Remove.{delete}
use open_functions.Registry.Remove.Gone.{delete-gone}
use open_functions.Registry.Restore.{RestoreReport, empty_report, reconcile_interrupted_builds}
use open_functions.Registry.Restore.Interrupted.{
  IsKeyed as IsBuildKeyed, reconcile_interrupted_builds-none_running,
}
use open_functions.Examples.Instances.{config}
use open_functions.Examples.Fixtures.{
  broker, reconciler, desired, outside, service, greeter, first_revision, running_build, entry,
  deployed, redeploy,
}

next_backoff-never_capped_example :
    (next_backoff reconciler none ≤ 1000 * 2) × (next_backoff reconciler none < 60000)
next_backoff-never_capped_example = next_backoff-never_capped reconciler none (omega arith)

try_bind-stores_example :
    let after = try_bind broker reconciler desired 7 (tt, empty_store) in
    (binding : TriggerBinding) × (after.1 ≡ ok binding)
    × (binding.function_name ≡ codes "greeter")
    × (binding.topic ≡ codes "orders")
    × (binding.push_endpoint ≡ codes "http://localhost:8080/_cf/push/greeter")
    × IsConsistent (7 + next_backoff reconciler (lookup (codes "greeter") [])) binding binding.state
    × (after.0.1 ≡ record empty_store { bindings = insert (codes "greeter") binding [] })
try_bind-stores_example = try_bind-stores broker reconciler desired 7 tt empty_store

tail-push_all_example :
    tail {A = ℕ} 2 (push_all (1 ∷ 2 ∷ 3 ∷ 4 ∷ []) (new 3))
    ≡ last (min 2 (max 3 1)) (1 ∷ 2 ∷ 3 ∷ 4 ∷ [])
tail-push_all_example = tail-push_all 3 2 (1 ∷ 2 ∷ 3 ∷ 4 ∷ [])

is_stored : lookup (codes "greeter") deployed.store.functions ≡ some greeter
unfolding lookup
is_stored = refl

has_pool : lookup (codes "greeter") deployed.pools ≡ some entry
unfolding lookup
has_pool = refl

register_source_rust-failed_example :
    StillServes outside
      (codes "greeter")
      greeter
      deployed
      (register_source_rust outside service redeploy (codes "/src/greeter") none deployed).0
register_source_rust-failed_example =
    register_source_rust-failed outside service redeploy (codes "/src/greeter") none greeter
      deployed (λ mode q s. (BuildError.timeout 600000, refl)) is_stored refl

register_source_python-failed_example :
    StillServes outside
      (codes "greeter")
      greeter
      deployed
      (register_source_python outside service redeploy (codes "/src/greeter") deployed).0
register_source_python-failed_example =
    register_source_python-failed outside service redeploy (codes "/src/greeter") greeter deployed
      (λ mode q s. (PythonBuildError.timeout 600000, refl)) is_stored refl

activate_revision-ready_example :
    let after = activate_revision outside service (codes "greeter") first_revision deployed in
    (after.1 ≡ ok tt)
    × ((t : ℕ) × (lookup (codes "greeter") after.0.store.functions
          ≡ some (record greeter {
            current_revision = some 1;
            state = FunctionState.ready;
            last_error = none;
            updated_at = t;
          })))
    × ((other : Bytes)
        → other ≢ codes "greeter"
        → lookup other after.0.store.functions ≡ lookup other deployed.store.functions)
activate_revision-ready_example =
    activate_revision-ready outside service first_revision greeter deployed is_stored

activate_revision-swaps_example :
    (q : Entry) × (lookup
        (codes "greeter")
        (activate_revision outside service (codes "greeter") first_revision deployed).0.pools
      ≡ some q)
    × (q.driver ≡ DriverKind.process_driver)
    × (q.pool.config ≡ config)
    × (q.pool.instances ≡ [])
    × (q.pool.spec_template ≡ (spec_of service (codes "greeter") first_revision).1)
activate_revision-swaps_example =
    activate_revision-swaps outside service (codes "greeter") first_revision entry deployed has_pool

delete-gone_example :
    let after = delete outside service (λ e. codes "unreachable") (codes "greeter") deployed in
    (after.1 ≡ ok tt)
    × (after.0.store.revisions ≡ deployed.store.revisions)
    × ((k : Bytes)
        → (lookup k after.0.store.functions
            ≡ (if codes "greeter" =? k then none else lookup k deployed.store.functions))
          × (lookup k after.0.pools
              ≡ (if codes "greeter" =? k then none else lookup k deployed.pools))
          × (lookup k after.0.reapers
              ≡ (if codes "greeter" =? k then none else lookup k deployed.reapers)))
delete-gone_example =
    delete-gone outside service (λ e. codes "unreachable") greeter deployed is_stored

builds-IsKeyed : IsBuildKeyed deployed.store.builds
unfolding lookup
builds-IsKeyed id b l = elim (Bool-cases (codes "b0" =? id)) [
  | inl e ↦
      let q : ◌≡◌ {A = Option Build} (some running_build) (some b) = rw (e, if◌then◌else◌) at l in
      let h : running_build ≡ b = cc in rw (← h) ((list_eq_iff (codes "b0") id).0 e)
  | inr e ↦
      let q : ◌≡◌ {A = Option Build} none (some b) = rw (e, if◌then◌else◌) at l in
      absurd (ground arith)
]

reconcile_interrupted_builds-none_running_example :
    let after = reconcile_interrupted_builds outside empty_report deployed in
    ((r : RestoreReport) × (after.1 ≡ ok r))
    × ((id : Bytes) (b : Build)
        → lookup id after.0.store.builds ≡ some b
        → b.status ≢ BuildStatus.running)
reconcile_interrupted_builds-none_running_example =
    reconcile_interrupted_builds-none_running outside empty_report deployed builds-IsKeyed

revisions-IsKeyed : IsKeyed deployed.store.revisions
unfolding lookup
revisions-IsKeyed name number r l =
    let stored : Bytes × ℕ = (codes "greeter", 1) in
    let key : Bytes × ℕ = (name, number) in
    elim (Bool-cases (stored =? key)) [
      | inl e ↦
          let q : ◌≡◌ {A = Option Revision} (some first_revision) (some r) =
            rw (e, if◌then◌else◌) at l in
          let h : first_revision ≡ r = cc in
          let k = (pair_eq_iff stored key).0 e in rw (← h) (ap (λ p. p.0) k, ap (λ p. p.1) k)
      | inr e ↦
          let q : ◌≡◌ {A = Option Revision} none (some r) = rw (e, if◌then◌else◌) at l in
          absurd (ground arith)
    ]

prune_old_artifacts-keeps_example :
    let after =
      (prune_old_artifacts outside service (codes "greeter") 3 deployed).store.revisions in
    (lookup (codes "greeter", 1) after ≡ lookup (codes "greeter", 1) deployed.store.revisions)
    ⊎ ((r : Revision) × (lookup (codes "greeter", 1) deployed.store.revisions ≡ some r)
        × (codes "greeter" ≡ codes "greeter")
        × (1 + 1 < 3)
        × (is_some r.build_mode ≡ true)
        × (lookup (codes "greeter", 1) after
            ≡ some (record r { artifact_pruned = true; artifact_path = none })))
prune_old_artifacts-keeps_example =
    prune_old_artifacts-keeps outside service (codes "greeter") 3 deployed revisions-IsKeyed
      (codes "greeter") 1

no_function : lookup (codes "old") deployed.store.functions ≡ none
unfolding lookup
no_function = refl

no_pool : lookup (codes "old") deployed.pools ≡ none
unfolding lookup
no_pool = refl

activate_revision-orphan_example :
    let after = activate_revision outside service (codes "old") first_revision deployed in
    (after.1 ≡ ok tt)
    × (lookup (codes "old") after.0.store.functions ≡ none)
    × ((q : Entry) × (lookup (codes "old") after.0.pools ≡ some q))
activate_revision-orphan_example =
    activate_revision-orphan outside service (codes "old") first_revision deployed no_function
      no_pool

-- A redeployment that is dropped while its build runs.
abbrev waiting : World outside × Result RegisterError (Unit {0})
waiting = start_source_rust outside service redeploy (claim_name outside (codes "greeter") deployed)

dropped_build-blocks_example :
    let after =
      serve_all outside service
        (λ e. [])
        (deletes (codes "greeter") ∷ registers redeploy ∷ [])
        waiting.0 in
    register outside service redeploy after ≡ (after, err (build_in_progress (codes "greeter")))
unfolding start_source_rust start_build claim_name select_source_builder read_function get_function
    reading accept validate_function validate_name build_function_record validate_env write
    put_function put_build
dropped_build-blocks_example =
    dropped_build-blocks outside service (λ e. []) redeploy redeploy deployed waiting.0 refl refl
      (deletes (codes "greeter") ∷ registers redeploy ∷ [])

list_functions-IsSorted_example :
    (fs : List Function) × (list_functions deployed.store ≡ ok fs)
    × IsSorted fs
    × Permᴰ (values deployed.store.functions) fs
list_functions-IsSorted_example = list_functions-IsSorted deployed.store
