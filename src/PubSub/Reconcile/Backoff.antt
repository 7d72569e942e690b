-- ===== src/PubSub/Reconcile/Backoff.antt =====
-- How long a binding waits for its next retry.
use open_functions.Prelude.{◌*◌, ◌≤◌, ◌<◌, Option, none, some, arith}
use open_functions.Model.{TriggerBinding, BindingState, pending, bound, unbinding, error}
use open_functions.PubSub.Reconcile.{Reconciler, backoff_after, next_backoff}

backoff_after-lt :
    (r : Reconciler) (state : BindingState)
    → r.initial_backoff * 2 < r.max_backoff
    → backoff_after r state ≤ r.initial_backoff * 2
unfolding backoff_after
backoff_after-lt r pending h = omega arith
backoff_after-lt r bound h = omega arith
backoff_after-lt r unbinding h = omega arith
backoff_after-lt r error h = omega arith

-- If twice the initial backoff lies under the cap, no wait ever reaches the cap, after however many
-- retries: each is at most twice the initial backoff.
pub next_backoff-never_capped :
    (r : Reconciler) (previous : Option TriggerBinding)
    → r.initial_backoff * 2 < r.max_backoff
    → (next_backoff r previous ≤ r.initial_backoff * 2) × (next_backoff r previous < r.max_backoff)
unfolding next_backoff
next_backoff-never_capped r none h = omega arith
next_backoff-never_capped r (some previous) h = omega (arith, backoff_after-lt r previous.state h)
