-- ===== src/PubSub/Reconcile/Outcomes.antt =====
-- What `try_bind` stores, and what it makes of a server that keeps to its documentation.
use open_functions.Prelude.{
  ℕ, ◌+◌, ◌≡◌, refl, sym, ap, ◌∙◌, Bytes, Bool, true, false, none, some, Result, ok, err, is_some,
  arith, lookup, insert, list_Eq, ℕ_Eq,
}
use open_functions.Model.{TriggerBinding, BindingState, pending, bound, unbinding, error}
use open_functions.Store.{MemoryStore, get_binding, put_binding, delete_binding}
use open_functions.PubSub.Client.{Broker, PubSubError, unreachable, http, Subscription}
use open_functions.PubSub.Reconcile.{
  DesiredBinding, Reconciler, next_backoff, is_transient, binding_for, bind_outcome, try_bind,
  try_unbind,
}

-- A bound binding has no error and no retry, one that waits has an error and a time for the next
-- try, and a failed one has an error and no next try.
abbrev pub IsConsistent : (retry_at : ℕ) → TriggerBinding → BindingState → Type 0
IsConsistent t b bound = (b.last_error ≡ none) × (b.next_retry_at ≡ none)
IsConsistent t b pending = (is_some b.last_error ≡ true) × (b.next_retry_at ≡ some t)
IsConsistent t b unbinding = ⊥
IsConsistent t b error = (is_some b.last_error ≡ true) × (b.next_retry_at ≡ none)

transient-IsConsistent :
    (d : DesiredBinding) (now wait status : ℕ) (body : Bytes) (t : Bool)
    → is_transient status ≡ t
    → let b = binding_for d now wait (err (http status body)) in IsConsistent (now + wait) b b.state
unfolding binding_for
transient-IsConsistent d now wait status body true e = rw e (refl, refl)
transient-IsConsistent d now wait status body false e = rw e (refl, refl)

binding_for-IsConsistent :
    (d : DesiredBinding) (now wait : ℕ) (r : Result PubSubError Subscription)
    → IsConsistent (now + wait) (binding_for d now wait r) (binding_for d now wait r).state
unfolding binding_for
binding_for-IsConsistent d now wait (ok sub) = (refl, refl)
binding_for-IsConsistent d now wait (err (unreachable url)) = (refl, refl)
binding_for-IsConsistent d now wait (err (http status body)) =
    transient-IsConsistent d now wait status body (is_transient status) refl

binding_for-function_name :
    (d : DesiredBinding) (now wait : ℕ) (r : Result PubSubError Subscription)
    → (binding_for d now wait r).function_name ≡ d.function_name
unfolding binding_for
binding_for-function_name d now wait (ok sub) = refl
binding_for-function_name d now wait (err (unreachable url)) = refl
binding_for-function_name d now wait (err (http status body)) = refl

binding_for-topic :
    (d : DesiredBinding) (now wait : ℕ) (r : Result PubSubError Subscription)
    → (binding_for d now wait r).topic ≡ d.topic
unfolding binding_for
binding_for-topic d now wait (ok sub) = refl
binding_for-topic d now wait (err (unreachable url)) = refl
binding_for-topic d now wait (err (http status body)) = refl

binding_for-push_endpoint :
    (d : DesiredBinding) (now wait : ℕ) (r : Result PubSubError Subscription)
    → (binding_for d now wait r).push_endpoint ≡ d.push_endpoint
unfolding binding_for
binding_for-push_endpoint d now wait (ok sub) = refl
binding_for-push_endpoint d now wait (err (unreachable url)) = refl
binding_for-push_endpoint d now wait (err (http status body)) = refl

module _ (b : Broker) where
  open b use {State}

  -- Whatever the server does, `try_bind` returns a binding of the desired function, topic and endpoint
  -- that is consistent, stores it under the function's name, and leaves every other binding and all
  -- else in the store as it was.
  pub try_bind-stores :
      (r : Reconciler) (d : DesiredBinding) (now : ℕ) (s : State) (store : MemoryStore)
      → let after = try_bind b r d now (s, store) in
        let wait = next_backoff r (lookup d.function_name store.bindings) in
        (binding : TriggerBinding) × (after.1 ≡ ok binding)
        × (binding.function_name ≡ d.function_name)
        × (binding.topic ≡ d.topic)
        × (binding.push_endpoint ≡ d.push_endpoint)
        × IsConsistent (now + wait) binding binding.state
        × (after.0.1 ≡ record store { bindings = insert d.function_name binding store.bindings })
  unfolding try_bind get_binding put_binding
  try_bind-stores r d now s store =
      let wait = next_backoff r (lookup d.function_name store.bindings) in
      let outcome = (bind_outcome b r d s).1 in
      let name = binding_for-function_name d now wait outcome in
      (
        binding_for d now wait outcome,
        refl,
        name,
        binding_for-topic d now wait outcome,
        binding_for-push_endpoint d now wait outcome,
        binding_for-IsConsistent d now wait outcome,
        rw name refl,
      )

  -- The store keeps all but the bindings.
  pub try_bind-bindings :
      (r : Reconciler) (d : DesiredBinding) (now : ℕ) (s : State) (store : MemoryStore)
      → let after = (try_bind b r d now (s, store)).0.1 in
        after ≡ record store { bindings = after.bindings }
  try_bind-bindings r d now s store =
      let (binding, _, _, _, _, _, e) = try_bind-stores r d now s store in
      e ∙ ap (λ m. record store { bindings = m }) (sym (ap (λ st. st.bindings) e))

  pub try_unbind-bindings :
      (r : Reconciler) (show : PubSubError → Bytes) (name : Bytes) (now : ℕ) (s : State)
      (store : MemoryStore)
      → let after = (try_unbind b r show name now (s, store)).0.1 in
        after ≡ record store { bindings = after.bindings }
  unfolding try_unbind get_binding put_binding delete_binding
  try_unbind-bindings r show name now s store = ground arith
