-- ===== src/Registry/Activate/Prune.antt =====
-- Which revisions `prune_old_artifacts` marks.
use open_functions.Prelude.{
  ℕ, zero, suc, ◌+◌, ◌-◌, ◌≤◌, ◌<◌, Bytes, none, some, is_some, ◌≡◌, refl, sym, ap, ◌∙◌, ◌⊎◌, inl,
  inr, Dict, lookup, insert, lookup-insert, true, Bool-cases, Option-cases, if◌then◌else◌, ltb,
  list_Eq, ℕ_Eq, pair_Eq, pair_eq_iff, arith, join, to_string, not, ◌||◌,
}
use open_functions.Model.{Revision}
use open_functions.Store.{put_revision, get_revision}
use open_functions.Registry.{Outside, World, Config, Removal, removed, missing, not_removed}
use open_functions.Registry.Activate.{prune_number, prune_to, prune_old_artifacts, pruned, write}

abbrev pub Revisions : Type 0
Revisions = Dict (Bytes × ℕ) Revision

-- Every revision is stored under its own name and number.
abbrev pub IsKeyed : Revisions → Type 0
IsKeyed m =
    (name : Bytes) (number : ℕ) (r : Revision)
    → lookup (name, number) m ≡ some r
    → (r.function_name ≡ name) × (r.number ≡ number)

Removal-cases : (a : Removal) → (a ≡ not_removed) ⊎ ((a ≡ removed) ⊎ (a ≡ missing))
Removal-cases not_removed = inl refl
Removal-cases removed = inr (inl refl)
Removal-cases missing = inr (inr refl)

module _ (o : Outside) where
  -- The revision of that number is marked where `marks` says so, and all others stay.
  prune_number-cases :
      (c : Config) (name : Bytes) (number : ℕ) (w : World o)
      → IsKeyed w.store.revisions
      → ((prune_number o c name number w).store.revisions ≡ w.store.revisions)
        ⊎ ((r : Revision) × (lookup (name, number) w.store.revisions ≡ some r)
            × (is_some r.build_mode ≡ true)
            × ((prune_number o c name number w).store.revisions
                ≡ insert (name, number) (pruned o r) w.store.revisions))
  unfolding prune_number write put_revision get_revision
  prune_number-cases c name number w keyed =
      elim (Option-cases (lookup (name, number) w.store.revisions)) [
        | inl e ↦ inl (rw (e, prune_number) refl)
        | inr (r, e) ↦ elim (Bool-cases (r.artifact_pruned || not (is_some r.build_mode))) [
          | inl f ↦ inl (rw (e, prune_number) (rw (f, if◌then◌else◌) refl))
          | inr f ↦
              let dir = join (join c.artifacts_dir name) (to_string number) in
              let (p, q) = keyed name number r e in
              let key : ◌≡◌ {A = Bytes × ℕ} (r.function_name, r.number) (name, number) = cc in
              let inserted = ap (λ k. insert k (pruned o r) w.store.revisions) in
              elim (Removal-cases (o.remove_dir_all dir w.outer).1) [
                | inl a ↦
                    inl (rw (e, prune_number) (rw (f, if◌then◌else◌) (rw (a, prune_number) refl)))
                | inr gone ↦ inr (
                  r,
                  e,
                  ground arith,
                  rw (e, prune_number)
                      (rw (f, if◌then◌else◌)
                        (elim gone [
                          | inl a ↦ rw (a, prune_number) (inserted key)
                          | inr a ↦ rw (a, prune_number) (inserted key)
                        ])),
                )
              ]
        ]
      ]

  -- What pruning up to the number `last` makes of the revision with a key.
  abbrev Marks : Bytes → (last : ℕ) → Revisions → Revisions → Bytes → ℕ → Type 0
  Marks name last before after n k =
      (lookup (n, k) after ≡ lookup (n, k) before)
      ⊎ ((r : Revision) × (lookup (n, k) before ≡ some r)
          × (n ≡ name)
          × (k ≤ last)
          × (is_some r.build_mode ≡ true)
          × (lookup (n, k) after ≡ some (pruned o r)))

  Marks-IsKeyed :
      (name : Bytes) (last : ℕ) (before after : Revisions)
      → ((n : Bytes) (k : ℕ) → Marks name last before after n k)
      → IsKeyed before
      → IsKeyed after
  Marks-IsKeyed name last before after marks keyed n k r e = elim (marks n k) [
    | inl same ↦ keyed n k r (sym same ∙ e)
    | inr (s, f, _, _, _, a) ↦ let (p, q) = keyed n k s f in ground (arith, p, q)
  ]

  lookup-mark :
      (name n : Bytes) (number k : ℕ) (r : Revision) (m : Revisions)
      → (lookup (n, k) (insert (name, number) r m) ≡ lookup (n, k) m)
        ⊎ ((n ≡ name) × (k ≡ number) × (lookup (n, k) (insert (name, number) r m) ≡ some r))
  lookup-mark name n number k r m =
      ground (arith, lookup-insert (name, number) (n, k) r m, pair_eq_iff (name, number) (n, k))

  prune_to-Marks :
      (c : Config) (name : Bytes) (last : ℕ) (w : World o)
      → IsKeyed w.store.revisions
      → (n : Bytes) (k : ℕ)
      → Marks name last w.store.revisions (prune_to o c name last w).store.revisions n k
  unfolding prune_to
  prune_to-Marks c name zero w keyed n k = inl refl
  prune_to-Marks c name (suc last) w keyed n k =
      let before = w.store.revisions in
      let w' = prune_to o c name last w in
      let earlier = prune_to-Marks c name last w keyed in
      let keyed' = Marks-IsKeyed name last before w'.store.revisions earlier keyed in
      elim (prune_number-cases c name (suc last) w' keyed') [
        | inl same ↦ elim (earlier n k) [
          | inl e ↦ inl (rw same e)
          | inr (r, f, m, l, b, a) ↦ inr (r, f, m, omega (arith, l), b, rw same a)
        ]
        | inr (r, f, b, changed) ↦
            elim (lookup-mark name n (suc last) k (pruned o r) w'.store.revisions) [
              | inl same ↦ elim (earlier n k) [
                | inl e ↦ inl (rw changed (same ∙ e))
                | inr (s, g, m, l, d, a) ↦ inr (s, g, m, omega (arith, l), d, rw changed (same ∙ a))
              ]
              | inr (m, l, a) ↦ elim (earlier n k) [
                | inl e ↦ inr (r, sym e ∙ rw (m, l) f, m, omega (arith, l), b, rw changed a)
                | inr (s, g, _, low, _, _) ↦ absurd (omega (arith, l, low))
              ]
            ]
      ]

  -- Where every revision is stored under its own key: pruning after the activation of `current`
  -- leaves every revision as it was, but for revisions of that function older than `current - 1`
  -- that a build made; of those it may change only the mark and the artifact path.
  pub prune_old_artifacts-keeps :
      (c : Config) (name : Bytes) (current : ℕ) (w : World o)
      → IsKeyed w.store.revisions
      → (n : Bytes) (k : ℕ)
      → let before = w.store.revisions in
        let after = (prune_old_artifacts o c name current w).store.revisions in
        (lookup (n, k) after ≡ lookup (n, k) before)
        ⊎ ((r : Revision) × (lookup (n, k) before ≡ some r)
            × (n ≡ name)
            × (k + 1 < current)
            × (is_some r.build_mode ≡ true)
            × (lookup (n, k) after
                ≡ some (record r { artifact_pruned = true; artifact_path = none })))
  unfolding prune_old_artifacts
  prune_old_artifacts-keeps c name current w keyed n k = elim (Bool-cases (ltb current 2)) [
    | inl e ↦ inl (rw (e, if◌then◌else◌) refl)
    | inr e ↦ elim (prune_to-Marks c name (current - 1 - 1) w keyed n k) [
      | inl same ↦ inl (rw (e, if◌then◌else◌) same)
      | inr (r, f, m, l, b, a) ↦ inr (r, f, m, ground (arith, l), b, rw (e, if◌then◌else◌) a)
    ]
  ]
