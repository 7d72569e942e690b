-- ===== src/Store.antt =====
-- crates/open-functions-core/src/registry/store.rs and memory.rs: the `Store` trait and its
-- in-memory implementation. A lock that is poisoned is entered all the same, as in the source, so no
-- operation fails; each still returns the trait's `Result`.
pub mod Listing
pub mod Redb
use open_functions.Prelude.{
  ℕ, Bytes, Bool, true, false, Option, List, [], ◌∷◌, Dict, lookup, insert, remove, Result, ok,
  list_Eq, ℕ_Eq, pair_Eq, ltb, ◌==◌, if◌then◌else◌,
}
use open_functions.Model.{Function, Revision, Build, TriggerBinding}

pub data StoreError : Type 0 where
  not_found backend : Bytes → StoreError

pub record MemoryStore : Type 0 where
  pub functions : Dict Bytes Function
  pub revisions : Dict (Bytes × ℕ) Revision
  pub builds : Dict Bytes Build
  pub bindings : Dict Bytes TriggerBinding

abbrev pub empty_store : MemoryStore
empty_store = record { functions = []; revisions = []; builds = []; bindings = [] }

abbrev pub values : {K V : Type 0} → Dict K V → List V
values [] = []
values ((_, v) ∷ m) = v ∷ values m

-- `a.cmp(&b) != Greater` on texts.
unfoldable pub not_after : Bytes → Bytes → Bool
not_after [] b = true
not_after (x ∷ a) [] = false
not_after (x ∷ a) (y ∷ b) =
    let rest = not_after a b in if ltb x y then true else if x == y then rest else false

unfoldable pub insert_by_name : Function → List Function → List Function
insert_by_name f [] = f ∷ []
insert_by_name f (g ∷ gs) =
    let rest = insert_by_name f gs in if not_after f.name g.name then f ∷ g ∷ gs else g ∷ rest

-- `sort_by` on the names, as an insertion sort: both are stable.
unfoldable pub sort_by_name : List Function → List Function
unfolding insert_by_name not_after
sort_by_name [] = []
sort_by_name (f ∷ fs) = insert_by_name f (sort_by_name fs)

unfoldable pub get_function : Bytes → MemoryStore → Result StoreError (Option Function)
get_function name s = ok (lookup name s.functions)

unfoldable pub list_functions : MemoryStore → Result StoreError (List Function)
list_functions s = ok (sort_by_name (values s.functions))

unfoldable pub put_function : Function → MemoryStore → Result StoreError MemoryStore
put_function f s = ok (record s { functions = insert f.name f s.functions })

unfoldable pub delete_function : Bytes → MemoryStore → Result StoreError MemoryStore
delete_function name s = ok (record s { functions = remove name s.functions })

unfoldable pub put_revision : Revision → MemoryStore → Result StoreError MemoryStore
put_revision r s = ok (record s { revisions = insert (r.function_name, r.number) r s.revisions })

unfoldable pub get_revision : Bytes → ℕ → MemoryStore → Result StoreError (Option Revision)
get_revision name number s = ok (lookup (name, number) s.revisions)

unfoldable pub put_build : Build → MemoryStore → Result StoreError MemoryStore
put_build b s = ok (record s { builds = insert b.id b s.builds })

unfoldable pub get_build : Bytes → MemoryStore → Result StoreError (Option Build)
get_build id s = ok (lookup id s.builds)

unfoldable pub list_builds : MemoryStore → Result StoreError (List Build)
list_builds s = ok (values s.builds)

unfoldable pub get_binding : Bytes → MemoryStore → Result StoreError (Option TriggerBinding)
get_binding name s = ok (lookup name s.bindings)

unfoldable pub put_binding : TriggerBinding → MemoryStore → Result StoreError MemoryStore
put_binding b s = ok (record s { bindings = insert b.function_name b s.bindings })

unfoldable pub delete_binding : Bytes → MemoryStore → Result StoreError MemoryStore
delete_binding name s = ok (record s { bindings = remove name s.bindings })

unfoldable pub list_bindings : MemoryStore → Result StoreError (List TriggerBinding)
list_bindings s = ok (values s.bindings)
