-- ===== src/Store/Redb/History.antt =====
-- Any sequence of operations on the store on disk, and what it answers afterwards.
use open_functions.Prelude.{
  ℕ, ◌^◌, ◌<◌, Bytes, Option, none, some, List, [], ◌∷◌, lookup, list_Eq, ℕ_Eq, pair_Eq, Result, ok,
  err, Result-cases, ◌>>=◌, ◌≡◌, refl, ap, ◌∙◌, inl, inr, arith,
}
use open_functions.Model.{Function, Revision, Build, TriggerBinding}
use open_functions.Store
use open_functions.Store.{MemoryStore, StoreError}
use open_functions.Store.Redb
use open_functions.Store.Redb.{
  functions_table, revisions_table, builds_table, bindings_table, Engine, Codec, Codecs,
  revision_key, get_row,
}
use open_functions.Store.Redb.Simulates.{View, IsLawful, ReadBack, Encodes, get_row_rows}
use open_functions.Store.Redb.Refines.{
  Change, puts_function, deletes_function, puts_revision, puts_build, puts_binding, deletes_binding,
  in_memory, on_disk, Represents, Follows, put_function-Follows, delete_function-Follows,
  put_revision-Follows, put_build-Follows, put_binding-Follows, delete_binding-Follows,
}

-- The operations that read one entity.
pub data Read : Type 0 where
  reads_function : Bytes → Read
  reads_revision : (name : Bytes) (n : ℕ) → n < 2 ^ 32 → Read
  reads_build : Bytes → Read
  reads_binding : Bytes → Read

abbrev pub Entity : Read → Type 0
Entity (reads_function k) = Function
Entity (reads_revision k n small) = Revision
Entity (reads_build k) = Build
Entity (reads_binding k) = TriggerBinding

abbrev pub read_in_memory : (q : Read) → MemoryStore → Result StoreError (Option (Entity q))
read_in_memory (reads_function k) = Store.get_function k
read_in_memory (reads_revision k n small) = Store.get_revision k n
read_in_memory (reads_build k) = Store.get_build k
read_in_memory (reads_binding k) = Store.get_binding k

abbrev pub read_on_disk :
    (e : Engine) → Codecs → (q : Read) → e.Db → Result StoreError (Option (Entity q))
read_on_disk e c (reads_function k) = Redb.get_function e c k
read_on_disk e c (reads_revision k n small) = Redb.get_revision e c k n
read_on_disk e c (reads_build k) = Redb.get_build e c k
read_on_disk e c (reads_binding k) = Redb.get_binding e c k

-- The changes in memory, in order.
unfoldable pub all_in_memory : List Change → MemoryStore → Result StoreError MemoryStore
all_in_memory [] s = ok s
all_in_memory (x ∷ xs) s = in_memory x s >>= all_in_memory xs

-- The changes on disk, where one that fails leaves the database as it was; with those that
-- succeeded.
unfoldable pub all_on_disk : (e : Engine) → Codecs → List Change → e.Db → e.Db × List Change
all_on_disk e c [] db = (db, [])
all_on_disk e c (x ∷ xs) db = elim (on_disk e c x db) [
  | err _ ↦ all_on_disk e c xs db
  | ok db' ↦ let rest = all_on_disk e c xs db' in (rest.0, x ∷ rest.1)
]

module _ (e : Engine) (view : View e) (law : IsLawful e view) (c : Codecs) where
  on_disk-Follows :
      (back : ReadBack c) (x : Change) (db db' : e.Db) (s : MemoryStore)
      → Represents e view c db s
      → on_disk e c x db ≡ ok db'
      → Follows e view c db' (in_memory x s)
  on_disk-Follows back (puts_function f) db db' s =
      put_function-Follows e view law c back f db db' s
  on_disk-Follows back (deletes_function name) db db' s =
      delete_function-Follows e view law c name db db' s
  on_disk-Follows back (puts_revision v small) db db' s =
      put_revision-Follows e view law c back v db db' s small
  on_disk-Follows back (puts_build b) db db' s = put_build-Follows e view law c back b db db' s
  on_disk-Follows back (puts_binding b) db db' s = put_binding-Follows e view law c back b db db' s
  on_disk-Follows back (deletes_binding name) db db' s =
      delete_binding-Follows e view law c name db db' s

  -- If the rows of a database are the entries of a store in memory, then after any sequence of
  -- changes, some of which may fail, its rows are the entries of the store in memory after those
  -- changes that succeeded.
  pub all_on_disk-Represents :
      (back : ReadBack c) (xs : List Change) (db : e.Db) (s : MemoryStore)
      → Represents e view c db s
      → (s' : MemoryStore) × (all_in_memory (all_on_disk e c xs db).1 s ≡ ok s')
        × Represents e view c (all_on_disk e c xs db).0 s'
  unfolding all_in_memory all_on_disk
  all_on_disk-Represents back [] db s r = (s, refl, r)
  all_on_disk-Represents back (x ∷ xs) db s r = elim (Result-cases (on_disk e c x db)) [
    | inr (y, q) ↦ rw (q, all_on_disk) (all_on_disk-Represents back xs db s r)
    | inl (db', q) ↦
        let (s1, m, r1) = on_disk-Follows back x db db' s r q in
        let (s2, ms, r2) = all_on_disk-Represents back xs db' s1 r1 in
        rw (q, all_on_disk)
          (s2, ap (λ t. t >>= all_in_memory (all_on_disk e c xs db').1) m ∙ ms, r2)
  ]

  same_entry :
      {A : Type 0} (codec : Codec A) (row : Option Bytes) (x y : Option A)
      → Encodes codec row x
      → Encodes codec row y
      → x ≡ y
  same_entry codec none none none a b = refl
  same_entry codec none (some x) y a b = absurd a
  same_entry codec none none (some y) a b = absurd b
  same_entry codec (some json) none y a b = absurd a
  same_entry codec (some json) (some x) none a b = absurd b
  same_entry codec (some json) (some x) (some y) a b = ground (arith, a, b)

  -- Where the rows of a database are the entries of a store in memory, whatever it answers when a
  -- function, a revision, a build or a binding is read, the store in memory answers too.
  pub read_on_disk-Represents :
      (q : Read) (db : e.Db) (s : MemoryStore) (x : Option (Entity q))
      → Represents e view c db s
      → read_on_disk e c q db ≡ ok x
      → read_in_memory q s ≡ ok x
  unfolding Redb.get_function Store.get_function Redb.get_revision Store.get_revision Redb.get_build
      Store.get_build Redb.get_binding Store.get_binding
  read_on_disk-Represents (reads_function k) db s x r h = ap ok (
      same_entry (c.functions) (view.rows db functions_table k) (lookup k s.functions) x
        (r.functions k) (get_row_rows e view law (c.functions) functions_table k db x h))
  read_on_disk-Represents (reads_revision k n small) db s x r h = ap ok (
      same_entry (c.revisions) (view.rows db revisions_table (revision_key k n))
        (lookup (k, n) s.revisions) x (r.revisions k n small)
        (get_row_rows e view law (c.revisions) revisions_table (revision_key k n) db x h))
  read_on_disk-Represents (reads_build k) db s x r h = ap ok (
      same_entry (c.builds) (view.rows db builds_table k) (lookup k s.builds) x (r.builds k)
        (get_row_rows e view law (c.builds) builds_table k db x h))
  read_on_disk-Represents (reads_binding k) db s x r h = ap ok (
      same_entry (c.bindings) (view.rows db bindings_table k) (lookup k s.bindings) x (r.bindings k)
        (get_row_rows e view law (c.bindings) bindings_table k db x h))
