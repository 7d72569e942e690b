-- ===== src/Store/Redb/Refines.antt =====
-- The store on disk implements the store in memory.
use open_functions.Prelude.{
  ℕ, ◌^◌, ◌<◌, Bytes, Option, none, some, Dict, lookup, insert, remove, ◌=?◌, list_Eq, ℕ_Eq,
  pair_Eq, Result, ok, ◌≡◌, refl, sym, ap, subst, if◌then◌else◌,
}
use open_functions.Model.{Function, Revision, Build, TriggerBinding}
use open_functions.Store
use open_functions.Store.{MemoryStore, StoreError}
use open_functions.Store.Redb
use open_functions.Store.Redb.{
  Table, functions_table, revisions_table, builds_table, bindings_table, Engine, Codec, Codecs,
  revision_key,
}
use open_functions.Store.Redb.Simulates.{
  View, IsLawful, ReadBack, Encodes, put_row_rows, delete_row_rows, Encodes-insert, Encodes-remove,
  revision_key_same,
}

-- The operations that change a store.
pub data Change : Type 0 where
  puts_function : Function → Change
  deletes_function : Bytes → Change
  puts_revision : (r : Revision) → r.number < 2 ^ 32 → Change
  puts_build : Build → Change
  puts_binding : TriggerBinding → Change
  deletes_binding : Bytes → Change

abbrev pub in_memory : Change → MemoryStore → Result StoreError MemoryStore
in_memory (puts_function f) = Store.put_function f
in_memory (deletes_function name) = Store.delete_function name
in_memory (puts_revision r small) = Store.put_revision r
in_memory (puts_build b) = Store.put_build b
in_memory (puts_binding b) = Store.put_binding b
in_memory (deletes_binding name) = Store.delete_binding name

module _ (e : Engine) (c : Codecs) where
  abbrev pub on_disk : Change → e.Db → Result StoreError e.Db
  on_disk (puts_function f) = Redb.put_function e c f
  on_disk (deletes_function name) = Redb.delete_function e c name
  on_disk (puts_revision r small) = Redb.put_revision e c r
  on_disk (puts_build b) = Redb.put_build e c b
  on_disk (puts_binding b) = Redb.put_binding e c b
  on_disk (deletes_binding name) = Redb.delete_binding e c name

module _ (e : Engine) (view : View e) (c : Codecs) where
  -- The rows of the database are the entries of the store.
  pub record Represents (db : e.Db) (s : MemoryStore) : Type 0 where
    pub functions :
        (k : Bytes) → Encodes (c.functions) (view.rows db functions_table k) (lookup k s.functions)
    pub revisions :
        (name : Bytes) (n : ℕ)
        → n < 2 ^ 32
        → Encodes
            (c.revisions)
            (view.rows db revisions_table (revision_key name n))
            (lookup (name, n) s.revisions)
    pub builds : (k : Bytes) → Encodes (c.builds) (view.rows db builds_table k) (lookup k s.builds)
    pub bindings :
        (k : Bytes) → Encodes (c.bindings) (view.rows db bindings_table k) (lookup k s.bindings)

  -- A table that did not change.
  kept :
      {A : Type 0} (codec : Codec A) (table : Table) (k : Bytes) (db db' : e.Db) (x : Option A)
      → view.rows db' table ≡ view.rows db table
      → Encodes codec (view.rows db table k) x
      → Encodes codec (view.rows db' table k) x
  kept codec table k db db' x q h = subst (λ row. Encodes codec row x) (ap (λ r. r k) (sym q)) h

  module _ {db db' : e.Db} {s : MemoryStore} (r : Represents db s) where
    keep_functions :
        view.rows db' functions_table ≡ view.rows db functions_table
        → (k : Bytes)
        → Encodes (c.functions) (view.rows db' functions_table k) (lookup k s.functions)
    keep_functions q k =
        kept (c.functions) functions_table k db db' (lookup k s.functions) q (r.functions k)

    keep_revisions :
        view.rows db' revisions_table ≡ view.rows db revisions_table
        → (name : Bytes) (n : ℕ) → n < 2 ^ 32
        → Encodes
            (c.revisions)
            (view.rows db' revisions_table (revision_key name n))
            (lookup (name, n) s.revisions)
    keep_revisions q name n small =
        kept (c.revisions) revisions_table (revision_key name n) db db'
          (lookup (name, n) s.revisions) q (r.revisions name n small)

    keep_builds :
        view.rows db' builds_table ≡ view.rows db builds_table
        → (k : Bytes) → Encodes (c.builds) (view.rows db' builds_table k) (lookup k s.builds)
    keep_builds q k = kept (c.builds) builds_table k db db' (lookup k s.builds) q (r.builds k)

    keep_bindings :
        view.rows db' bindings_table ≡ view.rows db bindings_table
        → (k : Bytes) → Encodes (c.bindings) (view.rows db' bindings_table k) (lookup k s.bindings)
    keep_bindings q k =
        kept (c.bindings) bindings_table k db db' (lookup k s.bindings) q (r.bindings k)

  -- A table keyed by texts, with an entry put or taken away.
  put_Encodes :
      {A : Type 0} (codec : Codec A) (key : Bytes) (x : A) (json : Bytes)
      (rows rows' : Bytes → Option Bytes) (m : Dict Bytes A)
      → codec.from_json json ≡ ok x
      → ((k : Bytes) → rows' k ≡ (if key =? k then some json else rows k))
      → ((k : Bytes) → Encodes codec (rows k) (lookup k m))
      → (k : Bytes) → Encodes codec (rows' k) (lookup k (insert key x m))
  put_Encodes codec key x json rows rows' m b q h k =
      subst (λ row. Encodes codec row (lookup k (insert key x m))) (sym (q k))
        (Encodes-insert codec key k (key =? k) x json (rows k) m b refl (h k))

  delete_Encodes :
      {A : Type 0} (codec : Codec A) (key : Bytes) (rows rows' : Bytes → Option Bytes)
      (m : Dict Bytes A)
      → ((k : Bytes) → rows' k ≡ (if key =? k then none else rows k))
      → ((k : Bytes) → Encodes codec (rows k) (lookup k m))
      → (k : Bytes) → Encodes codec (rows' k) (lookup k (remove key m))
  delete_Encodes codec key rows rows' m q h k =
      subst (λ row. Encodes codec row (lookup k (remove key m))) (sym (q k))
        (Encodes-remove codec key k (key =? k) (rows k) m refl (h k))

  -- What a change of the database makes of the store that it represents.
  abbrev pub Follows : e.Db → Result StoreError MemoryStore → Type 0
  Follows db' result = (s' : MemoryStore) × (result ≡ ok s') × Represents db' s'

module _ (e : Engine) (view : View e) (law : IsLawful e view) (c : Codecs) where
  pub put_function-Follows :
      (back : ReadBack c) (f : Function) (db db' : e.Db) (s : MemoryStore)
      → Represents e view c db s
      → Redb.put_function e c f db ≡ ok db'
      → Follows e view c db' (Store.put_function f s)
  unfolding Redb.put_function Store.put_function
  put_function-Follows back f db db' s r h =
      let (json, q, rows, others) =
        put_row_rows e view law (c.functions) functions_table f.name f db db' h in
      (
        _,
        refl,
        record {
          functions =
              put_Encodes e view c (c.functions) f.name f json (view.rows db functions_table)
                (view.rows db' functions_table) s.functions (back.functions f json q) rows
                r.functions;
          revisions = keep_revisions e view c r (others revisions_table (λ d. cc));
          builds = keep_builds e view c r (others builds_table (λ d. cc));
          bindings = keep_bindings e view c r (others bindings_table (λ d. cc));
        },
      )

  pub delete_function-Follows :
      (name : Bytes) (db db' : e.Db) (s : MemoryStore)
      → Represents e view c db s
      → Redb.delete_function e c name db ≡ ok db'
      → Follows e view c db' (Store.delete_function name s)
  unfolding Redb.delete_function Store.delete_function
  delete_function-Follows name db db' s r h =
      let (rows, others) = delete_row_rows e view law functions_table name db db' h in
      (
        _,
        refl,
        record {
          functions =
              delete_Encodes e view c (c.functions) name (view.rows db functions_table)
                (view.rows db' functions_table) s.functions rows r.functions;
          revisions = keep_revisions e view c r (others revisions_table (λ d. cc));
          builds = keep_builds e view c r (others builds_table (λ d. cc));
          bindings = keep_bindings e view c r (others bindings_table (λ d. cc));
        },
      )

  pub put_revision-Follows :
      (back : ReadBack c) (v : Revision) (db db' : e.Db) (s : MemoryStore)
      → v.number < 2 ^ 32
      → Represents e view c db s
      → Redb.put_revision e c v db ≡ ok db'
      → Follows e view c db' (Store.put_revision v s)
  unfolding Redb.put_revision Store.put_revision
  put_revision-Follows back v db db' s small r h =
      let key = revision_key v.function_name v.number in
      let (json, q, rows, others) =
        put_row_rows e view law (c.revisions) revisions_table key v db db' h in
      (
        _,
        refl,
        record {
          functions = keep_functions e view c r (others functions_table (λ d. cc));
          revisions = λ name n b.
              subst
                (λ row.
                  Encodes (c.revisions) row
                    (lookup (name, n) (insert (v.function_name, v.number) v s.revisions)))
                (sym (rows (revision_key name n)))
                (Encodes-insert {K = Bytes × ℕ} (c.revisions) (v.function_name, v.number) (name, n)
                  (key =? revision_key name n) v json
                  (view.rows db revisions_table (revision_key name n)) s.revisions
                  (back.revisions v json q)
                  (revision_key_same v.function_name name v.number n small b)
                  (r.revisions name n b));
          builds = keep_builds e view c r (others builds_table (λ d. cc));
          bindings = keep_bindings e view c r (others bindings_table (λ d. cc));
        },
      )

  pub put_build-Follows :
      (back : ReadBack c) (b : Build) (db db' : e.Db) (s : MemoryStore)
      → Represents e view c db s
      → Redb.put_build e c b db ≡ ok db'
      → Follows e view c db' (Store.put_build b s)
  unfolding Redb.put_build Store.put_build
  put_build-Follows back b db db' s r h =
      let (json, q, rows, others) =
        put_row_rows e view law (c.builds) builds_table b.id b db db' h in
      (
        _,
        refl,
        record {
          functions = keep_functions e view c r (others functions_table (λ d. cc));
          revisions = keep_revisions e view c r (others revisions_table (λ d. cc));
          builds =
              put_Encodes e view c (c.builds) b.id b json (view.rows db builds_table)
                (view.rows db' builds_table) s.builds (back.builds b json q) rows r.builds;
          bindings = keep_bindings e view c r (others bindings_table (λ d. cc));
        },
      )

  pub put_binding-Follows :
      (back : ReadBack c) (b : TriggerBinding) (db db' : e.Db) (s : MemoryStore)
      → Represents e view c db s
      → Redb.put_binding e c b db ≡ ok db'
      → Follows e view c db' (Store.put_binding b s)
  unfolding Redb.put_binding Store.put_binding
  put_binding-Follows back b db db' s r h =
      let (json, q, rows, others) =
        put_row_rows e view law (c.bindings) bindings_table b.function_name b db db' h in
      (
        _,
        refl,
        record {
          functions = keep_functions e view c r (others functions_table (λ d. cc));
          revisions = keep_revisions e view c r (others revisions_table (λ d. cc));
          builds = keep_builds e view c r (others builds_table (λ d. cc));
          bindings =
              put_Encodes e view c (c.bindings) b.function_name b json (view.rows db bindings_table)
                (view.rows db' bindings_table) s.bindings (back.bindings b json q) rows r.bindings;
        },
      )

  pub delete_binding-Follows :
      (name : Bytes) (db db' : e.Db) (s : MemoryStore)
      → Represents e view c db s
      → Redb.delete_binding e c name db ≡ ok db'
      → Follows e view c db' (Store.delete_binding name s)
  unfolding Redb.delete_binding Store.delete_binding
  delete_binding-Follows name db db' s r h =
      let (rows, others) = delete_row_rows e view law bindings_table name db db' h in
      (
        _,
        refl,
        record {
          functions = keep_functions e view c r (others functions_table (λ d. cc));
          revisions = keep_revisions e view c r (others revisions_table (λ d. cc));
          builds = keep_builds e view c r (others builds_table (λ d. cc));
          bindings =
              delete_Encodes e view c (c.bindings) name (view.rows db bindings_table)
                (view.rows db' bindings_table) s.bindings rows r.bindings;
        },
      )
