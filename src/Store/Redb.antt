-- ===== src/Store/Redb.antt =====
-- crates/open-functions-core/src/registry/redb_store.rs: the store on disk. The database redb and the
-- JSON library are not of the repository: `Engine` and `Codec`. An error of theirs is its text.
pub mod Keys
pub mod Simulates
pub mod Refines
pub mod History
use Prim.Native.Nat.{◌/◌}
use open_functions.Prelude.{
  ℕ, zero, suc, ◌+◌, ◌%◌, Bytes, codes, Bool, true, false, Option, none, some, is_some, List, [],
  ◌∷◌, ◌++◌, Result, ok, err, ◌>>=◌, map_err, if◌then◌else◌,
}
use open_functions.Model.{Function, Revision, Build, TriggerBinding}
use open_functions.Store.{StoreError, not_found, backend, sort_by_name}

pub data Table : Type 0 where
  functions_table revisions_table builds_table bindings_table meta_table : Table

-- A transaction reads its own writes; `commit` gives the database after it, and a transaction that
-- is not committed changes nothing. An entry that cannot be read fails all of `iter`.
pub record Engine : Type 1 where
  pub Db : Type 0
  pub Txn : Type 0
  pub create : Bytes → Result Bytes Db
  pub begin_write : Db → Result Bytes Txn
  pub begin_read : Db → Result Bytes Txn
  pub open_table : Table → Txn → Result Bytes Txn
  pub get : Table → Bytes → Txn → Result Bytes (Option Bytes)
  pub insert : Table → Bytes → Bytes → Txn → Result Bytes Txn
  pub remove : Table → Bytes → Txn → Result Bytes Txn
  pub iter : Table → Txn → Result Bytes (List (Bytes × Bytes))
  pub commit : Txn → Result Bytes Db

-- `serde_json` at one type.
pub record Codec (A : Type 0) : Type 0 where
  pub to_json : A → Result Bytes Bytes
  pub from_json : Bytes → Result Bytes A

pub record Codecs : Type 0 where
  pub functions : Codec Function
  pub revisions : Codec Revision
  pub builds : Codec Build
  pub bindings : Codec TriggerBinding

abbrev pub backend_err : {A : Type 0} → Result Bytes A → Result StoreError A
backend_err = map_err backend

-- A number in decimal with `width` digits, the last ones if it has more.
unfoldable pub digits : (width n : ℕ) → Bytes
digits zero n = []
digits (suc width) n = digits width (n / 10) ++ (b'0' + n % 10) ∷ []

-- A `u32` has at most ten digits, so its ten digits are `{number:010}`.
unfoldable pub revision_key : Bytes → ℕ → Bytes
unfolding digits
revision_key name number = name ++ 0 ∷ digits 10 number

module _ (e : Engine) where
  -- Reading and writing one row, in a transaction of its own.
  unfoldable pub put_row :
      {A : Type 0} → Codec A → Table → Bytes → A → e.Db → Result StoreError e.Db
  put_row codec table key x db = do
    json ← backend_err (codec.to_json x)
    begun ← backend_err (e.begin_write db)
    opened ← backend_err (e.open_table table begun)
    written ← backend_err (e.insert table key json opened)
    backend_err (e.commit written)

  unfoldable pub delete_row : Table → Bytes → e.Db → Result StoreError e.Db
  delete_row table key db = do
    begun ← backend_err (e.begin_write db)
    opened ← backend_err (e.open_table table begun)
    written ← backend_err (e.remove table key opened)
    backend_err (e.commit written)

  abbrev pub read_row : {A : Type 0} → Codec A → Option Bytes → Result StoreError (Option A)
  read_row codec none = ok none
  read_row codec (some json) = backend_err (codec.from_json json) >>= λ x. ok (some x)

  unfoldable pub get_row :
      {A : Type 0} → Codec A → Table → Bytes → e.Db → Result StoreError (Option A)
  get_row codec table key db = do
    begun ← backend_err (e.begin_read db)
    opened ← backend_err (e.open_table table begun)
    found ← backend_err (e.get table key opened)
    read_row codec found

  unfoldable pub read_rows :
      {A : Type 0} → Codec A → List (Bytes × Bytes) → Result StoreError (List A)
  read_rows codec [] = ok []
  read_rows codec ((key, json) ∷ rows) = do
    x ← backend_err (codec.from_json json)
    xs ← read_rows codec rows
    ok (x ∷ xs)

  unfoldable pub list_rows : {A : Type 0} → Codec A → Table → e.Db → Result StoreError (List A)
  unfolding read_rows
  list_rows codec table db = do
    begun ← backend_err (e.begin_read db)
    opened ← backend_err (e.open_table table begun)
    rows ← backend_err (e.iter table opened)
    read_rows codec rows

  -- The meta table's version, written where there is none.
  unfoldable pub set_version : e.Txn → Option Bytes → Result StoreError e.Txn
  set_version t (some version) = ok t
  set_version t none = backend_err (e.insert meta_table (codes "schema_version") (codes "1") t)

  unfoldable pub open_db : (path : Bytes) → Result StoreError e.Db
  unfolding set_version
  open_db path = do
    db ← backend_err (e.create path)
    begun ← backend_err (e.begin_write db)
    t1 ← backend_err (e.open_table functions_table begun)
    t2 ← backend_err (e.open_table revisions_table t1)
    t3 ← backend_err (e.open_table builds_table t2)
    t4 ← backend_err (e.open_table bindings_table t3)
    t5 ← backend_err (e.open_table meta_table t4)
    version ← backend_err (e.get meta_table (codes "schema_version") t5)
    t6 ← set_version t5 version
    backend_err (e.commit t6)

  module _ (c : Codecs) where
    abbrev pub found_or : {A : Type 0} → Bytes → Option A → Result StoreError A
    found_or name none = err (not_found name)
    found_or name (some x) = ok x

    unfoldable pub set_current_revision :
        (name : Bytes) (revision_number now : ℕ) → e.Db → Result StoreError e.Db
    set_current_revision name revision_number now db = do
      begun ← backend_err (e.begin_write db)
      opened ← backend_err (e.open_table functions_table begun)
      existing ← backend_err (e.get functions_table name opened)
      bytes ← found_or name existing
      function ← backend_err (c.functions.from_json bytes)
      json ← backend_err (
          c.functions.to_json
            (record function { current_revision = some revision_number; updated_at = now }))
      written ← backend_err (e.insert functions_table name json opened)
      backend_err (e.commit written)

    unfoldable pub get_function : Bytes → e.Db → Result StoreError (Option Function)
    unfolding get_row
    get_function = get_row (c.functions) functions_table

    unfoldable pub list_functions : e.Db → Result StoreError (List Function)
    unfolding list_rows
    list_functions db = list_rows (c.functions) functions_table db >>= λ fs. ok (sort_by_name fs)

    unfoldable pub put_function : Function → e.Db → Result StoreError e.Db
    unfolding put_row
    put_function f = put_row (c.functions) functions_table f.name f

    unfoldable pub delete_function : Bytes → e.Db → Result StoreError e.Db
    unfolding delete_row
    delete_function = delete_row functions_table

    unfoldable pub put_revision : Revision → e.Db → Result StoreError e.Db
    unfolding put_row revision_key
    put_revision r = put_row (c.revisions) revisions_table (revision_key r.function_name r.number) r

    unfoldable pub get_revision : Bytes → ℕ → e.Db → Result StoreError (Option Revision)
    unfolding get_row revision_key
    get_revision name number = get_row (c.revisions) revisions_table (revision_key name number)

    unfoldable pub put_build : Build → e.Db → Result StoreError e.Db
    unfolding put_row
    put_build b = put_row (c.builds) builds_table b.id b

    unfoldable pub get_build : Bytes → e.Db → Result StoreError (Option Build)
    unfolding get_row
    get_build = get_row (c.builds) builds_table

    unfoldable pub list_builds : e.Db → Result StoreError (List Build)
    unfolding list_rows
    list_builds = list_rows (c.builds) builds_table

    unfoldable pub get_binding : Bytes → e.Db → Result StoreError (Option TriggerBinding)
    unfolding get_row
    get_binding = get_row (c.bindings) bindings_table

    unfoldable pub put_binding : TriggerBinding → e.Db → Result StoreError e.Db
    unfolding put_row
    put_binding b = put_row (c.bindings) bindings_table b.function_name b

    unfoldable pub delete_binding : Bytes → e.Db → Result StoreError e.Db
    unfolding delete_row
    delete_binding = delete_row bindings_table

    unfoldable pub list_bindings : e.Db → Result StoreError (List TriggerBinding)
    unfolding list_rows
    list_bindings = list_rows (c.bindings) bindings_table
