-- ===== src/Examples/Disk.antt =====
-- A database as a list of rows, and the store on it.
use open_functions.Prelude.{
  ℕ, Bytes, codes, ◌&&◌, Option, none, some, List, [], ◌∷◌, Dict, lookup, insert, remove,
  lookup-insert, lookup-remove, ◌=?◌, list_Eq, ℕ_Eq, pair_Eq, list_eq_iff, Result, ok, err, ◌≡◌,
  ◌≢◌, refl, sym, ap, ◌∙◌, if◌then◌else◌, arith, Bool-cases, inl, inr,
}
use open_functions.Model.{TriggerBinding, BindingState, pending}
use open_functions.Store.{MemoryStore, empty_store}
use open_functions.Store.Redb.{
  Table, functions_table, revisions_table, builds_table, bindings_table, meta_table, Engine, Codec,
  Codecs, put_binding, put_function, delete_binding, get_binding, put_row, delete_row, get_row,
}
use open_functions.Store.Redb.Simulates.{View, IsLawful, ReadsBack, ReadBack}
use open_functions.Store.Redb.Refines.{
  Change, puts_binding, deletes_binding, puts_function, Represents,
}
use open_functions.Store.Redb.History.{
  all_in_memory, all_on_disk, all_on_disk-Represents, reads_binding, read_in_memory,
  read_on_disk-Represents,
}
use open_functions.Examples.Fixtures.{greeter, first_revision, running_build}

-- The rows of each table.
abbrev Rows : Type 0
Rows = Dict Bytes Bytes

record Db : Type 0 where
  functions : Rows
  revisions : Rows
  builds : Rows
  bindings : Rows
  meta : Rows

abbrev rows_of : Table → Db → Rows
rows_of functions_table db = db.functions
rows_of revisions_table db = db.revisions
rows_of builds_table db = db.builds
rows_of bindings_table db = db.bindings
rows_of meta_table db = db.meta

abbrev with_rows : Table → Rows → Db → Db
with_rows functions_table rows db = record db { functions = rows }
with_rows revisions_table rows db = record db { revisions = rows }
with_rows builds_table rows db = record db { builds = rows }
with_rows bindings_table rows db = record db { bindings = rows }
with_rows meta_table rows db = record db { meta = rows }

rows_of-with_rows : (t : Table) (rows : Rows) (db : Db) → rows_of t (with_rows t rows db) ≡ rows
rows_of-with_rows functions_table rows db = refl
rows_of-with_rows revisions_table rows db = refl
rows_of-with_rows builds_table rows db = refl
rows_of-with_rows bindings_table rows db = refl
rows_of-with_rows meta_table rows db = refl

rows_of_other :
    (t u : Table) (rows : Rows) (db : Db) → u ≢ t → rows_of u (with_rows t rows db) ≡ rows_of u db
rows_of_other functions_table functions_table rows db d = absurd (d refl)
rows_of_other functions_table revisions_table rows db d = refl
rows_of_other functions_table builds_table rows db d = refl
rows_of_other functions_table bindings_table rows db d = refl
rows_of_other functions_table meta_table rows db d = refl
rows_of_other revisions_table functions_table rows db d = refl
rows_of_other revisions_table revisions_table rows db d = absurd (d refl)
rows_of_other revisions_table builds_table rows db d = refl
rows_of_other revisions_table bindings_table rows db d = refl
rows_of_other revisions_table meta_table rows db d = refl
rows_of_other builds_table functions_table rows db d = refl
rows_of_other builds_table revisions_table rows db d = refl
rows_of_other builds_table builds_table rows db d = absurd (d refl)
rows_of_other builds_table bindings_table rows db d = refl
rows_of_other builds_table meta_table rows db d = refl
rows_of_other bindings_table functions_table rows db d = refl
rows_of_other bindings_table revisions_table rows db d = refl
rows_of_other bindings_table builds_table rows db d = refl
rows_of_other bindings_table bindings_table rows db d = absurd (d refl)
rows_of_other bindings_table meta_table rows db d = refl
rows_of_other meta_table functions_table rows db d = refl
rows_of_other meta_table revisions_table rows db d = refl
rows_of_other meta_table builds_table rows db d = refl
rows_of_other meta_table bindings_table rows db d = refl
rows_of_other meta_table meta_table rows db d = absurd (d refl)

abbrev no_rows : Db
no_rows = record { functions = []; revisions = []; builds = []; bindings = []; meta = [] }

-- A transaction is the database as it would be after it.
abbrev engine : Engine
engine = record {
  Db = Db;
  Txn = Db;
  create = λ path. ok no_rows;
  begin_write = λ db. ok db;
  begin_read = λ db. ok db;
  open_table = λ t db. ok db;
  get = λ t k db. ok (lookup k (rows_of t db));
  insert = λ t k json db. ok (with_rows t (insert k json (rows_of t db)) db);
  remove = λ t k db. ok (with_rows t (remove k (rows_of t db)) db);
  iter = λ t db. ok (rows_of t db);
  commit = λ db. ok db;
}

abbrev row : Db → Table → Bytes → Option Bytes
row db t k = lookup k (rows_of t db)

same_db : {A : Type 0} {x y : Db} (g : Db → A) → ◌≡◌ {A = Result Bytes Db} (ok x) (ok y) → g y ≡ g x
same_db g e = ap g (sym (ground arith))

abbrev view : View engine
view = record { rows = row; staged = row }

engine-IsLawful : IsLawful engine view
engine-IsLawful = record {
  begin_write_rows = λ db t e. same_db row e;
  begin_read_rows = λ db t e. same_db row e;
  open_table_rows = λ table t u e. same_db row e;
  get_rows = λ table key t r e. ground arith;
  insert_rows = λ table key json t u e k.
      same_db (λ db. row db table k) e
      ∙ ap (lookup k) (rows_of-with_rows table (insert key json (rows_of table t)) t)
      ∙ lookup-insert key k json (rows_of table t);
  insert_others = λ table other key json t u e d.
      same_db (λ db. row db other) e
      ∙ ap {A = Rows} {B = Bytes → Option Bytes} (λ m k. lookup k m)
          (rows_of_other table other (insert key json (rows_of table t)) t d);
  remove_rows = λ table key t u e k.
      same_db (λ db. row db table k) e
      ∙ ap (lookup k) (rows_of-with_rows table (remove key (rows_of table t)) t)
      ∙ lookup-remove key k (rows_of table t);
  remove_others = λ table other key t u e d.
      same_db (λ db. row db other) e
      ∙ ap {A = Rows} {B = Bytes → Option Bytes} (λ m k. lookup k m)
          (rows_of_other table other (remove key (rows_of table t)) t d);
  commit_rows = λ t db e. same_db row e;
}

-- A binding that waits, to fixed places: its JSON is the name of its function.
abbrev binding : Bytes → TriggerBinding
binding name = record {
  function_name = name;
  subscription = codes "open-functions";
  topic = codes "orders";
  push_endpoint = codes "/";
  state = pending;
  last_error = none;
  next_retry_at = none;
}

abbrev write_binding : TriggerBinding → Result Bytes Bytes
write_binding b =
    if (b.subscription =? codes "open-functions")
      && (b.topic =? codes "orders")
      && (b.push_endpoint =? codes "/")
    then elim b.state [
      | pending ↦ elim b.last_error [
        | none ↦ elim b.next_retry_at [ none ↦ ok b.function_name | some t ↦ err [] ]
        | some message ↦ err []
      ]
      | _ ↦ err []
    ]
    else err []

binding_back :
    (name subscription topic endpoint : Bytes) (state : BindingState) (last_error : Option Bytes)
    (next_retry_at : Option ℕ) (json : Bytes)
    → let b : TriggerBinding = record {
      function_name = name;
      subscription = subscription;
      topic = topic;
      push_endpoint = endpoint;
      state = state;
      last_error = last_error;
      next_retry_at = next_retry_at;
    } in
      write_binding b ≡ ok json → ◌≡◌ {A = Result Bytes TriggerBinding} (ok (binding json)) (ok b)
binding_back n s t e pending none none json h = ground (
  arith,
  list_eq_iff s (codes "open-functions"),
  list_eq_iff t (codes "orders"),
  list_eq_iff e (codes "/"),
)
binding_back n s t e pending none (some x) json h = absurd (ground arith)
binding_back n s t e pending (some x) y json h = absurd (ground arith)
binding_back n s t e BindingState.bound x y json h = absurd (ground arith)
binding_back n s t e BindingState.unbinding x y json h = absurd (ground arith)
binding_back n s t e BindingState.error x y json h = absurd (ground arith)

-- Nothing else is written.
abbrev unwritable : {A : Type 0} → A → Codec A
unwritable x = record { to_json = λ y. err []; from_json = λ json. ok x }

unwritable-ReadsBack : {A : Type 0} (x : A) → ReadsBack (unwritable x)
unwritable-ReadsBack x y json h = absurd (ground arith)

abbrev codecs : Codecs
codecs = record {
  functions = unwritable greeter;
  revisions = unwritable first_revision;
  builds = unwritable running_build;
  bindings = record { to_json = write_binding; from_json = λ json. ok (binding json) };
}

codecs-ReadBack : ReadBack codecs
codecs-ReadBack = record {
  functions = unwritable-ReadsBack greeter;
  revisions = unwritable-ReadsBack first_revision;
  builds = unwritable-ReadsBack running_build;
  bindings = λ b.
      binding_back b.function_name b.subscription b.topic b.push_endpoint b.state b.last_error
        b.next_retry_at;
}

abbrev changes : List Change
changes =
    puts_binding (binding (codes "greeter"))
    ∷ puts_function greeter
    ∷ puts_binding (binding (codes "mailer"))
    ∷ deletes_binding (codes "greeter")
    ∷ []

nothing_stored : Represents engine view codecs no_rows empty_store
unfolding lookup
nothing_stored = record {
  functions = λ k. tt;
  revisions = λ name n small. tt;
  builds = λ k. tt;
  bindings = λ k. tt;
}

all_on_disk-Represents_example :
    (s : MemoryStore) × (all_in_memory (all_on_disk engine codecs changes no_rows).1 empty_store
      ≡ ok s)
    × Represents engine view codecs (all_on_disk engine codecs changes no_rows).0 s
all_on_disk-Represents_example =
    all_on_disk-Represents engine view engine-IsLawful codecs codecs-ReadBack changes no_rows
      empty_store nothing_stored

-- The function cannot be written; the other three changes succeed.
three_succeed :
    (all_on_disk engine codecs changes no_rows).0.bindings ≡ (codes "mailer", codes "mailer") ∷ []
unfolding all_on_disk put_binding put_function delete_binding put_row delete_row insert remove
three_succeed = refl

-- The database with one binding, and the store with it.
abbrev one_row : Db
one_row = record no_rows { bindings = (codes "greeter", codes "greeter") ∷ [] }

abbrev one_binding : MemoryStore
one_binding = record empty_store { bindings = (codes "greeter", binding (codes "greeter")) ∷ [] }

one_stored : Represents engine view codecs one_row one_binding
unfolding lookup
one_stored = record {
  functions = λ k. tt;
  revisions = λ name n small. tt;
  builds = λ k. tt;
  bindings = λ k. elim (Bool-cases (codes "greeter" =? k)) [ inl e ↦ rw e refl | inr e ↦ rw e tt ];
}

read_on_disk-Represents_example :
    read_in_memory (reads_binding (codes "greeter")) one_binding
    ≡ ok (some (binding (codes "greeter")))
unfolding get_binding get_row lookup
read_on_disk-Represents_example =
    read_on_disk-Represents engine view engine-IsLawful codecs (reads_binding (codes "greeter"))
      one_row one_binding (some (binding (codes "greeter"))) one_stored refl
