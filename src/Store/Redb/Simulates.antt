-- ===== src/Store/Redb/Simulates.antt =====
-- The store on disk does what the store in memory does.
use open_functions.Prelude.{
  ℕ, ◌^◌, ◌<◌, Bytes, Bool, true, false, Option, none, some, Dict, lookup, lookup-insert,
  lookup-remove, ◌=?◌, list_Eq, ℕ_Eq, pair_Eq, Eq, Result, ok, err, Bool-cases, ◌>>=◌, ◌≡◌, ◌≢◌,
  refl, sym, ap, ◌∙◌, subst, inl, inr, if◌then◌else◌, arith, insert, remove, pair_eq_iff,
  list_eq_iff,
}
use open_functions.Store.{StoreError}
use open_functions.Store.Redb.{
  Table, Engine, Codec, Codecs, backend_err, revision_key, put_row, delete_row, get_row, read_row,
}
use open_functions.Store.Redb.Keys.{revision_key_injective}

-- `rows` is what is committed, and `staged` what a transaction sees.
pub record View (e : Engine) : Type 0 where
  pub rows : e.Db → Table → Bytes → Option Bytes
  pub staged : e.Txn → Table → Bytes → Option Bytes

-- What the database promises.
pub record IsLawful (e : Engine) (view : View e) : Type 0 where
  pub begin_write_rows :
      (db : e.Db) (t : e.Txn) → e.begin_write db ≡ ok t → view.staged t ≡ view.rows db
  pub begin_read_rows :
      (db : e.Db) (t : e.Txn) → e.begin_read db ≡ ok t → view.staged t ≡ view.rows db
  pub open_table_rows :
      (table : Table) (t u : e.Txn) → e.open_table table t ≡ ok u → view.staged u ≡ view.staged t
  pub get_rows :
      (table : Table) (key : Bytes) (t : e.Txn) (r : Option Bytes)
      → e.get table key t ≡ ok r
      → r ≡ view.staged t table key
  pub insert_rows :
      (table : Table) (key json : Bytes) (t u : e.Txn)
      → e.insert table key json t ≡ ok u
      → (k : Bytes)
      → view.staged u table k ≡ (if key =? k then some json else view.staged t table k)
  pub insert_others :
      (table other : Table) (key json : Bytes) (t u : e.Txn)
      → e.insert table key json t ≡ ok u
      → other ≢ table
      → view.staged u other ≡ view.staged t other
  pub remove_rows :
      (table : Table) (key : Bytes) (t u : e.Txn)
      → e.remove table key t ≡ ok u
      → (k : Bytes) → view.staged u table k ≡ (if key =? k then none else view.staged t table k)
  pub remove_others :
      (table other : Table) (key : Bytes) (t u : e.Txn)
      → e.remove table key t ≡ ok u
      → other ≢ table
      → view.staged u other ≡ view.staged t other
  pub commit_rows : (t : e.Txn) (db : e.Db) → e.commit t ≡ ok db → view.rows db ≡ view.staged t

-- What is written is read again.
abbrev pub ReadsBack : {A : Type 0} → Codec A → Type 0
ReadsBack {A} codec =
    (x : A) (json : Bytes) → codec.to_json x ≡ ok json → codec.from_json json ≡ ok x

pub record ReadBack (c : Codecs) : Type 0 where
  pub functions : ReadsBack (c.functions)
  pub revisions : ReadsBack (c.revisions)
  pub builds : ReadsBack (c.builds)
  pub bindings : ReadsBack (c.bindings)

-- A row is the JSON of an entry, or neither is there.
abbrev pub Encodes : {A : Type 0} → Codec A → Option Bytes → Option A → Type 0
Encodes codec none none = Unit {0}
Encodes codec none (some x) = ⊥
Encodes codec (some json) none = ⊥
Encodes codec (some json) (some x) = codec.from_json json ≡ ok x

ok-injective : {E A : Type 0} {x y : A} → ◌≡◌ {A = Result E A} (ok x) (ok y) → x ≡ y
ok-injective h = ground arith

backend_ok :
    {A : Type 0} {B : Type 0} (r : Result Bytes A) (k : A → Result StoreError B) (b : B)
    → (backend_err r >>= k) ≡ ok b
    → (a : A) × (r ≡ ok a) × (k a ≡ ok b)
backend_ok (ok a) k b h = (a, refl, h)
backend_ok (err x) k b h = absurd (ground arith)

backend_last : {A : Type 0} (r : Result Bytes A) (a : A) → backend_err r ≡ ok a → r ≡ ok a
backend_last (ok b) a h = ap ok (ok-injective h)
backend_last (err x) a h = absurd (ground arith)

module _ (e : Engine) (view : View e) (law : IsLawful e view) where
  pub put_row_rows :
      {A : Type 0} (codec : Codec A) (table : Table) (key : Bytes) (x : A) (db db' : e.Db)
      → put_row e codec table key x db ≡ ok db'
      → (json : Bytes) × (codec.to_json x ≡ ok json)
        × ((k : Bytes)
            → view.rows db' table k ≡ (if key =? k then some json else view.rows db table k))
        × ((other : Table) → other ≢ table → view.rows db' other ≡ view.rows db other)
  unfolding put_row
  put_row_rows codec table key x db db' h =
      let (json, q1, h1) = backend_ok (codec.to_json x) _ db' h in
      let (begun, q2, h2) = backend_ok (e.begin_write db) _ db' h1 in
      let (opened, q3, h3) = backend_ok (e.open_table table begun) _ db' h2 in
      let (written, q4, h4) = backend_ok (e.insert table key json opened) _ db' h3 in
      let q5 = backend_last (e.commit written) db' h4 in
      let start : view.staged opened ≡ view.rows db =
        law.open_table_rows table begun opened q3 ∙ law.begin_write_rows db begun q2 in
      let end : view.rows db' ≡ view.staged written = law.commit_rows written db' q5 in
      (
        json,
        q1,
        λ k.
            ap (λ s. s table k) end
            ∙ law.insert_rows table key json opened written q4 k
            ∙ ap (λ s. if key =? k then some json else s table k) start,
        λ other d.
            ap (λ s. s other) end
            ∙ law.insert_others table other key json opened written q4 d
            ∙ ap (λ s. s other) start,
      )

  pub delete_row_rows :
      (table : Table) (key : Bytes) (db db' : e.Db)
      → delete_row e table key db ≡ ok db'
      → ((k : Bytes) → view.rows db' table k ≡ (if key =? k then none else view.rows db table k))
        × ((other : Table) → other ≢ table → view.rows db' other ≡ view.rows db other)
  unfolding delete_row
  delete_row_rows table key db db' h =
      let (begun, q2, h2) = backend_ok (e.begin_write db) _ db' h in
      let (opened, q3, h3) = backend_ok (e.open_table table begun) _ db' h2 in
      let (written, q4, h4) = backend_ok (e.remove table key opened) _ db' h3 in
      let q5 = backend_last (e.commit written) db' h4 in
      let start : view.staged opened ≡ view.rows db =
        law.open_table_rows table begun opened q3 ∙ law.begin_write_rows db begun q2 in
      let end : view.rows db' ≡ view.staged written = law.commit_rows written db' q5 in
      (
        λ k.
            ap (λ s. s table k) end
            ∙ law.remove_rows table key opened written q4 k
            ∙ ap (λ s. if key =? k then none else s table k) start,
        λ other d.
            ap (λ s. s other) end
            ∙ law.remove_others table other key opened written q4 d
            ∙ ap (λ s. s other) start,
      )

  -- A read that succeeds gives the row.
  pub get_row_rows :
      {A : Type 0} (codec : Codec A) (table : Table) (key : Bytes) (db : e.Db) (r : Option A)
      → get_row e codec table key db ≡ ok r
      → Encodes codec (view.rows db table key) r
  unfolding get_row
  get_row_rows {A} codec table key db r h =
      let (begun, q2, h2) = backend_ok (e.begin_read db) _ r h in
      let (opened, q3, h3) = backend_ok (e.open_table table begun) _ r h2 in
      let (found, q4, h4) = backend_ok (e.get table key opened) _ r h3 in
      let start : view.staged opened ≡ view.rows db =
        law.open_table_rows table begun opened q3 ∙ law.begin_read_rows db begun q2 in
      let same : found ≡ view.rows db table key =
        law.get_rows table key opened found q4 ∙ ap (λ s. s table key) start in
      subst (λ x. Encodes codec x r) same (of_row found h4)
    where
      of_row : (x : Option Bytes) → read_row e codec x ≡ ok r → Encodes codec x r
      of_row none q = subst (Encodes codec none) (ok-injective q) tt
      of_row (some json) q =
          let (y, p, s) = backend_ok (codec.from_json json) _ r q in
          subst (Encodes codec (some json)) (ok-injective s) p

module _ {A K : Type 0} ⦃eq : Eq K⦄ (codec : Codec A) where
  inserted :
      (key k : K) (same : Bool) (x : A) (m : Dict K A)
      → same ≡ (key =? k)
      → lookup k (insert key x m) ≡ (if same then some x else lookup k m)
  inserted key k same x m q =
      lookup-insert key k x m ∙ ap (λ b. if b then some x else lookup k m) (sym q)

  removed :
      (key k : K) (same : Bool) (m : Dict K A)
      → same ≡ (key =? k)
      → lookup k (remove key m) ≡ (if same then none else lookup k m)
  removed key k same m q = lookup-remove key k m ∙ ap (λ b. if b then none else lookup k m) (sym q)

  pub Encodes-insert :
      (key k : K) (same : Bool) (x : A) (json : Bytes) (row : Option Bytes) (m : Dict K A)
      → codec.from_json json ≡ ok x
      → same ≡ (key =? k)
      → Encodes codec row (lookup k m)
      → Encodes codec (if same then some json else row) (lookup k (insert key x m))
  Encodes-insert key k true x json row m r q h =
      subst (Encodes codec (some json)) (sym (inserted key k true x m q)) r
  Encodes-insert key k false x json row m r q h =
      subst (Encodes codec row) (sym (inserted key k false x m q)) h

  pub Encodes-remove :
      (key k : K) (same : Bool) (row : Option Bytes) (m : Dict K A)
      → same ≡ (key =? k)
      → Encodes codec row (lookup k m)
      → Encodes codec (if same then none else row) (lookup k (remove key m))
  Encodes-remove key k true row m q h = subst (Encodes codec none) (sym (removed key k true m q)) tt
  Encodes-remove key k false row m q h = subst (Encodes codec row) (sym (removed key k false m q)) h

abbrev pub same_revision : Bytes → ℕ → Bytes → ℕ → Bool
same_revision name n other m = ◌=?◌ {A = Bytes × ℕ} (name, n) (other, m)

pub revision_key_same :
    (name other : Bytes) (n m : ℕ)
    → n < 2 ^ 32
    → m < 2 ^ 32
    → (revision_key name n =? revision_key other m) ≡ same_revision name n other m
revision_key_same name other n m a b =
    let pairs = pair_eq_iff {A = Bytes} {B = ℕ} (name, n) (other, m) in
    let keys = list_eq_iff (revision_key name n) (revision_key other m) in
    elim (Bool-cases (same_revision name n other m)) [
      | inl p ↦ keys.1 (ap (λ (x : Bytes × ℕ). revision_key x.0 x.1) (pairs.0 p)) ∙ sym p
      | inr p ↦ elim (Bool-cases (revision_key name n =? revision_key other m)) [
        | inl q ↦
            let (s, t) = revision_key_injective name other n m a b (keys.0 q) in
            absurd (ground (arith, pairs.1 (ground (arith, s, t))))
        | inr q ↦ q ∙ sym p
      ]
    ]
