-- ===== src/Dashboard/Store/Opened.antt =====
-- dashboard/store.rs: what `open` has made sure of in a database that it accepts.
use dnsbuffer.Prelude.{
  ◌≡◌, refl, sym, Bool, true, false, some, List, [], ◌∷◌, arith, leb, if◌then◌else◌, nat_eq,
  list_eq, All,
}
use dnsbuffer.Prelude.Int.{ltb_ℤ, int_eq}
use dnsbuffer.Dashboard.Store.Queries.{sort_by}
use dnsbuffer.Text.{Text, str}
use dnsbuffer.Resolver.{Result, ok, err, ◌>>=◌, >>=-ok, ok-injective, context-ok}
use dnsbuffer.Dashboard.Store.Schema.{
  RequiredColumn, RequiredTable, Schema, find_table, find_column, serves, key_columns,
  validate_primary_key_columns, validate_column, for_all, validate_table, validate_columns,
  validated, validate_schema, required_columns, upgraded, open_store, schema_version,
}

for_all-ok :
    {A : Type 0} (f : A → Result Unit) (xs : List A)
    → for_all f xs ≡ ok tt
    → All (λ a. f a ≡ ok tt) xs
unfolding for_all
for_all-ok f [] h = tt
for_all-ok f (x ∷ xs) h =
    let (done, here, there) = >>=-ok (f x) (λ done. for_all f xs) tt h in
    (here, for_all-ok f xs there)

guard-ok : (b : Bool) (e : Text) → (if b then ok tt else err e) ≡ ok (tt {0}) → b ≡ true
guard-ok true e h = refl
guard-ok false e h = absurd (ground arith)

bail-ok :
    {A : Type 0} (b : Bool) (e : Text) (r : Result A) (a : A)
    → (if b then err e else r) ≡ ok a
    → (b ≡ false) × (r ≡ ok a)
bail-ok true e r a h = absurd (ground arith)
bail-ok false e r a h = (refl, h)

HasColumn : RequiredTable → RequiredColumn → Type 0
HasColumn t expected =
    (column : RequiredColumn) × (find_column expected.name t.columns ≡ some column)
    × (serves expected column ≡ true)

validate_column-ok :
    (t : RequiredTable) (expected : RequiredColumn)
    → validate_column t.columns expected ≡ ok tt
    → HasColumn t expected
unfolding validate_column HasColumn
validate_column-ok t expected h =
    let (column, found, checked) = >>=-ok _ _ tt h in
    (column, context-ok _ _ column found, guard-ok _ _ checked)

HasTable : List RequiredTable → RequiredTable → Type 0
HasTable tables expected =
    (t : RequiredTable) × (find_table expected.name tables ≡ some t)
    × (All (HasColumn t) expected.columns)

All-map :
    {A : Type 0} {P Q : A → Type 0} (f : (a : A) → P a → Q a) (xs : List A) → All P xs → All Q xs
All-map f [] h = tt
All-map f (x ∷ xs) h = (f x h.0, All-map f xs h.1)

validate_columns-ok :
    (expected t : RequiredTable)
    → validate_columns expected t ≡ ok tt
    → All (HasColumn t) expected.columns
unfolding validate_columns
validate_columns-ok expected t h =
    let (done, keys, columns) =
      >>=-ok
        (validate_primary_key_columns (sort_by (λ a b. leb a.0 b.0) (key_columns t.columns))
          (key_columns expected.columns))
        (λ done. for_all (validate_column t.columns) expected.columns) tt h in
    All-map (validate_column-ok t) expected.columns (for_all-ok _ expected.columns columns)

validate_table-ok :
    (tables : List RequiredTable) (expected : RequiredTable)
    → validate_table tables expected ≡ ok tt
    → HasTable tables expected
unfolding validate_table HasTable
validate_table-ok tables expected h =
    let (t, found, columns) = >>=-ok _ _ tt h in
    (t, context-ok _ _ t found, validate_columns-ok expected t columns)

module _ (probe : Schema → Result {0} Unit) where
  -- A schema that is valid has every required table, with every required column, whose type, NOT
  -- NULL and place in the primary key are as required.
  validate_schema-ok :
      (s : Schema) → validate_schema probe s ≡ ok tt → All (HasTable s.tables) required_columns
  unfolding validate_schema
  validate_schema-ok s h =
      let (done, tables, rest) = >>=-ok _ _ tt h in
      All-map (validate_table-ok s.tables) required_columns (for_all-ok _ required_columns tables)

  validated-ok :
      (s current : Schema)
      → validated probe s ≡ ok current
      → (s ≡ current) × (validate_schema probe s ≡ ok tt)
  unfolding validated
  validated-ok s current h =
      let (done, valid, same) = >>=-ok _ _ current h in (ok-injective same, valid)

  -- A database that is opened has a schema that is valid, and its version was not a newer one.
  open_store-ok :
      (s current : Schema)
      → open_store probe s ≡ ok current
      → (ltb_ℤ schema_version s.user_version ≡ false)
        × (upgraded probe s ≡ ok current)
        × (All (HasTable current.tables) required_columns)
  unfolding open_store
  open_store-ok s current h =
      let (old, opened) =
        bail-ok (ltb_ℤ schema_version s.user_version) (str "database uses newer schema version")
          (upgraded probe s >>= validated probe) current h in
      let (found, reached, rest) = >>=-ok (upgraded probe s) (validated probe) current opened in
      let (same, valid) = validated-ok found current rest in
      (old, rw (sym same) reached, rw (sym same) (validate_schema-ok found valid))
