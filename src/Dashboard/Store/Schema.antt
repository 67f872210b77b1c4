-- ===== src/Dashboard/Store/Schema.antt =====
-- dashboard/store.rs: the version and the schema of a database that is opened.
use dnsbuffer.Prelude.{
  map, ℕ, Bool, true, false, not, ◌&&◌, ◌||◌, Option, none, some, List, [], ◌∷◌, ◌++◌, ltb, leb,
  if◌then◌else◌, ◌==◌, nat_eq, list_eq, any_of,
}
use dnsbuffer.Prelude.Int.{ℤ, pos, ltb_ℤ, int_eq}
use dnsbuffer.Text.{Text, str, to_lowercase}
use dnsbuffer.Resolver.{Result, ok, err, ◌>>=◌, context}
use dnsbuffer.Dashboard.Store.Queries.{sort_by}

-- A row of `PRAGMA table_info`, as far as it is read; the ordinal is 0 outside the primary key.
pub record RequiredColumn : Type 0 where
  pub name : Text
  pub data_type : Text
  pub not_null : Bool
  pub primary_key : ℕ

pub record RequiredTable : Type 0 where
  pub name : Text
  pub columns : List RequiredColumn

-- A row of `PRAGMA foreign_key_list(query_response_ips)`.
pub record ForeignKey : Type 0 where
  pub table : Text
  pub from : Text
  pub to : Text
  pub on_delete : Text

-- An index of a table, with its columns.
pub record RequiredIndex : Type 0 where
  pub table : Text
  pub name : Text
  pub columns : List Text

-- What the pragmas tell of a database.
pub record Schema : Type 0 where
  pub user_version : ℤ
  pub tables : List RequiredTable
  pub foreign_keys : List ForeignKey
  pub indexes : List RequiredIndex

abbrev pub schema_version : ℤ
schema_version = pos 2

-- A required column: its name, its type, whether it must be NOT NULL, and its ordinal.
abbrev pub col : Text → Text → Bool → ℕ → RequiredColumn
col name data_type not_null primary_key = record {
  name = name;
  data_type = data_type;
  not_null = not_null;
  primary_key = primary_key;
}

unfoldable pub stats_columns : List RequiredColumn
stats_columns =
    col (str "bucket_ms") (str "INTEGER") false 1
    ∷ col (str "total_queries") (str "INTEGER") true 0
    ∷ col (str "blocked_queries") (str "INTEGER") true 0
    ∷ col (str "cache_hits") (str "INTEGER") true 0
    ∷ []

unfoldable pub required_columns : List RequiredTable
required_columns =
    record {
      name = str "query_logs";
      columns =
          col (str "id") (str "INTEGER") false 1
          ∷ col (str "timestamp_ms") (str "INTEGER") true 0
          ∷ col (str "domain") (str "TEXT") true 0
          ∷ col (str "query_type") (str "TEXT") true 0
          ∷ col (str "response_code") (str "TEXT") true 0
          ∷ col (str "duration_ms") (str "INTEGER") true 0
          ∷ col (str "blocked") (str "INTEGER") true 0
          ∷ col (str "cache_hit") (str "INTEGER") true 0
          ∷ col (str "upstream") (str "TEXT") false 0
          ∷ [];
    }
    ∷ record {
      name = str "query_response_ips";
      columns =
          col (str "query_id") (str "INTEGER") true 1 ∷ col (str "ip") (str "TEXT") true 2 ∷ [];
    }
    ∷ record { name = str "query_hourly_stats"; columns = stats_columns }
    ∷ record { name = str "query_daily_stats"; columns = stats_columns }
    ∷ []

unfoldable pub required_indexes : List RequiredIndex
required_indexes =
    record {
      table = str "query_logs";
      name = str "query_logs_time_idx";
      columns = str "timestamp_ms" ∷ str "id" ∷ [];
    }
    ∷ record {
      table = str "query_logs";
      name = str "query_logs_domain_idx";
      columns = str "domain" ∷ [];
    }
    ∷ record {
      table = str "query_response_ips";
      name = str "query_response_ips_ip_idx";
      columns = str "ip" ∷ [];
    }
    ∷ []

unfoldable pub eq_ignore_ascii_case : Text → Text → Bool
eq_ignore_ascii_case a b = to_lowercase a == to_lowercase b

unfoldable pub find_table : Text → List RequiredTable → Option RequiredTable
find_table name [] = none
find_table name (t ∷ ts) = if t.name == name then some t else find_table name ts

unfoldable pub find_column : Text → List RequiredColumn → Option RequiredColumn
find_column name [] = none
find_column name (c ∷ cs) = if c.name == name then some c else find_column name cs

unfoldable pub key_columns : List RequiredColumn → List (ℕ × Text)
key_columns [] = []
key_columns (c ∷ cs) =
    let rest = key_columns cs in
    if ltb 0 c.primary_key then (c.primary_key, c.name) ∷ rest else rest

unfoldable pub same_key : List (ℕ × Text) → List (ℕ × Text) → Bool
same_key [] [] = true
same_key ((i, a) ∷ as') ((j, b) ∷ bs) = i == j && eq_ignore_ascii_case a b && same_key as' bs
same_key _ _ = false

unfoldable pub validate_primary_key_columns : List (ℕ × Text) → List (ℕ × Text) → Result {0} Unit
validate_primary_key_columns actual expected =
    if same_key actual expected
    then ok tt
    else err (str "database schema v1 table has an invalid primary key sequence")

-- A column serves as the one that is required.
unfoldable pub serves : RequiredColumn → RequiredColumn → Bool
serves expected column =
    eq_ignore_ascii_case column.data_type expected.data_type
    && (not expected.not_null || column.not_null)
    && column.primary_key == expected.primary_key

unfoldable pub validate_column : List RequiredColumn → RequiredColumn → Result {0} Unit
validate_column columns expected =
    context (find_column expected.name columns)
      (str "database schema v1 table is missing required column")
    >>= λ column.
        if serves expected column
        then ok tt
        else err (str "database schema v1 column must be of the required type")

-- A loop over what is required, up to the first error.
unfoldable pub for_all : {A : Type 0} → (A → Result {0} Unit) → List A → Result {0} Unit
for_all f [] = ok tt
for_all f (a ∷ rest) = f a >>= λ done. for_all f rest

unfoldable pub validate_columns : RequiredTable → RequiredTable → Result {0} Unit
validate_columns expected table =
    validate_primary_key_columns (sort_by (λ a b. leb a.0 b.0) (key_columns table.columns))
      (key_columns expected.columns)
    >>= λ done. for_all (validate_column table.columns) expected.columns

unfoldable pub validate_table : List RequiredTable → RequiredTable → Result {0} Unit
validate_table tables expected =
    context (find_table expected.name tables) (str "database schema v1 is missing required table")
    >>= validate_columns expected

unfoldable pub cascades : ForeignKey → Bool
cascades k =
    k.table == str "query_logs"
    && k.from == str "query_id"
    && k.to == str "id"
    && eq_ignore_ascii_case k.on_delete (str "CASCADE")

unfoldable pub find_index : RequiredIndex → List RequiredIndex → Option RequiredIndex
find_index expected [] = none
find_index expected (i ∷ rest) =
    if i.table == expected.table && i.name == expected.name
    then some i
    else find_index expected rest

unfoldable pub validate_index : List RequiredIndex → RequiredIndex → Result {0} Unit
validate_index indexes expected =
    context (find_index expected indexes) (str "database schema v1 is missing required index")
    >>= λ index.
        if index.columns == expected.columns
        then ok tt
        else err (str "database schema v1 index must cover its columns")

unfoldable pub with_upstream : RequiredTable → RequiredTable
with_upstream t =
    if any_of (λ (c : RequiredColumn). c.name == str "upstream") t.columns
    then t
    else record t { columns = t.columns ++ col (str "upstream") (str "TEXT") false 0 ∷ [] }

-- The names of tables are distinct, so that one table at most is changed.
unfoldable pub add_upstream : List RequiredTable → List RequiredTable
add_upstream [] = []
add_upstream (t ∷ ts) =
    (if t.name == str "query_logs" then with_upstream t else t) ∷ add_upstream ts

unfoldable pub migrate_to_current : Schema → Schema
migrate_to_current s = record s { tables = add_upstream s.tables; user_version = schema_version }

-- `CREATE TABLE` of version 2, as the pragmas tell of its tables.
unfoldable pub created_tables : List RequiredTable
created_tables =
    record {
      name = str "query_logs";
      columns =
          col (str "id") (str "INTEGER") false 1
          ∷ col (str "timestamp_ms") (str "INTEGER") true 0
          ∷ col (str "domain") (str "TEXT") true 0
          ∷ col (str "query_type") (str "TEXT") true 0
          ∷ col (str "response_code") (str "TEXT") true 0
          ∷ col (str "duration_ms") (str "INTEGER") true 0
          ∷ col (str "blocked") (str "INTEGER") true 0
          ∷ col (str "cache_hit") (str "INTEGER") true 0
          ∷ col (str "upstream") (str "TEXT") false 0
          ∷ [];
    }
    ∷ record {
      name = str "query_response_ips";
      columns =
          col (str "query_id") (str "INTEGER") true 1 ∷ col (str "ip") (str "TEXT") true 2 ∷ [];
    }
    ∷ record { name = str "query_hourly_stats"; columns = stats_columns }
    ∷ record { name = str "query_daily_stats"; columns = stats_columns }
    ∷ []

unfoldable pub created_indexes : List RequiredIndex
created_indexes =
    record {
      table = str "query_logs";
      name = str "query_logs_time_idx";
      columns = str "timestamp_ms" ∷ str "id" ∷ [];
    }
    ∷ record {
      table = str "query_logs";
      name = str "query_logs_domain_idx";
      columns = str "domain" ∷ [];
    }
    ∷ record {
      table = str "query_response_ips";
      name = str "query_response_ips_ip_idx";
      columns = str "ip" ∷ [];
    }
    ∷ []

unfoldable pub cascade_key : ForeignKey
cascade_key = record {
  table = str "query_logs";
  from = str "query_id";
  to = str "id";
  on_delete = str "CASCADE";
}

unfoldable pub fresh_schema : Schema
fresh_schema = record {
  user_version = schema_version;
  tables = created_tables;
  foreign_keys = cascade_key ∷ [];
  indexes = created_indexes;
}

unfoldable pub names : Schema → List Text
names s =
    map (λ (t : RequiredTable). t.name) s.tables ++ map (λ (i : RequiredIndex). i.name) s.indexes

-- The tables and indexes of version 2, or an error, without any of them, where a name is taken.
unfoldable pub create_schema : Schema → Result Schema
create_schema s =
    if any_of (λ a. any_of (eq_ignore_ascii_case a) (names s)) (names fresh_schema)
    then err (str "there is already a table or an index of this name")
    else ok (record {
      user_version = schema_version;
      tables = s.tables ++ created_tables;
      foreign_keys = s.foreign_keys ++ cascade_key ∷ [];
      indexes = s.indexes ++ created_indexes;
    })

-- `probe` is what comes of the statements of `validate_schema_behavior`, which are rolled back.
module _ (probe : Schema → Result {0} Unit) where
  unfoldable pub validate_schema : Schema → Result {0} Unit
  validate_schema s = for_all (validate_table s.tables) required_columns >>= λ done.
      if not (any_of cascades s.foreign_keys)
      then err (str "database schema v1 query_response_ips.query_id must reference query_logs.id")
      else (for_all (validate_index s.indexes) required_indexes >>= λ done. probe s)

  unfoldable pub validated : Schema → Result Schema
  validated s = validate_schema s >>= λ done. ok s

  -- The schema of version 2 that an older one is brought to.
  unfoldable pub upgraded : Schema → Result Schema
  upgraded s =
      if s.user_version == pos 0
      then create_schema s
      else if ltb_ℤ s.user_version schema_version
      then ok (migrate_to_current s)
      else ok s

  unfoldable pub open_store : Schema → Result Schema
  open_store s =
      if ltb_ℤ schema_version s.user_version
      then err (str "database uses newer schema version")
      else (upgraded s >>= validated)
