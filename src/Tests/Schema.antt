-- ===== src/Tests/Schema.antt =====
-- Tests of the schema of the history store: which databases are opened.
use dnsbuffer.Prelude.{take, ◌≡◌, refl, List, [], ◌∷◌, nat_eq, list_beq, list_eq, take}
use dnsbuffer.Prelude.Int.{pos}
use dnsbuffer.Text.{str, to_lowercase}
use dnsbuffer.Resolver.{Result, ok, err}
use dnsbuffer.Dashboard.Store.Queries.{sort_by, insert_by}
use dnsbuffer.Dashboard.Store.Schema.{
  Schema, RequiredTable, add_upstream, cascade_key, cascades, create_schema, created_indexes,
  created_tables, eq_ignore_ascii_case, find_column, find_index, find_table, for_all, fresh_schema,
  key_columns, migrate_to_current, names, open_store, required_columns, required_indexes, same_key,
  serves, stats_columns, upgraded, validate_column, validate_columns, validate_index,
  validate_primary_key_columns, validate_schema, validate_table, validated, with_upstream,
}

abbrev passes : Schema → Result {0} Unit
passes s = ok tt

abbrev empty : Schema
empty = record { user_version = pos 0; tables = []; foreign_keys = []; indexes = [] }

-- A new database is created and accepted.
new_database : open_store passes empty ≡ ok fresh_schema
unfolding list_beq insert_by sort_by to_lowercase add_upstream cascade_key cascades create_schema
    created_indexes created_tables eq_ignore_ascii_case find_column find_index find_table for_all
    fresh_schema key_columns migrate_to_current names open_store required_columns required_indexes
    same_key serves stats_columns upgraded validate_column validate_columns validate_index
    validate_primary_key_columns validate_schema validate_table validated with_upstream
new_database = refl

-- A database of a version that is not known is refused.
newer_database :
    open_store passes (record fresh_schema { user_version = pos 3 })
    ≡ err (str "database uses newer schema version")
unfolding open_store
newer_database = refl

-- The tables of version 1: the log of version 2 without its last column.
abbrev first_columns : List RequiredTable → List RequiredTable
first_columns [] = []
first_columns (t ∷ ts) = record t { columns = take 8 t.columns } ∷ ts

-- A database of version 1 is brought to version 2.
older_database :
    open_store passes
      (record fresh_schema { user_version = pos 1; tables = first_columns created_tables })
    ≡ ok fresh_schema
unfolding list_beq insert_by sort_by to_lowercase add_upstream cascade_key cascades create_schema
    created_indexes created_tables eq_ignore_ascii_case find_column find_index find_table for_all
    fresh_schema key_columns migrate_to_current names open_store required_columns required_indexes
    same_key serves stats_columns upgraded validate_column validate_columns validate_index
    validate_primary_key_columns validate_schema validate_table validated with_upstream
older_database = refl
