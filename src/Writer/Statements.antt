-- ===== src/Writer/Statements.antt =====
-- internal/postgres/writer.go: one function for each statement of the writer.
use existora2pg.Ddl.{qualified_name, convert_table_name}
use existora2pg.Ddl.Statements.{
  PartitionBound, generate_drop_table, generate_create_table, generate_partition_ddl,
  generate_primary_key, generate_indexes, generate_constraints, generate_sequence,
}
use existora2pg.Prelude.Int.{ℤ, pos, is_positive}
use existora2pg.Schema.{Table, Sequence}
use existora2pg.Writer.{
  Executed, Answer, found, absent, unknown, PgPool, Writer, is_comment_only, catalog_schema,
  writer_name, partition_table, concurrently, and_then, send, send_all, send_all_new, affected,
  failed,
}
use existora2pg.Prelude.{
  ℕ, Bool, true, false, not, Text, codes, List, [], ◌∷◌, ◌++◌, Option, none, some, if◌then◌else◌,
  is_nil, text_eq, trim_space, split_on, map, select,
}

-- int64(estimate)
abbrev pub whole : ℤ → ℕ
whole (pos n) = n
whole _ = 0

module _ {Pg : Type 0} (pool : PgPool Pg) (w : Writer) where
  unfoldable pub drop_first : Table → Bool → Pg → Pg × Option Text
  unfolding generate_drop_table writer_name
  drop_first t true pg =
      send pool (codes "drop table " ++ writer_name w t.name)
        (generate_drop_table w.pg_schema w.naming t.name) pg
  drop_first t false pg = (pg, none)

  -- CreateTable
  unfoldable pub create_table : Table → Bool → Pg → Pg × Option Text
  unfolding generate_create_table writer_name
  create_table t drop_if_exists pg =
      and_then pool
        (send pool (codes "create table " ++ writer_name w t.name)
          (generate_create_table w.pg_schema w.naming t w.unlogged))
        (drop_first t drop_if_exists pg)

  -- CreatePartitions
  unfoldable pub create_partitions : Table → List PartitionBound → Pg → Pg × Option Text
  unfolding generate_partition_ddl send_all
  create_partitions t bounds pg =
      send_all pool (codes "create partition")
        (generate_partition_ddl w.pg_schema w.naming t bounds) pg

  -- The statements of the indexes, without those that are comments only.
  unfoldable pub index_ddls : Table → List Text
  unfolding generate_indexes is_comment_only
  index_ddls t = select (λ ddl. not (is_comment_only ddl)) (generate_indexes w.pg_schema w.naming t)

  -- The statement of the primary key, if there is one.
  unfoldable pub key_ddls : Table → List Text
  unfolding generate_primary_key
  key_ddls t =
      let pk = generate_primary_key w.pg_schema w.naming t in if is_nil pk then [] else pk ∷ []

  -- CreateConstraintsAndIndexes
  unfoldable pub create_constraints_and_indexes : Table → Pg → Pg × Option Text
  unfolding key_ddls index_ddls generate_constraints send_all
  create_constraints_and_indexes t pg =
      and_then pool
        (λ keyed.
          and_then pool
            (send_all pool (codes "create constraint for " ++ t.name)
              (generate_constraints w.pg_schema w.naming t))
            (send_all pool (codes "create index for " ++ t.name) (index_ddls t) keyed))
        (send_all pool (codes "create PK for " ++ t.name) (key_ddls t) pg)

  -- CreatePrimaryKey
  unfoldable pub create_primary_key : Table → Pg → Pg × Option Text
  unfolding key_ddls send_all_new
  create_primary_key t pg = send_all_new pool (codes "create PK for " ++ t.name) (key_ddls t) pg

  -- The statements that CreateIndexesRaw sends in each mode.
  unfoldable pub index_statements : Table → Text → List Text
  unfolding index_ddls concurrently
  index_statements t index_mode =
      if text_eq index_mode (codes "skip")
      then []
      else if text_eq index_mode (codes "concurrent")
      then map concurrently (index_ddls t)
      else index_ddls t

  -- CreateIndexesRaw
  unfoldable pub create_indexes_raw : Table → Text → Pg → Pg × Option Text
  unfolding index_statements send_all_new
  create_indexes_raw t index_mode pg =
      send_all_new pool (codes "create index for " ++ t.name) (index_statements t index_mode) pg

  -- CreateFKAndOtherConstraints
  unfoldable pub create_fk_and_other_constraints : Table → Pg → Pg × Option Text
  unfolding generate_constraints send_all_new
  create_fk_and_other_constraints t pg =
      send_all_new pool (codes "create constraint for " ++ t.name)
        (generate_constraints w.pg_schema w.naming t) pg

  -- The lines of a text that are not blank, trimmed.
  abbrev pub filled_lines : List Text → List Text
  unfolding trim_space
  filled_lines [] = []
  filled_lines (l ∷ ls) =
      let rest = filled_lines ls in if is_nil (trim_space l) then rest else trim_space l ∷ rest

  -- CreateSequence
  unfoldable pub create_sequence : Sequence → Pg → Pg × Option Text
  unfolding generate_sequence split_on send_all
  create_sequence seq pg =
      send_all pool (codes "create sequence " ++ seq.name)
        (filled_lines (split_on (b'\n') (generate_sequence w.pg_schema w.naming seq))) pg

  -- ConvertToLogged
  unfoldable pub convert_to_logged : List Text → Pg → Pg × Option Text
  unfolding writer_name
  convert_to_logged [] pg = (pg, none)
  convert_to_logged (t ∷ ts) pg = and_then pool (convert_to_logged ts) (
      send pool (codes "set logged " ++ writer_name w t)
        (codes "ALTER TABLE " ++ (writer_name w t ++ codes " SET LOGGED")) pg)

  -- An error that is passed on as it is.
  abbrev pub plain : Pg × Executed → Pg × Option Text
  plain (pg, affected n) = (pg, none)
  plain (pg, failed e) = (pg, some e)

  -- TruncateTable
  unfoldable pub truncate_table : Text → Pg → Pg × Option Text
  unfolding writer_name
  truncate_table name pg = plain (pool.exec (codes "TRUNCATE TABLE " ++ writer_name w name) pg)

  abbrev pub truncate_listed : Text → Pg → Answer → Pg × Option Text
  unfolding qualified_name
  truncate_listed name pg found =
      plain (pool.exec (codes "TRUNCATE TABLE " ++ qualified_name w.pg_schema name) pg)
  truncate_listed name pg absent = (pg, none)
  truncate_listed name pg (unknown e) = (pg, some (codes "check partition existence: " ++ e))

  -- TruncatePartition
  unfoldable pub truncate_partition : Text → Text → Pg → Pg × Option Text
  unfolding partition_table catalog_schema
  truncate_partition parent part pg =
      let name = partition_table w parent part in
      truncate_listed name pg (pool.is_listed (catalog_schema w.pg_schema) name pg)

  -- TableExists
  unfoldable pub table_exists : Text → Pg → Answer
  unfolding catalog_schema convert_table_name
  table_exists name pg =
      pool.is_listed (catalog_schema w.pg_schema) (convert_table_name w.naming name) pg

  -- DeleteByFilter
  unfoldable pub delete_by_filter : Text → Text → Pg → Pg × Option Text
  unfolding writer_name
  delete_by_filter name where_clause pg = plain (
      pool.exec (codes "DELETE FROM " ++ (writer_name w name ++ (codes " WHERE " ++ where_clause)))
        pg)

  -- Count
  unfoldable pub count : Text → Pg → Option ℕ
  unfolding writer_name
  count name pg = pool.count_query (codes "SELECT COUNT(*) FROM " ++ writer_name w name) pg

  -- An error of the exact count is dropped, and the count is 0.
  abbrev pub or_zero : Option ℕ → Option ℕ
  or_zero none = some 0
  or_zero (some n) = some n

  abbrev pub from_estimate : Text → Text → Pg → Option ℤ → Option ℕ
  from_estimate schema table pg none = none
  from_estimate schema table pg (some n) =
      if is_positive n
      then some (whole n)
      else or_zero (
          pool.count_query
            (codes "SELECT COUNT(*) FROM "
              ++ (pool.sanitize schema ++ (b'.' ∷ pool.sanitize table)))
            pg)

  -- EstimateCount
  unfoldable pub estimate_count : Text → Pg → Option ℕ
  unfolding catalog_schema convert_table_name
  estimate_count name pg =
      let schema = catalog_schema w.pg_schema in
      let table = convert_table_name w.naming name in
      from_estimate schema table pg (pool.reltuples schema table pg)
