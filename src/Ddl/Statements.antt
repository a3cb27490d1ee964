-- ===== src/Ddl/Statements.antt =====
-- The statements that internal/postgres/ddl.go generates.
use existora2pg.Ddl.{
  NamingConfig, quote_ident, qualified_name, convert_name, convert_table_name, convert_column_name,
  get_column_type, convert_columns_join,
}
use existora2pg.Schema.{
  Table, Column, Index, IndexColumn, Constraint, ConstraintType, Sequence, PartitionInfo,
  is_partitioned,
}
use existora2pg.Prelude.Int.{is_positive, int_leb, show_int}
use existora2pg.Prelude.{
  ◌==◌, select, false, Bool, Text, codes, List, [], ◌∷◌, ◌++◌, map, join, text_eq, is_nil, Option,
  none, some, if◌then◌else◌, not, ◌&&◌,
}

-- The pieces of a statement, one after the other.
abbrev pub concat : List Text → Text
concat [] = []
concat (t ∷ ts) = t ++ concat ts

abbrev pub when : Bool → Text → Text
when b t = if b then t else []

abbrev pub default_clause : Option Text → Text
default_clause none = []
default_clause (some e) = codes " DEFAULT " ++ e

module _ (pg_schema : Text) (nc : NamingConfig) where
  abbrev pub column_def : Text → Column → Text
  unfolding convert_column_name get_column_type
  column_def table col = concat (
      codes "    "
      ∷ convert_column_name nc table col.name
      ∷ codes " "
      ∷ get_column_type nc table col.name col.pg_type
      ∷ when (not col.nullable) (codes " NOT NULL")
      ∷ default_clause col.default_expr
      ∷ [])

  -- The lines of the columns: a comma after each but the last.
  abbrev pub column_lines : Text → List Column → Text
  column_lines table [] = []
  column_lines table (c ∷ []) = column_def table c ++ (b'\n' ∷ [])
  column_lines table (c ∷ d ∷ cs) =
      column_def table c ++ (b',' ∷ b'\n' ∷ column_lines table (d ∷ cs))

  abbrev pub partition_clause : Table → Option PartitionInfo → Text
  unfolding convert_columns_join
  partition_clause t none = []
  partition_clause t (some info) =
      if is_partitioned t
      then concat (
          codes " PARTITION BY "
          ∷ info.strategy
          ∷ codes " ("
          ∷ convert_columns_join nc t.name info.key_columns
          ∷ codes ")"
          ∷ [])
      else []

  abbrev pub table_name : Text → Text
  unfolding qualified_name convert_table_name
  table_name name = qualified_name pg_schema (convert_table_name nc name)

  abbrev pub object_name : Text → Text
  unfolding quote_ident convert_name
  object_name name = quote_ident (convert_name nc name)

  -- generateCreateTableInternal
  unfoldable pub generate_create_table : Table → Bool → Text
  generate_create_table t unlogged = concat (
      (if unlogged then codes "CREATE UNLOGGED TABLE" else codes "CREATE TABLE")
      ∷ codes " "
      ∷ table_name t.name
      ∷ codes " ("
      ∷ (b'\n' ∷ [])
      ∷ column_lines t.name t.columns
      ∷ codes ")"
      ∷ partition_clause t t.partitioning
      ∷ codes ";"
      ∷ (b'\n' ∷ [])
      ∷ [])

  -- GenerateDropTableWithNaming
  unfoldable pub generate_drop_table : Text → Text
  generate_drop_table name =
      concat (codes "DROP TABLE IF EXISTS " ∷ table_name name ∷ codes " CASCADE;" ∷ [])

  unfoldable pub pk_statement : Table → Option Constraint → Text
  unfolding convert_columns_join
  pk_statement t none = []
  pk_statement t (some pk) =
      if is_nil pk.columns
      then []
      else concat (
          codes "ALTER TABLE "
          ∷ table_name t.name
          ∷ codes " ADD CONSTRAINT "
          ∷ object_name pk.name
          ∷ codes " PRIMARY KEY ("
          ∷ convert_columns_join nc t.name pk.columns
          ∷ codes ");"
          ∷ [])

  -- GeneratePrimaryKeyWithNaming
  unfoldable pub generate_primary_key : Table → Text
  generate_primary_key t = pk_statement t t.primary_key

  abbrev pub index_column : Text → IndexColumn → Text
  unfolding convert_column_name
  index_column table c = convert_column_name nc table c.name ++ when c.descending (codes " DESC")

  -- The body of the loop of GenerateIndexesWithNaming.
  unfoldable pub index_statement : Table → Index → Text
  index_statement t idx =
      if idx.local && is_partitioned t
      then concat (
          codes "-- SKIPPED: LOCAL index "
          ∷ object_name idx.name
          ∷ codes " (PostgreSQL creates partition-local indexes automatically)"
          ∷ [])
      else if text_eq idx.type (codes "FUNCTION-BASED NORMAL")
      then concat (
          codes "-- SKIPPED: FUNCTION-BASED index "
          ∷ object_name idx.name
          ∷ codes " (expression not supported, create manually)"
          ∷ [])
      else concat (
          when (text_eq idx.type (codes "BITMAP")) (
            codes
              "-- NOTE: Oracle BITMAP index converted to B-tree (PostgreSQL has no bitmap index type)"
            ++ (b'\n' ∷ []))
          ∷ codes "CREATE "
          ∷ when idx.unique (codes "UNIQUE ")
          ∷ codes "INDEX "
          ∷ object_name idx.name
          ∷ codes " ON "
          ∷ table_name t.name
          ∷ codes " ("
          ∷ join (codes ", ") (map (index_column t.name) idx.columns)
          ∷ codes ");"
          ∷ [])

  -- GenerateIndexesWithNaming
  unfoldable pub generate_indexes : Table → List Text
  unfolding index_statement
  generate_indexes t = map (index_statement t) t.indexes

  abbrev pub constraint_start : Text → Constraint → Text
  constraint_start table c =
      concat (
        codes "ALTER TABLE "
        ∷ table_name table
        ∷ codes " ADD CONSTRAINT "
        ∷ object_name c.name
        ∷ [])

  -- What the loop of GenerateConstraintsWithNaming appends for a constraint of each type.
  abbrev pub constraint_statements : Table → Constraint → ConstraintType → List Text
  unfolding convert_columns_join
  constraint_statements t c ConstraintType.fk =
      concat (
        constraint_start t.name c
        ∷ codes " FOREIGN KEY ("
        ∷ convert_columns_join nc t.name c.columns
        ∷ codes ") REFERENCES "
        ∷ table_name c.ref_table
        ∷ codes " ("
        ∷ convert_columns_join nc c.ref_table c.ref_columns
        ∷ codes ")"
        ∷ when (not (is_nil c.on_delete)) (codes " ON DELETE " ++ c.on_delete)
        ∷ codes ";"
        ∷ [])
      ∷ []
  constraint_statements t c ConstraintType.uniq =
      concat (
        constraint_start t.name c
        ∷ codes " UNIQUE ("
        ∷ convert_columns_join nc t.name c.columns
        ∷ codes ");"
        ∷ [])
      ∷ []
  constraint_statements t c ConstraintType.check =
      if is_nil c.condition
      then []
      else concat (constraint_start t.name c ∷ codes " CHECK (" ∷ c.condition ∷ codes ");" ∷ [])
        ∷ []
  constraint_statements t c ConstraintType.pk = []
  constraint_statements t c (ConstraintType.other _) = []

  abbrev pub constraints_from : Table → List Constraint → List Text
  constraints_from t [] = []
  constraints_from t (c ∷ cs) = constraint_statements t c c.type ++ constraints_from t cs

  -- GenerateConstraintsWithNaming
  unfoldable pub generate_constraints : Table → List Text
  generate_constraints t = constraints_from t t.constraints

-- strings.ReplaceAll(seqName, `"`, "")
abbrev pub without_quotes : Text → Text
without_quotes s = select (λ c. not (c == b'"')) s

-- GenerateSequenceWithNaming
unfoldable pub generate_sequence : Text → NamingConfig → Sequence → Text
generate_sequence pg_schema nc seq =
    let seq_name = qualified_name pg_schema (convert_name nc seq.name) in
    concat (
      codes "CREATE SEQUENCE IF NOT EXISTS "
      ∷ seq_name
      ∷ codes " INCREMENT BY "
      ∷ show_int seq.increment
      ∷ codes " MINVALUE "
      ∷ show_int seq.min_value
      ∷ (if is_positive seq.max_value && int_leb seq.max_value 9223372036854775805
          then codes " MAXVALUE " ++ show_int seq.max_value
          else codes " NO MAXVALUE")
      ∷ when (is_positive seq.cache_size) (codes " CACHE " ++ show_int seq.cache_size)
      ∷ when seq.cycle (codes " CYCLE")
      ∷ codes ";"
      ∷ (b'\n' ∷ [])
      ∷ when (is_positive seq.last_value) (
          concat (
            codes "SELECT setval('"
            ∷ without_quotes seq_name
            ∷ codes "', "
            ∷ show_int seq.last_value
            ∷ codes ");"
            ∷ []))
      ∷ [])

-- PartitionBound: RANGE has the two bounds, LIST the values.
pub record PartitionBound : Type 0 where
  pub name : Text
  pub lower_bound : Text
  pub upper_bound : Text
  pub values : List Text
  pub strategy : Text

abbrev pub is_default : List Text → Bool
is_default (v ∷ []) = text_eq v (codes "DEFAULT")
is_default [] = false
is_default (v ∷ w ∷ vs) = false

-- The body of the loop of GeneratePartitionDDLWithNaming.
unfoldable pub partition_statement : Text → NamingConfig → Table → PartitionBound → Text
partition_statement pg_schema nc t pb =
    let start = concat (
      codes "CREATE TABLE "
      ∷ qualified_name pg_schema (convert_name nc pb.name)
      ∷ codes " PARTITION OF "
      ∷ qualified_name pg_schema (convert_table_name nc t.name)
      ∷ []) in
    if text_eq pb.strategy (codes "LIST")
    then if is_default pb.values
      then start ++ codes " DEFAULT;"
      else concat (start ∷ codes " FOR VALUES IN (" ∷ join (codes ", ") pb.values ∷ codes ");" ∷ [])
    else concat (
        start
        ∷ codes " FOR VALUES FROM ("
        ∷ pb.lower_bound
        ∷ codes ") TO ("
        ∷ pb.upper_bound
        ∷ codes ");"
        ∷ [])

-- GeneratePartitionDDLWithNaming
unfoldable pub generate_partition_ddl :
    Text → NamingConfig → Table → List PartitionBound → List Text
unfolding partition_statement
generate_partition_ddl pg_schema nc t bounds =
    if is_partitioned t then map (partition_statement pg_schema nc t) bounds else []
