-- ===== src/Writer.antt =====
-- internal/postgres/writer.go: the statements that the writer sends to PostgreSQL. The pool of
-- connections (pgx) is an argument.
pub mod Statements
pub mod Names
use existora2pg.Ddl.{NamingConfig, qualified_name, convert_name, convert_table_name}
use existora2pg.Ddl.Statements.{
  PartitionBound, generate_drop_table, generate_create_table, generate_partition_ddl,
  generate_primary_key, generate_indexes, generate_constraints, generate_sequence, concat,
}
use existora2pg.Prelude.Int.{ℤ, pos, is_positive}
use existora2pg.Schema.{Table, Partition, Sequence}
use existora2pg.Prelude.{
  ℕ, Bool, true, false, not, ◌&&◌, ◌||◌, Text, codes, List, [], ◌∷◌, ◌++◌, Option, none, some,
  if◌then◌else◌, is_nil, text_eq, contains, has_prefix, trim_space, replace_first, split_on, map,
  length, take, leb, select,
}

-- How a statement ends: with the number of affected rows, or with the text of an error.
pub data Executed : Type 0 where
  affected : ℕ → Executed
  failed : Text → Executed

-- What a query with one Boolean answers.
pub data Answer : Type 0 where
  found : Answer
  absent : Answer
  unknown : Text → Answer

-- The calls of pgx on the state of the database: Exec, the query on information_schema.tables with
-- a schema and a name, a COUNT query, the query on pg_class, and Identifier.Sanitize.
pub record PgPool (Pg : Type 0) : Type 0 where
  pub exec : Text → Pg → Pg × Executed
  pub is_listed : Text → Text → Pg → Answer
  pub count_query : Text → Pg → Option ℕ
  pub reltuples : Text → Text → Pg → Option ℤ
  pub sanitize : Text → Text

pub record Writer : Type 0 where
  pub pg_schema : Text
  pub unlogged : Bool
  pub naming : NamingConfig

-- NewWriter
abbrev pub new_writer : Text → Writer
new_writer pg_schema = record {
  pg_schema = pg_schema;
  unlogged = false;
  naming = record { convention = codes "lowercase"; type_overrides = []; name_overrides = [] };
}

-- SetUnlogged
abbrev pub set_unlogged : Bool → Writer → Writer
set_unlogged enabled w = record w { unlogged = enabled }

-- SetNaming
unfoldable pub set_naming : NamingConfig → Writer → Writer
set_naming nc w =
    if is_nil nc.convention
    then record w { naming = record nc { convention = codes "lowercase" } }
    else record w { naming = nc }

-- truncate
unfoldable pub truncate : Text → ℕ → Text
truncate s max_len = if leb (length s) max_len then s else take max_len s ++ codes "..."

-- The loop of isCommentOnly over the lines.
abbrev pub all_comments : List Text → Bool
unfolding trim_space has_prefix
all_comments [] = true
all_comments (l ∷ ls) =
    let line = trim_space l in (is_nil line || has_prefix line (codes "--")) && all_comments ls

-- isCommentOnly
unfoldable pub is_comment_only : Text → Bool
unfolding split_on
is_comment_only ddl = all_comments (split_on (b'\n') ddl)

-- The schema that the queries on the catalog ask for.
unfoldable pub catalog_schema : Text → Text
catalog_schema s = if is_nil s || text_eq s (codes "public") then codes "public" else s

module _ (w : Writer) where
  -- QualifiedName
  unfoldable pub writer_name : Text → Text
  unfolding qualified_name convert_table_name
  writer_name name = qualified_name w.pg_schema (convert_table_name w.naming name)

  -- The name of the child table of a partition.
  unfoldable pub partition_table : Text → Text → Text
  unfolding convert_name convert_table_name
  partition_table parent part =
      convert_table_name w.naming parent ++ (b'_' ∷ convert_name w.naming part)

  unfoldable pub target_name : Text → Option Partition → Text
  unfolding partition_table convert_table_name
  target_name table none = convert_table_name w.naming table
  target_name table (some p) = partition_table table p.name

  -- targetTableIdent
  unfoldable pub target_table_ident : Table → Option Partition → List Text
  target_table_ident t part =
      if not (is_nil w.pg_schema) && not (text_eq w.pg_schema (codes "public"))
      then w.pg_schema ∷ target_name t.name part ∷ []
      else target_name t.name part ∷ []

  -- targetTable
  unfoldable pub target_table : Table → Option Partition → Text
  unfolding qualified_name
  target_table t part = qualified_name w.pg_schema (target_name t.name part)

-- `fmt.Errorf("<label>: %w", err)`
abbrev pub wrapped : Text → Executed → Option Text
wrapped label (affected n) = none
wrapped label (failed e) = some (label ++ (codes ": " ++ e))

-- The error of an object that is there already.
unfoldable pub already_exists : Text → Bool
unfolding contains
already_exists e = contains e (codes "already exists")

-- The index statement as it is sent, for CREATE INDEX CONCURRENTLY.
unfoldable pub concurrently : Text → Text
unfolding replace_first
concurrently ddl =
    replace_first (codes "CREATE UNIQUE INDEX ") (codes "CREATE UNIQUE INDEX CONCURRENTLY ")
      (replace_first (codes "CREATE INDEX ") (codes "CREATE INDEX CONCURRENTLY ") ddl)

module _ {Pg : Type 0} (pool : PgPool Pg) where
  abbrev pub and_then : (Pg → Pg × Option Text) → Pg × Option Text → Pg × Option Text
  and_then rest (pg, none) = rest pg
  and_then rest (pg, some e) = (pg, some e)

  -- ExecDDL and what its callers make of an error.
  abbrev pub send : Text → Text → Pg → Pg × Option Text
  send label ddl pg = let (after, r) = pool.exec ddl pg in (after, wrapped label r)

  -- ExecDDLReturn
  unfoldable pub exec_ddl_return : Text → Pg → Pg × Executed
  exec_ddl_return ddl pg = pool.exec ddl pg

  -- A loop over statements that the first error ends.
  unfoldable pub send_all : Text → List Text → Pg → Pg × Option Text
  send_all label [] pg = (pg, none)
  send_all label (ddl ∷ ddls) pg = and_then (send_all label ddls) (send label ddl pg)

  -- The error, unless it says that the object exists.
  unfoldable pub unless_exists : Text → Executed → Option Text
  unfolding already_exists
  unless_exists label (affected n) = none
  unless_exists label (failed e) =
      if already_exists e then none else some (label ++ (codes ": " ++ e))

  unfoldable pub send_new : Text → Text → Pg → Pg × Option Text
  unfolding unless_exists
  send_new label ddl pg = let (after, r) = pool.exec ddl pg in (after, unless_exists label r)

  -- The same loop where an object may exist.
  unfoldable pub send_all_new : Text → List Text → Pg → Pg × Option Text
  unfolding send_new
  send_all_new label [] pg = (pg, none)
  send_all_new label (ddl ∷ ddls) pg = and_then (send_all_new label ddls) (send_new label ddl pg)
