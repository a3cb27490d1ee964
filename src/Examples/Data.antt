-- ===== src/Examples/Data.antt =====
-- Tables, tasks, stores and outside functions for the examples.
use existora2pg.Writer.{absent, affected, PgPool}
use existora2pg.Engine.Validation.{Counts}
use existora2pg.Chunker.{RowIdChunk}
use existora2pg.Chunker.Buckets.{Row}
use existora2pg.Config.{
  Config, MigrationConfig, TableOverride, TargetMode, ChunkStrategy, no_override,
}
use existora2pg.JobStore.{Store, JobRow, JobState, new_row}
use existora2pg.Plan.{TableTask, MigrationPlan}
use existora2pg.Plan.HighValue.{Floats}
use existora2pg.Plan.Tasks.{single_task}
use existora2pg.Prelude.{
  suc, ◌≤◌, leb, if◌then◌else◌, ℕ, true, false, Text, codes, List, [], ◌∷◌, Option, none, some, ltb,
  arith,
}
use existora2pg.Schema.{Table, Partition, PartitionInfo, Constraint, ConstraintType}

-- A float parser that reads no text as a number.
abbrev pub no_floats : Floats
no_floats = record { Num = ℕ; parse_float = λ _. none; less = ltb; is_nan = λ _. false }

abbrev pub table_with : Text → List Constraint → Option PartitionInfo → ℕ → Table
table_with name constraints partitioning rows = record {
  owner = codes "HR";
  name = name;
  columns = [];
  primary_key = none;
  constraints = constraints;
  indexes = [];
  partitioning = partitioning;
  comment = [];
  num_rows = rows;
}

abbrev pub reference : Text → Constraint
reference table = record {
  name = codes "FK";
  type = ConstraintType.fk;
  columns = codes "ID" ∷ [];
  ref_table = table;
  ref_columns = codes "ID" ∷ [];
  on_delete = [];
  condition = [];
}

abbrev pub departments : Table
departments = table_with (codes "DEPT") [] none 4

abbrev pub employees : Table
employees = table_with (codes "EMP") (reference (codes "DEPT") ∷ []) none 900

abbrev pub january : Partition
january = record {
  name = codes "P1";
  high_value =
      codes "TO_DATE(' 2024-02-01 00:00:00', 'SYYYY-MM-DD HH24:MI:SS', 'NLS_CALENDAR=GREGORIAN')";
  position = 1;
  num_rows = 30;
}

abbrev pub february : Partition
february = record {
  name = codes "P2";
  high_value =
      codes "TO_DATE(' 2024-03-01 00:00:00', 'SYYYY-MM-DD HH24:MI:SS', 'NLS_CALENDAR=GREGORIAN')";
  position = 2;
  num_rows = 40;
}

abbrev pub by_month : PartitionInfo
by_month = record {
  strategy = codes "RANGE";
  key_columns = codes "DAY" ∷ [];
  partitions = january ∷ february ∷ [];
}

abbrev pub sales : Table
sales = table_with (codes "SALES") [] (some by_month) 70

abbrev pub config_with : ChunkStrategy → List (Text × TableOverride) → MigrationConfig
config_with strategy overrides = record {
  workers = 2;
  batch_size = 10;
  max_batch_bytes = 0;
  fetch_size = 100;
  chunk_strategy = strategy;
  include_tables = [];
  exclude_tables = [];
  include_sequences = [];
  table_overrides = overrides;
  state_db_path = codes "state.db";
  resume = false;
  validate_after = true;
  checksum_cols = false;
  naming_convention = codes "lowercase";
  type_overrides = [];
  name_overrides = [];
}

-- The task of the whole table of departments.
abbrev pub whole_departments : TableTask
whole_departments = single_task departments no_override TargetMode.recreate none

abbrev pub plan_of : List Table → List TableTask → MigrationPlan
plan_of tables tasks = record {
  ddl_order = tables;
  data_tasks = tasks;
  constraint_order = tables;
  sequences = [];
  chunkable_tasks = [];
  partition_chunk_tables = [];
}

abbrev pub one_table_plan : MigrationPlan
one_table_plan = plan_of (departments ∷ []) (whole_departments ∷ [])

pub hash-le : (m : ℕ) → (if leb 7 m then 7 else 0) ≤ m
hash-le m = ground arith

-- A row whose ROWID has the hash 7 where there are so many buckets, and otherwise 0.
abbrev pub row : Row
row = record { rid = codes "AAA"; ora_hash = λ m. if leb 7 m then 7 else 0; ora_hash-le = hash-le }

-- An Oracle session without the privilege to compute chunks.
abbrev pub no_session : Text → Text → ℕ → Option (List RowIdChunk)
no_session owner table n = none

abbrev pub chunk_in : Text → ℕ → RowIdChunk
chunk_in part id = record {
  id = id;
  start_rid = codes "AAA";
  end_rid = codes "BBB";
  partition_name = part;
}

-- A store with an old run that has completed the table of departments.
abbrev pub old_job : JobRow
old_job = record (new_row 100 1 (codes "r1") (codes "HR") (codes "DEPT") [] (codes "data") 4) {
  state = JobState.completed;
  rows_copied = 4;
}

abbrev pub failed_job : JobRow
failed_job = record (new_row 100 2 (codes "r1") (codes "HR") (codes "EMP") [] (codes "data") 9) {
  state = JobState.failed;
}

abbrev pub old_store : Store
old_store = record {
  runs = record { id = codes "r1"; config_hash = codes "c"; created_at = 100 } ∷ [];
  jobs = old_job ∷ failed_job ∷ [];
  next_id = 3;
}

-- Databases that count 40 rows of every table, and give no estimates.
abbrev pub forty_rows : Counts
forty_rows = record {
  ora_estimate = λ table. none;
  ora_count = λ table part filter. some 40;
  pg_estimate = λ table. none;
  pg_count = λ table. some 40;
}

-- A database that takes every statement, and lists no table.
abbrev pub open_pool : PgPool ℕ
open_pool = record {
  exec = λ ddl pg. (suc pg, affected 0);
  is_listed = λ schema name pg. absent;
  count_query = λ query pg. none;
  reltuples = λ schema name pg. none;
  sanitize = λ name. name;
}

abbrev pub config : Config
config = record {
  oracle = record { dsn = []; schema = codes "HR"; max_conns = 1 };
  postgres = record {
    dsn = [];
    schema = codes "public";
    max_conns = 1;
    drop_target = true;
    unlogged = true;
  };
  migration = config_with ChunkStrategy.ora_hash [];
  logging = record { level = []; format = []; file = [] };
}
