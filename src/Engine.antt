-- ===== src/Engine.antt =====
-- internal/migration/engine.go: the keys of the jobs, the expected row counts and the bounds of
-- the partitions.
pub mod Keys
pub mod Bounds
pub mod Jobs
pub mod Validation
pub mod DdlPhase
pub mod Resume
pub mod Pipeline
pub mod Data
pub mod Constraints
pub mod Wiring
pub mod Run
use existora2pg.Plan.{TableTask}
use existora2pg.Plan.HighValue.{parse_high_value}
use existora2pg.Chunker.{RowIdChunk}
use existora2pg.Schema.{Table, Partition, PartitionInfo, is_partitioned, partitions_of}
use existora2pg.Ddl.Statements.{PartitionBound}
use existora2pg.Prelude.Decimal.{show}
use existora2pg.Prelude.{
  ℕ, Text, codes, List, [], ◌∷◌, ◌++◌, Option, none, some, if◌then◌else◌, is_nil, text_eq, ◌||◌,
  ◌==◌, ◌/◌, trim_space, to_lower, map,
}

abbrev pub name_or_empty : Option Partition → Text
name_or_empty none = []
name_or_empty (some p) = p.name

-- `fmt.Sprintf("chunk:%d", id)`
unfoldable pub chunk_name : ℕ → Text
chunk_name id = codes "chunk:" ++ show id

unfoldable pub add_chunk : Text → Option RowIdChunk → Text
unfolding chunk_name
add_chunk name none = name
add_chunk name (some c) = if is_nil name then chunk_name c.id else name ++ (b':' ∷ chunk_name c.id)

-- jobPartitionKey, and partName, which has the same body
unfoldable pub job_partition_key : TableTask → Text
job_partition_key task = add_chunk (name_or_empty task.partition) task.chunk

abbrev pub add_partition_key : Text → Option Partition → Text
add_partition_key key none = key
add_partition_key key (some p) = key ++ (b':' ∷ p.name)

unfoldable pub add_chunk_key : Text → Option RowIdChunk → Text
unfolding chunk_name
add_chunk_key key none = key
add_chunk_key key (some c) = key ++ (b':' ∷ chunk_name c.id)

-- taskKey
unfoldable pub task_key : TableTask → Text
task_key task = add_chunk_key (add_partition_key task.table.name task.partition) task.chunk

-- The key under which executeDataMigration looks up the task of a job.
unfoldable pub job_key : Text → Text → Text
job_key table partition = if is_nil partition then table else table ++ (b':' ∷ partition)

abbrev pub shared_out : ℕ → ℕ → ℕ
shared_out rows total = if total == 0 then 0 else rows / total

-- The row count that initJobs expects of a task.
abbrev pub rows_expected_of : TableTask → Option Partition → Option RowIdChunk → ℕ
rows_expected_of task (some p) (some c) = shared_out p.num_rows task.total_chunks
rows_expected_of task (some p) none = p.num_rows
rows_expected_of task none (some c) = shared_out task.table.num_rows task.total_chunks
rows_expected_of task none none = task.table.num_rows

unfoldable pub rows_expected : TableTask → ℕ
rows_expected task = rows_expected_of task task.partition task.chunk

-- strings.Split by a comma.
abbrev pub add_to_first : ℕ → List Text → List Text
add_to_first c [] = (c ∷ []) ∷ []
add_to_first c (t ∷ ts) = (c ∷ t) ∷ ts

unfoldable pub split_commas : Text → List Text
split_commas [] = [] ∷ []
split_commas (c ∷ s) =
    let rest = split_commas s in if c == b',' then [] ∷ rest else add_to_first c rest

-- The loop over the pieces: trimmed, without the empty ones.
abbrev pub trimmed : List Text → List Text
trimmed [] = []
trimmed (t ∷ ts) =
    let v = trim_space t in let rest = trimmed ts in if is_nil v then rest else v ∷ rest

-- parseListValues
unfoldable pub parse_list_values : Text → List Text
unfolding split_commas
parse_list_values high_value =
    let hv = trim_space high_value in
    if is_nil hv || text_eq hv (codes "DEFAULT")
    then codes "DEFAULT" ∷ []
    else trimmed (split_commas hv)

abbrev pub bound_name : Table → Partition → Text
bound_name t p = to_lower t.name ++ (b'_' ∷ to_lower p.name)

unfoldable pub list_bound : Table → Text → Partition → PartitionBound
unfolding parse_list_values
list_bound t strategy p = record {
  name = bound_name t p;
  lower_bound = [];
  upper_bound = [];
  values = parse_list_values p.high_value;
  strategy = strategy;
}

abbrev pub range_bound : Table → Text → Text → Partition → PartitionBound
range_bound t strategy lower p = record {
  name = bound_name t p;
  lower_bound = lower;
  upper_bound = parse_high_value p.high_value;
  values = [];
  strategy = strategy;
}

-- The loop of the RANGE case, which knows the parsed high value of the partition before.
abbrev pub range_bounds : Table → Text → Text → List Partition → List PartitionBound
range_bounds t strategy lower [] = []
range_bounds t strategy lower (p ∷ ps) =
    range_bound t strategy lower p ∷ range_bounds t strategy (parse_high_value p.high_value) ps

unfoldable pub bounds_of : Table → Option PartitionInfo → List PartitionBound
unfolding list_bound
bounds_of t none = []
bounds_of t (some info) =
    if text_eq info.strategy (codes "LIST")
    then map (list_bound t info.strategy) info.partitions
    else range_bounds t info.strategy (codes "MINVALUE") info.partitions

-- BuildPartitionBounds
unfoldable pub build_partition_bounds : Table → List PartitionBound
unfolding bounds_of
build_partition_bounds t = bounds_of t t.partitioning
