-- ===== src/Plan/Build.antt =====
-- BuildPlan of internal/migration/plan.go.
use mathlib.Core.List.{reverse}
use existora2pg.Plan.{TableTask, ChunkableTask, PartitionChunkTask, MigrationPlan}
use existora2pg.Plan.HighValue.{Floats}
use existora2pg.Plan.Count.{partition_chunk_count}
use existora2pg.Plan.Tasks.{single_task, hash_or_single, hash_partitions, partition_tasks, parts_at}
use existora2pg.Plan.Topo.{topo_sort_tables}
use existora2pg.Plan.Prune.{resolve_partitions}
use existora2pg.Config.{
  MigrationConfig, TargetMode, ChunkStrategy, is_skip, is_unset, is_offset, is_ora_hash,
  is_rowid_or_auto, resolve_target_mode, override_of,
}
use existora2pg.Schema.{Schema, Table, Partition, partitions_of, is_partitioned}
use existora2pg.Prelude.{
  any, none, ◌&&◌, ◌||◌, length, ◌∷◌, not, ◌++◌, ltb, select, ◌==◌, [], Bool, List, if◌then◌else◌,
  ℕ,
}

-- What the body of the loop over the tables appends to the plan.
pub record Part : Type 0 where
  pub tasks : List TableTask
  pub chunkable : List ChunkableTask
  pub partitioned : List PartitionChunkTask

abbrev pub only_tasks : List TableTask → Part
only_tasks ts = record { tasks = ts; chunkable = []; partitioned = [] }

-- The mode of a table under the global flag.
unfoldable pub mode_of : MigrationConfig → Bool → Table → TargetMode
mode_of cfg drop t = resolve_target_mode (override_of cfg t.name).target_mode drop

-- `if x <= 0 { x = d }`, for an override of a global setting
abbrev pub setting_or : ℕ → ℕ → ℕ
setting_or x d = if x == 0 then d else x

-- Per-table strategy, or the global one.
abbrev pub strategy_or : ChunkStrategy → ChunkStrategy → ChunkStrategy
strategy_or s d = if is_unset s then d else s

module _ (fl : Floats) (cfg : MigrationConfig) (drop_target : Bool) where
  -- Whether a partition is large enough to be split.
  abbrev is_large : ℕ → Partition → Bool
  is_large batch_size p = ltb 1 (partition_chunk_count p.num_rows batch_size cfg.workers)

  -- The branch of a partitioned table, with `idx` data tasks planned so far.
  unfoldable pub plan_partitioned : Table → ℕ → Part
  unfolding mode_of
  plan_partitioned t idx =
      let override = override_of cfg t.name in
      let mode = mode_of cfg drop_target t in
      let included = resolve_partitions fl t override in
      let parts = parts_at (partitions_of t.partitioning) included in
      let strategy = strategy_or override.chunk_strategy cfg.chunk_strategy in
      let batch_size = setting_or override.batch_size cfg.batch_size in
      let needs_chunking = not (is_offset strategy) && any (is_large batch_size) parts in
      if needs_chunking && is_rowid_or_auto strategy
      then record {
        tasks = partition_tasks t override mode parts;
        chunkable = [];
        partitioned =
            record {
              table = t;
              override = override;
              included_parts = included;
              target_mode = mode;
              placeholder_idx = idx;
              placeholder_cnt = length included;
            }
            ∷ [];
      }
      else if needs_chunking && is_ora_hash strategy
      then only_tasks (hash_partitions t override mode cfg.workers batch_size parts)
      else only_tasks (partition_tasks t override mode parts)

  -- The branch of a table without partitions.
  unfoldable pub plan_whole : Table → ℕ → Part
  unfolding mode_of
  plan_whole t idx =
      let override = override_of cfg t.name in
      let mode = mode_of cfg drop_target t in
      let strategy = strategy_or override.chunk_strategy cfg.chunk_strategy in
      let bs = setting_or override.batch_size cfg.batch_size in
      let needs_chunking =
        ltb 0 override.chunk_size
        || not (is_offset strategy) && ltb 1 (partition_chunk_count t.num_rows bs cfg.workers) in
      let chunk_size = setting_or override.chunk_size bs in
      if is_offset strategy || not needs_chunking
      then only_tasks (single_task t override mode none ∷ [])
      else if is_ora_hash strategy
      then only_tasks (
          hash_or_single t override mode none
            (partition_chunk_count t.num_rows chunk_size cfg.workers))
      else record {
        tasks = single_task t override mode none ∷ [];
        chunkable =
            record {
              table = t;
              override = override;
              chunk_size = chunk_size;
              placeholder_idx = idx;
            }
            ∷ [];
        partitioned = [];
      }

  -- The body of the loop over the sorted tables.
  unfoldable pub plan_table : Table → ℕ → Part
  unfolding plan_partitioned plan_whole
  plan_table t idx =
      if is_skip (mode_of cfg drop_target t)
      then only_tasks []
      else if is_partitioned t
      then plan_partitioned t idx
      else plan_whole t idx

  abbrev pub append_part : MigrationPlan → Part → MigrationPlan
  append_part plan p = record plan {
    data_tasks = plan.data_tasks ++ p.tasks;
    chunkable_tasks = plan.chunkable_tasks ++ p.chunkable;
    partition_chunk_tables = plan.partition_chunk_tables ++ p.partitioned;
  }

  -- The loop.
  unfoldable pub plan_tables : List Table → MigrationPlan → MigrationPlan
  unfolding plan_table
  plan_tables [] plan = plan
  plan_tables (t ∷ ts) plan =
      plan_tables ts (append_part plan (plan_table t (length plan.data_tasks)))

  -- BuildPlan
  unfoldable pub build_plan : Schema → MigrationPlan
  unfolding plan_tables
  build_plan s =
      let sorted = topo_sort_tables s.tables in
      record (plan_tables sorted (record {
        ddl_order = select (λ t. not (is_skip (mode_of cfg drop_target t))) sorted;
        data_tasks = [];
        constraint_order = [];
        sequences = s.sequences;
        chunkable_tasks = [];
        partition_chunk_tables = [];
      })) { constraint_order = reverse sorted }
