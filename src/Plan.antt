-- ===== src/Plan.antt =====
-- internal/migration/plan.go: the data of a migration plan.
pub mod Count
pub mod Tasks
pub mod Merge
pub mod Interleave
pub mod Topo
pub mod Prune
pub mod HighValue
pub mod Build
pub mod Resolve
use existora2pg.Prelude.{ℕ, Option, List, Text}
use existora2pg.Schema.{Table, Partition, Sequence}
use existora2pg.Config.{TargetMode, TableOverride}
use existora2pg.Chunker.{RowIdChunk}

pub record TableTask : Type 0 where
  pub table : Table
  pub partition : Option Partition
  pub chunk : Option RowIdChunk
  pub total_chunks : ℕ
  pub where_clause : Text
  pub fetch_size : ℕ
  pub batch_size : ℕ
  pub max_parallel : ℕ
  pub target_mode : TargetMode

-- A partitioned table whose ROWID chunks are computed later.
pub record PartitionChunkTask : Type 0 where
  pub table : Table
  pub override : TableOverride
  pub included_parts : List ℕ
  pub target_mode : TargetMode
  pub placeholder_idx : ℕ
  pub placeholder_cnt : ℕ

-- A table without partitions whose chunks are computed later.
pub record ChunkableTask : Type 0 where
  pub table : Table
  pub override : TableOverride
  pub chunk_size : ℕ
  pub placeholder_idx : ℕ

pub record MigrationPlan : Type 0 where
  pub ddl_order : List Table
  pub data_tasks : List TableTask
  pub constraint_order : List Table
  pub sequences : List Sequence
  pub chunkable_tasks : List ChunkableTask
  pub partition_chunk_tables : List PartitionChunkTask
