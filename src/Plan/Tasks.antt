-- ===== src/Plan/Tasks.antt =====
-- The tasks that internal/migration/plan.go builds, and the ORA_HASH chunks of a partition.
pub mod Cover
use existora2pg.Plan.{TableTask}
use existora2pg.Plan.Count.{partition_chunk_count}
use existora2pg.Chunker.{
  RowIdChunk, hash_chunk, ora_hash_filter, and_where, build_chunk_where_clause,
}
use existora2pg.Config.{TargetMode, TableOverride}
use existora2pg.Schema.{Table, Partition}
use existora2pg.Prelude.{
  [], range, get_elem?, ◌++◌, ltb, some, map, ◌∷◌, if◌then◌else◌, none, Text, Option, List, ℕ,
}

-- oraHashWhere
unfoldable pub ora_hash_where : ℕ → ℕ → Text → Text
ora_hash_where total id existing = and_where (ora_hash_filter total id) existing

module _ (t : Table) (override : TableOverride) (mode : TargetMode) where
  -- A whole table, or a whole partition.
  abbrev pub single_task : Option Partition → TableTask
  single_task part = record {
    table = t;
    partition = part;
    chunk = none;
    total_chunks = 0;
    where_clause = override.where_clause;
    fetch_size = override.fetch_size;
    batch_size = override.batch_size;
    max_parallel = override.max_parallel;
    target_mode = mode;
  }

  -- A chunk of either, with the filter of the chunk.
  abbrev pub chunk_task : Option Partition → ℕ → Text → RowIdChunk → TableTask
  chunk_task part total filter chunk = record {
    table = t;
    partition = part;
    chunk = some chunk;
    total_chunks = total;
    where_clause = filter;
    fetch_size = override.fetch_size;
    batch_size = override.batch_size;
    max_parallel = override.max_parallel;
    target_mode = mode;
  }

  -- `for chunkID := 0; chunkID < numChunks; chunkID++`
  unfoldable pub hash_tasks : Option Partition → ℕ → List TableTask
  hash_tasks part n =
      map (λ id. chunk_task part n (ora_hash_where n id override.where_clause) (hash_chunk id))
        (range 0 n)

  -- Chunks if there is more than one, and a single task otherwise.
  unfoldable pub hash_or_single : Option Partition → ℕ → List TableTask
  unfolding hash_tasks
  hash_or_single part n = if ltb 1 n then hash_tasks part n else single_task part ∷ []

  -- `p := &t.Partitioning.Partitions[idx]` for each included index, and its chunks.
  unfoldable pub hash_partitions : ℕ → ℕ → List Partition → List TableTask
  unfolding hash_or_single
  hash_partitions workers batch_size [] = []
  hash_partitions workers batch_size (p ∷ ps) =
      hash_or_single (some p) (partition_chunk_count p.num_rows batch_size workers)
      ++ hash_partitions workers batch_size ps

  -- One task for each partition.
  abbrev pub partition_tasks : List Partition → List TableTask
  partition_tasks ps = map (λ p. single_task (some p)) ps

abbrev pub at_index : Option Partition → List Partition → List Partition
at_index none rest = rest
at_index (some p) rest = p ∷ rest

-- The partitions at the given indices, which are those of existing partitions.
unfoldable pub parts_at : List Partition → List ℕ → List Partition
parts_at parts [] = []
parts_at parts (i ∷ is) = at_index (get_elem? parts i) (parts_at parts is)
