-- ===== src/Plan/Resolve.antt =====
-- ResolveChunks, ResolvePartitionChunks and ResolveOraHashChunks of internal/migration/plan.go, and
-- the choice between them in Engine.Run and Engine.Resume of internal/migration/engine.go.
-- The loops run over the recorded tables from the last to the first, here by recursion.
pub mod Splice
pub mod InPlace
pub mod Stale
use existora2pg.Prelude.Dict.{lookup}
use existora2pg.Plan.{TableTask, ChunkableTask, PartitionChunkTask, MigrationPlan}
use existora2pg.Plan.Count.{max_chunks}
use existora2pg.Plan.Tasks.{single_task, chunk_task, hash_partitions, parts_at, ora_hash_where}
use existora2pg.Plan.Merge.{merge_chunks}
use existora2pg.Plan.Interleave.{interleave_tasks_by_table}
use existora2pg.Plan.Build.{setting_or}
use existora2pg.Chunker.{
  RowIdChunk, Session, hash_chunk, build_chunk_where_clause, compute_chunks,
  compute_partitioned_chunks,
}
use existora2pg.Config.{MigrationConfig, TableOverride, TargetMode, is_rowid_or_auto}
use existora2pg.Schema.{Table, Partition, partitions_of}
use existora2pg.Prelude.Groups.{list_or_nil}
use existora2pg.Prelude.{
  ◌+◌, drop, range, ◌++◌, map, length, take, none, is_nil, ◌∷◌, ltb, some, ◌/◌, List, ◌*◌, Text, [],
  if◌then◌else◌, Option, ℕ,
}

-- `append(tasks[:idx], repl..., tasks[idx+cnt:]...)`
unfoldable pub splice {ℓ} : {A : Type ℓ} → ℕ → ℕ → List A → List A → List A
splice idx cnt repl tasks = take idx tasks ++ (repl ++ drop (idx + cnt) tasks)

-- What one chunkable table becomes: `none` where the code continues with the placeholder.
abbrev pub Chunking : Type 0
Chunking = Table → TableOverride → ℕ → Option (List TableTask)

abbrev pub splice_some {ℓ} : {A : Type ℓ} → ℕ → Option (List A) → List A → List A
splice_some idx none tasks = tasks
splice_some idx (some repl) tasks = splice idx 1 repl tasks

unfoldable pub resolve_chunkable : Chunking → List ChunkableTask → List TableTask → List TableTask
unfolding splice
resolve_chunkable f [] tasks = tasks
resolve_chunkable f (ct ∷ cts) tasks =
    splice_some ct.placeholder_idx (f ct.table ct.override ct.chunk_size)
      (resolve_chunkable f cts tasks)

-- What the placeholders of one partitioned table become.
abbrev pub Splitting : Type 0
Splitting = Table → TableOverride → TargetMode → List Partition → List TableTask

unfoldable pub resolve_partitioned :
    Splitting → List PartitionChunkTask → List TableTask → List TableTask
unfolding splice
resolve_partitioned h [] tasks = tasks
resolve_partitioned h (pct ∷ pcts) tasks =
    splice pct.placeholder_idx pct.placeholder_cnt
      (h pct.table pct.override pct.target_mode
        (parts_at (partitions_of pct.table.partitioning) pct.included_parts))
      (resolve_partitioned h pcts tasks)

-- The chunk tasks of a table without partitions carry neither the batch size of the override nor
-- the target mode.
abbrev pub plain_chunk_task : Table → TableOverride → ℕ → Text → RowIdChunk → TableTask
plain_chunk_task t override total filter chunk =
    record (chunk_task t override TargetMode.unset none total filter chunk) { batch_size = 0 }

-- `if numChunks > 256 { numChunks = 256 }`
abbrev pub at_most_256 : ℕ → ℕ
at_most_256 n = if ltb 256 n then 256 else n

-- The ORA_HASH chunks of a chunkable table.
unfoldable pub hash_chunking : ℕ → Chunking
hash_chunking batch_size t override chunk_size =
    let n = t.num_rows / setting_or chunk_size batch_size in
    let total = at_most_256 n in
    if ltb n 2
    then none
    else some (
        map
          (λ j.
            plain_chunk_task t override total (ora_hash_where total j override.where_clause)
              (hash_chunk j))
          (range 0 total))

unfoldable pub hash_splitting : ℕ → ℕ → Splitting
hash_splitting workers batch_size t override mode parts =
    hash_partitions t override mode workers (setting_or override.batch_size batch_size) parts

-- ResolveOraHashChunks
unfoldable pub resolve_ora_hash_chunks : ℕ → ℕ → MigrationPlan → MigrationPlan
unfolding resolve_chunkable resolve_partitioned
resolve_ora_hash_chunks workers batch_size plan = record plan {
  data_tasks = resolve_chunkable (hash_chunking batch_size) plan.chunkable_tasks (
      resolve_partitioned (hash_splitting workers batch_size) plan.partition_chunk_tables
        plan.data_tasks);
  partition_chunk_tables = [];
  chunkable_tasks = [];
}

-- `if len(chunks) > n { chunks = mergeChunks(chunks, n) }`
abbrev pub merge_excess : ℕ → List RowIdChunk → List RowIdChunk
merge_excess n chunks = if ltb n (length chunks) then merge_chunks chunks n else chunks

-- The tasks for the chunks of the session, none where there are no chunks.
abbrev chunk_tasks : Table → TableOverride → List RowIdChunk → Option (List TableTask)
chunk_tasks t override chunks =
    if is_nil chunks
    then none
    else some (
        map
          (λ ch.
            plain_chunk_task t override (length chunks)
              (build_chunk_where_clause ch (length chunks) override.where_clause) ch)
          chunks)

abbrev estimated_chunking : Session → Table → TableOverride → ℕ → Option ℕ → Option (List TableTask)
estimated_chunking session t override chunk_size none = none
estimated_chunking session t override chunk_size (some rows) =
    let n = rows / chunk_size in
    if ltb n 2
    then none
    else chunk_tasks t override
        (merge_excess (at_most_256 n) (compute_chunks session t.owner t.name (at_most_256 n)))

-- The row estimate of a table, `none` where the query fails.
abbrev pub Estimator : Type 0
Estimator = Text → Text → Option ℕ

unfoldable pub rowid_chunking : Session → Estimator → Chunking
rowid_chunking session estimate t override chunk_size =
    estimated_chunking session t override chunk_size (estimate t.owner t.name)

-- ResolveChunks
unfoldable pub resolve_chunks : Session → Estimator → MigrationPlan → MigrationPlan
unfolding resolve_chunkable
resolve_chunks session estimate plan = record plan {
  data_tasks =
      resolve_chunkable (rowid_chunking session estimate) plan.chunkable_tasks plan.data_tasks;
  chunkable_tasks = [];
}

-- The tasks of one partition, from its chunks; a partition without chunks stays whole.
unfoldable pub rowid_partition :
    ℕ → Table → TableOverride → TargetMode → Partition → List RowIdChunk → List TableTask
rowid_partition workers t override mode p chunks =
    let few = merge_excess (max_chunks workers) chunks in
    if is_nil chunks
    then single_task t override mode (some p) ∷ []
    else map
        (λ ch.
          chunk_task t override mode (some p) (length few)
            (build_chunk_where_clause ch (length few) override.where_clause) ch)
        few

unfoldable pub rowid_partitions :
    ℕ
    → Table
    → TableOverride
    → TargetMode
    → List (Text × List RowIdChunk)
    → List Partition
    → List TableTask
unfolding rowid_partition lookup
rowid_partitions workers t override mode groups [] = []
rowid_partitions workers t override mode groups (p ∷ ps) =
    rowid_partition workers t override mode p (list_or_nil (lookup p.name groups))
    ++ rowid_partitions workers t override mode groups ps

abbrev split_grouped :
    ℕ
    → ℕ
    → Table
    → TableOverride
    → TargetMode
    → List Partition
    → Option (List (Text × List RowIdChunk))
    → List TableTask
split_grouped workers batch_size t override mode parts none =
    hash_splitting workers batch_size t override mode parts
split_grouped workers batch_size t override mode parts (some []) =
    hash_splitting workers batch_size t override mode parts
split_grouped workers batch_size t override mode parts (some (g ∷ gs)) =
    rowid_partitions workers t override mode (g ∷ gs) parts

unfoldable pub rowid_splitting : Session → ℕ → ℕ → Splitting
rowid_splitting session workers batch_size t override mode parts =
    split_grouped workers batch_size t override mode parts
      (compute_partitioned_chunks session t.owner t.name (workers * 4))

-- ResolvePartitionChunks
unfoldable pub resolve_partition_chunks : Session → ℕ → ℕ → MigrationPlan → MigrationPlan
unfolding resolve_partitioned
resolve_partition_chunks session workers batch_size plan = record plan {
  data_tasks =
      resolve_partitioned (rowid_splitting session workers batch_size) plan.partition_chunk_tables
        plan.data_tasks;
  partition_chunk_tables = [];
}

-- The resolution in Run and Resume, by the global strategy, and the interleaving after it.
unfoldable pub resolve_plan : Session → Estimator → MigrationConfig → MigrationPlan → MigrationPlan
unfolding resolve_chunks resolve_partition_chunks resolve_ora_hash_chunks
resolve_plan session estimate cfg plan =
    let resolved =
      if is_rowid_or_auto cfg.chunk_strategy
      then resolve_chunks session estimate
          (resolve_partition_chunks session cfg.workers cfg.batch_size plan)
      else resolve_ora_hash_chunks cfg.workers cfg.batch_size plan in
    record resolved { data_tasks = interleave_tasks_by_table resolved.data_tasks }
