-- ===== src/Plan/Resolve/Stale.antt =====
-- ResolveOraHashChunks of internal/migration/plan.go on a plan with tables of both kinds.
use native.Mathlib.Nat.{zero-add}
use existora2pg.Schema.{partitions_of}
use existora2pg.Plan.Tasks.{parts_at}
use existora2pg.Plan.Resolve.Splice.{splice_middle}
use existora2pg.Plan.{ChunkableTask, TableTask, PartitionChunkTask, MigrationPlan}
use existora2pg.Plan.Resolve.{hash_splitting, hash_chunking, resolve_ora_hash_chunks, splice}
use existora2pg.Prelude.{
  refl, zero, ◌+◌, ap, [], arith, ◌∷◌, suc, some, ◌++◌, ◌≡◌, take, drop, drop_left, ◌<◌, length,
  ◌≤◌, List, ℕ,
}

-- A plan with one partitioned table, whose placeholders are `parts`, and behind it one chunkable
-- table with the placeholder `whole`.
pub record IsMixed (plan : MigrationPlan) (pct : PartitionChunkTask) (ct : ChunkableTask)
    (parts : List TableTask) (whole : TableTask) : Type 0 where
  pub tasks : plan.data_tasks ≡ parts ++ whole ∷ []
  pub waiting_parts : plan.partition_chunk_tables ≡ pct ∷ []
  pub waiting : plan.chunkable_tasks ≡ ct ∷ []
  pub first_place : pct.placeholder_idx ≡ 0
  pub part_count : pct.placeholder_cnt ≡ length parts
  pub second_place : ct.placeholder_idx ≡ length parts

take_less : (n : ℕ) (xs ys : List TableTask) → n ≤ length xs → take n (xs ++ ys) ≡ take n xs
take_less zero xs ys h = refl
take_less (suc n) [] ys h = absurd (omega arith)
take_less (suc n) (x ∷ xs) ys h = ap (λ r. x ∷ r) (take_less n xs ys (omega arith))

drop_less : (n : ℕ) (xs ys : List TableTask) → n ≤ length xs → drop n (xs ++ ys) ≡ drop n xs ++ ys
drop_less zero xs ys h = refl
drop_less (suc n) [] ys h = absurd (omega arith)
drop_less (suc n) (x ∷ xs) ys h = drop_less n xs ys (omega arith)

splice_first :
    (old repl rest : List TableTask) → splice 0 (length old) repl (old ++ rest) ≡ repl ++ rest
splice_first old repl rest = splice_middle [] old repl rest

stale_splice :
    (n : ℕ) (repl chunks : List TableTask) (whole : TableTask)
    → n < length repl
    → splice n 1 chunks (repl ++ whole ∷ [])
      ≡ take n repl ++ (chunks ++ (drop (n + 1) repl ++ whole ∷ []))
unfolding splice
stale_splice n repl chunks whole h =
    rw (
      take_less n repl (whole ∷ []) (omega arith),
      drop_less (n + 1) repl (whole ∷ []) (omega arith),
    )

-- The tasks that the partitioned table is resolved into.
abbrev pub split_of : ℕ → ℕ → PartitionChunkTask → List TableTask
split_of workers batch_size pct =
    hash_splitting workers batch_size pct.table pct.override pct.target_mode
      (parts_at (partitions_of pct.table.partitioning) pct.included_parts)

-- Where the partitioned table is resolved into more tasks than it has placeholders, and the other
-- table into chunks, the chunks take the place of one of the tasks of the partitioned table, which
-- is lost, while the placeholder of the other table, a task that reads all its rows, stays.
pub resolve_ora_hash_chunks_stale :
    (workers batch_size : ℕ) (plan : MigrationPlan) (pct : PartitionChunkTask) (ct : ChunkableTask)
    (parts chunks : List TableTask) (whole : TableTask)
    → IsMixed plan pct ct parts whole
    → hash_chunking batch_size ct.table ct.override ct.chunk_size ≡ some chunks
    → let split =
        hash_splitting workers batch_size pct.table pct.override pct.target_mode
          (parts_at (partitions_of pct.table.partitioning) pct.included_parts) in
      length parts < length split
      → (resolve_ora_hash_chunks workers batch_size plan).data_tasks
        ≡ take (length parts) split ++ (chunks ++ (drop (length parts + 1) split ++ whole ∷ []))
unfolding resolve_ora_hash_chunks
resolve_ora_hash_chunks_stale workers batch_size plan pct ct parts chunks whole m found more =
    rw (m.waiting, m.waiting_parts, m.tasks, m.first_place, m.part_count, m.second_place, found)
      (rw (zero-add (length parts), drop_left parts (whole ∷ []))
        (stale_splice (length parts)
          (hash_splitting workers batch_size pct.table pct.override pct.target_mode
            (parts_at (partitions_of pct.table.partitioning) pct.included_parts))
          chunks whole more))
