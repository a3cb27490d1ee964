-- ===== src/Engine/Validation/Split.antt =====
-- When executeValidation of internal/migration/engine.go accepts a table.
use native.Mathlib.Nat.{suc-mul}
use existora2pg.Config.{TableOverride, TargetMode}
use existora2pg.Engine.Validation.{
  Counts, passes, mismatches, validate_table, exact_count, uses_estimate, oracle_count,
  postgres_count, has_partition_filter, sum_counts, difference,
}
use existora2pg.Plan.{TableTask}
use existora2pg.Plan.Tasks.{hash_tasks, chunk_task, ora_hash_where}
use existora2pg.Chunker.{hash_chunk}
use existora2pg.Schema.{Partition, Table}
use existora2pg.Prelude.{
  ℕ, zero, suc, ◌*◌, ◌≤◌, ◌<◌, ◌≡◌, refl, ap, true, false, Text, List, [], Option, none, some, map,
  range, text_eq_refl, le→ltb, arith, ◌↔◌, lt→ltb,
}

-- A table with at most 500,000 copied rows, without a partition filter, and with validation on
-- passes with the count of Oracle exactly if both databases answer the same number.
pub validate_table_iff :
    (counts : Counts) (tasks : List TableTask) (table : Text) (override : TableOverride)
    (copied o p : ℕ)
    → override.skip_validation ≡ false
    → has_partition_filter override ≡ false
    → copied ≤ 500000
    → counts.ora_count table none override.where_clause ≡ some o
    → counts.pg_count table ≡ some p
    → (validate_table counts tasks table override copied ≡ passes o) ↔ (o ≡ p)
unfolding validate_table uses_estimate oracle_count postgres_count exact_count
validate_table_iff counts tasks table override copied o p on whole small ora pg =
    rw (on, le→ltb 500000 copied small, whole, ora, pg) (ground arith)

sum_counts-hash_tasks :
    (counts : Counts) (t : Table) (override : TableOverride) (mode : TargetMode)
    (part : Option Partition) (n m k c : ℕ)
    → counts.ora_count t.name part override.where_clause ≡ some c
    → sum_counts counts [] t.name override (
        map
          (λ id.
            chunk_task t override mode part n
              (ora_hash_where n id override.where_clause)
              (hash_chunk id))
          (range m k))
      ≡ some (k * c)
sum_counts-hash_tasks counts t override mode part n m zero c h = ap some (omega arith)
sum_counts-hash_tasks counts t override mode part n m (suc k) c h =
    rw (text_eq_refl t.name, h, sum_counts-hash_tasks counts t override mode part n (suc m) k c h)
      (ap some (omega (arith, suc-mul k c)))

less_than_times : (n c : ℕ) → 2 ≤ n → 1 ≤ c → c < n * c
less_than_times zero c h k = absurd (omega arith)
less_than_times (suc zero) c h k = absurd (omega arith)
less_than_times (suc (suc n)) c h k = omega (arith, suc-mul (suc n) c, suc-mul n c)

difference-pos : (m n : ℕ) → n < m → 0 < difference m n
difference-pos m n h = ground arith

-- Where a partition filter is set and the one partition that is left was copied in `n` chunks,
-- two or more, a copy of at most 500,000 rows with all the rows fails the validation, because the
-- partition is counted once for each chunk.
pub validate_table_split :
    (counts : Counts) (t : Table) (override : TableOverride) (mode : TargetMode)
    (part : Option Partition) (n c : ℕ)
    → override.skip_validation ≡ false
    → has_partition_filter override ≡ true
    → 2 ≤ n
    → 1 ≤ c
    → c ≤ 500000
    → counts.ora_count t.name part override.where_clause ≡ some c
    → counts.pg_count t.name ≡ some c
    → validate_table counts (hash_tasks t override mode part n) t.name override c
      ≡ mismatches (n * c) c
unfolding validate_table uses_estimate oracle_count postgres_count exact_count hash_tasks
validate_table_split counts t override mode part n c on filtered many rows small ora pg =
    rw
      (
        on,
        le→ltb 500000 c small,
        filtered,
        pg,
        sum_counts-hash_tasks counts t override mode part n 0 n c ora,
      )
      (rw
        (lt→ltb 0 (difference (n * c) c) (difference-pos (n * c) c (less_than_times n c many rows)))
        refl)
