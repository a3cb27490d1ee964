-- ===== src/Engine/Validation.antt =====
-- The comparison of row counts in executeValidation of internal/migration/engine.go.
pub mod Split
pub mod Phase
pub mod Verdicts
use existora2pg.Config.{TableOverride}
use existora2pg.Plan.{TableTask}
use existora2pg.Schema.{Partition}
use existora2pg.Prelude.{
  ℕ, ◌+◌, ◌-◌, ◌/◌, Bool, true, false, ◌&&◌, ◌||◌, not, Text, List, [], ◌∷◌, Option, none, some,
  if◌then◌else◌, is_nil, is_some, text_eq, ltb, leb,
}

-- What the two databases answer, `none` for an error: reader.go's EstimateCount and Count, with a
-- partition and a filter, and writer.go's.
pub record Counts : Type 0 where
  pub ora_estimate : Text → Option ℕ
  pub ora_count : Text → Option Partition → Text → Option ℕ
  pub pg_estimate : Text → Option ℕ
  pub pg_count : Text → Option ℕ

-- How the job of a table ends: COMPLETED with a row count, or FAILED.
pub data Outcome : Type 0 where
  passes : ℕ → Outcome
  skips : Outcome
  count_fails : Outcome
  mismatches : ℕ → ℕ → Outcome

abbrev pub estimate_threshold : ℕ
estimate_threshold = 500000

unfoldable pub has_partition_filter : TableOverride → Bool
has_partition_filter override =
    not (is_nil override.partition_filter) || is_some override.partition_range

abbrev pub add_rows : Option ℕ → Option ℕ → Option ℕ
add_rows none n = none
add_rows (some m) none = none
add_rows (some m) (some n) = some (m + n)

-- An estimate counts if it came without error and is positive.
abbrev pub is_usable : Option ℕ → Bool
is_usable none = false
is_usable (some n) = ltb 0 n

abbrev pub max_of : ℕ → ℕ → ℕ
max_of m n = if leb m n then n else m

abbrev pub difference : ℕ → ℕ → ℕ
difference m n = if leb m n then n - m else m - n

module _ (counts : Counts) (tasks : List TableTask) (table : Text) (override : TableOverride) where
  -- The loop over the data tasks of the table.
  abbrev pub sum_counts : List TableTask → Option ℕ
  sum_counts [] = some 0
  sum_counts (t ∷ ts) =
      let rest = sum_counts ts in
      if text_eq t.table.name table
      then add_rows (counts.ora_count table t.partition override.where_clause) rest
      else rest

  unfoldable pub exact_count : Option ℕ
  unfolding has_partition_filter
  exact_count =
      if has_partition_filter override
      then sum_counts tasks
      else counts.ora_count table none override.where_clause

  -- Whether Oracle's statistics are used, given the number of copied rows.
  unfoldable pub uses_estimate : ℕ → Bool
  unfolding has_partition_filter
  uses_estimate copied =
      ltb estimate_threshold copied
      && (not (has_partition_filter override)
          && (is_nil override.where_clause && is_usable (counts.ora_estimate table)))

  unfoldable pub oracle_count : ℕ → Option ℕ
  unfolding uses_estimate exact_count
  oracle_count copied = if uses_estimate copied then counts.ora_estimate table else exact_count

  unfoldable pub postgres_count : ℕ → Option ℕ
  postgres_count copied =
      if ltb estimate_threshold copied && is_usable (counts.pg_estimate table)
      then counts.pg_estimate table
      else counts.pg_count table

  abbrev pub compared : Bool → Option ℕ → Option ℕ → Outcome
  compared estimated none pg = count_fails
  compared estimated (some o) none = count_fails
  compared estimated (some o) (some p) =
      let tolerance = if estimated then max_of o p / 100 else 0 in
      if ltb tolerance (difference o p) then mismatches o p else passes o

  -- The body of the loop over the jobs, where `copied` rows were copied.
  unfoldable pub validate_table : ℕ → Outcome
  unfolding uses_estimate oracle_count postgres_count
  validate_table copied =
      if override.skip_validation
      then skips
      else compared (uses_estimate copied || ltb estimate_threshold copied) (oracle_count copied)
          (postgres_count copied)
