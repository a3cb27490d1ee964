-- ===== src/Plan/Tasks/Cover.antt =====
-- The rows that the tasks of internal/migration/plan.go read, by the condition of their query.
use existora2pg.Chunker.{hash_chunk, ora_hash_filter, and_where, show_pred}
use existora2pg.Chunker.Buckets.{Row, reads, count_if-range}
use existora2pg.Config.{TargetMode, TableOverride}
use existora2pg.Plan.Tasks.{hash_tasks, hash_or_single, chunk_task, ora_hash_where}
use existora2pg.Prelude.Decimal.{show}
use existora2pg.Schema.{Table, Partition}
use existora2pg.Prelude.{
  Option, Bool, true, false, ℕ, ◌≡◌, ap, ◌∙◌, ◌≤◌, zero, suc, arith, count_if, map, range, ltb,
  Bool-cases, inl, inr, Text, codes, is_nil, ◌++◌, ◌==◌, ◌&&◌, ◌||◌, if◌then◌else◌,
}

-- The condition that a bucket of ORA_HASH holds the row.
abbrev pub bucket_test : ℕ → ℕ → Text
bucket_test m k = codes "ORA_HASH(ROWID, " ++ (show m ++ (codes ") = " ++ show k))

and_true : (b : Bool) → b ≡ b && true
and_true b = ground arith

-- How Oracle decides conditions for a row.
module _ (row : Row) (holds : Text → Bool) where
  -- Whether a query with a condition reads the row; without one it reads each row.
  abbrev pub selects : Text → Bool
  selects condition = is_nil condition || holds condition

  -- What is documented of conditions: a comparison with ORA_HASH compares, and AND with another
  -- condition in parentheses is the conjunction.
  pub record Evaluates (existing : Text) : Type 0 where
    pub compares : (m k : ℕ) → holds (bucket_test m k) ≡ row.ora_hash m == k
    pub conjoins :
        (m k : ℕ)
        → is_nil existing ≡ false
        → holds (bucket_test m k ++ (codes " AND (" ++ (existing ++ codes ")")))
          ≡ row.ora_hash m == k && holds existing

  selects-ora_hash_where :
      (existing : Text) (n id : ℕ)
      → Evaluates existing
      → selects (ora_hash_where (suc n) id existing) ≡ row.ora_hash n == id && selects existing
  unfolding ora_hash_where and_where ora_hash_filter show_pred
  selects-ora_hash_where existing n id law = elim (Bool-cases (is_nil existing)) [
    | inl whole ↦ rw whole (law.compares n id ∙ and_true (row.ora_hash n == id))
    | inr more ↦ rw more (law.conjoins n id more)
  ]

  module _ (t : Table) (override : TableOverride) (mode : TargetMode) (part : Option Partition)
      (law : Evaluates override.where_clause) where
    -- Each chunk reads the row if its bucket holds it, and the condition of the override does.
    count_if-hash_tasks :
        (n m k : ℕ)
        → count_if
            (λ task. selects task.where_clause)
            (map
              (λ id.
                chunk_task t override mode part
                  (suc n)
                  (ora_hash_where (suc n) id override.where_clause)
                  (hash_chunk id))
              (range m k))
          ≡ (if selects override.where_clause
              then count_if (reads row (suc n)) (map hash_chunk (range m k))
              else 0)
    count_if-hash_tasks n m zero = ground arith
    count_if-hash_tasks n m (suc k) = ground (
      arith,
      selects-ora_hash_where override.where_clause n m law,
      count_if-hash_tasks n (suc m) k,
    )

    -- Where the planner asks for at least one chunk, exactly one of the tasks of the table or of
    -- the partition reads a given row by the condition of its query, whether they are chunks or a
    -- single task, if the row satisfies the condition of the override or there is none; if it does
    -- not satisfy it, no task reads the row.
    pub hash_or_single_exactly_one :
        (n : ℕ)
        → 1 ≤ n
        → count_if (λ task. selects task.where_clause) (hash_or_single t override mode part n)
          ≡ (if selects override.where_clause then 1 else 0)
    unfolding hash_or_single hash_tasks
    hash_or_single_exactly_one zero h = absurd (omega arith)
    hash_or_single_exactly_one (suc n) h = elim (Bool-cases (ltb 1 (suc n))) [
      | inl many ↦
          rw (many, count_if-hash_tasks n 0 (suc n))
            (ap (λ c. if selects override.where_clause then c else 0)
              (count_if-range row (suc n) 0 (suc n) (omega arith)
                (omega (arith, row.ora_hash-le n))))
      | inr one ↦ rw one (ground arith)
    ]
