-- ===== src/Engine/Validation/Phase.antt =====
-- executeValidation of internal/migration/engine.go: the loop over the jobs, where each call of the
-- job store ends well: its early returns on an error of one are left out. The texts of the errors of
-- the counts are an argument.
use existora2pg.Config.{MigrationConfig, override_of}
use existora2pg.Engine.Validation.{
  Counts, Outcome, passes, skips, count_fails, mismatches, validate_table, uses_estimate,
  estimate_threshold, difference,
}
use existora2pg.JobStore.{
  Store, Job, get_pending_jobs, get_jobs_by_phase, set_running, set_completed, set_failed,
  is_completed,
}
use existora2pg.Plan.{MigrationPlan, TableTask}
use existora2pg.Prelude.Decimal.{show}
use existora2pg.Writer.{PgPool, Writer, exec_ddl_return, writer_name}
use existora2pg.Prelude.{
  ℕ, ◌+◌, Bool, ◌&&◌, ◌||◌, Text, codes, text_eq, List, [], ◌∷◌, ◌++◌, ltb, if◌then◌else◌,
}

-- copiedRows, at a table.
unfoldable pub copied_rows : Text → List Job → ℕ
copied_rows table [] = 0
copied_rows table (j ∷ js) =
    let rest = copied_rows table js in
    if is_completed j.state && text_eq j.table_name table then j.rows_copied + rest else rest

-- The message of a mismatch.
abbrev pub mismatch_text : Bool → ℕ → ℕ → Text
mismatch_text estimated o p =
    codes "row count mismatch ("
    ++ ((if estimated then codes "estimated (~1% tolerance)" else codes "exact")
        ++ (codes "): oracle="
            ++ (show o ++ (codes " pg=" ++ (show p ++ (codes " diff=" ++ show (difference o p)))))))

module _ {Pg : Type 0} (pool : PgPool Pg) (w : Writer) (counts : Pg → Counts)
    (count_error : Text → Text) (cfg : MigrationConfig) (now : ℕ) where
  -- ANALYZE for each table; its errors are logged only.
  unfoldable pub analyze : List Job → Pg → Pg
  unfolding exec_ddl_return writer_name
  analyze [] pg = pg
  analyze (j ∷ js) pg =
      analyze js (exec_ddl_return pool (codes "ANALYZE " ++ writer_name w j.table_name) pg).0

  -- The end of a job.
  unfoldable pub end_job : Job → Bool → Store → Outcome → Store
  unfolding set_running set_completed set_failed
  end_job j estimated s skips = set_completed now j.id 0 0 s
  end_job j estimated s (passes n) = set_completed now j.id n 0 (set_running now j.id s)
  end_job j estimated s count_fails =
      set_failed now j.id (count_error j.table_name) (set_running now j.id s)
  end_job j estimated s (mismatches o p) =
      set_failed now j.id (mismatch_text estimated o p) (set_running now j.id s)

  module _ (tasks : List TableTask) (data_jobs : List Job) (pg : Pg) where
    -- What the body of the loop finds for a job.
    unfoldable pub outcome_of : Job → Outcome
    unfolding validate_table copied_rows
    outcome_of j =
        validate_table (counts pg) tasks j.table_name (override_of cfg j.table_name)
          (copied_rows j.table_name data_jobs)

    abbrev pub is_estimated : Job → Bool
    is_estimated j =
        let copied = copied_rows j.table_name data_jobs in
        uses_estimate (counts pg) tasks j.table_name (override_of cfg j.table_name) copied
        || ltb estimate_threshold copied

    unfoldable pub validate_jobs : List Job → Store → Store
    unfolding outcome_of end_job
    validate_jobs [] s = s
    validate_jobs (j ∷ js) s = validate_jobs js (end_job j (is_estimated j) s (outcome_of j))

  -- executeValidation
  unfoldable pub execute_validation : Text → MigrationPlan → Store → Pg → Store × Pg
  unfolding analyze validate_jobs get_pending_jobs get_jobs_by_phase
  execute_validation run plan s pg =
      let jobs = get_pending_jobs run (codes "validate") s in
      let after = analyze jobs pg in
      (validate_jobs plan.data_tasks (get_jobs_by_phase run (codes "data") s) after jobs s, after)
