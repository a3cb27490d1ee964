-- ===== src/Engine/Pipeline.antt =====
-- The function that executeDataMigration of internal/migration/engine.go runs for each task, without
-- its cancellation, progress watchdog and log lines.
pub mod Once
use existora2pg.Config.{MigrationConfig, is_truncate_partition}
use existora2pg.Chunker.{RowIdChunk}
use existora2pg.JobStore.{Store, Job, set_running, set_completed, set_failed, is_retrying}
use existora2pg.Plan.{TableTask}
use existora2pg.Plan.Build.{setting_or}
use existora2pg.Prelude.{
  ℕ, zero, suc, Bool, true, false, ◌&&◌, not, ◌==◌, any, is_nil, is_some, Text, codes, List, [],
  ◌∷◌, ◌++◌, Option, none, some, if◌then◌else◌,
}
use existora2pg.Prelude.Decimal.{show}
use existora2pg.Schema.{Partition}

-- How a copy ends: with its rows and bytes, or with the text of an error.
pub data Copied : Type 0 where
  done : ℕ → ℕ → Copied
  broken : Text → Copied

-- The statements of internal/postgres/writer.go on the state of the target; the errors of the two
-- truncations are dropped. `copy` reads the task's rows from Oracle, too.
pub record Target (Pg : Type 0) : Type 0 where
  pub truncate_table : Text → Pg → Pg
  pub truncate_partition : Text → Text → Pg → Pg
  pub copy : TableTask → ℕ → Pg → Pg × Copied

-- Whether the job was waiting as RETRYING.
unfoldable pub is_retry : ℕ → List Job → Bool
is_retry id jobs = any (λ j. j.id == id && is_retrying j.state) jobs

-- maxPipelineRetries
abbrev pub max_retries : Option RowIdChunk → ℕ
max_retries none = 3
max_retries (some c) = 0

module _ {Pg : Type 0} (target : Target Pg) where
  abbrev pub empty_target : TableTask → Option Partition → Pg → Pg
  empty_target task none pg = target.truncate_table task.table.name pg
  empty_target task (some p) pg = target.truncate_partition task.table.name p.name pg

  abbrev pub empty_partition : TableTask → Option Partition → Pg → Pg
  empty_partition task none pg = pg
  empty_partition task (some p) pg = target.truncate_partition task.table.name p.name pg

  -- The cleanup before the first attempt.
  unfoldable pub prepare : Bool → TableTask → Pg → Pg
  prepare retry task pg =
      if retry
      then if is_some task.chunk && not (is_nil task.where_clause)
        then pg
        else empty_target task task.partition pg
      else if is_truncate_partition task.target_mode
      then empty_partition task task.partition pg
      else pg

  -- The cleanup between two attempts.
  unfoldable pub clean_up : TableTask → Pg → Pg
  clean_up task pg = if is_some task.chunk then pg else empty_target task task.partition pg

  -- After an attempt: the end, or the rest after the cleanup.
  abbrev pub again : TableTask → (Pg → Pg × Copied) → Pg × Copied → Pg × Copied
  unfolding clean_up
  again task rest (pg, done rows bytes) = (pg, done rows bytes)
  again task rest (pg, broken e) = rest (clean_up task pg)

  -- The loop over the attempts, with so many retries left.
  unfoldable pub attempts : TableTask → ℕ → ℕ → Pg → Pg × Copied
  unfolding again
  attempts task batch zero pg = target.copy task batch pg
  attempts task batch (suc n) pg = again task (attempts task batch n) (target.copy task batch pg)

  abbrev pub finished : ℕ → ℕ → ℕ → Store → Pg × Copied → Store × Pg × Option Text
  unfolding set_completed set_failed
  finished now id retries s (pg, done rows bytes) = (set_completed now id rows bytes s, pg, none)
  finished now id retries s (pg, broken e) = (
    set_failed now id (codes "failed after " ++ (show retries ++ (codes " retries: " ++ e))) s,
    pg,
    some e,
  )

  unfoldable pub process_task :
      MigrationConfig → ℕ → ℕ → Bool → TableTask → Store → Pg → Store × Pg × Option Text
  unfolding prepare attempts finished set_running
  process_task cfg now id retry task s pg =
      let retries = max_retries task.chunk in
      finished now id retries (set_running now id s)
        (attempts task (setting_or task.batch_size cfg.batch_size) retries (prepare retry task pg))
