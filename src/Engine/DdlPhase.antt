-- ===== src/Engine/DdlPhase.antt =====
-- executeDDL of internal/migration/engine.go.
pub mod Kept
pub mod Stored
use existora2pg.Config.{MigrationConfig, TargetMode, is_skip}
use existora2pg.Ddl.Statements.{PartitionBound}
use existora2pg.Engine.{build_partition_bounds}
use existora2pg.JobStore.{Store, Job, get_pending_jobs, set_running, set_completed, set_failed}
use existora2pg.Plan.{MigrationPlan}
use existora2pg.Plan.Build.{mode_of}
use existora2pg.Prelude.{
  ℕ, Bool, true, false, Text, codes, List, [], ◌∷◌, ◌++◌, Option, none, some, if◌then◌else◌,
}
use existora2pg.Prelude.Dict.{lookup, insert}
use existora2pg.Schema.{Table, is_partitioned}
use existora2pg.Writer.{Answer, found, absent, unknown}

-- The statements of internal/postgres/writer.go on the state of the target database, with the
-- text of the error if there is one. TableExists only reads.
pub record DdlWriter (Pg : Type 0) : Type 0 where
  pub table_exists : Text → Pg → Answer
  pub create_table : Table → Bool → Pg → Pg × Option Text
  pub create_partitions : Table → List PartitionBound → Pg → Pg × Option Text
  pub truncate_table : Text → Pg → Pg × Option Text

-- How the calls of the job store end, by the id of the job: with the text of an error, as where the
-- context is cancelled, or well. Each of them is called at most once for a job.
pub record StoreCalls : Type 0 where
  pub query_error : Option Text
  pub start_error : ℕ → Option Text
  pub end_error : ℕ → Option Text
  pub fail_error : ℕ → Option Text

-- The store behind a call: a call that fails changes nothing.
abbrev pub stored : Option Text → Store → Store → Store
stored none old new = new
stored (some e) old new = old

-- What follows a call of the store whose error ends the phase.
abbrev pub unless_failed :
    {Pg : Type 0} → Option Text → Store → Pg → Store × Pg × Option Text → Store × Pg × Option Text
unless_failed none s pg next = next
unless_failed (some e) s pg next = (s, pg, some e)

-- An error: what was tried, and the text of the cause.
abbrev pub DdlError : Type 0
DdlError = Text × Text

abbrev pub labelled : Text → Option Text → Option DdlError
labelled label none = none
labelled label (some e) = some (label, e)

-- tableMap
abbrev pub table_map : List (Text × Table) → List Table → List (Text × Table)
table_map m [] = m
table_map m (t ∷ ts) = table_map (insert t.name t m) ts

module _ {Pg : Type 0} (w : DdlWriter Pg) where
  abbrev pub partitions_after : Table → Pg × Option Text → Pg × Option DdlError
  partitions_after t (pg, some e) = (pg, some (codes "create table ", e))
  partitions_after t (pg, none) =
      let (after, err) = w.create_partitions t (build_partition_bounds t) pg in
      if is_partitioned t
      then (after, labelled (codes "create partitions for ") err)
      else (pg, none)

  -- CreateTable, and CreatePartitions for a partitioned table.
  unfoldable pub create : Table → Bool → Pg → Pg × Option DdlError
  create t drop pg = partitions_after t (w.create_table t drop pg)

  abbrev pub append_table : Table → Pg → Answer → Pg × Option DdlError
  unfolding create
  append_table t pg found = (pg, none)
  append_table t pg absent = create t false pg
  append_table t pg (unknown e) = (pg, some (codes "check table ", e))

  abbrev pub emptied : Pg × Option Text → Pg × Option DdlError
  emptied (pg, err) = (pg, labelled (codes "truncate table ") err)

  -- An error of TableExists is dropped here, and counts as "does not exist".
  abbrev pub truncate_or_create : Table → Pg → Answer → Pg × Option DdlError
  unfolding create
  truncate_or_create t pg found = emptied (w.truncate_table t.name pg)
  truncate_or_create t pg absent = create t false pg
  truncate_or_create t pg (unknown e) = create t false pg

  abbrev pub keep_or_create : Table → Pg → Answer → Pg × Option DdlError
  unfolding create
  keep_or_create t pg found = (pg, none)
  keep_or_create t pg absent = create t false pg
  keep_or_create t pg (unknown e) = create t false pg

  -- The switch over the mode of a table.
  unfoldable pub apply_mode : TargetMode → Table → Pg → Pg × Option DdlError
  unfolding create append_table truncate_or_create keep_or_create
  apply_mode TargetMode.append t pg = append_table t pg (w.table_exists t.name pg)
  apply_mode TargetMode.truncate t pg = truncate_or_create t pg (w.table_exists t.name pg)
  apply_mode TargetMode.truncate_partition t pg = keep_or_create t pg (w.table_exists t.name pg)
  apply_mode _ t pg = create t true pg

  module _ (calls : StoreCalls) (cfg : MigrationConfig) (drop_target : Bool) (now : ℕ) where
    abbrev pub wrapped : Text → DdlError → Text
    wrapped name (label, e) = label ++ (name ++ (codes ": " ++ e))

    -- The rest of the jobs after one job, or the error that ends the phase. An error of SetFailed
    -- is dropped.
    abbrev pub finish_job :
        ℕ
        → Text
        → (Store → Pg → Store × Pg × Option Text)
        → Store
        → Pg × Option DdlError
        → Store × Pg × Option Text
    unfolding set_failed set_completed
    finish_job id name rest s (pg, some e) =
        (stored (calls.fail_error id) s (set_failed now id e.1 s), pg, some (wrapped name e))
    finish_job id name rest s (pg, none) =
        unless_failed (calls.end_error id) s pg (rest (set_completed now id 0 0 s) pg)

    -- The body of the loop for a job whose table is in the map. Where the table is skipped, an
    -- error of SetCompleted is dropped.
    abbrev pub run_job :
        ℕ
        → (Store → Pg → Store × Pg × Option Text)
        → Store
        → Pg
        → Option Table
        → Store × Pg × Option Text
    unfolding finish_job apply_mode set_running set_completed mode_of
    run_job id rest s pg none = rest s pg
    run_job id rest s pg (some t) =
        let mode = mode_of cfg drop_target t in
        if is_skip mode
        then rest (stored (calls.end_error id) s (set_completed now id 0 0 s)) pg
        else unless_failed (calls.start_error id) s pg
            (finish_job id t.name rest (set_running now id s) (apply_mode mode t pg))

    unfoldable pub run_jobs : List (Text × Table) → List Job → Store → Pg → Store × Pg × Option Text
    unfolding run_job
    run_jobs tables [] s pg = (s, pg, none)
    run_jobs tables (j ∷ js) s pg =
        run_job j.id (run_jobs tables js) s pg (lookup j.table_name tables)

    -- executeDDL
    unfoldable pub execute_ddl : Text → MigrationPlan → Store → Pg → Store × Pg × Option Text
    unfolding run_jobs
    execute_ddl run plan s pg =
        unless_failed calls.query_error s pg
          (run_jobs (table_map [] plan.ddl_order) (get_pending_jobs run (codes "ddl") s) s pg)
