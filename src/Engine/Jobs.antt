-- ===== src/Engine/Jobs.antt =====
-- initJobs of internal/migration/engine.go, and what Run passes to it.
pub mod Start
pub mod Valid
use existora2pg.Config.{MigrationConfig, is_truncate_partition}
use existora2pg.Engine.{job_partition_key, rows_expected}
use existora2pg.JobStore.{
  Store, create_job, set_skipped, create_run, get_latest_run_id, get_completed_partitions,
}
use existora2pg.Plan.{TableTask, MigrationPlan}
use existora2pg.Plan.Build.{mode_of}
use existora2pg.Prelude.{
  ℕ, Bool, true, false, ◌&&◌, ◌||◌, not, Text, codes, List, [], ◌∷◌, ◌++◌, Option, none, some,
  if◌then◌else◌, is_nil, text_eq, any, map, is_some,
}
use existora2pg.Prelude.Dict.{lookup}
use existora2pg.Schema.{Table}

-- A job that the loops create, and the row count with which it is then skipped, if it is.
pub record JobSpec : Type 0 where
  pub schema : Text
  pub table : Text
  pub partition : Text
  pub phase : Text
  pub expected : ℕ
  pub skip : Option ℕ

unfoldable pub skip_if : ℕ → ℕ → Option ℕ → Store → Store
unfolding set_skipped
skip_if now id none s = s
skip_if now id (some rows) s = set_skipped now id rows s

-- The jobs one after the other, within one second of the clock; an error ends it.
unfoldable pub create_all : ℕ → Text → List JobSpec → Store → Option Store
create_all now run [] s = some s
create_all now run (x ∷ xs) s =
    elim (create_job now run x.schema x.table x.partition x.phase x.expected s) [
      | none ↦ none
      | some (t, id) ↦ create_all now run xs (skip_if now id x.skip t)
    ]

abbrev pub progress_key : Text → Text → Text
progress_key table partition = table ++ (b':' ∷ partition)

module _ (cfg : MigrationConfig) (drop_target : Bool) (plan : MigrationPlan)
    (prev : List (Text × ℕ)) where
  -- incrementalTables
  unfoldable pub is_incremental : Text → Bool
  unfolding mode_of
  is_incremental name =
      any (λ t. text_eq t.name name && is_truncate_partition (mode_of cfg drop_target t))
        plan.ddl_order

  abbrev pub is_missing : Text → TableTask → Bool
  is_missing name task =
      text_eq task.table.name name
      && not (is_some (lookup (progress_key name (job_partition_key task)) prev))

  -- tableFullyCompleted
  unfoldable pub is_fully_completed : Text → Bool
  unfolding is_incremental
  is_fully_completed name =
      not (is_nil prev)
      && (is_incremental name
          && (any (λ task. text_eq task.table.name name) plan.data_tasks
              && not (any (is_missing name) plan.data_tasks)))

  unfoldable pub table_spec : Text → Table → JobSpec
  unfolding is_fully_completed
  table_spec phase t = record {
    schema = t.owner;
    table = t.name;
    partition = [];
    phase = phase;
    expected = 0;
    skip = if is_fully_completed t.name then some 0 else none;
  }

  unfoldable pub data_spec : TableTask → JobSpec
  unfolding is_incremental
  data_spec task = record {
    schema = task.table.owner;
    table = task.table.name;
    partition = job_partition_key task;
    phase = codes "data";
    expected = rows_expected task;
    skip =
        if is_incremental task.table.name
        then lookup (progress_key task.table.name (job_partition_key task)) prev
        else none;
  }

  -- The loops over the tables and the tasks.
  unfoldable pub job_specs : List JobSpec
  unfolding table_spec data_spec
  job_specs =
      map (table_spec (codes "ddl")) plan.ddl_order
      ++ (map data_spec plan.data_tasks
          ++ (map (table_spec (codes "constraints")) plan.constraint_order
              ++ map (table_spec (codes "validate")) plan.ddl_order))

  -- initJobs
  unfoldable pub init_jobs : ℕ → Text → Store → Option Store
  unfolding create_all job_specs
  init_jobs now run s = create_all now run job_specs s

unfoldable pub completed_of : Store → Option Text → List (Text × ℕ)
unfolding get_completed_partitions
completed_of s none = []
completed_of s (some run) = get_completed_partitions run s

-- prevCompleted of Run
unfoldable pub prev_completed : Store → List (Text × ℕ)
unfolding completed_of
prev_completed s = completed_of s (get_latest_run_id s)

abbrev pub init_or_error : (Store → Option Store) → Option Store → Option Store
init_or_error init none = none
init_or_error init (some s) = init s

-- The statements of Run up to the jobs: the run is created, then the latest run is looked up.
unfoldable pub start_run :
    MigrationConfig → Bool → MigrationPlan → ℕ → ℕ → Text → Text → Store → Option Store
unfolding init_jobs prev_completed
start_run cfg drop_target plan created now run hash s =
    init_or_error (λ t. init_jobs cfg drop_target plan (prev_completed t) now run t)
      (create_run created run hash s)
