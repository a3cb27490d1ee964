-- ===== src/Examples/Jobs.antt =====
-- The theorems on the job store, and on the jobs of a run, at concrete inputs.
use existora2pg.Engine.Data.Found.{tasks_of-start_run}
use existora2pg.Engine.Data.{task_map, tasks_of}
use existora2pg.Engine.{job_partition_key, add_chunk, rows_expected}
use existora2pg.Engine.Jobs.{
  job_specs, skip_if, table_spec, data_spec, is_fully_completed, completed_of,
}
use existora2pg.Config.{ChunkStrategy, resolve_target_mode, override_of}
use existora2pg.JobStore.Retry.{mark_failed_as_retrying_pending, is_unfinished, retried}
use existora2pg.Prelude.{◌&&◌, select, false, arith, map, ◌≡◌, [], ◌∷◌, refl, ◌++◌, codes, text_eq}
use existora2pg.Engine.Jobs.{prev_completed, create_all, init_jobs, start_run}
use existora2pg.Examples.Data.{one_table_plan, config_with, old_store}
use existora2pg.JobStore.{
  in_phase, scan_job, get_pending_jobs, get_latest_run_id, new_row, create_run,
  mark_failed_as_retrying, Store, create_job,
}
use existora2pg.JobStore.Valid.{
  creates_job, Reachable, IsValid, next, creates_run, Reachable-IsValid,
}

-- The store after one run was created.
abbrev one_run : Store
one_run = record {
  runs = record { id = codes "r1"; config_hash = codes "c"; created_at = 5 } ∷ [];
  jobs = [];
  next_id = 1;
}

one_run-Reachable : Reachable one_run
unfolding create_run
one_run-Reachable = next Reachable.created (creates_run 5 (codes "r1") (codes "c") refl)

abbrev one_job : Store
one_job = record {
  runs = one_run.runs;
  jobs = new_row 6 1 (codes "r1") (codes "HR") (codes "EMP") [] (codes "data") 9 ∷ [];
  next_id = 2;
}

one_job-Reachable : Reachable one_job
unfolding create_job
one_job-Reachable =
    next one_run-Reachable
      (creates_job 6 (codes "r1") (codes "HR") (codes "EMP") [] (codes "data") 9 1 refl)

Reachable-IsValid_example : IsValid one_job
Reachable-IsValid_example = Reachable-IsValid one_job one_job-Reachable

mark_failed_as_retrying_pending_example :
    let after = (mark_failed_as_retrying 200 (codes "r1") old_store).0 in
    (get_pending_jobs (codes "r1") (codes "data") after
      ≡ map scan_job (
          map (retried 200 (codes "r1")) (
            select
              (λ j. in_phase (codes "r1") (codes "data") j && is_unfinished j)
              old_store.jobs)))
    × ((mark_failed_as_retrying 200 (codes "r1") after).1 ≡ 0)
mark_failed_as_retrying_pending_example =
    mark_failed_as_retrying_pending 200 (codes "r1") (codes "data") old_store

-- The old store with a second run.
abbrev newer_store : Store
newer_store = record old_store {
  runs =
      old_store.runs ++ record { id = codes "r2"; config_hash = codes "c"; created_at = 100 } ∷ [];
}

-- The store after a second run was started with the plan of the departments.
abbrev started_store : Store
started_store = record newer_store {
  jobs =
      newer_store.jobs
      ++ (new_row 101 3 (codes "r2") (codes "HR") (codes "DEPT") [] (codes "ddl") 0
          ∷ new_row 101 4 (codes "r2") (codes "HR") (codes "DEPT") [] (codes "data") 4
          ∷ new_row 101 5 (codes "r2") (codes "HR") (codes "DEPT") [] (codes "constraints") 0
          ∷ new_row 101 6 (codes "r2") (codes "HR") (codes "DEPT") [] (codes "validate") 0
          ∷ []);
  next_id = 7;
}

tasks_of-start_run_example :
    tasks_of
      (task_map [] one_table_plan.data_tasks)
      (get_pending_jobs (codes "r2") (codes "data") started_store)
    ≡ one_table_plan.data_tasks
unfolding start_run init_jobs job_specs create_all skip_if table_spec data_spec is_fully_completed
    completed_of create_run create_job prev_completed get_latest_run_id job_partition_key add_chunk
    text_eq resolve_target_mode override_of rows_expected
tasks_of-start_run_example =
    tasks_of-start_run (config_with ChunkStrategy.ora_hash []) false one_table_plan 100 101
      (codes "r2") (codes "c") old_store started_store refl (ground arith, tt) refl (tt, tt)
      (tt, tt)
