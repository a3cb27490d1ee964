-- ===== src/Examples/Runs.antt =====
-- The theorems on runs of the phases at concrete inputs.
use existora2pg.Engine.Validation.Verdicts.{execute_validation_verdict, judged}
use existora2pg.Engine.Validation.{validate_table}
use existora2pg.Config.{override_of}
use existora2pg.Engine.Validation.Phase.{execute_validation, copied_rows, outcome_of}
use existora2pg.Writer.{new_writer}
use existora2pg.Engine.Data.Completed.{DataRun-completed}
use existora2pg.Engine.{add_chunk_key, job_key, task_key}
use existora2pg.Prelude.Dict.{insert, lookup}
use existora2pg.Prelude.{true, refl, arith, All, ◌≡◌, text_eq, none, [], ◌∷◌, codes}
use existora2pg.Engine.Data.{
  written, begun, DataRun, job_id, job_lookup, task_map, writes, tasks_of,
}
use existora2pg.JobStore.{
  scan_job, get_jobs_by_phase, is_completed, new_row, query, set_running, get_pending_jobs,
  set_completed, Store,
}
use existora2pg.WorkerPool.{takes, passes, begins, succeeds, ends, gone, start_pool, Pool}
use existora2pg.Engine.Constraints.Ended.{Passes}
use existora2pg.Examples.Data.{config, open_pool, forty_rows, whole_departments, one_table_plan}

-- A run with one waiting job, that of the departments.
abbrev waiting_store : Store
waiting_store = record {
  runs = record { id = codes "r1"; config_hash = codes "c"; created_at = 5 } ∷ [];
  jobs = new_row 6 1 (codes "r1") (codes "HR") (codes "DEPT") [] (codes "data") 4 ∷ [];
  next_id = 2;
}

-- The pool after the one call.
abbrev ended_pool : Pool
ended_pool = record (start_pool 1 (whole_departments ∷ [])) {
  queue = [];
  workers = gone ∷ [];
  finished = (whole_departments, none) ∷ [];
}

abbrev completed_store : Store
completed_store = set_completed 8 1 4 0 (set_running 7 1 waiting_store)

data_run : DataRun 1 (codes "r1") one_table_plan waiting_store ended_pool completed_store
unfolding writes tasks_of task_map job_lookup job_id get_pending_jobs query lookup insert text_eq
    task_key job_key add_chunk_key
data_run =
    written
      (written
        (written
          (written (written begun (takes [] [] whole_departments [] refl refl) 7 0 0)
            (passes [] [] whole_departments refl refl) 7 0 0)
          (begins [] [] whole_departments refl) 7 0 0)
        (succeeds [] [] whole_departments refl) 8 4 0)
      (ends [] [] refl refl) 8 0 0

DataRun-completed_example :
    (get_pending_jobs (codes "r1") (codes "data") completed_store ≡ [])
    × All
        (λ j. Passes (λ k. is_completed k.state) j.id completed_store)
        (get_pending_jobs (codes "r1") (codes "data") waiting_store)
unfolding tasks_of task_map get_pending_jobs query lookup insert text_eq task_key job_key
    add_chunk_key
DataRun-completed_example =
    DataRun-completed 1 (codes "r1") one_table_plan waiting_store ended_pool completed_store
      (record { ordered = (tt, tt); below_next = (omega arith, tt) }) (refl, tt) (tt, tt) data_run
      refl refl refl

abbrev unchecked_store : Store
unchecked_store = record {
  runs = [];
  jobs = new_row 6 1 (codes "r1") (codes "HR") (codes "DEPT") [] (codes "validate") 0 ∷ [];
  next_id = 2;
}

execute_validation_verdict_example :
    Passes
      (judged true)
      1
      (execute_validation open_pool
        (new_writer (codes "public"))
        (λ pg. forty_rows)
        (λ t. [])
        config.migration
        9
        (codes "r1")
        one_table_plan
        unchecked_store
        0).0
unfolding outcome_of validate_table copied_rows get_jobs_by_phase query text_eq override_of
    get_pending_jobs
execute_validation_verdict_example =
    execute_validation_verdict open_pool (new_writer (codes "public")) (λ pg. forty_rows) (λ t. [])
      config.migration 9 (codes "r1") one_table_plan unchecked_store 0 0
      (scan_job (new_row 6 1 (codes "r1") (codes "HR") (codes "DEPT") [] (codes "validate") 0))
      (record { ordered = (tt, tt); below_next = (omega arith, tt) }) refl
