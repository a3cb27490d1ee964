-- ===== src/Examples/Workers.antt =====
-- A data phase in which the first of two workers runs all tasks, none of which fails.
use existora2pg.Engine.Data.{
  Run, begun, written, writes, DataRun, task_map, tasks_of, job_lookup, job_id,
}
use existora2pg.JobStore.{Store, get_pending_jobs, set_running, set_completed}
use existora2pg.Plan.{MigrationPlan, TableTask}
use existora2pg.WorkerPool.{Pool, idle, gone, start_pool, takes, passes, begins, succeeds, ends}
use existora2pg.Prelude.{ℕ, refl, Text, codes, List, [], ◌∷◌, ◌++◌, Option, none}

-- What the function of each task writes.
abbrev pub run_all : (TableTask → ℕ) → List TableTask → Store → Store
run_all id_of [] s = s
run_all id_of (t ∷ ts) s =
    run_all id_of ts (set_completed 8 (id_of t) 4 0 (set_running 7 (id_of t) s))

-- Both workers wait for tasks.
abbrev waiting_pool : List TableTask → List (TableTask × Option Text) → Pool
waiting_pool queue finished = record (start_pool 2 []) { queue = queue; finished = finished }

abbrev pub ended_pool : List (TableTask × Option Text) → Pool
ended_pool finished = record (waiting_pool [] finished) { workers = gone ∷ gone ∷ [] }

module _ (id_of : TableTask → ℕ) (tasks : List TableTask) (s : Store) where
  one_task :
      (t : TableTask) (ts : List TableTask) (fs : List (TableTask × Option Text)) (u : Store)
      → Run id_of 2 tasks s (waiting_pool (t ∷ ts) fs) u
      → Run id_of 2 tasks s
          (waiting_pool ts (fs ++ (t, none) ∷ []))
          (set_completed 8 (id_of t) 4 0 (set_running 7 (id_of t) u))
  unfolding writes
  one_task t ts fs u r =
      written
        (written
          (written (written r (takes [] (idle ∷ []) t ts refl refl) 7 0 0)
            (passes [] (idle ∷ []) t refl refl) 7 0 0)
          (begins [] (idle ∷ []) t refl) 7 0 0)
        (succeeds [] (idle ∷ []) t refl) 8 4 0

  all_tasks :
      (ts : List TableTask) (fs : List (TableTask × Option Text)) (u : Store)
      → Run id_of 2 tasks s (waiting_pool ts fs) u
      → (gs : List (TableTask × Option Text)) × Run id_of 2 tasks s
          (ended_pool gs)
          (run_all id_of ts u)
  unfolding writes
  all_tasks [] fs u r = (
    fs,
    written (written r (ends [] (idle ∷ []) refl refl) 9 0 0) (ends (gone ∷ []) [] refl refl) 9 0 0,
  )
  all_tasks (t ∷ ts) fs u r =
      all_tasks ts (fs ++ (t, none) ∷ [])
        (set_completed 8 (id_of t) 4 0 (set_running 7 (id_of t) u)) (one_task t ts fs u r)

-- The data phase of a plan.
abbrev pub by_one_worker : Text → MigrationPlan → Store → Store
by_one_worker run plan s =
    let table = task_map [] plan.data_tasks in
    let jobs = get_pending_jobs run (codes "data") s in
    run_all (job_id (job_lookup table [] jobs)) (tasks_of table jobs) s

pub by_one_worker-DataRun :
    (run : Text) (plan : MigrationPlan) (s : Store)
    → (gs : List (TableTask × Option Text)) × DataRun 2 run plan s
        (ended_pool gs)
        (by_one_worker run plan s)
by_one_worker-DataRun run plan s =
    let table = task_map [] plan.data_tasks in
    let jobs = get_pending_jobs run (codes "data") s in
    all_tasks (job_id (job_lookup table [] jobs)) (tasks_of table jobs) s (tasks_of table jobs) [] s
      begun
