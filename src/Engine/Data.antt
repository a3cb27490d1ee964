-- ===== src/Engine/Data.antt =====
-- executeDataMigration of internal/migration/engine.go: the tasks that it hands to the worker pool,
-- and the job store beside the pool. The semaphores of single tables are left out: they only delay
-- the start of a task.
pub mod Runs
pub mod Found
pub mod Ids
pub mod Completed
use existora2pg.Engine.{task_key, job_key}
use existora2pg.Engine.Pipeline.{max_retries}
use existora2pg.JobStore.{get_pending_jobs, Store, Job, set_running, set_completed, set_failed}
use existora2pg.Plan.{MigrationPlan, TableTask}
use existora2pg.Prelude.Decimal.{show}
use existora2pg.Prelude.Dict.{lookup, insert}
use existora2pg.WorkerPool.{
  Pool, Step, start_pool, takes, ends, passes, stops, breaks, begins, fails, aborts, succeeds,
  cancels,
}
use existora2pg.Prelude.{ℕ, ◌≡◌, true, Text, codes, List, [], ◌∷◌, ◌++◌, Option, none, some}

-- The loop that fills taskMap.
unfoldable pub task_map : List (Text × TableTask) → List TableTask → List (Text × TableTask)
unfolding task_key
task_map m [] = m
task_map m (t ∷ ts) = task_map (insert (task_key t) t m) ts

abbrev pub key_of : Job → Text
key_of j = job_key j.table_name j.partition

module _ (tasks : List (Text × TableTask)) where
  abbrev pub put_found : Option TableTask → List TableTask → List TableTask
  put_found none rest = rest
  put_found (some t) rest = t ∷ rest

  -- The tasks of the waiting jobs; a job whose key has no task is passed over.
  unfoldable pub tasks_of : List Job → List TableTask
  tasks_of [] = []
  tasks_of (j ∷ js) = put_found (lookup (key_of j) tasks) (tasks_of js)

  abbrev pub note_id : Job → Option TableTask → List (Text × ℕ) → List (Text × ℕ)
  note_id j none m = m
  note_id j (some t) m = insert (key_of j) j.id m

  -- jobLookup
  unfoldable pub job_lookup : List (Text × ℕ) → List Job → List (Text × ℕ)
  job_lookup m [] = m
  job_lookup m (j ∷ js) = job_lookup (note_id j (lookup (key_of j) tasks) m) js

abbrev pub or_zero : Option ℕ → ℕ
or_zero none = 0
or_zero (some n) = n

-- `jobLookup[taskKey(task)]`
unfoldable pub job_id : List (Text × ℕ) → TableTask → ℕ
unfolding task_key
job_id ids t = or_zero (lookup (task_key t) ids)

module _ (id_of : TableTask → ℕ) where
  -- What a step of the pool writes to the store: the function of a task sets its job RUNNING when it
  -- begins, and COMPLETED or FAILED before it returns. The aborted one returns after a cancellation.
  unfoldable pub writes : ℕ → ℕ → ℕ → (p q : Pool) → Step p q → Store → Store
  unfolding set_running set_completed set_failed
  writes now rows bytes p _ (takes before after t rest e f) s = s
  writes now rows bytes p _ (ends before after e f) s = s
  writes now rows bytes p _ (passes before after t e f) s = s
  writes now rows bytes p _ (stops before after t e f) s = s
  writes now rows bytes p _ (breaks before after t e f g) s = s
  writes now rows bytes p _ (begins before after t e) s = set_running now (id_of t) s
  writes now rows bytes p _ (fails before after t m e f) s =
      set_failed now (id_of t)
        (codes "failed after " ++ (show (max_retries t.chunk) ++ (codes " retries: " ++ m))) s
  writes now rows bytes p _ (aborts before after t m e f) s = set_failed now (id_of t) m s
  writes now rows bytes p _ (succeeds before after t e) s = set_completed now (id_of t) rows bytes s
  writes now rows bytes p _ cancels s = s

  -- The pools and stores that a run with so many workers leads to. Where the context is cancelled, a
  -- statement of the store may fail and write nothing.
  pub data Run (n : ℕ) (tasks : List TableTask) (s : Store) : Pool → Store → Type 0 where
    begun : Run n tasks s (start_pool n tasks) s
    written :
        {p q : Pool} {t : Store}
        → Run n tasks s p t
        → (step : Step p q) (now rows bytes : ℕ)
        → Run n tasks s q (writes now rows bytes p q step t)
    unwritten :
        {p q : Pool} {t : Store}
        → Run n tasks s p t
        → Step p q
        → p.cancelled ≡ true
        → Run n tasks s q t

-- The runs of executeDataMigration.
abbrev pub DataRun : ℕ → Text → MigrationPlan → Store → Pool → Store → Type 0
DataRun workers run plan s p t =
    let tasks = task_map [] plan.data_tasks in
    let jobs = get_pending_jobs run (codes "data") s in
    Run (job_id (job_lookup tasks [] jobs)) workers (tasks_of tasks jobs) s p t
