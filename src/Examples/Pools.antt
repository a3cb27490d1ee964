-- ===== src/Examples/Pools.antt =====
-- The theorems on the worker pool at a run with one worker and one task.
use existora2pg.Examples.Data.{whole_departments}
use existora2pg.Plan.{TableTask}
use existora2pg.WorkerPool.Accounts.{count_finished}
use existora2pg.WorkerPool.Progress.{steps_left-Step, Step-or_gone, steps_left}
use existora2pg.WorkerPool.Drains.{Reachable-drained, first_error, all_gone}
use existora2pg.Prelude.{refl, count_if, some, ◌⊎◌, codes, true, ◌∷◌, ◌<◌, ◌≡◌, List, []}
use existora2pg.WorkerPool.{
  Pool, Step, Reachable, start_pool, started, next, takes, passes, begins, fails, ends, idle, gone,
}

abbrev tasks : List TableTask
tasks = whole_departments ∷ []

-- The task was run, and failed.
abbrev failed_pool : Pool
failed_pool = record (start_pool 1 tasks) {
  queue = [];
  workers = gone ∷ [];
  consecutive_fails = 1;
  first_err = some (codes "lost");
  finished = (whole_departments, some (codes "lost")) ∷ [];
}

failed_pool-Reachable : Reachable 1 tasks failed_pool
failed_pool-Reachable =
    next
      (next
        (next
          (next (next started (takes [] [] whole_departments [] refl refl))
            (passes [] [] whole_departments refl refl))
          (begins [] [] whole_departments refl))
        (fails [] [] whole_departments (codes "lost") refl refl))
      (ends [] [] refl refl)

Reachable-drained_example :
    (count_finished (λ task. true) failed_pool.finished ≡ count_if (λ task. true) tasks)
    × (failed_pool.first_err ≡ first_error failed_pool.finished)
Reachable-drained_example =
    Reachable-drained 1 tasks failed_pool (λ task. true) failed_pool-Reachable refl refl

steps_left-Step_example :
    (steps_left failed_pool < steps_left (record failed_pool { workers = idle ∷ [] }))
    ⊎ (failed_pool ≡ record failed_pool { workers = idle ∷ []; cancelled = true })
steps_left-Step_example =
    steps_left-Step (record failed_pool { workers = idle ∷ [] }) failed_pool (ends [] [] refl refl)

Step-or_gone_example :
    (all_gone (start_pool 1 tasks).workers ≡ true) ⊎ ((q : Pool) × Step (start_pool 1 tasks) q)
Step-or_gone_example = Step-or_gone (start_pool 1 tasks)
