-- ===== src/WorkerPool.antt =====
-- internal/migration/worker.go: the pool as a relation of its steps. The channel of the tasks is a
-- queue, and any worker may take the next step. A pause of the circuit breaker is no step.
pub mod Accounts
pub mod Drains
pub mod Progress
use existora2pg.Plan.{TableTask}
use existora2pg.Prelude.{
  ℕ, zero, suc, ◌≡◌, ◌≤◌, Bool, true, false, Text, List, [], ◌∷◌, ◌++◌, Option, none, some,
}

-- Where a worker stands: before the channel, with a task before its test of the context, behind
-- that test, in the task's function, or at its return.
pub data Worker : Type 0 where
  idle : Worker
  holding : TableTask → Worker
  ready : TableTask → Worker
  running : TableTask → Worker
  gone : Worker

-- `finished` has the outcome of each call of the function, `dropped` the tasks that workers had
-- taken when they stopped.
pub record Pool : Type 0 where
  pub queue : List TableTask
  pub workers : List Worker
  pub consecutive_fails : ℕ
  pub first_err : Option Text
  pub cancelled : Bool
  pub finished : List (TableTask × Option Text)
  pub dropped : List TableTask

abbrev pub idle_workers : ℕ → List Worker
idle_workers zero = []
idle_workers (suc n) = idle ∷ idle_workers n

-- NewWorkerPool: at least one worker.
abbrev pub pool_size : ℕ → ℕ
pool_size zero = 1
pool_size (suc n) = suc n

-- Run with all tasks in the channel, which is closed, and the workers started.
abbrev pub start_pool : ℕ → List TableTask → Pool
start_pool workers tasks = record {
  queue = tasks;
  workers = idle_workers (pool_size workers);
  consecutive_fails = 0;
  first_err = none;
  cancelled = false;
  finished = [];
  dropped = [];
}

-- `errOnce.Do(func() { firstErr = err })`
abbrev pub keep_first : Option Text → Text → Option Text
keep_first none e = some e
keep_first (some f) e = some f

-- The pool after the worker between two groups has moved to another place.
abbrev pub move : Pool → List Worker → Worker → List Worker → Pool
move p before w after = record p { workers = before ++ w ∷ after }

abbrev pub log_outcome : Pool → TableTask → Option Text → Pool
log_outcome p t o = record p { finished = p.finished ++ (t, o) ∷ [] }

pub data Step : Pool → Pool → Type 0 where
  takes :
      {p : Pool} (before after : List Worker) (t : TableTask) (rest : List TableTask)
      → p.workers ≡ before ++ idle ∷ after
      → p.queue ≡ t ∷ rest
      → Step p (record (move p before (holding t) after) { queue = rest })
  ends :
      {p : Pool} (before after : List Worker)
      → p.workers ≡ before ++ idle ∷ after
      → p.queue ≡ []
      → Step p (move p before gone after)
  passes :
      {p : Pool} (before after : List Worker) (t : TableTask)
      → p.workers ≡ before ++ holding t ∷ after
      → p.cancelled ≡ false
      → Step p (move p before (ready t) after)
  stops :
      {p : Pool} (before after : List Worker) (t : TableTask)
      → p.workers ≡ before ++ holding t ∷ after
      → p.cancelled ≡ true
      → Step p (record (move p before gone after) { dropped = t ∷ p.dropped })
  -- During the pause after five failures or more.
  breaks :
      {p : Pool} (before after : List Worker) (t : TableTask)
      → p.workers ≡ before ++ ready t ∷ after
      → 5 ≤ p.consecutive_fails
      → p.cancelled ≡ true
      → Step p (record (move p before gone after) { dropped = t ∷ p.dropped })
  begins :
      {p : Pool} (before after : List Worker) (t : TableTask)
      → p.workers ≡ before ++ ready t ∷ after
      → Step p (move p before (running t) after)
  fails :
      {p : Pool} (before after : List Worker) (t : TableTask) (e : Text)
      → p.workers ≡ before ++ running t ∷ after
      → p.cancelled ≡ false
      → Step p (record (log_outcome (move p before idle after) t (some e)) {
        consecutive_fails = suc p.consecutive_fails;
        first_err = keep_first p.first_err e;
      })
  -- A failure after the cancellation is not recorded.
  aborts :
      {p : Pool} (before after : List Worker) (t : TableTask) (e : Text)
      → p.workers ≡ before ++ running t ∷ after
      → p.cancelled ≡ true
      → Step p (record (log_outcome (move p before gone after) t (some e)) {
        consecutive_fails = suc p.consecutive_fails;
      })
  succeeds :
      {p : Pool} (before after : List Worker) (t : TableTask)
      → p.workers ≡ before ++ running t ∷ after
      → Step p (record (log_outcome (move p before idle after) t none) { consecutive_fails = 0 })
  cancels : {p : Pool} → Step p (record p { cancelled = true })

-- The pools that a run with so many workers leads to.
pub data Reachable (n : ℕ) (tasks : List TableTask) : Pool → Type 0 where
  started : Reachable n tasks (start_pool n tasks)
  next : {p q : Pool} → Reachable n tasks p → Step p q → Reachable n tasks q
