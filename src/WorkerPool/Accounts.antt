-- ===== src/WorkerPool/Accounts.antt =====
-- The places of the tasks in the pool of internal/migration/worker.go.
use existora2pg.Plan.{TableTask}
use existora2pg.Prelude.{
  ℕ, zero, suc, ◌+◌, ◌≡◌, refl, ◌∙◌, Bool, Text, List, [], ◌∷◌, ◌++◌, Option, none, some, count_if,
  if◌then◌else◌, arith,
}
use existora2pg.WorkerPool.{
  Worker, Pool, Step, Reachable, idle, holding, ready, running, gone, idle_workers, pool_size,
  takes, ends, passes, stops, breaks, begins, fails, aborts, succeeds, cancels, started, next,
}

module _ (test : TableTask → Bool) where
  abbrev one_if : TableTask → ℕ
  one_if t = if test t then 1 else 0

  -- The task that a worker has.
  abbrev pub has : Worker → ℕ
  has idle = 0
  has (holding t) = one_if t
  has (ready t) = one_if t
  has (running t) = one_if t
  has gone = 0

  abbrev pub held : List Worker → ℕ
  held [] = 0
  held (w ∷ ws) = has w + held ws

  abbrev pub count_finished : List (TableTask × Option Text) → ℕ
  count_finished [] = 0
  count_finished ((t, o) ∷ rest) = one_if t + count_finished rest

  -- The tasks that pass the test, wherever they are.
  abbrev pub everywhere : Pool → ℕ
  everywhere p =
      count_if test p.queue + held p.workers + count_finished p.finished + count_if test p.dropped

  pub held-append : (xs ys : List Worker) → held (xs ++ ys) ≡ held xs + held ys
  held-append [] ys = omega arith
  held-append (x ∷ xs) ys = omega (arith, held-append xs ys)

  count_finished-append :
      (xs ys : List (TableTask × Option Text))
      → count_finished (xs ++ ys) ≡ count_finished xs + count_finished ys
  count_finished-append [] ys = omega arith
  count_finished-append ((t, o) ∷ xs) ys = omega (arith, count_finished-append xs ys)

  held_moved :
      (p : Pool) (before after : List Worker) (v w : Worker)
      → p.workers ≡ before ++ v ∷ after
      → held (before ++ w ∷ after) + has v ≡ held p.workers + has w
  held_moved p before after v w e =
      rw e (omega (arith, held-append before (v ∷ after), held-append before (w ∷ after)))

  everywhere-Step : (p q : Pool) → Step p q → everywhere q ≡ everywhere p
  everywhere-Step p _ (takes before after t rest e f) =
      rw f (ground (arith, held_moved p before after idle (holding t) e))
  everywhere-Step p _ (ends before after e f) = omega (arith, held_moved p before after idle gone e)
  everywhere-Step p _ (passes before after t e f) =
      omega (arith, held_moved p before after (holding t) (ready t) e)
  everywhere-Step p _ (stops before after t e f) =
      ground (arith, held_moved p before after (holding t) gone e)
  everywhere-Step p _ (breaks before after t e f g) =
      ground (arith, held_moved p before after (ready t) gone e)
  everywhere-Step p _ (begins before after t e) =
      omega (arith, held_moved p before after (ready t) (running t) e)
  everywhere-Step p _ (fails before after t m e f) = omega (
    arith,
    held_moved p before after (running t) idle e,
    count_finished-append p.finished ((t, some m) ∷ []),
  )
  everywhere-Step p _ (aborts before after t m e f) = omega (
    arith,
    held_moved p before after (running t) gone e,
    count_finished-append p.finished ((t, some m) ∷ []),
  )
  everywhere-Step p _ (succeeds before after t e) = omega (
    arith,
    held_moved p before after (running t) idle e,
    count_finished-append p.finished ((t, none) ∷ []),
  )
  everywhere-Step p _ cancels = refl

  held_idle : (n : ℕ) → held (idle_workers n) ≡ 0
  held_idle zero = refl
  held_idle (suc n) = omega (arith, held_idle n)

  -- At every moment each task of the run is in the channel, with a worker, finished or dropped,
  -- and in one of these places only: whatever a test selects, the numbers add up.
  pub everywhere-Reachable :
      (n : ℕ) (tasks : List TableTask) (p : Pool)
      → Reachable n tasks p
      → everywhere p ≡ count_if test tasks
  everywhere-Reachable n tasks _ started = omega (arith, held_idle (pool_size n))
  everywhere-Reachable n tasks q (next {p} r step) =
      everywhere-Step p q step ∙ everywhere-Reachable n tasks p r
