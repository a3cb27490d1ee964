-- ===== src/WorkerPool/Progress.antt =====
-- The length of a run of the pool of internal/migration/worker.go.
use existora2pg.Plan.{TableTask}
use existora2pg.Prelude.{
  ℕ, ◌+◌, ◌*◌, ◌<◌, ◌≡◌, ◌⊎◌, inl, inr, refl, ◌∙◌, sym, true, List, [], ◌∷◌, ◌++◌, length, arith,
  append_assoc, Bool-cases,
}
use existora2pg.WorkerPool.{
  Worker, Pool, Step, idle, holding, ready, running, gone, takes, ends, passes, stops, breaks,
  begins, fails, aborts, succeeds, cancels,
}
use existora2pg.WorkerPool.Drains.{all_gone}

-- The steps that a worker has before it at most, its next task apart.
abbrev weight : Worker → ℕ
weight idle = 1
weight (holding t) = 5
weight (ready t) = 4
weight (running t) = 3
weight gone = 0

abbrev weights : List Worker → ℕ
weights [] = 0
weights (w ∷ ws) = weight w + weights ws

abbrev pub steps_left : Pool → ℕ
steps_left p = 5 * length p.queue + weights p.workers

weights-append : (xs ys : List Worker) → weights (xs ++ ys) ≡ weights xs + weights ys
weights-append [] ys = omega arith
weights-append (x ∷ xs) ys = omega (arith, weights-append xs ys)

weights_moved :
    (p : Pool) (before after : List Worker) (v w : Worker)
    → p.workers ≡ before ++ v ∷ after
    → weights (before ++ w ∷ after) + weight v ≡ weights p.workers + weight w
weights_moved p before after v w e =
    rw e (omega (arith, weights-append before (v ∷ after), weights-append before (w ∷ after)))

-- Each step brings the end nearer, but for the cancellation, which changes nothing else: so there
-- is no infinite run.
pub steps_left-Step :
    (p q : Pool) → Step p q → (steps_left q < steps_left p) ⊎ (q ≡ record p { cancelled = true })
steps_left-Step p _ (takes before after t rest e f) =
    inl (rw f (omega (arith, weights_moved p before after idle (holding t) e)))
steps_left-Step p _ (ends before after e f) =
    inl (omega (arith, weights_moved p before after idle gone e))
steps_left-Step p _ (passes before after t e f) =
    inl (omega (arith, weights_moved p before after (holding t) (ready t) e))
steps_left-Step p _ (stops before after t e f) =
    inl (omega (arith, weights_moved p before after (holding t) gone e))
steps_left-Step p _ (breaks before after t e f g) =
    inl (omega (arith, weights_moved p before after (ready t) gone e))
steps_left-Step p _ (begins before after t e) =
    inl (omega (arith, weights_moved p before after (ready t) (running t) e))
steps_left-Step p _ (fails before after t m e f) =
    inl (omega (arith, weights_moved p before after (running t) idle e))
steps_left-Step p _ (aborts before after t m e f) =
    inl (omega (arith, weights_moved p before after (running t) gone e))
steps_left-Step p _ (succeeds before after t e) =
    inl (omega (arith, weights_moved p before after (running t) idle e))
steps_left-Step p _ cancels = inr refl

queue-cases :
    (queue : List TableTask)
    → (queue ≡ []) ⊎ ((t : TableTask) × (rest : List TableTask) × (queue ≡ t ∷ rest))
queue-cases [] = inl refl
queue-cases (t ∷ rest) = inr (t, rest, refl)

worker_steps :
    (p : Pool) (before after : List Worker) (w : Worker)
    → p.workers ≡ before ++ w ∷ after
    → (w ≡ gone) ⊎ ((q : Pool) × Step p q)
worker_steps p before after gone e = inl refl
worker_steps p before after idle e = elim (queue-cases p.queue) [
  | inl f ↦ inr (_, ends before after e f)
  | inr (t, rest, f) ↦ inr (_, takes before after t rest e f)
]
worker_steps p before after (holding t) e = elim (Bool-cases p.cancelled) [
  | inl c ↦ inr (_, stops before after t e c)
  | inr c ↦ inr (_, passes before after t e c)
]
worker_steps p before after (ready t) e = inr (_, begins before after t e)
worker_steps p before after (running t) e = inr (_, succeeds before after t e)

steps_from :
    (p : Pool) (before ws : List Worker)
    → p.workers ≡ before ++ ws
    → (all_gone ws ≡ true) ⊎ ((q : Pool) × Step p q)
steps_from p before [] e = inl refl
steps_from p before (w ∷ ws) e = elim (worker_steps p before ws w e) [
  | inr step ↦ inr step
  | inl there ↦
      rw there (steps_from p (before ++ w ∷ []) ws (e ∙ sym (append_assoc before (w ∷ []) ws)))
]

-- The pool does not get stuck: all workers have returned, or one can take a step, where the
-- function of a task that runs may return.
pub Step-or_gone : (p : Pool) → (all_gone p.workers ≡ true) ⊎ ((q : Pool) × Step p q)
Step-or_gone p = steps_from p [] p.workers refl
