-- ===== src/WorkerPool/Drains.antt =====
-- The end of a run of the pool of internal/migration/worker.go.
use existora2pg.Plan.{TableTask}
use existora2pg.Prelude.{
  is_nil, ◌&&◌, ℕ, zero, suc, ◌≡◌, refl, sym, ap, ◌∙◌, Bool, true, false, Text, List, [], ◌∷◌, ◌++◌,
  Option, none, some, count_if, arith, any, ◌||◌,
}
use existora2pg.WorkerPool.{
  Worker, Pool, Step, Reachable, idle, holding, ready, running, gone, idle_workers, pool_size,
  keep_first, takes, ends, passes, stops, breaks, begins, fails, aborts, succeeds, cancels, started,
  next,
}
use existora2pg.WorkerPool.Accounts.{everywhere-Reachable, count_finished, held}

-- The first error among the outcomes, in the order in which the calls ended.
abbrev pub first_error : List (TableTask × Option Text) → Option Text
first_error [] = none
first_error ((t, none) ∷ rest) = first_error rest
first_error ((t, some e) ∷ rest) = some e

abbrev is_gone : Worker → Bool
is_gone gone = true
is_gone _ = false

abbrev pub all_gone : List Worker → Bool
all_gone [] = true
all_gone (w ∷ ws) = is_gone w && all_gone ws

-- While the context is not cancelled.
record IsKept (p : Pool) : Type 0 where
  undropped : p.dropped ≡ []
  drained : any is_gone p.workers ≡ true → p.queue ≡ []
  recorded : p.first_err ≡ first_error p.finished

abbrev Kept : Pool → Type 0
Kept p = p.cancelled ≡ false → IsKept p

any_gone-append : (xs ys : List Worker) → any is_gone (xs ++ ys) ≡ any is_gone xs || any is_gone ys
any_gone-append [] ys = refl
any_gone-append (x ∷ xs) ys = ground (arith, any_gone-append xs ys)

-- A worker that moves to a place other than its return leaves no new one gone.
any_gone-moved :
    (p : Pool) (before after : List Worker) (v w : Worker)
    → p.workers ≡ before ++ v ∷ after
    → is_gone w ≡ false
    → any is_gone (before ++ w ∷ after) ≡ true
    → any is_gone p.workers ≡ true
any_gone-moved p before after v w e h k =
    rw e (ground (arith, any_gone-append before (v ∷ after), any_gone-append before (w ∷ after)))

first_error-snoc_some :
    (t : TableTask) (e : Text) (xs : List (TableTask × Option Text))
    → first_error (xs ++ (t, some e) ∷ []) ≡ keep_first (first_error xs) e
first_error-snoc_some t e [] = refl
first_error-snoc_some t e ((u, none) ∷ xs) = first_error-snoc_some t e xs
first_error-snoc_some t e ((u, some f) ∷ xs) = refl

first_error-snoc_none :
    (t : TableTask) (xs : List (TableTask × Option Text))
    → first_error (xs ++ (t, none) ∷ []) ≡ first_error xs
first_error-snoc_none t [] = refl
first_error-snoc_none t ((u, none) ∷ xs) = first_error-snoc_none t xs
first_error-snoc_none t ((u, some f) ∷ xs) = refl

Kept-Step : (p q : Pool) → Step p q → Kept p → Kept q
Kept-Step p _ (takes before after t rest e f) k c =
    let old = k c in
    record {
      undropped = old.undropped;
      drained = λ g.
          absurd (cc (f, old.drained (any_gone-moved p before after idle (holding t) e refl g)));
      recorded = old.recorded;
    }
Kept-Step p _ (ends before after e f) k c =
    let old = k c in record { undropped = old.undropped; drained = λ g. f; recorded = old.recorded }
Kept-Step p _ (passes before after t e f) k c =
    let old = k c in
    record {
      undropped = old.undropped;
      drained = λ g. old.drained (any_gone-moved p before after (holding t) (ready t) e refl g);
      recorded = old.recorded;
    }
Kept-Step p _ (stops before after t e f) k c = absurd (cc (c, f))
Kept-Step p _ (breaks before after t e f g) k c = absurd (cc (c, g))
Kept-Step p _ (begins before after t e) k c =
    let old = k c in
    record {
      undropped = old.undropped;
      drained = λ g. old.drained (any_gone-moved p before after (ready t) (running t) e refl g);
      recorded = old.recorded;
    }
Kept-Step p _ (fails before after t m e f) k c =
    let old = k c in
    record {
      undropped = old.undropped;
      drained = λ g. old.drained (any_gone-moved p before after (running t) idle e refl g);
      recorded = ap (λ o. keep_first o m) old.recorded ∙ sym (first_error-snoc_some t m p.finished);
    }
Kept-Step p _ (aborts before after t m e f) k c = absurd (cc (c, f))
Kept-Step p _ (succeeds before after t e) k c =
    let old = k c in
    record {
      undropped = old.undropped;
      drained = λ g. old.drained (any_gone-moved p before after (running t) idle e refl g);
      recorded = old.recorded ∙ sym (first_error-snoc_none t p.finished);
    }
Kept-Step p _ cancels k c = absurd (cc c)

any_gone-idle : (n : ℕ) → any is_gone (idle_workers n) ≡ false
any_gone-idle zero = refl
any_gone-idle (suc n) = any_gone-idle n

Kept-Reachable : (n : ℕ) (tasks : List TableTask) (p : Pool) → Reachable n tasks p → Kept p
Kept-Reachable n tasks _ started = λ c. record {
  undropped = refl;
  drained = λ g. absurd (cc (g, any_gone-idle (pool_size n)));
  recorded = refl;
}
Kept-Reachable n tasks q (next {p} r step) = Kept-Step p q step (Kept-Reachable n tasks p r)

held-all_gone : (test : TableTask → Bool) (ws : List Worker) → all_gone ws ≡ true → held test ws ≡ 0
held-all_gone test [] h = refl
held-all_gone test (gone ∷ ws) h = omega (arith, held-all_gone test ws h)
held-all_gone test (idle ∷ ws) h = absurd (cc h)
held-all_gone test (holding t ∷ ws) h = absurd (cc h)
held-all_gone test (ready t ∷ ws) h = absurd (cc h)
held-all_gone test (running t ∷ ws) h = absurd (cc h)

not_nil-append : (before after : List Worker) (w : Worker) → is_nil (before ++ w ∷ after) ≡ false
not_nil-append [] after w = refl
not_nil-append (x ∷ before) after w = refl

not_nil-Step : (p q : Pool) → Step p q → is_nil p.workers ≡ false → is_nil q.workers ≡ false
not_nil-Step p _ (takes before after t rest e f) h = not_nil-append before after (holding t)
not_nil-Step p _ (ends before after e f) h = not_nil-append before after gone
not_nil-Step p _ (passes before after t e f) h = not_nil-append before after (ready t)
not_nil-Step p _ (stops before after t e f) h = not_nil-append before after gone
not_nil-Step p _ (breaks before after t e f g) h = not_nil-append before after gone
not_nil-Step p _ (begins before after t e) h = not_nil-append before after (running t)
not_nil-Step p _ (fails before after t m e f) h = not_nil-append before after idle
not_nil-Step p _ (aborts before after t m e f) h = not_nil-append before after gone
not_nil-Step p _ (succeeds before after t e) h = not_nil-append before after idle
not_nil-Step p _ cancels h = h

not_nil-idle : (n : ℕ) → is_nil (idle_workers (pool_size n)) ≡ false
not_nil-idle zero = refl
not_nil-idle (suc n) = refl

not_nil-Reachable :
    (n : ℕ) (tasks : List TableTask) (p : Pool) → Reachable n tasks p → is_nil p.workers ≡ false
not_nil-Reachable n tasks _ started = not_nil-idle n
not_nil-Reachable n tasks q (next {p} r step) =
    not_nil-Step p q step (not_nil-Reachable n tasks p r)

any-all_gone : (ws : List Worker) → is_nil ws ≡ false → all_gone ws ≡ true → any is_gone ws ≡ true
any-all_gone [] h k = absurd (cc h)
any-all_gone (w ∷ ws) h k = ground arith

-- When all workers have returned and the context was not cancelled, each task has been run exactly
-- once, also where others failed, and the error of the run is the first one among the outcomes.
pub Reachable-drained :
    (n : ℕ) (tasks : List TableTask) (p : Pool) (test : TableTask → Bool)
    → Reachable n tasks p
    → all_gone p.workers ≡ true
    → p.cancelled ≡ false
    → (count_finished test p.finished ≡ count_if test tasks)
      × (p.first_err ≡ first_error p.finished)
Reachable-drained n tasks p test r over c =
    let kept = Kept-Reachable n tasks p r c in
    let empty = kept.drained (any-all_gone p.workers (not_nil-Reachable n tasks p r) over) in
    (
      (let total =
            rw (kept.undropped, empty, held-all_gone test p.workers over) at
              (everywhere-Reachable test n tasks p r) in
          omega arith),
      kept.recorded,
    )
