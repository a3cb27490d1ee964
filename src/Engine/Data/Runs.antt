-- ===== src/Engine/Data/Runs.antt =====
-- The job store beside the worker pool, as executeDataMigration of internal/migration/engine.go runs
-- it.
use existora2pg.Engine.Constraints.Ended.{Passes}
use existora2pg.Engine.Data.{writes, Run, begun, written, unwritten}
use existora2pg.JobStore.{
  JobRow, Store, update_where, has_id, set_running, set_completed, set_failed, start_row,
  complete_row, fail_row, is_completed, is_failed,
}
use existora2pg.Plan.{TableTask}
use existora2pg.WorkerPool.{
  Pool, Step, Worker, Reachable, started, next, takes, ends, passes, stops, breaks, begins, fails,
  aborts, succeeds, cancels,
}
use existora2pg.WorkerPool.Accounts.{has, held, held-append, count_finished, everywhere-Reachable}
use existora2pg.Prelude.{
  inr, ◌∙◌, inl, Bool-cases, ℕ, ◌≤◌, ◌≡◌, refl, Bool, true, false, not, ◌||◌, ◌==◌, Text, List, [],
  ◌∷◌, ◌++◌, Option, none, some, map, any, count_if, All, All-map, All-append, arith, if◌then◌else◌,
}

-- The state in which an outcome leaves the job.
abbrev pub ends_as : Option Text → JobRow → Bool
ends_as none j = is_completed j.state
ends_as (some e) j = is_failed j.state

-- A statement on the job of another id.
pub Passes-other :
    (p : JobRow → Bool) (f : JobRow → JobRow) (m n : ℕ) (s : Store)
    → ((j : JobRow) → (f j).id ≡ j.id)
    → (m == n) ≡ false
    → Passes p n s
    → Passes p n (update_where (has_id m) f s)
unfolding update_where
Passes-other p f m n s keeps apart h =
    All-map (λ j. not (has_id n j) || p j ≡ true) (λ j. not (has_id n j) || p j ≡ true) _
      (λ j e. ground (arith, keeps j)) s.jobs h

-- A statement on the job of this id.
pub Passes_own :
    (p : JobRow → Bool) (f : JobRow → JobRow) (n : ℕ) (js : List JobRow)
    → ((j : JobRow) → p (f j) ≡ true)
    → All (λ j. not (has_id n j) || p j ≡ true) (map (λ j. if has_id n j then f j else j) js)
Passes_own p f n [] h = tt
Passes_own p f n (j ∷ js) h = (ground (arith, h j), Passes_own p f n js h)

held_at :
    (test : TableTask → Bool) (p : Pool) (before after : List Worker) (w : Worker)
    → p.workers ≡ before ++ w ∷ after
    → has test w ≤ held test p.workers
held_at test p before after w e = rw e (omega (arith, held-append test before (w ∷ after)))

module _ (id_of : TableTask → ℕ) (n : ℕ) (tasks : List TableTask) (s : Store) where
  -- The task whose job has this id.
  abbrev pub named : ℕ → TableTask → Bool
  named i t = id_of t == i

  pub Run-Reachable : (p : Pool) (t : Store) → Run id_of n tasks s p t → Reachable n tasks p
  Run-Reachable p t begun = started
  Run-Reachable p t (written r step now rows bytes) = next (Run-Reachable _ _ r) step
  Run-Reachable p t (unwritten r step c) = next (Run-Reachable _ _ r) step

  -- A task with a worker is one of the run, and none like it has finished.
  abbrev IsOnly : Pool → TableTask → Type 0
  IsOnly p t =
      (any (named (id_of t)) tasks ≡ true) × (count_finished (named (id_of t)) p.finished ≡ 0)

  any-count_if :
      (test : TableTask → Bool) (ts : List TableTask) → 1 ≤ count_if test ts → any test ts ≡ true
  any-count_if test [] h = absurd (omega arith)
  any-count_if test (t ∷ ts) h = ground (arith, any-count_if test ts)

  module _ (distinct : (i : ℕ) → count_if (named i) tasks ≤ 1) where
    running-IsOnly :
        (p : Pool) (t : TableTask) (before after : List Worker) (w : Worker)
        → Reachable n tasks p
        → p.workers ≡ before ++ w ∷ after
        → has (named (id_of t)) w ≡ 1
        → IsOnly p t
    running-IsOnly p t before after w r e h =
        let test = named (id_of t) in
        let total = everywhere-Reachable test n tasks p r in
        let one = held_at test p before after w e in
        (
          any-count_if test tasks (omega (arith, distinct (id_of t))),
          omega (arith, distinct (id_of t)),
        )

  -- The job of each task that has finished is in the state of its outcome.
  abbrev pub Fates : List (TableTask × Option Text) → Store → Type 0
  Fates fs t = All (λ x. Passes (ends_as x.1) (id_of x.0) t) fs

  Fates-other :
      (f : JobRow → JobRow) (i : ℕ) (fs : List (TableTask × Option Text)) (t : Store)
      → ((j : JobRow) → (f j).id ≡ j.id)
      → count_finished (named i) fs ≡ 0
      → Fates fs t
      → Fates fs (update_where (has_id i) f t)
  Fates-other f i [] t keeps h k = tt
  Fates-other f i ((u, o) ∷ fs) t keeps h k = (
    Passes-other (ends_as o) f i (id_of u) t keeps (ground arith) k.0,
    Fates-other f i fs t keeps (ground arith) k.1,
  )

  module _ (distinct : (i : ℕ) → count_if (named i) tasks ≤ 1) where
    Fates-written :
        (p q : Pool) (t : Store) (step : Step p q) (now rows bytes : ℕ)
        → Reachable n tasks p
        → (p.cancelled ≡ false → Fates p.finished t)
        → q.cancelled ≡ false
        → Fates q.finished (writes id_of now rows bytes p q step t)
    unfolding writes set_running set_completed set_failed update_where
    Fates-written p _ t (takes before after u rest e f) now rows bytes r h c = h c
    Fates-written p _ t (ends before after e f) now rows bytes r h c = h c
    Fates-written p _ t (passes before after u e f) now rows bytes r h c = h c
    Fates-written p _ t (stops before after u e f) now rows bytes r h c = h c
    Fates-written p _ t (breaks before after u e f g) now rows bytes r h c = h c
    Fates-written p _ t (begins before after u e) now rows bytes r h c =
        let only = running-IsOnly distinct p u before after _ r e (ground arith) in
        Fates-other (start_row now) (id_of u) p.finished t (λ j. refl) only.1 (h c)
    Fates-written p _ t (fails before after u m e f) now rows bytes r h c =
        let only = running-IsOnly distinct p u before after _ r e (ground arith) in
        All-append _ p.finished ((u, some m) ∷ [])
          (Fates-other (fail_row now _) (id_of u) p.finished t (λ j. refl) only.1 (h c))
          (Passes_own (ends_as (some m)) (fail_row now _) (id_of u) t.jobs (λ j. refl), tt)
    Fates-written p _ t (aborts before after u m e f) now rows bytes r h c = absurd (cc (c, f))
    Fates-written p _ t (succeeds before after u e) now rows bytes r h c =
        let only = running-IsOnly distinct p u before after _ r e (ground arith) in
        All-append _ p.finished ((u, none) ∷ [])
          (Fates-other (complete_row now rows bytes) (id_of u) p.finished t (λ j. refl) only.1
            (h c))
          (Passes_own (ends_as none) (complete_row now rows bytes) (id_of u) t.jobs (λ j. refl), tt)
    Fates-written p _ t cancels now rows bytes r h c = absurd (cc c)

    Step-cancelled : (p q : Pool) → Step p q → p.cancelled ≡ true → q.cancelled ≡ true
    Step-cancelled p _ (takes before after u rest e f) c = c
    Step-cancelled p _ (ends before after e f) c = c
    Step-cancelled p _ (passes before after u e f) c = c
    Step-cancelled p _ (stops before after u e f) c = c
    Step-cancelled p _ (breaks before after u e f g) c = c
    Step-cancelled p _ (begins before after u e) c = c
    Step-cancelled p _ (fails before after u m e f) c = c
    Step-cancelled p _ (aborts before after u m e f) c = c
    Step-cancelled p _ (succeeds before after u e) c = c
    Step-cancelled p _ cancels c = refl

    -- While the context is not cancelled, the job of each task that has finished is COMPLETED or
    -- FAILED, by its outcome.
    pub Fates-Run :
        (p : Pool) (t : Store) → Run id_of n tasks s p t → p.cancelled ≡ false → Fates p.finished t
    Fates-Run p t begun c = tt
    Fates-Run _ _ (written {p} {q} {t} r step now rows bytes) c =
        Fates-written p q t step now rows bytes (Run-Reachable p t r) (Fates-Run p t r) c
    Fates-Run q t (unwritten {p} r step k) c = absurd (cc (c, Step-cancelled p q step k))

  -- A row that only a task of its id changes, and not its key.
  abbrev IsSame : JobRow → JobRow → Type 0
  IsSame j k =
      (k.id ≡ j.id)
      × (k.run_id ≡ j.run_id)
      × (k.phase ≡ j.phase)
      × (any (named j.id) tasks ≡ false → k ≡ j)

  abbrev pub AreSame : List JobRow → List JobRow → Type 0
  AreSame [] [] = Unit
  AreSame [] (k ∷ ks) = ⊥
  AreSame (j ∷ js) [] = ⊥
  AreSame (j ∷ js) (k ∷ ks) = IsSame j k × AreSame js ks

  AreSame-refl : (js : List JobRow) → AreSame js js
  AreSame-refl [] = tt
  AreSame-refl (j ∷ js) = ((refl, refl, refl, λ h. refl), AreSame-refl js)

  -- An update that leaves the columns of a key alone.
  abbrev Keeps : (JobRow → JobRow) → Type 0
  Keeps f = (j : JobRow) → ((f j).id ≡ j.id) × ((f j).run_id ≡ j.run_id) × ((f j).phase ≡ j.phase)

  AreSame-update :
      (f : JobRow → JobRow) (i : ℕ) (js ks : List JobRow)
      → Keeps f
      → any (named i) tasks ≡ true
      → AreSame js ks
      → AreSame js (map (λ k. if has_id i k then f k else k) ks)
  AreSame-update f i [] [] keeps a h = tt
  AreSame-update f i [] (k ∷ ks) keeps a h = absurd h
  AreSame-update f i (j ∷ js) [] keeps a h = absurd h
  AreSame-update f i (j ∷ js) (k ∷ ks) keeps a ((id, run, phase, same), rest) = (
    elim (Bool-cases (has_id i k)) [
      | inl own ↦
          let at : i ≡ j.id = ground (arith, own, id) in
          let (id', run', phase') = keeps k in
          rw own (id' ∙ id, run' ∙ run, phase' ∙ phase, λ no. absurd (cc (no, a, at)))
      | inr other ↦ rw other (id, run, phase, same)
    ],
    AreSame-update f i js ks keeps a rest,
  )

  module _ (distinct : (i : ℕ) → count_if (named i) tasks ≤ 1) where
    AreSame-written :
        (p q : Pool) (t : Store) (step : Step p q) (now rows bytes : ℕ)
        → Reachable n tasks p
        → AreSame s.jobs t.jobs
        → AreSame s.jobs (writes id_of now rows bytes p q step t).jobs
    unfolding writes set_running set_completed set_failed update_where
    AreSame-written p _ t (takes before after u rest e f) now rows bytes r h = h
    AreSame-written p _ t (ends before after e f) now rows bytes r h = h
    AreSame-written p _ t (passes before after u e f) now rows bytes r h = h
    AreSame-written p _ t (stops before after u e f) now rows bytes r h = h
    AreSame-written p _ t (breaks before after u e f g) now rows bytes r h = h
    AreSame-written p _ t (begins before after u e) now rows bytes r h =
        let only = running-IsOnly distinct p u before after _ r e (ground arith) in
        AreSame-update (start_row now) (id_of u) s.jobs t.jobs (λ j. (refl, refl, refl)) only.0 h
    AreSame-written p _ t (fails before after u m e f) now rows bytes r h =
        let only = running-IsOnly distinct p u before after _ r e (ground arith) in
        AreSame-update (fail_row now _) (id_of u) s.jobs t.jobs (λ j. (refl, refl, refl)) only.0 h
    AreSame-written p _ t (aborts before after u m e f) now rows bytes r h =
        let only = running-IsOnly distinct p u before after _ r e (ground arith) in
        AreSame-update (fail_row now _) (id_of u) s.jobs t.jobs (λ j. (refl, refl, refl)) only.0 h
    AreSame-written p _ t (succeeds before after u e) now rows bytes r h =
        let only = running-IsOnly distinct p u before after _ r e (ground arith) in
        AreSame-update (complete_row now rows bytes) (id_of u) s.jobs t.jobs
          (λ j. (refl, refl, refl)) only.0 h
    AreSame-written p _ t cancels now rows bytes r h = h

    -- The rows stay in their places, and those of other jobs stay as they are.
    pub AreSame-Run : (p : Pool) (t : Store) → Run id_of n tasks s p t → AreSame s.jobs t.jobs
    AreSame-Run p t begun = AreSame-refl s.jobs
    AreSame-Run _ _ (written {p} {q} {t} r step now rows bytes) =
        AreSame-written p q t step now rows bytes (Run-Reachable p t r) (AreSame-Run p t r)
    AreSame-Run q t (unwritten r step k) = AreSame-Run _ t r
