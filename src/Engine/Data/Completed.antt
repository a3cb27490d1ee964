-- ===== src/Engine/Data/Completed.antt =====
-- The end of executeDataMigration of internal/migration/engine.go.
use existora2pg.Engine.Data.Ids.{
  All-scan_job, any_self, any-ids, count_ids, count_if-ids, ids-scan_job, ids,
}
use existora2pg.Engine.Constraints.Ended.{Passes}
use existora2pg.Engine.Data.{task_map, tasks_of, job_lookup, job_id, Run, DataRun}
use existora2pg.Engine.Data.Found.{AreOther, IsFound, job_id-job_lookup, task_map-IsKeyed}
use existora2pg.Engine.Data.Runs.{named, Fates, Fates-Run, Run-Reachable, AreSame, AreSame-Run}
use existora2pg.JobStore.{
  JobState, JobRow, Store, has_id, is_completed, is_waiting, in_phase, get_pending_jobs, query,
  scan_job,
}
use existora2pg.JobStore.Valid.{IsBefore, IsValid}
use existora2pg.Plan.{TableTask, MigrationPlan}
use existora2pg.WorkerPool.{Pool}
use existora2pg.WorkerPool.Accounts.{count_finished}
use existora2pg.WorkerPool.Drains.{Reachable-drained, first_error, all_gone}
use existora2pg.Prelude.{
  ℕ, ◌≤◌, ◌≡◌, refl, sym, ap, ◌∙◌, subst, Bool, true, false, not, ◌&&◌, ◌||◌, ◌==◌, Text, codes,
  List, [], ◌∷◌, Option, none, some, map, any, count_if, select, All, All-mono, Pairwise,
  Pairwise-select, arith, Bool-cases, inl, inr,
}

not_waiting : (st : JobState) → is_completed st ≡ true → is_waiting st ≡ false
not_waiting JobState.pending h = absurd (cc h)
not_waiting JobState.running h = refl
not_waiting JobState.failed h = refl
not_waiting JobState.completed h = refl
not_waiting JobState.retrying h = absurd (cc h)
not_waiting JobState.skipped h = refl

All-select_cons {ℓ κ} :
    {A : Type ℓ} (P : A → Type κ) (p : A → Bool) (x : A) (xs : List A)
    → All P (select p (x ∷ xs))
    → (p x ≡ true → P x) × All P (select p xs)
All-select_cons P p x xs h = elim (Bool-cases (p x)) [
  | inl e ↦ let k = rw e at h in (λ _. k.0, k.1)
  | inr e ↦ (λ t. absurd (cc (e, t)), rw e at h)
]

module _ (id_of : TableTask → ℕ) (n : ℕ) (tasks : List TableTask) (s : Store) where
  -- No call failed, so the jobs of the calls are COMPLETED.
  completed_of_Fates :
      (i : ℕ) (fs : List (TableTask × Option Text)) (t : Store)
      → Fates id_of n tasks s fs t
      → first_error fs ≡ none
      → 1 ≤ count_finished (named id_of n tasks s i) fs
      → Passes (λ j. is_completed j.state) i t
  completed_of_Fates i [] t h e k = absurd (omega arith)
  completed_of_Fates i ((u, some m) ∷ fs) t h e k = absurd (cc e)
  completed_of_Fates i ((u, none) ∷ fs) t h e k = elim (Bool-cases (id_of u == i)) [
    | inl own ↦
        let at : id_of u ≡ i = ground arith in
        subst (λ x. Passes (λ j. is_completed j.state) x t) at h.0
    | inr other ↦ completed_of_Fates i fs t h.1 e (ground arith)
  ]

  any→count_if :
      (test : TableTask → Bool) (ts : List TableTask) → any test ts ≡ true → 1 ≤ count_if test ts
  any→count_if test [] h = absurd (cc h)
  any→count_if test (t ∷ ts) h = ground (arith, any→count_if test ts)

  module _ (distinct : (i : ℕ) → count_if (named id_of n tasks s i) tasks ≤ 1) where
    Run-completed :
        (p : Pool) (t : Store) (i : ℕ)
        → Run id_of n tasks s p t
        → all_gone p.workers ≡ true
        → p.cancelled ≡ false
        → p.first_err ≡ none
        → any (named id_of n tasks s i) tasks ≡ true
        → Passes (λ j. is_completed j.state) i t
    Run-completed p t i r over c clean a =
        let test = named id_of n tasks s i in
        let (counts, error) =
          Reachable-drained n tasks p test (Run-Reachable id_of n tasks s p t r) over c in
        completed_of_Fates i p.finished t (Fates-Run id_of n tasks s distinct p t r c)
          (sym error ∙ clean) (omega (arith, counts, any→count_if test tasks a))

  -- What all jobs of tasks pass, each row of such a job passes.
  by_row :
      (p : JobRow → Bool) (js : List JobRow)
      → ((i : ℕ)
          → any (named id_of n tasks s i) tasks ≡ true
          → All (λ j. not (has_id i j) || p j ≡ true) js)
      → All (λ j. any (named id_of n tasks s j.id) tasks ≡ true → p j ≡ true) js
  by_row p [] h = tt
  by_row p (j ∷ js) h = ((λ a. ground (arith, (h j.id a).0)), by_row p js (λ i a. (h i a).1))

  abbrev waits : Text → Text → JobRow → Bool
  waits run phase j = in_phase run phase j && is_waiting j.state

  abbrev HasTask : JobRow → Type 0
  HasTask j = any (named id_of n tasks s j.id) tasks ≡ true

  waits-completed :
      (run phase : Text) (k : JobRow) → is_completed k.state ≡ true → waits run phase k ≡ false
  waits-completed run phase k h = rw (not_waiting k.state h) (ground arith)

  -- The job has a task that completed it, or none, and then did not wait at the start.
  waits-same :
      (run phase : Text) (j k : JobRow)
      → k.id ≡ j.id
      → (any (named id_of n tasks s j.id) tasks ≡ false → k ≡ j)
      → (HasTask k → is_completed k.state ≡ true)
      → (waits run phase j ≡ true → HasTask j)
      → waits run phase k ≡ false
  waits-same run phase j k id kept done found =
      elim (Bool-cases (any (named id_of n tasks s j.id) tasks)) [
        | inl a ↦ waits-completed run phase k (done (rw id a))
        | inr a ↦ elim (Bool-cases (waits run phase j)) [
          | inl w ↦ absurd (cc (a, found w))
          | inr w ↦ ap (waits run phase) (kept a) ∙ w
        ]
      ]

  none_waiting :
      (run phase : Text) (js ks : List JobRow)
      → AreSame id_of n tasks s js ks
      → All (λ k. HasTask k → is_completed k.state ≡ true) ks
      → All HasTask (select (waits run phase) js)
      → select (waits run phase) ks ≡ []
  none_waiting run phase [] [] same done found = refl
  none_waiting run phase [] (k ∷ ks) same done found = absurd same
  none_waiting run phase (j ∷ js) [] same done found = absurd same
  none_waiting run phase (j ∷ js) (k ∷ ks) ((id, at_run, at_phase, kept), same) done found =
      let (here, later) = All-select_cons HasTask (waits run phase) j js found in
      rw (waits-same run phase j k id kept done.0 here)
        (none_waiting run phase js ks same done.1 later)

-- Where all calls of executeDataMigration have ended, none of them with an error, and the context
-- was not cancelled, no data job of the run waits, and each job that waited at the start is
-- COMPLETED; at the start each of them had a task, and no two the same key.
pub DataRun-completed :
    (workers : ℕ) (run : Text) (plan : MigrationPlan) (s : Store) (p : Pool) (t : Store)
    → IsValid s
    → All (IsFound (task_map [] plan.data_tasks)) (get_pending_jobs run (codes "data") s)
    → Pairwise AreOther (get_pending_jobs run (codes "data") s)
    → DataRun workers run plan s p t
    → all_gone p.workers ≡ true
    → p.cancelled ≡ false
    → p.first_err ≡ none
    → (get_pending_jobs run (codes "data") t ≡ [])
      × All (λ j. Passes (λ k. is_completed k.state) j.id t) (get_pending_jobs run (codes "data") s)
unfolding get_pending_jobs query
DataRun-completed workers run plan s p t valid found apart r over c clean =
    let table = task_map [] plan.data_tasks in
    let jobs = get_pending_jobs run (codes "data") s in
    let tasks = tasks_of table jobs in
    let id_of = job_id (job_lookup table [] jobs) in
    let rows = select (λ j. in_phase run (codes "data") j && is_waiting j.state) s.jobs in
    let same : map id_of tasks ≡ ids rows =
      job_id-job_lookup table jobs (task_map-IsKeyed [] plan.data_tasks tt) apart found
      ∙ ids-scan_job rows in
    let distinct : (i : ℕ) → count_if (λ u. id_of u == i) tasks ≤ 1 = λ i.
      rw (count_if-ids id_of i tasks, same)
        (count_ids i rows (Pairwise-select IsBefore _ s.jobs valid.ordered)) in
    let have : All (λ j. any (λ u. id_of u == j.id) tasks ≡ true) rows =
      All-mono (λ j. any (λ m. m == j.id) (ids rows) ≡ true) _
        (λ j a. rw (any-ids id_of j.id tasks, same) a) rows (any_self rows) in
    let done : (i : ℕ)
        → any (λ u. id_of u == i) tasks ≡ true
        → Passes (λ k. is_completed k.state) i t =
      λ i. Run-completed id_of workers tasks s distinct p t i r over c clean in
    (
      ap (map scan_job) (
          none_waiting id_of workers tasks s run (codes "data") s.jobs t.jobs
            (AreSame-Run id_of workers tasks s distinct p t r)
            (by_row id_of workers tasks s (λ k. is_completed k.state) t.jobs done) have),
      All-scan_job (λ i. Passes (λ k. is_completed k.state) i t) rows
          (All-mono _ _ (λ j a. done j.id a) rows have),
    )
