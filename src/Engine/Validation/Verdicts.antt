-- ===== src/Engine/Validation/Verdicts.antt =====
-- How the jobs of executeValidation of internal/migration/engine.go end.
use existora2pg.Config.{MigrationConfig}
use existora2pg.Engine.Constraints.Ended.{Passes}
use existora2pg.Engine.Data.Runs.{Passes-other, Passes_own}
use existora2pg.Engine.Validation.{Counts, Outcome, passes, skips, count_fails, mismatches}
use existora2pg.Engine.Validation.Phase.{
  end_job, outcome_of, validate_jobs, analyze, execute_validation,
}
use existora2pg.JobStore.{
  is_waiting, in_phase, Store, Job, JobRow, get_pending_jobs, get_jobs_by_phase, query, scan_job,
  set_running, set_completed, set_failed, start_row, complete_row, fail_row, is_completed,
  is_failed, update_where,
}
use existora2pg.JobStore.Valid.{IsValid, IsBefore}
use existora2pg.Plan.{MigrationPlan, TableTask}
use existora2pg.Writer.{PgPool, Writer}
use existora2pg.Prelude.{
  ◌&&◌, select, ℕ, zero, suc, ◌≡◌, refl, subst, Bool, true, false, ◌==◌, Text, codes, List, [], ◌∷◌,
  some, map, get_elem?, All, Pairwise, Pairwise-select, arith,
}

-- Whether an outcome accepts the table, and the state in which the job is then.
abbrev pub accepts : Outcome → Bool
accepts (passes n) = true
accepts skips = true
accepts count_fails = false
accepts (mismatches o p) = false

abbrev pub judged : Bool → JobRow → Bool
judged true j = is_completed j.state
judged false j = is_failed j.state

abbrev AreOther : Job → Job → Type 0
AreOther j k = (j.id == k.id) ≡ false

apart-scan_job :
    (j : JobRow) (js : List JobRow)
    → All (IsBefore j) js
    → All (λ k. (j.id == k.id) ≡ false) (map scan_job js)
apart-scan_job j [] h = tt
apart-scan_job j (k ∷ js) h = (ground (arith, h.0.0), apart-scan_job j js h.1)

others-scan_job : (js : List JobRow) → Pairwise IsBefore js → Pairwise AreOther (map scan_job js)
others-scan_job [] h = tt
others-scan_job (j ∷ js) h = (apart-scan_job j js h.0, others-scan_job js h.1)

module _ {Pg : Type 0} (pool : PgPool Pg) (w : Writer) (counts : Pg → Counts)
    (count_error : Text → Text) (cfg : MigrationConfig) (now : ℕ) where
  end_job_own :
      (j : Job) (estimated : Bool) (s : Store) (o : Outcome)
      → Passes (judged (accepts o)) j.id (end_job pool w counts count_error cfg now j estimated s o)
  unfolding end_job set_completed set_failed set_running update_where
  end_job_own j estimated s skips =
      Passes_own (judged true) (complete_row now 0 0) j.id _ (λ k. refl)
  end_job_own j estimated s (passes n) =
      Passes_own (judged true) (complete_row now n 0) j.id _ (λ k. refl)
  end_job_own j estimated s count_fails =
      Passes_own (judged false) (fail_row now _) j.id _ (λ k. refl)
  end_job_own j estimated s (mismatches o p) =
      Passes_own (judged false) (fail_row now _) j.id _ (λ k. refl)

  end_job-other :
      (q : JobRow → Bool) (n : ℕ) (j : Job) (estimated : Bool) (s : Store) (o : Outcome)
      → (j.id == n) ≡ false
      → Passes q n s
      → Passes q n (end_job pool w counts count_error cfg now j estimated s o)
  unfolding end_job set_completed set_failed set_running
  end_job-other q n j estimated s skips apart h =
      Passes-other q (complete_row now 0 0) j.id n s (λ k. refl) apart h
  end_job-other q n j estimated s (passes m) apart h =
      Passes-other q (complete_row now m 0) j.id n (set_running now j.id s) (λ k. refl) apart
        (Passes-other q (start_row now) j.id n s (λ k. refl) apart h)
  end_job-other q n j estimated s count_fails apart h =
      Passes-other q (fail_row now _) j.id n (set_running now j.id s) (λ k. refl) apart
        (Passes-other q (start_row now) j.id n s (λ k. refl) apart h)
  end_job-other q n j estimated s (mismatches o p) apart h =
      Passes-other q (fail_row now _) j.id n (set_running now j.id s) (λ k. refl) apart
        (Passes-other q (start_row now) j.id n s (λ k. refl) apart h)

  module _ (tasks : List TableTask) (data_jobs : List Job) (pg : Pg) where
    abbrev loop : List Job → Store → Store
    loop = validate_jobs pool w counts count_error cfg now tasks data_jobs pg

    abbrev found : Job → Outcome
    found = outcome_of pool w counts count_error cfg now tasks data_jobs pg

    loop_later :
        (q : JobRow → Bool) (n : ℕ) (js : List Job) (s : Store)
        → All (λ k. (n == k.id) ≡ false) js
        → Passes q n s
        → Passes q n (loop js s)
    unfolding validate_jobs
    loop_later q n [] s apart h = h
    loop_later q n (k ∷ js) s apart h =
        loop_later q n js _ apart.1 (end_job-other q n k _ s (found k) (ground (arith, apart.0)) h)

    loop_verdict :
        (js : List Job) (s : Store) (i : ℕ) (j : Job)
        → Pairwise AreOther js
        → get_elem? js i ≡ some j
        → Passes (judged (accepts (found j))) j.id (loop js s)
    unfolding validate_jobs
    loop_verdict [] s i j apart e = absurd (cc e)
    loop_verdict (k ∷ js) s zero j apart e =
        let same : k ≡ j = cc e in
        subst (λ x. Passes (judged (accepts (found x))) x.id (loop (k ∷ js) s)) same
          (loop_later (judged (accepts (found k))) k.id js _ apart.0 (end_job_own k _ s (found k)))
    loop_verdict (k ∷ js) s (suc i) j apart e = loop_verdict js _ i j apart.1 e

  -- After the validation phase each job that waited is COMPLETED if the comparison of its table's row
  -- counts accepts the table or is not wanted, and FAILED if it does not or a count failed; the
  -- counts are those after ANALYZE.
  pub execute_validation_verdict :
      (run : Text) (plan : MigrationPlan) (s : Store) (pg : Pg) (i : ℕ) (j : Job)
      → IsValid s
      → get_elem? (get_pending_jobs run (codes "validate") s) i ≡ some j
      → Passes
          (judged (
            accepts (
              outcome_of pool w counts count_error cfg now plan.data_tasks
                (get_jobs_by_phase run (codes "data") s)
                (analyze pool w counts count_error cfg now
                  (get_pending_jobs run (codes "validate") s)
                  pg)
                j)))
          j.id
          (execute_validation pool w counts count_error cfg now run plan s pg).0
  unfolding execute_validation get_pending_jobs query
  execute_validation_verdict run plan s pg i j valid e =
      let rows = select (λ k. in_phase run (codes "validate") k && is_waiting k.state) s.jobs in
      loop_verdict plan.data_tasks (get_jobs_by_phase run (codes "data") s) _ (map scan_job rows) s
        i j (others-scan_job rows (Pairwise-select IsBefore _ s.jobs valid.ordered)) e
