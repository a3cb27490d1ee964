-- ===== src/Engine/Run/Ok.antt =====
-- What a run of internal/migration/engine.go that ends without an error leaves in the job store.
use existora2pg.Config.{Config}
use existora2pg.Engine.Constraints.{execute_constraints}
use existora2pg.Engine.Run.{
  Outside, extracted, RunError, writer_of, run_plan, to_logged, create_sequences, summed_up,
  validated, after_data, after_ddl, after_init, after_extract, after_create, run_migration,
}
use existora2pg.Engine.Run.Waits.{
  NoneWaits-get_pending_jobs, NoneWaits-if, NoneWaits, NoneWaits-execute_constraints,
  NoneWaits-execute_validation,
}
use existora2pg.Engine.Wiring.{constraint_writer, ddl_writer}
use existora2pg.JobStore.{get_pending_jobs, query, scan_job, JobRow, Store, is_failed, create_run}
use existora2pg.JobStore.Summary.{get_run_summary, get_run_summary_counts}
use existora2pg.Plan.{MigrationPlan}
use existora2pg.Engine.Data.{DataRun}
use existora2pg.Engine.Data.Completed.{DataRun-completed}
use existora2pg.Engine.Data.Found.{AreApart, IsFound-AreOther}
use existora2pg.Engine.DdlPhase.{execute_ddl}
use existora2pg.Engine.DdlPhase.Stored.{execute_ddl-IsKept}
use existora2pg.Engine.Jobs.{init_jobs, prev_completed, start_run}
use existora2pg.Engine.Jobs.Start.{get_pending_jobs-start_run, described, described_task}
use existora2pg.Engine.Jobs.Valid.{create_all-IsValid}
use existora2pg.Engine.Keys.{IsNamed}
use existora2pg.JobStore.Runs.{IsPast}
use existora2pg.JobStore.Valid.{IsValid, Step-IsValid, creates_run}
use existora2pg.Schema.{Schema}
use existora2pg.WorkerPool.{Pool}
use existora2pg.WorkerPool.Drains.{all_gone}
use existora2pg.Prelude.{
  sym, true, any, map, Pairwise, Option-cases, ◌∙◌, subst, ℕ, ◌≡◌, refl, ap, Bool, false, ◌&&◌,
  Text, codes, text_eq, List, [], ◌∷◌, Option, none, some, count_if, ltb, arith, All, Bool-cases,
  inl, inr,
}

-- No job of the run is FAILED.
abbrev pub NoneFailed : Text → Store → Type 0
NoneFailed run s = All (λ j. text_eq j.run_id run && is_failed j.state ≡ false) s.jobs

count_zero : (p : JobRow → Bool) (js : List JobRow) → count_if p js ≡ 0 → All (λ j. p j ≡ false) js
count_zero p [] h = tt
count_zero p (j ∷ js) h = elim (Bool-cases (p j)) [
  | inl here ↦ absurd (cc (rw here at h))
  | inr other ↦ (other, count_zero p js (rw other at h))
]

module _ {Pg : Type 0} (out : Outside Pg) (cfg : Config) (now : ℕ) (run : Text) where
  -- An end of executeDataMigration without an error and without a cancellation.
  pub record IsEnded (plan : MigrationPlan) (s t : Store) : Type 0 where
    pub pool : Pool
    pub ran : DataRun cfg.migration.workers run plan s pool t
    pub over : all_gone pool.workers ≡ true
    pub lasting : pool.cancelled ≡ false
    pub clean : pool.first_err ≡ none

  -- The data phase is a run of the worker pool beside the store, and where it ends without an error
  -- it was not cancelled.
  pub record IsPool : Type 0 where
    pub ends :
        (plan : MigrationPlan) (s t : Store) (pg after : Pg)
        → out.data_phase run (writer_of out cfg now run) plan s pg ≡ (t, after, none)
        → IsEnded plan s t

  -- Partitions have names, and no two tasks have the same key.
  pub record IsPlain (plan : MigrationPlan) : Type 0 where
    pub named : All (λ task. IsNamed task.partition) plan.data_tasks
    pub apart : Pairwise AreApart plan.data_tasks

  -- A valid store in which the data jobs that wait are those of the tasks of the plan.
  record IsReady (plan : MigrationPlan) (s : Store) : Type 0 where
    valid : IsValid s
    waiting :
        map described (get_pending_jobs run (codes "data") s) ≡ map described_task plan.data_tasks

  IsEnded-NoneWaits :
      (plan : MigrationPlan) (s t : Store)
      → IsPlain plan
      → IsReady plan s
      → IsEnded plan s t
      → NoneWaits run (codes "data") t
  IsEnded-NoneWaits plan s t p h e =
      let (found, apart) =
        IsFound-AreOther (get_pending_jobs run (codes "data") s) plan.data_tasks h.waiting p.named
          p.apart in
      NoneWaits-get_pending_jobs run (codes "data") t
        (DataRun-completed cfg.migration.workers run plan s e.pool t h.valid found apart e.ran
          e.over e.lasting e.clean).0

  -- What the end of a run without an error tells.
  abbrev pub IsOk : Store × Pg × Option RunError → Type 0
  IsOk r = r.2 ≡ none → NoneFailed run r.0 × NoneWaits run (codes "data") r.0

  summed_up-IsOk :
      (s : Store) (pg : Pg)
      → NoneWaits run (codes "data") s
      → IsOk (summed_up out cfg now run (s, pg))
  unfolding summed_up
  summed_up-IsOk s pg h = elim (Bool-cases (ltb 0 (get_run_summary out.parse run s).failed)) [
    | inl some_failed ↦ rw some_failed (λ e. absurd (cc e))
    | inr ok ↦
        let zero_failed : (get_run_summary out.parse run s).failed ≡ 0 = ground arith in
        let counts = get_run_summary_counts out.parse run s in
        λ e. (count_zero _ s.jobs (omega (arith, counts.4, zero_failed)), h)
  ]

  validated-NoneWaits :
      (plan : MigrationPlan) (s : Store) (pg : Pg)
      → NoneWaits run (codes "data") s
      → NoneWaits run (codes "data") (validated out cfg now run plan (s, pg)).0
  unfolding validated
  validated-NoneWaits plan s pg h =
      NoneWaits-if run (codes "data") cfg.migration.validate_after _ _
        (NoneWaits-execute_validation run (codes "data") out.pool (writer_of out cfg now run)
          (out.counts (writer_of out cfg now run)) out.count_error cfg.migration now plan s pg h)
        h

  after_data-IsOk :
      (plan : MigrationPlan) (r : Store × Pg × Option Text)
      → (r.2 ≡ none → NoneWaits run (codes "data") r.0)
      → IsOk (after_data out cfg now run plan r)
  unfolding after_data
  after_data-IsOk plan (s, pg, some e) h = λ k. absurd (cc k)
  after_data-IsOk plan (s, pg, none) h =
      let w = constraint_writer out.pool (writer_of out cfg now run) in
      let start = to_logged out cfg now run plan pg in
      let c = execute_constraints w cfg.migration now run plan s start in
      let target = create_sequences out cfg now run plan.sequences c.1 in
      let v = validated out cfg now run plan (c.0, target) in
      summed_up-IsOk v.0 v.1 (
        validated-NoneWaits plan c.0 target (
          NoneWaits-execute_constraints run (codes "data") w cfg.migration now plan s start
            (h refl)))

  after_ddl-IsOk :
      (plan : MigrationPlan) (r : Store × Pg × Option Text)
      → IsPool
      → IsPlain plan
      → IsReady plan r.0
      → IsOk (after_ddl out cfg now run plan r)
  unfolding after_ddl
  after_ddl-IsOk plan (s, pg, some e) law p h = λ k. absurd (cc k)
  after_ddl-IsOk plan (s, pg, none) law p h =
      let r = out.data_phase run (writer_of out cfg now run) plan s pg in
      after_data-IsOk plan r (λ e.
        IsEnded-NoneWaits plan s r.0 p h (law.ends plan s r.0 pg r.1 (ap (λ o. (r.0, r.1, o)) e)))

  execute_ddl-IsReady :
      (plan : MigrationPlan) (s : Store) (pg : Pg)
      → IsReady plan s
      → IsReady plan
          (execute_ddl
            (ddl_writer out.pool (writer_of out cfg now run))
            out.ddl_calls
            cfg.migration
            cfg.postgres.drop_target
            now
            run
            plan
            s
            pg).0
  unfolding get_pending_jobs query
  execute_ddl-IsReady plan s pg h =
      let k =
        execute_ddl-IsKept run (ddl_writer out.pool (writer_of out cfg now run)) out.ddl_calls
          cfg.migration cfg.postgres.drop_target now plan s pg h.valid in
      record {
        valid = k.valid;
        waiting = ap (λ rows. map described (map scan_job rows)) k.waiting ∙ h.waiting;
      }

  after_init-IsOk :
      (plan : MigrationPlan) (old s : Store) (pg : Pg)
      → IsPool
      → IsPlain plan
      → IsReady plan s
      → IsOk (after_init out cfg now run plan old pg (some s))
  unfolding after_init
  after_init-IsOk plan old s pg law p h =
      after_ddl-IsOk plan _ law p (execute_ddl-IsReady plan s pg h)

  start-IsReady :
      (plan : MigrationPlan) (created : ℕ) (hash : Text) (s u v : Store)
      → IsValid s
      → any (λ j. text_eq j.run_id run) s.jobs ≡ false
      → IsPast created s.runs
      → create_run created run hash s ≡ some u
      → init_jobs cfg.migration cfg.postgres.drop_target plan (prev_completed u) now run u ≡ some v
      → IsReady plan v
  unfolding start_run init_jobs
  start-IsReady plan created hash s u v valid new past made inited = record {
    valid =
        create_all-IsValid now run _ u v inited
          (Step-IsValid s u (creates_run created run hash made) valid);
    waiting =
        get_pending_jobs-start_run cfg.migration cfg.postgres.drop_target plan created now run hash
          s v new past (rw made inited);
  }

  extracted-IsOk :
      (created : ℕ) (hash : Text) (m : Schema) (s u : Store) (pg : Pg)
      → IsPool
      → IsPlain (run_plan out cfg now run m)
      → IsValid s
      → any (λ j. text_eq j.run_id run) s.jobs ≡ false
      → IsPast created s.runs
      → create_run created run hash s ≡ some u
      → IsOk (after_extract out cfg now run u pg (extracted m))
  unfolding after_extract after_init
  extracted-IsOk created hash m s u pg law plain valid new past made =
      let plan = run_plan out cfg now run m in
      elim (Option-cases
        (init_jobs cfg.migration cfg.postgres.drop_target plan (prev_completed u) now run u)) [
          | inl broken ↦ rw broken (λ k. absurd (cc k))
          | inr (v, inited) ↦ rw inited (
              after_init-IsOk plan u v pg law plain
                (start-IsReady plan created hash s u v valid new past made inited))
        ]

  -- Where a run with a new id ends without an error, no job of the run is FAILED, whatever warnings
  -- were logged on the way, and none of its data jobs waits. The data phase is a run of the worker
  -- pool in which any worker may be next; that it was not cancelled where it ends without an error
  -- is assumed, since the pool then leaves tasks behind. The store was valid, the clock has not been
  -- set back, partitions have names, and no two tasks of the plan have the same key.
  pub run_migration-NoneFailed :
      (created : ℕ) (hash : Text) (m : Schema) (s t : Store) (pg after : Pg)
      → IsPool
      → out.extract ≡ extracted m
      → IsPlain (run_plan out cfg now run m)
      → IsValid s
      → any (λ j. text_eq j.run_id run) s.jobs ≡ false
      → IsPast created s.runs
      → run_migration out cfg now run created hash s pg ≡ (t, after, none)
      → NoneFailed run t × NoneWaits run (codes "data") t
  unfolding run_migration after_create
  run_migration-NoneFailed created hash m s t pg after law found plain valid new past e =
      subst IsOk e ended refl
    where
      ended : IsOk (run_migration out cfg now run created hash s pg)
      ended = elim (Option-cases (create_run created run hash s)) [
        | inl refused ↦ rw refused (λ k. absurd (cc k))
        | inr (u, made) ↦ rw made (
            subst (λ x. IsOk (after_extract out cfg now run u pg x)) (sym found)
              (extracted-IsOk created hash m s u pg law plain valid new past made))
      ]
