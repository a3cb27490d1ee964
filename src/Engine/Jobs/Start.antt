-- ===== src/Engine/Jobs/Start.antt =====
-- What Run of internal/migration/engine.go finds to do when it starts.
use existora2pg.Config.{MigrationConfig}
use existora2pg.Engine.{job_partition_key, rows_expected}
use existora2pg.Engine.Jobs.{
  job_specs, JobSpec, create_all, skip_if, table_spec, data_spec, init_jobs, is_incremental,
  is_fully_completed, completed_of, prev_completed, start_run,
}
use existora2pg.JobStore.{
  JobRow, Job, Store, new_row, same_key, create_job, create_run, get_completed_partitions,
  get_pending_jobs, query, in_phase, is_waiting, is_done_data, scan_job,
}
use existora2pg.JobStore.Runs.{IsPast, get_latest_run_id-create_run}
use existora2pg.Plan.{TableTask, MigrationPlan}
use existora2pg.Prelude.{
  ℕ, suc, Bool, false, ◌&&◌, Text, codes, List, [], ◌∷◌, ◌++◌, none, some, text_eq, text_eq_refl,
  any, map, select, select-append, All, All-append, ◌≡◌, refl, ap, ◌∙◌, append-nil, append_assoc,
  Bool-cases, Option-cases, inl, inr, ||-eq_false,
}
use existora2pg.Prelude.Dict.{lookup}
use existora2pg.Schema.{Table}

-- The rows that a list of jobs adds to the table, none of them skipped.
new_rows : ℕ → Text → ℕ → List JobSpec → List JobRow
new_rows now run n [] = []
new_rows now run n (x ∷ xs) =
    new_row now n run x.schema x.table x.partition x.phase x.expected ∷ new_rows now run (suc n) xs

abbrev IsUnskipped : JobSpec → Type 0
IsUnskipped x = x.skip ≡ none

create_job-rows :
    (now : ℕ) (run : Text) (x : JobSpec) (s t : Store) (id : ℕ)
    → create_job now run x.schema x.table x.partition x.phase x.expected s ≡ some (t, id)
    → (t.jobs
        ≡ s.jobs ++ new_row now s.next_id run x.schema x.table x.partition x.phase x.expected ∷ [])
      × (t.next_id ≡ suc s.next_id)
unfolding create_job
create_job-rows now run x s t id e =
    elim (Bool-cases (any (same_key run x.table x.partition x.phase) s.jobs)) [
      | inl taken ↦ absurd (cc (rw taken at e))
      | inr new ↦ (cc (rw new at e), cc (rw new at e))
    ]

create_all-rows :
    (now : ℕ) (run : Text) (xs : List JobSpec) (s t : Store)
    → All IsUnskipped xs
    → create_all now run xs s ≡ some t
    → t.jobs ≡ s.jobs ++ new_rows now run s.next_id xs
unfolding create_all new_rows skip_if
create_all-rows now run [] s t h e = cc (e, append-nil s.jobs)
create_all-rows now run (x ∷ xs) s t h e =
    elim (Option-cases (create_job now run x.schema x.table x.partition x.phase x.expected s)) [
      | inl failed ↦ absurd (cc (rw (failed, create_all) at e))
      | inr ((u, id), made) ↦
          let (rows, next) = create_job-rows now run x s u id made in
          let rest = create_all-rows now run xs u t h.1 (rw (made, create_all, h.0) at e) in
          rw (next, rows) at rest
          ∙ append_assoc s.jobs
              (new_row now s.next_id run x.schema x.table x.partition x.phase x.expected ∷ []) _
    ]

-- What tells which data is copied: the table, the partition key and the expected rows.
abbrev pub described : Job → Text × Text × ℕ
described j = (j.table_name, j.partition, j.rows_expected)

abbrev described_spec : JobSpec → Text × Text × ℕ
described_spec x = (x.table, x.partition, x.expected)

abbrev pub described_task : TableTask → Text × Text × ℕ
described_task task = (task.table.name, job_partition_key task, rows_expected task)

new_rows-waiting :
    (now : ℕ) (run phase : Text) (n : ℕ) (xs : List JobSpec)
    → map described (
        map scan_job
          (select (λ j. in_phase run phase j && is_waiting j.state) (new_rows now run n xs)))
      ≡ map described_spec (select (λ x. text_eq x.phase phase) xs)
unfolding new_rows
new_rows-waiting now run phase n [] = refl
new_rows-waiting now run phase n (x ∷ xs) =
    rw (text_eq_refl run) (elim (Bool-cases (text_eq x.phase phase)) [
      | inl same ↦
          rw same (ap (λ r. described_spec x ∷ r) (new_rows-waiting now run phase (suc n) xs))
      | inr other ↦ rw other (new_rows-waiting now run phase (suc n) xs)
    ])

none_of_run :
    (run phase : Text) (js : List JobRow)
    → any (λ j. text_eq j.run_id run) js ≡ false
    → (select (λ j. in_phase run phase j && is_waiting j.state) js ≡ [])
      × (select (is_done_data run) js ≡ [])
none_of_run run phase [] h = (refl, refl)
none_of_run run phase (j ∷ js) h =
    let (here, later) = ||-eq_false (text_eq j.run_id run) (any (λ k. text_eq k.run_id run) js) h in
    rw here (none_of_run run phase js later)

module _ (cfg : MigrationConfig) (drop_target : Bool) (plan : MigrationPlan) where
  table_specs-IsUnskipped :
      (phase : Text) (ts : List Table)
      → All IsUnskipped (map (table_spec cfg drop_target plan [] phase) ts)
  unfolding table_spec is_fully_completed
  table_specs-IsUnskipped phase [] = tt
  table_specs-IsUnskipped phase (t ∷ ts) = (refl, table_specs-IsUnskipped phase ts)

  data_specs-IsUnskipped :
      (tasks : List TableTask) → All IsUnskipped (map (data_spec cfg drop_target plan []) tasks)
  unfolding data_spec lookup
  data_specs-IsUnskipped [] = tt
  data_specs-IsUnskipped (t ∷ ts) = (
    elim (Bool-cases (is_incremental cfg drop_target plan [] t.table.name)) [
      | inl e ↦ rw e refl
      | inr e ↦ rw e refl
    ],
    data_specs-IsUnskipped ts,
  )

  table_specs-other :
      (phase wanted : Text) (ts : List Table)
      → text_eq phase wanted ≡ false
      → select (λ x. text_eq x.phase wanted) (map (table_spec cfg drop_target plan [] phase) ts)
        ≡ []
  unfolding table_spec
  table_specs-other phase wanted [] h = refl
  table_specs-other phase wanted (t ∷ ts) h = rw h (table_specs-other phase wanted ts h)

  data_specs-described :
      (tasks : List TableTask)
      → map described_spec (
          select
            (λ x. text_eq x.phase (codes "data"))
            (map (data_spec cfg drop_target plan []) tasks))
        ≡ map described_task tasks
  unfolding data_spec text_eq
  data_specs-described [] = refl
  data_specs-described (t ∷ ts) = ap (λ r. described_task t ∷ r) (data_specs-described ts)

  job_specs-IsUnskipped : All IsUnskipped (job_specs cfg drop_target plan [])
  unfolding job_specs
  job_specs-IsUnskipped =
      All-append IsUnskipped _ _ (table_specs-IsUnskipped (codes "ddl") plan.ddl_order) (
        All-append IsUnskipped _ _ (data_specs-IsUnskipped plan.data_tasks) (
          All-append IsUnskipped _ _
            (table_specs-IsUnskipped (codes "constraints") plan.constraint_order)
            (table_specs-IsUnskipped (codes "validate") plan.ddl_order)))

  data_of : List JobSpec → List JobSpec
  data_of = select (λ x. text_eq x.phase (codes "data"))

  data_of-job_specs :
      data_of (job_specs cfg drop_target plan [])
      ≡ data_of (map (data_spec cfg drop_target plan []) plan.data_tasks)
  unfolding job_specs data_of text_eq
  data_of-job_specs =
      rw
        (
          select-append (λ x. text_eq x.phase (codes "data"))
              (map (table_spec cfg drop_target plan [] (codes "ddl")) plan.ddl_order) _,
          table_specs-other (codes "ddl") (codes "data") plan.ddl_order refl,
          select-append (λ x. text_eq x.phase (codes "data"))
              (map (data_spec cfg drop_target plan []) plan.data_tasks) _,
          select-append (λ x. text_eq x.phase (codes "data"))
              (map (table_spec cfg drop_target plan [] (codes "constraints")) plan.constraint_order)
              _,
          table_specs-other (codes "constraints") (codes "data") plan.constraint_order refl,
          table_specs-other (codes "validate") (codes "data") plan.ddl_order refl,
        )
        (append-nil _)

  -- initJobs with no completed partitions of an earlier run.
  get_pending_jobs-init_jobs :
      (now : ℕ) (run : Text) (s t : Store)
      → any (λ j. text_eq j.run_id run) s.jobs ≡ false
      → init_jobs cfg drop_target plan [] now run s ≡ some t
      → map described (get_pending_jobs run (codes "data") t) ≡ map described_task plan.data_tasks
  unfolding init_jobs get_pending_jobs query data_of
  get_pending_jobs-init_jobs now run s t new e =
      let specs = job_specs cfg drop_target plan [] in
      let rows = create_all-rows now run specs s t job_specs-IsUnskipped e in
      rw
        (
          rows,
          select-append (λ j. in_phase run (codes "data") j && is_waiting j.state) s.jobs
              (new_rows now run s.next_id specs),
          (none_of_run run (codes "data") s.jobs new).0,
        )
        (new_rows-waiting now run (codes "data") s.next_id specs
          ∙ ap (map described_spec) data_of-job_specs
          ∙ data_specs-described plan.data_tasks)

  create_run-jobs :
      (now : ℕ) (run hash : Text) (s t : Store)
      → create_run now run hash s ≡ some t
      → t.jobs ≡ s.jobs
  unfolding create_run
  create_run-jobs now run hash s t e = elim (Bool-cases (any (λ r. text_eq r.id run) s.runs)) [
    | inl taken ↦ absurd (cc (rw taken at e))
    | inr new ↦ cc (rw new at e)
  ]

  prev_completed-create_run :
      (now : ℕ) (run hash : Text) (s t : Store)
      → create_run now run hash s ≡ some t
      → IsPast now s.runs
      → any (λ j. text_eq j.run_id run) s.jobs ≡ false
      → prev_completed t ≡ []
  unfolding prev_completed completed_of get_completed_partitions
  prev_completed-create_run now run hash s t e past new =
      rw
        (
          get_latest_run_id-create_run now run hash s t e past,
          create_run-jobs now run hash s t e,
          (none_of_run run [] s.jobs new).1,
        )
        refl

  -- Where Run creates its run and its jobs, every data task of the plan has a waiting job, in the
  -- order of the plan, with its partition key and row count, whatever earlier runs completed; the
  -- run's id is a new one, and the clock has not been set back.
  pub get_pending_jobs-start_run :
      (created now : ℕ) (run hash : Text) (s t : Store)
      → any (λ j. text_eq j.run_id run) s.jobs ≡ false
      → IsPast created s.runs
      → start_run cfg drop_target plan created now run hash s ≡ some t
      → map described (get_pending_jobs run (codes "data") t) ≡ map described_task plan.data_tasks
  unfolding start_run
  get_pending_jobs-start_run created now run hash s t new past e =
      elim (Option-cases (create_run created run hash s)) [
        | inl failed ↦ absurd (cc (rw failed at e))
        | inr (u, made) ↦
            get_pending_jobs-init_jobs now run u t
              (rw (create_run-jobs created run hash s u made) new)
              (rw (made, prev_completed-create_run created run hash s u made past new) at e)
      ]
