-- ===== src/Engine/Run/Waits.antt =====
-- The phases of internal/migration/engine.go behind the data phase make no job wait again.
use existora2pg.Writer.{Writer, PgPool}
use existora2pg.Engine.DdlPhase.{table_map}
use existora2pg.Config.{MigrationConfig}
use existora2pg.Engine.Constraints.{
  ConstraintWriter, first_job, first_pass, second_job, second_pass, end_job, execute_constraints,
  skips_both,
}
use existora2pg.Config.{override_of}
use existora2pg.Engine.Validation.{Counts, Outcome, passes, skips, count_fails, mismatches}
use existora2pg.Engine.Validation.Phase
use existora2pg.Engine.Validation.Phase.{validate_jobs, execute_validation}
use existora2pg.JobStore.{
  scan_job, get_jobs_by_phase, Job, JobRow, Store, has_id, is_waiting, in_phase, get_pending_jobs,
  query, update_where, set_running, set_completed, set_failed, start_row, complete_row, fail_row,
}
use existora2pg.Plan.{TableTask, MigrationPlan}
use existora2pg.Schema.{Table}
use existora2pg.Prelude.Dict.{lookup}
use existora2pg.Prelude.{
  ℕ, ◌≡◌, refl, Bool, true, false, ◌&&◌, Text, codes, List, [], ◌∷◌, Option, none, some, map, arith,
  All, All-map, Bool-cases, inl, inr, if◌then◌else◌, select,
}

-- No job of the run waits for the phase.
abbrev pub NoneWaits : Text → Text → Store → Type 0
NoneWaits run phase s = All (λ j. in_phase run phase j && is_waiting j.state ≡ false) s.jobs

-- An update after which a job does not wait, and that leaves its run and its phase alone.
abbrev Settles : (JobRow → JobRow) → Type 0
Settles f =
    (j : JobRow)
    → ((f j).run_id ≡ j.run_id) × ((f j).phase ≡ j.phase) × (is_waiting (f j).state ≡ false)

module _ (run phase : Text) where
  NoneWaits-update :
      (f : JobRow → JobRow) (i : ℕ) (s : Store)
      → Settles f
      → NoneWaits run phase s
      → NoneWaits run phase (update_where (has_id i) f s)
  unfolding update_where
  NoneWaits-update f i s settles h =
      All-map (λ j. in_phase run phase j && is_waiting j.state ≡ false)
        (λ j. in_phase run phase j && is_waiting j.state ≡ false) _
        (λ j e. ground (arith, settles j)) s.jobs h

  NoneWaits-running :
      (now i : ℕ) (s : Store) → NoneWaits run phase s → NoneWaits run phase (set_running now i s)
  unfolding set_running
  NoneWaits-running now i s h = NoneWaits-update (start_row now) i s (λ j. (refl, refl, refl)) h

  NoneWaits-completed :
      (now i rows bytes : ℕ) (s : Store)
      → NoneWaits run phase s
      → NoneWaits run phase (set_completed now i rows bytes s)
  unfolding set_completed
  NoneWaits-completed now i rows bytes s h =
      NoneWaits-update (complete_row now rows bytes) i s (λ j. (refl, refl, refl)) h

  NoneWaits-failed :
      (now i : ℕ) (msg : Text) (s : Store)
      → NoneWaits run phase s
      → NoneWaits run phase (set_failed now i msg s)
  unfolding set_failed
  NoneWaits-failed now i msg s h =
      NoneWaits-update (fail_row now msg) i s (λ j. (refl, refl, refl)) h

  module _ {Pg : Type 0} (w : ConstraintWriter Pg) (cfg : MigrationConfig) (now : ℕ) where
    NoneWaits-first_job :
        (id : ℕ) (s : Store) (pg : Pg) (o : Option Table)
        → NoneWaits run phase s
        → NoneWaits run phase (first_job w cfg now id s pg o).0
    unfolding first_job
    NoneWaits-first_job id s pg none h = h
    NoneWaits-first_job id s pg (some t) h =
        elim (Bool-cases (skips_both (override_of cfg t.name))) [
          | inl both ↦ rw both (NoneWaits-completed now id 0 0 s h)
          | inr wanted ↦ rw wanted (NoneWaits-running now id s h)
        ]

    NoneWaits-first_pass :
        (tables : List (Text × Table)) (js : List Job) (s : Store) (pg : Pg)
        → NoneWaits run phase s
        → NoneWaits run phase (first_pass w cfg now tables js s pg).0
    unfolding first_pass
    NoneWaits-first_pass tables [] s pg h = h
    NoneWaits-first_pass tables (j ∷ js) s pg h =
        let r = first_job w cfg now j.id s pg (lookup j.table_name tables) in
        NoneWaits-first_pass tables js r.0 r.1
          (NoneWaits-first_job j.id s pg (lookup j.table_name tables) h)

    NoneWaits-end_job :
        (id : ℕ) (s : Store) (r : Pg × Option Text)
        → NoneWaits run phase s
        → NoneWaits run phase (end_job w cfg now id s r).0
    NoneWaits-end_job id s (pg, none) h = NoneWaits-completed now id 0 0 s h
    NoneWaits-end_job id s (pg, some e) h = NoneWaits-failed now id e s h

    NoneWaits-second_job :
        (id : ℕ) (s : Store) (pg : Pg) (o : Option Table)
        → NoneWaits run phase s
        → NoneWaits run phase (second_job w cfg now id s pg o).0
    unfolding second_job
    NoneWaits-second_job id s pg none h = h
    NoneWaits-second_job id s pg (some t) h =
        elim (Bool-cases (skips_both (override_of cfg t.name))) [
          | inl both ↦ rw both h
          | inr wanted ↦ rw wanted (elim (Bool-cases (override_of cfg t.name).skip_constraints) [
            | inl skip ↦ rw skip (NoneWaits-completed now id 0 0 s h)
            | inr keep ↦ rw keep (NoneWaits-end_job id s (w.create_fk_and_other_constraints t pg) h)
          ])
        ]

    NoneWaits-second_pass :
        (tables : List (Text × Table)) (js : List Job) (s : Store) (pg : Pg)
        → NoneWaits run phase s
        → NoneWaits run phase (second_pass w cfg now tables js s pg).0
    unfolding second_pass
    NoneWaits-second_pass tables [] s pg h = h
    NoneWaits-second_pass tables (j ∷ js) s pg h =
        let r = second_job w cfg now j.id s pg (lookup j.table_name tables) in
        NoneWaits-second_pass tables js r.0 r.1
          (NoneWaits-second_job j.id s pg (lookup j.table_name tables) h)

  -- executeConstraints
  pub NoneWaits-execute_constraints :
      {Pg : Type 0} (w : ConstraintWriter Pg) (cfg : MigrationConfig) (now : ℕ)
      (plan : MigrationPlan) (s : Store) (pg : Pg)
      → NoneWaits run phase s
      → NoneWaits run phase (execute_constraints w cfg now run plan s pg).0
  unfolding execute_constraints
  NoneWaits-execute_constraints w cfg now plan s pg h =
      let tables = table_map [] plan.constraint_order in
      let jobs = get_pending_jobs run (codes "constraints") s in
      let r = first_pass w cfg now tables jobs s pg in
      NoneWaits-second_pass w cfg now tables jobs r.0 r.1
        (NoneWaits-first_pass w cfg now tables jobs s pg h)

  module _ {Pg : Type 0} (pool : PgPool Pg) (w : Writer) (counts : Pg → Counts)
      (count_error : Text → Text) (cfg : MigrationConfig) (now : ℕ) where
    NoneWaits-judged :
        (j : Job) (estimated : Bool) (s : Store) (o : Outcome)
        → NoneWaits run phase s
        → NoneWaits run phase (Phase.end_job pool w counts count_error cfg now j estimated s o)
    unfolding Phase.end_job
    NoneWaits-judged j estimated s skips h = NoneWaits-completed now j.id 0 0 s h
    NoneWaits-judged j estimated s (passes n) h =
        NoneWaits-completed now j.id n 0 (set_running now j.id s) (NoneWaits-running now j.id s h)
    NoneWaits-judged j estimated s count_fails h =
        NoneWaits-failed now j.id _ (set_running now j.id s) (NoneWaits-running now j.id s h)
    NoneWaits-judged j estimated s (mismatches o p) h =
        NoneWaits-failed now j.id _ (set_running now j.id s) (NoneWaits-running now j.id s h)

    NoneWaits-validate_jobs :
        (tasks : List TableTask) (data_jobs : List Job) (pg : Pg) (js : List Job) (s : Store)
        → NoneWaits run phase s
        → NoneWaits run phase
            (validate_jobs pool w counts count_error cfg now tasks data_jobs pg js s)
    unfolding validate_jobs
    NoneWaits-validate_jobs tasks data_jobs pg [] s h = h
    NoneWaits-validate_jobs tasks data_jobs pg (j ∷ js) s h =
        NoneWaits-validate_jobs tasks data_jobs pg js _ (NoneWaits-judged j _ s _ h)

    -- executeValidation
    pub NoneWaits-execute_validation :
        (plan : MigrationPlan) (s : Store) (pg : Pg)
        → NoneWaits run phase s
        → NoneWaits run phase (execute_validation pool w counts count_error cfg now run plan s pg).0
    unfolding execute_validation
    NoneWaits-execute_validation plan s pg h =
        let jobs = get_pending_jobs run (codes "validate") s in
        NoneWaits-validate_jobs plan.data_tasks (get_jobs_by_phase run (codes "data") s)
          (Phase.analyze pool w counts count_error cfg now jobs pg) jobs s h

  pub NoneWaits-if :
      {Pg : Type 0} (b : Bool) (x y : Store × Pg)
      → NoneWaits run phase x.0
      → NoneWaits run phase y.0
      → NoneWaits run phase (if b then x else y).0
  NoneWaits-if true x y h k = h
  NoneWaits-if false x y h k = k

  waiting-nil :
      (js : List JobRow)
      → map scan_job (select (λ j. in_phase run phase j && is_waiting j.state) js) ≡ []
      → All (λ j. in_phase run phase j && is_waiting j.state ≡ false) js
  waiting-nil [] e = tt
  waiting-nil (j ∷ js) e = elim (Bool-cases (in_phase run phase j && is_waiting j.state)) [
    | inl waits ↦ absurd (cc (rw waits at e))
    | inr settled ↦ (settled, waiting-nil js (rw settled at e))
  ]

  -- Where GetPendingJobs finds nothing, no job waits.
  pub NoneWaits-get_pending_jobs :
      (s : Store) → get_pending_jobs run phase s ≡ [] → NoneWaits run phase s
  unfolding get_pending_jobs query
  NoneWaits-get_pending_jobs s e = waiting-nil s.jobs e
