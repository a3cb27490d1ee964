-- ===== src/Engine/Constraints/Ended.antt =====
-- How the jobs of executeConstraints of internal/migration/engine.go end.
use existora2pg.Config.{MigrationConfig, override_of}
use existora2pg.Engine.Constraints.{
  ConstraintWriter, skips_both, first_pass, second_job, second_pass, end_job, execute_constraints,
}
use existora2pg.Engine.DdlPhase.{table_map}
use existora2pg.JobStore.{
  Store, Job, JobRow, update_where, has_id, set_completed, set_failed, complete_row, fail_row,
  is_completed, is_failed, get_pending_jobs,
}
use existora2pg.Plan.{MigrationPlan}
use existora2pg.Prelude.{
  refl, subst, ap, All-map, ℕ, zero, suc, Bool, true, false, ◌≡◌, ◌||◌, not, Text, codes, List, [],
  ◌∷◌, Option, none, some, if◌then◌else◌, map, All, get_elem?, arith, Bool-cases, inl, inr, ◌∙◌,
}
use existora2pg.Prelude.Dict.{lookup}
use existora2pg.Schema.{Table}

-- COMPLETED or FAILED.
abbrev pub is_ended : JobRow → Bool
is_ended j = is_completed j.state || is_failed j.state

-- Where there is a job of this id, it passes the test.
abbrev pub Passes : (JobRow → Bool) → ℕ → Store → Type 0
Passes p n s = All (λ j. not (has_id n j) || p j ≡ true) s.jobs

-- The job of this id has ended.
abbrev pub HasEnded : ℕ → Store → Type 0
HasEnded n s = Passes is_ended n s

-- A test that completed jobs pass, and those that failed with an error of some kind.
module _ (p : JobRow → Bool) (Err : Text → Type 0)
    (completed : (now rows bytes : ℕ) (j : JobRow) → p (complete_row now rows bytes j) ≡ true)
    (failed : (now : ℕ) (msg : Text) (j : JobRow) → Err msg → p (fail_row now msg j) ≡ true) where
  set_completed-Passes :
      (now n m rows bytes : ℕ) (s : Store)
      → Passes p n s
      → Passes p n (set_completed now m rows bytes s)
  unfolding set_completed update_where
  set_completed-Passes now n m rows bytes s h =
      All-map (λ j. not (has_id n j) || p j ≡ true) (λ j. not (has_id n j) || p j ≡ true) _
        (λ j e. ground (arith, completed now rows bytes j)) s.jobs h

  set_failed-Passes :
      (now n m : ℕ) (msg : Text) (s : Store)
      → Err msg
      → Passes p n s
      → Passes p n (set_failed now m msg s)
  unfolding set_failed update_where
  set_failed-Passes now n m msg s k h =
      All-map (λ j. not (has_id n j) || p j ≡ true) (λ j. not (has_id n j) || p j ≡ true) _
        (λ j e. ground (arith, failed now msg j k)) s.jobs h

  completed_own :
      (now n rows bytes : ℕ) (js : List JobRow)
      → All
          (λ j. not (has_id n j) || p j ≡ true)
          (map (λ j. if has_id n j then complete_row now rows bytes j else j) js)
  completed_own now n rows bytes [] = tt
  completed_own now n rows bytes (j ∷ js) =
      (ground (arith, completed now rows bytes j), completed_own now n rows bytes js)

  failed_own :
      (now n : ℕ) (msg : Text) (js : List JobRow)
      → Err msg
      → All
          (λ j. not (has_id n j) || p j ≡ true)
          (map (λ j. if has_id n j then fail_row now msg j else j) js)
  failed_own now n msg [] k = tt
  failed_own now n msg (j ∷ js) k = (ground (arith, failed now msg j k), failed_own now n msg js k)

  -- The errors of the constraints are of that kind.
  module _ {Pg : Type 0} (w : ConstraintWriter Pg) (cfg : MigrationConfig) (now : ℕ)
      (errors : (t : Table) (pg : Pg) (e : Text)
        → (w.create_fk_and_other_constraints t pg).1 ≡ some e
        → Err e) where
    end_job-Passes :
        (n id : ℕ) (s : Store) (r : Pg × Option Text)
        → ((e : Text) → r.1 ≡ some e → Err e)
        → Passes p n s
        → Passes p n (end_job w cfg now id s r).0
    end_job-Passes n id s (pg, none) k h = set_completed-Passes now n id 0 0 s h
    end_job-Passes n id s (pg, some e) k h = set_failed-Passes now n id e s (k e refl) h

    end_job_own :
        (id : ℕ) (s : Store) (r : Pg × Option Text)
        → ((e : Text) → r.1 ≡ some e → Err e)
        → Passes p id (end_job w cfg now id s r).0
    unfolding set_completed set_failed update_where
    end_job_own id s (pg, none) k = completed_own now id 0 0 s.jobs
    end_job_own id s (pg, some e) k = failed_own now id e s.jobs (k e refl)

    second_job-Passes :
        (n id : ℕ) (s : Store) (pg : Pg) (o : Option Table)
        → Passes p n s
        → Passes p n (second_job w cfg now id s pg o).0
    unfolding second_job
    second_job-Passes n id s pg none h = h
    second_job-Passes n id s pg (some t) h =
        elim (Bool-cases (skips_both (override_of cfg t.name))) [
          | inl both ↦ rw both h
          | inr some_wanted ↦
              rw some_wanted (elim (Bool-cases (override_of cfg t.name).skip_constraints) [
                | inl skip ↦ rw skip (set_completed-Passes now n id 0 0 s h)
                | inr wanted ↦
                    rw wanted (
                      end_job-Passes n id s (w.create_fk_and_other_constraints t pg) (errors t pg)
                        h)
              ])
        ]

    second_job_own :
        (id : ℕ) (s : Store) (pg : Pg) (t : Table)
        → skips_both (override_of cfg t.name) ≡ false
        → Passes p id (second_job w cfg now id s pg (some t)).0
    unfolding second_job set_completed update_where
    second_job_own id s pg t some_wanted =
        rw some_wanted (elim (Bool-cases (override_of cfg t.name).skip_constraints) [
          | inl skip ↦ rw skip (completed_own now id 0 0 s.jobs)
          | inr wanted ↦
              rw wanted (end_job_own id s (w.create_fk_and_other_constraints t pg) (errors t pg))
        ])

    second_pass-Passes :
        (n : ℕ) (tables : List (Text × Table)) (js : List Job) (s : Store) (pg : Pg)
        → Passes p n s
        → Passes p n (second_pass w cfg now tables js s pg).0
    unfolding second_pass
    second_pass-Passes n tables [] s pg h = h
    second_pass-Passes n tables (j ∷ js) s pg h =
        let r = second_job w cfg now j.id s pg (lookup j.table_name tables) in
        second_pass-Passes n tables js r.0 r.1
          (second_job-Passes n j.id s pg (lookup j.table_name tables) h)

    second_pass_own :
        (tables : List (Text × Table)) (js : List Job) (s : Store) (pg : Pg) (i : ℕ) (j : Job)
        (t : Table)
        → get_elem? js i ≡ some j
        → lookup j.table_name tables ≡ some t
        → skips_both (override_of cfg t.name) ≡ false
        → Passes p j.id (second_pass w cfg now tables js s pg).0
    unfolding second_pass
    second_pass_own tables [] s pg i j t e f g = absurd (cc e)
    second_pass_own tables (k ∷ js) s pg zero j t e f g =
        let r = second_job w cfg now k.id s pg (lookup k.table_name tables) in
        let same : k ≡ j = cc e in
        let found : lookup k.table_name tables ≡ some t =
          ap (λ x. lookup x.table_name tables) same ∙ f in
        second_pass-Passes j.id tables js r.0 r.1
          (subst (λ x. Passes p x.id r.0) same (rw found (second_job_own k.id s pg t g)))
    second_pass_own tables (k ∷ js) s pg (suc i) j t e f g =
        let r = second_job w cfg now k.id s pg (lookup k.table_name tables) in
        second_pass_own tables js r.0 r.1 i j t e f g

    -- Each waiting job of a table of the plan passes the test after the phase.
    pub execute_constraints-Passes :
        (run : Text) (plan : MigrationPlan) (s : Store) (pg : Pg) (i : ℕ) (j : Job) (t : Table)
        → get_elem? (get_pending_jobs run (codes "constraints") s) i ≡ some j
        → lookup j.table_name (table_map [] plan.constraint_order) ≡ some t
        → skips_both (override_of cfg t.name) ≡ false
        → Passes p j.id (execute_constraints w cfg now run plan s pg).0
    unfolding execute_constraints
    execute_constraints-Passes run plan s pg i j t e f g =
        let tables = table_map [] plan.constraint_order in
        let jobs = get_pending_jobs run (codes "constraints") s in
        let r = first_pass w cfg now tables jobs s pg in
        second_pass_own tables jobs r.0 r.1 i j t e f g

module _ {Pg : Type 0} (w : ConstraintWriter Pg) (cfg : MigrationConfig) (now : ℕ) where
  -- Each waiting job of a table of the plan, where constraints or indexes are wanted, is COMPLETED
  -- or FAILED after the phase, whatever statements of it or of other tables failed.
  pub execute_constraints-HasEnded :
      (run : Text) (plan : MigrationPlan) (s : Store) (pg : Pg) (i : ℕ) (j : Job) (t : Table)
      → get_elem? (get_pending_jobs run (codes "constraints") s) i ≡ some j
      → lookup j.table_name (table_map [] plan.constraint_order) ≡ some t
      → skips_both (override_of cfg t.name) ≡ false
      → HasEnded j.id (execute_constraints w cfg now run plan s pg).0
  execute_constraints-HasEnded run plan s pg i j t e f g =
      execute_constraints-Passes is_ended (λ _. Unit) (λ m rows bytes k. refl) (λ m msg k _. refl) w
        cfg now (λ u q m _. tt) run plan s pg i j t e f g
