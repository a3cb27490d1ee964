-- ===== src/Engine/DdlPhase/Kept.antt =====
-- executeDDL of internal/migration/engine.go on tables that exist.
use existora2pg.Config.{MigrationConfig, TargetMode}
use existora2pg.Writer.{found}
use existora2pg.Engine.DdlPhase.{
  StoreCalls, stored, unless_failed, DdlWriter, table_map, apply_mode, append_table, keep_or_create,
  run_jobs, run_job, finish_job, execute_ddl,
}
use existora2pg.JobStore.{set_running, set_completed, Store, Job, get_pending_jobs}
use existora2pg.Plan.{MigrationPlan}
use existora2pg.Plan.Build.{mode_of}
use existora2pg.Prelude.{
  subst, ℕ, Bool, Text, codes, text_eq, List, [], ◌∷◌, Option, none, some, ◌≡◌, refl, All,
  Option-cases, Bool-cases, inl, inr,
}
use existora2pg.Prelude.Dict.{lookup, insert, lookup-insert}
use existora2pg.Schema.{Table}

-- The modes that keep the rows of an existing table.
pub data KeepsRows : TargetMode → Type 0 where
  append : KeepsRows TargetMode.append
  skip : KeepsRows TargetMode.skip
  truncate_partition : KeepsRows TargetMode.truncate_partition

-- An error of the phase that a call of the job store gave, or none.
pub data IsOfStore (calls : StoreCalls) : Option Text → Type 0 where
  no_error : IsOfStore calls none
  by_query : IsOfStore calls calls.query_error
  by_start : (id : ℕ) → IsOfStore calls (calls.start_error id)
  by_end : (id : ℕ) → IsOfStore calls (calls.end_error id)

module _ {Pg : Type 0} (w : DdlWriter Pg) (calls : StoreCalls) (cfg : MigrationConfig)
    (drop_target : Bool) (pg : Pg) where
  -- The database is as before, and an error is one of the store.
  pub record IsUnchanged (r : Store × Pg × Option Text) : Type 0 where
    pub database : r.1 ≡ pg
    pub error : IsOfStore calls r.2

  pub record IsKept (t : Table) : Type 0 where
    pub mode : KeepsRows (mode_of cfg drop_target t)
    pub there : w.table_exists t.name pg ≡ found

  record AllKept (tables : List (Text × Table)) : Type 0 where
    kept : (name : Text) (t : Table) → lookup name tables ≡ some t → IsKept t

  insert-AllKept :
      (t : Table) (tables : List (Text × Table))
      → IsKept t
      → AllKept tables
      → AllKept (insert t.name t tables)
  insert-AllKept t tables h k = record {
    kept = λ name u e. elim (Bool-cases (text_eq t.name name)) [
      | inl same ↦ subst IsKept (cc (rw (lookup-insert t.name name t tables, same) at e)) h
      | inr other ↦ k.kept name u (rw (lookup-insert t.name name t tables, other) at e)
    ];
  }

  table_map-AllKept :
      (ts : List Table) (tables : List (Text × Table))
      → All IsKept ts
      → AllKept tables
      → AllKept (table_map tables ts)
  table_map-AllKept [] tables h k = k
  table_map-AllKept (t ∷ ts) tables h k =
      table_map-AllKept ts (insert t.name t tables) h.1 (insert-AllKept t tables h.0 k)

  unless_failed-IsUnchanged :
      (o : Option Text) (s : Store) (next : Store × Pg × Option Text)
      → IsOfStore calls o
      → IsUnchanged next
      → IsUnchanged (unless_failed o s pg next)
  unless_failed-IsUnchanged none s next h k = k
  unless_failed-IsUnchanged (some e) s next h k = record { database = refl; error = h }

  -- One job of a kept table, where the next jobs change nothing.
  run_job_keeps :
      (now id : ℕ) (rest : Store → Pg → Store × Pg × Option Text) (s : Store) (t : Table)
      → IsKept t
      → ((u : Store) → IsUnchanged (rest u pg))
      → IsUnchanged (run_job w calls cfg drop_target now id rest s pg (some t))
  unfolding run_job finish_job apply_mode append_table keep_or_create
  run_job_keeps now id rest s t h k = go (mode_of cfg drop_target t) refl h.mode
    where
      ended : IsUnchanged (
          unless_failed (calls.start_error id) s pg (
            unless_failed
              (calls.end_error id)
              (set_running now id s)
              pg
              (rest (set_completed now id 0 0 (set_running now id s)) pg)))
      ended = unless_failed-IsUnchanged (calls.start_error id) s _ (by_start id) (
          unless_failed-IsUnchanged (calls.end_error id) (set_running now id s) _ (by_end id)
            (k (set_completed now id 0 0 (set_running now id s))))

      go :
          (mode : TargetMode)
          → mode_of cfg drop_target t ≡ mode
          → KeepsRows mode
          → IsUnchanged (run_job w calls cfg drop_target now id rest s pg (some t))
      go _ e append = rw (e, h.there) ended
      go _ e skip = rw e (k (stored (calls.end_error id) s (set_completed now id 0 0 s)))
      go _ e truncate_partition = rw (e, h.there) ended

  run_jobs_keeps :
      (now : ℕ) (tables : List (Text × Table)) (js : List Job) (s : Store)
      → AllKept tables
      → IsUnchanged (run_jobs w calls cfg drop_target now tables js s pg)
  unfolding run_jobs run_job
  run_jobs_keeps now tables [] s h = record { database = refl; error = no_error }
  run_jobs_keeps now tables (j ∷ js) s h = elim (Option-cases (lookup j.table_name tables)) [
    | inl missing ↦ rw missing (run_jobs_keeps now tables js s h)
    | inr (t, e) ↦ rw e (
        run_job_keeps now j.id (run_jobs w calls cfg drop_target now tables js) s t
          (h.kept j.table_name t e) (λ u. run_jobs_keeps now tables js u h))
  ]

  -- Where each table of the plan exists and has the mode append, skip or truncate_partition, the
  -- phase has not changed the database, however the calls of the job store end, and it ends
  -- without an error but for one of these calls: the query, SetRunning or SetCompleted.
  pub execute_ddl_keeps :
      (now : ℕ) (run : Text) (plan : MigrationPlan) (s : Store)
      → All IsKept plan.ddl_order
      → IsUnchanged (execute_ddl w calls cfg drop_target now run plan s pg)
  unfolding execute_ddl lookup
  execute_ddl_keeps now run plan s h = unless_failed-IsUnchanged calls.query_error s _ by_query (
      run_jobs_keeps now (table_map [] plan.ddl_order) (get_pending_jobs run (codes "ddl") s) s
        (table_map-AllKept plan.ddl_order [] h (record { kept = λ name t e. absurd (cc e) })))
