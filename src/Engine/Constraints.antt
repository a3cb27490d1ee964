-- ===== src/Engine/Constraints.antt =====
-- executeConstraints of internal/migration/engine.go, where each call of the job store ends well: its
-- early returns on an error of GetPendingJobs or of SetRunning are left out.
pub mod Ended
use existora2pg.Config.{MigrationConfig, TableOverride, override_of, resolve_index_mode}
use existora2pg.Engine.DdlPhase.{table_map}
use existora2pg.JobStore.{Store, Job, get_pending_jobs, set_running, set_completed, set_failed}
use existora2pg.Plan.{MigrationPlan}
use existora2pg.Prelude.{
  ℕ, Bool, Text, codes, text_eq, List, [], ◌∷◌, Option, none, some, if◌then◌else◌, ◌&&◌,
}
use existora2pg.Prelude.Dict.{lookup}
use existora2pg.Schema.{Table}

-- The statements of internal/postgres/writer.go on the state of the target database, with the
-- text of the error if there is one.
pub record ConstraintWriter (Pg : Type 0) : Type 0 where
  pub create_primary_key : Table → Pg → Pg × Option Text
  pub create_indexes_raw : Table → Text → Pg → Pg × Option Text
  pub create_fk_and_other_constraints : Table → Pg → Pg × Option Text

-- Neither constraints nor indexes are wanted.
unfoldable pub skips_both : TableOverride → Bool
skips_both o = o.skip_constraints && text_eq (resolve_index_mode o) (codes "skip")

module _ {Pg : Type 0} (w : ConstraintWriter Pg) (cfg : MigrationConfig) (now : ℕ) where
  -- The primary key and the indexes of a table; their errors are logged only.
  abbrev pub keys_and_indexes : TableOverride → Table → Pg → Pg
  keys_and_indexes o t pg =
      (w.create_indexes_raw t (resolve_index_mode o) (w.create_primary_key t pg).0).0

  unfoldable pub first_job : ℕ → Store → Pg → Option Table → Store × Pg
  unfolding skips_both set_running set_completed
  first_job id s pg none = (s, pg)
  first_job id s pg (some t) =
      let o = override_of cfg t.name in
      if skips_both o
      then (set_completed now id 0 0 s, pg)
      else (set_running now id s, keys_and_indexes o t pg)

  -- Pass 1.
  unfoldable pub first_pass : List (Text × Table) → List Job → Store → Pg → Store × Pg
  unfolding first_job
  first_pass tables [] s pg = (s, pg)
  first_pass tables (j ∷ js) s pg =
      let (t, after) = first_job j.id s pg (lookup j.table_name tables) in
      first_pass tables js t after

  abbrev pub end_job : ℕ → Store → Pg × Option Text → Store × Pg
  end_job id s (pg, none) = (set_completed now id 0 0 s, pg)
  end_job id s (pg, some e) = (set_failed now id e s, pg)

  unfoldable pub second_job : ℕ → Store → Pg → Option Table → Store × Pg
  unfolding skips_both set_completed
  second_job id s pg none = (s, pg)
  second_job id s pg (some t) =
      let o = override_of cfg t.name in
      if skips_both o
      then (s, pg)
      else if o.skip_constraints
      then (set_completed now id 0 0 s, pg)
      else end_job id s (w.create_fk_and_other_constraints t pg)

  -- Pass 2.
  unfoldable pub second_pass : List (Text × Table) → List Job → Store → Pg → Store × Pg
  unfolding second_job
  second_pass tables [] s pg = (s, pg)
  second_pass tables (j ∷ js) s pg =
      let (t, after) = second_job j.id s pg (lookup j.table_name tables) in
      second_pass tables js t after

  -- executeConstraints; an error of a statement is kept in the job, and the phase goes on.
  unfoldable pub execute_constraints : Text → MigrationPlan → Store → Pg → Store × Pg
  unfolding first_pass second_pass
  execute_constraints run plan s pg =
      let tables = table_map [] plan.constraint_order in
      let jobs = get_pending_jobs run (codes "constraints") s in
      let (t, after) = first_pass tables jobs s pg in second_pass tables jobs t after
