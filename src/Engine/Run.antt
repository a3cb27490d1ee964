-- ===== src/Engine/Run.antt =====
-- Run of internal/migration/engine.go: the phases one after the other. The clock stands still within
-- a phase; the jobs that an error of initJobs leaves behind are not in the store that is returned.
pub mod Ok
pub mod Waits
pub mod Resume
use existora2pg.Chunker.{Session}
use existora2pg.Config.{Config}
use existora2pg.Engine.Constraints.{execute_constraints}
use existora2pg.Engine.DdlPhase.{StoreCalls, execute_ddl}
use existora2pg.Engine.Jobs.{init_jobs, prev_completed}
use existora2pg.Engine.Validation.{Counts}
use existora2pg.Engine.Validation.Phase.{execute_validation}
use existora2pg.Engine.Wiring.{ddl_writer, constraint_writer}
use existora2pg.JobStore.{Store, create_run}
use existora2pg.JobStore.Summary.{get_run_summary}
use existora2pg.Plan.{MigrationPlan}
use existora2pg.Plan.Build.{build_plan}
use existora2pg.Plan.HighValue.{Floats}
use existora2pg.Plan.Resolve.{Estimator, resolve_plan}
use existora2pg.Schema.{Schema, Sequence}
use existora2pg.Writer.{PgPool, Writer, new_writer, set_unlogged, set_naming}
use existora2pg.Writer.Statements.{create_sequence, convert_to_logged}
use existora2pg.Prelude.{
  ℕ, Bool, true, false, Text, List, [], ◌∷◌, Option, none, some, ltb, map, if◌then◌else◌,
}

-- The answer of the extractor.
pub data Extracted : Type 0 where
  extracted : Schema → Extracted
  failed : Text → Extracted

-- How Run fails.
pub data RunError : Type 0 where
  at_create_run : RunError
  at_extract : Text → RunError
  at_init_jobs : RunError
  at_ddl : Text → RunError
  at_data : Text → RunError
  jobs_failed : ℕ → RunError

-- What stands outside of the engine: the extractor, the session that computes chunks, the estimates
-- of rows, float64, the pool of connections, the counts that the validation asks for, the times of
-- the store, how its calls end in the DDL phase, and the data phase, whose workers may take turns in any way.
pub record Outside (Pg : Type 0) : Type 1 where
  pub extract : Extracted
  pub session : Session
  pub estimate : Estimator
  pub floats : Floats
  pub pool : PgPool Pg
  pub counts : Writer → Pg → Counts
  pub count_error : Text → Text
  pub parse : ℕ → Option ℕ
  pub ddl_calls : StoreCalls
  pub data_phase : Text → Writer → MigrationPlan → Store → Pg → Store × Pg × Option Text

module _ {Pg : Type 0} (out : Outside Pg) (cfg : Config) (now : ℕ) (run : Text) where
  -- The writer of the run.
  unfoldable pub writer_of : Writer
  unfolding set_naming
  writer_of =
      set_naming
        (record {
          convention = cfg.migration.naming_convention;
          type_overrides = cfg.migration.type_overrides;
          name_overrides = cfg.migration.name_overrides;
        })
        (set_unlogged cfg.postgres.unlogged (new_writer cfg.postgres.schema))

  unfoldable pub run_plan : Schema → MigrationPlan
  unfolding resolve_plan build_plan
  run_plan s =
      resolve_plan out.session out.estimate cfg.migration
        (build_plan out.floats cfg.migration cfg.postgres.drop_target s)

  -- Phase 5.5; its errors are logged only.
  unfoldable pub to_logged : MigrationPlan → Pg → Pg
  unfolding convert_to_logged
  to_logged plan pg =
      if cfg.postgres.unlogged
      then (convert_to_logged out.pool writer_of (map (λ t. t.name) plan.ddl_order) pg).0
      else pg

  -- Phase 7; its errors are logged only.
  unfoldable pub create_sequences : List Sequence → Pg → Pg
  unfolding create_sequence
  create_sequences [] pg = pg
  create_sequences (q ∷ qs) pg = create_sequences qs (create_sequence out.pool writer_of q pg).0

  -- The end of Run, by the summary.
  unfoldable pub summed_up : Store × Pg → Store × Pg × Option RunError
  unfolding get_run_summary
  summed_up (s, pg) =
      let n = (get_run_summary out.parse run s).failed in
      (s, pg, if ltb 0 n then some (jobs_failed n) else none)

  -- Phase 8.
  unfoldable pub validated : MigrationPlan → Store × Pg → Store × Pg
  unfolding execute_validation
  validated plan (s, pg) =
      if cfg.migration.validate_after
      then execute_validation out.pool writer_of (out.counts writer_of) out.count_error
          cfg.migration now run plan s pg
      else (s, pg)

  -- The phases behind the data phase.
  unfoldable pub after_data :
      MigrationPlan → Store × Pg × Option Text → Store × Pg × Option RunError
  unfolding to_logged execute_constraints create_sequences validated summed_up
  after_data plan (s, pg, some e) = (s, pg, some (at_data e))
  after_data plan (s, pg, none) =
      let (t, after) =
        execute_constraints (constraint_writer out.pool writer_of) cfg.migration now run plan s
          (to_logged plan pg) in
      summed_up (validated plan (t, create_sequences plan.sequences after))

  unfoldable pub after_ddl : MigrationPlan → Store × Pg × Option Text → Store × Pg × Option RunError
  unfolding after_data
  after_ddl plan (s, pg, some e) = (s, pg, some (at_ddl e))
  after_ddl plan (s, pg, none) = after_data plan (out.data_phase run writer_of plan s pg)

  unfoldable pub after_init :
      MigrationPlan → Store → Pg → Option Store → Store × Pg × Option RunError
  unfolding after_ddl execute_ddl
  after_init plan old pg none = (old, pg, some at_init_jobs)
  after_init plan old pg (some s) = after_ddl plan (
      execute_ddl (ddl_writer out.pool writer_of) out.ddl_calls cfg.migration
        cfg.postgres.drop_target now run plan s pg)

  unfoldable pub after_extract : Store → Pg → Extracted → Store × Pg × Option RunError
  unfolding after_init run_plan init_jobs prev_completed
  after_extract s pg (failed e) = (s, pg, some (at_extract e))
  after_extract s pg (extracted m) =
      after_init (run_plan m) s pg
        (init_jobs cfg.migration cfg.postgres.drop_target (run_plan m) (prev_completed s) now run s)

  unfoldable pub after_create : Store → Pg → Option Store → Store × Pg × Option RunError
  unfolding after_extract
  after_create old pg none = (old, pg, some at_create_run)
  after_create old pg (some s) = after_extract s pg out.extract

  -- Run
  unfoldable pub run_migration : ℕ → Text → Store → Pg → Store × Pg × Option RunError
  unfolding after_create create_run
  run_migration created hash s pg = after_create s pg (create_run created run hash s)
