-- ===== src/Engine/Run/Resume.antt =====
-- Resume of internal/migration/engine.go: the phases that it runs again. Unlike Run it leaves the
-- writer as NewWriter makes it.
use existora2pg.Config.{Config}
use existora2pg.Ddl.{convert_name, convert_table_name}
use existora2pg.Engine.Constraints.{execute_constraints}
use existora2pg.Engine.Resume.{prepare_resume}
use existora2pg.Engine.Run.{Outside, Extracted, extracted, failed, run_plan, writer_of}
use existora2pg.Engine.Wiring.{constraint_writer}
use existora2pg.JobStore.{Store, get_latest_run_id}
use existora2pg.Plan.{MigrationPlan}
use existora2pg.Schema.{Table}
use existora2pg.Writer.{Writer, new_writer, set_naming, target_table_ident, target_name}
use existora2pg.Writer.Statements.{truncate_table}
use existora2pg.Prelude.Dict.{lookup}
use existora2pg.Prelude.{
  arith, ◌∙◌, ℕ, ◌≡◌, ◌≢◌, refl, sym, Bool, true, false, not, Text, codes, text_eq, to_lower, List,
  [], ◌∷◌, Option, none, some, is_some, if◌then◌else◌,
}

-- How Resume fails.
pub data ResumeError : Type 0 where
  no_run : ResumeError
  at_extract : Text → ResumeError
  at_data : Text → ResumeError

module _ {Pg : Type 0} (out : Outside Pg) (cfg : Config) (now : ℕ) where
  -- The writer of Resume.
  abbrev pub resume_writer : Writer
  resume_writer = new_writer cfg.postgres.schema

  -- The truncations of resetFailedChunkedTables that succeeded.
  unfoldable pub truncated : List Text → Pg → Pg
  unfolding truncate_table
  truncated [] pg = pg
  truncated (t ∷ ts) pg = truncated ts (truncate_table out.pool resume_writer t pg).0

  abbrev pub truncates : Pg → Text → Bool
  unfolding truncate_table
  truncates pg name = not (is_some (truncate_table out.pool resume_writer name pg).1)

  abbrev pub after_data :
      Text → MigrationPlan → Store × Pg × Option Text → Store × Pg × Option ResumeError
  unfolding execute_constraints
  after_data run plan (s, pg, some e) = (s, pg, some (at_data e))
  after_data run plan (s, pg, none) =
      let (t, after) =
        execute_constraints (constraint_writer out.pool resume_writer) cfg.migration now run plan s
          pg in
      (t, after, none)

  abbrev pub after_extract : Text → Store → Pg → Extracted → Store × Pg × Option ResumeError
  unfolding after_data run_plan
  after_extract run s pg (failed e) = (s, pg, some (at_extract e))
  after_extract run s pg (extracted m) =
      let plan = run_plan out cfg now run m in
      after_data run plan (out.data_phase run resume_writer plan s pg)

  abbrev pub after_reset :
      Store → Pg → Option Text → Option (Store × List Text) → Store × Pg × Option ResumeError
  unfolding after_extract truncated
  after_reset s pg (some run) (some (t, names)) =
      after_extract run t (truncated names pg) out.extract
  after_reset s pg _ _ = (s, pg, some no_run)

  -- Resume
  unfoldable pub resume_migration : Store → Pg → Store × Pg × Option ResumeError
  unfolding after_reset truncates prepare_resume get_latest_run_id
  resume_migration s pg =
      after_reset s pg (get_latest_run_id s) (prepare_resume (truncates pg) now s)

  resume_name : (name : Text) → convert_table_name resume_writer.naming name ≡ to_lower name
  unfolding convert_table_name convert_name lookup text_eq
  resume_name name = refl

  run_name :
      (run name : Text)
      → cfg.migration.naming_convention ≡ codes "keep_original"
      → cfg.migration.name_overrides ≡ []
      → convert_table_name (writer_of out cfg now run).naming name ≡ name
  unfolding convert_table_name convert_name lookup text_eq writer_of set_naming
  run_name run name kept plain = rw (kept, plain) refl

  run_schema : (run : Text) → (writer_of out cfg now run).pg_schema ≡ cfg.postgres.schema
  unfolding writer_of set_naming
  run_schema run = ground arith

  same_name :
      (c : Bool) (s a b : Text)
      → (if c then s ∷ a ∷ [] else a ∷ []) ≡ (if c then s ∷ b ∷ [] else b ∷ [])
      → a ≡ b
  same_name true s a b e = cc e
  same_name false s a b e = cc e

  -- With keep_original, and no overrides, no table whose name is not in lower case is copied by a
  -- resumed run to the table that the run before created and filled: Resume does not pass the naming
  -- convention to its writer, which has the one of NewWriter.
  pub resume_writer-target_table_ident :
      (run : Text) (t : Table)
      → cfg.migration.naming_convention ≡ codes "keep_original"
      → cfg.migration.name_overrides ≡ []
      → to_lower t.name ≢ t.name
      → target_table_ident resume_writer t none
        ≢ target_table_ident (writer_of out cfg now run) t none
  unfolding target_table_ident target_name convert_table_name
  resume_writer-target_table_ident run t kept plain mixed e =
      let old = rw (run_schema run, run_name run t.name kept plain) at e in
      mixed (sym (resume_name t.name) ∙ same_name _ cfg.postgres.schema _ _ old)
