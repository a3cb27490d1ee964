-- ===== src/Engine/Wiring/Tolerant.antt =====
-- The constraint phase of internal/migration/engine.go over the writer of
-- internal/postgres/writer.go, where objects exist already.
use existora2pg.Ddl.Statements.{generate_constraints}
use existora2pg.Config.{MigrationConfig, override_of}
use existora2pg.Engine.Constraints.{skips_both, execute_constraints}
use existora2pg.Engine.Constraints.Ended.{Passes, execute_constraints-Passes}
use existora2pg.Engine.DdlPhase.{table_map}
use existora2pg.Engine.Wiring.{constraint_writer}
use existora2pg.JobStore.{Store, Job, is_completed, get_pending_jobs}
use existora2pg.Plan.{MigrationPlan}
use existora2pg.Prelude.Dict.{lookup}
use existora2pg.Schema.{Table}
use existora2pg.Writer.{
  PgPool, Writer, Executed, affected, failed, already_exists, unless_exists, send_new, and_then,
  send_all_new,
}
use existora2pg.Writer.Statements.{create_fk_and_other_constraints}
use existora2pg.Prelude.{
  ◌++◌, ℕ, ◌≡◌, refl, true, false, Text, codes, List, [], ◌∷◌, Option, none, some, get_elem?,
}

module _ {Pg : Type 0} (pool : PgPool Pg) where
  -- A statement ends well, or with the error that its object exists.
  pub record IsTolerated : Type 0 where
    pub exists :
        (ddl : Text) (pg : Pg) (e : Text)
        → (pool.exec ddl pg).1 ≡ failed e
        → already_exists e ≡ true

  unless_exists-none :
      (label : Text) (r : Executed)
      → ((e : Text) → r ≡ failed e → already_exists e ≡ true)
      → unless_exists pool label r ≡ none
  unfolding unless_exists
  unless_exists-none label (affected n) h = refl
  unless_exists-none label (failed e) h = rw (h e refl) refl

  and_then-none :
      (rest : Pg → Pg × Option Text) (r : Pg × Option Text)
      → r.1 ≡ none
      → ((pg : Pg) → (rest pg).1 ≡ none)
      → (and_then pool rest r).1 ≡ none
  and_then-none rest (pg, none) e h = h pg
  and_then-none rest (pg, some m) e h = e

  send_all_new-none :
      (label : Text) (ddls : List Text) (pg : Pg)
      → IsTolerated
      → (send_all_new pool label ddls pg).1 ≡ none
  unfolding send_all_new send_new
  send_all_new-none label [] pg tolerated = refl
  send_all_new-none label (ddl ∷ ddls) pg tolerated =
      and_then-none (send_all_new pool label ddls) _
        (unless_exists-none label _ (tolerated.exists ddl pg))
        (λ q. send_all_new-none label ddls q tolerated)

  -- Where each statement ends well, or with the error that its object exists, as it may on a resumed
  -- run, each waiting job of a table of the plan, where constraints or indexes are wanted, is
  -- COMPLETED after the constraint phase.
  pub execute_constraints-completed :
      (w : Writer) (cfg : MigrationConfig) (now : ℕ) (run : Text) (plan : MigrationPlan) (s : Store)
      (pg : Pg) (i : ℕ) (j : Job) (t : Table)
      → IsTolerated
      → get_elem? (get_pending_jobs run (codes "constraints") s) i ≡ some j
      → lookup j.table_name (table_map [] plan.constraint_order) ≡ some t
      → skips_both (override_of cfg t.name) ≡ false
      → Passes
          (λ job. is_completed job.state)
          j.id
          (execute_constraints (constraint_writer pool w) cfg now run plan s pg).0
  unfolding constraint_writer create_fk_and_other_constraints
  execute_constraints-completed w cfg now run plan s pg i j t tolerated e f g =
      execute_constraints-Passes (λ job. is_completed job.state) (λ _. ⊥) (λ m rows bytes k. refl)
        (λ m msg k no. absurd no) (constraint_writer pool w) cfg now
        (λ u q m h. cc (
          h,
          send_all_new-none (codes "create constraint for " ++ u.name)
              (generate_constraints w.pg_schema w.naming u) q tolerated,
        ))
        run plan s pg i j t e f g
