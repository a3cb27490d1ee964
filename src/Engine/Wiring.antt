-- ===== src/Engine/Wiring.antt =====
-- The phases of internal/migration/engine.go with the writer of internal/postgres/writer.go.
pub mod Tolerant
use existora2pg.Engine.Constraints.{ConstraintWriter}
use existora2pg.Engine.DdlPhase.{DdlWriter}
use existora2pg.Engine.Pipeline.{Target, Copied}
use existora2pg.Plan.{TableTask}
use existora2pg.Writer.{PgPool, Writer}
use existora2pg.Writer.Statements.{
  create_table, create_partitions, create_primary_key, create_indexes_raw,
  create_fk_and_other_constraints, truncate_table, truncate_partition, table_exists,
}
use existora2pg.Prelude.{ℕ}

module _ {Pg : Type 0} (pool : PgPool Pg) (w : Writer) where
  -- What executeDDL calls.
  unfoldable pub ddl_writer : DdlWriter Pg
  unfolding create_table create_partitions truncate_table table_exists
  ddl_writer = record {
    table_exists = table_exists pool w;
    create_table = create_table pool w;
    create_partitions = create_partitions pool w;
    truncate_table = truncate_table pool w;
  }

  -- What executeConstraints calls.
  unfoldable pub constraint_writer : ConstraintWriter Pg
  unfolding create_primary_key create_indexes_raw create_fk_and_other_constraints
  constraint_writer = record {
    create_primary_key = create_primary_key pool w;
    create_indexes_raw = create_indexes_raw pool w;
    create_fk_and_other_constraints = create_fk_and_other_constraints pool w;
  }

  -- What the function of a task calls; the copy, which many steps make up, is an argument.
  unfoldable pub target : (TableTask → ℕ → Pg → Pg × Copied) → Target Pg
  unfolding truncate_table truncate_partition
  target copy = record {
    truncate_table = λ name pg. (truncate_table pool w name pg).0;
    truncate_partition = λ parent part pg. (truncate_partition pool w parent part pg).0;
    copy = copy;
  }
