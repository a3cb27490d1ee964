-- ===== src/Examples/Phases.antt =====
-- The theorems on the phases of a run at concrete inputs.
use existora2pg.Engine.Wiring.{constraint_writer}
use existora2pg.Engine.Wiring.Tolerant.{execute_constraints-completed, IsTolerated}
use existora2pg.Engine.Constraints.Ended.{Passes}
use existora2pg.Engine.Constraints.{execute_constraints, skips_both}
use existora2pg.Engine.DdlPhase.Kept.{KeepsRows}
use existora2pg.Engine.DdlPhase.Kept.{execute_ddl_keeps, IsUnchanged}
use existora2pg.JobStore.{
  is_completed, scan_job, query, new_row, get_pending_jobs, JobRow, set_running, set_completed,
  Store,
}
use existora2pg.Engine.Validation.Split.{validate_table_split, validate_table_iff}
use existora2pg.Prelude.Dict.{insert, lookup}
use existora2pg.Plan.Tasks.{hash_tasks}
use existora2pg.Examples.Data.{
  forty_rows, old_store, departments, plan_of, february, sales, config_with, whole_departments,
}
use existora2pg.Plan.Build.{setting_or, mode_of}
use existora2pg.Config.{
  resolve_index_mode, TargetMode, ChunkStrategy, resolve_target_mode, no_override, override_of,
  TableOverride, MigrationConfig,
}
use existora2pg.Engine.Pipeline.Once.{IsLast, process_task_once}
use existora2pg.Prelude.{
  ap, sym, contains, suc, false, arith, text_eq, true, ◌↔◌, if◌then◌else◌, refl, ◌∷◌, ◌+◌, ◌≡◌,
  codes, Bool, [], ℕ, some, none,
}
use existora2pg.Engine.DdlPhase.{StoreCalls, execute_ddl, DdlWriter}
use existora2pg.Writer.{Executed, PgPool, new_writer, already_exists, found}
use existora2pg.Engine.Pipeline.{broken, prepare, done, clean_up, attempts, process_task, Target}
use existora2pg.Engine.Validation.{mismatches, validate_table, has_partition_filter, passes}

validate_table_iff_example :
    (validate_table forty_rows [] (codes "DEPT") no_override 40 ≡ passes 40) ↔ (◌≡◌ {A = ℕ} 40 40)
unfolding has_partition_filter
validate_table_iff_example =
    validate_table_iff forty_rows [] (codes "DEPT") no_override 40 40 40 refl refl (omega arith)
      refl refl

-- Only February is migrated.
abbrev only_february : TableOverride
only_february = record no_override { partition_filter = codes "P2" ∷ [] }

validate_table_split_example :
    validate_table forty_rows
      (hash_tasks sales only_february TargetMode.recreate (some february) 4)
      (codes "SALES")
      only_february
      40
    ≡ mismatches 160 40
unfolding has_partition_filter
validate_table_split_example =
    validate_table_split forty_rows sales only_february TargetMode.recreate (some february) 4 40
      refl refl (omega arith) (omega arith) (omega arith) refl refl

-- A database that has every table, where nothing works.
abbrev full_writer : DdlWriter ℕ
full_writer = record {
  table_exists = λ name pg. found;
  create_table = λ t drop pg. (pg + 1, some (codes "no"));
  create_partitions = λ t bounds pg. (pg + 1, some (codes "no"));
  truncate_table = λ name pg. (0, none);
}

abbrev append_config : MigrationConfig
append_config =
    config_with ChunkStrategy.ora_hash
      ((codes "DEPT", record no_override { target_mode = TargetMode.append }) ∷ [])

-- A store whose SetCompleted fails, as behind a cancellation.
abbrev cut_off : StoreCalls
cut_off = record {
  query_error = none;
  start_error = λ id. none;
  end_error = λ id. some (codes "context canceled");
  fail_error = λ id. some (codes "context canceled");
}

execute_ddl_keeps_example : IsUnchanged full_writer cut_off append_config false 40 (
    execute_ddl full_writer cut_off append_config false 200
      (codes "r1")
      (plan_of (departments ∷ []) [])
      old_store
      40)
unfolding mode_of override_of resolve_target_mode lookup text_eq
execute_ddl_keeps_example =
    execute_ddl_keeps full_writer cut_off append_config false 40 200 (codes "r1")
      (plan_of (departments ∷ []) []) old_store
      (record { mode = KeepsRows.append; there = refl }, tt)

-- A target that holds a number of rows: the first copy into 0 rows breaks after 3 of 4 rows.
abbrev broken_once : Target (ℕ × Bool)
broken_once = record {
  truncate_table = λ name pg. (0, pg.1);
  truncate_partition = λ name part pg. (0, pg.1);
  copy = λ task batch pg.
      if pg.1 then ((pg.0 + 4, true), done 4 100) else ((pg.0 + 3, true), broken (codes "lost"));
}

process_task_once_example :
    (n : ℕ) × (bytes : ℕ) × IsLast broken_once whole_departments
      (setting_or whole_departments.batch_size (config_with ChunkStrategy.ora_hash []).batch_size)
      (prepare broken_once false whole_departments (0, false))
      (4, true)
      n
      bytes
    × (set_completed 200 2 4 100 (set_running 200 2 old_store)
        ≡ set_completed 200 2 n bytes (set_running 200 2 old_store))
unfolding process_task attempts clean_up prepare
process_task_once_example =
    process_task_once broken_once whole_departments (config_with ChunkStrategy.ora_hash []) 200 2
      false old_store (set_completed 200 2 4 100 (set_running 200 2 old_store)) (0, false) (4, true)
      refl

abbrev constraint_row : JobRow
constraint_row = new_row 100 1 (codes "r1") (codes "HR") (codes "DEPT") [] (codes "constraints") 0

abbrev constraint_store : Store
constraint_store = record { runs = old_store.runs; jobs = constraint_row ∷ []; next_id = 2 }

-- A pool in which every object exists.
abbrev full_pool : PgPool ℕ
full_pool = record {
  exec = λ ddl pg. (suc pg, Executed.failed (codes "relation already exists"));
  is_listed = λ schema name pg. found;
  count_query = λ query pg. some pg;
  reltuples = λ schema name pg. none;
  sanitize = λ name. name;
}

full_pool-IsTolerated : IsTolerated full_pool
unfolding already_exists contains
full_pool-IsTolerated = record {
  exists = λ ddl pg e h.
      let same : codes "relation already exists" ≡ e = cc h in sym (ap already_exists same);
}

execute_constraints-completed_example :
    Passes
      (λ job. is_completed job.state)
      1
      (execute_constraints
        (constraint_writer full_pool (new_writer []))
        (config_with ChunkStrategy.ora_hash [])
        200
        (codes "r1")
        (plan_of (departments ∷ []) [])
        constraint_store
        0).0
unfolding get_pending_jobs query skips_both override_of resolve_index_mode lookup insert text_eq
execute_constraints-completed_example =
    execute_constraints-completed full_pool (new_writer []) (config_with ChunkStrategy.ora_hash [])
      200 (codes "r1") (plan_of (departments ∷ []) []) constraint_store 0 0
      (scan_job constraint_row) departments full_pool-IsTolerated refl refl refl
