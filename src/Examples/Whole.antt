-- ===== src/Examples/Whole.antt =====
-- A whole run of the engine at a concrete schema, and the writer of a resumed one.
use existora2pg.Engine.Run.Ok.{IsPool, IsEnded, run_migration-NoneFailed, NoneFailed}
use existora2pg.Examples.Workers.{by_one_worker, by_one_worker-DataRun, ended_pool}
use existora2pg.Engine.Data.{tasks_of, task_map, job_lookup, job_id}
use existora2pg.Plan.{MigrationPlan}
use existora2pg.Writer.Statements.{
  create_fk_and_other_constraints, create_indexes_raw, create_primary_key, convert_to_logged,
  drop_first, create_table,
}
use existora2pg.Engine.Wiring.{constraint_writer, ddl_writer}
use existora2pg.Plan.Count.{partition_chunk_count}
use existora2pg.Plan.Interleave.{interleave_tasks_by_table}
use existora2pg.Plan.Topo.{table_of, flag, topo_sort_tables}
use existora2pg.Schema.{Schema}
use existora2pg.JobStore.Summary.{get_run_summary}
use existora2pg.Engine.Constraints.{
  skips_both, second_job, first_job, second_pass, first_pass, execute_constraints,
}
use existora2pg.Engine.DdlPhase.{StoreCalls, create, apply_mode, run_jobs, execute_ddl}
use existora2pg.Engine.Jobs.{
  completed_of, skip_if, is_fully_completed, data_spec, table_spec, create_all, job_specs,
  prev_completed, init_jobs,
}
use existora2pg.Plan.Build.{build_plan}
use existora2pg.Plan.Resolve.{resolve_ora_hash_chunks, resolve_plan}
use existora2pg.Engine.Run.Waits.{NoneWaits}
use existora2pg.Engine.Run.Resume.{resume_writer-target_table_ident, resume_writer}
use existora2pg.Engine.Validation.{validate_table}
use existora2pg.Config.{resolve_index_mode, resolve_target_mode, override_of, Config}
use existora2pg.Engine.Validation.Phase.{
  validate_jobs, analyze, execute_validation, copied_rows, outcome_of,
}
use existora2pg.Writer.{Writer, target_table_ident}
use existora2pg.Ddl.Statements.{pk_statement}
use existora2pg.Engine.Run.{
  run_plan, create_sequences, to_logged, validated, summed_up, after_data, after_ddl, after_init,
  after_extract, after_create, RunError, run_migration, writer_of, extracted, Outside,
}
use existora2pg.Engine.{
  task_key, job_key, add_chunk_key, rows_expected, add_chunk, job_partition_key,
}
use existora2pg.Prelude.Dict.{insert, lookup}
use existora2pg.Prelude.{
  ◌∙◌, ap, subst, some, text_eq_iff, Option, false, ◌≢◌, ℕ, true, Text, to_lower, refl, ◌≡◌,
  text_eq, none, [], ◌∷◌, codes,
}
use existora2pg.JobStore.{
  get_completed_partitions, create_job, get_latest_run_id, create_run, init_schema,
  get_jobs_by_phase, new_row, query, set_running, get_pending_jobs, set_completed, Store,
}
use existora2pg.Examples.Data.{
  open_pool, config, forty_rows, no_floats, no_session, departments, table_with, one_table_plan,
}

abbrev kept_config : Config
kept_config = record config {
  migration = record config.migration { naming_convention = codes "keep_original" };
}

abbrev hr : Schema
hr = record {
  owner = codes "HR";
  tables = departments ∷ [];
  sequences = [];
  views = [];
  materialized_views = [];
  triggers = [];
  procedures = [];
}

abbrev no_errors : StoreCalls
no_errors = record {
  query_error = none;
  start_error = λ id. none;
  end_error = λ id. none;
  fail_error = λ id. none;
}

abbrev outside : Outside ℕ
outside = record {
  extract = extracted hr;
  session = no_session;
  estimate = λ owner table. none;
  floats = no_floats;
  pool = open_pool;
  counts = λ w pg. forty_rows;
  count_error = λ t. [];
  parse = λ t. none;
  ddl_calls = no_errors;
  data_phase = λ run w plan s pg. (by_one_worker run plan s, pg, none);
}

outside-IsPool : IsPool outside config 101 (codes "r1")
outside-IsPool = record {
  ends = λ plan s t pg after e.
      let (gs, ran) = by_one_worker-DataRun (codes "r1") plan s in
      subst (IsEnded outside config 101 (codes "r1") plan s) (ap (λ r. r.0) e)
        (record { pool = ended_pool gs; ran = ran; over = refl; lasting = refl; clean = refl });
}

-- "sales" is not "SALES".
sales_upper : to_lower (codes "SALES") ≢ codes "SALES"
unfolding to_lower text_eq
sales_upper e =
    let h : false ≡ true = (text_eq_iff (to_lower (codes "SALES")) (codes "SALES")).1 e in cc h

resume_writer-target_table_ident_example :
    target_table_ident
      (resume_writer outside kept_config 7)
      (table_with (codes "SALES") [] none 4)
      none
    ≢ target_table_ident
        (writer_of outside kept_config 7 (codes "r1"))
        (table_with (codes "SALES") [] none 4)
        none
resume_writer-target_table_ident_example =
    resume_writer-target_table_ident outside kept_config 7 (codes "r1")
      (table_with (codes "SALES") [] none 4) refl refl sales_upper

-- The plan of the run.
planned : run_plan outside config 101 (codes "r1") hr ≡ one_table_plan
unfolding run_plan resolve_plan build_plan resolve_ora_hash_chunks topo_sort_tables flag table_of
    insert text_eq resolve_target_mode override_of interleave_tasks_by_table partition_chunk_count
planned = refl

-- The store with the run, and with its jobs.
abbrev created_store : Store
created_store = record {
  runs = record { id = codes "r1"; config_hash = codes "c"; created_at = 100 } ∷ [];
  jobs = [];
  next_id = 1;
}

abbrev with_jobs : Store
with_jobs = record created_store {
  jobs =
      new_row 101 1 (codes "r1") (codes "HR") (codes "DEPT") [] (codes "ddl") 0
      ∷ new_row 101 2 (codes "r1") (codes "HR") (codes "DEPT") [] (codes "data") 4
      ∷ new_row 101 3 (codes "r1") (codes "HR") (codes "DEPT") [] (codes "constraints") 0
      ∷ new_row 101 4 (codes "r1") (codes "HR") (codes "DEPT") [] (codes "validate") 0
      ∷ [];
  next_id = 5;
}

made : create_run 100 (codes "r1") (codes "c") init_schema ≡ some created_store
unfolding create_run
made = refl

entered :
    init_jobs config.migration true one_table_plan
      (prev_completed created_store)
      101
      (codes "r1")
      created_store
    ≡ some with_jobs
unfolding init_jobs job_specs create_all skip_if table_spec data_spec is_fully_completed
    completed_of create_run create_job prev_completed get_latest_run_id job_partition_key add_chunk
    text_eq resolve_target_mode override_of rows_expected get_completed_partitions
entered = refl

abbrev run_writer : Writer
run_writer = writer_of outside config 101 (codes "r1")

abbrev with_table : Store
with_table = set_completed 101 1 0 0 (set_running 101 1 with_jobs)

created_table :
    execute_ddl
      (ddl_writer open_pool run_writer)
      no_errors
      config.migration
      true
      101
      (codes "r1")
      one_table_plan
      with_jobs
      0
    ≡ (with_table, 2, none)
unfolding execute_ddl ddl_writer run_jobs insert lookup text_eq get_pending_jobs query create_table
    drop_first apply_mode create resolve_target_mode override_of
created_table = refl

abbrev with_rows : Store
with_rows = set_completed 8 2 4 0 (set_running 7 2 with_table)

copied :
    outside.data_phase (codes "r1") run_writer one_table_plan with_table 2 ≡ (with_rows, 2, none)
unfolding get_pending_jobs query text_eq set_completed set_running tasks_of task_map job_lookup
    job_id lookup insert task_key job_key add_chunk_key
copied = refl

logged : to_logged outside config 101 (codes "r1") one_table_plan 2 ≡ 3
unfolding to_logged convert_to_logged
logged = refl

abbrev with_keys : Store
with_keys = set_completed 101 3 0 0 (set_running 101 3 with_rows)

keyed :
    execute_constraints
      (constraint_writer open_pool run_writer)
      config.migration
      101
      (codes "r1")
      one_table_plan
      with_rows
      3
    ≡ (with_keys, 3)
unfolding execute_constraints get_pending_jobs query text_eq lookup insert override_of
    constraint_writer set_completed set_running first_pass second_pass first_job second_job
    skips_both resolve_index_mode create_primary_key create_indexes_raw
    create_fk_and_other_constraints pk_statement
keyed = refl

abbrev run_store : Store
run_store = set_completed 101 4 40 0 (set_running 101 4 with_keys)

counted : validated outside config 101 (codes "r1") one_table_plan (with_keys, 3) ≡ (run_store, 4)
unfolding validated execute_validation get_pending_jobs query text_eq set_completed set_running
    analyze validate_jobs outcome_of validate_table override_of get_jobs_by_phase copied_rows
counted = refl

summed : summed_up outside config 101 (codes "r1") (run_store, 4) ≡ (run_store, 4, none)
unfolding summed_up get_run_summary text_eq set_completed set_running
summed = refl

abbrev r1 : Text
r1 = codes "r1"

-- The end of a run behind its constraint phase.
abbrev behind_keys : Store × ℕ → Store × ℕ × Option RunError
behind_keys r =
    summed_up outside config 101 r1 (validated outside config 101 r1 one_table_plan (r.0, r.1))

abbrev keys_on : ℕ → Store × ℕ
keys_on pg =
    execute_constraints (constraint_writer open_pool run_writer) config.migration 101 r1
      one_table_plan with_rows pg

abbrev behind_plan : MigrationPlan → Store × ℕ × Option RunError
behind_plan plan =
    after_init outside config 101 r1 plan created_store 0
      (init_jobs config.migration true plan (prev_completed created_store) 101 r1 created_store)

run_ended : run_migration outside config 101 r1 100 (codes "c") init_schema 0 ≡ (run_store, 4, none)
unfolding run_migration after_create after_extract after_init after_ddl after_data create_sequences
run_ended =
    ap (after_create outside config 101 r1 init_schema 0) made
    ∙ ap behind_plan planned
    ∙ ap (after_init outside config 101 r1 one_table_plan created_store 0) entered
    ∙ ap (after_ddl outside config 101 r1 one_table_plan) created_table
    ∙ ap (after_data outside config 101 r1 one_table_plan) copied
    ∙ ap (λ pg. behind_keys (keys_on pg)) logged
    ∙ ap behind_keys keyed
    ∙ ap (summed_up outside config 101 r1) counted
    ∙ summed

run_migration-NoneFailed_example :
    NoneFailed (codes "r1") run_store × NoneWaits (codes "r1") (codes "data") run_store
unfolding run_plan resolve_plan build_plan resolve_ora_hash_chunks topo_sort_tables flag table_of
    insert text_eq resolve_target_mode override_of interleave_tasks_by_table partition_chunk_count
run_migration-NoneFailed_example =
    run_migration-NoneFailed outside config 101 (codes "r1") 100 (codes "c") hr init_schema
      run_store 0 4 outside-IsPool refl (record { named = (tt, tt); apart = (tt, tt) })
      (record { ordered = tt; below_next = tt }) refl tt run_ended
