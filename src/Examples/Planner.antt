-- ===== src/Examples/Planner.antt =====
-- The theorems on the planner at concrete inputs.
use existora2pg.Plan.Tasks.{hash_partitions, hash_tasks, parts_at}
use existora2pg.Plan.Resolve.Stale.{resolve_ora_hash_chunks_stale}
use existora2pg.Plan.Topo.{flag, table_of}
use existora2pg.Prelude.Dict.{insert}
use existora2pg.Config.{resolve_target_mode, override_of}
use existora2pg.Plan.Count.{max_chunks}
use existora2pg.Plan.Topo.{initial}
use existora2pg.Plan.Resolve.InPlace.{resolve_in_place, all_tasks}
use existora2pg.Plan.Topo.Fuel.{topo_sort_tables_enough}
use existora2pg.Plan.Topo.Order.{IsOrdered}
use existora2pg.Plan.Topo.Refs.{topo_sort_tables-IsOrdered, refs}
use existora2pg.Plan.Resolve.{
  plain_chunk_task, hash_splitting, rowid_chunking, resolve_partition_chunks, resolve_chunks,
  hash_chunking, resolve_ora_hash_chunks,
}
use existora2pg.Plan.Tasks.{ora_hash_where, parts_at, partition_tasks, hash_or_single, single_task}
use existora2pg.Plan.Merge.{merge_chunks-IsMergeOf, merge_chunks, IsMergeOf}
use existora2pg.Chunker.{hash_chunk}
use existora2pg.Examples.Data.{
  plan_of, whole_departments, february, january, departments, employees, sales, no_session,
  no_floats, config_with,
}
use existora2pg.Plan.{ChunkableTask, MigrationPlan, PartitionChunkTask, TableTask}
use existora2pg.Plan.Topo.Complete.{named-topo_sort_tables, named}
use existora2pg.Config.{TargetMode, no_override, ChunkStrategy, MigrationConfig}
use existora2pg.Plan.Topo.{topo_sort_tables, deps_of, graph_of, visit_tables}
use existora2pg.Plan.Interleave.{
  interleave_tasks_by_table-IsReordering, interleave_tasks_by_table, IsReordering,
}
use existora2pg.Plan.Build.{build_plan}
use existora2pg.Schema.{Table, Schema}
use existora2pg.Plan.Count.{partition_chunk_count_bounds, batch_or_default, partition_chunk_count}
use existora2pg.Prelude.{
  drop, range, ◌++◌, take, map, inr, none, refl, ◌<◌, ◌⊎◌, ◌∷◌, arith, some, [], false, ◌*◌,
  if◌then◌else◌, ◌+◌, ◌≡◌, codes, ℕ, ◌/◌, Text, ◌≤◌, List, text_eq,
}

partition_chunk_count_bounds_example :
    let n = partition_chunk_count 900 10 2 in
    let b = batch_or_default 10 in
    (900 ≤ b * 10) × (n ≡ 1) ⊎ (b * 10 < 900) × (2 ≤ n) × ((n ≤ 8) ⊎ (n ≤ 2 * 4)) × (n * b ≤ 900)
partition_chunk_count_bounds_example =
    partition_chunk_count_bounds 900 10 2 (ground arith) (ground arith)

merge_chunks-IsMergeOf_example :
    (1 ≤ 3 / 2)
    × IsMergeOf
        (hash_chunk 0 ∷ hash_chunk 1 ∷ hash_chunk 2 ∷ [])
        2
        (merge_chunks (hash_chunk 0 ∷ hash_chunk 1 ∷ hash_chunk 2 ∷ []) 2)
merge_chunks-IsMergeOf_example =
    merge_chunks-IsMergeOf (hash_chunk 0 ∷ hash_chunk 1 ∷ hash_chunk 2 ∷ []) 2 (omega arith)
      (omega arith)

abbrev three_tasks : List TableTask
three_tasks =
    single_task sales no_override TargetMode.recreate (some january)
    ∷ single_task sales no_override TargetMode.recreate (some february)
    ∷ whole_departments
    ∷ []

interleave_tasks_by_table-IsReordering_example :
    IsReordering (interleave_tasks_by_table three_tasks) three_tasks
interleave_tasks_by_table-IsReordering_example = interleave_tasks_by_table-IsReordering three_tasks

abbrev two_tables : List Table
two_tables = employees ∷ departments ∷ []

named-topo_sort_tables_example :
    named (codes "DEPT") (topo_sort_tables two_tables) ≡ named (codes "DEPT") two_tables
unfolding text_eq
named-topo_sort_tables_example = named-topo_sort_tables two_tables (codes "DEPT") (refl, (refl, tt))

-- Employees refer to departments.
abbrev rank_of : Text → ℕ
rank_of name = if text_eq name (codes "EMP") then 1 else 0

topo_sort_tables-IsOrdered_example :
    ((k : Text) → deps_of (graph_of two_tables) k ≡ refs k two_tables)
    × IsOrdered (graph_of two_tables) [] (topo_sort_tables two_tables)
unfolding text_eq
topo_sort_tables-IsOrdered_example =
    topo_sort_tables-IsOrdered two_tables rank_of ((inr (ground arith), tt), (tt, tt))
      (ground arith, (ground arith, tt))

topo_sort_tables_enough_example :
    (visit_tables (graph_of two_tables) (5 + 3) two_tables initial).sorted
    ≡ topo_sort_tables two_tables
topo_sort_tables_enough_example = topo_sort_tables_enough two_tables 5

abbrev hash_config : MigrationConfig
hash_config = config_with ChunkStrategy.rowid []

abbrev two_table_schema : Schema
two_table_schema = record {
  owner = codes "HR";
  tables = two_tables;
  sequences = [];
  views = [];
  materialized_views = [];
  triggers = [];
  procedures = [];
}

resolve_in_place_example :
    let plan = build_plan no_floats hash_config false two_table_schema in
    let sorted = topo_sort_tables two_tables in
    ((resolve_ora_hash_chunks 2 10 plan).data_tasks
      ≡ all_tasks no_floats hash_config false (hash_chunking 10) sorted)
    × ((resolve_chunks no_session
          (λ owner table. some 900)
          (resolve_partition_chunks no_session 2 10 plan)).data_tasks
        ≡ all_tasks no_floats hash_config false
            (rowid_chunking no_session (λ owner table. some 900))
            sorted)
unfolding build_plan topo_sort_tables flag insert text_eq table_of resolve_target_mode override_of
    partition_chunk_count max_chunks
resolve_in_place_example =
    resolve_in_place no_floats hash_config false no_session (λ owner table. some 900) 2 10
      two_table_schema refl

-- Sales has two placeholders and is split into more tasks; employees wait behind them.
abbrev waiting_sales : PartitionChunkTask
waiting_sales = record {
  table = sales;
  override = no_override;
  included_parts = 0 ∷ 1 ∷ [];
  target_mode = TargetMode.recreate;
  placeholder_idx = 0;
  placeholder_cnt = 2;
}

abbrev waiting_employees : ChunkableTask
waiting_employees = record {
  table = employees;
  override = no_override;
  chunk_size = 450;
  placeholder_idx = 2;
}

abbrev sales_places : List TableTask
sales_places = partition_tasks sales no_override TargetMode.recreate (january ∷ february ∷ [])

abbrev whole_employees : TableTask
whole_employees = single_task employees no_override TargetMode.recreate none

abbrev mixed_plan : MigrationPlan
mixed_plan = record (plan_of (sales ∷ employees ∷ []) (sales_places ++ whole_employees ∷ [])) {
  chunkable_tasks = waiting_employees ∷ [];
  partition_chunk_tables = waiting_sales ∷ [];
}

abbrev employee_chunks : List TableTask
employee_chunks =
    map (λ j. plain_chunk_task employees no_override 2 (ora_hash_where 2 j []) (hash_chunk j))
      (range 0 2)

abbrev sales_split : List TableTask
sales_split =
    hash_splitting 2 2 sales no_override TargetMode.recreate
      (parts_at (january ∷ february ∷ []) (0 ∷ 1 ∷ []))

resolve_ora_hash_chunks_stale_example :
    (resolve_ora_hash_chunks 2 2 mixed_plan).data_tasks
    ≡ take 2 sales_split ++ (employee_chunks ++ (drop 3 sales_split ++ whole_employees ∷ []))
unfolding hash_chunking hash_splitting hash_partitions hash_or_single hash_tasks parts_at
    partition_chunk_count max_chunks
resolve_ora_hash_chunks_stale_example =
    resolve_ora_hash_chunks_stale 2 2 mixed_plan waiting_sales waiting_employees sales_places
      employee_chunks whole_employees
      (record {
        tasks = refl;
        waiting_parts = refl;
        waiting = refl;
        first_place = refl;
        part_count = refl;
        second_place = refl;
      })
      refl (ground arith)
