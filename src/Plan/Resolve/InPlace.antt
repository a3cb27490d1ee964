-- ===== src/Plan/Resolve/InPlace.antt =====
-- The resolution of internal/migration/plan.go on a plan with tables of one kind.
use existora2pg.Chunker.{Session}
use existora2pg.Plan.Topo.{topo_sort_tables}
use existora2pg.Plan.Resolve.Splice.{splice_middle}
use existora2pg.Plan.Tasks.{single_task}
use existora2pg.Plan.{MigrationPlan, ChunkableTask, TableTask, PartitionChunkTask}
use existora2pg.Schema.{Schema, Table}
use existora2pg.Config.{is_skip, override_of, TableOverride, MigrationConfig}
use existora2pg.Plan.HighValue.{Floats}
use existora2pg.Plan.Resolve.{
  rowid_chunking, hash_chunking, Estimator, resolve_partition_chunks, resolve_chunks,
  resolve_ora_hash_chunks, resolve_chunkable, Chunking,
}
use existora2pg.Plan.Build.{
  build_plan, plan_partitioned, mode_of, plan_whole, append_part, setting_or, Part, plan_tables,
  plan_table,
}
use existora2pg.Prelude.{
  not, select, Option, ap, Option-cases, refl, inr, inl, some, none, append_assoc, ◌∙◌, arith,
  length-append, ◌⊎◌, subst, [], append-nil, ◌+◌, ◌++◌, sym, ◌≡◌, length, ◌∷◌, List, Bool, ℕ,
}

abbrev pub repl_or : List TableTask → Option (List TableTask) → List TableTask
repl_or tasks none = tasks
repl_or tasks (some repl) = repl

module _ (fl : Floats) (cfg : MigrationConfig) (drop_target : Bool) where
  abbrev part_at : Table → ℕ → Part
  part_at t n = plan_table fl cfg drop_target t n

  -- What the tables contribute, with `n` tasks planned before them.
  tasks_from : ℕ → List Table → List TableTask
  tasks_from n [] = []
  tasks_from n (t ∷ ts) = (part_at t n).tasks ++ tasks_from (n + length (part_at t n).tasks) ts

  chunkable_from : ℕ → List Table → List ChunkableTask
  chunkable_from n [] = []
  chunkable_from n (t ∷ ts) =
      (part_at t n).chunkable ++ chunkable_from (n + length (part_at t n).tasks) ts

  partitioned_from : ℕ → List Table → List PartitionChunkTask
  partitioned_from n [] = []
  partitioned_from n (t ∷ ts) =
      (part_at t n).partitioned ++ partitioned_from (n + length (part_at t n).tasks) ts

  -- The data of a plan after the loop.
  record Grown (n : ℕ) (ts : List Table) (before after : MigrationPlan) : Type 0 where
    data_tasks : after.data_tasks ≡ before.data_tasks ++ tasks_from n ts
    chunkable_tasks : after.chunkable_tasks ≡ before.chunkable_tasks ++ chunkable_from n ts
    partition_chunk_tables :
        after.partition_chunk_tables ≡ before.partition_chunk_tables ++ partitioned_from n ts

  plan_tables-Grown :
      (ts : List Table) (plan : MigrationPlan)
      → Grown (length plan.data_tasks) ts plan (plan_tables fl cfg drop_target ts plan)
  unfolding plan_tables tasks_from chunkable_from partitioned_from
  plan_tables-Grown [] plan = record {
    data_tasks = sym (append-nil plan.data_tasks);
    chunkable_tasks = sym (append-nil plan.chunkable_tasks);
    partition_chunk_tables = sym (append-nil plan.partition_chunk_tables);
  }
  plan_tables-Grown (t ∷ ts) plan =
      let n = length plan.data_tasks in
      let p = part_at t n in
      let next = append_part fl cfg drop_target plan p in
      let ih : Grown (n + length p.tasks) ts next (plan_tables fl cfg drop_target ts next) =
        subst (λ m. Grown m ts next (plan_tables fl cfg drop_target ts next))
          (length-append plan.data_tasks p.tasks) (plan_tables-Grown ts next) in
      record {
        data_tasks =
            ih.data_tasks
            ∙ append_assoc plan.data_tasks p.tasks (tasks_from (n + length p.tasks) ts);
        chunkable_tasks =
            ih.chunkable_tasks
            ∙ append_assoc plan.chunkable_tasks p.chunkable
                (chunkable_from (n + length p.tasks) ts);
        partition_chunk_tables =
            ih.partition_chunk_tables
            ∙ append_assoc plan.partition_chunk_tables p.partitioned
                (partitioned_from (n + length p.tasks) ts);
      }

  -- The chunkable record that a table may leave at place `n`, and its placeholder.
  abbrev override_at : Table → TableOverride
  override_at t = override_of cfg t.name

  abbrev size_at : Table → ℕ
  size_at t =
      setting_or (override_at t).chunk_size (setting_or (override_at t).batch_size cfg.batch_size)

  abbrev chunkable_at : Table → ℕ → ChunkableTask
  chunkable_at t n = record {
    table = t;
    override = override_at t;
    chunk_size = size_at t;
    placeholder_idx = n;
  }

  abbrev placeholder : Table → TableTask
  placeholder t = single_task t (override_at t) (mode_of cfg drop_target t) none

  whole_cases :
      (t : Table) (n : ℕ)
      → ((plan_whole fl cfg drop_target t n).chunkable ≡ [])
          × (plan_whole fl cfg drop_target t n ≡ plan_whole fl cfg drop_target t 0)
        ⊎ ((plan_whole fl cfg drop_target t n).chunkable ≡ chunkable_at t n ∷ [])
          × ((plan_whole fl cfg drop_target t n).tasks ≡ placeholder t ∷ [])
          × ((plan_whole fl cfg drop_target t 0).chunkable ≡ chunkable_at t 0 ∷ [])
          × ((plan_whole fl cfg drop_target t 0).tasks ≡ placeholder t ∷ [])
  unfolding plan_whole
  whole_cases t n = ground arith

  partitioned_cases :
      (t : Table) (n : ℕ)
      → ((plan_partitioned fl cfg drop_target t n).chunkable ≡ [])
        × ((plan_partitioned fl cfg drop_target t n).tasks
            ≡ (plan_partitioned fl cfg drop_target t 0).tasks)
  unfolding plan_partitioned
  partitioned_cases t n = ground arith

  table_cases :
      (t : Table) (n : ℕ)
      → ((part_at t n).chunkable ≡ [])
          × ((part_at t 0).chunkable ≡ [])
          × ((part_at t n).tasks ≡ (part_at t 0).tasks)
        ⊎ ((part_at t n).chunkable ≡ chunkable_at t n ∷ [])
          × ((part_at t n).tasks ≡ placeholder t ∷ [])
          × ((part_at t 0).chunkable ≡ chunkable_at t 0 ∷ [])
          × ((part_at t 0).tasks ≡ placeholder t ∷ [])
  unfolding plan_table
  table_cases t n =
      ground (arith, whole_cases t n, whole_cases t 0, partitioned_cases t n, partitioned_cases t 0)

  -- What a table contributes in the end: the chunks that replace its placeholder, or its tasks.
  abbrev settled : Chunking → List TableTask → List ChunkableTask → List TableTask
  settled f tasks [] = tasks
  settled f tasks (ct ∷ cts) = repl_or tasks (f ct.table ct.override ct.chunk_size)

  abbrev pub table_tasks : Chunking → Table → List TableTask
  table_tasks f t = settled f (part_at t 0).tasks (part_at t 0).chunkable

  abbrev pub all_tasks : Chunking → List Table → List TableTask
  all_tasks f [] = []
  all_tasks f (t ∷ ts) = table_tasks f t ++ all_tasks f ts

  -- Resolving the record of one table behind a prefix.
  resolve_one :
      (f : Chunking) (t : Table) (pre rest : List TableTask) (cts : List ChunkableTask)
      (done : List TableTask)
      → resolve_chunkable f cts (pre ++ ((part_at t (length pre)).tasks ++ rest))
        ≡ pre ++ ((part_at t (length pre)).tasks ++ done)
      → resolve_chunkable f
          ((part_at t (length pre)).chunkable ++ cts)
          (pre ++ ((part_at t (length pre)).tasks ++ rest))
        ≡ pre ++ (table_tasks f t ++ done)
  unfolding resolve_chunkable
  resolve_one f t pre rest cts done h = elim (table_cases t (length pre)) [
    | inl (no_record, at_zero, same) ↦ rw (no_record, at_zero, ← same) h
    | inr (one, single, at_zero, single_zero) ↦
        let behind = rw single at h in
        rw (one, single, at_zero, single_zero, behind)
          (elim (Option-cases (f t (override_at t) (size_at t))) [
            | inl kept ↦ rw kept
            | inr (repl, found) ↦ rw found (splice_middle pre (placeholder t ∷ []) repl done)
          ])
  ]

  resolve_all :
      (f : Chunking) (ts : List Table) (pre : List TableTask)
      → resolve_chunkable f (chunkable_from (length pre) ts) (pre ++ tasks_from (length pre) ts)
        ≡ pre ++ all_tasks f ts
  unfolding chunkable_from tasks_from resolve_chunkable
  resolve_all f [] pre = refl
  resolve_all f (t ∷ ts) pre =
      let n = length pre in
      let tasks = (part_at t n).tasks in
      let ih = resolve_all f ts (pre ++ tasks) in
      resolve_one f t pre (tasks_from (n + length tasks) ts) (chunkable_from (n + length tasks) ts)
        (all_tasks f ts)
        (sym (
            ap (resolve_chunkable f (chunkable_from (n + length tasks) ts))
              (append_assoc pre tasks (tasks_from (n + length tasks) ts)))
          ∙ subst
              (λ m.
                resolve_chunkable f (chunkable_from m ts) ((pre ++ tasks) ++ tasks_from m ts)
                ≡ (pre ++ tasks) ++ all_tasks f ts)
              (length-append pre tasks) ih
          ∙ append_assoc pre tasks (all_tasks f ts))

  planned-in_place :
      (f : Chunking) (ts : List Table) (start : MigrationPlan)
      → start.data_tasks ≡ []
      → start.chunkable_tasks ≡ []
      → let plan = plan_tables fl cfg drop_target ts start in
        resolve_chunkable f plan.chunkable_tasks plan.data_tasks ≡ all_tasks f ts
  planned-in_place f ts start no_tasks no_records =
      let grown = plan_tables-Grown ts start in
      rw (grown.data_tasks, grown.chunkable_tasks, no_records)
        (resolve_all f ts start.data_tasks ∙ rw no_tasks)

  build_plan-in_place :
      (f : Chunking) (s : Schema)
      → let plan = build_plan fl cfg drop_target s in
        resolve_chunkable f plan.chunkable_tasks plan.data_tasks
        ≡ all_tasks f (topo_sort_tables s.tables)
  unfolding build_plan
  build_plan-in_place f s =
      let sorted = topo_sort_tables s.tables in
      planned-in_place f sorted
        (record {
          ddl_order = select (λ t. not (is_skip (mode_of cfg drop_target t))) sorted;
          data_tasks = [];
          constraint_order = [];
          sequences = s.sequences;
          chunkable_tasks = [];
          partition_chunk_tables = [];
        })
        refl refl

  -- Where no partitioned table waits for its chunks, both resolutions, by ORA_HASH and by ROWID, give
  -- the tasks of each table in turn, in the order of the sorted tables: for a table that waits, its
  -- chunks, or its single task where it is not split, and for any other table its tasks as planned.
  pub resolve_in_place :
      (session : Session) (estimate : Estimator) (workers batch_size : ℕ) (s : Schema)
      → (build_plan fl cfg drop_target s).partition_chunk_tables ≡ []
      → let plan = build_plan fl cfg drop_target s in
        let sorted = topo_sort_tables s.tables in
        ((resolve_ora_hash_chunks workers batch_size plan).data_tasks
          ≡ all_tasks (hash_chunking batch_size) sorted)
        × ((resolve_chunks session estimate
              (resolve_partition_chunks session workers batch_size plan)).data_tasks
            ≡ all_tasks (rowid_chunking session estimate) sorted)
  unfolding resolve_ora_hash_chunks resolve_chunks resolve_partition_chunks
  resolve_in_place session estimate workers batch_size s none_waits = (
    rw none_waits (build_plan-in_place (hash_chunking batch_size) s),
    rw none_waits (build_plan-in_place (rowid_chunking session estimate) s),
  )
