-- ===== src/Engine/Data/Found.antt =====
-- The tasks that executeDataMigration of internal/migration/engine.go finds for the waiting jobs.
use existora2pg.Engine.Jobs.{start_run}
use existora2pg.JobStore.Runs.{IsPast}
use existora2pg.Config.{MigrationConfig}
use existora2pg.Engine.{task_key, job_partition_key}
use existora2pg.Engine.Data.{task_map, tasks_of, job_lookup, job_id, key_of, note_id}
use existora2pg.Engine.Keys.{IsNamed, job_key-job_partition_key}
use existora2pg.Engine.Jobs.Start.{get_pending_jobs-start_run, described, described_task}
use existora2pg.JobStore.{get_pending_jobs, Store, Job}
use existora2pg.Plan.{MigrationPlan, TableTask}
use existora2pg.Prelude.Dict.{lookup, insert, lookup-insert}
use existora2pg.Prelude.{
  subst, codes, any, Bool, ℕ, ◌≡◌, refl, sym, ap, ◌∙◌, true, false, Text, text_eq, text_eq_iff,
  text_eq_refl, List, [], ◌∷◌, Option, none, some, is_some, map, All, Pairwise, Option-cases, inl,
  inr, Bool-cases,
}

-- The keys of two tasks are different.
abbrev pub AreApart : TableTask → TableTask → Type 0
AreApart t u = text_eq (task_key u) (task_key t) ≡ false

task_map_later :
    (k : Text) (m : List (Text × TableTask)) (ts : List TableTask)
    → All (λ u. text_eq (task_key u) k ≡ false) ts
    → lookup k (task_map m ts) ≡ lookup k m
unfolding task_map
task_map_later k m [] h = refl
task_map_later k m (t ∷ ts) h =
    task_map_later k (insert (task_key t) t m) ts h.1
    ∙ rw (lookup-insert (task_key t) k t m, h.0) refl

lookup-task_map :
    (m : List (Text × TableTask)) (ts : List TableTask)
    → Pairwise AreApart ts
    → All (λ t. lookup (task_key t) (task_map m ts) ≡ some t) ts
unfolding task_map
lookup-task_map m [] h = tt
lookup-task_map m (t ∷ ts) h = (
  task_map_later (task_key t) (insert (task_key t) t m) ts h.0
      ∙ rw (lookup-insert (task_key t) (task_key t) t m, text_eq_refl (task_key t)) refl,
  lookup-task_map (insert (task_key t) t m) ts h.1,
)

-- Where the jobs are those that the plan's tasks have got, their tasks are found, in the order of
-- the plan.
tasks_of_found :
    (m : List (Text × TableTask)) (js : List Job) (ts : List TableTask)
    → map described js ≡ map described_task ts
    → All (λ t. IsNamed t.partition) ts
    → All (λ t. lookup (task_key t) m ≡ some t) ts
    → tasks_of m js ≡ ts
unfolding tasks_of
tasks_of_found m [] [] e named h = refl
tasks_of_found m [] (t ∷ ts) e named h = absurd (cc e)
tasks_of_found m (j ∷ js) [] e named h = absurd (cc e)
tasks_of_found m (j ∷ js) (t ∷ ts) e named h =
    let here : described j ≡ described_task t = cc e in
    let table : j.table_name ≡ t.table.name = ap (λ d. d.0) here in
    let part : j.partition ≡ job_partition_key t = ap (λ d. d.1) here in
    let key : key_of j ≡ task_key t = rw (table, part) (job_key-job_partition_key t named.0) in
    rw (key, h.0) (ap (λ r. t ∷ r) (tasks_of_found m js ts (cc e) named.1 h.1))

-- Each task stands under its key.
abbrev pub IsKeyed : List (Text × TableTask) → Type 0
IsKeyed m = All (λ e. task_key e.1 ≡ e.0) m

insert-IsKeyed :
    (t : TableTask) (m : List (Text × TableTask)) → IsKeyed m → IsKeyed (insert (task_key t) t m)
unfolding insert
insert-IsKeyed t [] h = (refl, tt)
insert-IsKeyed t ((k, u) ∷ m) h = elim (Bool-cases (text_eq k (task_key t))) [
  | inl same ↦ rw same (refl, h.1)
  | inr other ↦ rw other (h.0, insert-IsKeyed t m h.1)
]

pub task_map-IsKeyed :
    (m : List (Text × TableTask)) (ts : List TableTask) → IsKeyed m → IsKeyed (task_map m ts)
unfolding task_map
task_map-IsKeyed m [] h = h
task_map-IsKeyed m (t ∷ ts) h = task_map-IsKeyed (insert (task_key t) t m) ts (insert-IsKeyed t m h)

task_key-lookup :
    (m : List (Text × TableTask)) (k : Text) (t : TableTask)
    → IsKeyed m
    → lookup k m ≡ some t
    → task_key t ≡ k
unfolding lookup
task_key-lookup [] k t h e = absurd (cc e)
task_key-lookup ((i, u) ∷ m) k t h e = elim (Bool-cases (text_eq i k)) [
  | inl same ↦
      let found : u ≡ t = cc (rw same at e) in
      ap task_key (sym found) ∙ h.0 ∙ (text_eq_iff i k).0 same
  | inr other ↦ task_key-lookup m k t h.1 (rw other at e)
]

-- The keys of two jobs are different.
abbrev pub AreOther : Job → Job → Type 0
AreOther i j = text_eq (key_of j) (key_of i) ≡ false

module _ (tasks : List (Text × TableTask)) where
  abbrev pub IsFound : Job → Type 0
  IsFound j = is_some (lookup (key_of j) tasks) ≡ true

  note_id-found :
      (j : Job) (o : Option TableTask) (m : List (Text × ℕ))
      → is_some o ≡ true
      → note_id tasks j o m ≡ insert (key_of j) j.id m
  note_id-found j none m h = absurd (cc h)
  note_id-found j (some t) m h = refl

  job_lookup_later :
      (k : Text) (m : List (Text × ℕ)) (js : List Job)
      → All (λ j. text_eq (key_of j) k ≡ false) js
      → All IsFound js
      → lookup k (job_lookup tasks m js) ≡ lookup k m
  unfolding job_lookup
  job_lookup_later k m [] h found = refl
  job_lookup_later k m (j ∷ js) h found =
      job_lookup_later k (note_id tasks j (lookup (key_of j) tasks) m) js h.1 found.1
      ∙ rw
          (
            note_id-found j (lookup (key_of j) tasks) m found.0,
            lookup-insert (key_of j) k j.id m,
            h.0,
          )
          refl

  lookup-job_lookup :
      (m : List (Text × ℕ)) (js : List Job)
      → Pairwise AreOther js
      → All IsFound js
      → All (λ j. lookup (key_of j) (job_lookup tasks m js) ≡ some j.id) js
  unfolding job_lookup
  lookup-job_lookup m [] h found = tt
  lookup-job_lookup m (j ∷ js) h found = (
    job_lookup_later (key_of j) (note_id tasks j (lookup (key_of j) tasks) m) js h.0 found.1
        ∙ rw
            (
              note_id-found j (lookup (key_of j) tasks) m found.0,
              lookup-insert (key_of j) (key_of j) j.id m,
              text_eq_refl (key_of j),
            )
            refl,
    lookup-job_lookup (note_id tasks j (lookup (key_of j) tasks) m) js h.1 found.1,
  )

  map-tasks_of :
      (ids : List (Text × ℕ)) (js : List Job)
      → IsKeyed tasks
      → All IsFound js
      → All (λ j. lookup (key_of j) ids ≡ some j.id) js
      → map (job_id ids) (tasks_of tasks js) ≡ map (λ j. j.id) js
  unfolding tasks_of job_id
  map-tasks_of ids [] keyed found h = refl
  map-tasks_of ids (j ∷ js) keyed found h = elim (Option-cases (lookup (key_of j) tasks)) [
    | inl missing ↦ absurd (cc (missing, found.0))
    | inr (t, at) ↦
        let key = task_key-lookup tasks (key_of j) t keyed at in
        rw (at, key, h.0) (ap (λ r. j.id ∷ r) (map-tasks_of ids js keyed found.1 h.1))
  ]

  -- Where each job has a task, and no two have the same key, the ids that the tasks get are those of
  -- the jobs.
  pub job_id-job_lookup :
      (js : List Job)
      → IsKeyed tasks
      → Pairwise AreOther js
      → All IsFound js
      → map (job_id (job_lookup tasks [] js)) (tasks_of tasks js) ≡ map (λ j. j.id) js
  job_id-job_lookup js keyed apart found =
      map-tasks_of (job_lookup tasks [] js) js keyed found (lookup-job_lookup [] js apart found)

-- The key of a waiting job is that of its task.
key_of-described :
    (j : Job) (t : TableTask)
    → described j ≡ described_task t
    → IsNamed t.partition
    → key_of j ≡ task_key t
key_of-described j t e named =
    let table : j.table_name ≡ t.table.name = ap (λ d. d.0) e in
    let part : j.partition ≡ job_partition_key t = ap (λ d. d.1) e in
    rw (table, part) (job_key-job_partition_key t named)

IsFound-described :
    (m : List (Text × TableTask)) (js : List Job) (ts : List TableTask)
    → map described js ≡ map described_task ts
    → All (λ t. IsNamed t.partition) ts
    → All (λ t. lookup (task_key t) m ≡ some t) ts
    → All (IsFound m) js
IsFound-described m [] ts e named h = tt
IsFound-described m (j ∷ js) [] e named h = absurd (cc e)
IsFound-described m (j ∷ js) (t ∷ ts) e named h = (
  rw (key_of-described j t (cc e) named.0, h.0) refl,
  IsFound-described m js ts (cc e) named.1 h.1,
)

apart_from :
    (k : Text) (js : List Job) (ts : List TableTask)
    → map described js ≡ map described_task ts
    → All (λ t. IsNamed t.partition) ts
    → All (λ t. text_eq (task_key t) k ≡ false) ts
    → All (λ j. text_eq (key_of j) k ≡ false) js
apart_from k [] ts e named h = tt
apart_from k (j ∷ js) [] e named h = absurd (cc e)
apart_from k (j ∷ js) (t ∷ ts) e named h =
    (rw (key_of-described j t (cc e) named.0) h.0, apart_from k js ts (cc e) named.1 h.1)

AreOther-described :
    (js : List Job) (ts : List TableTask)
    → map described js ≡ map described_task ts
    → All (λ t. IsNamed t.partition) ts
    → Pairwise AreApart ts
    → Pairwise AreOther js
AreOther-described [] ts e named h = tt
AreOther-described (j ∷ js) [] e named h = absurd (cc e)
AreOther-described (j ∷ js) (t ∷ ts) e named h = (
  subst (λ k. All (λ i. text_eq (key_of i) k ≡ false) js)
      (sym (key_of-described j t (cc e) named.0))
      (apart_from (task_key t) js ts (cc e) named.1 h.0),
  AreOther-described js ts (cc e) named.1 h.1,
)

-- Where the jobs are those that the plan's tasks have got, each of them has a task, and no two have
-- the same key.
pub IsFound-AreOther :
    (js : List Job) (ts : List TableTask)
    → map described js ≡ map described_task ts
    → All (λ t. IsNamed t.partition) ts
    → Pairwise AreApart ts
    → All (IsFound (task_map [] ts)) js × Pairwise AreOther js
IsFound-AreOther js ts e named apart = (
  IsFound-described (task_map [] ts) js ts e named (lookup-task_map [] ts apart),
  AreOther-described js ts e named apart,
)

-- After Run has created its jobs, executeDataMigration hands each data task of the plan to the pool,
-- once and in the order of the plan, whatever earlier runs completed, where the run's id is a new
-- one, the clock has not been set back, partitions have names, and no two tasks have the same key.
pub tasks_of-start_run :
    (cfg : MigrationConfig) (drop_target : Bool) (plan : MigrationPlan) (created now : ℕ)
    (run hash : Text) (s t : Store)
    → any (λ j. text_eq j.run_id run) s.jobs ≡ false
    → IsPast created s.runs
    → start_run cfg drop_target plan created now run hash s ≡ some t
    → All (λ task. IsNamed task.partition) plan.data_tasks
    → Pairwise AreApart plan.data_tasks
    → tasks_of (task_map [] plan.data_tasks) (get_pending_jobs run (codes "data") t)
      ≡ plan.data_tasks
tasks_of-start_run cfg drop_target plan created now run hash s t new past e named apart =
    tasks_of_found (task_map [] plan.data_tasks) (get_pending_jobs run (codes "data") t)
      plan.data_tasks
      (get_pending_jobs-start_run cfg drop_target plan created now run hash s t new past e) named
      (lookup-task_map [] plan.data_tasks apart)
