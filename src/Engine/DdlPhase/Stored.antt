-- ===== src/Engine/DdlPhase/Stored.antt =====
-- executeDDL of internal/migration/engine.go keeps the job store valid and leaves the data jobs alone.
use existora2pg.Config.{MigrationConfig, is_skip}
use existora2pg.Engine.DdlPhase.{
  DdlWriter, StoreCalls, DdlError, stored, unless_failed, finish_job, run_job, run_jobs, apply_mode,
  execute_ddl, table_map,
}
use existora2pg.JobStore.{
  JobRow, Job, Store, update_where, has_id, set_running, set_completed, set_failed, start_row,
  complete_row, fail_row, get_pending_jobs, query, in_phase, is_waiting, scan_job,
}
use existora2pg.JobStore.Valid.{IsBefore, IsValid, Step-IsValid, starts, completes, fails}
use existora2pg.Plan.{MigrationPlan}
use existora2pg.Plan.Build.{mode_of}
use existora2pg.Prelude.Dict.{lookup}
use existora2pg.Schema.{Table}
use existora2pg.Prelude.{
  ℕ, ◌<◌, ◌≡◌, refl, ap, ◌∙◌, Bool, true, false, not, ◌&&◌, Text, codes, text_eq, text_eq_iff, List,
  [], ◌∷◌, Option, none, some, map, select, All, All-map, All-mono, Pairwise, arith, Bool-cases,
  inl, inr, if◌then◌else◌,
}

abbrev is_data : JobRow → Bool
is_data j = text_eq j.phase (codes "data")

-- No data job has this id.
abbrev NoData : ℕ → List JobRow → Type 0
NoData i = All (λ j. not (has_id i j && is_data j) ≡ true)

-- An update of another phase's job leaves the id and the phase of a row alone.
abbrev Keeps : (JobRow → JobRow) → Type 0
Keeps f = (j : JobRow) → ((f j).id ≡ j.id) × ((f j).phase ≡ j.phase)

module _ (run : Text) where
  abbrev waiting_data : JobRow → Bool
  waiting_data j = in_phase run (codes "data") j && is_waiting j.state

  ddl_not_data : (t : Text) → text_eq t (codes "ddl") ≡ true → text_eq t (codes "data") ≡ false
  unfolding text_eq
  ddl_not_data t e = rw ((text_eq_iff t (codes "ddl")).0 e) refl

  NoData-later : (j : JobRow) (ks : List JobRow) → All (λ k. j.id < k.id) ks → NoData j.id ks
  NoData-later j [] h = tt
  NoData-later j (k ∷ ks) h = (ground (arith, h.0), NoData-later j ks h.1)

  -- In a table in the order of the ids, no data job has the id of a job of the DDL phase.
  NoData-ddl :
      (js : List JobRow)
      → Pairwise IsBefore js
      → All (λ j. text_eq j.phase (codes "ddl") ≡ true → NoData j.id js) js
  NoData-ddl [] h = tt
  NoData-ddl (j ∷ js) h = (
    λ e. (
      ground (arith, ddl_not_data j.phase e),
      NoData-later j js (All-mono (IsBefore j) (λ k. j.id < k.id) (λ k b. b.0) js h.0),
    ),
    all_later js h.0 (NoData-ddl js h.1),
  )
    where
      all_later :
          (ks : List JobRow)
          → All (IsBefore j) ks
          → All (λ k. text_eq k.phase (codes "ddl") ≡ true → NoData k.id js) ks
          → All (λ k. text_eq k.phase (codes "ddl") ≡ true → NoData k.id (j ∷ js)) ks
      all_later [] b k = tt
      all_later (x ∷ ks) b k = ((λ e. (ground (arith, b.0.0), k.0 e)), all_later ks b.1 k.1)

  select-update :
      (f : JobRow → JobRow) (i : ℕ) (js : List JobRow)
      → Keeps f
      → NoData i js
      → select waiting_data (map (λ j. if has_id i j then f j else j) js) ≡ select waiting_data js
  select-update f i [] keeps h = refl
  select-update f i (j ∷ js) keeps h = elim (Bool-cases (has_id i j)) [
    | inl own ↦
        let before : waiting_data j ≡ false = ground (arith, h.0, own) in
        let after : waiting_data (f j) ≡ false = ground (arith, h.0, own, keeps j) in
        rw (own, before, after) (select-update f i js keeps h.1)
    | inr other ↦ elim (Bool-cases (waiting_data j)) [
      | inl waits ↦ rw (other, waits) (ap (λ r. j ∷ r) (select-update f i js keeps h.1))
      | inr not_so ↦ rw (other, not_so) (select-update f i js keeps h.1)
    ]
  ]

  NoData-update :
      (f : JobRow → JobRow) (i n : ℕ) (js : List JobRow)
      → Keeps f
      → NoData n js
      → NoData n (map (λ j. if has_id i j then f j else j) js)
  NoData-update f i n js keeps h =
      All-map (λ j. not (has_id n j && is_data j) ≡ true)
        (λ j. not (has_id n j && is_data j) ≡ true) _ (λ j e. ground (arith, keeps j)) js h

  -- The store is valid, and its data jobs wait as they did in the first one.
  pub record IsKept (first s : Store) : Type 0 where
    pub valid : IsValid s
    pub waiting : select waiting_data s.jobs ≡ select waiting_data first.jobs
    pub no_data : (i : ℕ) → NoData i first.jobs → NoData i s.jobs

  module _ (first : Store) where
    update-IsKept :
        (f : JobRow → JobRow) (i : ℕ) (s : Store)
        → Keeps f
        → NoData i first.jobs
        → IsValid (update_where (has_id i) f s)
        → IsKept first s
        → IsKept first (update_where (has_id i) f s)
    unfolding update_where
    update-IsKept f i s keeps h v k = record {
      valid = v;
      waiting = select-update f i s.jobs keeps (k.no_data i h) ∙ k.waiting;
      no_data = λ n m. NoData-update f i n s.jobs keeps (k.no_data n m);
    }

    start-IsKept :
        (now i : ℕ) (s : Store)
        → NoData i first.jobs
        → IsKept first s
        → IsKept first (set_running now i s)
    unfolding set_running
    start-IsKept now i s h k =
        update-IsKept (start_row now) i s (λ j. (refl, refl)) h
          (Step-IsValid s _ (starts now i) k.valid) k

    complete-IsKept :
        (now i : ℕ) (s : Store)
        → NoData i first.jobs
        → IsKept first s
        → IsKept first (set_completed now i 0 0 s)
    unfolding set_completed
    complete-IsKept now i s h k =
        update-IsKept (complete_row now 0 0) i s (λ j. (refl, refl)) h
          (Step-IsValid s _ (completes now i 0 0) k.valid) k

    fail-IsKept :
        (now i : ℕ) (msg : Text) (s : Store)
        → NoData i first.jobs
        → IsKept first s
        → IsKept first (set_failed now i msg s)
    unfolding set_failed
    fail-IsKept now i msg s h k =
        update-IsKept (fail_row now msg) i s (λ j. (refl, refl)) h
          (Step-IsValid s _ (fails now i msg) k.valid) k

    stored-IsKept :
        (o : Option Text) (s t : Store)
        → IsKept first s
        → IsKept first t
        → IsKept first (stored o s t)
    stored-IsKept none s t h k = k
    stored-IsKept (some e) s t h k = h

    module _ {Pg : Type 0} where
      unless_failed-IsKept :
          (o : Option Text) (s : Store) (pg : Pg) (next : Store × Pg × Option Text)
          → IsKept first s
          → IsKept first next.0
          → IsKept first (unless_failed o s pg next).0
      unless_failed-IsKept none s pg next h k = k
      unless_failed-IsKept (some e) s pg next h k = h

      module _ (w : DdlWriter Pg) (calls : StoreCalls) (cfg : MigrationConfig) (drop_target : Bool)
          (now : ℕ) where
        -- The rest of the loop keeps the store.
        abbrev Goes : (Store → Pg → Store × Pg × Option Text) → Type 0
        Goes rest = (u : Store) (pg : Pg) → IsKept first u → IsKept first (rest u pg).0

        finish_job-IsKept :
            (id : ℕ) (name : Text) (rest : Store → Pg → Store × Pg × Option Text) (s : Store)
            (r : Pg × Option DdlError)
            → Goes rest
            → NoData id first.jobs
            → IsKept first s
            → IsKept first (finish_job w calls cfg drop_target now id name rest s r).0
        unfolding finish_job
        finish_job-IsKept id name rest s (pg, some e) go h k =
            stored-IsKept (calls.fail_error id) s _ k (fail-IsKept now id e.1 s h k)
        finish_job-IsKept id name rest s (pg, none) go h k =
            unless_failed-IsKept (calls.end_error id) s pg _ k
              (go (set_completed now id 0 0 s) pg (complete-IsKept now id s h k))

        run_job-IsKept :
            (id : ℕ) (rest : Store → Pg → Store × Pg × Option Text) (s : Store) (pg : Pg)
            (o : Option Table)
            → Goes rest
            → NoData id first.jobs
            → IsKept first s
            → IsKept first (run_job w calls cfg drop_target now id rest s pg o).0
        unfolding run_job
        run_job-IsKept id rest s pg none go h k = go s pg k
        run_job-IsKept id rest s pg (some t) go h k =
            let mode = mode_of cfg drop_target t in
            elim (Bool-cases (is_skip mode)) [
              | inl skipped ↦ rw skipped (
                  go _ pg (stored-IsKept (calls.end_error id) s _ k (complete-IsKept now id s h k)))
              | inr created ↦ rw created (
                  unless_failed-IsKept (calls.start_error id) s pg _ k (
                    finish_job-IsKept id t.name rest (set_running now id s) (apply_mode w mode t pg)
                      go h (start-IsKept now id s h k)))
            ]

        run_jobs-IsKept :
            (tables : List (Text × Table)) (js : List Job) (s : Store) (pg : Pg)
            → All (λ j. NoData j.id first.jobs) js
            → IsKept first s
            → IsKept first (run_jobs w calls cfg drop_target now tables js s pg).0
        unfolding run_jobs
        run_jobs-IsKept tables [] s pg h k = k
        run_jobs-IsKept tables (j ∷ js) s pg h k =
            run_job-IsKept j.id (run_jobs w calls cfg drop_target now tables js) s pg
              (lookup j.table_name tables) (λ u after r. run_jobs-IsKept tables js u after h.1 r)
              h.0 k

  NoData-waiting :
      (all js : List JobRow)
      → All (λ j. text_eq j.phase (codes "ddl") ≡ true → NoData j.id all) js
      → All
          (λ j. NoData j.id all)
          (map scan_job (select (λ j. in_phase run (codes "ddl") j && is_waiting j.state) js))
  NoData-waiting all [] h = tt
  NoData-waiting all (j ∷ js) h =
      elim (Bool-cases (in_phase run (codes "ddl") j && is_waiting j.state)) [
        | inl waits ↦ rw waits (h.0 (ground (arith, waits)), NoData-waiting all js h.1)
        | inr not_so ↦ rw not_so (NoData-waiting all js h.1)
      ]

  -- executeDDL keeps the store valid and its data jobs waiting, whatever it meets.
  pub execute_ddl-IsKept :
      {Pg : Type 0} (w : DdlWriter Pg) (calls : StoreCalls) (cfg : MigrationConfig)
      (drop_target : Bool) (now : ℕ) (plan : MigrationPlan) (s : Store) (pg : Pg)
      → IsValid s
      → IsKept s (execute_ddl w calls cfg drop_target now run plan s pg).0
  unfolding execute_ddl get_pending_jobs query
  execute_ddl-IsKept w calls cfg drop_target now plan s pg v =
      let start : IsKept s s = record { valid = v; waiting = refl; no_data = λ i h. h } in
      unless_failed-IsKept s calls.query_error s pg _ start (
        run_jobs-IsKept s w calls cfg drop_target now (table_map [] plan.ddl_order)
          (get_pending_jobs run (codes "ddl") s) s pg
          (NoData-waiting s.jobs s.jobs (NoData-ddl s.jobs v.ordered)) start)
