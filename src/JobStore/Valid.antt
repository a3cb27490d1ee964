-- ===== src/JobStore/Valid.antt =====
-- The table `jobs` under the operations of internal/jobstore/store.go.
use existora2pg.Prelude.{
  ap, not, All-mono, subst, All-append, ℕ, suc, ◌<◌, ◌≡◌, refl, Bool, false, List, [], ◌∷◌, ◌++◌,
  some, Text, text_eq, any, All, All-map, All-select, Pairwise, Pairwise-snoc, Pairwise-select,
  Pairwise-map, Bool-cases, inl, inr, ||-eq_false, arith, if◌then◌else◌,
}
use existora2pg.JobStore.{
  retry_row, is_interrupted, fail_row, skip_row, complete_row, start_row, set_state, has_id,
  JobState, JobRow, Store, init_schema, same_key, new_row, create_run, create_job, update_where,
  update_state, set_running, set_completed, set_skipped, set_failed, mark_failed_as_retrying,
  delete_run,
}

-- Two rows in the order of insertion: the ids increase, and the unique index tells them apart.
abbrev pub IsBefore : JobRow → JobRow → Type 0
IsBefore j k = (j.id < k.id) × (same_key k.run_id k.table_name k.partition k.phase j ≡ false)

pub record IsValid (s : Store) : Type 0 where
  pub ordered : Pairwise IsBefore s.jobs
  pub below_next : All (λ j. j.id < s.next_id) s.jobs

-- One statement of the store.
pub data Step : Store → Store → Type 0 where
  creates_run :
      {s t : Store} (now : ℕ) (run hash : Text) → create_run now run hash s ≡ some t → Step s t
  creates_job :
      {s t : Store} (now : ℕ) (run schema table partition phase : Text) (expected id : ℕ)
      → create_job now run schema table partition phase expected s ≡ some (t, id)
      → Step s t
  updates : {s : Store} (now n : ℕ) (st : JobState) → Step s (update_state now n st s)
  starts : {s : Store} (now n : ℕ) → Step s (set_running now n s)
  completes : {s : Store} (now n rows bytes : ℕ) → Step s (set_completed now n rows bytes s)
  skips : {s : Store} (now n rows : ℕ) → Step s (set_skipped now n rows s)
  fails : {s : Store} (now n : ℕ) (msg : Text) → Step s (set_failed now n msg s)
  marks : {s : Store} (now : ℕ) (run : Text) → Step s (mark_failed_as_retrying now run s).0
  deletes : {s : Store} (run : Text) → Step s (delete_run run s)

-- The stores that sequences of statements lead to.
pub data Reachable : Store → Type 0 where
  created : Reachable init_schema
  next : {s t : Store} → Reachable s → Step s t → Reachable t

-- An update that leaves the id and the columns of the unique index alone.
record KeepsKey (f : JobRow → JobRow) : Type 0 where
  id : (j : JobRow) → (f j).id ≡ j.id
  run_id : (j : JobRow) → (f j).run_id ≡ j.run_id
  table_name : (j : JobRow) → (f j).table_name ≡ j.table_name
  partition : (j : JobRow) → (f j).partition ≡ j.partition
  phase : (j : JobRow) → (f j).phase ≡ j.phase

abbrev key_of : JobRow → ℕ × Text × Text × Text × Text
key_of j = (j.id, j.run_id, j.table_name, j.partition, j.phase)

keeps : {f : JobRow → JobRow} → ((j : JobRow) → key_of (f j) ≡ key_of j) → KeepsKey f
keeps h = record {
  id = λ j. ap (λ k. k.0) (h j);
  run_id = λ j. ap (λ k. k.1) (h j);
  table_name = λ j. ap (λ k. k.2) (h j);
  partition = λ j. ap (λ k. k.3) (h j);
  phase = λ j. ap (λ k. k.4) (h j);
}

KeepsKey-if :
    (p : JobRow → Bool) (f : JobRow → JobRow) → KeepsKey f → KeepsKey (λ j. if p j then f j else j)
KeepsKey-if p f h = record {
  id = λ j. elim (Bool-cases (p j)) [ inl e ↦ rw e (h.id j) | inr e ↦ rw e refl ];
  run_id = λ j. elim (Bool-cases (p j)) [ inl e ↦ rw e (h.run_id j) | inr e ↦ rw e refl ];
  table_name = λ j. elim (Bool-cases (p j)) [ inl e ↦ rw e (h.table_name j) | inr e ↦ rw e refl ];
  partition = λ j. elim (Bool-cases (p j)) [ inl e ↦ rw e (h.partition j) | inr e ↦ rw e refl ];
  phase = λ j. elim (Bool-cases (p j)) [ inl e ↦ rw e (h.phase j) | inr e ↦ rw e refl ];
}

KeepsKey-IsBefore :
    (f : JobRow → JobRow) → KeepsKey f → (j k : JobRow) → IsBefore j k → IsBefore (f j) (f k)
KeepsKey-IsBefore f h j k b =
    rw
      (
        h.id j,
        h.id k,
        h.run_id j,
        h.run_id k,
        h.table_name j,
        h.table_name k,
        h.partition j,
        h.partition k,
        h.phase j,
        h.phase k,
      )
      b

update_where-IsValid :
    (p : JobRow → Bool) (f : JobRow → JobRow) (s : Store)
    → KeepsKey f
    → IsValid s
    → IsValid (update_where p f s)
unfolding update_where
update_where-IsValid p f s h v =
    let g = KeepsKey-if p f h in
    record {
      ordered =
          Pairwise-map IsBefore (λ j. if p j then f j else j) (KeepsKey-IsBefore _ g) s.jobs
            v.ordered;
      below_next =
          All-map (λ j. j.id < s.next_id) (λ j. j.id < s.next_id) (λ j. if p j then f j else j)
            (λ j b. rw (g.id j) b) s.jobs v.below_next;
    }

All-and_any :
    (n : ℕ) (run table partition phase : Text) (js : List JobRow)
    → any (same_key run table partition phase) js ≡ false
    → All (λ j. j.id < n) js
    → All (λ j. (j.id < n) × (same_key run table partition phase j ≡ false)) js
All-and_any n run table partition phase [] e h = tt
All-and_any n run table partition phase (j ∷ js) e h =
    let (here, later) =
      ||-eq_false (same_key run table partition phase j)
        (any (same_key run table partition phase) js) e in
    ((h.0, here), All-and_any n run table partition phase js later h.1)

-- The store of a successful CreateJob.
insert_job : JobRow → Store → Store
insert_job j s = record { runs = s.runs; jobs = s.jobs ++ j ∷ []; next_id = suc s.next_id }

insert_job-IsValid :
    (j : JobRow) (s : Store)
    → j.id ≡ s.next_id
    → any (same_key j.run_id j.table_name j.partition j.phase) s.jobs ≡ false
    → IsValid s
    → IsValid (insert_job j s)
unfolding insert_job
insert_job-IsValid j s h new v = record {
  ordered =
      Pairwise-snoc IsBefore s.jobs j v.ordered
        (All-and_any j.id j.run_id j.table_name j.partition j.phase s.jobs new (rw h v.below_next));
  below_next =
      All-append (λ k. k.id < suc s.next_id) s.jobs (j ∷ [])
        (All-mono (λ k. k.id < s.next_id) (λ k. k.id < suc s.next_id) (λ k b. omega (arith, b))
          s.jobs v.below_next)
        (omega (arith, h), tt);
}

create_job-IsValid :
    (now : ℕ) (run schema table partition phase : Text) (expected : ℕ) (s t : Store) (id : ℕ)
    → create_job now run schema table partition phase expected s ≡ some (t, id)
    → IsValid s
    → IsValid t
unfolding create_job insert_job
create_job-IsValid now run schema table partition phase expected s t id e v =
    elim (Bool-cases (any (same_key run table partition phase) s.jobs)) [
      | inl taken ↦ absurd (cc (rw taken at e))
      | inr new ↦
          let j = new_row now s.next_id run schema table partition phase expected in
          let same : insert_job j s ≡ t = cc (rw new at e) in
          subst IsValid same (insert_job-IsValid j s refl new v)
    ]

create_run-IsValid :
    (now : ℕ) (run hash : Text) (s t : Store)
    → create_run now run hash s ≡ some t
    → IsValid s
    → IsValid t
unfolding create_run
create_run-IsValid now run hash s t e v = elim (Bool-cases (any (λ r. text_eq r.id run) s.runs)) [
  | inl taken ↦ absurd (cc (rw taken at e))
  | inr new ↦
      let same : record {
        runs = s.runs ++ record { id = run; config_hash = hash; created_at = now } ∷ [];
        jobs = s.jobs;
        next_id = s.next_id;
      }
          ≡ t =
        cc (rw new at e) in
      subst IsValid same (record { ordered = v.ordered; below_next = v.below_next })
]

-- Each statement keeps the tables valid.
pub Step-IsValid : (s t : Store) → Step s t → IsValid s → IsValid t
unfolding update_state set_running set_completed set_skipped set_failed mark_failed_as_retrying
    delete_run
Step-IsValid s t (creates_run now run hash e) v = create_run-IsValid now run hash s t e v
Step-IsValid s t (creates_job now run schema table partition phase expected id e) v =
    create_job-IsValid now run schema table partition phase expected s t id e v
Step-IsValid s _ (updates now n st) v =
    update_where-IsValid (has_id n) (set_state now st) s (keeps (λ _. refl)) v
Step-IsValid s _ (starts now n) v =
    update_where-IsValid (has_id n) (start_row now) s (keeps (λ _. refl)) v
Step-IsValid s _ (completes now n rows bytes) v =
    update_where-IsValid (has_id n) (complete_row now rows bytes) s (keeps (λ _. refl)) v
Step-IsValid s _ (skips now n rows) v =
    update_where-IsValid (has_id n) (skip_row now rows) s (keeps (λ _. refl)) v
Step-IsValid s _ (fails now n msg) v =
    update_where-IsValid (has_id n) (fail_row now msg) s (keeps (λ _. refl)) v
Step-IsValid s _ (marks now run) v =
    update_where-IsValid (is_interrupted run) (retry_row now) s (keeps (λ _. refl)) v
Step-IsValid s _ (deletes run) v = record {
  ordered = Pairwise-select IsBefore (λ j. not (text_eq j.run_id run)) s.jobs v.ordered;
  below_next =
      All-select (λ j. j.id < s.next_id) (λ j. not (text_eq j.run_id run)) s.jobs v.below_next;
}

-- In every store that a sequence of the operations leads to from an empty one, the ids increase
-- along the table, no two jobs agree on run, table, partition and phase, and the next id is new.
pub Reachable-IsValid : (s : Store) → Reachable s → IsValid s
Reachable-IsValid _ created = record { ordered = tt; below_next = tt }
Reachable-IsValid t (next {s} r step) = Step-IsValid s t step (Reachable-IsValid s r)
