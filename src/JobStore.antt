-- ===== src/JobStore.antt =====
-- The job store of internal/jobstore/store.go over the tables of internal/jobstore/sql/001_init.sql.
-- A table is the list of its rows in the order of insertion, which is that of `rowid`, and of `id`
-- for the jobs. A time is a number of seconds, read from the clock by the operation that stores it.
-- A Go error of an operation is `none`. SQLite does not enforce the foreign keys (the pragma is off).
pub mod Summary
pub mod Valid
pub mod Retry
pub mod Runs
use existora2pg.Prelude.{
  ℕ, suc, ◌+◌, Option, none, some, Bool, true, false, ◌&&◌, ◌||◌, not, List, [], ◌∷◌, ◌++◌, map,
  Text, codes, text_eq, ◌==◌, leb, any, select, count_if, is_nil, if◌then◌else◌,
}
use existora2pg.Prelude.Dict.{insert}

pub data JobState : Type 0 where
  pending : JobState
  running : JobState
  failed : JobState
  completed : JobState
  retrying : JobState
  skipped : JobState

-- A row of the table `jobs`. The counts are those of Oracle rows and of bytes.
pub record JobRow : Type 0 where
  pub id : ℕ
  pub run_id : Text
  pub table_schema : Text
  pub table_name : Text
  pub partition : Text
  pub phase : Text
  pub state : JobState
  pub rows_expected : ℕ
  pub rows_copied : ℕ
  pub bytes_copied : ℕ
  pub error_message : Option Text
  pub attempt : ℕ
  pub started_at : Option ℕ
  pub finished_at : Option ℕ
  pub created_at : ℕ
  pub updated_at : ℕ

-- What scanJobs reads of a row.
pub record Job : Type 0 where
  pub id : ℕ
  pub run_id : Text
  pub table_schema : Text
  pub table_name : Text
  pub partition : Text
  pub phase : Text
  pub state : JobState
  pub rows_expected : ℕ
  pub rows_copied : ℕ
  pub bytes_copied : ℕ
  pub error : Text
  pub attempt : ℕ
  pub started_at : Option ℕ
  pub finished_at : Option ℕ

pub record RunRow : Type 0 where
  pub id : Text
  pub config_hash : Text
  pub created_at : ℕ

-- `next_id` is the counter of AUTOINCREMENT.
pub record Store : Type 0 where
  pub runs : List RunRow
  pub jobs : List JobRow
  pub next_id : ℕ

-- The store after InitSchema on a new file.
abbrev pub init_schema : Store
init_schema = record { runs = []; jobs = []; next_id = 1 }

-- `state = ?` in SQL.
abbrev pub is_pending : JobState → Bool
is_pending pending = true
is_pending _ = false

abbrev pub is_running : JobState → Bool
is_running running = true
is_running _ = false

abbrev pub is_failed : JobState → Bool
is_failed failed = true
is_failed _ = false

abbrev pub is_completed : JobState → Bool
is_completed completed = true
is_completed _ = false

abbrev pub is_retrying : JobState → Bool
is_retrying retrying = true
is_retrying _ = false

abbrev pub is_skipped : JobState → Bool
is_skipped skipped = true
is_skipped _ = false

unfoldable pub create_run : ℕ → Text → Text → Store → Option Store
create_run now run hash s =
    if any (λ r. text_eq r.id run) s.runs
    then none
    else some (record {
      runs = s.runs ++ record { id = run; config_hash = hash; created_at = now } ∷ [];
      jobs = s.jobs;
      next_id = s.next_id;
    })

-- uq_jobs_run_table_phase
abbrev pub same_key : Text → Text → Text → Text → JobRow → Bool
same_key run table partition phase j =
    text_eq j.run_id run
    && (text_eq j.table_name table && (text_eq j.partition partition && text_eq j.phase phase))

-- The row that CreateJob inserts.
abbrev pub new_row : ℕ → ℕ → Text → Text → Text → Text → Text → ℕ → JobRow
new_row now id run schema table partition phase expected = record {
  id = id;
  run_id = run;
  table_schema = schema;
  table_name = table;
  partition = partition;
  phase = phase;
  state = pending;
  rows_expected = expected;
  rows_copied = 0;
  bytes_copied = 0;
  error_message = none;
  attempt = 0;
  started_at = none;
  finished_at = none;
  created_at = now;
  updated_at = now;
}

-- The new store and the id of the job.
unfoldable pub create_job : ℕ → Text → Text → Text → Text → Text → ℕ → Store → Option (Store × ℕ)
create_job now run schema table partition phase expected s =
    if any (same_key run table partition phase) s.jobs
    then none
    else some (
      record {
        runs = s.runs;
        jobs = s.jobs ++ new_row now s.next_id run schema table partition phase expected ∷ [];
        next_id = suc s.next_id;
      },
      s.next_id,
    )

abbrev pub text_or_empty : Option Text → Text
text_or_empty none = []
text_or_empty (some t) = t

abbrev pub scan_job : JobRow → Job
scan_job j = record {
  id = j.id;
  run_id = j.run_id;
  table_schema = j.table_schema;
  table_name = j.table_name;
  partition = j.partition;
  phase = j.phase;
  state = j.state;
  rows_expected = j.rows_expected;
  rows_copied = j.rows_copied;
  bytes_copied = j.bytes_copied;
  error = text_or_empty j.error_message;
  attempt = j.attempt;
  started_at = j.started_at;
  finished_at = j.finished_at;
}

-- SELECT … WHERE … ORDER BY id
unfoldable pub query : (JobRow → Bool) → Store → List Job
query p s = map scan_job (select p s.jobs)

abbrev pub is_waiting : JobState → Bool
is_waiting st = is_pending st || is_retrying st

abbrev pub in_phase : Text → Text → JobRow → Bool
in_phase run phase j = text_eq j.run_id run && text_eq j.phase phase

unfoldable pub get_pending_jobs : Text → Text → Store → List Job
get_pending_jobs run phase = query (λ j. in_phase run phase j && is_waiting j.state)

unfoldable pub get_jobs_by_phase : Text → Text → Store → List Job
get_jobs_by_phase run phase = query (in_phase run phase)

-- An empty table name stands for all tables.
unfoldable pub get_jobs : Text → Text → Store → List Job
get_jobs run table =
    if is_nil table
    then query (λ j. text_eq j.run_id run)
    else query (λ j. text_eq j.run_id run && text_eq j.table_name table)

-- UPDATE jobs SET … WHERE …
unfoldable pub update_where : (JobRow → Bool) → (JobRow → JobRow) → Store → Store
update_where p f s = record {
  runs = s.runs;
  jobs = map (λ j. if p j then f j else j) s.jobs;
  next_id = s.next_id;
}

-- The columns that most updates set. A time is `datetime('now')`.
abbrev pub set_state : ℕ → JobState → JobRow → JobRow
set_state now st j = record j { state = st; updated_at = now }

abbrev pub has_id : ℕ → JobRow → Bool
has_id n j = j.id == n

unfoldable pub update_state : ℕ → ℕ → JobState → Store → Store
unfolding update_where
update_state now n st = update_where (has_id n) (set_state now st)

abbrev pub start_row : ℕ → JobRow → JobRow
start_row now j = record j {
  state = running;
  started_at = some now;
  attempt = suc j.attempt;
  updated_at = now;
}

unfoldable pub set_running : ℕ → ℕ → Store → Store
unfolding update_where
set_running now n = update_where (has_id n) (start_row now)

abbrev pub complete_row : ℕ → ℕ → ℕ → JobRow → JobRow
complete_row now rows bytes j = record j {
  state = completed;
  rows_copied = rows;
  bytes_copied = bytes;
  finished_at = some now;
  updated_at = now;
}

unfoldable pub set_completed : ℕ → ℕ → ℕ → ℕ → Store → Store
unfolding update_where
set_completed now n rows bytes = update_where (has_id n) (complete_row now rows bytes)

abbrev pub skip_row : ℕ → ℕ → JobRow → JobRow
skip_row now rows j = record j {
  state = skipped;
  rows_copied = rows;
  finished_at = some now;
  updated_at = now;
}

unfoldable pub set_skipped : ℕ → ℕ → ℕ → Store → Store
unfolding update_where
set_skipped now n rows = update_where (has_id n) (skip_row now rows)

abbrev pub fail_row : ℕ → Text → JobRow → JobRow
fail_row now msg j = record j {
  state = failed;
  error_message = some msg;
  finished_at = some now;
  updated_at = now;
}

unfoldable pub set_failed : ℕ → ℕ → Text → Store → Store
unfolding update_where
set_failed now n msg = update_where (has_id n) (fail_row now msg)

-- `run_id = ? AND state IN ('FAILED', 'RUNNING')`
abbrev pub is_interrupted : Text → JobRow → Bool
is_interrupted run j = text_eq j.run_id run && (is_failed j.state || is_running j.state)

abbrev pub retry_row : ℕ → JobRow → JobRow
retry_row now j = record j { state = retrying; error_message = none; updated_at = now }

-- The new store and the number of the rows that changed.
unfoldable pub mark_failed_as_retrying : ℕ → Text → Store → Store × ℕ
unfolding update_where
mark_failed_as_retrying now run s =
    (update_where (is_interrupted run) (retry_row now) s, count_if (is_interrupted run) s.jobs)

-- ORDER BY created_at DESC, rowid DESC LIMIT 1, where `best` is the first row so far.
abbrev pub latest_from : RunRow → List RunRow → RunRow
latest_from best [] = best
latest_from best (r ∷ rs) =
    let newer = latest_from r rs in
    let older = latest_from best rs in if leb best.created_at r.created_at then newer else older

-- `none` is the error "no migration runs found".
abbrev pub latest_of : List RunRow → Option Text
latest_of [] = none
latest_of (r ∷ rs) = some (latest_from r rs).id

unfoldable pub get_latest_run_id : Store → Option Text
get_latest_run_id s = latest_of s.runs

abbrev pub is_done_data : Text → JobRow → Bool
is_done_data run j =
    text_eq j.run_id run
    && (text_eq j.phase (codes "data") && (is_completed j.state || is_skipped j.state))

-- `result[table+":"+partition] = rowsCopied`
abbrev pub completed_map : List (Text × ℕ) → List JobRow → List (Text × ℕ)
completed_map m [] = m
completed_map m (j ∷ js) =
    completed_map (insert (j.table_name ++ (b':' ∷ j.partition)) j.rows_copied m) js

unfoldable pub get_completed_partitions : Text → Store → List (Text × ℕ)
get_completed_partitions run s = completed_map [] (select (is_done_data run) s.jobs)

-- Both deletions, in one transaction.
unfoldable pub delete_run : Text → Store → Store
delete_run run s = record {
  runs = select (λ r. not (text_eq r.id run)) s.runs;
  jobs = select (λ j. not (text_eq j.run_id run)) s.jobs;
  next_id = s.next_id;
}
