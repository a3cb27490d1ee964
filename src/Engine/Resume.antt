-- ===== src/Engine/Resume.antt =====
-- resetFailedChunkedTables and the start of Resume in internal/migration/engine.go.
pub mod Reset
use existora2pg.JobStore.{
  Store, Job, JobState, get_jobs_by_phase, get_latest_run_id, mark_failed_as_retrying, update_state,
  is_retrying,
}
use existora2pg.Prelude.{
  ℕ, Bool, Text, codes, has_prefix, List, [], ◌∷◌, Option, none, some, if◌then◌else◌, any, select,
  ◌&&◌,
}
use existora2pg.Prelude.Groups.{group_by}

-- `strings.HasPrefix(j.Partition, "chunk:")`
unfoldable pub is_chunk_job : Job → Bool
is_chunk_job j = has_prefix j.partition (codes "chunk:")

abbrev pub job_is_retrying : Job → Bool
job_is_retrying j = is_retrying j.state

-- The store, and the tables that were truncated.
abbrev pub retry_all : ℕ → List Job → Store → Store
unfolding update_state
retry_all now [] s = s
retry_all now (j ∷ js) s = retry_all now js (update_state now j.id JobState.retrying s)

module _ (truncates : Text → Bool) (now : ℕ) where
  -- The loop over the tables, where `truncates` says whether TruncateTable succeeds. Go does not fix
  -- the order of the tables; this one is that of their first chunks.
  abbrev pub reset_tables : List (Text × List Job) → Store → Store × List Text
  unfolding retry_all
  reset_tables [] s = (s, [])
  reset_tables ((name, js) ∷ groups) s =
      let kept = reset_tables groups s in
      let (t, names) = reset_tables groups (retry_all now js s) in
      if any job_is_retrying js && truncates name then (t, name ∷ names) else kept

  -- resetFailedChunkedTables
  unfoldable pub reset_failed_chunked_tables : Text → Store → Store × List Text
  unfolding is_chunk_job reset_tables
  reset_failed_chunked_tables run s =
      reset_tables
        (group_by (λ j. j.table_name) []
          (select is_chunk_job (get_jobs_by_phase run (codes "data") s)))
        s

  abbrev pub resumed : Store → Option Text → Option (Store × List Text)
  unfolding reset_failed_chunked_tables
  resumed s none = none
  resumed s (some run) =
      some (reset_failed_chunked_tables run (mark_failed_as_retrying now run s).0)

  -- Resume up to the new extraction: `none` is the error that there is no run.
  unfoldable pub prepare_resume : Store → Option (Store × List Text)
  unfolding resumed
  prepare_resume s = resumed s (get_latest_run_id s)
