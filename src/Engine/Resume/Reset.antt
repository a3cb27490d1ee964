-- ===== src/Engine/Resume/Reset.antt =====
-- resetFailedChunkedTables of internal/migration/engine.go on a run without keys "chunk:…".
use existora2pg.Engine.Resume.{is_chunk_job, reset_tables, reset_failed_chunked_tables}
use existora2pg.JobStore.{Store, Job, get_jobs_by_phase}
use existora2pg.Prelude.{
  ℕ, Bool, false, Text, codes, List, [], ◌∷◌, ◌≡◌, refl, any, select, ||-eq_false,
}
use existora2pg.Prelude.Groups.{group_by}

select-no_chunks : (js : List Job) → any is_chunk_job js ≡ false → select is_chunk_job js ≡ []
select-no_chunks [] h = refl
select-no_chunks (j ∷ js) h =
    let (here, later) = ||-eq_false (is_chunk_job j) (any is_chunk_job js) h in
    rw here (select-no_chunks js later)

-- Where no data job of the run has a partition key that starts with "chunk:" (the key of a chunk of
-- a partition starts with the name of the partition), no job changes and no table is truncated,
-- also if such chunks wait to be retried.
pub reset_failed_chunked_tables_no_chunks :
    (truncates : Text → Bool) (now : ℕ) (run : Text) (s : Store)
    → any is_chunk_job (get_jobs_by_phase run (codes "data") s) ≡ false
    → reset_failed_chunked_tables truncates now run s ≡ (s, [])
unfolding reset_failed_chunked_tables reset_tables group_by
reset_failed_chunked_tables_no_chunks truncates now run s h =
    rw (select-no_chunks (get_jobs_by_phase run (codes "data") s) h) refl
