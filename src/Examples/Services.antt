-- ===== src/Examples/Services.antt =====
-- The theorems on reads, jobs, events and connection strings at concrete inputs.
use existora2pg.Api.Broadcast.{
  subscribe, receive, deliver, snapshot, Channel, subscribe, listens, offer, send,
}
use existora2pg.Api.Broadcast.Race.{Reachable, started, receives, sends, subscribes, Reachable-send}
use existora2pg.Api.Events.{ProgressEvent, EventState}
use existora2pg.Api.Jobs.{JobResponse, aggregate_key, collect, nothing, priority}
use existora2pg.Api.Jobs.Worst.{collect-worst}
use existora2pg.Api.Mask.{mask_dsn}
use existora2pg.Api.Mask.Hidden.{mask_dsn_uri}
use existora2pg.Api.Partitions.{
  is_chunk_partition, strip_chunk_suffix, strip_chunk_suffix-job_partition_key,
}
use existora2pg.Engine.{job_partition_key}
use existora2pg.Examples.Data.{whole_departments, january, chunk_in}
use existora2pg.JobStore.{Job, JobState, new_row, scan_job}
use existora2pg.Plan.{TableTask}
use existora2pg.Prelude.Dict.{lookup}
use existora2pg.Prelude.{
  text_eq, has_prefix, contains, ℕ, ◌≡◌, ◌≤◌, refl, true, false, Text, codes, List, [], ◌∷◌, none,
  some, map, if◌then◌else◌, arith,
}

-- The fourth chunk of a partition.
abbrev january_chunk : TableTask
january_chunk = record whole_departments { partition = some january; chunk = some (chunk_in [] 3) }

strip_chunk_suffix-job_partition_key_example :
    (strip_chunk_suffix (job_partition_key january_chunk) ≡ codes "P1")
    × (is_chunk_partition (job_partition_key january_chunk) ≡ true)
strip_chunk_suffix-job_partition_key_example =
    strip_chunk_suffix-job_partition_key january_chunk refl

-- Two chunks of a table, one of which failed.
abbrev chunk_job : ℕ → JobState → Text → Job
chunk_job id state part =
    scan_job
      (record (new_row 100 id (codes "r1") (codes "HR") (codes "EMP") part (codes "data") 9) {
        state = state;
      })

abbrev chunk_jobs : List Job
chunk_jobs =
    chunk_job 1 JobState.failed (codes "chunk:0")
    ∷ chunk_job 2 JobState.running (codes "chunk:1")
    ∷ []

collect-worst_example :
    (a : JobResponse) × (lookup
        (aggregate_key (chunk_job 1 JobState.failed (codes "chunk:0")))
        (collect chunk_jobs nothing).aggregated
      ≡ some a)
    × (5 ≤ priority a.state)
    × (priority a.state ≤ 5)
unfolding is_chunk_partition contains has_prefix
collect-worst_example =
    collect-worst chunk_jobs 0 5 (chunk_job 1 JobState.failed (codes "chunk:0")) refl refl
      (λ _ _. omega arith, (λ _ _. omega arith, tt))

abbrev event : EventState → ℕ → Text → ProgressEvent
event state rows partition = record {
  table = codes "EMP";
  partition = partition;
  rows = rows;
  speed = 0;
  percent = none;
  state = state;
  duration_ms = 0;
  read_time_ms = 0;
  write_time_ms = 0;
  read_pct = 0;
  write_pct = 0;
  batches = 0;
  avg_batch_ms = 0;
}

-- A listener of the project p1.
abbrev listener : List Channel
listener = record { project = codes "p1"; subscribed = true; closed = false; buffer = [] } ∷ []

listener-Reachable : Reachable listener
unfolding subscribe receive send deliver snapshot text_eq
listener-Reachable =
    receives 0
      (sends (codes "p1") (event EventState.completed 0 []) (subscribes (codes "p1") started) refl)

Reachable-send_example :
    send (codes "p1") (event EventState.running 0 []) listener
    ≡ some (
        map
          (λ c. if listens (codes "p1") c then offer (event EventState.running 0 []) c else c)
          listener)
Reachable-send_example =
    Reachable-send listener (codes "p1") (event EventState.running 0 []) listener-Reachable

mask_dsn_uri_example :
    mask_dsn (codes "postgresql://hr:secret@db/main") ≡ codes "postgresql://hr:****@db/main"
mask_dsn_uri_example =
    mask_dsn_uri (codes "postgresql") (codes "hr") (codes "secret") (codes "db/main") refl refl refl
