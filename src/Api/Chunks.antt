-- ===== src/Api/Chunks.antt =====
-- The aggregators of pkg/api/handlers.go: the events of the chunks of a table, put together to
-- events of the table. Times are milliseconds, `none` the zero time.
pub mod Early
use existora2pg.Api.Events.{ProgressEvent, EventState}
use existora2pg.Api.Partitions.{is_chunk_partition, strip_chunk_suffix}
use existora2pg.Prelude.Dict.{lookup, insert}
use existora2pg.Prelude.{
  ℕ, zero, suc, ◌+◌, ◌-◌, ◌*◌, ◌/◌, ◌==◌, Bool, true, false, ◌&&◌, ◌||◌, not, Text, List, [], ◌∷◌,
  ◌++◌, Option, none, some, ltb, is_nil, if◌then◌else◌,
}

-- chunkTableState
pub record ChunkTable : Type 0 where
  pub table : Text
  pub partition : Text
  pub total_rows : ℕ
  pub latest_speed : ℕ
  pub chunk_rows : List (Text × ℕ)
  pub chunks_running : ℕ
  pub chunks_total : ℕ
  pub chunks_done : ℕ
  pub chunks_failed : ℕ
  pub last_emit : Option ℕ
  pub dirty : Bool

abbrev pub new_chunk_table : Text → Text → ChunkTable
new_chunk_table table partition = record {
  table = table;
  partition = partition;
  total_rows = 0;
  latest_speed = 0;
  chunk_rows = [];
  chunks_running = 0;
  chunks_total = 0;
  chunks_done = 0;
  chunks_failed = 0;
  last_emit = none;
  dirty = false;
}

abbrev pub sum_rows : List (Text × ℕ) → ℕ
sum_rows [] = 0
sum_rows ((k, n) ∷ m) = n + sum_rows m

-- All chunks that were started have ended.
abbrev pub all_done : ChunkTable → Bool
all_done st = ltb 0 st.chunks_total && st.chunks_done + st.chunks_failed == st.chunks_total

-- buildEvent
unfoldable pub build_event : ChunkTable → ProgressEvent
build_event st = record {
  table = st.table;
  partition = st.partition;
  rows = st.total_rows;
  speed = st.latest_speed;
  percent = if ltb 0 st.chunks_total then some (st.chunks_done, st.chunks_total) else none;
  state =
      if ltb 0 st.chunks_failed && all_done st
      then EventState.failed
      else if all_done st
      then EventState.completed
      else EventState.running;
  duration_ms = 0;
  read_time_ms = 0;
  write_time_ms = 0;
  read_pct = 0;
  write_pct = 0;
  batches = 0;
  avg_batch_ms = 0;
}

-- The latest rows of a chunk, and the sum over the chunks.
abbrev pub record_rows : ProgressEvent → ChunkTable → ChunkTable
record_rows e st =
    let rows = insert e.partition e.rows st.chunk_rows in
    record st { chunk_rows = rows; total_rows = sum_rows rows }

-- `if st.chunksRunning > 0 { st.chunksRunning-- }`
abbrev pub one_less : ChunkTable → ChunkTable
one_less st = record st { chunks_running = st.chunks_running - 1 }

-- The switch over the state of the event.
abbrev pub count_event : ProgressEvent → EventState → ChunkTable → ChunkTable
count_event e EventState.running st =
    if ltb 0 e.rows
    then record (record_rows e st) { latest_speed = e.speed }
    else record st { chunks_running = suc st.chunks_running; chunks_total = suc st.chunks_total }
count_event e EventState.completed st =
    let ended = one_less (record st { chunks_done = suc st.chunks_done }) in
    if ltb 0 e.rows then record_rows e ended else ended
count_event e EventState.failed st = one_less (record st { chunks_failed = suc st.chunks_failed })
count_event e EventState.stats st = st

abbrev pub is_failure : EventState → Bool
is_failure EventState.failed = true
is_failure _ = false

-- Less than a second since the last event.
abbrev pub is_recent : ℕ → Option ℕ → Bool
is_recent now none = false
is_recent now (some t) = ltb (now - t) 1000

-- An event is sent at once if all started chunks have ended or one failed, and otherwise once in a
-- second.
abbrev pub emit : ℕ → EventState → ChunkTable → ChunkTable × Option ProgressEvent
unfolding build_event
emit now state st =
    if not (all_done st) && (not (is_failure state) && is_recent now st.last_emit)
    then (record st { dirty = true }, none)
    else (record st { last_emit = some now; dirty = false }, some (build_event st))

-- The part of update behind the lookup of the state.
unfoldable pub update_table : ℕ → ProgressEvent → ChunkTable → ChunkTable × Option ProgressEvent
unfolding emit
update_table now e st = emit now e.state (count_event e e.state st)

-- The key of the state of a table or of a partition.
unfoldable pub table_key : ProgressEvent → Text
unfolding strip_chunk_suffix
table_key e =
    if is_nil (strip_chunk_suffix e.partition)
    then e.table
    else e.table ++ (b':' ∷ strip_chunk_suffix e.partition)

abbrev pub table_or_new : ProgressEvent → Option ChunkTable → ChunkTable
unfolding strip_chunk_suffix
table_or_new e none = new_chunk_table e.table (strip_chunk_suffix e.partition)
table_or_new e (some st) = st

-- chunkAggregator.update
unfoldable pub update :
    ℕ → ProgressEvent → List (Text × ChunkTable) → List (Text × ChunkTable) × Option ProgressEvent
unfolding table_key update_table table_or_new
update now e tables =
    let (st, out) = update_table now e (table_or_new e (lookup (table_key e) tables)) in
    (insert (table_key e) st tables, out)

-- chunkStatsState
pub record StatsTable : Type 0 where
  pub table : Text
  pub partition : Text
  pub total_rows : ℕ
  pub total_dur_ms : ℕ
  pub total_read_ms : ℕ
  pub total_write_ms : ℕ
  pub total_batches : ℕ
  pub count : ℕ
  pub last_emit : Option ℕ

abbrev pub new_stats_table : Text → Text → StatsTable
new_stats_table table partition = record {
  table = table;
  partition = partition;
  total_rows = 0;
  total_dur_ms = 0;
  total_read_ms = 0;
  total_write_ms = 0;
  total_batches = 0;
  count = 0;
  last_emit = none;
}

-- A quotient, and 0 for the divisor 0.
abbrev pub per : ℕ → ℕ → ℕ
per m n = if ltb 0 n then m / n else 0

abbrev pub add_stats : ProgressEvent → StatsTable → StatsTable
add_stats e st = record st {
  total_rows = st.total_rows + e.rows;
  total_dur_ms = st.total_dur_ms + e.duration_ms;
  total_read_ms = st.total_read_ms + e.read_time_ms;
  total_write_ms = st.total_write_ms + e.write_time_ms;
  total_batches = st.total_batches + e.batches;
  count = suc st.count;
}

unfoldable pub stats_event : StatsTable → ProgressEvent
stats_event st = record {
  table = st.table;
  partition = st.partition;
  rows = st.total_rows;
  speed = per (st.total_rows * 1000) st.total_dur_ms;
  percent = none;
  state = EventState.stats;
  duration_ms = st.total_dur_ms;
  read_time_ms = st.total_read_ms;
  write_time_ms = st.total_write_ms;
  read_pct = per (st.total_read_ms * 100) st.total_dur_ms;
  write_pct = per (st.total_write_ms * 100) st.total_dur_ms;
  batches = st.total_batches;
  avg_batch_ms = per st.total_write_ms st.total_batches;
}

-- The part of chunkStatsAggregator.update behind the lookup of the state.
unfoldable pub update_stats_table :
    ℕ → ProgressEvent → StatsTable → StatsTable × Option ProgressEvent
unfolding stats_event
update_stats_table now e old =
    let st = add_stats e old in
    if is_recent now st.last_emit
    then (st, none)
    else (record st { last_emit = some now }, some (stats_event st))

abbrev pub stats_or_new : ProgressEvent → Option StatsTable → StatsTable
unfolding strip_chunk_suffix
stats_or_new e none = new_stats_table e.table (strip_chunk_suffix e.partition)
stats_or_new e (some st) = st

-- chunkStatsAggregator.update
unfoldable pub update_stats :
    ℕ → ProgressEvent → List (Text × StatsTable) → List (Text × StatsTable) × Option ProgressEvent
unfolding table_key update_stats_table stats_or_new
update_stats now e tables =
    let (st, out) = update_stats_table now e (stats_or_new e (lookup (table_key e) tables)) in
    (insert (table_key e) st tables, out)
