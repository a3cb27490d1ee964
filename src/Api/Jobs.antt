-- ===== src/Api/Jobs.antt =====
-- GetJobs of pkg/api/handlers.go: the jobs of a run, with the chunks of a table or of a partition as
-- one job. Go's order of the aggregated jobs, which is that of a map, is here the order of their
-- first chunks.
pub mod Sums
pub mod Worst
use existora2pg.Api.Partitions.{is_chunk_partition, strip_chunk_suffix}
use existora2pg.JobStore.{Job, JobState}
use existora2pg.Prelude.Dict.{lookup, insert}
use existora2pg.Prelude.{
  ℕ, zero, suc, ◌+◌, Bool, true, false, ◌&&◌, not, Text, List, [], ◌∷◌, ◌++◌, Option, none, some,
  map, ltb, is_nil, if◌then◌else◌,
}

pub record JobResponse : Type 0 where
  pub id : ℕ
  pub table_name : Text
  pub partition : Text
  pub phase : Text
  pub state : JobState
  pub rows_expected : ℕ
  pub rows_copied : ℕ
  pub bytes_copied : ℕ
  pub error : Text
  pub attempt : ℕ
  pub started_at : Option ℕ
  pub finished_at : Option ℕ

-- The priorities of mergeJobState.
abbrev pub priority : JobState → ℕ
priority JobState.skipped = 0
priority JobState.completed = 1
priority JobState.pending = 2
priority JobState.retrying = 3
priority JobState.running = 4
priority JobState.failed = 5

-- mergeJobState
unfoldable pub merge_job_state : JobState → JobState → JobState
merge_job_state a b = if ltb (priority a) (priority b) then b else a

-- A time that is set and before the other one, or where the other one is not set.
abbrev pub earlier : Option ℕ → Option ℕ → Option ℕ
earlier none t = t
earlier (some s) none = some s
earlier (some s) (some t) = if ltb t s then some t else some s

abbrev pub later : Option ℕ → Option ℕ → Option ℕ
later none t = t
later (some s) none = some s
later (some s) (some t) = if ltb s t then some t else some s

-- A job that is not of a chunk.
abbrev pub plain_response : Job → JobResponse
plain_response j = record {
  id = j.id;
  table_name = j.table_name;
  partition = j.partition;
  phase = j.phase;
  state = j.state;
  rows_expected = j.rows_expected;
  rows_copied = j.rows_copied;
  bytes_copied = j.bytes_copied;
  error = j.error;
  attempt = j.attempt;
  started_at = j.started_at;
  finished_at = j.finished_at;
}

-- The aggregate that the first chunk starts.
abbrev pub new_aggregate : Job → JobResponse
unfolding strip_chunk_suffix
new_aggregate j = record {
  id = j.id;
  table_name = j.table_name;
  partition = strip_chunk_suffix j.partition;
  phase = j.phase;
  state = j.state;
  rows_expected = 0;
  rows_copied = 0;
  bytes_copied = 0;
  error = [];
  attempt = 0;
  started_at = j.started_at;
  finished_at = none;
}

-- What a chunk adds.
abbrev pub add_job : JobResponse → Job → JobResponse
unfolding merge_job_state
add_job agg j = record agg {
  rows_expected = agg.rows_expected + j.rows_expected;
  rows_copied = agg.rows_copied + j.rows_copied;
  bytes_copied = agg.bytes_copied + j.bytes_copied;
  state = merge_job_state agg.state j.state;
  error = if not (is_nil j.error) && is_nil agg.error then j.error else agg.error;
  attempt = if ltb agg.attempt j.attempt then j.attempt else agg.attempt;
  started_at = earlier agg.started_at j.started_at;
  finished_at = later agg.finished_at j.finished_at;
}

-- `j.TableName + ":" + realPartition + ":" + j.Phase`
unfoldable pub aggregate_key : Job → Text
unfolding strip_chunk_suffix
aggregate_key j = j.table_name ++ (b':' ∷ (strip_chunk_suffix j.partition ++ (b':' ∷ j.phase)))

abbrev pub found_or_new : Job → Option JobResponse → JobResponse
unfolding new_aggregate
found_or_new j none = new_aggregate j
found_or_new j (some agg) = agg

-- A chunk goes into its aggregate.
unfoldable pub add_to_aggregate : Job → List (Text × JobResponse) → List (Text × JobResponse)
unfolding add_job found_or_new aggregate_key
add_to_aggregate j aggs =
    insert (aggregate_key j) (add_job (found_or_new j (lookup (aggregate_key j) aggs)) j) aggs

-- What the loop over the jobs has collected.
pub record Collected : Type 0 where
  pub aggregated : List (Text × JobResponse)
  pub result : List JobResponse

unfoldable pub collect_job : Job → Collected → Collected
unfolding is_chunk_partition add_to_aggregate
collect_job j c =
    if is_chunk_partition j.partition
    then record c { aggregated = add_to_aggregate j c.aggregated }
    else record c { result = c.result ++ plain_response j ∷ [] }

unfoldable pub collect : List Job → Collected → Collected
unfolding collect_job
collect [] c = c
collect (j ∷ js) c = collect js (collect_job j c)

-- The rows that were expected are at least those that were copied.
abbrev pub settled : Text × JobResponse → JobResponse
settled (k, agg) =
    if ltb agg.rows_expected agg.rows_copied
    then record agg { rows_expected = agg.rows_copied }
    else agg

abbrev pub nothing : Collected
nothing = record { aggregated = []; result = [] }

-- The jobs of the response of GetJobs.
unfoldable pub job_responses : List Job → List JobResponse
unfolding collect
job_responses jobs = let c = collect jobs nothing in c.result ++ map settled c.aggregated
