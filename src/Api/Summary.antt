-- ===== src/Api/Summary.antt =====
-- buildRunSummaryWithTiming of pkg/api/handlers.go: the counts of a run, with the chunks of a table
-- in a phase as one job.
pub mod Total
use existora2pg.Api.Jobs.{earlier, later}
use existora2pg.Api.Partitions.{is_chunk_partition}
use existora2pg.JobStore.{Job, JobState}
use existora2pg.Prelude.{
  ℕ, zero, suc, ◌+◌, ◌==◌, ltb, Bool, true, false, ◌&&◌, Text, codes, text_eq, List, [], ◌∷◌,
  Option, none, some, if◌then◌else◌,
}

-- The numbers of jobs in the states.
pub record Counts : Type 0 where
  pub pending : ℕ
  pub running : ℕ
  pub completed : ℕ
  pub failed : ℕ
  pub retrying : ℕ
  pub skipped : ℕ

abbrev pub no_counts : Counts
no_counts = record {
  pending = 0;
  running = 0;
  completed = 0;
  failed = 0;
  retrying = 0;
  skipped = 0;
}

-- The switch over the state.
abbrev pub count_state : JobState → Counts → Counts
count_state JobState.pending n = record n { pending = suc n.pending }
count_state JobState.running n = record n { running = suc n.running }
count_state JobState.completed n = record n { completed = suc n.completed }
count_state JobState.failed n = record n { failed = suc n.failed }
count_state JobState.retrying n = record n { retrying = suc n.retrying }
count_state JobState.skipped n = record n { skipped = suc n.skipped }

-- The chunks of a table in a phase.
pub record Group : Type 0 where
  pub table : Text
  pub phase : Text
  pub count : ℕ
  pub states : Counts

abbrev pub same_group : Job → Group → Bool
same_group j g = text_eq g.table j.table_name && text_eq g.phase j.phase

abbrev pub count_chunk : Job → Group → Group
count_chunk j g = record g { count = suc g.count; states = count_state j.state g.states }

-- `chunkGroups[key]` with one more chunk.
unfoldable pub add_to_groups : Job → List Group → List Group
add_to_groups j [] =
    record {
      table = j.table_name;
      phase = j.phase;
      count = 1;
      states = count_state j.state no_counts;
    }
    ∷ []
add_to_groups j (g ∷ gs) =
    let rest = add_to_groups j gs in if same_group j g then count_chunk j g ∷ gs else g ∷ rest

pub record Tally : Type 0 where
  pub groups : List Group
  pub total : ℕ
  pub plain : Counts

-- The first loop.
unfoldable pub tally_job : Job → Tally → Tally
unfolding is_chunk_partition add_to_groups
tally_job j t =
    if is_chunk_partition j.partition
    then record t { groups = add_to_groups j t.groups }
    else record t { total = suc t.total; plain = count_state j.state t.plain }

unfoldable pub tally : List Job → Tally → Tally
unfolding tally_job
tally [] t = t
tally (j ∷ js) t = tally js (tally_job j t)

-- The state that a group counts as.
unfoldable pub group_state : Group → JobState
group_state g =
    if ltb 0 g.states.failed
    then JobState.failed
    else if ltb 0 g.states.running
    then JobState.running
    else if ltb 0 g.states.retrying
    then JobState.retrying
    else if ltb 0 g.states.pending
    then JobState.pending
    else if g.states.completed == g.count
    then JobState.completed
    else JobState.skipped

unfoldable pub count_groups : List Group → Counts → Counts
unfolding group_state
count_groups [] n = n
count_groups (g ∷ gs) n = count_groups gs (count_state (group_state g) n)

-- The last loop: the times and the rows of the data phase.
abbrev pub earliest : List Job → Option ℕ → Option ℕ
earliest [] t = t
earliest (j ∷ js) t = earliest js (earlier t j.started_at)

abbrev pub latest : List Job → Option ℕ → Option ℕ
latest [] t = t
latest (j ∷ js) t = latest js (later t j.finished_at)

abbrev pub data_rows : List Job → ℕ
data_rows [] = 0
data_rows (j ∷ js) =
    let rest = data_rows js in if text_eq j.phase (codes "data") then j.rows_copied + rest else rest

pub record RunTimes : Type 0 where
  pub total : ℕ
  pub counts : Counts
  pub started_at : Option ℕ
  pub finished_at : Option ℕ
  pub total_rows : ℕ

abbrev pub group_count : List Group → ℕ
group_count [] = 0
group_count (g ∷ gs) = suc (group_count gs)

abbrev pub empty_tally : Tally
empty_tally = record { groups = []; total = 0; plain = no_counts }

-- buildRunSummaryWithTiming
unfoldable pub build_run_summary : List Job → RunTimes
unfolding tally count_groups
build_run_summary jobs =
    let t = tally jobs empty_tally in
    record {
      total = t.total + group_count t.groups;
      counts = count_groups t.groups t.plain;
      started_at = earliest jobs none;
      finished_at = latest jobs none;
      total_rows = data_rows jobs;
    }
